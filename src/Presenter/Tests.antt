-- ===== src/Presenter/Tests.antt =====
-- Runs of the presenter, and its theorems at concrete inputs.
use rasterm.Base.{◌≡◌, refl, true, false, [], ◌∷◌, arith}
use rasterm.Damage.Rect.{covered}
use rasterm.Presenter.State.{indexed, Presenter, fresh_presenter, no_view, has_pending}
use rasterm.Presenter.Submit.{
  Submission, copies, shares, all_fits, accepted, submit, submit_copy, submit_shared, publish,
  merge_step, merge_pending_damage, kept_damage, invalidate, finish_wait,
}
use rasterm.Presenter.Worker.{handed_view, take_frame, finish_frame, started, initialize}
use rasterm.Presenter.Steps.{
  Step, Run, begins, submits, steps, takes, at_top, finishes, initializes,
}
use rasterm.Presenter.Accounting.{IsAccounted, Run-IsAccounted, finish_wait-ended, ended}
use rasterm.Presenter.Handed.{Shows}
use rasterm.Presenter.Newest.{Since, accepts, goes_on, Since-Shows}
use rasterm.Error.{no_error}
use rasterm.Presenter.Steps.{invalidates}

-- A frame of three by two pixels with a dirty column, and one with another.
abbrev left_column : Submission
left_column = record {
  method = copies;
  kind = indexed;
  view = record no_view {
    bytes = λ i. i;
    width = 3;
    height = 2;
    stride = 5;
    pixel_bytes = 1;
    palette = 4 ∷ 9 ∷ [];
    frame_id = 1;
    damage = record { x = 0; y = 0; width = 1; height = 2 } ∷ [];
    damage_supplied = true;
  };
  valid = true;
}

abbrev right_column : Submission
right_column = record left_column {
  method = shares 7;
  view = record left_column.view {
    frame_id = 2;
    damage = record { x = 2; y = 0; width = 1; height = 2 } ∷ [];
  };
}

abbrev opened : Presenter
opened = (initialize started true false fresh_presenter).1

abbrev one_waits : Presenter
one_waits = (submit all_fits left_column opened).1

abbrev replaced_one : Presenter
replaced_one = (submit all_fits right_column one_waits).1

opened-Run : Run 1 opened
opened-Run = steps (initializes refl refl refl started true false) begins

Run-IsAccounted_example : IsAccounted 3 replaced_one
Run-IsAccounted_example =
    Run-IsAccounted (omega arith) (submits right_column (submits left_column opened-Run))

abbrev taken_one : Presenter
taken_one = (take_frame one_waits).1

abbrev presented_one : Presenter
presented_one = finish_frame no_error true no_error taken_one

takes_one : Step one_waits taken_one
unfolding submit submit_copy initialize publish merge_step merge_pending_damage kept_damage
takes_one = takes (at_top refl refl refl refl) refl

presents_one : Step taken_one presented_one
unfolding take_frame
presents_one = finishes refl no_error true no_error

presented_one-idle : (finish_wait presented_one).0 ≡ true
unfolding submit submit_copy initialize publish merge_step merge_pending_damage kept_damage
    take_frame finish_frame finish_wait
presented_one-idle = refl

finish_wait-ended_example : presented_one.statistics.submitted ≡ ended presented_one.statistics
finish_wait-ended_example =
    finish_wait-ended (omega arith)
      (steps presents_one (steps takes_one (submits left_column opened-Run))) presented_one-idle

one_accepted : (submit all_fits left_column opened).0 ≡ accepted
unfolding submit submit_copy initialize publish merge_step merge_pending_damage kept_damage
one_accepted = refl

one_invalidated : has_pending (invalidate one_waits).1 ≡ true
unfolding submit submit_copy initialize publish merge_step merge_pending_damage kept_damage
    invalidate
one_invalidated = refl

one_waits-Since : Since left_column one_waits
one_waits-Since = accepts opened one_accepted

Since-Shows_example : Shows indexed left_column.view (take_frame (invalidate one_waits).1).0
Since-Shows_example = Since-Shows (goes_on invalidates one_waits-Since) one_invalidated

-- Both columns, and nothing between them.
both_columns :
    (covered (take_frame replaced_one).0.damage 0 1 ≡ true)
    × (covered (take_frame replaced_one).0.damage 1 1 ≡ false)
    × (covered (take_frame replaced_one).0.damage 2 1 ≡ true)
unfolding submit submit_copy submit_shared initialize publish merge_step merge_pending_damage
    kept_damage take_frame handed_view
both_columns = (refl, refl, refl)
