-- ===== src/Console/Tests.antt =====
-- A session on a console, and the theorems at it.
use rasterm.Base.{ℕ, ◌+◌, ◌≡◌, ◌≢◌, refl, true, false, none, arith}
use rasterm.Error.{no_error, control_handler_registration_failed}
use rasterm.Console.{
  System, new_session, Answers, activate, open_console, take_console, restore, acquire, release,
  undo,
}
use rasterm.Console.Restore.{IsClean, SameConsole, activate-SameConsole, restore-activate}

abbrev console : System
console = record {
  console_mode = 3;
  stdout_mode = 2;
  handlers = 0;
  active_owner = none;
  active_handle = false;
  active_original_mode = 0;
  active_alternate = false;
}

abbrev all_well : Answers
all_well = record {
  valid_handle = true;
  is_console = true;
  has_size = true;
  mode_read = true;
  mode_set = true;
  mode_verified = true;
  stdout_set = true;
  handler_set = true;
  restores = true;
}

abbrev no_handler : Answers
no_handler = record all_well { handler_set = false }

abbrev enable : ℕ → ℕ
enable mode = mode + 4

clean : IsClean (new_session 8)
clean = record { handle = refl; stdout = refl; unregistered = refl; unowned = refl }

no_handler-fails :
    (activate enable 1 no_handler true (new_session 8) console).0
    ≡ control_handler_registration_failed
unfolding activate open_console take_console restore acquire release undo
no_handler-fails = refl

no_handler-failed : (activate enable 1 no_handler true (new_session 8) console).0 ≢ no_error
unfolding activate open_console take_console restore acquire release undo
no_handler-failed e = ground arith

activate-SameConsole_example :
    let r = activate enable 1 no_handler true (new_session 8) console in
    IsClean r.1 × SameConsole r.2 console
activate-SameConsole_example =
    activate-SameConsole enable 1 no_handler true (new_session 8) console refl clean refl
      no_handler-failed

all_well-activates : (activate enable 1 all_well true (new_session 8) console).0 ≡ no_error
unfolding activate open_console take_console restore acquire release
all_well-activates = refl

restore-activate_example :
    let r = activate enable 1 all_well true (new_session 8) console in
    let q = restore all_well r.1 r.2 in IsClean q.0 × SameConsole q.1 console
restore-activate_example =
    restore-activate enable 1 all_well true (new_session 8) console refl clean refl refl
      all_well-activates
