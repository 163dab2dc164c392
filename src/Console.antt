-- ===== src/Console.antt =====
-- src/platform/windows/TerminalOwner.cpp and ConsoleSession.cpp: which session owns the terminal of the
-- process, and what it changes of the console and puts back.
-- The operating system answers as a parameter (`Answers`); what the model takes from its documentation
-- is that a `SetConsoleMode` or `_setmode` that succeeds stores the mode and one that fails stores
-- nothing. `enable` is a mode with the bit ENABLE_VIRTUAL_TERMINAL_PROCESSING set, and
-- `binary` is _O_BINARY.
pub mod Restore
mod Tests
use rasterm.Base.{
  ℕ, ◌+◌, ◌-◌, Bool, true, false, not, ◌||◌, ◌&&◌, Option, none, some, ◌==◌, if◌then◌else◌,
}
use rasterm.Error.{
  ErrorCode, no_error, invalid_argument, invalid_output_handle, output_is_not_console,
  terminal_dimensions_unavailable, console_mode_query_failed, console_mode_enable_failed,
  stdout_mode_failed, control_handler_registration_failed,
}

-- The console of the process, and the variables of the two files outside their classes. The owner is
-- known by the name of its session.
pub record System : Type 0 where
  pub console_mode : ℕ
  pub stdout_mode : ℕ
  pub handlers : ℕ
  pub active_owner : Option ℕ
  pub active_handle : Bool
  pub active_original_mode : ℕ
  pub active_alternate : Bool

-- The members of `ConsoleSession`, with `owned` of its `TerminalOwner`. A stdout mode of -1 is `none`,
-- and `has_handle` is whether the output handle is valid.
pub record Session : Type 0 where
  pub name : ℕ
  pub owned : Bool
  pub has_handle : Bool
  pub original_mode : ℕ
  pub original_stdout : Option ℕ
  pub registered : Bool

-- The members as they are initialised.
abbrev pub new_session : ℕ → Session
new_session name = record {
  name = name;
  owned = false;
  has_handle = false;
  original_mode = 0;
  original_stdout = none;
  registered = false;
}

-- What the system answers: the three facts of the probe, then each call of `activate` in its order, and
-- whether the calls that put the console mode back succeed.
pub record Answers : Type 0 where
  pub valid_handle : Bool
  pub is_console : Bool
  pub has_size : Bool
  pub mode_read : Bool
  pub mode_set : Bool
  pub mode_verified : Bool
  pub stdout_set : Bool
  pub handler_set : Bool
  pub restores : Bool

abbrev owns : Option ℕ → ℕ → Bool
owns none name = false
owns (some owner) name = owner == name

abbrev is_free : Option ℕ → Bool
is_free none = true
is_free (some owner) = false

unfoldable pub acquire : Session → System → Bool × Session × System
acquire s w =
    if s.owned
    then (true, s, w)
    else if is_free w.active_owner
    then (true, record s { owned = true }, record w { active_owner = some s.name })
    else (false, s, w)

unfoldable pub release : Session → System → Session × System
release s w = (
  record s { owned = false },
  if owns w.active_owner s.name then record w { active_owner = none } else w,
)

-- `SetConsoleMode` and `_setmode` with the answer of the system.
abbrev set_mode : Bool → ℕ → System → System
set_mode ok mode w = if ok then record w { console_mode = mode } else w

abbrev put_stdout : Option ℕ → System → System
put_stdout none w = w
put_stdout (some mode) w = record w { stdout_mode = mode }

unfoldable pub restore : Answers → Session → System → Session × System
unfolding release
restore answers s w =
    let w1 =
      if s.registered then record w { active_handle = false; handlers = w.handlers - 1 } else w in
    let w2 = put_stdout s.original_stdout w1 in
    let w3 = if s.has_handle then set_mode answers.restores s.original_mode w2 else w2 in
    release (record s { registered = false; original_stdout = none; has_handle = false }) w3

-- A failure of `activate` after the console mode was changed: the mode and the ownership go back.
unfoldable pub undo : Answers → Session → System → Session × System
unfolding release
undo answers s w =
    release (record s { has_handle = false; original_stdout = none })
      (set_mode answers.restores s.original_mode w)

-- A failure of `activate`: its code, and what it left.
abbrev fail_with : ErrorCode → Session × System → ErrorCode × Session × System
fail_with code r = (code, r.0, r.1)

module _ (enable : ℕ → ℕ) (binary : ℕ) where
  -- `activate` once the terminal is owned and probed.
  unfoldable pub take_console : Answers → Bool → Session → System → ErrorCode × Session × System
  unfolding undo release
  take_console answers alternate s w =
      let s1 = record s { has_handle = true; original_mode = w.console_mode } in
      let w1 = set_mode answers.mode_set (enable w.console_mode) w in
      let s2 = record s1 { original_stdout = some w1.stdout_mode } in
      let w2 = record w1 { stdout_mode = binary } in
      let s3 = record s2 { registered = true } in
      let w3 = record w2 {
        handlers = w2.handlers + 1;
        active_original_mode = s1.original_mode;
        active_alternate = alternate;
        active_handle = true;
      } in
      if not answers.mode_read
      then fail_with console_mode_query_failed (release s w)
      else if not answers.mode_set
      then fail_with console_mode_enable_failed (release (record s1 { has_handle = false }) w)
      else if not answers.mode_verified
      then fail_with console_mode_enable_failed (undo answers s1 w1)
      else if not answers.stdout_set
      then fail_with stdout_mode_failed (undo answers s1 w1)
      else if not answers.handler_set
      then fail_with control_handler_registration_failed
          (undo answers s2 (put_stdout s2.original_stdout w2))
      else (no_error, s3, w3)

  -- `activate` after its call of `restore`.
  unfoldable pub open_console : Answers → Bool → Session → System → ErrorCode × Session × System
  unfolding acquire release take_console
  open_console answers alternate s w =
      let (acquired, s1, w1) = acquire s w in
      if not acquired
      then (invalid_argument, s1, w1)
      else if not answers.valid_handle
      then fail_with invalid_output_handle (release s1 w1)
      else if not answers.is_console
      then fail_with output_is_not_console (release s1 w1)
      else if not answers.has_size
      then fail_with terminal_dimensions_unavailable (release s1 w1)
      else take_console answers alternate s1 w1

  unfoldable pub activate : Answers → Bool → Session → System → ErrorCode × Session × System
  unfolding restore open_console
  activate answers alternate s w =
      let (s', w') = restore answers s w in open_console answers alternate s' w'

-- `restoreOnControlEvent` for the events of a cancelled process: what becomes of the console mode.
unfoldable pub restore_on_control_event : Answers → System → System
restore_on_control_event answers w =
    if w.active_handle then set_mode answers.restores w.active_original_mode w else w
