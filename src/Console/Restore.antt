-- ===== src/Console/Restore.antt =====
-- What a session puts back.
use rasterm.Base.{ℕ, ◌≡◌, ◌≢◌, refl, ◌∙◌, Bool, true, false, none, some, arith}
use rasterm.Error.{no_error}
use rasterm.Console.{
  System, Session, Answers, acquire, release, restore, undo, take_console, open_console, activate,
  restore_on_control_event,
}

-- A session that has not changed the console.
pub record IsClean (s : Session) : Type 0 where
  pub handle : s.has_handle ≡ false
  pub stdout : s.original_stdout ≡ none
  pub unregistered : s.registered ≡ false
  pub unowned : s.owned ≡ false

-- Two states of the console and of its ownership are the same, up to what is kept for a control event.
pub record SameConsole (v w : System) : Type 0 where
  pub console : v.console_mode ≡ w.console_mode
  pub stdout : v.stdout_mode ≡ w.stdout_mode
  pub handlers : v.handlers ≡ w.handlers
  pub owner : v.active_owner ≡ w.active_owner
  pub handle : v.active_handle ≡ w.active_handle

-- A clean session puts nothing back.
pub restore-SameConsole :
    (answers : Answers) (s : Session) (w : System)
    → IsClean s
    → w.active_owner ≡ none
    → let q = restore answers s w in IsClean q.0 × SameConsole q.1 w
unfolding restore release
restore-SameConsole answers s w clean free = ground arith

module _ (enable : ℕ → ℕ) (binary : ℕ) where
  -- A failure once the terminal is owned by the session.
  take_console-SameConsole :
      (answers : Answers) (alternate : Bool) (s : Session) (w : System)
      → answers.restores ≡ true
      → s.has_handle ≡ false
      → s.original_stdout ≡ none
      → s.registered ≡ false
      → w.active_owner ≡ some s.name
      → (take_console enable binary answers alternate s w).0 ≢ no_error
      → let r = take_console enable binary answers alternate s w in
        IsClean r.1 × SameConsole r.2 (record w { active_owner = none })
  unfolding take_console undo release
  take_console-SameConsole answers alternate s w ok handle stdout plain owner failed = ground arith

  open_console-SameConsole :
      (answers : Answers) (alternate : Bool) (s : Session) (w : System)
      → answers.restores ≡ true
      → IsClean s
      → w.active_owner ≡ none
      → (open_console enable binary answers alternate s w).0 ≢ no_error
      → let r = open_console enable binary answers alternate s w in IsClean r.1 × SameConsole r.2 w
  unfolding open_console acquire release
  open_console-SameConsole answers alternate s w ok clean free failed = ground (
    arith,
    take_console-SameConsole answers alternate (record s { owned = true })
        (record w { active_owner = some s.name }) ok clean.handle clean.stdout clean.unregistered
        refl,
  )

  -- When an activation of a clean session fails, at whichever call, while no session owns the terminal,
  -- the session is clean again and the console is as it was, if the calls that put the mode back
  -- succeed.
  pub activate-SameConsole :
      (answers : Answers) (alternate : Bool) (s : Session) (w : System)
      → answers.restores ≡ true
      → IsClean s
      → w.active_owner ≡ none
      → (activate enable binary answers alternate s w).0 ≢ no_error
      → let r = activate enable binary answers alternate s w in IsClean r.1 × SameConsole r.2 w
  unfolding activate
  activate-SameConsole answers alternate s w ok clean free failed =
      let (clean', same) = restore-SameConsole answers s w clean free in
      let (clean'', same') =
        open_console-SameConsole answers alternate _ _ ok clean' (same.owner ∙ free) failed in
      (clean'', ground arith)

  -- A session that was activated from a clean one while no other owned the terminal puts the console
  -- back as it was, if the calls that put the mode back succeed.
  pub restore-activate :
      (answers : Answers) (alternate : Bool) (s : Session) (w : System)
      → answers.restores ≡ true
      → IsClean s
      → w.active_owner ≡ none
      → w.active_handle ≡ false
      → (activate enable binary answers alternate s w).0 ≡ no_error
      → let r = activate enable binary answers alternate s w in
        let q = restore answers r.1 r.2 in IsClean q.0 × SameConsole q.1 w
  unfolding activate open_console restore acquire release take_console undo
  restore-activate answers alternate s w ok clean free quiet done = ground arith

  -- A control event that cancels the process while such a session is active sets the console mode that
  -- was there before the session, if the call succeeds.
  pub control_event-activate :
      (answers : Answers) (alternate : Bool) (s : Session) (w : System)
      → answers.restores ≡ true
      → IsClean s
      → w.active_owner ≡ none
      → (activate enable binary answers alternate s w).0 ≡ no_error
      → (restore_on_control_event answers
          (activate enable binary answers alternate s w).2).console_mode
        ≡ w.console_mode
  unfolding activate open_console restore acquire release take_console restore_on_control_event
  control_event-activate answers alternate s w ok clean free done = ground arith
