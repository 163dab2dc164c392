-- ===== src/Engine/Restores.antt =====
-- Whatever happens to an engine, the console is put back.
use rasterm.Base.{
  ℕ, ◌≡◌, ◌≢◌, refl, sym, ◌∙◌, inl, inr, Bool, true, false, not, ◌&&◌, Bool-cases, none, some,
  if◌then◌else◌, arith,
}
use rasterm.Error.{
  ErrorCode, is_none, no_error, invalid_argument, unsupported_terminal, output_write_failed,
}
use rasterm.Engine.Statistics.{no_stats, clear_samples}
use rasterm.Engine.Options.{EngineOptions, TerminalCapabilities, valid_options, apply_overrides}
use rasterm.Terminal.{good}
use rasterm.Renderer.State as State
use rasterm.Engine.{
  Engine, Exception, bad_alloc, other_exception, initialization_code, Raised, not_raised,
  raised_before, raised_after, is_supported, has_renderer, renderer_options, shutdown, abandon,
  take_output, start_renderer, initialize_valid, initialize,
}
use rasterm.Console.{System, Session, activate}
use rasterm.Console as Console
use rasterm.Console.Restore.{
  IsClean, SameConsole, restore-SameConsole, activate-SameConsole, restore-activate,
}

SameConsole-trans : (u v w : System) → SameConsole u v → SameConsole v w → SameConsole u w
SameConsole-trans u v w e e' = record {
  console = e.console ∙ e'.console;
  stdout = e.stdout ∙ e'.stdout;
  handlers = e.handlers ∙ e'.handlers;
  owner = e.owner ∙ e'.owner;
  handle = e.handle ∙ e'.handle;
}

-- A session that puts the console back as it was in `v`, if the calls that put the mode back succeed.
unfoldable pub IsRestorable : Session → System → System → Type 0
IsRestorable s w v =
    (answers : Console.Answers)
    → answers.restores ≡ true
    → let q = Console.restore answers s w in IsClean q.0 × SameConsole q.1 v

restore-answers :
    (a b : Console.Answers) (s : Session) (w : System)
    → a.restores ≡ b.restores
    → Console.restore a s w ≡ Console.restore b s w
unfolding Console.restore Console.release
restore-answers a b s w e = rw e

initialization_code-error : (exception : Exception) → initialization_code exception ≢ no_error
initialization_code-error bad_alloc h = ground (arith, h)
initialization_code-error other_exception h = ground (arith, h)

-- A clean session on the console as it was.
pub clean-IsRestorable :
    (s : Session) (w v : System)
    → IsClean s
    → SameConsole w v
    → v.active_owner ≡ none
    → IsRestorable s w v
unfolding IsRestorable
clean-IsRestorable s w v clean same free answers ok =
    let (clean', same') = restore-SameConsole answers s w clean (same.owner ∙ free) in
    (clean', SameConsole-trans _ w v same' same)

module _ (v : System) (free : v.active_owner ≡ none) (quiet : v.active_handle ≡ false)
    (answers : Console.Answers) (ok : answers.restores ≡ true) where
  -- What an engine is after `initialize` returned a code.
  unfoldable pub IsStarted : {S : Type 0} → ErrorCode × Engine S × System → Type 0
  IsStarted (code, e, w) =
      (code ≢ no_error
        → (e.initialized ≡ false) × (e.renderer ≡ none) × IsClean e.console × SameConsole w v)
      × (code ≡ no_error → (e.initialized ≡ true) × (has_renderer e.renderer ≡ true))
      × IsRestorable e.console w v

  module _ (enable : ℕ → ℕ) (binary : ℕ) where
    activate-IsRestorable :
        (alternate : Bool) (s : Session) (w : System)
        → IsClean s
        → SameConsole w v
        → (activate enable binary answers alternate s w).0 ≡ no_error
        → let r = activate enable binary answers alternate s w in IsRestorable r.1 r.2 v
    unfolding IsRestorable
    activate-IsRestorable alternate s w clean same done answers' ok' =
        let r = activate enable binary answers alternate s w in
        let (clean', same') =
          restore-activate enable binary answers alternate s w ok clean (same.owner ∙ free)
            (same.handle ∙ quiet) done in
        rw (restore-answers answers' answers r.1 r.2 (ok' ∙ sym ok))
          (clean', SameConsole-trans _ w v same' same)

  module _ {S : Type 0} where
    abandon-IsStarted :
        (code : ErrorCode) (e : Engine S) (w : System)
        → code ≢ no_error
        → e.initialized ≡ false
        → IsRestorable e.console w v
        → IsStarted (abandon answers code e w)
    unfolding abandon IsRestorable IsStarted
    abandon-IsStarted code e w wrong off restorable =
        let (clean, same) = restorable answers ok in
        (
          (λ h. (off, refl, clean, same)),
          (λ h. absurd (wrong h)),
          clean-IsRestorable _ _ v clean same free,
        )

    idle-IsStarted :
        (code : ErrorCode) (e : Engine S) (w : System)
        → code ≢ no_error
        → e.initialized ≡ false
        → e.renderer ≡ none
        → IsClean e.console
        → SameConsole w v
        → IsStarted (code, e, w)
    unfolding IsStarted
    idle-IsStarted code e w wrong off gone clean same = (
      (λ h. (off, gone, clean, same)),
      (λ h. absurd (wrong h)),
      clean-IsRestorable _ w v clean same free,
    )

    start_renderer-IsStarted :
        (sink : ℕ → Bool) (backend : S) (raised : Raised) (e : Engine S) (w : System)
        → e.initialized ≡ false
        → IsRestorable e.console w v
        → IsStarted (start_renderer answers sink backend raised e w)
    unfolding start_renderer IsStarted
    start_renderer-IsStarted sink backend raised e w off restorable =
        go (e.options.require_sixel_support && not (is_supported capabilities.sixel)) raised
          (good renderer.terminal)
      where
        capabilities : TerminalCapabilities
        capabilities = apply_overrides e.options.terminal_overrides e.detected_capabilities

        e' : Engine S
        e' = record e { detected_capabilities = capabilities }

        renderer : State.Renderer S
        renderer = State.construct sink backend (renderer_options e.options capabilities)

        checked : Bool → ErrorCode × Engine S × System
        checked accepted = if not accepted then abandon answers output_write_failed e' w else (
          no_error,
          record e' {
            renderer = some renderer;
            initialized = true;
            latest_stats = no_stats;
            samples = clear_samples e.samples;
            latest_status = no_error;
          },
          w,
        )

        checked-IsStarted : (accepted : Bool) → IsStarted (checked accepted)
        checked-IsStarted false =
            abandon-IsStarted output_write_failed e' w (λ h. ground (arith, h)) off restorable
        checked-IsStarted true = ((λ h. absurd (h refl)), (λ h. (refl, refl)), restorable)

        go :
            (refused : Bool) (r : Raised) (accepted : Bool)
            → IsStarted (
                if refused then abandon answers unsupported_terminal e' w else elim r [
                  | raised_after exception ↦ abandon answers (initialization_code exception) e' w
                  | _ ↦ checked accepted
                ])
        go true r accepted =
            abandon-IsStarted unsupported_terminal e' w (λ h. ground (arith, h)) off restorable
        go false (raised_after exception) accepted =
            abandon-IsStarted (initialization_code exception) e' w
              (initialization_code-error exception) off restorable
        go false not_raised accepted = checked-IsStarted accepted
        go false (raised_before exception) accepted = checked-IsStarted accepted

    module _ (enable : ℕ → ℕ) (binary : ℕ) (detected : TerminalCapabilities) where
      -- What an engine is after it took its output, with a code.
      IsTaken : ErrorCode × Engine S × System → Type 0
      IsTaken (code, e, w) =
          (is_none code ≡ true → IsRestorable e.console w v)
          × (is_none code ≡ false → IsClean e.console × SameConsole w v)
          × (e.initialized ≡ false)
          × (e.renderer ≡ none)

      take_output-IsTaken :
          (o : EngineOptions) (e : Engine S) (w : System)
          → IsClean e.console
          → SameConsole w v
          → e.initialized ≡ false
          → e.renderer ≡ none
          → IsTaken (take_output answers enable binary detected o e w)
      unfolding take_output IsTaken
      take_output-IsTaken o e w clean same off gone = elim (Bool-cases o.has_output) [
        | inl own ↦
            rw (own, take_output)
              (
                (λ h. clean-IsRestorable e.console w v clean same free),
                (λ h. absurd (ground (arith, h))),
                off,
                gone,
              )
        | inr console ↦
            let a = o.use_alternate_screen in
            rw (console, take_output)
              (
                (λ h. activate-IsRestorable enable binary a e.console w clean same (none-code _ h)),
                (λ h.
                    let (clean', same') =
                      activate-SameConsole enable binary answers a e.console w ok clean
                        (same.owner ∙ free) (some-code _ h) in
                    (clean', SameConsole-trans _ w v same' same)),
                off,
                gone,
              )
      ]
        where
          none-code : (code : ErrorCode) → is_none code ≡ true → code ≡ no_error
          none-code code h = ground (arith, h)

          some-code : (code : ErrorCode) → is_none code ≡ false → code ≢ no_error
          some-code code h e' = ground (arith, h, e')

      initialize_valid-IsStarted :
          (sink : ℕ → Bool) (configured : ErrorCode) (raised : Raised) (backend : S)
          (o : EngineOptions) (e : Engine S) (w : System)
          → IsClean e.console
          → SameConsole w v
          → e.initialized ≡ false
          → e.renderer ≡ none
          → IsStarted
              (initialize_valid answers enable binary sink detected configured raised backend o e w)
      unfolding initialize_valid IsTaken IsStarted
      initialize_valid-IsStarted sink configured raised backend o e w clean same off gone =
          go raised
        where
          ready : Engine S
          ready = record e { options = o; latest_status = configured }

          taken : ErrorCode × Engine S × System
          taken = take_output answers enable binary detected o ready w

          taken-IsTaken : IsTaken taken
          taken-IsTaken = take_output-IsTaken o ready w clean same off gone

          rest :
              (r : Raised) (quiet_start has_output : Bool)
              → is_none configured ≡ quiet_start
              → is_none taken.0 ≡ has_output
              → IsStarted (
                  if not quiet_start
                  then (configured, ready, w)
                  else if not has_output
                  then taken
                  else start_renderer answers sink backend r taken.1 taken.2)
          rest r false has_output h k =
              idle-IsStarted configured ready w (λ h'. ground (arith, h, h')) off gone clean same
          rest r true false h k =
              let (clean', same') = taken-IsTaken.1 k in
              idle-IsStarted taken.0 taken.1 taken.2 (λ h'. ground (arith, k, h')) taken-IsTaken.2
                taken-IsTaken.3 clean' same'
          rest r true true h k =
              start_renderer-IsStarted sink backend r taken.1 taken.2 taken-IsTaken.2
                (taken-IsTaken.0 k)

          go :
              (r : Raised)
              → IsStarted
                  (initialize_valid answers enable binary sink detected configured r backend o e w)
          go (raised_before exception) =
              abandon-IsStarted (initialization_code exception) (record e { options = o }) w
                (initialization_code-error exception) off
                (clean-IsRestorable e.console w v clean same free)
          go not_raised = rest not_raised (is_none configured) (is_none taken.0) refl refl
          go (raised_after exception) =
              rest (raised_after exception) (is_none configured) (is_none taken.0) refl refl

      -- An initialisation that fails, at whichever point and by whichever exception, leaves an engine without a
      -- renderer whose session is clean, and the console as it was before the engine was ever
      -- initialised; one that succeeds leaves an engine that puts the console back. The calls that put the
      -- console mode back succeed, and no session owned the terminal at first.
      pub initialize-IsStarted :
          (sink : ℕ → Bool) (configured : ErrorCode) (raised : Raised) (backend : S)
          (o : EngineOptions) (e : Engine S) (w : System)
          → IsRestorable e.console w v
          → IsStarted
              (initialize answers enable binary sink detected configured raised backend o e w)
      unfolding initialize shutdown IsRestorable
      initialize-IsStarted sink configured raised backend o e w restorable =
          let (clean, same) = restorable answers ok in
          let (e', w') = shutdown answers e w in
          elim (Bool-cases (valid_options o)) [
            | inr invalid ↦
                rw (invalid, initialize)
                  (idle-IsStarted invalid_argument (record e' { latest_status = invalid_argument })
                    w' (λ h. ground (arith, h)) refl refl clean same)
            | inl valid ↦
                rw (valid, initialize)
                  (initialize_valid-IsStarted sink configured raised backend o e' w' clean same refl
                    refl)
          ]
