-- ===== src/Engine/Life.antt =====
-- The life of an engine: its operations in any order.
use mathlib.Core.Path.{subst}
use rasterm.Engine.Statistics.{RenderStats}
use rasterm.Renderer.State as State
use rasterm.Base.{
  ℕ, ◌≡◌, ◌≢◌, refl, sym, ap, ◌∙◌, inl, inr, Bool, true, false, not, ◌||◌, Bool-cases, Option, none,
  some, List, [], ◌∷◌, if◌then◌else◌, arith,
}
use rasterm.Error.{ErrorCode, is_none, no_error, invalid_argument}
use rasterm.Console.{System, Session}
use rasterm.Console as Console
use rasterm.Console.Restore.{IsClean, SameConsole}
use rasterm.Renderer.State.{Frame, Backend, Renderer}
use rasterm.Engine.Options.{TerminalGeometry, TerminalCapabilities, EngineOptions}
use rasterm.Engine.{Engine, Raised, Thrown, not_thrown, thrown, has_renderer, shutdown, initialize}
use rasterm.Engine.Rendering.{
  Environment, render_failure, refresh_terminal_geometry, draw_frame, render_view, clear, reset,
}
use rasterm.Engine.Restores.{IsRestorable, IsStarted, initialize-IsStarted, clean-IsRestorable}

-- A call of a public method, with what the system answers in it.
pub data Operation (S : Type 0) : Type 0 where
  initializes :
      Console.Answers
      → (ℕ → Bool)
      → TerminalCapabilities
      → ErrorCode
      → Raised
      → S
      → EngineOptions
      → Operation S
  shuts_down : Console.Answers → Operation S
  renders : Environment → TerminalGeometry → ℕ → Thrown S → Bool → Frame → Operation S
  clears : (ℕ → Bool) → Operation S
  resets : Operation S

either : {A : Type 0} (P : A → Type 0) (c : Bool) (x y : A) → P x → P y → P (if c then x else y)
either P true x y p q = p
either P false x y p q = q

-- The calls that put the console mode back succeed.
abbrev restoring : Console.Answers → Console.Answers
restoring answers = record answers { restores = true }

-- An engine has a renderer while it is initialised.
abbrev pub IsPaired : {S : Type 0} → Engine S → Type 0
IsPaired e = e.initialized ≡ has_renderer e.renderer

module _ {S : Type 0} (b : Backend S) (enable : ℕ → ℕ) (binary : ℕ) where
  pub step : Operation S → Engine S × System → Engine S × System
  step (initializes answers sink detected configured raised backend o) (e, w) =
      let (code, e', w') =
        initialize (restoring answers) enable binary sink detected configured raised backend o e
          w in
      (e', w')
  step (shuts_down answers) (e, w) = shutdown (restoring answers) e w
  step (renders env current time outcome accepted f) (e, w) =
      ((render_view b env current time outcome accepted f e).1, w)
  step (clears sink) (e, w) = ((clear b sink e).1, w)
  step resets (e, w) = (reset b e, w)

  pub run : List (Operation S) → Engine S × System → Engine S × System
  run [] state = state
  run (op ∷ ops) state = run ops (step op state)

  draw_frame-kept :
      (env : Environment) (time : ℕ) (outcome : Thrown S) (f : Frame) (e : Engine S)
      (r : Renderer S)
      → let e' = (draw_frame b env time outcome f e r).1 in
        (e'.console ≡ e.console)
        × (e'.initialized ≡ e.initialized)
        × (has_renderer e'.renderer ≡ true)
  unfolding draw_frame render_failure
  draw_frame-kept env time (thrown exception left) f e r = (refl, refl, refl)
  draw_frame-kept env time not_thrown f e r = (refl, refl, refl)

  refresh-kept :
      (current : TerminalGeometry) (e : Engine S) (r : Renderer S)
      → let e' = (refresh_terminal_geometry b current e r).0 in
        (e'.console ≡ e.console) × (e'.initialized ≡ e.initialized)
  unfolding refresh_terminal_geometry
  refresh-kept current e r =
      either Kept e.options.has_output _ _ (refl, refl)
        (either Kept _ _ _ (refl, refl) (refl, refl))
    where
      Kept : Engine S × Renderer S → Type 0
      Kept (e', r') = (e'.console ≡ e.console) × (e'.initialized ≡ e.initialized)

  render_view-kept :
      (env : Environment) (current : TerminalGeometry) (time : ℕ) (outcome : Thrown S)
      (accepted : Bool) (f : Frame) (e : Engine S)
      → IsPaired e
      → let e' = (render_view b env current time outcome accepted f e).1 in
        (e'.console ≡ e.console) × IsPaired e'
  unfolding render_view render_failure
  render_view-kept env current time outcome accepted f e paired = go e.renderer refl
    where
      Kept : RenderStats × Engine S → Type 0
      Kept (stats, e') = (e'.console ≡ e.console) × IsPaired e'

      refused : RenderStats × Engine S
      refused = render_failure invalid_argument e

      viewed : Renderer S → RenderStats × Engine S
      viewed r =
          let (e', r') = refresh_terminal_geometry b current e r in
          if not e.initialized || not accepted
          then refused
          else draw_frame b env time outcome f e' r'

      on : e.initialized ≡ true → (r : Renderer S) → Kept (viewed r)
      on alive r =
          let (e', r') = refresh_terminal_geometry b current e r in
          let drawn = draw_frame-kept env time outcome f e' r' in
          let fresh = refresh-kept current e r in
          either Kept (not e.initialized || not accepted) refused
            (draw_frame b env time outcome f e' r') (refl, paired)
            (drawn.0 ∙ fresh.0, drawn.1 ∙ fresh.1 ∙ alive ∙ sym drawn.2)

      go :
          (o : Option (Renderer S))
          → o ≡ e.renderer
          → Kept (elim o [ none ↦ refused | some r ↦ viewed r ])
      go none gone = (refl, paired)
      go (some r) there = on (paired ∙ ap has_renderer (sym there)) r

  clear-kept :
      (sink : ℕ → Bool) (e : Engine S)
      → IsPaired e
      → let e' = (clear b sink e).1 in (e'.console ≡ e.console) × IsPaired e'
  unfolding clear
  clear-kept sink e paired = go e.renderer refl
    where
      Kept : ErrorCode × Engine S → Type 0
      Kept (code, e') = (e'.console ≡ e.console) × IsPaired e'

      refused : ErrorCode × Engine S
      refused = (invalid_argument, record e { latest_status = invalid_argument })

      cleared : Renderer S → ErrorCode × Engine S
      cleared r =
          let (code, r') = State.clear sink b r in
          if not e.initialized
          then refused
          else (code, record e { renderer = some r'; latest_status = code })

      go :
          (o : Option (Renderer S))
          → o ≡ e.renderer
          → Kept (elim o [ none ↦ refused | some r ↦ cleared r ])
      go none gone = (refl, paired)
      go (some r) there =
          either Kept (not e.initialized) refused
            (
              (State.clear sink b r).0,
              record e {
                renderer = some (State.clear sink b r).1;
                latest_status = (State.clear sink b r).0;
              },
            )
            (refl, paired) (refl, paired ∙ ap has_renderer (sym there))

  reset-kept :
      (e : Engine S) → IsPaired e → let e' = reset b e in (e'.console ≡ e.console) × IsPaired e'
  unfolding reset
  reset-kept e paired = (refl, paired ∙ same e.renderer)
    where
      same :
          (o : Option (Renderer S))
          → has_renderer o ≡ has_renderer (elim o [ none ↦ none | some r ↦ some (State.reset b r) ])
      same none = refl
      same (some r) = refl

  module _ (v : System) (free : v.active_owner ≡ none) (quiet : v.active_handle ≡ false) where
    -- An engine that has a renderer while it is initialised, and puts the console back as it was in `v`.
    abbrev pub IsAlive : Engine S × System → Type 0
    IsAlive (e, w) = IsPaired e × IsRestorable e.console w v

    shutdown-IsAlive :
        (answers : Console.Answers) (e : Engine S) (w : System)
        → IsRestorable e.console w v
        → IsAlive (shutdown (restoring answers) e w)
    unfolding shutdown IsRestorable
    shutdown-IsAlive answers e w restorable =
        let (clean, same) = restorable (restoring answers) refl in
        (refl, clean-IsRestorable _ _ v clean same free)

    none-code : (code : ErrorCode) → is_none code ≡ true → code ≡ no_error
    none-code code h = ground (arith, h)

    some-code : (code : ErrorCode) → is_none code ≡ false → code ≢ no_error
    some-code code h e' = ground (arith, h, e')

    step-IsAlive :
        (op : Operation S) (e : Engine S) (w : System) → IsAlive (e, w) → IsAlive (step op (e, w))
    unfolding step IsStarted
    step-IsAlive (initializes answers sink detected configured raised backend o) e w
          (paired, restorable) =
        let outcome =
          initialize (restoring answers) enable binary sink detected configured raised backend o e
            w in
        let started =
          initialize-IsStarted v free quiet (restoring answers) refl enable binary detected sink
            configured raised backend o e w restorable in
        (
          elim (Bool-cases (is_none outcome.0)) [
            | inl fine ↦ let (on, there) = started.1 (none-code _ fine) in on ∙ sym there
            | inr wrong ↦
                let (off, gone, clean, same) = started.0 (some-code _ wrong) in
                off ∙ sym (ap has_renderer gone)
          ],
          started.2,
        )
    step-IsAlive (shuts_down answers) e w (paired, restorable) =
        shutdown-IsAlive answers e w restorable
    step-IsAlive (renders env current time outcome accepted f) e w (paired, restorable) =
        let (same, paired') = render_view-kept env current time outcome accepted f e paired in
        (paired', subst (λ s. IsRestorable s w v) (sym same) restorable)
    step-IsAlive (clears sink) e w (paired, restorable) =
        let (same, paired') = clear-kept sink e paired in
        (paired', subst (λ s. IsRestorable s w v) (sym same) restorable)
    step-IsAlive resets e w (paired, restorable) =
        let (same, paired') = reset-kept e paired in
        (paired', subst (λ s. IsRestorable s w v) (sym same) restorable)

    run-IsAlive :
        (ops : List (Operation S)) (e : Engine S) (w : System)
        → IsAlive (e, w)
        → IsAlive (run ops (e, w))
    unfolding run
    run-IsAlive [] e w alive = alive
    run-IsAlive (op ∷ ops) e w alive =
        let (e', w') = step op (e, w) in run-IsAlive ops e' w' (step-IsAlive op e w alive)

    -- An engine whose session is clean at first, while no session owns the terminal: after any calls of its
    -- methods it has a renderer exactly while it is initialised, and a shutdown then leaves its session
    -- clean and the console as it was, if the calls that put the console mode back succeed.
    pub run-shutdown :
        (ops : List (Operation S)) (answers : Console.Answers) (e : Engine S)
        → IsPaired e
        → IsClean e.console
        → let (e', w') = run ops (e, v) in
          let (e'', w'') = shutdown (restoring answers) e' w' in
          IsPaired e' × IsClean e''.console × SameConsole w'' v
    unfolding shutdown IsRestorable
    run-shutdown ops answers e paired clean =
        let same : SameConsole v v = record {
          console = refl;
          stdout = refl;
          handlers = refl;
          owner = refl;
          handle = refl;
        } in
        let (paired', restorable) =
          run-IsAlive ops e v (paired, clean-IsRestorable e.console v v clean same free) in
        let (clean', same') = restorable (restoring answers) refl in (paired', clean', same')
