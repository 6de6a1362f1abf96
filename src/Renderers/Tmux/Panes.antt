-- ===== src/Renderers/Tmux/Panes.antt =====
-- `render` and `reset` of crates/ats-renderer-tmux/src/lib.rs: the commands and their targets.
use agent_term_status.Prelude.{
  String, String_eq, true, false, Option, some, none, List, [], ◌∷◌, ◌++◌, append_assoc, All,
  All-append, ◌≡◌, refl, ap, ◌∙◌, Result, ok, err, Bool-cases, inl, inr, ◌⊎◌,
}
use agent_term_status.Prelude.HashMap.{contains_key, get}
use agent_term_status.Renderer.{RenderTarget, StateView, RendererError}
use agent_term_status.Renderers.Process.{Outside, Exit, not_run, exited, run_command}
use agent_term_status.Renderers.Tmux.{
  TmuxRenderer, validate_pane, targeted, tmux_output, query, capture_pane_state, run_tmux, run_all,
  output_of, result_of, render_commands, reset_commands, capture_once, render_on, render, reset_on,
  reset,
}

-- A call of tmux that names this pane as its target.
abbrev pub Targets : String → List String → Type 0
Targets pane args = (before after : List String) × (args ≡ "tmux" ∷ (before ++ "-t" ∷ pane ∷ after))

-- A command for the pane of a terminal, whose name is one of tmux.
abbrev pub IsSafe : Option String → List String → Type 0
IsSafe target args =
    (pane : String) × (target ≡ some pane) × (validate_pane pane ≡ true) × Targets pane args

abbrev pub Runs : Option String → Outside → Outside → Type 0
Runs target w w' = (new : List (List String)) × (w'.log ≡ w.log ++ new) × All (IsSafe target) new

append_nil : (xs : List (List String)) → xs ≡ xs ++ []
append_nil [] = refl
append_nil (x ∷ xs) = ap (◌∷◌ x) (append_nil xs)

output_of-world : (trim : String → String) (w : Outside) (e : Exit) → (output_of trim (w, e)).0 ≡ w
output_of-world trim w (not_run reason) = refl
output_of-world trim w (exited true (some out) stderr) = refl
output_of-world trim w (exited true none stderr) = refl
output_of-world trim w (exited false out stderr) = refl

result_of-world : (trim : String → String) (w : Outside) (e : Exit) → (result_of trim (w, e)).0 ≡ w
result_of-world trim w (not_run reason) = refl
result_of-world trim w (exited true out stderr) = refl
result_of-world trim w (exited false out stderr) = refl

Result-cases :
    (r : Result (Unit {0}) RendererError) → (r ≡ ok tt) ⊎ ((e : RendererError) × (r ≡ err e))
Result-cases (ok tt) = inl refl
Result-cases (err e) = inr (e, refl)

module _ (target : Option String) where
  Runs-refl : (w : Outside) → Runs target w w
  Runs-refl w = ([], append_nil w.log, tt)

  Runs-trans : (a b c : Outside) → Runs target a b → Runs target b c → Runs target a c
  Runs-trans a b c (xs, p, hx) (ys, q, hy) = (
    xs ++ ys,
    q ∙ ap (λ l. l ++ ys) p ∙ append_assoc a.log xs ys,
    All-append (IsSafe target) xs ys hx hy,
  )

  run_command-Runs :
      (args : List String) (w : Outside) → IsSafe target args → Runs target w (run_command args w).0
  unfolding run_command
  run_command-Runs args w h = (args ∷ [], refl, (h, tt))

  targeted-Targets : (args : List String) (pane : String) → Targets pane (targeted args pane)
  targeted-Targets [] pane = ([], [], refl)
  targeted-Targets (first ∷ rest) pane = (first ∷ [], rest, refl)

  module _ (trim : String → String) (pane : String) (here : target ≡ some pane)
      (fine : validate_pane pane ≡ true) where
    tmux_output-Runs :
        (args : List String) (w : Outside) → Runs target w (tmux_output trim args pane w).0
    unfolding tmux_output
    tmux_output-Runs args w =
        let x = run_command ("tmux" ∷ (args ++ "-t" ∷ pane ∷ [])) w in
        rw (output_of-world trim x.0 x.1) (
          run_command-Runs ("tmux" ∷ (args ++ "-t" ∷ pane ∷ [])) w
            (pane, here, fine, (args, [], refl)))

    run_tmux-Runs : (args : List String) (w : Outside) → Runs target w (run_tmux trim args pane w).0
    unfolding run_tmux
    run_tmux-Runs args w =
        let x = run_command (targeted args pane) w in
        rw (result_of-world trim x.0 x.1)
          (run_command-Runs (targeted args pane) w (pane, here, fine, targeted-Targets args pane))

    run_all-Runs :
        (commands : List (List String)) (w : Outside)
        → Runs target w (run_all trim commands pane w).0
    unfolding run_all run_tmux run_command
    run_all-Runs [] w = Runs-refl w
    run_all-Runs (args ∷ more) w =
        let first = run_tmux-Runs args w in
        let (w1, r) = run_tmux trim args pane w in
        elim (Result-cases r) [
          | inl success ↦
              rw success
                (Runs-trans w w1 (run_all trim more pane w1).0 first (run_all-Runs more w1))
          | inr (e, failure) ↦ rw failure first
        ]

    capture_once-Runs :
        (r : TmuxRenderer) (w : Outside) → Runs target w (capture_once trim pane (r, w)).1
    unfolding capture_once capture_pane_state
    capture_once-Runs r w =
        let style = query trim "#{pane-border-style}" in
        let format = query trim "#{pane-border-format}" in
        let status = query trim "#{pane-border-status}" in
        let w1 = (tmux_output trim style pane w).0 in
        let w2 = (tmux_output trim format pane w1).0 in
        let w3 = (tmux_output trim status pane w2).0 in
        elim (Bool-cases (contains_key pane r.prior)) [
          | inl before ↦ rw before (Runs-refl w)
          | inr first ↦ rw first (
              Runs-trans w w2 w3
                (Runs-trans w w1 w2 (tmux_output-Runs style w) (tmux_output-Runs format w1))
                (tmux_output-Runs status w2))
        ]

module _ (trim : String → String) where
  render_on-Runs :
      (view : StateView) (r : TmuxRenderer) (w : Outside) (pane : Option String)
      → view.target.terminal.tmux_pane ≡ pane
      → Runs view.target.terminal.tmux_pane w (render_on trim view (r, w) pane).0.1
  render_on-Runs view r w none here = Runs-refl view.target.terminal.tmux_pane w
  render_on-Runs view r w (some pane) here =
      let target = view.target.terminal.tmux_pane in
      elim (Bool-cases (validate_pane pane)) [
        | inr bad ↦ rw bad (Runs-refl target w)
        | inl fine ↦
            let (r1, w1) = capture_once trim pane (r, w) in
            rw fine (
              Runs-trans target w w1 (run_all trim (render_commands trim r1 view) pane w1).0
                (capture_once-Runs target trim pane here fine r w)
                (run_all-Runs target trim pane here fine (render_commands trim r1 view) w1))
      ]

  -- Every command that a render of the tmux renderer runs, whatever commands fail, is a call of
  -- tmux with the terminal's pane as its target, and none is run if the terminal has no pane or the
  -- pane's name is not one of tmux.
  pub render-Runs :
      (view : StateView) (r : TmuxRenderer) (w : Outside)
      → Runs view.target.terminal.tmux_pane w (render trim view (r, w)).0.1
  unfolding render
  render-Runs view r w = render_on-Runs view r w view.target.terminal.tmux_pane refl

  reset_on-Runs :
      (target : RenderTarget) (r : TmuxRenderer) (w : Outside) (pane : Option String)
      → target.terminal.tmux_pane ≡ pane
      → Runs target.terminal.tmux_pane w (reset_on trim (r, w) pane).0.1
  reset_on-Runs target r w none here = Runs-refl target.terminal.tmux_pane w
  reset_on-Runs target r w (some pane) here = elim (Bool-cases (validate_pane pane)) [
    | inr bad ↦ rw bad (Runs-refl target.terminal.tmux_pane w)
    | inl fine ↦ rw fine (
        run_all-Runs target.terminal.tmux_pane trim pane here fine
          (reset_commands trim (get pane r.prior)) w)
  ]

  -- Every command that a reset runs, whatever was captured and whatever commands fail, is a call of
  -- tmux with the target's pane, and none is run if the target has no pane or the pane's name is
  -- not one of tmux.
  reset-Runs :
      (target : RenderTarget) (r : TmuxRenderer) (w : Outside)
      → Runs target.terminal.tmux_pane w (reset trim target (r, w)).0.1
  unfolding reset
  reset-Runs target r w = reset_on-Runs target r w target.terminal.tmux_pane refl
