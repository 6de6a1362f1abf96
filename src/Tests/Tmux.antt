-- ===== src/Tests/Tmux.antt =====
-- The tmux renderer on one pane.
use agent_term_status.Prelude.{◌≡◌, refl, String, some, none, [], ◌∷◌, true, false}
use agent_term_status.Prelude.HashMap.{get, insert}
use agent_term_status.Core.{idle}
use agent_term_status.Core.Label.{all_chars}
use agent_term_status.Renderer.{StateView}
use agent_term_status.Renderers.Process.{Outside, exited, run_command}
use agent_term_status.Renderers.Tmux.{
  TmuxRenderer, render, validate_pane, tmux_output, capture_pane_state, capture_once, run_tmux,
  run_all, render_commands, unset_all,
}
use agent_term_status.Renderers.Tmux.Version.{
  parse_tmux_version, find_from, take_while, after_dot, parse_u32, decimal,
}
use agent_term_status.Renderers.Tmux.Panes.{Runs, render-Runs}

abbrev same : String → String
same s = s

abbrev view : StateView
view = record {
  state = idle;
  label = none;
  target = record {
    session_id = "s1";
    terminal = record { tty = none; term_program = none; tmux_pane = some "%3" };
  };
}

abbrev fresh : TmuxRenderer
fresh = record { theme = none; prior = [] }

-- Every command succeeds with the same output.
abbrev calm : Outside
calm = record { log = []; exit = λ n. exited true (some "x") "" }

version_test : parse_tmux_version "tmux next-3.7a" ≡ some (3, 7)
unfolding parse_tmux_version find_from take_while after_dot parse_u32 decimal
version_test = refl

no_minor_test : parse_tmux_version "tmux 4" ≡ some (4, 0)
unfolding parse_tmux_version find_from take_while after_dot parse_u32 decimal
no_minor_test = refl

pane_test : validate_pane "%12;" ≡ false
unfolding validate_pane all_chars
pane_test = refl

idle_test :
    (render same view (fresh, calm)).0.1.log
    ≡ ("tmux" ∷ "display-message" ∷ "-p" ∷ "-F" ∷ "#{pane-border-style}" ∷ "-t" ∷ "%3" ∷ [])
      ∷ ("tmux" ∷ "display-message" ∷ "-p" ∷ "-F" ∷ "#{pane-border-format}" ∷ "-t" ∷ "%3" ∷ [])
      ∷ ("tmux" ∷ "display-message" ∷ "-p" ∷ "-F" ∷ "#{pane-border-status}" ∷ "-t" ∷ "%3" ∷ [])
      ∷ ("tmux" ∷ "set-option" ∷ "-t" ∷ "%3" ∷ "-p" ∷ "-u" ∷ "pane-border-style" ∷ [])
      ∷ ("tmux" ∷ "set-option" ∷ "-t" ∷ "%3" ∷ "-p" ∷ "-u" ∷ "pane-border-format" ∷ [])
      ∷ ("tmux" ∷ "set-option" ∷ "-t" ∷ "%3" ∷ "-p" ∷ "-u" ∷ "pane-border-status" ∷ [])
      ∷ []
unfolding render validate_pane all_chars capture_once capture_pane_state tmux_output run_command
    run_all run_tmux render_commands unset_all get insert
idle_test = refl

render-Runs_example : Runs (some "%3") calm (render same view (fresh, calm)).0.1
render-Runs_example = render-Runs same view fresh calm
