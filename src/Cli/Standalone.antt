-- ===== src/Cli/Standalone.antt =====
-- crates/ats-cli/src/standalone_render.rs, and what `ats event` and `ats reset` do in main.rs. What
-- Rust prints of a state and of an error are parameters.
pub mod FailOpen
use agent_term_status.Prelude.{
  String, Bool, true, false, Option, some, none, List, Result, ok, err, ◌⧺◌, ◌⊎◌,
}
use agent_term_status.Config.Theme.{Theme, ThemeError, load_bundled}
use agent_term_status.Core.{AgentState, TerminalContext}
use agent_term_status.Core.Label
use agent_term_status.Host.{Run, eprintln, stop, exit, ◌>>=◌, ◌>>◌}
use agent_term_status.Renderer.{RendererError, StateView}
use agent_term_status.Renderers.Process.{Outside}
use agent_term_status.Renderers.Tmux
use agent_term_status.Renderers.Tmux.{TmuxRenderer}
use agent_term_status.Cli.EventPrototype

abbrev build_terminal_context : Option String → TerminalContext
build_terminal_context pane = record { tty = none; term_program = none; tmux_pane = pane }

-- The renderer is new, and is dropped after its one operation.
abbrev pub Drawing : Type 0
Drawing = TmuxRenderer × Outside → (TmuxRenderer × Outside) × Result (Unit {0}) RendererError

abbrev pub once : Drawing → TmuxRenderer → Run (Result (Unit {0}) RendererError)
once f r h = let ((r', w), x) = f (r, h.outside) in (record h { outside = w }, ok x)

module _ (bundled : List (String × String)) (from_str : String → String ⊎ Theme)
    (trim : String → String) where
  abbrev fallback : Result Theme ThemeError → Option Theme
  fallback (ok theme) = some theme
  fallback (err e) = none

  abbrev or_color_safe : Result Theme ThemeError → Option Theme
  or_color_safe (ok theme) = some theme
  or_color_safe (err e) = fallback (load_bundled bundled from_str "color-safe")

  -- No theme is a panic: both are bundled.
  unfoldable pub standalone_theme : Option Theme
  standalone_theme = or_color_safe (load_bundled bundled from_str "default")

  abbrev pub view_on : AgentState → Option String → Option String → StateView
  view_on state label pane = record {
    state = state;
    label = elim label [ none ↦ none | some text ↦ some (Label.new text) ];
    target = record { session_id = "standalone"; terminal = build_terminal_context pane };
  }

  module _ (debug : AgentState → String) (show_error : RendererError → String) where
    abbrev pub told : String → String → Result (Unit {0}) RendererError → Run (Unit {0})
    told failure success (err e) = eprintln (failure ⧺ show_error e)
    told failure success (ok u) = eprintln success

    abbrev pub drawn : AgentState → Option String → String → Option Theme → Run (Unit {0})
    drawn state label pane none = stop (exit 101)
    drawn state label pane (some theme) = do
      result ← once (Tmux.render trim (view_on state label (some pane))) (Tmux.new (some theme))
      told "standalone: render failed (fail-open): "
          ("standalone: rendered " ⧺ (debug state ⧺ (" on pane " ⧺ pane))) result

    abbrev pub on_pane : AgentState → Option String → Option String → Run (Unit {0})
    on_pane state label none = eprintln "standalone: TMUX_PANE not set, nothing to render"
    on_pane state label (some pane) = drawn state label pane standalone_theme

    unfoldable pub standalone_render : Option String → AgentState → Option String → Run (Unit {0})
    standalone_render pane state label = on_pane state label pane

    abbrev pub reset_there : Option String → Run (Unit {0})
    reset_there none = eprintln "standalone: TMUX_PANE not set, nothing to reset"
    reset_there (some pane) = do
      result ←
          once
            (Tmux.reset trim
              (record { session_id = "standalone"; terminal = build_terminal_context (some pane) }))
            (Tmux.new none)
      told "standalone: reset failed (fail-open): " "standalone: reset complete" result

    unfoldable pub standalone_reset : Option String → Run (Unit {0})
    standalone_reset pane = reset_there pane

    module _ (from_name : String → Option AgentState) (quoted : String → String) where
      abbrev pub alone : Option String → String → Option AgentState → Run (Unit {0})
      alone pane state (some as_) = do
        eprintln "ats: daemon unreachable — rendering in standalone mode"
        standalone_render pane as_ none
      alone pane state none = eprintln ("ats event: unknown state " ⧺ (quoted state ⧺ ", ignoring"))

      -- `ats event`: whether the daemon's socket answers is an argument.
      unfoldable pub event_command : Bool → Option String → String → Run (Unit {0})
      event_command true pane state = EventPrototype.run from_name quoted trim pane state
      event_command false pane state =
          alone pane state (EventPrototype.parse_state from_name quoted trim state)
