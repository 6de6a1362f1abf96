-- ===== src/Cli/EventPrototype.antt =====
-- crates/ats-cli/src/event_prototype.rs. serde's reading of a state's name, the printing of a text
-- as Rust writes it and `str::trim` are parameters.
pub mod Scope
use agent_term_status.Prelude.{
  ℕ, String, Bool, true, false, ◌&&◌, ◌||◌, Option, some, none, List, [], ◌∷◌, Result, ok, leb, ltb,
  nat_eq, ◌⧺◌,
}
use agent_term_status.Core.{AgentState, idle, working, attention, risk, result, error}
use agent_term_status.Host.{Host, Run, Stop, pure, eprintln, command, ◌>>=◌, ◌>>◌}
use agent_term_status.Renderers.Process.{Exit, not_run, exited}
use agent_term_status.Renderers.Tmux.Version.{parse_tmux_version}

unfoldable pub border_style : AgentState → Option String
border_style working = some "fg=blue"
border_style attention = some "fg=orange"
border_style risk = some "fg=red"
border_style result = some "fg=green"
border_style error = some "fg=magenta"
border_style AgentState.unknown = some "fg=colour244"
border_style idle = none

-- `version >= MIN_TMUX_VERSION`, of a pair.
abbrev pub is_safe : ℕ × ℕ → Bool
is_safe (major, minor) = ltb 3 major || (nat_eq major 3 && leb 7 minor)

abbrev pub safe_version : Option (ℕ × ℕ) → Option Bool
safe_version none = none
safe_version (some v) = some (is_safe v)

abbrev pub scope_of : Exit → Option Bool
scope_of (not_run reason) = none
scope_of (exited false out stderr) = none
scope_of (exited true none stderr) = none
scope_of (exited true (some raw) stderr) = safe_version (parse_tmux_version raw)

unfoldable pub pane_scope_is_safe : Run (Option Bool)
pane_scope_is_safe = do version ← command ("tmux" ∷ "-V" ∷ []); pure (scope_of version)

-- The command for a style, or for none.
abbrev pub style_command : String → Option String → List String
style_command pane (some style) =
    "tmux" ∷ "set-option" ∷ "-p" ∷ "-t" ∷ pane ∷ "pane-border-style" ∷ style ∷ []
style_command pane none =
    "tmux" ∷ "set-option" ∷ "-p" ∷ "-t" ∷ pane ∷ "-u" ∷ "pane-border-style" ∷ []

module _ (from_name : String → Option AgentState) (debug trim : String → String) where
  unfoldable pub parse_state : String → Option AgentState
  parse_state raw = from_name raw

  abbrev pub reported : Exit → Run (Unit {0})
  reported (exited true out stderr) = pure tt
  reported (exited false out stderr) =
      eprintln ("ats event (prototype): tmux failed: " ⧺ trim stderr)
  reported (not_run reason) = eprintln ("ats event (prototype): cannot run tmux: " ⧺ reason)

  abbrev pub drawn : AgentState → String → Option Bool → Run (Unit {0})
  drawn state pane none = eprintln "ats event (prototype): cannot determine tmux version"
  drawn state pane (some false) =
      eprintln
        "ats event (prototype): tmux < 3.7 leaks pane options to the whole window; refusing to render"
  drawn state pane (some true) = command (style_command pane (border_style state)) >>= reported

  abbrev pub on_pane : AgentState → Option String → Run (Unit {0})
  on_pane state none = eprintln "ats event (prototype): TMUX_PANE not set, nothing to render"
  on_pane state (some pane) = pane_scope_is_safe >>= drawn state pane

  abbrev pub run_state : String → Option String → Option AgentState → Run (Unit {0})
  run_state state_arg pane none =
      eprintln ("ats event (prototype): unknown state " ⧺ (debug state_arg ⧺ ", ignoring"))
  run_state state_arg pane (some state) = on_pane state pane

  -- The environment's `TMUX_PANE` is an argument.
  unfoldable pub run : Option String → String → Run (Unit {0})
  run pane state_arg = run_state state_arg pane (parse_state state_arg)
