-- ===== src/Cli/Standalone/FailOpen.antt =====
-- `ats event` and `ats reset` (crates/ats-cli/src/main.rs) never fail the hook that calls them.
use agent_term_status.Prelude.{
  ◌≡◌, ◌≢◌, refl, String, Bool, true, false, Option, some, none, List, [], ◌∷◌, Result, ok, err,
  ◌⊎◌,
}
use agent_term_status.Config.Theme.{Theme}
use agent_term_status.Core.{AgentState}
use agent_term_status.Host.{Host, Stop, command}
use agent_term_status.Renderer.{RendererError}
use agent_term_status.Renderers.Process.{Exit, not_run, exited, run_command}
use agent_term_status.Cli.EventPrototype
use agent_term_status.Cli.EventPrototype.{scope_of, pane_scope_is_safe}
use agent_term_status.Cli.Standalone.{
  told, drawn, alone, standalone_theme, standalone_render, event_command,
}

-- A command ends, and has written no file and sent no signal.
pub record IsOpen (h : Host) (r : Host × Result (Unit {0}) Stop) : Type 0 where
  pub ends : r.1 ≡ ok tt
  pub same_files : r.0.files ≡ h.files
  pub same_signals : r.0.signalled ≡ h.signalled

-- What differs between two hosts is printed or run.
abbrev IsAlike : Host → Host → Type 0
IsAlike h h' = (h'.files ≡ h.files) × (h'.signalled ≡ h.signalled)

opened : {h h' : Host} → IsAlike h h' → IsOpen h (h', ok tt)
opened a = record { ends = refl; same_files = a.0; same_signals = a.1 }

module _ (from_name : String → Option AgentState) (debug trim : String → String) where
  reported-IsOpen :
      (h : Host) (e : Exit) (h' : Host)
      → IsAlike h h'
      → IsOpen h (EventPrototype.reported from_name debug trim e h')
  reported-IsOpen h (exited true out stderr) h' a = opened a
  reported-IsOpen h (exited false out stderr) h' a = opened a
  reported-IsOpen h (not_run reason) h' a = opened a

  prototype_drawn-IsOpen :
      (state : AgentState) (pane : String) (safe : Option Bool) (h h' : Host)
      → IsAlike h h'
      → IsOpen h (EventPrototype.drawn from_name debug trim state pane safe h')
  unfolding command run_command
  prototype_drawn-IsOpen state pane none h h' a = opened a
  prototype_drawn-IsOpen state pane (some false) h h' a = opened a
  prototype_drawn-IsOpen state pane (some true) h h' a = reported-IsOpen h _ _ a

  run_state-IsOpen :
      (state_arg : String) (pane : Option String) (o : Option AgentState) (h : Host)
      → IsOpen h (EventPrototype.run_state from_name debug trim state_arg pane o h)
  unfolding pane_scope_is_safe command run_command
  run_state-IsOpen state_arg pane none h = opened (refl, refl)
  run_state-IsOpen state_arg none (some state) h = opened (refl, refl)
  run_state-IsOpen state_arg (some pane) (some state) h =
      let version : Exit = (run_command ("tmux" ∷ "-V" ∷ []) h.outside).1 in
      prototype_drawn-IsOpen state pane (scope_of version) h (pane_scope_is_safe h).0 (refl, refl)

module _ (bundled : List (String × String)) (from_str : String → String ⊎ Theme)
    (trim : String → String) (debug : AgentState → String)
    (show_error : RendererError → String) where
  told-IsOpen :
      (failure success : String) (r : Result (Unit {0}) RendererError) (h h' : Host)
      → IsAlike h h'
      → IsOpen h (told bundled from_str trim debug show_error failure success r h')
  told-IsOpen failure success (err e) h h' a = opened a
  told-IsOpen failure success (ok u) h h' a = opened a

  drawn-IsOpen :
      (state : AgentState) (label : Option String) (pane : String) (o : Option Theme) (h h' : Host)
      → IsAlike h h'
      → o ≢ none
      → IsOpen h (drawn bundled from_str trim debug show_error state label pane o h')
  drawn-IsOpen state label pane none h h' a there = absurd (there refl)
  drawn-IsOpen state label pane (some theme) h h' a there = told-IsOpen _ _ _ h _ a

  -- One of the two bundled themes can be loaded.
  abbrev pub IsThemed : Type 0
  IsThemed = standalone_theme bundled from_str trim ≢ none

  module _ (themed : IsThemed) (from_name : String → Option AgentState)
      (quoted : String → String) where
    render-IsOpen :
        (pane : Option String) (state : AgentState) (label : Option String) (h h' : Host)
        → IsAlike h h'
        → IsOpen h (standalone_render bundled from_str trim debug show_error pane state label h')
    unfolding standalone_render
    render-IsOpen none state label h h' a = opened a
    render-IsOpen (some pane) state label h h' a =
        drawn-IsOpen state label pane (standalone_theme bundled from_str trim) h h' a themed

    alone-IsOpen :
        (pane : Option String) (state : String) (o : Option AgentState) (h : Host)
        → IsOpen h (alone bundled from_str trim debug show_error from_name quoted pane state o h)
    alone-IsOpen pane state (some as_) h = render-IsOpen pane as_ none h _ (refl, refl)
    alone-IsOpen pane state none h = opened (refl, refl)

    -- `ats event` never fails the hook that calls it: whatever the state's name, whether or not the
    -- daemon answers or the terminal has a pane, and whatever tmux answers, it ends with no error
    -- and no exit of its own, and changes no file and sends no signal. One of the two bundled
    -- themes can be loaded.
    pub event_command-IsOpen :
        (daemon_up : Bool) (pane : Option String) (state : String) (h : Host)
        → IsOpen h (
            event_command bundled from_str trim debug show_error from_name quoted daemon_up pane
              state h)
    unfolding event_command EventPrototype.run
    event_command-IsOpen true pane state h = run_state-IsOpen from_name quoted trim state pane _ h
    event_command-IsOpen false pane state h = alone-IsOpen pane state _ h
