-- ===== src/Cli/EventPrototype/Scope.antt =====
-- The commands that `run` of crates/ats-cli/src/event_prototype.rs runs.
use agent_term_status.Prelude.{
  ℕ, ◌≡◌, refl, sym, String, Bool, true, false, Option, some, none, List, [], ◌∷◌, ◌++◌, append-nil,
  append_assoc, length, ap, ◌∙◌,
}
use agent_term_status.Core.{AgentState}
use agent_term_status.Host.{Host, command}
use agent_term_status.Renderers.Process.{Exit, not_run, exited, run_command}
use agent_term_status.Renderers.Tmux.Version.{parse_tmux_version}
use agent_term_status.Cli.EventPrototype.{
  border_style, is_safe, safe_version, scope_of, style_command, reported, drawn, run_state, run,
  pane_scope_is_safe, parse_state,
}

-- What is run, by how the question for the version ends: nothing, the question alone, or the
-- question and one command on the pane, where a version of at least 3.7 is the answer.
pub data Scoped (pane : String) (answer : Exit) : List (List String) → Type 0 where
  nothing : Scoped pane answer []
  asked : Scoped pane answer (("tmux" ∷ "-V" ∷ []) ∷ [])
  on_this_pane :
      (style : Option String) (raw stderr : String) (version : ℕ × ℕ)
      → answer ≡ exited true (some raw) stderr
      → parse_tmux_version raw ≡ some version
      → is_safe version ≡ true
      → Scoped pane answer (("tmux" ∷ "-V" ∷ []) ∷ style_command pane style ∷ [])

module _ (from_name : String → Option AgentState) (debug trim : String → String) (pane : String)
    (h0 : Host) where
  abbrev answer : Exit
  answer = h0.outside.exit (length h0.outside.log)

  -- The log has grown by commands that keep to the pane.
  abbrev pub RanScoped : Host → Type 0
  RanScoped h =
      (cs : List (List String)) × ((h.outside.log ≡ h0.outside.log ++ cs) × Scoped pane answer cs)

  reported-log :
      (e : Exit) (h : Host) → (reported from_name debug trim e h).0.outside.log ≡ h.outside.log
  reported-log (exited true out stderr) h = refl
  reported-log (exited false out stderr) h = refl
  reported-log (not_run reason) h = refl

  style : AgentState → List String
  style state = style_command pane (border_style state)

  -- The command on the pane is run after the question.
  drawn-log :
      (state : AgentState) (h : Host)
      → h.outside.log ≡ h0.outside.log ++ ("tmux" ∷ "-V" ∷ []) ∷ []
      → (drawn from_name debug trim state pane (some true) h).0.outside.log
        ≡ h0.outside.log ++ (("tmux" ∷ "-V" ∷ []) ∷ style state ∷ [])
  unfolding command run_command style
  drawn-log state h l =
      reported-log (h.outside.exit (length h.outside.log))
        (record h { outside = record h.outside { log = h.outside.log ++ style state ∷ [] } })
      ∙ ap (λ x. x ++ style state ∷ []) l
      ∙ append_assoc h0.outside.log (("tmux" ∷ "-V" ∷ []) ∷ []) (style state ∷ [])

  drawn-RanScoped :
      (state : AgentState) (e : Exit)
      → answer ≡ e
      → (h : Host) → h.outside.log ≡ h0.outside.log ++ ("tmux" ∷ "-V" ∷ []) ∷ []
      → RanScoped (drawn from_name debug trim state pane (scope_of e) h).0
  unfolding style
  drawn-RanScoped state (not_run reason) a h l = (_, (l, asked))
  drawn-RanScoped state (exited false out stderr) a h l = (_, (l, asked))
  drawn-RanScoped state (exited true none stderr) a h l = (_, (l, asked))
  drawn-RanScoped state (exited true (some raw) stderr) a h l =
      versioned (parse_tmux_version raw) refl
    where
      judged :
          (v : ℕ × ℕ) (b : Bool)
          → parse_tmux_version raw ≡ some v
          → is_safe v ≡ b
          → RanScoped (drawn from_name debug trim state pane (some b) h).0
      judged v false e f = (_, (l, asked))
      judged v true e f =
          (_, (drawn-log state h l, on_this_pane (border_style state) raw stderr v a e f))

      versioned :
          (v : Option (ℕ × ℕ))
          → parse_tmux_version raw ≡ v
          → RanScoped (drawn from_name debug trim state pane (safe_version v) h).0
      versioned none e = (_, (l, asked))
      versioned (some v) e = judged v (is_safe v) e refl

  run_state-RanScoped :
      (state_arg : String) (o : Option AgentState)
      → RanScoped (run_state from_name debug trim state_arg (some pane) o h0).0
  unfolding pane_scope_is_safe command run_command
  run_state-RanScoped state_arg none = ([], (sym (append-nil h0.outside.log), nothing))
  run_state-RanScoped state_arg (some state) =
      drawn-RanScoped state answer refl
        (record h0 {
          outside = record h0.outside { log = h0.outside.log ++ ("tmux" ∷ "-V" ∷ []) ∷ [] };
        })
        refl

  -- The commands that event_prototype::run, by which `ats event` draws in a terminal with a pane
  -- while the daemon answers, runs in that pane, whatever the state's name and whatever the
  -- commands answer: none; or the question for the version of tmux; or that question, answered by a
  -- version of at least 3.7, and one command that sets or unsets the style of that pane.
  pub run-RanScoped :
      (state_arg : String) → RanScoped (run from_name debug trim (some pane) state_arg h0).0
  unfolding run
  run-RanScoped state_arg =
      run_state-RanScoped state_arg (parse_state from_name debug trim state_arg)
