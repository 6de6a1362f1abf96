-- ===== src/Renderers/Tmux.antt =====
-- crates/ats-renderer-tmux/src/lib.rs. The outside is the log of the commands that were run, by
-- their arguments, and what the n-th of them ends with. `str::trim` is a parameter.
pub mod Version
pub mod Panes
use Prim.Native.Char.{Char, code}
use Prim.Native.String
use Prim.Native.String.{len}
use agent_term_status.Prelude.{
  ℕ, suc, String, String_eq, Bool, true, false, ◌&&◌, ◌||◌, Option, some, none, List, [], ◌∷◌, ◌++◌,
  Result, ok, err, if◌then◌else◌, str_eq, not, leb, ltb, nat_eq, is_some, length, any, ◌==◌, ◌⧺◌,
}
use agent_term_status.Prelude.HashMap.{HashMap, get, insert, remove, contains_key}
use agent_term_status.Core.{AgentState, idle, ActivityLabel, TerminalContext}
use agent_term_status.Core.Equality.{AgentState_eq}
use agent_term_status.Core.Label.{all_chars}
use agent_term_status.Config.Theme.{Theme, ThemeEntry}
use agent_term_status.Renderer.{
  RendererCapabilities, no_capabilities, RendererError, unsupported, failed, HealthStatus, healthy,
  degraded, unavailable, RenderTarget, StateView,
}
use agent_term_status.Renderers.{resolve_entry, title_parts, join}
use agent_term_status.Renderers.Process.{Exit, not_run, exited, Outside, run_command}
use agent_term_status.Renderers.Tmux.Version.{parse_tmux_version, is_digit}

pub record CapturedState : Type 0 where
  pub border_style : Option String
  pub border_format : Option String
  pub border_status : Option String

pub record TmuxRenderer : Type 0 where
  pub theme : Option Theme
  pub prior : HashMap String CapturedState

unfoldable pub new : Option Theme → TmuxRenderer
new theme = record { theme = theme; prior = [] }

abbrev style_of : Option ThemeEntry → Option String
style_of none = none
style_of (some entry) = elim entry.color [ none ↦ none | some color ↦ some ("fg=" ⧺ color) ]

unfoldable pub border_style_for : TmuxRenderer → AgentState → Option String
border_style_for r state = if state == idle then none else style_of (resolve_entry r.theme state)

abbrev format_of : List String → Option String
format_of [] = none
format_of (s ∷ parts) = some (" " ⧺ (join (s ∷ parts) ⧺ " "))

unfoldable pub border_format_for : TmuxRenderer → AgentState → Option ActivityLabel → Option String
border_format_for r state label =
    if state == idle then none else format_of (title_parts (resolve_entry r.theme state) label)

abbrev starts_pane : ℕ → Bool
starts_pane c = nat_eq c 37 || nat_eq c 61

-- At least two bytes: `%` or `=`, and then digits alone.
unfoldable pub validate_pane : String → Bool
validate_pane String.[] = false
validate_pane (String.◌∷◌ c s) =
    leb 2 (len (String.◌∷◌ c s)) && starts_pane (code c) && all_chars is_digit s

-- `;`, `$`, a backquote, `|`, `&`, `>`, `<`, the line breaks and a backslash.
abbrev pub forbidden_chars : List ℕ
forbidden_chars = 59 ∷ 36 ∷ 96 ∷ 124 ∷ 38 ∷ 62 ∷ 60 ∷ 10 ∷ 13 ∷ 92 ∷ []

unfoldable pub validate_arg : String → Bool
validate_arg s = all_chars (λ c. not (any (nat_eq c) forbidden_chars)) s

abbrev version_of : Outside × Exit → Outside × Option (ℕ × ℕ)
version_of (w, exited true (some raw) stderr) = (w, parse_tmux_version raw)
version_of (w, exited true none stderr) = (w, none)
version_of (w, exited false out stderr) = (w, none)
version_of (w, not_run reason) = (w, none)

unfoldable pub check_tmux_version : Outside → Outside × Option (ℕ × ℕ)
check_tmux_version w = version_of (run_command ("tmux" ∷ "-V" ∷ []) w)

abbrev success : Outside × Exit → Outside × Bool
success (w, exited b out stderr) = (w, b)
success (w, not_run reason) = (w, false)

unfoldable pub tmux_exists : Outside → Outside × Bool
tmux_exists w = success (run_command ("which" ∷ "tmux" ∷ []) w)

-- `version >= MIN_TMUX_VERSION`
abbrev pub at_least_min : ℕ × ℕ → Bool
at_least_min (major, minor) = ltb 3 major || (nat_eq major 3 && leb 7 minor)

abbrev detected : Outside × Option (ℕ × ℕ) → Outside × Result RendererCapabilities RendererError
detected (w, none) = (w, err (failed "cannot determine tmux version"))
detected (w, some v) =
    let safe = at_least_min v in
    (w, ok (record no_capabilities { pane_border = safe; reset_reliable = safe }))

unfoldable pub detect :
    TerminalContext → Outside → Outside × Result RendererCapabilities RendererError
detect ctx w =
    if not (is_some ctx.tmux_pane)
    then (w, err (unsupported "no TMUX_PANE in terminal context"))
    else detected (check_tmux_version w)

abbrev judged : Outside × Option (ℕ × ℕ) → Outside × HealthStatus
judged (w, none) = (w, degraded "cannot determine tmux version")
judged (w, some v) =
    (w, if at_least_min v then healthy else degraded "tmux < 3.7 — pane border not isolated")

abbrev if_there : Outside × Bool → Outside × HealthStatus
if_there (w, false) = (w, unavailable "tmux not found")
if_there (w, true) = judged (check_tmux_version w)

unfoldable pub health_check : Outside → Outside × HealthStatus
health_check w = if_there (tmux_exists w)

-- The words before and after `-t <pane>`.
abbrev pub targeted : List String → String → List String
targeted [] pane = "tmux" ∷ "-t" ∷ pane ∷ []
targeted (first ∷ rest) pane = "tmux" ∷ first ∷ "-t" ∷ pane ∷ rest

module _ (trim : String → String) where
  abbrev pub output_of : Outside × Exit → Outside × Option String
  output_of (w, exited true (some out) stderr) = (w, some (trim out))
  output_of (w, exited true none stderr) = (w, none)
  output_of (w, exited false out stderr) = (w, none)
  output_of (w, not_run reason) = (w, none)

  unfoldable pub tmux_output : List String → String → Outside → Outside × Option String
  tmux_output args pane w = output_of (run_command ("tmux" ∷ (args ++ "-t" ∷ pane ∷ [])) w)

  abbrev pub query : String → List String
  query format = "display-message" ∷ "-p" ∷ "-F" ∷ format ∷ []

  unfoldable pub capture_pane_state : String → Outside → Outside × CapturedState
  capture_pane_state pane w =
      let (w1, style) = tmux_output (query "#{pane-border-style}") pane w in
      let (w2, format) = tmux_output (query "#{pane-border-format}") pane w1 in
      let (w3, status) = tmux_output (query "#{pane-border-status}") pane w2 in
      (w3, record { border_style = style; border_format = format; border_status = status })

  abbrev pub result_of : Outside × Exit → Outside × Result (Unit {0}) RendererError
  result_of (w, not_run reason) = (w, err (failed ("cannot run tmux: " ⧺ reason)))
  result_of (w, exited true out stderr) = (w, ok tt)
  result_of (w, exited false out stderr) = (w, err (failed ("tmux command failed: " ⧺ trim stderr)))

  unfoldable pub run_tmux :
      List String → String → Outside → Outside × Result (Unit {0}) RendererError
  run_tmux args pane w = result_of (run_command (targeted args pane) w)

  -- Commands one after the other, each run with `?`.
  unfoldable pub run_all :
      List (List String) → String → Outside → Outside × Result (Unit {0}) RendererError
  run_all [] pane w = (w, ok tt)
  run_all (args ∷ more) pane w =
      let (w1, r) = run_tmux args pane w in
      let rest = run_all more pane w1 in elim r [ ok _ ↦ rest | err e ↦ (w1, err e) ]

  abbrev set : String → String → List String
  set option value = "set-option" ∷ "-p" ∷ option ∷ value ∷ []

  abbrev unset : String → List String
  unset option = "set-option" ∷ "-p" ∷ "-u" ∷ option ∷ []

  unfoldable pub unset_all : List (List String)
  unset_all =
      unset "pane-border-style" ∷ unset "pane-border-format" ∷ unset "pane-border-status" ∷ []

  abbrev style_commands : Option String → List (List String)
  style_commands none = []
  style_commands (some style) = set "pane-border-style" style ∷ []

  abbrev format_commands : Option String → List (List String)
  format_commands none = []
  format_commands (some format) =
      if validate_arg format
      then set "pane-border-status" "top" ∷ set "pane-border-format" format ∷ []
      else []

  -- The commands of `render` after the capture.
  unfoldable pub render_commands : TmuxRenderer → StateView → List (List String)
  render_commands r view =
      if view.state == idle
      then unset_all
      else style_commands (border_style_for r view.state)
        ++ format_commands (border_format_for r view.state view.label)

  -- Back to what was captured: set where there was a value, and unset where there was none.
  abbrev restore : String → Option String → List String
  restore option none = unset option
  restore option (some value) = set option value

  unfoldable pub reset_commands : Option CapturedState → List (List String)
  reset_commands none = unset_all
  reset_commands (some cs) =
      restore "pane-border-style" cs.border_style
      ∷ restore "pane-border-format" cs.border_format
      ∷ restore "pane-border-status" cs.border_status
      ∷ []

  abbrev pub World : Type 0
  World = TmuxRenderer × Outside

  -- The state of a pane is captured before the first render on it.
  unfoldable pub capture_once : String → World → World
  capture_once pane (r, w) =
      let (w1, captured) = capture_pane_state pane w in
      if contains_key pane r.prior
      then (r, w)
      else (record r { prior = insert pane captured r.prior }, w1)

  abbrev with_renderer :
      TmuxRenderer
      → Outside × Result (Unit {0}) RendererError
      → World × Result (Unit {0}) RendererError
  with_renderer r (w, x) = ((r, w), x)

  abbrev pub render_on : StateView → World → Option String → World × Result (Unit {0}) RendererError
  render_on view world none = (world, err (unsupported "no tmux pane in render target"))
  render_on view world (some pane) =
      if not (validate_pane pane)
      then (world, err (failed ("invalid tmux pane: " ⧺ pane)))
      else let (r, w) = capture_once pane world in
        with_renderer r (run_all (render_commands r view) pane w)

  unfoldable pub render : StateView → World → World × Result (Unit {0}) RendererError
  render view world = render_on view world view.target.terminal.tmux_pane

  abbrev pub reset_on : World → Option String → World × Result (Unit {0}) RendererError
  reset_on world none = (world, err (unsupported "no tmux pane in reset target"))
  reset_on (r, w) (some pane) =
      if not (validate_pane pane)
      then ((r, w), err (failed ("invalid tmux pane: " ⧺ pane)))
      else with_renderer (record r { prior = remove pane r.prior })
          (run_all (reset_commands (get pane r.prior)) pane w)

  unfoldable pub reset : RenderTarget → World → World × Result (Unit {0}) RendererError
  reset target world = reset_on world target.terminal.tmux_pane
