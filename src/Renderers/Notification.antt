-- ===== src/Renderers/Notification.antt =====
-- crates/ats-renderer-notification/src/lib.rs. The readings of the clock are arguments: the local
-- time, the instant that the debounce compares, and the one that it records.
pub mod Delivery
use agent_term_status.Prelude.{
  ℕ, String, String_eq, Bool, true, false, ◌&&◌, Option, some, none, List, [], ◌∷◌, Result, ok, err,
  if◌then◌else◌, str_eq, eq_iff, not, any, is_some, is_empty, ◌==◌, ◌⧺◌, ◌≡◌, ◌↔◌, PartialEq, arith,
}
use agent_term_status.Prelude.Int.{ltb_ℤ, pos}
use agent_term_status.Prelude.Time.{DateTime, signed_duration_since, num_seconds}
use agent_term_status.Prelude.HashMap.{HashMap, get, insert}
use agent_term_status.Core.{
  AgentState, idle, working, attention, risk, result, error, ActivityLabel, TerminalContext,
}
use agent_term_status.Core.Equality.{AgentState_eq, state_eq, state_eq_iff}
use agent_term_status.Config.Theme.{Theme, ThemeEntry, agent_state_to_theme_key}
use agent_term_status.Renderer.{
  RendererCapabilities, no_capabilities, RendererError, unsupported, failed, HealthStatus, healthy,
  unavailable, RenderTarget, StateView,
}
use agent_term_status.Rendering.Policy.{NaiveTime, in_quiet_hours}
use agent_term_status.Renderers.{resolve_entry, symbol_or, label_or}
use agent_term_status.Renderers.Process.{Exit, not_run, exited, Outside, run_command}

abbrev pub notifier_bin : String
notifier_bin = "terminal-notifier"

pub record NotificationKey : Type 0 where
  pub state : AgentState
  pub session_id : String

abbrev pub same_key : NotificationKey → NotificationKey → Bool
same_key a b = state_eq a.state b.state && str_eq a.session_id b.session_id

pub same_key_iff : (a b : NotificationKey) → (same_key a b ≡ true) ↔ (a ≡ b)
same_key_iff a b = ground (arith, state_eq_iff a.state b.state, eq_iff a.session_id b.session_id)

instance abbrev pub NotificationKey_eq : PartialEq NotificationKey
NotificationKey_eq = record { test = same_key; test_iff = same_key_iff }

pub record NotificationRenderer : Type 0 where
  pub theme : Option Theme
  pub notifier_path : Option String
  pub quiet_hours_start : Option NaiveTime
  pub quiet_hours_end : Option NaiveTime
  pub quiet_hours_states : List String
  pub last_notify : HashMap NotificationKey DateTime

-- What `which` answers; `trim` is `str::trim`.
abbrev found : (String → String) → Outside × Exit → Outside × Option String
found trim (w, exited true (some path) stderr) = (w, some (trim path))
found trim (w, exited true none stderr) = (w, none)
found trim (w, exited false out stderr) = (w, none)
found trim (w, not_run reason) = (w, none)

unfoldable pub find_notifier : (String → String) → Outside → Outside × Option String
find_notifier trim w = found trim (run_command ("which" ∷ notifier_bin ∷ []) w)

unfoldable pub new :
    (String → String)
    → Option Theme
    → Option NaiveTime
    → Option NaiveTime
    → List String
    → Outside
    → Outside × NotificationRenderer
new trim theme start end states w =
    let (w1, path) = find_notifier trim w in
    (
      w1,
      record {
        theme = theme;
        notifier_path = path;
        quiet_hours_start = start;
        quiet_hours_end = end;
        quiet_hours_states = states;
        last_notify = [];
      },
    )

unfoldable pub should_notify : AgentState → Bool
should_notify attention = true
should_notify risk = true
should_notify result = true
should_notify error = true
should_notify working = false
should_notify idle = false
should_notify AgentState.unknown = false

unfoldable pub is_quiet_hours : NotificationRenderer → NaiveTime → Bool
is_quiet_hours r time = in_quiet_hours r.quiet_hours_start r.quiet_hours_end time

-- `agent_state_to_key` of this crate is the function of the same table in ats-config.
unfoldable pub quiet_hours_allows : NotificationRenderer → AgentState → NaiveTime → Bool
quiet_hours_allows r state time =
    if not (is_quiet_hours r time)
    then true
    else if is_empty r.quiet_hours_states
    then state == risk
    else any (λ s. str_eq s (agent_state_to_theme_key state)) r.quiet_hours_states

-- The seconds for which a state is not notified again.
abbrev pub threshold : AgentState → ℕ
threshold state = if state == result then 30 else 10

abbrev pub too_soon : AgentState → DateTime → Option DateTime → Bool
too_soon state now none = false
too_soon state now (some prev) =
    ltb_ℤ (num_seconds (signed_duration_since now prev)) (pos (threshold state))

unfoldable pub is_debounced :
    NotificationRenderer → AgentState → String → DateTime → DateTime → NotificationRenderer × Bool
is_debounced r state session_id now later =
    let key : NotificationKey = record { state = state; session_id = session_id } in
    if too_soon state now (get key r.last_notify)
    then (r, true)
    else (record r { last_notify = insert key later r.last_notify }, false)

unfoldable pub build_title : NotificationRenderer → AgentState → String
build_title r state =
    let entry = resolve_entry r.theme state in symbol_or entry ⧺ (" " ⧺ label_or entry)

abbrev body_of : String → Option ActivityLabel → String
body_of state_label none = state_label
body_of state_label (some l) =
    if not (str_eq l.text "") then state_label ⧺ (": " ⧺ l.text) else state_label

unfoldable pub build_body : NotificationRenderer → AgentState → Option ActivityLabel → String
build_body r state label = body_of (label_or (resolve_entry r.theme state)) label

unfoldable pub build_sound : AgentState → String
build_sound risk = "Basso"
build_sound error = "Basso"
build_sound _ = "default"

abbrev path_or : Option String → String
path_or none = notifier_bin
path_or (some path) = path

abbrev pub command : NotificationRenderer → String → String → String → List String
command r title body sound =
    path_or r.notifier_path
    ∷ "-title"
    ∷ title
    ∷ "-message"
    ∷ body
    ∷ "-sound"
    ∷ sound
    ∷ "-sender"
    ∷ "com.googlecode.iterm2"
    ∷ []

abbrev sent : (String → String) → Outside × Exit → Outside × Result (Unit {0}) RendererError
sent trim (w, exited true out stderr) = (w, ok tt)
sent trim (w, exited false out stderr) = (w, err (failed ("notification failed: " ⧺ trim stderr)))
sent trim (w, not_run reason) = (w, err (failed ("cannot run notifier: " ⧺ reason)))

unfoldable pub send_notification :
    (String → String)
    → NotificationRenderer
    → String
    → String
    → String
    → Outside
    → Outside × Result (Unit {0}) RendererError
send_notification trim r title body sound w = sent trim (run_command (command r title body sound) w)

unfoldable pub detect : NotificationRenderer → Result RendererCapabilities RendererError
detect r =
    if is_some r.notifier_path
    then ok (record no_capabilities { notification = true })
    else err (unsupported "terminal-notifier not found — notifications unavailable")

abbrev pub World : Type 0
World = NotificationRenderer × Outside

-- The match on the result of the sending: every error is dropped.
abbrev ignore :
    Outside × Result (Unit {0}) RendererError → Outside × Result (Unit {0}) RendererError
ignore (w, ok _) = (w, ok tt)
ignore (w, err e) = (w, ok tt)

unfoldable pub deliver :
    (String → String)
    → StateView
    → NotificationRenderer
    → Outside
    → Outside × Result (Unit {0}) RendererError
deliver trim view r w = ignore (
    send_notification trim r (build_title r view.state) (build_body r view.state view.label)
      (build_sound view.state) w)

unfoldable pub render :
    (String → String)
    → StateView
    → NaiveTime
    → DateTime
    → DateTime
    → World
    → World × Result (Unit {0}) RendererError
render trim view time now later (r, w) =
    if not (should_notify view.state)
    then ((r, w), ok tt)
    else if not (quiet_hours_allows r view.state time)
    then ((r, w), ok tt)
    else let (r1, debounced) = is_debounced r view.state view.target.session_id now later in
      let (w1, x) = deliver trim view r1 w in if debounced then ((r1, w), ok tt) else ((r1, w1), x)

unfoldable pub reset : RenderTarget → World → World × Result (Unit {0}) RendererError
reset target world = (world, ok tt)

unfoldable pub health_check : NotificationRenderer → HealthStatus
health_check r =
    if is_some r.notifier_path then healthy else unavailable "terminal-notifier not found"
