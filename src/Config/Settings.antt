-- ===== src/Config/Settings.antt =====
-- crates/ats-config/src/config.rs: the configuration, and `Config::validate`.
pub mod Default
pub mod Validation
use Prim.Native.Nat.{Ordering}
use Prim.Native.String
use agent_term_status.Prelude.{
  ℕ, String, String_eq, Bool, true, false, ◌&&◌, Option, some, none, List, [], ◌∷◌, ◌++◌, Result,
  ok, err, if◌then◌else◌, str_eq, not, is_empty, ◌⧺◌,
}
use agent_term_status.Prelude.HashMap.{HashMap}

pub data LogLevel : Type 0 where
  trace debug info warn error : LogLevel

pub record DaemonConfig : Type 0 where
  pub enabled : Bool
  pub log_level : LogLevel
  pub event_retention : String
  pub socket_path : Option String

pub record PrivacyConfig : Type 0 where
  pub store_activity_labels : Bool
  pub store_workspace_paths : Bool
  pub redact_home_directory : Bool

pub record StateOverride : Type 0 where
  pub color : Option String
  pub label : Option String
  pub symbol : Option String

pub record StatesConfig : Type 0 where
  pub states : HashMap String StateOverride

pub data BackgroundIntensity : Type 0 where
  subtle medium strong : BackgroundIntensity

pub record BackgroundConfig : Type 0 where
  pub enabled : Bool
  pub intensity : BackgroundIntensity

pub record RenderingConfig : Type 0 where
  pub background : BackgroundConfig

pub data RendererMode : Type 0 where
  auto on off : RendererMode

pub record TmuxRendererConfig : Type 0 where
  pub enabled : RendererMode
  pub pane_border : Bool
  pub pane_title : Bool

pub record ITerm2RendererConfig : Type 0 where
  pub enabled : RendererMode
  pub badge : Bool
  pub tab_title : Bool
  pub background : Bool

pub record QuietHoursConfig : Type 0 where
  pub start : Option String
  pub end : Option String
  pub allow : List String

pub record NotificationsRendererConfig : Type 0 where
  pub enabled : Bool
  pub states : List String
  pub quiet_hours : QuietHoursConfig

pub record RenderersConfig : Type 0 where
  pub tmux : TmuxRendererConfig
  pub iterm2 : ITerm2RendererConfig
  pub notifications : NotificationsRendererConfig

pub record ProviderConfig : Type 0 where
  pub enabled : Bool
  pub experimental : Bool

pub record ProvidersConfig : Type 0 where
  pub claude : ProviderConfig
  pub opencode : ProviderConfig
  pub codex : ProviderConfig

pub record TtsConfig : Type 0 where
  pub enabled : Bool
  pub states : List String

pub record LoggingConfig : Type 0 where
  pub level : LogLevel
  pub retention : String
  pub redact : Bool

pub record Config : Type 0 where
  pub version : ℕ
  pub daemon : DaemonConfig
  pub privacy : PrivacyConfig
  pub states : StatesConfig
  pub rendering : RenderingConfig
  pub renderers : RenderersConfig
  pub providers : ProvidersConfig
  pub tts : TtsConfig
  pub logging : LoggingConfig
  pub theme : Option String

unfoldable pub tts_is_empty : TtsConfig → Bool
tts_is_empty tts = not tts.enabled && is_empty tts.states

-- `a < b` on texts, which is by their characters.
abbrev pub before : String → String → Bool
before a b = elim (String.compare a b) [ Ordering.lt ↦ true | _ ↦ false ]

-- The errors of each check come before those of the checks that follow.
abbrev check_hours : Option String → Option String → List String → List String
check_hours none end errors = errors
check_hours (some start) none errors = errors
check_hours (some start) (some end) errors =
    if not (before start end)
    then ("quiet_hours.start (" ⧺ (start ⧺ (") must be before quiet_hours.end (" ⧺ (end ⧺ ")"))))
      ∷ errors
    else errors

abbrev check_socket : Option String → List String → List String
check_socket none errors = errors
check_socket (some path) errors =
    if str_eq path "" then "daemon.socket_path must not be empty" ∷ errors else errors

abbrev has_empty_color : Option String → Bool
has_empty_color none = false
has_empty_color (some color) = str_eq color ""

unfoldable pub check_states : HashMap String StateOverride → List String
check_states [] = []
check_states ((state, entry) ∷ states) =
    let rest = check_states states in
    if has_empty_color entry.color
    then ("states." ⧺ (state ⧺ ".color must not be empty; use null to disable")) ∷ rest
    else rest

abbrev verdict : List String → Result (Unit {0}) (List String)
verdict [] = ok tt
verdict (e ∷ errors) = err (e ∷ errors)

unfoldable pub validate : Config → Result (Unit {0}) (List String)
validate config =
    let hours = config.renderers.notifications.quiet_hours in
    verdict (
      check_hours hours.start hours.end
        (check_socket config.daemon.socket_path (check_states config.states.states)))
