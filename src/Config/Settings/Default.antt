-- ===== src/Config/Settings/Default.antt =====
-- The `Default` of each part of the configuration, crates/ats-config/src/config.rs.
use agent_term_status.Prelude.{String, true, false, some, none, List, [], ◌∷◌}
use agent_term_status.Config.Settings.{
  Config, DaemonConfig, PrivacyConfig, StateOverride, StatesConfig, RenderingConfig, subtle,
  RenderersConfig, auto, QuietHoursConfig, ProvidersConfig, TtsConfig, LoggingConfig, warn,
}

abbrev pub daemon : DaemonConfig
daemon = record { enabled = true; log_level = warn; event_retention = "24h"; socket_path = none }

abbrev pub privacy : PrivacyConfig
privacy = record {
  store_activity_labels = false;
  store_workspace_paths = false;
  redact_home_directory = true;
}

abbrev override : String → String → String → StateOverride
override color label symbol = record {
  color = some color;
  label = some label;
  symbol = some symbol;
}

abbrev pub states : StatesConfig
states = record {
  states =
      ("working", override "#2457A6" "Working" "*")
      ∷ ("attention", override "#D97706" "Needs input" "!")
      ∷ ("risk", override "#B91C1C" "Risk" "!!")
      ∷ ("result", override "#15803D" "Completed" "+")
      ∷ ("error", override "#9333EA" "Error" "x")
      ∷ ("unknown", override "#6B7280" "Unknown" "?")
      ∷ [];
}

abbrev pub rendering : RenderingConfig
rendering = record { background = record { enabled = false; intensity = subtle } }

abbrev pub quiet_hours : QuietHoursConfig
quiet_hours = record { start = some "22:00"; end = some "07:00"; allow = "risk" ∷ [] }

abbrev pub notification_states : List String
notification_states = "attention" ∷ "risk" ∷ "result" ∷ "error" ∷ []

abbrev pub renderers : RenderersConfig
renderers = record {
  tmux = record { enabled = auto; pane_border = true; pane_title = true };
  iterm2 = record { enabled = auto; badge = true; tab_title = true; background = false };
  notifications = record {
    enabled = true;
    states = notification_states;
    quiet_hours = quiet_hours;
  };
}

abbrev pub providers : ProvidersConfig
providers = record {
  claude = record { enabled = true; experimental = false };
  opencode = record { enabled = false; experimental = false };
  codex = record { enabled = false; experimental = true };
}

abbrev pub tts : TtsConfig
tts = record { enabled = false; states = [] }

abbrev pub logging : LoggingConfig
logging = record { level = warn; retention = "7d"; redact = true }

abbrev pub default_config : Config
default_config = record {
  version = 1;
  daemon = daemon;
  privacy = privacy;
  states = states;
  rendering = rendering;
  renderers = renderers;
  providers = providers;
  tts = tts;
  logging = logging;
  theme = some "default";
}
