-- ===== src/Tests/Themes.antt =====
-- `ats theme apply` and `ats event` on a small host.
use agent_term_status.Prelude.{
  false, ◌≡◌, refl, String, Option, some, none, List, [], ◌∷◌, ◌⊎◌, inr, str_eq, if◌then◌else◌,
}
use agent_term_status.Prelude.HashMap.{get, insert, remove, contains}
use agent_term_status.Cli.Themes.{run_apply, load_user_config}
use agent_term_status.Cli.Themes.Loading.{load_theme}
use agent_term_status.Cli.Themes.Applying.{IsApplied, IsLeft, run_apply-IsApplied}
use agent_term_status.Cli.Standalone.{event_command, standalone_theme}
use agent_term_status.Cli.Standalone.FailOpen.{IsOpen, IsThemed, event_command-IsOpen}
use agent_term_status.Core.{AgentState, working}
use agent_term_status.Config.Atomic.{atomic_write, replace_file}
use agent_term_status.Config.Paths.{ConfigPaths}
use agent_term_status.Config.Settings.{Config}
use agent_term_status.Config.Settings.Default.{default_config}
use agent_term_status.Config.Theme.{Theme, bundle_names, load_bundled}
use agent_term_status.Host.{Host, Stop, done}
use agent_term_status.Host.Files.{call, create_dir_all, copy, remove_file, read_to_string, text_at}
use agent_term_status.Host.Paths.{before_dot}
use agent_term_status.Host.Triples.{After}
use agent_term_status.Tests.Host.{small_tempfile, is_temp, small-IsLawful, config, host, apart_test}

abbrev paths : ConfigPaths
paths = record {
  user_config_dir = [];
  user_state_dir = [];
  user_runtime_dir = [];
  user_themes_dir = "/themes" ∷ [];
  user_config_file = config;
  project_config_file = none;
}

abbrev bundled : List (String × String)
bundled = ("dark", "") ∷ []

abbrev from_str : String → String ⊎ Theme
from_str s = inr (record { name = "dark"; states = [] })

-- A configuration is written as its theme.
abbrev parse_config : String → Option Config
parse_config s = if str_eq s "old" then some (record default_config { version = 2 }) else none

abbrev theme_of : Option String → String
theme_of none = "none"
theme_of (some t) = t

abbrev to_yaml : Config → String ⊎ String
to_yaml c = inr (theme_of c.theme)

abbrev show_stop : Stop → String
show_stop s = "failed"

abbrev applied_to : Host → Host
applied_to h =
    (run_apply parse_config to_yaml small_tempfile show_stop
      (load_theme bundled from_str (λ e. "") (λ ns. "") paths) paths "dark" h).0

applied_test : text_at config (applied_to (host (λ n. done))) ≡ some "dark"
unfolding run_apply load_theme load_user_config atomic_write replace_file create_dir_all copy
    remove_file read_to_string call get insert remove before_dot contains bundle_names load_bundled
applied_test = refl

run_apply-IsApplied_example :
    After
      (λ _. IsApplied parse_config to_yaml is_temp paths "dark" (host (λ n. done)))
      (IsLeft parse_config to_yaml is_temp paths "dark" (host (λ n. done)))
      (run_apply parse_config to_yaml small_tempfile show_stop
        (load_theme bundled from_str (λ e. "") (λ ns. "") paths)
        paths
        "dark"
        (host (λ n. done)))
run_apply-IsApplied_example =
    run_apply-IsApplied parse_config to_yaml is_temp paths "dark" (host (λ n. done)) small_tempfile
      show_stop small-IsLawful refl apart_test bundled from_str (λ e. "") (λ ns. "")

abbrev default_theme : List (String × String)
default_theme = ("default", "") ∷ []

abbrev same : String → String
same s = s

abbrev from_name : String → Option AgentState
from_name s = if str_eq s "working" then some working else none

themed_test : IsThemed default_theme from_str same (λ s. "Working") (λ e. "")
unfolding standalone_theme load_bundled
themed_test e = cc e

-- The daemon does not answer, and the pane is drawn.
event_command-IsOpen_example : IsOpen (host (λ n. done)) (
    event_command default_theme from_str same
      (λ s. "Working")
      (λ e. "")
      from_name
      same
      false
      (some "%1")
      "working"
      (host (λ n. done)))
event_command-IsOpen_example =
    event_command-IsOpen default_theme from_str same (λ s. "Working") (λ e. "") themed_test
      from_name same false (some "%1") "working" (host (λ n. done))
