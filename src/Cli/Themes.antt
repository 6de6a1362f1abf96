-- ===== src/Cli/Themes.antt =====
-- crates/ats-cli/src/theme_commands.rs: the list of themes, and the choice of one. The YAML library,
-- the listing of a directory, the printing of errors and the crate `tempfile` are parameters.
pub mod Loading
pub mod Preview
pub mod Applying
use agent_term_status.Prelude.{
  ℕ, String, String_eq, Bool, true, false, ◌&&◌, ◌||◌, not, Option, some, none, List, [], ◌∷◌,
  Result, ok, err, is_empty, str_eq, if◌then◌else◌, ◌⧺◌, ◌⊎◌, inl, inr,
}
use agent_term_status.Prelude.HashMap.{contains}
use agent_term_status.Config.Atomic.{Tempfile, atomic_write}
use agent_term_status.Config.Paths.{ConfigPaths}
use agent_term_status.Config.Settings.{Config}
use agent_term_status.Config.Settings.Default.{default_config}
use agent_term_status.Config.Theme.{Theme}
use agent_term_status.Core.{AgentState, idle, working, attention, risk, result, error}
use agent_term_status.Host.{
  PathBuf, Host, Run, Stop, pure, stop, exit, attempt, println, eprintln, when, ◌>>=◌, ◌>>◌,
}
use agent_term_status.Host.Files.{look, read_to_string}

abbrev pub all_states : List AgentState
all_states = idle ∷ working ∷ attention ∷ risk ∷ result ∷ error ∷ AgentState.unknown ∷ []

unfoldable pub state_name : AgentState → String
state_name idle = "idle"
state_name working = "working"
state_name attention = "attention"
state_name risk = "risk"
state_name result = "result"
state_name error = "error"
state_name AgentState.unknown = "unknown"

abbrev pub or_default : Option Config → Config
or_default none = default_config
or_default (some config) = config

-- The configuration in the user's file, where it can be read and parsed.
module _ (parse_config : String → Option Config) where
  abbrev pub parsed : Result String ℕ → Option Config
  parsed (err e) = none
  parsed (ok content) = parse_config content

  abbrev pub config_there : PathBuf → Bool → Run (Option Config)
  config_there file false = pure none
  config_there file true = do content ← attempt (read_to_string file); pure (parsed content)

  unfoldable pub load_user_config : ConfigPaths → Run (Option Config)
  load_user_config paths = look paths.user_config_file >>= config_there paths.user_config_file

  abbrev marker_of : String → Option Config → String
  marker_of name none = ""
  marker_of name (some config) = elim config.theme [
    | none ↦ ""
    | some theme ↦ if str_eq theme name then "  <-- active" else ""
  ]

  unfoldable pub current_theme_marker : ConfigPaths → String → Run String
  current_theme_marker paths name = do config ← load_user_config paths; pure (marker_of name config)

  -- A line of `ats theme list`.
  abbrev pub listed : ConfigPaths → String → String → Run (Unit {0})
  listed paths name origin = do
    current ← current_theme_marker paths name
    println ("  " ⧺ (name ⧺ (" [" ⧺ (origin ⧺ ("]" ⧺ current)))))

  unfoldable pub list_bundled : ConfigPaths → List String → Run (Unit {0})
  list_bundled paths [] = pure tt
  list_bundled paths (name ∷ names) = listed paths name "bundled" >> list_bundled paths names

  -- The entries of the user's directory, each with its stem and its extension; whether one of them
  -- was listed.
  unfoldable pub list_user :
      ConfigPaths → List String → List (String × Option String) → Bool → Run Bool
  list_user paths bundled [] some_listed = pure some_listed
  list_user paths bundled ((stem, none) ∷ rest) some_listed =
      list_user paths bundled rest some_listed
  list_user paths bundled ((stem, some ext) ∷ rest) some_listed =
      let others = list_user paths bundled rest some_listed in
      let with_this = listed paths stem "user" >> list_user paths bundled rest true in
      if (str_eq ext "yaml" || str_eq ext "yml") && not (contains stem bundled)
      then with_this
      else others

  abbrev entries_listed :
      ConfigPaths → List String → Option (List (String × Option String)) → Run (Bool × Bool)
  entries_listed paths bundled none =
      eprintln "Warning: could not read user themes directory"
      >> pure (not (is_empty bundled), true)
  entries_listed paths bundled (some entries) = do
    some_listed ← list_user paths bundled entries (not (is_empty bundled))
    pure (some_listed, false)

  abbrev dir_listed :
      ConfigPaths → List String → Option (List (String × Option String)) → Bool → Run (Bool × Bool)
  dir_listed paths bundled entries false = pure (not (is_empty bundled), false)
  dir_listed paths bundled entries true = entries_listed paths bundled entries

  abbrev ended : Bool × Bool → Run (Unit {0})
  ended (true, failed) = when failed (stop (exit 1))
  ended (false, failed) = eprintln "No themes found." >> stop (exit 1)

  -- The listing is none where the directory cannot be read.
  unfoldable pub run_list :
      ConfigPaths → List String → Option (List (String × Option String)) → Run (Unit {0})
  run_list paths bundled entries = do
    list_bundled paths bundled
    there ← look paths.user_themes_dir
    listed_failed ← dir_listed paths bundled entries there
    ended listed_failed

  module _ (to_yaml : Config → String ⊎ String) (tempfile : Tempfile)
      (show_stop : Stop → String) where
    -- `process::exit` after a message, and the end of a process that is killed.
    abbrev pub write_failed : Stop → Run (Unit {0})
    write_failed Stop.killed = stop Stop.killed
    write_failed s = eprintln ("Failed to write config: " ⧺ show_stop s) >> stop (exit 1)

    abbrev pub finished : String → Host × Result (Unit {0}) Stop → Host × Result (Unit {0}) Stop
    finished name (h, err s) = write_failed s h
    finished name (h, ok u) =
        println ("Theme set to '" ⧺ (name ⧺ "'. Restart the daemon for changes to take effect.")) h

    abbrev pub write_config : ConfigPaths → String → String → Run (Unit {0})
    write_config paths name yaml h =
        finished name (atomic_write tempfile paths.user_config_file yaml h)

    abbrev pub save : ConfigPaths → String → String ⊎ String → Run (Unit {0})
    save paths name (inl e) = eprintln ("Failed to serialize config: " ⧺ e) >> stop (exit 1)
    save paths name (inr yaml) = write_config paths name yaml

    abbrev pub apply_to : ConfigPaths → String → Option Config → Run (Unit {0})
    apply_to paths name current_config =
        save paths name (to_yaml (record (or_default current_config) { theme = some name }))

    abbrev pub apply_loaded : ConfigPaths → String → Result Theme String → Run (Unit {0})
    apply_loaded paths name (err e) = eprintln e >> stop (exit 1)
    apply_loaded paths name (ok theme) = do
      current_config ← load_user_config paths
      apply_to paths name current_config

    -- The theme is loaded, and otherwise not looked at.
    unfoldable pub run_apply :
        (String → Run (Result Theme String)) → ConfigPaths → String → Run (Unit {0})
    run_apply load paths name = do theme ← load name; apply_loaded paths name theme
