-- ===== src/Cli/Doctor.antt =====
-- crates/ats-cli/src/doctor.rs. The YAML parsers, the bundled themes, whether the socket answers,
-- `str::trim` and the printing of modes and errors are parameters.
use agent_term_status.Prelude.{
  ℕ, ◌%◌, String, Bool, true, false, Option, some, none, List, [], ◌∷◌, Result, ok, err, length,
  is_empty, nat_eq, if◌then◌else◌, ◌⧺◌, ◌⊎◌, inl, inr,
}
use agent_term_status.Cli.Query.{logs_dir}
use agent_term_status.Config.Paths.{ConfigPaths}
use agent_term_status.Config.Settings
use agent_term_status.Config.Settings.{Config}
use agent_term_status.Config.Theme
use agent_term_status.Config.Theme.{Theme, ThemeError, bundle_names, load_bundled}
use agent_term_status.Daemon.Paths.{DaemonPaths}
use agent_term_status.Host.{PathBuf, Run, pure, attempt, println, command, when, ◌>>=◌, ◌>>◌}
use agent_term_status.Host.Files.{look, mode, create_dir_all, read_to_string, write, remove_file}
use agent_term_status.Host.Paths.{◌/◌, display, parent}
use agent_term_status.Renderers.Process.{Exit, not_run, exited}

unfoldable pub check : String → Bool → String → Run (Unit {0})
check label ok_ detail =
    println ("  [" ⧺ ((if ok_ then "GREEN" else "RED") ⧺ ("] " ⧺ (label ⧺ (": " ⧺ detail)))))

unfoldable pub check_amber : String → String → Run (Unit {0})
check_amber label detail = println ("  [AMBER] " ⧺ (label ⧺ (": " ⧺ detail)))

unfoldable pub check_daemon : Bool → Run (Unit {0})
check_daemon true = check "Daemon" true "running and reachable"
check_daemon false = check "Daemon" false "not running. Start with: ats daemon enable && ats-daemon"

module _ (show_error : ℕ → String) where
  module _ (octal : ℕ → String) where
    abbrev judged_mode : Result ℕ ℕ → Run (Unit {0})
    judged_mode (ok m) =
        if nat_eq (m % 512) 384
        then check "Socket mode" true "0600 (user read/write only)"
        else check "Socket mode" false (octal (m % 512) ⧺ " (should be 600)")
    judged_mode (err e) = check "Socket mode" false ("cannot stat: " ⧺ show_error e)

    abbrev socket_there : PathBuf → Bool → Run (Unit {0})
    socket_there path false = check_amber "Socket mode" "socket file does not exist"
    socket_there path true = attempt (mode path) >>= judged_mode

    unfoldable pub check_socket_mode : PathBuf → Run (Unit {0})
    check_socket_mode path = look path >>= socket_there path

  abbrev created : String → PathBuf → Result (Unit {0}) ℕ → Run (Unit {0})
  created label dir (ok u) = check label true (display dir ⧺ " (created)")
  created label dir (err e) =
      check label false (display dir ⧺ (" (cannot create: " ⧺ (show_error e ⧺ ")")))

  abbrev dir_there : Bool → String → PathBuf → Bool → Run (Unit {0})
  dir_there fix label dir true = check label true (display dir)
  dir_there true label dir false = attempt (create_dir_all dir) >>= created label dir
  dir_there false label dir false = check label false (display dir ⧺ " (missing)")

  unfoldable pub check_dirs : Bool → List (String × PathBuf) → Run (Unit {0})
  check_dirs fix [] = pure tt
  check_dirs fix ((label, dir) ∷ dirs) = do
    there ← look dir
    if is_empty dir then pure tt else dir_there fix label dir there
    check_dirs fix dirs

  abbrev or_default : Option PathBuf → PathBuf
  or_default none = []
  or_default (some p) = p

  unfoldable pub check_paths_exist : ConfigPaths → DaemonPaths → Bool → Run (Unit {0})
  check_paths_exist paths daemon_paths fix = check_dirs fix (
      ("Config dir", paths.user_config_dir)
      ∷ ("State dir", paths.user_state_dir)
      ∷ ("Socket dir", or_default (parent daemon_paths.socket_path))
      ∷ [])

  abbrev tried : PathBuf → Result (Unit {0}) ℕ → Run (Unit {0})
  tried log_dir (ok u) = do
    gone ← attempt (remove_file (log_dir / ".doctor-write-test"))
    check "Log dir writable" true (display log_dir)
  tried log_dir (err e) =
      check "Log dir writable" false (display log_dir ⧺ (" (" ⧺ (show_error e ⧺ ")")))

  abbrev write_test : PathBuf → Run (Unit {0})
  write_test log_dir = attempt (write (log_dir / ".doctor-write-test") "test") >>= tried log_dir

  abbrev made : PathBuf → Result (Unit {0}) ℕ → Run (Unit {0})
  made log_dir (ok u) = write_test log_dir
  made log_dir (err e) =
      check "Log dir writable" false
        (display log_dir ⧺ (" (cannot create: " ⧺ (show_error e ⧺ ")")))

  abbrev log_dir_there : PathBuf → Bool → Run (Unit {0})
  log_dir_there log_dir true = write_test log_dir
  log_dir_there log_dir false = attempt (create_dir_all log_dir) >>= made log_dir

  unfoldable pub check_log_dir_writable : Option String → Run (Unit {0})
  check_log_dir_writable home = look (logs_dir home) >>= log_dir_there (logs_dir home)

  module _ (parse_config : String → String ⊎ Config) (join : List String → String) where
    abbrev validated : PathBuf → Result (Unit {0}) (List String) → Run (Unit {0})
    validated file (ok u) = check "Config" true ("valid (" ⧺ (display file ⧺ ")"))
    validated file (err errors) = check "Config" false ("invalid: " ⧺ join errors)

    abbrev parsed : PathBuf → String ⊎ Config → Run (Unit {0})
    parsed file (inl e) = check "Config" false ("parse error: " ⧺ e)
    parsed file (inr config) = validated file (Settings.validate config)

    abbrev config_read : PathBuf → Result String ℕ → Run (Unit {0})
    config_read file (err e) = check "Config" false ("cannot read: " ⧺ show_error e)
    config_read file (ok content) = parsed file (parse_config content)

    abbrev config_there : PathBuf → Bool → Run (Unit {0})
    config_there file false = check_amber "Config" "no user config (defaults apply)"
    config_there file true = attempt (read_to_string file) >>= config_read file

    unfoldable pub check_config_valid : ConfigPaths → Run (Unit {0})
    check_config_valid paths = look paths.user_config_file >>= config_there paths.user_config_file

-- What does not load or is not valid, in words.
module _ (bundled : List (String × String)) (from_str : String → String ⊎ Theme)
    (show_theme_error : ThemeError → String) (show_number : ℕ → String) where
  abbrev complaint : String → Result (Unit {0}) ThemeError → Option String
  complaint name (ok u) = none
  complaint name (err e) = some (name ⧺ (": " ⧺ (show_theme_error e ⧺ "; ")))

  abbrev loaded : String → Result Theme ThemeError → Option String
  loaded name (err e) = complaint name (err e)
  loaded name (ok theme) = complaint name (Theme.validate theme)

  abbrev added : Option String → Option String → Option String
  added none rest = rest
  added (some text) none = some text
  added (some text) (some rest) = some (text ⧺ rest)

  unfoldable pub complaints : List String → Option String
  complaints [] = none
  complaints (name ∷ names) =
      added (loaded name (load_bundled bundled from_str name)) (complaints names)

  abbrev themes_checked : Option String → Run (Unit {0})
  themes_checked none =
      check "Themes" true
        (show_number (length (bundle_names bundled from_str)) ⧺ " bundled themes load")
  themes_checked (some detail) = check "Themes" false detail

  unfoldable pub check_themes_load : Run (Unit {0})
  check_themes_load = themes_checked (complaints (bundle_names bundled from_str))

module _ (trim : String → String) where
  abbrev succeeded : Exit → Bool
  succeeded (exited b out stderr) = b
  succeeded (not_run reason) = false

  -- The output is the text that it decodes to; no output where the second run cannot be run.
  abbrev version_of : Exit → String
  version_of (exited b (some out) stderr) = trim out
  version_of (exited b none stderr) = "unknown"
  version_of (not_run reason) = "unknown"

  abbrev tmux_found : Bool → Run (Unit {0})
  tmux_found false = check "tmux" false "not found in PATH"
  tmux_found true = do
    output ← command ("tmux" ∷ "-V" ∷ [])
    check "tmux" true ("found (" ⧺ (version_of output ⧺ ")"))

  unfoldable pub check_tmux : Run (Unit {0})
  check_tmux = do output ← command ("tmux" ∷ "-V" ∷ []); tmux_found (succeeded output)

-- The checks in their order.
unfoldable pub run_doctor :
    Run (Unit {0})
    → Run (Unit {0})
    → (Bool → Run (Unit {0}))
    → Run (Unit {0})
    → Run (Unit {0})
    → Run (Unit {0})
    → Run (Unit {0})
    → Bool
    → Run (Unit {0})
run_doctor daemon socket_mode paths_exist log_dir_writable config_valid themes_load tmux fix = do
  println "ats doctor"
  println ""
  daemon
  socket_mode
  paths_exist fix
  log_dir_writable
  config_valid
  themes_load
  tmux
  when fix (println "" >> println "Auto-repair: directory creation attempted where possible.")
