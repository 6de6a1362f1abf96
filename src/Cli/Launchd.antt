-- ===== src/Cli/Launchd.antt =====
-- crates/ats-cli/src/daemon_commands.rs: the daemon as a launchd agent. The messages of a failed
-- call, and the lines of an output, are parameters.
pub mod Escaping
use Prim.Native.Char.{code, Char}
use Prim.Native.String
use agent_term_status.Prelude.{
  ℕ, String, Bool, true, false, ◌&&◌, ◌||◌, Option, some, none, List, [], ◌∷◌, ◌++◌, Result, ok,
  err, any, nat_eq, not, if◌then◌else◌, ◌⧺◌,
}
use agent_term_status.Claude.Risk.{contains}
use agent_term_status.Host.{
  PathBuf, Host, Run, Stop, io, exit, pure, stop, attempt, println, eprintln, command, ◌>>=◌, ◌>>◌,
}
use agent_term_status.Host.Paths.{◌/◌, display, dir_of}
use agent_term_status.Host.Files.{look, create_dir_all, write, remove_file}
use agent_term_status.Renderers.Process.{Exit, not_run, exited}

abbrev pub launchd_label : String
launchd_label = "ai.takurot.agent-term-status"

abbrev home_of : Option String → PathBuf
home_of none = "." ∷ []
home_of (some home) = home ∷ []

unfoldable pub plist_path : Option String → PathBuf
plist_path home = home_of home / "Library" / "LaunchAgents" / (launchd_label ⧺ ".plist")

unfoldable pub agent_logs_dir : Option String → PathBuf
agent_logs_dir home = home_of home / ".local" / "state" / "agent-term-status" / "logs"

abbrev beside : PathBuf → Bool → PathBuf
beside p true = p
beside p false = "ats-daemon" ∷ []

-- The binary beside the running program, or a name alone.
abbrev pub daemon_binary_path : Option PathBuf → Run PathBuf
daemon_binary_path none = pure ("ats-daemon" ∷ [])
daemon_binary_path (some dir) = do
  there ← look (dir / "ats-daemon")
  pure (beside (dir / "ats-daemon") there)

-- `str::replace` of one character.
unfoldable pub replace_char : ℕ → String → String → String
replace_char x new String.[] = String.[]
replace_char x new (String.◌∷◌ c s) =
    let rest = replace_char x new s in if nat_eq (code c) x then new ⧺ rest else String.◌∷◌ c rest

-- `&`, `<` and `>` are the characters 38, 60 and 62.
unfoldable pub xml_escape : String → String
unfolding replace_char
xml_escape s = replace_char 62 "&gt;" (replace_char 60 "&lt;" (replace_char 38 "&amp;" s))

-- The arguments are escaped texts.
unfoldable pub plist_content : String → String → String → String
plist_content binary stdout_log stderr_log =
    "<?xml version=\"1.0\" encoding=\"UTF-8\"?>\n<!DOCTYPE plist PUBLIC \"-//Apple//DTD PLIST 1.0//EN\" \"http://www.apple.com/DTDs/PropertyList-1.0.dtd\">\n<plist version=\"1.0\">\n<dict>\n    <key>Label</key>\n    <string>"
    ⧺ (launchd_label
        ⧺ ("</string>\n    <key>ProgramArguments</key>\n    <array>\n        <string>"
            ⧺ (binary
                ⧺ ("</string>\n    </array>\n    <key>RunAtLoad</key>\n    <true/>\n    <key>KeepAlive</key>\n    <true/>\n    <key>Nice</key>\n    <integer>10</integer>\n    <key>StandardOutPath</key>\n    <string>"
                    ⧺ (stdout_log
                        ⧺ ("</string>\n    <key>StandardErrorPath</key>\n    <string>"
                            ⧺ (stderr_log
                                ⧺ "</string>\n    <key>ProcessType</key>\n    <string>Background</string>\n</dict>\n</plist>\n")))))))

module _ (show_error : ℕ → String) (show_code : Exit → String) where
  abbrev or_exit : String → Result (Unit {0}) ℕ → Run (Unit {0})
  or_exit text (ok u) = pure tt
  or_exit text (err e) = eprintln (text ⧺ show_error e) >> stop (exit 1)

  -- `unwrap_or_else(|e| { eprintln!(…); exit(1) })`
  abbrev required : String → Run (Unit {0}) → Run (Unit {0})
  required text m = attempt m >>= or_exit text

  abbrev loaded : Exit → Run (Unit {0})
  loaded (exited true _ _) = do
    println "Daemon enabled. It will start on login and restart automatically."
    println ("To start now: launchctl start " ⧺ launchd_label)
  loaded (exited false out errors) =
      eprintln ("launchctl load failed with exit code: " ⧺ show_code (exited false out errors))
      >> stop (exit 1)
  loaded (not_run e) = eprintln ("Failed to run launchctl: " ⧺ e) >> stop (exit 1)

  abbrev enabled : Option String → PathBuf → Bool → Run (Unit {0})
  enabled home binary false = do
    eprintln ("Daemon binary not found at: " ⧺ display binary)
    eprintln "Make sure ats-daemon is on your PATH or in the same directory as ats."
    stop (exit 1)
  enabled home binary true = do
    required "Failed to create LaunchAgents directory: " (create_dir_all (dir_of (plist_path home)))
    required "Failed to create log directory: " (create_dir_all (agent_logs_dir home))
    required "Failed to write plist: " (
        write (plist_path home) (
          plist_content (xml_escape (display binary))
            (xml_escape (display (agent_logs_dir home / "daemon.stdout.log")))
            (xml_escape (display (agent_logs_dir home / "daemon.stderr.log")))))
    status ← command ("launchctl" ∷ "load" ∷ "-w" ∷ display (plist_path home) ∷ [])
    loaded status

  unfoldable pub run_enable : Option String → Option PathBuf → Run (Unit {0})
  run_enable home exe_dir = do
    binary ← daemon_binary_path exe_dir
    there ← look binary
    enabled home binary there

  abbrev warned : String → Exit → Run (Unit {0})
  warned text (not_run e) = eprintln (text ⧺ e)
  warned text (exited _ _ _) = pure tt

  abbrev disabled : Option String → Bool → Run (Unit {0})
  disabled home false = println "LaunchAgent plist not found. Daemon autostart is not configured."
  disabled home true = do
    unload_status ← command ("launchctl" ∷ "unload" ∷ "-w" ∷ display (plist_path home) ∷ [])
    warned "Warning: launchctl unload failed: " unload_status
    required "Failed to remove plist: " (remove_file (plist_path home))
    stop_status ← command ("launchctl" ∷ "stop" ∷ launchd_label ∷ [])
    warned "Warning: launchctl stop failed: " stop_status
    println "Daemon autostart disabled."

  unfoldable pub run_disable : Option String → Run (Unit {0})
  run_disable home = do there ← look (plist_path home); disabled home there

-- The first character that is not blank is a dash.
unfoldable pub is_dashed : String → Bool
is_dashed String.[] = false
is_dashed (String.◌∷◌ c s) =
    let rest = is_dashed s in
    if nat_eq (code c) 32 || (nat_eq (code c) 9 || nat_eq (code c) 13)
    then rest
    else nat_eq (code c) 45

module _ (lines : String → List String) where
  abbrev listed : String → Run (Unit {0})
  listed out =
      if contains out launchd_label
      then (if any (λ line. contains line launchd_label && is_dashed line) (lines out)
          then println "Daemon is registered with launchd but not currently running."
          else println "Daemon is running (managed by launchd).")
      else println "Daemon is not registered with launchd."

  -- The output is the text that it decodes to.
  abbrev list_status : Exit → Run (Unit {0})
  list_status (exited true (some out) _) = listed out
  list_status (exited true none _) = println "Daemon is not registered with launchd."
  list_status (exited false _ _) = println "Daemon is not registered with launchd."
  list_status (not_run e) = eprintln ("Failed to check daemon status: " ⧺ e) >> stop (exit 1)

  unfoldable pub run_launchd_status : Run (Unit {0})
  run_launchd_status = command ("launchctl" ∷ "list" ∷ launchd_label ∷ []) >>= list_status
