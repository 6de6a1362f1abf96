-- ===== src/Cli/Query.antt =====
-- crates/ats-cli/src/query_commands.rs and socket_client.rs. Whether the daemon's socket answers is
-- a parameter.
pub mod Tail
use Prim.Native.Char.{code, Char}
use Prim.Native.String
use agent_term_status.Prelude.{
  ℕ, ◌+◌, ◌≡◌, String, Bool, true, false, ◌&&◌, Option, some, none, List, [], ◌∷◌, ◌++◌, Result, ok,
  err, length, nat_eq, if◌then◌else◌, ◌⧺◌,
}
use agent_term_status.Claude.Risk.{contains}
use agent_term_status.Daemon.Logging.{begins}
use agent_term_status.Host.{PathBuf, Host, Stop, Run, pure, println, eprintln, attempt, ◌>>=◌, ◌>>◌}
use agent_term_status.Host.Paths.{◌/◌, display}
use agent_term_status.Host.Files.{look, read_to_string}

abbrev pub newline : ℕ
newline = 10

abbrev consed : Char → List String → List String
consed c [] = String.◌∷◌ c String.[] ∷ []
consed c (l ∷ ls) = String.◌∷◌ c l ∷ ls

-- `BufRead::lines`: a line ends with a newline, or a return and a newline, or at the end.
unfoldable pub lines : String → List String
unfolding begins
lines String.[] = []
lines (String.◌∷◌ c s) =
    let rest = lines s in
    if nat_eq (code c) newline
    then "" ∷ rest
    else if nat_eq (code c) 13 && begins "\n" s
    then rest
    else consed c rest

-- `HOME`, or the current directory.
abbrev pub home_dir : Option String → PathBuf
home_dir none = "." ∷ []
home_dir (some home) = home ∷ []

unfoldable pub logs_dir : Option String → PathBuf
logs_dir home = home_dir home / ".local" / "state" / "agent-term-status" / "logs"

abbrev pub needle : Option String → Option String
needle none = none
needle (some level) = some ("\"level\":\"" ⧺ (level ⧺ "\""))

abbrev pub matches : Option String → String → Bool
matches none line = true
matches (some n) line = contains line n

abbrev pub pop_front : List String → List String
pop_front [] = []
pop_front (_ ∷ rest) = rest

-- `pop_front` where the ring is full, then `push_back`.
abbrev pub push : List String → String → List String
push ring line = (if nat_eq (length ring) 1000 then pop_front ring else ring) ++ line ∷ []

-- The loop that fills the ring.
unfoldable pub fill : Option String → List String → List String → List String
fill n ring [] = ring
fill n ring (line ∷ rest) = fill n (if matches n line then push ring line else ring) rest

unfoldable pub filtered : Option String → List String → List String
filtered n [] = []
filtered n (line ∷ rest) =
    let others = filtered n rest in if matches n line then line ∷ others else others

unfoldable pub print_all : List String → Run (Unit {0})
print_all [] = pure tt
print_all (line ∷ rest) = println line >> print_all rest

-- The lines that `ats logs` prints of those of the file.
unfoldable pub shown : Bool → Option String → List String → List String
unfolding fill filtered
shown true level ls = fill (needle level) [] ls
shown false level ls = filtered (needle level) ls

-- A file that cannot be read is one that cannot be opened.
module _ (show_error : ℕ → String) where
  abbrev read_log : Bool → Option String → Result String ℕ → Run (Unit {0})
  read_log tail level (ok content) = print_all (shown tail level (lines content))
  read_log tail level (err e) = eprintln ("Failed to open log file: " ⧺ show_error e)

  abbrev log_there : Bool → Option String → PathBuf → Bool → Run (Unit {0})
  log_there tail level log_file false =
      println ("Log file not found at " ⧺ (display log_file ⧺ ". Daemon may not have started yet."))
  log_there tail level log_file true = do
    content ← attempt (read_to_string log_file)
    read_log tail level content

  unfoldable pub run_logs : Option String → Bool → Option String → Run (Unit {0})
  run_logs home tail level = do
    there ← look (logs_dir home / "ats-daemon.log")
    log_there tail level (logs_dir home / "ats-daemon.log") there

abbrev status_of : Option String → Run (Unit {0})
status_of none = do
  println "Daemon is running."
  println "Use --session <id> for per-session status."
status_of (some id) = do
  println ("Session: " ⧺ id)
  println "State: unknown (query protocol not yet implemented)"

unfoldable pub run_status : Bool → Option String → Run (Unit {0})
run_status reachable session_id =
    if reachable then status_of session_id else println "Daemon is not running."

abbrev listed : Bool → Bool → Run (Unit {0})
listed false true = println "{\"sessions\": [], \"error\": \"daemon not reachable\"}"
listed false false = println "Daemon is not running. No sessions to list."
listed true true = println "{\"sessions\": [], \"note\": \"query protocol not yet implemented\"}"
listed true false = do
  println "Daemon is running."
  println "Session listing via query protocol not yet implemented."

unfoldable pub run_list : Bool → Bool → Run (Unit {0})
run_list reachable json = listed reachable json
