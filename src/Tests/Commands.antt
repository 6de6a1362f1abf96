-- ===== src/Tests/Commands.antt =====
-- The commands that stop the daemon, ask for it, set it up and draw a state.
use agent_term_status.Prelude.{
  ℕ, ◌≡◌, refl, String, Bool, true, Option, some, none, [], ◌∷◌, arith, if◌then◌else◌, str_eq, leb,
}
use agent_term_status.Prelude.HashMap.{get, remove}
use agent_term_status.Prelude.Int.{ℤ, pos, negsuc}
use agent_term_status.Cli.DaemonCommands.{kill_daemon, probe, socket_reachable}
use agent_term_status.Cli.DaemonCommands.Probing.{Probed, socket_reachable-Probed}
use agent_term_status.Cli.DaemonCommands.Signals.{OnlyTo, kill_daemon-OnlyTo}
use agent_term_status.Cli.EventPrototype
use agent_term_status.Cli.EventPrototype.{border_style, pane_scope_is_safe, parse_state}
use agent_term_status.Cli.EventPrototype.Scope.{RanScoped, run-RanScoped}
use agent_term_status.Cli.Launchd.{xml_escape, replace_char}
use agent_term_status.Cli.Themes.Preview.{channel, from_hex}
use agent_term_status.Core.{AgentState, working}
use agent_term_status.Host.{Host, done, PathBuf, command}
use agent_term_status.Host.Files.{call, read_to_string, remove_file}
use agent_term_status.Host.Triples.{After}
use agent_term_status.Renderers.Process.{exited, run_command}
use agent_term_status.Renderers.Tmux.Version.{
  parse_tmux_version, find_from, take_while, after_dot, parse_u32, decimal,
}

abbrev pid_file : PathBuf
pid_file = "/run" ∷ "status.pid" ∷ []

abbrev host : String → String → Host
host content version = record {
  files = (pid_file, record { contents = content; mode = 420 }) ∷ [];
  dirs = [];
  file_mode = 420;
  dir_mode = 493;
  calls = 0;
  verdict = λ n. done;
  printed = [];
  signalled = [];
  outside = record { log = []; exit = λ n. exited true (some version) "" };
}

abbrev parse : String → Option ℤ
parse s = if str_eq s "7" then some (pos 7) else if str_eq s "-1" then some (negsuc 0) else none

abbrev terminate : ℤ → Option ℕ
terminate pid = none

killed_test : (kill_daemon parse terminate pid_file (host "7" "")).0.signalled ≡ pos 7 ∷ []
unfolding kill_daemon read_to_string remove_file call get remove
killed_test = refl

-- A number that names a group of processes is sent nothing.
group_test : (kill_daemon parse terminate pid_file (host "-1" "")).0.signalled ≡ []
unfolding kill_daemon read_to_string remove_file call get remove
group_test = refl

kill_daemon-OnlyTo_example :
    After
      (λ _. OnlyTo parse terminate pid_file (host "7" ""))
      (λ s. OnlyTo parse terminate pid_file (host "7" ""))
      (kill_daemon parse terminate pid_file (host "7" ""))
kill_daemon-OnlyTo_example = kill_daemon-OnlyTo parse terminate pid_file (host "7" "")

abbrev connects : ℕ → Bool
connects i = leb 3 i

abbrev elapsed : ℕ → Bool
elapsed i = leb 40 i

probed_test : socket_reachable connects elapsed 41 ≡ some true
unfolding socket_reachable probe
probed_test = refl

socket_reachable-Probed_example :
    (b : Bool) × ((socket_reachable connects elapsed 41 ≡ some b) × Probed connects elapsed 0 b)
socket_reachable-Probed_example = socket_reachable-Probed connects elapsed 41 40 (omega arith) refl

escaped_test : xml_escape "a<b>&c" ≡ "a&lt;b&gt;&amp;c"
unfolding xml_escape replace_char
escaped_test = refl

abbrev from_name : String → Option AgentState
from_name s = if str_eq s "working" then some working else none

abbrev same : String → String
same s = s

drawn_test :
    (EventPrototype.run from_name same same
      (some "%1")
      "working"
      (host "" "tmux 3.7")).0.outside.log
    ≡ ("tmux" ∷ "-V" ∷ [])
      ∷ ("tmux" ∷ "set-option" ∷ "-p" ∷ "-t" ∷ "%1" ∷ "pane-border-style" ∷ "fg=blue" ∷ [])
      ∷ []
unfolding EventPrototype.run parse_state pane_scope_is_safe border_style command run_command
    parse_tmux_version find_from take_while after_dot parse_u32 decimal
drawn_test = refl

run-RanScoped_example :
    RanScoped from_name same same "%1"
      (host "" "tmux 3.4")
      (EventPrototype.run from_name same same (some "%1") "working" (host "" "tmux 3.4")).0
run-RanScoped_example = run-RanScoped from_name same same "%1" (host "" "tmux 3.4") "working"

channel_test : channel "#0aFF10" 3 5 ≡ 255
unfolding channel from_hex
channel_test = refl
