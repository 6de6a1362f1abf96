-- ===== src/Tests/Server.antt =====
-- The socket that is bound, and the loop that accepts connections.
use agent_term_status.Prelude.{ℕ, ◌≡◌, ◌≢◌, refl, String, true, false, some, none, [], ◌∷◌, arith}
use agent_term_status.Prelude.HashMap.{get, insert, remove}
use agent_term_status.Daemon.Paths.{DaemonPaths, resolve_with_env, ensure_parent_dirs}
use agent_term_status.Daemon.Server.Accept.{
  ServerConfig, Serving, accepted, task_ended, shutdown_changed, grace_elapsed, serve, step, run,
  ended, accepting, stopped, unlinked,
}
use agent_term_status.Daemon.Server.Accept.Permits.{Admitted, step-Admitted}
use agent_term_status.Daemon.Server.Accept.Stopping.{IsShutDown, run-grace}
use agent_term_status.Daemon.Server.Bind.{bind}
use agent_term_status.Daemon.Server.Bind.Modes.{IsOwners, bind-IsOwners}
use agent_term_status.Host.{Host, done, ◌>>◌}
use agent_term_status.Host.Files.{
  call, create_dir_all, set_permissions, mode, mode_at, remove_file, bind_socket,
}
use agent_term_status.Host.Paths.{same_path_iff}
use agent_term_status.Host.Triples.{After}
use agent_term_status.Renderers.Process.{exited}

abbrev config : ServerConfig
config = record { max_connections = 2; read_timeout = 10; shutdown_grace = 5 }

-- The third client is turned away, and a fourth is served once the first is gone.
busy : Serving
unfolding run step serve ended
busy = run (accepted 1 ∷ accepted 2 ∷ accepted 3 ∷ task_ended 1 ∷ accepted 4 ∷ []) (serve config)

busy_test : busy ≡ record {
  phase = accepting;
  permits = 0;
  running = 2 ∷ 4 ∷ [];
  finished = 1;
  turned_away = 3 ∷ [];
  aborted = false;
  socket_file = true;
}
unfolding busy
busy_test = refl

accepting_test : (run (accepted 1 ∷ accepted 2 ∷ []) (serve config)).phase ≡ accepting
unfolding run step serve
accepting_test = refl

step-Admitted_example :
    Admitted 2 3
      (run (accepted 1 ∷ accepted 2 ∷ []) (serve config))
      (step (accepted 3) (run (accepted 1 ∷ accepted 2 ∷ []) (serve config)))
step-Admitted_example = step-Admitted config (accepted 1 ∷ accepted 2 ∷ []) 3 accepting_test

-- The task ends after it has been told to abort; the socket's file cannot be removed.
left_test :
    run
      (shutdown_changed true ∷ grace_elapsed ∷ unlinked false ∷ task_ended 1 ∷ [])
      (run (accepted 1 ∷ []) (serve config))
    ≡ record {
      phase = stopped;
      permits = 2;
      running = [];
      finished = 1;
      turned_away = [];
      aborted = true;
      socket_file = true;
    }
unfolding run step serve ended
left_test = refl

run-grace_example : IsShutDown (run (accepted 1 ∷ []) (serve config)) (
    run (unlinked true ∷ accepted 5 ∷ []) (
      step grace_elapsed (
        run
          (accepted 4 ∷ [])
          (step (shutdown_changed true) (run (accepted 1 ∷ []) (serve config))))))
run-grace_example =
    run-grace config (accepted 1 ∷ []) (accepted 4 ∷ []) (unlinked true ∷ accepted 5 ∷ [])

abbrev host : Host
host = record {
  files = [];
  dirs = [];
  file_mode = 420;
  dir_mode = 493;
  calls = 0;
  verdict = λ n. done;
  printed = [];
  signalled = [];
  outside = record { log = []; exit = λ n. exited true (some "") "" };
}

abbrev paths : DaemonPaths
paths = record {
  socket_path = "/home/me" ∷ ".local" ∷ "status.sock" ∷ [];
  pid_path = "/home/me" ∷ ".local" ∷ "status.pid" ∷ [];
  logs_dir = "/home/me" ∷ "logs" ∷ [];
  owns_parent_dir = true;
}

abbrev octal : ℕ → String
octal n = "?"

-- The directory is the user's alone before the socket is bound in it, and the socket is then.
bound_test :
    mode_at paths.socket_path ((ensure_parent_dirs paths >> bind octal paths.socket_path) host).0
    ≡ some 384
unfolding ensure_parent_dirs bind create_dir_all set_permissions mode remove_file bind_socket call
    get insert remove
bound_test = refl

-- With the default mode of a directory the socket is not bound.
refused_test :
    mode_at paths.socket_path
      ((create_dir_all ("/home/me" ∷ ".local" ∷ []) >> bind octal paths.socket_path) host).0
    ≡ none
unfolding bind create_dir_all set_permissions mode remove_file bind_socket call get insert remove
refused_test = refl

resolved_test :
    (resolve_with_env (some "") (some ("/home/me" ∷ []))).socket_path
    ≡ "/home/me" ∷ ".local" ∷ "state" ∷ "agent-term-status" ∷ "status.sock" ∷ []
unfolding resolve_with_env
resolved_test = refl

apart_test : paths.socket_path ≢ "/home/me" ∷ ".local" ∷ []
apart_test e = ground (arith, same_path_iff paths.socket_path ("/home/me" ∷ ".local" ∷ []), e)

bind-IsOwners_example :
    After
      (IsOwners paths.socket_path ("/home/me" ∷ ".local" ∷ []))
      (λ s h'. Unit {0})
      (bind octal paths.socket_path (ensure_parent_dirs paths host).0)
bind-IsOwners_example =
    bind-IsOwners octal paths.socket_path ("/home/me" ∷ ".local" ∷ [])
      (ensure_parent_dirs paths host).0 refl apart_test
