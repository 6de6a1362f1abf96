-- ===== src/Lib.antt =====
-- agent-term-status shows the state of coding agents in terminals: hooks of the agent send events
-- to a daemon, whose broker derives one state for each session and draws it by renderers.
--
-- The parts, with the files that model them (paths are from the root of the repository):
--   Core            crates/ats-core/src: events, sessions, states; Core/Label is
--                   `ActivityLabel::new`, Core/Basename `ActivityLabel::from_path`, Core/Equality
--                   the derived equality of states.
--   Provider        crates/ats-provider/src/lib.rs: the trait of providers; and the JSON library
--                   as an interface.
--   Claude          crates/ats-provider-claude/src: Adapter is adapter.rs (`parse`, `validate`,
--                   `derive_session`) with the names of hooks and tools in Hooks, Risk is risk.rs,
--                   Install is install.rs.
--   Daemon          crates/ats-daemon/src: Framing is framing.rs; of server.rs, Server is the loop
--                   that serves a connection, Server/Bind is `SocketServer::bind` and
--                   Server/Accept `SocketServer::run` and the drop of its
--                   `SocketFileGuard`, a step for each event; Broker is broker.rs
--                   (buffers, ordering correction, drain), Broker/Loop the `tokio::select!` loop
--                   of `Broker::run`; PidFile is pidfile.rs, a step for each system call; Paths is
--                   paths.rs, Logging the redacting writer of logging.rs; Startup is main.rs up to
--                   the socket, with `init_logging` of logging.rs.
--   StateEngine     crates/ats-state-engine/src: Priority is priority.rs, Machine is machine.rs
--                   (`SessionState::apply`, `check_ttl`, `extend_heartbeat`), Engine is engine.rs
--                   (`StateEngine::ingest`, `expire_ttls`, `get_aggregated_state` and the rest).
--   Rendering       crates/ats-rendering/src/lib.rs: Engine is `RenderingEngine`, Policy is
--                   `NotificationPolicy`.
--   Renderer        crates/ats-renderer/src/lib.rs: the trait as a record of functions on a world.
--   Renderers       crates/ats-renderer-{iterm2,tmux,notification}/src/lib.rs, a file for each;
--                   Tmux/Version is `parse_tmux_version`, Process the commands that they run.
--   Config          crates/ats-config/src: Theme is theme.rs, Settings is config.rs with its
--                   defaults in Settings/Default, Atomic is atomic.rs, Paths is paths.rs.
--   Cli             crates/ats-cli/src: Hooks and Manual are hook_commands.rs (the events and
--                   `run_ingest`; `run_event`, `run_reset`), EventPrototype is event_prototype.rs,
--                   Standalone is standalone_render.rs with `ats event` of main.rs, Query is
--                   query_commands.rs, SocketClient is socket_client.rs, DaemonCommands and
--                   Launchd are daemon_commands.rs (the process; the launch agent), Doctor is
--                   doctor.rs, Themes is theme_commands.rs.
--   Host            what these programs use of the operating system: Host is the state of a host,
--                   and the computations on it that end, fail or are killed; Host/Files the calls
--                   on files, Host/Paths paths, Host/Triples the rules of a Hoare logic for them.
-- The other files of a directory hold proofs and are named for what they are about. Tests holds
-- data, runs at concrete inputs, and the theorems applied to them.
--
-- The Claude adapter makes a normalized event of a hook's payload; the command line decodes and
-- sends events. The daemon's server reads frames and passes their payloads to the broker, which
-- decodes them to events (the decoder is the parameter `from_slice`), holds them for the ordering
-- window, hands them to the state engine in the order of their timestamps, and passes every
-- transition to the rendering engine, which asks its rate limit and then runs every renderer. The
-- command line starts and stops the daemon by its PID file and socket, draws a state itself where
-- no daemon answers, and rewrites the settings of Claude and of the user by the same replacement
-- of a file: a temporary file that is moved over the old one.
--
-- How values are represented:
--   - A `DateTime` is a number of nanoseconds since the earliest instant; a `Duration` is an
--     integer number of nanoseconds, a time of day a number of nanoseconds since midnight. What
--     the clock reads is an argument of the function that reads it; two readings are two
--     arguments.
--   - A `HashMap` is an association list, a `HashSet` a list. The order of the entries stands for
--     the iteration order, which Rust leaves open; the theorems hold for every order.
--   - A UUID is a number. A string is the native string of characters, whose length and positions
--     count the bytes of its UTF-8. A byte is a number; a `u32` is written with its bound.
--   - A method that mutates `self` returns the new value. Locks and tasks are left out: the
--     broker's lock makes each branch of its loop one step, and a renderer's lock its whole call.
--   - The outside is explicit: a byte stream is what it will still deliver and how it ends, a
--     device or a process is a log of what was written or run and the answer that it gives.
--   - A system call on a host is answered by a verdict that the host gives beforehand for each
--     call: it is done, it fails with an error, or the process is killed at it. So a theorem about
--     every host is one about every pattern of failures. Nobody else changes the files of a host
--     during a command; where this matters, for the PID file, PidFile has the steps of the others.
--   - A path is the list of its components. A `BTreeMap` is an association list too.
--   - A panic of the adapter is the result `none`.
--   - Third-party code is a parameter: the JSON and the YAML library, with the laws that are used,
--     the library for temporary files with the laws of `Config.Atomic.IsLawful`, the one for the
--     log's file with `Daemon.Startup.Second.IsConfined`, the `Display` of
--     a UUID. So are `str::to_lowercase` and `str::trim`, whose tables are Unicode's.
--   - Loops over collections are structural recursion. The loop that serves a connection runs on
--     fuel, one unit for each round; a stream of n bytes needs n + 1 of them. `socket_reachable`
--     too runs on fuel, a unit for each attempt; it needs one more than the number of the attempt
--     at which the time has run out.
--
-- Not modelled: the declarations of the command line's arguments and the completions that clap
-- makes of them; the code that serde derives; of `init_logging`, the layers of the tracing library, whose set-up touches no file;
-- the rest of the daemon's main.rs, which passes the parts to tokio; the drawing of ids and the
-- reading of clocks (crates/ats-core/src), whose results are arguments.
pub mod Prelude
pub mod Core
pub mod StateEngine
pub mod Config
pub mod Renderer
pub mod Rendering
pub mod Host
pub mod Daemon
mod Tests
pub mod Provider
pub mod Claude
pub mod Renderers
pub mod Cli
