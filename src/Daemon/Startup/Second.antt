-- ===== src/Daemon/Startup/Second.antt =====
-- A daemon that is started beside a running one.
use agent_term_status.Prelude.{
  ℕ, ◌≡◌, ◌≢◌, refl, String, Bool, true, false, Option, some, none, List, [], ◌∷◌, arith, inr,
  Result, ok, err, ◌∙◌,
}
use agent_term_status.Prelude.HashMap.{get, get-insert}
use agent_term_status.Prelude.Int.{ℤ}
use agent_term_status.Daemon.Paths.{DaemonPaths, ensure_parent_dirs, ensured, unless}
use agent_term_status.Daemon.PidFile.{
  File, Disk, Phase, creating, writing, reading, removing, acquired, refused, PidFileError,
  already_running, io, Killed, is_live, judged, step, run, acquire,
}
use agent_term_status.Daemon.Startup.{
  file_of, by_itself, settled, begun, init_logging, told, acquire_at, bound, startup,
}
use agent_term_status.Host.{
  PathBuf, Host, Run, Stop, Stored, when, attempt, caught, pure, ◌>>=◌, ◌>>◌,
}
use agent_term_status.Host.Files.{
  create_dir_all, set_permissions, set_mode, exists, text_at, put_file,
}
use agent_term_status.Host.Files.Effects.{
  IsFault, Same, Keeps, call-Keeps, create_dir_all-Keeps, put_file-text,
}
use agent_term_status.Host.Paths.{PathBuf_eq, same_path_iff, parent}
use agent_term_status.Host.Triples.{After, Triple, After-next, After-weaken, bind-Triple}

module _ (kill : ℤ → Killed) (parse : String → Option ℤ) (show : ℤ → String) (own : ℤ) where
  -- A process that finds the file held takes nothing and changes nothing.
  data Kept (d : Disk) : Phase × Disk → Type 0 where
    kept : {p : Phase} → p ≢ acquired → Kept d (p, d)

  run_refused :
      (xs : List (Option ℕ)) (e : PidFileError) (d : Disk)
      → Kept d (run kill parse show own (by_itself xs) (refused e) d)
  unfolding run step
  run_refused [] e d = kept (λ q. cc q)
  run_refused (none ∷ xs) e d = run_refused xs e d
  run_refused (some f ∷ xs) e d = run_refused xs e d

  judged_held :
      (n : ℕ) (xs : List (Option ℕ)) (o : Option ℤ) (pid : ℤ) (d : Disk)
      → o ≡ some pid
      → is_live kill parse show own pid ≡ true
      → Kept d (run kill parse show own (by_itself xs) (judged kill parse show own n o) d)
  judged_held n xs o pid d named live = rw (named, live) (run_refused xs (already_running pid) d)

  acquire_held :
      (xs : List (Option ℕ)) (f : File) (next : ℕ) (pid : ℤ)
      → parse f.contents ≡ some pid
      → is_live kill parse show own pid ≡ true
      → Kept
          (record { file = some f; next = next })
          (acquire kill parse show own (by_itself xs) (record { file = some f; next = next }))
  unfolding acquire run step
  acquire_held [] f next pid named live = kept (λ q. cc q)
  acquire_held (some e ∷ xs) f next pid named live = run_refused xs (io e) _
  acquire_held (none ∷ []) f next pid named live = kept (λ q. cc q)
  acquire_held (none ∷ (some e ∷ xs)) f next pid named live = run_refused xs (io e) _
  acquire_held (none ∷ (none ∷ xs)) f next pid named live =
      judged_held 2 xs (parse f.contents) pid _ named live

-- What is known of `daily`: of all files it changes those only that stand in the directory it is
-- given, whether it goes through or stops.
abbrev pub IsConfined : (PathBuf → String → Run (Unit {0})) → Type 0
IsConfined daily =
    (dir : PathBuf) (name : String) (h : Host)
    → After (λ _. Same (λ q. parent q ≢ some dir) h) (λ s. Same (λ q. parent q ≢ some dir) h)
        (daily dir name h)

module _ (logs_dir : PathBuf) (h0 : Host) where
  -- Every file is as it was, but for those in the log directory.
  abbrev pub IsUntouched : Host → Type 0
  IsUntouched = Same (λ q. parent q ≢ some logs_dir) h0

  set_mode-Same :
      (p : PathBuf) (m : ℕ) (d : Option ℕ) (h : Host)
      → IsUntouched h
      → After
          (λ _. IsUntouched)
          (λ s h'. IsUntouched h' × IsFault s)
          (set_mode p m h d (get p h.files))
  set_mode-Same p m d h u = by_file d (get p h.files) refl
    where
      by_file :
          (d : Option ℕ) (o : Option Stored)
          → get p h.files ≡ o
          → After (λ _. IsUntouched) (λ s h'. IsUntouched h' × IsFault s) (set_mode p m h d o)
      by_file (some k) o e = u
      by_file none none e = (u, inr (2, refl))
      by_file none (some f) e = λ q t.
          ground
            (arith, u q t, e, get-insert p q (record f { mode = m }) h.files, same_path_iff p q)

  set_permissions-Keeps : (p : PathBuf) (m : ℕ) → Keeps IsUntouched (set_permissions p m)
  unfolding set_permissions
  set_permissions-Keeps p m =
      call-Keeps IsUntouched _ _ (λ h k i. i) (λ h. set_mode-Same p m (get p h.dirs) h) (λ k h i. i)

  abbrev IsQuiet : {A : Type 0} → Run A → Type 0
  IsQuiet m = Triple IsUntouched m (λ _. IsUntouched) (λ _. IsUntouched)

  of_Keeps : {A : Type 0} (m : Run A) → Keeps IsUntouched m → IsQuiet m
  of_Keeps m k h u =
      After-weaken (λ _. IsUntouched) (λ _. IsUntouched) (λ s h'. IsUntouched h' × IsFault s)
        (λ _. IsUntouched) (m h) (k h u) (λ _ h' x. x) (λ s h' x. x.0)

  -- The rights of a directory are set where it is this program's.
  owned-IsQuiet : (owned : Bool) (dir : PathBuf) → IsQuiet (when owned (set_permissions dir 448))
  owned-IsQuiet true dir h u =
      of_Keeps (set_permissions dir 448) (set_permissions-Keeps dir 448) h u
  owned-IsQuiet false dir h u = u

  made-IsQuiet : (there : Bool) (dir : PathBuf) → IsQuiet (unless there (create_dir_all dir))
  made-IsQuiet true dir h u = u
  made-IsQuiet false dir h u =
      of_Keeps (create_dir_all dir) (create_dir_all-Keeps (λ q. parent q ≢ some logs_dir) h0 dir) h
        u

  ensured-IsQuiet : (owned : Bool) (o : Option PathBuf) → IsQuiet (ensured owned o)
  ensured-IsQuiet owned none h u = u
  ensured-IsQuiet owned (some dir) h u =
      bind-Triple IsUntouched (λ _. IsUntouched) (λ _. IsUntouched) (λ _. IsUntouched)
        (unless (exists dir h) (create_dir_all dir)) (λ _. when owned (set_permissions dir 448))
        (made-IsQuiet (exists dir h) dir) (λ _. owned-IsQuiet owned dir) h u

  ensure_parent_dirs-IsQuiet : (paths : DaemonPaths) → IsQuiet (ensure_parent_dirs paths)
  unfolding ensure_parent_dirs
  ensure_parent_dirs-IsQuiet paths =
      bind-Triple IsUntouched (λ _. IsUntouched) (λ _. IsUntouched) (λ _. IsUntouched)
        (ensured paths.owns_parent_dir (parent paths.socket_path))
        (λ _. ensured paths.owns_parent_dir (parent paths.pid_path)) (ensured-IsQuiet _ _)
        (λ _. ensured-IsQuiet _ _)

  daily-IsQuiet :
      (daily : PathBuf → String → Run (Unit {0})) (name : String)
      → IsConfined daily
      → IsQuiet (daily logs_dir name)
  daily-IsQuiet daily name law h u =
      After-weaken (λ _. Same (λ q. parent q ≢ some logs_dir) h) (λ _. IsUntouched)
        (λ s. Same (λ q. parent q ≢ some logs_dir) h) (λ _. IsUntouched) (daily logs_dir name h)
        (law logs_dir name h) (λ _ h' v q t. v q t ∙ u q t) (λ s h' v q t. v q t ∙ u q t)

  begun-IsQuiet :
      (daily : PathBuf → String → Run (Unit {0}))
      → IsConfined daily
      → (r : Result (Unit {0}) ℕ) → IsQuiet (begun daily logs_dir r)
  begun-IsQuiet daily law (ok _) =
      bind-Triple IsUntouched (λ _. IsUntouched) (λ _. IsUntouched) (λ _. IsUntouched)
        (daily logs_dir "ats-daemon.log") (λ _. pure (ok tt))
        (daily-IsQuiet daily "ats-daemon.log" law) (λ _ h u. u)
  begun-IsQuiet daily law (err e) = λ h u. u

  caught-After :
      {A : Type 0} (r : Host × Result A Stop)
      → After (λ _. IsUntouched) (λ s h. IsUntouched h × IsFault s) r
      → After (λ _. IsUntouched) (λ _. IsUntouched) (caught r)
  caught-After (h, ok a) u = u
  caught-After (h, err (Stop.io e)) u = u.0
  caught-After (h, err (Stop.message m)) u = u.0
  caught-After (h, err (Stop.exit n)) u = u.0
  caught-After (h, err Stop.killed) u = u.0

  init_logging-IsQuiet :
      (daily : PathBuf → String → Run (Unit {0}))
      → IsConfined daily
      → IsQuiet (init_logging daily logs_dir)
  unfolding init_logging
  init_logging-IsQuiet daily law =
      bind-Triple IsUntouched (λ _. IsUntouched) (λ _. IsUntouched) (λ _. IsUntouched)
        (attempt (create_dir_all logs_dir)) (begun daily logs_dir)
        (λ h u.
          caught-After (create_dir_all logs_dir h)
            (create_dir_all-Keeps (λ q. parent q ≢ some logs_dir) h0 logs_dir h u))
        (begun-IsQuiet daily law)

  told-IsQuiet : (show_io : ℕ → String) (r : Result (Unit {0}) ℕ) → IsQuiet (told show_io r)
  told-IsQuiet show_io (ok _) h u = u
  told-IsQuiet show_io (err e) h u = u

  put_back-IsUntouched :
      (p : PathBuf) (content : String) (h : Host)
      → text_at p h0 ≡ some content
      → IsUntouched h
      → IsUntouched (put_file p content h)
  put_back-IsUntouched p content h there u q t =
      ground (arith, u q t, put_file-text p q content h, same_path_iff p q, there)

module _ (kill : ℤ → Killed) (parse : String → Option ℤ) (show : ℤ → String) (own : ℤ)
    (show_error : PidFileError → String) (logs_dir : PathBuf) (h0 : Host) where
  settled_held :
      (p : PathBuf) (content : String) (h : Host) (r : Phase × Disk)
      → text_at p h0 ≡ some content
      → IsUntouched logs_dir h0 h
      → Kept kill parse show own (record { file = file_of (some content); next = 1 }) r
      → After (λ _ h'. ⊥) (λ s. IsUntouched logs_dir h0) (settled show_error p h r)
  settled_held p content h _ there u (kept {p = creating n} ne) =
      put_back-IsUntouched logs_dir h0 p content h there u
  settled_held p content h _ there u (kept {p = writing n} ne) =
      put_back-IsUntouched logs_dir h0 p content h there u
  settled_held p content h _ there u (kept {p = reading n} ne) =
      put_back-IsUntouched logs_dir h0 p content h there u
  settled_held p content h _ there u (kept {p = removing n} ne) =
      put_back-IsUntouched logs_dir h0 p content h there u
  settled_held p content h _ there u (kept {p = acquired} ne) = absurd (ne refl)
  settled_held p content h _ there u (kept {p = refused e} ne) =
      put_back-IsUntouched logs_dir h0 p content h there u

module _ (kill : ℤ → Killed) (parse : String → Option ℤ) (show : ℤ → String) (own : ℤ)
    (show_error : PidFileError → String) (octal show_io : ℕ → String)
    (daily : PathBuf → String → Run (Unit {0})) (h0 : Host) where
  -- What follows the log stops at the PID file.
  acquiring :
      (faults : List (Option ℕ)) (paths : DaemonPaths) (content : String) (pid : ℤ)
      → text_at paths.pid_path h0 ≡ some content
      → parse content ≡ some pid
      → is_live kill parse show own pid ≡ true
      → parent paths.pid_path ≢ some paths.logs_dir
      → Triple
          (IsUntouched paths.logs_dir h0)
          (acquire_at kill parse show own show_error octal show_io daily faults paths.pid_path
            >> bound kill parse show own show_error octal show_io daily paths)
          (λ socket h. ⊥)
          (λ s. IsUntouched paths.logs_dir h0)
  acquiring faults paths content pid there named live apart h u =
      After-next (λ _ h'. ⊥) (λ socket h'. ⊥) (λ s. IsUntouched paths.logs_dir h0)
        (λ _. bound kill parse show own show_error octal show_io daily paths)
        (acquire_at kill parse show own show_error octal show_io daily faults paths.pid_path h)
        (λ _ h' x. absurd x)
        (settled_held kill parse show own show_error paths.logs_dir h0 paths.pid_path content h _
          there u
          (rw (u paths.pid_path apart, there)
            (acquire_held kill parse show own faults (record { inode = 0; contents = content }) 1
              pid named live)))

  -- A daemon that is started while the PID file names a live process that is not itself never comes
  -- to serve a socket, and every file outside the log directory is as it was, the running daemon's
  -- PID file among them, and its socket where this stands outside too, whatever calls fail and
  -- wherever it is killed. No other process changes the files meanwhile, the PID file does not
  -- stand in the log directory, and the library that makes the log's file changes files of that
  -- directory only.
  pub startup-IsUntouched :
      (faults : List (Option ℕ)) (paths : DaemonPaths) (content : String) (pid : ℤ)
      → text_at paths.pid_path h0 ≡ some content
      → parse content ≡ some pid
      → is_live kill parse show own pid ≡ true
      → parent paths.pid_path ≢ some paths.logs_dir
      → IsConfined daily
      → After
          (λ socket h. ⊥)
          (λ s. IsUntouched paths.logs_dir h0)
          (startup kill parse show own show_error octal show_io daily faults paths h0)
  unfolding startup
  startup-IsUntouched faults paths content pid there named live apart law =
      let quiet : Host → Type 0 = IsUntouched paths.logs_dir h0 in
      let rest =
        acquire_at kill parse show own show_error octal show_io daily faults paths.pid_path
        >> bound kill parse show own show_error octal show_io daily paths in
      bind-Triple quiet (λ _. quiet) (λ socket h. ⊥) (λ s. quiet) (ensure_parent_dirs paths)
        (λ _. (init_logging daily paths.logs_dir >>= told show_io) >> rest)
        (ensure_parent_dirs-IsQuiet paths.logs_dir h0 paths)
        (λ _.
          bind-Triple quiet (λ _. quiet) (λ socket h. ⊥) (λ s. quiet)
            (init_logging daily paths.logs_dir >>= told show_io) (λ _. rest)
            (bind-Triple quiet (λ _. quiet) (λ _. quiet) (λ s. quiet)
              (init_logging daily paths.logs_dir) (told show_io)
              (init_logging-IsQuiet paths.logs_dir h0 daily law)
              (told-IsQuiet paths.logs_dir h0 show_io))
            (λ _. acquiring faults paths content pid there named live apart))
        h0 (λ q t. refl)
