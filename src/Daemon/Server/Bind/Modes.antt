-- ===== src/Daemon/Server/Bind/Modes.antt =====
-- Who can reach a socket that is bound.
use agent_term_status.Prelude.{
  ℕ, ◌%◌, ◌≡◌, ◌≢◌, String, some, Result, ok, err, nat_eq, nat_eq_iff, Bool-cases, inl, inr,
}
use agent_term_status.Host.{
  PathBuf, Host, Run, Stop, io, message, pure, attempt, caught, ◌>>=◌, ◌>>◌,
}
use agent_term_status.Host.Paths.{PathBuf_eq, parent}
use agent_term_status.Host.Files.{
  mode, mode_at, remove_file, bind_socket, set_permissions, not_found,
}
use agent_term_status.Host.Files.Modes.{
  IsMode, mode-Triple, remove_file-Mode, bind_socket-Mode, set_permissions-Mode,
  set_permissions-Triple,
}
use agent_term_status.Host.Triples.{After, Triple, After-weaken, bind-Triple}
use agent_term_status.Host.Files.Effects.{IsFault, Keeps}
use agent_term_status.Daemon.Server.Bind.{check_private, check_parent, unless_missing, bind}

-- No permission bits for the group or others.
abbrev pub IsPrivate : PathBuf → Host → Type 0
IsPrivate dir h = (m : ℕ) × ((mode_at dir h ≡ some m) × (m % 64 ≡ 0))

abbrev Any : Stop → Host → Type 0
Any s h = Unit

-- The socket is its owner's alone, in a directory that is.
abbrev pub IsOwners : PathBuf → PathBuf → PathBuf → Host → Type 0
IsOwners path dir _ h = IsMode path 384 h × IsPrivate dir h

module _ (octal : ℕ → String) (path dir : PathBuf) (apart : path ≢ dir) where
  checked : (m : ℕ) → Triple (IsMode dir m) (check_private octal dir m) (λ _. IsPrivate dir) Any
  checked m h i = elim (Bool-cases (nat_eq (m % 64) 0)) [
    | inl private ↦ rw private (m, (i, (nat_eq_iff (m % 64) 0).0 private))
    | inr open_ ↦ rw open_ tt
  ]

  check_parent-Triple :
      Triple (λ h. Unit {0}) (check_parent octal (some dir)) (λ _. IsPrivate dir) Any
  check_parent-Triple =
      bind-Triple (λ h. Unit {0}) (λ m. IsMode dir m) (λ _. IsPrivate dir) Any (mode dir)
        (check_private octal dir) (mode-Triple dir) checked

  -- A call after which the directory is as private as it was.
  IsPrivate-Triple :
      {A : Type 0} (call : Run A)
      → ((m : ℕ) → Keeps (IsMode dir m) call)
      → Triple (IsPrivate dir) call (λ _. IsPrivate dir) (λ s. IsPrivate dir)
  IsPrivate-Triple call k h (m, (i, z)) =
      After-weaken (λ _. IsMode dir m) (λ _. IsPrivate dir) (λ s h'. IsMode dir m h' × IsFault s)
        (λ s. IsPrivate dir) (call h) (k m h i) (λ _ h' x. (m, (x, z))) (λ s h' x. (m, (x.0, z)))

  caught-After :
      (r : Host × Result (Unit {0}) Stop)
      → After (λ _. IsPrivate dir) (λ s. IsPrivate dir) r
      → After (λ _. IsPrivate dir) Any (caught r)
  caught-After (h, ok u) a = a
  caught-After (h, err (io e)) a = a
  caught-After (h, err (message s)) a = tt
  caught-After (h, err (Stop.exit n)) a = tt
  caught-After (h, err Stop.killed) a = tt

  unless_missing-Triple :
      (r : Result (Unit {0}) ℕ) → Triple (IsPrivate dir) (unless_missing r) (λ _. IsPrivate dir) Any
  unless_missing-Triple (ok u) = λ h p. p
  unless_missing-Triple (err e) = λ h p. elim (Bool-cases (nat_eq e not_found)) [
    | inl missing ↦ rw missing p
    | inr other ↦ rw other tt
  ]

  abbrev listening : Run PathBuf
  listening = do bind_socket path; set_permissions path 384; pure path

  permitted :
      Triple
        (IsPrivate dir)
        (set_permissions path 384)
        (λ _ h. IsMode path 384 h × IsPrivate dir h)
        Any
  permitted h p = both (set_permissions path 384 h) (set_permissions-Triple path 384 h tt) (
      IsPrivate-Triple (set_permissions path 384) (λ m. set_permissions-Mode path dir m apart 384) h
        p)
    where
      both :
          (r : Host × Result (Unit {0}) Stop)
          → After (λ _. IsMode path 384) (λ s h'. Unit {0}) r
          → After (λ _. IsPrivate dir) (λ s. IsPrivate dir) r
          → After (λ _ h'. IsMode path 384 h' × IsPrivate dir h') Any r
      both (h', ok u) a b = (a, b)
      both (h', err s) a b = tt

  listening-Triple : Triple (IsPrivate dir) listening (IsOwners path dir) Any
  listening-Triple =
      bind-Triple (IsPrivate dir) (λ _. IsPrivate dir) (IsOwners path dir) Any (bind_socket path)
        (λ _. set_permissions path 384 >> pure path)
        (λ h p.
          After-weaken (λ _. IsPrivate dir) (λ _. IsPrivate dir) (λ s. IsPrivate dir) Any
            (bind_socket path h)
            (IsPrivate-Triple (bind_socket path) (λ m. bind_socket-Mode path dir m apart) h p)
            (λ _ h' x. x) (λ s h' x. tt))
        (λ _.
          bind-Triple (IsPrivate dir) (λ _ h. IsMode path 384 h × IsPrivate dir h)
            (IsOwners path dir) Any (set_permissions path 384) (λ _. pure path) permitted
            (λ _ h x. x))

-- Whatever the file system holds and whatever its calls answer, a bind that succeeds leaves the
-- socket with mode 0600, in a directory that neither group nor others have a right to. The socket's
-- path has a parent, and is not that parent.
pub bind-IsOwners :
    (octal : ℕ → String) (path dir : PathBuf) (h : Host)
    → parent path ≡ some dir
    → path ≢ dir
    → After (IsOwners path dir) (λ s h'. Unit {0}) (bind octal path h)
unfolding bind
bind-IsOwners octal path dir h e apart = rw e (
    bind-Triple (λ h. Unit {0}) (λ _. IsPrivate dir) (IsOwners path dir) Any
      (check_parent octal (some dir)) (λ _. attempt (remove_file path) >>= cleared)
      (check_parent-Triple octal path dir apart)
      (λ _.
        bind-Triple (IsPrivate dir) (λ _. IsPrivate dir) (IsOwners path dir) Any
          (attempt (remove_file path)) cleared
          (λ h p. caught-After octal path dir apart (remove_file path h) (
            IsPrivate-Triple octal path dir apart (remove_file path)
              (λ m. remove_file-Mode path dir m apart) h p))
          (λ gone.
            bind-Triple (IsPrivate dir) (λ _. IsPrivate dir) (IsOwners path dir) Any
              (unless_missing gone) (λ _. listening octal path dir apart)
              (unless_missing-Triple octal path dir apart gone)
              (λ _. listening-Triple octal path dir apart)))
      h tt)
  where
    cleared : Result (Unit {0}) ℕ → Run PathBuf
    cleared gone = unless_missing gone >> listening octal path dir apart
