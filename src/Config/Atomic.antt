-- ===== src/Config/Atomic.antt =====
-- crates/ats-config/src/atomic.rs. The crate `tempfile` is an interface of its operations, with what
-- its documentation says of them.
pub mod Crash
use agent_term_status.Prelude.{◌≡◌, ◌≢◌, String, Bool, true, false, Option, some, Result, ok, err}
use agent_term_status.Host.{PathBuf, Host, Stop, io, Run, pure, attempt, when, ◌>>=◌, ◌>>◌}
use agent_term_status.Host
use agent_term_status.Host.Paths.{dir_of, with_extension}
use agent_term_status.Host.Files.{create_dir_all, copy, remove_file, look, text_at}
use agent_term_status.Host.Files.Effects.{IsFault}
use agent_term_status.Host.Triples.{After}

-- `NamedTempFile`, known by its path; `close` is its `Drop`.
pub record Tempfile : Type 0 where
  pub new_in : PathBuf → Run PathBuf
  pub write_all : PathBuf → String → Run (Unit {0})
  pub sync_all : PathBuf → Run (Unit {0})
  pub persist : PathBuf → PathBuf → Run (Unit {0})
  pub close : PathBuf → Run (Unit {0})

-- All but a temporary file, and all but it and one other path, are as they were.
abbrev pub Apart : (PathBuf → Bool) → Host → Host → Type 0
Apart is_temp h h' = (q : PathBuf) → is_temp q ≡ false → text_at q h' ≡ text_at q h

abbrev pub ApartFrom : (PathBuf → Bool) → PathBuf → Host → Host → Type 0
ApartFrom is_temp p h h' = (q : PathBuf) → is_temp q ≡ false → p ≢ q → text_at q h' ≡ text_at q h

-- What a call of the library leaves where it is not done.
abbrev pub Failed : (PathBuf → Bool) → Host → Stop → Host → Type 0
Failed is_temp h s h' = Apart is_temp h h' × IsFault s

-- A new file is empty and temporary; one that is written has the text; one that is persisted is
-- found at the new path.
abbrev pub Made : (PathBuf → Bool) → Host → PathBuf → Host → Type 0
Made is_temp h p h' = (is_temp p ≡ true) × ((text_at p h' ≡ some "") × Apart is_temp h h')

abbrev pub Written : (PathBuf → Bool) → PathBuf → String → Host → Unit {0} → Host → Type 0
Written is_temp p text h _ h' = (text_at p h' ≡ some text) × Apart is_temp h h'

abbrev pub Synced : (PathBuf → Bool) → PathBuf → Host → Unit {0} → Host → Type 0
Synced is_temp p h _ h' = (text_at p h' ≡ text_at p h) × Apart is_temp h h'

abbrev pub Persisted : (PathBuf → Bool) → PathBuf → PathBuf → Host → Unit {0} → Host → Type 0
Persisted is_temp p q h _ h' = (text_at q h' ≡ text_at p h) × ApartFrom is_temp q h h'

pub record IsLawful (t : Tempfile) (is_temp : PathBuf → Bool) : Type 0 where
  pub new_in_lem :
      (d : PathBuf) (h : Host) → After (Made is_temp h) (Failed is_temp h) (t.new_in d h)
  pub write_all_lem :
      (p : PathBuf) (text : String) (h : Host)
      → is_temp p ≡ true
      → text_at p h ≡ some ""
      → After (Written is_temp p text h) (Failed is_temp h) (t.write_all p text h)
  pub sync_all_lem :
      (p : PathBuf) (h : Host) → After (Synced is_temp p h) (Failed is_temp h) (t.sync_all p h)
  pub persist_lem :
      (p q : PathBuf) (h : Host)
      → is_temp p ≡ true
      → After (Persisted is_temp p q h) (Failed is_temp h) (t.persist p q h)
  pub close_lem :
      (p : PathBuf) (h : Host)
      → is_temp p ≡ true
      → After (λ _. Apart is_temp h) (Failed is_temp h) (t.close p h)

-- `.ok()`, `let _ = …`
abbrev pub ignore : Run (Unit {0}) → Run (Unit {0})
ignore m = attempt m >> pure tt

module _ (tempfile : Tempfile) where
  -- The temporary file is dropped where its use fails, and not where the process is killed.
  abbrev pub dropped : PathBuf → Host × Result (Unit {0}) Stop → Host × Result (Unit {0}) Stop
  dropped p (h, ok u) = (h, ok u)
  dropped p (h, err Stop.killed) = (h, err Stop.killed)
  dropped p (h, err (io e)) = (ignore (tempfile.close p) >> Host.stop (io e)) h
  dropped p (h, err (Stop.message s)) = (ignore (tempfile.close p) >> Host.stop (Stop.message s)) h
  dropped p (h, err (Stop.exit n)) = (ignore (tempfile.close p) >> Host.stop (Stop.exit n)) h

  abbrev pub filled : PathBuf → String → PathBuf → Run (Unit {0})
  filled path content p h =
      dropped p
        ((tempfile.write_all p content >> (tempfile.sync_all p >> tempfile.persist p path)) h)

  -- From the temporary file on.
  abbrev pub swap : String → PathBuf → String → Run (Unit {0})
  swap extension path content = do
    p ← tempfile.new_in (dir_of path)
    filled path content p
    ignore (remove_file (with_extension path extension))

  -- The file gets the contents, and its backup, of this extension, goes.
  unfoldable pub replace_file : String → PathBuf → String → Run (Unit {0})
  replace_file extension path content = do
    create_dir_all (dir_of path)
    there ← look path
    when there (ignore (copy path (with_extension path extension)))
    swap extension path content

  unfoldable pub atomic_write : PathBuf → String → Run (Unit {0})
  unfolding replace_file
  atomic_write path content = replace_file "yaml.bak" path content
