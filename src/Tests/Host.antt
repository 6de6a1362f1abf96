-- ===== src/Tests/Host.antt =====
-- Files that are replaced, on a small host with a temporary file of a fixed name.
use agent_term_status.Prelude.{
  ℕ, ◌≡◌, ◌≢◌, refl, String, Bool, true, false, Option, some, none, [], ◌∷◌, ok, err, Result, arith,
  if◌then◌else◌, str_eq, nat_eq, inr,
}
use agent_term_status.Prelude.HashMap.{get, insert, remove, get-insert, get-remove}
use agent_term_status.Core.Label.{take_chars}
use agent_term_status.Host.{PathBuf, Verdict, done, failed, Stored, Host, Stop, io}
use agent_term_status.Host.Paths.{
  ◌/◌, PathBuf_eq, same_path, same_path_iff, with_extension, before_dot,
}
use agent_term_status.Host.Files.{call, put_file, text_at, remove_file, create_dir_all, copy}
use agent_term_status.Host.Files.Effects.{call-After, counted, put_file-text}
use agent_term_status.Renderers.Process.{exited}
use agent_term_status.Host.Triples.{After}
use agent_term_status.Config.Atomic.{
  Tempfile, IsLawful, Made, Written, Synced, Persisted, Apart, Failed, atomic_write, replace_file,
}
use agent_term_status.Config.Atomic.Crash.{New, Stopped, atomic_write-Atomic}

abbrev temp_name : String
temp_name = ".tmp0"

abbrev pub is_temp : PathBuf → Bool
is_temp [] = false
is_temp (x ∷ []) = str_eq x temp_name
is_temp (x ∷ (y ∷ ys)) = is_temp (y ∷ ys)

is_temp-join : (d : PathBuf) → is_temp (d / temp_name) ≡ true
is_temp-join [] = refl
is_temp-join (x ∷ []) = refl
is_temp-join (x ∷ (y ∷ ys)) = is_temp-join (y ∷ ys)

abbrev moved : PathBuf → PathBuf → Host → Option Stored → Host × Result (Unit {0}) Stop
moved p q h none = (h, err (io 2))
moved p q h (some f) = (record h { files = insert q f (remove p h.files) }, ok tt)

abbrev unlinked : PathBuf → Host → Host
unlinked p h = record h { files = remove p h.files }

abbrev pub small_tempfile : Tempfile
small_tempfile = record {
  new_in = λ d. call (λ h. (put_file (d / temp_name) "" h, ok (d / temp_name))) (λ n h. h);
  write_all = λ p s. call (λ h. (put_file p s h, ok tt)) (λ n h. put_file p (take_chars n s) h);
  sync_all = λ p. call (λ h. (h, ok tt)) (λ n h. h);
  persist = λ p q. call (λ h. moved p q h (get p h.files)) (λ n h. h);
  close = λ p. call (λ h. (unlinked p h, ok tt)) (λ n h. h);
}

apart_of : (p q : PathBuf) → is_temp p ≡ true → is_temp q ≡ false → same_path p q ≡ false
apart_of p q t n = ground (arith, same_path_iff p q, t, n)

put_file-Apart :
    (p : PathBuf) (s : String) (h : Host) → is_temp p ≡ true → Apart is_temp h (put_file p s h)
put_file-Apart p s h t q n = ground (arith, put_file-text p q s h, apart_of p q t n)

put_file-Has : (p : PathBuf) (s : String) (h : Host) → text_at p (put_file p s h) ≡ some s
put_file-Has p s h = ground (arith, put_file-text p p s h, same_path_iff p p)

unlinked-Apart : (p : PathBuf) (h : Host) → is_temp p ≡ true → Apart is_temp h (unlinked p h)
unlinked-Apart p h t q n = ground (arith, get-remove p q h.files, apart_of p q t n)

moved-Persisted :
    (p q : PathBuf) (h : Host) (o : Option Stored)
    → get p h.files ≡ o
    → is_temp p ≡ true
    → After (Persisted is_temp p q h) (Failed is_temp h) (moved p q h o)
moved-Persisted p q h none e t = (λ r n. refl, inr (2, refl))
moved-Persisted p q h (some f) e t = (
  ground (arith, e, get-insert q q f (remove p h.files), same_path_iff q q),
  λ r n ne. ground (
    arith,
    get-insert q r f (remove p h.files),
    same_path_iff q r,
    ne,
    get-remove p r h.files,
    apart_of p r t n,
  ),
)

pub small-IsLawful : IsLawful small_tempfile is_temp
small-IsLawful = record {
  new_in_lem = λ d h.
      call-After (Made is_temp h) (Apart is_temp h) _ _ h
        (
          is_temp-join d,
          (
            put_file-Has (d / temp_name) "" (counted h),
            put_file-Apart (d / temp_name) "" (counted h) (is_temp-join d),
          ),
        )
        (λ q n. refl) (λ k q n. refl);
  write_all_lem = λ p s h t e.
      call-After (Written is_temp p s h) (Apart is_temp h) _ _ h
        (put_file-Has p s (counted h), put_file-Apart p s (counted h) t) (λ q n. refl)
        (λ k. put_file-Apart p (take_chars k s) (counted h) t);
  sync_all_lem = λ p h.
      call-After (Synced is_temp p h) (Apart is_temp h) _ _ h (refl, λ q n. refl) (λ q n. refl)
        (λ k q n. refl);
  persist_lem = λ p q h t.
      call-After (Persisted is_temp p q h) (Apart is_temp h) _ _ h
        (moved-Persisted p q (counted h) (get p h.files) refl t) (λ r n. refl) (λ k r n. refl);
  close_lem = λ p h t.
      call-After (λ _. Apart is_temp h) (Apart is_temp h) _ _ h (unlinked-Apart p (counted h) t)
        (λ q n. refl) (λ k q n. refl);
}

abbrev pub config : PathBuf
config = "/home/me" ∷ ".config" ∷ "agent-term-status" ∷ "config.yaml" ∷ []

-- A host whose n-th call, counted from 0, has a verdict of its own.
abbrev pub host : (ℕ → Verdict) → Host
host verdict = record {
  files = (config, record { contents = "old"; mode = 420 }) ∷ [];
  dirs = [];
  file_mode = 420;
  dir_mode = 493;
  calls = 0;
  verdict = verdict;
  printed = [];
  signalled = [];
  outside = record { log = []; exit = λ n. exited true (some "") "" };
}

abbrev pub but : ℕ → Verdict → ℕ → Verdict
but n v k = if nat_eq k n then v else done

written_test :
    text_at config (atomic_write small_tempfile config "new" (host (λ n. done))).0 ≡ some "new"
unfolding atomic_write replace_file create_dir_all copy remove_file call get insert remove
    before_dot
written_test = refl

-- The process is killed in the call that renames the temporary file.
killed_test :
    text_at config (atomic_write small_tempfile config "new" (host (but 5 Verdict.killed))).0
    ≡ some "old"
unfolding atomic_write replace_file create_dir_all copy remove_file call get insert remove
    before_dot
killed_test = refl

pub apart_test : with_extension config "yaml.bak" ≢ config
unfolding before_dot
apart_test e = ground (arith, same_path_iff (with_extension config "yaml.bak") config, e)

atomic_write-Atomic_example :
    After
      (λ _. New is_temp "yaml.bak" config "new" (host (but 4 (failed 28 1))))
      (Stopped is_temp "yaml.bak" config "new" (host (but 4 (failed 28 1))))
      (atomic_write small_tempfile config "new" (host (but 4 (failed 28 1))))
atomic_write-Atomic_example =
    atomic_write-Atomic small_tempfile is_temp small-IsLawful config "new"
      (host (but 4 (failed 28 1))) refl apart_test
