-- ===== src/Host/Files.antt =====
-- `std::fs`, on the files and directories of a host.
pub mod Effects
pub mod Reading
pub mod Modes
pub mod Signals
use agent_term_status.Prelude.{
  ℕ, ◌+◌, String, Bool, true, false, ◌||◌, Option, some, none, List, [], ◌∷◌, ◌++◌, Result, ok, err,
  ◌⧺◌,
}
use agent_term_status.Prelude.HashMap.{HashMap, get, insert, remove, contains_key}
use agent_term_status.Core.Label.{take_chars}
use agent_term_status.Host.{PathBuf, Verdict, done, failed, Stored, Host, Stop, io, Run, pure, ◌>>◌}
use agent_term_status.Host.Paths.{PathBuf_eq}

-- One call: what it does and gives where it is done, and what it has done before where it fails.
abbrev pub judge :
    {A : Type 0} → Verdict → (Host → Host × Result A Stop) → (ℕ → Host → Host) → Run A
judge done act partial h = act h
judge (failed e n) act partial h = (partial n h, err (io e))
judge Verdict.killed act partial h = (h, err Stop.killed)

unfoldable pub call : {A : Type 0} → (Host → Host × Result A Stop) → (ℕ → Host → Host) → Run A
call act partial h = judge (h.verdict h.calls) act partial (record h { calls = h.calls + 1 })

abbrev untouched : ℕ → Host → Host
untouched n h = h

-- `ENOENT`
abbrev pub not_found : ℕ
not_found = 2

abbrev pub exists : PathBuf → Host → Bool
exists p h = contains_key p h.files || contains_key p h.dirs

abbrev made : ℕ → PathBuf → HashMap PathBuf ℕ → Option ℕ → HashMap PathBuf ℕ
made mode p dirs none = insert p mode dirs
made mode p dirs (some _) = dirs

-- The directories down a path, each made where it is missing.
abbrev made_all : ℕ → PathBuf → PathBuf → HashMap PathBuf ℕ → HashMap PathBuf ℕ
made_all mode done_ [] dirs = dirs
made_all mode done_ (x ∷ rest) dirs =
    let p = done_ ++ x ∷ [] in made_all mode p rest (made mode p dirs (get p dirs))

unfoldable pub create_dir_all : PathBuf → Run (Unit {0})
unfolding call
create_dir_all p =
    call (λ h. (record h { dirs = made_all h.dir_mode [] p h.dirs }, ok tt)) untouched

abbrev pub found : Host → Option Stored → Host × Result String Stop
found h none = (h, err (io not_found))
found h (some f) = (h, ok f.contents)

unfoldable pub read_to_string : PathBuf → Run String
unfolding call
read_to_string p = call (λ h. found h (get p h.files)) untouched

abbrev pub put : PathBuf → String → Option Stored → Host → Host
put p s none h = record h { files = insert p (record { contents = s; mode = h.file_mode }) h.files }
put p s (some f) h = record h { files = insert p (record f { contents = s }) h.files }

-- The contents of a file, which keeps its mode where it exists.
abbrev pub put_file : PathBuf → String → Host → Host
put_file p s h = put p s (get p h.files) h

-- `fs::write`: the file is created or emptied, then written.
unfoldable pub write : PathBuf → String → Run (Unit {0})
unfolding call
write p s =
    call (λ h. (put_file p "" h, ok tt)) untouched
    >> call (λ h. (put_file p s h, ok tt)) (λ n h. put_file p (take_chars n s) h)

abbrev copied : PathBuf → Host → Option Stored → Host × Result (Unit {0}) Stop
copied q h none = (h, err (io not_found))
copied q h (some f) = (record h { files = insert q f h.files }, ok tt)

abbrev half_copied : PathBuf → ℕ → Host → Option Stored → Host
half_copied q n h none = h
half_copied q n h (some f) = record h {
  files = insert q (record f { contents = take_chars n f.contents }) h.files;
}

-- `fs::copy` of the first file to the second.
unfoldable pub copy : PathBuf → PathBuf → Run (Unit {0})
unfolding call
copy p q = call (λ h. copied q h (get p h.files)) (λ n h. half_copied q n h (get p h.files))

abbrev removed : PathBuf → Host → Option Stored → Host × Result (Unit {0}) Stop
removed p h none = (h, err (io not_found))
removed p h (some f) = (record h { files = remove p h.files }, ok tt)

unfoldable pub remove_file : PathBuf → Run (Unit {0})
unfolding call
remove_file p = call (λ h. removed p h (get p h.files)) untouched

abbrev pub set_mode : PathBuf → ℕ → Host → Option ℕ → Option Stored → Host × Result (Unit {0}) Stop
set_mode p m h (some _) _ = (record h { dirs = insert p m h.dirs }, ok tt)
set_mode p m h none (some f) =
    (record h { files = insert p (record f { mode = m }) h.files }, ok tt)
set_mode p m h none none = (h, err (io not_found))

unfoldable pub set_permissions : PathBuf → ℕ → Run (Unit {0})
unfolding call
set_permissions p m = call (λ h. set_mode p m h (get p h.dirs) (get p h.files)) untouched

abbrev pub mode_of : Option ℕ → Option Stored → Option ℕ
mode_of (some m) _ = some m
mode_of none (some f) = some f.mode
mode_of none none = none

-- The permission bits of what is at a path.
abbrev pub mode_at : PathBuf → Host → Option ℕ
mode_at p h = mode_of (get p h.dirs) (get p h.files)

abbrev found_mode : Host → Option ℕ → Host × Result ℕ Stop
found_mode h none = (h, err (io not_found))
found_mode h (some m) = (h, ok m)

-- `fs::metadata(p)?.permissions().mode()`
unfoldable pub mode : PathBuf → Run ℕ
unfolding call
mode p = call (λ h. found_mode h (mode_at p h)) untouched

-- `EADDRINUSE`
abbrev pub in_use : ℕ
in_use = 98

abbrev listened : PathBuf → Host → Bool → Host × Result (Unit {0}) Stop
listened p h true = (h, err (io in_use))
listened p h false =
    (record h { files = insert p (record { contents = ""; mode = h.file_mode }) h.files }, ok tt)

-- `UnixListener::bind`: the socket's file is made.
unfoldable pub bind_socket : PathBuf → Run (Unit {0})
unfolding call
bind_socket p = call (λ h. listened p h (exists p h)) untouched

abbrev pub look : PathBuf → Run Bool
look p h = (h, ok (exists p h))

abbrev pub contents_of : Option Stored → Option String
contents_of none = none
contents_of (some f) = some f.contents

-- What a reader finds at a path.
abbrev pub text_at : PathBuf → Host → Option String
text_at p h = contents_of (get p h.files)
