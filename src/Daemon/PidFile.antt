-- ===== src/Daemon/PidFile.antt =====
-- crates/ats-daemon/src/pidfile.rs. `PidFile::acquire` is a machine whose step is one system call,
-- so that other processes can act between two of them. A file keeps its identity, its inode, when
-- its name is unlinked: a write goes to the file that was created. `kill`, the parsing of a number
-- and its printing are parameters.
pub mod Outcomes
use agent_term_status.Prelude.{
  ℕ, zero, suc, ◌+◌, String, Bool, true, false, ◌&&◌, Option, some, none, List, [], ◌∷◌,
  if◌then◌else◌, nat_eq, not,
}
use agent_term_status.Prelude.Int.{ℤ, ltb_ℤ, eqb_ℤ, pos}

pub record File : Type 0 where
  pub inode : ℕ
  pub contents : String

-- What is at the path, and the number of the next file.
pub record Disk : Type 0 where
  pub file : Option File
  pub next : ℕ

pub data PidFileError : Type 0 where
  already_running : ℤ → PidFileError
  io : ℕ → PidFileError
  contention : PidFileError

-- Where `acquire` is: the number is that of the attempts left.
pub data Phase : Type 0 where
  creating : ℕ → Phase
  writing : ℕ → Phase
  reading removing : ℕ → Phase
  acquired : Phase
  refused : PidFileError → Phase

abbrev pub max_attempts : ℕ
max_attempts = 3

-- `kill(pid, 0)`: 0, or the number of the error.
pub data Killed : Type 0 where
  alive not_permitted : Killed
  other : ℕ → Killed

abbrev exists : Killed → Bool
exists alive = true
exists not_permitted = true
exists (other e) = false

module _ (kill : ℤ → Killed) where
  unfoldable pub process_alive : ℤ → Bool
  process_alive pid = if not (ltb_ℤ (pos 0) pid) then false else exists (kill pid)

  module _ (parse : String → Option ℤ) (show : ℤ → String) (own : ℤ) where
    -- `pid != std::process::id() && process_alive(pid)`
    abbrev pub is_live : ℤ → Bool
    is_live pid = not (eqb_ℤ pid own) && process_alive pid

    abbrev pub judged : ℕ → Option ℤ → Phase
    judged n none = removing n
    judged n (some pid) = if is_live pid then refused (already_running pid) else removing n

    abbrev created : ℕ → Disk → Option File → Phase × Disk
    created n d none = (
      writing d.next,
      record { file = some (record { inode = d.next; contents = "" }); next = d.next + 1 },
    )
    created n d (some f) = (reading n, d)

    -- A write to a file whose name is gone, or names another file, is not seen at the path.
    abbrev filled : ℕ → Disk → Option File → Disk
    filled inode d none = d
    filled inode d (some f) =
        if nat_eq f.inode inode
        then record d { file = some (record { inode = inode; contents = show own }) }
        else d

    abbrev read : ℕ → Option File → Phase
    read n none = creating n
    read n (some f) = judged n (parse f.contents)

    -- One system call; a fault is an error that it ends with other than those of the file's absence
    -- and presence.
    unfoldable pub step : Option ℕ → Phase → Disk → Phase × Disk
    step fault (creating zero) d = (refused contention, d)
    step none (creating (suc n)) d = created n d d.file
    step (some e) (creating (suc n)) d = (refused (io e), d)
    step none (writing inode) d = (acquired, filled inode d d.file)
    step (some e) (writing inode) d = (refused (io e), d)
    step none (reading n) d = (read n d.file, d)
    step (some e) (reading n) d = (refused (io e), d)
    step none (removing n) d = (creating n, record d { file = none })
    step (some e) (removing n) d = (refused (io e), d)
    step fault acquired d = (acquired, d)
    step fault (refused e) d = (refused e, d)

    -- The steps of one process, with what the others do to the disk before each of them.
    unfoldable pub run : List (Option ℕ × (Disk → Disk)) → Phase → Disk → Phase × Disk
    run [] p d = (p, d)
    run ((fault, others) ∷ xs) p d = let (p1, d1) = step fault p (others d) in run xs p1 d1

    -- `acquire` from its first attempt.
    unfoldable pub acquire : List (Option ℕ × (Disk → Disk)) → Disk → Phase × Disk
    acquire xs d = run xs (creating max_attempts) d

-- `Drop`: the file at the path is removed, whoever's it is.
unfoldable pub drop : Disk → Disk
drop d = record d { file = none }
