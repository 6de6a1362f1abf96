-- ===== src/Host.antt =====
-- The machine as the commands see it: files and directories with their modes, what is printed, the
-- signals and the programs that are run. A system call is done, or it fails, or the process is
-- killed in it: the verdict on the n-th call is given beforehand.
pub mod Paths
pub mod Files
pub mod Triples
use agent_term_status.Prelude.{
  ℕ, ◌+◌, String, Bool, Option, some, none, List, [], ◌∷◌, ◌++◌, Result, ok, err,
}
use agent_term_status.Prelude.Int.{ℤ}
use agent_term_status.Prelude.HashMap.{HashMap}
use agent_term_status.Renderers.Process.{Exit, Outside, run_command}

-- The components of a `PathBuf`; the first stands for a whole prefix, as the environment gives it.
abbrev pub PathBuf : Type 0
PathBuf = List String

-- A failed write has written so many characters before.
pub data Verdict : Type 0 where
  done killed : Verdict
  failed : ℕ → ℕ → Verdict

pub record Stored : Type 0 where
  pub contents : String
  pub mode : ℕ

pub data Line : Type 0 where
  stdout stderr : String → Line

pub record Host : Type 0 where
  pub files : HashMap PathBuf Stored
  pub dirs : HashMap PathBuf ℕ
  pub file_mode : ℕ
  pub dir_mode : ℕ
  pub calls : ℕ
  pub verdict : ℕ → Verdict
  pub printed : List Line
  pub signalled : List ℤ
  pub outside : Outside

-- Why a program does not go on: an error that `?` passes on, `process::exit`, or its being killed.
pub data Stop : Type 0 where
  io : ℕ → Stop
  message : String → Stop
  exit : ℕ → Stop
  killed : Stop

abbrev pub Run : Type 0 → Type 0
Run A = Host → Host × Result A Stop

abbrev pub pure : {A : Type 0} → A → Run A
pure a h = (h, ok a)

abbrev pub stop : {A : Type 0} → Stop → Run A
stop s h = (h, err s)

abbrev pub next : {A B : Type 0} → (A → Run B) → Host × Result A Stop → Host × Result B Stop
next f (h, ok a) = f a h
next f (h, err s) = (h, err s)

infixl 5 ◌>>=◌ ◌>>◌
abbrev pub ◌>>=◌ : {A B : Type 0} → Run A → (A → Run B) → Run B
◌>>=◌ m f h = next f (m h)

abbrev pub ◌>>◌ : {A B : Type 0} → Run A → Run B → Run B
m >> k = m >>= λ _. k

abbrev pub caught : {A : Type 0} → Host × Result A Stop → Host × Result (Result A ℕ) Stop
caught (h, ok a) = (h, ok (ok a))
caught (h, err (io e)) = (h, ok (err e))
caught (h, err (message s)) = (h, err (message s))
caught (h, err (exit n)) = (h, err (exit n))
caught (h, err killed) = (h, err killed)

-- A call whose `Result` the code inspects or ignores in place of passing the error on.
abbrev pub attempt : {A : Type 0} → Run A → Run (Result A ℕ)
attempt m h = caught (m h)

-- Whether the code goes on with a part.
abbrev pub when : Bool → Run (Unit {0}) → Run (Unit {0})
when Bool.true m = m
when Bool.false m = pure tt

abbrev pub print : Line → Run (Unit {0})
print l h = (record h { printed = h.printed ++ l ∷ [] }, ok tt)

abbrev pub println : String → Run (Unit {0})
println s = print (stdout s)

abbrev pub eprintln : String → Run (Unit {0})
eprintln s = print (stderr s)

abbrev ran : Host → Outside × Exit → Host × Result Exit Stop
ran h (w, e) = (record h { outside = w }, ok e)

-- `Command::new(…).args(…)` and its end.
unfoldable pub command : List String → Run Exit
unfolding run_command
command args h = ran h (run_command args h.outside)
