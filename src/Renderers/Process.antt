-- ===== src/Renderers/Process.antt =====
-- `std::process::Command` as the renderers use it: the log of the commands that were run, by their
-- arguments, and what the n-th of them ends with.
use agent_term_status.Prelude.{ℕ, String, Bool, Option, List, [], ◌∷◌, ◌++◌, length}

-- How a command ends: it cannot be run, or it exits, with an output that may be no UTF-8.
pub data Exit : Type 0 where
  not_run : String → Exit
  exited : Bool → Option String → String → Exit

pub record Outside : Type 0 where
  pub log : List (List String)
  pub exit : ℕ → Exit

unfoldable pub run_command : List String → Outside → Outside × Exit
run_command args w = (record w { log = w.log ++ args ∷ [] }, w.exit (length w.log))
