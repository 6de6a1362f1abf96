-- ===== src/Config/Paths.antt =====
-- crates/ats-config/src/paths.rs, with the environment as a record.
use agent_term_status.Prelude.{String, Option, some, none, [], ◌∷◌, str_eq, if◌then◌else◌}
use agent_term_status.Host.{PathBuf, Run, ◌>>◌}
use agent_term_status.Host.Paths.{◌/◌}
use agent_term_status.Host.Files.{create_dir_all}

pub record ConfigPaths : Type 0 where
  pub user_config_dir : PathBuf
  pub user_state_dir : PathBuf
  pub user_runtime_dir : PathBuf
  pub user_themes_dir : PathBuf
  pub user_config_file : PathBuf
  pub project_config_file : Option PathBuf

-- The three XDG variables, the home directory, and `std::env::temp_dir`.
pub record XdgEnvironment : Type 0 where
  pub xdg_config_home : Option String
  pub xdg_state_home : Option String
  pub xdg_runtime_dir : Option String
  pub home_dir : Option PathBuf
  pub temp_dir : PathBuf

abbrev or_here : Option PathBuf → PathBuf
or_here none = "." ∷ []
or_here (some home) = home

-- A variable that is empty counts as one that is not set.
abbrev pub set_or : PathBuf → Option String → PathBuf
set_or fallback none = fallback
set_or fallback (some s) = if str_eq s "" then fallback else s ∷ []

abbrev project_file : Option String → Option PathBuf
project_file none = none
project_file (some root) = some ((root ∷ []) / ".agent-term-status" / "config.yaml")

unfoldable pub resolve : XdgEnvironment → Option String → ConfigPaths
resolve env project_root =
    let home = or_here env.home_dir in
    let config_dir = set_or (home / ".config") env.xdg_config_home / "agent-term-status" in
    record {
      user_config_dir = config_dir;
      user_state_dir = set_or (home / ".local" / "state") env.xdg_state_home / "agent-term-status";
      user_runtime_dir = set_or env.temp_dir env.xdg_runtime_dir / "agent-term-status";
      user_themes_dir = config_dir / "themes";
      user_config_file = config_dir / "config.yaml";
      project_config_file = project_file project_root;
    }

unfoldable pub ensure_dirs : ConfigPaths → Run (Unit {0})
ensure_dirs paths = do
  create_dir_all paths.user_config_dir
  create_dir_all paths.user_state_dir
  create_dir_all paths.user_runtime_dir
