-- ===== src/Cli/Themes/Loading.antt =====
-- `load_theme` of crates/ats-cli/src/theme_commands.rs, and `Theme::load_from_path` of
-- crates/ats-config/src/theme.rs. The YAML library and the printing of errors are parameters.
use agent_term_status.Prelude.{
  ℕ, String, String_eq, Bool, true, false, List, Result, ok, err, if◌then◌else◌, ◌⧺◌, ◌⊎◌, inl, inr,
}
use agent_term_status.Prelude.HashMap.{contains}
use agent_term_status.Config.Paths.{ConfigPaths}
use agent_term_status.Config.Theme.{
  Theme, ThemeError, bundle_names, load_bundled, parse, not_found, validation,
}
use agent_term_status.Host.{PathBuf, Run, pure, attempt, ◌>>=◌}
use agent_term_status.Host.Files.{look, read_to_string}
use agent_term_status.Host.Paths.{◌/◌, display}

module _ (bundled : List (String × String)) (from_str : String → String ⊎ Theme)
    (show_error : ℕ → String) where
  abbrev read_theme : PathBuf → Result String ℕ → Result Theme ThemeError
  read_theme path (err e) = err (ThemeError.io (display path) (show_error e))
  read_theme path (ok content) = elim (from_str content) [
    | inl detail ↦ err (parse (display path) detail)
    | inr theme ↦ ok theme
  ]

  unfoldable pub load_from_path : PathBuf → Run (Result Theme ThemeError)
  load_from_path path = do content ← attempt (read_to_string path); pure (read_theme path content)

  -- The message for an error, by what it says where the theme is not found.
  abbrev explained : String → String → ThemeError → String
  explained name missing (not_found _ _) = missing
  explained name missing (parse _ detail) = "Theme '" ⧺ (name ⧺ ("' is malformed: " ⧺ detail))
  explained name missing (ThemeError.io _ detail) =
      "I/O error reading theme '" ⧺ (name ⧺ ("': " ⧺ detail))
  explained name missing (validation text) = "Theme '" ⧺ (name ⧺ ("' validation error: " ⧺ text))

  abbrev mapped : String → String → Result Theme ThemeError → Result Theme String
  mapped name missing (ok theme) = ok theme
  mapped name missing (err e) = err (explained name missing e)

  abbrev load_user : String → PathBuf → Run (Result Theme String)
  load_user name path = do
    theme ← load_from_path path
    pure (mapped name ("Theme '" ⧺ (name ⧺ "' not found.")) theme)

  module _ (debug_names : List String → String) where
    abbrev pub load_found : String → PathBuf → PathBuf → Bool → Bool → Run (Result Theme String)
    load_found name yaml yml true there = load_user name yaml
    load_found name yaml yml false true = load_user name yml
    load_found name yaml yml false false = pure (
        err (
          "Theme '"
          ⧺ (name
              ⧺ ("' not found. Available bundled: "
                  ⧺ debug_names (bundle_names bundled from_str)))))

    unfoldable pub load_theme : ConfigPaths → String → Run (Result Theme String)
    load_theme paths name =
        if contains name (bundle_names bundled from_str)
        then pure (
            mapped name ("Theme '" ⧺ (name ⧺ "' not found in bundled themes."))
              (load_bundled bundled from_str name))
        else (do
          yaml ← look (paths.user_themes_dir / (name ⧺ ".yaml"))
          yml ← look (paths.user_themes_dir / (name ⧺ ".yml"))
          load_found name (paths.user_themes_dir / (name ⧺ ".yaml"))
              (paths.user_themes_dir / (name ⧺ ".yml")) yaml yml)
