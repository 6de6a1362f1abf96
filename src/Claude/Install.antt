-- ===== src/Claude/Install.antt =====
-- crates/ats-provider-claude/src/install.rs. serde's reading and printing of the settings, and the
-- crate `tempfile`, are parameters; a `BTreeMap` is an association list.
pub mod Hooked
pub mod Written
use agent_term_status.Prelude.{
  String, String_eq, Bool, true, false, Option, some, none, List, [], ◌∷◌, ◌++◌, any, is_empty,
  length, ltb, not, if◌then◌else◌,
}
use agent_term_status.Prelude.HashMap.{HashMap, get, insert, remove}
use agent_term_status.Claude.Risk.{contains}
use agent_term_status.Config.Atomic.{Tempfile, replace_file}
use agent_term_status.Host.{PathBuf, Host, Stop, message, Run, pure, stop, ◌>>=◌, ◌>>◌}
use agent_term_status.Host.Files.{read_to_string, look}
use agent_term_status.Host.Paths.{◌/◌}
use agent_term_status.Provider.{Json, and_then}

pub data InstallScope : Type 0 where
  user project local : InstallScope

pub record InstallResult : Type 0 where
  pub scope : InstallScope
  pub added : List String
  pub removed : List String
  pub unchanged : List String
  pub dry_run : Bool

abbrev or_here : Option PathBuf → PathBuf
or_here none = "." ∷ []
or_here (some home) = home

unfoldable pub settings_path : Option PathBuf → InstallScope → PathBuf
settings_path home_dir user = or_here home_dir / ".claude" / "settings.json"
settings_path home_dir project = "." ∷ ".claude" ∷ "settings.json" ∷ []
settings_path home_dir local = "." ∷ ".claude" ∷ "settings.local.json" ∷ []

abbrev pub hook_types : List String
hook_types =
    "SessionStart" ∷ "UserPromptSubmit" ∷ "PreToolUse" ∷ "PostToolUse" ∷ "PostToolUseFailure"
    ∷ "Notification" ∷ "Stop" ∷ "SessionEnd" ∷ []

-- `entry(name).or_default()`
abbrev pub or_empty : {A : Type 0} → Option (List A) → List A
or_empty none = []
or_empty (some xs) = xs

module _ (json : Json) where
  open json use {Value, Map}

  pub record ClaudeSettings : Type 0 where
    pub hooks : HashMap String (List Value)
    pub ats_managed : List String
    pub extra : HashMap String Value

  abbrev pub empty_settings : ClaudeSettings
  empty_settings = record { hooks = []; ats_managed = []; extra = [] }

  -- `unwrap_or` of what serde reads.
  abbrev pub parsed : Option ClaudeSettings → ClaudeSettings
  parsed none = empty_settings
  parsed (some settings) = settings

  abbrev mentions_ats : Option String → Bool
  mentions_ats none = false
  mentions_ats (some c) = contains c "ats ingest"

  -- Whether an entry is one of this program's: its `command` mentions `ats ingest`.
  unfoldable pub is_ats : Value → Bool
  is_ats e = mentions_ats (and_then (and_then (json.as_object e) (json.get "command")) json.as_str)

  -- The settings, and the names under two headings.
  pub record Pass : Type 0 where
    pub hooks : HashMap String (List Value)
    pub changed : List String
    pub unchanged : List String

  module _ (object : Map → Value) where
    unfoldable pub ats_hook_entry : Value
    ats_hook_entry = object (
        json.insert "env" (object (json.insert "TMUX_PANE" (json.string "${TMUX_PANE}") json.new)) (
          json.insert "command" (json.string "ats ingest --provider claude")
            (json.insert "matcher" (json.string "") json.new)))

    -- One round of the loop of `install_hooks`.
    unfoldable pub install_hook : String → Pass → Pass
    install_hook name s =
        let entries = or_empty (get name s.hooks) in
        if any is_ats entries
        then record {
          hooks = insert name entries s.hooks;
          changed = s.changed;
          unchanged = s.unchanged ++ name ∷ [];
        }
        else record {
          hooks = insert name (entries ++ ats_hook_entry ∷ []) s.hooks;
          changed = s.changed ++ name ∷ [];
          unchanged = s.unchanged;
        }

  abbrev pub retain : (Value → Bool) → List Value → List Value
  retain p [] = []
  retain p (e ∷ es) = if p e then e ∷ retain p es else retain p es

  abbrev put_entries :
      String → List Value → HashMap String (List Value) → HashMap String (List Value)
  put_entries name entries hooks =
      if is_empty entries then remove name hooks else insert name entries hooks

  abbrev retained : String → Pass → Option (List Value) → Pass
  retained name s none = s
  retained name s (some entries) =
      let kept = retain (λ e. not (is_ats e)) entries in
      let hooks = put_entries name kept s.hooks in
      if ltb (length kept) (length entries)
      then record { hooks = hooks; changed = s.changed ++ name ∷ []; unchanged = s.unchanged }
      else record { hooks = hooks; changed = s.changed; unchanged = s.unchanged ++ name ∷ [] }

  -- One round of the loop of `uninstall_hooks`.
  unfoldable pub uninstall_hook : String → Pass → Pass
  unfolding is_ats
  uninstall_hook name s = retained name s (get name s.hooks)

  unfoldable pub each : (String → Pass → Pass) → List String → Pass → Pass
  each f [] s = s
  each f (name ∷ names) s = each f names (f name s)

  abbrev pub started : HashMap String (List Value) → Pass
  started hooks = record { hooks = hooks; changed = []; unchanged = [] }

  -- `settings.hooks` after the loop, with what it has noted.
  abbrev pub installed : (Map → Value) → ClaudeSettings → Pass
  installed object settings = each (install_hook object) hook_types (started settings.hooks)

  abbrev pub uninstalled : ClaudeSettings → Pass
  uninstalled settings = each uninstall_hook hook_types (started settings.hooks)

  -- `for (key, value) in &settings.extra { out.insert(…) }`
  abbrev inserted : HashMap String Value → HashMap String Value → HashMap String Value
  inserted [] out = out
  inserted ((k, v) ∷ rest) out = inserted rest (insert k v out)

  unfoldable pub settings_with_hooks :
      (HashMap String (List Value) → Value) → ClaudeSettings → HashMap String Value
  settings_with_hooks to_value settings =
      let out = inserted settings.extra [] in
      if is_empty settings.hooks then out else insert "hooks" (to_value settings.hooks) out

  module _ (object : Map → Value) (from_str : String → Option ClaudeSettings)
      (to_value : HashMap String (List Value) → Value)
      (to_string_pretty : HashMap String Value → Option String) (tempfile : Tempfile)
      (home_dir : Option PathBuf) where
    -- The settings at a path where a file is there, and those that are empty.
    abbrev pub loaded : PathBuf → Bool → Run ClaudeSettings
    loaded path true = do content ← read_to_string path; pure (parsed (from_str content))
    loaded path false = pure empty_settings

    abbrev pub printed : Option String → Run String
    printed none = stop (message "serialization failed")
    printed (some content) = pure content

    -- `if !dry_run { … }`
    abbrev pub saved : Bool → PathBuf → ClaudeSettings → Run (Unit {0})
    saved true path settings = pure tt
    saved false path settings = do
      content ← printed (to_string_pretty (settings_with_hooks to_value settings))
      replace_file tempfile "json.bak" path content

    -- The hooks of the settings at a path are changed, and the settings written unless the run is
    -- dry.
    abbrev pub processed : (ClaudeSettings → Pass) → PathBuf → Bool → Bool → Run Pass
    processed change path dry_run there = do
      settings ← loaded path there
      saved dry_run path (record settings { hooks = (change settings).hooks })
      pure (change settings)

    unfoldable pub install_hooks : InstallScope → Bool → Run InstallResult
    install_hooks scope dry_run = do
      there ← look (settings_path home_dir scope)
      pass ← processed (installed object) (settings_path home_dir scope) dry_run there
      pure (record {
        scope = scope;
        added = pass.changed;
        removed = [];
        unchanged = pass.unchanged;
        dry_run = dry_run;
      })

    abbrev pub uninstall_there : InstallScope → Bool → Bool → Run InstallResult
    uninstall_there scope dry_run false =
        pure (record { scope = scope; added = []; removed = []; unchanged = []; dry_run = dry_run })
    uninstall_there scope dry_run true = do
      pass ← processed uninstalled (settings_path home_dir scope) dry_run true
      pure (record {
        scope = scope;
        added = [];
        removed = pass.changed;
        unchanged = pass.unchanged;
        dry_run = dry_run;
      })

    unfoldable pub uninstall_hooks : InstallScope → Bool → Run InstallResult
    uninstall_hooks scope dry_run = do
      there ← look (settings_path home_dir scope)
      uninstall_there scope dry_run there
