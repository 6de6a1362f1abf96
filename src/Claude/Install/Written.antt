-- ===== src/Claude/Install/Written.antt =====
-- What `install_hooks` leaves in the file system, where a call fails or the process is killed too.
use agent_term_status.Prelude.{
  ◌≡◌, refl, ap, ◌≢◌, ◌⊎◌, inl, inr, String, Bool, true, false, Option, some, none, List, [], arith,
}
use agent_term_status.Prelude.HashMap.{HashMap, get}
use agent_term_status.Host
use agent_term_status.Host.{PathBuf, Host, Stop, message, Run, pure, next, ◌>>=◌, ◌>>◌}
use agent_term_status.Host.Files.{read_to_string, exists, text_at, contents_of}
use agent_term_status.Host.Files.Effects.{Same, read_to_string-Triple}
use agent_term_status.Host.Paths.{PathBuf_eq, with_extension}
use agent_term_status.Host.Triples.{After, Triple, After-weaken, After-next, bind-Triple}
use agent_term_status.Config.Atomic.{Tempfile, IsLawful, replace_file}
use agent_term_status.Config.Atomic.Crash.{Old, New, Stopped, replaced}
use agent_term_status.Provider.{Json}
use agent_term_status.Claude.Install.{
  ClaudeSettings, empty_settings, Pass, InstallScope, InstallResult, settings_with_hooks, parsed,
  loaded, printed, saved, processed, settings_path, installed, install_hooks,
}

module _ (json : Json) (from_str : String → Option (ClaudeSettings json))
    (to_value : HashMap String (List (json.Value)) → json.Value)
    (to_string_pretty : HashMap String (json.Value) → Option String) (is_temp : PathBuf → Bool)
    (change : ClaudeSettings json → Pass json) (path : PathBuf) where
  -- The settings that a path stands for: they are empty where no file is there, and where the file
  -- does not parse.
  abbrev pub settings_of : Option String → ClaudeSettings json
  settings_of none = empty_settings json
  settings_of (some content) = parsed json (from_str content)

  -- The text that replaces one in the file.
  abbrev pub new_text : Option String → Option String
  new_text old =
      let settings = settings_of old in
      to_string_pretty
        (settings_with_hooks json to_value (record settings { hooks = (change settings).hooks }))

  -- The file has the new text, nothing else but temporary files and the backup has changed.
  abbrev pub IsReplaced : Host → Host → Type 0
  IsReplaced h0 h =
      (content : String) × ((new_text (text_at path h0) ≡ some content)
        × New is_temp "json.bak" path content h0 h)

  abbrev pub IsUntouched : Host → Host → Type 0
  IsUntouched h0 = Old is_temp "json.bak" path "" h0

  abbrev pub Ended : Bool → Host → Host → Type 0
  Ended true h0 h = Same (λ _. Unit {0}) h0 h
  Ended false h0 h = IsReplaced h0 h

  abbrev pub Broken : Bool → Host → Stop → Host → Type 0
  Broken true h0 s h = Same (λ _. Unit {0}) h0 h
  Broken false h0 s h = IsUntouched h0 h ⊎ ((s ≡ Stop.killed) × IsReplaced h0 h)

  module _ (object : json.Map → json.Value) (tempfile : Tempfile) (home_dir : Option PathBuf)
      (lawful : IsLawful tempfile is_temp) (path_apart : is_temp path ≡ false)
      (bak_apart : with_extension path "json.bak" ≢ path) (h0 : Host) where
    abbrev load : Bool → Run (ClaudeSettings json)
    load = loaded json object from_str to_value to_string_pretty tempfile home_dir path

    abbrev save : Bool → ClaudeSettings json → Run (Unit {0})
    save dry_run =
        saved json object from_str to_value to_string_pretty tempfile home_dir dry_run path

    abbrev Untouched : Host → Type 0
    Untouched = Same (λ _. Unit {0}) h0

    -- The settings as they are read.
    abbrev Read : ClaudeSettings json → Host → Type 0
    Read settings h = (settings ≡ settings_of (text_at path h0)) × Untouched h

    loaded-Triple :
        (there : Bool)
        → exists path h0 ≡ there
        → Triple Untouched (load there) Read (λ _. Untouched)
    loaded-Triple true e =
        bind-Triple Untouched (λ c h. (text_at path h0 ≡ some c) × Untouched h) Read
          (λ _. Untouched) (read_to_string path) (λ c. pure (parsed json (from_str c)))
          (read_to_string-Triple path h0) (λ c h x. (rw x.0 refl, x.1))
    loaded-Triple false e = λ h u. (absent (get path h0.files) refl, u)
      where
        absent :
            (o : Option Host.Stored)
            → get path h0.files ≡ o
            → empty_settings json ≡ settings_of (contents_of o)
        absent none g = refl
        absent (some f) g = absurd (ground (arith, e, g))

    replaced_with :
        (settings : ClaudeSettings json)
        → settings ≡ settings_of (text_at path h0)
        → (o : Option String)
        → to_string_pretty (
            settings_with_hooks json to_value (record settings { hooks = (change settings).hooks }))
          ≡ o
        → Triple Untouched
            (printed json object from_str to_value to_string_pretty tempfile home_dir o
              >>= λ content. replace_file tempfile "json.bak" path content)
            (λ _. Ended false h0)
            (Broken false h0)
    replaced_with settings e none t = λ h u. inl (λ q k. u q tt)
    replaced_with settings e (some content) t = λ h u.
        After-weaken (λ _. New is_temp "json.bak" path content h0) (λ _. IsReplaced h0)
          (Stopped is_temp "json.bak" path content h0) (Broken false h0)
          (replace_file tempfile "json.bak" path content h)
          (replaced tempfile is_temp lawful "json.bak" path content h0 path_apart bak_apart h
            (λ q k. u q tt))
          (λ _ h' n. (content, (is_new, n)))
          (λ s h' x. elim x [ inl o ↦ inl o | inr n ↦ inr (n.0, (content, (is_new, n.1))) ])
      where
        is_new : new_text (text_at path h0) ≡ some content
        is_new = rw (← e) t

    saved-Triple :
        (dry_run : Bool) (settings : ClaudeSettings json)
        → Triple
            (Read settings)
            (save dry_run (record settings { hooks = (change settings).hooks }))
            (λ _. Ended dry_run h0)
            (Broken dry_run h0)
    saved-Triple true settings h r = r.1
    saved-Triple false settings h r = replaced_with settings r.0 _ refl h r.1

    broken : (dry_run : Bool) (s : Stop) (h : Host) → Untouched h → Broken dry_run h0 s h
    broken true s h u = u
    broken false s h u = inl (λ q k. u q tt)

    -- What a pass over the settings in the file reports, and leaves.
    abbrev Passed : Bool → Pass json → Host → Type 0
    Passed dry_run pass h = (pass ≡ change (settings_of (text_at path h0))) × Ended dry_run h0 h

    pub processed-Passed :
        (dry_run : Bool)
        → After (Passed dry_run) (Broken dry_run h0) (
            processed json object from_str to_value to_string_pretty tempfile home_dir change path
              dry_run
              (exists path h0)
              h0)
    processed-Passed dry_run =
        bind-Triple Untouched Read (Passed dry_run) (Broken dry_run h0) (load (exists path h0)) rest
          (λ h u.
            After-weaken Read Read (λ _. Untouched) (Broken dry_run h0) (load (exists path h0) h)
              (loaded-Triple (exists path h0) refl h u) (λ _ h' x. x) (broken dry_run))
          (λ settings h r.
            bind-Triple (Read settings) (λ _. Ended dry_run h0) (Passed dry_run) (Broken dry_run h0)
              (save dry_run (record settings { hooks = (change settings).hooks }))
              (λ _. pure (change settings)) (saved-Triple dry_run settings)
              (λ _ h' x. (ap change r.0, x)) h r)
          h0 (λ q k. refl)
      where
        rest : ClaudeSettings json → Run (Pass json)
        rest settings = do
          save dry_run (record settings { hooks = (change settings).hooks })
          pure (change settings)

-- What `install_hooks` reports of the settings at the path, as they were.
module _ (json : Json) (object : json.Map → json.Value)
    (from_str : String → Option (ClaudeSettings json))
    (to_value : HashMap String (List (json.Value)) → json.Value)
    (to_string_pretty : HashMap String (json.Value) → Option String) (is_temp : PathBuf → Bool)
    (home_dir : Option PathBuf) (scope : InstallScope) (dry_run : Bool) (h : Host) where
  abbrev path_of : PathBuf
  path_of = settings_path home_dir scope

  abbrev pub install_pass : Pass json
  install_pass = installed json object (
      settings_of json from_str to_value to_string_pretty is_temp (installed json object) path_of
        (text_at path_of h))

  abbrev pub IsReported : InstallResult → Type 0
  IsReported r =
      (r.added ≡ install_pass.changed)
      × ((r.unchanged ≡ install_pass.unchanged) × ((r.removed ≡ []) × (r.dry_run ≡ dry_run)))

  abbrev pub IsEnded : Host → Type 0
  IsEnded =
      Ended json from_str to_value to_string_pretty is_temp (installed json object) path_of dry_run
        h

  abbrev pub IsInstalled : InstallResult → Host → Type 0
  IsInstalled r h' = IsReported r × IsEnded h'

  abbrev pub IsBroken : Stop → Host → Type 0
  IsBroken =
      Broken json from_str to_value to_string_pretty is_temp (installed json object) path_of dry_run
        h

  -- What install_hooks reports and leaves, for any contents of the settings file: where it ends,
  -- the hooks that it added and found to the settings as they were, and in the file the text of the
  -- settings with the hooks (a file that is absent, or that does not parse, counts as empty
  -- settings), or the old contents on a dry run; where a call fails or the text cannot be made, the
  -- old contents; where the process is killed, either. No other file changes, temporary files and
  -- the backup aside. The settings file is not a temporary one or its own backup, and the library
  -- for temporary files changes no other file and puts the whole file in place or leaves the old
  -- one.
  pub install_hooks-IsInstalled :
      (tempfile : Tempfile)
      → IsLawful tempfile is_temp
      → is_temp (settings_path home_dir scope) ≡ false
      → with_extension (settings_path home_dir scope) "json.bak" ≢ settings_path home_dir scope
      → After IsInstalled IsBroken (
          install_hooks json object from_str to_value to_string_pretty tempfile home_dir scope
            dry_run h)
  unfolding install_hooks
  install_hooks-IsInstalled tempfile lawful apart bak_apart =
      After-next (λ pass h'. (pass ≡ install_pass) × IsEnded h') IsInstalled IsBroken
        (λ pass. pure (record {
          scope = scope;
          added = pass.changed;
          removed = [];
          unchanged = pass.unchanged;
          dry_run = dry_run;
        }))
        (processed json object from_str to_value to_string_pretty tempfile home_dir
          (installed json object) path_of dry_run (exists path_of h) h)
        (λ pass h' x. (
          (
            ap (λ (p : Pass json). p.changed) x.0,
            (ap (λ (p : Pass json). p.unchanged) x.0, (refl, refl)),
          ),
          x.1,
        ))
        (processed-Passed json from_str to_value to_string_pretty is_temp (installed json object)
          path_of object tempfile home_dir lawful apart bak_apart h dry_run)
