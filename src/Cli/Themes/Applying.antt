-- ===== src/Cli/Themes/Applying.antt =====
-- What `run_apply` (crates/ats-cli/src/theme_commands.rs) leaves of the user's configuration.
use agent_term_status.Prelude.{
  ℕ, ◌≡◌, refl, sym, ap, ◌∙◌, ◌≢◌, ◌⊎◌, inl, inr, String, String_eq, Bool, true, false, Option,
  some, none, List, Result, ok, err, Bool-cases, Option-cases, arith,
}
use agent_term_status.Prelude.HashMap.{get, contains}
use agent_term_status.Config.Atomic.{Tempfile, IsLawful, atomic_write}
use agent_term_status.Config.Atomic.Crash.{Old, New, Stopped, replaced}
use agent_term_status.Config.Paths.{ConfigPaths}
use agent_term_status.Config.Settings.{Config}
use agent_term_status.Config.Theme.{Theme, bundle_names}
use agent_term_status.Host.{PathBuf, Host, Stop, Run, pure, attempt, io}
use agent_term_status.Host.Files.{read_to_string, exists, text_at, contents_of}
use agent_term_status.Host.Files.Reading.{
  Quiet, Fails, Read, contents, missing, refused, read_to_string-Read,
}
use agent_term_status.Host.Paths.{PathBuf_eq, with_extension}
use agent_term_status.Host.Triples.{After, Triple, After-next, After-weaken, bind-Triple}
use agent_term_status.Cli.Themes.Loading.{load_theme, load_found, load_from_path}
use agent_term_status.Cli.Themes.{
  load_user_config, config_there, parsed, or_default, finished, save, apply_to, apply_loaded,
  run_apply,
}

-- Loading a theme changes nothing.
module _ (bundled : List (String × String)) (from_str : String → String ⊎ Theme)
    (show_error : ℕ → String) (h0 : Host) where
  abbrev IsQuiet : {A : Type 0} → Run A → Type 0
  IsQuiet m = Triple (Quiet h0) m (λ _. Quiet h0) (λ _. Quiet h0)

  load_from_path-IsQuiet :
      (path : PathBuf) → IsQuiet (load_from_path bundled from_str show_error path)
  unfolding load_from_path
  load_from_path-IsQuiet path =
      bind-Triple (Quiet h0) (λ r h. Read h0 path r × Quiet h0 h) (λ _. Quiet h0) (λ _. Quiet h0)
        (attempt (read_to_string path)) (λ content. pure _) (read_to_string-Read h0 path)
        (λ r h x. x.1)

  module _ (debug_names : List String → String) where
    load_found-IsQuiet :
        (name : String) (yaml yml : PathBuf) (a b : Bool)
        → IsQuiet (load_found bundled from_str show_error debug_names name yaml yml a b)
    load_found-IsQuiet name yaml yml true b h q =
        After-next (λ _. Quiet h0) (λ _. Quiet h0) (λ _. Quiet h0) (λ _. pure _) _ (λ _ h' x. x)
          (load_from_path-IsQuiet yaml h q)
    load_found-IsQuiet name yaml yml false true h q =
        After-next (λ _. Quiet h0) (λ _. Quiet h0) (λ _. Quiet h0) (λ _. pure _) _ (λ _ h' x. x)
          (load_from_path-IsQuiet yml h q)
    load_found-IsQuiet name yaml yml false false h q = q

    load_theme-IsQuiet :
        (paths : ConfigPaths) (name : String)
        → IsQuiet (load_theme bundled from_str show_error debug_names paths name)
    unfolding load_theme
    load_theme-IsQuiet paths name h q =
        elim (Bool-cases (contains name (bundle_names bundled from_str))) [
          | inl there ↦ rw there q
          | inr other ↦ rw other (load_found-IsQuiet name _ _ _ _ h q)
        ]

module _ (parse_config : String → Option Config) (to_yaml : Config → String ⊎ String)
    (is_temp : PathBuf → Bool) (paths : ConfigPaths) (name : String) (h0 : Host) where
  abbrev file : PathBuf
  file = paths.user_config_file

  -- The configuration that a text stands for.
  abbrev pub config_in : Option String → Option Config
  config_in none = none
  config_in (some content) = parse_config content

  -- The configuration that is changed: the user's, or the defaults where there is none, where it
  -- does not parse, or where a call fails.
  abbrev pub IsCurrent : Option Config → Type 0
  IsCurrent current = (current ≡ config_in (text_at file h0)) ⊎ ((current ≡ none) × Fails h0)

  -- The file has the whole text of that configuration with the theme.
  abbrev pub IsApplied : Host → Type 0
  IsApplied h =
      (current : Option Config) × (yaml : String) × (IsCurrent current
        × ((to_yaml (record (or_default current) { theme = some name }) ≡ inr yaml)
            × New is_temp "yaml.bak" file yaml h0 h))

  abbrev pub IsOld : Host → Type 0
  IsOld = Old is_temp "yaml.bak" file "" h0

  abbrev pub IsLeft : Stop → Host → Type 0
  IsLeft s h = IsOld h ⊎ ((s ≡ Stop.killed) × IsApplied h)

  parsed-IsCurrent : (r : Result String ℕ) → Read h0 file r → IsCurrent (parsed parse_config r)
  parsed-IsCurrent _ (contents e) = inl (rw e refl)
  parsed-IsCurrent _ (missing e) = inl (rw e refl)
  parsed-IsCurrent _ (refused f) = inr (refl, f)

  Quiet-IsOld : (h : Host) → Quiet h0 h → IsOld h
  Quiet-IsOld h q = λ p k. q.0 p tt

  absent : (h : Host) → Quiet h0 h → exists file h ≡ false → none ≡ config_in (text_at file h0)
  absent h q e = elim (Option-cases (get file h.files)) [
    | inl n ↦ ap config_in (sym (ap contents_of n) ∙ q.0 file tt)
    | inr (f, there) ↦ absurd (ground (arith, e, there))
  ]

  config_there-IsCurrent :
      (there : Bool) (h : Host)
      → exists file h ≡ there
      → Quiet h0 h
      → After
          (λ current h. IsCurrent current × Quiet h0 h)
          (λ _. Quiet h0)
          (config_there parse_config file there h)
  config_there-IsCurrent false h e q = (inl (absent h q e), q)
  config_there-IsCurrent true h e q =
      bind-Triple (Quiet h0) (λ r h. Read h0 file r × Quiet h0 h)
        (λ current h. IsCurrent current × Quiet h0 h) (λ _. Quiet h0)
        (attempt (read_to_string file)) (λ content. pure (parsed parse_config content))
        (read_to_string-Read h0 file) (λ r h x. (parsed-IsCurrent r x.0, x.1)) h q

  module _ (tempfile : Tempfile) (show_stop : Stop → String) (lawful : IsLawful tempfile is_temp)
      (apart : is_temp file ≡ false) (bak_apart : with_extension file "yaml.bak" ≢ file) where
    abbrev Written : String → Host → Type 0
    Written yaml = New is_temp "yaml.bak" file yaml h0

    not_new :
        (yaml : String) (s : Stop) (h : Host)
        → s ≢ Stop.killed
        → Stopped is_temp "yaml.bak" file yaml h0 s h
        → IsOld h
    not_new yaml s h ne (inl o) = o
    not_new yaml s h ne (inr x) = absurd (ne x.0)

    finished-IsApplied :
        (yaml : String) (r : Host × Result (Unit {0}) Stop)
        → ((h : Host) → Written yaml h → IsApplied h)
        → After (λ _. Written yaml) (Stopped is_temp "yaml.bak" file yaml h0) r
        → After (λ _. IsApplied) IsLeft (finished parse_config to_yaml tempfile show_stop name r)
    finished-IsApplied yaml (h, ok u) k a = k h a
    finished-IsApplied yaml (h, err Stop.killed) k (inl o) = inl o
    finished-IsApplied yaml (h, err Stop.killed) k (inr x) = inr (refl, k h x.1)
    finished-IsApplied yaml (h, err (io e)) k a = inl (not_new yaml _ h (λ p. cc p) a)
    finished-IsApplied yaml (h, err (Stop.message m)) k a = inl (not_new yaml _ h (λ p. cc p) a)
    finished-IsApplied yaml (h, err (Stop.exit n)) k a = inl (not_new yaml _ h (λ p. cc p) a)

    save-IsApplied :
        (current : Option Config) (o : String ⊎ String)
        → to_yaml (record (or_default current) { theme = some name }) ≡ o
        → (h : Host) → IsCurrent current × Quiet h0 h
        → After
            (λ _. IsApplied)
            IsLeft
            (save parse_config to_yaml tempfile show_stop paths name o h)
    save-IsApplied current (inl e) t h q = inl (Quiet-IsOld h q.1)
    save-IsApplied current (inr yaml) t h q =
        finished-IsApplied yaml _ (λ h' w. (current, yaml, (q.0, (t, w))))
          (unfold atomic_write in
            replaced tempfile is_temp lawful "yaml.bak" file yaml h0 apart bak_apart h
              (Quiet-IsOld h q.1))

    loaded-IsApplied :
        (theme : Result Theme String)
        → Triple
            (Quiet h0)
            (apply_loaded parse_config to_yaml tempfile show_stop paths name theme)
            (λ _. IsApplied)
            IsLeft
    loaded-IsApplied (err e) h q = inl (Quiet-IsOld h q)
    loaded-IsApplied (ok theme) h q =
        After-next (λ current h. IsCurrent current × Quiet h0 h) (λ _. IsApplied) IsLeft
          (apply_to parse_config to_yaml tempfile show_stop paths name)
          (load_user_config parse_config paths h) (λ current. save-IsApplied current _ refl)
          (unfold load_user_config in
            After-weaken (λ current h. IsCurrent current × Quiet h0 h)
              (λ current h. IsCurrent current × Quiet h0 h) (λ _. Quiet h0) IsLeft
              (config_there parse_config file (exists file h) h)
              (config_there-IsCurrent (exists file h) h refl q) (λ _ h' x. x)
              (λ s h' x. inl (Quiet-IsOld h' x)))

    -- Whether `ats theme apply` ends, a call fails or the process is killed, the user's
    -- configuration file has its old contents or the whole text of a configuration with the theme:
    -- that one where the command ends, the old contents where it stops with an error, either where
    -- the process is killed. The configuration that is changed is the user's as it was, or the
    -- defaults: where there is none, where it does not parse, or where a call fails. The file is
    -- not a temporary one or its own backup, and the library for temporary files changes no other
    -- file and puts the whole file in place or leaves the old one.
    pub run_apply-IsApplied :
        (bundled : List (String × String)) (from_str : String → String ⊎ Theme)
        (show_error : ℕ → String) (debug_names : List String → String)
        → After
            (λ _. IsApplied)
            IsLeft
            (run_apply parse_config to_yaml tempfile show_stop
              (load_theme bundled from_str show_error debug_names paths)
              paths
              name
              h0)
    unfolding run_apply
    run_apply-IsApplied bundled from_str show_error debug_names =
        let load = load_theme bundled from_str show_error debug_names paths in
        After-next (λ _. Quiet h0) (λ _. IsApplied) IsLeft
          (apply_loaded parse_config to_yaml tempfile show_stop paths name) (load name h0)
          loaded-IsApplied
          (After-weaken (λ _. Quiet h0) (λ _. Quiet h0) (λ _. Quiet h0) IsLeft (load name h0)
            (load_theme-IsQuiet bundled from_str show_error h0 debug_names paths name h0
              ((λ p k. refl), refl))
            (λ _ h x. x) (λ s h x. inl (Quiet-IsOld h x)))
