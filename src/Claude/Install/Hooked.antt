-- ===== src/Claude/Install/Hooked.antt =====
-- What the loops of `install_hooks` and `uninstall_hooks` make of the hooks, event by event.
use agent_term_status.Prelude.{
  ◌≡◌, refl, sym, ◌∙◌, ap, String, String_eq, eq_iff, Bool, true, ◌||◌, Option, some, none, List,
  [], ◌∷◌, ◌++◌, any, length, append-nil, append_assoc, ltb, not, arith, if◌then◌else◌, Bool-cases,
  inl, inr,
}
use agent_term_status.Prelude.HashMap.{HashMap, get, insert, contains, get-insert, get-remove}
use agent_term_status.Provider.{Json}
use agent_term_status.Claude.Install.{
  ClaudeSettings, Pass, is_ats, ats_hook_entry, install_hook, uninstall_hook, retain, retained,
  put_entries, each, started, installed, uninstalled, hook_types, or_empty,
}

module _ (json : Json) where
  open json use {Value, Map}

  -- The entries of an event without this program's, and no entry for it where none is left.
  abbrev pub foreign : List Value → List Value
  foreign es = retain json (λ e. not (is_ats json e)) es

  abbrev unless_empty : List Value → Option (List Value)
  unless_empty [] = none
  unless_empty (e ∷ es) = some (e ∷ es)

  abbrev pub stripped : Option (List Value) → Option (List Value)
  stripped none = none
  stripped (some es) = unless_empty (foreign es)

  retain-append :
      (p : Value → Bool) (xs ys : List Value)
      → retain json p (xs ++ ys) ≡ retain json p xs ++ retain json p ys
  retain-append p [] ys = refl
  retain-append p (x ∷ xs) ys = ground (arith, retain-append p xs ys)

  retain_twice :
      (p : Value → Bool) (xs : List Value) → retain json p (retain json p xs) ≡ retain json p xs
  retain_twice p [] = refl
  retain_twice p (x ∷ xs) = ground (arith, retain_twice p xs)

  stripped_twice : (o : Option (List Value)) → stripped (stripped o) ≡ stripped o
  stripped_twice none = refl
  stripped_twice (some es) = again (foreign es) (retain_twice _ es)
    where
      again :
          (kept : List Value)
          → foreign kept ≡ kept
          → stripped (unless_empty kept) ≡ unless_empty kept
      again [] h = refl
      again (e ∷ kept) h = ap unless_empty h

  get-put_entries :
      (name k : String) (kept : List Value) (hooks : HashMap String (List Value))
      → get k (put_entries json name kept hooks)
        ≡ (if String_eq.test name k then unless_empty kept else get k hooks)
  get-put_entries name k [] hooks = get-remove name k hooks
  get-put_entries name k (e ∷ kept) hooks = get-insert name k (e ∷ kept) hooks

  get-retained :
      (name k : String) (s : Pass json) (o : Option (List Value))
      → get name s.hooks ≡ o
      → get k (retained json name s o).hooks
        ≡ (if String_eq.test name k then stripped o else get k s.hooks)
  get-retained name k s none h = ground (arith, eq_iff name k)
  get-retained name k s (some es) h = elim (Bool-cases (ltb (length (foreign es)) (length es))) [
    | inl less ↦ rw less (get-put_entries name k (foreign es) s.hooks)
    | inr all_kept ↦ rw all_kept (get-put_entries name k (foreign es) s.hooks)
  ]

  get-uninstall_hook :
      (name k : String) (s : Pass json)
      → get k (uninstall_hook json name s).hooks
        ≡ (if String_eq.test name k then stripped (get k s.hooks) else get k s.hooks)
  unfolding uninstall_hook
  get-uninstall_hook name k s =
      ground (arith, eq_iff name k, get-retained name k s (get name s.hooks) refl)

  get-each-uninstall_hook :
      (names : List String) (k : String) (s : Pass json)
      → get k (each json (uninstall_hook json) names s).hooks
        ≡ (if contains k names then stripped (get k s.hooks) else get k s.hooks)
  unfolding each contains
  get-each-uninstall_hook [] k s = refl
  get-each-uninstall_hook (name ∷ names) k s = ground (
    arith,
    eq_iff name k,
    get-uninstall_hook name k s,
    stripped_twice (get k s.hooks),
    get-each-uninstall_hook names k (uninstall_hook json name s),
  )

  module _ (object : Map → Value) (ours : is_ats json (ats_hook_entry json object) ≡ true) where
    -- The entries of an event with one of this program's.
    abbrev pub hooked : List Value → List Value
    hooked es = if any (is_ats json) es then es else es ++ ats_hook_entry json object ∷ []

    any-append : (p : Value → Bool) (xs ys : List Value) → any p (xs ++ ys) ≡ (any p xs || any p ys)
    any-append p [] ys = refl
    any-append p (x ∷ xs) ys = ground (arith, any-append p xs ys)

    any-hooked : (es : List Value) → any (is_ats json) (hooked es) ≡ true
    any-hooked es =
        ground (arith, ours, any-append (is_ats json) es (ats_hook_entry json object ∷ []))

    hooked_twice : (es : List Value) → hooked (hooked es) ≡ hooked es
    hooked_twice es = ground (arith, any-hooked es)

    foreign-hooked : (es : List Value) → foreign (hooked es) ≡ foreign es
    foreign-hooked es = ground (
      arith,
      ours,
      append-nil (foreign es),
      retain-append (λ e. not (is_ats json e)) es (ats_hook_entry json object ∷ []),
    )

    get-install_hook :
        (name k : String) (s : Pass json)
        → get k (install_hook json object name s).hooks ≡ (
            if String_eq.test name k
            then some (hooked (or_empty (get k s.hooks)))
            else get k s.hooks)
    unfolding install_hook
    get-install_hook name k s = ground (
      arith,
      eq_iff name k,
      get-insert name k (or_empty (get name s.hooks)) s.hooks,
      get-insert name k (or_empty (get name s.hooks) ++ ats_hook_entry json object ∷ []) s.hooks,
    )

    get-each-install_hook :
        (names : List String) (k : String) (s : Pass json)
        → get k (each json (install_hook json object) names s).hooks
          ≡ (if contains k names then some (hooked (or_empty (get k s.hooks))) else get k s.hooks)
    unfolding each contains
    get-each-install_hook [] k s = refl
    get-each-install_hook (name ∷ names) k s = ground (
      arith,
      eq_iff name k,
      get-install_hook name k s,
      hooked_twice (or_empty (get k s.hooks)),
      get-each-install_hook names k (install_hook json object name s),
    )

    stripped-hooked : (o : Option (List Value)) → stripped (some (hooked (or_empty o))) ≡ stripped o
    stripped-hooked none = ap unless_empty (foreign-hooked [])
    stripped-hooked (some es) = ap unless_empty (foreign-hooked es)

    -- Uninstalling the hooks from settings to which they have been installed gives, at every event,
    -- the entries that uninstalling them from the settings before gives. The program's own entry is
    -- recognised as such.
    pub uninstalled-installed :
        (settings : ClaudeSettings json) (k : String)
        → get k
            (uninstalled json
              (record settings { hooks = (installed json object settings).hooks })).hooks
          ≡ get k (uninstalled json settings).hooks
    uninstalled-installed settings k = ground (
      arith,
      stripped-hooked (get k settings.hooks),
      get-each-install_hook hook_types k (started json settings.hooks),
      get-each-uninstall_hook hook_types k (started json settings.hooks),
      get-each-uninstall_hook hook_types k (started json (installed json object settings).hooks),
    )

    pub get-installed :
        (settings : ClaudeSettings json) (k : String)
        → get k (installed json object settings).hooks ≡ (
            if contains k hook_types
            then some (hooked (or_empty (get k settings.hooks)))
            else get k settings.hooks)
    get-installed settings k = get-each-install_hook hook_types k (started json settings.hooks)

    install_hook_again :
        (name : String) (s : Pass json)
        → any (is_ats json) (or_empty (get name s.hooks)) ≡ true
        → install_hook json object name s ≡ record s {
          hooks = insert name (or_empty (get name s.hooks)) s.hooks;
          unchanged = s.unchanged ++ name ∷ [];
        }
    unfolding install_hook
    install_hook_again name s h = rw h refl

    still_hooked :
        (name k : String) (s : Pass json)
        → any (is_ats json) (or_empty (get k s.hooks)) ≡ true
        → any (is_ats json) (or_empty (get k (install_hook json object name s).hooks)) ≡ true
    still_hooked name k s h =
        ground (arith, get-install_hook name k s, any-hooked (or_empty (get k s.hooks)))

    each-install_hook_again :
        (names : List String) (s : Pass json)
        → ((k : String)
            → contains k names ≡ true
            → any (is_ats json) (or_empty (get k s.hooks)) ≡ true)
        → ((each json (install_hook json object) names s).changed ≡ s.changed)
          × ((each json (install_hook json object) names s).unchanged ≡ s.unchanged ++ names)
    unfolding each contains
    each-install_hook_again [] s h = (refl, sym (append-nil s.unchanged))
    each-install_hook_again (name ∷ names) s h =
        let first = install_hook_again name s (h name (ground (arith, eq_iff name name))) in
        let rest =
          each-install_hook_again names (install_hook json object name s)
            (λ k c. still_hooked name k s (h k (ground (arith, c)))) in
        (
          rest.0 ∙ ap (λ (p : Pass json). p.changed) first,
          rest.1
              ∙ ap (λ (p : Pass json). p.unchanged ++ names) first
              ∙ append_assoc s.unchanged (name ∷ []) names,
        )

    all_hooked :
        (settings : ClaudeSettings json) (k : String)
        → contains k hook_types ≡ true
        → any (is_ats json) (or_empty (get k (installed json object settings).hooks)) ≡ true
    all_hooked settings k c =
        ground (arith, get-installed settings k, any-hooked (or_empty (get k settings.hooks)), c)

    -- What a second installation finds.
    pub record IsComplete (settings : ClaudeSettings json) : Type 0 where
      pub none_added : (installed json object settings).changed ≡ []
      pub all_unchanged : (installed json object settings).unchanged ≡ hook_types
      pub same_hooks :
          (k : String) → get k (installed json object settings).hooks ≡ get k settings.hooks

    -- A second installation of the hooks adds none, finds all eight, and leaves the entries of
    -- every event as the first one left them. The program's own entry is recognised as such.
    pub installed-IsComplete :
        (settings : ClaudeSettings json)
        → IsComplete (record settings { hooks = (installed json object settings).hooks })
    installed-IsComplete settings = record {
      none_added = again.0;
      all_unchanged = again.1;
      same_hooks = λ k. ground (
        arith,
        get-installed settings k,
        hooked_twice (or_empty (get k settings.hooks)),
        get-installed (record settings { hooks = (installed json object settings).hooks }) k,
      );
    }
      where
        again :
            ((installed json object
                (record settings { hooks = (installed json object settings).hooks })).changed
              ≡ [])
            × ((installed json object
                  (record settings { hooks = (installed json object settings).hooks })).unchanged
                ≡ hook_types)
        again =
            each-install_hook_again hook_types (started json (installed json object settings).hooks)
              (all_hooked settings)
