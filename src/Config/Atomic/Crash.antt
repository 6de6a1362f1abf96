-- ===== src/Config/Atomic/Crash.antt =====
-- `atomic_write` where a call fails or the process is killed.
use agent_term_status.Prelude.{
  ◌≡◌, refl, ◌∙◌, ◌≢◌, ◌⊎◌, inl, inr, String, Bool, true, false, some, Result, ok, err,
}
use agent_term_status.Host.{PathBuf, Host, Stop, io, Run, pure, attempt, when, ◌>>=◌, ◌>>◌}
use agent_term_status.Host
use agent_term_status.Host.Paths.{dir_of, with_extension}
use agent_term_status.Host.Files.{create_dir_all, copy, remove_file, look, exists, text_at}
use agent_term_status.Host.Files.Effects.{
  IsFault, Same, Keeps, create_dir_all-Keeps, copy-Keeps, remove_file-Keeps, attempt-Keeps,
}
use agent_term_status.Host.Triples.{After, Triple, After-weaken, bind-Triple}
use agent_term_status.Config.Atomic.{
  Tempfile, IsLawful, Apart, Failed, Made, Written, Synced, Persisted, ignore, dropped, filled,
  swap, replace_file, atomic_write,
}

module _ (is_temp : PathBuf → Bool) (extension : String) (path : PathBuf) (content : String)
    (h0 : Host) where
  -- The files that are not temporary, and not the backup.
  abbrev pub IsKept : PathBuf → Type 0
  IsKept q = (is_temp q ≡ false) × (with_extension path extension ≢ q)

  abbrev pub Old : Host → Type 0
  Old = Same IsKept h0

  -- The file has the new contents; the others are as they were.
  abbrev pub New : Host → Type 0
  New h = (text_at path h ≡ some content) × Same (λ q. IsKept q × (path ≢ q)) h0 h

  -- Only a process that is killed stops with the new contents.
  abbrev pub Stopped : Stop → Host → Type 0
  Stopped s h = Old h ⊎ ((s ≡ Stop.killed) × New h)

module _ (tempfile : Tempfile) (is_temp : PathBuf → Bool) (lawful : IsLawful tempfile is_temp)
    (extension : String) (path : PathBuf) (content : String) (h0 : Host)
    (path_apart : is_temp path ≡ false) (bak_apart : with_extension path extension ≢ path) where
  abbrev bak : PathBuf
  bak = with_extension path extension

  abbrev IsOther : PathBuf → Type 0
  IsOther = IsKept is_temp extension path content h0

  abbrev Before : Host → Type 0
  Before = Old is_temp extension path content h0

  abbrev Now : Host → Type 0
  Now = New is_temp extension path content h0

  abbrev Halted : Stop → Host → Type 0
  Halted = Stopped is_temp extension path content h0

  kept : (h h' : Host) → Before h → Apart is_temp h h' → Before h'
  kept h h' o a q k = a q k.0 ∙ o q k

  -- A part that keeps the old contents where it stops.
  settled :
      {A : Type 0} (Q Q' : A → Host → Type 0) (E : Stop → Host → Type 0) (r : Host × Result A Stop)
      → After Q E r
      → ((s : Stop) (h' : Host) → E s h' → Before h')
      → ((a : A) (h' : Host) → Q a h' → Q' a h')
      → After Q' Halted r
  settled Q Q' E r a f g = After-weaken Q Q' E Halted r a g (λ s h' x. inl (f s h' x))

  Keeps-Before : {A : Type 0} (m : Run A) → Keeps Before m → Triple Before m (λ _. Before) Halted
  Keeps-Before m k h o =
      settled (λ _. Before) (λ _. Before) (λ s h'. Before h' × IsFault s) (m h) (k h o)
        (λ s h' x. x.0) (λ _ h' x. x)

  ignored : (m : Run (Unit {0})) → Keeps Before m → Triple Before (ignore m) (λ _. Before) Halted
  ignored m k h o =
      settled (λ _. Before) (λ _. Before) (λ s h'. Before h' × (s ≡ Stop.killed)) (ignore m h)
        (attempt-Keeps Before m k h o) (λ s h' x. x.0) (λ _ h' x. x)

  backed_up : (b : Bool) → Triple Before (when b (ignore (copy path bak))) (λ _. Before) Halted
  backed_up true = ignored _ (copy-Keeps IsOther h0 bak (λ q k. k.1) path)
  backed_up false = λ h o. o

  abbrev Has : String → PathBuf → Host → Type 0
  Has text p h = ((is_temp p ≡ true) × (text_at p h ≡ some text)) × Before h

  -- What follows a call of the library.
  called :
      {A : Type 0} (Q Q' : A → Host → Type 0) (h : Host) (r : Host × Result A Stop)
      → Before h
      → After Q (Failed is_temp h) r
      → ((a : A) (h' : Host) → Q a h' → Q' a h')
      → After Q' Halted r
  called Q Q' h r o a = settled Q Q' (Failed is_temp h) r a (λ s h' x. kept h h' o x.0)

  made : (d : PathBuf) → Triple Before (tempfile.new_in d) (Has "") Halted
  made d h o =
      called (Made is_temp h) (Has "") h (tempfile.new_in d h) o (lawful.new_in_lem d h)
        (λ p h' x. ((x.0, x.1.0), kept h h' o x.1.1))

  written :
      (p : PathBuf) → Triple (Has "" p) (tempfile.write_all p content) (λ _. Has content p) Halted
  written p h o =
      called (Written is_temp p content h) (λ _. Has content p) h (tempfile.write_all p content h)
        o.1 (lawful.write_all_lem p content h o.0.0 o.0.1)
        (λ _ h' x. ((o.0.0, x.0), kept h h' o.1 x.1))

  synced : (p : PathBuf) → Triple (Has content p) (tempfile.sync_all p) (λ _. Has content p) Halted
  synced p h o =
      called (Synced is_temp p h) (λ _. Has content p) h (tempfile.sync_all p h) o.1
        (lawful.sync_all_lem p h) (λ _ h' x. ((o.0.0, x.0 ∙ o.0.1), kept h h' o.1 x.1))

  persisted : (p : PathBuf) → Triple (Has content p) (tempfile.persist p path) (λ _. Now) Halted
  persisted p h o =
      called (Persisted is_temp p path h) (λ _. Now) h (tempfile.persist p path h) o.1
        (lawful.persist_lem p path h o.0.0)
        (λ _ h' x. (x.0 ∙ o.0.1, λ q k. x.1 q k.0.0 k.1 ∙ o.1 q k.0))

  close-Keeps : (p : PathBuf) → is_temp p ≡ true → Keeps Before (tempfile.close p)
  close-Keeps p t h o =
      After-weaken (λ _. Apart is_temp h) (λ _. Before) (Failed is_temp h)
        (λ s h'. Before h' × IsFault s) (tempfile.close p h) (lawful.close_lem p h t)
        (λ _ h' x. kept h h' o x) (λ s h' x. (kept h h' o x.0, x.1))

  closed :
      (p : PathBuf) (s : Stop)
      → is_temp p ≡ true
      → Triple Before (ignore (tempfile.close p) >> Host.stop {A = Unit {0}} s) (λ _. Now) Halted
  closed p s t =
      bind-Triple Before (λ _. Before) (λ _. Now) Halted (ignore (tempfile.close p))
        (λ _. Host.stop {A = Unit {0}} s) (ignored (tempfile.close p) (close-Keeps p t))
        (λ _ h o. inl o)

  old_of : (s : Stop) (h : Host) → s ≢ Stop.killed → Halted s h → Before h
  old_of s h ne (inl o) = o
  old_of s h ne (inr x) = absurd (ne x.0)

  After-drop :
      (p : PathBuf) (r : Host × Result (Unit {0}) Stop)
      → is_temp p ≡ true
      → After (λ _. Now) Halted r
      → After (λ _. Now) Halted (dropped tempfile p r)
  After-drop p (h, ok u) t a = a
  After-drop p (h, err Stop.killed) t a = a
  After-drop p (h, err (io e)) t a = closed p (io e) t h (old_of _ h (λ k. cc k) a)
  After-drop p (h, err (Stop.message m)) t a =
      closed p (Stop.message m) t h (old_of _ h (λ k. cc k) a)
  After-drop p (h, err (Stop.exit n)) t a = closed p (Stop.exit n) t h (old_of _ h (λ k. cc k) a)

  filled-Triple :
      (p : PathBuf) → Triple (Has "" p) (filled tempfile path content p) (λ _. Now) Halted
  filled-Triple p h o = After-drop p _ o.0.0 (
      bind-Triple (Has "" p) (λ _. Has content p) (λ _. Now) Halted (tempfile.write_all p content)
        (λ _. tempfile.sync_all p >> tempfile.persist p path) (written p)
        (λ _.
          bind-Triple (Has content p) (λ _. Has content p) (λ _. Now) Halted (tempfile.sync_all p)
            (λ _. tempfile.persist p path) (synced p) (λ _. persisted p))
        h o)

  -- All but the backup is as it is in a state.
  abbrev Since : Host → Host → Type 0
  Since = Same (λ q. bak ≢ q)

  still : (h h' : Host) → Now h → Since h h' → Now h'
  still h h' n x = (x path bak_apart ∙ n.0, λ q k. x q k.0.1 ∙ n.1 q k)

  unbacked : Triple Now (ignore (remove_file bak)) (λ _. Now) Halted
  unbacked h n =
      After-weaken (λ _. Since h) (λ _. Now) (λ s h'. Since h h' × (s ≡ Stop.killed)) Halted
        (ignore (remove_file bak) h)
        (attempt-Keeps (Since h) (remove_file bak)
          (remove_file-Keeps (λ q. bak ≢ q) h bak (λ q k. k)) h (λ q k. refl))
        (λ _ h'. still h h' n) (λ s h' x. inr (x.1, still h h' n x.0))

  swapped : Triple Before (swap tempfile extension path content) (λ _. Now) Halted
  swapped =
      bind-Triple Before (Has "") (λ _. Now) Halted (tempfile.new_in (dir_of path))
        (λ p. filled tempfile path content p >> ignore (remove_file bak)) (made (dir_of path))
        (λ p.
          bind-Triple (Has "" p) (λ _. Now) (λ _. Now) Halted (filled tempfile path content p)
            (λ _. ignore (remove_file bak)) (filled-Triple p) (λ _. unbacked))

  pub replaced : Triple Before (replace_file tempfile extension path content) (λ _. Now) Halted
  unfolding replace_file
  replaced =
      bind-Triple Before (λ _. Before) (λ _. Now) Halted (create_dir_all (dir_of path)) rest
        (Keeps-Before (create_dir_all (dir_of path))
          (create_dir_all-Keeps IsOther h0 (dir_of path)))
        (λ _ h.
          bind-Triple Before (λ _. Before) (λ _. Now) Halted (when (exists path h) save)
            (λ _. swap tempfile extension path content) (backed_up (exists path h)) (λ _. swapped)
            h)
    where
      save : Run (Unit {0})
      save = ignore (copy path bak)

      rest : Unit {0} → Run (Unit {0})
      rest _ = do there ← look path; when there save; swap tempfile extension path content

-- Whether atomic_write ends, a call of it fails or the process is killed between its calls, the
-- file has its old contents or the whole new text: the new text where it ends, the old contents
-- where a call fails, either where the process is killed; no other file changes, temporary files
-- and the backup aside. The file is not a temporary one or its own backup, and the library for
-- temporary files changes no other file and puts the whole file in place or leaves the old one.
pub atomic_write-Atomic :
    (tempfile : Tempfile) (is_temp : PathBuf → Bool)
    → IsLawful tempfile is_temp
    → (path : PathBuf) (content : String) (h : Host) → is_temp path ≡ false
    → with_extension path "yaml.bak" ≢ path
    → After
        (λ _. New is_temp "yaml.bak" path content h)
        (Stopped is_temp "yaml.bak" path content h)
        (atomic_write tempfile path content h)
unfolding atomic_write
atomic_write-Atomic tempfile is_temp lawful path content h path_apart apart =
    replaced tempfile is_temp lawful "yaml.bak" path content h path_apart apart h (λ q k. refl)
