-- ===== src/Host/Files/Effects.antt =====
-- What the calls of `std::fs` leave as it is, whether they are done or not.
use agent_term_status.Prelude.{
  ◌+◌, ℕ, ◌≡◌, refl, sym, ap, ◌∙◌, ◌≢◌, ◌⊎◌, inl, inr, String, Option, some, none, if◌then◌else◌,
  Result, ok, err, arith,
}
use agent_term_status.Prelude.HashMap.{get, get-insert, get-insert_ne, get-remove}
use agent_term_status.Host.{
  PathBuf, Verdict, done, failed, Stored, Host, Stop, io, Run, caught, attempt, pure, ◌>>◌,
}
use agent_term_status.Host.Paths.{PathBuf_eq, same_path, same_path_iff}
use agent_term_status.Host.Files.{
  call, judge, put, put_file, found, copied, half_copied, removed, create_dir_all, copy,
  remove_file, text_at, contents_of, read_to_string,
}
use agent_term_status.Host.Triples.{After, Triple}

-- How a call ends that is not done.
abbrev pub IsFault : Stop → Type 0
IsFault s = (s ≡ Stop.killed) ⊎ ((e : ℕ) × (s ≡ io e))

-- A program after which a predicate that held before still holds, and which stops by faults only.
abbrev pub Keeps : {A : Type 0} → (Host → Type 0) → Run A → Type 0
Keeps I m = Triple I m (λ _ h. I h) (λ s h. I h × IsFault s)

judge-Keeps :
    {A : Type 0} (I : Host → Type 0) (v : Verdict) (act : Host → Host × Result A Stop)
    (partial : ℕ → Host → Host)
    → Keeps I act
    → ((n : ℕ) (h : Host) → I h → I (partial n h))
    → Keeps I (judge v act partial)
judge-Keeps I done act partial k p h i = k h i
judge-Keeps I (failed e n) act partial k p h i = (p n h i, inr (e, refl))
judge-Keeps I Verdict.killed act partial k p h i = (i, inl refl)

pub call-Keeps :
    {A : Type 0} (I : Host → Type 0) (act : Host → Host × Result A Stop) (partial : ℕ → Host → Host)
    → ((h : Host) (n : ℕ) → I h → I (record h { calls = n }))
    → Keeps I act
    → ((n : ℕ) (h : Host) → I h → I (partial n h))
    → Keeps I (call act partial)
unfolding call
call-Keeps I act partial c k p h i = judge-Keeps I (h.verdict h.calls) act partial k p _ (c h _ i)

-- A call whose result is ignored stops only where the process is killed.
pub attempt-Keeps :
    {A : Type 0} (I : Host → Type 0) (m : Run A)
    → Keeps I m
    → Triple I (attempt m >> pure tt) (λ _ h. I h) (λ s h. I h × (s ≡ Stop.killed))
attempt-Keeps {A} I m k h i = ended (m h) (k h i)
  where
    ended :
        (r : Host × Result A Stop)
        → After (λ _ h. I h) (λ s h. I h × IsFault s) r
        → After (λ _ h. I h) (λ s h. I h × (s ≡ Stop.killed)) (((λ _. caught r) >> pure tt) h)
    ended (h', ok a) j = j
    ended (h', err Stop.killed) j = (j.0, refl)
    ended (h', err (io e)) j = j.0
    ended (h', err (Stop.message s)) j = absurd (elim j.1 [ inl e ↦ cc e | inr e ↦ cc e.1 ])
    ended (h', err (Stop.exit n)) j = absurd (elim j.1 [ inl e ↦ cc e | inr e ↦ cc e.1 ])

-- A predicate that only looks at what stands at some paths.
module _ (P : PathBuf → Type 0) (h0 : Host) where
  abbrev pub Same : Host → Type 0
  Same h = (q : PathBuf) → P q → text_at q h ≡ text_at q h0

  pub create_dir_all-Keeps : (p : PathBuf) → Keeps Same (create_dir_all p)
  unfolding create_dir_all
  create_dir_all-Keeps p = call-Keeps Same _ _ (λ h n i. i) (λ h i. i) (λ n h i. i)

  found-Keeps : (o : Option Stored) → Keeps Same (λ h. found h o)
  found-Keeps none h i = (i, inr (_, refl))
  found-Keeps (some f) h i = i

  pub read_to_string-Keeps : (p : PathBuf) → Keeps Same (read_to_string p)
  unfolding read_to_string
  read_to_string-Keeps p =
      call-Keeps Same _ _ (λ h n i. i) (λ h. found-Keeps (get p h.files) h) (λ n h i. i)

  module _ (p : PathBuf) (out : (q : PathBuf) → P q → p ≢ q) where
    copied-Keeps : (o : Option Stored) → Keeps Same (λ h. copied p h o)
    copied-Keeps none h i = (i, inr (_, refl))
    copied-Keeps (some f) h i = λ q t. rw (get-insert_ne p q f h.files (out q t)) (i q t)

    half_copied-Same : (o : Option Stored) (n : ℕ) (h : Host) → Same h → Same (half_copied p n h o)
    half_copied-Same none n h i = i
    half_copied-Same (some f) n h i = λ q t. rw (get-insert_ne p q _ h.files (out q t)) (i q t)

    pub copy-Keeps : (from : PathBuf) → Keeps Same (copy from p)
    unfolding copy
    copy-Keeps from =
        call-Keeps Same _ _ (λ h n i. i) (λ h. copied-Keeps (get from h.files) h)
          (λ n h. half_copied-Same (get from h.files) n h)

    removed-Keeps : (o : Option Stored) → Keeps Same (λ h. removed p h o)
    removed-Keeps none h i = (i, inr (_, refl))
    removed-Keeps (some f) h i =
        λ q t. ground (arith, get-remove p q h.files, same_path_iff p q, out q t, i q t)

    pub remove_file-Keeps : Keeps Same (remove_file p)
    unfolding remove_file
    remove_file-Keeps =
        call-Keeps Same _ _ (λ h n i. i) (λ h. removed-Keeps (get p h.files) h) (λ n h i. i)

-- What is read is what a reader finds.
module _ (p : PathBuf) (h0 : Host) where
  abbrev AllSame : Host → Type 0
  AllSame = Same (λ _. Unit {0}) h0

  abbrev Read : String → Host → Type 0
  Read content h = (text_at p h0 ≡ some content) × AllSame h

  found-Triple :
      (h : Host) (o : Option Stored)
      → get p h.files ≡ o
      → AllSame h
      → After Read (λ _. AllSame) (found h o)
  found-Triple h none e i = i
  found-Triple h (some f) e i = (sym (i p tt) ∙ ap contents_of e, i)

  judged-Triple :
      (v : Verdict)
      → Triple AllSame (judge v (λ h. found h (get p h.files)) (λ _ h. h)) Read (λ _. AllSame)
  judged-Triple done h i = found-Triple h (get p h.files) refl i
  judged-Triple (failed e n) h i = i
  judged-Triple Verdict.killed h i = i

  pub read_to_string-Triple : Triple AllSame (read_to_string p) Read (λ _. AllSame)
  unfolding read_to_string call
  read_to_string-Triple h i = judged-Triple (h.verdict h.calls) _ i

-- One call, by what it does where it is done and what it leaves where it is not.
judge-After :
    {A : Type 0} (v : Verdict) (Q : A → Host → Type 0) (I : Host → Type 0)
    (act : Host → Host × Result A Stop) (partial : ℕ → Host → Host) (h : Host)
    → After Q (λ s h'. I h' × IsFault s) (act h)
    → I h
    → ((n : ℕ) → I (partial n h))
    → After Q (λ s h'. I h' × IsFault s) (judge v act partial h)
judge-After done Q I act partial h a i p = a
judge-After (failed e n) Q I act partial h a i p = (p n, inr (e, refl))
judge-After Verdict.killed Q I act partial h a i p = (i, inl refl)

abbrev pub counted : Host → Host
counted h = record h { calls = h.calls + 1 }

pub call-After :
    {A : Type 0} (Q : A → Host → Type 0) (I : Host → Type 0) (act : Host → Host × Result A Stop)
    (partial : ℕ → Host → Host) (h : Host)
    → After Q (λ s h'. I h' × IsFault s) (act (counted h))
    → I (counted h)
    → ((n : ℕ) → I (partial n (counted h)))
    → After Q (λ s h'. I h' × IsFault s) (call act partial h)
unfolding call
call-After Q I act partial h a i p =
    judge-After (h.verdict h.calls) Q I act partial (counted h) a i p

put-text :
    (p q : PathBuf) (s : String) (h : Host) (o : Option Stored)
    → text_at q (put p s o h) ≡ (if same_path p q then some s else text_at q h)
put-text p q s h none =
    ground (arith, get-insert p q (record { contents = s; mode = h.file_mode }) h.files)
put-text p q s h (some f) = ground (arith, get-insert p q (record f { contents = s }) h.files)

pub put_file-text :
    (p q : PathBuf) (s : String) (h : Host)
    → text_at q (put_file p s h) ≡ (if same_path p q then some s else text_at q h)
put_file-text p q s h = put-text p q s h (get p h.files)
