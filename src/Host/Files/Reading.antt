-- ===== src/Host/Files/Reading.antt =====
-- What an attempt to read a file gives, by what stood in the file when a program began.
use agent_term_status.Prelude.{
  ℕ, ◌+◌, ◌≡◌, refl, sym, ap, ◌∙◌, String, Option, some, none, Result, ok, err,
}
use agent_term_status.Prelude.HashMap.{get}
use agent_term_status.Host.{PathBuf, Host, Verdict, done, failed, Stored, attempt, caught}
use agent_term_status.Host.Files.{read_to_string, call, judge, found, text_at, contents_of}
use agent_term_status.Host.Files.Effects.{Same}
use agent_term_status.Host.Paths.{PathBuf_eq}
use agent_term_status.Host.Triples.{After, Triple}

module _ (h0 : Host) where
  -- Every file is as it was, and so is what the calls will answer.
  abbrev pub Quiet : Host → Type 0
  Quiet h = Same (λ _. Unit {0}) h0 h × (h.verdict ≡ h0.verdict)

  abbrev pub Fails : Type 0
  Fails = (n : ℕ) × (e : ℕ) × (m : ℕ) × (h0.verdict n ≡ failed e m)

  -- What is read of a file: its contents, or an error where it has none or the call fails.
  pub data Read (p : PathBuf) : Result String ℕ → Type 0 where
    contents : {c : String} → text_at p h0 ≡ some c → Read p (ok c)
    missing : {e : ℕ} → text_at p h0 ≡ none → Read p (err e)
    refused : {e : ℕ} → Fails → Read p (err e)

  found-Read :
      (p : PathBuf) (h : Host) (o : Option Stored)
      → get p h.files ≡ o
      → Quiet h
      → After (λ r h'. Read p r × Quiet h') (λ _. Quiet) (caught (found h o))
  found-Read p h none e q = (missing (sym (q.0 p tt) ∙ ap contents_of e), q)
  found-Read p h (some f) e q = (contents (sym (q.0 p tt) ∙ ap contents_of e), q)

  judged-Read :
      (p : PathBuf) (v : Verdict) (n : ℕ) (h : Host)
      → h0.verdict n ≡ v
      → Quiet h
      → After
          (λ r h'. Read p r × Quiet h')
          (λ _. Quiet)
          (caught (judge v (λ h. found h (get p h.files)) (λ _ h. h) h))
  judged-Read p done n h e q = found-Read p h (get p h.files) refl q
  judged-Read p (failed k m) n h e q = (refused (n, k, m, e), q)
  judged-Read p Verdict.killed n h e q = q

  pub read_to_string-Read :
      (p : PathBuf)
      → Triple Quiet (attempt (read_to_string p)) (λ r h. Read p r × Quiet h) (λ _. Quiet)
  unfolding read_to_string call
  read_to_string-Read p h q =
      judged-Read p (h.verdict h.calls) h.calls (record h { calls = h.calls + 1 })
        (ap (λ v. v h.calls) (sym q.1)) q
