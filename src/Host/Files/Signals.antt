-- ===== src/Host/Files/Signals.antt =====
-- The calls of `std::fs` send no signals.
use agent_term_status.Prelude.{◌≡◌, refl, ap, inr, String, Option, some, none, List}
use agent_term_status.Prelude.HashMap.{get}
use agent_term_status.Prelude.Int.{ℤ}
use agent_term_status.Host.{PathBuf, Host, Verdict, done, failed, Stored}
use agent_term_status.Host.Files.{
  call, judge, remove_file, removed, read_to_string, found, text_at, contents_of,
}
use agent_term_status.Host.Files.Effects.{Keeps, call-Keeps}
use agent_term_status.Host.Paths.{PathBuf_eq}
use agent_term_status.Host.Triples.{After}

abbrev pub HasSent : List ℤ → Host → Type 0
HasSent sent h = h.signalled ≡ sent

module _ (sent : List ℤ) (p : PathBuf) where
  removed-Sent : (o : Option Stored) → Keeps (HasSent sent) (λ h. removed p h o)
  removed-Sent none = λ h i. (i, inr (2, refl))
  removed-Sent (some f) = λ h i. i

  pub remove_file-Sent : Keeps (HasSent sent) (remove_file p)
  unfolding remove_file
  remove_file-Sent =
      call-Keeps (HasSent sent) _ _ (λ h n i. i) (λ h. removed-Sent (get p h.files) h) (λ n h i. i)

  -- The content that is read is that at the path.
  abbrev pub HasRead : Host → String → Host → Type 0
  HasRead h0 content h = (text_at p h0 ≡ some content) × HasSent sent h

  found-Sent :
      (h : Host) (o : Option Stored)
      → get p h.files ≡ o
      → HasSent sent h
      → After (HasRead h) (λ s h'. HasSent sent h') (found h o)
  found-Sent h none e i = i
  found-Sent h (some f) e i = (ap contents_of e, i)

  judged-Sent :
      (v : Verdict) (h : Host)
      → HasSent sent h
      → After
          (HasRead h)
          (λ s h'. HasSent sent h')
          (judge v (λ h. found h (get p h.files)) (λ n h. h) h)
  judged-Sent done h i = found-Sent h (get p h.files) refl i
  judged-Sent (failed e n) h i = i
  judged-Sent Verdict.killed h i = i

  pub read_to_string-Sent :
      (h : Host) → HasSent sent h → After (HasRead h) (λ s h'. HasSent sent h') (read_to_string p h)
  unfolding read_to_string call
  read_to_string-Sent h i = judged-Sent (h.verdict h.calls) _ i
