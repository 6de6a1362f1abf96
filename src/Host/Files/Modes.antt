-- ===== src/Host/Files/Modes.antt =====
-- What the calls of `std::fs` do to the permission bits at a path.
use agent_term_status.Prelude.{ℕ, ◌≡◌, ◌≢◌, refl, Option, some, none, Bool, true, false, inr, arith}
use agent_term_status.Prelude.HashMap.{get, get-insert, get-remove}
use agent_term_status.Host.{PathBuf, Verdict, done, failed, Stored, Host}
use agent_term_status.Host.Paths.{PathBuf_eq, same_path_iff}
use agent_term_status.Host.Files.{
  call, judge, mode, mode_at, found_mode, remove_file, removed, bind_socket, listened,
  set_permissions, set_mode, exists,
}
use agent_term_status.Host.Files.Effects.{Keeps, call-Keeps}
use agent_term_status.Host.Triples.{After, Triple}

abbrev pub IsMode : PathBuf → ℕ → Host → Type 0
IsMode p m h = mode_at p h ≡ some m

-- The mode that is read is that at the path.
module _ (p : PathBuf) where
  found_mode-After :
      (h : Host) (o : Option ℕ)
      → mode_at p h ≡ o
      → After (λ m. IsMode p m) (λ s h'. Unit {0}) (found_mode h o)
  found_mode-After h none e = tt
  found_mode-After h (some m) e = e

  judged-IsMode :
      (v : Verdict) (h : Host)
      → After
          (λ m. IsMode p m)
          (λ s h'. Unit {0})
          (judge v (λ h. found_mode h (mode_at p h)) (λ n h. h) h)
  judged-IsMode done h = found_mode-After h (mode_at p h) refl
  judged-IsMode (failed e n) h = tt
  judged-IsMode Verdict.killed h = tt

  pub mode-Triple : Triple (λ h. Unit {0}) (mode p) (λ m. IsMode p m) (λ s h. Unit {0})
  unfolding mode call
  mode-Triple h u = judged-IsMode (h.verdict h.calls) _

-- The calls on one path leave the mode at another.
module _ (p q : PathBuf) (m : ℕ) (apart : p ≢ q) where
  removed-Mode : (o : Option Stored) → Keeps (IsMode q m) (λ h. removed p h o)
  removed-Mode none = λ h i. (i, inr (2, refl))
  removed-Mode (some f) = λ h i. ground (arith, i, get-remove p q h.files, same_path_iff p q, apart)

  pub remove_file-Mode : Keeps (IsMode q m) (remove_file p)
  unfolding remove_file
  remove_file-Mode =
      call-Keeps (IsMode q m) _ _ (λ h n i. i) (λ h. removed-Mode (get p h.files) h) (λ n h i. i)

  listened-Mode : (b : Bool) → Keeps (IsMode q m) (λ h. listened p h b)
  listened-Mode true = λ h i. (i, inr (98, refl))
  listened-Mode false = λ h i. ground (
    arith,
    i,
    get-insert p q (record { contents = ""; mode = h.file_mode }) h.files,
    same_path_iff p q,
    apart,
  )

  pub bind_socket-Mode : Keeps (IsMode q m) (bind_socket p)
  unfolding bind_socket
  bind_socket-Mode =
      call-Keeps (IsMode q m) _ _ (λ h n i. i) (λ h. listened-Mode (exists p h) h) (λ n h i. i)

  set_mode-Mode :
      (n : ℕ) (d : Option ℕ) (f : Option Stored) → Keeps (IsMode q m) (λ h. set_mode p n h d f)
  set_mode-Mode n (some k) f =
      λ h i. ground (arith, i, get-insert p q n h.dirs, same_path_iff p q, apart)
  set_mode-Mode n none (some f) = λ h i.
      ground (arith, i, get-insert p q (record f { mode = n }) h.files, same_path_iff p q, apart)
  set_mode-Mode n none none = λ h i. (i, inr (2, refl))

  pub set_permissions-Mode : (n : ℕ) → Keeps (IsMode q m) (set_permissions p n)
  unfolding set_permissions
  set_permissions-Mode n =
      call-Keeps (IsMode q m) _ _ (λ h k i. i)
        (λ h. set_mode-Mode n (get p h.dirs) (get p h.files) h) (λ k h i. i)

-- The mode that is set is that at the path.
module _ (p : PathBuf) (n : ℕ) where
  set_mode-After :
      (h : Host) (d : Option ℕ) (f : Option Stored)
      → get p h.dirs ≡ d
      → get p h.files ≡ f
      → After (λ _. IsMode p n) (λ s h'. Unit {0}) (set_mode p n h d f)
  set_mode-After h (some k) f ed ef = ground (arith, get-insert p p n h.dirs, same_path_iff p p)
  set_mode-After h none (some f) ed ef =
      ground (arith, ed, get-insert p p (record f { mode = n }) h.files, same_path_iff p p)
  set_mode-After h none none ed ef = tt

  judged-set :
      (v : Verdict) (h : Host)
      → After
          (λ _. IsMode p n)
          (λ s h'. Unit {0})
          (judge v (λ h. set_mode p n h (get p h.dirs) (get p h.files)) (λ k h. h) h)
  judged-set done h = set_mode-After h (get p h.dirs) (get p h.files) refl refl
  judged-set (failed e k) h = tt
  judged-set Verdict.killed h = tt

  pub set_permissions-Triple :
      Triple (λ h. Unit {0}) (set_permissions p n) (λ _. IsMode p n) (λ s h. Unit {0})
  unfolding set_permissions call
  set_permissions-Triple h u = judged-set (h.verdict h.calls) _
