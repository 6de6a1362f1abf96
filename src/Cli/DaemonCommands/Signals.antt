-- ===== src/Cli/DaemonCommands/Signals.antt =====
-- What `kill_daemon` sends.
use agent_term_status.Prelude.{
  ℕ, ◌≡◌, refl, ◌⊎◌, inl, inr, ap, String, Bool, true, false, Option, some, none, List, [], ◌∷◌,
  ◌++◌, Bool-cases, nat_eq,
}
use agent_term_status.Prelude.Int.{ℤ}
use agent_term_status.Host.{PathBuf, Host, Stop, pure, attempt, ◌>>◌}
use agent_term_status.Host.Files.{read_to_string, remove_file, text_at, exists}
use agent_term_status.Host.Files.Effects.{attempt-Keeps}
use agent_term_status.Host.Files.Signals.{HasRead, HasSent, remove_file-Sent, read_to_string-Sent}
use agent_term_status.Host.Paths.{PathBuf_eq}
use agent_term_status.Host.Triples.{After, Triple, After-next, After-weaken}
use agent_term_status.Cli.DaemonCommands.{
  is_positive, after_kill, kill_pid, kill_there, kill_daemon,
}

module _ (parse : String → Option ℤ) (terminate : ℤ → Option ℕ) (pid_path : PathBuf)
    (h0 : Host) where
  -- Nothing, or one signal, to the process that the file names by a positive number.
  abbrev pub OnlyTo : Host → Type 0
  OnlyTo h =
      HasSent h0.signalled h
      ⊎ ((content : String) × (pid : ℤ) × ((text_at pid_path h0 ≡ some content)
            × ((parse content ≡ some pid)
                × ((is_positive pid ≡ true) × HasSent (h0.signalled ++ pid ∷ []) h))))

  -- A removal whose result is ignored sends nothing.
  removal :
      (sent : List ℤ)
      → Triple
          (HasSent sent)
          (attempt (remove_file pid_path) >> pure tt)
          (λ _. HasSent sent)
          (λ s. HasSent sent)
  removal sent h i =
      After-weaken (λ _. HasSent sent) (λ _. HasSent sent)
        (λ s h'. HasSent sent h' × (s ≡ Stop.killed)) (λ s. HasSent sent)
        ((attempt (remove_file pid_path) >> pure tt) h)
        (attempt-Keeps (HasSent sent) (remove_file pid_path) (remove_file-Sent sent pid_path) h i)
        (λ _ h' x. x) (λ s h' x. x.0)

  after_kill-Sent :
      (sent : List ℤ) (o : Option ℕ)
      → Triple
          (HasSent sent)
          (after_kill parse terminate pid_path o)
          (λ _. HasSent sent)
          (λ s. HasSent sent)
  after_kill-Sent sent none = λ h i. i
  after_kill-Sent sent (some e) = λ h i. elim (Bool-cases (nat_eq e 3)) [
    | inl gone ↦ rw gone (removal sent h i)
    | inr other ↦ rw other i
  ]

  kill_pid-OnlyTo :
      (content : String) (o : Option ℤ)
      → text_at pid_path h0 ≡ some content
      → parse content ≡ o
      → Triple
          (HasSent h0.signalled)
          (kill_pid parse terminate pid_path o)
          (λ _. OnlyTo)
          (λ s. OnlyTo)
  kill_pid-OnlyTo content none t e = λ h i. inl i
  kill_pid-OnlyTo content (some pid) t e = λ h i. elim (Bool-cases (is_positive pid)) [
    | inl positive ↦ rw positive (
        After-weaken (λ _. HasSent (h0.signalled ++ pid ∷ [])) (λ _. OnlyTo)
          (λ s. HasSent (h0.signalled ++ pid ∷ [])) (λ s. OnlyTo)
          (after_kill parse terminate pid_path (terminate pid)
            (record h { signalled = h.signalled ++ pid ∷ [] }))
          (after_kill-Sent (h0.signalled ++ pid ∷ []) (terminate pid)
            (record h { signalled = h.signalled ++ pid ∷ [] }) (ap (λ l. l ++ pid ∷ []) i))
          (λ _ h' x. inr (content, pid, (t, (e, (positive, x)))))
          (λ s h' x. inr (content, pid, (t, (e, (positive, x))))))
    | inr other ↦ rw other (
        After-weaken (λ _. HasSent h0.signalled) (λ _. OnlyTo) (λ s. HasSent h0.signalled)
          (λ s. OnlyTo) ((attempt (remove_file pid_path) >> pure tt) h) (removal h0.signalled h i)
          (λ _ h' x. inl x) (λ s h' x. inl x))
  ]

  kill_there-OnlyTo :
      (there : Bool)
      → After (λ _. OnlyTo) (λ s. OnlyTo) (kill_there parse terminate pid_path there h0)
  kill_there-OnlyTo false = inl refl
  kill_there-OnlyTo true =
      After-next (HasRead h0.signalled pid_path h0) (λ _. OnlyTo) (λ s. OnlyTo)
        (λ content. kill_pid parse terminate pid_path (parse content)) (read_to_string pid_path h0)
        (λ content h r. kill_pid-OnlyTo content (parse content) r.0 refl h r.1)
        (After-weaken (HasRead h0.signalled pid_path h0) (HasRead h0.signalled pid_path h0)
          (λ s. HasSent h0.signalled) (λ s. OnlyTo) (read_to_string pid_path h0)
          (read_to_string-Sent h0.signalled pid_path h0 refl) (λ c h r. r) (λ s h x. inl x))

  -- Whether kill_daemon ends or stops, and whatever its calls answer, it has sent no signal, or
  -- one, to the process whose number the PID file names, and that number is positive.
  pub kill_daemon-OnlyTo :
      After (λ _. OnlyTo) (λ s. OnlyTo) (kill_daemon parse terminate pid_path h0)
  unfolding kill_daemon
  kill_daemon-OnlyTo = kill_there-OnlyTo (exists pid_path h0)
