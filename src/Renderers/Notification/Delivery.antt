-- ===== src/Renderers/Notification/Delivery.antt =====
-- `render` of crates/ats-renderer-notification/src/lib.rs: when a notification is delivered.
use agent_term_status.Prelude.{
  ◌+◌, ◌*◌, ◌≤◌, String, String_eq, true, false, Option, some, none, List, [], ◌∷◌, ◌++◌, Result,
  ok, ◌≡◌, ◌≢◌, ◌⊎◌, ◌↔◌, inl, inr, refl, Bool-cases, arith, any, str_eq, is_empty, if◌then◌else◌,
  ◌==◌,
}
use agent_term_status.Prelude.Time.{DateTime}
use agent_term_status.Prelude.HashMap.{get, insert}
use agent_term_status.Core.{AgentState, attention, risk, result, error}
use agent_term_status.Core.Equality.{AgentState_eq, state_eq_iff}
use agent_term_status.Config.Theme.{agent_state_to_theme_key}
use agent_term_status.Renderer.{StateView, RendererError}
use agent_term_status.Rendering.Policy.{NaiveTime}
use agent_term_status.Renderers.Process.{Exit, exited, not_run, Outside, run_command}
use agent_term_status.Renderers.Notification.{
  NotificationRenderer, NotificationKey, NotificationKey_eq, World, should_notify, is_quiet_hours,
  quiet_hours_allows, too_soon, is_debounced, build_title, build_body, build_sound, command,
  send_notification, sent, deliver, ignore, render,
}

abbrev pub key_of : StateView → NotificationKey
key_of view = record { state = view.state; session_id = view.target.session_id }

-- A state that the user is told of.
abbrev pub IsLoud : AgentState → Type 0
IsLoud s = (s ≡ attention) ⊎ ((s ≡ risk) ⊎ ((s ≡ result) ⊎ (s ≡ error)))

-- Outside the quiet hours, or a state that they let through: RISK where none is listed.
abbrev pub IsAllowed : NotificationRenderer → AgentState → NaiveTime → Type 0
IsAllowed r s time =
    (is_quiet_hours r time ≡ false)
    ⊎ (((r.quiet_hours_states ≡ []) × (s ≡ risk))
        ⊎ (any (λ k. str_eq k (agent_state_to_theme_key s)) r.quiet_hours_states ≡ true))

-- The last notification of this state and session is long enough ago.
abbrev pub IsRested : AgentState → DateTime → Option DateTime → Type 0
IsRested s now none = Unit
IsRested s now (some prev) =
    ((s ≡ result) × (prev + 30 * 1_000_000_000 ≤ now))
    ⊎ ((s ≢ result) × (prev + 10 * 1_000_000_000 ≤ now))

pub record IsWanted (r : NotificationRenderer) (view : StateView) (time : NaiveTime)
    (now : DateTime) : Type 0 where
  pub loud : IsLoud view.state
  pub allowed : IsAllowed r view.state time
  pub rested : IsRested view.state now (get (key_of view) r.last_notify)

should_notify_iff : (s : AgentState) → (should_notify s ≡ true) ↔ IsLoud s
unfolding should_notify
should_notify_iff s = ground arith

states_iff :
    (l : List String) (s : AgentState)
    → ((if is_empty l then s == risk else any (λ k. str_eq k (agent_state_to_theme_key s)) l)
        ≡ true)
      ↔ (((l ≡ []) × (s ≡ risk)) ⊎ (any (λ k. str_eq k (agent_state_to_theme_key s)) l ≡ true))
states_iff [] s = ground (arith, state_eq_iff s risk)
states_iff (k ∷ l) s = (λ h. inr h, λ h. elim h [ inl (p, q) ↦ absurd (cc p) | inr a ↦ a ])

quiet_hours_allows_iff :
    (r : NotificationRenderer) (s : AgentState) (time : NaiveTime)
    → (quiet_hours_allows r s time ≡ true) ↔ IsAllowed r s time
unfolding quiet_hours_allows
quiet_hours_allows_iff r s time =
    let listed = states_iff r.quiet_hours_states s in
    elim (Bool-cases (is_quiet_hours r time)) [
      | inr day ↦ rw day (λ _. inl refl, λ _. refl)
      | inl night ↦
          rw night
            (λ h. inr (listed.0 h), λ h. elim h [ inl p ↦ absurd (cc p) | inr a ↦ listed.1 a ])
    ]

too_soon_iff :
    (s : AgentState) (now : DateTime) (last : Option DateTime)
    → (too_soon s now last ≡ false) ↔ IsRested s now last
too_soon_iff s now none = ground arith
too_soon_iff s now (some prev) = ground arith

sent-result :
    (trim : String → String) (w : Outside) (e : Exit) → ignore (sent trim (w, e)) ≡ (w, ok tt)
sent-result trim w (not_run reason) = refl
sent-result trim w (exited true out stderr) = refl
sent-result trim w (exited false out stderr) = refl

module _ (trim : String → String) (view : StateView) (time : NaiveTime) (now later : DateTime)
    (r : NotificationRenderer) (w : Outside) where
  abbrev pub noted : NotificationRenderer
  noted = record r { last_notify = insert (key_of view) later r.last_notify }

  -- The call of the notifier for this view.
  abbrev pub call : List String
  call =
      command noted (build_title noted view.state) (build_body noted view.state view.label)
        (build_sound view.state)

  pub data Delivers : World × Result (Unit {0}) RendererError → Type 0 where
    told :
        {w' : Outside}
        → IsWanted r view time now
        → w'.log ≡ w.log ++ call ∷ []
        → Delivers ((noted, w'), ok tt)
    silent : (IsWanted r view time now → ⊥) → Delivers ((r, w), ok tt)

  delivered : deliver trim view noted w ≡ ((run_command call w).0, ok tt)
  unfolding deliver send_notification
  delivered = sent-result trim (run_command call w).0 (run_command call w).1

  -- A render of the notification renderer never fails; it runs the notifier once, and records the
  -- time, exactly when the state is one that is told, the quiet hours let it through, which RISK
  -- too needs, and the last notification of this state and session is at least 10 seconds old, 30
  -- for RESULT; otherwise it does nothing.
  pub render-Delivers : Delivers (render trim view time now later (r, w))
  unfolding render is_debounced
  render-Delivers = elim (Bool-cases (should_notify view.state)) [
    | inr quiet ↦ rw quiet (silent (λ h. cc (quiet, (should_notify_iff view.state).1 h.loud)))
    | inl loud ↦ rw loud (elim (Bool-cases (quiet_hours_allows r view.state time)) [
      | inr night ↦
          rw night
            (silent (λ h. cc (night, (quiet_hours_allows_iff r view.state time).1 h.allowed)))
      | inl allowed ↦
          let last = get (key_of view) r.last_notify in
          rw allowed (elim (Bool-cases (too_soon view.state now last)) [
            | inl soon ↦
                rw soon (silent (λ h. cc (soon, (too_soon_iff view.state now last).1 h.rested)))
            | inr rested ↦
                rw (rested, delivered)
                  (told {w' = (run_command call w).0}
                    (record {
                      loud = (should_notify_iff view.state).0 loud;
                      allowed = (quiet_hours_allows_iff r view.state time).0 allowed;
                      rested = (too_soon_iff view.state now last).0 rested;
                    })
                    (unfold run_command in refl))
          ])
    ])
  ]
