-- ===== src/Claude/Adapter/Panics.antt =====
-- `&message[..40]` in `ClaudeAdapter::parse` (crates/ats-provider-claude/src/adapter.rs): an index
-- of bytes into a text.
use Prim.Native.String.{len}
use text.Mathlib.Text.{is_char_boundary}
use text.Mathlib.TextPositions.{boundary-zero}
use agent_term_status.Prelude.{
  ◌<◌, String, false, Option, some, none, ◌≡◌, ◌↔◌, refl, arith, Bool-cases, inl, inr, leb, eq_iff,
  ap, ◌∙◌, Option-cases,
}
use agent_term_status.Core.{Uuid, SessionIdentity}
use agent_term_status.Provider.{Json}
use agent_term_status.Claude.Hooks.{Hook, hook_of, notification}
use agent_term_status.Claude.Adapter.{
  ClaudeAdapter, Process, get_str, unwrap_or, parse, label_source, derive_session, event_of,
  notified,
}

module _ (json : Json) (show_uuid : Uuid → String) where
  open json use {Value, Map, as_object}

  abbrev pub IsCut : String → Type 0
  IsCut message = (40 < len message) × (is_char_boundary message 40 ≡ false)

  label_source-none :
      (message : String) → (label_source json show_uuid message ≡ none) ↔ IsCut message
  unfolding label_source
  label_source-none message = elim (Bool-cases (leb (len message) 40)) [
    | inl short ↦ rw short (λ p. absurd (cc p), λ p. absurd (ground arith))
    | inr long ↦
        rw (long, boundary-zero message)
          (elim (Bool-cases (is_char_boundary message 40)) [
            | inl end ↦ rw end (λ p. absurd (cc p), λ p. absurd (cc p.1))
            | inr inside ↦ rw inside (λ _. (ground arith, refl), λ _. refl)
          ])
  ]

  -- The notification whose message is cut inside a character.
  abbrev pub IsCutNotification : Value → Type 0
  IsCutNotification input =
      (obj : Map) × (as_object input ≡ some obj)
      × (get_str json show_uuid "hook_event_name" obj ≡ some "Notification")
      × IsCut (unwrap_or "" (get_str json show_uuid "message" obj))

  hook_of-notification : (t : String) → hook_of t ≡ notification → t ≡ "Notification"
  unfolding hook_of
  hook_of-notification t h = ground (arith, eq_iff t "Notification")

  module _ (to_lowercase : String → String) (adapter : ClaudeAdapter) (process : Process) where
    notified-none :
        (obj : Map) (session : SessionIdentity) (message : String) (text : Option String)
        → (notified json show_uuid to_lowercase adapter process obj session message text ≡ none)
          ↔ (text ≡ none)
    notified-none obj session message none = (λ _. refl, λ _. refl)
    notified-none obj session message (some text) = (λ p. absurd (cc p), λ p. absurd (cc p))

    event_of-none :
        (obj : Map) (session : SessionIdentity) (t : String) (h : Hook)
        → event_of json show_uuid to_lowercase adapter process obj session t h ≡ none
        → (h ≡ notification) × IsCut (unwrap_or "" (get_str json show_uuid "message" obj))
    unfolding event_of
    event_of-none obj session t notification p =
        let message = unwrap_or "" (get_str json show_uuid "message" obj) in
        (
          refl,
          (label_source-none message).0
              ((notified-none obj session message (label_source json show_uuid message)).0 p),
        )
    event_of-none obj session t h p = absurd (cc p)

    forwards :
        (input : Value)
        → parse json show_uuid to_lowercase adapter process input ≡ none
        → IsCutNotification input
    unfolding parse
    forwards input p = elim (Option-cases (as_object input)) [
      | inl other ↦ absurd (cc (rw other at p))
      | inr (obj, o) ↦ elim (Option-cases (get_str json show_uuid "hook_event_name" obj)) [
        | inl absent ↦ absurd (cc (rw (o, absent) at p))
        | inr (t, h) ↦
            let (n, cut) =
              event_of-none obj (derive_session json show_uuid process input) t (hook_of t)
                (rw (o, h) at p) in
            (obj, o, h ∙ ap some (hook_of-notification t n), cut)
      ]
    ]

    -- The adapter panics exactly on a notification whose message is longer than 40 bytes and has a
    -- character across the 40th byte.
    pub parse-none :
        (input : Value)
        → (parse json show_uuid to_lowercase adapter process input ≡ none) ↔ IsCutNotification input
    unfolding parse hook_of event_of
    parse-none input = (
      forwards input,
      λ (obj, o, h, cut).
          let message = unwrap_or "" (get_str json show_uuid "message" obj) in
          rw (o, h, (label_source-none message).1 cut) refl,
    )
