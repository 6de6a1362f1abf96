-- ===== src/Claude/Adapter/Parsing.antt =====
-- `ClaudeAdapter::parse` and `validate` (crates/ats-provider-claude/src/adapter.rs) over all
-- inputs.
use agent_term_status.Prelude.{
  String, true, false, Option, some, none, List, [], ◌∷◌, Result, ok, err, str_eq, is_some, any,
  ◌≡◌, ◌≢◌, ◌↔◌, inl, inr, refl, arith, Bool-cases, Option-cases,
}
use agent_term_status.Core.{
  EventType, provider_schema_error, Activity, ActivityLabel, SessionIdentity, NormalizedEvent, Uuid,
  risk,
}
use agent_term_status.Core.Label.{IsSanitized, new-IsSanitized}
use agent_term_status.Provider.{
  Json, and_then, ProviderError, missing_required_field, malformed, valid,
}
use agent_term_status.StateEngine.Priority.{state_from_event}
use agent_term_status.StateEngine.Engine.{event_is_risk, activity_risk}
use agent_term_status.Claude.Hooks.{
  Hook, session_start, user_prompt_submit, pre_tool_use, post_tool_use, post_tool_use_failure,
  notification, stop, session_end, unknown, hook_of, classify_notification, valid_hooks,
}
use agent_term_status.Claude.Adapter.{
  ClaudeAdapter, Process, get_str, derive_session, parse, event, unwrap_or, event_of, notified,
  map_label, label_source, validate, tool_input_command,
}

unfoldable pub LabelIsSafe : Option ActivityLabel → Type 0
LabelIsSafe none = Unit
LabelIsSafe (some l) = IsSanitized l

unfoldable pub ActivityIsSafe : Option Activity → Type 0
ActivityIsSafe none = Unit
ActivityIsSafe (some a) = LabelIsSafe a.label

map_label-IsSafe : (o : Option String) → LabelIsSafe (map_label o)
unfolding LabelIsSafe
map_label-IsSafe none = tt
map_label-IsSafe (some s) = new-IsSanitized s

hook_of-known : (t : String) → (any (str_eq t) valid_hooks ≡ true) ↔ (hook_of t ≢ unknown)
unfolding hook_of
hook_of-known t = ground arith

hook_of-unknown : (t : String) → any (str_eq t) valid_hooks ≡ false → hook_of t ≡ unknown
unfolding hook_of
hook_of-unknown t h = ground arith

and_then-some :
    {A B : Type 0} (o : Option A) (f : A → Option B) (b : B)
    → and_then o f ≡ some b
    → is_some o ≡ true
and_then-some none f b h = absurd (cc h)
and_then-some (some a) f b h = refl

module _ (json : Json) (show_uuid : Uuid → String) where
  open json use {Value, Map, as_object}

  module _ (to_lowercase : String → String) (adapter : ClaudeAdapter) (process : Process) where
    -- What every event of the adapter is, whatever hook it comes from.
    pub record IsEvent (session : SessionIdentity) (h : Hook) (e : NormalizedEvent Map)
        : Type 0 where
      pub identified : e.session ≡ session
      pub stamped : (e.event_id ≡ process.new_event_id) × (e.timestamp ≡ process.now_utc)
      pub provided : e.provider ≡ "claude"
      pub safe : ActivityIsSafe e.activity
      pub schema_iff : (e.event_type ≡ provider_schema_error) ↔ (h ≡ unknown)
      pub no_risk : state_from_event e.event_type (event_is_risk e) ≢ risk

    abbrev Outcome : Type 0
    Outcome = Option (Result (List (NormalizedEvent Map)) ProviderError)

    -- What the arms of the `match` yield: one event, or, for a notification alone, a panic.
    pub data Emits (session : SessionIdentity) (h : Hook) : Outcome → Type 0 where
      sent : {e : NormalizedEvent Map} → IsEvent session h e → Emits session h (some (ok (e ∷ [])))
      panicked : h ≡ notification → Emits session h none

    module _ (obj : Map) (session : SessionIdentity) where
      event-IsEvent :
          (h : Hook) (ty : EventType) (activity : Option Activity) (metadata : Map)
          → (ty ≡ provider_schema_error) ↔ (h ≡ unknown)
          → state_from_event ty (activity_risk activity) ≢ risk
          → ActivityIsSafe activity
          → IsEvent session h
              (event json show_uuid to_lowercase adapter process obj session ty activity metadata)
      event-IsEvent h ty activity metadata schema harmless safe = record {
        identified = refl;
        stamped = (refl, refl);
        provided = refl;
        safe = safe;
        schema_iff = schema;
        no_risk = harmless;
      }

      notified-Emits :
          (message : String) (text : Option String)
          → Emits session notification
              (notified json show_uuid to_lowercase adapter process obj session message text)
      unfolding ActivityIsSafe LabelIsSafe classify_notification state_from_event
      notified-Emits message none = panicked refl
      notified-Emits message (some text) =
          sent
            (event-IsEvent notification _ _ _ (ground arith) (ground arith) (new-IsSanitized text))

      event_of-Emits :
          (hook_type : String) (h : Hook)
          → Emits session h
              (event_of json show_uuid to_lowercase adapter process obj session hook_type h)
      unfolding event_of ActivityIsSafe state_from_event
      event_of-Emits hook_type session_start =
          sent (event-IsEvent session_start _ _ _ (ground arith) (ground arith) tt)
      event_of-Emits hook_type user_prompt_submit =
          sent (event-IsEvent user_prompt_submit _ _ _ (ground arith) (ground arith) tt)
      event_of-Emits hook_type pre_tool_use = sent (
          event-IsEvent pre_tool_use _ _ _ (ground arith) (ground arith)
            (map_label-IsSafe (tool_input_command json show_uuid obj)))
      event_of-Emits hook_type post_tool_use = sent (
          event-IsEvent post_tool_use _ _ _ (ground arith) (ground arith)
            (map_label-IsSafe (tool_input_command json show_uuid obj)))
      event_of-Emits hook_type post_tool_use_failure = sent (
          event-IsEvent post_tool_use_failure _ _ _ (ground arith) (ground arith)
            (map_label-IsSafe (tool_input_command json show_uuid obj)))
      event_of-Emits hook_type notification =
          notified-Emits (unwrap_or "" (get_str json show_uuid "message" obj))
            (label_source json show_uuid (unwrap_or "" (get_str json show_uuid "message" obj)))
      event_of-Emits hook_type stop =
          sent (event-IsEvent stop _ _ _ (ground arith) (ground arith) tt)
      event_of-Emits hook_type session_end =
          sent (event-IsEvent session_end _ _ _ (ground arith) (ground arith) tt)
      event_of-Emits hook_type unknown =
          sent (event-IsEvent unknown _ _ _ (ground arith) (ground arith) tt)

    -- What `parse` makes of any input.
    pub data Parses (input : Value) : Outcome → Type 0 where
      not_object :
          as_object input ≡ none
          → Parses input (some (err (malformed "input is not a JSON object")))
      no_hook :
          (obj : Map)
          → as_object input ≡ some obj
          → get_str json show_uuid "hook_event_name" obj ≡ none
          → Parses input (some (err (missing_required_field "hook_event_name")))
      emits :
          (obj : Map) (hook_type : String) {r : Outcome}
          → as_object input ≡ some obj
          → get_str json show_uuid "hook_event_name" obj ≡ some hook_type
          → Emits (derive_session json show_uuid process input) (hook_of hook_type) r
          → Parses input r

    -- What the Claude adapter makes of any payload: an error for a payload that is no object or
    -- names no hook; otherwise exactly one event, with the payload's session, the process's clock
    -- and id, a sanitized label, never a state of RISK, and a schema error exactly for an unknown
    -- hook; only a notification can panic.
    pub parse-Parses :
        (input : Value) → Parses input (parse json show_uuid to_lowercase adapter process input)
    unfolding parse
    parse-Parses input = elim (Option-cases (as_object input)) [
      | inl other ↦ rw other (not_object other)
      | inr (obj, object) ↦
          rw object (elim (Option-cases (get_str json show_uuid "hook_event_name" obj)) [
            | inl absent ↦ rw absent (no_hook obj object absent)
            | inr (t, hook) ↦ rw hook (
                emits obj t object hook
                  (event_of-Emits obj (derive_session json show_uuid process input) t (hook_of t)))
          ])
    ]

    Emits-IsEvent :
        (session : SessionIdentity) (h : Hook) (e : NormalizedEvent Map) (r : Outcome)
        → Emits session h r
        → r ≡ some (ok (e ∷ []))
        → IsEvent session h e
    Emits-IsEvent session h e _ (sent {e = e'} ie) p = let same : e' ≡ e = cc p in rw same at ie
    Emits-IsEvent session h e _ (panicked n) p = absurd (cc p)

    -- The hook that an event was made from.
    abbrev pub IsFrom : Value → NormalizedEvent Map → Type 0
    IsFrom input e =
        (obj : Map) × (t : String) × (as_object input ≡ some obj)
        × (get_str json show_uuid "hook_event_name" obj ≡ some t)
        × IsEvent (derive_session json show_uuid process input) (hook_of t) e

    from_Parses :
        (input : Value) (e : NormalizedEvent Map) (r : Outcome)
        → Parses input r
        → r ≡ some (ok (e ∷ []))
        → IsFrom input e
    from_Parses input e _ (not_object n) p = absurd (cc p)
    from_Parses input e _ (no_hook obj o n) p = absurd (cc p)
    from_Parses input e _ (emits obj t {r = r} o h m) p = (
      obj,
      t,
      o,
      h,
      Emits-IsEvent (derive_session json show_uuid process input) (hook_of t) e r m p,
    )

    module _ (input : Value) (e : NormalizedEvent Map)
        (p : parse json show_uuid to_lowercase adapter process input ≡ some (ok (e ∷ []))) where
      parsed : IsFrom input e
      parsed =
          from_Parses input e (parse json show_uuid to_lowercase adapter process input)
            (parse-Parses input) p

      -- A payload that the adapter makes an event of is valid for validate exactly when the event
      -- is no schema error.
      validate-parse :
          (validate json show_uuid input ≡ valid) ↔ (e.event_type ≢ provider_schema_error)
      unfolding validate
      validate-parse =
          let (obj, t, o, h, ie) = parsed in
          let there : is_some (json.get "hook_event_name" obj) ≡ true =
            unfold get_str in and_then-some (json.get "hook_event_name" obj) json.as_str t h in
          rw (o, there, h)
            (elim (Bool-cases (any (str_eq t) valid_hooks)) [
              | inl known ↦
                  rw known (λ _ s. (hook_of-known t).0 known (ie.schema_iff.0 s), λ _. refl)
              | inr other ↦ rw other (
                λ v. absurd (cc v),
                λ ne. absurd (ne (ie.schema_iff.1 (hook_of-unknown t other))),
              )
            ])

      pub parse-harmless : state_from_event e.event_type (event_is_risk e) ≢ risk
      parse-harmless = parsed.4.no_risk
