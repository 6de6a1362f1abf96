-- ===== src/Provider.antt =====
-- crates/ats-provider/src/lib.rs: the provider trait and its results; and the JSON library as an
-- interface of its operations with the laws that the providers rely on.
use agent_term_status.Prelude.{String, Bool, true, false, Option, some, none, List, Result, ◌≡◌}
use agent_term_status.Core.{NormalizedEvent, SessionIdentity}

-- serde_json: `Value`, and its objects, `Map<String, Value>`.
pub record Json : Type 1 where
  pub Value : Type 0
  pub Map : Type 0
  pub as_object : Value → Option Map
  pub as_str : Value → Option String
  pub string : String → Value
  pub new : Map
  pub get : String → Map → Option Value
  pub insert : String → Value → Map → Map
  pub as_str-string : (s : String) → as_str (string s) ≡ some s
  pub get-insert : (k : String) (v : Value) (m : Map) → get k (insert k v m) ≡ some v

pub data ProviderError : Type 0 where
  schema_mismatch missing_required_field malformed : String → ProviderError

pub data ValidationResult : Type 0 where
  valid : ValidationResult
  invalid : String → ValidationResult

unfoldable pub is_valid : ValidationResult → Bool
is_valid valid = true
is_valid (invalid reason) = false

-- `Option::and_then`
abbrev pub and_then : {A B : Type 0} → Option A → (A → Option B) → Option B
and_then none f = none
and_then (some a) f = f a

module _ (json : Json) where
  open json use {Value, Map}

  -- The result `none` of `parse` is a panic.
  pub record ProviderAdapter : Type 0 where
    pub name : String
    pub version : String
    pub parse : Value → Option (Result (List (NormalizedEvent Map)) ProviderError)
    pub validate : Value → ValidationResult
    pub derive_session : Value → SessionIdentity
