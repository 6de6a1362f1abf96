-- ===== src/Config/Theme.antt =====
-- crates/ats-config/src/theme.rs, with the YAML parser as a parameter.
use agent_term_status.Prelude.{
  ℕ, suc, Bool, Option, some, none, String, String_eq, List, [], ◌∷◌, map, if◌then◌else◌, is_some,
  not, ltb, inl, inr, ◌==◌, ◌⊎◌, Result, ok, err, ◌⧺◌,
}
use agent_term_status.Prelude.HashMap.{HashMap, get}
use agent_term_status.Core.{AgentState, idle, working, attention, risk, result, error}

pub record ThemeEntry : Type 0 where
  pub color : Option String
  pub label : String
  pub symbol : String
  pub notification : Bool

pub record Theme : Type 0 where
  pub name : String
  pub states : HashMap String ThemeEntry

pub data ThemeError : Type 0 where
  not_found : String → List String → ThemeError
  parse : String → String → ThemeError
  io : String → String → ThemeError
  validation : String → ThemeError

unfoldable pub agent_state_to_theme_key : AgentState → String
agent_state_to_theme_key idle = "idle"
agent_state_to_theme_key working = "working"
agent_state_to_theme_key attention = "attention"
agent_state_to_theme_key risk = "risk"
agent_state_to_theme_key result = "result"
agent_state_to_theme_key error = "error"
agent_state_to_theme_key AgentState.unknown = "unknown"

unfoldable pub resolve : Theme → AgentState → Option ThemeEntry
resolve theme state = get (agent_state_to_theme_key state) theme.states

abbrev pub is_empty_str : String → Bool
is_empty_str s = s == ""

count_true : List Bool → ℕ
count_true [] = 0
count_true (b ∷ bs) = let rest = count_true bs in if b then suc rest else rest

-- How many of colour, label and symbol an entry has.
unfoldable pub rep_count : ThemeEntry → ℕ
unfolding count_true
rep_count entry =
    count_true
      (is_some entry.color ∷ not (is_empty_str entry.label) ∷ not (is_empty_str entry.symbol) ∷ [])

abbrev pub missing : Theme → AgentState → ThemeError
missing theme state =
    validation
      ("theme '" ⧺ theme.name ⧺ "' is missing state '" ⧺ agent_state_to_theme_key state ⧺ "'")

abbrev pub too_few : Theme → AgentState → ThemeError
too_few theme state = validation (
    "theme '"
    ⧺ theme.name
    ⧺ "' state '"
    ⧺ agent_state_to_theme_key state
    ⧺ "' has fewer than 2 representation types")

-- The body of the loop for one required state, and the rest of the loop.
validate_entry :
    Theme
    → AgentState
    → Option ThemeEntry
    → Result (Unit {0}) ThemeError
    → Result (Unit {0}) ThemeError
validate_entry theme state none rest = err (missing theme state)
validate_entry theme state (some entry) rest =
    if ltb (rep_count entry) 2 then err (too_few theme state) else rest

unfoldable pub validate_states : Theme → List AgentState → Result (Unit {0}) ThemeError
unfolding validate_entry resolve
validate_states theme [] = ok tt
validate_states theme (s ∷ l) = validate_entry theme s (resolve theme s) (validate_states theme l)

abbrev pub required : List AgentState
required = idle ∷ working ∷ attention ∷ risk ∷ result ∷ error ∷ AgentState.unknown ∷ []

unfoldable pub validate : Theme → Result (Unit {0}) ThemeError
validate theme = validate_states theme required

-- The bundled themes are pairs of a name and a YAML text; `from_str` is the YAML parser.
module _ (bundled : List (String × String)) (from_str : String → String ⊎ Theme) where
  unfoldable pub bundle_names : List String
  bundle_names = map (λ e. e.0) bundled

  abbrev find_bundled : String → List (String × String) → Option String
  find_bundled name [] = none
  find_bundled name ((n, y) ∷ l) = if n == name then some y else find_bundled name l

  abbrev parsed : String → String ⊎ Theme → Result Theme ThemeError
  parsed name (inl detail) = err (parse name detail)
  parsed name (inr theme) = ok theme

  abbrev load_yaml : String → Option String → Result Theme ThemeError
  load_yaml name none = err (not_found name bundle_names)
  load_yaml name (some yaml) = parsed name (from_str yaml)

  unfoldable pub load_bundled : String → Result Theme ThemeError
  load_bundled name = load_yaml name (find_bundled name bundled)
