-- ===== src/Renderers/ITerm2/Osc.antt =====
-- The bytes of the control sequences that crates/ats-renderer-iterm2/src/lib.rs builds.
use Prim.Native.Char.{code}
use agent_term_status.Prelude.{
  ℕ, ◌+◌, ◌*◌, ◌/◌, ◌%◌, ◌≤◌, ◌≡◌, ◌≢◌, refl, String, Bool, true, Option, some, none, List, [], ◌∷◌,
  ◌++◌, All, All-append, arith, Bool-cases, inl, inr, str_eq,
}
use agent_term_status.Core.{AgentState, idle, ActivityLabel}
use agent_term_status.Core.Equality.{state_eq}
use agent_term_status.Core.Label.{
  all_chars, filter_chars, all_chars-filter_chars, all_chars-take_chars,
}
use agent_term_status.Config.Theme.{ThemeEntry}
use agent_term_status.Renderers.{title_parts, resolve_entry}
use agent_term_status.Renderers.ITerm2.{
  ITerm2Renderer, is_plain, sanitize_osc_string, max_osc_string_len, base64_char, base64_encode,
  utf8, as_bytes, build_title, build_badge, osc_set_title, osc_set_badge, titled, badge_of,
}
use agent_term_status.Renderers.ITerm2.Base64.{all_below, all_below_lem}

-- A byte that is no control character of ASCII.
abbrev pub IsPayload : ℕ → Type 0
IsPayload b = (0x20 ≤ b) × (b ≢ 0x7f)

-- ESC, `]`, a body without control characters, BEL.
abbrev pub IsOsc : List ℕ → Type 0
IsOsc bytes = (body : List ℕ) × (bytes ≡ 0x1b ∷ 0x5d ∷ (body ++ 0x07 ∷ [])) × All IsPayload body

abbrev pub IsPlain : String → Type 0
IsPlain s = all_chars is_plain s ≡ true

utf8-IsPayload : (c : ℕ) → is_plain c ≡ true → All IsPayload (utf8 c)
utf8-IsPayload c h = ground arith

as_bytes-IsPayload : (s : String) → IsPlain s → All IsPayload (as_bytes s)
unfolding as_bytes all_chars
as_bytes-IsPayload String.[] h = tt
as_bytes-IsPayload (String.◌∷◌ c s) h =
    All-append IsPayload (utf8 (code c)) (as_bytes s) (utf8-IsPayload (code c) (ground arith))
      (as_bytes-IsPayload s (ground arith))

pub osc_set_title-IsOsc : (title : String) → IsPlain title → IsOsc (osc_set_title title)
unfolding osc_set_title
osc_set_title-IsOsc title h = (
  as_bytes "2;" ++ as_bytes title,
  refl,
  All-append IsPayload (as_bytes "2;") (as_bytes title)
      (as_bytes-IsPayload "2;" (unfold all_chars in refl)) (as_bytes-IsPayload title h),
)

pub osc_set_badge-IsOsc : (badge : String) → IsPlain badge → IsOsc (osc_set_badge badge)
unfolding osc_set_badge
osc_set_badge-IsOsc badge h = (
  as_bytes "1337;SetBadgeFormat=" ++ as_bytes badge,
  refl,
  All-append IsPayload (as_bytes "1337;SetBadgeFormat=") (as_bytes badge)
      (as_bytes-IsPayload "1337;SetBadgeFormat=" (unfold all_chars in refl))
      (as_bytes-IsPayload badge h),
)

sanitize_osc_string-IsPlain : (s : String) → IsPlain (sanitize_osc_string s)
unfolding sanitize_osc_string
sanitize_osc_string-IsPlain s =
    all_chars-take_chars is_plain max_osc_string_len (filter_chars is_plain s)
      (all_chars-filter_chars is_plain s)

is_plain_digit : ℕ → Bool
is_plain_digit i = is_plain (code (base64_char i))

plain_digits : all_below is_plain_digit 64 ≡ true
unfolding all_below is_plain_digit
plain_digits = refl

digit-IsPlain : (i : ℕ) → is_plain (code (base64_char (i % 64))) ≡ true
unfolding is_plain_digit
digit-IsPlain i = all_below_lem is_plain_digit 64 (i % 64) plain_digits (omega arith)

base64_encode-IsPlain : (bytes : List ℕ) → IsPlain (base64_encode bytes)
unfolding base64_encode all_chars
base64_encode-IsPlain [] = refl
base64_encode-IsPlain (b0 ∷ []) =
    let n = b0 * 65536 in rw (digit-IsPlain (n / 262144), digit-IsPlain (n / 4096)) refl
base64_encode-IsPlain (b0 ∷ b1 ∷ []) =
    let n = b0 * 65536 + b1 * 256 in
    rw (digit-IsPlain (n / 262144), digit-IsPlain (n / 4096), digit-IsPlain (n / 64)) refl
base64_encode-IsPlain (b0 ∷ b1 ∷ b2 ∷ bytes) =
    let n = b0 * 65536 + b1 * 256 + b2 in
    rw
      (
        digit-IsPlain (n / 262144),
        digit-IsPlain (n / 4096),
        digit-IsPlain (n / 64),
        digit-IsPlain n,
        base64_encode-IsPlain bytes,
      )
      refl

-- Every text of an option is plain.
abbrev pub ArePlain : Option String → Type 0
ArePlain none = Unit
ArePlain (some s) = IsPlain s

titled-IsPlain : (parts : List String) → ArePlain (titled parts)
titled-IsPlain [] = tt
titled-IsPlain (s ∷ parts) = sanitize_osc_string-IsPlain _

pub build_title-IsPlain :
    (r : ITerm2Renderer) (state : AgentState) (label : Option ActivityLabel)
    → ArePlain (build_title r state label)
unfolding build_title
build_title-IsPlain r state label = elim (Bool-cases (state_eq state idle)) [
  | inl quiet ↦ rw quiet (unfold all_chars in refl)
  | inr busy ↦ rw busy (titled-IsPlain (title_parts (resolve_entry r.theme state) label))
]

badge_of-IsPlain : (entry : Option ThemeEntry) → ArePlain (badge_of entry)
badge_of-IsPlain none = tt
badge_of-IsPlain (some entry) = elim (Bool-cases (str_eq entry.symbol "")) [
  | inl empty ↦ rw empty tt
  | inr there ↦ rw there (base64_encode-IsPlain _)
]

pub build_badge-IsPlain : (r : ITerm2Renderer) (state : AgentState) → ArePlain (build_badge r state)
unfolding build_badge
build_badge-IsPlain r state = elim (Bool-cases (state_eq state idle)) [
  | inl quiet ↦ rw quiet (unfold all_chars in refl)
  | inr busy ↦ rw busy (badge_of-IsPlain (resolve_entry r.theme state))
]
