-- ===== src/Core/Label.antt =====
-- `ActivityLabel::new` (crates/ats-core/src/activity.rs) and the texts that it builds.
use Prim.Native.Char.{code}
use text.Mathlib.TextLemmas.{cons-append, nil-append}
use agent_term_status.Prelude.{
  ℕ, zero, suc, ◌≤◌, ◌≡◌, refl, Bool, true, ◌&&◌, ◌||◌, String, arith, leb, not, ◌⧺◌, if◌then◌else◌,
}
use agent_term_status.Core.{ActivityLabel}

-- `char::is_control`: the Unicode category Cc.
abbrev pub is_control : ℕ → Bool
is_control c = leb c 0x1f || (leb 0x7f c && leb c 0x9f)

-- The characters that pass a test, in order: `chars().filter(p).collect()`.
unfoldable pub filter_chars : (ℕ → Bool) → String → String
filter_chars p String.[] = String.[]
filter_chars p (String.◌∷◌ c s) =
    if p (code c) then String.◌∷◌ c (filter_chars p s) else filter_chars p s

-- The first characters: `chars().take(n).collect()`.
unfoldable pub take_chars : ℕ → String → String
take_chars zero s = String.[]
take_chars (suc n) String.[] = String.[]
take_chars (suc n) (String.◌∷◌ c s) = String.◌∷◌ c (take_chars n s)

abbrev pub max_chars : ℕ
max_chars = 40

unfoldable pub new : String → ActivityLabel
unfolding filter_chars take_chars
new raw = record { text = take_chars max_chars (filter_chars (λ c. not (is_control c)) raw) }

-- Every character of a text passes a test.
unfoldable pub all_chars : (ℕ → Bool) → String → Bool
all_chars p String.[] = true
all_chars p (String.◌∷◌ c s) = p (code c) && all_chars p s

unfoldable pub count_chars : String → ℕ
count_chars String.[] = 0
count_chars (String.◌∷◌ c s) = suc (count_chars s)

pub all_chars-filter_chars : (p : ℕ → Bool) (s : String) → all_chars p (filter_chars p s) ≡ true
unfolding all_chars filter_chars
all_chars-filter_chars p String.[] = refl
all_chars-filter_chars p (String.◌∷◌ c s) = ground (arith, all_chars-filter_chars p s)

pub all_chars-take_chars :
    (p : ℕ → Bool) (n : ℕ) (s : String) → all_chars p s ≡ true → all_chars p (take_chars n s) ≡ true
unfolding all_chars take_chars
all_chars-take_chars p zero s h = refl
all_chars-take_chars p (suc n) String.[] h = refl
all_chars-take_chars p (suc n) (String.◌∷◌ c s) h = ground (arith, all_chars-take_chars p n s)

pub count_chars-take_chars : (n : ℕ) (s : String) → count_chars (take_chars n s) ≤ n
unfolding count_chars take_chars
count_chars-take_chars zero s = omega arith
count_chars-take_chars (suc n) String.[] = omega arith
count_chars-take_chars (suc n) (String.◌∷◌ c s) = omega (arith, count_chars-take_chars n s)

pub all_chars-append :
    (p : ℕ → Bool) (s t : String)
    → all_chars p s ≡ true
    → all_chars p t ≡ true
    → all_chars p (s ⧺ t) ≡ true
unfolding all_chars
all_chars-append p String.[] t hs ht = rw nil-append ht
all_chars-append p (String.◌∷◌ c s) t hs ht =
    let rest : all_chars p (s ⧺ t) ≡ true = all_chars-append p s t (ground (arith, hs)) ht in
    rw cons-append (ground (arith, hs, rest))

-- What the label's type promises to renderers.
pub record IsSanitized (l : ActivityLabel) : Type 0 where
  pub printable : all_chars (λ c. not (is_control c)) l.text ≡ true
  pub capped : count_chars l.text ≤ max_chars

-- A label built from any text has at most 40 characters, none of them a control character.
pub new-IsSanitized : (raw : String) → IsSanitized (new raw)
unfolding new
new-IsSanitized raw =
    let p : ℕ → Bool = λ c. not (is_control c) in
    record {
      printable =
          all_chars-take_chars p max_chars (filter_chars p raw) (all_chars-filter_chars p raw);
      capped = count_chars-take_chars max_chars (filter_chars p raw);
    }
