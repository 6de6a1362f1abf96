-- ===== src/Daemon/Logging/Redaction.antt =====
-- What a redacted text does not show.
use Prim.Native.Char.{code, Char}
use text.Mathlib.TextLemmas.{cons-append, nil-append}
use agent_term_status.Prelude.{
  ℕ, zero, suc, ◌≡◌, ◌≢◌, refl, ap, ◌∙◌, String, Bool, true, false, ◌&&◌, ◌||◌, Option, some, none,
  nat_eq, nat_eq_iff, leb, ◌⊎◌, not, ◌⧺◌, ◌-◌, arith, Bool-cases, inl, inr,
}
use agent_term_status.Core.Label.{filter_chars, count_chars, all_chars, all_chars-filter_chars}
use agent_term_status.Daemon.Logging.{
  is_logged, sanitize_control_chars, begins, replace_from, replace, redact_string,
}

-- Whether a text stands somewhere in another.
unfoldable pub occurs : String → String → Bool
unfolding begins
occurs p String.[] = begins p String.[]
occurs p (String.◌∷◌ c s) = begins p (String.◌∷◌ c s) || occurs p s

abbrev tilde : ℕ
tilde = 126

-- The text of one character that stands for the home directory.
abbrev mark : Char
mark = "~"

mark-append : (s : String) → "~" ⧺ s ≡ String.◌∷◌ mark s
mark-append s = cons-append mark String.[] s ∙ ap (String.◌∷◌ mark) (nil-append s)

all_chars-mark : (p : ℕ → Bool) (s : String) → all_chars p ("~" ⧺ s) ≡ (p tilde && all_chars p s)
unfolding all_chars
all_chars-mark p s = ap (all_chars p) (mark-append s)

begins-mark :
    (d : Char) (q s : String)
    → begins (String.◌∷◌ d q) ("~" ⧺ s) ≡ (nat_eq (code d) tilde && begins q s)
unfolding begins
begins-mark d q s = ap (begins (String.◌∷◌ d q)) (mark-append s)

all_chars-replace_from :
    (p : ℕ → Bool) (pattern : String) (n : ℕ) (s : String)
    → p tilde ≡ true
    → all_chars p s ≡ true
    → all_chars p (replace_from pattern "~" n s) ≡ true
unfolding all_chars replace_from
all_chars-replace_from p pattern n String.[] t h = refl
all_chars-replace_from p pattern (suc n) (String.◌∷◌ c s) t h =
    all_chars-replace_from p pattern n s t (ground (arith, h))
all_chars-replace_from p pattern zero (String.◌∷◌ c s) t h =
    elim (Bool-cases (begins pattern (String.◌∷◌ c s))) [
      | inl found ↦
          rw (found, all_chars-mark, t)
            (all_chars-replace_from p pattern (count_chars pattern - 1) s t (ground (arith, h)))
      | inr not_found ↦
          let rest : all_chars p (replace_from pattern "~" zero s) ≡ true =
            all_chars-replace_from p pattern zero s t (ground (arith, h)) in
          rw not_found (ground (arith, h, rest))
    ]

-- A text without the mark that stands at the start of what replacing gives stood there before.
begins-replace_from :
    (pattern q : String) (s : String)
    → all_chars (λ c. not (nat_eq c tilde)) q ≡ true
    → begins q (replace_from pattern "~" zero s) ≡ true
    → begins q s ≡ true
unfolding all_chars replace_from begins
begins-replace_from pattern String.[] s t h = refl
begins-replace_from pattern (String.◌∷◌ d q) String.[] t h = h
begins-replace_from pattern (String.◌∷◌ d q) (String.◌∷◌ c s) t h =
    elim (Bool-cases (begins pattern (String.◌∷◌ c s))) [
      | inl found ↦ ground (
        arith,
        t,
        h,
        found,
        begins-mark d q (replace_from pattern "~" (count_chars pattern - 1) s),
      )
      | inr not_found ↦ ground (arith, t, h, not_found, begins-replace_from pattern q s)
    ]

occurs-mark :
    (d : Char) (q s : String)
    → nat_eq (code d) tilde ≡ false
    → occurs (String.◌∷◌ d q) ("~" ⧺ s) ≡ occurs (String.◌∷◌ d q) s
unfolding occurs
occurs-mark d q s h = rw (mark-append s, h) refl

-- Where a text does not stand at the start, it does not stand there once it is replaced.
begins-never :
    (d : Char) (q : String) (c : Char) (s : String)
    → all_chars (λ c. not (nat_eq c tilde)) (String.◌∷◌ d q) ≡ true
    → begins (String.◌∷◌ d q) (String.◌∷◌ c s) ≡ false
    → begins (String.◌∷◌ d q) (String.◌∷◌ c (replace_from (String.◌∷◌ d q) "~" zero s)) ≡ false
unfolding replace_from
begins-never d q c s t h =
    elim (Bool-cases
      (begins (String.◌∷◌ d q) (String.◌∷◌ c (replace_from (String.◌∷◌ d q) "~" zero s)))) [
        | inl there ↦
            let before : begins (String.◌∷◌ d q) (String.◌∷◌ c s) ≡ true =
              begins-replace_from (String.◌∷◌ d q) (String.◌∷◌ d q) (String.◌∷◌ c s) t
                (rw h there) in
            absurd (cc (before, h))
        | inr absent ↦ absent
      ]

no_mark :
    (d : Char) (q : String)
    → all_chars (λ c. not (nat_eq c tilde)) (String.◌∷◌ d q) ≡ true
    → nat_eq (code d) tilde ≡ false
unfolding all_chars
no_mark d q t = ground (arith, t)

-- A text that is not empty and holds no mark, once replaced, is found no more.
occurs-replace_from :
    (d : Char) (q s : String) (n : ℕ)
    → all_chars (λ c. not (nat_eq c tilde)) (String.◌∷◌ d q) ≡ true
    → occurs (String.◌∷◌ d q) (replace_from (String.◌∷◌ d q) "~" n s) ≡ false
unfolding occurs replace_from
occurs-replace_from d q String.[] n t = refl
occurs-replace_from d q (String.◌∷◌ c s) (suc n) t = occurs-replace_from d q s n t
occurs-replace_from d q (String.◌∷◌ c s) zero t =
    let left = count_chars (String.◌∷◌ d q) - 1 in
    elim (Bool-cases (begins (String.◌∷◌ d q) (String.◌∷◌ c s))) [
      | inl found ↦ rw found (
          occurs-mark d q (replace_from (String.◌∷◌ d q) "~" left s) (no_mark d q t)
          ∙ occurs-replace_from d q s left t)
      | inr not_found ↦
          rw (not_found, begins-never d q c s t not_found) (occurs-replace_from d q s zero t)
    ]

-- A home directory that can be told from what it is replaced by.
abbrev IsPlain : String → Type 0
IsPlain home = (home ≢ "") × (all_chars (λ c. not (nat_eq c tilde)) home ≡ true)

-- The directory is in no part of the text, unless it holds a tilde itself.
abbrev pub Hides : Option String → String → Type 0
Hides none s = Unit
Hides (some home) s = (all_chars (λ c. not (nat_eq c tilde)) home ≡ false) ⊎ (occurs home s ≡ false)

-- No control character of ASCII or of Latin-1.
abbrev pub is_shown : ℕ → Bool
is_shown c = leb 0x20 c && not (leb 0x7f c && leb c 0x9f)

is_shown-is_logged : (c : ℕ) → is_logged c ≡ true → is_shown c ≡ true
is_shown-is_logged c h = ground (arith, nat_eq_iff c 0x7f)

all_chars-is_shown : (s : String) → all_chars is_logged s ≡ true → all_chars is_shown s ≡ true
unfolding all_chars
all_chars-is_shown String.[] h = refl
all_chars-is_shown (String.◌∷◌ c s) h =
    let here : is_logged (code c) ≡ true = ground (arith, h) in
    let rest : all_chars is_shown s ≡ true = all_chars-is_shown s (ground (arith, h)) in
    rw (is_shown-is_logged (code c) here, rest) refl

pub record IsRedacted (home : Option String) (s : String) : Type 0 where
  pub printable : all_chars is_shown s ≡ true
  pub hidden : Hides home s

all_chars-replace :
    (home s : String)
    → home ≢ ""
    → all_chars is_logged s ≡ true
    → all_chars is_logged (replace home "~" s) ≡ true
unfolding replace
all_chars-replace String.[] s ne h = absurd (ne refl)
all_chars-replace (String.◌∷◌ d q) s ne h =
    all_chars-replace_from is_logged (String.◌∷◌ d q) zero s refl h

occurs-replace : (home s : String) → IsPlain home → occurs home (replace home "~" s) ≡ false
unfolding replace
occurs-replace String.[] s p = absurd (p.0 refl)
occurs-replace (String.◌∷◌ d q) s p = occurs-replace_from d q s zero p.1

-- A redacted text has no control character, neither of ASCII nor of Latin-1, and the path of the
-- home directory stands nowhere in it, unless that path holds a tilde itself. The path, where there
-- is one, is not empty.
pub redact_string-IsRedacted :
    (s : String) (home : Option String) → home ≢ some "" → IsRedacted home (redact_string s home)
unfolding redact_string sanitize_control_chars
redact_string-IsRedacted s none ne = record {
  printable = all_chars-is_shown _ (all_chars-filter_chars is_logged s);
  hidden = tt;
}
redact_string-IsRedacted s (some home) ne = record {
  printable = all_chars-is_shown _ (
      all_chars-replace home (filter_chars is_logged s) (λ e. ne (ap some e))
        (all_chars-filter_chars is_logged s));
  hidden = elim (Bool-cases (all_chars (λ c. not (nat_eq c tilde)) home)) [
    | inl plain ↦
        inr (occurs-replace home (filter_chars is_logged s) ((λ e. ne (ap some e)), plain))
    | inr tilded ↦ inl tilded
  ];
}
