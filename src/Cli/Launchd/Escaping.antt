-- ===== src/Cli/Launchd/Escaping.antt =====
-- `xml_escape` against an escape of each character on its own.
use Prim.Native.Char.{code, Char}
use text.Mathlib.TextLemmas.{cons-append, nil-append, append_assoc}
use agent_term_status.Prelude.{
  ℕ, ◌≡◌, refl, sym, ap, ◌∙◌, String, Bool, true, false, ◌&&◌, nat_eq, nat_eq_iff, not,
  if◌then◌else◌, ◌⧺◌, Bool-cases, inl, inr, arith,
}
use agent_term_status.Core.Label.{all_chars, all_chars-append}
use agent_term_status.Cli.Launchd.{replace_char, xml_escape}

-- One pass over the text.
unfoldable pub escaped : String → String
escaped String.[] = String.[]
escaped (String.◌∷◌ c s) =
    let rest = escaped s in
    if nat_eq (code c) 38
    then "&amp;" ⧺ rest
    else if nat_eq (code c) 60
    then "&lt;" ⧺ rest
    else if nat_eq (code c) 62
    then "&gt;" ⧺ rest
    else String.◌∷◌ c rest

replace_char-append :
    (x : ℕ) (new s t : String)
    → replace_char x new (s ⧺ t) ≡ replace_char x new s ⧺ replace_char x new t
unfolding replace_char
replace_char-append x new String.[] t = rw (nil-append, nil-append) refl
replace_char-append x new (String.◌∷◌ c s) t =
    rw cons-append (elim (Bool-cases (nat_eq (code c) x)) [
      | inl same ↦
          rw (same, replace_char-append x new s t)
            (sym (append_assoc new (replace_char x new s) (replace_char x new t)))
      | inr other ↦
          rw (other, replace_char-append x new s t)
            (sym (cons-append c (replace_char x new s) (replace_char x new t)))
    ])

-- The three passes over what one of them has written.
after_ampersand :
    (s : String)
    → replace_char 62 "&gt;" (replace_char 60 "&lt;" ("&amp;" ⧺ s))
      ≡ "&amp;" ⧺ replace_char 62 "&gt;" (replace_char 60 "&lt;" s)
unfolding replace_char
after_ampersand s =
    ap (replace_char 62 "&gt;") (replace_char-append 60 "&lt;" "&amp;" s)
    ∙ replace_char-append 62 "&gt;" "&amp;" (replace_char 60 "&lt;" s)

after_less : (s : String) → replace_char 62 "&gt;" ("&lt;" ⧺ s) ≡ "&lt;" ⧺ replace_char 62 "&gt;" s
unfolding replace_char
after_less s = replace_char-append 62 "&gt;" "&lt;" s

other_than : (n x y : ℕ) → nat_eq n x ≡ true → nat_eq x y ≡ false → nat_eq n y ≡ false
other_than n x y e f = ground (arith, nat_eq_iff n x, nat_eq_iff x y, nat_eq_iff n y)

xml_escape-escaped : (s : String) → xml_escape s ≡ escaped s
unfolding xml_escape escaped replace_char
xml_escape-escaped String.[] = refl
xml_escape-escaped (String.◌∷◌ c s) = elim (Bool-cases (nat_eq (code c) 38)) [
  | inl ampersand ↦
      rw ampersand
        (after_ampersand (replace_char 38 "&amp;" s) ∙ ap ("&amp;" ⧺◌) (xml_escape-escaped s))
  | inr other ↦ elim (Bool-cases (nat_eq (code c) 60)) [
    | inl less ↦
        rw (other, less)
          (after_less (replace_char 60 "&lt;" (replace_char 38 "&amp;" s))
            ∙ ap ("&lt;" ⧺◌) (xml_escape-escaped s))
    | inr not_less ↦ elim (Bool-cases (nat_eq (code c) 62)) [
      | inl greater ↦ rw (other, not_less, greater) (ap ("&gt;" ⧺◌) (xml_escape-escaped s))
      | inr plain ↦ rw (other, not_less, plain) (ap (String.◌∷◌ c) (xml_escape-escaped s))
    ]
  ]
]

-- A character that is no bracket of a tag.
abbrev pub is_text : ℕ → Bool
is_text c = not (nat_eq c 60) && not (nat_eq c 62)

text_first :
    (c : Char) (s : String)
    → nat_eq (code c) 60 ≡ false
    → nat_eq (code c) 62 ≡ false
    → all_chars is_text (escaped s) ≡ true
    → (is_text (code c) && all_chars is_text (escaped s)) ≡ true
text_first c s not_less plain rest = rw (not_less, plain) rest

all_chars-escaped : (s : String) → all_chars is_text (escaped s) ≡ true
unfolding escaped all_chars
all_chars-escaped String.[] = refl
all_chars-escaped (String.◌∷◌ c s) = elim (Bool-cases (nat_eq (code c) 38)) [
  | inl ampersand ↦
      rw ampersand (all_chars-append is_text "&amp;" (escaped s) refl (all_chars-escaped s))
  | inr other ↦ elim (Bool-cases (nat_eq (code c) 60)) [
    | inl less ↦
        rw (other, less) (all_chars-append is_text "&lt;" (escaped s) refl (all_chars-escaped s))
    | inr not_less ↦ elim (Bool-cases (nat_eq (code c) 62)) [
      | inl greater ↦
          rw (other, not_less, greater)
            (all_chars-append is_text "&gt;" (escaped s) refl (all_chars-escaped s))
      | inr plain ↦
          rw (other, not_less, plain) (text_first c s not_less plain (all_chars-escaped s))
    ]
  ]
]

pub record IsEscaped (s t : String) : Type 0 where
  pub one_pass : t ≡ escaped s
  pub no_markup : all_chars is_text t ≡ true

-- The three replacements of xml_escape, one after the other, are one pass that replaces each
-- ampersand and angle bracket of the text once, and what they leave has no angle bracket.
xml_escape-IsEscaped : (s : String) → IsEscaped s (xml_escape s)
xml_escape-IsEscaped s = record {
  one_pass = xml_escape-escaped s;
  no_markup = rw (xml_escape-escaped s) (all_chars-escaped s);
}
