-- ===== src/Core/Basename.antt =====
-- `ActivityLabel::from_path` (crates/ats-core/src/activity.rs), with `Path::file_name` on a text whose
-- separator is the slash.
use Prim.Native.Char.{Char, code}
use agent_term_status.Prelude.{
  ℕ, ◌≡◌, refl, String, Bool, true, ◌||◌, Option, some, none, List, [], ◌∷◌, All, arith, nat_eq,
  str_eq, not, if◌then◌else◌, Bool-cases, inl, inr,
}
use agent_term_status.Core.{ActivityLabel}
use agent_term_status.Core.Label.{
  new, IsSanitized, new-IsSanitized, all_chars, all_chars-take_chars, filter_chars, is_control,
  max_chars,
}

abbrev slash : ℕ
slash = 47

abbrev onto_first : Char → List String → List String
onto_first c [] = String.◌∷◌ c String.[] ∷ []
onto_first c (s ∷ rest) = String.◌∷◌ c s ∷ rest

-- The texts between the slashes.
unfoldable pub pieces : String → List String
pieces String.[] = String.[] ∷ []
pieces (String.◌∷◌ c s) =
    let rest = pieces s in if nat_eq (code c) slash then String.[] ∷ rest else onto_first c rest

-- A component that is neither empty nor the directory itself.
abbrev is_named : String → Bool
is_named s = not (str_eq s "" || str_eq s ".")

abbrev or_piece : String → Option String → Option String
or_piece s (some later) = some later
or_piece s none = if is_named s then some s else none

unfoldable pub last_named : List String → Option String
last_named [] = none
last_named (s ∷ rest) = let later = last_named rest in or_piece s later

abbrev unless_parent : Option String → Option String
unless_parent none = none
unless_parent (some s) = if str_eq s ".." then none else some s

unfoldable pub file_name : String → Option String
file_name path = unless_parent (last_named (pieces path))

abbrev or_empty : Option String → String
or_empty none = ""
or_empty (some s) = s

unfoldable pub from_path : String → ActivityLabel
from_path path = new (or_empty (file_name path))

abbrev is_inside : ℕ → Bool
is_inside c = not (nat_eq c slash)

abbrev IsPiece : String → Type 0
IsPiece s = all_chars is_inside s ≡ true

onto_first-IsPiece :
    (c : Char) (l : List String)
    → is_inside (code c) ≡ true
    → All IsPiece l
    → All IsPiece (onto_first c l)
unfolding all_chars
onto_first-IsPiece c [] h a = (ground (arith, h), tt)
onto_first-IsPiece c (s ∷ rest) h a = (ground (arith, h, a.0), a.1)

pieces-IsPiece : (path : String) → All IsPiece (pieces path)
unfolding pieces all_chars
pieces-IsPiece String.[] = (refl, tt)
pieces-IsPiece (String.◌∷◌ c s) = elim (Bool-cases (nat_eq (code c) slash)) [
  | inl at_slash ↦ rw at_slash (refl, pieces-IsPiece s)
  | inr inside ↦
      rw inside (onto_first-IsPiece c (pieces s) (ground (arith, inside)) (pieces-IsPiece s))
]

abbrev ArePieces : Option String → Type 0
ArePieces none = Unit
ArePieces (some s) = IsPiece s

or_piece-IsPiece :
    (s : String) (o : Option String) → IsPiece s → ArePieces o → ArePieces (or_piece s o)
or_piece-IsPiece s (some later) p a = a
or_piece-IsPiece s none p a = elim (Bool-cases (is_named s)) [
  | inl named ↦ rw named p
  | inr other ↦ rw other tt
]

last_named-IsPiece : (l : List String) → All IsPiece l → ArePieces (last_named l)
unfolding last_named
last_named-IsPiece [] a = tt
last_named-IsPiece (s ∷ rest) a = or_piece-IsPiece s _ a.0 (last_named-IsPiece rest a.1)

named-IsPiece : (o : Option String) → ArePieces o → IsPiece (or_empty (unless_parent o))
unfolding all_chars
named-IsPiece none a = refl
named-IsPiece (some s) a = elim (Bool-cases (str_eq s "..")) [
  | inl parent ↦ rw parent refl
  | inr other ↦ rw other a
]

all_chars-filter :
    (p q : ℕ → Bool) (s : String) → all_chars p s ≡ true → all_chars p (filter_chars q s) ≡ true
unfolding all_chars filter_chars
all_chars-filter p q String.[] h = refl
all_chars-filter p q (String.◌∷◌ c s) h = ground (arith, h, all_chars-filter p q s)

pub record IsBasename (l : ActivityLabel) : Type 0 where
  pub sanitized : IsSanitized l
  pub no_slash : all_chars is_inside l.text ≡ true

-- A label built from a path is sanitized, and shows no directory of the path: it holds no slash.
from_path-IsBasename : (path : String) → IsBasename (from_path path)
unfolding from_path file_name new
from_path-IsBasename path =
    let name : String = or_empty (unless_parent (last_named (pieces path))) in
    record {
      sanitized = new-IsSanitized name;
      no_slash = all_chars-take_chars is_inside max_chars _ (
          all_chars-filter is_inside (λ c. not (is_control c)) name
            (named-IsPiece _ (last_named-IsPiece _ (pieces-IsPiece path))));
    }
