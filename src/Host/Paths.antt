-- ===== src/Host/Paths.antt =====
-- `Path` as its components.
use Prim.Native.Char.{code}
use Prim.Native.String.{String}
use agent_term_status.Prelude.{
  ◌≡◌, ◌↔◌, Bool, true, false, ◌&&◌, Option, some, none, List, [], ◌∷◌, ◌++◌, nat_eq, str_eq,
  eq_iff, arith, PartialEq, if◌then◌else◌, ◌⧺◌,
}

abbrev pub same_path : List String → List String → Bool
same_path [] [] = true
same_path [] (y ∷ ys) = false
same_path (x ∷ xs) [] = false
same_path (x ∷ xs) (y ∷ ys) = str_eq x y && same_path xs ys

pub same_path_iff : (p q : List String) → (same_path p q ≡ true) ↔ (p ≡ q)
same_path_iff [] [] = ground arith
same_path_iff [] (y ∷ ys) = ground arith
same_path_iff (x ∷ xs) [] = ground arith
same_path_iff (x ∷ xs) (y ∷ ys) = ground (arith, eq_iff x y, same_path_iff xs ys)

instance abbrev pub PathBuf_eq : PartialEq (List String)
PathBuf_eq = record { test = same_path; test_iff = same_path_iff }

-- `join` with one component.
infixl 30 ◌/◌
abbrev pub ◌/◌ : List String → String → List String
p / s = p ++ s ∷ []

-- `parent`; what stands above a whole prefix is left open.
abbrev pub parent : List String → Option (List String)
parent [] = none
parent (x ∷ []) = none
parent (x ∷ (y ∷ ys)) = elim (parent (y ∷ ys)) [ none ↦ some (x ∷ []) | some p ↦ some (x ∷ p) ]

-- `parent().unwrap_or_else(|| Path::new("."))`
abbrev pub dir_of : List String → List String
dir_of p = elim (parent p) [ none ↦ "." ∷ [] | some d ↦ d ]

abbrev pub display : List String → String
display [] = ""
display (x ∷ []) = x
display (x ∷ (y ∷ ys)) = x ⧺ ("/" ⧺ display (y ∷ ys))

-- The text before the last dot.
unfoldable pub before_dot : String → Option String
before_dot String.[] = none
before_dot (String.◌∷◌ c s) = elim (before_dot s) [
  | none ↦ if nat_eq (code c) 46 then some String.[] else none
  | some t ↦ some (String.◌∷◌ c t)
]

abbrev stem_of : String → Option String → String
stem_of name none = name
stem_of name (some String.[]) = name
stem_of name (some (String.◌∷◌ c t)) = String.◌∷◌ c t

-- `file_stem` of a name other than `..`.
abbrev pub file_stem : String → String
file_stem name = stem_of name (before_dot name)

abbrev pub with_extension : List String → String → List String
with_extension [] ext = []
with_extension (x ∷ []) ext = (file_stem x ⧺ ("." ⧺ ext)) ∷ []
with_extension (x ∷ (y ∷ ys)) ext = x ∷ with_extension (y ∷ ys) ext
