-- ===== src/Renderers/Tmux/Version.antt =====
-- `TmuxRenderer::parse_tmux_version` of crates/ats-renderer-tmux/src/lib.rs.
use Prim.Native.Char.{code}
use agent_term_status.Prelude.{
  ℕ, ◌+◌, ◌*◌, ◌-◌, String, Bool, ◌&&◌, ◌||◌, Option, some, none, if◌then◌else◌, leb, nat_eq,
  max_u32, not,
}

abbrev pub is_digit : ℕ → Bool
is_digit c = leb 48 c && leb c 57

-- The text from the first character that passes the test.
unfoldable pub find_from : (ℕ → Bool) → String → Option String
find_from p String.[] = none
find_from p (String.◌∷◌ c s) = if p (code c) then some (String.◌∷◌ c s) else find_from p s

-- The text before the first character that fails the test.
unfoldable pub take_while : (ℕ → Bool) → String → String
take_while p String.[] = String.[]
take_while p (String.◌∷◌ c s) = if p (code c) then String.◌∷◌ c (take_while p s) else String.[]

-- What follows the first dot.
unfoldable pub after_dot : String → Option String
after_dot String.[] = none
after_dot (String.◌∷◌ c s) = if nat_eq (code c) 46 then some s else after_dot s

unfoldable pub decimal : ℕ → String → ℕ
decimal acc String.[] = acc
decimal acc (String.◌∷◌ c s) = decimal (acc * 10 + (code c - 48)) s

-- `parse::<u32>()` of a text of digits: an error where it is empty or too large.
unfoldable pub parse_u32 : String → Option ℕ
parse_u32 String.[] = none
parse_u32 (String.◌∷◌ c s) =
    let n = decimal 0 (String.◌∷◌ c s) in if leb n max_u32 then some n else none

abbrev is_dot : ℕ → Bool
is_dot c = nat_eq c 46

abbrev pair : Option ℕ → Option ℕ → Option (ℕ × ℕ)
pair none minor = none
pair (some a) none = none
pair (some a) (some b) = some (a, b)

abbrev minor_of : Option String → Option ℕ
minor_of none = parse_u32 "0"
minor_of (some s) = parse_u32 (take_while (λ c. not (is_dot c)) s)

abbrev numbers_of : Option String → Option (ℕ × ℕ)
numbers_of none = none
numbers_of (some tail) =
    let text = take_while (λ c. is_digit c || is_dot c) tail in
    pair (parse_u32 (take_while (λ c. not (is_dot c)) text)) (minor_of (after_dot text))

unfoldable pub parse_tmux_version : String → Option (ℕ × ℕ)
parse_tmux_version raw = numbers_of (find_from is_digit raw)
