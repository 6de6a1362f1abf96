-- ===== src/Renderers/ITerm2/Base64.antt =====
-- `base64_encode` of crates/ats-renderer-iterm2/src/lib.rs against the decoding of RFC 4648.
use Prim.Native.Char.{Char, code}
use agent_term_status.Prelude.{
  ℕ, zero, suc, ◌+◌, ◌*◌, ◌/◌, ◌%◌, ◌-◌, ◌<◌, ◌≡◌, refl, ap, String, Bool, true, false, ◌&&◌, List,
  [], ◌∷◌, All, if◌then◌else◌, leb, nat_eq, not, arith,
}
use agent_term_status.Renderers.ITerm2.{base64_encode, base64_char}

-- The value of a digit by its code.
abbrev pub value : ℕ → ℕ
value c =
    if leb 65 c && leb c 90
    then c - 65
    else if leb 97 c && leb c 122
    then c - 71
    else if leb 48 c && leb c 57
    then c + 4
    else if nat_eq c 43
    then 62
    else 63

-- The number that four digits stand for.
abbrev pub group : Char → Char → Char → Char → ℕ
group a b c d = ((value (code a) * 64 + value (code b)) * 64 + value (code c)) * 64 + value (code d)

abbrev pub is_padding : Char → Bool
is_padding c = nat_eq (code c) 61

-- The bytes of a text of groups; a text that ends within a group stops there.
unfoldable pub decode : String → List ℕ
decode (String.◌∷◌ a (String.◌∷◌ b (String.◌∷◌ c (String.◌∷◌ d s)))) =
    let rest = decode s in
    let n = group a b c d in
    if is_padding d
    then (if is_padding c
        then ((value (code a) * 64 + value (code b)) / 16) ∷ []
        else ((((value (code a) * 64 + value (code b)) * 64 + value (code c)) / 1024))
          ∷ ((((value (code a) * 64 + value (code b)) * 64 + value (code c)) / 4 % 256))
          ∷ [])
    else (n / 65536) ∷ (n / 256 % 256) ∷ (n % 256) ∷ rest
decode _ = []

unfoldable pub all_below : (ℕ → Bool) → ℕ → Bool
all_below p zero = true
all_below p (suc n) = p n && all_below p n

pub all_below_lem : (p : ℕ → Bool) (n i : ℕ) → all_below p n ≡ true → i < n → p i ≡ true
unfolding all_below
all_below_lem p zero i h lt = absurd (omega arith)
all_below_lem p (suc n) i h lt = ground (arith, all_below_lem p n i)

abbrev is_digit : ℕ → Bool
is_digit i = nat_eq (value (code (base64_char i))) i && not (is_padding (base64_char i))

digits : all_below is_digit 64 ≡ true
unfolding all_below
digits = refl

digit : (i : ℕ) → i < 64 → (value (code (base64_char i)) ≡ i) × (is_padding (base64_char i) ≡ false)
digit i h = ground (arith, all_below_lem is_digit 64 i digits h)

abbrev pub IsByte : ℕ → Type 0
IsByte b = b < 256

cons_eq : {a b : ℕ} {xs ys : List ℕ} → a ≡ b → xs ≡ ys → a ∷ xs ≡ b ∷ ys
cons_eq p q = cc

-- The digits of a number of three bytes put together again.
regroup :
    (n : ℕ)
    → n < 16777216
    → group
        (base64_char (n / 262144 % 64))
        (base64_char (n / 4096 % 64))
        (base64_char (n / 64 % 64))
        (base64_char (n % 64))
      ≡ n
regroup n h =
    rw
      (
        (digit (n / 262144 % 64) (omega arith)).0,
        (digit (n / 4096 % 64) (omega arith)).0,
        (digit (n / 64 % 64) (omega arith)).0,
        (digit (n % 64) (omega arith)).0,
      )
      (omega arith)

-- Decoding what base64_encode makes of a list of bytes gives the bytes back.
pub decode-base64_encode :
    (bytes : List ℕ) → All IsByte bytes → decode (base64_encode bytes) ≡ bytes
unfolding decode base64_encode
decode-base64_encode [] h = refl
decode-base64_encode (b0 ∷ []) h =
    let n = b0 * 65536 in
    rw ((digit (n / 262144 % 64) (omega arith)).0, (digit (n / 4096 % 64) (omega arith)).0)
      (ap (λ b. b ∷ []) (omega arith))
decode-base64_encode (b0 ∷ b1 ∷ []) h =
    let n = b0 * 65536 + b1 * 256 in
    let first : (n / 262144 % 64 * 64 + n / 4096 % 64) * 64 + n / 64 % 64 ≡ b0 * 1024 + b1 * 4 =
      omega arith in
    rw
      (
        (digit (n / 64 % 64) (omega arith)).1,
        (digit (n / 262144 % 64) (omega arith)).0,
        (digit (n / 4096 % 64) (omega arith)).0,
        (digit (n / 64 % 64) (omega arith)).0,
        first,
      )
      (cons_eq (omega arith) (cons_eq (omega arith) refl))
decode-base64_encode (b0 ∷ b1 ∷ b2 ∷ bytes) h =
    let n = b0 * 65536 + b1 * 256 + b2 in
    rw
      (
        (digit (n % 64) (omega arith)).1,
        regroup n (omega arith),
        decode-base64_encode bytes h.1.1.1,
      )
      (cons_eq (omega arith) (cons_eq (omega arith) (cons_eq (omega arith) refl)))
