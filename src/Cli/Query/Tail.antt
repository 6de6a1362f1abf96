-- ===== src/Cli/Query/Tail.antt =====
-- What `ats logs` prints of a file.
use Prim.Native.Char.{Char}
use agent_term_status.Prelude.{
  ℕ, zero, suc, ◌-◌, ◌≤◌, ◌≡◌, refl, sym, ◌∙◌, ap, String, Bool, true, false, Option, some, none,
  List, [], ◌∷◌, ◌++◌, append-nil, append_assoc, length, length-append, drop, nat_eq, not, arith,
  ◌⧺◌, ◌≢◌, Bool-cases, inl, inr,
}
use agent_term_status.Core.Label.{take_chars, all_chars, all_chars-append, all_chars-take_chars}
use agent_term_status.Daemon.Framing.{IoError}
use agent_term_status.Daemon.Logging.{RedactingWriter, write, redact_string}
use agent_term_status.Daemon.Logging.Redaction.{is_shown, redact_string-IsRedacted}
use agent_term_status.Cli.Query.{
  lines, consed, newline, push, fill, filtered, matches, needle, shown,
}

-- The last so many elements.
abbrev pub last : ℕ → List String → List String
last n xs = drop (length xs - n) xs

drop_pred : (n : ℕ) (x : String) (xs : List String) → 1 ≤ n → drop n (x ∷ xs) ≡ drop (n - 1) xs
drop_pred zero x xs h = absurd (omega arith)
drop_pred (suc n) x xs h = ap (λ m. drop m xs) (omega arith)

-- A full ring loses its oldest line to a new one.
last-full :
    (x line : String) (ring rest : List String)
    → length ring ≡ 999
    → last 1000 (x ∷ ring ++ line ∷ rest) ≡ last 1000 (ring ++ line ∷ rest)
last-full x line ring rest h =
    drop_pred (length (x ∷ ring ++ line ∷ rest) - 1000) x (ring ++ line ∷ rest)
      (omega (arith, h, length-append ring (line ∷ rest)))
    ∙ ap (λ m. drop m (ring ++ line ∷ rest)) (omega arith)

last-push :
    (ring : List String) (line : String) (rest : List String)
    → length ring ≤ 1000
    → last 1000 (push ring line ++ rest) ≡ last 1000 (ring ++ line ∷ rest)
last-push [] line rest h = refl
last-push (x ∷ ring) line rest h = elim (Bool-cases (nat_eq (length (x ∷ ring)) 1000)) [
  | inl full ↦ rw full (
      ap (last 1000) (append_assoc ring (line ∷ []) rest)
      ∙ sym (last-full x line ring rest (ground (arith, full))))
  | inr room ↦ rw room (ap (last 1000) (append_assoc (x ∷ ring) (line ∷ []) rest))
]

length-push :
    (ring : List String) (line : String) → length ring ≤ 1000 → length (push ring line) ≤ 1000
length-push [] line h = omega arith
length-push (x ∷ ring) line h =
    ground (arith, length-append ring (line ∷ []), length-append (x ∷ ring) (line ∷ []))

fill-last :
    (n : Option String) (ls ring : List String)
    → length ring ≤ 1000
    → fill n ring ls ≡ last 1000 (ring ++ filtered n ls)
unfolding fill filtered
fill-last n [] ring h =
    let none_dropped : length ring - 1000 ≡ 0 = omega arith in
    sym (ap (last 1000) (append-nil ring) ∙ ap (λ m. drop m ring) none_dropped)
fill-last n (line ∷ ls) ring h = elim (Bool-cases (matches n line)) [
  | inl matching ↦ rw matching (
      fill-last n ls (push ring line) (length-push ring line h)
      ∙ last-push ring line (filtered n ls) h)
  | inr other ↦ rw other (fill-last n ls ring h)
]

-- With --tail, `ats logs` shows the last 1000 of the lines that it shows without it, at any level.
pub shown-last :
    (level : Option String) (ls : List String)
    → shown true level ls ≡ last 1000 (shown false level ls)
unfolding shown
shown-last level ls = fill-last (needle level) ls [] (omega arith)

consed-short : (c : Char) (ls : List String) → length ls ≤ 1 → length (consed c ls) ≤ 1
consed-short c [] h = omega arith
consed-short c (l ∷ ls) h = h

-- A text without a newline is one line at most.
length-lines :
    (s : String) → all_chars (λ c. not (nat_eq c newline)) s ≡ true → length (lines s) ≤ 1
unfolding lines all_chars
length-lines String.[] h = omega arith
length-lines (String.◌∷◌ c s) h = ground (arith, h, length-lines s, consed-short c (lines s))

-- What is logged holds no newline.
abbrev is_inline : ℕ → Bool
is_inline c = not (nat_eq c newline)

inline-logged : (s : String) → all_chars is_shown s ≡ true → all_chars is_inline s ≡ true
unfolding all_chars
inline-logged String.[] h = refl
inline-logged (String.◌∷◌ c s) h = ground (arith, h, inline-logged s)

-- The writer after a run of records.
unfoldable pub logged : List String → RedactingWriter → RedactingWriter
logged [] w = w
logged (r ∷ rs) w = logged rs (write r w).0

abbrev writer : Option String → ℕ → String → Option IoError → RedactingWriter
writer home room taken failure = record {
  inner = record { taken = taken; failure = failure; room = room };
  enabled = true;
  home_dir = home;
}

logged-inline :
    (home : Option String) (room : ℕ) (rs : List String) (t : String) (o : Option IoError)
    → home ≢ some ""
    → all_chars is_inline t ≡ true
    → all_chars is_inline (logged rs (writer home room t o)).inner.taken ≡ true
unfolding logged write
logged-inline home room [] t o ne h = h
logged-inline home room (r ∷ rs) t none ne h =
    logged-inline home room rs (t ⧺ redact_string r home) none ne (
      all_chars-append is_inline t (redact_string r home) h
        (inline-logged (redact_string r home) (redact_string-IsRedacted r home ne).printable))
logged-inline home room (r ∷ rs) t (some e) ne h =
    let part = take_chars room (redact_string r home) in
    logged-inline home room rs (t ⧺ part) (some e) ne (
      all_chars-append is_inline t part h (
        all_chars-take_chars is_inline room (redact_string r home)
          (inline-logged (redact_string r home) (redact_string-IsRedacted r home ne).printable)))

length-drop_le : (n : ℕ) (xs : List String) → length (drop n xs) ≤ length xs
length-drop_le zero xs = omega arith
length-drop_le (suc n) [] = omega arith
length-drop_le (suc n) (x ∷ xs) = omega (arith, length-drop_le n xs)

length-filtered : (n : Option String) (ls : List String) → length (filtered n ls) ≤ length ls
unfolding filtered
length-filtered n [] = omega arith
length-filtered n (line ∷ ls) = ground (arith, length-filtered n ls)

length-shown :
    (tail : Bool) (level : Option String) (ls : List String)
    → length (shown tail level ls) ≤ length ls
unfolding shown
length-shown false level ls = length-filtered (needle level) ls
length-shown true level ls = rw (fill-last (needle level) ls [] (omega arith)) (
    omega (
      arith,
      length-filtered (needle level) ls,
      length-drop_le (length (filtered (needle level) ls) - 1000) (filtered (needle level) ls),
    ))

-- A writer that redacts, over an empty file.
abbrev pub new_writer : Option String → RedactingWriter
new_writer home = writer home 0 "" none

-- Of the file that the redacting writer makes of any records, `ats logs` shows one line at most,
-- with --tail or without, at any level. The path of the home directory is not empty.
pub shown-logged :
    (home : Option String) (records : List String) (tail : Bool) (level : Option String)
    → home ≢ some ""
    → length (shown tail level (lines (logged records (new_writer home)).inner.taken)) ≤ 1
unfolding all_chars
shown-logged home records tail level ne =
    let text : String = (logged records (new_writer home)).inner.taken in
    omega (
      arith,
      length-lines text (logged-inline home 0 records "" none ne refl),
      length-shown tail level (lines text),
    )
