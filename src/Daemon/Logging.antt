-- ===== src/Daemon/Logging.antt =====
-- crates/ats-daemon/src/logging.rs: the writer between the log's records and its file. What is
-- written is the text that the bytes decode to.
pub mod Redaction
use Prim.Native.Char.{code, Char}
use Prim.Native.String
use agent_term_status.Prelude.{
  ℕ, zero, suc, String, Bool, true, false, ◌&&◌, ◌||◌, Option, some, none, Result, ok, err, leb,
  nat_eq, if◌then◌else◌, not, ◌⧺◌, ◌-◌,
}
use agent_term_status.Core.Label.{filter_chars, count_chars, take_chars}
use agent_term_status.Daemon.Framing.{IoError}

-- The test of `sanitize_control_chars`.
abbrev pub is_logged : ℕ → Bool
is_logged c =
    if leb c 0x1f || nat_eq c 0x7f
    then false
    else if leb 0x80 c && leb c 0x9f
    then false
    else if leb 0xd800 c && leb c 0xdfff
    then false
    else not (nat_eq c 0xfffd)

unfoldable pub sanitize_control_chars : String → String
sanitize_control_chars s = filter_chars is_logged s

-- Whether a text begins with another.
unfoldable pub begins : String → String → Bool
begins String.[] s = true
begins (String.◌∷◌ c p) String.[] = false
begins (String.◌∷◌ c p) (String.◌∷◌ d s) = nat_eq (code c) (code d) && begins p s

-- `str::replace` of a text that is not empty, from the left; so many characters of a match are still
-- to be left out.
unfoldable pub replace_from : String → String → ℕ → String → String
replace_from pattern new n String.[] = String.[]
replace_from pattern new (suc n) (String.◌∷◌ c s) = replace_from pattern new n s
replace_from pattern new zero (String.◌∷◌ c s) =
    let after_match = replace_from pattern new (count_chars pattern - 1) s in
    let after_char = replace_from pattern new zero s in
    if begins pattern (String.◌∷◌ c s) then new ⧺ after_match else String.◌∷◌ c after_char

-- `str::replace` of the empty text: it is found before each character, and at the end.
unfoldable pub replace_empty : String → String → String
replace_empty new String.[] = new
replace_empty new (String.◌∷◌ c s) = new ⧺ String.◌∷◌ c (replace_empty new s)

unfoldable pub replace : String → String → String → String
unfolding replace_from replace_empty
replace String.[] new s = replace_empty new s
replace (String.◌∷◌ c p) new s = replace_from (String.◌∷◌ c p) new zero s

-- No home where there is none, or where it is no text.
unfoldable pub redact_string : String → Option String → String
redact_string s none = sanitize_control_chars s
redact_string s (some home) = replace home "~" (sanitize_control_chars s)

-- The writer inside: what it has taken, how the next write fails, and the number of characters that
-- one call of `write` takes of a longer text, or `write_all` before it fails.
pub record Sink : Type 0 where
  pub taken : String
  pub failure : Option IoError
  pub room : ℕ

pub record RedactingWriter : Type 0 where
  pub inner : Sink
  pub enabled : Bool
  pub home_dir : Option String

abbrev put : RedactingWriter → String → RedactingWriter
put w s = record w { inner = record w.inner { taken = w.inner.taken ⧺ s } }

-- `self.inner.write(buf)`: it may take a beginning, and tells the number of bytes.
abbrev plain : RedactingWriter → String → Option IoError → RedactingWriter × Result ℕ IoError
plain w part none = (put w part, ok (String.len part))
plain w part (some e) = (w, err e)

-- `self.inner.write_all(…)?`, and the number of bytes of the text given.
abbrev whole : RedactingWriter → String → ℕ → Option IoError → RedactingWriter × Result ℕ IoError
whole w s n none = (put w s, ok n)
whole w s n (some e) = (put w (take_chars w.inner.room s), err e)

unfoldable pub write : String → RedactingWriter → RedactingWriter × Result ℕ IoError
write buf w =
    if not w.enabled
    then plain w (take_chars w.inner.room buf) w.inner.failure
    else whole w (redact_string buf w.home_dir) (String.len buf) w.inner.failure
