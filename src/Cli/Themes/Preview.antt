-- ===== src/Cli/Themes/Preview.antt =====
-- `run_preview` of crates/ats-cli/src/theme_commands.rs, with the printing of numbers and padded
-- columns as parameters.
use Prim.Native.Char.{code}
use text.Mathlib.Text.{get?}
use agent_term_status.Prelude.{
  ℕ, ◌+◌, ◌*◌, ◌-◌, String, String_eq, ◌&&◌, Option, some, none, List, [], ◌∷◌, Result, ok, err,
  leb, nat_eq, if◌then◌else◌, ◌⧺◌,
}
use agent_term_status.Config.Theme
use agent_term_status.Config.Theme.{Theme, ThemeEntry}
use agent_term_status.Core.{AgentState}
use agent_term_status.Host.{Run, pure, stop, exit, println, eprintln, ◌>>=◌, ◌>>◌}
use agent_term_status.Cli.Themes.{all_states, state_name}

-- A digit of base 16.
abbrev hex_digit : ℕ → Option ℕ
hex_digit c =
    if leb 48 c && leb c 57
    then some (c - 48)
    else if leb 65 c && leb c 70
    then some (c - 55)
    else if leb 97 c && leb c 102
    then some (c - 87)
    else none

abbrev two_digits : Option ℕ → Option ℕ → Option ℕ
two_digits (some a) (some b) = some (a * 16 + b)
two_digits (some a) none = none
two_digits none o = none

-- `u8::from_str_radix(s, 16)` of two characters: the first may be a plus sign.
unfoldable pub from_hex : String → Option ℕ
from_hex String.[] = none
from_hex (String.◌∷◌ c String.[]) = none
from_hex (String.◌∷◌ c (String.◌∷◌ d String.[])) =
    if nat_eq (code c) 43
    then hex_digit (code d)
    else two_digits (hex_digit (code c)) (hex_digit (code d))
from_hex (String.◌∷◌ c (String.◌∷◌ d (String.◌∷◌ e s))) = none

abbrev or_zero : Option ℕ → ℕ
or_zero none = 0
or_zero (some n) = n

abbrev hex_of : Option String → Option ℕ
hex_of none = none
hex_of (some s) = from_hex s

-- The number in two bytes of a colour, or 0.
unfoldable pub channel : String → ℕ → ℕ → ℕ
unfolding from_hex
channel hex a b = or_zero (hex_of (get? hex a b))

-- A number, and a text in a column of some width.
module _ (show_number : ℕ → String) (pad : ℕ → String → String) where
  abbrev swatch : Option String → String
  swatch none = "  "
  swatch (some hex) =
      "\u{1b}[48;2;"
      ⧺ (show_number (channel hex 1 3)
          ⧺ (";"
              ⧺ (show_number (channel hex 3 5)
                  ⧺ (";" ⧺ (show_number (channel hex 5 7) ⧺ "m  \u{1b}[0m")))))

  abbrev or_dash : Option String → String
  or_dash none = "-"
  or_dash (some color) = color

  abbrev row : AgentState → Option ThemeEntry → Run (Unit {0})
  row state none = pure tt
  row state (some entry) = println (
      "  "
      ⧺ (pad 12 (state_name state)
          ⧺ (" "
              ⧺ (pad 10 (or_dash entry.color)
                  ⧺ (" "
                      ⧺ (pad 12 entry.symbol
                          ⧺ (" "
                              ⧺ (pad 12 entry.label
                                  ⧺ (" "
                                      ⧺ (swatch entry.color
                                          ⧺ ("  "
                                              ⧺ (if entry.notification
                                                  then "yes"
                                                  else "no"))))))))))))

  unfoldable pub rows : Theme → List AgentState → Run (Unit {0})
  rows theme [] = pure tt
  rows theme (state ∷ states) = row state (Theme.resolve theme state) >> rows theme states

  abbrev previewed : Result Theme String → Run (Unit {0})
  previewed (err e) = eprintln e >> stop (exit 1)
  previewed (ok theme) = do
    println ("Preview: " ⧺ theme.name)
    println ""
    println (
        "  "
        ⧺ (pad 12 "STATE"
            ⧺ (" "
                ⧺ (pad 10 "COLOR"
                    ⧺ (" " ⧺ (pad 12 "SYMBOL" ⧺ (" " ⧺ (pad 12 "LABEL" ⧺ "  Notification"))))))))
    println "  ------------ ---------- ------------ ------------  ------------"
    rows theme all_states
    println ""

  unfoldable pub run_preview : (String → Run (Result Theme String)) → String → Run (Unit {0})
  run_preview load name = load name >>= previewed
