-- ===== src/Tests/Log.antt =====
-- The log: what is redacted, and what `ats logs` prints.
use agent_term_status.Prelude.{
  ◌≡◌, ◌≢◌, ◌≤◌, refl, String, true, false, Option, some, none, [], ◌∷◌, length,
}
use agent_term_status.Core.Label.{filter_chars, count_chars}
use agent_term_status.Daemon.Logging.{
  redact_string, sanitize_control_chars, replace, replace_from, begins, write,
}
use agent_term_status.Daemon.Logging.Redaction.{IsRedacted, redact_string-IsRedacted}
use agent_term_status.Cli.Query.{lines, shown}
use agent_term_status.Cli.Query.Tail.{last, shown-last, logged, new_writer, shown-logged}

abbrev home : Option String
home = some "/home/me"

named_test : home ≢ some ""
named_test e = cc e

redacted_test : redact_string "see /home/me/x\n" home ≡ "see ~/x"
unfolding redact_string sanitize_control_chars filter_chars replace replace_from begins count_chars
redacted_test = refl

redact_string-IsRedacted_example : IsRedacted home (redact_string "see /home/me/x\n" home)
redact_string-IsRedacted_example = redact_string-IsRedacted "see /home/me/x\n" home named_test

lines_test : lines "a\r\n\nb" ≡ "a" ∷ "" ∷ "b" ∷ []
unfolding lines begins
lines_test = refl

shown-last_example :
    shown true (some "info") ("{\"level\":\"info\"}" ∷ "x" ∷ [])
    ≡ last 1000 (shown false (some "info") ("{\"level\":\"info\"}" ∷ "x" ∷ []))
shown-last_example = shown-last (some "info") ("{\"level\":\"info\"}" ∷ "x" ∷ [])

-- Two records are one line of the file.
joined_test :
    lines (logged ("first\n" ∷ "second\n" ∷ []) (new_writer home)).inner.taken ≡ "firstsecond" ∷ []
unfolding lines logged write redact_string sanitize_control_chars filter_chars replace replace_from
    begins count_chars
joined_test = refl

shown-logged_example :
    length
      (shown true none (lines (logged ("first\n" ∷ "second\n" ∷ []) (new_writer home)).inner.taken))
    ≤ 1
shown-logged_example = shown-logged home ("first\n" ∷ "second\n" ∷ []) true none named_test
