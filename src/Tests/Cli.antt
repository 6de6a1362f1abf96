-- ===== src/Tests/Cli.antt =====
-- The states that the command line reports, and the names of files.
use agent_term_status.Prelude.{false, some, none, ◌≡◌, refl}
use agent_term_status.Core.Basename.{file_name, pieces, last_named}
use agent_term_status.Core.{attention, working}
use agent_term_status.StateEngine.Priority.{state_from_event}
use agent_term_status.Cli.Hooks.{state_to_event_type}

-- ATTENTION is reported as an event that means WORKING.
attention_test : state_from_event (state_to_event_type attention) false ≡ working
unfolding state_from_event state_to_event_type
attention_test = refl

named_test : file_name "/home/me/x.rs" ≡ some "x.rs"
unfolding file_name pieces last_named
named_test = refl

parent_test : file_name "src/.." ≡ none
unfolding file_name pieces last_named
parent_test = refl

slashes_test : file_name "src/./" ≡ some "src"
unfolding file_name pieces last_named
slashes_test = refl
