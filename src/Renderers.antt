-- ===== src/Renderers.antt =====
-- The crates of the renderers. What crates/ats-renderer-{iterm2,tmux,notification}/src/lib.rs share
-- is here: the entry of the theme and the parts of a title.
pub mod ITerm2
pub mod Tmux
pub mod Process
pub mod Notification
use agent_term_status.Prelude.{
  String, Bool, Option, some, none, List, [], ◌∷◌, ◌++◌, if◌then◌else◌, str_eq, ◌⧺◌,
}
use agent_term_status.Core.{AgentState, ActivityLabel}
use agent_term_status.Config.Theme
use agent_term_status.Config.Theme.{Theme, ThemeEntry}

-- `self.theme.as_ref().and_then(|t| t.resolve(state))`
abbrev pub resolve_entry : Option Theme → AgentState → Option ThemeEntry
resolve_entry none state = none
resolve_entry (some theme) state = Theme.resolve theme state

abbrev pub symbol_or : Option ThemeEntry → String
symbol_or none = "?"
symbol_or (some e) = e.symbol

abbrev pub label_or : Option ThemeEntry → String
label_or none = ""
label_or (some e) = e.label

abbrev text_or : Option ActivityLabel → String
text_or none = ""
text_or (some l) = l.text

-- `if !s.is_empty() { parts.push(s) }`, before the parts that follow.
abbrev push_part : String → List String → List String
push_part s parts = if str_eq s "" then parts else s ∷ parts

-- The symbol, the state's label and the activity's, those that are not empty.
unfoldable pub title_parts : Option ThemeEntry → Option ActivityLabel → List String
title_parts entry label =
    push_part (symbol_or entry) (push_part (label_or entry) (push_part (text_or label) []))

-- `parts.join(" · ")`
unfoldable pub join : List String → String
join [] = ""
join (s ∷ []) = s
join (s ∷ t ∷ parts) = s ⧺ (" · " ⧺ join (t ∷ parts))
