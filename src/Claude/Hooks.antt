-- ===== src/Claude/Hooks.antt =====
-- The names of crates/ats-provider-claude/src/adapter.rs: of hooks, of tools, and the words of a
-- notification.
use agent_term_status.Prelude.{
  String, ◌||◌, Option, some, none, List, [], ◌∷◌, if◌then◌else◌, str_eq, any,
}
use agent_term_status.Core.{
  EventType, user_input_required, user_approval_required, ActivityCategory, thinking, reading,
  editing, shell, network,
}
use agent_term_status.Claude.Risk.{contains}

-- The arms of the `match` on the name of a hook.
pub data Hook : Type 0 where
  session_start user_prompt_submit pre_tool_use post_tool_use : Hook
  post_tool_use_failure notification stop session_end unknown : Hook

unfoldable pub hook_of : String → Hook
hook_of t =
    if str_eq t "SessionStart"
    then session_start
    else if str_eq t "UserPromptSubmit"
    then user_prompt_submit
    else if str_eq t "PreToolUse"
    then pre_tool_use
    else if str_eq t "PostToolUse"
    then post_tool_use
    else if str_eq t "PostToolUseFailure"
    then post_tool_use_failure
    else if str_eq t "Notification"
    then notification
    else if str_eq t "Stop"
    then stop
    else if str_eq t "SessionEnd"
    then session_end
    else unknown

-- `categorize_tool` of a name.
abbrev category_of : String → ActivityCategory
category_of t =
    if any (str_eq t) ("Bash" ∷ "Shell" ∷ [])
    then shell
    else if any (str_eq t) ("Read" ∷ "Glob" ∷ "Grep" ∷ [])
    then reading
    else if any (str_eq t) ("Write" ∷ "Edit" ∷ [])
    then editing
    else if any (str_eq t) ("WebFetch" ∷ "WebSearch" ∷ [])
    then network
    else if any (str_eq t) ("Task" ∷ "TodoWrite" ∷ [])
    then thinking
    else if any (str_eq t) ("BashOutput" ∷ "KillShell" ∷ [])
    then shell
    else if str_eq t "NotebookEdit"
    then editing
    else ActivityCategory.unknown

unfoldable pub categorize_tool : Option String → ActivityCategory
categorize_tool none = ActivityCategory.unknown
categorize_tool (some t) = category_of t

abbrev pub valid_hooks : List String
valid_hooks =
    "SessionStart" ∷ "UserPromptSubmit" ∷ "PreToolUse" ∷ "PostToolUse" ∷ "PostToolUseFailure"
    ∷ "Notification" ∷ "Stop" ∷ "SessionEnd" ∷ []

module _ (to_lowercase : String → String) where
  unfoldable pub classify_notification : String → EventType
  classify_notification message =
      let lower = to_lowercase message in
      if contains lower "permission" || contains lower "approval" || contains lower "allow"
      then user_approval_required
      else user_input_required
