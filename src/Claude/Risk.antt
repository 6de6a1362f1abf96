-- ===== src/Claude/Risk.antt =====
-- crates/ats-provider-claude/src/risk.rs
pub mod Matching
use text.Mathlib.Text.{find?}
use agent_term_status.Prelude.{
  String, Bool, true, false, ◌||◌, Option, some, none, List, [], ◌∷◌, if◌then◌else◌, str_eq,
  is_some,
}
use agent_term_status.Core.{RiskLevel, medium, high, critical}

pub record RiskClassifier : Type 0 where
  pub patterns : List (String × RiskLevel)

unfoldable pub new : RiskClassifier
new = record {
  patterns =
      ("rm -rf", high)
      ∷ ("rm -r ", high)
      ∷ ("rmdir ", medium)
      ∷ ("git push --force", high)
      ∷ ("git push -f", high)
      ∷ ("git reset --hard", high)
      ∷ ("terraform apply", high)
      ∷ ("terraform destroy", high)
      ∷ ("kubectl delete", high)
      ∷ ("kubectl apply -f", medium)
      ∷ ("docker rm -f", high)
      ∷ ("docker system prune", high)
      ∷ ("npm publish", medium)
      ∷ ("yarn publish", medium)
      ∷ ("DROP TABLE", critical)
      ∷ ("DELETE FROM", critical)
      ∷ ("sudo ", high)
      ∷ ("chmod 777", high)
      ∷ ("chown ", medium)
      ∷ ("> /dev/", high)
      ∷ ("dd if=", high)
      ∷ ("mkfs.", critical)
      ∷ (":(){ :|:& };:", critical)
      ∷ ("curl ", medium)
      ∷ ("wget ", medium)
      ∷ [];
}

-- `str::contains`
abbrev pub contains : String → String → Bool
contains s t = is_some (find? s t)

-- The level of a command in which this pattern was found.
unfoldable pub level_of : String → String → RiskLevel → RiskLevel
level_of command pattern level =
    if str_eq pattern "curl "
    then (if contains command "| sh" || contains command "| bash" || contains command "install.sh"
        then high
        else level)
    else if str_eq pattern "wget "
    then (if contains command "| sh" || contains command "| bash" then high else level)
    else level

unfoldable pub classify_by : List (String × RiskLevel) → String → Option RiskLevel
classify_by [] command = none
classify_by ((pattern, level) ∷ patterns) command =
    if contains command pattern
    then some (level_of command pattern level)
    else classify_by patterns command

unfoldable pub classify : RiskClassifier → String → Option RiskLevel
classify classifier command = classify_by classifier.patterns command
