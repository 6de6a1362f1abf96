-- ===== src/Claude/Risk/Matching.antt =====
-- `RiskClassifier::classify` (crates/ats-provider-claude/src/risk.rs): which pattern decides the
-- level of a command.
use agent_term_status.Prelude.{
  String, true, false, Option, some, none, List, [], ◌∷◌, ◌++◌, ◌≡◌, refl, ap, All, Bool-cases, inl,
  inr,
}
use agent_term_status.Core.{RiskLevel}
use agent_term_status.Claude.Risk.{contains, level_of, classify_by, classify, RiskClassifier}

module _ (command : String) where
  abbrev pub IsAbsent : String × RiskLevel → Type 0
  IsAbsent entry = contains command entry.0 ≡ false

  -- A level with the place in the list that it comes from.
  pub data Decided (patterns : List (String × RiskLevel)) : Option RiskLevel → Type 0 where
    harmless : All IsAbsent patterns → Decided patterns none
    by_first :
        (before after : List (String × RiskLevel)) (pattern : String) (level : RiskLevel)
        → patterns ≡ before ++ (pattern, level) ∷ after
        → All IsAbsent before
        → contains command pattern ≡ true
        → Decided patterns (some (level_of command pattern level))

  later :
      (entry : String × RiskLevel) (patterns : List (String × RiskLevel)) (r : Option RiskLevel)
      → IsAbsent entry
      → Decided patterns r
      → Decided (entry ∷ patterns) r
  later entry patterns _ a (harmless all_) = harmless (a, all_)
  later entry patterns _ a (by_first before after p l split all_ found) =
      by_first (entry ∷ before) after p l (ap (◌∷◌ entry) split) (a, all_) found

  classify_by-Decided :
      (patterns : List (String × RiskLevel)) → Decided patterns (classify_by patterns command)
  unfolding classify_by
  classify_by-Decided [] = harmless tt
  classify_by-Decided ((p, l) ∷ patterns) = elim (Bool-cases (contains command p)) [
    | inl found ↦ rw found (by_first [] patterns p l refl tt found)
    | inr absent ↦
        rw absent (
          later (p, l) patterns (classify_by patterns command) absent
            (classify_by-Decided patterns))
  ]

  -- A command has no level exactly when it contains none of the patterns; otherwise the first
  -- pattern of the list that it contains decides the level, whatever stands later in the list.
  classify-Decided :
      (classifier : RiskClassifier) → Decided classifier.patterns (classify classifier command)
  unfolding classify
  classify-Decided classifier = classify_by-Decided classifier.patterns
