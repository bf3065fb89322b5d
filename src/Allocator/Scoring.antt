-- ===== src/Allocator/Scoring.antt =====
-- sampark/allocator/scoring.py and scorer.py: the shape of a score, the ranking key and the
-- interface of a scorer. Python floats are a type with the operations that the allocator uses.
use sampark.Base.{ℕ, ◌*◌, Bool, List, Result}
use sampark.Allocator.Candidate.{Candidate}

pub record Floats (F : Type 0) : Type 0 where
  pub of_int : ℕ → F
  pub add : F → F → F
  pub lt : F → F → Bool
  pub eq : F → F → Bool
  pub is_nonpos : F → Bool

pub record ScoreBreakdown (F : Type 0) : Type 0 where
  pub p_hat : F
  pub gross_paise : F
  pub incentive_expected_paise : F
  pub channel_cost_paise : ℕ
  pub fatigue_cost_paise : F
  pub expected_net_paise : F

-- `Scorer.score`: the candidate, the incentive, the contact index and the other open amounts.
abbrev pub Scorer : Type 0 → Type 0
Scorer F = Candidate → ℕ → ℕ → List ℕ → Result (ScoreBreakdown F)

-- Aging counts in the ranking only.
unfoldable pub priority : {F : Type 0} → Floats F → F → ℕ → ℕ → F
priority fl expected_net_paise windows_deferred aging_bonus_paise =
    fl.add expected_net_paise (fl.of_int (aging_bonus_paise * windows_deferred))
