-- ===== src/Balance/Runs.antt =====
-- Runs of the balance strategies.
use sarama.Base.{ℕ, ◌≡◌, refl, List, [], ◌∷◌, arith}
use sarama.Balance.Range.{range_plan, shares, share_min, share_max, assigned, assigned-range_plan}

abbrev members : List ℕ
members = 1 ∷ 2 ∷ 3 ∷ []

abbrev partitions : List ℕ
partitions = 10 ∷ 11 ∷ 12 ∷ 13 ∷ 14 ∷ []

plan_of_five :
    range_plan members partitions ≡ (1, 10 ∷ 11 ∷ []) ∷ (2, 12 ∷ 13 ∷ []) ∷ (3, 14 ∷ []) ∷ []
unfolding range_plan shares share_min share_max
plan_of_five = refl

assigned-range_plan_example : assigned (range_plan members partitions) ≡ partitions
assigned-range_plan_example = assigned-range_plan members partitions (omega arith)
