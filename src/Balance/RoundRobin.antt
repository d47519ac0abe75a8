-- ===== src/Balance/RoundRobin.antt =====
-- The round-robin strategy of balance_strategy.go, given the partitions and the members sorted.
use Prim.Native.String.{String}
use text.Mathlib.Text.{◌==◌ as str_eq}
use sarama.Base.{
  ℕ, zero, suc, ◌+◌, ◌%◌, Bool, false, ◌||◌, List, [], ◌∷◌, Option, none, some, length,
  if◌then◌else◌,
}

pub record TopicAndPartition : Type 0 where
  pub topic : String
  pub partition : ℕ

-- The set of topics is a list.
pub record MemberAndTopic : Type 0 where
  pub member_id : String
  pub topics : List String

unfoldable pub has_topic : List String → String → Bool
has_topic [] t = false
has_topic (u ∷ us) t = str_eq u t || has_topic us t

-- `xs[n]`, for an index inside a list that starts with `x`.
unfoldable pub element_at {ℓ} : {A : Type ℓ} → A → List A → ℕ → A
element_at x xs zero = x
element_at x [] (suc n) = x
element_at x (y ∷ ys) (suc n) = element_at y ys n

-- `members[i%n]`
unfoldable pub member_at : MemberAndTopic → List MemberAndTopic → ℕ → MemberAndTopic
unfolding element_at
member_at m ms i = element_at m ms (i % suc (length ms))

abbrev pub takes : MemberAndTopic → List MemberAndTopic → String → ℕ → Bool
takes m ms t i = has_topic (member_at m ms i).topics t

-- The inner loop, from `i` on; `fuel` bounds its rounds.
unfoldable pub search : (ℕ → Bool) → ℕ → ℕ → Option ℕ
search has zero i = none
search has (suc fuel) i = let rest = search has fuel (i + 1) in if has i then some i else rest

abbrev pub Assigned : Type 0
Assigned = MemberAndTopic × TopicAndPartition

abbrev pub cons_assigned : Assigned → Option (List Assigned) → Option (List Assigned)
cons_assigned a none = none
cons_assigned a (some plan) = some (a ∷ plan)

abbrev pub when_found : Option ℕ → (ℕ → Option (List Assigned)) → Option (List Assigned)
when_found none next = none
when_found (some j) next = next j

-- The outer loop from `i` on, which adds to the plan in this order; `none` is a search that has not
-- ended.
unfoldable pub assign :
    ℕ → MemberAndTopic → List MemberAndTopic → List TopicAndPartition → ℕ → Option (List Assigned)
unfolding search member_at has_topic
assign fuel m ms [] i = some []
assign fuel m ms (tp ∷ tps) i =
    when_found (search (takes m ms tp.topic) fuel i)
      (λ j. cons_assigned (member_at m ms j, tp) (assign fuel m ms tps (j + 1)))

pub data Planned : Type 0 where
  not_provided endless : Planned
  planned : List Assigned → Planned

abbrev pub planned_if : Option (List Assigned) → Planned
planned_if none = endless
planned_if (some plan) = planned plan

-- The whole of it, of the sorted members, the number of topics and the sorted partitions of them all, with fuel
-- for each search.
unfoldable pub round_robin_plan : ℕ → List MemberAndTopic → ℕ → List TopicAndPartition → Planned
unfolding assign
round_robin_plan fuel [] topics tps = not_provided
round_robin_plan fuel (m ∷ ms) zero tps = not_provided
round_robin_plan fuel (m ∷ ms) (suc topics) tps = planned_if (assign fuel m ms tps 0)
