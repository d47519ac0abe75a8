-- ===== src/Balance/RoundRobinRuns.antt =====
-- Runs of the round-robin strategy.
use Prim.Native.String.{String}
use sarama.Base.{ℕ, ◌≡◌, refl, false, List, [], ◌∷◌, map, All, length, arith}
use sarama.Balance.RoundRobin.{
  TopicAndPartition, MemberAndTopic, has_topic, element_at, Assigned, endless, planned,
  round_robin_plan,
}
use sarama.Balance.Complete.{
  Subscribed, Fitting, round_robin_plan-planned, round_robin_plan-endless,
}

abbrev ann : MemberAndTopic
ann = record { member_id = "ann"; topics = "a" ∷ "b" ∷ [] }

abbrev bob : MemberAndTopic
bob = record { member_id = "bob"; topics = "b" ∷ [] }

abbrev of_topic : String → ℕ → TopicAndPartition
of_topic t p = record { topic = t; partition = p }

abbrev partitions : List TopicAndPartition
partitions = of_topic "a" 0 ∷ of_topic "a" 1 ∷ of_topic "b" 0 ∷ of_topic "b" 1 ∷ []

partitions-planned :
    round_robin_plan 2 (ann ∷ bob ∷ []) 2 partitions
    ≡ planned (
        (ann, of_topic "a" 0)
        ∷ (ann, of_topic "a" 1)
        ∷ (bob, of_topic "b" 0)
        ∷ (ann, of_topic "b" 1)
        ∷ [])
unfolding round_robin_plan
partitions-planned = refl

subscribers : All (Subscribed ann (bob ∷ [])) partitions
unfolding has_topic element_at
subscribers = (
  (0, omega arith, refl),
  ((0, omega arith, refl), ((1, omega arith, refl), ((1, omega arith, refl), tt))),
)

round_robin_plan-planned_example :
    (plan : List Assigned) × (round_robin_plan
        (length (ann ∷ bob ∷ []))
        (ann ∷ bob ∷ [])
        2
        partitions
      ≡ planned plan)
    × (map (λ (a : Assigned). a.1) plan ≡ partitions)
    × All (Fitting ann (bob ∷ [])) plan
round_robin_plan-planned_example = round_robin_plan-planned ann (bob ∷ []) 1 partitions subscribers

nobody_reads : All (λ (n : MemberAndTopic). has_topic n.topics "c" ≡ false) (ann ∷ bob ∷ [])
unfolding has_topic
nobody_reads = (refl, (refl, tt))

round_robin_plan-endless_example :
    round_robin_plan 1000 (ann ∷ bob ∷ []) 1 (of_topic "c" 0 ∷ []) ≡ endless
round_robin_plan-endless_example =
    round_robin_plan-endless 1000 ann (bob ∷ []) 0 (of_topic "c" 0) [] nobody_reads
