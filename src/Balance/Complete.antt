-- ===== src/Balance/Complete.antt =====
-- The searches of the round-robin strategy end, and its plan is complete.
use Prim.Native.String.{String}
use sarama.Base.{
  ℕ, zero, suc, ◌+◌, ◌-◌, ◌%◌, ◌≤◌, ◌<◌, ◌≡◌, refl, sym, ap, subst, ◌∙◌, inl, inr, Bool, true,
  false, List, [], ◌∷◌, map, Option, none, some, length, All, Bool-cases, ltb, ltb→lt, ltb→le,
  arith,
}
use native.Mathlib.Nat.{mod-lt, mod-add-mod, add-mod_left, mod-eq_of_lt}
use sarama.Balance.RoundRobin.{
  TopicAndPartition, MemberAndTopic, has_topic, element_at, member_at, takes, search, Assigned,
  cons_assigned, when_found, assign, endless, planned, planned_if, round_robin_plan,
}

-- A search that meets what it looks for in `d` rounds.
search-some :
    (has : ℕ → Bool) (fuel i d : ℕ)
    → d < fuel
    → has (i + d) ≡ true
    → (j : ℕ) × (search has fuel i ≡ some j) × (has j ≡ true)
unfolding search
search-some has zero i d l h = absurd (omega arith)
search-some has (suc fuel) i zero l h =
    let h' : has i ≡ true = subst (λ n. has n ≡ true) (omega arith) h in (i, rw h' refl, h')
search-some has (suc fuel) i (suc d) l h = elim (Bool-cases (has i)) [
  | inl e ↦ (i, rw e refl, e)
  | inr e ↦
      let (j, found, good) =
        search-some has fuel (i + 1) d (omega arith) (subst (λ n. has n ≡ true) (omega arith) h) in
      (j, rw e found, good)
]

search-none : (has : ℕ → Bool) (fuel i : ℕ) → ((n : ℕ) → has n ≡ false) → search has fuel i ≡ none
unfolding search
search-none has zero i h = refl
search-none has (suc fuel) i h = rw (h i) (search-none has fuel (i + 1) h)

-- Every index below `n` is met in `n` rounds.
around : (n i k : ℕ) → k < n → (d : ℕ) × (d < n) × ((i + d) % n ≡ k)
around n i k l = elim (Bool-cases (ltb k (i % n))) [
  | inr e ↦
      let low : i % n ≤ k = ltb→le k (i % n) e in
      (
        k - i % n,
        omega (arith, l),
        sym (mod-add-mod i n (k - i % n)) ∙ ap (λ x. x % n) (omega (arith, low)) ∙ mod-eq_of_lt l,
      )
  | inl e ↦
      let high : k < i % n = ltb→lt k (i % n) e in
      let small : i % n < n = mod-lt i (omega (arith, l)) in
      (
        n - i % n + k,
        omega (arith, high, small),
        sym (mod-add-mod i n (n - i % n + k))
            ∙ ap (λ x. x % n) (omega (arith, small))
            ∙ add-mod_left n k
            ∙ mod-eq_of_lt l,
      )
]

-- A member that subscribes the topic of a partition.
abbrev pub Subscribed : MemberAndTopic → List MemberAndTopic → TopicAndPartition → Type 0
Subscribed m ms tp =
    (k : ℕ) × (k < suc (length ms)) × (has_topic (element_at m ms k).topics tp.topic ≡ true)

-- A partition goes to a member of the group that subscribes its topic.
abbrev pub Fitting : MemberAndTopic → List MemberAndTopic → Assigned → Type 0
Fitting m ms (n, tp) =
    (k : ℕ) × (k < suc (length ms)) × (n ≡ element_at m ms k) × (has_topic n.topics tp.topic ≡ true)

abbrev Complete :
    MemberAndTopic → List MemberAndTopic → List TopicAndPartition → Option (List Assigned) → Type 0
Complete m ms tps none = ⊥
Complete m ms tps (some plan) = (map (λ (a : Assigned). a.1) plan ≡ tps) × All (Fitting m ms) plan

cons-Complete :
    (m : MemberAndTopic) (ms : List MemberAndTopic) (n : MemberAndTopic) (tp : TopicAndPartition)
    (tps : List TopicAndPartition) (o : Option (List Assigned))
    → Fitting m ms (n, tp)
    → Complete m ms tps o
    → Complete m ms (tp ∷ tps) (cons_assigned (n, tp) o)
cons-Complete m ms n tp tps none h c = c
cons-Complete m ms n tp tps (some plan) h c =
    (ap (λ (t : List TopicAndPartition). tp ∷ t) c.0, (h, c.1))

assign-Complete :
    (m : MemberAndTopic) (ms : List MemberAndTopic) (tps : List TopicAndPartition) (i : ℕ)
    → All (Subscribed m ms) tps
    → Complete m ms tps (assign (suc (length ms)) m ms tps i)
unfolding assign member_at
assign-Complete m ms [] i h = (refl, tt)
assign-Complete m ms (tp ∷ tps) i h =
    let (k, l, good) = h.0 in
    let (d, e, at) = around (suc (length ms)) i k l in
    let (j, found, fit) =
      search-some (takes m ms tp.topic) (suc (length ms)) i d e
        (subst (λ n. has_topic (element_at m ms n).topics tp.topic ≡ true) (sym at) good) in
    subst
      (λ (o : Option ℕ). Complete m ms (tp ∷ tps) (
        when_found o
          (λ n. cons_assigned (member_at m ms n, tp) (assign (suc (length ms)) m ms tps (n + 1)))))
      (sym found)
      (cons-Complete m ms (member_at m ms j) tp tps (assign (suc (length ms)) m ms tps (j + 1))
        (j % suc (length ms), mod-lt j (omega arith), refl, fit)
        (assign-Complete m ms tps (j + 1) h.1))

planned-Complete :
    (m : MemberAndTopic) (ms : List MemberAndTopic) (tps : List TopicAndPartition)
    (o : Option (List Assigned))
    → Complete m ms tps o
    → (plan : List Assigned) × (planned_if o ≡ planned plan)
      × (map (λ (a : Assigned). a.1) plan ≡ tps)
      × All (Fitting m ms) plan
planned-Complete m ms tps none c = absurd c
planned-Complete m ms tps (some plan) c = (plan, refl, c.0, c.1)

-- Where every topic has a member that subscribes it, every search ends within as many rounds as there
-- are members, and the plan has each partition once, in order, at a member of the group
-- that subscribes its topic.
pub round_robin_plan-planned :
    (m : MemberAndTopic) (ms : List MemberAndTopic) (topics : ℕ) (tps : List TopicAndPartition)
    → All (Subscribed m ms) tps
    → (plan : List Assigned) × (round_robin_plan (length (m ∷ ms)) (m ∷ ms) (suc topics) tps
        ≡ planned plan)
      × (map (λ (a : Assigned). a.1) plan ≡ tps)
      × All (Fitting m ms) plan
unfolding round_robin_plan
round_robin_plan-planned m ms topics tps h =
    planned-Complete m ms tps (assign (suc (length ms)) m ms tps 0) (assign-Complete m ms tps 0 h)

nobody :
    (m : MemberAndTopic) (ms : List MemberAndTopic) (t : String)
    → All (λ (n : MemberAndTopic). has_topic n.topics t ≡ false) (m ∷ ms)
    → (k : ℕ) → has_topic (element_at m ms k).topics t ≡ false
unfolding element_at
nobody m ms t h zero = h.0
nobody m [] t h (suc k) = h.0
nobody m (n ∷ ms) t h (suc k) = nobody n ms t h.1 k

-- Where nobody subscribes the topic of the first partition, the search for a member does not end,
-- however many rounds it is given.
pub round_robin_plan-endless :
    (fuel : ℕ) (m : MemberAndTopic) (ms : List MemberAndTopic) (topics : ℕ) (tp : TopicAndPartition)
    (tps : List TopicAndPartition)
    → All (λ (n : MemberAndTopic). has_topic n.topics tp.topic ≡ false) (m ∷ ms)
    → round_robin_plan fuel (m ∷ ms) (suc topics) (tp ∷ tps) ≡ endless
unfolding round_robin_plan assign member_at
round_robin_plan-endless fuel m ms topics tp tps h =
    ap
      (λ (o : Option ℕ).
        planned_if
          (when_found o (λ j. cons_assigned (member_at m ms j, tp) (assign fuel m ms tps (j + 1)))))
      (search-none (takes m ms tp.topic) fuel 0 (λ n. nobody m ms tp.topic h (n % suc (length ms))))
