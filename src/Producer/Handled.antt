-- ===== src/Producer/Handled.antt =====
-- The handling of an answer neither loses a message nor makes one twice.
use sarama.Base.{
  ℕ, ◌+◌, ◌≡◌, refl, sym, ap, ◌∙◌, inl, inr, Bool, List, [], ◌∷◌, Option, none, some, Bool-cases,
  if_both, leb, ◌==◌, if◌then◌else◌, arith,
}
use sarama.Base.Int.{ℤ}
use sarama.Txn.Errors.{KError}
use sarama.Txn.State.{TopicPartition}
use sarama.Producer.Messages.{ProducerMessage, Config, Reason}
use sarama.Producer.Set.{PartitionSet, ProduceSet, find_set, drop_found, drop_partition}
use sarama.Producer.Totals.{total, total-remove_set, IsCounted, drop_partition-IsCounted}
use sarama.Producer.Broker.{
  Results, BrokerProducer, with_offsets, Verdict, verdict, settle_by, settle, raise_one, raised,
  resend, retry_batch, retry_set, retry_partition,
}
use sarama.Producer.Run.{is_left_by, retry_answered, retry_all}
use sarama.Producer.Tally.{
  one, count, count_set, tally_results, total-append, return_errors-tally, return_successes-tally,
  retry_messages-tally, with_offsets-count,
}

abbrev pub held : ℕ → ProduceSet → ℕ
held x ps = total (count_set x) ps.sets

abbrev pub flight : ℕ → List ProduceSet → ℕ
flight x [] = 0
flight x (p ∷ ps) = held x p + flight x ps

-- How often `x` is anywhere.
abbrev pub tally : ℕ → BrokerProducer → ℕ
tally x bp = held x bp.buffer + flight x bp.in_flight + tally_results x bp.results

-- What the first pass leaves of a set, and what it settles.
abbrev pub left_count : Config → ℕ → Option (KError × ℤ) → PartitionSet → ℕ
left_count c x none s = 0
left_count c x (some (e, o)) s = if is_left_by c (verdict e) then count_set x s else 0

abbrev pub settled_by : Config → ℕ → Verdict → PartitionSet → ℕ
settled_by c x v s = if is_left_by c v then 0 else count_set x s

abbrev pub settled_count : Config → ℕ → Option (KError × ℤ) → PartitionSet → ℕ
settled_count c x none s = count_set x s
settled_count c x (some (e, o)) s = settled_by c x (verdict e) s

-- The messages are as often in the one as in the other.
abbrev pub Counts : ℕ → List ProducerMessage → Option (List ProducerMessage) → Type 0
Counts x ms none = Unit {0}
Counts x ms (some ns) = count x ns ≡ count x ms

module _ (x : ℕ) (c : Config) where
  settle_by-tally :
      (v : Verdict) (b : KError × ℤ) (s : PartitionSet) (r : Results)
      → tally_results x (settle_by c v b s r) ≡ tally_results x r + settled_by c x v s
  unfolding settle_by
  settle_by-tally Verdict.success (e, o) s r =
      return_successes-tally x (with_offsets o s.msgs) r
      ∙ ap (λ n. tally_results x r + n) (with_offsets-count x s.msgs o)
  settle_by-tally Verdict.duplicate (e, o) s r = return_successes-tally x s.msgs r
  settle_by-tally Verdict.retriable (e, o) s r = elim (Bool-cases (c.retry_max == 0)) [
    | inl h ↦ simp h (return_errors-tally x (Reason.answer e) s.msgs r)
    | inr h ↦ simp h (omega arith)
  ]
  settle_by-tally Verdict.other (e, o) s r = return_errors-tally x (Reason.answer e) s.msgs r

  pub settle-tally :
      (b : Option (KError × ℤ)) (s : PartitionSet) (r : Results)
      → tally_results x (settle c b s r) ≡ tally_results x r + settled_count c x b s
  unfolding settle
  settle-tally none s r = return_errors-tally x Reason.incomplete_response s.msgs r
  settle-tally (some (e, o)) s r = settle_by-tally (verdict e) (e, o) s r

  raise_one-count :
      (m : ProducerMessage) (ms : List ProducerMessage) (o : Option (List ProducerMessage))
      → Counts x ms o
      → Counts x (m ∷ ms) (raise_one m o)
  raise_one-count m ms none h = tt
  raise_one-count m ms (some ns) h = ap (λ n. one x m + n) h

  raised-count : (ms : List ProducerMessage) → Counts x ms (raised c ms)
  unfolding raised
  raised-count [] = refl
  raised-count (m ∷ ms) =
      if_both (Counts x (m ∷ ms)) (leb c.retry_max m.retries) none _ tt
        (raise_one-count m ms (raised c ms) (raised-count ms))

  resend-tally :
      (leader : Bool) (e : KError) (s : PartitionSet) (o : Option (List ProducerMessage))
      (r : Results)
      → Counts x s.msgs o
      → tally_results x (resend leader e s o r) ≡ tally_results x r + count_set x s
  resend-tally leader e s none r h = return_errors-tally x (Reason.answer e) s.msgs r
  resend-tally leader e s (some ms) r h =
      if_both (λ t. tally_results x t ≡ tally_results x r + count_set x s) leader _ _
        (omega (arith, h, total-append x r.resent (record s { msgs = ms } ∷ [])))
        (return_errors-tally x (Reason.answer e) ms r ∙ ap (λ n. tally_results x r + n) h)

  retry_batch-tally :
      (leader : Bool) (e : KError) (s : PartitionSet) (r : Results)
      → tally_results x (retry_batch c leader e s r) ≡ tally_results x r + count_set x s
  unfolding retry_batch
  retry_batch-tally leader e s r = resend-tally leader e s (raised c s.msgs) r (raised-count s.msgs)

  retry_set-tally :
      (leader : Bool) (e : KError) (s : PartitionSet) (r : Results)
      → tally_results x (retry_set c leader e s r) ≡ tally_results x r + count_set x s
  retry_set-tally leader e s r =
      if_both (λ t. tally_results x t ≡ tally_results x r + count_set x s) c.idempotent _ _
        (retry_batch-tally leader e s r) (retry_messages-tally x c (Reason.answer e) s.msgs r)

drop_partition-held :
    (x : ℕ) (k : TopicPartition) (ps : ProduceSet)
    → held x (drop_partition k ps).0 + count x (drop_partition k ps).1 ≡ held x ps
unfolding drop_partition
drop_partition-held x k ps = go (find_set k ps.sets) refl
  where
    go :
        (o : Option PartitionSet)
        → find_set k ps.sets ≡ o
        → held x (drop_found k ps o).0 + count x (drop_found k ps o).1 ≡ held x ps
    go none e = omega arith
    go (some s) e = sym (total-remove_set (count_set x) k s ps.sets e)

-- What is known of a producer: where its messages are, and that the counters of its buffer are right.
abbrev pub Sound : (ℕ → ℕ) → BrokerProducer → Type 0
Sound t bp = ((x : ℕ) → tally x bp ≡ t x) × IsCounted bp.buffer

module _ (c : Config) (leader : Bool) where
  retry_partition-tally :
      (x : ℕ) (e : KError) (s : PartitionSet) (bp : BrokerProducer)
      → tally x (retry_partition c leader e s bp) ≡ tally x bp + count_set x s
  unfolding retry_partition
  retry_partition-tally x e s bp = omega (
    arith,
    drop_partition-held x s.topic_partition bp.buffer,
    retry_messages-tally x c (Reason.answer e) (drop_partition s.topic_partition bp.buffer).1
        (retry_set c leader e s bp.results),
    retry_set-tally x c leader e s bp.results,
  )

  retry_partition-IsCounted :
      (e : KError) (s : PartitionSet) (bp : BrokerProducer)
      → IsCounted bp.buffer
      → IsCounted (retry_partition c leader e s bp).buffer
  unfolding retry_partition
  retry_partition-IsCounted e s bp = drop_partition-IsCounted s.topic_partition bp.buffer

  retry_answered-tally :
      (x : ℕ) (b : Option (KError × ℤ)) (s : PartitionSet) (bp : BrokerProducer)
      → tally x (retry_answered c leader b s bp) ≡ tally x bp + left_count c x b s
  retry_answered-tally x none s bp = omega arith
  retry_answered-tally x (some (e, o)) s bp = elim (Bool-cases (is_left_by c (verdict e))) [
    | inl h ↦ simp h (retry_partition-tally x e s bp)
    | inr h ↦ simp h (omega arith)
  ]

  retry_answered-IsCounted :
      (b : Option (KError × ℤ)) (s : PartitionSet) (bp : BrokerProducer)
      → IsCounted bp.buffer
      → IsCounted (retry_answered c leader b s bp).buffer
  retry_answered-IsCounted none s bp g = g
  retry_answered-IsCounted (some (e, o)) s bp g =
      if_both (λ (q : BrokerProducer). IsCounted q.buffer) (is_left_by c (verdict e)) _ _
        (retry_partition-IsCounted e s bp g) g

  module _ (resp : TopicPartition → Option (KError × ℤ)) where
    pub retry_all-tally :
        (x : ℕ) (ss : List PartitionSet) (bp : BrokerProducer)
        → tally x (retry_all c leader resp ss bp)
          ≡ tally x bp + total (λ s. left_count c x (resp s.topic_partition) s) ss
    unfolding retry_all
    retry_all-tally x [] bp = omega arith
    retry_all-tally x (s ∷ ss) bp = omega (
      arith,
      retry_all-tally x ss (retry_answered c leader (resp s.topic_partition) s bp),
      retry_answered-tally x (resp s.topic_partition) s bp,
    )

    pub retry_all-IsCounted :
        (ss : List PartitionSet) (bp : BrokerProducer)
        → IsCounted bp.buffer
        → IsCounted (retry_all c leader resp ss bp).buffer
    unfolding retry_all
    retry_all-IsCounted [] bp g = g
    retry_all-IsCounted (s ∷ ss) bp g =
        retry_all-IsCounted ss (retry_answered c leader (resp s.topic_partition) s bp)
          (retry_answered-IsCounted (resp s.topic_partition) s bp g)
