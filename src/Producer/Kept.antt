-- ===== src/Producer/Kept.antt =====
-- Every event of a broker producer keeps account of the messages.
use sarama.Base.{
  ℕ, zero, suc, ◌+◌, ◌≤◌, ◌≡◌, refl, ◌∙◌, inl, inr, Bool, true, List, [], ◌∷◌, Option, none, some,
  length, Bool-cases, if_where, if_both, ==_iff, arith,
}
use sarama.Base.Int.{ℤ}
use sarama.Txn.Errors.{KError}
use sarama.Txn.State.{TopicPartition}
use sarama.Producer.Messages.{ProducerMessage, Config, Reason}
use sarama.Producer.Set.{PartitionSet, ProduceSet, new_produce_set, empty}
use sarama.Producer.Totals.{total, count_of, IsCounted}
use sarama.Producer.Broker.{
  Results, BrokerProducer, Outcome, failed, no_response, response, return_errors, return_successes,
  retry_messages, each_partition, verdict, settle, handle_error, is_packet_encoding,
}
use sarama.Producer.Run.{
  is_left_by, handle_success, handle_outcome, if_empty, Answer, put_back, take_out, handle_taken,
  handle_response,
}
use sarama.Producer.Tally.{
  count, count_set, tally_results, return_errors-tally, return_successes-tally,
  retry_messages-tally, each_partition-tally,
}
use sarama.Producer.Handled.{
  held, flight, tally, left_count, settled_count, settle-tally, Sound, retry_all-tally,
  retry_all-IsCounted,
}

pub no_messages : (ps : ProduceSet) → empty ps ≡ true → ps.buffer_count ≡ 0
unfolding empty
no_messages ps e = (==_iff ps.buffer_count 0).0 e

-- The request that is taken out of those in flight, and those that stay.
abbrev Taken : ℕ → List ProduceSet → Option (ProduceSet × List ProduceSet) → Type 0
Taken x ps none = Unit {0}
Taken x ps (some (p, rest)) = flight x ps ≡ held x p + flight x rest

module _ (x : ℕ) (c : Config) where
  left-settled :
      (b : Option (KError × ℤ)) (s : PartitionSet)
      → left_count c x b s + settled_count c x b s ≡ count_set x s
  left-settled none s = omega arith
  left-settled (some (e, o)) s = elim (Bool-cases (is_left_by c (verdict e))) [
    | inl h ↦ simp h (omega arith)
    | inr h ↦ simp h (omega arith)
  ]

  left-settled_all :
      (resp : TopicPartition → Option (KError × ℤ)) (ss : List PartitionSet)
      → total (λ s. left_count c x (resp s.topic_partition) s) ss
          + total (λ s. settled_count c x (resp s.topic_partition) s) ss
        ≡ total (count_set x) ss
  left-settled_all resp [] = omega arith
  left-settled_all resp (s ∷ ss) =
      omega (arith, left-settled_all resp ss, left-settled (resp s.topic_partition) s)

  handle_success-tally :
      (leader : Bool) (resp : TopicPartition → Option (KError × ℤ)) (ss : List PartitionSet)
      (bp : BrokerProducer)
      → tally x (handle_success c leader resp ss bp) ≡ tally x bp + total (count_set x) ss
  unfolding handle_success
  handle_success-tally leader resp ss bp =
      let r = each_partition (λ s. settle c (resp s.topic_partition) s) ss bp.results in
      omega (
        arith,
        retry_all-tally c leader resp x ss (record bp { results = r }),
        each_partition-tally x (λ s. settle c (resp s.topic_partition) s)
            (λ s. settled_count c x (resp s.topic_partition) s) ss bp.results
            (λ s t. settle-tally x c (resp s.topic_partition) s t),
        left-settled_all resp ss,
      )

  retry_each-tally :
      (e : Reason) (ss : List PartitionSet) (r : Results)
      → tally_results x (each_partition (λ s. retry_messages c e s.msgs) ss r)
        ≡ tally_results x r + total (count_set x) ss
  retry_each-tally e ss r =
      each_partition-tally x (λ s. retry_messages c e s.msgs) (count_set x) ss r
        (λ s t. retry_messages-tally x c e s.msgs t)

  handle_error-tally :
      (ss : List PartitionSet) (e : Reason) (bp : BrokerProducer)
      → tally x (handle_error c ss e bp) ≡ tally x bp + total (count_set x) ss
  unfolding handle_error
  handle_error-tally ss e bp =
      if_both (λ (q : BrokerProducer). tally x q ≡ tally x bp + total (count_set x) ss)
        (is_packet_encoding e) _ _
        (omega (
          arith,
          each_partition-tally x (λ s. return_errors e s.msgs) (count_set x) ss bp.results
              (λ s t. return_errors-tally x e s.msgs t),
        ))
        (omega (
          arith,
          retry_each-tally e ss bp.results,
          retry_each-tally e bp.buffer.sets
              (each_partition (λ s. retry_messages c e s.msgs) ss bp.results),
        ))

  handle_outcome-tally :
      (leader : Bool) (o : Outcome) (ss : List PartitionSet) (bp : BrokerProducer)
      → tally x (handle_outcome c leader o ss bp) ≡ tally x bp + total (count_set x) ss
  handle_outcome-tally leader (failed e) ss bp = handle_error-tally ss e bp
  handle_outcome-tally leader no_response ss bp = omega (
    arith,
    each_partition-tally x (λ s. return_successes s.msgs) (count_set x) ss bp.results
        (λ s t. return_successes-tally x s.msgs t),
  )
  handle_outcome-tally leader (response resp) ss bp = handle_success-tally leader resp ss bp

  put_back-Taken :
      (p : ProduceSet) (ps : List ProduceSet) (o : Option (ProduceSet × List ProduceSet))
      → Taken x ps o
      → Taken x (p ∷ ps) (put_back p o)
  put_back-Taken p ps none h = tt
  put_back-Taken p ps (some (q, qs)) h = omega (arith, h)

  take_out-Taken : (n : ℕ) (ps : List ProduceSet) → Taken x ps (take_out n ps)
  unfolding take_out
  take_out-Taken n [] = tt
  take_out-Taken zero (p ∷ ps) = refl
  take_out-Taken (suc n) (p ∷ ps) = put_back-Taken p ps (take_out n ps) (take_out-Taken n ps)

  one-length : (ms : List ProducerMessage) → count x ms ≤ length ms
  one-length [] = omega arith
  one-length (m ∷ ms) = ground (arith, one-length ms)

  pub held-count_of : (ss : List PartitionSet) → total (count_set x) ss ≤ total count_of ss
  held-count_of [] = omega arith
  held-count_of (s ∷ ss) = omega (arith, held-count_of ss, one-length s.msgs)

  if_empty-tally : (bp : BrokerProducer) → IsCounted bp.buffer → tally x (if_empty bp) ≡ tally x bp
  if_empty-tally bp g =
      if_where (λ (q : BrokerProducer). tally x q ≡ tally x bp) (empty bp.buffer) _ _
        (λ e. omega (arith, held-count_of bp.buffer.sets, g.1, no_messages bp.buffer e)) (λ e. refl)

new_set-IsCounted : (e : ℤ) → IsCounted (new_produce_set e)
new_set-IsCounted e = (refl, refl)

handle_outcome-IsCounted :
    (c : Config) (leader : Bool) (o : Outcome) (ss : List PartitionSet) (bp : BrokerProducer)
    → IsCounted bp.buffer
    → IsCounted (handle_outcome c leader o ss bp).buffer
unfolding handle_error handle_success
handle_outcome-IsCounted c leader (failed e) ss bp g =
    if_both (λ (q : BrokerProducer). IsCounted q.buffer) (is_packet_encoding e) _ _ g
      (new_set-IsCounted bp.current_epoch)
handle_outcome-IsCounted c leader no_response ss bp g = g
handle_outcome-IsCounted c leader (response resp) ss bp g = retry_all-IsCounted c leader resp ss _ g

if_empty-IsCounted : (bp : BrokerProducer) → IsCounted bp.buffer → IsCounted (if_empty bp).buffer
if_empty-IsCounted bp g =
    if_both (λ (q : BrokerProducer). IsCounted q.buffer) (empty bp.buffer) _ _
      (new_set-IsCounted bp.current_epoch) g

module _ (c : Config) (t : ℕ → ℕ) where
  handle_taken-Sound :
      (a : Answer) (o : Option (ProduceSet × List ProduceSet)) (bp : BrokerProducer)
      → ((x : ℕ) → Taken x bp.in_flight o)
      → Sound t bp
      → Sound t (handle_taken c a o bp)
  handle_taken-Sound a none bp h g = g
  handle_taken-Sound a (some (p, rest)) bp h g =
      let q = handle_outcome c a.leader a.outcome p.sets (record bp { in_flight = rest }) in
      let g' : IsCounted q.buffer =
        handle_outcome-IsCounted c a.leader a.outcome p.sets (record bp { in_flight = rest }) g.1 in
      (
        (λ x.
            if_empty-tally x c q g'
            ∙ omega (
              arith,
              handle_outcome-tally x c a.leader a.outcome p.sets (record bp { in_flight = rest }),
              h x,
              g.0 x,
            )),
        if_empty-IsCounted q g',
      )

  pub handle_response-Sound :
      (a : Answer) (bp : BrokerProducer) → Sound t bp → Sound t (handle_response c a bp)
  unfolding handle_response
  handle_response-Sound a bp g =
      handle_taken-Sound a (take_out a.request bp.in_flight) bp
        (λ x. take_out-Taken x c a.request bp.in_flight) g
