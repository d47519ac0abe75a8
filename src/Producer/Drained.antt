-- ===== src/Producer/Drained.antt =====
-- A shutdown leaves nothing in the buffer.
use sarama.Base.{
  ℕ, ◌≡◌, refl, ap, Bool, List, [], ◌∷◌, ◌++◌, Option, none, some, if_where, if_both, arith,
}
use sarama.Base.Int.{ℤ}
use sarama.Txn.Errors.{KError}
use sarama.Txn.State.{TopicPartition}
use sarama.Producer.Messages.{Config}
use sarama.Producer.Set.{PartitionSet, ProduceSet, find_set, drop_found, drop_partition, empty}
use sarama.Producer.Broker.{
  BrokerProducer, Outcome, failed, no_response, response, verdict, put_out, retry_partition,
  handle_error, is_packet_encoding,
}
use sarama.Producer.Run.{
  Answer, is_left_by, retry_answered, retry_all, handle_success, handle_outcome, take_out,
  handle_taken, handle_response, Event, run, answer_all, shutdown, new_broker_producer,
}
use sarama.Producer.Tally.{count, tally_results}
use sarama.Producer.Handled.{flight, Sound}
use sarama.Producer.Kept.{held-count_of, no_messages}
use sarama.Producer.Shutdown.{arrivals, run-accounts, shutdown-Sound}

abbrev Still : BrokerProducer → Type 0
Still bp = bp.buffer.buffer_count ≡ 0

drop_partition-Still :
    (k : TopicPartition) (ps : ProduceSet)
    → ps.buffer_count ≡ 0
    → (drop_partition k ps).0.buffer_count ≡ 0
unfolding drop_partition
drop_partition-Still k ps h = go (find_set k ps.sets)
  where
    go : (o : Option PartitionSet) → (drop_found k ps o).0.buffer_count ≡ 0
    go none = h
    go (some s) = omega (arith, h)

module _ (c : Config) where
  retry_answered-Still :
      (leader : Bool) (b : Option (KError × ℤ)) (s : PartitionSet) (bp : BrokerProducer)
      → Still bp
      → Still (retry_answered c leader b s bp)
  unfolding retry_partition
  retry_answered-Still leader none s bp h = h
  retry_answered-Still leader (some (e, o)) s bp h =
      if_both Still (is_left_by c (verdict e)) _ _
        (drop_partition-Still s.topic_partition bp.buffer h) h

  retry_all-Still :
      (leader : Bool) (resp : TopicPartition → Option (KError × ℤ)) (ss : List PartitionSet)
      (bp : BrokerProducer)
      → Still bp
      → Still (retry_all c leader resp ss bp)
  unfolding retry_all
  retry_all-Still leader resp [] bp h = h
  retry_all-Still leader resp (s ∷ ss) bp h =
      retry_all-Still leader resp ss (retry_answered c leader (resp s.topic_partition) s bp)
        (retry_answered-Still leader (resp s.topic_partition) s bp h)

  handle_outcome-Still :
      (leader : Bool) (o : Outcome) (ss : List PartitionSet) (bp : BrokerProducer)
      → Still bp
      → Still (handle_outcome c leader o ss bp)
  unfolding handle_error handle_success
  handle_outcome-Still leader (failed e) ss bp h = if_both Still (is_packet_encoding e) _ _ h refl
  handle_outcome-Still leader no_response ss bp h = h
  handle_outcome-Still leader (response resp) ss bp h = retry_all-Still leader resp ss _ h

  handle_taken-Still :
      (a : Answer) (o : Option (ProduceSet × List ProduceSet)) (bp : BrokerProducer)
      → Still bp
      → Still (handle_taken c a o bp)
  handle_taken-Still a none bp h = h
  handle_taken-Still a (some (p, rest)) bp h =
      let q = handle_outcome c a.leader a.outcome p.sets (record bp { in_flight = rest }) in
      if_both Still (empty q.buffer) _ _ refl
        (handle_outcome-Still a.leader a.outcome p.sets (record bp { in_flight = rest }) h)

  answer_all-Still :
      (ws : List Answer) (bp : BrokerProducer) → Still bp → Still (answer_all c ws bp)
  unfolding answer_all handle_response
  answer_all-Still [] bp h = h
  answer_all-Still (a ∷ ws) bp h =
      answer_all-Still ws (handle_response c a bp)
        (handle_taken-Still a (take_out a.request bp.in_flight) bp h)

  shutdown-Still : (ws vs : List Answer) (bp : BrokerProducer) → Still (shutdown c ws vs bp)
  unfolding shutdown put_out
  shutdown-Still [] vs bp =
      answer_all-Still vs _ (
        if_where Still (empty bp.buffer) bp (put_out bp) (λ e. no_messages bp.buffer e) (λ e. refl))
  shutdown-Still (a ∷ ws) vs bp =
      if_where Still (empty bp.buffer) _ _
        (λ e. answer_all-Still ((a ∷ ws) ++ vs) bp (no_messages bp.buffer e))
        (λ e. shutdown-Still ws vs (handle_response c a bp))

-- When a broker producer has shut down after any events, and all its requests have been answered, then
-- every message that came in (a syn left aside) is returned as a success or an error, handed back for a
-- retry or sent again in a batch, exactly as often as it came.
pub shutdown-accounts :
    (c : Config) (epoch : ℤ) (es : List Event) (ws vs : List Answer)
    → (shutdown c ws vs (run c es (new_broker_producer epoch))).in_flight ≡ []
    → (x : ℕ)
    → tally_results x (shutdown c ws vs (run c es (new_broker_producer epoch))).results
      ≡ count x (arrivals es)
shutdown-accounts c epoch es ws vs none_left x =
    let bp = shutdown c ws vs (run c es (new_broker_producer epoch)) in
    let g : Sound (λ y. count y (arrivals es)) bp =
      shutdown-Sound c (λ y. count y (arrivals es)) ws vs (run c es (new_broker_producer epoch))
        (run-accounts c epoch es) in
    omega (
      arith,
      g.0 x,
      g.1,
      held-count_of x c bp.buffer.sets,
      shutdown-Still c ws vs (run c es (new_broker_producer epoch)),
      ap (flight x) none_left,
    )
