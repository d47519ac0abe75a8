-- ===== src/Producer/Broker.antt =====
-- brokerProducer of async_producer.go, which gathers messages for a broker and deals with the answers.
use sarama.Base.{
  ◌+◌, ◌^◌, Bool, true, false, List, [], ◌∷◌, ◌++◌, Option, none, some, leb, ◌==◌, if◌then◌else◌,
}
use sarama.Base.Int.{ℤ, suc_ℤ, signed, unsigned}
use sarama.Txn.Errors.{KError}
use sarama.Txn.State.{TopicPartition}
use sarama.Txn.Sequence.{same}
use sarama.Producer.Messages.{ProducerMessage, Config, Reason, clear}
use sarama.Producer.Set.{PartitionSet, ProduceSet, new_produce_set, drop_partition}

-- Where messages go: to the user, as a success or an error; back to the dispatcher; or as a batch to
-- the producer of the new leader (retryBatch).
pub record Results : Type 0 where
  pub successes : List ProducerMessage
  pub errors : List (ProducerMessage × Reason)
  pub retries : List ProducerMessage
  pub resent : List PartitionSet

-- `in_flight` is what has been put out and is not answered; `current_retries` reads nil for a missing
-- key; `timer` says that it is not nil; `current_epoch` is what txnmgr gives to a new set.
pub record BrokerProducer : Type 0 where
  pub buffer : ProduceSet
  pub in_flight : List ProduceSet
  pub timer : Bool
  pub timer_fired : Bool
  pub closing : Option Reason
  pub current_retries : TopicPartition → Option Reason
  pub current_epoch : ℤ
  pub results : Results

-- The block of a partition in a response: its error and its offset.
pub data Outcome : Type 0 where
  failed : Reason → Outcome
  no_response : Outcome
  response : (TopicPartition → Option (KError × ℤ)) → Outcome

unfoldable pub return_error : Reason → ProducerMessage → Results → Results
return_error e m r = record r { errors = r.errors ++ ((clear m, e) ∷ []) }

unfoldable pub return_errors : Reason → List ProducerMessage → Results → Results
return_errors e [] r = r
return_errors e (m ∷ ms) r = return_errors e ms (return_error e m r)

unfoldable pub return_successes : List ProducerMessage → Results → Results
return_successes [] r = r
return_successes (m ∷ ms) r =
    return_successes ms (record r { successes = r.successes ++ (clear m ∷ []) })

unfoldable pub retry_message : Config → Reason → ProducerMessage → Results → Results
unfolding return_error
retry_message c e m r =
    if leb c.retry_max m.retries
    then return_error e m r
    else record r { retries = r.retries ++ (record m { retries = m.retries + 1 } ∷ []) }

unfoldable pub retry_messages : Config → Reason → List ProducerMessage → Results → Results
retry_messages c e [] r = r
retry_messages c e (m ∷ ms) r = retry_messages c e ms (retry_message c e m r)

-- eachPartition, with a callback on the messages of each set.
unfoldable pub each_partition :
    (PartitionSet → Results → Results) → List PartitionSet → Results → Results
each_partition f [] r = r
each_partition f (s ∷ ss) r = each_partition f ss (f s r)

abbrev pub roll_over : BrokerProducer → BrokerProducer
roll_over bp = record bp {
  timer = false;
  timer_fired = false;
  buffer = new_produce_set bp.current_epoch;
}

-- `output <- buffer`
unfoldable pub put_out : BrokerProducer → BrokerProducer
put_out bp = roll_over (record bp { in_flight = bp.in_flight ++ (bp.buffer ∷ []) })

abbrev pub is_packet_encoding : Reason → Bool
is_packet_encoding (Reason.packet_encoding n) = true
is_packet_encoding e = false

unfoldable pub handle_error : Config → List PartitionSet → Reason → BrokerProducer → BrokerProducer
unfolding each_partition return_errors retry_messages
handle_error c sent e bp =
    if is_packet_encoding e
    then record bp { results = each_partition (λ s. return_errors e s.msgs) sent bp.results }
    else let r = each_partition (λ s. retry_messages c e s.msgs) sent bp.results in
      roll_over (record bp {
        closing = some e;
        results = each_partition (λ s. retry_messages c e s.msgs) bp.buffer.sets r;
      })

-- The offsets of the messages of a batch, from the first on (an int64).
unfoldable pub with_offsets : ℤ → List ProducerMessage → List ProducerMessage
with_offsets o [] = []
with_offsets o (m ∷ ms) =
    record m { offset = o } ∷ with_offsets (signed (2 ^ 63) (unsigned (2 ^ 63) (suc_ℤ o))) ms

-- The cases of the switch on block.Err, of both passes.
pub data Verdict : Type 0 where
  success duplicate retriable other : Verdict

unfoldable pub verdict : KError → Verdict
verdict KError.no_error = Verdict.success
verdict KError.duplicate_sequence_number = Verdict.duplicate
verdict KError.invalid_message = Verdict.retriable
verdict KError.unknown_topic_or_partition = Verdict.retriable
verdict KError.leader_not_available = Verdict.retriable
verdict KError.not_leader_for_partition = Verdict.retriable
verdict KError.request_timed_out = Verdict.retriable
verdict KError.not_enough_replicas = Verdict.retriable
verdict KError.not_enough_replicas_after_append = Verdict.retriable
verdict e = Verdict.other

unfoldable pub settle_by : Config → Verdict → KError × ℤ → PartitionSet → Results → Results
unfolding return_errors return_successes with_offsets
settle_by c Verdict.success (e, o) s r = return_successes (with_offsets o s.msgs) r
settle_by c Verdict.duplicate (e, o) s r = return_successes s.msgs r
settle_by c Verdict.retriable (e, o) s r =
    if c.retry_max == 0 then return_errors (Reason.answer e) s.msgs r else r
settle_by c Verdict.other (e, o) s r = return_errors (Reason.answer e) s.msgs r

-- The first pass over the partitions of the request: a set that is to be tried again is left.
unfoldable pub settle : Config → Option (KError × ℤ) → PartitionSet → Results → Results
unfolding return_errors verdict settle_by
settle c none s r = return_errors Reason.incomplete_response s.msgs r
settle c (some (e, o)) s r = settle_by c (verdict e) (e, o) s r

abbrev pub raise_one :
    ProducerMessage → Option (List ProducerMessage) → Option (List ProducerMessage)
raise_one m none = none
raise_one m (some ms) = some (record m { retries = m.retries + 1 } ∷ ms)

-- The retries of the messages of a batch, if none has reached the maximum.
unfoldable pub raised : Config → List ProducerMessage → Option (List ProducerMessage)
raised c [] = some []
raised c (m ∷ ms) =
    let rest = raised c ms in if leb c.retry_max m.retries then none else raise_one m rest

abbrev pub resend : Bool → KError → PartitionSet → Option (List ProducerMessage) → Results → Results
resend leader e s none r = return_errors (Reason.answer e) s.msgs r
resend leader e s (some ms) r =
    if leader
    then record r { resent = r.resent ++ (record s { msgs = ms } ∷ []) }
    else return_errors (Reason.answer e) ms r

-- retryBatch; `leader` says whether one is found.
unfoldable pub retry_batch : Config → Bool → KError → PartitionSet → Results → Results
unfolding raised return_errors
retry_batch c leader e s r = resend leader e s (raised c s.msgs) r

abbrev pub retry_set : Config → Bool → KError → PartitionSet → Results → Results
retry_set c leader e s r =
    if c.idempotent then retry_batch c leader e s r else retry_messages c (Reason.answer e) s.msgs r

abbrev pub set_retry :
    TopicPartition
    → Option Reason
    → (TopicPartition → Option Reason)
    → TopicPartition
    → Option Reason
set_retry k e f j = if same j k then e else f j

-- The second pass, for one set that is tried again.
unfoldable pub retry_partition :
    Config → Bool → KError → PartitionSet → BrokerProducer → BrokerProducer
unfolding retry_batch retry_messages drop_partition
retry_partition c leader e s bp =
    let (buffer, dropped) = drop_partition s.topic_partition bp.buffer in
    record bp {
      current_retries = set_retry s.topic_partition (some (Reason.answer e)) bp.current_retries;
      buffer = buffer;
      results = retry_messages c (Reason.answer e) dropped (retry_set c leader e s bp.results);
    }
