-- ===== src/Producer/Run.antt =====
-- The loop of brokerProducer: what it reads of its channels, one event at a time.
use sarama.Base.{
  ℕ, zero, suc, Bool, true, false, ◌&&◌, ◌||◌, not, ◌==◌, List, [], ◌∷◌, ◌++◌, Option, none, some,
  ltb, if◌then◌else◌,
}
use sarama.Base.Int.{ℤ, eqb_ℤ}
use sarama.Txn.Errors.{KError}
use sarama.Txn.State.{TopicPartition}
use sarama.Producer.Messages.{ProducerMessage, Config, Reason, Flag}
use sarama.Producer.Set.{
  PartitionSet, ProduceSet, new_produce_set, Added, added, refused, add, would_overflow, empty,
  ready_to_flush,
}
use sarama.Producer.Broker.{
  BrokerProducer, Outcome, failed, no_response, response, return_error, return_successes,
  retry_message, each_partition, roll_over, put_out, handle_error, Verdict, verdict, settle,
  retry_partition, set_retry,
}

-- Whether the second pass treats a set. (With no retries at all there is no second pass.)
abbrev pub is_left_by : Config → Verdict → Bool
is_left_by c Verdict.retriable = not (c.retry_max == 0)
is_left_by c v = false

abbrev pub retry_answered :
    Config → Bool → Option (KError × ℤ) → PartitionSet → BrokerProducer → BrokerProducer
retry_answered c leader none s bp = bp
retry_answered c leader (some (e, o)) s bp =
    if is_left_by c (verdict e) then retry_partition c leader e s bp else bp

unfoldable pub retry_all :
    Config
    → Bool
    → (TopicPartition → Option (KError × ℤ))
    → List PartitionSet
    → BrokerProducer
    → BrokerProducer
unfolding retry_partition verdict
retry_all c leader resp [] bp = bp
retry_all c leader resp (s ∷ ss) bp =
    retry_all c leader resp ss (retry_answered c leader (resp s.topic_partition) s bp)

unfoldable pub handle_success :
    Config
    → Bool
    → (TopicPartition → Option (KError × ℤ))
    → List PartitionSet
    → BrokerProducer
    → BrokerProducer
unfolding each_partition settle retry_all
handle_success c leader resp sent bp = retry_all c leader resp sent (record bp {
  results = each_partition (λ s. settle c (resp s.topic_partition) s) sent bp.results;
})

abbrev pub handle_outcome :
    Config → Bool → Outcome → List PartitionSet → BrokerProducer → BrokerProducer
handle_outcome c leader (failed e) sent bp = handle_error c sent e bp
handle_outcome c leader no_response sent bp = record bp {
  results = each_partition (λ s. return_successes s.msgs) sent bp.results;
}
handle_outcome c leader (response resp) sent bp = handle_success c leader resp sent bp

-- A buffer that the answer has emptied is rolled over.
abbrev pub if_empty : BrokerProducer → BrokerProducer
if_empty bp = if empty bp.buffer then roll_over bp else bp

-- An answer: to which of the requests in flight, what it is, and whether retryBatch finds a leader.
pub record Answer : Type 0 where
  pub request : ℕ
  pub outcome : Outcome
  pub leader : Bool

abbrev pub put_back :
    ProduceSet → Option (ProduceSet × List ProduceSet) → Option (ProduceSet × List ProduceSet)
put_back s none = none
put_back s (some (t, ts)) = some (t, s ∷ ts)

unfoldable pub take_out : ℕ → List ProduceSet → Option (ProduceSet × List ProduceSet)
take_out n [] = none
take_out zero (s ∷ ss) = some (s, ss)
take_out (suc n) (s ∷ ss) = put_back s (take_out n ss)

abbrev pub handle_taken :
    Config → Answer → Option (ProduceSet × List ProduceSet) → BrokerProducer → BrokerProducer
handle_taken c a none bp = bp
handle_taken c a (some (s, ss)) bp =
    if_empty (handle_outcome c a.leader a.outcome s.sets (record bp { in_flight = ss }))

-- handleResponse
unfoldable pub handle_response : Config → Answer → BrokerProducer → BrokerProducer
unfolding take_out handle_error handle_success each_partition return_successes
handle_response c a bp = handle_taken c a (take_out a.request bp.in_flight) bp

abbrev pub or_else : Option Reason → Option Reason → Option Reason
or_else none e = e
or_else (some e) _ = some e

unfoldable pub needs_retry : ProducerMessage → BrokerProducer → Option Reason
needs_retry m bp = or_else bp.closing (bp.current_retries m.target)

-- After an answer: whether the wait ends.
abbrev pub go_on :
    Option Reason
    → Bool
    → BrokerProducer
    → BrokerProducer × Option Reason
    → BrokerProducer × Option Reason
go_on (some e) room bp rest = (bp, some e)
go_on none room bp rest = if room then (bp, none) else rest

-- waitForSpace: the answers that come before there is room, and then the buffer is put out.
unfoldable pub wait_for_space :
    Config → ProducerMessage → Bool → List Answer → BrokerProducer → BrokerProducer × Option Reason
unfolding handle_response needs_retry put_out
wait_for_space c m force [] bp = (put_out bp, none)
wait_for_space c m force (a ∷ ws) bp =
    let bp' = handle_response c a bp in
    let rest = wait_for_space c m force ws bp' in
    go_on (needs_retry m bp') (not (would_overflow c m bp'.buffer) && not force) bp' rest

abbrev pub return_or_keep : Config → ProducerMessage → Added → BrokerProducer → BrokerProducer
return_or_keep c m (refused e) bp = record bp { results = return_error e m bp.results }
return_or_keep c m (added set) bp = record bp {
  buffer = set;
  timer = bp.timer || ltb 0 c.flush_frequency;
}

-- `bp.parent.retryMessage(msg, err); continue`, or what comes after.
abbrev pub or_retry_message :
    Config
    → ProducerMessage
    → BrokerProducer × Option Reason
    → (BrokerProducer → BrokerProducer)
    → BrokerProducer
or_retry_message c m (bp, some e) next = record bp { results = retry_message c e m bp.results }
or_retry_message c m (bp, none) next = next bp

unfoldable pub make_space :
    Config → ProducerMessage → List Answer → BrokerProducer → BrokerProducer × Option Reason
unfolding wait_for_space
make_space c m ws bp =
    if would_overflow c m bp.buffer then wait_for_space c m false ws bp else (bp, none)

unfoldable pub match_epoch :
    Config → ProducerMessage → List Answer → BrokerProducer → BrokerProducer × Option Reason
unfolding wait_for_space
match_epoch c m ws bp =
    if c.has_producer_id && not (eqb_ℤ bp.buffer.epoch m.producer_epoch)
    then wait_for_space c m true ws bp
    else (bp, none)

-- A plain message; `ws` and `vs` are the answers that come in the two waits.
unfoldable pub take_plain :
    Config → ProducerMessage → List Answer → List Answer → BrokerProducer → BrokerProducer
unfolding make_space match_epoch
take_plain c m ws vs bp = or_retry_message c m (make_space c m ws bp) (λ bp1.
    or_retry_message c m (match_epoch c m vs bp1)
      (λ bp2. return_or_keep c m (add c m bp2.buffer) bp2))

abbrev pub is_open : BrokerProducer → Bool
is_open bp = elim bp.closing [ none ↦ true | some e ↦ false ]

abbrev pub is_fin : Flag → Bool
is_fin Flag.fin = true
is_fin f = false

-- A message that needs a retry goes back; a chaser that does is the last of its level.
unfoldable pub send_back : Config → Reason → ProducerMessage → BrokerProducer → BrokerProducer
send_back c e m bp = record bp {
  results = retry_message c e m bp.results;
  current_retries =
      if is_open bp && is_fin m.flag
      then set_retry m.target none bp.current_retries
      else bp.current_retries;
}

abbrev pub take_other :
    Config → ProducerMessage → List Answer → List Answer → BrokerProducer → BrokerProducer
take_other c m ws vs bp =
    if is_fin m.flag
    then record bp { results = retry_message c Reason.shutting_down m bp.results }
    else take_plain c m ws vs bp

abbrev pub unless_retry :
    Config
    → ProducerMessage
    → Option Reason
    → List Answer
    → List Answer
    → BrokerProducer
    → BrokerProducer
unless_retry c m (some e) ws vs bp = send_back c e m bp
unless_retry c m none ws vs bp = take_other c m ws vs bp

abbrev pub is_syn : Flag → Bool
is_syn Flag.syn = true
is_syn f = false

-- The first case of the select of run.
unfoldable pub take_message :
    Config → ProducerMessage → List Answer → List Answer → BrokerProducer → BrokerProducer
unfolding needs_retry take_plain send_back
take_message c m ws vs bp =
    if is_syn m.flag
    then record bp { current_retries = set_retry m.target none bp.current_retries }
    else unless_retry c m (needs_retry m bp) ws vs bp

-- The cases of the select. A timer that is stopped may have fired just before; `epoch_bumped` is a change in the transaction manager.
pub data Event : Type 0 where
  message : ProducerMessage → List Answer → List Answer → Event
  timer_fires output_ready : Event
  answered : Answer → Event
  epoch_bumped : ℤ → Event

unfoldable pub step : Config → Event → BrokerProducer → BrokerProducer
unfolding take_message handle_response put_out
step c (message m ws vs) bp = take_message c m ws vs bp
step c timer_fires bp = record bp { timer_fired = true }
step c output_ready bp = if bp.timer_fired || ready_to_flush c bp.buffer then put_out bp else bp
step c (answered a) bp = handle_response c a bp
step c (epoch_bumped e) bp = record bp { current_epoch = e }

unfoldable pub run : Config → List Event → BrokerProducer → BrokerProducer
unfolding step
run c [] bp = bp
run c (e ∷ es) bp = run c es (step c e bp)

unfoldable pub answer_all : Config → List Answer → BrokerProducer → BrokerProducer
unfolding handle_response
answer_all c [] bp = bp
answer_all c (a ∷ ws) bp = answer_all c ws (handle_response c a bp)

-- shutdown: the answers `ws` that come while the buffer is not empty, the buffer, and the answers that
-- drain.
unfoldable pub shutdown : Config → List Answer → List Answer → BrokerProducer → BrokerProducer
unfolding answer_all handle_response put_out
shutdown c [] vs bp = answer_all c vs (if empty bp.buffer then bp else put_out bp)
shutdown c (a ∷ ws) vs bp =
    let rest = shutdown c ws vs (handle_response c a bp) in
    if empty bp.buffer then answer_all c ((a ∷ ws) ++ vs) bp else rest

unfoldable pub new_broker_producer : ℤ → BrokerProducer
new_broker_producer epoch = record {
  buffer = new_produce_set epoch;
  in_flight = [];
  timer = false;
  timer_fired = false;
  closing = none;
  current_retries = λ k. none;
  current_epoch = epoch;
  results = record { successes = []; errors = []; retries = []; resent = [] };
}
