-- ===== src/Producer/Batches.antt =====
-- Runs of a broker producer.
use sarama.Base.{
  ℕ, ◌≡◌, refl, true, false, List, [], ◌∷◌, map, Option, none, some, if◌then◌else◌, ◌==◌, arith,
}
use sarama.Base.Int.{ℤ, pos}
use sarama.Txn.Errors.{KError}
use sarama.Txn.State.{TopicPartition}
use sarama.Producer.Messages.{ProducerMessage, Config, Reason, Flag, clear}
use sarama.Producer.Set.{ProduceSet, new_partition_set, add, would_overflow, empty, ready_to_flush}
use sarama.Producer.Totals.{When}
use sarama.Producer.Limits.{Within, add-Within}
use sarama.Producer.Broker.{retry_message, failed, response}
use sarama.Producer.Run.{
  Answer, Event, message, output_ready, answered, run, shutdown, new_broker_producer,
}
use sarama.Producer.Tally.{count, tally_results}
use sarama.Producer.Handled.{Sound}
use sarama.Producer.Shutdown.{arrivals, run-accounts}
use sarama.Producer.Drained.{shutdown-accounts}

abbrev config : Config
config = record {
  since_0_11 = true;
  idempotent = false;
  has_producer_id = false;
  retry_max = 3;
  max_request_size = 100000;
  max_message_bytes = 1000;
  flush_frequency = 0;
  flush_bytes = 0;
  flush_messages = 2;
  flush_max_messages = 2;
}

abbrev target : ℕ → TopicPartition
target p = record { topic = "events"; partition = p }

abbrev new_message : ℕ → ℕ → ProducerMessage
new_message i p = record {
  id = i;
  target = target p;
  key = none;
  value = some (record { length = 5; encoded = some 5 });
  headers = [];
  flag = Flag.plain;
  retries = 0;
  sequence_number = pos 0;
  producer_epoch = pos 0;
  offset = pos 0;
}

-- The leader of partition 1 has changed; partition 0 is stored from offset 7 on.
abbrev moved : TopicPartition → Option (KError × ℤ)
moved k =
    if k.partition == 1
    then some (KError.not_leader_for_partition, pos 0)
    else some (KError.no_error, pos 7)

abbrev first_answer : Answer
first_answer = record { request = 0; outcome = response moved; leader = true }

-- Two messages go out, a third and a fourth are gathered; the answer sends the second back, and the
-- third with it, which is for the same partition.
abbrev events : List Event
events =
    message (new_message 1 0) [] []
    ∷ message (new_message 2 1) [] []
    ∷ output_ready
    ∷ message (new_message 3 1) [] []
    ∷ message (new_message 4 0) [] []
    ∷ answered first_answer
    ∷ []

abbrev ids : List ProducerMessage → List ℕ
ids ms = map (λ (m : ProducerMessage). m.id) ms

events-retries : ids (run config events (new_broker_producer (pos 0))).results.retries ≡ 2 ∷ 3 ∷ []
unfolding run new_broker_producer would_overflow add ready_to_flush retry_message
events-retries = refl

events-successes : ids (run config events (new_broker_producer (pos 0))).results.successes ≡ 1 ∷ []
unfolding run new_broker_producer would_overflow add ready_to_flush retry_message clear
events-successes = refl

run-accounts_example :
    Sound (λ x. count x (arrivals events)) (run config events (new_broker_producer (pos 0)))
run-accounts_example = run-accounts config (pos 0) events

-- At the shutdown the fourth goes out, and the connection fails.
abbrev last_answers : List Answer
last_answers = record { request = 0; outcome = failed (Reason.network 1); leader = false } ∷ []

all_answered :
    (shutdown config [] last_answers (run config events (new_broker_producer (pos 0)))).in_flight
    ≡ []
unfolding run new_broker_producer shutdown empty would_overflow add ready_to_flush
all_answered = refl

shutdown-accounts_example :
    tally_results 4
      (shutdown config [] last_answers (run config events (new_broker_producer (pos 0)))).results
    ≡ count 4 (arrivals events)
shutdown-accounts_example = shutdown-accounts config (pos 0) events [] last_answers all_answered 4

-- A set that already has a message of the partition.
abbrev gathered : ProduceSet
gathered = record {
  sets =
      record (new_partition_set config (new_message 1 0)) {
        msgs = new_message 1 0 ∷ [];
        set_bytes = 90;
      }
      ∷ [];
  epoch = pos 0;
  buffer_bytes = 90;
  buffer_count = 1;
}

nothing_overflows : would_overflow config (new_message 2 0) gathered ≡ false
unfolding would_overflow
nothing_overflows = refl

add-Within_example :
    When (Within config (new_message 2 0) gathered) (add config (new_message 2 0) gathered)
add-Within_example =
    add-Within config (new_message 2 0) gathered tt (λ n e. ground (arith, e)) nothing_overflows
