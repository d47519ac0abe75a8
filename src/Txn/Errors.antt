-- ===== src/Txn/Errors.antt =====
-- The errors that transaction_manager.go, offset_manager.go and async_producer.go tell apart (errors.go).
use sarama.Base.{ℕ, List}
use sarama.Base.Int.{ℤ}

-- A KError is a broker's answer; `other` stands for the codes that the code does not name.
pub data KError : Type 0 where
  no_error unknown_topic_or_partition request_timed_out offsets_load_in_progress : KError
  consumer_coordinator_not_available not_coordinator_for_consumer illegal_generation : KError
  unknown_member_id topic_authorization_failed group_authorization_failed : KError
  cluster_authorization_failed unsupported_version invalid_producer_id_mapping : KError
  concurrent_transactions transactional_id_authorization_failed operation_not_attempted : KError
  unknown_producer_id fenced_instanced_id producer_fenced : KError
  not_leader_for_partition leader_not_available offset_metadata_too_large : KError
  invalid_commit_offset_size invalid_message not_enough_replicas : KError
  not_enough_replicas_after_append duplicate_sequence_number : KError
  other : ℤ → KError

-- The values of Go's type `error`, less nil. `network` is an error of the client or of a connection;
-- the two last are wrapped round the answers that caused them.
pub data TxnError : Type 0 where
  transition_not_allowed cannot_transition_nil_error transaction_not_ready : TxnError
  non_transacted_producer unable_to_parse_response : TxnError
  server : KError → TxnError
  network : ℕ → TxnError
  add_partitions_to_txn txn_offset_commit : List KError → TxnError
