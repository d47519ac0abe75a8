-- ===== src/Txn/Partitions.antt =====
-- Adding partitions to the transaction (transaction_manager.go).
use sarama.Base.{ℕ, Bool, true, false, List, [], ◌∷◌, ◌++◌, none, if◌then◌else◌}
use sarama.Txn.Errors.{KError, server, add_partitions_to_txn}
use sarama.Txn.Status.{overlaps, in_error}
use sarama.Txn.State.{
  TopicPartition, TransactionManager, Returns, to_abortable, to_fatal, abortable_error_if_possible,
}
use sarama.Txn.Sequence.{same}
use sarama.Txn.Retry.{
  Attempt, exec, Reply, again, stop, on_reply, Verdict, done, retried, aborted, bumped, failed,
  returned, switch,
}

-- A topicPartitionSet.
unfoldable pub member : TopicPartition → List TopicPartition → Bool
member k [] = false
member k (j ∷ ks) = if same j k then true else member k ks

unfoldable pub insert : TopicPartition → List TopicPartition → List TopicPartition
unfolding member
insert k ks = if member k ks then ks else k ∷ ks

unfoldable pub delete : TopicPartition → List TopicPartition → List TopicPartition
delete k [] = []
delete k (j ∷ ks) = let rest = delete k ks in if same j k then rest else j ∷ rest

unfoldable pub maybe_add_partition_to_current_txn :
    TopicPartition → TransactionManager → TransactionManager
maybe_add_partition_to_current_txn k t =
    if overlaps t.status in_error
    then t
    else if member k t.partitions
    then t
    else record t { pending_partitions = insert k t.pending_partitions }

-- The switch on the error of one partition.
abbrev pub partition_verdict : KError → Verdict
partition_verdict KError.no_error = done
partition_verdict KError.consumer_coordinator_not_available = retried
partition_verdict KError.not_coordinator_for_consumer = retried
partition_verdict KError.unknown_topic_or_partition = retried
partition_verdict KError.offsets_load_in_progress = retried
partition_verdict KError.concurrent_transactions = retried
partition_verdict KError.operation_not_attempted = aborted
partition_verdict KError.topic_authorization_failed = aborted
partition_verdict KError.unknown_producer_id = bumped
partition_verdict KError.invalid_producer_id_mapping = bumped
partition_verdict _ = failed

abbrev pub drop_pending : TransactionManager → TransactionManager
drop_pending t = record t { pending_partitions = [] }

abbrev pub mark_added : TopicPartition → TransactionManager → TransactionManager
mark_added k t = record t {
  pending_partitions = delete k t.pending_partitions;
  partitions = insert k t.partitions;
}

-- After the loop: done when nothing is pending, otherwise another attempt with the errors wrapped.
unfoldable pub partitions_end :
    List TopicPartition → List KError → TransactionManager → Attempt (Unit {0})
partitions_end [] errs t = record { state = t; retry = false; value = tt; error = none }
partitions_end (k ∷ ks) errs t = again tt (add_partitions_to_txn errs) t

-- The loop over the partitions of a response.
unfoldable pub partition_results :
    List (TopicPartition × KError) → List KError → TransactionManager → Attempt (Unit {0})
unfolding partitions_end
partition_results [] errs t = partitions_end t.pending_partitions errs t
partition_results ((k, e) ∷ rest) errs t =
    switch (partition_verdict e) (partition_results rest errs (mark_added k t))
      (partition_results rest (errs ++ (e ∷ [])) t)
      (stop tt (to_abortable (server e) (drop_pending t)))
      (stop tt (abortable_error_if_possible (server e) (drop_pending t)))
      (stop tt (to_fatal (server e) (drop_pending t)))

unfoldable pub publish_attempt :
    Reply (List (TopicPartition × KError)) → TransactionManager → Attempt (Unit {0})
publish_attempt r t = on_reply tt r (λ rs. partition_results rs []) t

unfoldable pub publish_pending :
    ℕ
    → (ℕ → Reply (List (TopicPartition × KError)))
    → List TopicPartition
    → TransactionManager
    → Returns
publish_pending attempts env [] t = (t, none)
publish_pending attempts env (k ∷ ks) t =
    returned (exec attempts (λ n a. publish_attempt (env n)) tt t none)

-- `env n` is what comes back when `n` attempts are left after this one.
unfoldable pub publish_txn_partitions :
    ℕ → (ℕ → Reply (List (TopicPartition × KError))) → TransactionManager → Returns
unfolding publish_pending
publish_txn_partitions attempts env t =
    if overlaps t.status in_error
    then (t, t.last_error)
    else publish_pending attempts env t.pending_partitions t
