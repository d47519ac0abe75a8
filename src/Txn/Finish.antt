-- ===== src/Txn/Finish.antt =====
-- The end of a transaction and the calls of the producer (transaction_manager.go, and
-- the transactional methods of async_producer.go).
use Prim.Native.String.{String}
use sarama.Base.{
  Bool, true, false, not, ◌&&◌, ◌||◌, List, [], ◌∷◌, Option, none, some, if◌then◌else◌,
}
use sarama.Txn.Errors.{
  KError, TxnError, server, add_partitions_to_txn, txn_offset_commit, non_transacted_producer,
}
use sarama.Txn.Status.{
  overlaps, in_error, fatal_error, end_transaction, in_transaction, mask, committing, aborting,
}
use sarama.Txn.State.{
  TopicPartition, PartitionOffset, TransactionManager, Returns, transition_to, to_abortable,
  to_fatal, abortable_error_if_possible, complete_transaction,
}
use sarama.Txn.Retry.{
  Attempt, exec, again, stop, on_reply, Verdict, done, retried, bumped, failed, returned, switch,
}
use sarama.Txn.Offsets.{publish_offsets_to_txn}
use sarama.Txn.Ids.{Cluster, initialize_transactions}

-- The switch on the answer to EndTxn.
abbrev pub end_verdict : KError → Verdict
end_verdict KError.no_error = done
end_verdict KError.consumer_coordinator_not_available = retried
end_verdict KError.not_coordinator_for_consumer = retried
end_verdict KError.offsets_load_in_progress = retried
end_verdict KError.concurrent_transactions = retried
end_verdict KError.unknown_producer_id = bumped
end_verdict KError.invalid_producer_id_mapping = bumped
end_verdict _ = failed

unfoldable pub end_answer : KError → TransactionManager → Attempt (Unit {0})
end_answer e t =
    let fail = stop tt (to_fatal (server e) t) in
    switch (end_verdict e) (stop tt (complete_transaction t)) (again tt (server e) t) fail
      (stop tt (abortable_error_if_possible (server e) t)) fail

unfoldable pub end_txn : Cluster → TransactionManager → Returns
end_txn c t = returned (exec c.attempts (λ n a. on_reply a (c.end_replies n) end_answer) tt t none)

-- The loop over the groups: the first one that fails keeps what is not committed, those before it are
-- gone from the map, those behind it stay.
unfoldable pub keep_groups :
    List (String × List PartitionOffset) → TransactionManager → TransactionManager
keep_groups gs t = record t { offsets = gs }

unfoldable pub group_published :
    String
    → List (String × List PartitionOffset)
    → Returns
    → TransactionManager × List PartitionOffset × Option TxnError
    → Returns
unfolding keep_groups
group_published g gs rest (t, left, some e) = (keep_groups ((g, left) ∷ gs) t, some e)
group_published g gs rest (t, left, none) = rest

unfoldable pub publish_groups :
    Cluster → List (String × List PartitionOffset) → TransactionManager → Returns
unfolding keep_groups group_published
publish_groups c [] t = (keep_groups [] t, none)
publish_groups c ((g, os) ∷ gs) t =
    let r = publish_offsets_to_txn c.attempts (c.add_replies g) (c.commit_replies g) os t in
    group_published g gs (publish_groups c gs r.0) r

-- `errors.Is(t.lastError, ErrInvalidProducerIDMapping)`
is_mapping : KError → Bool
is_mapping KError.invalid_producer_id_mapping = true
is_mapping _ = false

any_mapping : List KError → Bool
unfolding is_mapping
any_mapping [] = false
any_mapping (e ∷ es) = is_mapping e || any_mapping es

unfoldable pub is_mapping_error : Option TxnError → Bool
unfolding any_mapping
is_mapping_error (some (server e)) = is_mapping e
is_mapping_error (some (add_partitions_to_txn es)) = any_mapping es
is_mapping_error (some (txn_offset_commit es)) = any_mapping es
is_mapping_error _ = false

-- After EndTxn: the producer id is asked for again if the epoch was to be bumped.
unfoldable pub after_end : Cluster → Bool → Returns → Returns
after_end c bump (t, some e) = (t, some e)
after_end c bump (t, none) = if bump then initialize_transactions c t else (t, none)

unfoldable pub end_and_init : Cluster → Bool → TransactionManager → Returns
unfolding after_end is_mapping_error
end_and_init c bump t =
    if is_mapping_error t.last_error
    then initialize_transactions c t
    else after_end c bump (end_txn c t)

unfoldable pub after_publish : Cluster → Bool → Returns → Returns
unfolding end_and_init
after_publish c bump (t, some e) = (t, some e)
after_publish c bump (t, none) =
    if overlaps t.status fatal_error then (t, t.last_error) else end_and_init c bump t

unfoldable pub finish_partitions :
    Cluster → Bool → List TopicPartition → TransactionManager → Returns
unfolding after_publish publish_groups
finish_partitions c commit [] t = complete_transaction t
finish_partitions c commit (k ∷ ks) t =
    after_publish c t.epoch_bump_required
      (if commit then publish_groups c t.offsets t else (t, none))

unfoldable pub finish_transaction : Cluster → Bool → TransactionManager → Returns
unfolding finish_partitions
finish_transaction c commit t =
    if overlaps t.status (if commit then in_error else fatal_error)
    then (t, t.last_error)
    else finish_partitions c commit t.partitions t

-- BeginTxn, CommitTxn and AbortTxn of the producer. The message that asks for the end makes the
-- transition, whose error is only logged, and then the transaction is finished.
unfoldable pub begin_txn : TransactionManager → Returns
begin_txn t =
    if t.transactional
    then transition_to in_transaction none t
    else (t, some non_transacted_producer)

unfoldable pub end_message : Bool → TransactionManager → TransactionManager
end_message commit t = (transition_to (mask (if commit then committing else aborting)) none t).0

unfoldable pub commit_txn : Cluster → TransactionManager → Returns
commit_txn c t =
    if t.transactional
    then finish_transaction c true (end_message true t)
    else (t, some non_transacted_producer)

unfoldable pub abort_txn : Cluster → TransactionManager → Returns
abort_txn c t =
    if t.transactional
    then finish_transaction c false (end_message false t)
    else (t, some non_transacted_producer)

-- maybeTransitionToErrorState: an error is fatal if it is, or wraps, one of four answers.
abbrev pub is_fatal_answer : KError → Bool
is_fatal_answer KError.cluster_authorization_failed = true
is_fatal_answer KError.producer_fenced = true
is_fatal_answer KError.unsupported_version = true
is_fatal_answer KError.transactional_id_authorization_failed = true
is_fatal_answer _ = false

any_fatal : List KError → Bool
any_fatal [] = false
any_fatal (e ∷ es) = is_fatal_answer e || any_fatal es

unfoldable pub is_fatal_error : TxnError → Bool
unfolding any_fatal
is_fatal_error (server e) = is_fatal_answer e
is_fatal_error (add_partitions_to_txn es) = any_fatal es
is_fatal_error (txn_offset_commit es) = any_fatal es
is_fatal_error _ = false

unfoldable pub maybe_transition_to_error_state : TxnError → TransactionManager → Returns
unfolding is_fatal_error
maybe_transition_to_error_state e t =
    if is_fatal_error e
    then to_fatal e t
    else if t.coordinator_supports_bumping_epoch && not (overlaps t.status end_transaction)
    then to_abortable e (record t { epoch_bump_required = true })
    else to_abortable e t
