-- ===== src/Txn/Offsets.antt =====
-- Adding consumed offsets to the transaction (transaction_manager.go).
use Prim.Native.String.{String}
use text.Mathlib.Text.{◌==◌ as str_eq}
use sarama.Base.{zero, suc, ℕ, not, List, [], ◌∷◌, ◌++◌, Option, none, some, if◌then◌else◌}
use sarama.Base.Int.{ℤ}
use sarama.Txn.Errors.{KError, TxnError, server, transaction_not_ready, txn_offset_commit}
use sarama.Txn.Status.{overlaps, in_transaction, fatal_error}
use sarama.Txn.State.{
  TopicPartition, PartitionOffset, TransactionManager, Returns, to_abortable, to_fatal,
  abortable_error_if_possible,
}
use sarama.Txn.Sequence.{same}
use sarama.Txn.Retry.{
  Attempt, exec, Reply, again, stop, on_reply, Verdict, done, retried, aborted, bumped, failed,
  switch,
}

-- A topicPartitionOffsets map.
unfoldable pub set_offset : PartitionOffset → List PartitionOffset → List PartitionOffset
set_offset (k, v) [] = (k, v) ∷ []
set_offset (k, v) ((j, w) ∷ m) = if same j k then (k, v) ∷ m else (j, w) ∷ set_offset (k, v) m

unfoldable pub offset_of : TopicPartition → List PartitionOffset → Option ℤ
offset_of k [] = none
offset_of k ((j, w) ∷ m) = if same j k then w else offset_of k m

unfoldable pub set_offsets : List PartitionOffset → List PartitionOffset → List PartitionOffset
unfolding set_offset
set_offsets [] m = m
set_offsets (o ∷ os) m = set_offsets os (set_offset o m)

-- The offsets of a group, set in the map of the groups.
unfoldable pub set_group :
    String
    → (List PartitionOffset → List PartitionOffset)
    → List (String × List PartitionOffset)
    → List (String × List PartitionOffset)
set_group g f [] = (g, f []) ∷ []
set_group g f ((h, m) ∷ rest) = if str_eq h g then (h, f m) ∷ rest else (h, m) ∷ set_group g f rest

unfoldable pub add_offsets_to_txn : List PartitionOffset → String → TransactionManager → Returns
unfolding set_offsets set_group
add_offsets_to_txn os g t =
    if not (overlaps t.status in_transaction)
    then (t, some transaction_not_ready)
    else if overlaps t.status fatal_error
    then (t, t.last_error)
    else (record t { offsets = set_group g (set_offsets os) t.offsets }, none)

-- The switch on the answer to AddOffsetsToTxn.
abbrev pub group_verdict : KError → Verdict
group_verdict KError.no_error = done
group_verdict KError.consumer_coordinator_not_available = retried
group_verdict KError.not_coordinator_for_consumer = retried
group_verdict KError.offsets_load_in_progress = retried
group_verdict KError.concurrent_transactions = retried
group_verdict KError.unknown_producer_id = bumped
group_verdict KError.invalid_producer_id_mapping = bumped
group_verdict KError.group_authorization_failed = aborted
group_verdict _ = failed

unfoldable pub add_group_answer : KError → TransactionManager → Attempt (Unit {0})
add_group_answer e t =
    switch (group_verdict e) (stop tt (t, none)) (again tt (server e) t)
      (stop tt (to_abortable (server e) t)) (stop tt (abortable_error_if_possible (server e) t))
      (stop tt (to_fatal (server e) t))

-- The switch on the error of one partition of TxnOffsetCommit.
abbrev pub commit_verdict : KError → Verdict
commit_verdict KError.no_error = done
commit_verdict KError.request_timed_out = retried
commit_verdict KError.consumer_coordinator_not_available = retried
commit_verdict KError.not_coordinator_for_consumer = retried
commit_verdict KError.unknown_topic_or_partition = retried
commit_verdict KError.offsets_load_in_progress = retried
commit_verdict KError.illegal_generation = aborted
commit_verdict KError.unknown_member_id = aborted
commit_verdict KError.fenced_instanced_id = aborted
commit_verdict KError.group_authorization_failed = aborted
commit_verdict _ = failed

unfoldable pub commit_end :
    List PartitionOffset → List KError → TransactionManager → Attempt (List PartitionOffset)
commit_end [] errs t = stop [] (t, none)
commit_end (o ∷ os) errs t = again (o ∷ os) (txn_offset_commit errs) t

-- The loop over the partitions of a response: `left` is resultOffsets, `missed` is failedTxn.
unfoldable pub commit_results :
    List PartitionOffset
    → List PartitionOffset
    → List (TopicPartition × KError)
    → List PartitionOffset
    → List KError
    → TransactionManager
    → Attempt (List PartitionOffset)
unfolding commit_end set_offset offset_of
commit_results all left [] missed errs t = commit_end missed errs t
commit_results all left ((k, e) ∷ rest) missed errs t =
    switch (commit_verdict e) (commit_results all left rest missed errs t)
      (commit_results all left rest (set_offset (k, offset_of k all) missed) (errs ++ (e ∷ [])) t)
      (stop left (to_abortable (server e) t)) (stop left (to_fatal (server e) t))
      (stop left (to_fatal (server e) t))

unfoldable pub commit_attempt :
    List PartitionOffset
    → Reply (List (TopicPartition × KError))
    → List PartitionOffset
    → TransactionManager
    → Attempt (List PartitionOffset)
commit_attempt all r left t = on_reply left r (λ rs. commit_results all left rs [] []) t

-- Without an attempt a nil map is returned.
unfoldable pub publish_commit :
    ℕ
    → (ℕ → Reply (List (TopicPartition × KError)))
    → List PartitionOffset
    → TransactionManager × Unit {0} × Option TxnError
    → TransactionManager × List PartitionOffset × Option TxnError
publish_commit n commits os (t, a, some e) = (t, os, some e)
publish_commit zero commits os (t, a, none) = (t, [], none)
publish_commit (suc n) commits os (t, a, none) =
    exec (suc n) (λ n. commit_attempt os (commits n)) os t none

-- First AddOffsetsToTxn, then TxnOffsetCommit; the offsets that are returned are not committed yet.
unfoldable pub publish_offsets_to_txn :
    ℕ
    → (ℕ → Reply KError)
    → (ℕ → Reply (List (TopicPartition × KError)))
    → List PartitionOffset
    → TransactionManager
    → TransactionManager × List PartitionOffset × Option TxnError
unfolding publish_commit
publish_offsets_to_txn attempts adds commits os t =
    publish_commit attempts commits os
      (exec attempts (λ n a. on_reply a (adds n) add_group_answer) tt t none)
