-- ===== src/Txn/Runs.antt =====
-- Runs of the transaction manager.
use sarama.Base.{ℕ, ◌≡◌, refl, true, List, [], ◌∷◌, none, some, ◌==◌, if◌then◌else◌}
use sarama.Base.Int.{pos}
use sarama.Txn.Errors.{server, transition_not_allowed}
use sarama.Txn.Errors.{KError}
use sarama.Txn.Status.{
  Phase, starting, idle, begun, committing, abortable, fatal, mask, follows, is_transition_valid,
  is_transition_valid-follows,
}
use sarama.Txn.State.{
  transition_to, enter, enter_error, clear_transaction, complete_transaction, TopicPartition,
  TransactionManager, new_transaction_manager,
}
use sarama.Txn.Sequence.{
  get_and_increment_sequence_number, bump_epoch, next_sequence, next_int16, next_int32,
  next_sequence-get_and_increment, get_and_increment-bump_epoch,
}
use sarama.Txn.Retry.{exec, on_reply, Reply, answered, no_response, send_failed}
use sarama.Txn.Phases.{At, Leads}
use sarama.Txn.Partitions.{
  member, insert, delete, maybe_add_partition_to_current_txn, publish_pending, publish_attempt,
  partition_results, partitions_end, publish_txn_partitions,
}
use sarama.Txn.Ids.{
  init_producer_id, init_attempts, init_answer, id_obtained, store_id, initialize_transactions,
  Cluster,
}
use sarama.Txn.Finish.{
  end_message, finish_transaction, finish_partitions, publish_groups, keep_groups, after_publish,
  is_mapping_error, end_and_init, end_txn, end_answer, after_end, begin_txn, commit_txn, abort_txn,
}
use sarama.Txn.Calls.{
  Call, begin, commit, initialize, record_for, number_for, publish, perform, perform_all,
  perform-Leads, fatal-perform_all, transition_to-perform_all,
}
use sarama.Txn.Outcomes.{failed-commit_txn, begin_txn-follows, begin_txn-abort_txn}
use sarama.Txn.Publish.{AllAdded, publish_txn_partitions-AllAdded}

abbrev orders : TopicPartition
orders = record { topic = "orders"; partition = 3 }

abbrev refunds : TopicPartition
refunds = record { topic = "refunds"; partition = 0 }

-- Brokers that give the id 7 and say yes to everything at the second attempt.
abbrev cluster : Cluster
cluster = record {
  attempts = 3;
  bumping = true;
  init_replies = λ n. if n == 2 then no_response else answered (KError.no_error, pos 7, pos 0);
  end_replies = λ n. if n == 2 then send_failed 1 else answered KError.no_error;
  add_replies = λ g n. answered KError.no_error;
  commit_replies = λ g n. answered [];
}

abbrev new_manager : TransactionManager
new_manager = new_transaction_manager true

abbrev added : ℕ → Reply (List (TopicPartition × KError))
added n =
    if n == 2
    then answered ((orders, KError.no_error) ∷ (refunds, KError.concurrent_transactions) ∷ [])
    else answered ((refunds, KError.no_error) ∷ [])

-- A transaction with two partitions.
abbrev one_transaction : List Call
one_transaction =
    initialize cluster
    ∷ begin
    ∷ record_for orders
    ∷ number_for orders
    ∷ record_for refunds
    ∷ publish 3 added
    ∷ commit cluster
    ∷ []

one_transaction_status : (perform_all one_transaction new_manager).status ≡ mask idle
unfolding perform_all perform exec on_reply transition_to enter enter_error is_transition_valid
    new_transaction_manager clear_transaction complete_transaction init_producer_id init_attempts
    init_answer id_obtained store_id initialize_transactions begin_txn
    maybe_add_partition_to_current_txn member insert delete publish_txn_partitions publish_pending
    publish_attempt partition_results partitions_end get_and_increment_sequence_number commit_txn
    end_message finish_transaction finish_partitions publish_groups keep_groups after_publish
    is_mapping_error end_and_init end_txn end_answer after_end
one_transaction_status = refl

-- Its witnesses.
abbrev orders_numbered : TransactionManager
orders_numbered = record new_manager {
  producer_epoch = pos 32767;
  sequence_numbers = (refunds, pos 8) ∷ (orders, pos 2147483647) ∷ [];
}

next_sequence-get_and_increment_example :
    let (t', n, epoch) = get_and_increment_sequence_number orders orders_numbered in
    (n ≡ next_sequence orders orders_numbered)
    × (epoch ≡ pos 32767)
    × (next_sequence orders t' ≡ next_int32 (next_sequence orders orders_numbered))
unfolding new_transaction_manager
next_sequence-get_and_increment_example =
    next_sequence-get_and_increment orders orders orders_numbered

get_and_increment-bump_epoch_example :
    let (t', n, epoch) = get_and_increment_sequence_number orders (bump_epoch orders_numbered) in
    (n ≡ pos 0) × (epoch ≡ next_int16 (pos 32767))
unfolding new_transaction_manager
get_and_increment-bump_epoch_example = get_and_increment-bump_epoch orders orders_numbered

is_transition_valid-follows_example : is_transition_valid (mask begun) (mask committing) ≡ true
is_transition_valid-follows_example = is_transition_valid-follows begun committing

transition_to-perform_all_example :
    let t = perform_all one_transaction new_manager in
    (p : Phase) × At p t
    × (transition_to (mask begun) none t ≡ (
        if follows p begun
        then (record t { last_error = none; status = mask begun }, none)
        else (t, some transition_not_allowed)))
transition_to-perform_all_example = transition_to-perform_all one_transaction true begun none tt

abbrev fenced : TransactionManager
fenced = record new_manager { status = 544; last_error = some (server KError.producer_fenced) }

fenced-At : At fatal fenced
fenced-At = record { status_is = refl; error_fits = tt }

fatal-perform_all_example : At fatal (perform_all one_transaction fenced)
fatal-perform_all_example = fatal-perform_all one_transaction fenced fenced-At

-- An idle manager that is in a transaction, and one that has failed before its first record.
abbrev open_manager : TransactionManager
open_manager = record new_manager { status = 8; pending_partitions = orders ∷ refunds ∷ [] }

open_manager-At : At begun open_manager
unfolding new_transaction_manager
open_manager-At = record { status_is = refl; error_fits = tt }

perform-Leads_example : Leads begun (perform (commit cluster) open_manager).0
perform-Leads_example = perform-Leads (commit cluster) begun open_manager open_manager-At

abbrev failed_manager : TransactionManager
failed_manager = record new_manager {
  status = 288;
  last_error = some (server KError.topic_authorization_failed);
  epoch_bump_required = true;
}

failed_manager-At : At abortable failed_manager
failed_manager-At = record { status_is = refl; error_fits = tt }

failed-commit_txn_example :
    commit_txn cluster failed_manager
    ≡ (failed_manager, some (server KError.topic_authorization_failed))
unfolding new_transaction_manager
failed-commit_txn_example =
    failed-commit_txn cluster abortable failed_manager failed_manager-At refl refl

begin_txn-follows_example : begin_txn open_manager ≡ (open_manager, some transition_not_allowed)
unfolding new_transaction_manager
begin_txn-follows_example = begin_txn-follows begun open_manager open_manager-At

begin_txn-abort_txn_example :
    let (t', e) = abort_txn cluster failed_manager in
    (e ≡ none) × (At starting t') × ((begin_txn t').1 ≡ some transition_not_allowed)
unfolding new_transaction_manager
begin_txn-abort_txn_example =
    begin_txn-abort_txn cluster failed_manager failed_manager-At refl refl refl

open_manager_published : (publish_txn_partitions 3 added open_manager).1 ≡ none
unfolding new_transaction_manager publish_txn_partitions publish_pending publish_attempt
    partition_results partitions_end exec on_reply insert delete member
open_manager_published = refl

publish_txn_partitions-AllAdded_example :
    AllAdded (orders ∷ refunds ∷ []) (publish_txn_partitions 3 added open_manager).0
unfolding new_transaction_manager
publish_txn_partitions-AllAdded_example =
    publish_txn_partitions-AllAdded 2 added open_manager refl open_manager_published
