-- ===== src/Txn/Ids.antt =====
-- Asking for a producer id (transaction_manager.go), and the brokers that are asked.
use Prim.Native.String.{String}
use sarama.Base.{ℕ, Bool, true, false, not, ◌&&◌, List, [], Option, none, some, if◌then◌else◌}
use sarama.Base.Int.{ℤ, minus_one, eqb_ℤ}
use sarama.Txn.Errors.{KError, TxnError, server}
use sarama.Txn.Status.{initializing, ready}
use sarama.Txn.State.{
  TopicPartition, TransactionManager, Returns, transition_to, to_fatal, new_transaction_manager,
}
use sarama.Txn.Retry.{
  Attempt, exec, Reply, again, stop, on_reply, Verdict, done, retried, failed, switch,
}

-- What a broker answers to InitProducerId: an error, a producer id and an epoch.
abbrev pub IdAnswer : Type 0
IdAnswer = KError × ℤ × ℤ

-- The brokers and the configuration, as the manager meets them. `bumping` says that the version is at
-- least 2.5; `attempts` is Retry.Max + 1; a reply is named by the attempts that are left after it.
pub record Cluster : Type 0 where
  pub attempts : ℕ
  pub bumping : Bool
  pub init_replies : ℕ → Reply IdAnswer
  pub end_replies : ℕ → Reply KError
  pub add_replies : String → ℕ → Reply KError
  pub commit_replies : String → ℕ → Reply (List (TopicPartition × KError))

abbrev pub no_id : ℤ × ℤ
no_id = (minus_one, minus_one)

-- The switch on the answer to InitProducerId.
abbrev pub init_verdict : KError → Verdict
init_verdict KError.no_error = done
init_verdict KError.consumer_coordinator_not_available = retried
init_verdict KError.not_coordinator_for_consumer = retried
init_verdict KError.offsets_load_in_progress = retried
init_verdict _ = failed

-- A refused transition is tried again.
unfoldable pub id_obtained : ℤ × ℤ → Returns → Attempt (ℤ × ℤ)
id_obtained ids (t, some e) = again no_id e t
id_obtained ids (t, none) = stop ids (t, none)

unfoldable pub init_answer : Bool → IdAnswer → TransactionManager → Attempt (ℤ × ℤ)
unfolding id_obtained
init_answer bump (e, id, epoch) t =
    let fail = stop no_id (to_fatal (server e) t) in
    switch (init_verdict e)
      (id_obtained (id, epoch)
        (transition_to ready none (if bump then record t { sequence_numbers = [] } else t)))
      (again no_id (server e) t) fail fail fail

unfoldable pub init_attempts :
    Cluster → Bool → TransactionManager → TransactionManager × (ℤ × ℤ) × Option TxnError
init_attempts c bump t =
    exec c.attempts (λ n a. on_reply no_id (c.init_replies n) (init_answer bump)) no_id t none

unfoldable pub init_after : Cluster → Returns → TransactionManager × (ℤ × ℤ) × Option TxnError
init_after c (t, some e) = (t, no_id, some e)
init_after c (t, none) = init_attempts c true t

-- An epoch is bumped where the version allows it and there is an id already.
unfoldable pub init_producer_id :
    Cluster → TransactionManager → TransactionManager × (ℤ × ℤ) × Option TxnError
unfolding init_after init_attempts
init_producer_id c t =
    let t' = if c.bumping then record t { coordinator_supports_bumping_epoch = true } else t in
    let bump =
      c.bumping && not (eqb_ℤ t.producer_id minus_one) && not (eqb_ℤ t.producer_epoch minus_one) in
    if bump then init_after c (transition_to initializing none t') else init_attempts c false t'

unfoldable pub store_id : TransactionManager × (ℤ × ℤ) × Option TxnError → Returns
store_id (t, (id, epoch), e) = (record t { producer_id = id; producer_epoch = epoch }, e)

unfoldable pub initialize_transactions : Cluster → TransactionManager → Returns
unfolding store_id
initialize_transactions c t = store_id (init_producer_id c t)

-- newTransactionManager of an idempotent producer.
unfoldable pub start_transaction_manager : Cluster → Bool → Returns
start_transaction_manager c transactional =
    initialize_transactions c (new_transaction_manager transactional)
