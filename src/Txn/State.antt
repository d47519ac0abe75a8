-- ===== src/Txn/State.antt =====
-- The state of `transactionManager` (transaction_manager.go) and its transitions.
use Prim.Native.String.{String}
use sarama.Base.{ℕ, Bool, true, false, not, List, [], Option, none, some, if◌then◌else◌}
use sarama.Base.Int.{ℤ, minus_one}
use sarama.Txn.Errors.{TxnError, transition_not_allowed, cannot_transition_nil_error}
use sarama.Txn.Status.{overlaps, in_error, ready, initializing, uninitialized, is_transition_valid}

pub record TopicPartition : Type 0 where
  pub topic : String
  pub partition : ℕ

-- An offset to commit for a partition (`none` is a nil pointer); the metadata and the leader epoch
-- are passed on unread.
abbrev pub PartitionOffset : Type 0
PartitionOffset = TopicPartition × Option ℤ

-- `transactional` says that the transactional id is not empty. A map is a list of its entries, the
-- sequence numbers by topic and partition (the code prints the two as one string, and a partition
-- has no dash). The client, the locks and the timeout are left out.
pub record TransactionManager : Type 0 where
  pub producer_id : ℤ
  pub producer_epoch : ℤ
  pub sequence_numbers : List (TopicPartition × ℤ)
  pub transactional : Bool
  pub coordinator_supports_bumping_epoch : Bool
  pub epoch_bump_required : Bool
  pub last_error : Option TxnError
  pub status : ℕ
  pub pending_partitions : List TopicPartition
  pub partitions : List TopicPartition
  pub offsets : List (String × List PartitionOffset)

-- What a method leaves, with the error that it returns.
abbrev pub Returns : Type 0
Returns = TransactionManager × Option TxnError

-- An error state keeps the error, and wants one.
unfoldable pub enter_error : ℕ → Option TxnError → TransactionManager → Returns
enter_error target none t = (t, some cannot_transition_nil_error)
enter_error target (some e) t = (record t { last_error = some e; status = target }, some e)

unfoldable pub enter : ℕ → Option TxnError → TransactionManager → Returns
unfolding enter_error
enter target err t =
    if overlaps target in_error
    then enter_error target err t
    else (record t { last_error = none; status = target }, err)

-- transitionTo, which returns the error that it was given.
unfoldable pub transition_to : ℕ → Option TxnError → TransactionManager → Returns
unfolding enter
transition_to target err t =
    if not (is_transition_valid t.status target)
    then (t, some transition_not_allowed)
    else enter target err t

abbrev pub to_abortable : TxnError → TransactionManager → Returns
to_abortable e = transition_to 288 (some e)

abbrev pub to_fatal : TxnError → TransactionManager → Returns
to_fatal e = transition_to 544 (some e)

unfoldable pub abortable_error_if_possible : TxnError → TransactionManager → Returns
abortable_error_if_possible e t =
    if t.coordinator_supports_bumping_epoch
    then to_abortable e (record t { epoch_bump_required = true })
    else to_fatal e t

unfoldable pub clear_transaction : Returns → Returns
clear_transaction (t, some e) = (t, some e)
clear_transaction (t, none) = (
  record t {
    last_error = none;
    epoch_bump_required = false;
    partitions = [];
    pending_partitions = [];
    offsets = [];
  },
  none,
)

unfoldable pub complete_transaction : TransactionManager → Returns
unfolding clear_transaction
complete_transaction t =
    clear_transaction (transition_to (if t.epoch_bump_required then initializing else ready) none t)

-- newTransactionManager, before it asks for a producer id.
unfoldable pub new_transaction_manager : Bool → TransactionManager
new_transaction_manager transactional = record {
  producer_id = minus_one;
  producer_epoch = minus_one;
  sequence_numbers = [];
  transactional = transactional;
  coordinator_supports_bumping_epoch = false;
  epoch_bump_required = false;
  last_error = none;
  status = uninitialized;
  pending_partitions = [];
  partitions = [];
  offsets = [];
}
