-- ===== src/Txn/Calls.antt =====
-- The calls that a producer makes of its transaction manager, and runs of them.
use Prim.Native.String.{String}
use sarama.Base.{
  if_both, ℕ, ◌≡◌, refl, subst, Bool, true, false, not, List, [], ◌∷◌, Option, none, some,
  if◌then◌else◌, arith,
}
use sarama.Txn.Errors.{KError, TxnError, transition_not_allowed}
use sarama.Txn.Status.{
  Phase, unset, starting, idle, begun, committing, aborting, abortable, fatal, follows, overlaps,
  in_error, in_transaction, fatal_error, mask,
}
use sarama.Txn.State.{
  TopicPartition, PartitionOffset, TransactionManager, Returns, new_transaction_manager,
  transition_to,
}
use sarama.Txn.Retry.{Reply}
use sarama.Txn.Sequence.{get_and_increment_sequence_number, bump_epoch}
use sarama.Txn.Phases.{
  At, ErrorFits, transition_to-follows, Leads, At-Leads, At-with, Leads-trans, Leads-transition_to,
  Reach, here, step,
}
use sarama.Txn.Partitions.{
  publish_txn_partitions, maybe_add_partition_to_current_txn, member, insert,
}
use sarama.Txn.Offsets.{add_offsets_to_txn, set_group, set_offsets}
use sarama.Txn.Keeps.{Leads-abortable, Leads-fatal, Leads-publish_txn_partitions}
use sarama.Txn.Ids.{Cluster, initialize_transactions}
use sarama.Txn.Finish.{
  begin_txn, commit_txn, abort_txn, end_message, finish_transaction,
  maybe_transition_to_error_state,
}
use sarama.Txn.Ends.{Leads-finish_transaction, Leads-end_message, Leads-initialize_transactions}

-- A call, with what the brokers do with it. `ask_end` and `finish` are the two halves of a commit or an
-- abort, between which the messages in flight may make other calls; `commit` and `abort` are the whole
-- with nothing in between. A producer that has used up its epochs takes a new manager in place of `bump`.
pub data Call : Type 0 where
  begin bump : Call
  commit abort initialize : Cluster → Call
  record_for number_for : TopicPartition → Call
  publish : ℕ → (ℕ → Reply (List (TopicPartition × KError))) → Call
  add_offsets : List PartitionOffset → String → Call
  fail : TxnError → Call
  ask_end : Bool → Call
  finish : Cluster → Bool → Call

unfoldable pub perform : Call → TransactionManager → Returns
perform begin t = begin_txn t
perform bump t = (bump_epoch t, none)
perform (commit c) t = commit_txn c t
perform (abort c) t = abort_txn c t
perform (initialize c) t = initialize_transactions c t
perform (record_for k) t = (maybe_add_partition_to_current_txn k t, none)
perform (number_for k) t = ((get_and_increment_sequence_number k t).0, none)
perform (publish n env) t = publish_txn_partitions n env t
perform (add_offsets os g) t = add_offsets_to_txn os g t
perform (fail e) t = maybe_transition_to_error_state e t
perform (ask_end b) t = (end_message b t, none)
perform (finish c b) t = finish_transaction c b t

unfoldable pub perform_all : List Call → TransactionManager → TransactionManager
perform_all [] t = t
perform_all (c ∷ cs) t = perform_all cs (perform c t).0

Leads-maybe_transition_to_error_state :
    (e : TxnError) (p : Phase) (t : TransactionManager)
    → At p t
    → Leads p (maybe_transition_to_error_state e t).0
unfolding maybe_transition_to_error_state
Leads-maybe_transition_to_error_state e p t h =
    if_both {A = Returns} (λ r. Leads p r.0) _ _ _ (Leads-fatal p e t h)
      (if_both {A = Returns} (λ r. Leads p r.0) _ _ _
        (Leads-abortable p e (record t { epoch_bump_required = true }) (At-with refl refl h))
        (Leads-abortable p e t h))

Leads-begin_txn : (p : Phase) (t : TransactionManager) → At p t → Leads p (begin_txn t).0
unfolding begin_txn
Leads-begin_txn p t h =
    if_both {A = Returns} (λ r. Leads p r.0) t.transactional _ _
      (Leads-transition_to p begun none t h tt) (At-Leads h)

Leads-commit_txn :
    (c : Cluster) (p : Phase) (t : TransactionManager) → At p t → Leads p (commit_txn c t).0
unfolding commit_txn
Leads-commit_txn c p t h =
    let k = Leads-end_message true p t h in
    if_both {A = Returns} (λ r. Leads p r.0) t.transactional _ _
      (Leads-trans k (Leads-finish_transaction c true k.phase _ k.at_phase)) (At-Leads h)

Leads-abort_txn :
    (c : Cluster) (p : Phase) (t : TransactionManager) → At p t → Leads p (abort_txn c t).0
unfolding abort_txn
Leads-abort_txn c p t h =
    let k = Leads-end_message false p t h in
    if_both {A = Returns} (λ r. Leads p r.0) t.transactional _ _
      (Leads-trans k (Leads-finish_transaction c false k.phase _ k.at_phase)) (At-Leads h)

Leads-maybe_add_partition :
    (k : TopicPartition) (p : Phase) (t : TransactionManager)
    → At p t
    → Leads p (maybe_add_partition_to_current_txn k t)
unfolding maybe_add_partition_to_current_txn
Leads-maybe_add_partition k p t h =
    if_both (Leads p) (overlaps t.status in_error) t _ (At-Leads h) (
      if_both (Leads p) (member k t.partitions) t
        (record t { pending_partitions = insert k t.pending_partitions }) (At-Leads h)
        (At-Leads (At-with refl refl h)))

Leads-add_offsets_to_txn :
    (os : List PartitionOffset) (g : String) (p : Phase) (t : TransactionManager)
    → At p t
    → Leads p (add_offsets_to_txn os g t).0
unfolding add_offsets_to_txn
Leads-add_offsets_to_txn os g p t h =
    if_both {A = Returns} (λ r. Leads p r.0) (not (overlaps t.status in_transaction)) _ _
      (At-Leads h)
      (if_both {A = Returns} (λ r. Leads p r.0) (overlaps t.status fatal_error) (t, t.last_error)
        (record t { offsets = set_group g (set_offsets os) t.offsets }, none) (At-Leads h)
        (At-Leads (At-with refl refl h)))

-- Every call of a manager in a phase leaves it in one that the diagram leads to, with an error kept
-- in the two error phases and in no other.
pub perform-Leads :
    (c : Call) (p : Phase) (t : TransactionManager) → At p t → Leads p (perform c t).0
unfolding perform get_and_increment_sequence_number bump_epoch
perform-Leads begin p t h = Leads-begin_txn p t h
perform-Leads bump p t h = At-Leads (At-with refl refl h)
perform-Leads (commit c) p t h = Leads-commit_txn c p t h
perform-Leads (abort c) p t h = Leads-abort_txn c p t h
perform-Leads (initialize c) p t h = Leads-initialize_transactions c p t h
perform-Leads (record_for k) p t h = Leads-maybe_add_partition k p t h
perform-Leads (number_for k) p t h = At-Leads (At-with refl refl h)
perform-Leads (publish n env) p t h = Leads-publish_txn_partitions n env p t h
perform-Leads (add_offsets os g) p t h = Leads-add_offsets_to_txn os g p t h
perform-Leads (fail e) p t h = Leads-maybe_transition_to_error_state e p t h
perform-Leads (ask_end b) p t h = Leads-end_message b p t h
perform-Leads (finish c b) p t h = Leads-finish_transaction c b p t h

-- Out of the phase of a fatal error the diagram leads nowhere.
fatal-follows : (r : Phase) → follows fatal r ≡ true → r ≡ fatal
fatal-follows unset h = ground arith
fatal-follows starting h = ground arith
fatal-follows idle h = ground arith
fatal-follows begun h = ground arith
fatal-follows committing h = ground arith
fatal-follows aborting h = ground arith
fatal-follows abortable h = ground arith
fatal-follows fatal h = refl

fatal-Reach : {p q : Phase} → Reach p q → p ≡ fatal → q ≡ fatal
fatal-Reach here e = e
fatal-Reach (step {q = r} f h) e =
    fatal-Reach h (fatal-follows r (subst (λ p. follows p r ≡ true) e f))

run-Leads :
    (cs : List Call) (p : Phase) (t : TransactionManager) → At p t → Leads p (perform_all cs t)
unfolding perform_all
run-Leads [] p t h = At-Leads h
run-Leads (c ∷ cs) p t h =
    let k = perform-Leads c p t h in Leads-trans k (run-Leads cs k.phase _ k.at_phase)

-- After a fatal error, whatever calls are made, the manager stays in the fatal phase with an error
-- at hand.
pub fatal-perform_all :
    (cs : List Call) (t : TransactionManager) → At fatal t → At fatal (perform_all cs t)
fatal-perform_all cs t h =
    let k = run-Leads cs fatal t h in
    subst (λ q. At q (perform_all cs t)) (fatal-Reach k.way refl) k.at_phase

-- A new manager starts in the first phase, without an error.
new_transaction_manager-At : (b : Bool) → At unset (new_transaction_manager b)
unfolding new_transaction_manager
new_transaction_manager-At b = record { status_is = refl; error_fits = tt }

-- After any calls of a new manager, whatever the brokers answered, it is in one of the phases, with an
-- error at hand in the two error phases and in no other; and a transition to any phase, asked for
-- with an error if that is an error phase and with none if it is not, is made where the diagram has
-- it, which stores the status and the error and returns the error, and is refused where it has not,
-- with everything left as it was.
pub transition_to-perform_all :
    (cs : List Call) (b : Bool) (q : Phase) (err : Option TxnError)
    → ErrorFits q err
    → let t = perform_all cs (new_transaction_manager b) in
      (p : Phase) × At p t
      × (transition_to (mask q) err t ≡ (
          if follows p q
          then (record t { last_error = err; status = mask q }, err)
          else (t, some transition_not_allowed)))
transition_to-perform_all cs b q err f =
    let t = perform_all cs (new_transaction_manager b) in
    let k = run-Leads cs unset (new_transaction_manager b) (new_transaction_manager-At b) in
    (k.phase, k.at_phase, transition_to-follows k.phase q err t k.at_phase f)
