-- ===== src/Txn/Outcomes.antt =====
-- What the calls of a producer return.
use sarama.Base.{
  ◌≡◌, refl, ap, ◌∙◌, inl, inr, Bool, true, false, List, [], ◌∷◌, none, some, Bool-cases,
  if◌then◌else◌, arith,
}
use sarama.Txn.Errors.{transition_not_allowed, non_transacted_producer}
use sarama.Txn.Status.{
  is_transition_valid, Phase, unset, starting, idle, begun, committing, aborting, abortable, fatal,
  mask, follows, overlaps, in_error,
}
use sarama.Txn.State.{
  TopicPartition, TransactionManager, Returns, transition_to, complete_transaction,
  clear_transaction, enter,
}
use sarama.Txn.Phases.{At, transition_to_refused, transition_to_made}
use sarama.Txn.Ids.{Cluster}
use sarama.Txn.Finish.{
  begin_txn, commit_txn, abort_txn, end_message, finish_transaction, finish_partitions,
}

error-follows : (p : Phase) → overlaps (mask p) in_error ≡ true → follows p committing ≡ false
error-follows unset h = ground arith
error-follows starting h = ground arith
error-follows idle h = ground arith
error-follows begun h = ground arith
error-follows committing h = ground arith
error-follows aborting h = ground arith
error-follows abortable h = refl
error-follows fatal h = refl

refused-end_message :
    (commit : Bool) (p : Phase) (t : TransactionManager)
    → At p t
    → follows p (if commit then committing else aborting) ≡ false
    → end_message commit t ≡ t
unfolding end_message
refused-end_message commit p t h f =
    ap (λ (r : Returns). r.0)
      (transition_to_refused p (if commit then committing else aborting) none t h f)

made-end_message :
    (commit : Bool) (p : Phase) (t : TransactionManager)
    → At p t
    → follows p (if commit then committing else aborting) ≡ true
    → end_message commit t
      ≡ record t { last_error = none; status = mask (if commit then committing else aborting) }
unfolding end_message enter
made-end_message true p t h f =
    ap (λ (r : Returns). r.0) (transition_to_made p committing none t h f)
made-end_message false p t h f =
    ap (λ (r : Returns). r.0) (transition_to_made p aborting none t h f)

-- Once the transaction of a transactional producer has failed, a commit changes nothing and returns
-- the error that is kept.
pub failed-commit_txn :
    (c : Cluster) (p : Phase) (t : TransactionManager)
    → At p t
    → overlaps (mask p) in_error ≡ true
    → t.transactional ≡ true
    → commit_txn c t ≡ (t, t.last_error)
unfolding commit_txn finish_transaction
failed-commit_txn c p t h e b =
    simp (b, refused-end_message true p t h (error-follows p e), h.status_is, e)

-- The begin of a transaction in every phase. A transactional producer whose manager is idle enters
-- its transaction, with no error returned or kept and nothing else changed; in every other phase the
-- manager stays as it is and the transition is refused. A producer without a transactional id is
-- told so, and its manager stays as it is.
pub begin_txn-follows :
    (p : Phase) (t : TransactionManager)
    → At p t
    → begin_txn t ≡ (
        if t.transactional
        then (if follows p begun
            then (record t { last_error = none; status = mask begun }, none)
            else (t, some transition_not_allowed))
        else (t, some non_transacted_producer))
unfolding begin_txn enter
begin_txn-follows p t h = elim (Bool-cases (follows p begun)) [
  | inl f ↦ simp (transition_to_made p begun none t h f, f)
  | inr f ↦ simp (transition_to_refused p begun none t h f, f)
]

-- What an abort leaves then.
abbrev left_starting : TransactionManager → TransactionManager
left_starting t = record t {
  last_error = none;
  status = 2;
  epoch_bump_required = false;
  partitions = [];
  pending_partitions = [];
  offsets = [];
}

left_starting-At : (t : TransactionManager) → At starting (left_starting t)
left_starting-At t = record { status_is = refl; error_fits = tt }

complete_transaction-left_starting :
    (t : TransactionManager)
    → t.epoch_bump_required ≡ true
    → complete_transaction (record t { last_error = none; status = mask aborting })
      ≡ (left_starting t, none)
unfolding complete_transaction enter clear_transaction transition_to is_transition_valid
complete_transaction-left_starting t b = simp b

finish_partitions-empty :
    (c : Cluster) (commit : Bool) (ks : List TopicPartition) (t : TransactionManager)
    → ks ≡ []
    → finish_partitions c commit ks t ≡ complete_transaction t
unfolding finish_partitions
finish_partitions-empty c commit [] t h = refl
finish_partitions-empty c commit (k ∷ ks) t h = ground arith

abort_txn-finish :
    (c : Cluster) (t : TransactionManager)
    → At abortable t
    → t.transactional ≡ true
    → abort_txn c t
      ≡ finish_transaction c false (record t { last_error = none; status = mask aborting })
unfolding abort_txn
abort_txn-finish c t h b = simp (b, made-end_message false abortable t h refl)

abort_txn-left_starting :
    (c : Cluster) (t : TransactionManager)
    → At abortable t
    → t.transactional ≡ true
    → t.epoch_bump_required ≡ true
    → t.partitions ≡ []
    → abort_txn c t ≡ (left_starting t, none)
unfolding finish_transaction
abort_txn-left_starting c t h b bump empty =
    abort_txn-finish c t h b
    ∙ (finish_partitions-empty c false t.partitions
          (record t { last_error = none; status = mask aborting }) empty
        ∙ complete_transaction-left_starting t bump)

-- A transaction that failed before a record was sent, and that wants a new epoch, is aborted without
-- an error, yet the next one is not begun: the abort leaves the manager at the start of the request
-- for an epoch, which nothing makes.
pub begin_txn-abort_txn :
    (c : Cluster) (t : TransactionManager)
    → At abortable t
    → t.transactional ≡ true
    → t.epoch_bump_required ≡ true
    → t.partitions ≡ []
    → let (t', e) = abort_txn c t in
      (e ≡ none) × (At starting t') × ((begin_txn t').1 ≡ some transition_not_allowed)
begin_txn-abort_txn c t h b bump empty = rw (abort_txn-left_starting c t h b bump empty) (
  refl,
  left_starting-At t,
  ap (λ (r : Returns). r.1) (begin_txn-follows starting (left_starting t) (left_starting-At t))
      ∙ simp b,
)
