-- ===== src/Txn/Publish.antt =====
-- What adding the pending partitions to the transaction achieves.
use text.Mathlib.TextEquality.{eq_iff}
use sarama.Base.{
  if_both, ℕ, zero, suc, ◌≡◌, ◌≢◌, refl, sym, ap, subst, true, false, not, ◌&&◌, ◌||◌, List, [],
  ◌∷◌, ◌++◌, Option, none, some, if◌then◌else◌, arith,
}
use sarama.Txn.Errors.{KError, TxnError, server}
use sarama.Txn.Status.{overlaps, in_error}
use sarama.Txn.State.{
  TopicPartition, TransactionManager, Returns, transition_to, enter, enter_error,
  abortable_error_if_possible,
}
use sarama.Txn.Sequence.{same, same_iff}
use sarama.Txn.Retry.{
  Attempt, exec, Reply, on_reply, no_coordinator, send_failed, no_response, answered, stop,
  switch_all,
}
use sarama.Txn.Partitions.{
  member, insert, delete, partition_verdict, drop_pending, mark_added, partitions_end,
  partition_results, publish_attempt, publish_pending, publish_txn_partitions,
}

member-delete :
    (k j : TopicPartition) (ks : List TopicPartition)
    → member j (delete k ks) ≡ (not (same k j) && member j ks)
unfolding member delete
member-delete k j [] = ground arith
member-delete k j (i ∷ ks) = ground (
  arith,
  eq_iff k.topic j.topic,
  eq_iff i.topic k.topic,
  eq_iff i.topic j.topic,
  member-delete k j ks,
)

member-insert :
    (k j : TopicPartition) (ks : List TopicPartition)
    → member j (insert k ks) ≡ (same k j || member j ks)
unfolding member insert
member-insert k j ks =
    ground (arith, λ (e : same k j ≡ true). ap (λ i. member i ks) (same_iff k j e))

-- Every partition of `ks` is pending still or is in the transaction.
abbrev pub Covers : List TopicPartition → TransactionManager → Type 0
Covers ks t =
    (k : TopicPartition)
    → member k ks ≡ true
    → (member k t.pending_partitions || member k t.partitions) ≡ true

mark_added-Covers :
    (ks : List TopicPartition) (k : TopicPartition) (t : TransactionManager)
    → Covers ks t
    → Covers ks (mark_added k t)
mark_added-Covers ks k t h j m =
    ground (arith, h j m, member-delete k j t.pending_partitions, member-insert k j t.partitions)

no_pending :
    (k : TopicPartition) (pending added : List TopicPartition)
    → pending ≡ []
    → (member k pending || member k added) ≡ true
    → member k added ≡ true
unfolding member
no_pending k [] added e h = h
no_pending k (j ∷ pending) added e h = ground arith

-- A call that returns no error has left nothing pending, and every partition of `ks` added.
abbrev pub AllAdded : List TopicPartition → TransactionManager → Type 0
AllAdded ks t =
    (t.pending_partitions ≡ [])
    × ((k : TopicPartition) → member k ks ≡ true → member k t.partitions ≡ true)

-- An attempt that is tried again has an error and covers `ks`; one that ends without an error has
-- added them all.
data Good (ks : List TopicPartition) (r : Attempt (Unit {0})) : Type 0 where
  retries : r.retry ≡ true → r.error ≢ none → Covers ks r.state → Good ks r
  ends : r.retry ≡ false → (r.error ≡ none → AllAdded ks r.state) → Good ks r

partitions_end-Good :
    (ks pending : List TopicPartition) (errs : List KError) (t : TransactionManager)
    → pending ≡ t.pending_partitions
    → Covers ks t
    → Good ks (partitions_end pending errs t)
unfolding partitions_end
partitions_end-Good ks [] errs t e h =
    ends refl (λ x. (sym e, λ k m. no_pending k t.pending_partitions t.partitions (sym e) (h k m)))
partitions_end-Good ks (k ∷ pending) errs t e h = retries refl (λ x. ground arith) h

transition_to-error :
    (target : ℕ) (e : TxnError) (t : TransactionManager)
    → (transition_to target (some e) t).1 ≢ none
unfolding transition_to enter enter_error
transition_to-error target e t = ground arith

stops_Good :
    (ks : List TopicPartition) (target : ℕ) (e : TxnError) (t : TransactionManager)
    → Good ks (stop tt (transition_to target (some e) t))
stops_Good ks target e t = ends refl (λ x. absurd (transition_to-error target e t x))

partition_results-Good :
    (ks : List TopicPartition) (rs : List (TopicPartition × KError)) (errs : List KError)
    (t : TransactionManager)
    → Covers ks t
    → Good ks (partition_results rs errs t)
unfolding partition_results abortable_error_if_possible
partition_results-Good ks [] errs t h = partitions_end-Good ks t.pending_partitions errs t refl h
partition_results-Good ks ((k, e) ∷ rest) errs t h =
    switch_all (Good ks) (partition_verdict e) _ _ _ _ _
      (partition_results-Good ks rest errs (mark_added k t) (mark_added-Covers ks k t h))
      (partition_results-Good ks rest (errs ++ (e ∷ [])) t h)
      (stops_Good ks 288 (server e) (drop_pending t))
      (if_both {A = Returns} (λ r. Good ks (stop tt r)) t.coordinator_supports_bumping_epoch _ _
        (stops_Good ks 288 (server e) (record (drop_pending t) { epoch_bump_required = true }))
        (stops_Good ks 544 (server e) (drop_pending t)))
      (stops_Good ks 544 (server e) (drop_pending t))

publish_attempt-Good :
    (ks : List TopicPartition) (r : Reply (List (TopicPartition × KError))) (t : TransactionManager)
    → Covers ks t
    → Good ks (publish_attempt r t)
unfolding publish_attempt on_reply
publish_attempt-Good ks (no_coordinator n) t h = retries refl (λ x. ground arith) h
publish_attempt-Good ks (send_failed n) t h = retries refl (λ x. ground arith) h
publish_attempt-Good ks no_response t h = retries refl (λ x. ground arith) h
publish_attempt-Good ks (answered rs) t h = partition_results-Good ks rs [] t h

-- What a loop that returns no error leaves.
abbrev pub AddedUnlessError :
    List TopicPartition → TransactionManager × Unit {0} × Option TxnError → Type 0
AddedUnlessError ks (t, a, e) = e ≡ none → AllAdded ks t

exec_step :
    (ks : List TopicPartition) (r : Attempt (Unit {0}))
    (rest : TransactionManager × Unit {0} × Option TxnError)
    → Good ks r
    → (Covers ks r.state → r.error ≢ none → AddedUnlessError ks rest)
    → AddedUnlessError ks (if r.retry then rest else (r.state, r.value, r.error))
exec_step ks r rest (retries b ne c) h = simp b (h c ne)
exec_step ks r rest (ends b g) h = simp b g

exec-AddedUnlessError :
    (ks : List TopicPartition) (env : ℕ → Reply (List (TopicPartition × KError))) (n : ℕ)
    (a : Unit {0}) (t : TransactionManager) (err : Option TxnError)
    → Covers ks t
    → (n ≡ 0 → err ≢ none)
    → AddedUnlessError ks (exec n (λ n a. publish_attempt (env n)) a t err)
unfolding exec
exec-AddedUnlessError ks env zero a t err c ne = λ h. absurd (ne refl h)
exec-AddedUnlessError ks env (suc n) a t err c ne =
    let r = publish_attempt (env n) t in
    exec_step ks r _ (publish_attempt-Good ks (env n) t c)
      (λ c' ne'. exec-AddedUnlessError ks env n r.value r.state r.error c' (λ z. ne'))

pending_Covers : (t : TransactionManager) → Covers t.pending_partitions t
pending_Covers t k m = ground (arith, m)

publish_pending-AllAdded :
    (n : ℕ) (env : ℕ → Reply (List (TopicPartition × KError))) (ks : List TopicPartition)
    (t : TransactionManager)
    → ks ≡ t.pending_partitions
    → (publish_pending (suc n) env ks t).1 ≡ none
    → AllAdded t.pending_partitions (publish_pending (suc n) env ks t).0
unfolding publish_pending
publish_pending-AllAdded n env [] t e h =
    (sym e, λ k m. no_pending k t.pending_partitions t.partitions (sym e) (pending_Covers t k m))
publish_pending-AllAdded n env (k ∷ ks) t e h =
    exec-AddedUnlessError t.pending_partitions env (suc n) tt t none (pending_Covers t)
      (λ z. ground arith) h

publish_txn_partitions-pending :
    (n : ℕ) (env : ℕ → Reply (List (TopicPartition × KError))) (t : TransactionManager)
    → overlaps t.status in_error ≡ false
    → publish_txn_partitions n env t ≡ publish_pending n env t.pending_partitions t
unfolding publish_txn_partitions
publish_txn_partitions-pending n env t b = simp b

-- In a phase without an error and with at least one attempt: when the publication of the pending
-- partitions returns no error, nothing is pending any more, and all that was pending is in the
-- transaction.
pub publish_txn_partitions-AllAdded :
    (n : ℕ) (env : ℕ → Reply (List (TopicPartition × KError))) (t : TransactionManager)
    → overlaps t.status in_error ≡ false
    → (publish_txn_partitions (suc n) env t).1 ≡ none
    → AllAdded t.pending_partitions (publish_txn_partitions (suc n) env t).0
publish_txn_partitions-AllAdded n env t b =
    subst (λ (r : Returns). r.1 ≡ none → AllAdded t.pending_partitions r.0)
      (sym (publish_txn_partitions-pending (suc n) env t b))
      (publish_pending-AllAdded n env t.pending_partitions t refl)
