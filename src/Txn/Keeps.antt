-- ===== src/Txn/Keeps.antt =====
-- Every call of the manager moves along the diagram of the phases.
use sarama.Base.{if_both, zero, suc, ℕ, refl, List, [], ◌∷◌, ◌++◌, Option, none, some}
use sarama.Txn.Errors.{KError, TxnError, server}
use sarama.Txn.Status.{Phase, abortable, fatal, overlaps, in_error}
use sarama.Txn.State.{
  TopicPartition, PartitionOffset, TransactionManager, Returns, to_abortable, to_fatal,
}
use sarama.Txn.Retry.{
  Attempt, exec, Reply, on_reply, no_coordinator, send_failed, no_response, answered, switch_all,
}
use sarama.Txn.Phases.{
  At, Leads, At-Leads, At-with, Leads-trans, Leads-transition_to, Leads-abortable_error_if_possible,
  Leads-exec,
}
use sarama.Txn.Partitions.{
  partition_verdict, drop_pending, mark_added, partitions_end, partition_results, publish_attempt,
  publish_pending, publish_txn_partitions,
}
use sarama.Txn.Offsets.{
  set_offset, offset_of, group_verdict, add_group_answer, commit_verdict, commit_end,
  commit_results, commit_attempt, publish_commit, publish_offsets_to_txn,
}

pub Leads-abortable :
    (p : Phase) (e : TxnError) (t : TransactionManager) → At p t → Leads p (to_abortable e t).0
Leads-abortable p e t h = Leads-transition_to p abortable (some e) t h tt

pub Leads-fatal :
    (p : Phase) (e : TxnError) (t : TransactionManager) → At p t → Leads p (to_fatal e t).0
Leads-fatal p e t h = Leads-transition_to p fatal (some e) t h tt

pub Leads-on_reply :
    {A R : Type 0} (a : A) (r : Reply R) (f : R → TransactionManager → Attempt A)
    → ((x : R) (p : Phase) (t : TransactionManager) → At p t → Leads p (f x t).state)
    → (p : Phase) (t : TransactionManager) → At p t
    → Leads p (on_reply a r f t).state
unfolding on_reply
Leads-on_reply a (no_coordinator n) f ok p t h = At-Leads h
Leads-on_reply a (send_failed n) f ok p t h = At-Leads h
Leads-on_reply a no_response f ok p t h = At-Leads h
Leads-on_reply a (answered x) f ok p t h = ok x p t h

Leads-partitions_end :
    (ks : List TopicPartition) (errs : List KError) (p : Phase) (t : TransactionManager)
    → At p t
    → Leads p (partitions_end ks errs t).state
unfolding partitions_end
Leads-partitions_end [] errs p t h = At-Leads h
Leads-partitions_end (k ∷ ks) errs p t h = At-Leads h

Leads-partition_results :
    (rs : List (TopicPartition × KError)) (errs : List KError) (p : Phase) (t : TransactionManager)
    → At p t
    → Leads p (partition_results rs errs t).state
unfolding partition_results
Leads-partition_results [] errs p t h = Leads-partitions_end t.pending_partitions errs p t h
Leads-partition_results ((k, e) ∷ rest) errs p t h =
    switch_all (λ (r : Attempt (Unit {0})). Leads p r.state) (partition_verdict e) _ _ _ _ _
      (Leads-partition_results rest errs p (mark_added k t) (At-with refl refl h))
      (Leads-partition_results rest (errs ++ (e ∷ [])) p t h)
      (Leads-abortable p (server e) (drop_pending t) (At-with refl refl h))
      (Leads-abortable_error_if_possible p (server e) (drop_pending t) (At-with refl refl h))
      (Leads-fatal p (server e) (drop_pending t) (At-with refl refl h))

Leads-publish_pending :
    (n : ℕ) (env : ℕ → Reply (List (TopicPartition × KError))) (ks : List TopicPartition)
    (p : Phase) (t : TransactionManager)
    → At p t
    → Leads p (publish_pending n env ks t).0
unfolding publish_pending publish_attempt
Leads-publish_pending n env [] p t h = At-Leads h
Leads-publish_pending n env (k ∷ ks) p t h =
    Leads-exec (λ n a. publish_attempt (env n))
      (λ n a.
        Leads-on_reply tt (env n) (λ rs. partition_results rs [])
          (λ rs. Leads-partition_results rs []))
      n tt p t none h

pub Leads-publish_txn_partitions :
    (n : ℕ) (env : ℕ → Reply (List (TopicPartition × KError))) (p : Phase) (t : TransactionManager)
    → At p t
    → Leads p (publish_txn_partitions n env t).0
unfolding publish_txn_partitions
Leads-publish_txn_partitions n env p t h =
    if_both {A = Returns} (λ r. Leads p r.0) (overlaps t.status in_error) _ _ (At-Leads h)
      (Leads-publish_pending n env t.pending_partitions p t h)

Leads-add_group_answer :
    (e : KError) (p : Phase) (t : TransactionManager)
    → At p t
    → Leads p (add_group_answer e t).state
unfolding add_group_answer
Leads-add_group_answer e p t h =
    switch_all (λ (r : Attempt (Unit {0})). Leads p r.state) (group_verdict e) _ _ _ _ _
      (At-Leads h) (At-Leads h) (Leads-abortable p (server e) t h)
      (Leads-abortable_error_if_possible p (server e) t h) (Leads-fatal p (server e) t h)

Leads-commit_end :
    (missed : List PartitionOffset) (errs : List KError) (p : Phase) (t : TransactionManager)
    → At p t
    → Leads p (commit_end missed errs t).state
unfolding commit_end
Leads-commit_end [] errs p t h = At-Leads h
Leads-commit_end (o ∷ os) errs p t h = At-Leads h

Leads-commit_results :
    (all left : List PartitionOffset) (rs : List (TopicPartition × KError))
    (missed : List PartitionOffset) (errs : List KError) (p : Phase) (t : TransactionManager)
    → At p t
    → Leads p (commit_results all left rs missed errs t).state
unfolding commit_results
Leads-commit_results all left [] missed errs p t h = Leads-commit_end missed errs p t h
Leads-commit_results all left ((k, e) ∷ rest) missed errs p t h =
    switch_all (λ (r : Attempt (List PartitionOffset)). Leads p r.state) (commit_verdict e) _ _ _ _
      _ (Leads-commit_results all left rest missed errs p t h)
      (Leads-commit_results all left rest (set_offset (k, offset_of k all) missed)
        (errs ++ (e ∷ [])) p t h)
      (Leads-abortable p (server e) t h) (Leads-fatal p (server e) t h)
      (Leads-fatal p (server e) t h)

Leads-publish_commit :
    (n : ℕ) (commits : ℕ → Reply (List (TopicPartition × KError))) (os : List PartitionOffset)
    (p : Phase) (r : TransactionManager × Unit {0} × Option TxnError)
    → Leads p r.0
    → Leads p (publish_commit n commits os r).0
unfolding publish_commit commit_attempt
Leads-publish_commit n commits os p (t, a, some e) h = h
Leads-publish_commit zero commits os p (t, a, none) h = h
Leads-publish_commit (suc n) commits os p (t, a, none) h = Leads-trans h (
    Leads-exec (λ n. commit_attempt os (commits n))
      (λ n a.
        Leads-on_reply a (commits n) (λ rs. commit_results os a rs [] [])
          (λ rs p t. Leads-commit_results os a rs [] [] p t))
      (suc n) os h.phase t none h.at_phase)

pub Leads-publish_offsets_to_txn :
    (n : ℕ) (adds : ℕ → Reply KError) (commits : ℕ → Reply (List (TopicPartition × KError)))
    (os : List PartitionOffset) (p : Phase) (t : TransactionManager)
    → At p t
    → Leads p (publish_offsets_to_txn n adds commits os t).0
unfolding publish_offsets_to_txn
Leads-publish_offsets_to_txn n adds commits os p t h =
    Leads-publish_commit n commits os p
      (exec n (λ n a. on_reply a (adds n) add_group_answer) tt t none)
      (Leads-exec (λ n a. on_reply a (adds n) add_group_answer)
        (λ n a. Leads-on_reply a (adds n) add_group_answer Leads-add_group_answer) n tt p t none h)
