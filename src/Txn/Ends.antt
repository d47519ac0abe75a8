-- ===== src/Txn/Ends.antt =====
-- Asking for a producer id and ending a transaction move along the diagram of the phases.
use Prim.Native.String.{String}
use sarama.Base.{if_both, refl, Bool, true, false, List, [], ◌∷◌, Option, none, some, if◌then◌else◌}
use sarama.Base.Int.{ℤ}
use sarama.Txn.Errors.{KError, TxnError, server}
use sarama.Txn.Status.{Phase, starting, idle, committing, aborting, mask, overlaps, fatal_error}
use sarama.Txn.State.{TopicPartition, PartitionOffset, TransactionManager, Returns, transition_to}
use sarama.Txn.Retry.{Attempt, on_reply, switch_all}
use sarama.Txn.Phases.{
  At, Leads, At-Leads, At-with, Leads-trans, Leads-transition_to, Leads-complete_transaction,
  Leads-abortable_error_if_possible, Leads-exec,
}
use sarama.Txn.Offsets.{publish_offsets_to_txn}
use sarama.Txn.Keeps.{Leads-fatal, Leads-on_reply, Leads-publish_offsets_to_txn}
use sarama.Txn.Ids.{
  IdAnswer, Cluster, no_id, init_verdict, id_obtained, init_answer, init_attempts, init_after,
  init_producer_id, store_id, initialize_transactions,
}
use sarama.Txn.Finish.{
  end_verdict, end_answer, end_txn, keep_groups, publish_groups, group_published, is_mapping_error,
  after_end, end_and_init, after_publish, finish_partitions, finish_transaction, end_message,
}

Leads-id_obtained :
    (ids : ℤ × ℤ) (p : Phase) (r : Returns) → Leads p r.0 → Leads p (id_obtained ids r).state
unfolding id_obtained
Leads-id_obtained ids p (t, some e) h = h
Leads-id_obtained ids p (t, none) h = h

Leads-init_answer :
    (bump : Bool) (a : IdAnswer) (p : Phase) (t : TransactionManager)
    → At p t
    → Leads p (init_answer bump a t).state
unfolding init_answer
Leads-init_answer bump (e, id, epoch) p t h =
    let t' = if bump then record t { sequence_numbers = [] } else t in
    switch_all (λ (r : Attempt (ℤ × ℤ)). Leads p r.state) (init_verdict e) _ _ _ _ _
      (Leads-id_obtained (id, epoch) p (transition_to (mask idle) none t')
        (Leads-transition_to p idle none t' (if_both (At p) bump _ _ (At-with refl refl h) h) tt))
      (At-Leads h) (Leads-fatal p (server e) t h) (Leads-fatal p (server e) t h)
      (Leads-fatal p (server e) t h)

Leads-init_attempts :
    (c : Cluster) (bump : Bool) (p : Phase) (t : TransactionManager)
    → At p t
    → Leads p (init_attempts c bump t).0
unfolding init_attempts
Leads-init_attempts c bump p t h =
    Leads-exec (λ n a. on_reply no_id (c.init_replies n) (init_answer bump))
      (λ n a. Leads-on_reply no_id (c.init_replies n) (init_answer bump) (Leads-init_answer bump))
      c.attempts no_id p t none h

Leads-init_after :
    (c : Cluster) (p : Phase) (r : Returns) → Leads p r.0 → Leads p (init_after c r).0
unfolding init_after
Leads-init_after c p (t, some e) h = h
Leads-init_after c p (t, none) h = Leads-trans h (Leads-init_attempts c true h.phase t h.at_phase)

Leads-init_producer_id :
    (c : Cluster) (p : Phase) (t : TransactionManager) → At p t → Leads p (init_producer_id c t).0
unfolding init_producer_id
Leads-init_producer_id c p t h =
    let t' = if c.bumping then record t { coordinator_supports_bumping_epoch = true } else t in
    let k = if_both (At p) c.bumping _ t (At-with refl refl h) h in
    if_both {A = TransactionManager × (ℤ × ℤ) × Option TxnError} (λ r. Leads p r.0) _ _ _
      (Leads-init_after c p (transition_to (mask starting) none t')
        (Leads-transition_to p starting none t' k tt))
      (Leads-init_attempts c false p t' k)

Leads-store_id :
    (p : Phase) (r : TransactionManager × (ℤ × ℤ) × Option TxnError)
    → Leads p r.0
    → Leads p (store_id r).0
unfolding store_id
Leads-store_id p (t, (id, epoch), e) h = record {
  phase = h.phase;
  way = h.way;
  at_phase = At-with refl refl h.at_phase;
}

pub Leads-initialize_transactions :
    (c : Cluster) (p : Phase) (t : TransactionManager)
    → At p t
    → Leads p (initialize_transactions c t).0
unfolding initialize_transactions
Leads-initialize_transactions c p t h =
    Leads-store_id p (init_producer_id c t) (Leads-init_producer_id c p t h)

Leads-end_answer :
    (e : KError) (p : Phase) (t : TransactionManager) → At p t → Leads p (end_answer e t).state
unfolding end_answer
Leads-end_answer e p t h =
    switch_all (λ (r : Attempt (Unit {0})). Leads p r.state) (end_verdict e) _ _ _ _ _
      (Leads-complete_transaction p t h) (At-Leads h) (Leads-fatal p (server e) t h)
      (Leads-abortable_error_if_possible p (server e) t h) (Leads-fatal p (server e) t h)

Leads-end_txn :
    (c : Cluster) (p : Phase) (t : TransactionManager) → At p t → Leads p (end_txn c t).0
unfolding end_txn
Leads-end_txn c p t h =
    Leads-exec (λ n a. on_reply a (c.end_replies n) end_answer)
      (λ n a. Leads-on_reply a (c.end_replies n) end_answer Leads-end_answer) c.attempts tt p t none
      h

Leads-group_published :
    (g : String) (gs : List (String × List PartitionOffset)) (p : Phase) (rest : Returns)
    (r : TransactionManager × List PartitionOffset × Option TxnError)
    → Leads p r.0
    → Leads p rest.0
    → Leads p (group_published g gs rest r).0
unfolding group_published keep_groups
Leads-group_published g gs p rest (t, left, some e) h k = record {
  phase = h.phase;
  way = h.way;
  at_phase = At-with refl refl h.at_phase;
}
Leads-group_published g gs p rest (t, left, none) h k = k

Leads-publish_groups :
    (c : Cluster) (gs : List (String × List PartitionOffset)) (p : Phase) (t : TransactionManager)
    → At p t
    → Leads p (publish_groups c gs t).0
unfolding publish_groups keep_groups
Leads-publish_groups c [] p t h = At-Leads (At-with refl refl h)
Leads-publish_groups c ((g, os) ∷ gs) p t h =
    let r = publish_offsets_to_txn c.attempts (c.add_replies g) (c.commit_replies g) os t in
    let k =
      Leads-publish_offsets_to_txn c.attempts (c.add_replies g) (c.commit_replies g) os p t h in
    Leads-group_published g gs p (publish_groups c gs r.0) r k
      (Leads-trans k (Leads-publish_groups c gs k.phase r.0 k.at_phase))

Leads-after_end :
    (c : Cluster) (bump : Bool) (p : Phase) (r : Returns)
    → Leads p r.0
    → Leads p (after_end c bump r).0
unfolding after_end
Leads-after_end c bump p (t, some e) h = h
Leads-after_end c bump p (t, none) h =
    if_both {A = Returns} (λ r. Leads p r.0) bump _ _
      (Leads-trans h (Leads-initialize_transactions c h.phase t h.at_phase)) h

Leads-end_and_init :
    (c : Cluster) (bump : Bool) (p : Phase) (t : TransactionManager)
    → At p t
    → Leads p (end_and_init c bump t).0
unfolding end_and_init
Leads-end_and_init c bump p t h =
    if_both {A = Returns} (λ r. Leads p r.0) (is_mapping_error t.last_error) _ _
      (Leads-initialize_transactions c p t h)
      (Leads-after_end c bump p (end_txn c t) (Leads-end_txn c p t h))

Leads-after_publish :
    (c : Cluster) (bump : Bool) (p : Phase) (r : Returns)
    → Leads p r.0
    → Leads p (after_publish c bump r).0
unfolding after_publish
Leads-after_publish c bump p (t, some e) h = h
Leads-after_publish c bump p (t, none) h =
    if_both {A = Returns} (λ r. Leads p r.0) (overlaps t.status fatal_error) _ _ h
      (Leads-trans h (Leads-end_and_init c bump h.phase t h.at_phase))

Leads-finish_partitions :
    (c : Cluster) (commit : Bool) (ks : List TopicPartition) (p : Phase) (t : TransactionManager)
    → At p t
    → Leads p (finish_partitions c commit ks t).0
unfolding finish_partitions
Leads-finish_partitions c commit [] p t h = Leads-complete_transaction p t h
Leads-finish_partitions c commit (k ∷ ks) p t h = Leads-after_publish c t.epoch_bump_required p _ (
    if_both {A = Returns} (λ r. Leads p r.0) commit _ _ (Leads-publish_groups c t.offsets p t h)
      (At-Leads h))

pub Leads-finish_transaction :
    (c : Cluster) (commit : Bool) (p : Phase) (t : TransactionManager)
    → At p t
    → Leads p (finish_transaction c commit t).0
unfolding finish_transaction
Leads-finish_transaction c commit p t h =
    if_both {A = Returns} (λ r. Leads p r.0) _ _ _ (At-Leads h)
      (Leads-finish_partitions c commit t.partitions p t h)

pub Leads-end_message :
    (commit : Bool) (p : Phase) (t : TransactionManager) → At p t → Leads p (end_message commit t)
unfolding end_message
Leads-end_message true p t h = Leads-transition_to p committing none t h tt
Leads-end_message false p t h = Leads-transition_to p aborting none t h tt
