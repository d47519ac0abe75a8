-- ===== src/Offset/Committed.antt =====
-- Nothing that was marked is taken for committed unless the broker has stored it.
use Prim.Native.String.{String}
use text.Mathlib.TextEquality.{eq_iff}
use sarama.Base.{
  ◌≡◌, refl, sym, ap, subst, ◌∙◌, inl, inr, Bool, true, false, List, [], ◌∷◌, map, Option, none,
  some, Bool-cases, if_both, All, All-map, All-both, arith,
}
use sarama.Base.Int.{ℤ}
use sarama.Txn.Errors.{KError}
use sarama.Txn.State.{TopicPartition}
use sarama.Txn.Sequence.{same}
use sarama.Offset.Partition.{
  PartitionOffsetManager, OffsetError, mark_offset, reset_offset, async_close, update_committed,
  handle_error,
}
use sarama.Offset.Manager.{
  Block, construct_request, block_of, block_for, handle_one, handle_block, handle_answer,
}
use sarama.Offset.World.{Call, mark, reset, close, run_call, store}

abbrev pub Differ : TopicPartition → PartitionOffsetManager → Type 0
Differ k p = same p.key k ≡ false

-- No partition is managed twice.
abbrev pub Distinct : List PartitionOffsetManager → Type 0
Distinct [] = Unit {0}
Distinct (p ∷ ps) = All (Differ p.key) ps × Distinct ps

-- A partition with nothing to commit is stored as it stands.
abbrev pub Stored : (TopicPartition → ℤ × String) → PartitionOffsetManager → Type 0
Stored stored p = p.dirty ≡ false → stored p.key ≡ (p.offset, p.metadata)

-- A partition with nothing to commit is not in the request.
abbrev pub Absent : List Block → PartitionOffsetManager → Type 0
Absent bs p = p.dirty ≡ false → block_of p.key bs ≡ none

pub Distinct-map :
    (f : PartitionOffsetManager → PartitionOffsetManager)
    → ((p : PartitionOffsetManager) → (f p).key ≡ p.key)
    → (ps : List PartitionOffsetManager) → Distinct ps
    → Distinct (map f ps)
Distinct-map f same_key [] h = tt
Distinct-map f same_key (p ∷ ps) h = (
  subst (λ k. All (Differ k) (map f ps)) (sym (same_key p))
      (All-map (Differ p.key) (Differ p.key) f
        (λ q d. subst (λ k. same k p.key ≡ false) (sym (same_key q)) d) ps h.0),
  Distinct-map f same_key ps h.1,
)

pub run_call-key : (c : Call) (p : PartitionOffsetManager) → (run_call c p).key ≡ p.key
unfolding run_call mark_offset reset_offset async_close
run_call-key (mark k o m) p = ground arith
run_call-key (reset k o m) p = ground arith
run_call-key (close k) p = ground arith

pub run_call-Stored :
    (stored : TopicPartition → ℤ × String) (c : Call) (p : PartitionOffsetManager)
    → Stored stored p
    → Stored stored (run_call c p)
unfolding run_call mark_offset reset_offset async_close
run_call-Stored stored (mark k o m) p h = ground (arith, h)
run_call-Stored stored (reset k o m) p h = ground (arith, h)
run_call-Stored stored (close k) p h = ground (arith, h)

pub run_call-Absent :
    (bs : List Block) (c : Call) (p : PartitionOffsetManager)
    → Absent bs p
    → Absent bs (run_call c p)
unfolding run_call mark_offset reset_offset async_close
run_call-Absent bs (mark k o m) p h = ground (arith, h)
run_call-Absent bs (reset k o m) p h = ground (arith, h)
run_call-Absent bs (close k) p h = ground (arith, h)

pub no_block :
    (k : TopicPartition) (ps : List PartitionOffsetManager)
    → All (Differ k) ps
    → block_of k (construct_request ps) ≡ none
unfolding block_of construct_request
no_block k [] h = refl
no_block k (p ∷ ps) h = ground (arith, no_block k ps h.1)

clean_block :
    (p q : PartitionOffsetManager) (bs : List Block)
    → Differ p.key q
    → Absent bs q
    → Absent (block_for p ∷ bs) q
unfolding block_of
clean_block p q bs d h e =
    ground (arith, h e, eq_iff p.key.topic q.key.topic, eq_iff q.key.topic p.key.topic)

later_Absent :
    (p q : PartitionOffsetManager) (ps : List PartitionOffsetManager)
    → Differ p.key q
    → Absent (construct_request ps) q
    → Absent (construct_request (p ∷ ps)) q
unfolding construct_request
later_Absent p q ps d h =
    if_both (λ bs. Absent bs q) p.dirty _ _ (clean_block p q (construct_request ps) d h) h

pub construct_request-Absent :
    (ps : List PartitionOffsetManager) → Distinct ps → All (Absent (construct_request ps)) ps
unfolding construct_request
construct_request-Absent [] d = tt
construct_request-Absent (p ∷ ps) d = (
  λ e. ground (arith, e, no_block p.key ps d.0),
  All-both (Differ p.key) (Absent (construct_request ps)) (Absent (construct_request (p ∷ ps)))
      (λ q. later_Absent p q ps) ps d.0 (construct_request-Absent ps d.1),
)

handle_answer-Stored :
    (b : Block) (e : Option KError) (keep : Bool) (old : TopicPartition → ℤ × String)
    (p : PartitionOffsetManager)
    → p.dirty ≡ true
    → (handle_answer b e p).pom.dirty ≡ false
    → store (some b) e keep (old p.key)
      ≡ ((handle_answer b e p).pom.offset, (handle_answer b e p).pom.metadata)
unfolding handle_answer handle_error update_committed
handle_answer-Stored b none keep old p h c = ground arith
handle_answer-Stored b (some KError.no_error) keep old p h c =
    ground (arith, eq_iff p.metadata b.block_metadata)
handle_answer-Stored b (some e) keep old p h c = ground arith

-- What the broker has, once it has treated a request.
abbrev pub stored_after :
    List Block
    → (TopicPartition → Option KError)
    → (TopicPartition → Bool)
    → (TopicPartition → ℤ × String)
    → TopicPartition
    → ℤ × String
stored_after bs resp keeps old k = store (block_of k bs) (resp k) (keeps k) (old k)

handle_block-Stored :
    (b : Option Block) (e : Option KError) (keep : Bool) (old : TopicPartition → ℤ × String)
    (p : PartitionOffsetManager)
    → Stored old p
    → (p.dirty ≡ false → b ≡ none)
    → (handle_block b e p).pom.dirty ≡ false
    → store b e keep (old p.key)
      ≡ ((handle_block b e p).pom.offset, (handle_block b e p).pom.metadata)
unfolding handle_block
handle_block-Stored none e keep old p h a c = h c
handle_block-Stored (some b) e keep old p h a c = elim (Bool-cases p.dirty) [
  | inl d ↦ handle_answer-Stored b e keep old p d c
  | inr d ↦ cc (a d)
]

pub handle_block-key :
    (b : Option Block) (e : Option KError) (p : PartitionOffsetManager)
    → (handle_block b e p).pom.key ≡ p.key
unfolding handle_block handle_answer handle_error update_committed
handle_block-key none e p = refl
handle_block-key (some b) none p = refl
handle_block-key (some b) (some KError.no_error) p = ground arith
handle_block-key (some b) (some e) p = refl

pub handle_one-Stored :
    (bs : List Block) (resp : TopicPartition → Option KError) (keeps : TopicPartition → Bool)
    (old : TopicPartition → ℤ × String) (p : PartitionOffsetManager)
    → Stored old p
    → Absent bs p
    → Stored (stored_after bs resp keeps old) (handle_one bs resp p).pom
unfolding handle_one
handle_one-Stored bs resp keeps old p h a c =
    let k = handle_block-key (block_of p.key bs) (resp p.key) p in
    ap (stored_after bs resp keeps old) k
    ∙ handle_block-Stored (block_of p.key bs) (resp p.key) (keeps p.key) old p h a c

pub failed-Stored :
    (bs : List Block) (e : OffsetError) (keeps : TopicPartition → Bool)
    (old : TopicPartition → ℤ × String) (p : PartitionOffsetManager)
    → Stored old p
    → Absent bs p
    → Stored (stored_after bs (λ k. none) keeps old) (handle_error e p)
unfolding handle_error
failed-Stored bs e keeps old p h a c = rw (a c) (h c)
