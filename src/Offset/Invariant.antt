-- ===== src/Offset/Invariant.antt =====
-- The invariant of the manager and the broker, through every call and every commit.
use Prim.Native.String.{String}
use sarama.Base.{
  ◌≡◌, refl, inl, inr, Bool, true, false, List, [], ◌∷◌, map, Option, none, some, Bool-cases,
  if_both, All, All-map, All-imp, arith,
}
use sarama.Base.Int.{ℤ}
use sarama.Txn.Errors.{KError}
use sarama.Txn.State.{TopicPartition}
use sarama.Txn.Sequence.{same}
use sarama.Offset.Partition.{
  PartitionOffsetManager, OffsetError, async_close, handle_error, new_partition_offset_manager,
}
use sarama.Offset.Manager.{
  manage_new, OffsetManager, Block, construct_request, block_of, handle_response, handle_error_all,
  release_poms, async_close_poms, manage_partition, find_pom, handle_one, release_due,
}
use sarama.Offset.World.{
  or_same, is_empty, Call, run_call, run_calls, Exchange, no_coordinator, failed, answered, World,
  receive, flush_some, flush_to_broker, release, close_attempts, close_manager, manage, start_close,
  end_close,
}
use sarama.Offset.Committed.{
  Differ, Distinct, Stored, Absent, Distinct-map, run_call-key, run_call-Stored, run_call-Absent,
  construct_request-Absent, stored_after, handle_block-key, handle_one-Stored, failed-Stored,
}

-- What holds of the manager and the broker together.
pub record Good (w : World) : Type 0 where
  pub distinct : Distinct w.manager.poms
  pub clean_stored : All (Stored w.stored) w.manager.poms

run_calls-Good :
    (cs : List Call) (om : OffsetManager) (stored : TopicPartition → ℤ × String) (bs : List Block)
    → Distinct om.poms
    → All (Stored stored) om.poms
    → All (Absent bs) om.poms
    → Distinct (run_calls cs om).poms
      × All (Stored stored) (run_calls cs om).poms
      × All (Absent bs) (run_calls cs om).poms
unfolding run_calls
run_calls-Good [] om stored bs d h a = (d, h, a)
run_calls-Good (c ∷ cs) om stored bs d h a =
    run_calls-Good cs (record om { poms = map (run_call c) om.poms }) stored bs
      (Distinct-map (run_call c) (run_call-key c) om.poms d)
      (All-map (Stored stored) (Stored stored) (run_call c) (run_call-Stored stored c) om.poms h)
      (All-map (Absent bs) (Absent bs) (run_call c) (run_call-Absent bs c) om.poms a)

handle_error-key : (e : OffsetError) (p : PartitionOffsetManager) → (handle_error e p).key ≡ p.key
unfolding handle_error
handle_error-key e p = refl

handle_error-Stored :
    (stored : TopicPartition → ℤ × String) (e : OffsetError) (p : PartitionOffsetManager)
    → Stored stored p
    → Stored stored (handle_error e p)
unfolding handle_error
handle_error-Stored stored e p h = h

handle_one-key :
    (bs : List Block) (resp : TopicPartition → Option KError) (p : PartitionOffsetManager)
    → (handle_one bs resp p).pom.key ≡ p.key
unfolding handle_one
handle_one-key bs resp p = handle_block-key (block_of p.key bs) (resp p.key) p

Stored-each :
    (f : PartitionOffsetManager → PartitionOffsetManager) (new old : TopicPartition → ℤ × String)
    (bs : List Block)
    → ((p : PartitionOffsetManager) → Stored old p → Absent bs p → Stored new (f p))
    → (ps : List PartitionOffsetManager) → All (Stored old) ps
    → All (Absent bs) ps
    → All (Stored new) (map f ps)
Stored-each f new old bs ok [] h a = tt
Stored-each f new old bs ok (p ∷ ps) h a = (ok p h.0 a.0, Stored-each f new old bs ok ps h.1 a.1)

pub receive-Good :
    (bs : List Block) (x : Exchange) (w : World)
    → Distinct w.manager.poms
    → All (Stored w.stored) w.manager.poms
    → All (Absent bs) w.manager.poms
    → Good (receive bs x w)
unfolding receive handle_error_all handle_response
receive-Good bs (no_coordinator e) w d h a = record {
  distinct = Distinct-map (handle_error e) (λ p. handle_error-key e p) w.manager.poms d;
  clean_stored =
      All-map (Stored w.stored) (Stored w.stored) (handle_error e) (handle_error-Stored w.stored e)
        w.manager.poms h;
}
receive-Good bs (failed e keeps) w d h a = record {
  distinct = Distinct-map (handle_error e) (λ p. handle_error-key e p) w.manager.poms d;
  clean_stored =
      Stored-each (handle_error e) (stored_after bs (λ k. none) keeps w.stored) w.stored bs
        (failed-Stored bs e keeps w.stored) w.manager.poms h a;
}
receive-Good bs (answered resp keeps) w d h a = record {
  distinct =
      Distinct-map (λ p. (handle_one bs resp p).pom) (handle_one-key bs resp) w.manager.poms d;
  clean_stored =
      Stored-each (λ p. (handle_one bs resp p).pom) (stored_after bs resp keeps w.stored) w.stored
        bs (handle_one-Stored bs resp keeps w.stored) w.manager.poms h a;
}

pub run_calls_only-Good :
    (cs : List Call) (w : World) → Good w → Good (record w { manager = run_calls cs w.manager })
unfolding block_of
run_calls_only-Good cs w g =
    let (d, h, a) =
      run_calls-Good cs w.manager w.stored [] g.distinct g.clean_stored
        (All-imp (Stored w.stored) (Absent []) (λ p h e. refl) w.manager.poms g.clean_stored) in
    record { distinct = d; clean_stored = h }

flush_some-Good :
    (bs : List Block) (x : Exchange) (w : World)
    → Good w
    → All (Absent bs) w.manager.poms
    → Good (flush_some bs x w)
unfolding flush_some
flush_some-Good [] x w g a = g
flush_some-Good (b ∷ bs) x w g a = receive-Good (b ∷ bs) x w g.distinct g.clean_stored a

flush_to_broker-Good : (x : Exchange) (w : World) → Good w → Good (flush_to_broker x w)
unfolding flush_to_broker
flush_to_broker-Good x w g =
    flush_some-Good (construct_request w.manager.poms) x w g
      (construct_request-Absent w.manager.poms g.distinct)

release_poms-All :
    (P : PartitionOffsetManager → Type 0) (force : Bool) (ps : List PartitionOffsetManager)
    → All P ps
    → All P (release_poms force ps)
unfolding release_poms
release_poms-All P force [] h = tt
release_poms-All P force (p ∷ ps) h =
    let k = release_poms-All P force ps h.1 in if_both (All P) (release_due force p) _ _ k (h.0, k)

release_poms-Distinct :
    (force : Bool) (ps : List PartitionOffsetManager)
    → Distinct ps
    → Distinct (release_poms force ps)
unfolding release_poms
release_poms-Distinct force [] h = tt
release_poms-Distinct force (p ∷ ps) h =
    let k = release_poms-Distinct force ps h.1 in
    if_both Distinct (release_due force p) _ _ k (release_poms-All (Differ p.key) force ps h.0, k)

pub release-Good : (force : Bool) (w : World) → Good w → Good (release force w)
release-Good force w g = record {
  distinct = release_poms-Distinct force w.manager.poms g.distinct;
  clean_stored = release_poms-All (Stored w.stored) force w.manager.poms g.clean_stored;
}

close_attempts-Good : (xs : List Exchange) (w : World) → Good w → Good (close_attempts xs w)
unfolding close_attempts
close_attempts-Good [] w g = g
close_attempts-Good (x ∷ xs) w g =
    let w' = release false (flush_to_broker x w) in
    let k = release-Good false (flush_to_broker x w) (flush_to_broker-Good x w g) in
    if_both Good (is_empty w'.manager.poms) w' (close_attempts xs w') k
      (close_attempts-Good xs w' k)

async_close-Stored :
    (stored : TopicPartition → ℤ × String) (p : PartitionOffsetManager)
    → Stored stored p
    → Stored stored (async_close p)
unfolding async_close
async_close-Stored stored p h = h

pub async_close-key : (p : PartitionOffsetManager) → (async_close p).key ≡ p.key
unfolding async_close
async_close-key p = refl

pub start_close-Good : (w : World) → Good w → Good (start_close w)
unfolding start_close async_close_poms
start_close-Good w g = record {
  distinct = Distinct-map async_close async_close-key w.manager.poms g.distinct;
  clean_stored =
      All-map (Stored w.stored) (Stored w.stored) async_close (async_close-Stored w.stored)
        w.manager.poms g.clean_stored;
}

pub end_close-Good : (w : World) → Good w → Good (end_close w)
unfolding end_close
end_close-Good w g =
    let k = release-Good true w g in record { distinct = k.distinct; clean_stored = k.clean_stored }

pub close_manager-Good : (xs : List Exchange) (w : World) → Good w → Good (close_manager xs w)
unfolding close_manager
close_manager-Good xs w g =
    end_close-Good (close_attempts xs (start_close w))
      (close_attempts-Good xs (start_close w) (start_close-Good w g))

pub find_pom-Differ :
    (k : TopicPartition) (ps : List PartitionOffsetManager)
    → find_pom k ps ≡ none
    → All (Differ k) ps
unfolding find_pom
find_pom-Differ k [] h = tt
find_pom-Differ k (p ∷ ps) h = elim (Bool-cases (same p.key k)) [
  | inl e ↦ ground (arith, e)
  | inr e ↦ (e, find_pom-Differ k ps (ground (arith, e, h)))
]

manage_new-Good :
    (k : TopicPartition) (epoch : ℤ) (w : World) (o : Option PartitionOffsetManager)
    → find_pom k w.manager.poms ≡ o
    → Good w
    → Good (
        or_same w (
          manage_new o
            (new_partition_offset_manager k (w.stored k).0 epoch (w.stored k).1)
            w.manager))
unfolding manage_new new_partition_offset_manager
manage_new-Good k epoch w none e g = record {
  distinct = (find_pom-Differ k w.manager.poms e, g.distinct);
  clean_stored = ((λ c. refl), g.clean_stored);
}
manage_new-Good k epoch w (some q) e g = g

pub manage-Good : (k : TopicPartition) (epoch : ℤ) (w : World) → Good w → Good (manage k epoch w)
unfolding manage_partition
manage-Good k epoch w g = manage_new-Good k epoch w (find_pom k w.manager.poms) refl g
