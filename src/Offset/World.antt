-- ===== src/Offset/World.antt =====
-- A consumer group's offsets and the broker that stores them: what is called of the manager, and what
-- happens while a commit is on its way.
use Prim.Native.String.{String}
use sarama.Base.{
  ℕ, zero, suc, ◌++◌, Bool, true, false, List, [], ◌∷◌, map, Option, none, some, if◌then◌else◌,
}
use sarama.Base.Int.{ℤ}
use sarama.Txn.Errors.{KError}
use sarama.Txn.State.{TopicPartition}
use sarama.Txn.Sequence.{same}
use sarama.Offset.Partition.{
  PartitionOffsetManager, OffsetError, mark_offset, reset_offset, async_close,
}
use sarama.Offset.Manager.{
  OffsetManager, Block, construct_request, block_of, handle_response, handle_error_all,
  release_poms, async_close_poms, manage_partition,
}

-- What a user calls of one partition.
pub data Call : Type 0 where
  mark reset : TopicPartition → ℤ → String → Call
  close : TopicPartition → Call

abbrev pub on :
    TopicPartition
    → (PartitionOffsetManager → PartitionOffsetManager)
    → PartitionOffsetManager
    → PartitionOffsetManager
on k f p = if same p.key k then f p else p

unfoldable pub run_call : Call → PartitionOffsetManager → PartitionOffsetManager
run_call (mark k o m) = on k (mark_offset o m)
run_call (reset k o m) = on k (reset_offset o m)
run_call (close k) = on k async_close

unfoldable pub run_calls : List Call → OffsetManager → OffsetManager
run_calls [] om = om
run_calls (c ∷ cs) om = run_calls cs (record om { poms = map (run_call c) om.poms })

-- What becomes of a request. `keeps` says which blocks a broker has stored although it did not say so.
pub data Exchange : Type 0 where
  no_coordinator : OffsetError → Exchange
  failed : OffsetError → (TopicPartition → Bool) → Exchange
  answered : (TopicPartition → Option KError) → (TopicPartition → Bool) → Exchange

-- `in_flight` are the requests of the commits that have begun and are not yet answered, oldest first:
-- Commit holds no lock from its request to the answer, so there may be several.
pub record World : Type 0 where
  pub manager : OffsetManager
  pub stored : TopicPartition → ℤ × String
  pub in_flight : List (List Block)

-- A block that is answered without an error is stored.
abbrev pub store : Option Block → Option KError → Bool → ℤ × String → ℤ × String
store none e keep old = old
store (some b) (some KError.no_error) keep old = (b.block_offset, b.block_metadata)
store (some b) e keep old = if keep then (b.block_offset, b.block_metadata) else old

unfoldable pub receive : List Block → Exchange → World → World
receive bs (no_coordinator e) w = record w { manager = handle_error_all e w.manager }
receive bs (failed e keeps) w = record w {
  manager = record (handle_error_all e w.manager) { broker = false };
  stored = λ k. store (block_of k bs) none (keeps k) (w.stored k);
}
receive bs (answered resp keeps) w = record w {
  manager = handle_response bs resp (record w.manager { broker = true });
  stored = λ k. store (block_of k bs) (resp k) (keeps k) (w.stored k);
}

-- flushToBroker, with nothing in between.
unfoldable pub flush_some : List Block → Exchange → World → World
flush_some [] x w = w
flush_some (b ∷ bs) x w = receive (b ∷ bs) x w

unfoldable pub flush_to_broker : Exchange → World → World
unfolding flush_some
flush_to_broker x w = flush_some (construct_request w.manager.poms) x w

abbrev pub release : Bool → World → World
release force w = record w {
  manager = record w.manager { poms = release_poms force w.manager.poms };
}

-- Commit, up to where its request is on its way; with nothing to commit it is over.
unfoldable pub send_some : List Block → World → World
send_some [] w = release false w
send_some (b ∷ bs) w = record w { in_flight = w.in_flight ++ ((b ∷ bs) ∷ []) }

unfoldable pub start_commit : World → World
unfolding send_some
start_commit w = send_some (construct_request w.manager.poms) w

abbrev pub request_at : ℕ → List (List Block) → Option (List Block)
request_at i [] = none
request_at zero (r ∷ rs) = some r
request_at (suc i) (r ∷ rs) = request_at i rs

abbrev pub without : ℕ → List (List Block) → List (List Block)
without i [] = []
without zero (r ∷ rs) = rs
without (suc i) (r ∷ rs) = r ∷ without i rs

-- The rest of the Commit whose request is the `i`th on its way, if there are so many.
unfoldable pub end_some : Option (List Block) → Exchange → World → World
end_some none x w = w
end_some (some bs) x w = release false (receive bs x w)

unfoldable pub end_commit : ℕ → Exchange → World → World
unfolding end_some
end_commit i x w =
    end_some (request_at i w.in_flight) x (record w { in_flight = without i w.in_flight })

abbrev pub is_empty : List PartitionOffsetManager → Bool
is_empty [] = true
is_empty (p ∷ ps) = false

-- The attempts of Close, as many as there are exchanges (Retry.Max + 1), until nothing is left.
unfoldable pub close_attempts : List Exchange → World → World
close_attempts [] w = w
close_attempts (x ∷ xs) w =
    let w' = release false (flush_to_broker x w) in
    let rest = close_attempts xs w' in if is_empty w'.manager.poms then w' else rest

-- The beginning and the end of Close (an automatic commit is on), and the whole with nothing between.
unfoldable pub start_close : World → World
start_close w = record w { manager = async_close_poms w.manager }

unfoldable pub end_close : World → World
end_close w =
    let w' = release true w in record w' { manager = record w'.manager { broker = false } }

unfoldable pub close_manager : List Exchange → World → World
unfolding close_attempts start_close end_close
close_manager xs w = end_close (close_attempts xs (start_close w))

-- A partition that is managed starts at what the broker has stored.
abbrev pub or_same : World → Option OffsetManager → World
or_same w none = w
or_same w (some om) = record w { manager = om }

abbrev pub manage : TopicPartition → ℤ → World → World
manage k epoch w = or_same w (manage_partition k (w.stored k).0 epoch (w.stored k).1 w.manager)

-- What happens, in any order. A Close that something comes between is its beginning, the commits of its
-- attempts, and its end.
pub data Event : Type 0 where
  called : Call → Event
  managed : TopicPartition → ℤ → Event
  commit_starts close_starts close_ends : Event
  commit_ends : ℕ → Exchange → Event
  closed : List Exchange → Event

unfoldable pub step : Event → World → World
step (called c) w = record w { manager = run_calls (c ∷ []) w.manager }
step (managed k epoch) w = manage k epoch w
step commit_starts w = start_commit w
step (commit_ends i x) w = end_commit i x w
step close_starts w = start_close w
step close_ends w = end_close w
step (closed xs) w = close_manager xs w

unfoldable pub run : List Event → World → World
run [] w = w
run (e ∷ es) w = run es (step e w)

-- newOffsetManagerFromClient
abbrev pub new_world : (TopicPartition → ℤ × String) → World
new_world stored = record {
  manager = record { poms = []; broker = false; cancelled = false };
  stored = stored;
  in_flight = [];
}
