-- ===== src/Offset/Overlap.antt =====
-- Two commits that are on their way at the same time: Commit takes no lock over the whole of it.
use Prim.Native.String.{String}
use text.Mathlib.TextEquality.{eq_iff}
use sarama.Base.{◌≡◌, refl, true, false, List, [], ◌∷◌, some, arith}
use sarama.Base.Int.{ℤ, pos, negsuc, ltb_ℤ, eqb_ℤ}
use sarama.Txn.Errors.{KError}
use sarama.Txn.State.{TopicPartition}
use sarama.Txn.Sequence.{same}
use sarama.Offset.Partition.{PartitionOffsetManager, mark_offset, reset_offset, update_committed}
use sarama.Offset.Manager.{
  block_of, construct_request, handle_response, handle_one, handle_block, handle_answer,
  release_poms, release_due,
}
use sarama.Offset.World.{
  mark, reset, run_call, run_calls, Exchange, answered, World, receive, send_some, start_commit,
  end_some, end_commit, Event, called, commit_starts, commit_ends, step, run,
}

earlier :
    (b o : ℤ) → ltb_ℤ b o ≡ true → (ltb_ℤ o b ≡ false) × (eqb_ℤ o o ≡ true) × (eqb_ℤ o b ≡ false)
earlier (pos b) (pos o) h = ground arith
earlier (negsuc b) (pos o) h = ground arith
earlier (pos b) (negsuc o) h = ground arith
earlier (negsuc b) (negsuc o) h = ground arith

same_itself : (k : TopicPartition) → same k k ≡ true
same_itself k = ground (arith, eq_iff k.topic k.topic)

-- A broker that stores the whole of a request and says so.
abbrev pub accepted : Exchange
accepted = answered (λ k. some KError.no_error) (λ k. true)

-- A commit is begun; the partition is reset to an earlier offset, and a second commit is begun; the
-- partition is marked as it was; the two requests are answered in turn.
abbrev pub overlapping : ℤ → String → PartitionOffsetManager → List Event
overlapping b m p =
    commit_starts
    ∷ called (reset p.key b m)
    ∷ commit_starts
    ∷ called (mark p.key p.offset p.metadata)
    ∷ commit_ends 0 accepted
    ∷ commit_ends 0 accepted
    ∷ []

-- A manager of one partition, and no request on its way.
abbrev pub only : PartitionOffsetManager → (TopicPartition → ℤ × String) → World
only p stored = record {
  manager = record { poms = p ∷ []; broker = true; cancelled = false };
  stored = stored;
  in_flight = [];
}

-- Of a manager with one partition, which has something to commit and is not closing, two commits
-- overlap: between the two requests the partition is reset to an earlier offset, and after the second
-- it is marked again just as it was; the broker accepts both requests, in order. Then nothing is on its
-- way and the partition has nothing to commit, at the offset that it had, but the broker has the
-- earlier offset.
pub run-overlapping :
    (p : PartitionOffsetManager) (b : ℤ) (m : String) (stored : TopicPartition → ℤ × String)
    → p.dirty ≡ true
    → p.done ≡ false
    → ltb_ℤ b p.offset ≡ true
    → let w = run (overlapping b m p) (only p stored) in
      (w.in_flight ≡ [])
      × (w.manager.poms ≡ record p { dirty = false } ∷ [])
      × (w.stored p.key ≡ (b, m))
unfolding run step start_commit send_some construct_request run_calls run_call reset_offset
    mark_offset end_commit end_some receive handle_response handle_one handle_block handle_answer
    block_of update_committed release_poms release_due
run-overlapping p b m stored d n h =
    let (l, o, e) = earlier b p.offset h in
    simp (d, n, h, l, o, e, same_itself p.key, (eq_iff p.metadata p.metadata).1 refl)
      (refl, refl, refl)
