-- ===== src/Offset/Runs.antt =====
-- Runs of the offset manager.
use sarama.Base.{
  ℕ, zero, suc, ◌<◌, ◌≤◌, ◌≡◌, refl, true, false, List, [], ◌∷◌, some, if◌then◌else◌, arith, ◌==◌,
}
use sarama.Base.Int.{pos, minus_one}
use sarama.Txn.Errors.{KError}
use sarama.Txn.State.{TopicPartition}
use sarama.Offset.Partition.{
  PartitionOffsetManager, kafka, connection, mark_offset, new_partition_offset_manager,
}
use sarama.Offset.Manager
use sarama.Offset.Manager.{block_for}
use sarama.Offset.Overlap.{overlapping, only, run-overlapping}
use sarama.Offset.World
use sarama.Offset.World.{Event, Call, Exchange, World, run, new_world}
use sarama.Offset.Fetch.{
  FetchReply, failed, block, result, fetched, attempt, Retried, fetch_initial_offset,
  fetch_initial_offset-attempt,
}
use sarama.Offset.Serial.{Serial}

abbrev orders : TopicPartition
orders = record { topic = "orders"; partition = 3 }

abbrev agreed : Exchange
agreed = Exchange.answered (λ k. some KError.no_error) (λ k. true)

-- A commit of 5 during which 9 is marked.
abbrev marked_meanwhile : List Event
marked_meanwhile =
    Event.managed orders (pos 0)
    ∷ Event.called (Call.mark orders (pos 5) "a")
    ∷ Event.commit_starts
    ∷ Event.called (Call.mark orders (pos 9) "b")
    ∷ Event.commit_ends 0 agreed
    ∷ []

stored_five : (run marked_meanwhile (new_world (λ k. (minus_one, "")))).stored orders ≡ (pos 5, "a")
unfolding run World.step Manager.manage_partition World.start_commit World.send_some
    Manager.construct_request World.run_calls World.run_call mark_offset Manager.find_pom
    Manager.manage_new new_partition_offset_manager World.end_commit World.end_some World.receive
    Manager.block_of
stored_five = refl

-- The first attempt is lost, the offsets are loading at the second, and the third is answered.
abbrev replies : ℕ → FetchReply
replies n =
    if n == 3
    then failed 1
    else if n == 2
    then block KError.offsets_load_in_progress (pos 0, pos 0, "")
    else block KError.no_error (pos 7, pos 0, "m")

replies-Retried : (i : ℕ) → 1 < i → i ≤ 3 → Retried (replies i)
unfolding attempt
replies-Retried zero h k = absurd (omega arith)
replies-Retried (suc zero) h k = absurd (omega arith)
replies-Retried (suc (suc zero)) h k = (kafka KError.offsets_load_in_progress, refl)
replies-Retried (suc (suc (suc zero))) h k = (connection 1, refl)
replies-Retried (suc (suc (suc (suc i)))) h k = absurd (omega arith)

replies_answer : attempt (replies 1) ≡ result (fetched (pos 7, pos 0, "m"))
unfolding attempt
replies_answer = refl

fetch_initial_offset-attempt_example : fetch_initial_offset 3 replies ≡ fetched (pos 7, pos 0, "m")
fetch_initial_offset-attempt_example =
    fetch_initial_offset-attempt 3 1 replies (fetched (pos 7, pos 0, "m")) (omega arith)
      replies-Retried replies_answer

abbrev marked : PartitionOffsetManager
marked = record (new_partition_offset_manager orders (pos 5) (pos 0) "a") { dirty = true }

run-overlapping_example :
    let w = run (overlapping (pos 2) "b" marked) (only marked (λ k. (pos 1, ""))) in
    (w.in_flight ≡ [])
    × (w.manager.poms ≡ record marked { dirty = false } ∷ [])
    × (w.stored orders ≡ (pos 2, "b"))
unfolding new_partition_offset_manager
run-overlapping_example = run-overlapping marked (pos 2) "b" (λ k. (pos 1, "")) refl refl refl
