-- ===== src/Offset/Serial.antt =====
-- The invariant of the manager and the broker, as long as no two commits overlap.
use Prim.Native.String.{String}
use sarama.Base.{◌≡◌, List, [], ◌∷◌, none, All}
use sarama.Txn.State.{TopicPartition}
use sarama.Offset.Partition.{PartitionOffsetManager}
use sarama.Offset.Manager.{Block, block_of, find_pom}
use sarama.Offset.World.{World, Event, commit_starts, close_ends, closed, step}
use sarama.Offset.Committed.{Absent}
use sarama.Offset.Invariant.{Good}

-- What a commit or a Close asks for when it starts, and a Close when it ends: no request is on its way.
abbrev pub Alone : Event → World → Type 0
Alone commit_starts w = w.in_flight ≡ []
Alone close_ends w = w.in_flight ≡ []
Alone (closed xs) w = w.in_flight ≡ []
Alone _ w = Unit {0}

-- The commits follow one another; between the request of one and its answer there may be calls, and
-- partitions that are newly managed.
abbrev pub Serial : List Event → World → Type 0
Serial [] w = Unit {0}
Serial (e ∷ es) w = Alone e w × Serial es (step e w)

-- A partition that is not managed is not in the request.
abbrev Covers : List Block → List PartitionOffsetManager → Type 0
Covers bs ps = (k : TopicPartition) → find_pom k ps ≡ none → block_of k bs ≡ none

abbrev Sent : List (List Block) → List PartitionOffsetManager → Type 0
Sent [] ps = Unit {0}
Sent (bs ∷ []) ps = All (Absent bs) ps × Covers bs ps
Sent (bs ∷ cs ∷ rs) ps = ⊥

record Kept (w : World) : Type 0 where
  good : Good w
  sent : Sent w.in_flight w.manager.poms
