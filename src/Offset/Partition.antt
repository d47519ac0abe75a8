-- ===== src/Offset/Partition.antt =====
-- partitionOffsetManager of offset_manager.go.
use Prim.Native.String.{String}
use text.Mathlib.Text.{◌==◌ as str_eq}
use sarama.Base.{ℕ, Bool, true, false, ◌&&◌, List, [], ◌∷◌, ◌++◌, if◌then◌else◌}
use sarama.Base.Int.{ℤ, pos, ltb_ℤ, eqb_ℤ}
use sarama.Txn.Errors.{KError}
use sarama.Txn.State.{TopicPartition}

-- What a user is told.
pub data OffsetError : Type 0 where
  incomplete_response : OffsetError
  kafka : KError → OffsetError
  connection : ℕ → OffsetError

-- `errors` is what has been put into the channel, or logged; `done` says that it is closing.
pub record PartitionOffsetManager : Type 0 where
  pub key : TopicPartition
  pub leader_epoch : ℤ
  pub offset : ℤ
  pub metadata : String
  pub dirty : Bool
  pub done : Bool
  pub errors : List OffsetError

unfoldable pub mark_offset : ℤ → String → PartitionOffsetManager → PartitionOffsetManager
mark_offset o m p =
    if ltb_ℤ p.offset o then record p { offset = o; metadata = m; dirty = true } else p

-- `offset <= pom.offset`
unfoldable pub reset_offset : ℤ → String → PartitionOffsetManager → PartitionOffsetManager
reset_offset o m p =
    if ltb_ℤ p.offset o then p else record p { offset = o; metadata = m; dirty = true }

unfoldable pub update_committed : ℤ → String → PartitionOffsetManager → PartitionOffsetManager
update_committed o m p =
    if eqb_ℤ p.offset o && str_eq p.metadata m then record p { dirty = false } else p

-- `initial` is Consumer.Offsets.Initial.
unfoldable pub next_offset : ℤ → PartitionOffsetManager → ℤ × String
next_offset initial p = if ltb_ℤ p.offset (pos 0) then (initial, "") else (p.offset, p.metadata)

unfoldable pub async_close : PartitionOffsetManager → PartitionOffsetManager
async_close p = record p { done = true }

unfoldable pub handle_error : OffsetError → PartitionOffsetManager → PartitionOffsetManager
handle_error e p = record p { errors = p.errors ++ (e ∷ []) }

-- newPartitionOffsetManager, once the offset is fetched.
unfoldable pub new_partition_offset_manager :
    TopicPartition → ℤ → ℤ → String → PartitionOffsetManager
new_partition_offset_manager k o epoch m = record {
  key = k;
  leader_epoch = epoch;
  offset = o;
  metadata = m;
  dirty = false;
  done = false;
  errors = [];
}
