-- ===== src/Offset/Manager.antt =====
-- offsetManager of offset_manager.go.
use Prim.Native.String.{String}
use sarama.Base.{
  Bool, true, false, not, ◌&&◌, ◌||◌, List, [], ◌∷◌, map, Option, none, some, if◌then◌else◌,
}
use sarama.Base.Int.{ℤ}
use sarama.Txn.Errors.{KError}
use sarama.Txn.State.{TopicPartition}
use sarama.Txn.Sequence.{same}
use sarama.Offset.Partition.{
  PartitionOffsetManager, OffsetError, incomplete_response, kafka, update_committed, async_close,
  handle_error, new_partition_offset_manager,
}

-- The two maps from a topic and from a partition are one list, in the order in which a loop meets
-- them. `broker` says that the coordinator is known, `cancelled` that the session has been cancelled.
pub record OffsetManager : Type 0 where
  pub poms : List PartitionOffsetManager
  pub broker : Bool
  pub cancelled : Bool

unfoldable pub find_pom :
    TopicPartition → List PartitionOffsetManager → Option PartitionOffsetManager
find_pom k [] = none
find_pom k (p ∷ ps) = if same p.key k then some p else find_pom k ps

unfoldable pub manage_new :
    Option PartitionOffsetManager → PartitionOffsetManager → OffsetManager → Option OffsetManager
manage_new none p om = some (record om { poms = p ∷ om.poms })
manage_new (some q) p om = none

-- ManagePartition, with what was fetched; a partition that is managed already is refused.
unfoldable pub manage_partition :
    TopicPartition → ℤ → ℤ → String → OffsetManager → Option OffsetManager
unfolding find_pom manage_new
manage_partition k o epoch m om =
    manage_new (find_pom k om.poms) (new_partition_offset_manager k o epoch m) om

-- A block of an OffsetCommitRequest.
pub record Block : Type 0 where
  pub block_key : TopicPartition
  pub block_offset : ℤ
  pub block_metadata : String

abbrev pub block_for : PartitionOffsetManager → Block
block_for p = record { block_key = p.key; block_offset = p.offset; block_metadata = p.metadata }

-- The blocks of constructRequest; with none of them there is no request.
unfoldable pub construct_request : List PartitionOffsetManager → List Block
construct_request [] = []
construct_request (p ∷ ps) =
    let rest = construct_request ps in if p.dirty then block_for p ∷ rest else rest

-- `req.blocks[topic][partition]`
unfoldable pub block_of : TopicPartition → List Block → Option Block
block_of k [] = none
block_of k (b ∷ bs) = if same b.block_key k then some b else block_of k bs

-- What an answer does to the partition, and whether it gives up the coordinator and the session.
pub record Handled : Type 0 where
  pub pom : PartitionOffsetManager
  pub release : Bool
  pub cancel : Bool

abbrev pub handled : PartitionOffsetManager → Bool → Bool → Handled
handled p r c = record { pom = p; release = r; cancel = c }

-- The switch of handleResponse; `none` is an answer that is missing.
unfoldable pub handle_answer : Block → Option KError → PartitionOffsetManager → Handled
handle_answer b none p = handled (handle_error incomplete_response p) false false
handle_answer b (some KError.no_error) p =
    handled (update_committed b.block_offset b.block_metadata p) false false
handle_answer b (some KError.not_leader_for_partition) p = handled p true false
handle_answer b (some KError.leader_not_available) p = handled p true false
handle_answer b (some KError.consumer_coordinator_not_available) p = handled p true false
handle_answer b (some KError.not_coordinator_for_consumer) p = handled p true false
handle_answer b (some KError.offset_metadata_too_large) p =
    handled (handle_error (kafka KError.offset_metadata_too_large) p) false false
handle_answer b (some KError.invalid_commit_offset_size) p =
    handled (handle_error (kafka KError.invalid_commit_offset_size) p) false false
handle_answer b (some KError.offsets_load_in_progress) p = handled p false false
handle_answer b (some KError.fenced_instanced_id) p =
    handled (handle_error (kafka KError.fenced_instanced_id) p) false true
handle_answer b (some e) p = handled (handle_error (kafka e) p) true false

-- A partition that the request does not name is passed over.
unfoldable pub handle_block : Option Block → Option KError → PartitionOffsetManager → Handled
unfolding handle_answer
handle_block none e p = handled p false false
handle_block (some b) e p = handle_answer b e p

unfoldable pub handle_one :
    List Block → (TopicPartition → Option KError) → PartitionOffsetManager → Handled
unfolding handle_block
handle_one bs resp p = handle_block (block_of p.key bs) (resp p.key) p

abbrev pub any_of {ℓ} : {A : Type ℓ} → (A → Bool) → List A → Bool
any_of f [] = false
any_of f (x ∷ xs) = f x || any_of f xs

unfoldable pub handle_response :
    List Block → (TopicPartition → Option KError) → OffsetManager → OffsetManager
handle_response bs resp om = record {
  poms = map (λ p. (handle_one bs resp p).pom) om.poms;
  broker = om.broker && not (any_of (λ p. (handle_one bs resp p).release) om.poms);
  cancelled = om.cancelled || any_of (λ p. (handle_one bs resp p).cancel) om.poms;
}

unfoldable pub handle_error_all : OffsetError → OffsetManager → OffsetManager
handle_error_all e om = record om { poms = map (handle_error e) om.poms }

-- releasePOMs: what is closing and clean, or whatever is closing when forced, is let go.
unfoldable pub release_due : Bool → PartitionOffsetManager → Bool
release_due force p = p.done && (force || not p.dirty)

unfoldable pub release_poms : Bool → List PartitionOffsetManager → List PartitionOffsetManager
unfolding release_due
release_poms force [] = []
release_poms force (p ∷ ps) =
    let rest = release_poms force ps in if release_due force p then rest else p ∷ rest

unfoldable pub async_close_poms : OffsetManager → OffsetManager
async_close_poms om = record om { poms = map async_close om.poms }
