-- ===== src/Producer/Set.antt =====
-- produce_set.go: the messages that are gathered for one request.
use sarama.Base.{
  ℕ, ◌+◌, ◌-◌, Bool, true, false, ◌&&◌, ◌||◌, not, List, [], ◌∷◌, ◌++◌, Option, none, some, length,
  ltb, leb, ◌==◌, if◌then◌else◌,
}
use sarama.Base.Int.{ℤ, pos, ltb_ℤ}
use sarama.Txn.State.{TopicPartition}
use sarama.Txn.Sequence.{same}
use sarama.Producer.Messages.{
  ProducerMessage, Config, Reason, headers_size, byte_size, encoded_length, maximum_record_overhead,
  producer_message_overhead, record_batch_overhead,
}

-- partitionSet; of the records, only the first sequence number.
pub record PartitionSet : Type 0 where
  pub topic_partition : TopicPartition
  pub msgs : List ProducerMessage
  pub first_sequence : ℤ
  pub set_bytes : ℕ

-- produceSet; the nested maps are a list.
pub record ProduceSet : Type 0 where
  pub sets : List PartitionSet
  pub epoch : ℤ
  pub buffer_bytes : ℕ
  pub buffer_count : ℕ

abbrev pub new_produce_set : ℤ → ProduceSet
new_produce_set e = record { sets = []; epoch = e; buffer_bytes = 0; buffer_count = 0 }

unfoldable pub find_set : TopicPartition → List PartitionSet → Option PartitionSet
find_set k [] = none
find_set k (s ∷ ss) = if same s.topic_partition k then some s else find_set k ss

-- Changes the set of a partition, which is put at the end where there is none.
unfoldable pub with_set :
    TopicPartition
    → (PartitionSet → PartitionSet)
    → PartitionSet
    → List PartitionSet
    → List PartitionSet
with_set k f new [] = f new ∷ []
with_set k f new (s ∷ ss) = if same s.topic_partition k then f s ∷ ss else s ∷ with_set k f new ss

unfoldable pub remove_set : TopicPartition → List PartitionSet → List PartitionSet
remove_set k [] = []
remove_set k (s ∷ ss) = if same s.topic_partition k then ss else s ∷ remove_set k ss

abbrev pub new_partition_set : Config → ProducerMessage → PartitionSet
new_partition_set c m = record {
  topic_partition = m.target;
  msgs = [];
  first_sequence = if c.since_0_11 && c.idempotent then m.sequence_number else pos 0;
  set_bytes = 0;
}

pub data Added : Type 0 where
  added : ProduceSet → Added
  refused : Reason → Added

abbrev pub is_new : Option PartitionSet → Bool
is_new none = true
is_new (some s) = false

-- The bytes that a message counts for, in a set that is new or not.
unfoldable pub size_in : Config → Bool → ProducerMessage → ℕ → ℕ → ℕ
size_in c new m k v =
    if c.since_0_11
    then (if new then record_batch_overhead else 0)
      + maximum_record_overhead
      + k
      + v
      + headers_size m.headers
    else producer_message_overhead + k + v

abbrev pub put_message : ProducerMessage → ℕ → PartitionSet → PartitionSet
put_message m size s = record s { msgs = s.msgs ++ (m ∷ []); set_bytes = s.set_bytes + size }

abbrev pub is_out_of_sequence : Config → ProducerMessage → Option PartitionSet → Bool
is_out_of_sequence c m none = false
is_out_of_sequence c m (some s) =
    c.since_0_11 && c.idempotent && ltb_ℤ m.sequence_number s.first_sequence

-- The rest of `add`, with the lengths of the encoded key and value. A set that is new starts at the
-- sequence number of the message, which is then not out of sequence.
unfoldable pub add_encoded : Config → ProducerMessage → ℕ → ℕ → ProduceSet → Added
unfolding find_set with_set size_in
add_encoded c m k v ps =
    let found = find_set m.target ps.sets in
    let size = size_in c (is_new found) m k v in
    if is_out_of_sequence c m found
    then refused Reason.out_of_sequence
    else added (record ps {
      sets = with_set m.target (put_message m size) (new_partition_set c m) ps.sets;
      buffer_bytes = ps.buffer_bytes + size;
      buffer_count = ps.buffer_count + 1;
    })

unfoldable pub add : Config → ProducerMessage → ProduceSet → Added
unfolding add_encoded
add c m ps = elim (encoded_length m.key) [
  | none ↦ refused Reason.encode_failed
  | some k ↦ elim (encoded_length m.value) [
    | none ↦ refused Reason.encode_failed
    | some v ↦ add_encoded c m k v ps
  ]
]

abbrev pub drop_found :
    TopicPartition → ProduceSet → Option PartitionSet → ProduceSet × List ProducerMessage
drop_found k ps none = (ps, [])
drop_found k ps (some s) = (
  record ps {
    sets = remove_set k ps.sets;
    buffer_bytes = ps.buffer_bytes - s.set_bytes;
    buffer_count = ps.buffer_count - length s.msgs;
  },
  s.msgs,
)

-- dropPartition, with the messages of the partition.
unfoldable pub drop_partition : TopicPartition → ProduceSet → ProduceSet × List ProducerMessage
unfolding find_set remove_set
drop_partition k ps = drop_found k ps (find_set k ps.sets)

abbrev pub set_would_overflow : Config → ProducerMessage → Option PartitionSet → Bool
set_would_overflow c m none = false
set_would_overflow c m (some s) = leb c.max_message_bytes (s.set_bytes + byte_size c m)

unfoldable pub would_overflow : Config → ProducerMessage → ProduceSet → Bool
unfolding byte_size find_set
would_overflow c m ps =
    leb (c.max_request_size - 10240) (ps.buffer_bytes + byte_size c m)
    || set_would_overflow c m (find_set m.target ps.sets)
    || (ltb 0 c.flush_max_messages && leb c.flush_max_messages ps.buffer_count)

unfoldable pub empty : ProduceSet → Bool
empty ps = ps.buffer_count == 0

unfoldable pub ready_to_flush : Config → ProduceSet → Bool
unfolding empty
ready_to_flush c ps =
    not (empty ps)
    && ((c.flush_frequency == 0 && c.flush_bytes == 0 && c.flush_messages == 0)
        || (ltb 0 c.flush_messages && leb c.flush_messages ps.buffer_count)
        || (ltb 0 c.flush_bytes && leb c.flush_bytes ps.buffer_bytes))
