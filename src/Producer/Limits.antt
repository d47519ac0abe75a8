-- ===== src/Producer/Limits.antt =====
-- The limits of a produce set: wouldOverflow and add of produce_set.go.
use sarama.Base.{
  subst, ◌&&◌, if◌then◌else◌, ℕ, ◌+◌, ◌≤◌, ◌<◌, ◌≡◌, refl, sym, ap, ◌∙◌, inl, inr, false, List, [],
  ◌∷◌, Option, none, some, Bool-cases, arith,
}
use sarama.Txn.State.{TopicPartition}
use sarama.Txn.Sequence.{same}
use sarama.Producer.Messages.{
  Encoder, ProducerMessage, Config, byte_size, length_of, encoded_length, record_batch_overhead,
}
use sarama.Producer.Set.{
  PartitionSet, ProduceSet, find_set, with_set, new_partition_set, put_message, is_new, size_in,
  add, would_overflow,
}
use sarama.Producer.Totals.{When, add_where, add_encoded_where}

-- The documented contract of an Encoder: Length is the number of bytes that Encode returns.
abbrev pub IsHonest : Option Encoder → Type 0
IsHonest none = Unit {0}
IsHonest (some e) = (n : ℕ) → e.encoded ≡ some n → n ≡ e.length

-- The set of a partition that was there is there still, below `limit`.
abbrev pub SetBelow : ℕ → Option PartitionSet → Option PartitionSet → Type 0
SetBelow limit none now = Unit {0}
SetBelow limit (some s) none = ⊥
SetBelow limit (some s) (some s') = s'.set_bytes < limit

-- What a batch that is started costs on top of its messages, from version 0.11 on.
abbrev pub batch_cost : Config → Option PartitionSet → ℕ
batch_cost c found = if c.since_0_11 && is_new found then record_batch_overhead else 0

abbrev pub Within : Config → ProducerMessage → ProduceSet → ProduceSet → Type 0
Within c m ps ps' =
    (ps'.buffer_bytes + 10240 < c.max_request_size + batch_cost c (find_set m.target ps.sets))
    × SetBelow c.max_message_bytes (find_set m.target ps.sets) (find_set m.target ps'.sets)
    × ((0 < c.flush_max_messages) → ps'.buffer_count ≤ c.flush_max_messages)

find_set-with_set :
    (k : TopicPartition) (f : PartitionSet → PartitionSet) (new : PartitionSet)
    (ss : List PartitionSet) (s : PartitionSet)
    → ((t : PartitionSet) → (f t).topic_partition ≡ t.topic_partition)
    → find_set k ss ≡ some s
    → find_set k (with_set k f new ss) ≡ some (f s)
unfolding find_set with_set
find_set-with_set k f new [] s h e = ground (arith, e)
find_set-with_set k f new (t ∷ ss) s h e = elim (Bool-cases (same t.topic_partition k)) [
  | inl b ↦ ground (arith, e, b, h t)
  | inr b ↦ ground (arith, e, b, find_set-with_set k f new ss s h)
]

encoded-length_of :
    (e : Option Encoder) (n : ℕ) → IsHonest e → encoded_length e ≡ some n → n ≡ length_of e
encoded-length_of none n h e = ground (arith, e)
encoded-length_of (some x) n h e = h n e

size-byte_size :
    (c : Config) (found : Option PartitionSet) (m : ProducerMessage)
    → size_in c (is_new found) m (length_of m.key) (length_of m.value)
      ≡ byte_size c m + batch_cost c found
unfolding size_in byte_size
size-byte_size c none m = ground arith
size-byte_size c (some s) m = ground arith

batch_cost-some : (c : Config) (s : PartitionSet) → batch_cost c (some s) ≡ 0
batch_cost-some c s = ground arith

-- The three tests of wouldOverflow, where none of them holds.
module _ (c : Config) (m : ProducerMessage) (ps : ProduceSet) where
  request_fits :
      would_overflow c m ps ≡ false → ps.buffer_bytes + byte_size c m + 10240 < c.max_request_size
  unfolding would_overflow
  request_fits h = ground (arith, h)

  count_fits :
      would_overflow c m ps ≡ false
      → 0 < c.flush_max_messages
      → ps.buffer_count + 1 ≤ c.flush_max_messages
  unfolding would_overflow
  count_fits h l = ground (arith, h, l)

  set_fits :
      (s : PartitionSet)
      → find_set m.target ps.sets ≡ some s
      → would_overflow c m ps ≡ false
      → s.set_bytes + byte_size c m < c.max_message_bytes
  unfolding would_overflow
  set_fits s e h = ground (arith, e, h)

  SetBelow-with_set :
      (size : ℕ) (found : Option PartitionSet)
      → find_set m.target ps.sets ≡ found
      → size ≡ byte_size c m + batch_cost c found
      → would_overflow c m ps ≡ false
      → SetBelow c.max_message_bytes found (
          find_set m.target
            (with_set m.target (put_message m size) (new_partition_set c m) ps.sets))
  SetBelow-with_set size none e z h = tt
  SetBelow-with_set size (some s) e z h =
      subst (SetBelow c.max_message_bytes (some s))
        (sym (
          find_set-with_set m.target (put_message m size) (new_partition_set c m) ps.sets s
            (λ t. refl) e))
        (omega (arith, z, batch_cost-some c s, set_fits s e h))

-- Where a message would not overflow a set, and it is added, then: the bytes of the set, and ten
-- kilobytes, stay below MaxRequestSize, or below that and the overhead of one record batch (49) where
-- the message starts a batch of version 0.11 or later; a set that its partition had stays below
-- MaxMessageBytes; and the messages are no more than Flush.MaxMessages, if that is set. The encoders of
-- the key and of the value are taken to give as many bytes as their Length says.
pub add-Within :
    (c : Config) (m : ProducerMessage) (ps : ProduceSet)
    → IsHonest m.key
    → IsHonest m.value
    → would_overflow c m ps ≡ false
    → When (Within c m ps) (add c m ps)
add-Within c m ps hk hv h =
    let found = find_set m.target ps.sets in
    add_where c m ps (When (Within c m ps)) (λ r. tt)
      (λ k v ek ev.
        add_encoded_where c m ps (When (Within c m ps)) (λ r. tt) k v
          (λ size e.
            let z : size ≡ byte_size c m + batch_cost c found =
              e
              ∙ ap (λ n. size_in c (is_new found) m n v) (encoded-length_of m.key k hk ek)
              ∙ ap (λ n. size_in c (is_new found) m (length_of m.key) n)
                  (encoded-length_of m.value v hv ev)
              ∙ size-byte_size c found m in
            (
              omega (arith, z, request_fits c m ps h),
              SetBelow-with_set c m ps size found refl z h,
              λ l. count_fits c m ps h l,
            )))
