-- ===== src/Producer/Totals.antt =====
-- The counters of a produce set are the sums over its partitions.
use sarama.Base.{
  ℕ, ◌+◌, ◌≡◌, refl, sym, ap, ◌∙◌, inl, inr, List, [], ◌∷◌, Option, none, some, length,
  length-append, Bool-cases, if_where, arith,
}
use sarama.Txn.State.{TopicPartition}
use sarama.Txn.Sequence.{same}
use sarama.Producer.Messages.{ProducerMessage, Config, Reason, encoded_length}
use sarama.Producer.Set.{
  PartitionSet, ProduceSet, find_set, with_set, remove_set, new_partition_set, Added, added,
  refused, put_message, is_new, size_in, is_out_of_sequence, add_encoded, add, drop_found,
  drop_partition,
}

-- What `w` says of the partitions, summed.
abbrev pub total : (PartitionSet → ℕ) → List PartitionSet → ℕ
total w [] = 0
total w (s ∷ ss) = w s + total w ss

module _ (w : PartitionSet → ℕ) (k : TopicPartition) where
  pub total-with_set :
      (f : PartitionSet → PartitionSet) (new : PartitionSet) (d : ℕ) (ss : List PartitionSet)
      → ((s : PartitionSet) → w (f s) ≡ w s + d)
      → w new ≡ 0
      → total w (with_set k f new ss) ≡ total w ss + d
  unfolding with_set
  total-with_set f new d [] h z = omega (arith, h new, z)
  total-with_set f new d (s ∷ ss) h z =
      if_where (λ (t : List PartitionSet). total w t ≡ w s + total w ss + d)
        (same s.topic_partition k) _ _ (λ e. omega (arith, h s))
        (λ e. omega (arith, total-with_set f new d ss h z))

  pub total-remove_set :
      (s : PartitionSet) (ss : List PartitionSet)
      → find_set k ss ≡ some s
      → total w ss ≡ total w (remove_set k ss) + w s
  unfolding find_set remove_set
  total-remove_set s [] h = ground (arith, h)
  total-remove_set s (t ∷ ss) h = elim (Bool-cases (same t.topic_partition k)) [
    | inl e ↦ ground (arith, h, e)
    | inr e ↦ ground (arith, h, e, total-remove_set s ss)
  ]

abbrev pub bytes_of : PartitionSet → ℕ
bytes_of s = s.set_bytes

abbrev pub count_of : PartitionSet → ℕ
count_of s = length s.msgs

-- The counters agree with the partitions.
abbrev pub IsCounted : ProduceSet → Type 0
IsCounted ps =
    (ps.buffer_bytes ≡ total bytes_of ps.sets) × (ps.buffer_count ≡ total count_of ps.sets)

-- What holds of every error, and of what is added when the key and the value are encoded.
module _ (c : Config) (m : ProducerMessage) (ps : ProduceSet) (P : Added → Type 0)
    (bad : (r : Reason) → P (refused r)) where
  pub add_where :
      ((k v : ℕ)
        → encoded_length m.key ≡ some k
        → encoded_length m.value ≡ some v
        → P (add_encoded c m k v ps))
      → P (add c m ps)
  unfolding add
  add_where h = go (encoded_length m.key) refl (encoded_length m.value) refl
    where
      go :
          (x : Option ℕ)
          → encoded_length m.key ≡ x
          → (y : Option ℕ) → encoded_length m.value ≡ y
          → P (elim x [
            | none ↦ refused Reason.encode_failed
            | some k ↦ elim y [
              | none ↦ refused Reason.encode_failed
              | some v ↦ add_encoded c m k v ps
            ]
          ])
      go none e y f = bad Reason.encode_failed
      go (some k) e none f = bad Reason.encode_failed
      go (some k) e (some v) f = h k v e f

  pub add_encoded_where :
      (k v : ℕ)
      → ((size : ℕ)
          → size ≡ size_in c (is_new (find_set m.target ps.sets)) m k v
          → P (
              added (record ps {
                sets = with_set m.target (put_message m size) (new_partition_set c m) ps.sets;
                buffer_bytes = ps.buffer_bytes + size;
                buffer_count = ps.buffer_count + 1;
              })))
      → P (add_encoded c m k v ps)
  unfolding add_encoded
  add_encoded_where k v h =
      if_where P (is_out_of_sequence c m (find_set m.target ps.sets)) _ _
        (λ e. bad Reason.out_of_sequence)
        (λ e. h (size_in c (is_new (find_set m.target ps.sets)) m k v) refl)

-- What a set is after `add`, where it is not refused.
abbrev pub When : (ProduceSet → Type 0) → Added → Type 0
When P (added ps) = P ps
When P (refused r) = Unit {0}

count-put_message :
    (m : ProducerMessage) (size : ℕ) (s : PartitionSet)
    → count_of (put_message m size s) ≡ count_of s + 1
count-put_message m size s = length-append s.msgs (m ∷ [])

-- The counters of a set agree with what it holds of each partition, after a message is added as before.
pub add-IsCounted :
    (c : Config) (m : ProducerMessage) (ps : ProduceSet)
    → IsCounted ps
    → When IsCounted (add c m ps)
add-IsCounted c m ps g =
    add_where c m ps (When IsCounted) (λ r. tt)
      (λ k v _ _.
        add_encoded_where c m ps (When IsCounted) (λ r. tt) k v
          (λ size e. (
            ap (λ n. n + size) g.0
                ∙ sym (
                    total-with_set bytes_of m.target (put_message m size) (new_partition_set c m)
                      size ps.sets (λ s. refl) refl),
            ap (λ n. n + 1) g.1
                ∙ sym (
                    total-with_set count_of m.target (put_message m size) (new_partition_set c m) 1
                      ps.sets (count-put_message m size) refl),
          )))

pub drop_partition-IsCounted :
    (k : TopicPartition) (ps : ProduceSet) → IsCounted ps → IsCounted (drop_partition k ps).0
unfolding drop_partition
drop_partition-IsCounted k ps g = go (find_set k ps.sets) refl
  where
    go : (x : Option PartitionSet) → find_set k ps.sets ≡ x → IsCounted (drop_found k ps x).0
    go none e = g
    go (some s) e = (
      omega (arith, g.0, total-remove_set bytes_of k s ps.sets e),
      omega (arith, g.1, total-remove_set count_of k s ps.sets e),
    )
