-- ===== src/Txn/Sequence.antt =====
-- The sequence numbers of idempotent production (transaction_manager.go).
use text.Mathlib.Text.{◌==◌ as str_eq}
use text.Mathlib.TextEquality.{eq_iff}
use sarama.Base.{◌^◌, ◌≡◌, refl, Bool, true, ◌&&◌, List, [], ◌∷◌, map, ◌==◌, if◌then◌else◌, arith}
use sarama.Base.Int.{ℤ, pos, signed, unsigned, suc_ℤ}
use sarama.Txn.State.{TopicPartition, TransactionManager}

-- Go's equality of two topicPartition values.
abbrev pub same : TopicPartition → TopicPartition → Bool
same a b = str_eq a.topic b.topic && a.partition == b.partition

-- A missing key reads as 0.
sequence_of : TopicPartition → List (TopicPartition × ℤ) → ℤ
sequence_of k [] = pos 0
sequence_of k ((j, v) ∷ m) = if same j k then v else sequence_of k m

set_sequence : TopicPartition → ℤ → List (TopicPartition × ℤ) → List (TopicPartition × ℤ)
set_sequence k v [] = (k, v) ∷ []
set_sequence k v ((j, w) ∷ m) = if same j k then (k, v) ∷ m else (j, w) ∷ set_sequence k v m

-- `x + 1` of an int32 and of an int16.
abbrev pub next_int32 : ℤ → ℤ
next_int32 z = signed (2 ^ 31) (unsigned (2 ^ 31) (suc_ℤ z))

abbrev pub next_int16 : ℤ → ℤ
next_int16 z = signed (2 ^ 15) (unsigned (2 ^ 15) (suc_ℤ z))

unfoldable pub get_and_increment_sequence_number :
    TopicPartition → TransactionManager → TransactionManager × ℤ × ℤ
unfolding sequence_of set_sequence
get_and_increment_sequence_number k t =
    let n = sequence_of k t.sequence_numbers in
    (
      record t { sequence_numbers = set_sequence k (next_int32 n) t.sequence_numbers },
      n,
      t.producer_epoch,
    )

zero_sequences : List (TopicPartition × ℤ) → List (TopicPartition × ℤ)
zero_sequences = map (λ (k, v). (k, pos 0))

unfoldable pub bump_epoch : TransactionManager → TransactionManager
unfolding zero_sequences
bump_epoch t = record t {
  producer_epoch = next_int16 t.producer_epoch;
  sequence_numbers = zero_sequences t.sequence_numbers;
}

unfoldable pub get_producer_id : TransactionManager → ℤ × ℤ
get_producer_id t = (t.producer_id, t.producer_epoch)

-- What is handed out next for a partition.
unfoldable pub next_sequence : TopicPartition → TransactionManager → ℤ
unfolding sequence_of
next_sequence k t = sequence_of k t.sequence_numbers

pub same_iff : (a b : TopicPartition) → same a b ≡ true → a ≡ b
same_iff a b h = ground (arith, eq_iff a.topic b.topic)

sequence_of-set_sequence :
    (k j : TopicPartition) (v : ℤ) (m : List (TopicPartition × ℤ))
    → sequence_of j (set_sequence k v m) ≡ (if same k j then v else sequence_of j m)
unfolding sequence_of set_sequence
sequence_of-set_sequence k j v [] = refl
sequence_of-set_sequence k j v ((i, w) ∷ m) = ground (
  arith,
  eq_iff k.topic j.topic,
  eq_iff i.topic k.topic,
  eq_iff i.topic j.topic,
  sequence_of-set_sequence k j v m,
)

-- Handing out a number gives the partition's next one with the epoch, moves that one on by one
-- (wrapping as an int32 does), and leaves the numbers of every other partition alone.
pub next_sequence-get_and_increment :
    (k j : TopicPartition) (t : TransactionManager)
    → let (t', n, epoch) = get_and_increment_sequence_number k t in
      (n ≡ next_sequence k t)
      × (epoch ≡ t.producer_epoch)
      × (next_sequence j t'
          ≡ (if same k j then next_int32 (next_sequence k t) else next_sequence j t))
unfolding get_and_increment_sequence_number next_sequence
next_sequence-get_and_increment k j t = (
  refl,
  refl,
  sequence_of-set_sequence k j (next_int32 (sequence_of k t.sequence_numbers)) t.sequence_numbers,
)

zeroed :
    (k : TopicPartition) (m : List (TopicPartition × ℤ)) → sequence_of k (zero_sequences m) ≡ pos 0
unfolding sequence_of zero_sequences
zeroed k [] = refl
zeroed k ((j, v) ∷ m) = ground (arith, zeroed k m)

-- A number handed out after the epoch was bumped is 0 for every partition, under the new epoch.
pub get_and_increment-bump_epoch :
    (k : TopicPartition) (t : TransactionManager)
    → let (t', n, epoch) = get_and_increment_sequence_number k (bump_epoch t) in
      (n ≡ pos 0) × (epoch ≡ next_int16 t.producer_epoch)
unfolding get_and_increment_sequence_number bump_epoch
get_and_increment-bump_epoch k t = (zeroed k t.sequence_numbers, refl)
