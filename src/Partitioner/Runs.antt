-- ===== src/Partitioner/Runs.antt =====
-- Runs of the partitioners.
use sarama.Base.{◌+◌, ◌≡◌, refl, false, [], ◌∷◌, length, arith}
use sarama.Base.Int.{pos}
use sarama.Partitioner.Hash.{
  HashPartitioner, encoded, IsChoice, partition, hashed, partition-IsChoice,
}
use sarama.Partitioner.RoundRobin.{round_robin, after_messages, round_robin-after_messages}

-- A hash whose values are past 2 ^ 31 for every key.
abbrev by_length : HashPartitioner
by_length = record {
  hasher = λ bs. 4294967290 + length bs;
  reference_abs = false;
  hash_unsigned = false;
}

partition_of_three : hashed by_length 4294967293 7 ≡ pos 3
unfolding hashed
partition_of_three = refl

partition-IsChoice_example :
    IsChoice (encoded (1 ∷ 2 ∷ 3 ∷ [])) 7 (partition by_length (pos 0) (encoded (1 ∷ 2 ∷ 3 ∷ [])) 7)
partition-IsChoice_example =
    partition-IsChoice by_length (pos 0) (encoded (1 ∷ 2 ∷ 3 ∷ [])) 7 (omega arith) (omega arith)
      (omega arith)

round_robin-after_messages_example : (round_robin 3 (after_messages 3 7)).1 ≡ 1
round_robin-after_messages_example = round_robin-after_messages 3 7 (omega arith)
