-- ===== src/Producer/Messages.antt =====
-- The messages of async_producer.go and the settings that the broker producers read.
use sarama.Base.{ℕ, ◌+◌, Bool, List, [], ◌∷◌, Option, none, some, if◌then◌else◌}
use sarama.Base.Int.{ℤ, pos}
use sarama.Txn.Errors.{KError}
use sarama.Txn.State.{TopicPartition}

-- An Encoder of the user, by what it is asked: Length, and Encode (`none` is an error), of which only
-- the number of bytes counts here.
pub record Encoder : Type 0 where
  pub length : ℕ
  pub encoded : Option ℕ

-- The flags of a message that a broker producer meets.
pub data Flag : Type 0 where
  plain syn fin : Flag

-- `id` is the identity of the pointer; a header is the lengths of its key and of its value.
pub record ProducerMessage : Type 0 where
  pub id : ℕ
  pub target : TopicPartition
  pub key : Option Encoder
  pub value : Option Encoder
  pub headers : List (ℕ × ℕ)
  pub flag : Flag
  pub retries : ℕ
  pub sequence_number : ℤ
  pub producer_epoch : ℤ
  pub offset : ℤ

-- What conf and txnmgr say: `since_0_11` is `Version.IsAtLeast(V0_11_0_0)`, `has_producer_id` is
-- `producerID != noProducerID`. MaxRequestSize is a variable of the package.
pub record Config : Type 0 where
  pub since_0_11 : Bool
  pub idempotent : Bool
  pub has_producer_id : Bool
  pub retry_max : ℕ
  pub max_request_size : ℕ
  pub max_message_bytes : ℕ
  pub flush_frequency : ℕ
  pub flush_bytes : ℕ
  pub flush_messages : ℕ
  pub flush_max_messages : ℕ

-- The errors that a message is returned or tried again with.
pub data Reason : Type 0 where
  answer : KError → Reason
  network packet_encoding : ℕ → Reason
  shutting_down incomplete_response out_of_sequence encode_failed : Reason

abbrev pub maximum_record_overhead : ℕ
maximum_record_overhead = 36

abbrev pub producer_message_overhead : ℕ
producer_message_overhead = 26

abbrev pub record_batch_overhead : ℕ
record_batch_overhead = 49

-- The bytes that are counted for the headers: 2 * binary.MaxVarintLen32 for each besides its own.
abbrev pub headers_size : List (ℕ × ℕ) → ℕ
headers_size [] = 0
headers_size ((k, v) ∷ hs) = k + v + 10 + headers_size hs

abbrev pub length_of : Option Encoder → ℕ
length_of none = 0
length_of (some e) = e.length

-- ByteSize, of version 2 or of version 1.
unfoldable pub byte_size : Config → ProducerMessage → ℕ
byte_size c m =
    (if c.since_0_11
      then maximum_record_overhead + headers_size m.headers
      else producer_message_overhead)
    + length_of m.key
    + length_of m.value

unfoldable pub clear : ProducerMessage → ProducerMessage
clear m = record m { flag = plain; retries = 0; sequence_number = pos 0; producer_epoch = pos 0 }

-- `none` is an error of Encode; a nil encoder gives no bytes.
abbrev pub encoded_length : Option Encoder → Option ℕ
encoded_length none = some 0
encoded_length (some e) = e.encoded
