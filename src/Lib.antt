-- ===== src/Lib.antt =====
-- Sarama, a client library for Apache Kafka: a verification library beside the code.
--
-- The program turns the requests of a producer, a consumer or an administrator into packets, sends
-- them to brokers, and turns what comes back into responses. Paths below are from the
-- repository's root.
--
-- Wire: the wire format.
--   Wire.Bytes, Wire.Varint, Wire.Checksum model what the code uses of Go's encoding/binary and
--   hash/crc32. Wire.Decode is real_decoder.go with the fields of length_field.go and crc32_field.go:
--   Monad is the state (the bytes, the offset, the stack) and the results, with Go's run-time panics
--   as a result of their own; Primitives, Collections and Fields are the methods, under the source's
--   names in snake case; Method is the interface of packet_decoder.go. Wire.Encode is the two passes of
--   `encode` (encoder_decoder.go): Packet is the sequence of calls that an `encode` method makes of
--   packet_encoder.go, Prep is prep_encoder.go, Real and Passes are real_encoder.go, and Encoding is
--   the format itself, written independently of both.
--   An int has 64 bits, the capacity of a slice is its length, and running out of memory is not
--   modelled. A float64 is given by its bits, a string by its bytes. The value that Go returns beside an
--   error is left out.
--
-- Protocol: requests and responses, first those of a consumer group's membership (join_group_*.go,
--   heartbeat_*.go, leave_group_*.go, sync_group_*.go). Fields is what their methods have in common:
--   fields of some versions, and the arrays, with the panic of `make` on a negative length. Group, Membership
--   and Leave are the structs with their encode and decode methods; a method that encodes is the
--   packet that it makes. A nil slice of structs is an empty one, and the map of JoinGroupRequest is the
--   list of its entries. GroupMessage and EndToEnd put the methods beside `encode` and `versionedDecode`.
--   Again puts a decoded request to join beside encode once more. Transactions is two requests of a
--   transaction and their responses (add_offsets_to_txn_*.go, end_txn_*.go), each decoded into the
--   struct that request.go or broker.go allocates for it.
--
-- Record: record.go. Data is the structs and the times; Format is the encode and decode methods over the
--   two interfaces of Wire. The loop over the headers recurses on their number, which is its fuel.
--
-- Partitioner: the hash and the round-robin partitioner of partitioner.go. The hash function and the
--   fallback of a message without a key are arguments.
--
-- Balance: the strategies of balance_strategy.go. Range is the core of the range strategy, for one topic;
--   RoundRobin is Plan of the round-robin strategy, of partitions and members that are sorted. A search
--   for a member has fuel, of which Complete shows that the number of members is enough.
--
-- Txn: the transactions of a producer.
--   transaction_manager.go, with the calls that async_producer.go makes of it. Status is the table of
--   flags and the diagram of the phases; State is the struct and its transitions; Sequence is the
--   numbers of idempotent production; Retry is the `exec` loops, whose fuel is the attempts that the
--   configuration allows (Retry.Max + 1, so it is enough by definition; none where that is negative);
--   Partitions and Offsets are the publication of both; Ids and Finish are the producer id, the end
--   of a transaction, and BeginTxn, CommitTxn and AbortTxn. Calls lists the calls that a producer makes.
--   The brokers are an argument: what each attempt comes back with, an error of the connection
--   included. A map is a list of its entries, in the order in which the code meets them. What the
--   requests say, the pauses between attempts, the locks and the logging are not modelled. A commit
--   may be taken apart at the message that asks for it, so that what is in flight comes between.
--
-- Offset: offset_manager.go. Partition is the state of one partition; Manager is the partitions under
--   management, the request and the handling of its answer; World puts them beside a broker that
--   stores offsets and the requests on their way to it, of which there may be several, since Commit takes
--   no lock from its request to the answer: a commit is two events, its request and its answer, and
--   what a broker stores of a request it stores at the second. Serial is about commits that follow one
--   another, Overlap about two that do not; Fetch is the fetch of the
--   initial offset, whose fuel is the retries. What becomes of a request is an argument, and a broker
--   may store what it does not confirm. The nested maps are a list of partitions. A Close may be one
--   event, or its two ends with commits in between, and has as many attempts as the
--   list of exchanges that it is given. The versions of the request are left out.
--
-- Producer: the asynchronous producer, async_producer.go with produce_set.go.
--   Partition is the partition producer, which holds messages back while earlier ones are tried
--   again: the loop of dispatch, one message at a time. Whether the broker producer has been
--   abandoned and whether a leader is found is an argument. The slice retryState is a function of the
--   level, so that a level above Retry.Max, where Go panics, is not modelled; nor are the pauses.
--   Set is the produce set, of which the records themselves are left out. Broker and Run are the
--   broker producer: its state, the handling of answers, and the select of its loop, an event at a
--   time; a wait for space is given by the answers that come in it. The goroutines that carry a set to
--   the broker and its answer back are a list of requests in flight, of which any may be answered
--   next. What returnError does to the transaction, and the references between producers and brokers, are
--   not modelled here.
pub mod Balance
pub mod Base
pub mod Offset
pub mod Partitioner
pub mod Producer
pub mod Protocol
pub mod Record
pub mod Txn
pub mod Wire
