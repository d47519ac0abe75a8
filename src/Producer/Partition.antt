-- ===== src/Producer/Partition.antt =====
-- partitionProducer of async_producer.go, which keeps the messages of a partition in order through
-- retries.
use sarama.Base.{
  ℕ, zero, suc, ◌-◌, Bool, true, false, ◌&&◌, ◌||◌, List, [], ◌∷◌, ◌++◌, map, ltb, ◌==◌,
  if◌then◌else◌,
}

-- A message, by its number; `fin` is the flag of a chaser.
pub record Message : Type 0 where
  pub id : ℕ
  pub retries : ℕ
  pub fin : Bool

-- partitionRetryState
pub record RetryState : Type 0 where
  pub buf : List Message
  pub expect_chaser : Bool

-- What goes out: to the broker producer, or back to the user with an error.
pub data Out : Type 0 where
  syn : Out
  chaser : ℕ → Out
  sent returned : Message → Out

-- `has_broker` says that brokerProducer is not nil. The slice retryState is a function of the level;
-- its length is Retry.Max + 1.
pub record PartitionProducer : Type 0 where
  pub high_watermark : ℕ
  pub retry_state : ℕ → RetryState
  pub has_broker : Bool
  pub out : List Out

-- What the environment does while a message is dispatched: whether the broker producer has been
-- abandoned, and whether updateLeader succeeds, the first time, the second, and at each level of a flush.
pub record Weather : Type 0 where
  pub abandoned : Bool
  pub first : Bool
  pub second : Bool
  pub at_level : ℕ → Bool

abbrev pub put_out : List Out → PartitionProducer → PartitionProducer
put_out o pp = record pp { out = pp.out ++ o }

abbrev pub set_level : ℕ → RetryState → (ℕ → RetryState) → ℕ → RetryState
set_level h s f l = if l == h then s else f l

unfoldable pub abandon : Bool → PartitionProducer → PartitionProducer
abandon b pp = if b then record pp { has_broker = false } else pp

-- updateLeader, where it succeeds.
abbrev pub found_leader : PartitionProducer → PartitionProducer
found_leader pp = record pp { has_broker = true; out = pp.out ++ (syn ∷ []) }

-- updateLeaderIfBrokerProducerIsNil, with whether it returned no error.
unfoldable pub ensure_leader : Bool → Message → PartitionProducer → PartitionProducer × Bool
ensure_leader found m pp =
    if pp.has_broker
    then (pp, true)
    else if found
    then (found_leader pp, true)
    else (put_out (returned m ∷ []) pp, false)

unfoldable pub new_high_watermark : ℕ → PartitionProducer → PartitionProducer
new_high_watermark h pp = record {
  high_watermark = h;
  retry_state =
      set_level h (record { buf = (pp.retry_state h).buf; expect_chaser = true }) pp.retry_state;
  has_broker = false;
  out = pp.out ++ (chaser (h - 1) ∷ []);
}

-- One round of the loop of flushRetryBuffers, down to level `h`: the buffer is sent, or returned where
-- no leader is found.
unfoldable pub emit : Bool → List Message → PartitionProducer → PartitionProducer
emit found ms pp =
    if pp.has_broker
    then put_out (map sent ms) pp
    else if found
    then put_out (map sent ms) (found_leader pp)
    else put_out (map returned ms) pp

unfoldable pub flush_level : (ℕ → Bool) → ℕ → PartitionProducer → PartitionProducer
unfolding emit
flush_level found h pp =
    let pp' = emit (found h) (pp.retry_state h).buf pp in
    record pp' {
      high_watermark = h;
      retry_state =
          set_level h (record { buf = []; expect_chaser = (pp.retry_state h).expect_chaser })
            pp.retry_state;
    }

-- The loop, by the watermark: it ends at the first level that expects a chaser, or at the lowest.
unfoldable pub flush_retry_buffers : (ℕ → Bool) → ℕ → PartitionProducer → PartitionProducer
unfolding flush_level
flush_retry_buffers found zero pp = pp
flush_retry_buffers found (suc h) pp =
    let pp' = flush_level found h pp in
    let rest = flush_retry_buffers found h pp' in
    if (pp.retry_state h).expect_chaser || h == 0 then pp' else rest

-- `pp.retryState[l].expectChaser = false`
abbrev pub chaser_seen : ℕ → PartitionProducer → PartitionProducer
chaser_seen l pp = record pp {
  retry_state =
      set_level l (record { buf = (pp.retry_state l).buf; expect_chaser = false }) pp.retry_state;
}

abbrev pub buffer : Message → PartitionProducer → PartitionProducer
buffer m pp = record pp {
  retry_state =
      set_level m.retries
        (record {
          buf = (pp.retry_state m.retries).buf ++ (m ∷ []);
          expect_chaser = (pp.retry_state m.retries).expect_chaser;
        })
        pp.retry_state;
}

-- The end of the loop's body: the message goes to the broker producer. (A message that is sent for the
-- first time gets its sequence number here.)
unfoldable pub send : Bool → Message → PartitionProducer → PartitionProducer
unfolding ensure_leader
send found m pp =
    let (pp', found') = ensure_leader found m pp in
    if found' then put_out (sent m ∷ []) pp' else pp'

-- A new, higher level.
unfoldable pub raise : Weather → Message → PartitionProducer → PartitionProducer
unfolding ensure_leader new_high_watermark send
raise w m pp =
    let (pp', found') = ensure_leader w.first m pp in
    if found' then send w.second m (new_high_watermark m.retries pp') else pp'

-- A message of a lower level than the present one.
unfoldable pub hold_back : Message → PartitionProducer → PartitionProducer
hold_back m pp = if m.fin then chaser_seen m.retries pp else buffer m pp

-- The body of the loop of dispatch, after the check of the abandoned channel.
unfoldable pub dispatch_one : Weather → Message → PartitionProducer → PartitionProducer
unfolding raise hold_back flush_retry_buffers send
dispatch_one w m pp =
    if ltb pp.high_watermark m.retries
    then raise w m pp
    else if ltb m.retries pp.high_watermark
    then hold_back m pp
    else if ltb 0 pp.high_watermark && m.fin
    then flush_retry_buffers w.at_level pp.high_watermark (chaser_seen pp.high_watermark pp)
    else send w.first m pp

unfoldable pub dispatch : Weather → Message → PartitionProducer → PartitionProducer
unfolding abandon dispatch_one
dispatch w m pp = dispatch_one w m (abandon w.abandoned pp)

unfoldable pub dispatch_all : List (Weather × Message) → PartitionProducer → PartitionProducer
unfolding dispatch
dispatch_all [] pp = pp
dispatch_all ((w, m) ∷ more) pp = dispatch_all more (dispatch w m pp)

-- newPartitionProducer, and the leader that dispatch looks for at its start.
unfoldable pub new_partition_producer : Bool → PartitionProducer
new_partition_producer found = record {
  high_watermark = 0;
  retry_state = λ l. record { buf = []; expect_chaser = false };
  has_broker = found;
  out = if found then syn ∷ [] else [];
}
