-- ===== src/Offset/Fetch.antt =====
-- fetchInitialOffset of offset_manager.go.
use Prim.Native.String.{String}
use sarama.Base.{
  ap, inl, inr, Bool-cases, ltb, ltb→lt, ltb→le, ℕ, zero, suc, ◌≤◌, ◌<◌, ◌≡◌, ◌∙◌, arith,
}
use sarama.Base.Int.{ℤ}
use sarama.Txn.Errors.{KError}
use sarama.Offset.Partition.{OffsetError, incomplete_response, kafka, connection}

-- What one attempt meets: no coordinator, a failed connection, a response without the block, or the
-- block, with its error, its offset, leader epoch and metadata. `closing` is an answer that the
-- offsets are loading while the manager is closing.
pub data FetchReply : Type 0 where
  no_coordinator failed : ℕ → FetchReply
  no_block closing : FetchReply
  block : KError → ℤ × ℤ × String → FetchReply

pub data Fetched : Type 0 where
  fetched : ℤ × ℤ × String → Fetched
  fetch_error : OffsetError → Fetched

-- What an attempt comes to: a result, or an error that is tried again while retries are left.
pub data Attempted : Type 0 where
  result : Fetched → Attempted
  again : OffsetError → Attempted

unfoldable pub attempt : FetchReply → Attempted
attempt (no_coordinator n) = again (connection n)
attempt (failed n) = again (connection n)
attempt no_block = result (fetch_error incomplete_response)
attempt closing = result (fetch_error (kafka KError.offsets_load_in_progress))
attempt (block KError.no_error v) = result (fetched v)
attempt (block KError.not_coordinator_for_consumer v) =
    again (kafka KError.not_coordinator_for_consumer)
attempt (block KError.offsets_load_in_progress v) = again (kafka KError.offsets_load_in_progress)
attempt (block e v) = result (fetch_error (kafka e))

-- The recursion on `retries`; `env n` is what is met when `n` retries are left.
unfoldable pub or_retry : Attempted → Fetched → Fetched
or_retry (result r) rest = r
or_retry (again e) rest = rest

unfoldable pub last_attempt : Attempted → Fetched
last_attempt (result r) = r
last_attempt (again e) = fetch_error e

unfoldable pub fetch_initial_offset : ℕ → (ℕ → FetchReply) → Fetched
unfolding or_retry last_attempt
fetch_initial_offset zero env = last_attempt (attempt (env 0))
fetch_initial_offset (suc n) env = or_retry (attempt (env (suc n))) (fetch_initial_offset n env)

-- An attempt that ends in an error that is tried again.
abbrev pub Retried : FetchReply → Type 0
Retried r = (e : OffsetError) × (attempt r ≡ again e)

-- When the attempts before fail with errors that are tried again, the fetch comes to what the next
-- attempt comes to, be it an offset or another error, as long as the retries reach it.
pub fetch_initial_offset-attempt :
    (n m : ℕ) (env : ℕ → FetchReply) (r : Fetched)
    → m ≤ n
    → ((i : ℕ) → m < i → i ≤ n → Retried (env i))
    → attempt (env m) ≡ result r
    → fetch_initial_offset n env ≡ r
unfolding fetch_initial_offset or_retry last_attempt
fetch_initial_offset-attempt zero m env r h before now =
    ap (λ i. last_attempt (attempt (env i))) (omega arith) ∙ ap last_attempt now
fetch_initial_offset-attempt (suc n) m env r h before now = elim (Bool-cases (ltb m (suc n))) [
  | inl lt ↦
      let (e, again_then) = before (suc n) (ltb→lt m (suc n) lt) (omega arith) in
      ap (λ a. or_retry a (fetch_initial_offset n env)) again_then
      ∙ fetch_initial_offset-attempt n m env r (omega (arith, ltb→lt m (suc n) lt))
          (λ i p q. before i p (omega arith)) now
  | inr ge ↦
      ap (λ i. or_retry (attempt (env i)) (fetch_initial_offset n env))
        (omega (arith, ltb→le m (suc n) ge))
      ∙ ap (λ a. or_retry a (fetch_initial_offset n env)) now
]
