-- ===== src/Partitioner/RoundRobin.antt =====
-- roundRobinPartitioner of partitioner.go.
use sarama.Base.{ℕ, zero, suc, ◌+◌, ◌%◌, ◌<◌, ◌≡◌, sym, ◌∙◌, ltb, not, if◌then◌else◌, arith}
use native.Mathlib.Nat.{zero-mod, mod-lt, mod-eq_of_lt, mod_self, suc-mod}

-- From the field `partition`, the new one and what is returned.
unfoldable pub round_robin : ℕ → ℕ → ℕ × ℕ
round_robin n p = let q = if not (ltb p n) then 0 else p in (q + 1, q)

-- The field after `k` messages.
unfoldable pub after_messages : ℕ → ℕ → ℕ
unfolding round_robin
after_messages n zero = 0
after_messages n (suc k) = (round_robin n (after_messages n k)).0

next_mod : (m n : ℕ) → m < n → (if not (ltb (m + 1) n) then 0 else m + 1) ≡ suc m % n
next_mod m n h = ground (arith, λ (k : suc m < n). mod-eq_of_lt k, mod_self n)

-- With `n` partitions, the message after `k` others goes to the partition `k % n`: the partitions are
-- taken in turn.
pub round_robin-after_messages : (n k : ℕ) → 0 < n → (round_robin n (after_messages n k)).1 ≡ k % n
unfolding round_robin after_messages
round_robin-after_messages n zero h = ground (arith, zero-mod n)
round_robin-after_messages n (suc k) h =
    rw (round_robin-after_messages n k h) (next_mod (k % n) n (mod-lt k h) ∙ sym (suc-mod k n))
