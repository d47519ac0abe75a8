-- ===== src/Producer/Tally.antt =====
-- Where the messages of a broker producer are, counted by their identity.
use sarama.Base.{
  ℕ, ◌+◌, ◌≡◌, refl, ap, List, [], ◌∷◌, ◌++◌, if_both, leb, ◌==◌, if◌then◌else◌, arith,
}
use sarama.Base.Int.{ℤ}
use sarama.Producer.Messages.{ProducerMessage, Config, Reason, clear}
use sarama.Producer.Set.{PartitionSet}
use sarama.Producer.Totals.{total}
use sarama.Producer.Broker.{
  Results, return_error, return_errors, return_successes, retry_message, retry_messages,
  each_partition, with_offsets,
}

-- How often the message `x` is in a list.
abbrev pub one : ℕ → ProducerMessage → ℕ
one x m = if m.id == x then 1 else 0

abbrev pub count : ℕ → List ProducerMessage → ℕ
count x [] = 0
count x (m ∷ ms) = one x m + count x ms

abbrev pub count_errors : ℕ → List (ProducerMessage × Reason) → ℕ
count_errors x [] = 0
count_errors x ((m, e) ∷ es) = one x m + count_errors x es

abbrev pub count_set : ℕ → PartitionSet → ℕ
count_set x s = count x s.msgs

abbrev pub tally_results : ℕ → Results → ℕ
tally_results x r =
    count x r.successes + count_errors x r.errors + count x r.retries + total (count_set x) r.resent

module _ (x : ℕ) where
  pub count-append : (ms ns : List ProducerMessage) → count x (ms ++ ns) ≡ count x ms + count x ns
  count-append [] ns = omega arith
  count-append (m ∷ ms) ns = omega (arith, count-append ms ns)

  count_errors-append :
      (ms ns : List (ProducerMessage × Reason))
      → count_errors x (ms ++ ns) ≡ count_errors x ms + count_errors x ns
  count_errors-append [] ns = omega arith
  count_errors-append ((m, e) ∷ ms) ns = omega (arith, count_errors-append ms ns)

  pub total-append :
      (ss ts : List PartitionSet)
      → total (count_set x) (ss ++ ts) ≡ total (count_set x) ss + total (count_set x) ts
  total-append [] ts = omega arith
  total-append (s ∷ ss) ts = omega (arith, total-append ss ts)

  one-clear : (m : ProducerMessage) → one x (clear m) ≡ one x m
  unfolding clear
  one-clear m = refl

  pub return_error-tally :
      (e : Reason) (m : ProducerMessage) (r : Results)
      → tally_results x (return_error e m r) ≡ tally_results x r + one x m
  unfolding return_error
  return_error-tally e m r =
      omega (arith, count_errors-append r.errors ((clear m, e) ∷ []), one-clear m)

  pub return_errors-tally :
      (e : Reason) (ms : List ProducerMessage) (r : Results)
      → tally_results x (return_errors e ms r) ≡ tally_results x r + count x ms
  unfolding return_errors
  return_errors-tally e [] r = omega arith
  return_errors-tally e (m ∷ ms) r =
      omega (arith, return_errors-tally e ms (return_error e m r), return_error-tally e m r)

  pub return_successes-tally :
      (ms : List ProducerMessage) (r : Results)
      → tally_results x (return_successes ms r) ≡ tally_results x r + count x ms
  unfolding return_successes
  return_successes-tally [] r = omega arith
  return_successes-tally (m ∷ ms) r = omega (
    arith,
    return_successes-tally ms (record r { successes = r.successes ++ (clear m ∷ []) }),
    count-append r.successes (clear m ∷ []),
    one-clear m,
  )

  pub retry_message-tally :
      (c : Config) (e : Reason) (m : ProducerMessage) (r : Results)
      → tally_results x (retry_message c e m r) ≡ tally_results x r + one x m
  unfolding retry_message
  retry_message-tally c e m r =
      if_both (λ t. tally_results x t ≡ tally_results x r + one x m) (leb c.retry_max m.retries) _ _
        (return_error-tally e m r)
        (omega (arith, count-append r.retries (record m { retries = m.retries + 1 } ∷ [])))

  pub retry_messages-tally :
      (c : Config) (e : Reason) (ms : List ProducerMessage) (r : Results)
      → tally_results x (retry_messages c e ms r) ≡ tally_results x r + count x ms
  unfolding retry_messages
  retry_messages-tally c e [] r = omega arith
  retry_messages-tally c e (m ∷ ms) r =
      omega
        (arith, retry_messages-tally c e ms (retry_message c e m r), retry_message-tally c e m r)

  pub each_partition-tally :
      (f : PartitionSet → Results → Results) (w : PartitionSet → ℕ) (ss : List PartitionSet)
      (r : Results)
      → ((s : PartitionSet) (t : Results) → tally_results x (f s t) ≡ tally_results x t + w s)
      → tally_results x (each_partition f ss r) ≡ tally_results x r + total w ss
  unfolding each_partition
  each_partition-tally f w [] r h = omega arith
  each_partition-tally f w (s ∷ ss) r h =
      omega (arith, each_partition-tally f w ss (f s r) h, h s r)

  pub with_offsets-count :
      (ms : List ProducerMessage) (o : ℤ) → count x (with_offsets o ms) ≡ count x ms
  unfolding with_offsets
  with_offsets-count [] o = refl
  with_offsets-count (m ∷ ms) o = ap (λ n. one x m + n) (with_offsets-count ms _)
