-- ===== src/Producer/Runs.antt =====
-- Runs of a partition producer.
use sarama.Base.{ℕ, ◌≡◌, refl, true, false, List, [], ◌∷◌, map}
use sarama.Producer.Partition.{
  Message, syn, chaser, sent, returned, Weather, dispatch_all, new_partition_producer,
}
use sarama.Producer.Order.{Ordered}
use sarama.Producer.Loop.{dispatch_all-keeps_order}

abbrev calm : Weather
calm = record { abandoned = false; first = true; second = true; at_level = λ l. true }

-- A leader that cannot be found.
abbrev stormy : Weather
stormy = record { abandoned = true; first = false; second = false; at_level = λ l. false }

abbrev message : ℕ → ℕ → Message
message i r = record { id = i; retries = r; fin = false }

abbrev fin : ℕ → Message
fin r = record { id = 0; retries = r; fin = true }

-- The first message fails and comes back; the second and third wait for it until the chaser is back.
abbrev one_retry : List (Weather × Message)
one_retry =
    (calm, message 1 0)
    ∷ (calm, message 1 1)
    ∷ (calm, message 2 0)
    ∷ (calm, message 3 0)
    ∷ (calm, fin 0)
    ∷ (calm, fin 1)
    ∷ (stormy, message 4 0)
    ∷ []

one_retry-out :
    (dispatch_all one_retry (new_partition_producer true)).out
    ≡ syn
      ∷ sent (message 1 0)
      ∷ chaser 0
      ∷ syn
      ∷ sent (message 1 1)
      ∷ sent (message 2 0)
      ∷ sent (message 3 0)
      ∷ returned (message 4 0)
      ∷ []
unfolding dispatch_all new_partition_producer
one_retry-out = refl

dispatch_all-keeps_order_example :
    Ordered
      (map (λ (p : Weather × Message). p.1) one_retry)
      (dispatch_all one_retry (new_partition_producer true))
dispatch_all-keeps_order_example = dispatch_all-keeps_order true one_retry
