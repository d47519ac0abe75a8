-- ===== src/Producer/Account.antt =====
-- What becomes of the messages that a broker producer reads, up to its shutdown.
use sarama.Base.{
  ℕ, ◌+◌, ◌≡◌, refl, Bool, true, false, not, List, [], ◌∷◌, ◌++◌, Option, none, some, if_both, ◌&&◌,
  arith,
}
use sarama.Base.Int.{eqb_ℤ}
use sarama.Producer.Messages.{ProducerMessage, Config, Reason}
use sarama.Producer.Set.{
  PartitionSet, ProduceSet, new_partition_set, put_message, Added, added, refused, add,
  would_overflow,
}
use sarama.Producer.Totals.{
  total-with_set, IsCounted, When, add-IsCounted, add_where, add_encoded_where,
}
use sarama.Producer.Broker.{BrokerProducer, retry_message, put_out}
use sarama.Producer.Run.{
  Answer, handle_response, needs_retry, go_on, wait_for_space, return_or_keep, or_retry_message,
  make_space, match_epoch, take_plain, send_back, is_fin, unless_retry,
}
use sarama.Producer.Tally.{one, count_set, count-append, return_error-tally, retry_message-tally}
use sarama.Producer.Handled.{held, flight, Sound}
use sarama.Producer.Kept.{handle_response-Sound}

-- With one message more.
abbrev pub plus : (ℕ → ℕ) → ProducerMessage → ℕ → ℕ
plus t m x = t x + one x m

flight-append :
    (x : ℕ) (ps : List ProduceSet) (p : ProduceSet)
    → flight x (ps ++ (p ∷ [])) ≡ flight x ps + held x p
flight-append x [] p = omega arith
flight-append x (q ∷ ps) p = omega (arith, flight-append x ps p)

module _ (t : ℕ → ℕ) where
  pub put_out-Sound : (bp : BrokerProducer) → Sound t bp → Sound t (put_out bp)
  unfolding put_out
  put_out-Sound bp g =
      ((λ x. omega (arith, flight-append x bp.in_flight bp.buffer, g.0 x)), (refl, refl))

  go_on-Sound :
      (o : Option Reason) (room : Bool) (bp : BrokerProducer)
      (rest : BrokerProducer × Option Reason)
      → Sound t bp
      → Sound t rest.0
      → Sound t (go_on o room bp rest).0
  go_on-Sound (some e) room bp rest g h = g
  go_on-Sound none room bp rest g h =
      if_both {A = BrokerProducer × Option Reason} (λ q. Sound t q.0) room (bp, none) rest g h

  module _ (c : Config) where
    wait_for_space-Sound :
        (m : ProducerMessage) (force : Bool) (ws : List Answer) (bp : BrokerProducer)
        → Sound t bp
        → Sound t (wait_for_space c m force ws bp).0
    unfolding wait_for_space
    wait_for_space-Sound m force [] bp g = put_out-Sound bp g
    wait_for_space-Sound m force (a ∷ ws) bp g =
        let g' : Sound t (handle_response c a bp) = handle_response-Sound c t a bp g in
        go_on-Sound (needs_retry m (handle_response c a bp)) _ (handle_response c a bp) _ g'
          (wait_for_space-Sound m force ws (handle_response c a bp) g')

    make_space-Sound :
        (m : ProducerMessage) (ws : List Answer) (bp : BrokerProducer)
        → Sound t bp
        → Sound t (make_space c m ws bp).0
    unfolding make_space
    make_space-Sound m ws bp g =
        if_both {A = BrokerProducer × Option Reason} (λ q. Sound t q.0)
          (would_overflow c m bp.buffer) _ _ (wait_for_space-Sound m false ws bp g) g

    match_epoch-Sound :
        (m : ProducerMessage) (ws : List Answer) (bp : BrokerProducer)
        → Sound t bp
        → Sound t (match_epoch c m ws bp).0
    unfolding match_epoch
    match_epoch-Sound m ws bp g =
        if_both {A = BrokerProducer × Option Reason} (λ q. Sound t q.0)
          (c.has_producer_id && not (eqb_ℤ bp.buffer.epoch m.producer_epoch)) _ _
          (wait_for_space-Sound m true ws bp g) g

    -- What holds of the set that a message is added to.
    module _ (m : ProducerMessage) where
      put_message-count :
          (x size : ℕ) (s : PartitionSet)
          → count_set x (put_message m size s) ≡ count_set x s + one x m
      put_message-count x size s = omega (arith, count-append x s.msgs (m ∷ []))

      add-held : (x : ℕ) (ps : ProduceSet) → When (λ q. held x q ≡ held x ps + one x m) (add c m ps)
      add-held x ps =
          let P : Added → Type 0 = When (λ q. held x q ≡ held x ps + one x m) in
          add_where c m ps P (λ r. tt)
            (λ k v _ _.
              add_encoded_where c m ps P (λ r. tt) k v
                (λ size _.
                  total-with_set (count_set x) m.target (put_message m size) (new_partition_set c m)
                    (one x m) ps.sets (put_message-count x size) refl))

      return_or_keep-Sound :
          (o : Added) (bp : BrokerProducer)
          → ((x : ℕ) → When (λ q. held x q ≡ held x bp.buffer + one x m) o)
          → When IsCounted o
          → Sound t bp
          → Sound (plus t m) (return_or_keep c m o bp)
      return_or_keep-Sound (added q) bp h k g = ((λ x. omega (arith, h x, g.0 x)), k)
      return_or_keep-Sound (refused e) bp h k g =
          ((λ x. omega (arith, return_error-tally x e m bp.results, g.0 x)), g.1)

      retry-Sound :
          (e : Reason) (bp : BrokerProducer)
          → Sound t bp
          → Sound (plus t m) (record bp { results = retry_message c e m bp.results })
      retry-Sound e bp g =
          ((λ x. omega (arith, retry_message-tally x c e m bp.results, g.0 x)), g.1)

      or_retry_message-Sound :
          (w : BrokerProducer × Option Reason) (next : BrokerProducer → BrokerProducer)
          → Sound t w.0
          → ((bp : BrokerProducer) → Sound t bp → Sound (plus t m) (next bp))
          → Sound (plus t m) (or_retry_message c m w next)
      or_retry_message-Sound (bp, some e) next g h = retry-Sound e bp g
      or_retry_message-Sound (bp, none) next g h = h bp g

      take_plain-Sound :
          (ws vs : List Answer) (bp : BrokerProducer)
          → Sound t bp
          → Sound (plus t m) (take_plain c m ws vs bp)
      unfolding take_plain
      take_plain-Sound ws vs bp g =
          or_retry_message-Sound (make_space c m ws bp) _ (make_space-Sound m ws bp g) (λ bp1 g1.
            or_retry_message-Sound (match_epoch c m vs bp1) _ (match_epoch-Sound m vs bp1 g1)
              (λ bp2 g2.
                return_or_keep-Sound (add c m bp2.buffer) bp2 (λ x. add-held x bp2.buffer)
                  (add-IsCounted c m bp2.buffer g2.1) g2))

      send_back-Sound :
          (e : Reason) (bp : BrokerProducer) → Sound t bp → Sound (plus t m) (send_back c e m bp)
      unfolding send_back
      send_back-Sound e bp g =
          ((λ x. omega (arith, retry_message-tally x c e m bp.results, g.0 x)), g.1)

      pub unless_retry-Sound :
          (o : Option Reason) (ws vs : List Answer) (bp : BrokerProducer)
          → Sound t bp
          → Sound (plus t m) (unless_retry c m o ws vs bp)
      unless_retry-Sound (some e) ws vs bp g = send_back-Sound e bp g
      unless_retry-Sound none ws vs bp g =
          if_both (Sound (plus t m)) (is_fin m.flag) _ _ (retry-Sound Reason.shutting_down bp g)
            (take_plain-Sound ws vs bp g)
