-- ===== src/Producer/Shutdown.antt =====
-- A broker producer from its first message to its shutdown.
use sarama.Base.{
  ℕ, ◌+◌, ◌≡◌, refl, ◌∙◌, true, false, List, [], ◌∷◌, ◌++◌, if_where, if_both, ◌||◌, if◌then◌else◌,
  arith,
}
use sarama.Base.Int.{ℤ}
use sarama.Producer.Messages.{ProducerMessage, Config}
use sarama.Producer.Set.{empty, ready_to_flush}
use sarama.Producer.Broker.{BrokerProducer, put_out}
use sarama.Producer.Run.{
  Answer, handle_response, needs_retry, unless_retry, is_syn, take_message, Event, message,
  timer_fires, output_ready, answered, epoch_bumped, step, run, answer_all, shutdown,
  new_broker_producer,
}
use sarama.Producer.Tally.{one, count, count-append}
use sarama.Producer.Handled.{Sound}
use sarama.Producer.Kept.{handle_response-Sound}
use sarama.Producer.Account.{plus, put_out-Sound, unless_retry-Sound}

-- What a message counts for: a syn is made by the producer and ends here.
abbrev pub arrival : ProducerMessage → List ProducerMessage
arrival m = if is_syn m.flag then [] else m ∷ []

-- The messages that come in with the events.
unfoldable pub arrivals : List Event → List ProducerMessage
arrivals [] = []
arrivals (message m ws vs ∷ es) = arrival m ++ arrivals es
arrivals (timer_fires ∷ es) = arrivals es
arrivals (output_ready ∷ es) = arrivals es
arrivals (answered a ∷ es) = arrivals es
arrivals (epoch_bumped e ∷ es) = arrivals es

-- With what an event brings.
abbrev with_event : (ℕ → ℕ) → Event → ℕ → ℕ
with_event t (message m ws vs) x = t x + count x (arrival m)
with_event t e x = t x

no_arrivals : (x : ℕ) → count x (arrivals []) ≡ 0
unfolding arrivals
no_arrivals x = refl

Sound-same : (t u : ℕ → ℕ) (bp : BrokerProducer) → ((x : ℕ) → t x ≡ u x) → Sound t bp → Sound u bp
Sound-same t u bp e g = ((λ x. g.0 x ∙ e x), g.1)

arrival-syn : (x : ℕ) (m : ProducerMessage) → is_syn m.flag ≡ true → count x (arrival m) ≡ 0
arrival-syn x m h = simp h refl

arrival-other :
    (x : ℕ) (m : ProducerMessage) → is_syn m.flag ≡ false → count x (arrival m) ≡ one x m
arrival-other x m h = simp h (omega arith)

arrivals-step :
    (t : ℕ → ℕ) (e : Event) (es : List Event) (x : ℕ)
    → with_event t e x + count x (arrivals es) ≡ t x + count x (arrivals (e ∷ es))
unfolding arrivals
arrivals-step t (message m ws vs) es x = omega (arith, count-append x (arrival m) (arrivals es))
arrivals-step t timer_fires es x = refl
arrivals-step t output_ready es x = refl
arrivals-step t (answered a) es x = refl
arrivals-step t (epoch_bumped e) es x = refl

module _ (c : Config) where
  take_message-Sound :
      (t : ℕ → ℕ) (m : ProducerMessage) (ws vs : List Answer) (bp : BrokerProducer)
      → Sound t bp
      → Sound (with_event t (message m ws vs)) (take_message c m ws vs bp)
  unfolding take_message
  take_message-Sound t m ws vs bp g =
      if_where (Sound (with_event t (message m ws vs))) (is_syn m.flag) _ _
        (λ h. ((λ x. omega (arith, g.0 x, arrival-syn x m h)), g.1))
        (λ h.
          Sound-same (plus t m) (with_event t (message m ws vs))
            (unless_retry c m (needs_retry m bp) ws vs bp) (λ x. omega (arith, arrival-other x m h))
            (unless_retry-Sound t c m (needs_retry m bp) ws vs bp g))

  step-Sound :
      (t : ℕ → ℕ) (e : Event) (bp : BrokerProducer)
      → Sound t bp
      → Sound (with_event t e) (step c e bp)
  unfolding step
  step-Sound t (message m ws vs) bp g = take_message-Sound t m ws vs bp g
  step-Sound t timer_fires bp g = g
  step-Sound t output_ready bp g =
      if_both (Sound t) (bp.timer_fired || ready_to_flush c bp.buffer) _ _ (put_out-Sound t bp g) g
  step-Sound t (answered a) bp g = handle_response-Sound c t a bp g
  step-Sound t (epoch_bumped e) bp g = g

  run-Sound :
      (t : ℕ → ℕ) (es : List Event) (bp : BrokerProducer)
      → Sound t bp
      → Sound (λ x. t x + count x (arrivals es)) (run c es bp)
  unfolding run
  run-Sound t [] bp g = Sound-same t _ bp (λ x. omega (arith, no_arrivals x)) g
  run-Sound t (e ∷ es) bp g =
      Sound-same (λ x. with_event t e x + count x (arrivals es)) _ (run c es (step c e bp))
        (λ x. arrivals-step t e es x)
        (run-Sound (with_event t e) es (step c e bp) (step-Sound t e bp g))

  answer_all-Sound :
      (t : ℕ → ℕ) (ws : List Answer) (bp : BrokerProducer)
      → Sound t bp
      → Sound t (answer_all c ws bp)
  unfolding answer_all
  answer_all-Sound t [] bp g = g
  answer_all-Sound t (a ∷ ws) bp g =
      answer_all-Sound t ws (handle_response c a bp) (handle_response-Sound c t a bp g)

  pub shutdown-Sound :
      (t : ℕ → ℕ) (ws vs : List Answer) (bp : BrokerProducer)
      → Sound t bp
      → Sound t (shutdown c ws vs bp)
  unfolding shutdown
  shutdown-Sound t [] vs bp g =
      answer_all-Sound t vs _
        (if_both (Sound t) (empty bp.buffer) bp (put_out bp) g (put_out-Sound t bp g))
  shutdown-Sound t (a ∷ ws) vs bp g =
      if_both (Sound t) (empty bp.buffer) _ _ (answer_all-Sound t ((a ∷ ws) ++ vs) bp g)
        (shutdown-Sound t ws vs (handle_response c a bp) (handle_response-Sound c t a bp g))

new-Sound : (epoch : ℤ) → Sound (λ x. 0) (new_broker_producer epoch)
unfolding new_broker_producer
new-Sound epoch = ((λ x. refl), (refl, refl))

-- After any events, every message that has come in (a syn left aside) is in exactly one place, as often
-- as it has come: in the buffer, in flight, or gone as a success, an error, a retry or in a batch that
-- is sent again. And the counters of the buffer are what it holds.
pub run-accounts :
    (c : Config) (epoch : ℤ) (es : List Event)
    → Sound (λ x. count x (arrivals es)) (run c es (new_broker_producer epoch))
run-accounts c epoch es =
    Sound-same (λ x. 0 + count x (arrivals es)) _ (run c es (new_broker_producer epoch))
      (λ x. omega arith) (run-Sound c (λ x. 0) es (new_broker_producer epoch) (new-Sound epoch))
