-- ===== src/Producer/Dispatch.antt =====
-- Every message that dispatch reads keeps the order.
use sarama.Base.{
  ℕ, ◌-◌, ◌≤◌, ◌≡◌, refl, sym, ap, subst, ◌∙◌, Bool, true, false, List, [], ◌∷◌, ◌++◌, append-nil,
  if_both, if◌then◌else◌, arith,
}
use sarama.Producer.Partition.{
  Message, Out, syn, chaser, sent, returned, PartitionProducer, Weather, put_out, abandon,
  found_leader, ensure_leader, new_high_watermark, send, raise,
}
use sarama.Producer.Order.{of_level, level, left, left-append, left-sent, left-returned, Ordered}
use sarama.Producer.Steps.{
  Ordered-same, leaves-Ordered, same_buf, left-quiet, left-syn, left-chaser,
}

level_one : (l : ℕ) (m : Message) → level l (m ∷ []) ≡ of_level l m
unfolding level
level_one l m = append-nil (of_level l m)

pub abandon-Ordered :
    (b : Bool) (ins : List Message) (pp : PartitionProducer)
    → Ordered ins pp
    → Ordered ins (abandon b pp)
unfolding abandon
abandon-Ordered b ins pp g =
    if_both (Ordered ins) b _ _
      (Ordered-same ins pp (record pp { has_broker = false }) (λ l. refl) (λ l. refl) (omega arith)
        g)
      g

left-returned_one :
    (l : ℕ) (o : List Out) (m : Message)
    → left l (o ++ (returned m ∷ [])) ≡ left l o ++ of_level l m
left-returned_one l o m =
    left-append l o (returned m ∷ [])
    ∙ ap (λ t. left l o ++ t) (left-returned l (m ∷ []) ∙ level_one l m)

left-sent_one :
    (l : ℕ) (o : List Out) (m : Message) → left l (o ++ (sent m ∷ [])) ≡ left l o ++ of_level l m
left-sent_one l o m =
    left-append l o (sent m ∷ []) ∙ ap (λ t. left l o ++ t) (left-sent l (m ∷ []) ∙ level_one l m)

-- With a leader or none: where there is none, the message is returned.
module _ (ins : List Message) (m : Message) where
  ensure_leader-Ordered :
      (found : Bool) (pp : PartitionProducer)
      → pp.high_watermark ≤ m.retries
      → Ordered ins pp
      → (rest : PartitionProducer → PartitionProducer)
      → ((q : PartitionProducer)
          → Ordered ins q
          → q.high_watermark ≡ pp.high_watermark
          → Ordered (ins ++ (m ∷ [])) (rest q))
      → Ordered (ins ++ (m ∷ [])) (let (q, f) = ensure_leader found m pp in if f then rest q else q)
  unfolding ensure_leader
  ensure_leader-Ordered found pp up g rest ok =
      let Kept : PartitionProducer × Bool → Type 0 =
        λ c. Ordered (ins ++ (m ∷ [])) (if c.1 then rest c.0 else c.0) in
      if_both Kept pp.has_broker (pp, true) _ (ok pp g refl)
        (if_both Kept found (found_leader pp, true) (put_out (returned m ∷ []) pp, false)
          (ok (found_leader pp)
            (Ordered-same ins pp (found_leader pp) (λ l. left-quiet l pp.out syn (left-syn l))
              (λ l. refl) (omega arith) g)
            refl)
          (leaves-Ordered ins m pp (put_out (returned m ∷ []) pp) up
            (λ l. left-returned_one l pp.out m) (λ l. refl) (omega arith) g))

  pub send-Ordered :
      (found : Bool) (pp : PartitionProducer)
      → pp.high_watermark ≤ m.retries
      → Ordered ins pp
      → Ordered (ins ++ (m ∷ [])) (send found m pp)
  unfolding send
  send-Ordered found pp up g =
      ensure_leader-Ordered found pp up g (put_out (sent m ∷ [])) (λ q g' e.
        leaves-Ordered ins m q (put_out (sent m ∷ []) q) (subst (λ k. k ≤ m.retries) (sym e) up)
          (λ l. left-sent_one l q.out m) (λ l. refl) (omega arith) g')

  new_high_watermark-Ordered :
      (h : ℕ) (pp : PartitionProducer)
      → pp.high_watermark ≤ h
      → Ordered ins pp
      → Ordered ins (new_high_watermark h pp)
  unfolding new_high_watermark
  new_high_watermark-Ordered h pp up =
      Ordered-same ins pp (new_high_watermark h pp)
        (λ l. left-quiet l pp.out (chaser (h - 1)) (left-chaser l (h - 1)))
        (λ l. same_buf h l true pp.retry_state) up

  pub raise-Ordered :
      (w : Weather) (pp : PartitionProducer)
      → pp.high_watermark ≤ m.retries
      → Ordered ins pp
      → Ordered (ins ++ (m ∷ [])) (raise w m pp)
  unfolding raise new_high_watermark
  raise-Ordered w pp up g =
      ensure_leader-Ordered w.first pp up g (λ q. send w.second m (new_high_watermark m.retries q))
        (λ q g' e.
          send-Ordered w.second (new_high_watermark m.retries q) (omega arith)
            (new_high_watermark-Ordered m.retries q (subst (λ k. k ≤ m.retries) (sym e) up) g'))
