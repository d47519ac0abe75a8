-- ===== src/Producer/Flush.antt =====
-- The flush of the buffers keeps the order.
use sarama.Base.{
  ℕ, zero, suc, ◌≤◌, ◌≡◌, refl, sym, ap, subst, ◌∙◌, inl, inr, Bool, true, false, ◌||◌, List, [],
  ◌++◌, append-nil, All, Bool-cases, if_both, ◌==◌, ==_iff, arith,
}
use sarama.Producer.Partition.{
  Message, RetryState, PartitionProducer, flush_level, flush_retry_buffers, set_level,
}
use sarama.Producer.Order.{level, left, Held, level-Held, other_level-Held, Ordered}
use sarama.Producer.Steps.{left-emit}

emptied :
    (h l : ℕ) (c : Bool) (f : ℕ → RetryState)
    → (l == h) ≡ true
    → (set_level h (record { buf = []; expect_chaser = c }) f l).buf ≡ []
emptied h l c f e = rw e

untouched :
    (h l : ℕ) (s : RetryState) (f : ℕ → RetryState) → (l == h) ≡ false → set_level h s f l ≡ f l
untouched h l s f e = rw e

module _ (found : ℕ → Bool) (h : ℕ) (ins : List Message) (pp : PartitionProducer) where
  flush_level-out :
      (l : ℕ)
      → left l (flush_level found h pp).out ≡ left l pp.out ++ level l (pp.retry_state h).buf
  unfolding flush_level
  flush_level-out l = left-emit (found h) (pp.retry_state h).buf pp l

  flush_level-this : (l : ℕ) → (l == h) ≡ true → ((flush_level found h pp).retry_state l).buf ≡ []
  unfolding flush_level
  flush_level-this l e = emptied h l _ pp.retry_state e

  flush_level-that :
      (l : ℕ) → (l == h) ≡ false → (flush_level found h pp).retry_state l ≡ pp.retry_state l
  unfolding flush_level
  flush_level-that l e = untouched h l _ pp.retry_state e

  flush_level-watermark : (flush_level found h pp).high_watermark ≡ h
  unfolding flush_level
  flush_level-watermark = refl

  flush_order :
      Ordered ins pp
      → (l : ℕ)
      → left l (flush_level found h pp).out ++ ((flush_level found h pp).retry_state l).buf
        ≡ level l ins
  flush_order g l = elim (Bool-cases (l == h)) [
    | inl e ↦
        let e' : l ≡ h = (==_iff l h).0 e in
        ap (λ t. left l (flush_level found h pp).out ++ t) (flush_level-this l e)
        ∙ append-nil (left l (flush_level found h pp).out)
        ∙ flush_level-out l
        ∙ ap (λ j. left l pp.out ++ level l (pp.retry_state j).buf) (sym e')
        ∙ ap (λ t. left l pp.out ++ t) (level-Held l (pp.retry_state l).buf (g.held l))
        ∙ g.in_order l
    | inr e ↦
        ap (λ (s : RetryState). left l (flush_level found h pp).out ++ s.buf) (flush_level-that l e)
        ∙ ap (λ t. t ++ (pp.retry_state l).buf)
            (flush_level-out l
              ∙ ap (λ t. left l pp.out ++ t)
                  (other_level-Held l h (pp.retry_state h).buf (g.held h) e)
              ∙ append-nil (left l pp.out))
        ∙ g.in_order l
  ]

  flush-Held : Ordered ins pp → (l : ℕ) → All (Held l) ((flush_level found h pp).retry_state l).buf
  flush-Held g l = elim (Bool-cases (l == h)) [
    | inl e ↦ subst (All (Held l)) (sym (flush_level-this l e)) tt
    | inr e ↦ subst (λ (s : RetryState). All (Held l) s.buf) (sym (flush_level-that l e)) (g.held l)
  ]

  flush_drained :
      pp.high_watermark ≡ suc h
      → Ordered ins pp
      → (l : ℕ) → h ≤ l
      → ((flush_level found h pp).retry_state l).buf ≡ []
  flush_drained w g l b = elim (Bool-cases (l == h)) [
    | inl e ↦ flush_level-this l e
    | inr e ↦ ap (λ (s : RetryState). s.buf) (flush_level-that l e) ∙ g.drained l (above l b e)
  ]
    where
      above : (l : ℕ) → h ≤ l → (l == h) ≡ false → pp.high_watermark ≤ l
      above l b e = ground (arith, w)

  flush_level-Ordered :
      pp.high_watermark ≡ suc h → Ordered ins pp → Ordered ins (flush_level found h pp)
  flush_level-Ordered w g = record {
    in_order = flush_order g;
    held = flush-Held g;
    drained = λ l b. flush_drained w g l (subst (λ k. k ≤ l) flush_level-watermark b);
  }

pub flush_retry_buffers-Ordered :
    (found : ℕ → Bool) (w : ℕ) (ins : List Message) (pp : PartitionProducer)
    → pp.high_watermark ≡ w
    → Ordered ins pp
    → Ordered ins (flush_retry_buffers found w pp)
unfolding flush_retry_buffers
flush_retry_buffers-Ordered found zero ins pp e g = g
flush_retry_buffers-Ordered found (suc h) ins pp e g =
    let g' : Ordered ins (flush_level found h pp) = flush_level-Ordered found h ins pp e g in
    if_both (Ordered ins) ((pp.retry_state h).expect_chaser || h == 0) _ _ g' (
      flush_retry_buffers-Ordered found h ins (flush_level found h pp)
        (flush_level-watermark found h ins pp) g')
