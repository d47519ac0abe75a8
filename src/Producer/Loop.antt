-- ===== src/Producer/Loop.antt =====
-- The loop of dispatch keeps the order, whatever happens to the leader meanwhile.
use sarama.Base.{
  ℕ, ◌≤◌, ◌<◌, ◌≡◌, refl, sym, ap, subst, ◌∙◌, inl, inr, Bool, true, false, ◌&&◌, List, [], ◌∷◌,
  ◌++◌, map, append_assoc, append-nil, All, Bool-cases, if_where, ltb, ltb→lt, ◌==◌, ==_iff, arith,
}
use sarama.Producer.Partition.{
  Message, PartitionProducer, Weather, abandon, chaser_seen, buffer, hold_back, flush_retry_buffers,
  dispatch_one, dispatch, dispatch_all, new_partition_producer,
}
use sarama.Producer.Order.{of_level, level, left, Held, Ordered}
use sarama.Producer.Steps.{fin-Ordered, chaser_seen-Ordered, level-snoc}
use sarama.Producer.Flush.{flush_retry_buffers-Ordered}
use sarama.Producer.Dispatch.{abandon-Ordered, send-Ordered, raise-Ordered}

All-snoc :
    (P : Message → Type 0) (ms : List Message) (m : Message)
    → All P ms
    → P m
    → All P (ms ++ (m ∷ []))
All-snoc P [] m h p = (p, tt)
All-snoc P (x ∷ ms) m h p = (h.0, All-snoc P ms m h.1 p)

of_same : (m : Message) → m.fin ≡ false → of_level m.retries m ≡ m ∷ []
of_same m f = ground (arith, f)

module _ (ins : List Message) (m : Message) (pp : PartitionProducer) where
  buffer-this :
      (l : ℕ)
      → (l == m.retries) ≡ true
      → ((buffer m pp).retry_state l).buf ≡ (pp.retry_state l).buf ++ (m ∷ [])
  buffer-this l e =
      rw e (ap (λ j. (pp.retry_state j).buf ++ (m ∷ [])) (sym ((==_iff l m.retries).0 e)))

  buffer-that :
      (l : ℕ)
      → (l == m.retries) ≡ false
      → ((buffer m pp).retry_state l).buf ≡ (pp.retry_state l).buf
  buffer-that l e = rw e

  of_this : (l : ℕ) → m.fin ≡ false → (l == m.retries) ≡ true → of_level l m ≡ m ∷ []
  of_this l f e = ground (arith, f, e)

  of_that : (l : ℕ) → (l == m.retries) ≡ false → of_level l m ≡ []
  of_that l e = ground (arith, e)

  buffer-order :
      m.fin ≡ false
      → Ordered ins pp
      → (l : ℕ) → left l pp.out ++ ((buffer m pp).retry_state l).buf ≡ level l (ins ++ (m ∷ []))
  buffer-order f g l = elim (Bool-cases (l == m.retries)) [
    | inl e ↦
        ap (λ t. left l pp.out ++ t) (buffer-this l e)
        ∙ sym (append_assoc (left l pp.out) (pp.retry_state l).buf (m ∷ []))
        ∙ ap (λ t. t ++ (m ∷ [])) (g.in_order l)
        ∙ ap (λ t. level l ins ++ t) (sym (of_this l f e))
        ∙ sym (level-snoc l ins m)
    | inr e ↦
        ap (λ t. left l pp.out ++ t) (buffer-that l e)
        ∙ g.in_order l
        ∙ sym (append-nil (level l ins))
        ∙ ap (λ t. level l ins ++ t) (sym (of_that l e))
        ∙ sym (level-snoc l ins m)
  ]

  buffer-Held :
      m.fin ≡ false → Ordered ins pp → (l : ℕ) → All (Held l) ((buffer m pp).retry_state l).buf
  buffer-Held f g l = elim (Bool-cases (l == m.retries)) [
    | inl e ↦
        subst (All (Held l)) (sym (buffer-this l e)) (
          All-snoc (Held l) (pp.retry_state l).buf m (g.held l) (sym ((==_iff l m.retries).0 e), f))
    | inr e ↦ subst (All (Held l)) (sym (buffer-that l e)) (g.held l)
  ]

  buffer-Ordered :
      m.retries < pp.high_watermark
      → m.fin ≡ false
      → Ordered ins pp
      → Ordered (ins ++ (m ∷ [])) (buffer m pp)
  buffer-Ordered low f g = record {
    in_order = buffer-order f g;
    held = buffer-Held f g;
    drained = λ l b. buffer-that l (other l b) ∙ g.drained l b;
  }
    where
      other : (l : ℕ) → pp.high_watermark ≤ l → (l == m.retries) ≡ false
      other l b = ground (arith, low)

  hold_back-Ordered :
      m.retries < pp.high_watermark → Ordered ins pp → Ordered (ins ++ (m ∷ [])) (hold_back m pp)
  unfolding hold_back
  hold_back-Ordered low g = elim (Bool-cases m.fin) [
    | inl f ↦
        simp f
          (fin-Ordered ins m (chaser_seen m.retries pp) f (chaser_seen-Ordered ins m.retries pp g))
    | inr f ↦ simp f (buffer-Ordered low f g)
  ]

dispatch_one-Ordered :
    (w : Weather) (m : Message) (ins : List Message) (pp : PartitionProducer)
    → Ordered ins pp
    → Ordered (ins ++ (m ∷ [])) (dispatch_one w m pp)
unfolding dispatch_one
dispatch_one-Ordered w m ins pp g =
    let Kept : PartitionProducer → Type 0 = Ordered (ins ++ (m ∷ [])) in
    if_where Kept (ltb pp.high_watermark m.retries) _ _
      (λ high. raise-Ordered ins m w pp (ground (arith, high)) g)
      (λ low.
        if_where Kept (ltb m.retries pp.high_watermark) _ _
          (λ e. hold_back-Ordered ins m pp (ltb→lt m.retries pp.high_watermark e) g)
          (λ e.
            if_where Kept (ltb 0 pp.high_watermark && m.fin) _ _
              (λ f.
                fin-Ordered ins m
                  (flush_retry_buffers w.at_level pp.high_watermark
                    (chaser_seen pp.high_watermark pp))
                  (ground (arith, f))
                  (flush_retry_buffers-Ordered w.at_level pp.high_watermark ins
                    (chaser_seen pp.high_watermark pp) refl
                    (chaser_seen-Ordered ins pp.high_watermark pp g)))
              (λ _. send-Ordered ins m w.first pp (ground (arith, e)) g)))

dispatch-Ordered :
    (w : Weather) (m : Message) (ins : List Message) (pp : PartitionProducer)
    → Ordered ins pp
    → Ordered (ins ++ (m ∷ [])) (dispatch w m pp)
unfolding dispatch
dispatch-Ordered w m ins pp g =
    dispatch_one-Ordered w m ins (abandon w.abandoned pp) (abandon-Ordered w.abandoned ins pp g)

dispatch_all-Ordered :
    (ms : List (Weather × Message)) (ins : List Message) (pp : PartitionProducer)
    → Ordered ins pp
    → Ordered (ins ++ map (λ (p : Weather × Message). p.1) ms) (dispatch_all ms pp)
unfolding dispatch_all
dispatch_all-Ordered [] ins pp g = subst (λ t. Ordered t pp) (sym (append-nil ins)) g
dispatch_all-Ordered ((w, m) ∷ more) ins pp g =
    subst (λ t. Ordered t (dispatch_all more (dispatch w m pp)))
      (append_assoc ins (m ∷ []) (map (λ (p : Weather × Message). p.1) more))
      (dispatch_all-Ordered more (ins ++ (m ∷ [])) (dispatch w m pp)
        (dispatch-Ordered w m ins pp g))

new-Ordered : (found : Bool) → Ordered [] (new_partition_producer found)
unfolding new_partition_producer left level
new-Ordered true = record { in_order = λ l. refl; held = λ l. tt; drained = λ l h. refl }
new-Ordered false = record { in_order = λ l. refl; held = λ l. tt; drained = λ l h. refl }

-- What a partition producer has sent or returned of a retry level, and then what it holds back of it,
-- is what came in of that level, in order, whatever it reads and whatever happens to its leaders; and
-- it holds nothing back of the watermark's level or a higher one.
pub dispatch_all-keeps_order :
    (found : Bool) (ms : List (Weather × Message))
    → Ordered
        (map (λ (p : Weather × Message). p.1) ms)
        (dispatch_all ms (new_partition_producer found))
dispatch_all-keeps_order found ms =
    dispatch_all-Ordered ms [] (new_partition_producer found) (new-Ordered found)
