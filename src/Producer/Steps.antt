-- ===== src/Producer/Steps.antt =====
-- Every step of a partition producer keeps the order.
use sarama.Base.{
  ℕ, ◌≤◌, ◌≡◌, refl, sym, ap, subst, ◌∙◌, inl, inr, Bool, true, false, List, [], ◌∷◌, ◌++◌, map,
  append-nil, All, Bool-cases, if_both, ◌==◌, ==_iff, arith,
}
use sarama.Producer.Partition.{
  Message, RetryState, Out, syn, chaser, sent, returned, PartitionProducer, set_level, emit,
  chaser_seen,
}
use sarama.Producer.Order.{
  of_level, level, left, level-append, left-append, left-sent, left-returned, Held, Ordered,
}

-- A change that neither sends nor buffers, and does not lower the watermark.
pub Ordered-same :
    (ins : List Message) (pp pp' : PartitionProducer)
    → ((l : ℕ) → left l pp'.out ≡ left l pp.out)
    → ((l : ℕ) → (pp'.retry_state l).buf ≡ (pp.retry_state l).buf)
    → pp.high_watermark ≤ pp'.high_watermark
    → Ordered ins pp
    → Ordered ins pp'
Ordered-same ins pp pp' o b w g = record {
  in_order = λ l. rw (o l, b l) (g.in_order l);
  held = λ l. subst (All (Held l)) (sym (b l)) (g.held l);
  drained = λ l h. b l ∙ g.drained l (omega arith);
}

pub level-snoc :
    (l : ℕ) (ins : List Message) (m : Message)
    → level l (ins ++ (m ∷ [])) ≡ level l ins ++ of_level l m
unfolding level
level-snoc l ins m =
    level-append l ins (m ∷ []) ∙ ap (λ t. level l ins ++ t) (append-nil (of_level l m))

pub of_other : (l : ℕ) (m : Message) → (m.retries == l) ≡ false → of_level l m ≡ []
of_other l m h = ground arith

of_fin : (l : ℕ) (m : Message) → m.fin ≡ true → of_level l m ≡ []
of_fin l m h = ground arith

-- Nothing is buffered at the level of a message that leaves.
leaves-order :
    (ins : List Message) (m : Message) (pp : PartitionProducer) (l : ℕ)
    → pp.high_watermark ≤ m.retries
    → Ordered ins pp
    → (left l pp.out ++ of_level l m) ++ (pp.retry_state l).buf ≡ level l ins ++ of_level l m
leaves-order ins m pp l up g = elim (Bool-cases (m.retries == l)) [
  | inl e ↦
      let up' : pp.high_watermark ≤ l =
        subst (λ j. pp.high_watermark ≤ j) ((==_iff m.retries l).0 e) up in
      ap (λ t. (left l pp.out ++ of_level l m) ++ t) (g.drained l up')
      ∙ append-nil (left l pp.out ++ of_level l m)
      ∙ ap (λ t. t ++ of_level l m)
          (sym (append-nil (left l pp.out))
            ∙ ap (λ t. left l pp.out ++ t) (sym (g.drained l up'))
            ∙ g.in_order l)
  | inr e ↦
      ap (λ t. (left l pp.out ++ t) ++ (pp.retry_state l).buf) (of_other l m e)
      ∙ ap (λ t. t ++ (pp.retry_state l).buf) (append-nil (left l pp.out))
      ∙ g.in_order l
      ∙ sym (append-nil (level l ins))
      ∙ ap (λ t. level l ins ++ t) (sym (of_other l m e))
]

-- A message that leaves at the watermark or above it.
pub leaves-Ordered :
    (ins : List Message) (m : Message) (pp pp' : PartitionProducer)
    → pp.high_watermark ≤ m.retries
    → ((l : ℕ) → left l pp'.out ≡ left l pp.out ++ of_level l m)
    → ((l : ℕ) → (pp'.retry_state l).buf ≡ (pp.retry_state l).buf)
    → pp.high_watermark ≤ pp'.high_watermark
    → Ordered ins pp
    → Ordered (ins ++ (m ∷ [])) pp'
leaves-Ordered ins m pp pp' up o b w g = record {
  in_order = λ l. rw (o l, b l, level-snoc l ins m) (leaves-order ins m pp l up g);
  held = λ l. subst (All (Held l)) (sym (b l)) (g.held l);
  drained = λ l h. b l ∙ g.drained l (omega arith);
}

pub fin-Ordered :
    (ins : List Message) (m : Message) (pp : PartitionProducer)
    → m.fin ≡ true
    → Ordered ins pp
    → Ordered (ins ++ (m ∷ [])) pp
fin-Ordered ins m pp f g = record {
  in_order = λ l.
      g.in_order l
      ∙ sym (append-nil (level l ins))
      ∙ ap (λ t. level l ins ++ t) (sym (of_fin l m f))
      ∙ sym (level-snoc l ins m);
  held = g.held;
  drained = g.drained;
}

pub same_buf :
    (k l : ℕ) (c : Bool) (f : ℕ → RetryState)
    → (set_level k (record { buf = (f k).buf; expect_chaser = c }) f l).buf ≡ (f l).buf
same_buf k l c f = elim (Bool-cases (l == k)) [
  | inl e ↦ rw e (ap (λ j. (f j).buf) (sym ((==_iff l k).0 e)))
  | inr e ↦ rw e
]

pub chaser_seen-Ordered :
    (ins : List Message) (k : ℕ) (pp : PartitionProducer)
    → Ordered ins pp
    → Ordered ins (chaser_seen k pp)
chaser_seen-Ordered ins k pp =
    Ordered-same ins pp (chaser_seen k pp) (λ l. refl) (λ l. same_buf k l false pp.retry_state)
      (omega arith)

pub left-quiet :
    (l : ℕ) (o : List Out) (x : Out) → left l (x ∷ []) ≡ [] → left l (o ++ (x ∷ [])) ≡ left l o
left-quiet l o x h = left-append l o (x ∷ []) ∙ ap (λ t. left l o ++ t) h ∙ append-nil (left l o)

pub left-syn : (l : ℕ) → left l (syn ∷ []) ≡ []
unfolding left
left-syn l = refl

pub left-chaser : (l h : ℕ) → left l (chaser h ∷ []) ≡ []
unfolding left
left-chaser l h = refl

pub left-emit :
    (found : Bool) (ms : List Message) (pp : PartitionProducer) (l : ℕ)
    → left l (emit found ms pp).out ≡ left l pp.out ++ level l ms
unfolding emit
left-emit found ms pp l =
    if_both (λ (q : PartitionProducer). left l q.out ≡ left l pp.out ++ level l ms) pp.has_broker _
      _ (left-append l pp.out (map sent ms) ∙ ap (λ t. left l pp.out ++ t) (left-sent l ms))
      (if_both (λ (q : PartitionProducer). left l q.out ≡ left l pp.out ++ level l ms) found _ _
        (left-append l (pp.out ++ (syn ∷ [])) (map sent ms)
          ∙ ap (λ t. left l (pp.out ++ (syn ∷ [])) ++ t) (left-sent l ms)
          ∙ ap (λ t. t ++ level l ms) (left-quiet l pp.out syn (left-syn l)))
        (left-append l pp.out (map returned ms)
          ∙ ap (λ t. left l pp.out ++ t) (left-returned l ms)))
