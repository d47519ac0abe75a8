-- ===== src/Producer/Order.antt =====
-- Messages of one retry level leave in the order in which they come, and none is lost.
use sarama.Base.{
  ℕ, ◌≤◌, ◌≡◌, refl, sym, ap, ◌∙◌, false, not, ◌&&◌, List, [], ◌∷◌, ◌++◌, map, append_assoc, All,
  ◌==◌, if◌then◌else◌, arith,
}
use sarama.Producer.Partition.{Message, Out, syn, chaser, sent, returned, PartitionProducer}

-- The messages of level `l` (the chasers left aside).
abbrev pub of_level : ℕ → Message → List Message
of_level l m = if not m.fin && m.retries == l then m ∷ [] else []

unfoldable pub level : ℕ → List Message → List Message
level l [] = []
level l (m ∷ ms) = of_level l m ++ level l ms

-- Those that have left, sent or returned.
unfoldable pub left : ℕ → List Out → List Message
left l [] = []
left l (sent m ∷ o) = of_level l m ++ left l o
left l (returned m ∷ o) = of_level l m ++ left l o
left l (syn ∷ o) = left l o
left l (chaser h ∷ o) = left l o

pub level-append : (l : ℕ) (xs ys : List Message) → level l (xs ++ ys) ≡ level l xs ++ level l ys
unfolding level
level-append l [] ys = refl
level-append l (m ∷ xs) ys =
    ap (λ t. of_level l m ++ t) (level-append l xs ys)
    ∙ sym (append_assoc (of_level l m) (level l xs) (level l ys))

pub left-append : (l : ℕ) (o p : List Out) → left l (o ++ p) ≡ left l o ++ left l p
unfolding left
left-append l [] p = refl
left-append l (sent m ∷ o) p =
    ap (λ t. of_level l m ++ t) (left-append l o p)
    ∙ sym (append_assoc (of_level l m) (left l o) (left l p))
left-append l (returned m ∷ o) p =
    ap (λ t. of_level l m ++ t) (left-append l o p)
    ∙ sym (append_assoc (of_level l m) (left l o) (left l p))
left-append l (syn ∷ o) p = left-append l o p
left-append l (chaser h ∷ o) p = left-append l o p

pub left-sent : (l : ℕ) (ms : List Message) → left l (map sent ms) ≡ level l ms
unfolding left level
left-sent l [] = refl
left-sent l (m ∷ ms) = ap (λ t. of_level l m ++ t) (left-sent l ms)

pub left-returned : (l : ℕ) (ms : List Message) → left l (map returned ms) ≡ level l ms
unfolding left level
left-returned l [] = refl
left-returned l (m ∷ ms) = ap (λ t. of_level l m ++ t) (left-returned l ms)

-- What is buffered at a level is of that level.
abbrev pub Held : ℕ → Message → Type 0
Held h m = (m.retries ≡ h) × (m.fin ≡ false)

pub level-Held : (l : ℕ) (ms : List Message) → All (Held l) ms → level l ms ≡ ms
unfolding level
level-Held l [] h = refl
level-Held l (m ∷ ms) h = ground (arith, level-Held l ms h.1)

pub other_level-Held :
    (l k : ℕ) (ms : List Message) → All (Held k) ms → (l == k) ≡ false → level l ms ≡ []
unfolding level
other_level-Held l k [] h e = refl
other_level-Held l k (m ∷ ms) h e = ground (arith, other_level-Held l k ms h.1 e)

-- With the messages `ins` come in: what has left of each level, then what is buffered of it, is what
-- came in of it; and nothing is buffered at the watermark or above.
pub record Ordered (ins : List Message) (pp : PartitionProducer) : Type 0 where
  pub in_order : (l : ℕ) → left l pp.out ++ (pp.retry_state l).buf ≡ level l ins
  pub held : (l : ℕ) → All (Held l) (pp.retry_state l).buf
  pub drained : (l : ℕ) → pp.high_watermark ≤ l → (pp.retry_state l).buf ≡ []
