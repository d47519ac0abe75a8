-- ===== src/Balance/Range.antt =====
-- The range strategy of balance_strategy.go, for one topic: the core function, given the members
-- sorted and without duplicates. A share that is empty is in the list too (the plan leaves it out).
use sarama.Base.{
  ℕ, ◌+◌, ◌-◌, ◌*◌, ◌/◌, ◌%◌, ◌<◌, ◌≤◌, ◌≡◌, sym, ap, ◌∙◌, List, [], ◌∷◌, ◌++◌, length, take, drop,
  ltb, if◌then◌else◌, arith, take-append-drop, drop_all, append_assoc, append-nil, drop-drop,
}
use native.Mathlib.Nat.{mod-lt, div-add-mod, add-mul}

-- `math.Min` of two small numbers, which float64 holds exactly.
abbrev pub min : ℕ → ℕ → ℕ
min a b = if ltb a b then a else b

-- Where the share of the `i`th member starts and ends, for `q` partitions each and `r` left over.
unfoldable pub share_min : ℕ → ℕ → ℕ → ℕ
share_min q r i = i * q + min r i

unfoldable pub share_max : ℕ → ℕ → ℕ → ℕ
unfolding share_min
share_max q r i = share_min q r i + q + (if ltb i r then 1 else 0)

-- `partitions[min:max]`
abbrev pub cut {ℓ} : {A : Type ℓ} → ℕ → ℕ → List A → List A
cut lo hi xs = take (hi - lo) (drop lo xs)

-- The loop over the sorted members, from the `i`th on.
unfoldable pub shares {ℓ κ} :
    {M : Type ℓ} {A : Type κ} → ℕ → ℕ → ℕ → List M → List A → List (M × List A)
unfolding share_min share_max
shares q r i [] ps = []
shares q r i (m ∷ ms) ps =
    (m, cut (share_min q r i) (share_max q r i) ps) ∷ shares q r (i + 1) ms ps

unfoldable pub range_plan {ℓ κ} : {M : Type ℓ} {A : Type κ} → List M → List A → List (M × List A)
unfolding shares
range_plan ms ps = shares (length ps / length ms) (length ps % length ms) 0 ms ps

-- All that is assigned, member by member.
abbrev pub assigned {ℓ κ} : {M : Type ℓ} {A : Type κ} → List (M × List A) → List A
assigned [] = []
assigned ((m, ps) ∷ more) = ps ++ assigned more

distrib : (i q : ℕ) → (i + 1) * q ≡ i * q + q
distrib i q = omega (arith, add-mul i 1 q)

share_max-share_min : (q r i : ℕ) → share_max q r i ≡ share_min q r (i + 1)
unfolding share_max share_min
share_max-share_min q r i = ground (arith, distrib i q)

share_min-le : (q r i : ℕ) → share_min q r i ≤ share_max q r i
unfolding share_max share_min
share_min-le q r i = ground arith

module _ {ℓ} {A : Type ℓ} where
  cut-drop : (lo hi : ℕ) (xs : List A) → lo ≤ hi → cut lo hi xs ++ drop hi xs ≡ drop lo xs
  cut-drop lo hi xs h =
      ap (λ t. cut lo hi xs ++ t) (sym (drop-drop lo (hi - lo) hi xs (omega arith)))
      ∙ take-append-drop (hi - lo) (drop lo xs)

  -- The shares of the members from the `i`th on, with what is behind them, are what is from there on.
  assigned-shares :
      {M : Type 0} (q r i : ℕ) (ms : List M) (ps : List A)
      → assigned (shares q r i ms ps) ++ drop (share_min q r (i + length ms)) ps
        ≡ drop (share_min q r i) ps
  unfolding shares
  assigned-shares q r i [] ps = ap (λ j. drop (share_min q r j) ps) (omega arith)
  assigned-shares q r i (m ∷ ms) ps =
      let first = cut (share_min q r i) (share_max q r i) ps in
      let others = assigned (shares q r (i + 1) ms ps) in
      append_assoc first others _
      ∙ ap (λ t. first ++ t)
          (ap (λ j. others ++ drop (share_min q r j) ps) (omega arith)
            ∙ assigned-shares q r (i + 1) ms ps
            ∙ ap (λ j. drop j ps) (sym (share_max-share_min q r i)))
      ∙ cut-drop (share_min q r i) (share_max q r i) ps (share_min-le q r i)

share_min-all : (p n : ℕ) → 0 < n → share_min (p / n) (p % n) n ≡ p
unfolding share_min
share_min-all p n h = ground (arith, mod-lt p h, div-add-mod p n)

share_min-first : (q r : ℕ) → share_min q r 0 ≡ 0
unfolding share_min
share_min-first q r = ground arith

-- Where there is a member, the shares of the members, one behind the other, are the partitions: none
-- is left out, and none is given twice.
pub assigned-range_plan :
    {M : Type 0} {A : Type 0} (ms : List M) (ps : List A)
    → 0 < length ms
    → assigned (range_plan ms ps) ≡ ps
unfolding range_plan
assigned-range_plan ms ps h =
    let q = length ps / length ms in
    let r = length ps % length ms in
    sym (append-nil _)
    ∙ ap (λ t. assigned (range_plan ms ps) ++ t)
        (sym (
          drop_all (share_min q r (0 + length ms)) ps
            (ap (share_min q r) (omega arith) ∙ share_min-all (length ps) (length ms) h)))
    ∙ assigned-shares q r 0 ms ps
    ∙ ap (λ j. drop j ps) (share_min-first q r)
