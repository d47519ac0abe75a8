-- ===== src/Wire/Encode/Counted.antt =====
-- What the first pass counts of a whole packet.
use sarama.Base.{ℕ, ◌+◌, ◌-◌, ◌≡◌, refl, ap, subst, List, ◌∷◌, ◌++◌, length, length-append, arith}
use sarama.Base.Int.{pos}
use sarama.Wire.Bytes.{length-be}
use sarama.Wire.Checksum.{ieee, castagnoli, unknown, checksum, ieee_table, castagnoli_table}
use sarama.Wire.Encode.Packet.{
  PushField, length_field, varint_length_field, crc32_field, Put, Packet, end, put, framed, Outcome,
  ok, err,
}
use sarama.Wire.Encode.Prep.{
  PrepEncoder, prep, prep_put, prep_push, prep_pop, prep_pop_from, adjust, reserve_length,
  varint_size,
}
use sarama.Wire.Encode.Encoding.{encoding, put_bytes, field_bytes}
use sarama.Wire.Encode.Writes.{IsWritable}
use sarama.Wire.Encode.Sizes.{>>=-eq-ok, prep_put_lem}

abbrev pub IsKnown : PushField → Type 0
IsKnown (crc32_field unknown) = ⊥
IsKnown _ = Unit {0}

-- Every checksum is by one of the two polynomials.
abbrev pub AllKnown : Packet → Type 0
AllKnown end = Unit {0}
AllKnown (put p rest) = AllKnown rest
AllKnown (framed f body rest) = IsKnown f × AllKnown body × AllKnown rest

-- The field is ready to be written over `n` bytes.
abbrev pub Fitted : PushField → ℕ → Type 0
Fitted (varint_length_field z) n = z ≡ pos n
Fitted (crc32_field unknown) n = ⊥
Fitted _ n = Unit {0}

-- What the first pass leaves: no nil slice that is refused, and the varint lengths set.
abbrev pub Ready : Packet → Type 0
Ready end = Unit {0}
Ready (put p rest) = IsWritable p × Ready rest
Ready (framed f body rest) = Fitted f (length (encoding body)) × Ready body × Ready rest

pub record Counted (pe : PrepEncoder) (p : Packet) (pe' : PrepEncoder) (p' : Packet) : Type 0 where
  pub total : pe'.length ≡ pe.length + length (encoding p)
  pub stack_same : pe'.stack ≡ pe.stack
  pub bytes_same : encoding p' ≡ encoding p
  pub ready : Ready p'

-- The pop that ends a body of `n` bytes adds the bytes of the field to its length.
adjust_lem :
    (start n : ℕ) (f : PushField) (body : List ℕ)
    → IsKnown f
    → length body ≡ n
    → let (cur, f') = adjust start f (start + reserve_length f + n) in
      (cur ≡ start + length (field_bytes f body) + n)
      × Fitted f' n
      × (field_bytes f' body ≡ field_bytes f body)
unfolding adjust reserve_length field_bytes
adjust_lem start n length_field body k e = ground (arith, length-be 4 (length body))
adjust_lem start n (varint_length_field z) body k e =
    let exact : start + varint_size z + n - (start + varint_size z) ≡ n = omega arith in
    rw (exact, e) (omega arith, refl, refl)
adjust_lem start n (crc32_field ieee) body k e =
    ground (arith, length-be 4 (checksum ieee_table body))
adjust_lem start n (crc32_field castagnoli) body k e =
    ground (arith, length-be 4 (checksum castagnoli_table body))
adjust_lem start n (crc32_field unknown) body k e = absurd k

prep_pop_lem :
    (pe : PrepEncoder) (start : ℕ) (f : PushField) (fs : List (ℕ × PushField))
    → pe.stack ≡ (start, f) ∷ fs
    → prep_pop pe
      ≡ ok (
        record { length = (adjust start f pe.length).0; stack = fs },
        (adjust start f pe.length).1,
      )
unfolding prep_pop
prep_pop_lem pe start f fs e = rw (e, prep_pop_from)

module _ (pe : PrepEncoder) (f : PushField) (body body' : Packet) (pe₁ : PrepEncoder) where
  abbrev popped : PrepEncoder × PushField
  popped = (
    record { length = (adjust pe.length f pe₁.length).0; stack = pe.stack },
    (adjust pe.length f pe₁.length).1,
  )

  frame_popped : Counted (prep_push f pe) body pe₁ body' → prep_pop pe₁ ≡ ok popped
  unfolding prep_push
  frame_popped c = prep_pop_lem pe₁ pe.length f pe.stack c.stack_same

  frame_sized :
      Counted (prep_push f pe) body pe₁ body'
      → IsKnown f
      → (popped.0.length
          ≡ pe.length + length (field_bytes f (encoding body)) + length (encoding body))
        × Fitted popped.1 (length (encoding body))
        × (field_bytes popped.1 (encoding body) ≡ field_bytes f (encoding body))
  unfolding prep_push
  frame_sized c k =
      rw c.total (adjust_lem pe.length (length (encoding body)) f (encoding body) k refl)

unfoldable pub unwrap {ℓ} : {A : Type ℓ} → A → Outcome A → A
unwrap a (ok b) = b
unwrap a (err e) = a

pub ok-injective {ℓ} : {A : Type ℓ} (a b : A) → ◌≡◌ {A = Outcome A} (ok a) (ok b) → a ≡ b
unfolding unwrap
ok-injective a b e = ap (unwrap a) e

put-Counted :
    (p : Put) (rest rest' : Packet) (pe pe' : PrepEncoder) (n : ℕ)
    → prep_put p pe.length ≡ ok n
    → Counted (record pe { length = n }) rest pe' rest'
    → Counted pe (put p rest) pe' (put p rest')
unfolding encoding
put-Counted p rest rest' pe pe' n first c =
    let (sized, writable) = prep_put_lem p pe.length n first in
    record {
      total = omega (arith, c.total, length-append (put_bytes p) (encoding rest));
      stack_same = c.stack_same;
      bytes_same = ap (λ (t : List ℕ). put_bytes p ++ t) c.bytes_same;
      ready = (writable, c.ready);
    }

frame-Counted :
    (f : PushField) (body body' rest rest' : Packet) (pe pe₁ pe' : PrepEncoder)
    → IsKnown f
    → Counted (prep_push f pe) body pe₁ body'
    → Counted (popped pe f body body' pe₁).0 rest pe' rest'
    → Counted pe (framed f body rest) pe' (framed (popped pe f body body' pe₁).1 body' rest')
unfolding encoding
frame-Counted f body body' rest rest' pe pe₁ pe' k c d =
    let (sized, fits, same) = frame_sized pe f body body' pe₁ c k in
    record {
      total = omega (
        arith,
        d.total,
        sized,
        length-append (field_bytes f (encoding body)) (encoding body ++ encoding rest),
        length-append (encoding body) (encoding rest),
      );
      stack_same = d.stack_same;
      bytes_same = rw (c.bytes_same, d.bytes_same, same);
      ready = (rw c.bytes_same fits, c.ready, d.ready);
    }

pub prep-Counted :
    (p : Packet) (pe pe' : PrepEncoder) (p' : Packet)
    → AllKnown p
    → prep p pe ≡ ok (pe', p')
    → Counted pe p pe' p'
unfolding prep
prep-Counted end pe pe' p' k e = unfold encoding in ground arith
prep-Counted (put p rest) pe pe' p' k e =
    let (n, first, e₁) = >>=-eq-ok (prep_put p pe.length) _ e in
    let ((pe₂, rest'), second, e₂) = >>=-eq-ok (prep rest (record pe { length = n })) _ e₁ in
    subst (λ (x : PrepEncoder × Packet). Counted pe (put p rest) x.0 x.1) (ok-injective _ _ e₂)
      (put-Counted p rest rest' pe pe₂ n first (prep-Counted rest _ pe₂ rest' k second))
prep-Counted (framed f body rest) pe pe' p' (kf, kb, kr) e =
    let ((pe₁, body'), first, e₁) = >>=-eq-ok (prep body (prep_push f pe)) _ e in
    let c : Counted (prep_push f pe) body pe₁ body' = prep-Counted body _ pe₁ body' kb first in
    let ((pe₃, rest'), second, e₂) =
      >>=-eq-ok (prep rest (popped pe f body body' pe₁).0) _
        (rw (frame_popped pe f body body' pe₁ c) at e₁) in
    subst (λ (x : PrepEncoder × Packet). Counted pe (framed f body rest) x.0 x.1)
      (ok-injective _ _ e₂)
      (frame-Counted f body body' rest rest' pe pe₁ pe₃ kf c
        (prep-Counted rest _ pe₃ rest' kr second))
