-- ===== src/Wire/Encode/Agree.antt =====
-- The two passes agree: the second fills the slice that the first has sized, with the wire format.
use sarama.Base.{
  drop-drop, ℕ, ◌+◌, ◌-◌, ◌%◌, ◌^◌, ◌≤◌, ◌≡◌, refl, sym, ◌∙◌, subst, List, [], ◌∷◌, ◌++◌, length,
  take, drop, replicate, length-append, length-take, length-drop, length-replicate, take-append,
  take-append-drop, append_assoc, append-nil, drop_all, ltb, le→ltb, arith, if◌then◌else◌, ◌⊎◌, inl,
  inr,
}
use sarama.Wire.Bytes.{be, length-be}
use sarama.Wire.Checksum.{ieee, castagnoli, unknown, checksum}
use sarama.Wire.Encode.Packet.{
  PushField, length_field, varint_length_field, crc32_field, Packet, end, put, framed, Outcome,
  EncodingError, ok, err, ◌>>=◌, invalid_request_size,
}
use sarama.Wire.Encode.Prep.{PrepEncoder, prep, reserve_length}
use sarama.Wire.Encode.Real.{RealEncoder, Step, ◌>=>◌, real_put}
use sarama.Wire.Encode.Passes.{
  real, real_push, real_pop, real_pop_from, run_field, crc_patch, encode,
}
use sarama.Wire.Encode.Encoding.{encoding, put_bytes, field_bytes}
use sarama.Wire.Encode.Writes.{
  Writes, at, real_put-Writes, then-Writes, nothing-Writes, patch_lem, drop-append_add,
  same_encoder,
}
use sarama.Wire.Encode.Counted.{AllKnown, Fitted, Ready, Counted, prep-Counted}

be4-mod : (n : ℕ) → be 4 (n % 2 ^ 32) ≡ be 4 n
unfolding be
be4-mod n = ground arith

word_sub_lem : (s n : ℕ) → (s + 4 + n + 2 ^ 32 - (s + 4) % 2 ^ 32) % 2 ^ 32 ≡ n % 2 ^ 32
word_sub_lem s n = omega arith

module _ (before old body rest : List ℕ) where
  abbrev framed_raw : List ℕ
  framed_raw = before ++ (old ++ (body ++ rest))

  abbrev framed_end : ℕ
  framed_end = length before + length old + length body

  -- The bytes that a checksum is over are the body.
  crc_patch_lem :
      (table : ℕ)
      → length old ≡ 4
      → crc_patch table (length before) framed_end framed_raw
        ≡ ok (before ++ (be 4 (checksum table body) ++ (body ++ rest)))
  unfolding crc_patch
  crc_patch_lem table l =
      let bytes : take (framed_end - (length before + 4)) (drop (length before + 4) framed_raw)
          ≡ body =
        rw (
          drop-append_add (length before + 4) 4 before (old ++ (body ++ rest)) refl,
          drop-append_add 4 0 old (body ++ rest) (omega arith),
          take-append (framed_end - (length before + 4)) body rest (omega arith),
        ) in
      rw (le→ltb framed_end (length before + 4) (omega arith), bytes)
        (patch_lem before old _ (body ++ rest) (length before) refl (l ∙ sym (length-be 4 _)))

  -- Running a field that is fitted to the body puts its bytes over the reserved ones.
  run_field_lem :
      (f : PushField)
      → Fitted f (length body)
      → length old ≡ reserve_length f
      → run_field (length before) f framed_end framed_raw
        ≡ ok (before ++ (field_bytes f body ++ (body ++ rest)))
  unfolding run_field field_bytes reserve_length
  run_field_lem length_field fit l =
      rw (l, word_sub_lem (length before) (length body), be4-mod)
        (patch_lem before old _ (body ++ rest) (length before) refl (l ∙ sym (length-be 4 _)))
  run_field_lem (varint_length_field z) fit l =
      rw fit (patch_lem before old _ (body ++ rest) (length before) refl (rw fit at l))
  run_field_lem (crc32_field ieee) fit l = crc_patch_lem _ l
  run_field_lem (crc32_field castagnoli) fit l = crc_patch_lem _ l
  run_field_lem (crc32_field unknown) fit l = absurd fit

length-field_bytes :
    (f : PushField) (body : List ℕ)
    → Fitted f (length body)
    → length (field_bytes f body) ≡ reserve_length f
unfolding field_bytes reserve_length
length-field_bytes length_field body h = length-be 4 _
length-field_bytes (varint_length_field z) body h = rw h
length-field_bytes (crc32_field ieee) body h = length-be 4 _
length-field_bytes (crc32_field castagnoli) body h = length-be 4 _
length-field_bytes (crc32_field unknown) body h = absurd h

real_push_lem :
    (f : PushField) (before rest : List ℕ) (st : List (ℕ × PushField))
    → reserve_length f ≤ length rest
    → real_push f (at before rest st)
      ≡ at
          (before ++ take (reserve_length f) rest)
          (drop (reserve_length f) rest)
          ((length before, f) ∷ st)
unfolding real_push
real_push_lem f before rest st h =
    let r = reserve_length f in
    let raw : before ++ rest ≡ (before ++ take r rest) ++ drop r rest =
      rw (append_assoc before (take r rest) (drop r rest), take-append-drop r rest) in
    let off : length before + r ≡ length (before ++ take r rest) =
      omega (arith, length-append before (take r rest), length-take r rest) in
    cc (raw, off)

module _ (before old body rest : List ℕ) (st : List (ℕ × PushField)) where
  -- A pop when `body` follows the reserved bytes `old`.
  real_pop_lem :
      (f : PushField)
      → Fitted f (length body)
      → length old ≡ reserve_length f
      → real_pop (at ((before ++ old) ++ body) rest ((length before, f) ∷ st))
        ≡ ok (at (before ++ (field_bytes f body ++ body)) rest st)
  unfolding real_pop real_pop_from
  real_pop_lem f fit l =
      let bytes = field_bytes f body in
      let raw : ((before ++ old) ++ body) ++ rest ≡ before ++ (old ++ (body ++ rest)) =
        simp append_assoc in
      let off : length ((before ++ old) ++ body) ≡ length before + length old + length body =
        omega (arith, length-append (before ++ old) body, length-append before old) in
      let out : before ++ (bytes ++ (body ++ rest)) ≡ (before ++ (bytes ++ body)) ++ rest =
        simp append_assoc in
      rw (raw, off, run_field_lem before old body rest f fit l)
        (same_encoder _ _ _ _ st out (
          omega (
            arith,
            length-append before (bytes ++ body),
            length-append bytes body,
            length-field_bytes f body fit,
          )))

-- A push, the body and the pop together.
frame : PushField → Packet → Step
frame f body e = real body (real_push f e) >>= real_pop

frame-Writes :
    (f : PushField) (body : Packet)
    → Fitted f (length (encoding body))
    → Writes (real body) (encoding body)
    → Writes (frame f body) (field_bytes f (encoding body) ++ encoding body)
unfolding frame
frame-Writes f body fit w before rest st h =
    let bytes = encoding body in
    let r = reserve_length f in
    let sizes = length-append (field_bytes f bytes) bytes in
    let size = length-field_bytes f bytes fit in
    rw
      (
        real_push_lem f before rest st (omega (arith, sizes, size)),
        w (before ++ take r rest) (drop r rest) ((length before, f) ∷ st)
            (omega (arith, sizes, size, length-drop r rest)),
        drop-drop r (length bytes) (length (field_bytes f bytes ++ bytes)) rest
            (omega (arith, sizes, size)),
      )
      (real_pop_lem before (take r rest) bytes _ st f fit
        (omega (arith, sizes, size, length-take r rest)))

>>=-assoc : (o : Outcome RealEncoder) (m k : Step) → ((o >>= m) >>= k) ≡ (o >>= λ e. m e >>= k)
>>=-assoc (ok e) m k = refl
>>=-assoc (err e) m k = refl

-- The second pass writes the wire format of a packet that the first pass has made ready.
real-Writes : (p : Packet) → Ready p → Writes (real p) (encoding p)
unfolding real encoding frame
real-Writes end h = nothing-Writes
real-Writes (put p rest) (hp, hr) =
    then-Writes (real_put p) (real rest) (put_bytes p) (encoding rest) (real_put-Writes p hp)
      (real-Writes rest hr)
real-Writes (framed f body rest) (hf, hb, hr) =
    let head = field_bytes f (encoding body) in
    let joined : Writes (frame f body >=> real rest) (head ++ (encoding body ++ encoding rest)) =
      subst (Writes (frame f body >=> real rest))
        (append_assoc head (encoding body) (encoding rest))
        (then-Writes (frame f body) (real rest) (head ++ encoding body) (encoding rest)
          (frame-Writes f body hf (real-Writes body hb)) (real-Writes rest hr)) in
    λ before bytes st h.
      sym (>>=-assoc (real body (real_push f (at before bytes st))) real_pop (real rest))
      ∙ joined before bytes st h

Outcome-cases {ℓ} :
    {A : Type ℓ} (o : Outcome A) → ((a : A) × (o ≡ ok a)) ⊎ ((e : EncodingError) × (o ≡ err e))
Outcome-cases (ok a) = inl (a, refl)
Outcome-cases (err e) = inr (e, refl)

-- Nothing has been counted.
abbrev pub fresh : PrepEncoder
fresh = record { length = 0; stack = [] }

fill :
    (p p' : Packet) (pe : PrepEncoder)
    → Counted fresh p pe p'
    → real p' (at [] (replicate pe.length 0) []) ≡ ok (at (encoding p) [] [])
fill p p' pe c =
    let zeros = replicate pe.length 0 in
    let room : length zeros ≡ length (encoding p') =
      rw c.bytes_same (omega (arith, length-replicate {A = ℕ} pe.length 0, c.total)) in
    let all : drop (length (encoding p')) zeros ≡ [] = drop_all _ zeros (sym room) in
    real-Writes p' c.ready [] zeros [] (omega (arith, room)) ∙ rw (all, c.bytes_same)

-- The two passes together are the wire format. Where every checksum is by a known polynomial, encode
-- gives exactly the bytes of the format; it refuses only what the first pass refuses (with the same
-- error) and a packet of more than `max` bytes, and the second pass neither fails nor panics.
pub encode-encoding :
    (max : ℕ) (p : Packet)
    → AllKnown p
    → encode max p ≡ (
        prep p fresh >>= λ _.
        (if ltb max (length (encoding p)) then err invalid_request_size else ok (encoding p)))
unfolding encode
encode-encoding max p k = elim (Outcome-cases (prep p fresh)) [
  | inl ((pe, p'), e) ↦
      let c : Counted fresh p pe p' = prep-Counted p fresh pe p' k e in
      let size : pe.length ≡ length (encoding p) = omega (arith, c.total) in
      rw (e, fill p p' pe c) (rw size (rw append-nil))
  | inr (x, e) ↦ rw e
]
