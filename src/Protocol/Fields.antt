-- ===== src/Protocol/Fields.antt =====
-- What the encode and decode methods of requests and responses have in common.
use sarama.Base.{ℕ, zero, suc, Bool, not, List, [], ◌∷◌, length, ◌==◌, if◌then◌else◌}
use sarama.Base.Int.{ℤ, pos, negsuc, ltb_ℤ}
use sarama.Wire.Decode.Monad.{
  Decoder, Result, ok, err, panic, invalid_length, M, ◌>>=◌, pure, crash,
}
use sarama.Wire.Decode.Primitives.{get_array_length}
use sarama.Wire.Encode.Packet.{Put, Packet, end, put}

-- `version >= n`
abbrev pub since : ℕ → ℤ → Bool
since n v = not (ltb_ℤ v (pos n))

-- A field of the versions for which `b` holds: `if b { pe.put... }`.
abbrev pub put_if : Bool → Put → Packet → Packet
put_if b p rest = if b then put p rest else rest

-- `if b { field, err = pd.get... }`, where the field is left as it is otherwise.
abbrev pub get_if : {A : Type 0} → Bool → M A → A → M A
get_if b m default = if b then m else pure default

module _ {A : Type 0} where
  -- A loop over the elements of a slice at the end of a message.
  unfoldable pub put_elements : (A → Packet → Packet) → List A → Packet
  put_elements f [] = end
  put_elements f (x ∷ xs) = f x (put_elements f xs)

  unfoldable pub get_each : ℕ → M A → M (List A)
  get_each zero m = pure []
  get_each (suc n) m = do x ← m; xs ← get_each n m; pure (x ∷ xs)

  -- `pe.putArrayLength(len(xs))` and the loop.
  abbrev pub put_all : (A → Packet → Packet) → List A → Packet
  put_all f xs = put (Put.array_length (pos (length xs))) (put_elements f xs)

  -- `make([]T, n)`, which panics for a negative length, and the loop.
  unfoldable pub make_each : M A → ℤ → M (List A)
  unfolding get_each
  make_each m (negsuc n) = crash
  make_each m (pos n) = get_each n m

  unfoldable pub get_made : M A → M (List A)
  unfolding make_each
  get_made m = get_array_length >>= make_each m

  -- With nothing done for a length of 0 or less.
  unfoldable pub positive_each : M A → ℤ → M (List A)
  unfolding get_each
  positive_each m (negsuc n) = pure []
  positive_each m (pos n) = get_each n m

  unfoldable pub get_positive : M A → M (List A)
  unfolding positive_each
  get_positive m = get_array_length >>= positive_each m

-- versionedDecode of encoder_decoder.go, of a buffer that is not nil: the bytes must all be used up.
abbrev pub used_up : {A : Type 0} → ℕ → Decoder × Result A → Result A
used_up n (d, ok a) = if d.off == n then ok a else err invalid_length
used_up n (d, err e) = err e
used_up n (d, panic) = panic

unfoldable pub versioned_decode : {A : Type 0} → M A → List ℕ → Result A
versioned_decode m bs = used_up (length bs) (m (record { raw = bs; off = 0; stack = [] }))
