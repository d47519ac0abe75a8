-- ===== src/Record/RoundTrip.antt =====
-- A record is read back as it was written.
use sarama.Base.{
  ℕ, ◌+◌, ◌^◌, ◌<◌, ◌≡◌, refl, sym, ap, subst, List, [], ◌∷◌, ◌++◌, Option, none, some, length,
  length-append, append_assoc, append-nil, All, arith, true,
}
use sarama.Base.Int.{ℤ, pos, Fits, signed, eqb_ℤ}
use sarama.Wire.Varint.{put_uvarint, zigzag}
use sarama.Wire.Decode.Monad.{
  M, ◌>>=◌, ◌>>◌, pure, ok, Frame, varint_length_field, Result, length_field_invalid,
}
use sarama.Wire.Decode.Primitives.{get_int8, get_varint}
use sarama.Wire.Decode.Collections.{get_varint_bytes}
use sarama.Wire.Decode.Fields.{varint_length_of, push, pop, pop_frame, check, agrees, word_sub}
use sarama.Wire.Encode.Packet.{Put}
use sarama.Wire.Encode.Encoding.{put_bytes, encoding, field_bytes}
use sarama.Wire.RoundTrip.Reads.{here, Reads, varint-Reads, pure-Reads, bind-Reads, map-Reads}
use sarama.Wire.RoundTrip.Puts.{int8-Reads, varint_bytes-Reads, null_varint_bytes-Reads}
use sarama.Record.Data.{RecordHeader, Record, to_millis, of_millis, header_list}
use sarama.Record.Format.{
  headers_packet, body_packet, record_packet, decode_header, decode_headers, headers_of,
  decode_body, decode_record,
}

word_sub_lem : (s size n : ℕ) → n < 2 ^ 63 → word_sub (2 ^ 64) (s + size + n) (s + size) ≡ n
word_sub_lem s size n h = omega arith

length_agrees : (n : ℕ) → n < 2 ^ 63 → eqb_ℤ (signed (2 ^ 63) n) (pos n) ≡ true
length_agrees n h = ground arith

agrees-length :
    (size start n cur : ℕ)
    → n < 2 ^ 63
    → cur ≡ start + size + n
    → agrees
        (eqb_ℤ (signed (2 ^ 63) (word_sub (2 ^ 64) cur (start + size))) (pos n))
        length_field_invalid
      ≡ ok tt
unfolding agrees
agrees-length size start n cur h e = rw (e, word_sub_lem start size n h, length_agrees n h) refl

check-varint_length :
    (start n cur : ℕ) (raw : List ℕ)
    → n < 2 ^ 63
    → cur ≡ start + length (put_uvarint (zigzag (pos n))) + n
    → check (varint_length_field start (pos n)) cur raw ≡ ok tt
unfolding check put_uvarint
check-varint_length start n cur raw h e =
    agrees-length (length (put_uvarint (zigzag (pos n)))) start n cur h e

pop-varint_length :
    (before head bs rest : List ℕ) (st : List Frame)
    → length bs < 2 ^ 63
    → head ≡ put_uvarint (zigzag (pos (length bs)))
    → pop (
        here
          ((before ++ head) ++ bs)
          rest
          (varint_length_field (length before) (pos (length bs)) ∷ st))
      ≡ (here ((before ++ head) ++ bs) rest st, ok tt)
unfolding pop_frame pop
pop-varint_length before head bs rest st h e =
    ap (λ (r : Result (Unit {0})). (here ((before ++ head) ++ bs) rest st, r))
      (check-varint_length (length before) (length bs) (length ((before ++ head) ++ bs))
        (((before ++ head) ++ bs) ++ rest) h
        (omega (arith, length-append (before ++ head) bs, length-append before head, ap length e)))

-- What stands under a varint length is read back with the length checked.
pub framed-Reads :
    {A : Type 0} (m : M A) (bs : List ℕ) (v : A)
    → length bs < 2 ^ 63
    → Reads m bs v
    → Reads
        (push varint_length_of >> (m >>= λ a. pop >> pure a))
        (put_uvarint (zigzag (pos (length bs))) ++ bs)
        v
unfolding push
framed-Reads m bs v h r before rest st =
    let head = put_uvarint (zigzag (pos (length bs))) in
    rw
      (
        append_assoc head bs rest,
        varint-Reads (pos (length bs)) h before (bs ++ rest) st,
        r (before ++ head) rest (varint_length_field (length before) (pos (length bs)) ∷ st),
        pop-varint_length before head bs rest st h refl,
      )
      (rw (append_assoc before head bs))

-- A byte slice whose length the format can say.
abbrev pub IsSayableBytes : Option (List ℕ) → Type 0
IsSayableBytes none = Unit {0}
IsSayableBytes (some bs) = length bs < 2 ^ 63

bytes-Reads :
    (bs : Option (List ℕ))
    → IsSayableBytes bs
    → Reads get_varint_bytes (put_bytes (Put.varint_bytes bs)) bs
unfolding put_bytes
bytes-Reads none h = null_varint_bytes-Reads
bytes-Reads (some bs) h = varint_bytes-Reads bs h

abbrev pub IsSayableHeader : RecordHeader → Type 0
IsSayableHeader h = IsSayableBytes h.key × IsSayableBytes h.value

header-Reads :
    (h : RecordHeader)
    → IsSayableHeader h
    → Reads decode_header
        (put_bytes (Put.varint_bytes h.key) ++ put_bytes (Put.varint_bytes h.value))
        h
unfolding decode_header
header-Reads h s =
    bind-Reads get_varint_bytes _ (put_bytes (Put.varint_bytes h.key))
      (put_bytes (Put.varint_bytes h.value)) h.key h (bytes-Reads h.key s.0)
      (map-Reads get_varint_bytes (λ v. record { key = h.key; value = v })
        (put_bytes (Put.varint_bytes h.value)) h.value (bytes-Reads h.value s.1))

headers-Reads :
    (hs : List RecordHeader)
    → All IsSayableHeader hs
    → Reads (decode_headers (length hs)) (encoding (headers_packet hs)) hs
unfolding decode_headers encoding headers_packet
headers-Reads [] s = pure-Reads []
headers-Reads (h ∷ hs) s =
    let a = put_bytes (Put.varint_bytes h.key) in
    let b = put_bytes (Put.varint_bytes h.value) in
    let c = encoding (headers_packet hs) in
    subst (λ bs. Reads (decode_headers (length (h ∷ hs))) bs (h ∷ hs)) (append_assoc a b c)
      (bind-Reads decode_header _ (a ++ b) c h (h ∷ hs) (header-Reads h s.0)
        (map-Reads (decode_headers (length hs)) (λ hs'. h ∷ hs') c hs (headers-Reads hs s.1)))

-- The fields are of their Go types, and no length is more than an int can say.
pub record IsSayableRecord (r : Record) : Type 0 where
  pub attributes_fit : Fits 0x80 r.attributes
  pub timestamp_fits : Fits (2 ^ 63) (to_millis r.timestamp_delta)
  pub offset_fits : Fits (2 ^ 63) r.offset_delta
  pub key_fits : IsSayableBytes r.key
  pub value_fits : IsSayableBytes r.value
  pub count_fits : length (header_list r) < 2 ^ 63
  pub headers_fit : All IsSayableHeader (header_list r)
  pub body_fits : length (encoding (body_packet r)) < 2 ^ 63

-- The record that comes back: its time is cut to milliseconds, and nil headers are an empty slice.
unfoldable pub read_back : Record → Record
read_back r = record r {
  headers = some (header_list r);
  timestamp_delta = of_millis (to_millis r.timestamp_delta);
}

body-Reads :
    (r : Record) → IsSayableRecord r → Reads decode_body (encoding (body_packet r)) (read_back r)
unfolding decode_body headers_of encoding body_packet put_bytes read_back
body-Reads r s =
    bind-Reads get_int8 _ (put_bytes (Put.int8 r.attributes)) _ r.attributes _
      (int8-Reads r.attributes s.attributes_fit)
      (bind-Reads get_varint _ (put_bytes (Put.varint (to_millis r.timestamp_delta))) _
        (to_millis r.timestamp_delta) _
        (varint-Reads (to_millis r.timestamp_delta) s.timestamp_fits)
        (bind-Reads get_varint _ (put_bytes (Put.varint r.offset_delta)) _ r.offset_delta _
          (varint-Reads r.offset_delta s.offset_fits)
          (bind-Reads get_varint_bytes _ (put_bytes (Put.varint_bytes r.key)) _ r.key _
            (bytes-Reads r.key s.key_fits)
            (bind-Reads get_varint_bytes _ (put_bytes (Put.varint_bytes r.value)) _ r.value _
              (bytes-Reads r.value s.value_fits)
              (bind-Reads get_varint _ (put_bytes (Put.varint (pos (length (header_list r))))) _
                (pos (length (header_list r))) _
                (varint-Reads (pos (length (header_list r))) s.count_fits)
                (map-Reads (headers_of (pos (length (header_list r)))) _ _ (some (header_list r)) (
                  map-Reads (decode_headers (length (header_list r))) some _ (header_list r)
                    (headers-Reads (header_list r) s.headers_fit))))))))

-- A record that is encoded is decoded as it was, its time cut to milliseconds and nil headers as an
-- empty slice, wherever its bytes stand and whatever follows them, and the decoder stops right
-- behind them.
pub decode_record-record_packet :
    (z : ℤ) (r : Record)
    → IsSayableRecord r
    → Reads decode_record (encoding (record_packet z r)) (read_back r)
unfolding decode_record record_packet encoding field_bytes
decode_record-record_packet z r s =
    subst (λ bs. Reads decode_record bs (read_back r))
      (ap (λ bs. put_uvarint (zigzag (pos (length (encoding (body_packet r))))) ++ bs)
        (sym (append-nil _)))
      (framed-Reads decode_body (encoding (body_packet r)) (read_back r) s.body_fits
        (body-Reads r s))
