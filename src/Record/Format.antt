-- ===== src/Record/Format.antt =====
-- The encode and decode methods of record.go, over the two interfaces of the wire.
use sarama.Base.{ℕ, zero, suc, List, [], ◌∷◌, Option, none, some, length}
use sarama.Base.Int.{ℤ, pos, negsuc}
use sarama.Wire.Decode.Monad.{M, ◌>>=◌, ◌>>◌, pure}
use sarama.Wire.Decode.Primitives.{get_int8, get_varint}
use sarama.Wire.Decode.Collections.{get_varint_bytes}
use sarama.Wire.Decode.Fields.{varint_length_of, push, pop}
use sarama.Wire.Encode.Packet.{Put, Packet, end, put, framed, varint_length_field}
use sarama.Record.Data.{RecordHeader, Record, to_millis, of_millis, header_list}

-- RecordHeader.encode for each header.
unfoldable pub headers_packet : List RecordHeader → Packet
headers_packet [] = end
headers_packet (h ∷ hs) =
    put (Put.varint_bytes h.key) (put (Put.varint_bytes h.value) (headers_packet hs))

unfoldable pub body_packet : Record → Packet
unfolding headers_packet
body_packet r = put (Put.int8 r.attributes) (
    put (Put.varint (to_millis r.timestamp_delta)) (
      put (Put.varint r.offset_delta) (
        put (Put.varint_bytes r.key) (
          put (Put.varint_bytes r.value)
            (put (Put.varint (pos (length (header_list r)))) (headers_packet (header_list r)))))))

-- Record.encode: `z` is what the length field holds from before.
unfoldable pub record_packet : ℤ → Record → Packet
unfolding body_packet
record_packet z r = framed (varint_length_field z) (body_packet r) end

unfoldable pub decode_header : M RecordHeader
decode_header = do k ← get_varint_bytes; v ← get_varint_bytes; pure (record { key = k; value = v })

unfoldable pub decode_headers : ℕ → M (List RecordHeader)
unfolding decode_header
decode_headers zero = pure []
decode_headers (suc n) = do h ← decode_header; hs ← decode_headers n; pure (h ∷ hs)

-- A negative number of headers leaves the slice nil.
unfoldable pub headers_of : ℤ → M (Option (List RecordHeader))
unfolding decode_headers
headers_of (negsuc n) = pure none
headers_of (pos n) = do hs ← decode_headers n; pure (some hs)

unfoldable pub decode_body : M Record
unfolding headers_of
decode_body = do
  a ← get_int8
  t ← get_varint
  o ← get_varint
  k ← get_varint_bytes
  v ← get_varint_bytes
  n ← get_varint
  hs ← headers_of n
  pure (record {
    headers = hs;
    attributes = a;
    timestamp_delta = of_millis t;
    offset_delta = o;
    key = k;
    value = v;
  })

unfoldable pub decode_record : M Record
unfolding decode_body
decode_record = push varint_length_of >> (decode_body >>= λ r. pop >> pure r)
