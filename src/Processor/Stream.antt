-- ===== src/Processor/Stream.antt =====
-- message_processor.go: WriteMessage and ReadMessage over a connection.
use pointsub.Base.{
  ℕ, ◌+◌, ◌%◌, ◌^◌, ◌≤◌, ◌<◌, ◌≡◌, refl, sym, ap, ◌∙◌, true, none, some, [], ◌++◌, leb,
  if◌then◌else◌, length, take, drop, arith, length-append, take-append_length, drop-append_length,
  ◌==◌, ltb,
}
use pointsub.Base.Bytes.{Bytes, put_u32, get_u32-put_u32}
use pointsub.Frame.{ok}
use pointsub.Frame.Io.{Sink, read_full, write, write_within}
use pointsub.Processor.{MessageHeader, Message, Processor, put_header}
use pointsub.Processor.Coding.{
  read_rest, read_sized, read_message, write_encoded, kept_or_encoded, write_message,
  encode_message, decode_message,
}
use pointsub.Processor.Encoding.{IsEncodable, described, encoding, decoded, decode_message-encoding}
use pointsub.Processor.RoundTrip.{stamped, filled, encode_message-encoding}

-- A buffer as long as what comes first is filled with it.
read_full-append : (n : ℕ) (xs ys : Bytes) → length xs ≡ n → read_full n (xs ++ ys) ≡ (ok xs, ys)
unfolding read_full
read_full-append n xs ys size =
    let enough : leb n (length (xs ++ ys)) ≡ true = ground (arith, length-append xs ys) in
    rw (enough, if◌then◌else◌)
      (λ i. (
        ok ((ap (λ k. take k (xs ++ ys)) (sym size) ∙ take-append_length xs ys) i),
        (ap (λ k. drop k (xs ++ ys)) (sym size) ∙ drop-append_length xs ys) i,
      ))

module _ (crc32 : Bytes → ℕ) where
  -- The header of an encoding with its checksum.
  abbrev head_of : Bytes → Bytes → MessageHeader → Bytes
  head_of key body h =
      let d = described crc32 key body h in put_header d (put_u32 (crc32 (put_header d [])) [])

  read_sized-encoding :
      (q : Processor) (now : ℕ) (pooled : Message) (key body rest : Bytes) (h : MessageHeader)
      → length body < 4294967296
      → read_sized crc32 q now pooled (ok (head_of key body h), (key ++ body) ++ rest)
        ≡ (decode_message crc32 q now pooled (encoding crc32 key body h), rest)
  unfolding read_sized read_rest
  read_sized-encoding q now pooled key body rest h small =
      rw
        (
          get_u32-put_u32 (length body) small,
          read_full-append (length key + length body) (key ++ body) rest (length-append key body),
        )
        refl

  -- ReadMessage takes exactly the encoding, whatever follows on the connection, and decodes it.
  read_message-encoding :
      (q : Processor) (now : ℕ) (pooled : Message) (key body rest : Bytes) (h : MessageHeader)
      → q.header_size ≡ 29
      → length body < 4294967296
      → read_message crc32 q now pooled (encoding crc32 key body h ++ rest)
        ≡ (decode_message crc32 q now pooled (encoding crc32 key body h), rest)
  unfolding read_message
  read_message-encoding q now pooled key body rest h size small =
      ap (λ r. read_sized crc32 q now pooled r)
        (read_full-append q.header_size (head_of key body h) ((key ++ body) ++ rest) (sym size))
      ∙ read_sized-encoding q now pooled key body rest h small

  write_encoded-open :
      (msg : Message) (w : Sink) (bytes : Bytes)
      → w.room ≡ none
      → write_encoded crc32 (msg, ok bytes) w
        ≡ (none, (msg, record { sent = w.sent ++ bytes; room = none }))
  unfolding write_encoded write write_within
  write_encoded-open msg w bytes open' =
      ap (λ room. write_encoded crc32 (msg, ok bytes) (record { sent = w.sent; room = room })) open'

  -- A message that has an encoding is written as that encoding to a connection that takes
  -- everything, whatever became of its header, its key and its body since.
  pub write_message-raw :
      (p : Processor) (now : ℕ) (msg : Message) (w : Sink) (raw : Bytes)
      → msg.raw_data ≡ some raw
      → w.room ≡ none
      → write_message crc32 p now msg w
        ≡ (none, (msg, record { sent = w.sent ++ raw; room = none }))
  unfolding write_message kept_or_encoded
  write_message-raw p now msg w raw kept open' =
      ap (λ o. write_encoded crc32 (kept_or_encoded crc32 p now msg o) w) kept
      ∙ write_encoded-open msg w raw open'

  write_message-encoding :
      (p : Processor) (now : ℕ) (msg msg' : Message) (w : Sink) (bytes : Bytes)
      → msg.raw_data ≡ none
      → w.room ≡ none
      → encode_message crc32 p now msg ≡ (msg', ok bytes)
      → write_message crc32 p now msg w
        ≡ (none, (msg', record { sent = w.sent ++ bytes; room = none }))
  unfolding write_message kept_or_encoded
  write_message-encoding p now msg msg' w bytes fresh open' encoded =
      ap (λ o. write_encoded crc32 (kept_or_encoded crc32 p now msg o) w) fresh
      ∙ ap (λ r. write_encoded crc32 r w) encoded
      ∙ write_encoded-open msg' w bytes open'

-- The header that is to arrive for `msg`, written at the time `now`, in the message `pooled`.
abbrev pub arriving : (Bytes → ℕ) → ℕ → Message → Message → MessageHeader
arriving crc32 now msg pooled = record {
  version = msg.header.version;
  priority = msg.header.priority;
  message_type = msg.header.message_type;
  flags = msg.header.flags % 16;
  id = msg.header.id;
  body_length = length msg.body;
  timestamp = if msg.header.timestamp == 0 then now else msg.header.timestamp;
  ttl = msg.header.ttl;
  routing_key_length = length msg.routing_key;
  body_checksum = if ltb 0 (length msg.body) then crc32 msg.body else 0;
  checksum = pooled.header.checksum;
}

module _ (crc32 : Bytes → ℕ) (crc32_fits : (bs : Bytes) → crc32 bs < 4294967296) where
  -- A message without a kept encoding that a processor without middleware writes, within the limits
  -- and with fields that fit the header, to a connection that takes everything, is read by another
  -- one without middleware with its key, its body and its header: each field of the header is the
  -- one of the message written, but that the time of writing stands for a missing timestamp, only
  -- the lower four flags arrive, the lengths and the checksum of the body are those of the key and
  -- the body, and the checksum of the header, which DecodeMessage does not store, is the one of the
  -- message from the pool. Exactly the bytes written are taken from what arrives.
  pub read_message-write_message :
      (p q : Processor) (now now' : ℕ) (msg pooled : Message) (w : Sink) (rest : Bytes)
      → p.middleware ≡ none
      → q.middleware ≡ none
      → q.header_size ≡ 29
      → msg.raw_data ≡ none
      → w.room ≡ none
      → length msg.routing_key ≤ 255
      → p.max_body_size < 4294967296
      → length msg.body ≤ p.max_body_size
      → IsEncodable (stamped now msg.header)
      → (msg' : Message) × (bytes : Bytes) × (d : Message) × (q' : Processor) × (write_message crc32
            p now msg w
          ≡ (none, (msg', record { sent = w.sent ++ bytes; room = none })))
        × (read_message crc32 q now' pooled (bytes ++ rest) ≡ ((q', ok d), rest))
        × (d.routing_key ≡ msg.routing_key)
        × (d.body ≡ msg.body)
        × (d.header ≡ arriving crc32 now msg pooled)
  read_message-write_message p q now now' msg pooled w rest bare bare' size fresh open' key_fits
        limit body_fits fits =
      let h = stamped now msg.header in
      let bytes = encoding crc32 msg.routing_key msg.body h in
      (
        record (filled crc32 now msg) { raw_data = some bytes },
        bytes,
        decoded crc32 now' pooled msg.routing_key msg.body h,
        record q { header_size = 29; process_counter = (q.process_counter + 1) % 2 ^ 64 },
        write_message-encoding crc32 p now msg _ w bytes fresh open'
            (encode_message-encoding crc32 p now msg bare key_fits limit body_fits),
        read_message-encoding crc32 q now' pooled msg.routing_key msg.body rest h size (omega arith)
            ∙ ap (λ r. (r, rest))
                (decode_message-encoding crc32 crc32_fits q now' pooled msg.routing_key msg.body h
                  bare' size fits (omega arith)),
        refl,
        refl,
        refl,
      )
