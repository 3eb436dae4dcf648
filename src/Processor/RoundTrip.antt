-- ===== src/Processor/RoundTrip.antt =====
-- message_processor.go: messages that pass from one processor to another.
use pointsub.Base.{
  ℕ, ◌+◌, ◌%◌, ◌^◌, ◌≤◌, ◌<◌, ◌≡◌, refl, ap, ◌∙◌, false, Option, none, some, [], ◌∷◌, ◌++◌, ltb,
  ◌==◌, if◌then◌else◌, length, arith, has_flag, le→ltb,
}
use pointsub.Base.Bytes.{Bytes, u32, put_u32}
use pointsub.Frame.{ok}
use pointsub.Processor.{
  MessageHeader, Message, Middleware, Processor, message_flag_ack_required,
  message_flag_retransmitted, measure, put_header, pre_process,
}
use pointsub.Processor.Coding.{
  stamp, message_bytes, finish_encoding, encode_measured, encode_processed, encode_message,
  decode_message,
}
use pointsub.Processor.Encoding.{
  IsEncodable, read_back, described, encoding, decoded, decode_message-encoding, post_process-none,
}

-- The header with a time where it has none.
abbrev pub stamped : ℕ → MessageHeader → MessageHeader
stamped now h = record h { timestamp = if h.timestamp == 0 then now else h.timestamp }

measure-fits :
    (msg : Message)
    → length msg.body < 4294967296
    → measure msg ≡ record msg {
      header = record msg.header {
        routing_key_length = length msg.routing_key;
        body_length = length msg.body;
      };
    }
unfolding measure
measure-fits msg small =
    ap
      (λ n. record msg {
        header = record msg.header { routing_key_length = length msg.routing_key; body_length = n };
      })
      (let e : u32 (length msg.body) ≡ length msg.body = omega arith in e)

some_body : (body : Bytes) → (if ltb 0 (length body) then body else []) ≡ body
some_body [] = refl
some_body (b ∷ body) = ground arith

module _ (crc32 : Bytes → ℕ) where
  -- The message that EncodeMessage leaves, but for the encoding that it keeps.
  abbrev pub filled : ℕ → Message → Message
  filled now msg = record msg {
    header = described crc32 msg.routing_key msg.body (stamped now msg.header);
  }

  stamp-measure :
      (now : ℕ) (msg : Message)
      → length msg.body < 4294967296
      → stamp crc32 now (measure msg) ≡ filled now msg
  unfolding stamp
  stamp-measure now msg small = ap (stamp crc32 now) (measure-fits msg small)

  message_bytes-filled :
      (now : ℕ) (msg : Message)
      → message_bytes crc32 (filled now msg)
        ≡ encoding crc32 msg.routing_key msg.body (stamped now msg.header)
  unfolding message_bytes
  message_bytes-filled now msg =
      ap
        (λ body.
          put_header (filled now msg).header
            (put_u32 (crc32 (put_header (filled now msg).header [])) (msg.routing_key ++ body)))
        (some_body msg.body)

  pre_process-none :
      (middleware : Option Middleware) (msg : Message)
      → middleware ≡ none
      → pre_process middleware msg ≡ ok msg
  unfolding pre_process
  pre_process-none middleware msg bare = rw bare refl

  finish_encoding-none :
      (middleware : Option Middleware) (msg : Message)
      → middleware ≡ none
      → finish_encoding crc32 middleware msg
        ≡ (record msg { raw_data = some (message_bytes crc32 msg) }, ok (message_bytes crc32 msg))
  unfolding finish_encoding
  finish_encoding-none middleware msg bare =
      rw (post_process-none middleware msg bare, finish_encoding) refl

  encode_measured-fits :
      (p : Processor) (now : ℕ) (msg : Message)
      → p.max_body_size < 4294967296
      → length msg.body ≤ p.max_body_size
      → encode_measured crc32 p now (measure msg)
        ≡ finish_encoding crc32 p.middleware (stamp crc32 now (measure msg))
  unfolding encode_measured measure
  encode_measured-fits p now msg limit body_fits =
      rw (le→ltb (u32 p.max_body_size) (u32 (length msg.body)) (omega arith)) refl

  encode_processed-fits :
      (p : Processor) (now : ℕ) (msg : Message)
      → length msg.routing_key ≤ 255
      → encode_processed crc32 p now msg ≡ encode_measured crc32 p now (measure msg)
  unfolding encode_processed
  encode_processed-fits p now msg key_fits = rw (le→ltb 255 (length msg.routing_key) key_fits) refl

  encode_message-none :
      (p : Processor) (now : ℕ) (msg : Message)
      → p.middleware ≡ none
      → encode_message crc32 p now msg ≡ encode_processed crc32 p now msg
  unfolding encode_message
  encode_message-none p now msg bare =
      rw (pre_process-none p.middleware msg bare, encode_message) refl

  -- Within the limits a processor without middleware encodes the message.
  pub encode_message-encoding :
      (p : Processor) (now : ℕ) (msg : Message)
      → p.middleware ≡ none
      → length msg.routing_key ≤ 255
      → p.max_body_size < 4294967296
      → length msg.body ≤ p.max_body_size
      → let bytes = encoding crc32 msg.routing_key msg.body (stamped now msg.header) in
        encode_message crc32 p now msg
        ≡ (record (filled now msg) { raw_data = some bytes }, ok bytes)
  encode_message-encoding p now msg bare key_fits limit body_fits =
      encode_message-none p now msg bare
      ∙ encode_processed-fits p now msg key_fits
      ∙ encode_measured-fits p now msg limit body_fits
      ∙ ap (finish_encoding crc32 p.middleware) (stamp-measure now msg (omega arith))
      ∙ finish_encoding-none p.middleware (filled now msg) bare
      ∙ ap (λ (bs : Bytes). (record (filled now msg) { raw_data = some bs }, ok bs))
          (message_bytes-filled now msg)

module _ (crc32 : Bytes → ℕ) (crc32_fits : (bs : Bytes) → crc32 bs < 4294967296) where
  -- A processor without middleware encodes a message whose key has at most 255 bytes and whose body
  -- is within its limit, below 4 GiB; any other one without middleware decodes the bytes, whatever
  -- message of the pool it fills, into a message with the key and the body, and with the header but
  -- for the upper half of the flags, provided the fields of the header fit their bits.
  pub decode_message-encode_message :
      (p q : Processor) (now now' : ℕ) (msg pooled : Message)
      → p.middleware ≡ none
      → q.middleware ≡ none
      → q.header_size ≡ 29
      → length msg.routing_key ≤ 255
      → p.max_body_size < 4294967296
      → length msg.body ≤ p.max_body_size
      → IsEncodable (stamped now msg.header)
      → (msg' : Message) × (bytes : Bytes) × (d : Message) × (q' : Processor) × (encode_message
            crc32 p now msg
          ≡ (msg', ok bytes))
        × (decode_message crc32 q now' pooled bytes ≡ (q', ok d))
        × (d.routing_key ≡ msg.routing_key)
        × (d.body ≡ msg.body)
        × (d.header ≡ read_back pooled.header msg'.header)
        × (msg'.header ≡ described crc32 msg.routing_key msg.body (stamped now msg.header))
  decode_message-encode_message p q now now' msg pooled bare bare' size key_fits limit body_fits
        fits =
      let h = stamped now msg.header in
      let bytes = encoding crc32 msg.routing_key msg.body h in
      (
        record (filled crc32 now msg) { raw_data = some bytes },
        bytes,
        decoded crc32 now' pooled msg.routing_key msg.body h,
        record q { header_size = 29; process_counter = (q.process_counter + 1) % 2 ^ 64 },
        encode_message-encoding crc32 p now msg bare key_fits limit body_fits,
        decode_message-encoding crc32 crc32_fits q now' pooled msg.routing_key msg.body h bare' size
            fits (omega arith),
        refl,
        refl,
        refl,
        refl,
      )

  -- Between processors without middleware, for a message within the limits and with fields that fit
  -- the header, the flags that ask for an acknowledgement or mark a retransmission never arrive: the
  -- message that is decoded from the encoding has the flags below 16 and no other.
  pub decode_message-flags :
      (p q q' : Processor) (now now' : ℕ) (msg msg' pooled d : Message) (bytes : Bytes)
      → p.middleware ≡ none
      → q.middleware ≡ none
      → q.header_size ≡ 29
      → length msg.routing_key ≤ 255
      → p.max_body_size < 4294967296
      → length msg.body ≤ p.max_body_size
      → IsEncodable (stamped now msg.header)
      → encode_message crc32 p now msg ≡ (msg', ok bytes)
      → decode_message crc32 q now' pooled bytes ≡ (q', ok d)
      → (d.header.flags ≡ msg.header.flags % 16)
        × (has_flag d.header.flags message_flag_ack_required ≡ false)
        × (has_flag d.header.flags message_flag_retransmitted ≡ false)
  decode_message-flags p q q' now now' msg msg' pooled d bytes bare bare' size key_fits limit
        body_fits fits encoded result =
      let h = stamped now msg.header in
      let sent = encode_message-encoding crc32 p now msg bare key_fits limit body_fits in
      let arrived =
        decode_message-encoding crc32 crc32_fits q now' pooled msg.routing_key msg.body h bare' size
          fits (omega arith) in
      let same : bytes ≡ encoding crc32 msg.routing_key msg.body h = cc in
      let outcome : d ≡ decoded crc32 now' pooled msg.routing_key msg.body h = cc in
      let flags : d.header.flags ≡ msg.header.flags % 16 = ap (λ m. m.header.flags) outcome in
      (flags, ground arith, ground arith)
