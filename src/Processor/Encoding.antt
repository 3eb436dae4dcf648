-- ===== src/Processor/Encoding.antt =====
-- message_processor.go: what EncodeMessage writes is what DecodeMessage reads.
use pointsub.Base.{
  ℕ, ◌+◌, ◌*◌, ◌/◌, ◌%◌, ◌^◌, ◌≤◌, ◌<◌, ◌≡◌, refl, sym, ap, ◌∙◌, Option, none, some, [], ◌∷◌, ◌++◌,
  ltb, if◌then◌else◌, length, take, drop, arith, length-append, take-append_length,
  drop-append_length, drop-drop, take_all, ==_refl, le→ltb, ltb-false, Bool-cases, inl, inr,
}
use pointsub.Base.Bytes.{Bytes, put_u32, get_u32-put_u32}
use pointsub.Frame.{ok}
use pointsub.Processor.{
  MessageHeader, Message, Processor, Middleware, created, put_header, get_header, put_u64, get_u64,
  start_decoding, finish_decoding, post_process,
}
use pointsub.Processor.Coding.{decode_body, decode_key, decode_checked, decode_message}

-- The fields of the header fit the bits that the encoding has for them.
pub record IsEncodable (h : MessageHeader) : Type 0 where
  pub version_fits : h.version < 16
  pub priority_fits : h.priority < 16
  pub type_fits : h.message_type < 16
  pub id_fits : h.id < 4294967296
  pub timestamp_fits : h.timestamp < 18446744073709551616
  pub ttl_fits : h.ttl < 65536

-- The header that is read back: the upper half of the flags is lost.
abbrev pub read_back : MessageHeader → MessageHeader → MessageHeader
read_back old h = record h { flags = h.flags % 16; checksum = old.checksum }

get_header-put_header :
    (old h : MessageHeader) (rest : Bytes)
    → IsEncodable h
    → h.body_length < 4294967296
    → h.body_checksum < 4294967296
    → get_header old (put_header h rest) ≡ read_back old h
unfolding get_header
get_header-put_header old h rest fits length_fits sum_fits =
    let version : (h.version * 16 % 256 + h.priority % 16) / 16 ≡ h.version = omega arith in
    let priority : (h.version * 16 % 256 + h.priority % 16) % 16 ≡ h.priority = omega arith in
    let kind : (h.message_type % 16 * 16 + h.flags % 16) / 16 % 16 ≡ h.message_type = omega arith in
    let flags : (h.message_type % 16 * 16 + h.flags % 16) % 16 ≡ h.flags % 16 = omega arith in
    let stamp : get_u64 (put_u64 h.timestamp []) 0 ≡ h.timestamp = omega (
      arith,
      get_u32-put_u32 (h.timestamp / 4294967296),
      get_u32-put_u32 (h.timestamp % 4294967296),
    ) in
    let ttl : h.ttl / 256 * 256 + h.ttl % 256 ≡ h.ttl = omega arith in
    λ i. record old {
      version = version i;
      priority = priority i;
      message_type = kind i;
      flags = flags i;
      id = get_u32-put_u32 h.id fits.id_fits i;
      body_length = get_u32-put_u32 h.body_length length_fits i;
      timestamp = stamp i;
      ttl = ttl i;
      routing_key_length = h.routing_key_length;
      body_checksum = get_u32-put_u32 h.body_checksum sum_fits i;
    }

no_bytes : (bs : Bytes) → length bs ≤ 0 → bs ≡ []
no_bytes [] _ = refl
no_bytes (b ∷ bs) none_left = absurd (omega arith)

-- What the header says of the key and the body after it.
abbrev pub described : (Bytes → ℕ) → Bytes → Bytes → MessageHeader → MessageHeader
described crc32 key body h = record h {
  routing_key_length = length key;
  body_length = length body;
  body_checksum = if ltb 0 (length body) then crc32 body else 0;
}

module _ (crc32 : Bytes → ℕ) (hd key body : Bytes) (hd_size : length hd ≡ 29) where
  whole : Bytes
  whole = hd ++ (key ++ body)

  length-whole : length whole ≡ 29 + length key + length body
  unfolding whole
  length-whole = omega (arith, length-append hd (key ++ body), length-append key body)

  drop-whole : drop 29 whole ≡ key ++ body
  unfolding whole
  drop-whole =
      ap (λ n. drop n (hd ++ (key ++ body))) (sym hd_size) ∙ drop-append_length hd (key ++ body)

  key-whole : take (length key) (drop 29 whole) ≡ key
  key-whole = ap (take (length key)) drop-whole ∙ take-append_length key body

  body-whole : take (length body) (drop (29 + length key) whole) ≡ body
  body-whole =
      ap (take (length body)) (
        sym (drop-drop 29 (length key) whole)
        ∙ ap (drop (length key)) drop-whole
        ∙ drop-append_length key body)
      ∙ take_all (length body) body (omega arith)

  decode_body-whole :
      (p : Processor) (msg : Message) (h : MessageHeader)
      → decode_body crc32
          (record p { header_size = 29 })
          whole
          (record msg { header = described crc32 key body h })
        ≡ finish_decoding
            (record p { header_size = 29 })
            (record msg { header = described crc32 key body h; body = body; raw_data = some whole })
  unfolding decode_body
  decode_body-whole p msg h = elim (Bool-cases (ltb 0 (length body))) [
    | inl full ↦
        rw
          (
            le→ltb (length whole) (29 + length key + length body) (omega (arith, length-whole)),
            full,
            body-whole,
            ==_refl (crc32 body),
          )
          refl
    | inr empty ↦
        rw
          (
            le→ltb (length whole) (29 + length key + length body) (omega (arith, length-whole)),
            empty,
            no_bytes body (omega (arith, ltb-false 0 (length body) empty)),
          )
          refl
  ]

  decode_key-whole :
      (p : Processor) (msg : Message) (h : MessageHeader)
      → decode_key crc32
          (record p { header_size = 29 })
          whole
          (record msg { header = described crc32 key body h })
        ≡ finish_decoding
            (record p { header_size = 29 })
            (record msg {
              header = described crc32 key body h;
              routing_key = key;
              body = body;
              raw_data = some whole;
            })
  unfolding decode_key
  decode_key-whole p msg h =
      rw (le→ltb (length whole) (29 + length key) (omega (arith, length-whole)), key-whole)
        (decode_body-whole p (record msg { routing_key = key }) h)

module _ (crc32 : Bytes → ℕ) where
  -- The encoding of a header with its key and body.
  abbrev pub encoding : Bytes → Bytes → MessageHeader → Bytes
  encoding key body h =
      let d = described crc32 key body h in
      put_header d (put_u32 (crc32 (put_header d [])) (key ++ body))

  -- The message that is made of an encoding.
  abbrev pub decoded : ℕ → Message → Bytes → Bytes → MessageHeader → Message
  decoded now pooled key body h = record pooled {
    created_at = now;
    updated_at = now;
    status = created;
    retry_count = 0;
    header = described crc32 key body (read_back pooled.header h);
    routing_key = key;
    body = body;
    raw_data = some (encoding key body h);
  }

pub post_process-none :
    (middleware : Option Middleware) (msg : Message)
    → middleware ≡ none
    → post_process middleware msg ≡ ok msg
unfolding post_process
post_process-none middleware msg bare = rw bare refl

pub finish_decoding-none :
    (p : Processor) (msg : Message)
    → p.middleware ≡ none
    → finish_decoding p msg
      ≡ (record p { process_counter = (p.process_counter + 1) % 2 ^ 64 }, ok msg)
unfolding finish_decoding
finish_decoding-none p msg bare = rw (post_process-none p.middleware msg bare, finish_decoding) refl

module _ (crc32 : Bytes → ℕ) (crc32_fits : (bs : Bytes) → crc32 bs < 4294967296) where
  body_sum_fits : (body : Bytes) → (if ltb 0 (length body) then crc32 body else 0) < 4294967296
  body_sum_fits body = ground (arith, crc32_fits body)

  decode_checked-encoding :
      (q : Processor) (now : ℕ) (pooled : Message) (key body : Bytes) (h : MessageHeader)
      → IsEncodable h
      → length body < 4294967296
      → decode_checked crc32
          (record q { header_size = 29 })
          (encoding crc32 key body h)
          (start_decoding now pooled (encoding crc32 key body h))
        ≡ finish_decoding (record q { header_size = 29 }) (decoded crc32 now pooled key body h)
  unfolding decode_checked start_decoding whole
  decode_checked-encoding q now pooled key body h fits small =
      let d = described crc32 key body h in
      let sum = crc32 (put_header d []) in
      let fresh = record pooled {
        created_at = now;
        updated_at = now;
        status = created;
        retry_count = 0;
        raw_data = none;
      } in
      rw
        (
          get_header-put_header pooled.header d (put_u32 sum (key ++ body))
              (record {
                version_fits = fits.version_fits;
                priority_fits = fits.priority_fits;
                type_fits = fits.type_fits;
                id_fits = fits.id_fits;
                timestamp_fits = fits.timestamp_fits;
                ttl_fits = fits.ttl_fits;
              })
              small (body_sum_fits body),
          get_u32-put_u32 sum (crc32_fits (put_header d [])),
          ==_refl sum,
        )
        (decode_key-whole crc32 (put_header d (put_u32 sum [])) key body refl q fresh
          (read_back pooled.header h))

  -- A processor without middleware decodes the encoding into the message.
  pub decode_message-encoding :
      (q : Processor) (now : ℕ) (pooled : Message) (key body : Bytes) (h : MessageHeader)
      → q.middleware ≡ none
      → q.header_size ≡ 29
      → IsEncodable h
      → length body < 4294967296
      → decode_message crc32 q now pooled (encoding crc32 key body h) ≡ (
        record q { header_size = 29; process_counter = (q.process_counter + 1) % 2 ^ 64 },
        ok (decoded crc32 now pooled key body h),
      )
  unfolding decode_message
  decode_message-encoding q now pooled key body h bare size fits small =
      rw (le→ltb (length (encoding crc32 key body h)) q.header_size (omega arith)) (
        decode_checked-encoding q now pooled key body h fits small
        ∙ finish_decoding-none (record q { header_size = 29 }) (decoded crc32 now pooled key body h)
            bare)
