-- ===== src/Processor/Integrity.antt =====
-- message_processor.go: what a message that DecodeMessage returns has in common with its bytes.
use pointsub.Base.{
  ℕ, zero, suc, subst, ◌+◌, ◌≤◌, ◌≡◌, refl, sym, ◌∙◌, Bool, true, none, some, [], ltb, ◌==◌,
  if◌then◌else◌, length, take, drop, arith, Bool-cases, inl, inr, ltb-false, ==_iff,
}
use pointsub.Base.Bytes.{Bytes, get_u32}
use pointsub.Frame.{ok}
use pointsub.Processor.{
  MessageHeader, Message, Processor, finish_decoding, start_decoding, get_header,
}
use pointsub.Processor.Coding.{decode_body, decode_key, decode_checked, decode_message}
use pointsub.Processor.Encoding.{finish_decoding-none}

-- The test that a body that is not empty has the checksum of the header.
abbrev pub sum_agrees : (Bytes → ℕ) → Message → Bool
sum_agrees crc32 d =
    if ltb 0 d.header.body_length then crc32 d.body == d.header.body_checksum else true

-- The key and the body are the bytes after the header, of the lengths that the header says, and the
-- checksum of the body agrees.
pub record IsIntact (crc32 : Bytes → ℕ) (bytes : Bytes) (d : Message) : Type 0 where
  pub long_enough : 29 + d.header.routing_key_length + d.header.body_length ≤ length bytes
  pub key : d.routing_key ≡ take d.header.routing_key_length (drop 29 bytes)
  pub body : d.body ≡ take d.header.body_length (drop (29 + d.header.routing_key_length) bytes)
  pub body_sum : sum_agrees crc32 d ≡ true

no_bytes : (n : ℕ) (bs : Bytes) → n ≤ 0 → [] ≡ take n bs
no_bytes zero bs _ = refl
no_bytes (suc n) bs none_left = absurd (omega arith)

finish_decoding-inv :
    (p q : Processor) (msg d : Message)
    → p.middleware ≡ none
    → finish_decoding p msg ≡ (q, ok d)
    → msg ≡ d
finish_decoding-inv p q msg d bare result =
    let e = sym (finish_decoding-none p msg bare) ∙ result in ground arith

module _ (crc32 : Bytes → ℕ) (bytes : Bytes) (p q : Processor) (d : Message)
    (bare : p.middleware ≡ none) where
  abbrev sized : Processor
  sized = record p { header_size = 29 }

  -- What a decoding makes sure of, with the header that it began with.
  abbrev Makes : MessageHeader → Message → Type 0
  Makes h m = IsIntact crc32 bytes m × (m.header ≡ h)

  finish-Makes :
      (h : MessageHeader) (msg : Message)
      → Makes h msg
      → finish_decoding sized msg ≡ (q, ok d)
      → Makes h d
  finish-Makes h msg made result =
      subst (Makes h) (finish_decoding-inv sized q msg d bare result) made

  decode_body-Makes :
      (msg : Message)
      → msg.routing_key ≡ take msg.header.routing_key_length (drop 29 bytes)
      → decode_body crc32 sized bytes msg ≡ (q, ok d)
      → Makes msg.header d
  unfolding decode_body
  decode_body-Makes msg key result =
      let start = 29 + msg.header.routing_key_length in
      let body = take msg.header.body_length (drop start bytes) in
      elim (Bool-cases (ltb (length bytes) (start + msg.header.body_length))) [
        | inl short ↦ absurd (ground arith)
        | inr enough ↦ elim (Bool-cases (ltb 0 msg.header.body_length)) [
          | inl full ↦ elim (Bool-cases (crc32 body == msg.header.body_checksum)) [
            | inl agrees ↦
                finish-Makes msg.header (record msg { body = body; raw_data = some bytes })
                  (
                    record {
                      long_enough =
                          ltb-false (length bytes) (start + msg.header.body_length) enough;
                      key = key;
                      body = refl;
                      body_sum = ground arith;
                    },
                    refl,
                  )
                  (ground arith)
            | inr differs ↦ absurd (ground arith)
          ]
          | inr empty ↦
              finish-Makes msg.header (record msg { body = []; raw_data = some bytes })
                (
                  record {
                    long_enough = ltb-false (length bytes) (start + msg.header.body_length) enough;
                    key = key;
                    body =
                        no_bytes msg.header.body_length (drop start bytes)
                          (omega (arith, ltb-false 0 msg.header.body_length empty));
                    body_sum = ground arith;
                  },
                  refl,
                )
                (ground arith)
        ]
      ]

  decode_key-Makes :
      (msg : Message) → decode_key crc32 sized bytes msg ≡ (q, ok d) → Makes msg.header d
  unfolding decode_key
  decode_key-Makes msg result =
      elim (Bool-cases (ltb (length bytes) (29 + msg.header.routing_key_length))) [
        | inl short ↦ absurd (ground arith)
        | inr enough ↦
            decode_body-Makes
              (record msg { routing_key = take msg.header.routing_key_length (drop 29 bytes) }) refl
              (ground arith)
      ]

  -- A message that a processor without middleware decodes lies in the bytes: their header agrees
  -- with its checksum and says what the header of the message says, the key and the body are the
  -- bytes after it, of the lengths that it says, and the checksum of the body agrees.
  pub decode_message-IsIntact :
      (now : ℕ) (pooled : Message)
      → decode_message crc32 p now pooled bytes ≡ (q, ok d)
      → (crc32 (take 25 bytes) ≡ get_u32 bytes 25)
        × (d.header ≡ get_header pooled.header bytes)
        × IsIntact crc32 bytes d
  unfolding decode_message decode_checked start_decoding
  decode_message-IsIntact now pooled result = elim (Bool-cases (ltb (length bytes) p.header_size)) [
    | inl short ↦ absurd (ground arith)
    | inr enough ↦ elim (Bool-cases (crc32 (take 25 bytes) == get_u32 bytes 25)) [
      | inl agrees ↦
          let (intact, header) =
            decode_key-Makes (start_decoding now pooled bytes) (ground arith) in
          ((==_iff (crc32 (take 25 bytes)) (get_u32 bytes 25)).0 agrees, header, intact)
      | inr differs ↦ absurd (ground arith)
    ]
  ]
