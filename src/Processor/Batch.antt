-- ===== src/Processor/Batch.antt =====
-- message_processor.go: which messages ValidateMessage and ProcessMessages let through.
use pointsub.Base.{
  ℕ, ◌+◌, ◌≤◌, ◌<◌, ◌≡◌, ◌≢◌, ◌↔◌, refl, ap, ◌∙◌, Bool, false, none, some, List, [], ◌∷◌,
  if◌then◌else◌, length, get_or, drop, arith, length-take, length-drop, filter, zero, suc,
}
use pointsub.Base.Bytes.{Bytes, AllBytes, u8, u32, get_u32}
use pointsub.Frame.{ok}
use pointsub.Processor.{Message, Processor, pre_process, post_process, get_header}
use pointsub.Processor.Coding.{decode_message}
use pointsub.Processor.Checking.{
  validate_message, expired, apply_filters, through_middleware, process_one, process_messages,
}
use pointsub.Processor.Integrity.{decode_message-IsIntact}

-- ValidateMessage accepts a message exactly when it has a version, its body is within the limit, its
-- lengths are those of the header in their widths, and it has not expired.
pub validate_message_iff :
    (p : Processor) (now : ℕ) (msg : Message)
    → (validate_message p now msg ≡ none) ↔ (
        (msg.header.version ≢ 0)
        × (msg.header.body_length ≤ u32 p.max_body_size)
        × (msg.header.body_length ≡ u32 (length msg.body))
        × (msg.header.routing_key_length ≡ u8 (length msg.routing_key))
        × (expired now msg.header ≡ false))
unfolding validate_message
validate_message_iff p now msg = ground arith

-- The messages that ProcessMessages lets through when there is no middleware.
abbrev pub accepts : Processor → ℕ → Message → Bool
accepts p now msg = elim (validate_message p now msg) [
  | none ↦ apply_filters p.filters msg
  | some e ↦ false
]

process_one-bare :
    (p : Processor) (now : ℕ) (msg : Message)
    → p.middleware ≡ none
    → process_one p now msg ≡ (if accepts p now msg then some msg else none)
unfolding process_one through_middleware pre_process post_process
process_one-bare p now msg bare = ground arith

-- Without middleware ProcessMessages gives the messages that validate and pass the filters, in
-- their order and unchanged.
pub process_messages-filter :
    (p : Processor) (now : ℕ) (msgs : List Message)
    → p.middleware ≡ none
    → process_messages p now msgs ≡ filter (accepts p now) msgs
unfolding process_messages filter
process_messages-filter p now [] bare = refl
process_messages-filter p now (msg ∷ msgs) bare =
    ground (arith, process_one-bare p now msg bare, process_messages-filter p now msgs bare)

get_or-byte : (bs : Bytes) (i : ℕ) → AllBytes bs → get_or bs i 0 < 256
get_or-byte [] i _ = omega arith
get_or-byte (b ∷ bs) zero bytes = bytes.0
get_or-byte (b ∷ bs) (suc i) bytes = get_or-byte bs i bytes.1

get_u32-lt : (bs : Bytes) (i : ℕ) → AllBytes bs → get_u32 bs i < 4294967296
get_u32-lt bs i bytes = omega (
  arith,
  get_or-byte bs i bytes,
  get_or-byte bs (i + 1) bytes,
  get_or-byte bs (i + 2) bytes,
  get_or-byte bs (i + 3) bytes,
)

-- A message that a processor without middleware decodes from bytes is never refused for its
-- lengths: ValidateMessage accepts it unless it has no version, a body above the limit, or has
-- expired.
pub validate_message-decode_message :
    (crc32 : Bytes → ℕ) (bytes : Bytes) (p q : Processor) (now then' : ℕ) (pooled d : Message)
    → AllBytes bytes
    → p.middleware ≡ none
    → decode_message crc32 p now pooled bytes ≡ (q, ok d)
    → d.header.version ≢ 0
    → d.header.body_length ≤ u32 p.max_body_size
    → expired then' d.header ≡ false
    → validate_message p then' d ≡ none
unfolding get_header
validate_message-decode_message crc32 bytes p q now then' pooled d all bare result version limit
      fresh =
    let (_, header, intact) = decode_message-IsIntact crc32 bytes p q d bare now pooled result in
    let body : length d.body ≡ d.header.body_length =
      ap length intact.body
      ∙ omega (
        arith,
        intact.long_enough,
        length-take d.header.body_length (drop (29 + d.header.routing_key_length) bytes),
        length-drop (29 + d.header.routing_key_length) bytes,
      ) in
    let key : length d.routing_key ≡ d.header.routing_key_length =
      ap length intact.key
      ∙ omega (
        arith,
        intact.long_enough,
        length-take d.header.routing_key_length (drop 29 bytes),
        length-drop 29 bytes,
      ) in
    let body_fits : d.header.body_length < 4294967296 =
      rw (ap (λ h. h.body_length) header) (get_u32-lt bytes 6 all) in
    let key_fits : d.header.routing_key_length < 256 =
      rw (ap (λ h. h.routing_key_length) header) (get_or-byte bytes 20 all) in
    (validate_message_iff p then' d).1 (version, limit, omega arith, omega arith, fresh)
