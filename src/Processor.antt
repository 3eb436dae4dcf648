-- ===== src/Processor.antt =====
-- message_processor.go: the messages of defaultMessageProcessor, and their headers of 29
-- bytes; Coding has the encoding and decoding, where CRC-32 is the parameter `crc32`, and Checking
-- the validators and filters.
-- Pointers are not nil; a message's context and its cancel function are left out, since no
-- operation reads them. Times are nanoseconds.
pub mod Encoding
pub mod RoundTrip
pub mod Stream
pub mod Integrity
pub mod Batch
pub mod Checking
pub mod Coding
mod Tests
use pointsub.Base.{
  ℕ, ◌+◌, ◌-◌, ◌*◌, ◌/◌, ◌%◌, ◌^◌, Bool, true, false, ◌&&◌, not, Option, none, some, List, [], ◌∷◌,
  ◌++◌, ltb, leb, ◌==◌, if◌then◌else◌, length, get_or, take, drop,
}
use pointsub.Base.Bytes.{Bytes, u8, u16, u32, put_u16, put_u32, get_u16, get_u32}
use pointsub.Base.Text.{codes}
use pointsub.Errors.{GoError, plain}
use pointsub.Frame.{Result, ok, err}
use pointsub.Frame.Io.{Read, Sink, read_full, write}

abbrev pub default_max_body_size : ℕ
default_max_body_size = 10485760

abbrev pub message_header_size : ℕ
message_header_size = 29

pub data MessageStatus : Type 0 where
  created pending sending sent acknowledged failed cancelled : MessageStatus

abbrev pub message_flag_compressed : ℕ
message_flag_compressed = 1

abbrev pub message_flag_ack_required : ℕ
message_flag_ack_required = 16

abbrev pub message_flag_retransmitted : ℕ
message_flag_retransmitted = 32

-- The timestamp is the bit pattern of the int64.
pub record MessageHeader : Type 0 where
  pub version : ℕ
  pub priority : ℕ
  pub message_type : ℕ
  pub flags : ℕ
  pub id : ℕ
  pub body_length : ℕ
  pub timestamp : ℕ
  pub ttl : ℕ
  pub routing_key_length : ℕ
  pub checksum : ℕ
  pub body_checksum : ℕ

-- A body that is nil is one of no bytes.
pub record Message : Type 0 where
  pub header : MessageHeader
  pub routing_key : Bytes
  pub body : Bytes
  pub status : MessageStatus
  pub created_at : ℕ
  pub updated_at : ℕ
  pub retry_count : ℕ
  pub next_retry : ℕ
  pub raw_data : Option Bytes

-- `MessageMiddleware`.
pub record Middleware : Type 0 where
  pub pre_process : Message → Result Message
  pub post_process : Message → Result Message

-- `defaultMessageProcessor` without its pools.
pub record Processor : Type 0 where
  pub max_body_size : ℕ
  pub header_size : ℕ
  pub middleware : Option Middleware
  pub filters : List (Message → Bool)
  pub process_counter : ℕ  -- uint64

-- `NewDefaultMessageProcessor` with no options.
abbrev pub new_default_message_processor : Processor
new_default_message_processor = record {
  max_body_size = default_max_body_size;
  header_size = message_header_size;
  middleware = none;
  filters = [];
  process_counter = 0;
}

-- `WithMaxBodySize`, `WithMessageMiddleware` and `WithMessageFilter`.
abbrev pub with_max_body_size : ℕ → Processor → Processor
with_max_body_size n p = record p { max_body_size = n }

abbrev pub with_message_middleware : Middleware → Processor → Processor
with_message_middleware middleware p = record p { middleware = some middleware }

abbrev pub with_message_filter : (Message → Bool) → Processor → Processor
with_message_filter filter p = record p { filters = p.filters ++ filter ∷ [] }

-- `SetMiddleware`.
abbrev pub set_middleware : Option Middleware → Processor → Processor
set_middleware middleware p = record p { middleware = middleware }

-- The steps that the operations take where there is a middleware.
unfoldable pub pre_process : Option Middleware → Message → Result Message
pre_process none msg = ok msg
pre_process (some m) msg = m.pre_process msg

unfoldable pub post_process : Option Middleware → Message → Result Message
post_process none msg = ok msg
post_process (some m) msg = m.post_process msg

-- PutUint64 followed by `rest`, and Uint64.
abbrev pub put_u64 : ℕ → Bytes → Bytes
put_u64 n rest = put_u32 (n / 4294967296) (put_u32 (n % 4294967296) rest)

abbrev pub get_u64 : Bytes → ℕ → ℕ
get_u64 bs i = get_u32 bs i * 4294967296 + get_u32 bs (i + 4)

-- The lengths that EncodeMessage writes into the header.
unfoldable pub measure : Message → Message
measure msg = record msg {
  header = record msg.header {
    routing_key_length = length msg.routing_key;
    body_length = u32 (length msg.body);
  };
}

-- The bytes of the header before its checksum, followed by `rest`.
abbrev pub put_header : MessageHeader → Bytes → Bytes
put_header h rest =
    (h.version * 16 % 256 + h.priority % 16)
    ∷ (h.message_type % 16 * 16 + h.flags % 16)
    ∷ put_u32 h.id (
        put_u32 h.body_length (
          put_u64 h.timestamp
            (put_u16 h.ttl (h.routing_key_length ∷ put_u32 h.body_checksum rest))))

-- The header of the bytes; its `Checksum` is not set.
unfoldable pub get_header : MessageHeader → Bytes → MessageHeader
get_header old bytes = record old {
  version = get_or bytes 0 0 / 16;
  priority = get_or bytes 0 0 % 16;
  message_type = get_or bytes 1 0 / 16 % 16;
  flags = get_or bytes 1 0 % 16;
  id = get_u32 bytes 2;
  body_length = get_u32 bytes 6;
  timestamp = get_u64 bytes 10;
  ttl = get_u16 bytes 18;
  routing_key_length = get_or bytes 20 0;
  body_checksum = get_u32 bytes 21;
}

-- A message of the pool with the header of the bytes.
unfoldable pub start_decoding : ℕ → Message → Bytes → Message
start_decoding now pooled bytes = record pooled {
  created_at = now;
  updated_at = now;
  status = created;
  retry_count = 0;
  raw_data = none;
  header = get_header pooled.header bytes;
}

-- The end of DecodeMessage.
unfoldable pub finish_decoding : Processor → Message → Processor × Result Message
finish_decoding p msg = elim (post_process p.middleware msg) [
  | err e ↦ (p, err e)
  | ok msg' ↦ (record p { process_counter = (p.process_counter + 1) % 2 ^ 64 }, ok msg')
]
