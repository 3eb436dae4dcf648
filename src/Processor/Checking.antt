-- ===== src/Processor/Checking.antt =====
-- message_processor.go: ValidateMessage, ApplyFilters, ProcessMessages and ReleaseMessage.
use pointsub.Base.{
  ℕ, ◌+◌, ◌-◌, ◌*◌, Bool, true, ◌&&◌, not, Option, none, some, List, [], ◌∷◌, ltb, ◌==◌,
  if◌then◌else◌, length,
}
use pointsub.Base.Bytes.{u8, u32}
use pointsub.Base.Text.{codes}
use pointsub.Errors.{GoError, plain}
use pointsub.Frame.{ok, err}
use pointsub.Processor.{
  MessageHeader, Message, Middleware, Processor, created, pre_process, post_process,
}

-- The nanoseconds since the timestamp, which is negative from 2^63 on; none before it.
unfoldable pub age : ℕ → ℕ → ℕ
age now timestamp =
    if ltb timestamp 9223372036854775808
    then now - timestamp
    else now + (18446744073709551616 - timestamp)

unfoldable pub expired : ℕ → MessageHeader → Bool
unfolding age
expired now h = ltb 0 h.ttl && ltb (h.ttl * 1000000000) (age now h.timestamp)

-- `ValidateMessage`.
unfoldable pub validate_message : Processor → ℕ → Message → Option GoError
validate_message p now msg =
    if msg.header.version == 0
    then some (plain (codes "无效的消息版本"))
    else if ltb (u32 p.max_body_size) msg.header.body_length
    then some (plain (codes "消息体超过最大限制"))
    else if not (msg.header.body_length == u32 (length msg.body))
    then some (plain (codes "消息体长度与头部声明不符"))
    else if not (msg.header.routing_key_length == u8 (length msg.routing_key))
    then some (plain (codes "路由键长度与头部声明不符"))
    else if expired now msg.header
    then some (plain (codes "消息已过期"))
    else none

-- `ApplyFilters`.
unfoldable pub apply_filters : List (Message → Bool) → Message → Bool
apply_filters [] msg = true
apply_filters (filter ∷ filters) msg = filter msg && apply_filters filters msg

-- What PreProcess and then PostProcess make of a message; `none` where one of them fails.
unfoldable pub through_middleware : Option Middleware → Message → Option Message
through_middleware middleware msg = elim (pre_process middleware msg) [
  | err e ↦ none
  | ok msg' ↦ elim (post_process middleware msg') [ err e ↦ none | ok msg'' ↦ some msg'' ]
]

-- The round of ProcessMessages for one message: `none` where it goes on with the next.
unfoldable pub process_one : Processor → ℕ → Message → Option Message
process_one p now msg = elim (validate_message p now msg) [
  | some e ↦ none
  | none ↦ if apply_filters p.filters msg then through_middleware p.middleware msg else none
]

-- `ProcessMessages`, which gives no error; the clock reads the same for all the messages.
unfoldable pub process_messages : Processor → ℕ → List Message → List Message
process_messages p now [] = []
process_messages p now (msg ∷ msgs) =
    let results = process_messages p now msgs in
    elim (process_one p now msg) [ none ↦ results | some msg' ↦ msg' ∷ results ]

-- `ReleaseMessage`: what the message is when it goes back to the pool.
unfoldable pub release_message : Message → Message
release_message msg = record msg {
  header = record {
    version = 0;
    priority = 0;
    message_type = 0;
    flags = 0;
    id = 0;
    body_length = 0;
    timestamp = 0;
    ttl = 0;
    routing_key_length = 0;
    checksum = 0;
    body_checksum = 0;
  };
  routing_key = [];
  body = [];
  status = created;
  retry_count = 0;
  next_retry = 0;
  raw_data = none;
}
