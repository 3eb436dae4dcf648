-- ===== src/Processor/Coding.antt =====
-- message_processor.go: EncodeMessage, DecodeMessage, ReadMessage and WriteMessage.
use pointsub.Base.{
  ℕ, ◌+◌, Option, none, some, [], ◌++◌, ltb, ◌==◌, if◌then◌else◌, length, get_or, take, drop,
}
use pointsub.Base.Bytes.{Bytes, u32, put_u32, get_u32}
use pointsub.Base.Text.{codes}
use pointsub.Errors.{GoError, plain}
use pointsub.Frame.{Result, ok, err}
use pointsub.Frame.Io.{Sink, read_full, write}
use pointsub.Processor.{
  Message, Middleware, Processor, finish_decoding, measure, message_header_size, post_process,
  pre_process, put_header, start_decoding,
}

module _ (crc32 : Bytes → ℕ) where
  -- The timestamp, if there is none, and the checksum of the body.
  unfoldable pub stamp : ℕ → Message → Message
  stamp now msg = record msg {
    header = record msg.header {
      timestamp = if msg.header.timestamp == 0 then now else msg.header.timestamp;
      body_checksum = if ltb 0 msg.header.body_length then crc32 msg.body else 0;
    };
  }

  -- The header with its checksum, the routing key and the body.
  unfoldable pub message_bytes : Message → Bytes
  message_bytes msg = put_header msg.header (
      put_u32 (crc32 (put_header msg.header []))
        (msg.routing_key ++ (if ltb 0 msg.header.body_length then msg.body else [])))

  -- The end of EncodeMessage: the encoding is kept in the message that PostProcess gives.
  unfoldable pub finish_encoding : Option Middleware → Message → Message × Result Bytes
  finish_encoding middleware msg = elim (post_process middleware msg) [
    | err e ↦ (msg, err e)
    | ok msg' ↦ (record msg' { raw_data = some (message_bytes msg) }, ok (message_bytes msg))
  ]

  unfoldable pub encode_measured : Processor → ℕ → Message → Message × Result Bytes
  encode_measured p now msg =
      if ltb (u32 p.max_body_size) msg.header.body_length
      then (msg, err (plain (codes "消息体超过最大限制")))
      else finish_encoding p.middleware (stamp now msg)

  unfoldable pub encode_processed : Processor → ℕ → Message → Message × Result Bytes
  encode_processed p now msg =
      if ltb 255 (length msg.routing_key)
      then (msg, err (plain (codes "路由键过长")))
      else encode_measured p now (measure msg)

  -- `EncodeMessage`: the message as it is changed, and its bytes.
  unfoldable pub encode_message : Processor → ℕ → Message → Message × Result Bytes
  encode_message p now msg = elim (pre_process p.middleware msg) [
    | err e ↦ (msg, err e)
    | ok msg' ↦ encode_processed p now msg'
  ]

  -- The body, its checksum tested, and what follows.
  unfoldable pub decode_body : Processor → Bytes → Message → Processor × Result Message
  decode_body p bytes msg =
      let start = p.header_size + msg.header.routing_key_length in
      let body = take msg.header.body_length (drop start bytes) in
      if ltb (length bytes) (start + msg.header.body_length)
      then (p, err (plain (codes "数据长度不足以包含消息体")))
      else if ltb 0 msg.header.body_length
      then (if crc32 body == msg.header.body_checksum
          then finish_decoding p (record msg { body = body; raw_data = some bytes })
          else (p, err (plain (codes "消息体校验和不匹配"))))
      else finish_decoding p (record msg { body = []; raw_data = some bytes })

  unfoldable pub decode_key : Processor → Bytes → Message → Processor × Result Message
  decode_key p bytes msg =
      if ltb (length bytes) (p.header_size + msg.header.routing_key_length)
      then (p, err (plain (codes "数据长度不足以包含路由键")))
      else decode_body p bytes (record msg {
        routing_key = take msg.header.routing_key_length (drop p.header_size bytes);
      })

  unfoldable pub decode_checked : Processor → Bytes → Message → Processor × Result Message
  decode_checked p bytes msg =
      if crc32 (take 25 bytes) == get_u32 bytes 25
      then decode_key p bytes msg
      else (p, err (plain (codes "消息头校验和不匹配")))

  -- `DecodeMessage`, into the message that the pool gives.
  unfoldable pub decode_message : Processor → ℕ → Message → Bytes → Processor × Result Message
  decode_message p now pooled bytes =
      if ltb (length bytes) p.header_size
      then (p, err (plain (codes "数据长度不足以包含消息头")))
      else decode_checked (record p { header_size = message_header_size }) bytes
          (start_decoding now pooled bytes)

  -- `ReadMessage` from a `*bufio.Reader`, with the bytes that it leaves.
  unfoldable pub read_rest :
      Processor → ℕ → Message → Bytes → Result Bytes × Bytes → (Processor × Result Message) × Bytes
  read_rest p now pooled header (err e, s) = ((p, err e), s)
  read_rest p now pooled header (ok rest, s) = (decode_message p now pooled (header ++ rest), s)

  unfoldable pub read_sized :
      Processor → ℕ → Message → Result Bytes × Bytes → (Processor × Result Message) × Bytes
  read_sized p now pooled (err e, s) = ((p, err e), s)
  read_sized p now pooled (ok header, s) =
      if ltb (length header) 25
      then ((p, err (plain (codes "头部数据不完整"))), s)
      else read_rest p now pooled header (read_full (get_or header 20 0 + get_u32 header 6) s)

  unfoldable pub read_message :
      Processor → ℕ → Message → Bytes → (Processor × Result Message) × Bytes
  read_message p now pooled s = read_sized p now pooled (read_full p.header_size s)

  -- The end of WriteMessage.
  unfoldable pub write_encoded : Message × Result Bytes → Sink → Option GoError × (Message × Sink)
  write_encoded (msg, err e) w = (some e, (msg, w))
  write_encoded (msg, ok bytes) w = let (e, w') = write w bytes in (e, (msg, w'))

  -- The encoding that the message has, or else a new one.
  unfoldable pub kept_or_encoded : Processor → ℕ → Message → Option Bytes → Message × Result Bytes
  kept_or_encoded p now msg (some raw) = (msg, ok raw)
  kept_or_encoded p now msg none = encode_message p now msg

  -- `WriteMessage`.
  unfoldable pub write_message : Processor → ℕ → Message → Sink → Option GoError × (Message × Sink)
  write_message p now msg w = write_encoded (kept_or_encoded p now msg msg.raw_data) w
