-- ===== src/Processor/Tests.antt =====
-- Runs of the message processor, and its theorems at concrete inputs.
use pointsub.Base.{
  ◌+◌, ◌%◌, ◌^◌, ◌≡◌, refl, false, none, some, [], ◌∷◌, ◌++◌, has_flag, arith, filter, take,
}
use pointsub.Base.Bytes.{Bytes, get_u32}
use pointsub.Base.Samples.{hello, sum32, sum32-lt}
use pointsub.Frame.{ok}
use pointsub.Frame.Io.{Sink}
use pointsub.Processor.{
  MessageHeader, Message, Processor, created, new_default_message_processor, get_header,
  pre_process, post_process, message_flag_ack_required, message_flag_retransmitted,
}
use pointsub.Processor.Coding.{encode_message, decode_message, read_message, write_message}
use pointsub.Processor.Encoding.{IsEncodable, encoding, decoded, decode_message-encoding}
use pointsub.Processor.RoundTrip.{stamped, filled, encode_message-encoding, decode_message-flags}
use pointsub.Processor.Stream.{read_message-write_message, arriving}
use pointsub.Processor.Integrity.{IsIntact, decode_message-IsIntact}
use pointsub.Processor.Checking.{
  validate_message, apply_filters, process_one, through_middleware, process_messages, expired, age,
}
use pointsub.Processor.Batch.{accepts, process_messages-filter, validate_message-decode_message}

abbrev letter_header : MessageHeader
letter_header = record {
  version = 1;
  priority = 2;
  message_type = 0;
  flags = 18;
  id = 7;
  body_length = 0;
  timestamp = 0;
  ttl = 30;
  routing_key_length = 0;
  checksum = 0;
  body_checksum = 0;
}

-- A message that asks for an acknowledgement, with the flag of encryption.
abbrev letter : Message
letter = record {
  header = letter_header;
  routing_key = 97 ∷ 98 ∷ [];
  body = hello;
  status = created;
  created_at = 0;
  updated_at = 0;
  retry_count = 0;
  next_retry = 0;
  raw_data = none;
}

abbrev processor : Processor
processor = new_default_message_processor

letter-IsEncodable : IsEncodable (stamped 1000 letter_header)
letter-IsEncodable = omega arith

abbrev sink : Sink
sink = record { sent = 1 ∷ []; room = none }

read_message-write_message_example :
    (msg' : Message) × (bytes : Bytes) × (d : Message) × (q' : Processor) × (write_message sum32
        processor 1000 letter sink
      ≡ (none, (msg', record { sent = sink.sent ++ bytes; room = none })))
    × (read_message sum32 processor 2000 letter (bytes ++ hello) ≡ ((q', ok d), hello))
    × (d.routing_key ≡ letter.routing_key)
    × (d.body ≡ letter.body)
    × (d.header ≡ arriving sum32 1000 letter letter)
read_message-write_message_example =
    read_message-write_message sum32 sum32-lt processor processor 1000 2000 letter letter sink hello
      refl refl refl refl refl (omega arith) (omega arith) (omega arith) letter-IsEncodable

abbrev posted : Bytes
posted = encoding sum32 letter.routing_key hello (stamped 1000 letter_header)

abbrev arrived : Message
arrived = decoded sum32 2000 letter letter.routing_key hello (stamped 1000 letter_header)

abbrev counted : Processor
counted = record processor { header_size = 29; process_counter = (0 + 1) % 2 ^ 64 }

posted_lem :
    encode_message sum32 processor 1000 letter
    ≡ (record (filled sum32 1000 letter) { raw_data = some posted }, ok posted)
posted_lem =
    encode_message-encoding sum32 processor 1000 letter refl (omega arith) (omega arith)
      (omega arith)

arrived_lem : decode_message sum32 processor 2000 letter posted ≡ (counted, ok arrived)
arrived_lem =
    decode_message-encoding sum32 sum32-lt processor 2000 letter letter.routing_key hello
      (stamped 1000 letter_header) refl refl letter-IsEncodable (omega arith)

decode_message-flags_example :
    (arrived.header.flags ≡ letter.header.flags % 16)
    × (has_flag arrived.header.flags message_flag_ack_required ≡ false)
    × (has_flag arrived.header.flags message_flag_retransmitted ≡ false)
decode_message-flags_example =
    decode_message-flags sum32 sum32-lt processor processor counted 1000 2000 letter
      (record (filled sum32 1000 letter) { raw_data = some posted }) letter arrived posted refl refl
      refl (omega arith) (omega arith) (omega arith) letter-IsEncodable posted_lem arrived_lem

decode_message-IsIntact_example :
    (sum32 (take 25 posted) ≡ get_u32 posted 25)
    × (arrived.header ≡ get_header letter.header posted)
    × IsIntact sum32 posted arrived
decode_message-IsIntact_example =
    decode_message-IsIntact sum32 posted processor counted arrived refl 2000 letter arrived_lem

still_fresh : expired 2000 arrived.header ≡ false
unfolding expired age
still_fresh = refl

validate_message-decode_message_example : validate_message processor 2000 arrived ≡ none
unfolding sum32
validate_message-decode_message_example =
    validate_message-decode_message sum32 posted processor counted 2000 2000 letter arrived
      (omega arith) refl arrived_lem (omega arith) (omega arith) still_fresh

process_messages-filter_example :
    process_messages processor 2000 (arrived ∷ letter ∷ [])
    ≡ filter (accepts processor 2000) (arrived ∷ letter ∷ [])
process_messages-filter_example =
    process_messages-filter processor 2000 (arrived ∷ letter ∷ []) refl

-- The message that arrived is let through; the one that was never encoded has wrong lengths.
only_arrived : process_messages processor 2000 (arrived ∷ letter ∷ []) ≡ arrived ∷ []
unfolding process_messages process_one validate_message expired age apply_filters sum32
    through_middleware pre_process post_process
only_arrived = refl
