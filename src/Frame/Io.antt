-- ===== src/Frame/Io.antt =====
-- frame_processor.go: ReadFrameWithFlags, ReadFrame and WriteFrame. What comes from a reader is the
-- list of the bytes before its end of stream; a sink is a connection with the bytes that it took
-- and, if it is going to break, the number of bytes that it still takes and the error that every
-- later write gives. The deadlines that
-- ReadFrameWithFlags sets bound the wait and not the bytes, so they have no part here.
use pointsub.Base.{
  ℕ, ◌-◌, Bool, true, Option, none, some, [], ◌∷◌, ◌++◌, ltb, leb, ◌==◌, if◌then◌else◌, length,
  get_or, take, drop, has_flag, set_flag,
}
use pointsub.Base.Bytes.{Bytes, u8}
use pointsub.Errors.{GoError, eof, unexpected_eof, checksum_mismatch}
use pointsub.Frame.{Result, ok, err, FrameHeader, encode_header, decode_header, flag_compact}

-- A read gives its result and the bytes that are left.
abbrev pub Read : Type 0 → Type 0
Read A = Bytes → Result A × Bytes

abbrev pub after : {A B : Type 0} → Result A × Bytes → (A → Read B) → Result B × Bytes
after (ok a, s) f = f a s
after (err e, s) f = (err e, s)

infixl 5 ◌>>=◌
abbrev pub ◌>>=◌ : {A B : Type 0} → Read A → (A → Read B) → Read B
◌>>=◌ m f s = after (m s) f

abbrev pub pure : {A : Type 0} → A → Read A
pure a s = (ok a, s)

abbrev pub fail : {A : Type 0} → GoError → Read A
fail e s = (err e, s)

abbrev pub lift : {A : Type 0} → Result A → Read A
lift r s = (r, s)

-- `io.ReadFull` into a buffer of n bytes: fewer bytes are taken and lost, and the error tells
-- whether there was any. A buffer of no bytes is filled without reading.
unfoldable pub read_full : ℕ → Read Bytes
read_full n s =
    if leb n (length s)
    then (ok (take n s), drop n s)
    else if length s == 0
    then (err eof, [])
    else (err unexpected_eof, [])

pub record Sink : Type 0 where
  pub sent : Bytes
  pub room : Option (ℕ × GoError)

-- `writer.Write`: everything, or as much as there is room for and the error of the connection.
unfoldable pub write_within : Bytes → Option (ℕ × GoError) → Bytes → Option GoError × Sink
write_within sent none bytes = (none, record { sent = sent ++ bytes; room = none })
write_within sent (some (room, e)) bytes =
    if leb (length bytes) room
    then (none, record { sent = sent ++ bytes; room = some (room - length bytes, e) })
    else (some e, record { sent = sent ++ take room bytes; room = some (0, e) })

unfoldable pub write : Sink → Bytes → Option GoError × Sink
write w bytes = write_within w.sent w.room bytes

abbrev pub is_compact_frame : Bytes → Bool
is_compact_frame header = has_flag (get_or header 3 0) flag_compact

-- The rest of a standard header is read when the fourth byte has no compact flag.
unfoldable pub read_rest_of_header : Bytes → Read Bytes
read_rest_of_header first =
    if is_compact_frame first
    then pure first
    else do remaining ← read_full 8; pure (first ++ remaining)

-- The two writes of WriteFrame: the header, then the data if there is any.
unfoldable pub write_parts : Option GoError × Sink → Bytes → Option GoError × Sink
write_parts (some e, w) bytes = (some e, w)
write_parts (none, w) [] = (none, w)
write_parts (none, w) (b ∷ bs) = write w (b ∷ bs)

-- `defaultFrameProcessor`: its limit, and CRC-32 of the standard library, `CalculateChecksum`.
module _ (crc32 : Bytes → ℕ) where
  -- `VerifyData`.
  unfoldable pub verify_data : Bytes → ℕ → Bool
  verify_data bytes expected = crc32 bytes == expected

  -- The test of the checksum at the end of ReadFrameWithFlags; a checksum of 0 is not tested.
  unfoldable pub checksum_matches : Bool → Bytes → ℕ → Bool
  checksum_matches is_compact bytes checksum =
      if checksum == 0
      then true
      else if is_compact
      then u8 (crc32 bytes) == u8 checksum
      else verify_data bytes checksum

  unfoldable pub read_body : Bool → FrameHeader → Read (Bytes × ℕ)
  read_body is_compact h = if h.size == 0 then pure ([], h.flags) else do
    bytes ← read_full h.size
    if checksum_matches is_compact bytes h.checksum
        then pure (bytes, h.flags)
        else fail checksum_mismatch

module _ (crc32 : Bytes → ℕ) (max_frame_size : ℕ) where
  -- `ReadFrameWithFlags`.
  unfoldable pub read_frame_with_flags : Read (Bytes × ℕ)
  read_frame_with_flags = do
    first ← read_full 4
    header ← read_rest_of_header first
    h ← lift (decode_header max_frame_size header)
    read_body crc32 (is_compact_frame first) h

  -- `ReadFrame`, which does the same and drops the flags.
  unfoldable pub read_frame : Read Bytes
  read_frame = do (bytes, flags) ← read_frame_with_flags; pure bytes

  -- `WriteFrame`.
  unfoldable pub write_frame : Sink → Bytes → ℕ → Option GoError × Sink
  write_frame w bytes flags =
      let flags' : ℕ = if ltb (length bytes) 65536 then set_flag flags flag_compact else flags in
      elim (encode_header max_frame_size (length bytes) (crc32 bytes) flags') [
        | err e ↦ (some e, w)
        | ok header ↦ write_parts (write w header) bytes
      ]
