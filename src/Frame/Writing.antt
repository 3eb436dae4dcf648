-- ===== src/Frame/Writing.antt =====
-- frame_processor.go: WriteFrame as one write of the whole frame.
use native.Mathlib.Decide.{dec_le}
use pointsub.Base.{
  ℕ, ◌+◌, ◌-◌, ◌/◌, ◌%◌, ◌≤◌, ◌<◌, ◌≡◌, refl, inl, inr, true, false, Option, none, some, [], ◌∷◌,
  ◌++◌, arith, ltb, if◌then◌else◌, set_flag, length, take, length-append, take-append_long,
  take-append_short, append_assoc, append-nil, ltb→lt, ltb-false, Bool-cases,
}
use pointsub.Base.Bytes.{Bytes, u8, put_u32}
use pointsub.Errors.{GoError, frame_too_big}
use pointsub.Frame.{ok, encode_header, too_big, flag_compact}
use pointsub.Frame.Io.{Sink, write_within, write, write_parts, write_frame}

-- The bytes of a frame: the header that the length asks for, and the data.
abbrev pub frame_of : (Bytes → ℕ) → Bytes → ℕ → Bytes
frame_of crc32 bytes flags =
    (if ltb (length bytes) 65536
      then length bytes / 256
        ∷ length bytes % 256
        ∷ u8 (crc32 bytes)
        ∷ u8 (set_flag flags flag_compact)
        ∷ []
      else put_u32 (length bytes) (put_u32 (crc32 bytes) (put_u32 flags [])))
    ++ bytes

pub within_room :
    (sent : Bytes) (room : ℕ) (e : GoError) (bytes : Bytes)
    → length bytes ≤ room
    → write_within sent (some (room, e)) bytes
      ≡ (none, record { sent = sent ++ bytes; room = some (room - length bytes, e) })
unfolding write_within
within_room sent room e bytes h = ground arith

pub beyond_room :
    (sent : Bytes) (room : ℕ) (e : GoError) (bytes : Bytes)
    → room < length bytes
    → write_within sent (some (room, e)) bytes
      ≡ (some e, record { sent = sent ++ take room bytes; room = some (0, e) })
unfolding write_within
beyond_room sent room e bytes h = ground arith

write_parts-within :
    (sent : Bytes) (room : Option (ℕ × GoError)) (header : Bytes) (b : ℕ) (bs : Bytes)
    → write_parts (write_within sent room header) (b ∷ bs)
      ≡ write_within sent room (header ++ (b ∷ bs))
unfolding write_parts write
write_parts-within sent none header b bs =
    unfold write_within in rw (append_assoc sent header (b ∷ bs)) refl
write_parts-within sent (some (room, e)) header b bs = elim (dec_le (length whole) room) [
  | yes fits ↦
      rw (within_room sent room e header (omega (arith, total)), within_room sent room e whole fits)
        (rw (within_room (sent ++ header) (room - length header) e (b ∷ bs) (omega (arith, total)))
          (ground (arith, total, append_assoc sent header (b ∷ bs))))
  | no over ↦ rw (beyond_room sent room e whole (omega arith)) (elim (dec_le (length header) room) [
    | yes header_fits ↦ rw (within_room sent room e header header_fits) (
        rw (beyond_room (sent ++ header) (room - length header) e (b ∷ bs) (omega (arith, total))) (
          ground (
            arith,
            append_assoc sent header (take (room - length header) (b ∷ bs)),
            take-append_long room header (b ∷ bs) header_fits,
          )))
    | no header_over ↦
        rw (beyond_room sent room e header (omega arith))
          (ground (arith, take-append_short room header (b ∷ bs) (omega arith)))
  ])
]
  where
    whole : Bytes
    whole = header ++ (b ∷ bs)

    total : length whole ≡ length header + length (b ∷ bs)
    total = length-append header (b ∷ bs)

-- Two writes, the second only after the first succeeded, are one write of both parts.
write_parts-append :
    (w : Sink) (header bytes : Bytes)
    → write_parts (write w header) bytes ≡ write w (header ++ bytes)
unfolding write_parts write
write_parts-append w header [] = rw (append-nil header) (ground arith)
write_parts-append w header (b ∷ bs) = write_parts-within w.sent w.room header b bs

encode_compact :
    (max_frame_size size checksum flags : ℕ)
    → too_big max_frame_size size ≡ false
    → size < 65536
    → encode_header max_frame_size size checksum (set_flag flags flag_compact)
      ≡ ok (size / 256 ∷ size % 256 ∷ u8 checksum ∷ u8 (set_flag flags flag_compact) ∷ [])
unfolding encode_header
encode_compact max_frame_size size checksum flags fits small = ground arith

encode_standard :
    (max_frame_size size checksum flags : ℕ)
    → too_big max_frame_size size ≡ false
    → 65536 ≤ size
    → size < 4294967296
    → encode_header max_frame_size size checksum flags
      ≡ ok (put_u32 size (put_u32 checksum (put_u32 flags [])))
unfolding encode_header
encode_standard max_frame_size size checksum flags fits large h = ground arith

module _ (crc32 : Bytes → ℕ) (max_frame_size : ℕ) where
  -- WriteFrame of data within the limit and below 2^32 bytes is one write of the frame's bytes, on
  -- every connection, also on one that breaks in the middle.
  pub write_frame-write :
      (w : Sink) (bytes : Bytes) (flags : ℕ)
      → too_big max_frame_size (length bytes) ≡ false
      → length bytes < 4294967296
      → write_frame crc32 max_frame_size w bytes flags ≡ write w (frame_of crc32 bytes flags)
  unfolding write_frame
  write_frame-write w bytes flags fits size = elim (Bool-cases (ltb (length bytes) 65536)) [
    | inl small ↦
        rw (small, write_frame)
          (rw
            (encode_compact max_frame_size (length bytes) (crc32 bytes) flags fits
              (ltb→lt _ _ small))
            (write_parts-append w _ bytes))
    | inr large ↦
        rw (large, write_frame)
          (rw
            (encode_standard max_frame_size (length bytes) (crc32 bytes) flags fits
              (ltb-false _ _ large) size)
            (write_parts-append w _ bytes))
  ]

  -- WriteFrame of data beyond the limit writes nothing.
  pub write_frame-frame_too_big :
      (w : Sink) (bytes : Bytes) (flags : ℕ)
      → too_big max_frame_size (length bytes) ≡ true
      → write_frame crc32 max_frame_size w bytes flags ≡ (some frame_too_big, w)
  unfolding write_frame encode_header
  write_frame-frame_too_big w bytes flags over = rw (over, write_frame, encode_header) refl
