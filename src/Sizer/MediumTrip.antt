-- ===== src/Sizer/MediumTrip.antt =====
-- message_sizer.go: Send of mediumMessageStrategy against its Receive.
use pointsub.Base.{
  ℕ, zero, suc, ◌+◌, ◌≤◌, ◌<◌, ◌≡◌, refl, ap, sym, Bool, true, false, ◌&&◌, none, some, [], ◌∷◌,
  ◌++◌, ltb, if◌then◌else◌, length, take, drop, arith, append_assoc, append-nil, length-take,
  length-drop, le→ltb, lt→ltb, length-append,
}
use pointsub.Base.Bytes.{Bytes}
use pointsub.Frame.{ok, decode_header, check_size, flag_normal, flag_fragmented, flag_last_frame}
use pointsub.Frame.Writing.{frame_of}
use pointsub.Transporter.{bit}
use pointsub.Transporter.Sending.{Admits, open_sink}
use pointsub.Sizer.{optimize_params}
use pointsub.Sizer.Huge.{after_chunk, after_frame}
use pointsub.Sizer.HugeLoops.{write_frame-open, read_frame-frame_of, bit-lt}
use pointsub.Sizer.Medium.{
  is_empty, send_medium_chunks, medium_send, check_medium_frame, receive_first, medium_receive,
  blank_header, after_decode,
}

blank_header_lem :
    (max_frame_size : ℕ)
    → decode_header max_frame_size blank_header ≡ ok (record { size = 0; checksum = 0; flags = 0 })
unfolding decode_header check_size
blank_header_lem max_frame_size = ground arith

-- OptimizeParams for the sizes of the medium strategy.
medium_params :
    (size : ℕ)
    → 16384 ≤ size
    → size < 131072
    → ((optimize_params size).use_chunking ≡ true) × ((optimize_params size).chunk_size ≡ 4096)
unfolding optimize_params
medium_params size low high = ground arith

-- The flags of the first of several chunks.
first_flags :
    (bytes : Bytes)
    → 0 < length bytes
    → bit true flag_fragmented + bit (is_empty bytes) flag_last_frame ≡ flag_fragmented
first_flags [] more = absurd (omega arith)
first_flags (b ∷ bs) more = refl

length-frame_of-pos :
    (crc32 : Bytes → ℕ) (bytes : Bytes) (flags : ℕ) → 0 < length (frame_of crc32 bytes flags)
length-frame_of-pos crc32 bytes flags = ground arith

module _ (crc32 : Bytes → ℕ) (max_frame_size : ℕ) (crc32_range : (d : Bytes) → crc32 d < 4294967296)
    (admits : Admits max_frame_size 65536) where
  -- The first frame is all that Receive takes.
  medium_receive-frame :
      (bytes rest : Bytes) (flags : ℕ)
      → 12 ≤ length bytes
      → length bytes ≤ 65536
      → flags < 4294967296
      → medium_receive crc32 max_frame_size (frame_of crc32 bytes flags ++ rest)
        ≡ some (ok bytes, rest)
  unfolding medium_receive receive_first check_medium_frame
  medium_receive-frame bytes rest flags long size range =
      rw
        (
          read_frame-frame_of crc32 max_frame_size crc32_range admits bytes rest flags size range,
          after_frame,
        )
        (rw (le→ltb (length bytes) 12 long, if◌then◌else◌)
          (rw (blank_header_lem max_frame_size, after_decode) refl))

  send_medium_chunks-open :
      (fuel k : ℕ) (first : Bool) (bytes : Bytes)
      → length bytes < fuel
      → k < 65536
      → (stream : Bytes) × ((before : Bytes)
          → send_medium_chunks crc32 max_frame_size fuel (suc k) first bytes (open_sink before)
            ≡ some (none, open_sink (before ++ stream)))
        × (0 < length bytes → 0 < length stream)
  unfolding send_medium_chunks
  send_medium_chunks-open zero k first bytes enough small = absurd (omega arith)
  send_medium_chunks-open (suc fuel) k first [] enough small =
      ([], λ before. ap (λ t. some (none, open_sink t)) (sym (append-nil before)), λ more. more)
  send_medium_chunks-open (suc fuel) k first (b ∷ bs) enough small =
      let flags : ℕ = bit first flag_fragmented + bit (is_empty (drop k bs)) flag_last_frame in
      let frame = frame_of crc32 (b ∷ take k bs) flags in
      let (stream, sends, _) =
        send_medium_chunks-open fuel k false (drop k bs) (omega (arith, length-drop k bs)) small in
      (
        frame ++ stream,
        λ before.
            rw
              (
                write_frame-open crc32 max_frame_size crc32_range admits before (b ∷ take k bs)
                    flags (omega (arith, length-take k bs)),
                after_chunk,
              )
              (rw (sends (before ++ frame))
                (ap (λ t. some (none, open_sink t)) (append_assoc before frame stream))),
        λ _.
            omega
              (arith, length-append frame stream, length-frame_of-pos crc32 (b ∷ take k bs) flags),
      )

  -- A message that Send of mediumMessageStrategy writes in one frame comes back from its Receive as it
  -- was, and what follows is left, if it has from 12 to 65536 bytes. The limit of the frames
  -- admits these.
  pub medium_receive-medium_send :
      (use_chunking : Bool) (chunk_size : ℕ) (bytes sent : Bytes)
      → (use_chunking && ltb chunk_size (length bytes)) ≡ false
      → 12 ≤ length bytes
      → length bytes ≤ 65536
      → (stream : Bytes) × (medium_send crc32 max_frame_size use_chunking chunk_size
            (open_sink sent)
            bytes
          ≡ some (none, open_sink (sent ++ stream)))
        × ((rest : Bytes)
            → medium_receive crc32 max_frame_size (stream ++ rest) ≡ some (ok bytes, rest))
  unfolding medium_send
  medium_receive-medium_send use_chunking chunk_size bytes sent whole long size = (
    frame_of crc32 bytes flag_normal,
    rw (whole, medium_send)
        (ap some
          (write_frame-open crc32 max_frame_size crc32_range admits sent bytes flag_normal size)),
    λ rest. medium_receive-frame bytes rest flag_normal long size (omega arith),
  )

  -- The first chunk of a message that is sent in chunks is all that comes back.
  first_chunk :
      (k b : ℕ) (bs sent : Bytes)
      → 12 ≤ suc k
      → k < 65536
      → suc k < length (b ∷ bs)
      → (stream left : Bytes) × (medium_send crc32 max_frame_size true
            (suc k)
            (open_sink sent)
            (b ∷ bs)
          ≡ some (none, open_sink (sent ++ stream)))
        × ((rest : Bytes)
            → medium_receive crc32 max_frame_size (stream ++ rest)
              ≡ some (ok (take (suc k) (b ∷ bs)), left ++ rest))
        × (stream ≡ frame_of crc32 (take (suc k) (b ∷ bs)) flag_fragmented ++ left)
        × (0 < length left)
  unfolding medium_send send_medium_chunks
  first_chunk k b bs sent long small chunks =
      let flags : ℕ = bit true flag_fragmented + bit (is_empty (drop k bs)) flag_last_frame in
      let frame = frame_of crc32 (b ∷ take k bs) flags in
      let more : 0 < length (drop k bs) = omega (arith, length-drop k bs) in
      let (left, sends, some_left) =
        send_medium_chunks-open (length (b ∷ bs)) k false (drop k bs)
          (omega (arith, length-drop k bs)) small in
      (
        frame ++ left,
        left,
        rw (lt→ltb (suc k) (length (b ∷ bs)) chunks, if◌then◌else◌)
            (rw
              (
                write_frame-open crc32 max_frame_size crc32_range admits sent (b ∷ take k bs) flags
                    (omega (arith, length-take k bs)),
                after_chunk,
              )
              (rw (sends (sent ++ frame))
                (ap (λ t. some (none, open_sink t)) (append_assoc sent frame left)))),
        λ rest. rw (append_assoc frame left rest) (
            medium_receive-frame (b ∷ take k bs) (left ++ rest) flags
              (omega (arith, length-take k bs)) (omega (arith, length-take k bs))
              (bit-lt true (is_empty (drop k bs)))),
        ap (λ f. frame_of crc32 (b ∷ take k bs) f ++ left) (first_flags (drop k bs) more),
        some_left more,
      )

  -- Of a message from 16384 to 131071 bytes that Send of mediumMessageStrategy writes with the parameters
  -- of OptimizeParams, Receive gives the first 4096 bytes without an error, and takes no more from
  -- the connection than their frame, the first of those written: all that was written after it is
  -- left, and this is not empty. The limit of the frames admits 65536 bytes.
  pub medium_receive-optimize_params :
      (bytes sent : Bytes)
      → 16384 ≤ length bytes
      → length bytes < 131072
      → (stream left : Bytes) × (medium_send crc32 max_frame_size
            (optimize_params (length bytes)).use_chunking
            (optimize_params (length bytes)).chunk_size
            (open_sink sent)
            bytes
          ≡ some (none, open_sink (sent ++ stream)))
        × ((rest : Bytes)
            → medium_receive crc32 max_frame_size (stream ++ rest)
              ≡ some (ok (take 4096 bytes), left ++ rest))
        × (stream ≡ frame_of crc32 (take 4096 bytes) flag_fragmented ++ left)
        × (0 < length left)
  medium_receive-optimize_params [] sent low high = absurd (omega arith)
  medium_receive-optimize_params (b ∷ bs) sent low high =
      let (chunking, chunk) = medium_params (length (b ∷ bs)) low high in
      rw (chunking, chunk) (first_chunk 4095 b bs sent (omega arith) (omega arith) (omega arith))
