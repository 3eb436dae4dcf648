-- ===== src/Sizer/HugeTrip.antt =====
-- message_sizer.go: Send of hugeMessageStrategy against its Receive.
use pointsub.Base.{
  ℕ, zero, suc, ◌≤◌, ◌<◌, ◌≡◌, refl, ap, true, false, none, some, [], ◌++◌, if◌then◌else◌, length,
  arith, append_assoc, length-append,
}
use pointsub.Base.Bytes.{Bytes}
use pointsub.Errors.{frame_too_big}
use pointsub.Frame.{ok, err, flag_fragmented}
use pointsub.Frame.Writing.{frame_of}
use pointsub.Transporter.Sending.{Admits, open_sink}
use pointsub.Sizer.{optimize_params}
use pointsub.Sizer.Huge.{
  put_u64, get_u64, after_chunk, after_frame, refuses_size, send_rest, huge_send, receive_rest,
  receive_sized, huge_receive,
}
use pointsub.Sizer.HugeLoops.{write_frame-open, read_frame-frame_of, Carries, carries}

get_u64-put_u64 : (n : ℕ) → n < 9223372036854775808 → get_u64 (put_u64 n) ≡ n
get_u64-put_u64 n h = omega arith

refuses_size_unlimited : (n : ℕ) → 0 < n → n < 9223372036854775808 → refuses_size 0 n ≡ false
unfolding refuses_size
refuses_size_unlimited n some_bytes range = ground arith

refuses_size_retries : (n : ℕ) → 4 ≤ n → refuses_size 3 n ≡ true
unfolding refuses_size
refuses_size_retries n enough = ground arith

optimize_params_retries : (size : ℕ) → (optimize_params size).max_retries ≡ 3
unfolding optimize_params
optimize_params_retries size = ground arith

module _ (crc32 : Bytes → ℕ) (max_frame_size : ℕ) (crc32_range : (d : Bytes) → crc32 d < 4294967296)
    (admits : Admits max_frame_size 65536) where
  receive_sized-put_u64 :
      (max_retries n : ℕ) (s : Bytes)
      → n < 9223372036854775808
      → receive_sized crc32 max_frame_size max_retries (put_u64 n) s ≡ (
          if refuses_size max_retries n
          then some (err frame_too_big, s)
          else receive_rest crc32 max_frame_size (suc (length s)) n [] s)
  unfolding receive_sized
  receive_sized-put_u64 max_retries n s range = rw (get_u64-put_u64 n range) refl

  huge_receive-header :
      (max_retries n : ℕ) (stream rest : Bytes)
      → n < 9223372036854775808
      → huge_receive crc32 max_frame_size max_retries
          ((frame_of crc32 (put_u64 n) flag_fragmented ++ stream) ++ rest)
        ≡ (if refuses_size max_retries n
            then some (err frame_too_big, stream ++ rest)
            else receive_rest crc32 max_frame_size
                (suc (length (stream ++ rest)))
                n
                []
                (stream ++ rest))
  unfolding huge_receive
  huge_receive-header max_retries n stream rest range =
      rw (append_assoc (frame_of crc32 (put_u64 n) flag_fragmented) stream rest) (
        rw
          (
            read_frame-frame_of crc32 max_frame_size crc32_range admits (put_u64 n) (stream ++ rest)
                flag_fragmented (omega arith) (omega arith),
            after_frame,
          )
          (receive_sized-put_u64 max_retries n (stream ++ rest) range))

  huge_send-open :
      (chunk_size : ℕ) (bytes sent stream : Bytes)
      → ((before : Bytes)
          → send_rest crc32 max_frame_size
              (suc (length bytes))
              chunk_size
              (length bytes)
              0
              bytes
              (open_sink before)
            ≡ some (none, open_sink (before ++ stream)))
      → huge_send crc32 max_frame_size chunk_size (open_sink sent) bytes
        ≡ some (
          none,
          open_sink (sent ++ (frame_of crc32 (put_u64 (length bytes)) flag_fragmented ++ stream)),
        )
  unfolding huge_send
  huge_send-open chunk_size bytes sent stream sends =
      rw
        (
          write_frame-open crc32 max_frame_size crc32_range admits sent (put_u64 (length bytes))
              flag_fragmented (omega arith),
          after_chunk,
        )
        (rw (sends (sent ++ frame_of crc32 (put_u64 (length bytes)) flag_fragmented)) (
          ap (λ t. some (none, open_sink t))
            (append_assoc sent (frame_of crc32 (put_u64 (length bytes)) flag_fragmented) stream)))

  -- Receive of hugeMessageStrategy without a limit, MaxRetries 0, gives back what its Send wrote in
  -- chunks of at most 65536 bytes, and leaves what follows, for every message that is not empty
  -- and smaller than 2^63 bytes. The limit of the frames admits 65536 bytes.
  pub huge_receive-huge_send :
      (chunk_size : ℕ) (bytes sent : Bytes)
      → 0 < chunk_size
      → chunk_size ≤ 65536
      → 0 < length bytes
      → length bytes < 9223372036854775808
      → (stream : Bytes) × (huge_send crc32 max_frame_size chunk_size (open_sink sent) bytes
          ≡ some (none, open_sink (sent ++ stream)))
        × ((rest : Bytes)
            → huge_receive crc32 max_frame_size 0 (stream ++ rest) ≡ some (ok bytes, rest))
  unfolding Carries
  huge_receive-huge_send zero bytes sent some_chunk small some_bytes range = absurd (omega arith)
  huge_receive-huge_send (suc k) bytes sent some_chunk small some_bytes range =
      let (stream, sends, long, receives) =
        carries crc32 max_frame_size crc32_range admits (suc (length bytes)) k (length bytes) 0
          bytes (omega arith) (omega arith) in
      (
        frame_of crc32 (put_u64 (length bytes)) flag_fragmented ++ stream,
        huge_send-open (suc k) bytes sent stream sends,
        λ rest. rw (huge_receive-header 0 (length bytes) stream rest range) (
            rw (refuses_size_unlimited (length bytes) some_bytes range, if◌then◌else◌)
              (receives (suc (length (stream ++ rest))) [] rest
                (omega (arith, length-append stream rest, long)) (omega arith))),
      )

  -- With the parameters of OptimizeParams, Receive of hugeMessageStrategy refuses with ErrFrameTooBig
  -- every message of 4 bytes and more, and smaller than 2^63 bytes, that its Send wrote in chunks of
  -- at most 65536 bytes. The limit of the frames admits 65536 bytes.
  pub huge_receive-optimize_params :
      (chunk_size : ℕ) (bytes sent : Bytes)
      → 0 < chunk_size
      → chunk_size ≤ 65536
      → 4 ≤ length bytes
      → length bytes < 9223372036854775808
      → (stream left : Bytes) × (huge_send crc32 max_frame_size chunk_size (open_sink sent) bytes
          ≡ some (none, open_sink (sent ++ stream)))
        × ((rest : Bytes)
            → huge_receive crc32 max_frame_size
                (optimize_params (length bytes)).max_retries
                (stream ++ rest)
              ≡ some (err frame_too_big, left ++ rest))
  unfolding Carries
  huge_receive-optimize_params zero bytes sent some_chunk small enough range = absurd (omega arith)
  huge_receive-optimize_params (suc k) bytes sent some_chunk small enough range =
      let (stream, sends, long, receives) =
        carries crc32 max_frame_size crc32_range admits (suc (length bytes)) k (length bytes) 0
          bytes (omega arith) (omega arith) in
      (
        frame_of crc32 (put_u64 (length bytes)) flag_fragmented ++ stream,
        stream,
        huge_send-open (suc k) bytes sent stream sends,
        λ rest. rw (optimize_params_retries (length bytes)) (
            rw (huge_receive-header 3 (length bytes) stream rest range)
              (rw (refuses_size_retries (length bytes) enough, if◌then◌else◌) refl)),
      )
