-- ===== src/Sizer/Huge.antt =====
-- message_sizer.go: Send and Receive of hugeMessageStrategy, by the default frame processor. The
-- deadlines and delays have no part in the bytes. Receive is taken to get the memory that it reserves
-- for the announced size.
use pointsub.Base.{
  ℕ, zero, suc, ◌+◌, ◌*◌, ◌/◌, ◌%◌, Bool, ◌||◌, ◌&&◌, Option, none, some, [], ◌∷◌, ◌++◌, ltb, leb,
  ◌==◌, if◌then◌else◌, length, take, drop,
}
use pointsub.Base.Bytes.{Bytes, put_u32, get_u32}
use pointsub.Base.Text.{codes}
use pointsub.Errors.{GoError, plain, invalid_header_format, frame_too_big}
use pointsub.Frame.{Result, ok, err, flag_fragmented, flag_last_frame}
use pointsub.Frame.Io.{Sink, write_frame, read_frame}
use pointsub.Transporter.{bit}

-- `binary.BigEndian.PutUint64`, and `Uint64` of the first 8 bytes.
abbrev pub put_u64 : ℕ → Bytes
put_u64 n = put_u32 (n / 4294967296) (put_u32 (n % 4294967296) [])

abbrev pub get_u64 : Bytes → ℕ
get_u64 bs = get_u32 bs 0 * 4294967296 + get_u32 bs 4

abbrev pub wrong_size : GoError
wrong_size = plain (codes "接收的数据大小与预期不符")

abbrev pub after_chunk :
    (Sink → Option (Option GoError × Sink)) → Option GoError × Sink → Option (Option GoError × Sink)
after_chunk next (none, w) = next w
after_chunk next (some e, w) = some (some e, w)

-- The buffer and what is left to read, after a frame or its error.
abbrev pub after_frame :
    (Bytes → Bytes → Option (Result Bytes × Bytes))
    → Result Bytes × Bytes
    → Option (Result Bytes × Bytes)
after_frame next (ok frame, s) = next frame s
after_frame next (err e, s) = some (err e, s)

-- The size in the header frame is converted to int, which makes it negative from 2^63 on.
unfoldable pub refuses_size : ℕ → ℕ → Bool
refuses_size max_retries total =
    total == 0 || leb 9223372036854775808 total || ltb 0 max_retries && ltb max_retries total

unfoldable pub finish_huge : ℕ → Bytes → Result Bytes
finish_huge total got = if length got == total then ok got else err wrong_size

module _ (crc32 : Bytes → ℕ) (max_frame_size : ℕ) where
  -- The frame of one Read of Send's loop; none if it gave no data.
  unfoldable pub write_chunk : ℕ → ℕ → Bytes → Sink → Option GoError × Sink
  write_chunk total sent [] w = (none, w)
  write_chunk total sent (b ∷ bs) w =
      write_frame crc32 max_frame_size w (b ∷ bs)
        (bit (sent == 0) flag_fragmented + bit (sent + length (b ∷ bs) == total) flag_last_frame)

  -- The loop of Send, for so many rounds at most; `none` says that it was not over by then.
  unfoldable pub send_rest : ℕ → ℕ → ℕ → ℕ → Bytes → Sink → Option (Option GoError × Sink)
  send_rest zero chunk_size total sent bytes w = none
  send_rest (suc fuel) chunk_size total sent [] w = some (none, w)
  send_rest (suc fuel) chunk_size total sent (b ∷ bs) w =
      after_chunk
        (send_rest fuel chunk_size total (sent + length (take chunk_size (b ∷ bs)))
          (drop chunk_size (b ∷ bs)))
        (write_chunk total sent (take chunk_size (b ∷ bs)) w)

  -- Send of hugeMessageStrategy with the parameter ChunkSize.
  unfoldable pub huge_send : ℕ → Sink → Bytes → Option (Option GoError × Sink)
  huge_send chunk_size w bytes =
      after_chunk (send_rest (suc (length bytes)) chunk_size (length bytes) 0 bytes)
        (write_frame crc32 max_frame_size w (put_u64 (length bytes)) flag_fragmented)

  -- The loop of Receive, for so many rounds at most.
  unfoldable pub receive_rest : ℕ → ℕ → Bytes → Bytes → Option (Result Bytes × Bytes)
  receive_rest zero total got s = none
  receive_rest (suc fuel) total got s =
      if ltb (length got) total
      then after_frame (λ frame. receive_rest fuel total (got ++ frame))
          (read_frame crc32 max_frame_size s)
      else some (finish_huge total got, s)

  unfoldable pub receive_sized : ℕ → Bytes → Bytes → Option (Result Bytes × Bytes)
  receive_sized max_retries header s =
      if ltb (length header) 8
      then some (err invalid_header_format, s)
      else if refuses_size max_retries (get_u64 header)
      then some (err frame_too_big, s)
      else receive_rest (suc (length s)) (get_u64 header) [] s

  -- Receive of hugeMessageStrategy with the parameter MaxRetries.
  unfoldable pub huge_receive : ℕ → Bytes → Option (Result Bytes × Bytes)
  huge_receive max_retries s =
      after_frame (receive_sized max_retries) (read_frame crc32 max_frame_size s)
