-- ===== src/Sizer/Medium.antt =====
-- message_sizer.go: Send and Receive of mediumMessageStrategy, by a frame processor with a limit. The deadlines and
-- delays have no part in the bytes.
use pointsub.Base.{
  ℕ, zero, suc, ◌+◌, Bool, true, false, ◌&&◌, Option, none, some, [], ◌∷◌, ◌++◌, ltb, if◌then◌else◌,
  length, take, drop, replicate, has_flag,
}
use pointsub.Base.Bytes.{Bytes}
use pointsub.Errors.{GoError, invalid_header_format}
use pointsub.Frame.{
  Result, ok, err, FrameHeader, decode_header, default_header_size, flag_normal, flag_fragmented,
  flag_last_frame,
}
use pointsub.Frame.Io.{Sink, write_frame, read_frame}
use pointsub.Transporter.{bit}
use pointsub.Sizer.Huge.{after_chunk, after_frame}

abbrev pub is_empty : Bytes → Bool
is_empty [] = true
is_empty (b ∷ bs) = false

-- `make([]byte, DefaultHeaderSize)`, which Receive decodes.
abbrev pub blank_header : Bytes
blank_header = replicate default_header_size 0

abbrev pub after_decode :
    (FrameHeader → Option (Result Bytes × Bytes))
    → Bytes
    → Result FrameHeader
    → Option (Result Bytes × Bytes)
after_decode next s (ok h) = next h
after_decode next s (err e) = some (err e, s)

module _ (crc32 : Bytes → ℕ) (max_frame_size : ℕ) where
  -- The loop of Send over the chunks, for so many rounds at most; `none` says that it was not over by then.
  unfoldable pub send_medium_chunks : ℕ → ℕ → Bool → Bytes → Sink → Option (Option GoError × Sink)
  send_medium_chunks zero chunk_size first bytes w = none
  send_medium_chunks (suc fuel) chunk_size first [] w = some (none, w)
  send_medium_chunks (suc fuel) chunk_size first (b ∷ bs) w =
      after_chunk (send_medium_chunks fuel chunk_size false (drop chunk_size (b ∷ bs))) (
        write_frame crc32 max_frame_size w (take chunk_size (b ∷ bs))
          (bit first flag_fragmented + bit (is_empty (drop chunk_size (b ∷ bs))) flag_last_frame))

  -- Send of mediumMessageStrategy with the parameters UseChunking and ChunkSize.
  unfoldable pub medium_send : Bool → ℕ → Sink → Bytes → Option (Option GoError × Sink)
  medium_send use_chunking chunk_size w bytes =
      if use_chunking && ltb chunk_size (length bytes)
      then send_medium_chunks (suc (length bytes)) chunk_size true bytes w
      else some (write_frame crc32 max_frame_size w bytes flag_normal)

  -- What Receive does with a frame and the header that it decodes.
  unfoldable pub check_medium_frame :
      (FrameHeader → Option (Result Bytes × Bytes)) → Bytes → Bytes → Option (Result Bytes × Bytes)
  check_medium_frame next frame s =
      if ltb (length frame) default_header_size
      then some (err invalid_header_format, s)
      else after_decode next s (decode_header max_frame_size blank_header)

  -- The loop of Receive over the other fragments, for so many rounds at most.
  unfoldable pub receive_fragments : ℕ → ℕ → Bytes → Bytes → Option (Result Bytes × Bytes)
  receive_fragments zero flags got s = none
  receive_fragments (suc fuel) flags got s =
      if has_flag flags flag_last_frame
      then some (ok got, s)
      else after_frame
          (λ frame s'.
            check_medium_frame (λ h. receive_fragments fuel h.flags (got ++ frame) s') frame s')
          (read_frame crc32 max_frame_size s)

  unfoldable pub receive_first : Bytes → Bytes → Option (Result Bytes × Bytes)
  receive_first frame s =
      check_medium_frame
        (λ h.
          if has_flag h.flags flag_fragmented
          then receive_fragments (suc (length s)) h.flags frame s
          else some (ok frame, s))
        frame s

  -- Receive of mediumMessageStrategy.
  unfoldable pub medium_receive : Bytes → Option (Result Bytes × Bytes)
  medium_receive s = after_frame receive_first (read_frame crc32 max_frame_size s)
