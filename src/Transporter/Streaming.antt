-- ===== src/Transporter/Streaming.antt =====
-- message_transporter.go: SendStream against ReceiveStream.
use pointsub.Base.{
  ℕ, suc, ◌≤◌, ◌<◌, ◌≡◌, ◌≢◌, refl, ap, inr, Bool, true, false, none, some, List, [], ◌∷◌, ◌++◌,
  arith, length, concat, length-append,
}
use pointsub.Base.Bytes.{Bytes}
use pointsub.Errors.{eof, as_message}
use pointsub.Errors.Handler.{Handler, new_default}
use pointsub.Frame.{flag_last_frame}
use pointsub.Frame.Io.{Sink}
use pointsub.Transporter.{
  success, send_stream, receive_stream, receive_frames, handle, no_start_marker,
}
use pointsub.Transporter.Sending.{Fit, Admits, open_sink, wire, frames_of, send_chunks-eof}
use pointsub.Transporter.Outcome.{handle-new_default-none}
use pointsub.Transporter.Receiving.{receive_wire, read_stream_frame, accept-unstarted}

frames_of-no_data :
    (first : Bool) (chunks : List Bytes) (last : Bytes)
    → concat chunks ++ last ≡ []
    → frames_of first chunks last ≡ ([], flag_last_frame) ∷ []
frames_of-no_data first [] [] e = refl
frames_of-no_data first [] (b ∷ bs) e = cc
frames_of-no_data first ([] ∷ cs) last e = frames_of-no_data first cs last e
frames_of-no_data first ((b ∷ bs) ∷ cs) last e = cc

start_marker_missing : (handle new_default no_start_marker).0 ≢ none
unfolding as_message
start_marker_missing e = let (m, is_message, _, _) = handle-new_default-none no_start_marker e in cc

no_last : (chunks : List Bytes) (last : Bytes) → concat chunks ++ last ≡ [] → length last ≤ 65536
no_last chunks last e = omega (arith, ap length e, length-append (concat chunks) last)

module _ (crc32 : Bytes → ℕ) (max_frame_size : ℕ) (h : Handler)
    (crc32_range : (d : Bytes) → crc32 d < 4294967296) (admits : Admits max_frame_size 65536) where
  -- A stream whose reader gives some data in parts of at most 65536 bytes and then end-of-file is
  -- sent without an error over a connection that does not break, and ReceiveStream at the other
  -- end writes exactly its data to a writer that takes everything, returns no error and leaves
  -- unread what was sent later. That the parts are empty or many makes no difference. The
  -- limit of the frames admits 65536 bytes.
  pub receive_stream-send_stream :
      (chunks : List Bytes) (last sent written : Bytes)
      → Fit 65536 chunks
      → length last ≤ 65536
      → concat chunks ++ last ≢ []
      → (stream : Bytes) × (send_stream crc32 max_frame_size h
            (record { chunks = chunks; last = last; end = eof })
            (open_sink sent)
          ≡ (success, open_sink (sent ++ stream)))
        × ((rest : Bytes)
            → receive_stream crc32 max_frame_size h (open_sink written) (stream ++ rest)
              ≡ some (success, open_sink (written ++ (concat chunks ++ last)), rest))
  unfolding send_stream receive_stream
  receive_stream-send_stream chunks last sent written fit size some_data = (
    wire crc32 (frames_of true chunks last),
    send_chunks-eof crc32 max_frame_size h admits true chunks last sent fit size,
    λ rest.
        receive_wire crc32 max_frame_size h crc32_range admits
          (suc (length (wire crc32 (frames_of true chunks last) ++ rest))) false true chunks last
          written rest (omega arith) fit size (inr (refl, some_data)),
  )

  -- A stream without any data, in whatever empty parts the reader gives it, is sent without an
  -- error, but ReceiveStream at the other end writes nothing and returns what handleError makes of
  -- the error for the missing start marker, which under the default strategies is an error again.
  -- The limit of the frames admits 65536 bytes.
  pub receive_stream-no_data :
      (chunks : List Bytes) (last sent : Bytes) (out : Sink)
      → Fit 65536 chunks
      → concat chunks ++ last ≡ []
      → (stream : Bytes) × (send_stream crc32 max_frame_size h
            (record { chunks = chunks; last = last; end = eof })
            (open_sink sent)
          ≡ (success, open_sink (sent ++ stream)))
        × ((rest : Bytes)
            → receive_stream crc32 max_frame_size h out (stream ++ rest)
              ≡ some (handle h no_start_marker, out, rest))
        × ((handle new_default no_start_marker).0 ≢ none)
  unfolding send_stream receive_stream receive_frames
  receive_stream-no_data chunks last sent out fit no_data = (
    wire crc32 (frames_of true chunks last),
    send_chunks-eof crc32 max_frame_size h admits true chunks last sent fit
        (no_last chunks last no_data),
    λ rest. rw (frames_of-no_data true chunks last no_data) (
        rw
          (
            read_stream_frame crc32 max_frame_size h crc32_range admits [] rest false true
                (omega arith),
            accept-unstarted h out [] true,
          )
          refl),
    start_marker_missing,
  )
