-- ===== src/Transporter/Sending.antt =====
-- message_transporter.go: the bytes that SendStream puts on a connection that does not break.
use pointsub.Base.{
  ℕ, ◌+◌, ◌≤◌, ◌≡◌, ap, sym, ◌∙◌, Bool, true, false, none, List, [], ◌∷◌, ◌++◌, arith, length,
  append_assoc, append-nil,
}
use pointsub.Base.Bytes.{Bytes}
use pointsub.Errors.{eof}
use pointsub.Errors.Handler.{Handler}
use pointsub.Frame.{too_big, flag_fragmented, flag_last_frame}
use pointsub.Frame.Io.{Sink, write_frame, write, write_within}
use pointsub.Frame.Writing.{frame_of, write_frame-write}
use pointsub.Transporter.{
  Done, success, after_write, succeed, bit, finish_stream, send_last, send_chunks,
}

-- The frames of a stream: its data in order without the empty parts, the start marked, and the end
-- marked on the last data or, if the reader ended without data, on an empty frame.
abbrev pub last_frame : Bool → Bytes → List (Bytes × ℕ)
last_frame first [] = ([], flag_last_frame) ∷ []
last_frame first (b ∷ bs) = (b ∷ bs, bit first flag_fragmented + flag_last_frame) ∷ []

abbrev pub frames_of : Bool → List Bytes → Bytes → List (Bytes × ℕ)
frames_of first [] last = last_frame first last
frames_of first ([] ∷ cs) last = frames_of first cs last
frames_of first ((b ∷ bs) ∷ cs) last = (b ∷ bs, bit first flag_fragmented) ∷ frames_of false cs last

abbrev pub wire : (Bytes → ℕ) → List (Bytes × ℕ) → Bytes
wire crc32 [] = []
wire crc32 ((bytes, flags) ∷ fs) = frame_of crc32 bytes flags ++ wire crc32 fs

-- Every part fits a buffer of n bytes.
abbrev pub Fit : ℕ → List Bytes → Type 0
Fit n [] = Unit {0}
Fit n (c ∷ cs) = (length c ≤ n) × Fit n cs

-- A limit that lets whole buffers pass.
abbrev pub Admits : ℕ → ℕ → Type 0
Admits max_frame_size n = (size : ℕ) → size ≤ n → too_big max_frame_size size ≡ false

abbrev pub open_sink : Bytes → Sink
open_sink sent = record { sent = sent; room = none }

module _ (crc32 : Bytes → ℕ) (max_frame_size : ℕ) (h : Handler)
    (admits : Admits max_frame_size 65536) where
  after_write_frame :
      (next : Sink → Done × Sink) (sent bytes : Bytes) (flags : ℕ)
      → length bytes ≤ 65536
      → after_write h next (write_frame crc32 max_frame_size (open_sink sent) bytes flags)
        ≡ next (open_sink (sent ++ frame_of crc32 bytes flags))
  unfolding write write_within
  after_write_frame next sent bytes flags size = ap (after_write h next) (
      write_frame-write crc32 max_frame_size (open_sink sent) bytes flags
        (admits (length bytes) size) (omega arith))

  send_last-eof :
      (first : Bool) (last sent : Bytes)
      → length last ≤ 65536
      → send_last crc32 max_frame_size h first last eof (open_sink sent)
        ≡ (success, open_sink (sent ++ wire crc32 (last_frame first last)))
  unfolding send_last finish_stream
  send_last-eof first [] sent size = after_write_frame succeed sent [] flag_last_frame size
  send_last-eof first (b ∷ bs) sent size =
      after_write_frame (finish_stream crc32 max_frame_size h true eof) sent (b ∷ bs)
        (bit first flag_fragmented + flag_last_frame) size
      ∙ ap (λ t. (success, open_sink (sent ++ t))) (sym (append-nil _))

  pub send_chunks-eof :
      (first : Bool) (cs : List Bytes) (last sent : Bytes)
      → Fit 65536 cs
      → length last ≤ 65536
      → send_chunks crc32 max_frame_size h first cs last eof (open_sink sent)
        ≡ (success, open_sink (sent ++ wire crc32 (frames_of first cs last)))
  unfolding send_chunks
  send_chunks-eof first [] last sent fit size = send_last-eof first last sent size
  send_chunks-eof first ([] ∷ cs) last sent fit size = send_chunks-eof first cs last sent fit.1 size
  send_chunks-eof first ((b ∷ bs) ∷ cs) last sent fit size =
      after_write_frame (send_chunks crc32 max_frame_size h false cs last eof) sent (b ∷ bs)
        (bit first flag_fragmented) fit.0
      ∙ (send_chunks-eof false cs last (sent ++ frame_of crc32 (b ∷ bs) (bit first flag_fragmented))
            fit.1 size
          ∙ ap (λ t. (success, open_sink t)) (append_assoc sent _ _))
