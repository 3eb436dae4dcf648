-- ===== src/Transporter/Receiving.antt =====
-- message_transporter.go: ReceiveStream on the frames of a stream.
use pointsub.Base.{
  ℕ, zero, suc, ◌+◌, ◌≤◌, ◌<◌, ◌≡◌, ◌≢◌, refl, ap, sym, ◌∙◌, ◌⊎◌, inl, inr, Bool, true, false, ◌||◌,
  none, some, List, [], ◌∷◌, ◌++◌, arith, length, append_assoc, append-nil, if◌then◌else◌, has_flag,
  concat,
}
use native.Mathlib.Decide.{dec_lt}
use pointsub.Base.Bytes.{Bytes}
use pointsub.Errors.Handler.{Handler}
use pointsub.Frame.{ok, flag_fragmented, flag_last_frame}
use pointsub.Frame.Io.{Sink, read_frame_with_flags, write, write_within}
use pointsub.Frame.Writing.{frame_of}
use pointsub.Frame.RoundTrip.{read-frame_of, flags_read, IsReadable}
use pointsub.Transporter.{
  success, handle, no_start_marker, bit, accept, deliver, stop, more, receive_frames,
}
use pointsub.Transporter.Outcome.{read_frame_with_flags-shorter}
use pointsub.Transporter.Sending.{Fit, Admits, open_sink, wire, frames_of, last_frame}

-- The two flags of a stream's frames survive the header.
start_kept :
    (size : ℕ) (first last : Bool)
    → has_flag
        (flags_read size (bit first flag_fragmented + bit last flag_last_frame))
        flag_fragmented
      ≡ first
start_kept size true true = ground arith
start_kept size true false = ground arith
start_kept size false true = ground arith
start_kept size false false = ground arith

last_kept :
    (size : ℕ) (first last : Bool)
    → has_flag
        (flags_read size (bit first flag_fragmented + bit last flag_last_frame))
        flag_last_frame
      ≡ last
last_kept size true true = ground arith
last_kept size true false = ground arith
last_kept size false true = ground arith
last_kept size false false = ground arith

pub readable : (size : ℕ) → size ≤ 65536 → IsReadable size
readable size h = elim (dec_lt size 65536) [ yes small ↦ inl small | no large ↦ inr (ground arith) ]

deliver_open :
    (sent bytes : Bytes) → deliver (open_sink sent) bytes ≡ (none, open_sink (sent ++ bytes))
unfolding deliver write write_within
deliver_open sent [] = ap (λ t. (none, open_sink t)) (sym (append-nil sent))
deliver_open sent (b ∷ bs) = refl

-- A frame that starts the stream or follows its start is delivered, and ends the loop if marked.
accept-frame :
    (h : Handler) (started first last : Bool) (sent bytes : Bytes)
    → (started || first) ≡ true
    → accept h started
        (open_sink sent)
        bytes
        (flags_read (length bytes) (bit first flag_fragmented + bit last flag_last_frame))
      ≡ (if last
          then stop success (open_sink (sent ++ bytes))
          else more (open_sink (sent ++ bytes)))
unfolding accept
accept-frame h started first last sent bytes go =
    rw
      (
        start_kept (length bytes) first last,
        go,
        deliver_open sent bytes,
        last_kept (length bytes) first last,
      )
      refl

-- A frame that does not start the stream is refused before its start.
pub accept-unstarted :
    (h : Handler) (out : Sink) (bytes : Bytes) (last : Bool)
    → accept h false out bytes
        (flags_read (length bytes) (bit false flag_fragmented + bit last flag_last_frame))
      ≡ stop (handle h no_start_marker) out
unfolding accept
accept-unstarted h out bytes last = rw (start_kept (length bytes) false last) refl

first_flag :
    (first : Bool)
    → bit first flag_fragmented ≡ bit first flag_fragmented + bit false flag_last_frame
first_flag first = omega arith

module _ (crc32 : Bytes → ℕ) (max_frame_size : ℕ) (h : Handler)
    (crc32_range : (d : Bytes) → crc32 d < 4294967296) (admits : Admits max_frame_size 65536) where
  pub read_stream_frame :
      (bytes rest : Bytes) (first last : Bool)
      → length bytes ≤ 65536
      → read_frame_with_flags crc32 max_frame_size
          (frame_of crc32 bytes (bit first flag_fragmented + bit last flag_last_frame) ++ rest)
        ≡ (
          ok (
            bytes,
            flags_read (length bytes) (bit first flag_fragmented + bit last flag_last_frame),
          ),
          rest,
        )
  read_stream_frame bytes rest first last size =
      read-frame_of crc32 max_frame_size crc32_range bytes
        (bit first flag_fragmented + bit last flag_last_frame) rest (admits (length bytes) size)
        (omega arith) (ground arith) (readable (length bytes) size)

  -- One round of the loop on a frame that is accepted.
  receive_one :
      (fuel : ℕ) (started first last : Bool) (sent bytes rest : Bytes)
      → length bytes ≤ 65536
      → (started || first) ≡ true
      → receive_frames crc32 max_frame_size h
          (suc fuel)
          started
          (open_sink sent)
          (frame_of crc32 bytes (bit first flag_fragmented + bit last flag_last_frame) ++ rest)
        ≡ (if last
            then some (success, open_sink (sent ++ bytes), rest)
            else receive_frames crc32 max_frame_size h fuel true (open_sink (sent ++ bytes)) rest)
  unfolding receive_frames
  receive_one fuel started first true sent bytes rest size go =
      rw
        (
          read_stream_frame bytes rest first true size,
          accept-frame h started first true sent bytes go,
        )
        refl
  receive_one fuel started first false sent bytes rest size go =
      rw
        (
          read_stream_frame bytes rest first false size,
          accept-frame h started first false sent bytes go,
        )
        refl

  -- The loop has seen the start of the stream, or it is still to come on some data.
  abbrev pub Ready : Bool → Bool → List Bytes → Bytes → Type 0
  Ready started first cs last = (started ≡ true) ⊎ ((first ≡ true) × (concat cs ++ last ≢ []))

  receive_last :
      (fuel : ℕ) (started first : Bool) (last sent rest : Bytes)
      → 0 < fuel
      → length last ≤ 65536
      → Ready started first [] last
      → receive_frames crc32 max_frame_size h fuel started
          (open_sink sent)
          (wire crc32 (last_frame first last) ++ rest)
        ≡ some (success, open_sink (sent ++ last), rest)
  receive_last zero started first last sent rest enough size ready = absurd (omega arith)
  receive_last (suc fuel) started first [] sent rest enough size (inl seen) =
      receive_one fuel started false true sent [] rest size (ground arith)
  receive_last (suc fuel) started first [] sent rest enough size (inr (_, some_data)) =
      absurd (some_data refl)
  receive_last (suc fuel) started first (b ∷ bs) sent rest enough size ready =
      rw (append-nil (frame_of crc32 (b ∷ bs) (bit first flag_fragmented + flag_last_frame)))
        (receive_one fuel started first true sent (b ∷ bs) rest size (ground arith))

  pub receive_wire :
      (fuel : ℕ) (started first : Bool) (cs : List Bytes) (last sent rest : Bytes)
      → length (wire crc32 (frames_of first cs last) ++ rest) < fuel
      → Fit 65536 cs
      → length last ≤ 65536
      → Ready started first cs last
      → receive_frames crc32 max_frame_size h fuel started
          (open_sink sent)
          (wire crc32 (frames_of first cs last) ++ rest)
        ≡ some (success, open_sink (sent ++ (concat cs ++ last)), rest)
  receive_wire fuel started first [] last sent rest enough fit size ready =
      receive_last fuel started first last sent rest (omega arith) size ready
  receive_wire fuel started first ([] ∷ cs) last sent rest enough fit size ready =
      receive_wire fuel started first cs last sent rest enough fit.1 size ready
  receive_wire zero started first ((b ∷ bs) ∷ cs) last sent rest enough fit size ready =
      absurd (omega arith)
  receive_wire (suc fuel) started first ((b ∷ bs) ∷ cs) last sent rest enough fit size ready =
      rw (append_assoc frame more_wire rest, first_flag first)
        (receive_one fuel started first false sent (b ∷ bs) (more_wire ++ rest) fit.0 (ground arith)
          ∙ (receive_wire fuel true false cs last (sent ++ (b ∷ bs)) rest shorter fit.1 size
                (inl refl)
              ∙ ap (λ t. some (success, open_sink t, rest)) regroup))
    where
      frame : Bytes
      frame = frame_of crc32 (b ∷ bs) (bit first flag_fragmented)

      more_wire : Bytes
      more_wire = wire crc32 (frames_of false cs last)

      shorter : length (more_wire ++ rest) < fuel
      shorter = omega (
        arith,
        ap length (append_assoc frame more_wire rest),
        read_frame_with_flags-shorter crc32 max_frame_size (frame ++ (more_wire ++ rest)) (b ∷ bs)
            (more_wire ++ rest) (flags_read (length (b ∷ bs)) (bit first flag_fragmented))
            (rw (first_flag first)
              (read_stream_frame (b ∷ bs) (more_wire ++ rest) first false fit.0)),
      )

      regroup : sent ++ (b ∷ bs) ++ (concat cs ++ last) ≡ sent ++ (((b ∷ bs) ++ concat cs) ++ last)
      regroup =
          append_assoc sent (b ∷ bs) (concat cs ++ last)
          ∙ ap (λ t. sent ++ t) (sym (append_assoc (b ∷ bs) (concat cs) last))
