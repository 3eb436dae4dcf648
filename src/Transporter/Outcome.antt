-- ===== src/Transporter/Outcome.antt =====
-- message_transporter.go: Send and Receive against the frames, and the errors that they return.
use pointsub.Base.{
  ℕ, zero, suc, ◌<◌, ◌≡◌, refl, ap, ◌⊎◌, inl, inr, Bool, true, false, none, some, ◌++◌, arith,
  length, length-append, take,
}
use pointsub.Base.Bytes.{Bytes}
use pointsub.Errors.{GoError, MessageError, severity_info, as_message}
use pointsub.Errors.Handler.{Handler, handle_error, connection_closed, new_default, convert_error}
use pointsub.Frame.{flag_normal, Result, ok, err, too_big}
use pointsub.Frame.Writing.{frame_of, write_frame-write, beyond_room}
use pointsub.Frame.Io.{write, Sink, read_frame_with_flags}
use pointsub.Frame.Integrity.{read_frame_with_flags-IsFrame, header_length}
use pointsub.Transporter.{
  send, Received, Done, handle, Round, stop, more, accept, receive_frames, receive_stream,
}

header_length-pos : (header : Bytes) → 0 < header_length header
header_length-pos header = ground arith

read_cases :
    (r : Result (Bytes × ℕ) × Bytes)
    → ((e : GoError) × (s : Bytes) × (r ≡ (err e, s)))
      ⊎ ((bytes : Bytes) × (flags : ℕ) × (s : Bytes) × (r ≡ (ok (bytes, flags), s)))
read_cases (err e, s) = inl (e, s, refl)
read_cases (ok (bytes, flags), s) = inr (bytes, flags, s, refl)

round_cases :
    (r : Round)
    → ((done : Done) × (out : Sink) × (r ≡ stop done out)) ⊎ ((out : Sink) × (r ≡ more out))
round_cases (stop done out) = inl (done, out, refl)
round_cases (more out) = inr (out, refl)

module _ (crc32 : Bytes → ℕ) (max_frame_size : ℕ) where
  -- A successful read takes at least one byte.
  pub read_frame_with_flags-shorter :
      (s bytes rest : Bytes) (flags : ℕ)
      → read_frame_with_flags crc32 max_frame_size s ≡ (ok (bytes, flags), rest)
      → length rest < length s
  read_frame_with_flags-shorter s bytes rest flags e =
      let (header, h, parts, decodes, sizes, frame) =
        read_frame_with_flags-IsFrame crc32 max_frame_size s bytes rest flags e in
      omega (
        arith,
        ap length parts,
        length-append header (bytes ++ rest),
        length-append bytes rest,
        sizes,
        header_length-pos header,
      )

  module _ (h : Handler) where
    receive_frames_total :
        (fuel : ℕ) (started : Bool) (out : Sink) (s : Bytes)
        → length s < fuel
        → (r : Received) × (receive_frames crc32 max_frame_size h fuel started out s ≡ some r)
    unfolding receive_frames
    receive_frames_total zero started out s enough = absurd (omega arith)
    receive_frames_total (suc fuel) started out s enough =
        elim (read_cases (read_frame_with_flags crc32 max_frame_size s)) [
          | inl (e, s', failed) ↦ ((handle h e, out, s'), rw failed refl)
          | inr (bytes, flags, s', read) ↦ elim (round_cases (accept h started out bytes flags)) [
            | inl (done, out', over) ↦ ((done, out', s'), rw read (rw over refl))
            | inr (out', goes_on) ↦
                let (r, e) =
                  receive_frames_total fuel true out' s'
                    (omega (arith, read_frame_with_flags-shorter s bytes s' flags read)) in
                (r, rw read (rw goes_on e))
          ]
        ]

    -- ReceiveStream ends on every sequence of bytes that a connection can carry before its end.
    pub receive_stream_total :
        (out : Sink) (s : Bytes)
        → (r : Received) × (receive_stream crc32 max_frame_size h out s ≡ some r)
    unfolding receive_stream
    receive_stream_total out s = receive_frames_total (suc (length s)) false out s (omega arith)

-- Send on a connection that breaks within the frame of the data, with whatever error, returns what
-- handleError makes of that error, and leaves exactly the part of the frame that fitted sent. The
-- data is within the limit of the frames and below 4 GiB.
pub send-broken :
    (crc32 : Bytes → ℕ) (max_frame_size : ℕ) (h : Handler) (sent bytes : Bytes) (room : ℕ)
    (e : GoError)
    → too_big max_frame_size (length bytes) ≡ false
    → length bytes < 4294967296
    → room < length (frame_of crc32 bytes flag_normal)
    → send crc32 max_frame_size h (record { sent = sent; room = some (room, e) }) bytes ≡ (
      handle h e,
      record { sent = sent ++ take room (frame_of crc32 bytes flag_normal); room = some (0, e) },
    )
unfolding send write
send-broken crc32 max_frame_size h sent bytes room e fits size short =
    rw
      (write_frame-write crc32 max_frame_size (record { sent = sent; room = some (room, e) }) bytes
        flag_normal fits size)
      (rw (beyond_room sent room e (frame_of crc32 bytes flag_normal) short) refl)

pub handle-new_default-none :
    (e : GoError)
    → (handle new_default e).0 ≡ none
    → (m : MessageError) × (as_message e ≡ some m)
      × (m.fields.severity ≡ severity_info)
      × (connection_closed e ≡ none)
unfolding handle handle_error new_default convert_error
handle-new_default-none e h = ground arith
