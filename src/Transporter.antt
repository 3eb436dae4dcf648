-- ===== src/Transporter.antt =====
-- message_transporter.go: the operations of baseMessageTransporter with no progress tracker, as
-- NewMessageTransporter makes it by default.
pub mod Outcome
pub mod Sending
pub mod Receiving
pub mod Streaming
mod Tests
use pointsub.Base.{
  ℕ, suc, zero, ◌+◌, Bool, true, false, ◌||◌, not, Option, none, some, List, [], ◌∷◌, ltb, length,
  if◌then◌else◌, has_flag,
}
use pointsub.Base.Bytes.{Bytes}
use pointsub.Base.Text.{codes}
use pointsub.Errors.{GoError, eof, plain, retryable}
use pointsub.Errors.Handler.{Handler, Strategy, ignore, retry, CallbackCall, handle_error}
use pointsub.Frame.{ok, err, Result, flag_normal, flag_fragmented, flag_last_frame}
use pointsub.Frame.Io.{Sink, write, write_frame, read_frame, read_frame_with_flags}

-- The error that an operation returns, nil as `none`, and the calls of the handler's callbacks.
abbrev pub Done : Type 0
Done = Option GoError × List CallbackCall

abbrev pub success : Done
success = (none, [])

by_strategy : Strategy → GoError → Option GoError
by_strategy retry e = some (retryable e)
by_strategy ignore e = none
by_strategy _ e = some e

-- `handleError`.
unfoldable pub handle : Handler → GoError → Done
unfolding by_strategy
handle h e = let (s, calls) = handle_error h (some e) in (by_strategy s e, calls)

abbrev pub no_start_marker : GoError
no_start_marker =
    plain (codes "protocol violation: received non-first fragment without start marker")

-- What the Read calls of an `io.Reader` give, in order: data without an error, then once some
-- data together with an error, `io.EOF` at the end of the stream.
pub record Source : Type 0 where
  pub chunks : List Bytes
  pub last : Bytes
  pub end : GoError

-- `err == io.EOF`.
abbrev pub is_exactly_eof : GoError → Bool
is_exactly_eof eof = true
is_exactly_eof _ = false

abbrev pub bit : Bool → ℕ → ℕ
bit b flag = if b then flag else 0

-- The size of the buffer that SendStream reads into, from the size of the source or its estimate.
unfoldable pub chunk_size : ℕ → ℕ
chunk_size total = if ltb total 131072 then 4096 else if ltb total 1048576 then 16384 else 65536

-- What the loop of ReceiveStream does after a frame.
pub data Round : Type 0 where
  stop : Done → Sink → Round
  more : Sink → Round

-- After a write: its error is handled, or the operation goes on.
abbrev pub after_write : Handler → (Sink → Done × Sink) → Option GoError × Sink → Done × Sink
after_write h next (none, w) = next w
after_write h next (some e, w) = (handle h e, w)

abbrev pub succeed : Sink → Done × Sink
succeed w = (success, w)

abbrev pub after_receive : Handler → Result Bytes × Bytes → Bytes × Done × Bytes
after_receive h (ok bytes, s) = (bytes, success, s)
after_receive h (err e, s) = ([], handle h e, s)

-- The data of a frame goes to the writer, if there is any.
unfoldable pub deliver : Sink → Bytes → Option GoError × Sink
deliver out [] = (none, out)
deliver out (b ∷ bs) = write out (b ∷ bs)

abbrev pub after_deliver : Handler → ℕ → Option GoError × Sink → Round
after_deliver h flags (some e, out) = stop (handle h e) out
after_deliver h flags (none, out) =
    if has_flag flags flag_last_frame then stop success out else more out

-- The loop of ReceiveStream behind one frame.
unfoldable pub accept : Handler → Bool → Sink → Bytes → ℕ → Round
accept h started out bytes flags =
    if started || has_flag flags flag_fragmented
    then after_deliver h flags (deliver out bytes)
    else stop (handle h no_start_marker) out

-- What ReceiveStream gives: its outcome, its writer and what is left to read.
abbrev pub Received : Type 0
Received = Done × Sink × Bytes

abbrev pub after_round : (Sink → Bytes → Option Received) → Bytes → Round → Option Received
after_round next s (stop done out) = some (done, out, s)
after_round next s (more out) = next out s

abbrev pub after_read :
    Handler
    → (Sink → Bytes → Option Received)
    → Bool
    → Sink
    → Result (Bytes × ℕ) × Bytes
    → Option Received
after_read h next started out (err e, s) = some (handle h e, out, s)
after_read h next started out (ok (bytes, flags), s) =
    after_round next s (accept h started out bytes flags)

module _ (crc32 : Bytes → ℕ) (max_frame_size : ℕ) (h : Handler) where
  -- `Send`.
  unfoldable pub send : Sink → Bytes → Done × Sink
  send w bytes = after_write h succeed (write_frame crc32 max_frame_size w bytes flag_normal)

  -- `Receive`: the data, the outcome and what is left to read.
  unfoldable pub receive : Bytes → Bytes × Done × Bytes
  receive s = after_receive h (read_frame crc32 max_frame_size s)

  -- The loop of SendStream after the Read call that gave the error `end`. If that gave no data,
  -- the stream ends in an empty frame.
  unfoldable pub finish_stream : Bool → GoError → Sink → Done × Sink
  finish_stream sent_data end w =
      if is_exactly_eof end
      then if sent_data
        then succeed w
        else after_write h succeed (write_frame crc32 max_frame_size w [] flag_last_frame)
      else (handle h end, w)

  unfoldable pub send_last : Bool → Bytes → GoError → Sink → Done × Sink
  send_last first [] end w = finish_stream false end w
  send_last first (b ∷ bs) end w = after_write h (finish_stream true end) (
      write_frame crc32 max_frame_size w (b ∷ bs)
        (bit first flag_fragmented + bit (is_exactly_eof end) flag_last_frame))

  unfoldable pub send_chunks : Bool → List Bytes → Bytes → GoError → Sink → Done × Sink
  send_chunks first [] last end w = send_last first last end w
  send_chunks first ([] ∷ cs) last end w = send_chunks first cs last end w
  send_chunks first ((b ∷ bs) ∷ cs) last end w =
      after_write h (send_chunks false cs last end)
        (write_frame crc32 max_frame_size w (b ∷ bs) (bit first flag_fragmented))

  -- `SendStream`.
  unfoldable pub send_stream : Source → Sink → Done × Sink
  send_stream source w = send_chunks true source.chunks source.last source.end w

  -- `ReceiveStream` from the state of its loop, for at most so many frames; `none` says that the
  -- loop was not over by then. After a frame that does not end the loop a start was seen.
  unfoldable pub receive_frames : ℕ → Bool → Sink → Bytes → Option Received
  receive_frames zero started out s = none
  receive_frames (suc fuel) started out s =
      after_read h (receive_frames fuel true) started out
        (read_frame_with_flags crc32 max_frame_size s)

  -- `ReceiveStream`: a frame takes a byte at least.
  unfoldable pub receive_stream : Sink → Bytes → Option Received
  receive_stream out s = receive_frames (suc (length s)) false out s
