-- ===== src/Transporter/Tests.antt =====
-- Runs of the message transporter, and its theorems at concrete inputs.
use pointsub.Base.{◌≡◌, ◌≢◌, true, refl, none, some, [], ◌∷◌, ◌++◌, arith}
use pointsub.Base.Bytes.{Bytes}
use pointsub.Base.Samples.{sum32, sum32-lt, hello}
use pointsub.Base.Text.{codes}
use pointsub.Errors.{eof, plain, message, GoError, system_internal, severity_info}
use pointsub.Errors.Handler.{new_default, no_context}
use pointsub.Transporter.{
  Source, Received, success, handle, no_start_marker, send, send_stream, receive_stream,
}
use pointsub.Transporter.Outcome.{receive_stream_total, send-broken}
use pointsub.Transporter.Sending.{Admits, open_sink}
use pointsub.Transporter.Streaming.{receive_stream-send_stream, receive_stream-no_data}

no_limit : Admits 0 65536
no_limit size h = refl

abbrev greeting : Source
greeting = record { chunks = hello ∷ [] ∷ hello ∷ []; last = 33 ∷ []; end = eof }

receive_stream_total_example :
    (r : Received) × (receive_stream sum32 0 new_default (open_sink []) hello ≡ some r)
receive_stream_total_example = receive_stream_total sum32 0 new_default (open_sink []) hello

receive_stream-send_stream_example :
    (stream : Bytes) × (send_stream sum32 0 new_default greeting (open_sink (7 ∷ []))
      ≡ (success, open_sink (7 ∷ stream)))
    × ((rest : Bytes)
        → receive_stream sum32 0 new_default (open_sink []) (stream ++ rest)
          ≡ some (success, open_sink (hello ++ (hello ++ 33 ∷ [])), rest))
receive_stream-send_stream_example =
    receive_stream-send_stream sum32 0 new_default sum32-lt no_limit greeting.chunks greeting.last
      (7 ∷ []) [] (omega arith) (omega arith) (λ e. cc)

receive_stream-no_data_example :
    (stream : Bytes) × (send_stream sum32 0 new_default
        (record { chunks = [] ∷ []; last = []; end = eof })
        (open_sink [])
      ≡ (success, open_sink stream))
    × ((rest : Bytes)
        → receive_stream sum32 0 new_default (open_sink []) (stream ++ rest)
          ≡ some (handle new_default no_start_marker, open_sink [], rest))
    × ((handle new_default no_start_marker).0 ≢ none)
receive_stream-no_data_example =
    receive_stream-no_data sum32 0 new_default sum32-lt no_limit ([] ∷ []) [] [] (open_sink [])
      (omega arith) refl

abbrev closed_pipe : GoError
closed_pipe = plain (codes "use of closed network connection")

send-broken_example :
    send sum32 0 new_default (record { sent = []; room = some (6, closed_pipe) }) hello ≡ (
      handle new_default closed_pipe,
      record { sent = 0 ∷ 5 ∷ 20 ∷ 64 ∷ 104 ∷ 101 ∷ []; room = some (0, closed_pipe) },
    )
unfolding sum32
send-broken_example =
    send-broken sum32 0 new_default [] hello 6 closed_pipe refl (omega arith) (omega arith)

abbrev notice : GoError
notice =
    message
      (record {
        kind = system_internal;
        severity = severity_info;
        recoverable = true;
        context = no_context;
        details = [];
      })
      (plain (codes "notice"))
