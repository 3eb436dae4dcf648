-- ===== src/LargeMessage/Tests.antt =====
-- Runs of the connection for large messages, and its theorems at concrete inputs.
use pointsub.Base.{
  ◌≡◌, ◌<◌, ◌+◌, refl, true, none, some, [], ◌∷◌, ◌++◌, length, arith, append_assoc, sym,
}
use pointsub.Base.Bytes.{Bytes}
use pointsub.Base.Samples.{hello}
use pointsub.LargeMessage.{Options, BufferedWriter, Stats, write_message}
use pointsub.LargeMessage.Writing.{write_message-delivered}

abbrev small_buffers : Options
small_buffers = record {
  chunk_size = 2;
  adaptive_chunking = true;
  read_buffer_size = 8192;
  write_buffer_size = 8192;
}

-- A writer that keeps everything until a flush.
abbrev in_memory : BufferedWriter
in_memory = record {
  Writer = Bytes × Bytes;
  write = λ w b. (length b, none, (w.0, w.1 ++ b));
  flush = λ w. (none, (w.0 ++ w.1, []));
}

abbrev no_stats : Stats
no_stats = record { chunks_sent = 0; bytes_sent = 0 }

positive : 0 < 2
positive = omega arith

write_message-delivered_example :
    (w' : Bytes × Bytes) × (stats' : Stats) × (write_message in_memory no_stats 2 hello
        (1 ∷ [], 2 ∷ [])
      ≡ some (length hello, none, w', stats'))
    × (w'.0 ≡ ((1 ∷ []) ++ 2 ∷ []) ++ hello)
    × (w'.1 ≡ [])
    × (stats'.bytes_sent ≡ 0 + length hello)
write_message-delivered_example =
    write_message-delivered in_memory (λ w. w.0) (λ w. w.1)
      (λ w b. ((w.0, w.1 ++ b), refl, sym (append_assoc w.0 w.1 b)))
      (λ w. ((w.0 ++ w.1, []), refl, refl, refl)) no_stats 2 hello (1 ∷ [], 2 ∷ []) positive
