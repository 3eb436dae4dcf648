-- ===== src/LargeMessage.antt =====
-- largemsg.go: adjustBufferSizes, and Write of largeMessageConn over a `bufio.Writer`, which is a
-- parameter. Deadlines and delays have no part in the bytes; a chunk size is positive, as the code
-- takes it.
pub mod Writing
mod Tests
use pointsub.Base.{
  ℕ, zero, suc, ◌+◌, ◌-◌, ◌/◌, Bool, true, false, ◌&&◌, Option, none, some, ltb, ◌==◌,
  if◌then◌else◌, length, take, drop,
}
use pointsub.Base.Bytes.{Bytes}
use pointsub.Errors.{GoError}

pub record Options : Type 0 where
  pub chunk_size : ℕ
  pub adaptive_chunking : Bool
  pub read_buffer_size : ℕ
  pub write_buffer_size : ℕ

abbrev pub max_buffer_size : ℕ
max_buffer_size = 2097152

abbrev adaptive_chunk_size : ℕ → ℕ
adaptive_chunk_size message_size =
    if ltb 1048576 message_size
    then 262144
    else if ltb 131072 message_size
    then 65536
    else if ltb 16384 message_size
    then 16384
    else 4096

abbrev ideal_buffer_size : ℕ → ℕ
ideal_buffer_size message_size =
    if ltb max_buffer_size (message_size / 8) then max_buffer_size else message_size / 8

abbrev at_least : ℕ → ℕ → ℕ
at_least ideal size = if ltb size ideal then ideal else size

-- `adjustBufferSizes`.
unfoldable pub adjust_buffer_sizes : Options → ℕ → Options
adjust_buffer_sizes opts message_size = record opts {
  chunk_size = if opts.adaptive_chunking then adaptive_chunk_size message_size else opts.chunk_size;
  read_buffer_size = at_least (ideal_buffer_size message_size) opts.read_buffer_size;
  write_buffer_size = at_least (ideal_buffer_size message_size) opts.write_buffer_size;
}

pub record Stats : Type 0 where
  pub chunks_sent : ℕ
  pub bytes_sent : ℕ

-- A `bufio.Writer`: Write gives the number of bytes taken, an error, and the writer after it.
pub record BufferedWriter : Type 1 where
  pub Writer : Type 0
  pub write : Writer → Bytes → ℕ × Option GoError × Writer
  pub flush : Writer → Option GoError × Writer

module _ (B : BufferedWriter) where
  open B use {Writer, write, flush}

  -- How the loop of Write ends: by a return, or by its condition or a break.
  pub data End : Type 0 where
    returned : ℕ → Option GoError → Writer → End
    left_loop : ℕ → ℕ → Option GoError → Writer → End

  -- What Write returns, the writer and the statistics.
  abbrev pub Written : Type 0
  Written = ℕ × Option GoError × Writer × Stats

  abbrev pub after_flush : ℕ → (Writer → Option End) → Option GoError × Writer → Option End
  after_flush n next (none, w) = next w
  after_flush n next (some e, w) = some (returned n (some e) w)

  unfoldable pub next_round :
      Option GoError → Bool → ℕ → ℕ → (Writer → Option End) → Writer → Option End
  next_round (some e) all n chunks next w = some (left_loop n chunks (some e) w)
  next_round none all n chunks next w = if all then some (left_loop n chunks none w) else next w

  -- The round after the Write of a chunk: a flush before every chunk but the last.
  unfoldable pub after_chunk_write :
      ℕ → ℕ → ℕ → ℕ → (ℕ → ℕ → Writer → Option End) → ℕ × Option GoError × Writer → Option End
  after_chunk_write size total_chunks written chunks next (nw, ew, w) =
      let n = written + nw in
      let count = if ltb 0 nw then suc chunks else chunks in
      let rest = next_round ew (n == size) n count (next n count) in
      if ltb 0 nw && ltb count total_chunks then after_flush n rest (flush w) else rest w

  -- The loop of Write, for so many rounds at most; `none` says that it was not over by then.
  unfoldable pub write_loop : ℕ → ℕ → ℕ → Bytes → ℕ → ℕ → Writer → Option End
  write_loop zero chunk_size total_chunks b written chunks w = none
  write_loop (suc fuel) chunk_size total_chunks b written chunks w =
      if ltb written (length b)
      then after_chunk_write (length b) total_chunks written chunks
          (write_loop fuel chunk_size total_chunks b) (write w (take chunk_size (drop written b)))
      else some (left_loop written chunks none w)

  -- The statistics count what a flush without an error completes.
  unfoldable pub count_sent : Stats → ℕ → ℕ → Option GoError × Writer → Written
  count_sent stats n chunks (some e, w) = (n, some e, w, stats)
  count_sent stats n chunks (none, w) = (
    n,
    none,
    w,
    record { chunks_sent = stats.chunks_sent + chunks; bytes_sent = stats.bytes_sent + n },
  )

  unfoldable pub finish_write : Stats → End → Written
  finish_write stats (returned n e w) = (n, e, w, stats)
  finish_write stats (left_loop n chunks (some e) w) = (n, some e, w, stats)
  finish_write stats (left_loop n chunks none w) =
      if ltb 0 n then count_sent stats n chunks (flush w) else (0, none, w, stats)

  unfoldable pub write_small : Stats → ℕ × Option GoError × Writer → Written
  write_small stats (n, some e, w) = (n, some e, w, stats)
  write_small stats (n, none, w) = count_sent stats n 1 (flush w)

  abbrev pub finished : Stats → Option End → Option Written
  finished stats none = none
  finished stats (some end) = some (finish_write stats end)

  -- `Write`.
  unfoldable pub write_message : Stats → ℕ → Bytes → Writer → Option Written
  write_message stats chunk_size b w =
      if ltb (length b) chunk_size
      then some (write_small stats (write w b))
      else finished stats (
          write_loop (suc (length b)) chunk_size ((length b + chunk_size - 1) / chunk_size) b 0 0 w)
