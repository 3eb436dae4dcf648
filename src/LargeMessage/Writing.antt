-- ===== src/LargeMessage/Writing.antt =====
-- largemsg.go: Write of largeMessageConn on a writer that works.
use pointsub.Base.{
  ℕ, zero, suc, ◌+◌, ◌-◌, ◌/◌, ◌≤◌, ◌<◌, ◌≡◌, refl, ap, sym, ◌∙◌, Bool, true, false, ◌&&◌, Option,
  none, some, [], ◌++◌, ltb, ◌==◌, if◌then◌else◌, length, take, drop, arith, append_assoc,
  length-take, length-drop, take-append-drop, drop-all, drop-drop, drop-length-take, inl, inr,
  Bool-cases, le→ltb, lt→ltb, ==_iff, max, append-nil,
}
use native.Mathlib.Decide.{dec_lt}
use pointsub.Base.Bytes.{Bytes}
use pointsub.LargeMessage.{
  Options, adjust_buffer_sizes, max_buffer_size, BufferedWriter, Stats, End, left_loop, after_flush,
  next_round, after_chunk_write, write_loop, count_sent, finish_write, write_small, finished,
  write_message,
}

-- Adjusting never makes a buffer smaller, and makes it no larger than it was or 2 MB.
pub adjust_buffer_sizes-bounds :
    (opts : Options) (size : ℕ)
    → let adjusted = adjust_buffer_sizes opts size in
      (opts.read_buffer_size ≤ adjusted.read_buffer_size)
      × (opts.write_buffer_size ≤ adjusted.write_buffer_size)
      × (adjusted.read_buffer_size ≤ max opts.read_buffer_size max_buffer_size)
      × (adjusted.write_buffer_size ≤ max opts.write_buffer_size max_buffer_size)
unfolding adjust_buffer_sizes
adjust_buffer_sizes-bounds opts size = ground arith

-- What a round takes and what it leaves are what there was.
chunk-append :
    (k written : ℕ) (b : Bytes)
    → take k (drop written b) ++ drop (written + length (take k (drop written b))) b
      ≡ drop written b
chunk-append k written b =
    ap (λ t. take k (drop written b) ++ t)
      (sym (drop-drop written (length (take k (drop written b))) b)
        ∙ drop-length-take k (drop written b))
    ∙ take-append-drop k (drop written b)

-- One round on a writer that works: what was delivered and what is pending together grow by the chunk.
module _ (B : BufferedWriter) (delivered pending : B.Writer → Bytes)
    (write_takes : (w : B.Writer) (b : Bytes)
      → (w' : B.Writer) × (B.write w b ≡ (length b, none, w'))
        × (delivered w' ++ pending w' ≡ (delivered w ++ pending w) ++ b))
    (flush_delivers : (w : B.Writer)
      → (w' : B.Writer) × (B.flush w ≡ (none, w'))
        × (delivered w' ≡ delivered w ++ pending w)
        × (pending w' ≡ [])) where
  contents : B.Writer → Bytes
  contents w = delivered w ++ pending w

  maybe_flush :
      (flushes : Bool) (n : ℕ) (next : B.Writer → Option (End B)) (w : B.Writer)
      → (w' : B.Writer) × ((if flushes then after_flush B n next (B.flush w) else next w) ≡ next w')
        × (contents w' ≡ contents w)
  unfolding contents
  maybe_flush false n next w = (w, refl, refl)
  maybe_flush true n next w =
      let (w', e, all, empty) = flush_delivers w in
      (w', rw (e, after_flush) refl, rw (all, empty) (append-nil (delivered w ++ pending w)))

  after_chunk_write-next_round :
      (size total written chunks nw : ℕ) (next : ℕ → ℕ → B.Writer → Option (End B)) (w : B.Writer)
      → (count : ℕ) × (w' : B.Writer) × (after_chunk_write B size total written chunks next
            (nw, none, w)
          ≡ next_round B none
              (written + nw == size)
              (written + nw)
              count
              (next (written + nw) count)
              w')
        × (contents w' ≡ contents w)
  unfolding after_chunk_write
  after_chunk_write-next_round size total written chunks nw next w =
      let count = if ltb 0 nw then suc chunks else chunks in
      let (w', e, same) =
        maybe_flush (ltb 0 nw && ltb count total) (written + nw)
          (next_round B none (written + nw == size) (written + nw) count
            (next (written + nw) count))
          w in
      (count, w', e, same)

  -- The loop ends with all bytes written, and with no error.
  Completes : ℕ → ℕ → ℕ → Bytes → ℕ → ℕ → B.Writer → Type 0
  Completes fuel k total b written chunks w =
      (count : ℕ) × (w' : B.Writer) × (write_loop B fuel k total b written chunks w
        ≡ some (left_loop (length b) count none w'))
      × (contents w' ≡ contents w ++ drop written b)

  write_loop-over :
      (fuel k total : ℕ) (b : Bytes) (written chunks : ℕ) (w : B.Writer)
      → length b ≡ written
      → Completes (suc fuel) k total b written chunks w
  unfolding Completes write_loop
  write_loop-over fuel k total b written chunks w over = (
    chunks,
    w,
    rw (le→ltb written (length b) (omega (arith, over)), if◌then◌else◌)
        (ap (λ n. some (left_loop n chunks none w)) (sym over)),
    sym (
        ap (λ t. contents w ++ t) (drop-all written b (omega (arith, over)))
        ∙ append-nil (contents w)),
  )

  write_loop-round :
      (fuel k total : ℕ) (b : Bytes) (written chunks : ℕ) (w : B.Writer)
      → written < length b
      → ((count : ℕ) (w' : B.Writer)
          → Completes fuel k total b (written + length (take k (drop written b))) count w')
      → Completes (suc fuel) k total b written chunks w
  unfolding Completes write_loop next_round contents
  write_loop-round fuel k total b written chunks w under onward =
      let chunk = take k (drop written b) in
      let (w1, taken, grown) = write_takes w chunk in
      let (count, w2, round, same) =
        after_chunk_write-next_round (length b) total written chunks (length chunk)
          (write_loop B fuel k total b) w1 in
      let n = written + length chunk in
      let now : contents w2 ++ drop n b ≡ contents w ++ drop written b =
        ap (λ t. t ++ drop n b) (same ∙ grown)
        ∙ (append_assoc (contents w) chunk (drop n b)
            ∙ ap (λ t. contents w ++ t) (chunk-append k written b)) in
      let step =
        ap (after_chunk_write B (length b) total written chunks (write_loop B fuel k total b))
          taken in
      elim (Bool-cases (n == length b)) [
        | inl over ↦ (
          count,
          w2,
          rw (lt→ltb written (length b) under, if◌then◌else◌)
              (step
                ∙ (round
                    ∙ rw (over, if◌then◌else◌)
                        (ap (λ m. some (left_loop m count none w2))
                          ((==_iff n (length b)).0 over)))),
          sym (
                ap (λ t. contents w2 ++ t)
                  (drop-all n b (ground (arith, (==_iff n (length b)).0 over)))
                ∙ append-nil (contents w2))
              ∙ now,
        )
        | inr more ↦
            let (count', w', e, all) = onward count w2 in
            (
              count',
              w',
              rw (lt→ltb written (length b) under, if◌then◌else◌)
                  (step ∙ (round ∙ rw (more, if◌then◌else◌) e)),
              all ∙ now,
            )
      ]

  write_loop-Completes :
      (fuel k total : ℕ) (b : Bytes) (written chunks : ℕ) (w : B.Writer)
      → 0 < k
      → written ≤ length b
      → length b < written + fuel
      → Completes fuel k total b written chunks w
  write_loop-Completes zero k total b written chunks w positive below enough = absurd (omega arith)
  write_loop-Completes (suc fuel) k total b written chunks w positive below enough =
      elim (dec_lt written (length b)) [
        | no over ↦ write_loop-over fuel k total b written chunks w (omega (arith, over))
        | yes under ↦ write_loop-round fuel k total b written chunks w under (λ count w'.
            write_loop-Completes fuel k total b (written + length (take k (drop written b))) count
              w' positive (omega (arith, length-take k (drop written b), length-drop written b))
              (omega (arith, length-take k (drop written b), length-drop written b)))
      ]

  -- Write on a working buffered writer returns the whole length and no error, for every positive chunk
  -- size; everything written before and the new data are delivered in order, nothing is left
  -- pending, and the bytes sent are counted.
  pub write_message-delivered :
      (stats : Stats) (chunk_size : ℕ) (b : Bytes) (w : B.Writer)
      → 0 < chunk_size
      → (w' : B.Writer) × (stats' : Stats) × (write_message B stats chunk_size b w
          ≡ some (length b, none, w', stats'))
        × (delivered w' ≡ (delivered w ++ pending w) ++ b)
        × (pending w' ≡ [])
        × (stats'.bytes_sent ≡ stats.bytes_sent + length b)
  unfolding write_message write_small finish_write count_sent Completes contents
  write_message-delivered stats chunk_size b w positive = elim (dec_lt (length b) chunk_size) [
    | yes small ↦
        let (w1, taken, grown) = write_takes w b in
        let (w2, flushed, all, empty) = flush_delivers w1 in
        (
          w2,
          record { chunks_sent = stats.chunks_sent + 1; bytes_sent = stats.bytes_sent + length b },
          rw (lt→ltb (length b) chunk_size small, if◌then◌else◌)
              (ap (λ r. some (write_small B stats r)) taken
                ∙ ap (λ r. some (count_sent B stats (length b) 1 r)) flushed),
          all ∙ grown,
          empty,
          refl,
        )
    | no large ↦
        let (count, w1, ends, grown) =
          write_loop-Completes (suc (length b)) chunk_size
            ((length b + chunk_size - 1) / chunk_size) b 0 0 w positive (omega arith)
            (omega arith) in
        let (w2, flushed, all, empty) = flush_delivers w1 in
        (
          w2,
          record {
            chunks_sent = stats.chunks_sent + count;
            bytes_sent = stats.bytes_sent + length b;
          },
          rw (le→ltb (length b) chunk_size (omega (arith, large)), if◌then◌else◌)
              (ap (finished B stats) ends
                ∙ rw (lt→ltb 0 (length b) (omega (arith, large, positive)), if◌then◌else◌)
                    (ap (λ r. some (count_sent B stats (length b) count r)) flushed)),
          all ∙ grown,
          empty,
          refl,
        )
  ]
