-- ===== src/Sizer/HugeLoops.antt =====
-- message_sizer.go: the loops of Send and Receive of hugeMessageStrategy, round by round.
use pointsub.Base.{
  ℕ, zero, suc, ◌+◌, ◌≤◌, ◌<◌, ◌≡◌, refl, ap, sym, ◌∙◌, Bool, true, false, none, some, [], ◌∷◌,
  ◌++◌, ◌==◌, if◌then◌else◌, length, take, drop, arith, append_assoc, append-nil, length-append,
  length-take, length-drop, take-append-drop, le→ltb, lt→ltb, ==_refl,
}
use pointsub.Base.Bytes.{Bytes}
use pointsub.Frame.{ok, flag_fragmented, flag_last_frame}
use pointsub.Frame.Io.{write_frame, read_frame, write, write_within, ◌>>=◌}
use pointsub.Frame.Writing.{frame_of, write_frame-write}
use pointsub.Frame.RoundTrip.{read-frame_of}
use pointsub.Transporter.{bit}
use pointsub.Transporter.Sending.{Admits, open_sink}
use pointsub.Transporter.Receiving.{readable}
use pointsub.Sizer.Huge.{
  after_chunk, after_frame, finish_huge, write_chunk, send_rest, receive_rest,
}

pub bit-lt : (a b : Bool) → bit a flag_fragmented + bit b flag_last_frame < 4294967296
bit-lt true true = omega arith
bit-lt true false = omega arith
bit-lt false true = omega arith
bit-lt false false = omega arith

length-suffix : (xs ys : Bytes) → length ys ≤ length (xs ++ ys)
length-suffix xs ys = omega (arith, length-append xs ys)

length-frame_of :
    (crc32 : Bytes → ℕ) (bytes : Bytes) (flags : ℕ)
    → length bytes ≤ length (frame_of crc32 bytes flags)
length-frame_of crc32 bytes flags = length-suffix _ bytes

module _ (crc32 : Bytes → ℕ) (max_frame_size : ℕ) (crc32_range : (d : Bytes) → crc32 d < 4294967296)
    (admits : Admits max_frame_size 65536) where
  pub write_frame-open :
      (sent bytes : Bytes) (flags : ℕ)
      → length bytes ≤ 65536
      → write_frame crc32 max_frame_size (open_sink sent) bytes flags
        ≡ (none, open_sink (sent ++ frame_of crc32 bytes flags))
  unfolding write write_within
  write_frame-open sent bytes flags size =
      write_frame-write crc32 max_frame_size (open_sink sent) bytes flags
        (admits (length bytes) size) (omega arith)

  pub read_frame-frame_of :
      (bytes rest : Bytes) (flags : ℕ)
      → length bytes ≤ 65536
      → flags < 4294967296
      → read_frame crc32 max_frame_size (frame_of crc32 bytes flags ++ rest) ≡ (ok bytes, rest)
  unfolding read_frame
  read_frame-frame_of bytes rest flags size range =
      rw
        (
          read-frame_of crc32 max_frame_size crc32_range bytes flags rest
              (admits (length bytes) size) (omega arith) range (readable (length bytes) size),
          ◌>>=◌,
        )
        refl

  -- The loop of Send writes bytes that the loop of Receive reads back.
  unfoldable pub Carries : ℕ → ℕ → ℕ → ℕ → Bytes → Type 0
  Carries fuel chunk_size total sent bytes =
      (stream : Bytes) × ((before : Bytes)
        → send_rest crc32 max_frame_size fuel chunk_size total sent bytes (open_sink before)
          ≡ some (none, open_sink (before ++ stream)))
      × (length bytes ≤ length stream)
      × ((rounds : ℕ) (got rest : Bytes)
          → length bytes < rounds
          → length got + length bytes ≡ total
          → receive_rest crc32 max_frame_size rounds total got (stream ++ rest)
            ≡ some (ok (got ++ bytes), rest))

  receive_rest-end :
      (rounds total : ℕ) (got rest : Bytes)
      → 0 < rounds
      → length got ≡ total
      → receive_rest crc32 max_frame_size rounds total got rest ≡ some (ok got, rest)
  unfolding receive_rest finish_huge
  receive_rest-end zero total got rest some_round e = absurd (omega arith)
  receive_rest-end (suc rounds) total got rest some_round e =
      rw (le→ltb (length got) total (omega (arith, e)), if◌then◌else◌)
        (rw (e, ==_refl total, if◌then◌else◌) refl)

  receive_rest-frame :
      (rounds total : ℕ) (got frame rest : Bytes) (flags : ℕ)
      → length got < total
      → length frame ≤ 65536
      → flags < 4294967296
      → receive_rest crc32 max_frame_size
          (suc rounds)
          total
          got
          (frame_of crc32 frame flags ++ rest)
        ≡ receive_rest crc32 max_frame_size rounds total (got ++ frame) rest
  unfolding receive_rest
  receive_rest-frame rounds total got frame rest flags under size range =
      rw (lt→ltb (length got) total under, if◌then◌else◌)
        (rw (read_frame-frame_of frame rest flags size range, after_frame) refl)

  write_chunk-open :
      (total sent b : ℕ) (bs before : Bytes)
      → length (b ∷ bs) ≤ 65536
      → write_chunk crc32 max_frame_size total sent (b ∷ bs) (open_sink before) ≡ (
        none,
        open_sink (
            before
            ++ frame_of crc32 (b ∷ bs) (
                bit (sent == 0) flag_fragmented
                + bit (sent + length (b ∷ bs) == total) flag_last_frame)),
      )
  unfolding write_chunk
  write_chunk-open total sent b bs before size = write_frame-open before (b ∷ bs) _ size

  -- One round of both loops before the rest of them.
  Carries-chunk :
      (fuel chunk_size total sent c : ℕ) (cs left bytes : Bytes)
      → (c ∷ cs) ++ left ≡ bytes
      → length (c ∷ cs) ≤ 65536
      → Carries fuel chunk_size total (sent + length (c ∷ cs)) left
      → (stream : Bytes) × ((before : Bytes)
          → after_chunk
              (send_rest crc32 max_frame_size fuel chunk_size total (sent + length (c ∷ cs)) left)
              (write_chunk crc32 max_frame_size total sent (c ∷ cs) (open_sink before))
            ≡ some (none, open_sink (before ++ stream)))
        × (length bytes ≤ length stream)
        × ((rounds : ℕ) (got rest : Bytes)
            → length bytes < rounds
            → length got + length bytes ≡ total
            → receive_rest crc32 max_frame_size rounds total got (stream ++ rest)
              ≡ some (ok (got ++ bytes), rest))
  unfolding Carries
  Carries-chunk fuel chunk_size total sent c cs left bytes parts size
        (stream, sends, long, receives) =
      (
        frame ++ stream,
        λ before.
            rw (write_chunk-open total sent c cs before size, after_chunk)
              (rw (sends (before ++ frame))
                (ap (λ t. some (none, open_sink t)) (append_assoc before frame stream))),
        omega
            (arith, length-append frame stream, length-frame_of crc32 (c ∷ cs) flags, count, long),
        received,
      )
    where
      flags : ℕ
      flags =
          bit (sent == 0) flag_fragmented + bit (sent + length (c ∷ cs) == total) flag_last_frame

      frame : Bytes
      frame = frame_of crc32 (c ∷ cs) flags

      count : length (c ∷ cs) + length left ≡ length bytes
      count = sym (length-append (c ∷ cs) left) ∙ ap length parts

      received :
          (rounds : ℕ) (got rest : Bytes)
          → length bytes < rounds
          → length got + length bytes ≡ total
          → receive_rest crc32 max_frame_size rounds total got ((frame ++ stream) ++ rest)
            ≡ some (ok (got ++ bytes), rest)
      received zero got rest enough all = absurd (omega arith)
      received (suc rounds) got rest enough all = rw (append_assoc frame stream rest) (
          receive_rest-frame rounds total got (c ∷ cs) (stream ++ rest) flags
            (omega (arith, count, all)) size (bit-lt (sent == 0) (sent + length (c ∷ cs) == total))
          ∙ receives rounds (got ++ (c ∷ cs)) rest (omega (arith, count, enough))
              (omega (arith, length-append got (c ∷ cs), count, all))
          ∙ ap (λ t. some (ok t, rest)) (append_assoc got (c ∷ cs) left ∙ ap (λ t. got ++ t) parts))

  pub carries :
      (fuel k total sent : ℕ) (bytes : Bytes)
      → length bytes < fuel
      → k < 65536
      → Carries fuel (suc k) total sent bytes
  unfolding Carries send_rest
  carries zero k total sent bytes enough small = absurd (omega arith)
  carries (suc fuel) k total sent [] enough small = (
    [],
    λ before. ap (λ t. some (none, open_sink t)) (sym (append-nil before)),
    omega arith,
    λ rounds got rest some_round all.
        receive_rest-end rounds total got rest (omega (arith, some_round)) (omega (arith, all))
        ∙ ap (λ t. some (ok t, rest)) (sym (append-nil got)),
  )
  carries (suc fuel) k total sent (b ∷ bs) enough small =
      Carries-chunk fuel (suc k) total sent b (take k bs) (drop k bs) (b ∷ bs)
        (ap (λ t. b ∷ t) (take-append-drop k bs)) (omega (arith, length-take k bs))
        (carries fuel k total (sent + length (b ∷ take k bs)) (drop k bs)
          (omega (arith, length-drop k bs)) small)
