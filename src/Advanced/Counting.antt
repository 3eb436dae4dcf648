-- ===== src/Advanced/Counting.antt =====
-- frame_processor_impl.go: what ReadFrameWithFlags counts.
use pointsub.Base.{ℕ, ◌+◌, ◌<◌, ◌≡◌, refl, Bool, true, false, ◌==◌, if◌then◌else◌, length, arith}
use pointsub.Base.Bytes.{Bytes}
use pointsub.Errors.{GoError, checksum_mismatch}
use pointsub.Frame.{Result, ok, err, FrameHeader}
use pointsub.Frame.Io.{checksum_matches, read_full}
use pointsub.Advanced.{
  Gzip, Advanced, FrameStats, count_frame, count_error, count_mismatch, read_header, finish_read,
  expand, check_by, check_frame, take_body, take_sized, take_frame, read_advanced,
}

-- The counts after a read, from those before it: a frame and its bytes, or an error; the checksum
-- errors that were recovered from are counted too.
abbrev pub Counts : FrameStats → Result (Bytes × ℕ) → FrameStats → Type 0
Counts before (ok (bytes, flags)) now =
    (now.frames_processed ≡ before.frames_processed + 1)
    × (now.bytes_processed ≡ before.bytes_processed + length bytes)
    × (now.processing_errors ≡ before.processing_errors)
Counts before (err e) now =
    (now.frames_processed ≡ before.frames_processed)
    × (now.bytes_processed ≡ before.bytes_processed)
    × (before.processing_errors + before.checksum_errors
        < now.processing_errors + now.checksum_errors)

module _ (crc32 : Bytes → ℕ) (gzip : Gzip) where
  finish_read-Counts :
      (flags : ℕ) (p : Advanced) (r : Result Bytes)
      → Counts p.stats
          (finish_read crc32 gzip flags p r).0
          (finish_read crc32 gzip flags p r).1.stats
  unfolding finish_read count_frame count_error
  finish_read-Counts flags p (ok bytes) = (refl, refl, refl)
  finish_read-Counts flags p (err e) = (refl, refl, omega arith)

  -- The same with a mismatch counted first.
  recovered-Counts :
      (flags : ℕ) (p : Advanced) (r : Result Bytes)
      → Counts p.stats
          (finish_read crc32 gzip flags (count_mismatch p) r).0
          (finish_read crc32 gzip flags (count_mismatch p) r).1.stats
  unfolding finish_read count_frame count_error count_mismatch
  recovered-Counts flags p (ok bytes) = (refl, refl, refl)
  recovered-Counts flags p (err e) = (refl, refl, omega arith)

  refused-Counts : (p : Advanced) (e : GoError) → Counts p.stats (err e) (count_mismatch p).stats
  unfolding count_mismatch
  refused-Counts p e = (refl, refl, omega arith)

  Counts-if :
      (b : Bool) (before : FrameStats) (x y : Result (Bytes × ℕ) × Advanced)
      → Counts before x.0 x.1.stats
      → Counts before y.0 y.1.stats
      → Counts before (if b then x else y).0 (if b then x else y).1.stats
  Counts-if true before x y cx cy = cx
  Counts-if false before x y cx cy = cy

  check_by-Counts :
      (agrees : Bool) (flags : ℕ) (bytes : Bytes) (p : Advanced)
      → Counts p.stats
          (check_by crc32 gzip agrees flags bytes p).0
          (check_by crc32 gzip agrees flags bytes p).1.stats
  unfolding check_by expand
  check_by-Counts true flags bytes p = finish_read-Counts flags p _
  check_by-Counts false flags bytes p =
      Counts-if p.error_recovery_enabled p.stats _ _ (recovered-Counts flags p _)
        (refused-Counts p checksum_mismatch)

  take_body-Counts :
      (p : Advanced) (is_compact : Bool) (h : FrameHeader) (y : Result Bytes × Bytes)
      → Counts p.stats
          (take_body crc32 gzip p is_compact h y).0.0
          (take_body crc32 gzip p is_compact h y).0.1.stats
  unfolding take_body check_frame count_error
  take_body-Counts p is_compact h (err e, s) = (refl, refl, omega arith)
  take_body-Counts p is_compact h (ok bytes, s) =
      check_by-Counts (checksum_matches crc32 is_compact bytes h.checksum) h.flags bytes p

  take_sized-Counts :
      (empty : Bool) (p : Advanced) (is_compact : Bool) (h : FrameHeader) (s : Bytes)
      → Counts p.stats
          (take_sized crc32 gzip empty p is_compact h s).0.0
          (take_sized crc32 gzip empty p is_compact h s).0.1.stats
  unfolding take_sized count_frame
  take_sized-Counts true p is_compact h s = (refl, refl, refl)
  take_sized-Counts false p is_compact h s = take_body-Counts p is_compact h (read_full h.size s)

  take_frame-Counts :
      (p : Advanced) (x : Result (Bool × FrameHeader) × Bytes)
      → Counts p.stats (take_frame crc32 gzip p x).0.0 (take_frame crc32 gzip p x).0.1.stats
  unfolding take_frame count_error
  take_frame-Counts p (err e, s) = (refl, refl, omega arith)
  take_frame-Counts p (ok (is_compact, h), s) = take_sized-Counts (h.size == 0) p is_compact h s

  -- Every read counts: with a result, one frame, the bytes returned and no processing error; with an
  -- error, no frame, no bytes and at least one error.
  pub read_advanced-Counts :
      (p : Advanced) (s : Bytes)
      → Counts p.stats (read_advanced crc32 gzip p s).0.0 (read_advanced crc32 gzip p s).0.1.stats
  unfolding read_advanced
  read_advanced-Counts p s = take_frame-Counts p (read_header p.max_frame_size s)
