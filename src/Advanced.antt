-- ===== src/Advanced.antt =====
-- frame_processor_impl.go: advancedFrameProcessor, which compresses the data of frames on top of
-- the processor of frame_processor.go. gzip is a parameter, with the promise that it expands what
-- it compressed and never compresses to nothing; CRC-32 is `crc32`. The deadlines bound the wait and not the bytes, so they have no
-- part here, and the averages of times and ratios in the statistics are left out.
pub mod RoundTrip
pub mod Counting
mod Tests
use pointsub.Base.{
  ℕ, ◌+◌, ◌*◌, ◌<◌, Bool, true, false, ◌&&◌, Option, none, some, [], ltb, leb, ◌==◌, if◌then◌else◌,
  length, has_flag, set_flag, ◌≡◌,
}
use pointsub.Base.Bytes.{Bytes}
use pointsub.Errors.{GoError, checksum_mismatch}
use pointsub.Frame.{Result, ok, err, FrameHeader, decode_header, flag_compressed}
use pointsub.Frame.Io.{
  Read, ◌>>=◌, pure, lift, read_full, read_rest_of_header, is_compact_frame, checksum_matches, Sink,
  write_frame,
}

-- Compression by gzip, and expansion with the errors that decompressData wraps.
pub record Gzip : Type 0 where
  pub deflate : Bytes → Bytes
  pub inflate : Bytes → Result Bytes
  pub inflate_deflate : (bytes : Bytes) → inflate (deflate bytes) ≡ ok bytes
  pub deflate_some : (bytes : Bytes) → 0 < length (deflate bytes)

abbrev pub compression_threshold : ℕ
compression_threshold = 1024

pub record FrameStats : Type 0 where
  pub frames_processed : ℕ
  pub bytes_processed : ℕ
  pub processing_errors : ℕ
  pub checksum_errors : ℕ
  pub compressed_frames : ℕ

-- `advancedFrameProcessor` with the limit of its base.
pub record Advanced : Type 0 where
  pub max_frame_size : ℕ
  pub use_compression : Bool
  pub error_recovery_enabled : Bool
  pub stats : FrameStats

unfoldable pub count_frame : ℕ → Advanced → Advanced
count_frame n p = record p {
  stats = record p.stats {
    frames_processed = p.stats.frames_processed + 1;
    bytes_processed = p.stats.bytes_processed + n;
  };
}

unfoldable pub count_error : Advanced → Advanced
count_error p = record p {
  stats = record p.stats { processing_errors = p.stats.processing_errors + 1 };
}

unfoldable pub count_mismatch : Advanced → Advanced
count_mismatch p = record p {
  stats = record p.stats { checksum_errors = p.stats.checksum_errors + 1 };
}

unfoldable pub count_compressed : Advanced → Advanced
count_compressed p = record p {
  stats = record p.stats { compressed_frames = p.stats.compressed_frames + 1 };
}

-- The header part of ReadFrameWithFlags: whether it is compact, and what it says.
unfoldable pub read_header : ℕ → Read (Bool × FrameHeader)
read_header max_frame_size = do
  first ← read_full 4
  header ← read_rest_of_header first
  h ← lift (decode_header max_frame_size header)
  pure (is_compact_frame first, h)

module _ (crc32 : Bytes → ℕ) (gzip : Gzip) where
  -- `compressData`: short data, and data that does not get shorter, stays as it is.
  unfoldable pub compress_data : Bytes → Advanced → Bytes × Advanced
  compress_data bytes p =
      if ltb (length bytes) compression_threshold
      then (bytes, p)
      else if leb (length bytes) (length (gzip.deflate bytes))
      then (bytes, p)
      else (gzip.deflate bytes, count_compressed p)

  -- What is sent: the compressed data if its length is below nine tenths, with the flag for it.
  unfoldable pub choose_payload : Bytes → ℕ → Bytes × Advanced → Bytes × (ℕ × Advanced)
  choose_payload bytes flags (compressed, p) =
      if ltb (length compressed * 10) (length bytes * 9)
      then (compressed, (set_flag flags flag_compressed, p))
      else (bytes, (flags, p))

  unfoldable pub payload : Bytes → ℕ → Advanced → Bytes × (ℕ × Advanced)
  payload bytes flags p =
      if p.use_compression && ltb compression_threshold (length bytes)
      then choose_payload bytes flags (compress_data bytes p)
      else (bytes, (flags, p))

  -- The end of WriteFrame.
  unfoldable pub finish_write :
      ℕ → Advanced → Option GoError × Sink → Option GoError × (Advanced × Sink)
  finish_write n p (some e, w) = (some e, (count_error p, w))
  finish_write n p (none, w) = (none, (count_frame n p, w))

  unfoldable pub write_payload : Sink → Bytes × (ℕ × Advanced) → Option GoError × (Advanced × Sink)
  write_payload w (bytes, (flags, p)) =
      finish_write (length bytes) p (write_frame crc32 p.max_frame_size w bytes flags)

  -- `WriteFrame`.
  unfoldable pub write_advanced : Advanced → Sink → Bytes → ℕ → Option GoError × (Advanced × Sink)
  write_advanced p w bytes flags = write_payload w (payload bytes flags p)

  -- `decompressData` of a flagged frame, and what follows it.
  unfoldable pub finish_read : ℕ → Advanced → Result Bytes → Result (Bytes × ℕ) × Advanced
  finish_read flags p (err e) = (err e, count_error p)
  finish_read flags p (ok bytes) = (ok (bytes, flags), count_frame (length bytes) p)

  unfoldable pub expand : ℕ → Bytes → Advanced → Result (Bytes × ℕ) × Advanced
  expand flags bytes p =
      finish_read flags p (if has_flag flags flag_compressed then gzip.inflate bytes else ok bytes)

  -- With the error recovery a mismatch of the checksum is counted and nothing more.
  unfoldable pub check_by : Bool → ℕ → Bytes → Advanced → Result (Bytes × ℕ) × Advanced
  check_by true flags bytes p = expand flags bytes p
  check_by false flags bytes p =
      if p.error_recovery_enabled
      then expand flags bytes (count_mismatch p)
      else (err checksum_mismatch, count_mismatch p)

  unfoldable pub check_frame : Bool → FrameHeader → Bytes → Advanced → Result (Bytes × ℕ) × Advanced
  check_frame is_compact h bytes p =
      check_by (checksum_matches crc32 is_compact bytes h.checksum) h.flags bytes p

  unfoldable pub take_body :
      Advanced → Bool → FrameHeader → Result Bytes × Bytes → (Result (Bytes × ℕ) × Advanced) × Bytes
  take_body p is_compact h (err e, s) = ((err e, count_error p), s)
  take_body p is_compact h (ok bytes, s) = (check_frame is_compact h bytes p, s)

  -- An empty frame is counted and not expanded.
  unfoldable pub take_sized :
      Bool → Advanced → Bool → FrameHeader → Bytes → (Result (Bytes × ℕ) × Advanced) × Bytes
  take_sized true p is_compact h s = ((ok ([], h.flags), count_frame 0 p), s)
  take_sized false p is_compact h s = take_body p is_compact h (read_full h.size s)

  unfoldable pub take_frame :
      Advanced → Result (Bool × FrameHeader) × Bytes → (Result (Bytes × ℕ) × Advanced) × Bytes
  take_frame p (err e, s) = ((err e, count_error p), s)
  take_frame p (ok (is_compact, h), s) = take_sized (h.size == 0) p is_compact h s

  -- `ReadFrameWithFlags`.
  unfoldable pub read_advanced : Advanced → Bytes → (Result (Bytes × ℕ) × Advanced) × Bytes
  read_advanced p s = take_frame p (read_header p.max_frame_size s)
