-- ===== src/Frame/Misread.antt =====
-- frame_processor.go: the standard headers that ReadFrameWithFlags takes for compact ones.
use pointsub.Base.{
  ℕ, ◌+◌, ◌*◌, ◌%◌, ◌≤◌, ◌<◌, ◌≡◌, ◌≢◌, refl, ap, sym, ◌∙◌, Bool, true, [], ◌++◌, arith, has_flag,
  length, get_or, get_or-append, if◌then◌else◌, le→ltb,
}
use pointsub.Base.Bytes.{Bytes, put_u32}
use pointsub.Frame.{ok, FrameHeader, decode_header, check_size, flag_compact}
use pointsub.Frame.Io.{read_frame_with_flags}
use pointsub.Frame.Writing.{frame_of}
use pointsub.Frame.Integrity.{header_length, read_frame_with_flags-IsFrame}

-- A header of four bytes announces fewer than 65536 bytes of data.
compact_size :
    (max_frame_size : ℕ) (header : Bytes) (h : FrameHeader)
    → length header ≡ 4
    → decode_header max_frame_size header ≡ ok h
    → h.size ≡ get_or header 0 0 * 256 + get_or header 1 0
unfolding decode_header check_size
compact_size max_frame_size header h four e = ground arith

-- The byte of a header that stands before other bytes.
header_byte :
    (header body s : Bytes) (i : ℕ)
    → s ≡ header ++ body
    → i < length header
    → get_or header i 0 ≡ get_or s i 0
header_byte header body s i e h =
    sym (get_or-append header body i 0 h) ∙ ap (λ t. get_or t i 0) (sym e)

header_length_at_least : (header : Bytes) → length header ≡ header_length header → 4 ≤ length header
header_length_at_least header e = ground arith

-- A size with the compact flag in its lowest byte cannot be the size that is decoded.
size_clash :
    (max_frame_size n : ℕ) (more header body : Bytes) (h : FrameHeader)
    → 65536 ≤ n
    → n < 4294967296
    → has_flag (n % 256) flag_compact ≡ true
    → put_u32 n more ≡ header ++ body
    → length header ≡ header_length header
    → decode_header max_frame_size header ≡ ok h
    → n ≡ h.size
    → ⊥
size_clash max_frame_size n more header body h large size compact s sizes decodes sized = omega (
  arith,
  compact_size max_frame_size header h four decodes,
  byte 0 (omega (arith, long)),
  byte 1 (omega (arith, long)),
)
  where
    long : 4 ≤ length header
    long = header_length_at_least header sizes

    byte : (i : ℕ) → i < length header → get_or header i 0 ≡ get_or (put_u32 n more) i 0
    byte i = header_byte header body (put_u32 n more) i s

    four : length header ≡ 4
    four =
        sizes
        ∙ ap (λ (b : Bool). if b then 4 else 12)
            (ap (λ t. has_flag t flag_compact) (byte 3 (omega (arith, long))) ∙ compact)

module _ (crc32 : Bytes → ℕ) (max_frame_size : ℕ) where
  -- No frame of 65536 bytes or more whose length has the compact flag in its lowest byte is
  -- read back as its data: every read of it fails or returns other data, whatever comes after it.
  pub read_frame_with_flags_misreads :
      (bytes rest rest' : Bytes) (flags flags' : ℕ)
      → 65536 ≤ length bytes
      → length bytes < 4294967296
      → has_flag (length bytes % 256) flag_compact ≡ true
      → read_frame_with_flags crc32 max_frame_size (frame_of crc32 bytes flags ++ rest)
        ≢ (ok (bytes, flags'), rest')
  read_frame_with_flags_misreads bytes rest rest' flags flags' large size compact e =
      let (header, h, s, decodes, sizes, frame) =
        read_frame_with_flags-IsFrame crc32 max_frame_size (frame_of crc32 bytes flags ++ rest)
          bytes rest' flags' e in
      size_clash max_frame_size (length bytes)
        (put_u32 (crc32 bytes) (put_u32 flags []) ++ (bytes ++ rest)) header (bytes ++ rest') h
        large size compact (sym standard ∙ s) sizes decodes frame.sized
    where
      standard :
          frame_of crc32 bytes flags ++ rest
          ≡ put_u32 (length bytes) (put_u32 (crc32 bytes) (put_u32 flags []) ++ (bytes ++ rest))
      standard = rw (le→ltb (length bytes) 65536 large) refl
