-- ===== src/Frame/RoundTrip.antt =====
-- frame_processor.go: what WriteFrame sends, ReadFrameWithFlags gives back.
use pointsub.Base.{
  ℕ, ◌+◌, ◌*◌, ◌/◌, ◌%◌, ◌<◌, ◌≡◌, refl, ◌⊎◌, inl, inr, Bool, true, false, none, [], ◌∷◌, ◌++◌,
  arith, ltb, if◌then◌else◌, has_flag, set_flag, length, length-append, take-append_length,
  drop-append_length, Bool-cases,
}
use pointsub.Base.Bytes.{Bytes, u8, put_u32, get_u32-put_u32}
use pointsub.Frame.{check_size, ok, decode_header, too_big, flag_compact}
use pointsub.Frame.Writing.{frame_of, write_frame-write}
use pointsub.Frame.Io.{
  write_within, write, write_within, write, verify_data, read_body, read_rest_of_header, Sink,
  read_full, read_frame_with_flags, write_frame, checksum_matches, ◌>>=◌,
}

-- A buffer as long as the first part of what comes is filled with it.
pub read_full-append : (n : ℕ) (xs s : Bytes) → length xs ≡ n → read_full n (xs ++ s) ≡ (ok xs, s)
unfolding read_full
read_full-append n xs s e =
    rw (← e, length-append xs s) (ground (arith, take-append_length xs s, drop-append_length xs s))

compact_flag_kept : (flags : ℕ) → has_flag (u8 (set_flag flags flag_compact)) flag_compact ≡ true
compact_flag_kept flags = ground arith

-- The end of ReadFrameWithFlags at a header that fits the data.
pub read_body-append :
    (crc32 : Bytes → ℕ) (is_compact : Bool) (bytes rest : Bytes) (checksum flags : ℕ)
    → checksum_matches crc32 is_compact bytes checksum ≡ true
    → read_body crc32 is_compact
        (record { size = length bytes; checksum = checksum; flags = flags })
        (bytes ++ rest)
      ≡ (ok (bytes, flags), rest)
unfolding read_body
read_body-append crc32 is_compact [] rest checksum flags matches = refl
read_body-append crc32 is_compact (b ∷ bs) rest checksum flags matches =
    ground (arith, read_full-append (length (b ∷ bs)) (b ∷ bs) rest refl)

module _ (crc32 : Bytes → ℕ) (max_frame_size : ℕ) where
  -- A compact frame of any bytes before `rest`.
  pub read_compact :
      (a b c d : ℕ) (bytes rest : Bytes)
      → has_flag d flag_compact ≡ true
      → a * 256 + b ≡ length bytes
      → too_big max_frame_size (length bytes) ≡ false
      → checksum_matches crc32 true bytes c ≡ true
      → read_frame_with_flags crc32 max_frame_size (a ∷ b ∷ c ∷ d ∷ bytes ++ rest)
        ≡ (ok (bytes, d), rest)
  unfolding read_frame_with_flags decode_header check_size read_rest_of_header
  read_compact a b c d bytes rest flag size fits matches =
      rw (read_full-append 4 (a ∷ b ∷ c ∷ d ∷ []) (bytes ++ rest) refl, read_frame_with_flags)
        (rw (flag, read_rest_of_header)
          (rw (size, fits) (rw (flag, read_body-append crc32 true bytes rest c d matches))))

  -- A standard frame of any bytes before `rest`, if the lowest byte of its size has no compact bit.
  pub read_standard :
      (checksum flags : ℕ) (bytes rest : Bytes)
      → length bytes < 4294967296
      → checksum < 4294967296
      → flags < 4294967296
      → has_flag (length bytes % 256) flag_compact ≡ false
      → too_big max_frame_size (length bytes) ≡ false
      → checksum_matches crc32 false bytes checksum ≡ true
      → read_frame_with_flags crc32 max_frame_size
          (put_u32 (length bytes) (put_u32 checksum (put_u32 flags [])) ++ bytes ++ rest)
        ≡ (ok (bytes, flags), rest)
  unfolding read_frame_with_flags decode_header check_size read_rest_of_header
  read_standard checksum flags bytes rest hs hc hf flag fits matches =
      rw
        (
          read_full-append 4 (put_u32 (length bytes) [])
              (put_u32 checksum (put_u32 flags []) ++ (bytes ++ rest)) refl,
          read_frame_with_flags,
        )
        (rw (flag, read_rest_of_header)
          (rw (read_full-append 8 (put_u32 checksum (put_u32 flags [])) (bytes ++ rest) refl, ◌>>=◌)
            (rw
              (
                get_u32-put_u32 (length bytes) hs,
                get_u32-put_u32 checksum hc,
                get_u32-put_u32 flags hf,
                fits,
              )
              (rw (read_body-append crc32 false bytes rest checksum flags matches)))))

checksum_matches_own_u8 :
    (crc32 : Bytes → ℕ) (bytes : Bytes)
    → checksum_matches crc32 true bytes (u8 (crc32 bytes)) ≡ true
unfolding checksum_matches
checksum_matches_own_u8 crc32 bytes = ground arith

checksum_matches_own :
    (crc32 : Bytes → ℕ) (bytes : Bytes) → checksum_matches crc32 false bytes (crc32 bytes) ≡ true
unfolding checksum_matches verify_data
checksum_matches_own crc32 bytes = ground arith

-- The sizes whose standard header is not taken for a compact one: the reader looks for the compact
-- flag in the fourth byte, which is the lowest byte of the size.
abbrev pub IsReadable : ℕ → Type 0
IsReadable size = (size < 65536) ⊎ (has_flag (size % 256) flag_compact ≡ false)

-- The flags that the reader gets: eight bits of them, with the compact flag, or all.
abbrev pub flags_read : ℕ → ℕ → ℕ
flags_read size flags = if ltb size 65536 then u8 (set_flag flags flag_compact) else flags

module _ (crc32 : Bytes → ℕ) (max_frame_size : ℕ)
    (crc32_range : (d : Bytes) → crc32 d < 4294967296) where
  pub read-frame_of :
      (bytes : Bytes) (flags : ℕ) (rest : Bytes)
      → too_big max_frame_size (length bytes) ≡ false
      → length bytes < 4294967296
      → flags < 4294967296
      → IsReadable (length bytes)
      → read_frame_with_flags crc32 max_frame_size (frame_of crc32 bytes flags ++ rest)
        ≡ (ok (bytes, flags_read (length bytes) flags), rest)
  read-frame_of bytes flags rest fits size hf readable =
      elim (Bool-cases (ltb (length bytes) 65536)) [
        | inl small ↦ rw small (
            read_compact crc32 max_frame_size (length bytes / 256) (length bytes % 256)
              (u8 (crc32 bytes)) (u8 (set_flag flags flag_compact)) bytes rest
              (compact_flag_kept flags) (omega arith) fits (checksum_matches_own_u8 crc32 bytes))
        | inr large ↦ rw large (
            read_standard crc32 max_frame_size (crc32 bytes) flags bytes rest size
              (crc32_range bytes) hf (ground arith) fits (checksum_matches_own crc32 bytes))
      ]

  -- Data within both limits, below 2^32 bytes and of a readable size is read back as it was
  -- written, with the flags that the header has room for, and the reader stops behind the frame.
  pub read_frame_with_flags-write_frame :
      (w : Sink) (bytes : Bytes) (flags : ℕ)
      → w.room ≡ none
      → too_big max_frame_size (length bytes) ≡ false
      → length bytes < 4294967296
      → flags < 4294967296
      → IsReadable (length bytes)
      → (frame : Bytes) × (write_frame crc32 max_frame_size w bytes flags
          ≡ (none, record { sent = w.sent ++ frame; room = none }))
        × ((rest : Bytes)
            → read_frame_with_flags crc32 max_frame_size (frame ++ rest)
              ≡ (ok (bytes, flags_read (length bytes) flags), rest))
  unfolding write write_within
  read_frame_with_flags-write_frame w bytes flags unbroken fits size hf readable = (
    frame_of crc32 bytes flags,
    rw (write_frame-write crc32 max_frame_size w bytes flags fits size)
        (rw (unbroken, write, write_within) refl),
    λ rest. read-frame_of bytes flags rest fits size hf readable,
  )
