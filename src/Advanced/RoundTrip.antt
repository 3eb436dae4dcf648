-- ===== src/Advanced/RoundTrip.antt =====
-- frame_processor_impl.go: what the advanced processor reads of frames, its own and others.
use pointsub.Base.{
  ℕ, ◌/◌, ◌%◌, ◌<◌, ◌≡◌, refl, sym, ap, ◌∙◌, Bool, true, false, none, [], ◌++◌, ◌==◌, if◌then◌else◌,
  length, has_flag, set_flag, arith, ◌⊎◌, inl, inr,
}
use pointsub.Base.Bytes.{Bytes}
use pointsub.Errors.{checksum_mismatch}
use pointsub.Frame.{Result, ok, err, FrameHeader, decode_header, flag_compressed, too_big}
use pointsub.Frame.Io.{
  Read, after, ◌>>=◌, pure, lift, fail, read_full, read_rest_of_header, is_compact_frame,
  checksum_matches, Sink, write_frame, read_body, read_frame_with_flags,
}
use pointsub.Frame.RoundTrip.{IsReadable, flags_read, read_frame_with_flags-write_frame}
use pointsub.Advanced.{
  Gzip, Advanced, count_frame, read_header, compress_data, choose_payload, payload, finish_write,
  write_payload, write_advanced, finish_read, count_compressed, expand, check_by, take_sized,
  check_frame, take_body, take_frame, read_advanced,
}

module _ (crc32 : Bytes → ℕ) (gzip : Gzip) where
  -- What the base processor makes of the header part.
  base_of : Result (Bool × FrameHeader) × Bytes → Result (Bytes × ℕ) × Bytes
  base_of (err e, s) = (err e, s)
  base_of (ok (is_compact, h), s) = read_body crc32 is_compact h s

  decoded_part :
      (first : Bytes) (z : Result FrameHeader) (s : Bytes)
      → after (z, s) (read_body crc32 (is_compact_frame first))
        ≡ base_of (after (z, s) (λ h. pure (is_compact_frame first, h)))
  unfolding base_of
  decoded_part first (err e) s = refl
  decoded_part first (ok h) s = refl

  rest_part :
      (max_frame_size : ℕ) (first : Bytes) (y : Result Bytes × Bytes)
      → after y (λ header.
        lift (decode_header max_frame_size header) >>= read_body crc32 (is_compact_frame first))
        ≡ base_of (
            after y (λ header.
              lift (decode_header max_frame_size header) >>= λ h. pure (is_compact_frame first, h)))
  unfolding base_of
  rest_part max_frame_size first (err e, s) = refl
  rest_part max_frame_size first (ok header, s) =
      decoded_part first (decode_header max_frame_size header) s

  first_part :
      (max_frame_size : ℕ) (x : Result Bytes × Bytes)
      → after x (λ first. read_rest_of_header first >>= λ header.
          lift (decode_header max_frame_size header) >>= read_body crc32 (is_compact_frame first))
        ≡ base_of (
            after x (λ first. read_rest_of_header first >>= λ header.
            lift (decode_header max_frame_size header) >>= λ h. pure (is_compact_frame first, h)))
  unfolding base_of
  first_part max_frame_size (err e, s) = refl
  first_part max_frame_size (ok first, s) =
      rest_part max_frame_size first (read_rest_of_header first s)

  read_frame_with_flags-header :
      (max_frame_size : ℕ) (s : Bytes)
      → read_frame_with_flags crc32 max_frame_size s ≡ base_of (read_header max_frame_size s)
  unfolding read_frame_with_flags read_header
  read_frame_with_flags-header max_frame_size s = first_part max_frame_size (read_full 4 s)

  -- The end of the base processor's read, by the test of the checksum.
  abbrev tested : Bool → ℕ → Bytes → Read (Bytes × ℕ)
  tested agrees flags bs = if agrees then pure (bs, flags) else fail checksum_mismatch

  check_by-base :
      (agrees : Bool) (p : Advanced) (flags' : ℕ) (bs s bytes rest : Bytes) (flags : ℕ)
      → tested agrees flags' bs s ≡ (ok (bytes, flags), rest)
      → ◌≡◌ {A = (Result (Bytes × ℕ) × Advanced) × Bytes}
          (check_by crc32 gzip agrees flags' bs p, s)
          (expand crc32 gzip flags bytes p, rest)
  unfolding check_by
  check_by-base true p flags' bs s bytes rest flags result = cc
  check_by-base false p flags' bs s bytes rest flags result = absurd (ground arith)

  take_body-base :
      (p : Advanced) (is_compact : Bool) (h : FrameHeader) (y : Result Bytes × Bytes)
      (bytes rest : Bytes) (flags : ℕ)
      → after y (λ bs. tested (checksum_matches crc32 is_compact bs h.checksum) h.flags bs)
        ≡ (ok (bytes, flags), rest)
      → take_body crc32 gzip p is_compact h y ≡ (expand crc32 gzip flags bytes p, rest)
  unfolding take_body check_frame
  take_body-base p is_compact h (err e, s) bytes rest flags result = absurd (ground arith)
  take_body-base p is_compact h (ok bs, s) bytes rest flags result =
      check_by-base (checksum_matches crc32 is_compact bs h.checksum) p h.flags bs s bytes rest
        flags result

  take_sized-base :
      (empty : Bool) (p : Advanced) (is_compact : Bool) (h : FrameHeader) (s bytes rest : Bytes)
      (flags : ℕ)
      → 0 < length bytes
      → (if empty
            then pure ([], h.flags)
            else (read_full h.size >>= λ bs.
                tested (checksum_matches crc32 is_compact bs h.checksum) h.flags bs))
          s
        ≡ (ok (bytes, flags), rest)
      → take_sized crc32 gzip empty p is_compact h s ≡ (expand crc32 gzip flags bytes p, rest)
  unfolding take_sized
  take_sized-base true p is_compact h s bytes rest flags some_bytes result =
      let no_bytes : [] ≡ bytes = ground arith in
      absurd (omega (arith, ap (length {A = ℕ}) no_bytes))
  take_sized-base false p is_compact h s bytes rest flags some_bytes result =
      take_body-base p is_compact h (read_full h.size s) bytes rest flags result

  take_frame-base :
      (p : Advanced) (x : Result (Bool × FrameHeader) × Bytes) (bytes rest : Bytes) (flags : ℕ)
      → 0 < length bytes
      → base_of x ≡ (ok (bytes, flags), rest)
      → take_frame crc32 gzip p x ≡ (expand crc32 gzip flags bytes p, rest)
  unfolding take_frame base_of read_body
  take_frame-base p (err e, s) bytes rest flags some_bytes result = absurd (ground arith)
  take_frame-base p (ok (is_compact, h), s) bytes rest flags some_bytes result =
      take_sized-base (h.size == 0) p is_compact h s bytes rest flags some_bytes result

  -- A frame with data that the base processor reads is read to the same data, expanded if it has
  -- the flag of compression.
  read_advanced-base :
      (p : Advanced) (s bytes rest : Bytes) (flags : ℕ)
      → 0 < length bytes
      → read_frame_with_flags crc32 p.max_frame_size s ≡ (ok (bytes, flags), rest)
      → read_advanced crc32 gzip p s ≡ (expand crc32 gzip flags bytes p, rest)
  unfolding read_advanced
  read_advanced-base p s bytes rest flags some_bytes result =
      take_frame-base p (read_header p.max_frame_size s) bytes rest flags some_bytes
        (sym (read_frame_with_flags-header p.max_frame_size s) ∙ result)

  -- What is sent is the data with its flags, or the compressed data with the flag for it.
  payload-cases :
      (bytes : Bytes) (flags : ℕ) (p : Advanced)
      → ((payload crc32 gzip bytes flags p).1.1.max_frame_size ≡ p.max_frame_size)
        × ((((payload crc32 gzip bytes flags p).0 ≡ bytes)
              × ((payload crc32 gzip bytes flags p).1.0 ≡ flags))
            ⊎ (((payload crc32 gzip bytes flags p).0 ≡ gzip.deflate bytes)
                × ((payload crc32 gzip bytes flags p).1.0 ≡ set_flag flags flag_compressed)))
  unfolding payload choose_payload compress_data count_compressed
  payload-cases bytes flags p = ground arith

-- The flag of compression reaches the reader.
flags_read-compressed :
    (size flags : ℕ)
    → has_flag (flags_read size flags) flag_compressed ≡ has_flag flags flag_compressed
flags_read-compressed size flags =
    let same : flags_read size flags / 4 % 2 ≡ flags / 4 % 2 = ground arith in ap (λ n. n == 1) same

set_flag-lt : (flags : ℕ) → flags < 4294967296 → set_flag flags flag_compressed < 4294967296
set_flag-lt flags fits = ground arith

module _ (crc32 : Bytes → ℕ) (gzip : Gzip) where
  -- Expanding what arrives gives back the data, whether it was compressed or not.
  expand-payload :
      (p q : Advanced) (bytes sent : Bytes) (flags sent_flags arrived : ℕ)
      → has_flag flags flag_compressed ≡ false
      → has_flag arrived flag_compressed ≡ has_flag sent_flags flag_compressed
      → ((sent ≡ bytes) × (sent_flags ≡ flags))
        ⊎ ((sent ≡ gzip.deflate bytes) × (sent_flags ≡ set_flag flags flag_compressed))
      → expand crc32 gzip arrived sent q ≡ (ok (bytes, arrived), count_frame (length bytes) q)
  unfolding expand finish_read
  expand-payload p q bytes sent flags sent_flags arrived plain kept (inl (same, same_flags)) =
      let unset : has_flag arrived flag_compressed ≡ false =
        kept ∙ ap (λ f. has_flag f flag_compressed) same_flags ∙ plain in
      rw (unset, same, if◌then◌else◌) refl
  expand-payload p q bytes sent flags sent_flags arrived plain kept (inr (packed, with_flag)) =
      let is_set : has_flag (set_flag flags flag_compressed) flag_compressed ≡ true =
        ground arith in
      let set' : has_flag arrived flag_compressed ≡ true =
        kept ∙ ap (λ f. has_flag f flag_compressed) with_flag ∙ is_set in
      rw (set', packed, gzip.inflate_deflate bytes, if◌then◌else◌) refl

  sent_some :
      (bytes sent : Bytes) (flags sent_flags : ℕ)
      → 0 < length bytes
      → ((sent ≡ bytes) × (sent_flags ≡ flags))
        ⊎ ((sent ≡ gzip.deflate bytes) × (sent_flags ≡ set_flag flags flag_compressed))
      → 0 < length sent
  sent_some bytes sent flags sent_flags some_bytes (inl (same, _)) = rw same some_bytes
  sent_some bytes sent flags sent_flags some_bytes (inr (packed, _)) =
      rw packed (gzip.deflate_some bytes)

  sent_flags-lt :
      (bytes sent : Bytes) (flags sent_flags : ℕ)
      → flags < 4294967296
      → ((sent ≡ bytes) × (sent_flags ≡ flags))
        ⊎ ((sent ≡ gzip.deflate bytes) × (sent_flags ≡ set_flag flags flag_compressed))
      → sent_flags < 4294967296
  sent_flags-lt bytes sent flags sent_flags fits (inl (_, same)) = rw same fits
  sent_flags-lt bytes sent flags sent_flags fits (inr (_, with_flag)) =
      rw with_flag (set_flag-lt flags fits)

  -- Data that an advanced processor writes, compressed or not, to a connection that takes everything
  -- is read back as it was by another one with the same limit on the size, and what follows on the
  -- connection is left. The flags read are the part that the header has room for of the flags given
  -- to WriteFrame, with the one for compression set exactly where the compressed data was sent. The
  -- data is not empty, its flags do not say that it is compressed, and the bytes sent are within the
  -- limit, below 4 GiB and of a readable size.
  pub read_advanced-write_advanced :
      (crc32_range : (d : Bytes) → crc32 d < 4294967296) (p q : Advanced) (w : Sink)
      (bytes rest : Bytes) (flags : ℕ)
      → w.room ≡ none
      → q.max_frame_size ≡ p.max_frame_size
      → 0 < length bytes
      → flags < 4294967296
      → has_flag flags flag_compressed ≡ false
      → too_big p.max_frame_size (length (payload crc32 gzip bytes flags p).0) ≡ false
      → length (payload crc32 gzip bytes flags p).0 < 4294967296
      → IsReadable (length (payload crc32 gzip bytes flags p).0)
      → let sent = (payload crc32 gzip bytes flags p).0 in
        (frame : Bytes) × (sent_flags : ℕ) × (p' : Advanced) × (write_advanced crc32 gzip p w bytes
            flags
          ≡ (none, (p', record { sent = w.sent ++ frame; room = none })))
        × (read_advanced crc32 gzip q (frame ++ rest) ≡ (
          (ok (bytes, flags_read (length sent) sent_flags), count_frame (length bytes) q),
          rest,
        ))
        × (((sent ≡ bytes) × (sent_flags ≡ flags))
            ⊎ ((sent ≡ gzip.deflate bytes) × (sent_flags ≡ set_flag flags flag_compressed)))
  unfolding write_advanced write_payload finish_write
  read_advanced-write_advanced crc32_range p q w bytes rest flags unbroken limit some_bytes
        flags_fit plain fits small readable =
      let sent = (payload crc32 gzip bytes flags p).0 in
      let sent_flags = (payload crc32 gzip bytes flags p).1.0 in
      let writer = (payload crc32 gzip bytes flags p).1.1 in
      let (same_limit, cases) = payload-cases crc32 gzip bytes flags p in
      let (frame, written, taken) =
        read_frame_with_flags-write_frame crc32 p.max_frame_size crc32_range w sent sent_flags
          unbroken fits small (sent_flags-lt bytes sent flags sent_flags flags_fit cases)
          readable in
      (
        frame,
        sent_flags,
        count_frame (length sent) writer,
        ap
              (λ n.
                finish_write crc32 gzip (length sent) writer
                  (write_frame crc32 n w sent sent_flags))
              same_limit
            ∙ ap (finish_write crc32 gzip (length sent) writer) written,
        read_advanced-base crc32 gzip q (frame ++ rest) sent rest
              (flags_read (length sent) sent_flags)
              (sent_some bytes sent flags sent_flags some_bytes cases)
              (ap (λ n. read_frame_with_flags crc32 n (frame ++ rest)) limit ∙ taken rest)
            ∙ ap (λ r. (r, rest))
                (expand-payload p q bytes sent flags sent_flags
                  (flags_read (length sent) sent_flags) plain
                  (flags_read-compressed (length sent) sent_flags) cases),
        cases,
      )
