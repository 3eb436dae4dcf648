-- ===== src/Frame/Header.antt =====
-- frame_processor.go: EncodeHeader and DecodeHeader together.
use pointsub.Base.{ℕ, ◌/◌, ◌%◌, ◌<◌, ◌≡◌, true, false, [], ◌∷◌, arith, ltb, ◌&&◌, has_flag}
use pointsub.Base.Bytes.{Bytes, u8, u32, put_u32}
use pointsub.Frame.{ok, encode_header, decode_header, too_big, flag_compact}

-- A header with the compact flag for fewer than 65536 bytes decodes to the same size, the lowest
-- byte of the checksum and the lowest byte of the flags.
pub decode_header-encode_header_compact :
    (max_frame_size size checksum flags : ℕ)
    → too_big max_frame_size size ≡ false
    → size < 65536
    → has_flag flags flag_compact ≡ true
    → (bytes : Bytes) × (encode_header max_frame_size size checksum flags ≡ ok bytes)
      × (decode_header max_frame_size bytes
          ≡ ok (record { size = size; checksum = u8 checksum; flags = u8 flags }))
unfolding encode_header decode_header
decode_header-encode_header_compact max_frame_size size checksum flags fits small compact = (
  size % 65536 / 256 ∷ size % 65536 % 256 ∷ checksum % 256 ∷ flags % 256 ∷ [],
  ground arith,
  ground arith,
)

-- A standard header, which is written for 65536 bytes and more and wherever the compact flag is
-- clear, decodes to the same size, checksum and flags, all below 2^32.
pub decode_header-encode_header_standard :
    (max_frame_size size checksum flags : ℕ)
    → too_big max_frame_size size ≡ false
    → (ltb size 65536 && has_flag flags flag_compact) ≡ false
    → size < 4294967296
    → checksum < 4294967296
    → flags < 4294967296
    → (bytes : Bytes) × (encode_header max_frame_size size checksum flags ≡ ok bytes)
      × (decode_header max_frame_size bytes
          ≡ ok (record { size = size; checksum = checksum; flags = flags }))
unfolding encode_header decode_header
decode_header-encode_header_standard max_frame_size size checksum flags fits wide hs hc hf = (
  put_u32 (u32 size) (put_u32 checksum (put_u32 flags [])),
  rw (fits, encode_header) (rw wide),
  ground arith,
)
