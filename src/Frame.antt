-- ===== src/Frame.antt =====
-- frame_processor.go: the headers of frames, written and read by defaultFrameProcessor.
-- Sizes come from `len`, so they are not negative; `max_frame_size` is 0 for "no limit".
pub mod Header
pub mod Io
pub mod Writing
pub mod RoundTrip
pub mod Integrity
pub mod Misread
mod Tests
use pointsub.Base.{
  ℕ, ◌+◌, ◌*◌, ◌%◌, Bool, true, false, ◌&&◌, List, [], ◌∷◌, ltb, ◌==◌, if◌then◌else◌, length,
  get_or, has_flag, set_flag,
}
use pointsub.Base.Bytes.{Bytes, u8, u16, u32, put_u16, put_u32, get_u16, get_u32}
use pointsub.Errors.{GoError, invalid_header_size, frame_too_big}

abbrev pub default_header_size : ℕ
default_header_size = 12

abbrev pub compact_header_size : ℕ
compact_header_size = 4

abbrev pub flag_normal : ℕ
flag_normal = 0x00

abbrev pub flag_fragmented : ℕ
flag_fragmented = 0x01

abbrev pub flag_last_frame : ℕ
flag_last_frame = 0x02

abbrev pub flag_compressed : ℕ
flag_compressed = 0x04

abbrev pub flag_compact : ℕ
flag_compact = 0x40

pub data Result {ℓ} (A : Type ℓ) : Type ℓ where
  ok : A → Result A
  err : GoError → Result A

-- `FrameHeader` without `Sequence` and `Version`, which no code sets or reads.
pub record FrameHeader : Type 0 where
  pub size : ℕ
  pub checksum : ℕ  -- uint32
  pub flags : ℕ  -- uint32

-- `maxFrameSize > 0 && size > maxFrameSize`.
abbrev pub too_big : ℕ → ℕ → Bool
too_big max_frame_size size = ltb 0 max_frame_size && ltb max_frame_size size

-- `EncodeHeader`.
unfoldable pub encode_header : ℕ → ℕ → ℕ → ℕ → Result Bytes
encode_header max_frame_size size checksum flags =
    if too_big max_frame_size size
    then err frame_too_big
    else if ltb size 65536 && has_flag flags flag_compact
    then ok (put_u16 (u16 size) (u8 checksum ∷ u8 flags ∷ []))
    else ok (put_u32 (u32 size) (put_u32 checksum (put_u32 flags [])))

unfoldable pub check_size : ℕ → FrameHeader → Result FrameHeader
check_size max_frame_size h = if too_big max_frame_size h.size then err frame_too_big else ok h

abbrev pub compact_header : Bytes → FrameHeader
compact_header h = record {
  size = get_u16 h 0;
  checksum = get_or h 2 0;
  flags = set_flag (get_or h 3 0) flag_compact;
}

abbrev pub standard_header : Bytes → FrameHeader
standard_header h = record { size = get_u32 h 0; checksum = get_u32 h 4; flags = get_u32 h 8 }

-- `DecodeHeader`.
unfoldable pub decode_header : ℕ → Bytes → Result FrameHeader
unfolding check_size
decode_header max_frame_size h =
    if ltb (length h) compact_header_size
    then err invalid_header_size
    else if length h == compact_header_size
    then check_size max_frame_size (compact_header h)
    else if ltb (length h) default_header_size
    then err invalid_header_size
    else check_size max_frame_size (standard_header h)
