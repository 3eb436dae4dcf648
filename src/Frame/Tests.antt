-- ===== src/Frame/Tests.antt =====
-- Runs of the frame processor, and its theorems at concrete inputs.
use pointsub.Base.{
  ℕ, ◌≡◌, ◌≢◌, refl, inl, none, some, [], ◌∷◌, ◌++◌, arith, length, replicate, length-replicate,
}
use pointsub.Base.Bytes.{Bytes}
use pointsub.Base.Samples.{sum32, sum32-lt, hello}
use pointsub.Errors.{eof, checksum_mismatch, unexpected_eof}
use pointsub.Frame.{ok, err, FrameHeader, encode_header, decode_header, check_size}
use pointsub.Frame.Io.{
  Sink, read_frame_with_flags, write_frame, write, write_within, write_parts, read_full,
  read_rest_of_header, read_body, checksum_matches,
}
use pointsub.Frame.Writing.{frame_of, write_frame-write}
use pointsub.Frame.RoundTrip.{read_frame_with_flags-write_frame}
use pointsub.Frame.Integrity.{IsFrame, header_length, read_frame_with_flags-IsFrame}
use pointsub.Frame.Misread.{read_frame_with_flags_misreads}

abbrev open_sink : Sink
open_sink = record { sent = []; room = none }

-- A frame of five bytes: two bytes of size, the checksum's lowest byte, the compact flag, the data.
hello_frame : (write_frame sum32 0 open_sink hello 1).1.sent ≡ 0 ∷ 5 ∷ 20 ∷ 65 ∷ hello
unfolding write_frame encode_header write write_within write_parts sum32
hello_frame = refl

abbrev hello_wire : Bytes
hello_wire = 0 ∷ 5 ∷ 20 ∷ 65 ∷ 104 ∷ 101 ∷ 108 ∷ 108 ∷ 111 ∷ 7 ∷ []

hello_read : read_frame_with_flags sum32 0 hello_wire ≡ (ok (hello, 65), 7 ∷ [])
unfolding read_frame_with_flags read_full read_rest_of_header read_body decode_header check_size
    checksum_matches sum32
hello_read = refl

corrupt_read :
    read_frame_with_flags sum32 0 (0 ∷ 5 ∷ 20 ∷ 65 ∷ 104 ∷ 101 ∷ 108 ∷ 108 ∷ 112 ∷ [])
    ≡ (err checksum_mismatch, [])
unfolding read_frame_with_flags read_full read_rest_of_header read_body decode_header check_size
    checksum_matches sum32
corrupt_read = refl

cut_read : read_frame_with_flags sum32 0 (0 ∷ 5 ∷ 20 ∷ 65 ∷ 104 ∷ []) ≡ (err unexpected_eof, [])
unfolding read_frame_with_flags read_full read_rest_of_header read_body decode_header check_size
    checksum_matches sum32
cut_read = refl

write_frame-write_example :
    write_frame sum32 0 (record { sent = 9 ∷ []; room = some (6, eof) }) hello 1
    ≡ write (record { sent = 9 ∷ []; room = some (6, eof) }) (frame_of sum32 hello 1)
write_frame-write_example =
    write_frame-write sum32 0 (record { sent = 9 ∷ []; room = some (6, eof) }) hello 1 refl
      (omega arith)

read_frame_with_flags-write_frame_example :
    (frame : Bytes) × (write_frame sum32 0 open_sink hello 1
      ≡ (none, record { sent = frame; room = none }))
    × ((rest : Bytes) → read_frame_with_flags sum32 0 (frame ++ rest) ≡ (ok (hello, 65), rest))
read_frame_with_flags-write_frame_example =
    read_frame_with_flags-write_frame sum32 0 sum32-lt open_sink hello 1 refl refl (omega arith)
      (omega arith) (inl (omega arith))

read_frame_with_flags-IsFrame_example :
    (header : Bytes) × (h : FrameHeader) × (hello_wire ≡ header ++ (hello ++ 7 ∷ []))
    × (decode_header 0 header ≡ ok h)
    × (length header ≡ header_length header)
    × IsFrame sum32 header h hello 65
read_frame_with_flags-IsFrame_example =
    read_frame_with_flags-IsFrame sum32 0 hello_wire hello (7 ∷ []) 65 hello_read

-- 65600 is 0x10040: its lowest byte is the compact flag.
zeros : ℕ → Bytes
zeros n = replicate n 0

length-zeros : (n : ℕ) → length (zeros n) ≡ n
unfolding zeros
length-zeros n = length-replicate n 0

read_frame_with_flags_misreads_example :
    read_frame_with_flags sum32 0 (frame_of sum32 (zeros 65600) 0 ++ []) ≢ (ok (zeros 65600, 0), [])
read_frame_with_flags_misreads_example =
    read_frame_with_flags_misreads sum32 0 (zeros 65600) [] [] 0 0
      (omega (arith, length-zeros 65600)) (omega (arith, length-zeros 65600))
      (rw (length-zeros 65600) refl)
