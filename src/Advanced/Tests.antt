-- ===== src/Advanced/Tests.antt =====
-- Runs of the advanced frame processor, and its theorems at concrete inputs.
use pointsub.Base.{
  ℕ, ◌<◌, ◌≡◌, refl, ap, Bool, true, false, ◌&&◌, none, [], ◌∷◌, ◌++◌, ◌==◌, if◌then◌else◌, length,
  replicate, get_or, arith, inl, set_flag, ◌⊎◌,
}
use pointsub.Base.Bytes.{Bytes}
use pointsub.Base.Samples.{hello, sum32, sum32-lt}
use pointsub.Errors.{invalid_header_format}
use pointsub.Frame.{Result, ok, err, flag_compressed}
use pointsub.Frame.Io.{Sink}
use pointsub.Advanced.{
  Gzip, Advanced, payload, choose_payload, compress_data, count_compressed, count_frame,
  write_advanced, read_advanced,
}
use pointsub.Advanced.RoundTrip.{read_advanced-write_advanced}
use pointsub.Advanced.Counting.{Counts, read_advanced-Counts}
use pointsub.Frame.RoundTrip.{flags_read}

all_zero : Bytes → Bool
all_zero [] = true
all_zero (b ∷ bs) = b == 0 && all_zero bs

-- A compression of zeros only: their number, and anything else as it is behind a mark.
pack_by : Bool → Bytes → Bytes
pack_by true bs = 0 ∷ length bs ∷ []
pack_by false bs = 1 ∷ bs

pack : Bytes → Bytes
pack bs = pack_by (all_zero bs) bs

unpack : Bytes → Result Bytes
unpack [] = err invalid_header_format
unpack (mark ∷ bs) = if mark == 0 then ok (replicate (get_or bs 0 0) 0) else ok bs

zeros-again : (bs : Bytes) → all_zero bs ≡ true → replicate (length bs) 0 ≡ bs
unfolding all_zero
zeros-again [] _ = refl
zeros-again (b ∷ bs) e = ground (arith, zeros-again bs)

unpack-pack_by : (b : Bool) (bs : Bytes) → all_zero bs ≡ b → unpack (pack_by b bs) ≡ ok bs
unfolding unpack pack_by
unpack-pack_by true bs e = ap ok (zeros-again bs e)
unpack-pack_by false bs e = refl

unpack-pack : (bs : Bytes) → unpack (pack bs) ≡ ok bs
unfolding pack
unpack-pack bs = unpack-pack_by (all_zero bs) bs refl

pack_by-some : (b : Bool) (bs : Bytes) → 0 < length (pack_by b bs)
unfolding pack_by
pack_by-some true bs = omega arith
pack_by-some false bs = omega arith

pack-some : (bs : Bytes) → 0 < length (pack bs)
unfolding pack
pack-some bs = pack_by-some (all_zero bs) bs

abbrev zip : Gzip
zip = record {
  deflate = pack;
  inflate = unpack;
  inflate_deflate = unpack-pack;
  deflate_some = pack-some;
}

abbrev compressing : Advanced
compressing = record {
  max_frame_size = 4194304;
  use_compression = true;
  error_recovery_enabled = false;
  stats = record {
    frames_processed = 0;
    bytes_processed = 0;
    processing_errors = 0;
    checksum_errors = 0;
    compressed_frames = 0;
  };
}

zeros : Bytes
zeros = replicate 1100 0

-- The zeros are sent as two bytes.
zeros_packed : (payload sum32 zip zeros 0 compressing).0 ≡ 0 ∷ 1100 ∷ []
unfolding payload choose_payload compress_data count_compressed pack pack_by all_zero zeros
zeros_packed = refl

two_sent : length (payload sum32 zip zeros 0 compressing).0 ≡ 2
two_sent = ap length zeros_packed

zeros_some : 0 < length zeros
unfolding zeros
zeros_some = omega arith

abbrev sink : Sink
sink = record { sent = 7 ∷ []; room = none }

read_advanced-write_advanced_example :
    let sent = (payload sum32 zip zeros 0 compressing).0 in
    (frame : Bytes) × (sent_flags : ℕ) × (p' : Advanced) × (write_advanced sum32 zip compressing
        sink zeros 0
      ≡ (none, (p', record { sent = sink.sent ++ frame; room = none })))
    × (read_advanced sum32 zip compressing (frame ++ hello) ≡ (
      (ok (zeros, flags_read (length sent) sent_flags), count_frame (length zeros) compressing),
      hello,
    ))
    × (((sent ≡ zeros) × (sent_flags ≡ 0))
        ⊎ ((sent ≡ zip.deflate zeros) × (sent_flags ≡ set_flag 0 flag_compressed)))
read_advanced-write_advanced_example =
    read_advanced-write_advanced sum32 zip sum32-lt compressing compressing sink zeros hello 0 refl
      refl zeros_some (omega arith) refl (ground (arith, two_sent)) (omega (arith, two_sent))
      (inl (omega (arith, two_sent)))

read_advanced-Counts_example :
    Counts compressing.stats
      (read_advanced sum32 zip compressing hello).0.0
      (read_advanced sum32 zip compressing hello).0.1.stats
read_advanced-Counts_example = read_advanced-Counts sum32 zip compressing hello
