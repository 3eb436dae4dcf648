-- ===== src/Sizer/Small.antt =====
-- message_sizer.go: Send and Receive of tinyMessageStrategy and smallMessageStrategy. The deadlines bound the
-- wait and not the bytes.
use pointsub.Base.{
  ℕ, zero, suc, ◌+◌, ◌*◌, ◌/◌, ◌%◌, ◌^◌, ◌<◌, ◌≡◌, ◌≢◌, refl, sym, Bool, true, false, ◌||◌, Option,
  none, some, [], ◌∷◌, ◌++◌, leb, ◌==◌, if◌then◌else◌, length, get_or, ==_refl, ne→==,
  length-append, arith,
}
use pointsub.Base.Bytes.{Bytes, u8}
use pointsub.Errors.{GoError, invalid_header_format, checksum_mismatch}
use pointsub.Frame.{ok, err}
use pointsub.Frame.Io.{Read, after, ◌>>=◌, pure, fail, read_full, Sink, write, write_within}
use pointsub.Frame.RoundTrip.{read_full-append}
use pointsub.Sizer.{small_message_size}

-- Go's `^` on integers of this many bits.
unfoldable pub xor : ℕ → ℕ → ℕ → ℕ
xor zero a b = 0
xor (suc w) a b = (a + b) % 2 + 2 * xor w (a / 2) (b / 2)

-- The checksum loop of Send and Receive.
unfoldable pub checksum_from : ℕ → Bytes → ℕ
checksum_from acc [] = acc
checksum_from acc (b ∷ bs) = checksum_from (xor 8 acc b) bs

-- Send of smallMessageStrategy: the second write follows a first that succeeds.
unfoldable pub after_header : Option GoError × Sink → Bytes → Option GoError × Sink
after_header (some e, w) bytes = (some e, w)
after_header (none, w) bytes = write w bytes

unfoldable pub small_header : Bytes → Bytes
small_header bytes = u8 (length bytes / 256) ∷ u8 (length bytes) ∷ checksum_from 0 bytes ∷ []

unfoldable pub small_send : Sink → Bytes → Option GoError × Sink
small_send w bytes = after_header (write w (small_header bytes)) bytes

-- The test of the checksum in Receive of smallMessageStrategy.
unfoldable pub check_small : Bool → ℕ → Bytes → Read Bytes
check_small enabled expected bytes =
    if enabled
    then (if checksum_from 0 bytes == expected then pure bytes else fail checksum_mismatch)
    else pure bytes

abbrev small_size : Bytes → ℕ
small_size header = get_or header 0 0 * 256 + get_or header 1 0

unfoldable pub receive_small_body : Bool → Bytes → Read Bytes
receive_small_body enable_checksum header =
    if small_size header == 0 || leb small_message_size (small_size header)
    then fail invalid_header_format
    else do
      bytes ← read_full (small_size header)
      check_small enable_checksum (get_or header 2 0) bytes

-- Receive of smallMessageStrategy, with the parameter EnableChecksum.
unfoldable pub small_receive : Bool → Read Bytes
small_receive enable_checksum = do header ← read_full 3; receive_small_body enable_checksum header

xor-left : (w a b c : ℕ) → a < 2 ^ w → b < 2 ^ w → xor w a c ≡ xor w b c → a ≡ b
unfolding xor
xor-left zero a b c ha hb e = omega arith
xor-left (suc w) a b c ha hb e =
    omega (arith, xor-left w (a / 2) (b / 2) (c / 2) (omega arith) (omega arith) (omega arith))

xor-right : (w a b c : ℕ) → b < 2 ^ w → c < 2 ^ w → xor w a b ≡ xor w a c → b ≡ c
unfolding xor
xor-right zero a b c ha hb e = omega arith
xor-right (suc w) a b c ha hb e =
    omega (arith, xor-right w (a / 2) (b / 2) (c / 2) (omega arith) (omega arith) (omega arith))

xor-lt : (w a b : ℕ) → xor w a b < 2 ^ w
unfolding xor
xor-lt zero a b = omega arith
xor-lt (suc w) a b = omega (arith, xor-lt w (a / 2) (b / 2))

-- The checksum tells its starting values apart.
checksum_from-inj :
    (a b : ℕ) (bs : Bytes) → a < 256 → b < 256 → checksum_from a bs ≡ checksum_from b bs → a ≡ b
unfolding checksum_from
checksum_from-inj a b [] ha hb e = e
checksum_from-inj a b (c ∷ bs) ha hb e =
    xor-left 8 a b c ha hb
      (checksum_from-inj (xor 8 a c) (xor 8 b c) bs (xor-lt 8 a c) (xor-lt 8 b c) e)

-- Two messages that differ in one byte have different checksums.
checksum_from-one_byte :
    (acc : ℕ) (before after : Bytes) (b c : ℕ)
    → b < 256
    → c < 256
    → checksum_from acc (before ++ b ∷ after) ≡ checksum_from acc (before ++ c ∷ after)
    → b ≡ c
unfolding checksum_from
checksum_from-one_byte acc [] after b c hb hc e =
    xor-right 8 acc b c hb hc (checksum_from-inj _ _ after (xor-lt 8 acc b) (xor-lt 8 acc c) e)
checksum_from-one_byte acc (d ∷ before) after b c hb hc e =
    checksum_from-one_byte (xor 8 acc d) before after b c hb hc e

receive_small_body-append :
    (enabled : Bool) (checksum : ℕ) (bytes rest : Bytes)
    → 0 < length bytes
    → length bytes < small_message_size
    → receive_small_body enabled
        (u8 (length bytes / 256) ∷ u8 (length bytes) ∷ checksum ∷ [])
        (bytes ++ rest)
      ≡ check_small enabled checksum bytes rest
unfolding receive_small_body
receive_small_body-append enabled checksum bytes rest some_bytes fits = rw size (
    rw (in_range, if◌then◌else◌) (rw (read_full-append (length bytes) bytes rest refl, after) refl))
  where
    size : length bytes / 256 % 256 * 256 + length bytes % 256 ≡ length bytes
    size = omega arith

    in_range : (length bytes == 0) || leb small_message_size (length bytes) ≡ false
    in_range = ground arith

-- What Send writes to a connection that takes everything.
pub small_send-open :
    (sent bytes : Bytes)
    → small_send (record { sent = sent; room = none }) bytes
      ≡ (none, record { sent = (sent ++ small_header bytes) ++ bytes; room = none })
unfolding small_send after_header write write_within
small_send-open sent bytes = refl

-- Receive of smallMessageStrategy gives back what its Send wrote, with or without the test of the
-- checksum, and leaves what follows, for messages from 1 to 16383 bytes.
pub small_receive-small_send :
    (enabled : Bool) (bytes rest : Bytes)
    → 0 < length bytes
    → length bytes < small_message_size
    → small_receive enabled ((small_send (record { sent = []; room = none }) bytes).1.sent ++ rest)
      ≡ (ok bytes, rest)
unfolding small_receive small_header check_small
small_receive-small_send enabled bytes rest some_bytes fits = rw (small_send-open [] bytes) (
    rw (read_full-append 3 (small_header bytes) (bytes ++ rest) refl, after)
      (rw (receive_small_body-append enabled (checksum_from 0 bytes) bytes rest some_bytes fits)
        (matching enabled)))
  where
    matching :
        (enabled : Bool) → check_small enabled (checksum_from 0 bytes) bytes rest ≡ (ok bytes, rest)
    matching true = rw (==_refl (checksum_from 0 bytes), if◌then◌else◌) refl
    matching false = refl

-- If one byte of a message of fewer than 16384 bytes becomes another byte on the way, Receive with
-- the test of the checksum refuses the message with ErrChecksumMismatch.
pub small_receive-one_byte :
    (before after_it rest : Bytes) (b c : ℕ)
    → b < 256
    → c < 256
    → b ≢ c
    → length (before ++ b ∷ after_it) < small_message_size
    → small_receive true
        (small_header (before ++ b ∷ after_it) ++ ((before ++ c ∷ after_it) ++ rest))
      ≡ (err checksum_mismatch, rest)
unfolding small_receive small_header check_small
small_receive-one_byte before after_it rest b c hb hc differ fits =
    rw
      (
        read_full-append 3 (small_header (before ++ b ∷ after_it))
            ((before ++ c ∷ after_it) ++ rest) refl,
        after,
      )
      (rw same_length (
        rw
          (receive_small_body-append true (checksum_from 0 (before ++ b ∷ after_it))
            (before ++ c ∷ after_it) rest (omega (arith, length-append before (c ∷ after_it)))
            (omega (arith, same_length)))
          (rw
            (
              ne→== (checksum_from 0 (before ++ c ∷ after_it))
                  (checksum_from 0 (before ++ b ∷ after_it)) other,
              if◌then◌else◌,
            )
            refl)))
  where
    same_length : length (before ++ b ∷ after_it) ≡ length (before ++ c ∷ after_it)
    same_length =
        omega (arith, length-append before (b ∷ after_it), length-append before (c ∷ after_it))

    other : checksum_from 0 (before ++ c ∷ after_it) ≢ checksum_from 0 (before ++ b ∷ after_it)
    other e = differ (checksum_from-one_byte 0 before after_it b c hb hc (sym e))
