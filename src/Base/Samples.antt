-- ===== src/Base/Samples.antt =====
-- Test data that the components' tests share: a checksum in place of CRC-32 and some data.
use pointsub.Base.{ℕ, ◌+◌, ◌<◌, [], ◌∷◌, arith}
use pointsub.Base.Bytes.{Bytes, u32}

sum : Bytes → ℕ
sum [] = 0
sum (b ∷ bs) = b + sum bs

-- The sum of the bytes stands for CRC-32 where a test needs some checksum.
unfoldable pub sum32 : Bytes → ℕ
unfolding sum
sum32 bs = u32 (sum bs)

pub sum32-lt : (bs : Bytes) → sum32 bs < 4294967296
unfolding sum32
sum32-lt bs = omega arith

abbrev pub hello : Bytes
hello = 104 ∷ 101 ∷ 108 ∷ 108 ∷ 111 ∷ []
