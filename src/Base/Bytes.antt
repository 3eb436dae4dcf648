-- ===== src/Base/Bytes.antt =====
-- Big-endian integers as in `binary.BigEndian`, and lists of bytes.
use pointsub.Base.{ℕ, ◌+◌, ◌*◌, ◌/◌, ◌%◌, ◌<◌, ◌≡◌, List, [], ◌∷◌, arith, get_or}

abbrev pub Bytes : Type 0
Bytes = List ℕ

-- Every element is a byte.
abbrev pub AllBytes : Bytes → Type 0
AllBytes [] = Unit {0}
AllBytes (b ∷ bs) = (b < 256) × AllBytes bs

-- A conversion to `byte`.
abbrev pub u8 : ℕ → ℕ
u8 value = value % 256

-- `PutUint16` and `PutUint32`, followed by `rest`.
abbrev pub put_u16 : ℕ → Bytes → Bytes
put_u16 n rest = n / 256 ∷ n % 256 ∷ rest

abbrev pub put_u32 : ℕ → Bytes → Bytes
put_u32 n rest = n / 16777216 ∷ n / 65536 % 256 ∷ n / 256 % 256 ∷ n % 256 ∷ rest

-- `Uint16` and `Uint32` of the bytes at `i`.
abbrev pub get_u16 : Bytes → ℕ → ℕ
get_u16 bs i = get_or bs i 0 * 256 + get_or bs (i + 1) 0

abbrev pub get_u32 : Bytes → ℕ → ℕ
get_u32 bs i =
    get_or bs i 0 * 16777216
    + get_or bs (i + 1) 0 * 65536
    + get_or bs (i + 2) 0 * 256
    + get_or bs (i + 3) 0

pub get_u32-put_u32 :
    (n : ℕ)
    → n < 4294967296
    → n / 16777216 * 16777216 + n / 65536 % 256 * 65536 + n / 256 % 256 * 256 + n % 256 ≡ n
get_u32-put_u32 n h = omega arith

-- Conversions to `uint16` and `uint32`.
abbrev pub u16 : ℕ → ℕ
u16 value = value % 65536

abbrev pub u32 : ℕ → ℕ
u32 value = value % 4294967296
