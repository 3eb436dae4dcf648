-- ===== src/Sizer.antt =====
-- message_sizer.go: defaultMessageSizer, which chooses a transport strategy and its parameters by the
-- size of a message. Sizes are lengths and never negative; times are milliseconds.
pub mod Sorting
pub mod Selection
pub mod Small
pub mod Medium
pub mod MediumTrip
pub mod Huge
pub mod HugeLoops
pub mod HugeTrip
mod Tests
use Prim.Native.String.{String}
use text.Mathlib.Text.{◌==◌ as str_eq}
use pointsub.Base.{
  ℕ, zero, suc, ◌*◌, Bool, true, false, ◌&&◌, ◌||◌, Option, none, some, List, [], ◌∷◌, ◌++◌, ltb,
  leb, ◌==◌, if◌then◌else◌, length,
}
use pointsub.Base.Bytes.{Bytes}
use pointsub.Base.ExchangeSort.{sort_from}

abbrev pub tiny_message_size : ℕ
tiny_message_size = 1024

abbrev pub small_message_size : ℕ
small_message_size = 16384

abbrev pub medium_message_size : ℕ
medium_message_size = 131072

abbrev pub large_message_size : ℕ
large_message_size = 1048576

-- A `TransportStrategy` by its Name and SizeRange; a `high` of 0 is no upper limit.
pub record Strategy : Type 0 where
  pub name : String
  pub low : ℕ
  pub high : ℕ

abbrev pub tiny_message_strategy : Strategy
tiny_message_strategy = record { name = "TinyMessageStrategy"; low = 0; high = tiny_message_size }

abbrev pub small_message_strategy : Strategy
small_message_strategy = record {
  name = "SmallMessageStrategy";
  low = tiny_message_size;
  high = small_message_size;
}

abbrev pub medium_message_strategy : Strategy
medium_message_strategy = record {
  name = "MediumMessageStrategy";
  low = small_message_size;
  high = medium_message_size;
}

abbrev pub large_message_strategy : Strategy
large_message_strategy = record {
  name = "LargeMessageStrategy";
  low = medium_message_size;
  high = large_message_size;
}

abbrev pub huge_message_strategy : Strategy
huge_message_strategy = record { name = "HugeMessageStrategy"; low = large_message_size; high = 0 }

pub record TransportParams : Type 0 where
  pub chunk_size : ℕ
  pub use_chunking : Bool
  pub block_delay : ℕ
  pub no_block_delay : Bool
  pub read_buffer_size : ℕ
  pub write_buffer_size : ℕ
  pub read_timeout : ℕ
  pub write_timeout : ℕ
  pub max_retries : ℕ
  pub enable_checksum : Bool

-- The test of SelectStrategy.
unfoldable pub covers : ℕ → Strategy → Bool
covers size s = leb s.low size && ltb size s.high || leb s.low size && s.high == 0

unfoldable pub last_or : Strategy → List Strategy → Strategy
last_or s [] = s
last_or s (t ∷ ts) = last_or t ts

unfoldable pub first_covering : ℕ → List Strategy → Option Strategy
first_covering size [] = none
first_covering size (s ∷ ss) =
    let rest = first_covering size ss in if covers size s then some s else rest

-- `SelectStrategy`.
unfoldable pub select_strategy : List Strategy → ℕ → Strategy
select_strategy strategies size = elim (first_covering size strategies) [
  | some s ↦ s
  | none ↦ last_or large_message_strategy strategies
]

-- The parameters that the sizes of OptimizeParams share.
abbrev base_params : ℕ → TransportParams
base_params size = record {
  chunk_size = 16384;
  use_chunking = ltb small_message_size size;
  block_delay = 1;
  no_block_delay = false;
  read_buffer_size = 8192;
  write_buffer_size = 8192;
  read_timeout = 30000;
  write_timeout = 30000;
  max_retries = 3;
  enable_checksum = true;
}

abbrev sized : TransportParams → Bool → ℕ → ℕ → ℕ → TransportParams
sized p chunking chunk buffer timeout = record p {
  use_chunking = chunking;
  chunk_size = chunk;
  read_buffer_size = buffer;
  write_buffer_size = buffer;
  read_timeout = timeout;
  write_timeout = timeout;
}

-- `OptimizeParams`.
unfoldable pub optimize_params : ℕ → TransportParams
optimize_params size =
    let p = base_params size in
    if ltb size tiny_message_size
    then sized p false p.chunk_size 1024 5000
    else if ltb size small_message_size
    then sized p false p.chunk_size 4096 10000
    else if ltb size medium_message_size
    then sized p true 4096 16384 20000
    else if ltb size large_message_size
    then sized p true 16384 65536 60000
    else sized p true 65536 131072 120000

-- `EstimateSize`.
unfoldable pub estimate_size : Bytes → ℕ → ℕ
estimate_size [] sample_size = 0
estimate_size (b ∷ sample) sample_size =
    let estimated = length (b ∷ sample) * 10 in
    if ltb 0 sample_size
    then sample_size
    else if ltb 10485760 estimated
    then 10485760
    else estimated

-- `ValidateChunkSize`.
unfoldable pub validate_chunk_size : ℕ → Bool
validate_chunk_size size = leb 64 size && leb size 1048576

-- The test of the sorting in RegisterStrategy.
unfoldable pub follows : Strategy → Strategy → Bool
follows s t = ltb t.low s.low

unfoldable pub replace : Strategy → List Strategy → Option (List Strategy)
replace s [] = none
replace s (t ∷ ts) =
    let rest = replace s ts in
    if str_eq t.name s.name
    then some (s ∷ ts)
    else elim rest [ none ↦ none | some ts' ↦ some (t ∷ ts') ]

-- `RegisterStrategy`.
unfoldable pub register_strategy : List Strategy → Strategy → List Strategy
register_strategy strategies s = elim (replace s strategies) [
  | some replaced ↦ replaced
  | none ↦ sort_from follows (length (strategies ++ s ∷ [])) (strategies ++ s ∷ [])
]

-- `NewDefaultMessageSizer`.
unfoldable pub new_default_message_sizer : List Strategy
new_default_message_sizer =
    register_strategy
      (register_strategy
        (register_strategy
          (register_strategy (register_strategy [] tiny_message_strategy) small_message_strategy)
          medium_message_strategy)
        large_message_strategy)
      huge_message_strategy
