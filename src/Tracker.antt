-- ===== src/Tracker.antt =====
-- progress_tracker.go: defaultProgressTracker. An operation gives its error, the tracker after it
-- and the calls of the callbacks, which Go starts as goroutines: their order is not part of what is
-- said here. Sizes are int64 and never negative. The clock's readings are arguments; times are
-- nanoseconds.
pub mod Records
pub mod Steps
pub mod Transitions
pub mod Speed
pub mod Completion
pub mod Cleanup
pub mod Finality
mod Tests
pub mod Operations
use Prim.Native.String.{String}
use pointsub.Base.{
  ℕ, suc, ◌+◌, ◌-◌, ◌*◌, Bool, true, false, ◌&&◌, ◌||◌, not, Option, none, some, List, [], ◌∷◌,
  ◌++◌, map, ltb, leb, ◌==◌, if◌then◌else◌, length, drop,
}
use pointsub.Base.Dict.{Dict, lookup, insert, keep}
use pointsub.Errors.{GoError}

pub data Status : Type 0 where
  initializing transferring paused resuming completed failed cancelled : Status

-- The errors of progress_tracker.go, each a value of NewPointSubError.
pub data Refusal : Type 0 where
  transfer_not_found transfer_already_active invalid_transfer_state : Refusal
  transfer_paused transfer_cancelled transfer_failed transfer_completed : Refusal
  cannot_pause cannot_resume cannot_mark_failed invalid_status_transition : Refusal
  record_not_found : Refusal

-- `float64`, with what the tracker uses of it.
pub record Floats : Type 1 where
  pub Float : Type 0
  pub of_nat : ℕ → Float
  pub of_sub : ℕ → ℕ → Float  -- float64(a - b)
  pub seconds : ℕ → Float  -- Duration.Seconds
  pub add : Float → Float → Float
  pub sub : Float → Float → Float
  pub mul : Float → Float → Float
  pub div : Float → Float → Float
  pub at_least : Float → Float → Bool
  pub above : Float → Float → Bool
  pub to_duration : Float → ℕ

abbrev pub is_terminal : Status → Bool
is_terminal completed = true
is_terminal failed = true
is_terminal cancelled = true
is_terminal _ = false

-- `isValidStatusTransition`.
unfoldable pub is_valid_transition : Status → Status → Bool
is_valid_transition initializing transferring = true
is_valid_transition initializing paused = true
is_valid_transition initializing failed = true
is_valid_transition initializing cancelled = true
is_valid_transition transferring paused = true
is_valid_transition transferring completed = true
is_valid_transition transferring failed = true
is_valid_transition transferring cancelled = true
is_valid_transition paused resuming = true
is_valid_transition paused failed = true
is_valid_transition paused cancelled = true
is_valid_transition resuming transferring = true
is_valid_transition resuming paused = true
is_valid_transition resuming failed = true
is_valid_transition resuming cancelled = true
is_valid_transition failed initializing = true
is_valid_transition cancelled initializing = true
is_valid_transition _ _ = false

module _ (F : Floats) where
  open F use {Float, of_nat}

  pub record TransferRecord : Type 0 where
    pub total_size : ℕ
    pub transferred : ℕ
    pub percentage : Float
    pub status : Status
    pub start_time : ℕ
    pub last_update_time : ℕ
    pub speed_samples : List Float
    pub current_speed : Float
    pub last_notified_percentage : Float
    pub completion_notified : Bool
    pub error : Option GoError

  -- The calls of a ProgressCallback, with the transfer's ID.
  pub data Notice : Type 0 where
    on_progress : String → ℕ → ℕ → Float → Notice
    on_status_change : String → Status → Status → Notice
    on_speed_update : String → Float → ℕ → Notice
    on_error : String → Option GoError → Bool → Notice
    on_complete : String → ℕ → ℕ → Notice

  -- A callback is known by a number.
  pub record Tracker : Type 0 where
    pub transfers : Dict TransferRecord
    pub callbacks : List ℕ
    pub history_retention : ℕ

  -- What an operation does to the record it found: its error, or the record after it and the
  -- calls of each callback.
  pub data Change : Type 0 where
    refused : Refusal → Change
    changed : TransferRecord → List Notice → Change
