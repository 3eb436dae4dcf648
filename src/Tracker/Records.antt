-- ===== src/Tracker/Records.antt =====
-- progress_tracker.go: what each operation does to the record of a transfer.
use Prim.Native.String.{String}
use pointsub.Base.{
  ℕ, ◌-◌, Bool, true, false, ◌&&◌, ◌||◌, not, Option, none, some, List, [], ◌∷◌, ◌++◌, ltb, leb,
  if◌then◌else◌, length,
}
use pointsub.Errors.{GoError}
use pointsub.Tracker.{
  Status, initializing, transferring, paused, resuming, completed, failed, cancelled, Refusal,
  transfer_already_active, transfer_paused, transfer_cancelled, transfer_failed, transfer_completed,
  cannot_pause, cannot_resume, cannot_mark_failed, invalid_status_transition, Floats,
  is_valid_transition, is_terminal, TransferRecord, Notice, on_progress, on_status_change,
  on_speed_update, on_error, on_complete, Change, refused, changed,
}

-- The conditions on the status in StopTracking, PauseTracking, ResumeTracking and MarkFailed.
abbrev pub is_done : Status → Bool
is_done completed = true
is_done failed = true
is_done _ = false

abbrev pub can_pause : Status → Bool
can_pause transferring = true
can_pause initializing = true
can_pause _ = false

abbrev pub can_resume : Status → Bool
can_resume paused = true
can_resume _ = false

abbrev pub is_settled : Status → Bool
is_settled completed = true
is_settled cancelled = true
is_settled _ = false

-- `xs[1:]`
unfoldable pub tail {ℓ} : {A : Type ℓ} → List A → List A
tail [] = []
tail (x ∷ xs) = xs

-- The error of UpdateProgress in a status that does not transfer.
unfoldable pub not_transferring : Status → Option Refusal
not_transferring transferring = none
not_transferring initializing = none
not_transferring resuming = none
not_transferring paused = some transfer_paused
not_transferring cancelled = some transfer_cancelled
not_transferring failed = some transfer_failed
not_transferring completed = some transfer_completed

module _ (F : Floats) where
  open F use {Float, of_nat, of_sub, seconds, add, sub, mul, div, at_least, above, to_duration}

  -- The record that StartTracking writes.
  unfoldable pub new_record : ℕ → ℕ → ℕ → TransferRecord F
  new_record total_size start now = record {
    total_size = total_size;
    transferred = 0;
    percentage = of_nat 0;
    status = initializing;
    start_time = start;
    last_update_time = now;
    speed_samples = [];
    current_speed = of_nat 0;
    last_notified_percentage = of_nat 0;
    completion_notified = false;
    error = none;
  }

  unfoldable pub set_status : Status → ℕ → TransferRecord F → TransferRecord F
  set_status status now r = record r { status = status; last_update_time = now }

  -- `StartTracking` on an existing record.
  unfoldable pub restart : String → ℕ → ℕ → ℕ → TransferRecord F → Change F
  restart id total_size start now r =
      if is_terminal r.status
      then changed (new_record total_size start now)
          (on_status_change id cancelled initializing ∷ [])
      else refused transfer_already_active

  -- `UpdateStatus`.
  unfoldable pub move_to : String → Status → ℕ → TransferRecord F → Change F
  move_to id status now r =
      if is_valid_transition r.status status
      then changed (set_status status now r) (on_status_change id r.status status ∷ [])
      else refused invalid_status_transition

  -- `StopTracking`.
  unfoldable pub stop : String → ℕ → TransferRecord F → Change F
  stop id now r =
      if is_done r.status
      then changed r []
      else changed (set_status cancelled now r) (on_status_change id r.status cancelled ∷ [])

  -- `PauseTracking`.
  unfoldable pub pause : String → ℕ → TransferRecord F → Change F
  pause id now r =
      if can_pause r.status
      then changed (set_status paused now r) (on_status_change id r.status paused ∷ [])
      else refused cannot_pause

  -- `ResumeTracking`.
  unfoldable pub resume : String → ℕ → TransferRecord F → Change F
  resume id now r =
      if can_resume r.status
      then changed (set_status resuming now r) (on_status_change id r.status resuming ∷ [])
      else refused cannot_resume

  -- `MarkFailed`.
  unfoldable pub fail_with : String → Option GoError → ℕ → TransferRecord F → Change F
  fail_with id e now r =
      if is_settled r.status
      then refused cannot_mark_failed
      else changed (record (set_status failed now r) { error = e })
          (on_status_change id r.status failed ∷ on_error id e true ∷ [])

  -- UpdateProgress: to StatusTransferring.
  unfoldable pub begin_status : String → Status → List (Notice F)
  begin_status id initializing = on_status_change id initializing transferring ∷ []
  begin_status id resuming = on_status_change id resuming transferring ∷ []
  begin_status id _ = []

  -- UpdateProgress: the bytes and the percentage.
  unfoldable pub count_bytes : ℕ → TransferRecord F → TransferRecord F
  count_bytes bytes r = record r {
    status = transferring;
    transferred = bytes;
    percentage =
        if ltb 0 r.total_size
        then div (mul (of_nat bytes) (of_nat 100)) (of_nat r.total_size)
        else of_nat 0;
  }

  unfoldable pub sum : List Float → Float → Float
  sum [] acc = acc
  sum (x ∷ xs) acc = sum xs (add acc x)

  -- `calculateSpeed`.
  unfoldable pub calculate_speed : List Float → Float
  calculate_speed [] = of_nat 0
  calculate_speed (x ∷ xs) = div (sum (x ∷ xs) (of_nat 0)) (of_nat (length (x ∷ xs)))

  unfoldable pub add_sample : List Float → Float → List Float
  add_sample samples x =
      let all = samples ++ x ∷ [] in if ltb 10 (length all) then tail all else all

  -- UpdateProgress: the speed, after more than 200ms.
  unfoldable pub sample_speed : ℕ → ℕ → TransferRecord F → TransferRecord F
  sample_speed bytes now r =
      let elapsed = now - r.last_update_time in
      let samples =
        add_sample r.speed_samples (div (of_sub bytes r.transferred) (seconds elapsed)) in
      if ltb 200000000 elapsed
      then record r {
        speed_samples = samples;
        current_speed = calculate_speed samples;
        last_update_time = now;
      }
      else r

  unfoldable pub notify_threshold : ℕ → Float
  notify_threshold total_size =
      if ltb total_size 1048576
      then of_nat 10
      else if ltb total_size 104857600
      then of_nat 5
      else of_nat 1

  unfoldable pub estimated_time_left : TransferRecord F → ℕ
  estimated_time_left r =
      if above r.current_speed (of_nat 0) && ltb r.transferred r.total_size
      then to_duration
          (mul (div (of_nat (r.total_size - r.transferred)) r.current_speed) (of_nat 1000000000))
      else 0

  unfoldable pub is_due : TransferRecord F → Bool
  is_due r =
      at_least (sub r.percentage r.last_notified_percentage) (notify_threshold r.total_size)
      || at_least r.percentage (of_nat 100) && not r.completion_notified

  -- UpdateProgress: the calls for the progress and the speed.
  unfoldable pub progress_notices : String → TransferRecord F → List (Notice F)
  progress_notices id r =
      if is_due r
      then on_progress id r.total_size r.transferred r.percentage
        ∷ on_speed_update id r.current_speed (estimated_time_left r)
        ∷ []
      else []

  unfoldable pub mark_notified : TransferRecord F → TransferRecord F
  mark_notified r = record r {
    last_notified_percentage = if is_due r then r.percentage else r.last_notified_percentage;
  }

  unfoldable pub is_complete : ℕ → TransferRecord F → Bool
  is_complete bytes r = leb r.total_size bytes && ltb 0 r.total_size

  -- UpdateProgress: completion, at time `later`.
  unfoldable pub complete : ℕ → TransferRecord F → TransferRecord F
  complete bytes r =
      if is_complete bytes r
      then record r { status = completed; percentage = of_nat 100; completion_notified = true }
      else r

  unfoldable pub complete_notices : String → ℕ → ℕ → TransferRecord F → List (Notice F)
  complete_notices id bytes later r =
      if is_complete bytes r
      then on_status_change id r.status completed
        ∷ on_complete id r.total_size (later - r.start_time)
        ∷ []
      else []

  -- UpdateProgress on a record that transfers.
  unfoldable pub advance : String → ℕ → ℕ → ℕ → TransferRecord F → Change F
  advance id bytes now later r =
      let counted = sample_speed bytes now (count_bytes bytes r) in
      let notified = mark_notified counted in
      changed (complete bytes notified) (
        begin_status id r.status
        ++ (progress_notices id counted ++ complete_notices id bytes later notified))

  -- `UpdateProgress`: `now` is the time of the speed, `later` of the completion.
  unfoldable pub progress : String → ℕ → ℕ → ℕ → TransferRecord F → Change F
  progress id bytes now later r = elim (not_transferring r.status) [
    | some e ↦ refused e
    | none ↦ advance id bytes now later r
  ]

  -- `UpdateTotalSize`, with its percentage.
  unfoldable pub resize : ℕ → TransferRecord F → Change F
  resize total_size r =
      changed
        (record r {
          total_size = total_size;
          percentage =
              if ltb 0 total_size
              then mul (div (of_nat r.transferred) (of_nat total_size)) (of_nat 100)
              else of_nat 0;
        })
        []

  -- cleanupRoutine: whether a record stays at time `now`.
  unfoldable pub stays : ℕ → ℕ → TransferRecord F → Bool
  stays retention now r = not (is_terminal r.status && ltb retention (now - r.last_update_time))
