-- ===== src/Tracker/Operations.antt =====
-- progress_tracker.go: the operations of defaultProgressTracker on the map of its transfers. Each
-- looks the record up and changes it in place.
use Prim.Native.String.{String}
use pointsub.Base.{
  ℕ, ◌-◌, Bool, false, ◌||◌, not, Option, none, some, List, [], ◌∷◌, ◌++◌, map, ◌==◌, if◌then◌else◌,
}
use pointsub.Base.Dict.{Dict, lookup, insert, keep}
use pointsub.Errors.{GoError}
use pointsub.Tracker.{
  Status, initializing, failed, Refusal, transfer_not_found, record_not_found, Floats, is_terminal,
  TransferRecord, Tracker, Notice, on_status_change, Change, refused, changed,
}
use pointsub.Tracker.Records.{
  new_record, restart, move_to, stop, pause, resume, fail_with, progress, resize, stays,
}

unfoldable pub elem : ℕ → List ℕ → Bool
elem c [] = false
elem c (d ∷ ds) = d == c || elem c ds

unfoldable pub keys {ℓ} : {V : Type ℓ} → Dict V → List String
keys [] = []
keys ((k, v) ∷ m) = k ∷ keys m

module _ (F : Floats) where
  open F use {Float, of_nat}

  -- The error, the tracker and the calls, each with its callback.
  abbrev pub Outcome : Type 0
  Outcome = Option Refusal × Tracker F × List (ℕ × Notice F)

  -- The loops of notifyProgress, notifyStatusChange, notifySpeedUpdate, notifyError and
  -- notifyCompletion.
  unfoldable pub notify : List ℕ → List (Notice F) → List (ℕ × Notice F)
  notify callbacks [] = []
  notify callbacks (n ∷ ns) = map (λ c. (c, n)) callbacks ++ notify callbacks ns

  unfoldable pub apply : String → Tracker F → Change F → Outcome
  apply id t (refused e) = (some e, t, [])
  apply id t (changed r ns) =
      (none, record t { transfers = insert id r t.transfers }, notify t.callbacks ns)

  -- `record, exists := t.transfers[transferID]` and the change of the record there.
  unfoldable pub on_record : String → Refusal → (TransferRecord F → Change F) → Tracker F → Outcome
  on_record id missing change t = elim (lookup id t.transfers) [
    | none ↦ (some missing, t, [])
    | some r ↦ apply id t (change r)
  ]

  -- `StartTracking`.
  unfoldable pub start_tracking : String → ℕ → ℕ → ℕ → Tracker F → Outcome
  start_tracking id total_size start now t = elim (lookup id t.transfers) [
    | some r ↦ apply id t (restart F id total_size start now r)
    | none ↦ apply id t (
        changed (new_record F total_size start now)
          (on_status_change id initializing initializing ∷ []))
  ]

  -- `UpdateProgress`.
  unfoldable pub update_progress : String → ℕ → ℕ → ℕ → Tracker F → Outcome
  update_progress id bytes now later =
      on_record id transfer_not_found (progress F id bytes now later)

  -- `UpdateStatus`.
  unfoldable pub update_status : String → Status → ℕ → Tracker F → Outcome
  update_status id status now = on_record id transfer_not_found (move_to F id status now)

  -- `StopTracking`.
  unfoldable pub stop_tracking : String → ℕ → Tracker F → Outcome
  stop_tracking id now = on_record id transfer_not_found (stop F id now)

  -- `PauseTracking`.
  unfoldable pub pause_tracking : String → ℕ → Tracker F → Outcome
  pause_tracking id now = on_record id transfer_not_found (pause F id now)

  -- `ResumeTracking`.
  unfoldable pub resume_tracking : String → ℕ → Tracker F → Outcome
  resume_tracking id now = on_record id transfer_not_found (resume F id now)

  -- `MarkFailed`.
  unfoldable pub mark_failed : String → Option GoError → ℕ → Tracker F → Outcome
  mark_failed id e now = on_record id transfer_not_found (fail_with F id e now)

  -- `UpdateTotalSize`.
  unfoldable pub update_total_size : String → ℕ → Tracker F → Outcome
  update_total_size id total_size = on_record id record_not_found (resize F total_size)

  -- `AddCallback`; nil is `none`.
  unfoldable pub add_callback : Option ℕ → Tracker F → Tracker F
  add_callback none t = t
  add_callback (some c) t =
      if elem c t.callbacks then t else record t { callbacks = t.callbacks ++ c ∷ [] }

  -- One round of cleanupRoutine at time `now`.
  unfoldable pub cleanup : ℕ → Tracker F → Tracker F
  cleanup now t = record t { transfers = keep (stays F t.history_retention now) t.transfers }

  -- `GetActiveTransfers`.
  unfoldable pub get_active_transfers : Tracker F → List String
  get_active_transfers t = keys (keep (λ r. not (is_terminal r.status)) t.transfers)

  -- `GetStatus`.
  unfoldable pub get_status : String → Tracker F → Status
  get_status id t = elim (lookup id t.transfers) [ none ↦ failed | some r ↦ r.status ]

  -- `GetProgress`.
  unfoldable pub get_progress : String → Tracker F → ℕ × ℕ × Float
  get_progress id t = elim (lookup id t.transfers) [
    | none ↦ (0, 0, of_nat 0)
    | some r ↦ (r.transferred, r.total_size, r.percentage)
  ]

  -- `GetSpeed`.
  unfoldable pub get_speed : String → Tracker F → Float
  get_speed id t = elim (lookup id t.transfers) [ none ↦ of_nat 0 | some r ↦ r.current_speed ]

  -- `GetStartTime`; the zero time is `none`.
  unfoldable pub get_start_time : String → Tracker F → Option ℕ
  get_start_time id t = elim (lookup id t.transfers) [ none ↦ none | some r ↦ some r.start_time ]

  -- `GetElapsedTime`.
  unfoldable pub get_elapsed_time : String → ℕ → Tracker F → ℕ
  get_elapsed_time id now t = elim (lookup id t.transfers) [
    | none ↦ 0
    | some r ↦ now - r.start_time
  ]

-- A call of an operation that changes the tracker, with the clock's readings in it.
pub data Operation : Type 0 where
  start_tracking_op : String → ℕ → ℕ → ℕ → Operation
  update_progress_op : String → ℕ → ℕ → ℕ → Operation
  update_status_op : String → Status → ℕ → Operation
  stop_tracking_op : String → ℕ → Operation
  pause_tracking_op : String → ℕ → Operation
  resume_tracking_op : String → ℕ → Operation
  mark_failed_op : String → Option GoError → ℕ → Operation
  update_total_size_op : String → ℕ → Operation

unfoldable pub target : Operation → String
target (start_tracking_op id _ _ _) = id
target (update_progress_op id _ _ _) = id
target (update_status_op id _ _) = id
target (stop_tracking_op id _) = id
target (pause_tracking_op id _) = id
target (resume_tracking_op id _) = id
target (mark_failed_op id _ _) = id
target (update_total_size_op id _) = id

unfoldable pub perform : (F : Floats) → Operation → Tracker F → Outcome F
perform F (start_tracking_op id size start now) t = start_tracking F id size start now t
perform F (update_progress_op id bytes now later) t = update_progress F id bytes now later t
perform F (update_status_op id status now) t = update_status F id status now t
perform F (stop_tracking_op id now) t = stop_tracking F id now t
perform F (pause_tracking_op id now) t = pause_tracking F id now t
perform F (resume_tracking_op id now) t = resume_tracking F id now t
perform F (mark_failed_op id e now) t = mark_failed F id e now t
perform F (update_total_size_op id size) t = update_total_size F id size t
