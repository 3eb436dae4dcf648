-- ===== src/Tracker/Speed.antt =====
-- progress_tracker.go: the speed that the tracker measures.
use Prim.Native.String.{String}
use pointsub.Base.{
  ◌≡◌, refl, subst, ℕ, suc, ◌<◌, ◌-◌, true, false, Bool, some, List, [], ◌∷◌, ◌++◌, if◌then◌else◌,
  inl, inr, arith, ltb, Bool-cases, Option-cases, length,
}
use pointsub.Base.Dict.{lookup, lookup-insert_cases, lookup-empty}
use pointsub.Tracker.{
  Floats, TransferRecord, Tracker, Change, refused, changed, on_status_change, on_error,
  transfer_already_active, invalid_status_transition, cannot_pause, cannot_resume,
  cannot_mark_failed, Status, initializing, paused, resuming, failed, cancelled, is_terminal,
  is_valid_transition,
}
use pointsub.Tracker.Records.{
  new_record, restart, move_to, stop, pause, resume, fail_with, progress, resize, set_status,
  advance, complete, is_complete, mark_notified, sample_speed, count_bytes, not_transferring,
  is_done, can_pause, can_resume, is_settled, tail, add_sample, sum, calculate_speed,
}
use pointsub.Tracker.Operations.{
  apply, Operation, start_tracking_op, update_progress_op, update_status_op, stop_tracking_op,
  pause_tracking_op, resume_tracking_op, mark_failed_op, update_total_size_op, target, perform,
  get_speed,
}
use pointsub.Tracker.Steps.{touch, create, perform-touch, perform-create}

module _ (F : Floats) where
  open F use {Float, of_nat, of_sub, seconds, add, div}

  -- The operations one after the other.
  unfoldable pub run : List Operation → Tracker F → Tracker F
  run [] t = t
  run (op ∷ ops) t = run ops (perform F op t).1

  pub Zeros : List Float → Type 0
  Zeros [] = Unit {0}
  Zeros (x ∷ xs) = (x ≡ of_nat 0) × Zeros xs

  -- A record with no speed in it.
  pub record IsStill (r : TransferRecord F) : Type 0 where
    pub no_speed : r.current_speed ≡ of_nat 0
    pub no_samples : Zeros r.speed_samples

  pub StillChange : Change F → Type 0
  StillChange (refused e) = Unit {0}
  StillChange (changed r ns) = IsStill r

  pub AllStill : Tracker F → Type 0
  AllStill t = (id : String) (r : TransferRecord F) → lookup id t.transfers ≡ some r → IsStill r

  Zeros-append : (xs : List Float) (x : Float) → Zeros xs → x ≡ of_nat 0 → Zeros (xs ++ x ∷ [])
  unfolding Zeros
  Zeros-append [] x _ e = (e, tt)
  Zeros-append (y ∷ ys) x (f, zs) e = (f, Zeros-append ys x zs e)

  Zeros-tail : (xs : List Float) → Zeros xs → Zeros (tail xs)
  unfolding Zeros tail
  Zeros-tail [] zs = tt
  Zeros-tail (x ∷ xs) (_, zs) = zs

  Zeros-add_sample :
      (xs : List Float) (x : Float) → Zeros xs → x ≡ of_nat 0 → Zeros (add_sample F xs x)
  unfolding add_sample
  Zeros-add_sample xs x zs e = elim (Bool-cases (ltb 10 (length (xs ++ x ∷ [])))) [
    | inl b ↦ rw (b, if◌then◌else◌) (Zeros-tail _ (Zeros-append xs x zs e))
    | inr b ↦ rw (b, if◌then◌else◌) (Zeros-append xs x zs e)
  ]

  -- The arithmetic of float64: a difference of equals is 0, 0 divided by a positive number is 0,
  -- and 0 + 0 is 0.
  module _ (of_sub_same : (a : ℕ) → of_sub a a ≡ of_nat 0)
      (zero_seconds : (d : ℕ) → 0 < d → div (of_nat 0) (seconds d) ≡ of_nat 0)
      (zero_count : (n : ℕ) → 0 < n → div (of_nat 0) (of_nat n) ≡ of_nat 0)
      (zero_sum : add (of_nat 0) (of_nat 0) ≡ of_nat 0) where
    sum-Zeros : (xs : List Float) → Zeros xs → sum F xs (of_nat 0) ≡ of_nat 0
    unfolding Zeros sum
    sum-Zeros [] _ = refl
    sum-Zeros (x ∷ xs) (e, zs) = rw (e, zero_sum) (sum-Zeros xs zs)

    calculate_speed-Zeros : (xs : List Float) → Zeros xs → calculate_speed F xs ≡ of_nat 0
    unfolding calculate_speed
    calculate_speed-Zeros [] _ = refl
    calculate_speed-Zeros (x ∷ xs) zs =
        rw (sum-Zeros (x ∷ xs) zs, calculate_speed) (zero_count (suc (length xs)) (omega arith))

    sample-zero :
        (bytes elapsed : ℕ)
        → ltb 200000000 elapsed ≡ true
        → div (of_sub bytes bytes) (seconds elapsed) ≡ of_nat 0
    sample-zero bytes elapsed long = rw (of_sub_same bytes) (zero_seconds elapsed (ground arith))

    sample_speed-IsStill :
        (bytes now : ℕ) (r : TransferRecord F)
        → r.transferred ≡ bytes
        → IsStill r
        → IsStill (sample_speed F bytes now r)
    unfolding sample_speed
    sample_speed-IsStill bytes now r same still =
        elim (Bool-cases (ltb 200000000 (now - r.last_update_time))) [
          | inl e ↦
              rw (e, if◌then◌else◌)
                record { no_speed = calculate_speed-Zeros _ (samples e); no_samples = samples e }
          | inr e ↦ rw (e, if◌then◌else◌) still
        ]
      where
        samples :
            ltb 200000000 (now - r.last_update_time) ≡ true
            → Zeros (
                add_sample F r.speed_samples
                  (div (of_sub bytes r.transferred) (seconds (now - r.last_update_time))))
        samples e =
            Zeros-add_sample _ _ still.no_samples
              (rw same (sample-zero bytes (now - r.last_update_time) e))

    complete-IsStill : (bytes : ℕ) (r : TransferRecord F) → IsStill r → IsStill (complete F bytes r)
    unfolding complete
    complete-IsStill bytes r still = elim (Bool-cases (is_complete F bytes r)) [
      | inl e ↦
          rw (e, if◌then◌else◌) record { no_speed = still.no_speed; no_samples = still.no_samples }
      | inr e ↦ rw (e, if◌then◌else◌) still
    ]

    new_record-IsStill : (size start now : ℕ) → IsStill (new_record F size start now)
    unfolding new_record Zeros
    new_record-IsStill size start now = record { no_speed = refl; no_samples = tt }

    set_status-IsStill :
        (s : Status) (now : ℕ) (r : TransferRecord F) → IsStill r → IsStill (set_status F s now r)
    unfolding set_status
    set_status-IsStill s now r still = record {
      no_speed = still.no_speed;
      no_samples = still.no_samples;
    }

    if-StillChange :
        (b : Bool) (c d : Change F)
        → StillChange c
        → StillChange d
        → StillChange (if b then c else d)
    if-StillChange true c d still _ = still
    if-StillChange false c d _ still = still

    progress-StillChange :
        (id : String) (bytes now later : ℕ) (r : TransferRecord F)
        → IsStill r
        → StillChange (progress F id bytes now later r)
    unfolding StillChange progress advance mark_notified count_bytes
    progress-StillChange id bytes now later r still =
        elim (Option-cases (not_transferring r.status)) [
          | inl e ↦
              rw (e, StillChange)
                (complete-IsStill bytes _
                  record { no_speed = after.no_speed; no_samples = after.no_samples })
          | inr (refusal, e) ↦ rw (e, StillChange) tt
        ]
      where
        after : IsStill (sample_speed F bytes now (count_bytes F bytes r))
        after =
            sample_speed-IsStill bytes now _ refl
              record { no_speed = still.no_speed; no_samples = still.no_samples }

    touch-StillChange :
        (op : Operation) (r : TransferRecord F) → IsStill r → StillChange (touch F op r)
    unfolding touch StillChange restart move_to stop pause resume fail_with resize set_status
    touch-StillChange (start_tracking_op id size start now) r still =
        if-StillChange (is_terminal r.status)
          (changed (new_record F size start now) (on_status_change id cancelled initializing ∷ []))
          (refused transfer_already_active) (new_record-IsStill size start now) tt
    touch-StillChange (update_progress_op id b n l) r still = progress-StillChange id b n l r still
    touch-StillChange (update_status_op id s n) r still =
        if-StillChange (is_valid_transition r.status s)
          (changed (set_status F s n r) (on_status_change id r.status s ∷ []))
          (refused invalid_status_transition) (set_status-IsStill s n r still) tt
    touch-StillChange (stop_tracking_op id n) r still =
        if-StillChange (is_done r.status) (changed r [])
          (changed (set_status F cancelled n r) (on_status_change id r.status cancelled ∷ [])) still
          (set_status-IsStill cancelled n r still)
    touch-StillChange (pause_tracking_op id n) r still =
        if-StillChange (can_pause r.status)
          (changed (set_status F paused n r) (on_status_change id r.status paused ∷ []))
          (refused cannot_pause) (set_status-IsStill paused n r still) tt
    touch-StillChange (resume_tracking_op id n) r still =
        if-StillChange (can_resume r.status)
          (changed (set_status F resuming n r) (on_status_change id r.status resuming ∷ []))
          (refused cannot_resume) (set_status-IsStill resuming n r still) tt
    touch-StillChange (mark_failed_op id e n) r still =
        let marked = set_status-IsStill failed n r still in
        if-StillChange (is_settled r.status) (refused cannot_mark_failed)
          (changed (record (set_status F failed n r) { error = e })
            (on_status_change id r.status failed ∷ on_error id e true ∷ []))
          tt record { no_speed = marked.no_speed; no_samples = marked.no_samples }
    touch-StillChange (update_total_size_op id size) r still = record {
      no_speed = still.no_speed;
      no_samples = still.no_samples;
    }

    create-StillChange : (op : Operation) → StillChange (create F op)
    unfolding create StillChange
    create-StillChange (start_tracking_op id size start now) = new_record-IsStill size start now
    create-StillChange (update_progress_op id b n l) = tt
    create-StillChange (update_status_op id s n) = tt
    create-StillChange (stop_tracking_op id n) = tt
    create-StillChange (pause_tracking_op id n) = tt
    create-StillChange (resume_tracking_op id n) = tt
    create-StillChange (mark_failed_op id e n) = tt
    create-StillChange (update_total_size_op id size) = tt

    apply-AllStill :
        (id : String) (t : Tracker F) (c : Change F)
        → StillChange c
        → AllStill t
        → AllStill (apply F id t c).1
    unfolding apply StillChange AllStill
    apply-AllStill id t (refused e) _ all = all
    apply-AllStill id t (changed r ns) still all = λ j s found.
        elim (lookup-insert_cases id j r s t.transfers found) [
          | inl e ↦ subst IsStill e still
          | inr e ↦ all j s e
        ]

    perform-AllStill : (op : Operation) (t : Tracker F) → AllStill t → AllStill (perform F op t).1
    unfolding AllStill
    perform-AllStill op t all = elim (Option-cases (lookup (target op) t.transfers)) [
      | inl e ↦
          rw (perform-create F op t e)
            (apply-AllStill (target op) t (create F op) (create-StillChange op) all)
      | inr (r, e) ↦ rw (perform-touch F op t r e) (
          apply-AllStill (target op) t (touch F op r) (touch-StillChange op r (all (target op) r e))
            all)
    ]

    run-AllStill : (ops : List Operation) (t : Tracker F) → AllStill t → AllStill (run ops t)
    unfolding run
    run-AllStill [] t all = all
    run-AllStill (op ∷ ops) t all = run-AllStill ops _ (perform-AllStill op t all)

    -- From a tracker without transfers, no sequence of operations gives a transfer a speed other
    -- than zero, whatever the progress and the times reported, since float64 has a - a = 0,
    -- 0 / x = 0 for positive x, and 0 + 0 = 0.
    pub get_speed-run :
        (ops : List Operation) (t : Tracker F) (id : String)
        → t.transfers ≡ []
        → get_speed F id (run ops t) ≡ of_nat 0
    unfolding get_speed AllStill
    get_speed-run ops t id empty = elim (Option-cases (lookup id (run ops t).transfers)) [
      | inl e ↦ rw (e, get_speed) refl
      | inr (r, e) ↦ rw (e, get_speed) (run-AllStill ops t nothing id r e).no_speed
    ]
      where
        nothing : AllStill t
        nothing j r found = let missing = lookup-empty j t.transfers empty in ground arith
