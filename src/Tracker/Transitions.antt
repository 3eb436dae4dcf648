-- ===== src/Tracker/Transitions.antt =====
-- progress_tracker.go: the statuses of a transfer and the OnStatusChange calls that report them.
use Prim.Native.String.{String}
use pointsub.Base.{
  ◌≡◌, refl, ℕ, true, false, Bool, Option, none, some, List, [], ◌∷◌, ◌++◌, if◌then◌else◌, inl, inr,
  arith, Bool-cases,
}
use pointsub.Base.Dict.{lookup, lookup-insert_self}
use pointsub.Errors.{GoError}
use pointsub.Tracker.{
  Status, initializing, transferring, paused, resuming, completed, failed, cancelled, Floats,
  TransferRecord, Tracker, Notice, on_progress, on_status_change, on_speed_update, on_error,
  on_complete, Change, refused, changed, is_valid_transition,
}
use pointsub.Tracker.Records.{
  move_to, stop, pause, resume, fail_with, progress, resize, set_status, advance, begin_status,
  progress_notices, complete_notices, complete, is_complete, mark_notified, sample_speed,
  count_bytes, not_transferring, is_due,
}
use pointsub.Tracker.Operations.{
  notify, apply, Operation, start_tracking_op, update_progress_op, update_status_op,
  stop_tracking_op, pause_tracking_op, resume_tracking_op, mark_failed_op, update_total_size_op,
  target, perform,
}
use pointsub.Tracker.Steps.{touch, perform-touch}

-- The status changes among the calls lead from the first status to the second, each from where
-- the one before it led, by a valid transition or to the same status.
pub data Chain {F : Floats} (id : String) : List (Notice F) → Status → Status → Type 0 where
  ends : {s : Status} → Chain id [] s s
  moves :
      {ns : List (Notice F)} {s m u : Status}
      → is_valid_transition s m ≡ true
      → Chain id ns m u
      → Chain id (on_status_change id s m ∷ ns) s u
  repeats :
      {ns : List (Notice F)} {s u : Status}
      → Chain id ns s u
      → Chain id (on_status_change id s s ∷ ns) s u
  progresses :
      {ns : List (Notice F)} {s u : Status} (total done : ℕ) (p : F.Float)
      → Chain id ns s u
      → Chain id (on_progress id total done p ∷ ns) s u
  speeds :
      {ns : List (Notice F)} {s u : Status} (speed : F.Float) (left : ℕ)
      → Chain id ns s u
      → Chain id (on_speed_update id speed left ∷ ns) s u
  fails :
      {ns : List (Notice F)} {s u : Status} (e : Option GoError)
      → Chain id ns s u
      → Chain id (on_error id e true ∷ ns) s u
  completes :
      {ns : List (Notice F)} {s u : Status} (total time : ℕ)
      → Chain id ns s u
      → Chain id (on_complete id total time ∷ ns) s u

Chain-append :
    {F : Floats} {id : String} (ns ms : List (Notice F)) {s m u : Status}
    → Chain id ns s m
    → Chain id ms m u
    → Chain id (ns ++ ms) s u
Chain-append [] ms ends d = d
Chain-append (_ ∷ ns) ms (moves v c) d = moves v (Chain-append ns ms c d)
Chain-append (_ ∷ ns) ms (repeats c) d = repeats (Chain-append ns ms c d)
Chain-append (_ ∷ ns) ms (progresses t n p c) d = progresses t n p (Chain-append ns ms c d)
Chain-append (_ ∷ ns) ms (speeds v l c) d = speeds v l (Chain-append ns ms c d)
Chain-append (_ ∷ ns) ms (fails e c) d = fails e (Chain-append ns ms c d)
Chain-append (_ ∷ ns) ms (completes t l c) d = completes t l (Chain-append ns ms c d)

-- What a change of a record in a status may be.
pub Follows : {F : Floats} → String → Status → Change F → Type 0
Follows id s (refused e) = Unit {0}
Follows id s (changed r ns) = Chain id ns s r.status

module _ (F : Floats) (id : String) where
  move_to-Follows :
      (status : Status) (now : ℕ) (r : TransferRecord F)
      → Follows id r.status (move_to F id status now r)
  unfolding Follows move_to set_status
  move_to-Follows status now r = elim (Bool-cases (is_valid_transition r.status status)) [
    | inl e ↦ rw (e, if◌then◌else◌) (moves e ends)
    | inr e ↦ rw (e, if◌then◌else◌) tt
  ]

  -- A record with each status in turn.
  stop-Follows :
      (now : ℕ) (r : TransferRecord F) (s : Status)
      → Follows id s (stop F id now (record r { status = s }))
  unfolding Follows stop set_status is_valid_transition
  stop-Follows now r initializing = moves refl ends
  stop-Follows now r transferring = moves refl ends
  stop-Follows now r paused = moves refl ends
  stop-Follows now r resuming = moves refl ends
  stop-Follows now r completed = ends
  stop-Follows now r failed = ends
  stop-Follows now r cancelled = repeats ends

  pause-Follows :
      (now : ℕ) (r : TransferRecord F) (s : Status)
      → Follows id s (pause F id now (record r { status = s }))
  unfolding Follows pause set_status is_valid_transition
  pause-Follows now r initializing = moves refl ends
  pause-Follows now r transferring = moves refl ends
  pause-Follows now r paused = tt
  pause-Follows now r resuming = tt
  pause-Follows now r completed = tt
  pause-Follows now r failed = tt
  pause-Follows now r cancelled = tt

  resume-Follows :
      (now : ℕ) (r : TransferRecord F) (s : Status)
      → Follows id s (resume F id now (record r { status = s }))
  unfolding Follows resume set_status is_valid_transition
  resume-Follows now r initializing = tt
  resume-Follows now r transferring = tt
  resume-Follows now r paused = moves refl ends
  resume-Follows now r resuming = tt
  resume-Follows now r completed = tt
  resume-Follows now r failed = tt
  resume-Follows now r cancelled = tt

  fail_with-Follows :
      (e : Option GoError) (now : ℕ) (r : TransferRecord F) (s : Status)
      → Follows id s (fail_with F id e now (record r { status = s }))
  unfolding Follows fail_with set_status is_valid_transition
  fail_with-Follows e now r initializing = moves refl (fails e ends)
  fail_with-Follows e now r transferring = moves refl (fails e ends)
  fail_with-Follows e now r paused = moves refl (fails e ends)
  fail_with-Follows e now r resuming = moves refl (fails e ends)
  fail_with-Follows e now r completed = tt
  fail_with-Follows e now r failed = repeats (fails e ends)
  fail_with-Follows e now r cancelled = tt

  progress_notices-Chain :
      (r : TransferRecord F) (s : Status) → Chain id (progress_notices F id r) s s
  unfolding progress_notices
  progress_notices-Chain r s = elim (Bool-cases (is_due F r)) [
    | inl e ↦ rw (e, if◌then◌else◌) (progresses _ _ _ (speeds _ _ ends))
    | inr e ↦ rw (e, if◌then◌else◌) ends
  ]

  complete_notices-Chain :
      (bytes later : ℕ) (r : TransferRecord F)
      → r.status ≡ transferring
      → Chain id (complete_notices F id bytes later r) transferring (complete F bytes r).status
  unfolding complete_notices complete is_valid_transition
  complete_notices-Chain bytes later r e = elim (Bool-cases (is_complete F bytes r)) [
    | inl b ↦ rw (b, if◌then◌else◌) (rw e (moves refl (completes _ _ ends)))
    | inr b ↦ rw (b, if◌then◌else◌) (rw e ends)
  ]

  sample_speed-status :
      (bytes now : ℕ) (r : TransferRecord F) → (sample_speed F bytes now r).status ≡ r.status
  unfolding sample_speed
  sample_speed-status bytes now r = ground arith

  advance-Follows :
      (bytes now later : ℕ) (r : TransferRecord F)
      → (begins : Chain id (begin_status F id r.status) r.status transferring)
      → Follows id r.status (advance F id bytes now later r)
  unfolding Follows advance count_bytes mark_notified
  advance-Follows bytes now later r begins = Chain-append _ _ begins (
      Chain-append _ _ (progress_notices-Chain _ _)
        (complete_notices-Chain bytes later _ (sample_speed-status bytes now _)))

  progress-Follows :
      (bytes now later : ℕ) (r : TransferRecord F) (s : Status)
      → Follows id s (progress F id bytes now later (record r { status = s }))
  unfolding progress not_transferring begin_status is_valid_transition Follows
  progress-Follows bytes now later r initializing = advance-Follows _ _ _ _ (moves refl ends)
  progress-Follows bytes now later r transferring = advance-Follows _ _ _ _ ends
  progress-Follows bytes now later r paused = tt
  progress-Follows bytes now later r resuming = advance-Follows _ _ _ _ (moves refl ends)
  progress-Follows bytes now later r completed = tt
  progress-Follows bytes now later r failed = tt
  progress-Follows bytes now later r cancelled = tt

  resize-Follows : (size : ℕ) (r : TransferRecord F) → Follows id r.status (resize F size r)
  unfolding Follows resize
  resize-Follows size r = ends

unfoldable pub starts : Operation → Bool
starts (start_tracking_op _ _ _ _) = true
starts _ = false

touch-Follows :
    (F : Floats) (op : Operation) (r : TransferRecord F)
    → starts op ≡ false
    → Follows (target op) r.status (touch F op r)
unfolding touch starts target
touch-Follows F (start_tracking_op _ _ _ _) r other = ground arith
touch-Follows F (update_progress_op id b n l) r other = progress-Follows F id b n l r r.status
touch-Follows F (update_status_op id s n) r other = move_to-Follows F id s n r
touch-Follows F (stop_tracking_op id n) r other = stop-Follows F id n r r.status
touch-Follows F (pause_tracking_op id n) r other = pause-Follows F id n r r.status
touch-Follows F (resume_tracking_op id n) r other = resume-Follows F id n r r.status
touch-Follows F (mark_failed_op id e n) r other = fail_with-Follows F id e n r r.status
touch-Follows F (update_total_size_op id size) r other = resize-Follows F id size r

apply-Chain :
    (F : Floats) (id : String) (t : Tracker F) (s : Status) (c : Change F)
    → Follows id s c
    → (apply F id t c).0 ≡ none
    → (r' : TransferRecord F) × (ns : List (Notice F)) × (lookup id (apply F id t c).1.transfers
        ≡ some r')
      × ((apply F id t c).2 ≡ notify F t.callbacks ns)
      × Chain id ns s r'.status
unfolding apply Follows
apply-Chain F id t s (refused e) _ accepted = ground arith
apply-Chain F id t s (changed r ns) chain accepted =
    (r, ns, lookup-insert_self id r t.transfers, refl, chain)

-- When an operation other than StartTracking succeeds on a transfer, the calls it makes are the
-- same for every callback, and their status changes, each a valid transition or a repetition of
-- the status, lead one after the other from the status the transfer had to the one it has then.
pub perform-Chain :
    (F : Floats) (op : Operation) (t : Tracker F) (r : TransferRecord F)
    → lookup (target op) t.transfers ≡ some r
    → starts op ≡ false
    → (perform F op t).0 ≡ none
    → (r' : TransferRecord F) × (ns : List (Notice F)) × (lookup
          (target op)
          (perform F op t).1.transfers
        ≡ some r')
      × ((perform F op t).2 ≡ notify F t.callbacks ns)
      × Chain (target op) ns r.status r'.status
perform-Chain F op t r found other =
    rw (perform-touch F op t r found)
      (apply-Chain F (target op) t r.status (touch F op r) (touch-Follows F op r other))
