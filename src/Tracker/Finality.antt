-- ===== src/Tracker/Finality.antt =====
-- progress_tracker.go: a transfer that is completed stays completed.
use Prim.Native.String.{String}
use text.Mathlib.Text.{◌==◌ as str_eq}
use text.Mathlib.TextEquality.{eq_iff}
use pointsub.Base.{
  ◌≡◌, refl, sym, ap, ◌∙◌, subst, false, ◌&&◌, some, List, [], ◌∷◌, inl, inr, arith, if◌then◌else◌,
  Bool-cases,
}
use pointsub.Base.Dict.{lookup, lookup-insert_self}
use pointsub.Tracker.{
  Floats, TransferRecord, Tracker, Change, refused, changed, Status, completed, is_valid_transition,
}
use pointsub.Tracker.Records.{
  move_to, stop, pause, resume, fail_with, progress, resize, not_transferring,
}
use pointsub.Tracker.Operations.{
  apply, Operation, start_tracking_op, update_progress_op, update_status_op, stop_tracking_op,
  pause_tracking_op, resume_tracking_op, mark_failed_op, update_total_size_op, target, perform,
  Outcome,
}
use pointsub.Tracker.Steps.{touch, perform-touch, perform-lookup_ne}
use pointsub.Tracker.Speed.{run}
use pointsub.Tracker.Transitions.{starts}

-- No operation of the list is a StartTracking of the transfer.
unfoldable pub Spares : String → List Operation → Type 0
Spares id [] = Unit {0}
Spares id (op ∷ ops) = ((starts op && str_eq (target op) id) ≡ false) × Spares id ops

never_leaves : (s : Status) → is_valid_transition completed s ≡ false
unfolding is_valid_transition
never_leaves s = ground arith

module _ (F : Floats) where
  -- The record `r` is completed, as `old` was, with its bytes, its times and its error; only the size
  -- that was announced, and the percentage of it, may be other ones.
  pub record IsFinal (old r : TransferRecord F) : Type 0 where
    pub done : r.status ≡ completed
    pub bytes : r.transferred ≡ old.transferred
    pub started : r.start_time ≡ old.start_time
    pub last_update : r.last_update_time ≡ old.last_update_time
    pub notified : r.completion_notified ≡ old.completion_notified
    pub error : r.error ≡ old.error
    pub samples : r.speed_samples ≡ old.speed_samples
    pub speed : r.current_speed ≡ old.current_speed
    pub threshold : r.last_notified_percentage ≡ old.last_notified_percentage

  unfoldable Ends : TransferRecord F → Change F → Type 0
  Ends old (refused e) = Unit {0}
  Ends old (changed r ns) = IsFinal old r

  abbrev finished : TransferRecord F → TransferRecord F
  finished r = record r { status = completed }

  final : (r : TransferRecord F) → IsFinal r (finished r)
  final r = record {
    done = refl;
    bytes = refl;
    started = refl;
    last_update = refl;
    notified = refl;
    error = refl;
    samples = refl;
    speed = refl;
    threshold = refl;
  }

  touch-Ends :
      (op : Operation) (r : TransferRecord F) → starts op ≡ false → Ends r (touch F op (finished r))
  unfolding touch starts Ends move_to stop pause resume fail_with progress resize not_transferring
  touch-Ends (start_tracking_op id size start now) r other = absurd (ground arith)
  touch-Ends (update_progress_op id bytes now later) r other = tt
  touch-Ends (update_status_op id status now) r other = rw (never_leaves status, if◌then◌else◌) tt
  touch-Ends (stop_tracking_op id now) r other = final r
  touch-Ends (pause_tracking_op id now) r other = tt
  touch-Ends (resume_tracking_op id now) r other = tt
  touch-Ends (mark_failed_op id e now) r other = tt
  touch-Ends (update_total_size_op id size) r other = record {
    done = refl;
    bytes = refl;
    started = refl;
    last_update = refl;
    notified = refl;
    error = refl;
    samples = refl;
    speed = refl;
    threshold = refl;
  }

  apply-Final :
      (id : String) (t : Tracker F) (old r : TransferRecord F) (c : Change F)
      → lookup id t.transfers ≡ some r
      → IsFinal old r
      → Ends old c
      → (r' : TransferRecord F) × (lookup id (apply F id t c).1.transfers ≡ some r')
        × IsFinal old r'
  unfolding apply Ends
  apply-Final id t old r (refused e) found was ends = (r, found, was)
  apply-Final id t old r (changed r' ns) found was ends =
      (r', lookup-insert_self id r' t.transfers, ends)

  from_old : (old r : TransferRecord F) (c : Change F) → IsFinal old r → Ends r c → Ends old c
  unfolding Ends
  from_old old r (refused e) was ends = tt
  from_old old r (changed r' ns) was ends = record {
    done = ends.done;
    bytes = ends.bytes ∙ was.bytes;
    started = ends.started ∙ was.started;
    last_update = ends.last_update ∙ was.last_update;
    notified = ends.notified ∙ was.notified;
    error = ends.error ∙ was.error;
    samples = ends.samples ∙ was.samples;
    speed = ends.speed ∙ was.speed;
    threshold = ends.threshold ∙ was.threshold;
  }

  same_finished : (old r : TransferRecord F) → IsFinal old r → finished r ≡ r
  same_finished old r was = (λ i. record r { status = sym was.done i })

  perform-Final :
      (op : Operation) (t : Tracker F) (id : String) (old r : TransferRecord F)
      → lookup id t.transfers ≡ some r
      → IsFinal old r
      → (starts op && str_eq (target op) id) ≡ false
      → (r' : TransferRecord F) × (lookup id (perform F op t).1.transfers ≡ some r')
        × IsFinal old r'
  perform-Final op t id old r found was spared = elim (Bool-cases (str_eq (target op) id)) [
    | inr other ↦ (r, perform-lookup_ne F op t id other ∙ found, was)
    | inl here ↦
        let same : target op ≡ id = (eq_iff (target op) id).0 here in
        let other : starts op ≡ false = ground arith in
        let there : lookup (target op) t.transfers ≡ some r =
          ap (λ k. lookup k t.transfers) same ∙ found in
        let ends : Ends old (touch F op r) =
          from_old old r (touch F op r) was (
            subst (λ s. Ends r (touch F op s)) (same_finished old r was) (touch-Ends op r other)) in
        subst
          (λ k.
            (r' : TransferRecord F) × (lookup k (perform F op t).1.transfers ≡ some r')
            × IsFinal old r')
          same
          (subst
            (λ (o : Outcome F).
              (r' : TransferRecord F) × (lookup (target op) o.1.transfers ≡ some r')
              × IsFinal old r')
            (sym (perform-touch F op t r there))
            (apply-Final (target op) t old r (touch F op r) there was ends))
  ]

  run-Final_from :
      (ops : List Operation) (t : Tracker F) (id : String) (old r : TransferRecord F)
      → lookup id t.transfers ≡ some r
      → IsFinal old r
      → Spares id ops
      → (r' : TransferRecord F) × (lookup id (run F ops t).transfers ≡ some r') × IsFinal old r'
  unfolding run Spares
  run-Final_from [] t id old r found was spares = (r, found, was)
  run-Final_from (op ∷ ops) t id old r found was (spared, spares) =
      let (r', found', was') = perform-Final op t id old r found was spared in
      run-Final_from ops (perform F op t).1 id old r' found' was' spares

  -- A completed transfer stays completed, with the bytes, the times and the error that it has, through
  -- every sequence of calls of the eight methods that change transfers, on whatever transfers and
  -- with whatever outcome, but for StartTracking of this one: only its size, and the percentage, can
  -- change. The cleanup is not among the eight.
  pub run-IsFinal :
      (ops : List Operation) (t : Tracker F) (id : String) (r : TransferRecord F)
      → lookup id t.transfers ≡ some r
      → r.status ≡ completed
      → Spares id ops
      → (r' : TransferRecord F) × (lookup id (run F ops t).transfers ≡ some r') × IsFinal r r'
  run-IsFinal ops t id r found over = run-Final_from ops t id r r found (record {
    done = over;
    bytes = refl;
    started = refl;
    last_update = refl;
    notified = refl;
    error = refl;
    samples = refl;
    speed = refl;
    threshold = refl;
  })
