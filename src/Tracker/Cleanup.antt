-- ===== src/Tracker/Cleanup.antt =====
-- progress_tracker.go: what cleanupRoutine forgets and what GetActiveTransfers lists.
use Prim.Native.String.{String}
use text.Mathlib.Text.{◌==◌ as str_eq}
use pointsub.Base.{
  ◌≡◌, refl, ℕ, ◌-◌, true, false, Bool, ◌&&◌, ◌||◌, not, none, some, List, [], ◌∷◌, if◌then◌else◌,
  arith, ltb, ◌<◌, ◌↔◌, ◌⊎◌, ◌∙◌,
}
use pointsub.Base.Dict.{Dict, lookup, keep, Distinct, insert-Distinct, lookup-keep}
use pointsub.Tracker.{
  Floats, Tracker, Change, refused, changed, is_terminal, Status, completed, failed, cancelled,
  TransferRecord,
}
use pointsub.Tracker.Records.{stays}
use pointsub.Tracker.Operations.{
  apply, keys, Operation, perform, target, cleanup, get_active_transfers,
}
use pointsub.Tracker.Steps.{perform-apply}

-- What a round of the cleanup leaves of a transfer.
cleanup-lookup :
    (F : Floats) (now : ℕ) (t : Tracker F) (id : String)
    → Distinct t.transfers
    → lookup id (cleanup F now t).transfers ≡ elim (lookup id t.transfers) [
      | none ↦ none
      | some r ↦
          if is_terminal r.status && ltb t.history_retention (now - r.last_update_time)
          then none
          else some r
    ]
unfolding cleanup stays
cleanup-lookup F now t id distinct =
    ground (arith, lookup-keep (stays F t.history_retention now) id t.transfers distinct)

is_terminal_iff :
    (s : Status) → (is_terminal s ≡ true) ↔ ((s ≡ completed) ⊎ ((s ≡ failed) ⊎ (s ≡ cancelled)))
is_terminal_iff s = ground arith

-- With distinct IDs, a round of the cleanup at time `now` forgets a transfer exactly when its status
-- is StatusCompleted, StatusFailed or StatusCancelled and its LastUpdateTime is more than the
-- retention before `now`; a transfer that it does not forget stays as it was.
pub cleanup-forgets :
    (F : Floats) (now : ℕ) (t : Tracker F) (id : String) (r : TransferRecord F)
    → Distinct t.transfers
    → lookup id t.transfers ≡ some r
    → ((lookup id (cleanup F now t).transfers ≡ none) ↔ (
        ((r.status ≡ completed) ⊎ ((r.status ≡ failed) ⊎ (r.status ≡ cancelled)))
        × (t.history_retention < now - r.last_update_time)))
      × ((lookup id (cleanup F now t).transfers ≡ none)
          ⊎ (lookup id (cleanup F now t).transfers ≡ some r))
cleanup-forgets F now t id r distinct found =
    let after = cleanup-lookup F now t id distinct in
    let kinds = is_terminal_iff r.status in
    let left : lookup id (cleanup F now t).transfers ≡ (
        if is_terminal r.status && ltb t.history_retention (now - r.last_update_time)
        then none
        else some r) =
      after ∙ rw found refl in
    rw left (ground arith, ground arith)

-- Every operation keeps the IDs of the map distinct.
pub perform-Distinct :
    (F : Floats) (op : Operation) (t : Tracker F)
    → Distinct t.transfers
    → Distinct (perform F op t).1.transfers
unfolding apply
perform-Distinct F op t distinct = let (c, e) = perform-apply F op t in rw e (go c)
  where
    go : (c : Change F) → Distinct (apply F (target op) t c).1.transfers
    go (refused _) = distinct
    go (changed r _) = insert-Distinct (target op) r t.transfers distinct

pub has : String → List String → Bool
has k [] = false
has k (j ∷ js) = str_eq j k || has k js

has-keys :
    {V : Type 0} (k : String) (m : Dict V)
    → has k (keys m) ≡ elim (lookup k m) [ none ↦ false | some v ↦ true ]
unfolding has keys lookup
has-keys k [] = refl
has-keys k ((j, v) ∷ m) = ground (arith, has-keys k m)

-- With distinct IDs, GetActiveTransfers lists exactly the transfers that are neither completed, failed
-- nor cancelled.
pub get_active_transfers-has :
    (F : Floats) (t : Tracker F) (id : String)
    → Distinct t.transfers
    → has id (get_active_transfers F t)
      ≡ elim (lookup id t.transfers) [ none ↦ false | some r ↦ not (is_terminal r.status) ]
unfolding get_active_transfers
get_active_transfers-has F t id distinct = ground (
  arith,
  has-keys id (keep (λ r. not (is_terminal r.status)) t.transfers),
  lookup-keep (λ r. not (is_terminal r.status)) id t.transfers distinct,
)
