-- ===== src/Tracker/Completion.antt =====
-- progress_tracker.go: what UpdateProgress makes of a transfer and what the queries then tell.
use Prim.Native.String.{String}
use pointsub.Base.{
  ◌≡◌, refl, ℕ, ◌≤◌, ◌<◌, ◌-◌, true, none, some, List, [], ◌∷◌, ◌++◌, arith, append_assoc, map, ◌∙◌,
  sym, ap,
}
use pointsub.Base.Dict.{lookup, lookup-insert_self}
use pointsub.Tracker.{
  Floats, TransferRecord, Tracker, Notice, transferring, completed, transfer_completed,
  on_status_change, on_complete,
}
use pointsub.Tracker.Records.{
  progress, advance, complete, complete_notices, is_complete, mark_notified, sample_speed,
  count_bytes, not_transferring, begin_status, progress_notices,
}
use pointsub.Tracker.Operations.{
  apply, notify, update_progress, get_status, get_progress, update_progress_op, perform, target,
}
use pointsub.Tracker.Steps.{perform-touch, touch}

module _ (F : Floats) where
  open F use {of_nat}

  notify-append :
      (cs : List ℕ) (ns ms : List (Notice F))
      → notify F cs (ns ++ ms) ≡ notify F cs ns ++ notify F cs ms
  unfolding notify
  notify-append cs [] ms = refl
  notify-append cs (n ∷ ns) ms =
      rw (notify-append cs ns ms) (sym (append_assoc (map (λ c. (c, n)) cs) _ _))

  update_progress-apply :
      (id : String) (bytes now later : ℕ) (t : Tracker F) (r : TransferRecord F)
      → lookup id t.transfers ≡ some r
      → update_progress F id bytes now later t ≡ apply F id t (progress F id bytes now later r)
  unfolding perform touch target
  update_progress-apply id bytes now later t r found =
      perform-touch F (update_progress_op id bytes now later) t r found

  -- The record after the bytes are counted and the callbacks are told.
  abbrev notified : ℕ → ℕ → TransferRecord F → TransferRecord F
  notified bytes now r = mark_notified F (sample_speed F bytes now (count_bytes F bytes r))

  notified-fields :
      (bytes now : ℕ) (r : TransferRecord F)
      → ((notified bytes now r).total_size ≡ r.total_size)
        × ((notified bytes now r).transferred ≡ bytes)
        × ((notified bytes now r).status ≡ transferring)
        × ((notified bytes now r).start_time ≡ r.start_time)
  unfolding mark_notified sample_speed count_bytes
  notified-fields bytes now r = ground arith

  is_complete-true :
      (bytes : ℕ) (r : TransferRecord F)
      → 0 < r.total_size
      → r.total_size ≤ bytes
      → is_complete F bytes r ≡ true
  unfolding is_complete
  is_complete-true bytes r sized enough = ground arith

  -- Completion of a record that its bytes complete.
  complete-fields :
      (id : String) (bytes later : ℕ) (r : TransferRecord F)
      → is_complete F bytes r ≡ true
      → ((complete F bytes r).status ≡ completed)
        × ((complete F bytes r).percentage ≡ of_nat 100)
        × ((complete F bytes r).transferred ≡ r.transferred)
        × ((complete F bytes r).total_size ≡ r.total_size)
        × (complete_notices F id bytes later r
            ≡ on_status_change id r.status completed
              ∷ on_complete id r.total_size (later - r.start_time)
              ∷ [])
  unfolding complete complete_notices
  complete-fields id bytes later r e = (rw e refl, rw e refl, rw e refl, rw e refl, rw e refl)

  update_progress-active :
      (id : String) (bytes now later : ℕ) (t : Tracker F) (r : TransferRecord F)
      → lookup id t.transfers ≡ some r
      → not_transferring r.status ≡ none
      → update_progress F id bytes now later t ≡ apply F id t (advance F id bytes now later r)
  unfolding progress apply
  update_progress-active id bytes now later t r found active =
      update_progress-apply id bytes now later t r found ∙ rw (active, progress) refl

  get_status-found :
      (id : String) (t : Tracker F) (r : TransferRecord F)
      → lookup id t.transfers ≡ some r
      → get_status F id t ≡ r.status
  unfolding get_status
  get_status-found id t r found = rw (found, get_status) refl

  get_progress-found :
      (id : String) (t : Tracker F) (r : TransferRecord F)
      → lookup id t.transfers ≡ some r
      → get_progress F id t ≡ (r.transferred, r.total_size, r.percentage)
  unfolding get_progress
  get_progress-found id t r found = rw (found, get_progress) refl

  update_progress-completed :
      (id : String) (bytes now later : ℕ) (t : Tracker F) (r : TransferRecord F)
      → lookup id t.transfers ≡ some r
      → r.status ≡ completed
      → update_progress F id bytes now later t ≡ (some transfer_completed, t, [])
  unfolding progress apply not_transferring
  update_progress-completed id bytes now later t r found e =
      update_progress-apply id bytes now later t r found ∙ rw e refl

  -- When the bytes reported for a transfer in progress of a positive size reach this size,
  -- UpdateProgress completes it: the queries tell StatusCompleted, those bytes, the size and 100%; the last calls of
  -- the callbacks are the change to StatusCompleted and OnComplete, with the size and the time
  -- since the start; and any further report is refused with ErrTransferCompleted.
  pub update_progress_completes :
      (id : String) (bytes now later : ℕ) (t : Tracker F) (r : TransferRecord F)
      → lookup id t.transfers ≡ some r
      → not_transferring r.status ≡ none
      → 0 < r.total_size
      → r.total_size ≤ bytes
      → let (e, t', calls) = update_progress F id bytes now later t in
        (e ≡ none)
        × (get_status F id t' ≡ completed)
        × (get_progress F id t' ≡ (bytes, r.total_size, of_nat 100))
        × ((ns : List (Notice F)) × (calls
              ≡ notify F t.callbacks ns
                ++ notify F t.callbacks (
                    on_status_change id transferring completed
                    ∷ on_complete id r.total_size (later - r.start_time)
                    ∷ [])))
        × ((more now' later' : ℕ)
            → update_progress F id more now' later' t' ≡ (some transfer_completed, t', []))
  unfolding apply advance
  update_progress_completes id bytes now later t r found active sized enough =
      let (total, count, status, start) = notified-fields bytes now r in
      let (is_completed, all, same_count, same_total, calls) =
        complete-fields id bytes later (notified bytes now r)
          (is_complete-true bytes _ (rw total sized) (rw total enough)) in
      let here = lookup-insert_self id (complete F bytes (notified bytes now r)) t.transfers in
      rw (update_progress-active id bytes now later t r found active) (
        refl,
        get_status-found id _ _ here ∙ is_completed,
        get_progress-found id _ _ here ∙ rw (same_count, same_total, all, count, total) refl,
        (
          begin_status F id r.status
              ++ progress_notices F id (sample_speed F bytes now (count_bytes F bytes r)),
          ap (notify F t.callbacks) (
                sym (
                  append_assoc (begin_status F id r.status)
                    (progress_notices F id (sample_speed F bytes now (count_bytes F bytes r)))
                    (complete_notices F id bytes later (notified bytes now r)))
                ∙ rw (calls, status, total, start) refl)
              ∙ notify-append t.callbacks _ _,
        ),
        λ more now' later'. update_progress-completed id more now' later' _ _ here is_completed,
      )
