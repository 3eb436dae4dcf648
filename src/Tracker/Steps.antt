-- ===== src/Tracker/Steps.antt =====
-- progress_tracker.go: the operations on the map, reduced to what each does to the record of its
-- transfer.
use Prim.Native.String.{String}
use text.Mathlib.Text.{◌==◌ as str_eq}
use pointsub.Base.{◌≡◌, refl, false, none, some, [], ◌∷◌, inl, inr, Option-cases}
use pointsub.Base.Dict.{lookup, insert, lookup-insert_ne}
use pointsub.Tracker.{
  Refusal, transfer_not_found, record_not_found, initializing, Floats, TransferRecord, Tracker,
  on_status_change, Change, refused, changed,
}
use pointsub.Tracker.Records.{
  new_record, restart, move_to, stop, pause, resume, fail_with, progress, resize,
}
use pointsub.Tracker.Operations.{
  notify, apply, on_record, Operation, start_tracking_op, update_progress_op, update_status_op,
  stop_tracking_op, pause_tracking_op, resume_tracking_op, mark_failed_op, update_total_size_op,
  target, perform, start_tracking, update_progress, update_status, stop_tracking, pause_tracking,
  resume_tracking, mark_failed, update_total_size,
}

-- What an operation does to the record of a transfer that the map has.
unfoldable pub touch : (F : Floats) → Operation → TransferRecord F → Change F
touch F (start_tracking_op id size start now) r = restart F id size start now r
touch F (update_progress_op id bytes now later) r = progress F id bytes now later r
touch F (update_status_op id status now) r = move_to F id status now r
touch F (stop_tracking_op id now) r = stop F id now r
touch F (pause_tracking_op id now) r = pause F id now r
touch F (resume_tracking_op id now) r = resume F id now r
touch F (mark_failed_op id e now) r = fail_with F id e now r
touch F (update_total_size_op id size) r = resize F size r

-- What an operation does where the map has no record.
unfoldable pub create : (F : Floats) → Operation → Change F
create F (start_tracking_op id size start now) =
    changed (new_record F size start now) (on_status_change id initializing initializing ∷ [])
create F (update_total_size_op id size) = refused record_not_found
create F _ = refused transfer_not_found

on_record-some :
    (F : Floats) (id : String) (e : Refusal) (f : TransferRecord F → Change F) (t : Tracker F)
    → (r : TransferRecord F) → lookup id t.transfers ≡ some r
    → on_record F id e f t ≡ apply F id t (f r)
unfolding on_record apply
on_record-some F id e f t r found = rw (found, on_record) refl

on_record-none :
    (F : Floats) (id : String) (e : Refusal) (f : TransferRecord F → Change F) (t : Tracker F)
    → lookup id t.transfers ≡ none
    → on_record F id e f t ≡ (some e, t, [])
unfolding on_record
on_record-none F id e f t missing = rw (missing, on_record) refl

-- On a transfer that the map has, an operation is its change of that record.
pub perform-touch :
    (F : Floats) (op : Operation) (t : Tracker F) (r : TransferRecord F)
    → lookup (target op) t.transfers ≡ some r
    → perform F op t ≡ apply F (target op) t (touch F op r)
unfolding perform target touch update_progress update_status stop_tracking pause_tracking
    resume_tracking mark_failed update_total_size start_tracking apply
perform-touch F (start_tracking_op id size start now) t r e = rw (e, start_tracking) refl
perform-touch F (update_progress_op id bytes now later) t r e = on_record-some F id _ _ t r e
perform-touch F (update_status_op id status now) t r e = on_record-some F id _ _ t r e
perform-touch F (stop_tracking_op id now) t r e = on_record-some F id _ _ t r e
perform-touch F (pause_tracking_op id now) t r e = on_record-some F id _ _ t r e
perform-touch F (resume_tracking_op id now) t r e = on_record-some F id _ _ t r e
perform-touch F (mark_failed_op id err now) t r e = on_record-some F id _ _ t r e
perform-touch F (update_total_size_op id size) t r e = on_record-some F id _ _ t r e

pub perform-create :
    (F : Floats) (op : Operation) (t : Tracker F)
    → lookup (target op) t.transfers ≡ none
    → perform F op t ≡ apply F (target op) t (create F op)
unfolding perform target create apply update_progress update_status stop_tracking pause_tracking
    resume_tracking mark_failed update_total_size start_tracking insert notify
perform-create F (start_tracking_op id size start now) t e = rw (e, start_tracking) refl
perform-create F (update_progress_op id bytes now later) t e = on_record-none F id _ _ t e
perform-create F (update_status_op id status now) t e = on_record-none F id _ _ t e
perform-create F (stop_tracking_op id now) t e = on_record-none F id _ _ t e
perform-create F (pause_tracking_op id now) t e = on_record-none F id _ _ t e
perform-create F (resume_tracking_op id now) t e = on_record-none F id _ _ t e
perform-create F (mark_failed_op id err now) t e = on_record-none F id _ _ t e
perform-create F (update_total_size_op id size) t e = on_record-none F id _ _ t e

-- Every operation is the application of one change to its transfer.
pub perform-apply :
    (F : Floats) (op : Operation) (t : Tracker F)
    → (c : Change F) × (perform F op t ≡ apply F (target op) t c)
perform-apply F op t = elim (Option-cases (lookup (target op) t.transfers)) [
  | inl e ↦ (create F op, perform-create F op t e)
  | inr (r, e) ↦ (touch F op r, perform-touch F op t r e)
]

apply-lookup_ne :
    (F : Floats) (k : String) (t : Tracker F) (c : Change F) (id : String)
    → str_eq k id ≡ false
    → lookup id (apply F k t c).1.transfers ≡ lookup id t.transfers
unfolding apply
apply-lookup_ne F k t (refused e) id ne = refl
apply-lookup_ne F k t (changed r ns) id ne = lookup-insert_ne k id r t.transfers ne

-- An operation on one transfer leaves every transfer with another ID as it was.
pub perform-lookup_ne :
    (F : Floats) (op : Operation) (t : Tracker F) (id : String)
    → str_eq (target op) id ≡ false
    → lookup id (perform F op t).1.transfers ≡ lookup id t.transfers
perform-lookup_ne F op t id ne =
    let (c, e) = perform-apply F op t in rw e (apply-lookup_ne F (target op) t c id ne)
