-- ===== src/Tracker/Tests.antt =====
-- Runs of the tracker, and its theorems at concrete inputs, with natural numbers for float64.
use pointsub.Base.{
  ℕ, zero, suc, ◌+◌, ◌-◌, ◌*◌, ◌/◌, ◌≡◌, refl, false, none, some, List, [], ◌∷◌, ltb, leb, arith,
  ◌<◌, ◌≤◌, ◌++◌, ◌↔◌, ◌⊎◌,
}
use pointsub.Base.Dict.{lookup, Distinct}
use pointsub.Tracker.{
  Floats, TransferRecord, Tracker, Notice, transfer_completed, transferring, completed, failed,
  on_status_change, on_complete, cancelled, initializing,
}
use pointsub.Tracker.Records.{new_record, pause, not_transferring, set_status}
use pointsub.Tracker.Operations.{
  Operation, start_tracking_op, update_progress_op, pause_tracking_op, pause_tracking, on_record,
  target, perform, apply, notify, update_progress, get_status, get_progress, get_speed, cleanup,
  stop_tracking_op, update_status_op, update_total_size_op,
}
use pointsub.Tracker.Transitions.{perform-Chain, Chain, starts}
use pointsub.Tracker.Speed.{run, get_speed-run}
use pointsub.Tracker.Completion.{update_progress_completes}
use pointsub.Tracker.Cleanup.{cleanup-forgets}
use pointsub.Tracker.Finality.{IsFinal, Spares, run-IsFinal}

divide : ℕ → ℕ → ℕ
divide zero d = zero
divide (suc n) d = suc n / d

whole_numbers : Floats
whole_numbers = record {
  Float = ℕ;
  of_nat = λ n. n;
  of_sub = λ a b. a - b;
  seconds = λ d. d / 1000000000;
  add = λ a b. a + b;
  sub = λ a b. a - b;
  mul = λ a b. a * b;
  div = divide;
  at_least = λ a b. leb b a;
  above = λ a b. ltb b a;
  to_duration = λ x. x;
}

-- 2000 bytes, started at time 5 and last changed at time 6.
abbrev copy : TransferRecord whole_numbers
copy = new_record whole_numbers 2000 5 6

abbrev copying : Tracker whole_numbers
copying = record {
  transfers = ("copy", copy) ∷ ("old", set_status whole_numbers failed 1 copy) ∷ [];
  callbacks = 7 ∷ 8 ∷ [];
  history_retention = 100;
}

copying-Distinct : Distinct copying.transfers
unfolding Distinct lookup
copying-Distinct = (refl, (refl, tt))

copying_found : lookup (target (pause_tracking_op "copy" 9)) copying.transfers ≡ some copy
unfolding lookup target
copying_found = refl

pause_accepted : (perform whole_numbers (pause_tracking_op "copy" 9) copying).0 ≡ none
unfolding perform apply lookup pause_tracking on_record pause new_record
pause_accepted = refl

pause_starts : starts (pause_tracking_op "copy" 9) ≡ false
unfolding starts
pause_starts = refl

perform-Chain_example :
    (r' : TransferRecord whole_numbers) × (ns : List (Notice whole_numbers)) × (lookup
        (target (pause_tracking_op "copy" 9))
        (perform whole_numbers (pause_tracking_op "copy" 9) copying).1.transfers
      ≡ some r')
    × ((perform whole_numbers (pause_tracking_op "copy" 9) copying).2
        ≡ notify whole_numbers copying.callbacks ns)
    × Chain (target (pause_tracking_op "copy" 9)) ns copy.status r'.status
perform-Chain_example =
    perform-Chain whole_numbers (pause_tracking_op "copy" 9) copying copy copying_found pause_starts
      pause_accepted

subtract_self : (a : ℕ) → a - a ≡ 0
subtract_self a = omega arith

abbrev journey : List Operation
journey =
    start_tracking_op "copy" 2000 0 0
    ∷ update_progress_op "copy" 500 1000000000 1000000000
    ∷ update_progress_op "copy" 1500 2000000000 2000000000
    ∷ []

abbrev nothing_yet : Tracker whole_numbers
nothing_yet = record { transfers = []; callbacks = 7 ∷ []; history_retention = 100 }

get_speed-run_example :
    get_speed whole_numbers "copy" (run whole_numbers journey nothing_yet) ≡ whole_numbers.of_nat 0
unfolding whole_numbers divide
get_speed-run_example =
    get_speed-run whole_numbers subtract_self (λ d positive. refl) (λ n positive. refl) refl journey
      nothing_yet "copy" refl

copy_active : not_transferring copy.status ≡ none
unfolding not_transferring new_record
copy_active = refl

copy_sized : 0 < copy.total_size
unfolding new_record
copy_sized = omega arith

copy_enough : copy.total_size ≤ 2000
unfolding new_record
copy_enough = omega arith

update_progress_completes_example :
    let (e, t', calls) = update_progress whole_numbers "copy" 2000 30 40 copying in
    (e ≡ none)
    × (get_status whole_numbers "copy" t' ≡ completed)
    × (get_progress whole_numbers "copy" t' ≡ (2000, copy.total_size, whole_numbers.of_nat 100))
    × ((ns : List (Notice whole_numbers)) × (calls
          ≡ notify whole_numbers copying.callbacks ns
            ++ notify whole_numbers copying.callbacks (
                on_status_change "copy" transferring completed
                ∷ on_complete "copy" copy.total_size (40 - copy.start_time)
                ∷ [])))
    × ((more now' later' : ℕ)
        → update_progress whole_numbers "copy" more now' later' t'
          ≡ (some transfer_completed, t', []))
unfolding target
update_progress_completes_example =
    update_progress_completes whole_numbers "copy" 2000 30 40 copying copy copying_found copy_active
      copy_sized copy_enough

abbrev old_copy : TransferRecord whole_numbers
old_copy = set_status whole_numbers failed 1 copy

old_found : lookup "old" copying.transfers ≡ some old_copy
unfolding lookup
old_found = refl

cleanup-forgets_example :
    ((lookup "old" (cleanup whole_numbers 500 copying).transfers ≡ none) ↔ (
      ((old_copy.status ≡ completed) ⊎ ((old_copy.status ≡ failed) ⊎ (old_copy.status ≡ cancelled)))
      × (copying.history_retention < 500 - old_copy.last_update_time)))
    × ((lookup "old" (cleanup whole_numbers 500 copying).transfers ≡ none)
        ⊎ (lookup "old" (cleanup whole_numbers 500 copying).transfers ≡ some old_copy))
cleanup-forgets_example =
    cleanup-forgets whole_numbers 500 copying "old" old_copy copying-Distinct old_found

abbrev done_copy : TransferRecord whole_numbers
done_copy = set_status whole_numbers completed 9 copy

abbrev delivered : Tracker whole_numbers
delivered = record copying { transfers = ("copy", done_copy) ∷ [] }

delivered_found : lookup "copy" delivered.transfers ≡ some done_copy
unfolding lookup
delivered_found = refl

delivered_completed : done_copy.status ≡ completed
unfolding set_status
delivered_completed = refl

abbrev attempts : List Operation
attempts =
    update_progress_op "copy" 7 50 51
    ∷ start_tracking_op "other" 3 52 53
    ∷ stop_tracking_op "copy" 54
    ∷ update_status_op "copy" initializing 55
    ∷ update_total_size_op "copy" 9000
    ∷ []

attempts_spare : Spares "copy" attempts
unfolding Spares starts target
attempts_spare = (refl, (refl, (refl, (refl, (refl, tt)))))

run-IsFinal_example :
    (r' : TransferRecord whole_numbers) × (lookup "copy"
        (run whole_numbers attempts delivered).transfers
      ≡ some r')
    × IsFinal whole_numbers done_copy r'
run-IsFinal_example =
    run-IsFinal whole_numbers attempts delivered "copy" done_copy delivered_found
      delivered_completed attempts_spare
