-- ===== src/Monitor/Tests.antt =====
-- Runs of the error monitor, and its theorems at concrete inputs.
use pointsub.Base.{ℕ, ◌≡◌, refl, Bool, true, false, Option, none, some, List, [], ◌∷◌, arith}
use pointsub.Base.Text.{codes}
use pointsub.Base.Table.{find, store, same_text}
use pointsub.Errors.{eof, as_message, error_text}
use pointsub.Monitor.{
  ErrorMonitorConfig, ErrorRecord, ErrorMonitor, new_error_monitor, start, record_error, record_of,
  offer, count_of, increment, update_statistics, add_history,
}
use pointsub.Monitor.Watching.{
  process_errors, process_next, process_record, check_alerts, alert_due, close_together,
  add_listener, analyze, update_trend, last_trends, count_recent, test_running, count_record,
  trigger_alert, stop,
}
use pointsub.Monitor.Bounds.{recent, add_all, add_all-last}
use pointsub.Monitor.Halting.{taken, process_errors-stuck}
use pointsub.Monitor.Soundness.{IsSound}
use pointsub.Monitor.Runs.{
  Operation, starting, recording, processing, analyzing, listening, perform, run, run-IsSound,
  testing, stopping,
}
use pointsub.Monitor.Held.{IsHalted}

abbrev settings : ErrorMonitorConfig
settings = record { enabled = true; history_size = 2; analysis_period = 60000000000 }

-- No rate is too high.
too_high : ℕ × ℕ → Bool
too_high (n, t) = false

abbrev failure : ℕ → Operation
failure now = recording now eof (codes "reader") (codes "network")

abbrev morning : List Operation
morning =
    starting
    ∷ listening 1
    ∷ failure 10
    ∷ processing 11
    ∷ failure 20
    ∷ processing 21
    ∷ testing
    ∷ analyzing 30
    ∷ stopping 40
    ∷ processing 50
    ∷ []

result_of : ErrorMonitor → Option ErrorMonitor → ErrorMonitor
result_of m none = m
result_of m (some m') = m'

noon : ErrorMonitor
unfolding result_of
noon =
    result_of (new_error_monitor 0 settings) (run too_high morning (new_error_monitor 0 settings))

noon_lem : run too_high morning (new_error_monitor 0 settings) ≡ some noon
unfolding noon run perform start add_listener record_error record_of offer process_errors
    process_next process_record count_record check_alerts alert_due count_of increment
    update_statistics add_history close_together test_running analyze update_trend last_trends
    count_recent stop new_error_monitor as_message error_text find store same_text too_high
noon_lem = refl

run-IsSound_example : IsSound noon
run-IsSound_example = run-IsSound too_high 0 settings morning noon noon_lem

abbrev record_at : ℕ → ErrorRecord
record_at now = record_of now eof none (codes "reader") (codes "network")

add_all-last_example :
    add_all 2 [] (record_at 1 ∷ record_at 2 ∷ record_at 3 ∷ [])
    ≡ recent 2 (record_at 1 ∷ record_at 2 ∷ record_at 3 ∷ [])
add_all-last_example = add_all-last 2 (record_at 1 ∷ record_at 2 ∷ record_at 3 ∷ []) (omega arith)

-- Three errors within seconds of one another, of which the last is still to be processed.
abbrev rush : List Operation
rush = starting ∷ failure 1 ∷ processing 2 ∷ failure 3 ∷ processing 4 ∷ failure 5 ∷ []

abbrev wary : ErrorMonitorConfig
wary = record { enabled = true; history_size = 5; analysis_period = 60000000000 }

busy : ErrorMonitor
unfolding result_of
busy = result_of (new_error_monitor 0 wary) (run too_high rush (new_error_monitor 0 wary))

abbrev last_record : ErrorRecord
last_record = record_of 5 eof none (codes "reader") (codes "network")

busy_lem : run too_high rush (new_error_monitor 0 wary) ≡ some busy
unfolding busy run perform start record_error record_of offer process_errors process_next
    process_record count_record check_alerts alert_due count_of increment update_statistics
    add_history close_together new_error_monitor as_message error_text find store same_text too_high
busy_lem = refl

busy_fields :
    (busy.error_buffer ≡ last_record ∷ [])
    × (busy.processors ≡ 1)
    × (busy.running ≡ true)
    × (busy.stuck ≡ false)
unfolding busy run perform start record_error record_of offer process_errors process_next
    process_record count_record check_alerts alert_due count_of increment update_statistics
    add_history close_together new_error_monitor as_message error_text find store same_text too_high
busy_fields = (refl, refl, refl, refl)

busy_due : alert_due too_high (taken 6 last_record [] busy) ≡ true
unfolding busy run perform start record_error record_of offer process_errors process_next
    process_record count_record check_alerts alert_due count_of increment update_statistics
    add_history close_together new_error_monitor as_message error_text find store same_text too_high
busy_due = refl

-- A new start after a stop does not help.
abbrev afterwards : List Operation
afterwards = listening 2 ∷ failure 7 ∷ processing 8 ∷ stopping 9 ∷ starting ∷ processing 10 ∷ []

evening : ErrorMonitor
unfolding result_of
evening = result_of busy (run too_high afterwards (process_errors too_high 6 busy))

evening_lem : run too_high afterwards (process_errors too_high 6 busy) ≡ some evening
unfolding evening trigger_alert stop add_listener busy run perform start record_error record_of
    offer process_errors process_next process_record count_record check_alerts alert_due count_of
    increment update_statistics add_history close_together new_error_monitor as_message error_text
    find store same_text too_high
evening_lem = refl

process_errors-stuck_example : IsHalted (taken 6 last_record [] busy) evening
process_errors-stuck_example =
    process_errors-stuck too_high 0 6 wary rush afterwards busy evening last_record [] busy_lem
      busy_fields.0 (omega (arith, busy_fields.1)) busy_fields.2 busy_fields.3 busy_due evening_lem
