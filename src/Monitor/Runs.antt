-- ===== src/Monitor/Runs.antt =====
-- error_monitor.go: every run of the monitor.
use pointsub.Base.{
  ℕ, ◌≤◌, ◌≡◌, refl, sym, subst, Bool, true, ◌&&◌, not, Option, none, some, List, [], ◌∷◌, length,
  arith, inl, inr, ◌==◌,
}
use pointsub.Base.Text.{Text}
use pointsub.Errors.{GoError}
use pointsub.Monitor.{
  ErrorMonitorConfig, ErrorRecord, ErrorAlertConfig, on_error, ErrorMonitor, new_error_monitor,
  start, record_error, buffer_capacity,
}
use pointsub.Monitor.Watching.{
  stop, check_alerts, process_record, process_next, process_errors, analyze, reset_statistics,
  add_listener, set_alert_config, test_running, remove_listener, count_record,
}
use pointsub.Monitor.Bounds.{length-add_history, update_statistics-IsConsistent}
use pointsub.Monitor.Alerts.{check_alerts-cases}
use pointsub.Monitor.Soundness.{
  IsSound, same_data, tell-IsSound, analyze-IsSound, Sound, record_error-Sound, start-IsSound,
  stop-Sound, reset_statistics-IsSound, add_listener-IsSound, set_alert_config-IsSound,
  new_error_monitor-IsSound, test_running-IsSound, remove_listener-IsSound, IsSound-if, goroutines,
}

-- The operations, and the steps of the goroutines, each at its time.
pub data Operation : Type 0 where
  starting testing : Operation
  stopping processing analyzing resetting : ℕ → Operation
  recording : ℕ → GoError → Text → Text → Operation
  listening leaving : ℕ → Operation
  configuring : ErrorAlertConfig → Operation

module _ (rate_too_high : ℕ × ℕ → Bool) where
  -- `none` where RecordError or Stop panics.
  unfoldable pub perform : Operation → ErrorMonitor → Option ErrorMonitor
  perform starting m = some (start m)
  perform (stopping now) m = stop now m
  perform (processing now) m = some (process_errors rate_too_high now m)
  perform testing m = some (test_running m)
  perform (analyzing now) m = some (analyze now m)
  perform (resetting now) m = some (reset_statistics now m)
  perform (recording now e source category) m = record_error now e source category m
  perform (listening listener) m = some (add_listener listener m)
  perform (leaving listener) m = some (remove_listener listener m)
  perform (configuring c) m = some (set_alert_config c m)

  unfoldable pub run : List Operation → ErrorMonitor → Option ErrorMonitor
  run [] m = some m
  run (o ∷ os) m = elim (perform o m) [ none ↦ none | some m' ↦ run os m' ]

with_buffer :
    (m : ErrorMonitor) (buffer : List ErrorRecord)
    → length buffer ≤ buffer_capacity
    → IsSound m
    → IsSound (record m { error_buffer = buffer })
with_buffer m buffer le s = record {
  undated = s.undated;
  bounded = record {
    size = s.bounded.size;
    history = s.bounded.history;
    trends = s.bounded.trends;
    buffer = le;
    counts = s.bounded.counts;
  };
  silent = s.silent;
}

module _ (rate_too_high : ℕ × ℕ → Bool) where
  check_alerts-IsSound :
      (now : ℕ) (m : ErrorMonitor) → IsSound m → IsSound (check_alerts rate_too_high now m)
  check_alerts-IsSound now m s = elim (check_alerts-cases rate_too_high now m) [
    | inl same ↦ subst IsSound (sym same) s
    | inr hangs ↦ subst IsSound (sym hangs) (
        same_data m m.running m.buffer_closed true true m.listeners m.alert_config m.error_count _
          m.analyzers m.ticking s)
  ]

  process_record-IsSound :
      (now : ℕ) (r : ErrorRecord) (m : ErrorMonitor)
      → IsSound m
      → IsSound (process_record rate_too_high now r m)
  unfolding process_record count_record
  process_record-IsSound now r m s = check_alerts-IsSound now _ (
      tell-IsSound (λ n. on_error r) _ refl
        (record {
          undated = s.undated;
          bounded = record {
            size = s.bounded.size;
            history = length-add_history m.config.history_size r m.error_history s.bounded.history;
            trends = s.bounded.trends;
            buffer = s.bounded.buffer;
            counts = update_statistics-IsConsistent now r m.statistics s.bounded.counts;
          };
          silent = s.silent;
        }))

  process_next-IsSound :
      (now : ℕ) (buffer : List ErrorRecord) (m : ErrorMonitor)
      → length buffer ≤ buffer_capacity
      → IsSound m
      → IsSound (process_next rate_too_high now buffer m)
  unfolding process_next
  process_next-IsSound now [] m le s =
      IsSound-if m.buffer_closed _ m (goroutines m _ m.analyzers m.ticking s) s
  process_next-IsSound now (r ∷ rest) m le s = IsSound-if (m.processors == 0) m _ s (
      IsSound-if (m.running && not m.stuck) _ _
        (process_record-IsSound now r (record m { error_buffer = rest })
          (with_buffer m rest (omega arith) s))
        (goroutines (record m { error_buffer = rest }) _ m.analyzers m.ticking
          (with_buffer m rest (omega arith) s)))

  process_errors-IsSound :
      (now : ℕ) (m : ErrorMonitor) → IsSound m → IsSound (process_errors rate_too_high now m)
  unfolding process_errors
  process_errors-IsSound now m s = process_next-IsSound now m.error_buffer m s.bounded.buffer s

  perform-Sound : (o : Operation) (m : ErrorMonitor) → IsSound m → Sound (perform rate_too_high o m)
  unfolding perform Sound
  perform-Sound starting m s = start-IsSound m s
  perform-Sound (stopping now) m s = stop-Sound now m s
  perform-Sound (processing now) m s = process_errors-IsSound now m s
  perform-Sound testing m s = test_running-IsSound m s
  perform-Sound (analyzing now) m s = analyze-IsSound now m s
  perform-Sound (resetting now) m s = reset_statistics-IsSound now m s
  perform-Sound (recording now e source category) m s = record_error-Sound now e source category m s
  perform-Sound (listening listener) m s = add_listener-IsSound listener m s
  perform-Sound (leaving listener) m s = remove_listener-IsSound listener m s
  perform-Sound (configuring c) m s = set_alert_config-IsSound c m s

  run_on :
      (os : List Operation) (o : Option ErrorMonitor) (m' : ErrorMonitor)
      → ((m : ErrorMonitor) → IsSound m → run rate_too_high os m ≡ some m' → IsSound m')
      → Sound o
      → elim o [ none ↦ none | some m ↦ run rate_too_high os m ] ≡ some m'
      → IsSound m'
  unfolding Sound
  run_on os none m' rest s e = ground arith
  run_on os (some m) m' rest s e = rest m s e

  pub run-IsSound_from :
      (os : List Operation) (m m' : ErrorMonitor)
      → IsSound m
      → run rate_too_high os m ≡ some m'
      → IsSound m'
  unfolding run
  run-IsSound_from [] m m' s e = subst IsSound (ground arith) s
  run-IsSound_from (o ∷ os) m m' s e =
      run_on os (perform rate_too_high o m) m' (λ n sn en. run-IsSound_from os n m' sn en)
        (perform-Sound o m s) e

  -- After every sequence of calls of Start, Stop, RecordError and the methods that set or reset
  -- something, and of steps of the goroutines, on a new monitor, if none of them panics: the history,
  -- the trends and the buffer are within their limits, the counts in the statistics agree with the
  -- total, no listener was ever told of an alert, and no time of an alert is set.
  pub run-IsSound :
      (now : ℕ) (c : ErrorMonitorConfig) (os : List Operation) (m : ErrorMonitor)
      → run rate_too_high os (new_error_monitor now c) ≡ some m
      → IsSound m
  run-IsSound now c os m e =
      run-IsSound_from os (new_error_monitor now c) m (new_error_monitor-IsSound now c) e
