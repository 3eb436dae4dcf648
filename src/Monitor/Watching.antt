-- ===== src/Monitor/Watching.antt =====
-- error_monitor.go: the alerts, the goroutines of processErrors and analyzeErrorsRoutine, and the
-- operations from outside. The test of an error rate against its threshold is the parameter
-- `rate_too_high`.
use pointsub.Base.{
  ℕ, ◌+◌, ◌-◌, Bool, true, false, ◌&&◌, not, none, some, List, [], ◌∷◌, ◌++◌, ltb, leb,
  if◌then◌else◌, length, drop, Option, ◌==◌,
}
use pointsub.Errors.{severity_critical, severity_fatal}
use pointsub.Monitor.{
  ErrorAlertConfig, ErrorMonitor, ErrorRecord, ErrorTrend, add_history, count_of, no_statistics,
  on_alert, on_error, on_statistics_updated, severity_key, tell, trend_limit, update_statistics,
}

-- `triggerAlert`: its Lock waits for the reader, which is checkAlerts itself, and with it the
-- goroutine.
unfoldable pub trigger_alert : ℕ → ErrorMonitor → ErrorMonitor
trigger_alert now m =
    if m.reading
    then record m { stuck = true; processors = m.processors - 1 }
    else if elim m.last_alert_time [
      | none ↦ false
      | some last ↦ ltb (now - last) m.alert_config.alert_interval
    ]
    then m
    else tell (λ n. on_alert n.statistics) (record m { last_alert_time = some now })

-- The loop of checkAlerts over the last records: none is more than 5 s after the one before it.
unfoldable pub close_together : List ErrorRecord → Bool
close_together [] = true
close_together (r ∷ []) = true
close_together (r ∷ s ∷ rest) =
    not (ltb 5000000000 (s.timestamp - r.timestamp)) && close_together (s ∷ rest)

unfoldable pub count_record : ℕ → ErrorRecord → ErrorMonitor → ErrorMonitor
count_record now r m =
    tell (λ n. on_error r)
      (record m {
        error_history = add_history m.config.history_size r m.error_history;
        statistics = update_statistics now r m.statistics;
      })

-- The conditions of checkAlerts, in their order.
module _ (rate_too_high : ℕ × ℕ → Bool) where
  unfoldable pub alert_due : ErrorMonitor → Bool
  unfolding count_of close_together
  alert_due m =
      let t = m.alert_config.consecutive_error_threshold in
      let n = length m.error_history in
      if rate_too_high m.statistics.error_rate
      then true
      else if ltb m.alert_config.critical_error_threshold (
          count_of (severity_key severity_critical) m.statistics.severity_counts
          + count_of (severity_key severity_fatal) m.statistics.severity_counts)
      then true
      else if leb t n
      then close_together (drop (n - t) m.error_history)
      else false

  -- `checkAlerts`: it holds the lock for reading until it returns.
  unfoldable pub check_alerts : ℕ → ErrorMonitor → ErrorMonitor
  check_alerts now m =
      let quiet : Bool = elim m.last_alert_time [
        | none ↦ false
        | some last ↦ ltb (now - last) m.alert_config.quiet_period
      ] in
      if quiet
      then m
      else if alert_due m
      then (let m' = trigger_alert now (record m { reading = true }) in
          if m'.stuck then m' else record m' { reading = false })
      else m

  -- One round of processErrors for a record: it is counted, the listeners are told, and the alerts
  -- are checked.
  unfoldable pub process_record : ℕ → ErrorRecord → ErrorMonitor → ErrorMonitor
  process_record now r m = check_alerts now (count_record now r m)

  -- A step of a goroutine of processErrors. Without a record it ends if the buffer is closed, and
  -- waits otherwise. A record that it takes while the monitor does not run is lost and it ends; one
  -- that it takes when the lock is never free again is lost too, since it waits for ever.
  unfoldable pub process_next : ℕ → List ErrorRecord → ErrorMonitor → ErrorMonitor
  process_next now [] m = if m.buffer_closed then record m { processors = m.processors - 1 } else m
  process_next now (r ∷ rest) m =
      if m.processors == 0
      then m
      else if m.running && not m.stuck
      then process_record now r (record m { error_buffer = rest })
      else record m { error_buffer = rest; processors = m.processors - 1 }

  unfoldable pub process_errors : ℕ → ErrorMonitor → ErrorMonitor
  process_errors now m = process_next now m.error_buffer m

-- The records of the last period, as updateTrend counts them.
unfoldable pub count_recent : ℕ → ℕ → List ErrorRecord → ℕ
count_recent now period [] = 0
count_recent now period (r ∷ history) =
    let rest = count_recent now period history in
    if leb (now - r.timestamp) period then rest + 1 else rest

-- The last 24 points.
unfoldable pub last_trends : List ErrorTrend → List ErrorTrend
last_trends trends =
    if ltb trend_limit (length trends) then drop (length trends - trend_limit) trends else trends

abbrev pub trend_point : ℕ → ErrorMonitor → ErrorTrend
trend_point now m = record {
  time_point = now;
  error_count = count_recent now m.config.analysis_period m.error_history;
}

-- `updateTrend`.
unfoldable pub update_trend : ℕ → ErrorMonitor → ErrorMonitor
unfolding count_recent last_trends
update_trend now m = record m { trends = last_trends (m.trends ++ trend_point now m ∷ []) }

-- The head of the loop of analyzeErrorsRoutine: a goroutine ends, or goes on to wait for a tick.
unfoldable pub test_running : ErrorMonitor → ErrorMonitor
test_running m =
    if m.analyzers == 0
    then m
    else if m.running
    then record m { analyzers = m.analyzers - 1; ticking = m.ticking + 1 }
    else record m { analyzers = m.analyzers - 1 }

-- A tick for a goroutine of analyzeErrorsRoutine that waits for one, also after a Stop; it waits for
-- ever if the lock is never free again.
unfoldable pub analyze : ℕ → ErrorMonitor → ErrorMonitor
unfolding update_trend
analyze now m =
    if m.ticking == 0
    then m
    else if m.stuck
    then record m { ticking = m.ticking - 1 }
    else tell (λ n. on_statistics_updated n.statistics)
        (update_trend now (record m { analyzers = m.analyzers + 1; ticking = m.ticking - 1 }))

-- `ResetStatistics`, `AddListener`, `RemoveListener` and `SetAlertConfig`, which need the lock too:
-- where it is never free again, the caller waits for ever and nothing changes.
unfoldable pub reset_statistics : ℕ → ErrorMonitor → ErrorMonitor
reset_statistics now m =
    if m.stuck then m else record m { statistics = no_statistics now; error_count = 0; trends = [] }

unfoldable pub add_listener : ℕ → ErrorMonitor → ErrorMonitor
add_listener listener m =
    if m.stuck then m else record m { listeners = m.listeners ++ listener ∷ [] }

-- The loop of RemoveListener.
unfoldable pub without : ℕ → List ℕ → List ℕ
without listener [] = []
without listener (l ∷ ls) = let rest = without listener ls in if l == listener then ls else l ∷ rest

unfoldable pub remove_listener : ℕ → ErrorMonitor → ErrorMonitor
unfolding without
remove_listener listener m =
    if m.stuck then m else record m { listeners = without listener m.listeners }

unfoldable pub set_alert_config : ErrorAlertConfig → ErrorMonitor → ErrorMonitor
set_alert_config c m = if m.stuck then m else record m { alert_config = c }

-- `Stop`: the buffer is closed before the lock is taken; `none` is the panic of closing it again.
unfoldable pub stop : ℕ → ErrorMonitor → Option ErrorMonitor
stop now m =
    if m.running
    then (if m.buffer_closed
        then none
        else some (record m {
          running = false;
          buffer_closed = true;
          statistics =
              if m.stuck then m.statistics else record m.statistics { end_time = some now };
        }))
    else some m
