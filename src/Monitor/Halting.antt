-- ===== src/Monitor/Halting.antt =====
-- error_monitor.go: what is left of the monitor after the first alert.
use pointsub.Base.{
  ℕ, ◌<◌, ◌≡◌, refl, sym, ap, ◌∙◌, subst, Bool, true, false, ◌&&◌, not, Option, none, some, List,
  [], ◌∷◌, ◌==◌, arith,
}
use pointsub.Monitor.{ErrorMonitorConfig, ErrorMonitor, ErrorRecord, new_error_monitor}
use pointsub.Monitor.Watching.{
  process_next, process_errors, process_record, count_record, check_alerts, alert_due,
  reset_statistics, add_listener, remove_listener, set_alert_config,
}
use pointsub.Monitor.Alerts.{check_alerts-hangs}
use pointsub.Monitor.Runs.{
  Operation, starting, testing, stopping, processing, analyzing, resetting, recording, listening,
  leaving, configuring, perform, run, run-IsSound,
}
use pointsub.Monitor.Held.{
  IsHalted, Halted, with_goroutines, IsHalted-if, IsHalted-wait, start-IsHalted, stop-Halted,
  record_error-Halted, test_running-IsHalted, analyze-IsHalted, set_aside, second_of_three,
}

-- The monitor once the first record `r` of its buffer is taken and counted.
abbrev pub taken : ℕ → ErrorRecord → List ErrorRecord → ErrorMonitor → ErrorMonitor
taken now r rest m = count_record now r (record m { error_buffer = rest })

module _ (rate_too_high : ℕ × ℕ → Bool) where
  process_next-IsHalted :
      (now : ℕ) (buffer : List ErrorRecord) (m n : ErrorMonitor)
      → IsHalted m n
      → IsHalted m (process_next rate_too_high now buffer n)
  unfolding process_next
  process_next-IsHalted now [] m n h =
      IsHalted-if n.buffer_closed m _ n
        (with_goroutines m n n.error_buffer _ n.analyzers n.ticking h) h
  process_next-IsHalted now (r ∷ rest) m n h =
      let held = h.held in
      IsHalted-if (n.processors == 0) m n _ h (
        set_aside (n.running && not n.stuck) m _ _ (ground arith)
          (with_goroutines m n rest _ n.analyzers n.ticking h))

  perform-Halted :
      (o : Operation) (m n : ErrorMonitor) → IsHalted m n → Halted m (perform rate_too_high o n)
  unfolding perform Halted process_errors reset_statistics add_listener remove_listener
      set_alert_config
  perform-Halted starting m n h = start-IsHalted m n h
  perform-Halted testing m n h = test_running-IsHalted m n h
  perform-Halted (stopping now) m n h = stop-Halted now m n h
  perform-Halted (processing now) m n h = process_next-IsHalted now n.error_buffer m n h
  perform-Halted (analyzing now) m n h = analyze-IsHalted now m n h
  perform-Halted (resetting now) m n h = IsHalted-wait n.stuck m n _ h.held h
  perform-Halted (recording now e source category) m n h =
      record_error-Halted now e source category m n h
  perform-Halted (listening listener) m n h = IsHalted-wait n.stuck m n _ h.held h
  perform-Halted (leaving listener) m n h = IsHalted-wait n.stuck m n _ h.held h
  perform-Halted (configuring c) m n h = IsHalted-wait n.stuck m n _ h.held h

  run_on :
      (os : List Operation) (m : ErrorMonitor) (o : Option ErrorMonitor) (end : ErrorMonitor)
      → ((n : ErrorMonitor) → IsHalted m n → run rate_too_high os n ≡ some end → IsHalted m end)
      → Halted m o
      → elim o [ none ↦ none | some n ↦ run rate_too_high os n ] ≡ some end
      → IsHalted m end
  unfolding Halted
  run_on os m none end rest h e = absurd (ground arith)
  run_on os m (some n) end rest h e = rest n h e

  run-IsHalted :
      (os : List Operation) (m n end : ErrorMonitor)
      → IsHalted m n
      → run rate_too_high os n ≡ some end
      → IsHalted m end
  unfolding run
  run-IsHalted [] m n end h e = subst (IsHalted m) (ground arith) h
  run-IsHalted (o ∷ os) m n end h e =
      run_on os m (perform rate_too_high o n) end (λ n' h' e'. run-IsHalted os m n' end h' e')
        (perform-Halted o m n h) e

  check_alerts-IsHalted :
      (now : ℕ) (m : ErrorMonitor)
      → m.last_alert_time ≡ none
      → alert_due rate_too_high m ≡ true
      → IsHalted m (check_alerts rate_too_high now m)
  check_alerts-IsHalted now m fresh due =
      subst (IsHalted m) (sym (check_alerts-hangs rate_too_high now m fresh due)) (record {
        held = refl;
        history = refl;
        statistics = refl;
        trends = refl;
        listeners = refl;
        alert_config = refl;
        last_alert = refl;
        notices = refl;
      })

  processed :
      (now : ℕ) (m : ErrorMonitor) (r : ErrorRecord) (rest : List ErrorRecord)
      → m.error_buffer ≡ r ∷ rest
      → 0 < m.processors
      → m.running ≡ true
      → m.stuck ≡ false
      → process_errors rate_too_high now m
        ≡ process_record rate_too_high now r (record m { error_buffer = rest })
  unfolding process_errors process_next
  processed now m r rest waiting alive runs free =
      ap (λ b. process_next rate_too_high now b m) waiting
      ∙ second_of_three (m.processors == 0) (m.running && not m.stuck) _ _ _ (ground arith)
          (ground arith)

  -- After any sequence of operations on a new monitor that leaves it running, with a goroutine at the
  -- head of processErrors, a lock that is not held for ever and a first record in the buffer: if the
  -- alert is due once this record is taken and counted, then, whatever operations and steps of
  -- goroutines follow without a panic, the lock is held for ever, and the history, the statistics,
  -- the trends, the listeners, the settings of alerts and what the listeners were told stay as they
  -- were when the record was counted.
  pub process_errors-stuck :
      (start_time now : ℕ) (c : ErrorMonitorConfig) (before later : List Operation)
      (m end : ErrorMonitor) (r : ErrorRecord) (rest : List ErrorRecord)
      → run rate_too_high before (new_error_monitor start_time c) ≡ some m
      → m.error_buffer ≡ r ∷ rest
      → 0 < m.processors
      → m.running ≡ true
      → m.stuck ≡ false
      → alert_due rate_too_high (taken now r rest m) ≡ true
      → run rate_too_high later (process_errors rate_too_high now m) ≡ some end
      → IsHalted (taken now r rest m) end
  unfolding process_record count_record
  process_errors-stuck start_time now c before later m end r rest reached waiting alive runs free
        due goes_on =
      let sound = run-IsSound rate_too_high start_time c before m reached in
      run-IsHalted later (taken now r rest m) (process_errors rate_too_high now m) end
        (subst (IsHalted (taken now r rest m))
          (sym (processed now m r rest waiting alive runs free))
          (check_alerts-IsHalted now (taken now r rest m) sound.undated due))
        goes_on
