-- ===== src/Monitor/Alerts.antt =====
-- error_monitor.go: what becomes of an alert that is due.
use pointsub.Base.{
  ℕ, ◌-◌, ◌≡◌, refl, sym, ap, ◌∙◌, Bool, true, false, none, some, ltb, if◌then◌else◌, ◌⊎◌, inl, inr,
  Bool-cases,
}
use pointsub.Monitor.{ErrorMonitor}
use pointsub.Monitor.Watching.{trigger_alert, check_alerts, alert_due}

module _ (rate_too_high : ℕ × ℕ → Bool) where
  -- An alert that is due blocks; nothing else comes of checkAlerts.
  pub check_alerts-cases :
      (now : ℕ) (m : ErrorMonitor)
      → (check_alerts rate_too_high now m ≡ m)
        ⊎ (check_alerts rate_too_high now m
            ≡ record m { reading = true; stuck = true; processors = m.processors - 1 })
  unfolding check_alerts trigger_alert
  check_alerts-cases now m =
      let quiet : Bool = elim m.last_alert_time [
        | none ↦ false
        | some last ↦ ltb (now - last) m.alert_config.quiet_period
      ] in
      elim (Bool-cases quiet) [
        | inl e ↦ inl (rw (e, if◌then◌else◌) refl)
        | inr e ↦ elim (Bool-cases (alert_due rate_too_high m)) [
          | inl due ↦ inr (rw (e, due, if◌then◌else◌) refl)
          | inr none_due ↦ inl (rw (e, none_due, if◌then◌else◌) refl)
        ]
      ]

  never_alerted-hangs :
      (now : ℕ) (m : ErrorMonitor)
      → alert_due rate_too_high (record m { last_alert_time = none }) ≡ true
      → check_alerts rate_too_high now (record m { last_alert_time = none }) ≡ record m {
        last_alert_time = none;
        reading = true;
        stuck = true;
        processors = m.processors - 1;
      }
  unfolding check_alerts trigger_alert
  never_alerted-hangs now m due = rw (due, if◌then◌else◌) refl

  -- An alert that is due is the end of the goroutine.
  pub check_alerts-hangs :
      (now : ℕ) (m : ErrorMonitor)
      → m.last_alert_time ≡ none
      → alert_due rate_too_high m ≡ true
      → check_alerts rate_too_high now m
        ≡ record m { reading = true; stuck = true; processors = m.processors - 1 }
  check_alerts-hangs now m fresh due =
      let same : m ≡ record m { last_alert_time = none } =
        (λ i. record m { last_alert_time = fresh i }) in
      ap (check_alerts rate_too_high now) same
      ∙ never_alerted-hangs now m (sym (ap (alert_due rate_too_high) same) ∙ due)
      ∙ ap
          (λ (n : ErrorMonitor).
            (let r : ErrorMonitor = record n {
              reading = true;
              stuck = true;
              processors = n.processors - 1;
            } in
              r))
          (sym same)
