-- ===== src/Monitor/Soundness.antt =====
-- error_monitor.go: what every operation of the monitor keeps true.
use pointsub.Base.{
  ℕ, ◌-◌, ◌≤◌, ◌≡◌, refl, Bool, true, false, ◌&&◌, Option, none, some, List, [], ◌∷◌, ◌++◌, map,
  if◌then◌else◌, length, arith, inl, inr, Bool-cases, length-drop, ◌+◌, ◌==◌,
}
use pointsub.Base.Text.{Text}
use pointsub.Errors.{GoError}
use pointsub.Monitor.{
  ErrorMonitorConfig, ErrorStatistics, ErrorAlertConfig, Notice, on_error, on_statistics_updated,
  on_alert, ErrorTrend, ErrorMonitor, new_error_monitor, start, record_error, tell, trend_limit,
}
use pointsub.Monitor.Watching.{
  last_trends, trend_point, stop, update_trend, analyze, reset_statistics, add_listener,
  set_alert_config, test_running, remove_listener,
}
use pointsub.Monitor.Bounds.{IsBounded, IsConsistent, length-offer, no_statistics-IsConsistent}

abbrev is_alert : Notice → Bool
is_alert n = elim n [ on_alert s ↦ true | on_error r ↦ false | on_statistics_updated s ↦ false ]

-- No listener was told of an alert.
unfoldable pub NoAlerts : List (ℕ × Notice) → Type 0
NoAlerts [] = Unit {0}
NoAlerts ((listener, notice) ∷ notices) = (is_alert notice ≡ false) × NoAlerts notices

NoAlerts-append : (xs ys : List (ℕ × Notice)) → NoAlerts xs → NoAlerts ys → NoAlerts (xs ++ ys)
unfolding NoAlerts
NoAlerts-append [] ys nx ny = ny
NoAlerts-append ((l, n) ∷ xs) ys (first, nx) ny = (first, NoAlerts-append xs ys nx ny)

NoAlerts-map :
    (notice : Notice) (listeners : List ℕ)
    → is_alert notice ≡ false
    → NoAlerts (map (λ l. (l, notice)) listeners)
unfolding NoAlerts
NoAlerts-map notice [] e = tt
NoAlerts-map notice (l ∷ ls) e = (e, NoAlerts-map notice ls e)

-- The limits hold, the statistics agree, and no alert was told or dated.
pub record IsSound (m : ErrorMonitor) : Type 0 where
  pub undated : m.last_alert_time ≡ none
  pub bounded : IsBounded m
  pub silent : NoAlerts m.notices

-- Sound with other values in the fields that soundness does not speak of.
pub same_data :
    (m : ErrorMonitor) (running closed reading stuck : Bool) (listeners : List ℕ)
    (c : ErrorAlertConfig) (n processors analyzers ticking : ℕ)
    → IsSound m
    → IsSound (record m {
      running = running;
      buffer_closed = closed;
      reading = reading;
      stuck = stuck;
      listeners = listeners;
      alert_config = c;
      error_count = n;
      processors = processors;
      analyzers = analyzers;
      ticking = ticking;
    })
same_data m running closed reading stuck listeners c n processors analyzers ticking s = record {
  undated = s.undated;
  bounded = record {
    size = s.bounded.size;
    history = s.bounded.history;
    trends = s.bounded.trends;
    buffer = s.bounded.buffer;
    counts = s.bounded.counts;
  };
  silent = s.silent;
}

pub tell-IsSound :
    (notice : ErrorMonitor → Notice) (m : ErrorMonitor)
    → is_alert (notice m) ≡ false
    → IsSound m
    → IsSound (tell notice m)
tell-IsSound notice m e s = record {
  undated = s.undated;
  bounded = record {
    size = s.bounded.size;
    history = s.bounded.history;
    trends = s.bounded.trends;
    buffer = s.bounded.buffer;
    counts = s.bounded.counts;
  };
  silent = NoAlerts-append m.notices _ s.silent (NoAlerts-map (notice m) m.listeners e);
}

pub with_statistics :
    (m : ErrorMonitor) (stats : ErrorStatistics)
    → IsConsistent stats
    → IsSound m
    → IsSound (record m { statistics = stats })
with_statistics m stats c s = record {
  undated = s.undated;
  bounded = record {
    size = s.bounded.size;
    history = s.bounded.history;
    trends = s.bounded.trends;
    buffer = s.bounded.buffer;
    counts = c;
  };
  silent = s.silent;
}

length-last_trends : (trends : List ErrorTrend) → length (last_trends trends) ≤ trend_limit
unfolding last_trends
length-last_trends trends = ground (arith, length-drop (length trends - trend_limit) trends)

pub update_trend-IsSound : (now : ℕ) (m : ErrorMonitor) → IsSound m → IsSound (update_trend now m)
unfolding update_trend
update_trend-IsSound now m s = record {
  undated = s.undated;
  bounded = record {
    size = s.bounded.size;
    history = s.bounded.history;
    trends = length-last_trends (m.trends ++ trend_point now m ∷ []);
    buffer = s.bounded.buffer;
    counts = s.bounded.counts;
  };
  silent = s.silent;
}

-- Two states of which one follows a test.
pub IsSound-if :
    (b : Bool) (m n : ErrorMonitor) → IsSound m → IsSound n → IsSound (if b then m else n)
IsSound-if true m n sm sn = sm
IsSound-if false m n sm sn = sn

-- Sound with other goroutines.
pub goroutines :
    (m : ErrorMonitor) (processors analyzers ticking : ℕ)
    → IsSound m
    → IsSound (record m { processors = processors; analyzers = analyzers; ticking = ticking })
goroutines m =
    same_data m m.running m.buffer_closed m.reading m.stuck m.listeners m.alert_config m.error_count

pub test_running-IsSound : (m : ErrorMonitor) → IsSound m → IsSound (test_running m)
unfolding test_running
test_running-IsSound m s = IsSound-if (m.analyzers == 0) m _ s (
    IsSound-if m.running _ _ (goroutines m m.processors _ _ s)
      (goroutines m m.processors _ m.ticking s))

pub analyze-IsSound : (now : ℕ) (m : ErrorMonitor) → IsSound m → IsSound (analyze now m)
unfolding analyze
analyze-IsSound now m s =
    let ticked : ErrorMonitor = record m { analyzers = m.analyzers + 1; ticking = m.ticking - 1 } in
    IsSound-if (m.ticking == 0) m _ s (
      IsSound-if m.stuck _ _ (goroutines m m.processors m.analyzers _ s) (
        tell-IsSound (λ n. on_statistics_updated n.statistics) (update_trend now ticked) refl
          (update_trend-IsSound now ticked
            (goroutines m m.processors (m.analyzers + 1) (m.ticking - 1) s))))

-- What an operation gives, if it does not panic, is sound.
unfoldable pub Sound : Option ErrorMonitor → Type 0
Sound none = Unit {0}
Sound (some m) = IsSound m

pub record_error-Sound :
    (now : ℕ) (e : GoError) (source category : Text) (m : ErrorMonitor)
    → IsSound m
    → Sound (record_error now e source category m)
unfolding record_error Sound
record_error-Sound now e source category m s = elim (Bool-cases (m.config.enabled && m.running)) [
  | inl on ↦ elim (Bool-cases m.buffer_closed) [
    | inl closed ↦ rw (on, closed, if◌then◌else◌) tt
    | inr open' ↦
        rw (on, open', if◌then◌else◌)
          (record {
            undated = s.undated;
            bounded = record {
              size = s.bounded.size;
              history = s.bounded.history;
              trends = s.bounded.trends;
              buffer = length-offer _ m.error_buffer s.bounded.buffer;
              counts = s.bounded.counts;
            };
            silent = s.silent;
          })
  ]
  | inr off ↦ rw (off, if◌then◌else◌) s
]

pub start-IsSound : (m : ErrorMonitor) → IsSound m → IsSound (start m)
unfolding start
start-IsSound m s = IsSound-if m.running m _ s (
    same_data m true m.buffer_closed m.reading m.stuck m.listeners m.alert_config m.error_count _ _
      m.ticking s)

stopped_counts :
    (b : Bool) (now : ℕ) (stats : ErrorStatistics)
    → IsConsistent stats
    → IsConsistent (if b then stats else record stats { end_time = some now })
stopped_counts true now stats c = c
stopped_counts false now stats c = record {
  by_severity = c.by_severity;
  by_type = c.by_type;
  by_category = c.by_category;
  by_source = c.by_source;
  by_text = c.by_text;
  by_recovery = c.by_recovery;
}

Sound-if : (b : Bool) (x y : Option ErrorMonitor) → Sound x → Sound y → Sound (if b then x else y)
Sound-if true x y sx sy = sx
Sound-if false x y sx sy = sy

pub stop-Sound : (now : ℕ) (m : ErrorMonitor) → IsSound m → Sound (stop now m)
unfolding stop Sound
stop-Sound now m s =
    Sound-if m.running _ (some m)
      (Sound-if m.buffer_closed none _ tt (
        with_statistics (record m { running = false; buffer_closed = true }) _
          (stopped_counts m.stuck now m.statistics s.bounded.counts)
          (same_data m false true m.reading m.stuck m.listeners m.alert_config m.error_count
            m.processors m.analyzers m.ticking s)))
      s

pub reset_statistics-IsSound :
    (now : ℕ) (m : ErrorMonitor) → IsSound m → IsSound (reset_statistics now m)
unfolding reset_statistics
reset_statistics-IsSound now m s = IsSound-if m.stuck m _ s (record {
  undated = s.undated;
  bounded = record {
    size = s.bounded.size;
    history = s.bounded.history;
    trends = omega arith;
    buffer = s.bounded.buffer;
    counts = no_statistics-IsConsistent now;
  };
  silent = s.silent;
})

pub add_listener-IsSound : (l : ℕ) (m : ErrorMonitor) → IsSound m → IsSound (add_listener l m)
unfolding add_listener
add_listener-IsSound l m s = IsSound-if m.stuck m _ s (
    same_data m m.running m.buffer_closed m.reading m.stuck _ m.alert_config m.error_count
      m.processors m.analyzers m.ticking s)

pub remove_listener-IsSound : (l : ℕ) (m : ErrorMonitor) → IsSound m → IsSound (remove_listener l m)
unfolding remove_listener
remove_listener-IsSound l m s = IsSound-if m.stuck m _ s (
    same_data m m.running m.buffer_closed m.reading m.stuck _ m.alert_config m.error_count
      m.processors m.analyzers m.ticking s)

pub set_alert_config-IsSound :
    (c : ErrorAlertConfig) (m : ErrorMonitor) → IsSound m → IsSound (set_alert_config c m)
unfolding set_alert_config
set_alert_config-IsSound c m s = IsSound-if m.stuck m _ s (
    same_data m m.running m.buffer_closed m.reading m.stuck m.listeners c m.error_count m.processors
      m.analyzers m.ticking s)

pub new_error_monitor-IsSound :
    (now : ℕ) (c : ErrorMonitorConfig) → IsSound (new_error_monitor now c)
unfolding new_error_monitor NoAlerts
new_error_monitor-IsSound now c = record {
  undated = refl;
  bounded = record {
    size = ground arith;
    history = omega arith;
    trends = omega arith;
    buffer = omega arith;
    counts = no_statistics-IsConsistent now;
  };
  silent = tt;
}
