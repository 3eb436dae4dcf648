-- ===== src/Monitor/Held.antt =====
-- error_monitor.go: what each operation leaves as it is once the lock is held for ever.
use pointsub.Base.{
  ℕ, ◌≡◌, refl, ◌∙◌, Bool, true, false, ◌&&◌, Option, none, some, List, ◌==◌, if◌then◌else◌, arith,
}
use pointsub.Base.Text.{Text}
use pointsub.Errors.{GoError}
use pointsub.Monitor.{ErrorMonitor, ErrorRecord, start, record_error}
use pointsub.Monitor.Watching.{stop, analyze, test_running}

-- The lock is held for ever, and all that it guards is as it was in `m`.
pub record IsHalted (m now : ErrorMonitor) : Type 0 where
  pub held : now.stuck ≡ true
  pub history : now.error_history ≡ m.error_history
  pub statistics : now.statistics ≡ m.statistics
  pub trends : now.trends ≡ m.trends
  pub listeners : now.listeners ≡ m.listeners
  pub alert_config : now.alert_config ≡ m.alert_config
  pub last_alert : now.last_alert_time ≡ m.last_alert_time
  pub notices : now.notices ≡ m.notices

-- What an operation gives, if it does not panic, is halted.
unfoldable pub Halted : ErrorMonitor → Option ErrorMonitor → Type 0
Halted m none = Unit {0}
Halted m (some now) = IsHalted m now

-- Halted with other values of what the lock does not guard.
same_guarded :
    (m n : ErrorMonitor) (running closed reading : Bool) (count : ℕ) (buffer : List ErrorRecord)
    (processors analyzers ticking : ℕ)
    → IsHalted m n
    → IsHalted m (record n {
      running = running;
      buffer_closed = closed;
      reading = reading;
      error_count = count;
      error_buffer = buffer;
      processors = processors;
      analyzers = analyzers;
      ticking = ticking;
    })
same_guarded m n running closed reading count buffer processors analyzers ticking h = record {
  held = h.held;
  history = h.history;
  statistics = h.statistics;
  trends = h.trends;
  listeners = h.listeners;
  alert_config = h.alert_config;
  last_alert = h.last_alert;
  notices = h.notices;
}

pub with_goroutines :
    (m n : ErrorMonitor) (buffer : List ErrorRecord) (processors analyzers ticking : ℕ)
    → IsHalted m n
    → IsHalted m (record n {
      error_buffer = buffer;
      processors = processors;
      analyzers = analyzers;
      ticking = ticking;
    })
with_goroutines m n = same_guarded m n n.running n.buffer_closed n.reading n.error_count

pub IsHalted-if :
    (b : Bool) (m n n' : ErrorMonitor)
    → IsHalted m n
    → IsHalted m n'
    → IsHalted m (if b then n else n')
IsHalted-if true m n n' h h' = h
IsHalted-if false m n n' h h' = h'

-- What needs the lock does nothing.
pub IsHalted-wait :
    (b : Bool) (m n n' : ErrorMonitor) → b ≡ true → IsHalted m n → IsHalted m (if b then n else n')
IsHalted-wait true m n n' e h = h
IsHalted-wait false m n n' e h = absurd (ground arith)

pub Halted-if :
    (b : Bool) (m : ErrorMonitor) (x y : Option ErrorMonitor)
    → Halted m x
    → Halted m y
    → Halted m (if b then x else y)
Halted-if true m x y hx hy = hx
Halted-if false m x y hx hy = hy

first_of_two : {A : Type 0} (b : Bool) (x y : A) → b ≡ true → (if b then x else y) ≡ x
first_of_two true x y e = refl
first_of_two false x y e = absurd (ground arith)

pub start-IsHalted : (m n : ErrorMonitor) → IsHalted m n → IsHalted m (start n)
unfolding start
start-IsHalted m n h =
    IsHalted-if n.running m n _ h
      (same_guarded m n true n.buffer_closed n.reading n.error_count n.error_buffer _ _ n.ticking h)

pub stop-Halted : (now : ℕ) (m n : ErrorMonitor) → IsHalted m n → Halted m (stop now n)
unfolding stop Halted
stop-Halted now m n h =
    Halted-if n.running m _ (some n)
      (Halted-if n.buffer_closed m none _ tt (record {
        held = h.held;
        history = h.history;
        statistics = first_of_two n.stuck n.statistics _ h.held ∙ h.statistics;
        trends = h.trends;
        listeners = h.listeners;
        alert_config = h.alert_config;
        last_alert = h.last_alert;
        notices = h.notices;
      }))
      h

pub record_error-Halted :
    (now : ℕ) (e : GoError) (source category : Text) (m n : ErrorMonitor)
    → IsHalted m n
    → Halted m (record_error now e source category n)
unfolding record_error Halted
record_error-Halted now e source category m n h =
    Halted-if (n.config.enabled && n.running) m _ (some n)
      (Halted-if n.buffer_closed m none _ tt (
        same_guarded m n n.running n.buffer_closed n.reading _ _ n.processors n.analyzers n.ticking
          h))
      h

pub test_running-IsHalted : (m n : ErrorMonitor) → IsHalted m n → IsHalted m (test_running n)
unfolding test_running
test_running-IsHalted m n h = IsHalted-if (n.analyzers == 0) m n _ h (
    IsHalted-if n.running m _ _ (with_goroutines m n n.error_buffer n.processors _ _ h)
      (with_goroutines m n n.error_buffer n.processors _ n.ticking h))

pub analyze-IsHalted : (now : ℕ) (m n : ErrorMonitor) → IsHalted m n → IsHalted m (analyze now n)
unfolding analyze
analyze-IsHalted now m n h = IsHalted-if (n.ticking == 0) m n _ h (
    IsHalted-wait n.stuck m _ _ h.held
      (with_goroutines m n n.error_buffer n.processors n.analyzers _ h))

pub set_aside :
    (b : Bool) (m n n' : ErrorMonitor)
    → b ≡ false
    → IsHalted m n'
    → IsHalted m (if b then n else n')
set_aside true m n n' e h = absurd (ground arith)
set_aside false m n n' e h = h

pub second_of_three :
    {A : Type 0} (b c : Bool) (x y z : A)
    → b ≡ false
    → c ≡ true
    → (if b then x else if c then y else z) ≡ y
second_of_three true c x y z e f = absurd (ground arith)
second_of_three false true x y z e f = refl
second_of_three false false x y z e f = absurd (ground arith)
