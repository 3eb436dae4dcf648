-- ===== src/Monitor.antt =====
-- error_monitor.go: ErrorMonitor. RecordError puts records into a buffer, from which the goroutine
-- of processErrors takes them one by one; each Start makes such a goroutine and one of
-- analyzeErrorsRoutine, and earlier ones may still be there. A step of one goroutine is not
-- interrupted by another. The error rate is kept as the two numbers that the
-- code divides. Times are nanoseconds; the zero time is `none`.
pub mod Bounds
pub mod Alerts
pub mod Soundness
pub mod Runs
pub mod Held
pub mod Halting
pub mod Watching
mod Tests
use pointsub.Base.{
  ℕ, ◌+◌, ◌-◌, Bool, true, false, ◌&&◌, not, Option, none, some, List, [], ◌∷◌, ◌++◌, map, ltb, leb,
  ◌==◌, if◌then◌else◌, length, drop,
}
use pointsub.Base.Text.{Text}
use pointsub.Base.Table.{Table, find, store}
use pointsub.Errors.{
  ErrorType, network_conn, network_timeout, network_io, protocol_parse, protocol_unsupported,
  protocol_security, system_resource, system_internal, user_input, user_config, ErrorContext,
  GoError, MessageError, Severity, severity_error, severity_critical, severity_fatal, as_message,
  to_error, error_text,
}

pub record ErrorMonitorConfig : Type 0 where
  pub enabled : Bool
  pub history_size : ℕ
  pub analysis_period : ℕ

pub record ErrorRecord : Type 0 where
  pub timestamp : ℕ
  pub kind : ErrorType
  pub severity : Severity
  pub text : Text
  pub recoverable : Bool
  pub context : ErrorContext
  pub category : Text
  pub source : Text

pub record ErrorStatistics : Type 0 where
  pub total_errors : ℕ
  pub severity_counts : Table ℕ
  pub type_counts : Table ℕ
  pub category_counts : Table ℕ
  pub source_counts : Table ℕ
  pub recoverable_count : ℕ
  pub non_recoverable_count : ℕ
  pub most_frequent_errors : Table ℕ
  pub last_error_time : Option ℕ
  pub error_rate : ℕ × ℕ
  pub start_time : ℕ
  pub end_time : Option ℕ

pub record ErrorTrend : Type 0 where
  pub time_point : ℕ
  pub error_count : ℕ

-- `ErrorAlertConfig` without the threshold of the rate.
pub record ErrorAlertConfig : Type 0 where
  pub critical_error_threshold : ℕ
  pub consecutive_error_threshold : ℕ
  pub alert_interval : ℕ
  pub quiet_period : ℕ

-- What a listener is told.
pub data Notice : Type 0 where
  on_error : ErrorRecord → Notice
  on_statistics_updated : ErrorStatistics → Notice
  on_alert : ErrorStatistics → Notice

-- `ErrorMonitor`, with its goroutines that have neither ended nor wait for ever: `processors` at the
-- head of the loop of processErrors, `analyzers` at the head of that of analyzeErrorsRoutine and
-- `ticking` at its `select`. `stuck` says that the lock is read-locked for ever, by a goroutine of
-- processErrors that waits for it.
pub record ErrorMonitor : Type 0 where
  pub config : ErrorMonitorConfig
  pub error_history : List ErrorRecord
  pub error_count : ℕ
  pub statistics : ErrorStatistics
  pub trends : List ErrorTrend
  pub listeners : List ℕ
  pub alert_config : ErrorAlertConfig
  pub last_alert_time : Option ℕ
  pub error_buffer : List ErrorRecord
  pub buffer_closed : Bool
  pub running : Bool
  pub reading : Bool
  pub stuck : Bool
  pub processors : ℕ
  pub analyzers : ℕ
  pub ticking : ℕ
  pub notices : List (ℕ × Notice)

abbrev pub buffer_capacity : ℕ
buffer_capacity = 100

abbrev pub trend_limit : ℕ
trend_limit = 24

abbrev pub no_statistics : ℕ → ErrorStatistics
no_statistics now = record {
  total_errors = 0;
  severity_counts = [];
  type_counts = [];
  category_counts = [];
  source_counts = [];
  recoverable_count = 0;
  non_recoverable_count = 0;
  most_frequent_errors = [];
  last_error_time = none;
  error_rate = (0, 1);
  start_time = now;
  end_time = none;
}

-- `NewErrorMonitor`.
unfoldable pub new_error_monitor : ℕ → ErrorMonitorConfig → ErrorMonitor
new_error_monitor now c = record {
  config = record c {
    history_size = if c.history_size == 0 then 1000 else c.history_size;
    analysis_period = if c.analysis_period == 0 then 300000000000 else c.analysis_period;
  };
  error_history = [];
  error_count = 0;
  statistics = no_statistics now;
  trends = [];
  listeners = [];
  alert_config = record {
    critical_error_threshold = 5;
    consecutive_error_threshold = 3;
    alert_interval = 900000000000;
    quiet_period = 3600000000000;
  };
  last_alert_time = none;
  error_buffer = [];
  buffer_closed = false;
  running = false;
  reading = false;
  stuck = false;
  processors = 0;
  analyzers = 0;
  ticking = 0;
  notices = [];
}

-- `Start`.
unfoldable pub start : ErrorMonitor → ErrorMonitor
start m =
    if m.running
    then m
    else record m { running = true; processors = m.processors + 1; analyzers = m.analyzers + 1 }

-- The record of an error.
unfoldable pub record_of : ℕ → GoError → Option MessageError → Text → Text → ErrorRecord
record_of now e (some msg) source category = record {
  timestamp = now;
  kind = msg.fields.kind;
  severity = msg.fields.severity;
  text = error_text (to_error msg);
  recoverable = msg.fields.recoverable;
  context = msg.fields.context;
  category = category;
  source = source;
}
record_of now e none source category = record {
  timestamp = now;
  kind = system_internal;
  severity = severity_error;
  text = error_text e;
  recoverable = false;
  context = record { timestamp = now; connection_id = []; message_id = []; operation = [] };
  category = category;
  source = source;
}

-- The `select` that puts a record into the buffer, or drops it when the buffer is full.
unfoldable pub offer : ErrorRecord → List ErrorRecord → List ErrorRecord
offer r buffer = if ltb (length buffer) buffer_capacity then buffer ++ r ∷ [] else buffer

-- `RecordError`; `none` is the panic of a send on a closed channel.
unfoldable pub record_error : ℕ → GoError → Text → Text → ErrorMonitor → Option ErrorMonitor
unfolding record_of offer
record_error now e source category m =
    if m.config.enabled && m.running
    then (if m.buffer_closed
        then none
        else some (record m {
          error_buffer = offer (record_of now e (as_message e) source category) m.error_buffer;
          error_count = m.error_count + 1;
        }))
    else some m

unfoldable pub count_of : Text → Table ℕ → ℕ
count_of key counts = elim (find key counts) [ none ↦ 0 | some n ↦ n ]

unfoldable pub increment : Text → Table ℕ → Table ℕ
unfolding count_of
increment key counts = store key (count_of key counts + 1) counts

abbrev pub severity_key : Severity → Text
severity_key s = s ∷ []

abbrev type_key : ErrorType → Text
type_key t = elim t [
  | network_conn ↦ 0 ∷ []
  | network_timeout ↦ 1 ∷ []
  | network_io ↦ 2 ∷ []
  | protocol_parse ↦ 3 ∷ []
  | protocol_unsupported ↦ 4 ∷ []
  | protocol_security ↦ 5 ∷ []
  | system_resource ↦ 6 ∷ []
  | system_internal ↦ 7 ∷ []
  | user_input ↦ 8 ∷ []
  | user_config ↦ 9 ∷ []
]

-- `updateStatistics`.
unfoldable pub update_statistics : ℕ → ErrorRecord → ErrorStatistics → ErrorStatistics
update_statistics now r s =
    let total = s.total_errors + 1 in
    record s {
      total_errors = total;
      severity_counts = increment (severity_key r.severity) s.severity_counts;
      type_counts = increment (type_key r.kind) s.type_counts;
      category_counts = increment r.category s.category_counts;
      source_counts = increment r.source s.source_counts;
      recoverable_count = if r.recoverable then s.recoverable_count + 1 else s.recoverable_count;
      non_recoverable_count =
          if r.recoverable then s.non_recoverable_count else s.non_recoverable_count + 1;
      most_frequent_errors = increment r.text s.most_frequent_errors;
      last_error_time = some r.timestamp;
      error_rate = if ltb s.start_time now then (total, now - s.start_time) else s.error_rate;
    }

-- The history with one more record, of which the oldest goes if there are too many.
unfoldable pub add_history : ℕ → ErrorRecord → List ErrorRecord → List ErrorRecord
add_history size r history =
    let longer = history ++ r ∷ [] in if ltb size (length longer) then drop 1 longer else longer

abbrev pub tell : (ErrorMonitor → Notice) → ErrorMonitor → ErrorMonitor
tell notice m = record m { notices = m.notices ++ map (λ l. (l, notice m)) m.listeners }
