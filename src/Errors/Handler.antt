-- ===== src/Errors/Handler.antt =====
-- error_handler.go: IsConnectionClosed and the methods of defaultErrorHandler. The maps are
-- functions of the severity; a callback is known by a number, and a call of it is an entry of the
-- list of calls that an operation makes, in order.
use pointsub.Base.{
  ℕ, Bool, true, false, ◌||◌, Option, none, some, List, [], ◌∷◌, ◌++◌, map, if◌then◌else◌, ◌==◌,
}
use pointsub.Base.Text.{Text, codes, contains, to_lower}
use pointsub.Errors.{
  GoError, MessageError, ErrorType, Severity, ErrorContext, network_conn, network_timeout,
  system_internal, severity_info, severity_warning, severity_error, error_text, is_eof,
  as_net_error, as_message,
}

pub data Strategy : Type 0 where
  ignore retry abort reset close panic continue : Strategy

-- `ConnectionClosedInfo`.
pub record ClosedInfo : Type 0 where
  pub err : GoError
  pub reason : Text
  pub remote_initiated : Bool
  pub graceful : Bool

closed_by_net : GoError → Option Bool → Option ClosedInfo
closed_by_net e none = none
closed_by_net e (some true) = none
closed_by_net e (some false) =
    some (record {
      err = e;
      reason = codes "network error";
      remote_initiated = true;
      graceful = false;
    })

-- `IsConnectionClosed` of an error that is not nil; `none` is `false, nil`.
unfoldable pub connection_closed : GoError → Option ClosedInfo
unfolding closed_by_net
connection_closed e =
    if is_eof e
    then some
        (record { err = e; reason = codes "end of file"; remote_initiated = true; graceful = true })
    else if contains (codes "use of closed network connection") (error_text e)
    then some (record {
      err = e;
      reason = codes "connection already closed";
      remote_initiated = false;
      graceful = true;
    })
    else if contains (codes "connection reset by peer") (error_text e)
    then some (record {
      err = e;
      reason = codes "reset by peer";
      remote_initiated = true;
      graceful = false;
    })
    else if contains (codes "broken pipe") (error_text e)
    then some (record {
      err = e;
      reason = codes "broken pipe";
      remote_initiated = true;
      graceful = false;
    })
    else closed_by_net e (as_net_error e)

pub record Handler : Type 0 where
  pub strategies : Severity → Option Strategy
  pub callbacks : Severity → List ℕ
  pub checkers : List (GoError → Bool)

-- One call of a registered callback.
abbrev pub CallbackCall : Type 0
CallbackCall = ℕ × MessageError

contains_any : List Text → Text → Bool
contains_any [] s = false
contains_any (m ∷ ms) s = contains m s || contains_any ms s

abbrev recoverable_texts : List Text
recoverable_texts =
    codes "connection reset by peer"
    ∷ codes "broken pipe"
    ∷ codes "connection refused"
    ∷ codes "network is unreachable"
    ∷ codes "no route to host"
    ∷ []

unfoldable pub network_error_recoverable : GoError → Bool
unfolding contains_any
network_error_recoverable e = elim (as_net_error e) [
  | none ↦ false
  | some timeout ↦
      if timeout then true else contains_any recoverable_texts (to_lower (error_text e))
]

abbrev timeout_texts : List Text
timeout_texts = codes "timeout" ∷ codes "timed out" ∷ codes "deadline exceeded" ∷ []

unfoldable pub timeout_error_recoverable : GoError → Bool
unfolding contains_any
timeout_error_recoverable e = contains_any timeout_texts (to_lower (error_text e))

abbrev default_strategies : Severity → Option Strategy
default_strategies s =
    if s == 0
    then some ignore
    else if s == 1
    then some retry
    else if s == 2
    then some abort
    else if s == 3
    then some reset
    else if s == 4
    then some close
    else none

-- `NewDefaultErrorHandler`.
unfoldable pub new_default : Handler
new_default = record {
  strategies = default_strategies;
  callbacks = λ s. [];
  checkers = network_error_recoverable ∷ timeout_error_recoverable ∷ [];
}

pub any_checker : List (GoError → Bool) → GoError → Bool
any_checker [] e = false
any_checker (c ∷ cs) e = c e || any_checker cs e

-- `IsRecoverable`; `none` is the nil error.
unfoldable pub is_recoverable : Handler → Option GoError → Bool
unfolding any_checker
is_recoverable h none = true
is_recoverable h (some e) = elim (as_message e) [
  | some m ↦ m.fields.recoverable
  | none ↦ any_checker h.checkers e
]

abbrev pub no_context : ErrorContext
no_context = record { timestamp = 0; connection_id = []; message_id = []; operation = [] }

abbrev bool_text : Bool → Text
bool_text true = codes "true"
bool_text false = codes "false"

-- `convertError`.
unfoldable pub convert_error : Handler → GoError → MessageError
convert_error h e = elim (connection_closed e) [
  | some info ↦ record {
    fields = record {
      kind = network_conn;
      severity = severity_info;
      recoverable = true;
      context = no_context;
      details =
          codes "连接关闭: "
          ++ (info.reason
              ++ (codes " (优雅="
                  ++ (bool_text info.graceful
                      ++ (codes ", 远程=" ++ (bool_text info.remote_initiated ++ codes ")")))));
    };
    err = some e;
  }
  | none ↦ elim (as_net_error e) [
    | some true ↦ record {
      fields = record {
        kind = network_timeout;
        severity = severity_warning;
        recoverable = true;
        context = no_context;
        details = codes "网络超时";
      };
      err = some e;
    }
    | _ ↦ record {
      fields = record {
        kind = system_internal;
        severity = severity_error;
        recoverable = is_recoverable h (some e);
        context = no_context;
        details = error_text e;
      };
      err = some e;
    }
  ]
]

-- `invokeCallbacks`: the calls that it makes.
unfoldable pub invoke_callbacks : Handler → MessageError → List CallbackCall
invoke_callbacks h m = map (λ c. (c, m)) (h.callbacks m.fields.severity)

converted_strategy : Handler → MessageError → Strategy × List CallbackCall
converted_strategy h m = elim (h.strategies m.fields.severity) [
  | some s ↦ (s, invoke_callbacks h m)
  | none ↦ (retry, [])
]

-- `HandleError`: the strategy, and the callbacks called.
unfoldable pub handle_error : Handler → Option GoError → Strategy × List CallbackCall
unfolding converted_strategy
handle_error h none = (continue, [])
handle_error h (some e) = elim (connection_closed e) [
  | some info ↦ (if info.graceful then continue else retry, [])
  | none ↦ elim (as_message e) [
    | none ↦ converted_strategy h (convert_error h e)
    | some m ↦ elim (h.strategies m.fields.severity) [
      | some s ↦ (s, invoke_callbacks h m)
      | none ↦ converted_strategy h (convert_error h e)
    ]
  ]
]

-- `RegisterCallback`.
unfoldable pub register_callback : Handler → Severity → ℕ → Handler
register_callback h severity callback = record h {
  callbacks = λ s. if severity == s then h.callbacks s ++ callback ∷ [] else h.callbacks s;
}

-- `SetDefaultStrategy`.
unfoldable pub set_default_strategy : Handler → Severity → Strategy → Handler
set_default_strategy h severity strategy = record h {
  strategies = λ s. if severity == s then some strategy else h.strategies s;
}

-- `NewContextError` at time `now`.
unfoldable pub new_context_error :
    Handler → ℕ → Option GoError → ErrorType → Severity → ErrorContext → Text → MessageError
new_context_error h now e kind severity ctx details = record {
  fields = record {
    kind = kind;
    severity = severity;
    recoverable = is_recoverable h e;
    context = if ctx.timestamp == 0 then record ctx { timestamp = now } else ctx;
    details = details;
  };
  err = e;
}

-- `NewError` at time `now`.
unfoldable pub new_error : Handler → ℕ → Option GoError → ErrorType → Severity → Text → MessageError
unfolding new_context_error
new_error h now e kind severity details =
    new_context_error h now e kind severity (record no_context { timestamp = now }) details
