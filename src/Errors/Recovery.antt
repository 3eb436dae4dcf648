-- ===== src/Errors/Recovery.antt =====
-- error_handler.go: what the operations of the handler guarantee together.
use pointsub.Base.{ℕ, ◌≡◌, refl, ◌≢◌, true, Option, none, some, [], ◌∷◌, ◌++◌, arith, ==_refl}
use mathlib.Core.List.{map-append}
use pointsub.Base.Text.{Text}
use pointsub.Errors.{
  GoError, message, MessageError, MessageFields, ErrorType, Severity, ErrorContext, is_eof,
  as_net_error, as_message,
}
use pointsub.Errors.Handler.{
  Handler, Strategy, retry, abort, continue, connection_closed, handle_error, new_default,
  is_recoverable, set_default_strategy, register_callback, new_context_error, invoke_callbacks,
  convert_error,
}

-- A strategy set for a severity is the answer to an error with that severity that is no closed
-- connection, and the same callbacks are called as before.
pub handle_error-set_default_strategy :
    (h : Handler) (s : Strategy) (e : GoError) (m : MessageError)
    → connection_closed e ≡ none
    → as_message e ≡ some m
    → handle_error (set_default_strategy h m.fields.severity s) (some e) ≡ (s, invoke_callbacks h m)
unfolding handle_error set_default_strategy invoke_callbacks
handle_error-set_default_strategy h s e m open_conn is_message = ground arith

-- An error of a severity that has a strategy is answered as before when a strategy is set for
-- another severity.
pub handle_error-set_default_strategy_other :
    (h : Handler) (severity : Severity) (s t : Strategy) (e : GoError) (m : MessageError)
    → connection_closed e ≡ none
    → as_message e ≡ some m
    → m.fields.severity ≢ severity
    → h.strategies m.fields.severity ≡ some t
    → handle_error (set_default_strategy h severity s) (some e) ≡ handle_error h (some e)
unfolding handle_error set_default_strategy invoke_callbacks
handle_error-set_default_strategy_other h severity s t e m open_conn is_message other known =
    ground arith

-- A callback registered last for the severity of an error is called last, once, with that
-- error; the earlier callbacks are called as before, and the strategy does not change.
pub handle_error-register_callback :
    (h : Handler) (callback : ℕ) (e : GoError) (m : MessageError) (s : Strategy)
    → connection_closed e ≡ none
    → as_message e ≡ some m
    → h.strategies m.fields.severity ≡ some s
    → let (s', calls) = handle_error (register_callback h m.fields.severity callback) (some e) in
      (s' ≡ (handle_error h (some e)).0)
      × (calls ≡ (handle_error h (some e)).1 ++ (callback, m) ∷ [])
unfolding handle_error register_callback invoke_callbacks
handle_error-register_callback h callback e m s open_conn is_message known = (
  rw (open_conn, handle_error) (rw (is_message, handle_error) (rw (known, handle_error) refl)),
  rw (open_conn, handle_error)
      (rw (is_message, handle_error)
        (rw (known, handle_error)
          (rw (==_refl m.fields.severity) (map-append _ (h.callbacks m.fields.severity) _)))),
)

-- With the default strategies an error that is no closed connection and carries no
-- MessageError is retried if it is a network timeout, and aborts the operation otherwise.
pub handle_error-new_default :
    (e : GoError)
    → connection_closed e ≡ none
    → as_message e ≡ none
    → (handle_error new_default (some e)).0
      ≡ elim (as_net_error e) [ some true ↦ retry | _ ↦ abort ]
unfolding handle_error new_default convert_error
handle_error-new_default e open_conn no_message = ground arith

-- The recoverability that a new error records is what the handler answers for that error later,
-- also when it is wrapped in further errors, whatever checkers are registered.
pub is_recoverable-new_context_error :
    (h : Handler) (now : ℕ) (e : Option GoError) (kind : ErrorType) (severity : Severity)
    (ctx : ErrorContext) (details : Text) (outer : GoError)
    → as_message outer ≡ some (new_context_error h now e kind severity ctx details)
    → is_recoverable h (some outer) ≡ is_recoverable h e
unfolding is_recoverable new_context_error
is_recoverable-new_context_error h now e kind severity ctx details outer found =
    rw (found, is_recoverable) refl

-- A MessageError whose chain ends in end-of-file is answered by `continue` and calls no callback,
-- whatever its severity and the strategy and callbacks set for it.
pub handle_error-eof :
    (h : Handler) (m : MessageFields) (e : GoError)
    → is_eof e ≡ true
    → handle_error h (some (message m e)) ≡ (continue, [])
unfolding handle_error connection_closed is_eof
handle_error-eof h m e ends = rw (ends, handle_error, connection_closed, is_eof) refl
