-- ===== src/Errors/Tests.antt =====
-- Runs of the error handler, and its theorems at concrete inputs.
use pointsub.Base.{◌≡◌, refl, ◌≢◌, true, false, none, some, [], arith}
use pointsub.Base.Text.{codes, contains, to_lower}
use pointsub.Errors.{
  GoError, plain, net_error, wrapped, message, MessageFields, MessageError, system_internal,
  user_input, severity_critical, severity_error, severity_fatal, as_message, as_net_error, is_eof,
  error_text, to_error,
}
use pointsub.Errors.Handler.{
  reset, connection_closed, new_default, is_recoverable, no_context, new_context_error,
  network_error_recoverable,
}

abbrev fields : MessageFields
fields = record {
  kind = system_internal;
  severity = severity_critical;
  recoverable = false;
  context = no_context;
  details = codes "disk";
}

abbrev failure : GoError
failure = wrapped (codes "save: ") (message fields (plain (codes "disk full")))

abbrev found : MessageError
found = record { fields = fields; err = some (plain (codes "disk full")) }

failure_text :
    error_text failure ≡ codes "save: [CRITICAL][SystemInternal] (non-recoverable) disk: disk full"
unfolding error_text
failure_text = refl

not_closed : connection_closed failure ≡ none
unfolding connection_closed is_eof error_text contains as_net_error
not_closed = refl

is_message : as_message failure ≡ some found
unfolding as_message
is_message = refl

known_strategy : new_default.strategies severity_critical ≡ some reset
unfolding new_default
known_strategy = refl

other_severity : found.fields.severity ≢ severity_fatal
other_severity e = ground arith

abbrev slow : GoError
slow = net_error (codes "i/o timeout") true

slow_open : connection_closed slow ≡ none
unfolding connection_closed is_eof error_text contains as_net_error
slow_open = refl

slow_plain : as_message slow ≡ none
unfolding as_message
slow_plain = refl

refused : GoError
refused = net_error (codes "dial: Connection Refused") false

refused_recoverable : is_recoverable new_default (some refused) ≡ true
unfolding refused is_recoverable new_default as_message network_error_recoverable as_net_error
    error_text contains to_lower
refused_recoverable = refl

reported_found :
    as_message (
      wrapped (codes "send: ") (
        to_error
          (new_context_error new_default 5 (some refused) user_input severity_error no_context [])))
    ≡ some (new_context_error new_default 5 (some refused) user_input severity_error no_context [])
unfolding as_message new_context_error
reported_found = refl
