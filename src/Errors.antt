-- ===== src/Errors.antt =====
-- error_handler.go, message_transporter.go (RetryableError) and frame_processor.go (the error
-- values): Go errors as chains, and what `errors.Is`, `errors.As` and `Error()` find in one.
pub mod Handler
pub mod Recovery
mod Tests
use pointsub.Base.{ℕ, Bool, true, false, Option, none, some, [], ◌∷◌, ◌++◌, if◌then◌else◌, ◌==◌}
use pointsub.Base.Text.{Text, codes}

pub data ErrorType : Type 0 where
  network_conn network_timeout network_io : ErrorType
  protocol_parse protocol_unsupported protocol_security : ErrorType
  system_resource system_internal user_input user_config : ErrorType

-- `ErrorSeverity` is an int; these five are its named values.
abbrev pub Severity : Type 0
Severity = ℕ

abbrev pub severity_info : Severity
severity_info = 0

abbrev pub severity_warning : Severity
severity_warning = 1

abbrev pub severity_error : Severity
severity_error = 2

abbrev pub severity_critical : Severity
severity_critical = 3

abbrev pub severity_fatal : Severity
severity_fatal = 4

-- `ErrorContext` without the addresses and the metadata, which no code of the library reads.
-- A zero timestamp is the zero `time.Time`.
pub record ErrorContext : Type 0 where
  pub timestamp : ℕ
  pub connection_id : Text
  pub message_id : Text
  pub operation : Text

-- The fields of a `MessageError` besides the error that it wraps.
pub record MessageFields : Type 0 where
  pub kind : ErrorType
  pub severity : Severity
  pub recoverable : Bool
  pub context : ErrorContext
  pub details : Text

-- A value of Go's `error` other than nil. `net_error` is a `net.Error` with its text and its
-- `Timeout()`; `wrapped` is what `fmt.Errorf("…%w", err)` makes; `plain` is `errors.New`.
pub data GoError : Type 0 where
  eof unexpected_eof : GoError
  invalid_header_size invalid_header_format checksum_mismatch frame_too_big : GoError
  plain : Text → GoError
  net_error : Text → Bool → GoError
  wrapped : Text → GoError → GoError
  retryable : GoError → GoError
  message : MessageFields → GoError → GoError
  message_nil : MessageFields → GoError

-- `*MessageError`: its fields, and `Err`, which may be nil.
pub record MessageError : Type 0 where
  pub fields : MessageFields
  pub err : Option GoError

abbrev pub to_error : MessageError → GoError
to_error m = elim m.err [ none ↦ message_nil m.fields | some e ↦ message m.fields e ]

abbrev severity_text : Severity → Text
severity_text s =
    if s == 0
    then codes "INFO"
    else if s == 1
    then codes "WARNING"
    else if s == 2
    then codes "ERROR"
    else if s == 3
    then codes "CRITICAL"
    else if s == 4
    then codes "FATAL"
    else []

abbrev type_text : ErrorType → Text
type_text network_conn = codes "NetworkConn"
type_text network_timeout = codes "NetworkTimeout"
type_text network_io = codes "NetworkIO"
type_text protocol_parse = codes "ProtocolParse"
type_text protocol_unsupported = codes "ProtocolUnsupported"
type_text protocol_security = codes "ProtocolSecurity"
type_text system_resource = codes "SystemResource"
type_text system_internal = codes "SystemInternal"
type_text user_input = codes "UserInput"
type_text user_config = codes "UserConfig"

abbrev is_empty : Text → Bool
is_empty [] = true
is_empty (c ∷ s) = false

abbrev unless_empty : Text → Text → Text
unless_empty s t = if is_empty s then [] else t

-- `(*MessageError).Error`, given the text of the wrapped error (empty for nil).
message_text : MessageFields → Text → Text
message_text m inner =
    codes "["
    ++ (severity_text m.severity
        ++ (codes "]["
            ++ (type_text m.kind
                ++ (codes "] "
                    ++ ((if m.recoverable
                          then codes "(recoverable) "
                          else codes "(non-recoverable) ")
                        ++ (unless_empty m.details (m.details ++ codes ": ")
                            ++ (inner
                                ++ (unless_empty c.operation
                                      (codes " (during: " ++ (c.operation ++ codes ")"))
                                    ++ (unless_empty c.connection_id
                                          (codes " [conn: " ++ (c.connection_id ++ codes "]"))
                                        ++ unless_empty c.message_id (
                                            codes " [msg: " ++ (c.message_id ++ codes "]")))))))))))
  where
    open m use {context as c}

-- `err.Error()`. The sentinel errors of frame_processor.go have Chinese texts with no ASCII
-- letters, so that no search of the handler finds anything in them.
unfoldable pub error_text : GoError → Text
unfolding message_text
error_text eof = codes "EOF"
error_text unexpected_eof = codes "unexpected EOF"
error_text invalid_header_size = codes "无效的帧头大小"
error_text invalid_header_format = codes "无效的帧头格式"
error_text checksum_mismatch = codes "校验和不匹配"
error_text frame_too_big = codes "帧大小超出限制"
error_text (plain s) = s
error_text (net_error s timeout) = s
error_text (wrapped s e) = s ++ error_text e
error_text (retryable e) = codes "可重试错误: " ++ error_text e
error_text (message m e) = message_text m (error_text e)
error_text (message_nil m) = message_text m []

-- `errors.Is(err, io.EOF)`.
unfoldable pub is_eof : GoError → Bool
is_eof eof = true
is_eof (wrapped s e) = is_eof e
is_eof (retryable e) = is_eof e
is_eof (message m e) = is_eof e
is_eof _ = false

-- `errors.As(err, &netErr)`, with the `Timeout()` of what it finds.
unfoldable pub as_net_error : GoError → Option Bool
as_net_error (net_error s timeout) = some timeout
as_net_error (wrapped s e) = as_net_error e
as_net_error (retryable e) = as_net_error e
as_net_error (message m e) = as_net_error e
as_net_error _ = none

-- `errors.As(err, &msgErr)`.
unfoldable pub as_message : GoError → Option MessageError
as_message (wrapped s e) = as_message e
as_message (retryable e) = as_message e
as_message (message m e) = some (record { fields = m; err = some e })
as_message (message_nil m) = some (record { fields = m; err = none })
as_message _ = none
