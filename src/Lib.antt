-- ===== src/Lib.antt =====
-- Verification library of pointsub, a Go library that carries messages and streams over connections.
--
-- The program. frame_processor.go cuts bytes into frames with a header of 4 or 12 bytes and reads
-- them back; message_transporter.go sends single messages and streams as such frames and answers
-- every failure with the strategy that error_handler.go chooses; progress_tracker.go keeps a record
-- of each transfer and tells its callbacks; message_sizer.go chooses a strategy and parameters by
-- the size of a message, and strategy_selector.go one by scores; largemsg.go writes large messages
-- in chunks; message_processor.go encodes and decodes messages with a header of their own;
-- frame_processor_impl.go compresses the data of frames; memory_manager.go keeps account of memory
-- and error_monitor.go of errors.
--
-- The files.
--   Base      shared names; Base/Tests, Base/Lists, Base/Bits, Base/Bytes, Base/Text: Boolean tests,
--             lists, flags, big-endian integers and text over the native numbers; Base/Dict, Base/Table:
--             maps; Base/ExchangeSort: the sorting loops that two of the files write out
--   Errors    error_handler.go: errors as values (MessageError, the sentinel errors, net.Error and
--             what wraps them); Errors/Handler: IsConnectionClosed and the methods of
--             defaultErrorHandler
--   Frame     frame_processor.go: EncodeHeader, DecodeHeader; Frame/Io: ReadFrame,
--             ReadFrameWithFlags and WriteFrame
--   Transporter   message_transporter.go: Send, Receive, SendStream, ReceiveStream, handleError
--   Tracker   progress_tracker.go: the record of a transfer and the transitions of its status;
--             Tracker/Records: what each method does to the record; Tracker/Operations: the methods
--             on the map of the transfers
--   Sizer     message_sizer.go: SelectStrategy, OptimizeParams, EstimateSize, RegisterStrategy,
--             ValidateChunkSize; Sizer/Small, Sizer/Medium, Sizer/Huge: Send and Receive of
--             smallMessageStrategy, mediumMessageStrategy and hugeMessageStrategy
--   LargeMessage  largemsg.go: adjustBufferSizes and Write of largeMessageConn
--   Selector  strategy_selector.go: the scorers and SelectBestStrategy with its cache, over the
--             strategies and the sizer of Sizer
--   Processor message_processor.go: messages and headers; Processor/Coding: EncodeMessage,
--             DecodeMessage, ReadMessage and WriteMessage; Processor/Checking: ValidateMessage and
--             ProcessMessages
--   Advanced  frame_processor_impl.go: reading and writing of frames with compression, over Frame
--   Memory    memory_manager.go: the accounting, the checks of the pressure, Start and Stop
--   Monitor   error_monitor.go: the records and statistics, RecordError; Monitor/Watching:
--             processErrors, the alerts, the trends and the other methods; Monitor/Runs: sequences
--             of the methods and the steps of the goroutines
-- The modules below these hold the theorems, each named for what it is about, and Tests runs the
-- definitions at concrete inputs.
--
-- The model. A function of Go is a function here: a method gives its results and the new state.
-- Go errors are values of GoError; a nil error is none. A connection that is read is the list of
-- the bytes that come before its end (Read), one that is written is a Sink: what it took, and,
-- if it is going to break, how many bytes it still takes and its error. A call of a callback is
-- an entry in a list that the operation returns. The clock's readings are arguments. Lengths and
-- sizes are natural numbers, integers of a fixed width are reduced where the code converts to
-- them (u8, u16, u32). float64 is a parameter (Floats), and so are CRC-32, gzip and bufio.Writer
-- of the standard library and the comparison of an error rate with its threshold. Where a
-- component locks its mutex twice, in Memory and Monitor, the mutex is part of the state and an
-- operation can wait for ever.
--
-- Bounds. ReceiveStream is computed on as many rounds as there are bytes and one more, which is
-- enough since a frame takes a byte at least. The loops of the medium and huge strategies and of
-- Write in LargeMessage have as many rounds as there are bytes and one more, which is enough
-- since a chunk of a positive size takes a byte at least; with a chunk size of 0 the code does
-- not end or divides by zero. The loop of RegisterStrategy runs as often as there are
-- strategies.
--
-- Not modelled. The locks of the other components, whose operations hold one lock from beginning
-- to end; goroutines but those of error_monitor.go, and the order of the calls of callbacks;
-- deadlines and delays; logging; a lack of memory; the averages of times; the transporter with a
-- progress tracker attached; Send and Receive of the tiny and large strategies of
-- message_sizer.go; Read of largemsg.go; adaptive_buffer.go, advanced_buffer.go,
-- buffer_factory.go and timeout.go; conn.go and listener.go, which wrap libp2p; the output of
-- console_progress.go and progress_dashboard.go.
pub mod Base
pub mod Errors
pub mod Frame
pub mod Transporter
pub mod Tracker
pub mod Sizer
pub mod LargeMessage
pub mod Selector
pub mod Processor
pub mod Advanced
pub mod Memory
pub mod Monitor
