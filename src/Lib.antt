-- ===== src/Lib.antt =====
-- The native protocol of cubrid-client: how the client talks to a CUBRID CAS process, keeps a session
-- with it, streams rows and ends transactions. The code is TypeScript; this library models its
-- protocol layer, its connection, its stream cursor and its transactions as functions, and proves what
-- a caller relies on.
--
-- The parts, and the files that model them:
--   src/protocol/packet-writer.ts: Writer. A writer is its buffer and its position; a method is a
--     function to the writer that it leaves, or to what a Buffer write throws.
--   src/protocol/packet-reader.ts: Reader. A method is a function to an outcome, returned or thrown,
--     with the reader that it leaves.
--   src/protocol/constants.ts: Constants.
--   src/protocol/protocol.ts: Request has the request builders (writePrepare, writeExecute, ...);
--     Reply the reply parsers (parsePrepare, parseExecute, parseFetch, ...) over Columns, Rows and
--     Value; Sql has interpolateParams, formatValue and escapeString; Bind has encodeBindParams and
--     encodePreparedParams, over the parameters of Param.
--   src/protocol/connection.ts: Frame has takeBuffered, recvExact and readFrame. Session has the rest:
--     Session/World the fields of CASConnection and the wire, Session/Opening connectUnlocked,
--     handshakeUnlocked and applySessionParametersUnlocked, Session/Exchange the exchanges and the
--     public methods, Session/Operations any sequence of them. Quiet, Control, Steady, Settled, Opened,
--     Connect, Outcome, Safe, Sound, Live, Establish and Recovery hold the proofs.
--   src/adapters/stream-cursor.ts: Stream has the methods of StreamCursor, Stream/Steps its two sides:
--     the statement as streamWindows of src/adapters/native.ts uses it, and the code that iterates, as
--     streamRows does. Handover, Order, Takes, Delivery and Failures hold the proofs.
--   src/client/transaction.ts: Transaction has CallbackTransaction as a step function on events.
--   src/errors and src/internals/map-error.ts: Failure is what the protocol throws; Errors has the
--     classes with their details, mapError and findErrorDetails.
--   src/adapters/native.ts: Adapter has beginTransactionNow, commitNow, rollbackNow and
--     bindTransactionSession with what they check, over a Session. Adapter/Turns are the steps that a
--     statement is made of, and Platform what it runs on; Handle has the query handles, Fetching
--     fetchRemaining, Lobs readLob, InsertId the insert ids with their baseline, Escapes the backslash
--     mode, Running runStatement and Calls executeNow, queryNow and pingNow. History, Consuming,
--     Deferred, Transacted, Ending, Joining, Asking, Damaged, Kept, Keeping, KeepingLobs and KeepingCalls hold
--     the proofs, with Session/Growth for the wire below.
--   src/client/client.ts: Client has the connections of a CubridClient: the shared one, the one that
--     a transaction has of its own, and close. How a transaction stands behind its callback is a
--     parameter; Transaction is the state machine of it. Held, Tidy, Ends and Whole hold the proofs.
--   src/internals/normalize-config.ts: Config has normalizeConfig with its checks.
--   src/utils/query.ts: Where has escapeIdentifier and buildWhere.
-- A request goes from Sql or Bind through Request and Writer to bytes; the bytes of a reply come
-- through Frame and are decoded by Reply, which uses Reader, Columns, Rows and Value. Base, Buffer
-- and Text are what the code uses of the language: lists, big-endian integers, and strings as their
-- UTF-16 code units with the UTF-8 encoder and decoder. Tests has concrete runs.
--
-- A Session runs on a network that is a parameter: whether a TCP connection opens at a tick of its
-- clock, and what comes back for what is asked, which is the redirect port, a TLS handshake, the
-- OpenDatabase reply or the reply to a framed request. A socket that was seen to be dead is one of the
-- answers. CASConnection runs its operations one at a time in the order of its queue, so each is one
-- function on the whole state, and callers that overlap are a list of operations. What a Stream's two
-- sides and a cancellation do is a list of events in any order; one that does not fit the state, such
-- as an offer before the statement's turn, changes nothing.
--
-- Bounds and fuel. Integers keep their widths: a value out of the range of its width makes the
-- Buffer write throw. The growth of a writer's buffer runs on fuel that is the size needed, and the
-- decoder of nested collections on one round more than the size of the cell, since a collection is
-- longer than what it holds; a run out of fuel is a failure of its own, `diverges`. The loops of
-- fetchRemaining and readLob run on one round more than the rows or the bytes to come. Decimal digits
-- run on one round more than the number. The retries of a connection are counted down, as in the code.
--
-- A server's side is described apart from the code: `read_request` reads a payload as a function
-- code and length-prefixed arguments, and `read_literal` reads a string literal, with or without
-- backslash escapes. Which character an escape stands for is a parameter.
--
-- Not modelled: sockets, timers and the inside of TLS (src/protocol/connection.ts), so a read timeout
-- is something that the network answers with; in the adapter (src/adapters/native.ts) what a stream
-- does with the LOBs of its rows, closeNow, setTransactionOptionsNow, toColumnInfo and the queue with
-- its timers; in the client (src/client/client.ts) streams, schema lookups and calls that overlap; the
-- lookups themselves (src/client/schema.ts); logging (src/internals/log-connection.ts); and the
-- connection string (src/utils/connection-string.ts). `String(value)` of a number, BigInt(text) and Number(text) are
-- parameters. A Client's connections are a parameter too: which of their calls fails. Message texts
-- are left out, except the server's own.
pub mod Base
pub mod Buffer
pub mod Failure
pub mod Errors
pub mod Text
pub mod Constants
pub mod Reader
pub mod Value
pub mod Columns
pub mod Rows
pub mod Reply
pub mod Param
pub mod Sql
pub mod Bind
pub mod Frame
pub mod Transaction
pub mod Writer
pub mod Request
pub mod Session
pub mod Stream
pub mod Adapter
pub mod Client
pub mod Config
pub mod Where
pub mod Tests
