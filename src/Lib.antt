-- ===== src/Lib.antt =====
-- @drizzle-team/minipg: a PostgreSQL driver in TypeScript, modelled for verification.
--
-- Parts and files (paths from the repository's root):
--   Base       names, list, number and case lemmas that the other modules share.
--   Buffer     the runtime's Buffer as the driver uses it: Memory (writes into memory of a fixed
--              size), Words (big-endian integers), Utf8 (UTF-16 text to UTF-8 bytes).
--   Protocol   src/protocol.ts. Result: what the code throws. Messages: the object W. Writer: the
--              class Writer, as methods that end, throw or hang and leave a writer. Write: the
--              functions writeParse to writeQuery. Parser: the class Parser. Rows: parseRowDescription,
--              parseParameterDescription and parseDataRow.
--   Arrays     arrayLiteral of src/encode.ts and parseArrayLiteral of src/decode.ts, with the
--              elements they agree on (Element).
--   Errors     src/errors.ts: parseErrorFields.
--   Pool       src/pool.ts. State: the class's fields, the asynchronous work under way, and
--              classify. Breaker: trip, startProbe, settleBreaker, open. Acquire: acquire and
--              waitForFree. Checkin: release, reclaim, checkin, refill. Events: one step for each
--              call and each asynchronous event. Ownership, Bound and Recovery are about its runs.
--   Connection src/connection.ts: State the object's fields and its tasks, Serialize what startTask
--              writes, Dispatch the queue and the loss of the socket, Cancel the cancel requests,
--              Finish the end of a query, Events the methods and messages as steps. Held is about
--              promises, Bounds about the pipeline, Order about the order and the progress.
--              Stream is the iterators that stream and copyTo return, Bulk the chunks of
--              bulkInsert and bulkUpdate, their transaction, and the statement that begins one.
--   Replication src/replication.ts: Batch assembles transactions, Flow is the receive queue,
--              Position what is confirmed to the server.
--   Cursor     src/cursor.ts. Sound and Lease are about its connection, Drain about `all`.
--   Tests      runs on concrete inputs and the theorems at concrete inputs.
--
-- How they interact: the functions of Write append whole messages to a Writer, framed by its start
-- and end; the object W is the plain reference of the same messages. The Parser takes the socket's
-- chunks and returns framed messages, whose bodies Rows and Errors decode. The pool is a machine of
-- its own: the code between two awaits is one step, and a sequence of steps is any interleaving of
-- calls, timers, and connections that open, fail and come back.
--
-- Conventions: bytes and UTF-16 units are natural numbers, text is a list of units. An int32 that
-- the runtime reads or writes is an integer, and its bytes are the two's complement pattern.
-- A method that throws keeps the state that it has reached. `Allocator` is Buffer.allocUnsafe: it
-- gives memory of the size asked for with any contents.
--
-- Fuel: Parser.push runs at most one round for each byte of its buffer, and one more; each round
-- that goes on takes five bytes at least. Writer.ensure doubles the capacity at most `need` times
-- and once more, which is enough from any capacity above 0.
-- parseArrayLiteral takes a unit at least in each round and for each nested array, so the length of
-- the text and one more are enough.
-- parseErrorFields moves on by two bytes at least in each round, so one round for each byte and one
-- more are enough. A loop whose search can leave the body is the value `loops`.
--
-- The loop of Cursor.all has one round for each batch and two more at most.
--
-- The cursor's pool and server are a parameter, `World`: what acquire and each query answer. Drain
-- assumes of it what PostgreSQL documents of FETCH.
--
-- The loop of processQueue recurses on the queue. What the socket's write answers, and which params
-- can be encoded, are parameters of the connection and of each request; a timer or a signal can fire
-- at any time.
--
-- The decoder of leaves of parseArrayLiteral is a parameter, and may throw. What the query for each
-- chunk answers, and which statements of a transaction the server takes, are parameters of the bulk
-- helpers.
--
-- Not modelled: of replication, the decoding of pgoutput, slots and snapshots; of the connection,
-- decoding, metrics, progress reports, authentication, the COPY pump, the SQL of the bulk helpers
-- and what the callback of a transaction runs; calls of the cursor that overlap, and the
-- rest of a fetch during which a guard fires;
-- in the pool, the backoff times (any sleep can end at any time), the text of error
-- messages, the listeners for 'release', and the methods that acquire, run and release. A connection
-- is a number, and what the pool reads of it (closed, in a transaction, draining) comes with the
-- event. Of src/protocol.ts, the number encoders of Writer.
pub mod Base
pub mod Buffer
pub mod Protocol
pub mod Errors
pub mod Arrays
pub mod Pool
pub mod Cursor
pub mod Connection
pub mod Replication
pub mod Tests
