-- ===== src/Connection/Dispatch.antt =====
-- The dispatcher of src/connection.ts: `processQueue` starts queued tasks as far as the pipeline, the
-- socket and the barriers allow, and writes the batch out; with it what happens when the socket is lost.
use minipg.Base.{
  ℕ, ◌+◌, ◌*◌, Bool, true, false, not, ◌&&◌, ◌||◌, Option, none, some, List, [], ◌∷◌, ◌++◌, ltb,
  leb, if◌then◌else◌, length,
}
use minipg.Connection.State.{
  Task, Error, encode_failed, retired, reconnect_failed, Command, terminate, reconnecting, closed,
  is_ready, is_closed, is_fatal_auth, Names, Conn, reject_task, reject_inflight, reject_queue,
}
use minipg.Connection.Serialize.{serialize}

abbrev pub flush_threshold : ℕ
flush_threshold = 64 * 1024

unfoldable pub solo : Task → Bool
solo t = t.stream || t.copy_source

-- `this.outbuf.mark()`.
unfoldable pub mark : (Command → ℕ) → List Command → ℕ
mark size [] = 0
mark size (k ∷ ks) = size k + mark size ks

-- Nothing new goes out while a cancel request is under way, and a stream or a COPY runs alone.
unfoldable pub can_start_next : Task → Conn → Bool
can_start_next next c = elim c.pending_cancel [
  | some p ↦ false
  | none ↦ elim c.inflight [ [] ↦ true | t ∷ ts ↦ if solo t then false else not (solo next) ]
]

-- What `write` of the socket returns: the coming answer, and those after it.
unfoldable pub answer : List Bool → Bool × List Bool
answer [] = (true, [])
answer (a ∷ rest) = (a, rest)

unfoldable pub write_out : Bool × List Bool → Conn → Conn
write_out (ok, rest) c = record c {
  sent = c.sent ++ c.outbuf;
  outbuf = [];
  answers = rest;
  flushes = c.flushes + 1;
  write_backed_up = c.write_backed_up || not ok;
}

-- Without a socket the batch is dropped.
unfoldable pub drop_batch : Conn → Conn
drop_batch c = record c { outbuf = []; flushes = c.flushes + 1 }

unfoldable pub flush_writes : Conn → Conn
flush_writes c = elim c.outbuf [
  | [] ↦ c
  | k ∷ ks ↦ if c.socket then write_out (answer c.answers) c else drop_batch c
]

unfoldable pub schedule_flush : Conn → Conn
schedule_flush c = record c { flush_scheduled = true }

abbrev larger : ℕ → ℕ → ℕ
larger a b = if ltb a b then b else a

-- A task that cannot be encoded is rejected, and none of its bytes stay in the batch.
unfoldable pub start_task : Task → Conn → Conn
start_task t c =
    let d = serialize t c.names in
    if d.thrown then reject_task t.id encode_failed (record c { names = d.names }) else record c {
      names = d.names;
      outbuf = c.outbuf ++ d.commands;
      inflight = c.inflight ++ (d.task ∷ []);
      max_inflight = larger c.max_inflight (length (c.inflight ++ (d.task ∷ [])));
    }

unfoldable pub flush_if_large : Conn → Conn
flush_if_large c = if leb flush_threshold (mark c.size c.outbuf) then flush_writes c else c

unfoldable pub may_start : Task → Conn → Bool
may_start t c =
    ltb (length c.inflight) c.pipeline_depth && (not c.write_backed_up && can_start_next t c)

-- The loop over the queue.
unfoldable pub dispatch : List Task → Conn → Conn
dispatch [] c = record c { queue = [] }
dispatch (t ∷ ts) c =
    if may_start t c
    then dispatch ts (flush_if_large (start_task t (record c { queue = ts })))
    else record c { queue = t ∷ ts }

unfoldable pub clear_pending_cancel : Conn → Conn
clear_pending_cancel c = record c { pending_cancel = none; is_retiring = false }

abbrev pub no_names : Names
no_names = record { prepared = []; stale = []; parse_inflight = [] }

unfoldable pub close_with : Error → Conn → Conn
close_with e c = reject_queue e (record c { status = closed; sleeping = false })

abbrev reached : Option ℕ → ℕ → Bool
reached none n = false
reached (some m) n = leb m n

-- The head of the reconnect loop, up to its sleep.
unfoldable pub next_attempt : Conn → Conn
next_attempt c =
    if c.ended
    then c
    else if is_closed c.status
    then c
    else if reached c.max_retries c.attempt
    then close_with reconnect_failed c
    else record c { sleeping = true }

-- What the code that awaits the attempt does with its failure: `connect` gives up, and the reconnect
-- loop goes on unless the error is one that no retry can fix.
unfoldable pub attempt_rejected : Error → Conn → Conn
attempt_rejected e c =
    if not c.ever_connected
    then close_with e c
    else if is_fatal_auth e
    then close_with e c
    else next_attempt (record c { attempt = c.attempt + 1 })

unfoldable pub fail_attempt : Error → Conn → Conn
fail_attempt e c =
    if c.is_connecting
    then attempt_rejected e (record c { is_connecting = false; socket = false })
    else c

-- A live connection has lost its socket: what is in flight is rejected, and never sent again.
unfoldable pub drop_inflight : Error → Conn → Conn
drop_inflight e c =
    let d = clear_pending_cancel c in
    reject_inflight e d.inflight (record d { socket = false; outbuf = []; inflight = [] })

unfoldable pub reconnect_or_close : Error → Conn → Conn
reconnect_or_close e c =
    if c.reconnects && not c.ended
    then next_attempt (record c { status = reconnecting; names = no_names; attempt = 0 })
    else close_with e c

unfoldable pub on_socket_down : Error → Conn → Conn
on_socket_down e c =
    if is_closed c.status
    then c
    else if c.is_connecting
    then fail_attempt e c
    else reconnect_or_close e (drop_inflight e c)

unfoldable pub retire : Conn → Conn
retire c = on_socket_down retired (record c { sent = c.sent ++ (terminate ∷ []) })

-- How `processQueue` ends.
unfoldable pub flush_or_schedule : Conn → Conn
flush_or_schedule c =
    if c.microtask && (ltb 1 c.pipeline_depth && ltb (mark c.size c.outbuf) flush_threshold)
    then schedule_flush c
    else flush_writes c

abbrev pub is_empty : List Task → Bool
is_empty [] = true
is_empty (t ∷ ts) = false

unfoldable pub process_queue : Conn → Conn
process_queue c =
    if not (is_ready c.status)
    then c
    else if c.is_retiring
    then (if is_empty c.inflight then retire c else c)
    else flush_or_schedule (dispatch c.queue c)
