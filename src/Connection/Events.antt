-- ===== src/Connection/Events.antt =====
-- The connection as a machine: one step for each call from outside, each message of the server that the
-- queue depends on, and each asynchronous event.
use minipg.Base.{
  ℕ, ◌+◌, Bool, true, false, not, ◌&&◌, ◌||◌, Option, none, some, List, [], ◌∷◌, ◌++◌,
  if◌then◌else◌,
}
use minipg.Buffer.{Text}
use minipg.Connection.State.{
  TaskId, Task, Error, copy_discarded, query_aborted, ended_by_call, already_closed, terminate,
  connecting, ready, reconnecting, closed, is_closed, Names, Conn, reject_task, reject_inflight,
  reject_unsettled,
}
use minipg.Connection.Serialize.{insert, delete}
use minipg.Connection.Dispatch.{
  clear_pending_cancel, fail_attempt, flush_writes, on_socket_down, process_queue,
}
use minipg.Connection.Cancel.{cancel_task, cancel_confirmed, cancel_failed, drain_expired}
use minipg.Connection.Finish.{finish_task}

-- What the caller of query, stream, copyFrom or copyTo asks for. An empty name counts as none, since
-- the code tests it for truth.
pub record Request : Type 0 where
  pub name : Option Text
  pub sql : Text
  pub param_types : List ℕ
  pub stream : Bool
  pub copy_source : Bool
  pub copy_out : Bool
  pub wire : Bool
  pub typed : Bool
  pub is_array : Bool
  pub writes_sql : Bool
  pub writes_bind : Bool
  -- Its AbortSignal has fired before the call.
  pub aborted : Bool

abbrev truthy : Option Text → Option Text
truthy none = none
truthy (some []) = none
truthy (some (x ∷ xs)) = some (x ∷ xs)

-- `query` drops the name when prepared statements are off; `stream` keeps it.
unfoldable pub task_of : Bool → TaskId → Request → Task
task_of prepare x r = record {
  id = x;
  name = if prepare || r.stream then truthy r.name else none;
  sql = r.sql;
  param_types = r.param_types;
  stream = r.stream;
  copy_source = r.copy_source;
  copy_out = r.copy_out;
  wire = r.wire;
  typed = r.typed;
  is_array = r.is_array;
  writes_sql = r.writes_sql;
  writes_bind = r.writes_bind;
  settled = false;
  error = none;
  retries = 0;
  cache_name = none;
  reused = false;
}

-- A call makes a promise, and the task is queued unless it settles at once.
unfoldable pub promise : Conn → Conn
promise c = record c { pending = c.next_task ∷ c.pending; next_task = c.next_task + 1 }

unfoldable pub enqueue : Task → Conn → Conn
enqueue t c = process_queue (record c { queue = c.queue ++ (t ∷ []) })

unfoldable pub query : Request → Conn → Conn
query r c =
    if is_closed c.status
    then reject_task c.next_task already_closed (promise c)
    else if r.aborted
    then reject_task c.next_task query_aborted (promise c)
    else enqueue (task_of c.prepare c.next_task r) (promise c)

unfoldable pub establish : Conn → Conn
establish c = record c {
  is_connecting = true;
  status = if c.ever_connected then reconnecting else connecting;
}

-- A second call returns the promise of the first.
unfoldable pub connect : Conn → Conn
connect c = if c.connect_called then c else establish (record c { connect_called = true })

-- The transport has connected. A socket that comes after the attempt was given up is destroyed.
unfoldable pub transport_connected : Conn → Conn
transport_connected c =
    if c.is_connecting then (record c { socket = true; write_backed_up = false }) else c

-- `close` of the socket: of the one that the connection has, or of one that it has dropped before. The
-- handlers of a write that was held back clear its flag.
unfoldable pub socket_closed : Error → Conn → Conn
socket_closed e c = record (if c.socket then on_socket_down e c else c) { write_backed_up = false }

-- The backoff of the reconnect loop is over.
unfoldable pub backoff_over : Conn → Conn
backoff_over c =
    if c.sleeping
    then (if c.ended || is_closed c.status
        then record c { sleeping = false }
        else establish (record c { sleeping = false }))
    else c

-- ReadyForQuery.
unfoldable pub ready_for_query : Bool → Conn → Conn
ready_for_query in_tx c =
    if c.is_connecting
    then process_queue (record c {
      in_transaction = in_tx;
      is_connecting = false;
      ever_connected = true;
      status = ready;
    })
    else finish_task (record c { in_transaction = in_tx })

abbrev pub on_head : (Task → Task) → List Task → List Task
on_head f [] = []
on_head f (t ∷ ts) = f t ∷ ts

-- The head's error, which the server or the decoding of a row gives it.
unfoldable pub with_error : Error → Task → Task
with_error e t = record t { error = some e }

unfoldable pub head_failed : Error → Conn → Conn
head_failed e c = record c { inflight = on_head (with_error e) c.inflight }

unfoldable pub error_response : Error → Conn → Conn
error_response e c = if c.is_connecting then fail_attempt e c else head_failed e c

abbrev pub has_no_error : Option Error → Bool
has_no_error none = true
has_no_error (some e) = false

-- CopyOutResponse: a plain query would drop the payload.
unfoldable pub with_copy_out : Task → Task
with_copy_out t = if not t.copy_out && has_no_error t.error then with_error copy_discarded t else t

unfoldable pub copy_out_response : Conn → Conn
copy_out_response c = record c { inflight = on_head with_copy_out c.inflight }

unfoldable pub cache_statement : Task → Names → Names
cache_statement t ns = elim t.cache_name [
  | none ↦ ns
  | some n ↦ record ns {
    prepared = insert n t.sql ns.prepared;
    parse_inflight = delete n ns.parse_inflight;
  }
]

-- RowDescription or NoData.
unfoldable pub described : Conn → Conn
described c = elim c.inflight [ [] ↦ c | t ∷ ts ↦ record c { names = cache_statement t c.names } ]

-- The socket can take more.
unfoldable pub drained : Conn → Conn
drained c = if c.write_backed_up then process_queue (record c { write_backed_up = false }) else c

-- The deferred flush.
unfoldable pub microtask_runs : Conn → Conn
microtask_runs c =
    if c.flush_scheduled then flush_writes (record c { flush_scheduled = false }) else c

unfoldable pub settle_pending : Error → Conn → Conn
settle_pending e c =
    let d = reject_inflight e c.inflight (record c {
      outbuf = [];
      inflight = [];
      late_cancel = none;
      names = record c.names { parse_inflight = [] };
    }) in
    reject_unsettled e d.queue (record d { queue = [] })

unfoldable pub end : Conn → Conn
end c =
    if is_closed c.status
    then c
    else clear_pending_cancel (
        settle_pending ended_by_call (record c {
          ended = true;
          sent = c.sent ++ (terminate ∷ []);
          status = closed;
          is_connecting = false;
        }))

pub data Event : Type 0 where
  queries : Request → Event
  cancels : TaskId → Error → Event
  connects ends : Event
  connected : Event
  attempt_fails socket_fails : Error → Event
  backoff_ends : Event
  readies : Bool → Event
  errors : Error → Event
  copies_out describes drains flushes : Event
  keyed : Event
  cancel_confirms cancel_fails drain_expires : ℕ → Event

unfoldable pub step : Event → Conn → Conn
step (queries r) c = query r c
step (cancels x e) c = cancel_task x e c
step connects c = connect c
step ends c = end c
step connected c = transport_connected c
step (attempt_fails e) c = fail_attempt e c
step (socket_fails e) c = socket_closed e c
step backoff_ends c = backoff_over c
step (readies in_tx) c = ready_for_query in_tx c
step (errors e) c = error_response e c
step copies_out c = copy_out_response c
step describes c = described c
step drains c = drained c
step flushes c = microtask_runs c
step keyed c = record c { has_key = true }
step (cancel_confirms n) c = cancel_confirmed n c
step (cancel_fails n) c = cancel_failed n c
step (drain_expires n) c = drain_expired n c

unfoldable pub run : List Event → Conn → Conn
run [] c = c
run (e ∷ es) c = run es (step e c)
