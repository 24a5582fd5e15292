-- ===== src/Tests/Connection.antt =====
-- src/connection.ts: sample runs, and the theorems on them.
use minipg.Base.{
  ◌+◌, ◌≤◌, ◌≡◌, refl, true, false, if◌then◌else◌, Option, List, [], ◌∷◌, ◌++◌, none, some, length,
  count, All, has, remove, arith,
}
use minipg.Buffer.{Text}
use minipg.Connection.State.{
  query_timeout, parse, describe, bind, execute, sync, close_statement, Config, Conn, Task,
  PendingCancel, init, is_closed, is_ready, same, settle, reject_task, reject_inflight,
  reject_unsettled,
}
use minipg.Connection.Serialize.{
  find, delete, insert, mem, discard, join, parse_key, write, look_up, close_stale, write_parse,
  parse_unless_in_flight, describe_named, write_named, describe_unnamed, record_parse, write_bind,
  write_extended, draft, serialize, forget_parse, forget_stale, forget_prepared,
}
use minipg.Connection.Dispatch.{
  solo, mark, can_start_next, answer, write_out, flush_writes, start_task, flush_if_large,
  may_start, dispatch, flush_or_schedule, process_queue, clear_pending_cancel,
}
use minipg.Connection.Cancel.{
  find_task, mark_settled, is_head, send_cancel_request, cancel_running, cancel_task,
}
use minipg.Connection.Events.{
  Request, Event, queries, cancels, connects, connected, readies, describes, ends, keyed, run, step,
  query, task_of, promise, enqueue, establish, connect, transport_connected, ready_for_query,
  described, cache_statement, settle_pending, end,
}
use minipg.Connection.Held.View.{total, unsettled}
use minipg.Connection.Held.Steps.{pending-run, closed-run}
use minipg.Connection.Bounds.Load.{has_solo, Once}
use minipg.Connection.Bounds.Steps.{inflight-run}
use minipg.Connection.Order.{Orders, dispatch-Orders}
use minipg.Connection.Order.Progress.{process_queue-idle, process_queue-paused}

abbrev settings : Config
settings = record {
  pipeline_depth = 2;
  microtask = false;
  prepare = true;
  reconnects = false;
  max_retries = none;
  can_cancel = true;
  is_behind_pooler = false;
  size = λ k. 1;
}

abbrev request : Option Text → Text → Request
request n s = record {
  name = n;
  sql = s;
  param_types = [];
  stream = false;
  copy_source = false;
  copy_out = false;
  wire = false;
  typed = false;
  is_array = true;
  writes_sql = true;
  writes_bind = true;
  aborted = false;
}

abbrev plain : Request
plain = request none (b'a' ∷ [])

abbrev up : List Event
up = connects ∷ connected ∷ keyed ∷ readies false ∷ []

-- Three queries on a pipeline of two; the first gives up.
abbrev burst : List Event
burst = up ++ (queries plain ∷ queries plain ∷ queries plain ∷ cancels 0 query_timeout ∷ [])

abbrev busy : Conn
busy = run burst (init settings [])

pending-run_example :
    (count 2 busy.pending ≡ unsettled 2 busy.queue + unsettled 2 busy.inflight)
    × (total 2 busy.queue + total 2 busy.inflight ≤ 1)
pending-run_example = pending-run settings [] burst 2

inflight-run_example :
    (length busy.inflight ≤ busy.pipeline_depth)
    × ((length busy.inflight ≤ (if has_solo busy.inflight then 1 else busy.pipeline_depth))
        × All Once busy.inflight)
inflight-run_example = inflight-run settings [] burst

abbrev over : Conn
over = run (burst ++ (ends ∷ [])) (init settings [])

closed-run_example : over.pending ≡ []
unfolding run step query task_of promise enqueue establish connect transport_connected
    ready_for_query settle_pending end init is_closed is_ready process_queue dispatch may_start
    can_start_next start_task serialize draft write write_extended write_parse describe_unnamed
    write_bind record_parse flush_if_large flush_writes write_out answer flush_or_schedule mark solo
    cancel_task cancel_running find_task mark_settled is_head send_cancel_request reject_task settle
    reject_inflight reject_unsettled has remove clear_pending_cancel
closed-run_example = closed-run settings [] (burst ++ (ends ∷ [])) refl

-- The first of two waiting queries cannot be written: it is left out, and the other starts.
abbrev unwritable : Task
unwritable = record (task_of true 7 plain) { writes_sql = false }

abbrev writable : Task
writable = task_of true 8 plain

abbrev at_rest : Conn
at_rest = run up (init settings [])

dispatch-Orders_example :
    Orders (unwritable ∷ writable ∷ []) at_rest (dispatch (unwritable ∷ writable ∷ []) at_rest)
dispatch-Orders_example = dispatch-Orders (unwritable ∷ writable ∷ []) at_rest

-- A queue of one task, which cannot be serialized.
abbrev one_unwritable : Conn
one_unwritable = record at_rest { queue = unwritable ∷ [] }

process_queue-idle_example : (process_queue one_unwritable).queue ≡ []
unfolding run step establish connect transport_connected ready_for_query init is_ready process_queue
    dispatch may_start can_start_next start_task serialize draft write write_extended write_parse
    describe_unnamed write_bind record_parse flush_if_large flush_writes write_out flush_or_schedule
    mark reject_task settle has remove task_of
process_queue-idle_example =
    process_queue-idle one_unwritable refl refl refl (omega arith) refl refl

abbrev first_cancel : PendingCancel
first_cancel = record {
  number = 0;
  head = some 0;
  is_confirmed = false;
  has_failed = false;
  timer = false;
}

process_queue-paused_example :
    ((process_queue busy).inflight ≡ busy.inflight) × ((process_queue busy).queue ≡ busy.queue)
unfolding run step query task_of promise enqueue establish connect transport_connected
    ready_for_query init is_closed is_ready process_queue dispatch may_start can_start_next
    start_task serialize draft write write_extended write_parse describe_unnamed write_bind
    record_parse flush_if_large flush_writes write_out answer flush_or_schedule mark solo
    cancel_task cancel_running find_task mark_settled is_head send_cancel_request reject_task settle
    has remove
process_queue-paused_example = process_queue-paused busy first_cancel refl refl

-- Two texts under one name, pipelined: the answer to the first Describe arrives when the server has
-- the second text under that name, and the third query, which has the first text, is bound to it.
abbrev n : Text
n = b'n' ∷ []

abbrev race : List Event
race =
    up
    ++ (queries (request (some n) (b'a' ∷ []))
        ∷ queries (request (some n) (b'b' ∷ []))
        ∷ describes
        ∷ queries (request (some n) (b'a' ∷ []))
        ∷ [])

race_sent :
    (run race (init (record settings { pipeline_depth = 3 }) [])).sent
    ≡ parse n (b'a' ∷ []) []
      ∷ describe n
      ∷ bind n 0
      ∷ execute
      ∷ sync
      ∷ close_statement n
      ∷ parse n (b'b' ∷ []) []
      ∷ describe n
      ∷ bind n 1
      ∷ execute
      ∷ sync
      ∷ bind n 2
      ∷ execute
      ∷ sync
      ∷ []
unfolding run step query task_of promise enqueue establish connect transport_connected
    ready_for_query init is_closed is_ready process_queue dispatch may_start can_start_next
    start_task serialize draft write write_extended look_up write_named close_stale
    parse_unless_in_flight describe_named forget_parse forget_prepared forget_stale write_parse
    write_bind record_parse flush_if_large flush_writes write_out answer flush_or_schedule mark solo
    described cache_statement find delete insert mem discard same parse_key join
race_sent = refl
