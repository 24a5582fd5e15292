-- ===== src/Connection/Finish.antt =====
-- `finishTask` of src/connection.ts: the head's ReadyForQuery has arrived.
use minipg.Base.{
  ◌+◌, Bool, true, false, not, ◌&&◌, ◌||◌, Option, none, some, [], ◌∷◌, ◌++◌, ltb, if◌then◌else◌,
  has,
}
use minipg.Buffer.{Text}
use minipg.Connection.State.{
  Task, Error, pg, code_of, is_code, cached_plan_changed, no_such_statement, Outcome, resolved,
  stream_ended, failed, Names, LateCancel, Conn, settle, same,
}
use minipg.Connection.Serialize.{find, delete, add, parse_key}
use minipg.Connection.Dispatch.{process_queue}
use minipg.Connection.Cancel.{is_head, end_canceled_head, mark_late, check_late_cancel}

abbrev is_defined : Option Text → Bool
is_defined none = false
is_defined (some s) = true

abbrev has_error : Option Error → Bool
has_error none = false
has_error (some e) = true

unfoldable pub is_suspect : Task → Option LateCancel → Bool
is_suspect t none = false
is_suspect t (some l) = has l.suspects t.id

unfoldable pub late_check : Task → Conn → Conn
late_check t c = elim c.late_cancel [
  | none ↦ c
  | some l ↦ if has l.suspects t.id then check_late_cancel t l c else c
]

unfoldable pub with_late : Task → Option LateCancel → Task
with_late t l = if is_suspect t l then mark_late t else t

unfoldable pub cancel_check : Task → Conn → Conn
cancel_check t c = elim c.pending_cancel [
  | none ↦ c
  | some p ↦ if is_head t.id p.head then end_canceled_head t (record p { head = none }) c else c
]

-- The task wrote a Parse, and its cycle failed before the answer to Describe was cached.
unfoldable pub flag_stale : Text → Task → Names → Names
flag_stale n t ns = elim (find n ns.parse_inflight) [
  | none ↦ record ns { stale = add n ns.stale }
  | some k ↦
      if same k (parse_key t.sql t.param_types)
      then (record ns { parse_inflight = delete n ns.parse_inflight; stale = add n ns.stale })
      else record ns { stale = add n ns.stale }
]

unfoldable pub uncached : Task → Names → Names
uncached t ns = elim t.cache_name [
  | none ↦ ns
  | some n ↦
      if has_error t.error && not (is_defined (find n ns.prepared)) then flag_stale n t ns else ns
]

-- The statement was invalidated by DDL, or is not on this backend.
unfoldable pub is_invalidated : Task → Bool
is_invalidated t =
    is_code cached_plan_changed (code_of t.error) || is_code no_such_statement (code_of t.error)

unfoldable pub invalidate : Text → Names → Names
invalidate n ns = record ns { prepared = delete n ns.prepared; stale = add n ns.stale }

unfoldable pub may_retry : Task → Conn → Bool
may_retry t c =
    not t.settled
    && (not t.stream && (not t.typed && (not t.wire && (not c.in_transaction && ltb t.retries 1))))

-- In wire mode the server's error is part of the data.
unfoldable pub error_outcome : Task → Error → Outcome
error_outcome t (pg code l) = if t.wire then resolved else failed (pg code l)
error_outcome t e = failed e

unfoldable pub outcome : Task → Outcome
outcome t = elim t.error [
  | none ↦ if t.wire then resolved else (if t.stream then stream_ended else resolved)
  | some e ↦ error_outcome t e
]

unfoldable pub settle_finished : Task → Conn → Conn
settle_finished t c = process_queue (if t.settled then c else settle t.id (outcome t) c)

-- Run again once, at the back of the queue.
unfoldable pub retry : Task → Conn → Conn
retry t c = process_queue (record c {
  queue = c.queue ++ ((record t { error = none; retries = t.retries + 1; reused = false }) ∷ []);
})

unfoldable pub retry_or_settle : Task → Conn → Conn
retry_or_settle t c = elim t.name [
  | none ↦ settle_finished t c
  | some n ↦
      if is_invalidated t
      then (if may_retry t c
          then retry t (record c { names = invalidate n c.names })
          else settle_finished t (record c { names = invalidate n c.names }))
      else settle_finished t c
]

unfoldable pub update_names : Task → Conn → Conn
update_names t c = record c { names = uncached t c.names }

unfoldable pub finish_head : Task → Conn → Conn
finish_head t c =
    let u = with_late t c.late_cancel in
    retry_or_settle u (update_names u (cancel_check u (late_check t c)))

unfoldable pub finish_task : Conn → Conn
finish_task c = elim c.inflight [
  | [] ↦ process_queue c
  | t ∷ ts ↦ finish_head t (record c { inflight = ts })
]
