-- ===== src/Connection/Cancel.antt =====
-- Cancellation in src/connection.ts: a caller that gives up on its task, the out-of-band cancel request
-- for the head of the pipeline, and how the connection becomes safe to use again.
use minipg.Base.{
  ℕ, ◌+◌, Bool, true, false, not, ◌&&◌, ◌||◌, Option, none, some, List, [], ◌∷◌, ◌==◌,
  if◌then◌else◌, remove,
}
use minipg.Connection.State.{
  TaskId, Task, Error, pg, code_of, is_code, query_canceled, cancel_requested, PendingCancel,
  LateCancel, Conn, reject_task, ids,
}
use minipg.Connection.Dispatch.{clear_pending_cancel, process_queue}

unfoldable pub find_task : TaskId → List Task → Option Task
find_task x [] = none
find_task x (t ∷ ts) = if t.id == x then some t else find_task x ts

unfoldable pub mark_settled : TaskId → List Task → List Task
mark_settled x [] = []
mark_settled x (t ∷ ts) =
    if t.id == x then (record t { settled = true }) ∷ ts else t ∷ mark_settled x ts

unfoldable pub take_out : TaskId → List Task → List Task
take_out x [] = []
take_out x (t ∷ ts) = if t.id == x then ts else t ∷ take_out x ts

unfoldable pub is_head : TaskId → Option TaskId → Bool
is_head x none = false
is_head x (some y) = y == x

unfoldable pub canceled_head : Option PendingCancel → Option TaskId
canceled_head none = none
canceled_head (some p) = p.head

abbrev pub first_id : List Task → Option TaskId
first_id [] = none
first_id (t ∷ ts) = some t.id

abbrev pub is_some : Option PendingCancel → Bool
is_some none = false
is_some (some p) = true

-- Two requests in flight cannot be told apart, so the connection is not used after the second one.
unfoldable pub send_cancel_request : TaskId → Conn → Conn
send_cancel_request x c =
    if c.has_key && c.can_cancel
    then (record c {
      is_retiring = c.is_retiring || is_some c.pending_cancel;
      pending_cancel = some (record {
        number = c.next_cancel;
        head = some x;
        is_confirmed = false;
        has_failed = false;
        timer = false;
      });
      next_cancel = c.next_cancel + 1;
      log = cancel_requested x ∷ c.log;
    })
    else c

-- The head's COPY FROM STDIN is ended by CopyFail, not by a cancel request.
unfoldable pub cancel_running : Task → Conn → Conn
cancel_running t c =
    if is_head t.id (first_id c.inflight)
    then (if t.copy_source then c else send_cancel_request t.id c)
    else c

-- A task that is in flight stays there with its result discarded, a queued one leaves the queue.
unfoldable pub cancel_task : TaskId → Error → Conn → Conn
cancel_task x e c = elim (find_task x c.inflight) [
  | none ↦ reject_task x e (record c { queue = take_out x c.queue })
  | some t ↦
      if t.settled
      then c
      else cancel_running t (reject_task x e (record c { inflight = mark_settled x c.inflight }))
]

unfoldable pub resolve_canceled_head : PendingCancel → Conn → Conn
resolve_canceled_head p c =
    if c.is_retiring
    then c
    else if p.has_failed || (p.is_confirmed && c.is_behind_pooler)
    then process_queue (record c { is_retiring = true })
    else if p.is_confirmed
    then process_queue (clear_pending_cancel c)
    else c

-- `this.pendingCancel === pending`.
unfoldable pub is_current : ℕ → Option PendingCancel → Bool
is_current n none = false
is_current n (some p) = p.number == n

unfoldable pub is_stopped : Task → Bool
is_stopped t = is_code query_canceled (code_of t.error)

unfoldable pub note_suspects : Task → PendingCancel → Conn → Conn
note_suspects t p c = elim c.inflight [
  | [] ↦ c
  | u ∷ us ↦ if is_stopped t then c else record c {
    late_cancel = some (record { pending_number = p.number; suspects = ids c.inflight });
  }
]

unfoldable pub arm_timer : PendingCancel → Conn → Conn
arm_timer p c =
    if is_current p.number c.pending_cancel && not c.is_retiring
    then (record c { pending_cancel = some (record p { timer = true }) })
    else c

-- The canceled head ended; p is the request with no head.
unfoldable pub end_canceled_head : Task → PendingCancel → Conn → Conn
end_canceled_head t p c =
    let d = note_suspects t p (record c { pending_cancel = some p }) in
    if d.is_retiring
    then d
    else if is_stopped t
    then clear_pending_cancel d
    else arm_timer p (resolve_canceled_head p d)

-- The `.then` of the cancel request: only of the one that is current and whose head has ended.
unfoldable pub update_cancel : PendingCancel → Conn → Conn
update_cancel p c = elim p.head [
  | none ↦ resolve_canceled_head p (record c { pending_cancel = some p })
  | some x ↦ record c { pending_cancel = some p }
]

unfoldable pub cancel_confirmed : ℕ → Conn → Conn
cancel_confirmed n c = elim c.pending_cancel [
  | none ↦ c
  | some p ↦ if p.number == n then update_cancel (record p { is_confirmed = true }) c else c
]

unfoldable pub cancel_failed : ℕ → Conn → Conn
cancel_failed n c = elim c.pending_cancel [
  | none ↦ c
  | some p ↦ if p.number == n then update_cancel (record p { has_failed = true }) c else c
]

-- The timer of `endCanceledHead`.
unfoldable pub drain_expired : ℕ → Conn → Conn
drain_expired n c = elim c.pending_cancel [
  | none ↦ c
  | some p ↦ if p.number == n && p.timer then process_queue (record c { is_retiring = true }) else c
]

abbrev late : Option Error → Option Error
late (some (pg code l)) = some (pg code true)
late e = e

-- A cancel request stops at most one query, so only the first 57014 among the suspects is marked.
unfoldable pub marks_late : Task → Bool
marks_late t = is_stopped t && not t.settled

unfoldable pub mark_late : Task → Task
mark_late t = if marks_late t then (record t { error = late t.error }) else t

abbrev no_suspects : LateCancel → Option LateCancel
no_suspects l = elim l.suspects [ [] ↦ none | x ∷ xs ↦ some l ]

unfoldable pub check_late_cancel : Task → LateCancel → Conn → Conn
check_late_cancel t l c =
    if marks_late t
    then (if is_current l.pending_number c.pending_cancel && not c.is_retiring
        then clear_pending_cancel (record c { late_cancel = none })
        else record c { late_cancel = none })
    else record c { late_cancel = no_suspects (record l { suspects = remove t.id l.suspects }) }
