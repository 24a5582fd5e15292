-- ===== src/Connection/Bounds/Finishing.antt =====
-- Cancellation and the end of a query keep to the bounds.
use minipg.Base.{
  ℕ, ◌+◌, ◌≤◌, ◌≡◌, refl, sym, subst, ◌∙◌, true, false, not, ◌&&◌, ◌||◌, none, some, List, [], ◌∷◌,
  ◌++◌, ◌==◌, if-split, option-split, list-split, has, length, All, arith,
}
use minipg.Connection.State.{TaskId, Task, Error, Conn, PendingCancel}
use minipg.Connection.Dispatch.{solo, clear_pending_cancel}
use minipg.Connection.Cancel.{
  find_task, mark_settled, take_out, is_head, first_id, send_cancel_request, cancel_running,
  cancel_task, resolve_canceled_head, end_canceled_head, note_suspects, arm_timer, update_cancel,
  cancel_confirmed, cancel_failed, drain_expired, check_late_cancel, is_current, is_stopped,
  marks_late,
}
use minipg.Connection.Finish.{
  late_check, with_late, cancel_check, may_retry, outcome, settle_finished, retry, retry_or_settle,
  update_names, finish_head, finish_task, invalidate, is_invalidated,
}
use minipg.Connection.Bounds.Load.{has_solo, Once, Fits, settle-Fits, reject_task-Fits, All-append}
use minipg.Connection.Bounds.Dispatching.{process_queue-Fits}

length-mark_settled : (x : TaskId) (ts : List Task) → length (mark_settled x ts) ≡ length ts
unfolding mark_settled
length-mark_settled x [] = refl
length-mark_settled x (t ∷ ts) = ground (arith, length-mark_settled x ts)

has_solo-mark_settled : (x : TaskId) (ts : List Task) → has_solo (mark_settled x ts) ≡ has_solo ts
unfolding mark_settled has_solo solo
has_solo-mark_settled x [] = refl
has_solo-mark_settled x (t ∷ ts) = ground (arith, has_solo-mark_settled x ts)

All-mark_settled : (x : TaskId) (ts : List Task) → All Once ts → All Once (mark_settled x ts)
unfolding mark_settled
All-mark_settled x [] h = h
All-mark_settled x (t ∷ ts) h =
    if-split (All Once) (t.id == x) (λ k. h) (λ k. (h.0, All-mark_settled x ts h.1))

All-take_out : (x : TaskId) (ts : List Task) → All Once ts → All Once (take_out x ts)
unfolding take_out
All-take_out x [] h = h
All-take_out x (t ∷ ts) h =
    if-split (All Once) (t.id == x) (λ k. h.1) (λ k. (h.0, All-take_out x ts h.1))

marked-Fits :
    (x : TaskId) (c : Conn) → Fits c → Fits (record c { inflight = mark_settled x c.inflight })
marked-Fits x c h = record {
  at = record {
    deep = omega (arith, length-mark_settled x c.inflight, h.at.deep);
    alone = λ k. omega (
      arith,
      length-mark_settled x c.inflight,
      h.at.alone (sym (has_solo-mark_settled x c.inflight) ∙ k),
    );
    once_queue = h.at.once_queue;
    once = All-mark_settled x c.inflight h.at.once;
  };
}

taken-Fits : (x : TaskId) (c : Conn) → Fits c → Fits (record c { queue = take_out x c.queue })
taken-Fits x c h = record {
  at = record {
    deep = h.at.deep;
    alone = h.at.alone;
    once_queue = All-take_out x c.queue h.at.once_queue;
    once = h.at.once;
  };
}

running-Fits : (t : Task) (c : Conn) → Fits c → Fits (cancel_running t c)
unfolding cancel_running send_cancel_request
running-Fits t c h =
    if-split Fits (is_head t.id (first_id c.inflight))
      (λ k.
        if-split Fits t.copy_source (λ l. h)
          (λ l. if-split Fits (c.has_key && c.can_cancel) (λ m. record { at = h.at }) (λ m. h)))
      (λ k. h)

pub cancel_task-Fits : (x : TaskId) (e : Error) (c : Conn) → Fits c → Fits (cancel_task x e c)
unfolding cancel_task
cancel_task-Fits x e c h =
    option-split Fits (find_task x c.inflight) (λ f. reject_task-Fits x e _ (taken-Fits x c h))
      (λ t f.
        if-split Fits t.settled (λ s. h)
          (λ s. running-Fits t _ (reject_task-Fits x e _ (marked-Fits x c h))))

resolve-Fits : (p : PendingCancel) (c : Conn) → Fits c → Fits (resolve_canceled_head p c)
unfolding resolve_canceled_head clear_pending_cancel
resolve-Fits p c h =
    if-split Fits c.is_retiring (λ k. h)
      (λ k.
        if-split Fits (p.has_failed || (p.is_confirmed && c.is_behind_pooler))
          (λ l. process_queue-Fits (record c { is_retiring = true }) (record { at = h.at }))
          (λ l.
            if-split Fits p.is_confirmed
              (λ m.
                process_queue-Fits (record c { pending_cancel = none; is_retiring = false })
                  (record { at = h.at }))
              (λ m. h)))

noted-Fits : (t : Task) (p : PendingCancel) (c : Conn) → Fits c → Fits (note_suspects t p c)
unfolding note_suspects
noted-Fits t p c h =
    list-split Fits c.inflight (λ e. h)
      (λ u us e. if-split Fits (is_stopped t) (λ k. h) (λ k. record { at = h.at }))

armed-Fits : (p : PendingCancel) (c : Conn) → Fits c → Fits (arm_timer p c)
unfolding arm_timer
armed-Fits p c h =
    if-split Fits (is_current p.number c.pending_cancel && not c.is_retiring)
      (λ k. record { at = h.at }) (λ k. h)

end_canceled_head-Fits :
    (t : Task) (p : PendingCancel) (c : Conn) → Fits c → Fits (end_canceled_head t p c)
unfolding end_canceled_head clear_pending_cancel
end_canceled_head-Fits t p c h =
    let d = note_suspects t p (record c { pending_cancel = some p }) in
    let k = noted-Fits t p (record c { pending_cancel = some p }) (record { at = h.at }) in
    if-split Fits d.is_retiring (λ l. k)
      (λ l.
        if-split Fits (is_stopped t) (λ m. record { at = k.at })
          (λ m. armed-Fits p (resolve_canceled_head p d) (resolve-Fits p d k)))

updated-Fits : (p : PendingCancel) (c : Conn) → Fits c → Fits (update_cancel p c)
unfolding update_cancel
updated-Fits p c h =
    option-split Fits p.head
      (λ k. resolve-Fits p (record c { pending_cancel = some p }) (record { at = h.at }))
      (λ x k. record { at = h.at })

pub cancel_confirmed-Fits : (n : ℕ) (c : Conn) → Fits c → Fits (cancel_confirmed n c)
unfolding cancel_confirmed
cancel_confirmed-Fits n c h =
    option-split Fits c.pending_cancel (λ e. h)
      (λ p e.
        if-split Fits (p.number == n) (λ k. updated-Fits (record p { is_confirmed = true }) c h)
          (λ k. h))

pub cancel_failed-Fits : (n : ℕ) (c : Conn) → Fits c → Fits (cancel_failed n c)
unfolding cancel_failed
cancel_failed-Fits n c h =
    option-split Fits c.pending_cancel (λ e. h)
      (λ p e.
        if-split Fits (p.number == n) (λ k. updated-Fits (record p { has_failed = true }) c h)
          (λ k. h))

pub drain_expired-Fits : (n : ℕ) (c : Conn) → Fits c → Fits (drain_expired n c)
unfolding drain_expired
drain_expired-Fits n c h =
    option-split Fits c.pending_cancel (λ e. h)
      (λ p e.
        if-split Fits (p.number == n && p.timer)
          (λ k. process_queue-Fits (record c { is_retiring = true }) (record { at = h.at }))
          (λ k. h))

late_check-Fits : (t : Task) (c : Conn) → Fits c → Fits (late_check t c)
unfolding late_check check_late_cancel clear_pending_cancel
late_check-Fits t c h =
    option-split Fits c.late_cancel (λ e. h)
      (λ l e.
        if-split Fits (has l.suspects t.id)
          (λ k.
            if-split Fits (marks_late t)
              (λ m.
                if-split Fits (is_current l.pending_number c.pending_cancel && not c.is_retiring)
                  (λ n. record { at = h.at }) (λ n. record { at = h.at }))
              (λ m. record { at = h.at }))
          (λ k. h))

cancel_check-Fits : (t : Task) (c : Conn) → Fits c → Fits (cancel_check t c)
unfolding cancel_check
cancel_check-Fits t c h =
    option-split Fits c.pending_cancel (λ e. h)
      (λ p e.
        if-split Fits (is_head t.id p.head)
          (λ k. end_canceled_head-Fits t (record p { head = none }) c h) (λ k. h))

settle_finished-Fits : (t : Task) (c : Conn) → Fits c → Fits (settle_finished t c)
unfolding settle_finished
settle_finished-Fits t c h =
    process_queue-Fits _ (if-split Fits t.settled (λ k. h) (λ k. settle-Fits t.id (outcome t) c h))

pub pushed-Fits :
    (t : Task) (c : Conn) → Once t → Fits c → Fits (record c { queue = c.queue ++ (t ∷ []) })
pushed-Fits t c o h = record {
  at = record {
    deep = h.at.deep;
    alone = h.at.alone;
    once_queue = All-append Once c.queue (t ∷ []) h.at.once_queue (o, tt);
    once = h.at.once;
  };
}

-- A task that may be retried has not been before.
may_retry-once : (t : Task) (c : Conn) → may_retry t c ≡ true → t.retries + 1 ≤ 1
unfolding may_retry
may_retry-once t c m = ground arith

retry_or_settle-Fits : (t : Task) (c : Conn) → Fits c → Fits (retry_or_settle t c)
unfolding retry_or_settle retry may_retry
retry_or_settle-Fits t c h =
    option-split Fits t.name (λ e. settle_finished-Fits t c h)
      (λ n e.
        let d = record c { names = invalidate n c.names } in
        if-split Fits (is_invalidated t)
          (λ k.
            if-split Fits (may_retry t c)
              (λ m.
                process_queue-Fits _
                  (pushed-Fits _ d (may_retry-once t c m) (record { at = h.at })))
              (λ m. settle_finished-Fits t d (record { at = h.at })))
          (λ k. settle_finished-Fits t c h))

shifted-Fits :
    (t : Task) (ts : List Task) (c : Conn)
    → c.inflight ≡ t ∷ ts
    → Fits c
    → Fits (record c { inflight = ts })
unfolding has_solo
shifted-Fits t ts c e h = record {
  at = record {
    deep = ground (arith, h.at.deep);
    alone = λ k. ground (arith, h.at.alone);
    once_queue = h.at.once_queue;
    once = (subst (All Once) e h.at.once).1;
  };
}

pub finish_task-Fits : (c : Conn) → Fits c → Fits (finish_task c)
unfolding finish_task finish_head update_names
finish_task-Fits c h =
    list-split Fits c.inflight (λ e. process_queue-Fits c h)
      (λ t ts e.
        let d = record c { inflight = ts } in
        let u = with_late t c.late_cancel in
        let k =
          cancel_check-Fits u (late_check t d) (late_check-Fits t d (shifted-Fits t ts c e h)) in
        retry_or_settle-Fits u (update_names u (cancel_check u (late_check t d)))
          (record { at = k.at }))
