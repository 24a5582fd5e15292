-- ===== src/Connection/Held/Finishing.antt =====
-- Every promise keeps its task, or is settled, when a query ends.
use minipg.Base.{
  ◌≡◌, refl, ◌∙◌, ap, true, false, not, ◌&&◌, Option, some, List, [], ◌∷◌, if-split, option-split,
  list-split, has, count, arith,
}
use minipg.Connection.State.{TaskId, Task, PendingCancel, LateCancel, Conn, is_closed}
use minipg.Connection.Dispatch.{clear_pending_cancel}
use minipg.Connection.Cancel.{
  is_head, canceled_head, check_late_cancel, is_current, marks_late, mark_late,
}
use minipg.Connection.Finish.{
  late_check, with_late, cancel_check, is_suspect, update_names, finish_head, finish_task,
}
use minipg.Connection.Held.View.{total, unsettled, IsHeld}
use minipg.Connection.Held.Dispatching.{process_queue-IsHeld}
use minipg.Connection.Held.Retrying.{late_check-IsHeld, cancel_check-IsHeld, retry_or_settle-IsHeld}

swap-IsHeld :
    (t u : Task) (hand : List Task) (c : Conn)
    → u.id ≡ t.id
    → u.settled ≡ t.settled
    → IsHeld (t ∷ hand) c
    → IsHeld (u ∷ hand) c
unfolding total unsettled
swap-IsHeld t u hand c i s h = record {
  at = λ x. record {
    single = ground (arith, (h.at x).single);
    unborn = λ k. ground (arith, (h.at x).unborn);
    headless = (h.at x).headless;
    matched = ground (arith, (h.at x).matched);
    quiet = (h.at x).quiet;
    emptied = (h.at x).emptied;
    resting = (h.at x).resting;
    attempting = (h.at x).attempting;
    fresh = (h.at x).fresh;
  };
}

with_late_lem :
    (t : Task) (l : Option LateCancel)
    → ((with_late t l).id ≡ t.id) × ((with_late t l).settled ≡ t.settled)
unfolding with_late mark_late
with_late_lem t l =
    let P = λ (u : Task). (u.id ≡ t.id) × (u.settled ≡ t.settled) in
    if-split P (is_suspect t l)
      (λ k. if-split P (marks_late t) (λ m. (refl, refl)) (λ m. (refl, refl))) (λ k. (refl, refl))

status-late_check : (t : Task) (c : Conn) → (late_check t c).status ≡ c.status
unfolding late_check check_late_cancel clear_pending_cancel
status-late_check t c =
    let P = λ (d : Conn). d.status ≡ c.status in
    option-split P c.late_cancel (λ e. refl)
      (λ l e.
        if-split P (has l.suspects t.id)
          (λ k.
            if-split P (marks_late t)
              (λ m.
                if-split P (is_current l.pending_number c.pending_cancel && not c.is_retiring)
                  (λ n. refl) (λ n. refl))
              (λ m. refl))
          (λ k. refl))

unpaid_quiet :
    (t : Task) (hand : List Task) (c : Conn)
    → t.settled ≡ false
    → IsHeld (t ∷ hand) c
    → count t.id c.pending ≡ 0
    → ⊥
unfolding unsettled
unpaid_quiet t hand c s h q = ground (arith, (h.at t.id).matched)

at_head :
    (x : TaskId) (p : PendingCancel)
    → is_head x p.head ≡ true
    → is_head x (canceled_head (some p)) ≡ true
unfolding canceled_head
at_head x p k = k

-- The head leaves those in flight.
shift_inflight-IsHeld :
    (t : Task) (ts : List Task) (c : Conn)
    → c.inflight ≡ t ∷ ts
    → IsHeld [] c
    → IsHeld (t ∷ []) (record c { inflight = ts })
unfolding total unsettled
shift_inflight-IsHeld t ts c e h = record {
  at = λ x. record {
    single = ground (arith, (h.at x).single);
    unborn = λ k. ground (arith, (h.at x).unborn);
    headless = (h.at x).headless;
    matched = ground (arith, (h.at x).matched);
    quiet = (h.at x).quiet;
    emptied = λ k. ground (arith, (h.at x).emptied);
    resting = λ k. (((h.at x).resting k).0, ground (arith, ((h.at x).resting k).1));
    attempting = (h.at x).attempting;
    fresh = (h.at x).fresh;
  };
}

not_closed :
    (t : Task) (ts : List Task) (c : Conn)
    → c.inflight ≡ t ∷ ts
    → IsHeld [] c
    → is_closed c.status ≡ false
unfolding total
not_closed t ts c e h = ground (arith, (h.at t.id).emptied)

-- The head of a cancel request has settled, so a task that has not is no such head.
status-cancel_check :
    (t : Task) (hand : List Task) (c : Conn)
    → t.settled ≡ false
    → IsHeld (t ∷ hand) c
    → (cancel_check t c).status ≡ c.status
unfolding cancel_check
status-cancel_check t hand c s h =
    option-split (λ (d : Conn). d.status ≡ c.status) c.pending_cancel (λ e. refl)
      (λ p e.
        if-split (λ (d : Conn). d.status ≡ c.status) (is_head t.id p.head)
          (λ k. absurd (is_settled p e k)) (λ k. refl))
  where
    is_paid : is_head t.id (canceled_head c.pending_cancel) ≡ true → ⊥
    is_paid k = unpaid_quiet t hand c s h ((h.at t.id).quiet k)

    is_settled : (p : PendingCancel) → c.pending_cancel ≡ some p → is_head t.id p.head ≡ true → ⊥
    is_settled p e k =
        is_paid
          (ap (λ (o : Option PendingCancel). is_head t.id (canceled_head o)) e ∙ at_head t.id p k)

finish_head-IsHeld :
    (t : Task) (ts : List Task) (c : Conn)
    → c.inflight ≡ t ∷ ts
    → IsHeld [] c
    → IsHeld [] (finish_head t (record c { inflight = ts }))
unfolding finish_head update_names
finish_head-IsHeld t ts c e h =
    let d = record c { inflight = ts } in
    let u = with_late t c.late_cancel in
    let w = with_late_lem t c.late_cancel in
    let k =
      swap-IsHeld t u [] (late_check t d) w.0 w.1
        (late_check-IsHeld t (t ∷ []) d (shift_inflight-IsHeld t ts c e h)) in
    let m = cancel_check-IsHeld u (u ∷ []) (late_check t d) k in
    retry_or_settle-IsHeld u [] (update_names u (cancel_check u (late_check t d)))
      (λ s.
        ap is_closed (status-cancel_check u [] (late_check t d) s k ∙ status-late_check t d)
        ∙ not_closed t ts c e h)
      (record { at = m.at })

pub finish_task-IsHeld : (c : Conn) → IsHeld [] c → IsHeld [] (finish_task c)
unfolding finish_task
finish_task-IsHeld c h =
    list-split (IsHeld []) c.inflight (λ e. process_queue-IsHeld [] c h)
      (λ t ts e. finish_head-IsHeld t ts c e h)
