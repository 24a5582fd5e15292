-- ===== src/Connection/Held/Dispatching.antt =====
-- Every promise keeps its task through the dispatcher.
use minipg.Base.{
  ◌≡◌, refl, sym, ◌∙◌, ap, Bool, true, false, not, List, [], ◌∷◌, ◌++◌, if-split, list-split, has,
  arith, leb,
}
use minipg.Connection.State.{
  TaskId, Task, Outcome, failed, Status, Conn, encode_failed, settle, is_ready, is_closed,
  reject_task,
}
use minipg.Connection.Serialize.{serialize}
use minipg.Connection.Serialize.Kept.{Tag, tag, tag-serialize}
use minipg.Connection.Dispatch.{
  write_out, drop_batch, flush_writes, schedule_flush, flush_if_large, start_task, may_start,
  dispatch, flush_or_schedule, process_queue, mark, flush_threshold, is_empty,
}
use minipg.Connection.Held.View.{
  total, unsettled, view, IsHeld, total-append, unsettled-append, seen,
}
use minipg.Connection.Held.Settling.{reject_task-IsHeld}
use minipg.Connection.Held.Down.{retire-IsHeld}

pub view-flush_writes : (c : Conn) → view (flush_writes c) ≡ view c
unfolding flush_writes write_out drop_batch
view-flush_writes c =
    list-split (λ d. view d ≡ view c) c.outbuf (λ e. refl)
      (λ k ks e. if-split (λ d. view d ≡ view c) c.socket (λ s. refl) (λ s. refl))

view-flush_if_large : (c : Conn) → view (flush_if_large c) ≡ view c
unfolding flush_if_large
view-flush_if_large c = if-split (λ d. view d ≡ view c) _ (λ e. view-flush_writes c) (λ e. refl)

view-flush_or_schedule : (c : Conn) → view (flush_or_schedule c) ≡ view c
unfolding flush_or_schedule schedule_flush
view-flush_or_schedule c = if-split (λ d. view d ≡ view c) _ (λ e. refl) (λ e. view-flush_writes c)

-- The first task of the queue is taken in hand.
shift_queue-IsHeld :
    (t : Task) (ts hand : List Task) (c : Conn)
    → IsHeld hand (record c { queue = t ∷ ts })
    → IsHeld (t ∷ hand) (record c { queue = ts })
unfolding total unsettled
shift_queue-IsHeld t ts hand c h = record {
  at = λ x. record {
    single = omega (arith, (h.at x).single);
    unborn = λ k. omega (arith, (h.at x).unborn k);
    headless = (h.at x).headless;
    matched = omega (arith, (h.at x).matched);
    quiet = (h.at x).quiet;
    emptied = λ k. omega (arith, (h.at x).emptied k);
    resting = (h.at x).resting;
    attempting = (h.at x).attempting;
    fresh = (h.at x).fresh;
  };
}

-- A task in hand joins those in flight, on a connection that is up.
push_inflight-IsHeld :
    (t u : Task) (hand : List Task) (c : Conn)
    → tag u ≡ tag t
    → is_ready c.status ≡ true
    → is_closed c.status ≡ false
    → IsHeld (t ∷ hand) c
    → IsHeld hand (record c { inflight = c.inflight ++ (u ∷ []) })
unfolding total unsettled
push_inflight-IsHeld t u hand c e r k h =
    let i : u.id ≡ t.id = ap (λ (g : Tag). g.id) e in
    let s : u.settled ≡ t.settled = ap (λ (g : Tag). g.settled) e in
    record {
      at = λ x. record {
        single = ground (arith, (h.at x).single, total-append x c.inflight (u ∷ []));
        unborn = λ k. ground (arith, (h.at x).unborn, total-append x c.inflight (u ∷ []));
        headless = (h.at x).headless;
        matched = ground (arith, (h.at x).matched, unsettled-append x c.inflight (u ∷ []));
        quiet = (h.at x).quiet;
        emptied = λ l. cc;
        resting = λ l. absurd (is_up r ((h.at x).resting l).0);
        attempting = (h.at x).attempting;
        fresh = (h.at x).fresh;
      };
    }
  where
    is_up : {b : Bool} → b ≡ true → b ≡ false → ⊥
    is_up p q = cc

ready-not_closed : (s : Status) → is_ready s ≡ true → is_closed s ≡ false
unfolding is_ready is_closed
ready-not_closed s h = ground arith

start_task-IsHeld :
    (t : Task) (hand : List Task) (c : Conn)
    → is_ready c.status ≡ true
    → IsHeld (t ∷ hand) c
    → IsHeld hand (start_task t c)
unfolding start_task
start_task-IsHeld t hand c r h =
    let d = serialize t c.names in
    if-split (IsHeld hand) d.thrown
      (λ k.
        reject_task-IsHeld t hand encode_failed (record c { names = d.names })
          (record { at = h.at }))
      (λ k.
        let p =
          push_inflight-IsHeld t d.task hand c (tag-serialize t c.names) r
            (ready-not_closed c.status r) h in
        record { at = p.at })

-- What starting a task leaves alone.
abbrev kept : Conn → Status × List Task
kept c = (c.status, c.queue)

kept-settle : (x : TaskId) (o : Outcome) (c : Conn) → kept (settle x o c) ≡ kept c
unfolding settle
kept-settle x o c =
    if-split (λ (d : Conn). kept d ≡ kept c) (has c.pending x) (λ k. refl) (λ k. refl)

kept-start_task : (t : Task) (c : Conn) → kept (start_task t c) ≡ kept c
unfolding start_task reject_task
kept-start_task t c =
    if-split (λ (d : Conn). kept d ≡ kept c) (serialize t c.names).thrown
      (λ k.
        kept-settle t.id (failed encode_failed) (record c { names = (serialize t c.names).names }))
      (λ k. refl)

kept-flush_if_large : (c : Conn) → kept (flush_if_large c) ≡ kept c
unfolding flush_if_large flush_writes write_out drop_batch
kept-flush_if_large c =
    if-split (λ (d : Conn). kept d ≡ kept c) (leb flush_threshold (mark c.size c.outbuf))
      (λ e.
        list-split (λ (d : Conn). kept d ≡ kept c) c.outbuf (λ e. refl)
          (λ k ks e. if-split (λ (d : Conn). kept d ≡ kept c) c.socket (λ s. refl) (λ s. refl)))
      (λ e. refl)

requeue :
    (hand ts : List Task) (d : Conn)
    → d.queue ≡ ts
    → IsHeld hand d
    → IsHeld hand (record d { queue = ts })
requeue hand ts d e h =
    seen hand d (record d { queue = ts })
      (ap (λ (q : List Task). record (view d) { queue = q }) (sym e)) h

dispatch-IsHeld :
    (ts hand : List Task) (c : Conn)
    → is_ready c.status ≡ true
    → IsHeld hand (record c { queue = ts })
    → IsHeld hand (dispatch ts c)
unfolding dispatch
dispatch-IsHeld [] hand c r h = h
dispatch-IsHeld (t ∷ ts) hand c r h =
    if-split (IsHeld hand) (may_start t c)
      (λ k.
        let d = start_task t (record c { queue = ts }) in
        let s =
          start_task-IsHeld t hand (record c { queue = ts }) r (shift_queue-IsHeld t ts hand c h) in
        let e = kept-flush_if_large d ∙ kept-start_task t (record c { queue = ts }) in
        dispatch-IsHeld ts hand (flush_if_large d)
          (ap (λ (k : Status × List Task). is_ready k.0) e ∙ r)
          (requeue hand ts (flush_if_large d) (ap (λ (k : Status × List Task). k.1) e)
            (seen hand d (flush_if_large d) (view-flush_if_large d) s)))
      (λ k. h)

-- Whatever the dispatcher does, every pending promise is that of a task that the connection holds.
pub process_queue-IsHeld :
    (hand : List Task) (c : Conn) → IsHeld hand c → IsHeld hand (process_queue c)
unfolding process_queue
process_queue-IsHeld hand c h =
    if-split (IsHeld hand) (not (is_ready c.status)) (λ k. h)
      (λ k.
        if-split (IsHeld hand) c.is_retiring
          (λ l.
            if-split (IsHeld hand) (is_empty c.inflight) (λ m. retire-IsHeld hand c (is_called k) h)
              (λ m. h))
          (λ l.
            let d = dispatch c.queue c in
            seen hand d (flush_or_schedule d) (view-flush_or_schedule d) (
              dispatch-IsHeld c.queue hand c (is_not (is_ready c.status) k)
                (record { at = h.at }))))
  where
    is_called : not (is_ready c.status) ≡ false → c.connect_called ≡ true
    is_called k = ground (arith, (h.at 0).resting)

    is_not : (b : Bool) → not b ≡ false → b ≡ true
    is_not true p = refl
    is_not false p = cc
