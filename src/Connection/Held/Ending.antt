-- ===== src/Connection/Held/Ending.antt =====
-- `end` settles every promise before it returns.
use minipg.Base.{◌≡◌, refl, ◌∙◌, ap, true, false, none, List, [], ◌∷◌, ◌++◌, if-split, has, arith}
use minipg.Connection.State.{
  TaskId, Task, Error, Conn, or_error, settle, closed, ended_by_call, terminate, is_closed,
  is_ready, reject_task, reject_inflight, reject_unsettled,
}
use minipg.Connection.Dispatch.{clear_pending_cancel}
use minipg.Connection.Cancel.{is_head, canceled_head}
use minipg.Connection.Events.{settle_pending, end}
use minipg.Connection.Held.View.{total, IsHeld, IsHeldIn}
use minipg.Connection.Held.Settling.{
  queue_out-IsHeld, inflight_out-IsHeld, reject_inflight-IsHeld, reject_unsettled-IsHeld,
}

-- What settling leaves alone.
abbrev lists : Conn → List Task × List Task
lists c = (c.queue, c.inflight)

lists-reject_task : (x : TaskId) (e : Error) (c : Conn) → lists (reject_task x e c) ≡ lists c
unfolding reject_task settle
lists-reject_task x e c =
    if-split (λ (d : Conn). lists d ≡ lists c) (has c.pending x) (λ k. refl) (λ k. refl)

lists-reject_inflight :
    (e : Error) (ts : List Task) (c : Conn) → lists (reject_inflight e ts c) ≡ lists c
unfolding reject_inflight
lists-reject_inflight e [] c = refl
lists-reject_inflight e (t ∷ ts) c =
    lists-reject_inflight e ts _
    ∙ if-split (λ (d : Conn). lists d ≡ lists c) t.settled (λ k. refl)
        (λ k. lists-reject_task t.id (or_error t.error e) c)

lists-reject_unsettled :
    (e : Error) (ts : List Task) (c : Conn) → lists (reject_unsettled e ts c) ≡ lists c
unfolding reject_unsettled
lists-reject_unsettled e [] c = refl
lists-reject_unsettled e (t ∷ ts) c =
    lists-reject_unsettled e ts _
    ∙ if-split (λ (d : Conn). lists d ≡ lists c) t.settled (λ k. refl)
        (λ k. lists-reject_task t.id e c)

lists-settle_pending : (e : Error) (c : Conn) → lists (settle_pending e c) ≡ ([], [])
unfolding settle_pending
lists-settle_pending e c =
    let d : Conn = reject_inflight e c.inflight (record c {
      outbuf = [];
      inflight = [];
      late_cancel = none;
      names = record c.names { parse_inflight = [] };
    }) in
    lists-reject_unsettled e d.queue (record d { queue = [] })
    ∙ ap (λ (k : List Task × List Task). ([], k.1)) (lists-reject_inflight e c.inflight _)

settle_pending-IsHeld :
    (e : Error) (c : Conn) → IsHeldIn false [] c → IsHeldIn false [] (settle_pending e c)
unfolding settle_pending
settle_pending-IsHeld e c h =
    let b : Conn = record c {
      outbuf = [];
      inflight = [];
      late_cancel = none;
      names = record c.names { parse_inflight = [] };
    } in
    let d : Conn = reject_inflight e c.inflight b in
    let k : IsHeldIn false (c.inflight ++ []) b = record { at = (inflight_out-IsHeld [] c h).at } in
    let m : IsHeldIn false [] d = reject_inflight-IsHeld e c.inflight [] b k in
    reject_unsettled-IsHeld e d.queue [] (record d { queue = [] }) (queue_out-IsHeld [] d m)

-- Marked closed, with tasks that are still held.
marked-IsHeld :
    (c : Conn)
    → IsHeld [] c
    → IsHeldIn false [] (record c {
      ended = true;
      sent = c.sent ++ (terminate ∷ []);
      status = closed;
      is_connecting = false;
    })
unfolding is_closed is_ready
marked-IsHeld c h = record {
  at = λ x. record {
    single = (h.at x).single;
    unborn = (h.at x).unborn;
    headless = (h.at x).headless;
    matched = (h.at x).matched;
    quiet = (h.at x).quiet;
    emptied = λ k. cc;
    resting = λ k. ground (arith, (h.at x).resting);
    attempting = λ k. cc;
    fresh = (h.at x).fresh;
  };
}

emptied-IsHeld :
    (c : Conn) → lists c ≡ ([], []) → IsHeldIn false [] c → IsHeld [] (clear_pending_cancel c)
unfolding clear_pending_cancel is_head canceled_head total
emptied-IsHeld c e h = record {
  at = λ x. record {
    single = (h.at x).single;
    unborn = (h.at x).unborn;
    headless = λ k. refl;
    matched = (h.at x).matched;
    quiet = λ k. cc;
    emptied = λ k. grind arith;
    resting = (h.at x).resting;
    attempting = (h.at x).attempting;
    fresh = (h.at x).fresh;
  };
}

pub end-IsHeld : (c : Conn) → IsHeld [] c → IsHeld [] (end c)
unfolding end
end-IsHeld c h =
    if-split (IsHeld []) (is_closed c.status) (λ k. h)
      (λ k.
        let b : Conn = record c {
          ended = true;
          sent = c.sent ++ (terminate ∷ []);
          status = closed;
          is_connecting = false;
        } in
        emptied-IsHeld (settle_pending ended_by_call b) (lists-settle_pending ended_by_call b)
          (settle_pending-IsHeld ended_by_call b (marked-IsHeld c h)))
