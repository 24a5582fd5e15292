-- ===== src/Connection/Held/Lifecycle.antt =====
-- Calls, attempts to connect and the server's messages keep the invariant.
use minipg.Base.{
  ℕ, ◌≡◌, refl, Bool, true, false, ◌||◌, [], ◌∷◌, ◌++◌, if-split, list-split, count, arith,
}
use minipg.Connection.State.{
  Task, Error, Conn, ready, already_closed, query_aborted, is_closed, is_ready,
}
use minipg.Connection.Dispatch.{flush_writes}
use minipg.Connection.Events.{
  Request, task_of, promise, enqueue, query, establish, connect, transport_connected, socket_closed,
  backoff_over, ready_for_query, with_error, head_failed, error_response, with_copy_out,
  copy_out_response, described, drained, microtask_runs,
}
use minipg.Connection.Held.Heads.{on_head-IsHeld, with_error-kept, with_copy_out-kept}
use minipg.Connection.Held.View.{total, unsettled, IsHeld, seen}
use minipg.Connection.Held.Settling.{reject_task-IsHeld}
use minipg.Connection.Held.Closing.{fail_attempt-IsHeld}
use minipg.Connection.Held.Down.{on_socket_down-IsHeld}
use minipg.Connection.Held.Dispatching.{process_queue-IsHeld, view-flush_writes}
use minipg.Connection.Held.Finishing.{finish_task-IsHeld}
use minipg.Connection.Held.Retrying.{push_queue-IsHeld}

-- A call's promise is pending, and its task is in hand.
promise-IsHeld :
    (t : Task) (c : Conn)
    → t.id ≡ c.next_task
    → t.settled ≡ false
    → IsHeld [] c
    → IsHeld (t ∷ []) (promise c)
unfolding promise total unsettled count
promise-IsHeld t c i s h = record {
  at = λ x. record {
    single = ground (arith, (h.at x).single, (h.at x).unborn);
    unborn = λ k. ground (arith, (h.at x).unborn);
    headless = λ k. ground (arith, (h.at x).headless);
    matched = ground (arith, (h.at x).matched);
    quiet = λ k. ground (arith, (h.at x).quiet, (h.at x).headless);
    emptied = (h.at x).emptied;
    resting = (h.at x).resting;
    attempting = (h.at x).attempting;
    fresh = (h.at x).fresh;
  };
}

pub query-IsHeld : (r : Request) (c : Conn) → IsHeld [] c → IsHeld [] (query r c)
unfolding query task_of enqueue promise
query-IsHeld r c h =
    let t = task_of c.prepare c.next_task r in
    let p = promise-IsHeld t c refl refl h in
    if-split (IsHeld []) (is_closed c.status)
      (λ k. reject_task-IsHeld t [] already_closed (promise c) p)
      (λ k.
        if-split (IsHeld []) r.aborted (λ l. reject_task-IsHeld t [] query_aborted (promise c) p)
          (λ l.
            process_queue-IsHeld [] (record (promise c) { queue = c.queue ++ (t ∷ []) })
              (push_queue-IsHeld t t [] (promise c) refl refl k p)))

-- An attempt begins where none is under way.
establish-IsHeld :
    (c : Conn)
    → ((x : ℕ) → total x c.inflight ≡ 0)
    → c.sleeping ≡ false
    → c.connect_called ≡ true
    → IsHeld [] c
    → IsHeld [] (establish c)
unfolding establish is_closed is_ready
establish-IsHeld c q s o h = record {
  at = λ x. record {
    single = (h.at x).single;
    unborn = (h.at x).unborn;
    headless = (h.at x).headless;
    matched = (h.at x).matched;
    quiet = (h.at x).quiet;
    emptied = λ k. ground arith;
    resting = λ k. (ground arith, q x);
    attempting = λ k. ground arith;
    fresh = (h.at x).fresh;
  };
}

called-IsHeld : (c : Conn) → IsHeld [] c → IsHeld [] (record c { connect_called = true })
called-IsHeld c h = record {
  at = λ x. record {
    single = (h.at x).single;
    unborn = (h.at x).unborn;
    headless = (h.at x).headless;
    matched = (h.at x).matched;
    quiet = (h.at x).quiet;
    emptied = (h.at x).emptied;
    resting = λ k. ground (arith, (h.at x).resting);
    attempting = λ k. ground (arith, (h.at x).attempting);
    fresh = λ k. cc;
  };
}

plugged-IsHeld :
    (c : Conn)
    → c.is_connecting ≡ true
    → IsHeld [] c
    → IsHeld [] (record c { socket = true; write_backed_up = false })
plugged-IsHeld c a h = record {
  at = λ x. record {
    single = (h.at x).single;
    unborn = (h.at x).unborn;
    headless = (h.at x).headless;
    matched = (h.at x).matched;
    quiet = (h.at x).quiet;
    emptied = (h.at x).emptied;
    resting = (h.at x).resting;
    attempting = (h.at x).attempting;
    fresh = λ k. ground (arith, (h.at x).attempting);
  };
}

awake-IsHeld : (c : Conn) → IsHeld [] c → IsHeld [] (record c { sleeping = false })
awake-IsHeld c h = record {
  at = λ x. record {
    single = (h.at x).single;
    unborn = (h.at x).unborn;
    headless = (h.at x).headless;
    matched = (h.at x).matched;
    quiet = (h.at x).quiet;
    emptied = (h.at x).emptied;
    resting = λ k. ground (arith, (h.at x).resting);
    attempting = λ k. ground (arith, (h.at x).attempting);
    fresh = λ k. ground (arith, (h.at x).fresh);
  };
}

-- An attempt succeeds.
up-IsHeld :
    (in_tx : Bool) (c : Conn)
    → c.is_connecting ≡ true
    → IsHeld [] c
    → IsHeld [] (record c {
      in_transaction = in_tx;
      is_connecting = false;
      ever_connected = true;
      status = ready;
    })
unfolding is_closed is_ready
up-IsHeld in_tx c a h = record {
  at = λ x. record {
    single = (h.at x).single;
    unborn = (h.at x).unborn;
    headless = (h.at x).headless;
    matched = (h.at x).matched;
    quiet = (h.at x).quiet;
    emptied = λ k. cc;
    resting = λ k. ground (arith, (h.at x).attempting);
    attempting = λ k. cc;
    fresh = (h.at x).fresh;
  };
}

pub connect-IsHeld : (c : Conn) → IsHeld [] c → IsHeld [] (connect c)
unfolding connect
connect-IsHeld c h =
    if-split (IsHeld []) c.connect_called (λ k. h)
      (λ k.
        establish-IsHeld (record c { connect_called = true })
          (λ x. ground (arith, (h.at x).resting)) (ground (arith, (h.at 0).fresh)) refl
          (called-IsHeld c h))

pub transport_connected-IsHeld : (c : Conn) → IsHeld [] c → IsHeld [] (transport_connected c)
unfolding transport_connected
transport_connected-IsHeld c h =
    if-split (IsHeld []) c.is_connecting (λ k. plugged-IsHeld c k h) (λ k. h)

pub socket_closed-IsHeld : (e : Error) (c : Conn) → IsHeld [] c → IsHeld [] (socket_closed e c)
unfolding socket_closed
socket_closed-IsHeld e c h =
    if-split (λ (d : Conn). IsHeld [] (record d { write_backed_up = false })) c.socket
      (λ k. record { at = (on_socket_down-IsHeld e [] c (ground (arith, (h.at 0).fresh)) h).at })
      (λ k. record { at = h.at })

pub backoff_over-IsHeld : (c : Conn) → IsHeld [] c → IsHeld [] (backoff_over c)
unfolding backoff_over
backoff_over-IsHeld c h =
    if-split (IsHeld []) c.sleeping
      (λ k.
        let d = record c { sleeping = false } in
        if-split (IsHeld []) (c.ended || is_closed c.status) (λ l. awake-IsHeld c h)
          (λ l.
            establish-IsHeld d (λ x. ground (arith, (h.at x).resting)) refl
              (ground (arith, (h.at 0).fresh)) (awake-IsHeld c h)))
      (λ k. h)

pub ready_for_query-IsHeld :
    (in_tx : Bool) (c : Conn) → IsHeld [] c → IsHeld [] (ready_for_query in_tx c)
unfolding ready_for_query
ready_for_query-IsHeld in_tx c h =
    if-split (IsHeld []) c.is_connecting (λ k. process_queue-IsHeld [] _ (up-IsHeld in_tx c k h))
      (λ k. finish_task-IsHeld (record c { in_transaction = in_tx }) (record { at = h.at }))

pub error_response-IsHeld : (e : Error) (c : Conn) → IsHeld [] c → IsHeld [] (error_response e c)
unfolding error_response head_failed
error_response-IsHeld e c h =
    if-split (IsHeld []) c.is_connecting (λ k. fail_attempt-IsHeld e [] c h)
      (λ k. on_head-IsHeld (with_error e) c (λ t. with_error-kept e t) h)

pub copy_out_response-IsHeld : (c : Conn) → IsHeld [] c → IsHeld [] (copy_out_response c)
unfolding copy_out_response
copy_out_response-IsHeld c h = on_head-IsHeld with_copy_out c with_copy_out-kept h

pub described-IsHeld : (c : Conn) → IsHeld [] c → IsHeld [] (described c)
unfolding described
described-IsHeld c h = list-split (IsHeld []) c.inflight (λ e. h) (λ t ts e. record { at = h.at })

pub drained-IsHeld : (c : Conn) → IsHeld [] c → IsHeld [] (drained c)
unfolding drained
drained-IsHeld c h =
    if-split (IsHeld []) c.write_backed_up
      (λ k. process_queue-IsHeld [] (record c { write_backed_up = false }) (record { at = h.at }))
      (λ k. h)

pub microtask_runs-IsHeld : (c : Conn) → IsHeld [] c → IsHeld [] (microtask_runs c)
unfolding microtask_runs
microtask_runs-IsHeld c h =
    if-split (IsHeld []) c.flush_scheduled
      (λ k.
        let d = record c { flush_scheduled = false } in
        seen [] d (flush_writes d) (view-flush_writes d) (record { at = h.at }))
      (λ k. h)
