-- ===== src/Connection/Bounds/Steps.antt =====
-- Every step keeps to the bounds.
use minipg.Base.{
  ◌≤◌, ◌≡◌, refl, sym, ◌∙◌, ap, Bool, false, not, ◌&&◌, ◌||◌, List, [], ◌∷◌, if◌then◌else◌,
  if-split, list-split, length, All, arith,
}
use minipg.Connection.State.{
  Task, Error, Config, already_closed, query_aborted, ended_by_call, init, Conn, is_closed,
}
use minipg.Connection.Dispatch.{solo, flush_writes, clear_pending_cancel}
use minipg.Connection.Events.{
  Request, on_head, has_no_error, task_of, promise, enqueue, query, establish, connect,
  transport_connected, socket_closed, backoff_over, ready_for_query, with_error, head_failed,
  error_response, with_copy_out, copy_out_response, described, drained, microtask_runs,
  settle_pending, end, Event, step, run, queries, cancels, connects, ends, connected, attempt_fails,
  socket_fails, backoff_ends, readies, errors, copies_out, describes, drains, flushes, keyed,
  cancel_confirms, cancel_fails, drain_expires,
}
use minipg.Connection.Bounds.Load.{
  has_solo, Once, Fits, same_load, reject_task-Fits, reject_inflight-Fits, reject_unsettled-Fits,
  on_socket_down-Fits, fail_attempt-Fits, load-flush_writes, landed-Fits, unqueued-Fits,
}
use minipg.Connection.Bounds.Dispatching.{process_queue-Fits}
use minipg.Connection.Bounds.Finishing.{
  cancel_task-Fits, cancel_confirmed-Fits, cancel_failed-Fits, drain_expired-Fits, finish_task-Fits,
  pushed-Fits,
}

query-Fits : (r : Request) (c : Conn) → Fits c → Fits (query r c)
unfolding query task_of enqueue promise
query-Fits r c h =
    let t = task_of c.prepare c.next_task r in
    let p : Fits (promise c) = record { at = h.at } in
    if-split Fits (is_closed c.status) (λ k. reject_task-Fits t.id already_closed (promise c) p)
      (λ k.
        if-split Fits r.aborted (λ l. reject_task-Fits t.id query_aborted (promise c) p)
          (λ l. process_queue-Fits _ (pushed-Fits t (promise c) (omega arith) p)))

connect-Fits : (c : Conn) → Fits c → Fits (connect c)
unfolding connect establish
connect-Fits c h = if-split Fits c.connect_called (λ k. h) (λ k. record { at = h.at })

transport_connected-Fits : (c : Conn) → Fits c → Fits (transport_connected c)
unfolding transport_connected
transport_connected-Fits c h = if-split Fits c.is_connecting (λ k. record { at = h.at }) (λ k. h)

socket_closed-Fits : (e : Error) (c : Conn) → Fits c → Fits (socket_closed e c)
unfolding socket_closed
socket_closed-Fits e c h =
    if-split (λ (d : Conn). Fits (record d { write_backed_up = false })) c.socket
      (λ k. record { at = (on_socket_down-Fits e c h).at }) (λ k. record { at = h.at })

backoff_over-Fits : (c : Conn) → Fits c → Fits (backoff_over c)
unfolding backoff_over establish
backoff_over-Fits c h =
    if-split Fits c.sleeping
      (λ k.
        if-split Fits (c.ended || is_closed c.status) (λ l. record { at = h.at })
          (λ l. record { at = h.at }))
      (λ k. h)

ready_for_query-Fits : (in_tx : Bool) (c : Conn) → Fits c → Fits (ready_for_query in_tx c)
unfolding ready_for_query
ready_for_query-Fits in_tx c h =
    if-split Fits c.is_connecting (λ k. process_queue-Fits _ (record { at = h.at }))
      (λ k. finish_task-Fits (record c { in_transaction = in_tx }) (record { at = h.at }))

length-on_head : (f : Task → Task) (ts : List Task) → length (on_head f ts) ≡ length ts
length-on_head f [] = refl
length-on_head f (t ∷ ts) = refl

has_solo-on_head :
    (f : Task → Task)
    → ((t : Task) → (solo (f t) ≡ solo t) × ((f t).retries ≡ t.retries))
    → (ts : List Task) → has_solo (on_head f ts) ≡ has_solo ts
unfolding has_solo
has_solo-on_head f k [] = refl
has_solo-on_head f k (t ∷ ts) = ap (λ b. b || has_solo ts) (k t).0

All-on_head :
    (f : Task → Task)
    → ((t : Task) → (solo (f t) ≡ solo t) × ((f t).retries ≡ t.retries))
    → (ts : List Task) → All Once ts
    → All Once (on_head f ts)
All-on_head f k [] h = h
All-on_head f k (t ∷ ts) h = (omega (arith, (k t).1, h.0), h.1)

with_copy_out-kept :
    (t : Task) → (solo (with_copy_out t) ≡ solo t) × ((with_copy_out t).retries ≡ t.retries)
unfolding with_copy_out with_error solo
with_copy_out-kept t =
    if-split (λ (u : Task). (solo u ≡ solo t) × (u.retries ≡ t.retries))
      (not t.copy_out && has_no_error t.error) (λ k. (refl, refl)) (λ k. (refl, refl))

-- A change of the head that its kind and its retries survive.
on_head-Fits :
    (f : Task → Task) (c : Conn)
    → ((t : Task) → (solo (f t) ≡ solo t) × ((f t).retries ≡ t.retries))
    → Fits c
    → Fits (record c { inflight = on_head f c.inflight })
on_head-Fits f c k h = record {
  at = record {
    deep = omega (arith, length-on_head f c.inflight, h.at.deep);
    alone = λ m. omega (
      arith,
      length-on_head f c.inflight,
      h.at.alone (sym (has_solo-on_head f k c.inflight) ∙ m),
    );
    once_queue = h.at.once_queue;
    once = All-on_head f k c.inflight h.at.once;
  };
}

error_response-Fits : (e : Error) (c : Conn) → Fits c → Fits (error_response e c)
unfolding error_response head_failed with_error solo
error_response-Fits e c h =
    if-split Fits c.is_connecting (λ k. fail_attempt-Fits e c h)
      (λ k. on_head-Fits (with_error e) c (λ t. (refl, refl)) h)

copy_out_response-Fits : (c : Conn) → Fits c → Fits (copy_out_response c)
unfolding copy_out_response
copy_out_response-Fits c h = on_head-Fits with_copy_out c with_copy_out-kept h

described-Fits : (c : Conn) → Fits c → Fits (described c)
unfolding described
described-Fits c h = list-split Fits c.inflight (λ e. h) (λ t ts e. record { at = h.at })

drained-Fits : (c : Conn) → Fits c → Fits (drained c)
unfolding drained
drained-Fits c h =
    if-split Fits c.write_backed_up
      (λ k. process_queue-Fits (record c { write_backed_up = false }) (record { at = h.at }))
      (λ k. h)

microtask_runs-Fits : (c : Conn) → Fits c → Fits (microtask_runs c)
unfolding microtask_runs
microtask_runs-Fits c h =
    if-split Fits c.flush_scheduled
      (λ k.
        let d = record c { flush_scheduled = false } in
        same_load d (flush_writes d) (load-flush_writes d) (record { at = h.at }))
      (λ k. h)

end-Fits : (c : Conn) → Fits c → Fits (end c)
unfolding end settle_pending clear_pending_cancel
end-Fits c h =
    if-split Fits (is_closed c.status) (λ k. h)
      (λ k.
        let d =
          reject_inflight-Fits ended_by_call c.inflight _ (record { at = (landed-Fits c h).at }) in
        record { at = (reject_unsettled-Fits ended_by_call _ _ (unqueued-Fits _ d)).at })

step-Fits : (e : Event) (c : Conn) → Fits c → Fits (step e c)
unfolding step
step-Fits (queries r) c h = query-Fits r c h
step-Fits (cancels x e) c h = cancel_task-Fits x e c h
step-Fits connects c h = connect-Fits c h
step-Fits ends c h = end-Fits c h
step-Fits connected c h = transport_connected-Fits c h
step-Fits (attempt_fails e) c h = fail_attempt-Fits e c h
step-Fits (socket_fails e) c h = socket_closed-Fits e c h
step-Fits backoff_ends c h = backoff_over-Fits c h
step-Fits (readies in_tx) c h = ready_for_query-Fits in_tx c h
step-Fits (errors e) c h = error_response-Fits e c h
step-Fits copies_out c h = copy_out_response-Fits c h
step-Fits describes c h = described-Fits c h
step-Fits drains c h = drained-Fits c h
step-Fits flushes c h = microtask_runs-Fits c h
step-Fits keyed c h = record { at = h.at }
step-Fits (cancel_confirms n) c h = cancel_confirmed-Fits n c h
step-Fits (cancel_fails n) c h = cancel_failed-Fits n c h
step-Fits (drain_expires n) c h = drain_expired-Fits n c h

run-Fits : (es : List Event) (c : Conn) → Fits c → Fits (run es c)
unfolding run
run-Fits [] c h = h
run-Fits (e ∷ es) c h = run-Fits es (step e c) (step-Fits e c h)

init-Fits : (cfg : Config) (answers : List Bool) → Fits (init cfg answers)
unfolding init has_solo
init-Fits cfg answers = record {
  at = record { deep = omega arith; alone = λ k. omega arith; once_queue = tt; once = tt };
}

-- Whatever the order of calls, messages and events from a new connection on: no more tasks are in flight
-- than the depth of the pipeline, at most one where a stream or a COPY FROM STDIN is among them, and
-- no task in flight has been retried more than once.
pub inflight-run :
    (cfg : Config) (answers : List Bool) (es : List Event)
    → (length (run es (init cfg answers)).inflight ≤ (run es (init cfg answers)).pipeline_depth)
      × ((length (run es (init cfg answers)).inflight ≤ (
            if has_solo (run es (init cfg answers)).inflight
            then 1
            else (run es (init cfg answers)).pipeline_depth))
          × All Once (run es (init cfg answers)).inflight)
inflight-run cfg answers es =
    let c = run es (init cfg answers) in
    let h = run-Fits es (init cfg answers) (init-Fits cfg answers) in
    (
      h.at.deep,
      (
        if-split (λ n. length c.inflight ≤ n) (has_solo c.inflight) h.at.alone (λ k. h.at.deep),
        h.at.once,
      ),
    )
