-- ===== src/Connection/Held/Steps.antt =====
-- Each step of the connection keeps the invariant, and what that means for the callers.
use minipg.Base.{ℕ, ◌+◌, ◌≤◌, ◌≡◌, refl, Bool, true, List, [], ◌∷◌, count, arith}
use minipg.Connection.State.{TaskId, Conn, Config, is_closed, is_ready, init}
use minipg.Connection.Cancel.{is_head, canceled_head}
use minipg.Connection.Events.{
  Event, step, run, queries, cancels, connects, ends, connected, attempt_fails, socket_fails,
  backoff_ends, readies, errors, copies_out, describes, drains, flushes, keyed, cancel_confirms,
  cancel_fails, drain_expires,
}
use minipg.Connection.Held.View.{total, unsettled, IsHeld, unsettled_le}
use minipg.Connection.Held.Closing.{fail_attempt-IsHeld}
use minipg.Connection.Held.Canceling.{cancel_task-IsHeld}
use minipg.Connection.Held.Resolving.{
  cancel_confirmed-IsHeld, cancel_failed-IsHeld, drain_expired-IsHeld,
}
use minipg.Connection.Held.Lifecycle.{
  query-IsHeld, connect-IsHeld, transport_connected-IsHeld, socket_closed-IsHeld,
  backoff_over-IsHeld, ready_for_query-IsHeld, error_response-IsHeld, copy_out_response-IsHeld,
  described-IsHeld, drained-IsHeld, microtask_runs-IsHeld,
}
use minipg.Connection.Held.Ending.{end-IsHeld}

count_none : (xs : List ℕ) → ((x : ℕ) → count x xs ≡ 0) → xs ≡ []
unfolding count
count_none [] h = refl
count_none (x ∷ xs) h = absurd (ground (arith, h x))

-- Whatever happens, in whatever order, the invariant stays.
pub step-IsHeld : (e : Event) (c : Conn) → IsHeld [] c → IsHeld [] (step e c)
unfolding step
step-IsHeld (queries r) c h = query-IsHeld r c h
step-IsHeld (cancels x e) c h = cancel_task-IsHeld x e c h
step-IsHeld connects c h = connect-IsHeld c h
step-IsHeld ends c h = end-IsHeld c h
step-IsHeld connected c h = transport_connected-IsHeld c h
step-IsHeld (attempt_fails e) c h = fail_attempt-IsHeld e [] c h
step-IsHeld (socket_fails e) c h = socket_closed-IsHeld e c h
step-IsHeld backoff_ends c h = backoff_over-IsHeld c h
step-IsHeld (readies in_tx) c h = ready_for_query-IsHeld in_tx c h
step-IsHeld (errors e) c h = error_response-IsHeld e c h
step-IsHeld copies_out c h = copy_out_response-IsHeld c h
step-IsHeld describes c h = described-IsHeld c h
step-IsHeld drains c h = drained-IsHeld c h
step-IsHeld flushes c h = microtask_runs-IsHeld c h
step-IsHeld keyed c h = record { at = h.at }
step-IsHeld (cancel_confirms n) c h = cancel_confirmed-IsHeld n c h
step-IsHeld (cancel_fails n) c h = cancel_failed-IsHeld n c h
step-IsHeld (drain_expires n) c h = drain_expired-IsHeld n c h

run-IsHeld : (es : List Event) (c : Conn) → IsHeld [] c → IsHeld [] (run es c)
unfolding run
run-IsHeld [] c h = h
run-IsHeld (e ∷ es) c h = run-IsHeld es (step e c) (step-IsHeld e c h)

init-IsHeld : (cfg : Config) (answers : List Bool) → IsHeld [] (init cfg answers)
unfolding init total unsettled count is_head canceled_head is_closed is_ready
init-IsHeld cfg answers = record {
  at = λ x. record {
    single = omega arith;
    unborn = λ k. omega arith;
    headless = λ k. refl;
    matched = omega arith;
    quiet = λ k. omega arith;
    emptied = λ k. omega arith;
    resting = λ k. (refl, omega arith);
    attempting = λ k. cc;
    fresh = λ k. refl;
  };
}

pub reached-IsHeld :
    (cfg : Config) (answers : List Bool) (es : List Event) → IsHeld [] (run es (init cfg answers))
reached-IsHeld cfg answers es = run-IsHeld es (init cfg answers) (init-IsHeld cfg answers)

-- Whatever the order of calls, messages and events from a new connection on, and for every number x: the promise of x
-- is pending as often as a task with that number is queued or in flight and has not been settled, and
-- a task with that number is held at most once.
pub pending-run :
    (cfg : Config) (answers : List Bool) (es : List Event) (x : TaskId)
    → (count x (run es (init cfg answers)).pending
        ≡ unsettled x (run es (init cfg answers)).queue
          + unsettled x (run es (init cfg answers)).inflight)
      × (total x (run es (init cfg answers)).queue + total x (run es (init cfg answers)).inflight
          ≤ 1)
unfolding total unsettled
pending-run cfg answers es x =
    let h = (reached-IsHeld cfg answers es).at x in
    (omega (arith, h.matched), omega (arith, h.single))

-- A connection that was reached from a new one by any calls, messages and events and whose state is
-- closed leaves no promise pending.
pub closed-run :
    (cfg : Config) (answers : List Bool) (es : List Event)
    → is_closed (run es (init cfg answers)).status ≡ true
    → (run es (init cfg answers)).pending ≡ []
unfolding unsettled
closed-run cfg answers es k = count_none _ (λ x.
    let h = (reached-IsHeld cfg answers es).at x in
    omega (
      arith,
      h.matched,
      h.emptied k,
      unsettled_le x (run es (init cfg answers)).queue,
      unsettled_le x (run es (init cfg answers)).inflight,
    ))
