-- ===== src/Tests/Pool.antt =====
-- src/pool.ts: sample runs, and the theorems on them.
use minipg.Base.{
  ◌≡◌, ◌+◌, ◌≤◌, ◌<◌, refl, count, arith, Bool, true, false, List, [], ◌∷◌, ◌++◌, none, length,
}
use minipg.Pool.State.{
  Conn, Failure, Config, Pool, init, classify, has, remove, purpose_of, forget, resolve, settle,
  reject,
}
use minipg.Pool.Breaker.{probe_connected, open_for, trip, nap_over, settle_breaker, wake}
use minipg.Pool.Checkin.{release, reclaim, refill, refill_loop, drop_conn}
use minipg.Pool.Acquire.{
  acquire, attempt, checkout, take_idle, open_or_wait, wait_for_free, check_out, refill_open_failed,
}
use minipg.Pool.Events.{
  Event, acquires, open_succeeds, open_fails, releases, nap_ends, acquire_times_out,
  acquire_timeout, step, run, end, open_done, open_failed,
}
use minipg.Pool.Kept.{holding}
use minipg.Pool.Ownership.{total, total-run}
use minipg.Pool.Bound.{rounds, run-init-Fit}
use minipg.Pool.Recovery.{queue, endings, probe_connected-waiters, end-settles}

abbrev alive : Conn → Bool
alive c = false

abbrev one_conn : Config
one_conn = record { max = 1; rc_enabled = true; acquire_ms = 1000; idle_ms = 0 }

abbrev refused : Failure
refused = record { code = none; fatal = false; untrusted = false; disabled_endpoint = false }

-- The first call has the only connection; the second waits.
abbrev parked : List Event
parked = acquires alive false 1 ∷ open_succeeds 0 ∷ acquires alive false 2 ∷ []

-- The connection dies, and opening another for the waiting call fails.
abbrev outage : List Event
outage =
    acquires alive false 1
    ∷ open_succeeds 0
    ∷ acquires alive false 2
    ∷ releases (record { is_closed = true; in_transaction = false; cancelling = false }) 0
    ∷ open_fails alive 1 refused
    ∷ nap_ends
    ∷ []

total-run_example : total 0 (holding (run outage (init one_conn))) ≤ 1
total-run_example = total-run one_conn outage 0

run-init-Fit_example : length (run outage (init one_conn)).all ≤ rounds outage + 1
run-init-Fit_example = run-init-Fit one_conn outage

abbrev waiting_pool : Pool
waiting_pool = run parked (init one_conn)

-- The probe reconnects, and call 2 stays in the queue beside an idle connection.
probe_connected-waiters_example :
    let p = run outage (init one_conn) in
    ((probe_connected 2 p).waiters ≡ p.waiters)
    × ((probe_connected 2 p).idle ≡ 2 ∷ p.idle)
    × ((probe_connected 2 p).down ≡ false)
probe_connected-waiters_example = probe_connected-waiters 2 (run outage (init one_conn))

-- Call 2 is still parked, connection 2 idle, and no connection is opening.
outage_stranded :
    let p = run (outage ++ (open_succeeds 2 ∷ [])) (init one_conn) in
    (p.waiters ≡ 2 ∷ []) × (p.idle ≡ 2 ∷ []) × (p.down ≡ false) × (p.opening ≡ [])
unfolding run step init acquire attempt checkout take_idle open_or_wait wait_for_free open_for
    open_done purpose_of forget check_out resolve settle has remove release reclaim refill
    refill_loop drop_conn open_failed refill_open_failed trip classify nap_over probe_connected
    settle_breaker wake
outage_stranded = (refl, refl, refl, refl)

pending_once : count 2 waiting_pool.pending ≤ 1
unfolding run step init acquire attempt checkout take_idle open_or_wait wait_for_free open_for
    open_done purpose_of forget check_out resolve settle has remove count
pending_once = omega arith

parked_once : 0 < count 2 waiting_pool.waiters + count 2 waiting_pool.recovered
unfolding run step init acquire attempt checkout take_idle open_or_wait wait_for_free open_for
    open_done purpose_of forget check_out resolve settle has remove count
parked_once = omega arith

-- Call 2 waits for connection 0, which call 1 has.
end-settles_example :
    let q = end waiting_pool in
    (count 2 q.pending ≡ 0)
    × (endings 0 q.log ≡ count 0 waiting_pool.all + endings 0 waiting_pool.log)
    × ((queue q ≡ record {
      waiting = [];
      free = [];
      outage = waiting_pool.down;
      recovering = [];
      shut = true;
    })
        × ((q.out ≡ []) × (q.all ≡ [])))
end-settles_example = end-settles 2 0 waiting_pool pending_once parked_once

-- The connection dies, another is being opened for call 2, and call 2 times out.
abbrev late : Pool
late =
    run
      (acquires alive false 1
        ∷ open_succeeds 0
        ∷ acquires alive false 2
        ∷ releases (record { is_closed = true; in_transaction = false; cancelling = false }) 0
        ∷ acquire_times_out 2
        ∷ [])
      (init one_conn)

-- When it is open, it is checked out, although no call is pending and nobody is told.
late_lost :
    let p = step (open_succeeds 1) late in (p.out ≡ 1 ∷ []) × (p.pending ≡ []) × (p.log ≡ late.log)
unfolding run step init acquire attempt checkout take_idle open_or_wait wait_for_free open_for
    open_done purpose_of forget check_out resolve settle has remove release reclaim refill
    refill_loop drop_conn acquire_timeout reject
late_lost = (refl, refl, refl)
