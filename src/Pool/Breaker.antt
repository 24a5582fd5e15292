-- ===== src/Pool/Breaker.antt =====
-- The circuit breaker of src/pool.ts, and `open`.
use minipg.Base.{ℕ, zero, suc, true, false, ◌||◌, none, some, List, [], ◌∷◌, ◌++◌, if◌then◌else◌}
use minipg.Pool.State.{
  Conn, Client, Failure, fatal, unavailable, classify, Reason, because, pool_closed, Purpose,
  for_probe, Pool, reject_all,
}

-- The synchronous part of `open`: the connection joins `all` before it connects.
unfoldable pub open_for : Purpose → Pool → Pool
open_for q p = record p {
  all = p.next_conn ∷ p.all;
  opening = (p.next_conn, q) ∷ p.opening;
  next_conn = suc p.next_conn;
}

-- What each waiter on recovery does when it is woken.
unfoldable pub wake : List Client → Pool → Pool
wake cls p = if p.closed then reject_all cls pool_closed p else elim p.broken [
  | some e ↦ reject_all cls (because e) p
  | none ↦ record p { woken = p.woken ++ cls }
]

unfoldable pub settle_breaker : Pool → Pool
settle_breaker p = wake p.recovered (record p { down = false; recovered = [] })

-- `startProbe` begins with the backoff sleep of a new loop.
unfoldable pub trip : Failure → Pool → Pool
trip e p = elim (classify e) [
  | fatal ↦ settle_breaker (record p { broken = some e })
  | unavailable ↦ if p.down || p.closed then p else (record p {
    down = true;
    last_down_error = some e;
    last_probe_error = none;
    naps = suc p.naps;
  })
]

unfoldable pub fail_waiters : Reason → Pool → Pool
fail_waiters r p = reject_all p.waiters r (record p { waiters = [] })

-- The sleep of one probe loop is over, by its timer or because it was cancelled: the loop checks
-- that the pool is still down, and opens its connection.
unfoldable pub nap_over : ℕ → Pool → Pool
nap_over zero p = p
nap_over (suc n) p =
    let q : Pool = record p { naps = n } in
    if p.down then (if p.closed then q else open_for for_probe q) else q

-- The probe's connection is there: it becomes the first idle one, and the herd is released.
unfoldable pub probe_connected : Conn → Pool → Pool
probe_connected c p = settle_breaker (record p { idle = c ∷ p.idle; last_probe_error = none })

-- The probe's attempt failed: a fatal error breaks the pool, any other keeps the loop going.
unfoldable pub probe_failed : Failure → Pool → Pool
probe_failed e p = elim (classify e) [
  | fatal ↦ settle_breaker (record p { last_probe_error = some e; broken = some e })
  | unavailable ↦
      let q : Pool = record p { last_probe_error = some e } in
      if p.down then (if p.closed then q else record q { naps = suc p.naps }) else q
]
