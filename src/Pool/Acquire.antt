-- ===== src/Pool/Acquire.antt =====
-- `acquire` of src/pool.ts, cut where it awaits.
use minipg.Base.{
  Bool, false, ◌&&◌, Option, none, some, List, [], ◌∷◌, ◌++◌, if◌then◌else◌, length, ltb, ◌==◌,
}
use minipg.Pool.State.{
  Conn, Client, Failure, because, pool_closed, tx_guard, for_acquire, Pool, remove, resolve, reject,
}
use minipg.Pool.Breaker.{open_for, trip, fail_waiters}

-- The loop over idle connections: dead ones are evicted, the first live one is taken.
pub record Taken : Type 0 where
  pub taken : Option Conn
  pub idle_left : List Conn
  pub all_left : List Conn

unfoldable pub take_idle : (Conn → Bool) → List Conn → List Conn → Taken
take_idle dead [] all = record { taken = none; idle_left = []; all_left = all }
take_idle dead (c ∷ cs) all =
    let found : Taken = record { taken = some c; idle_left = cs; all_left = all } in
    let next = take_idle dead cs (remove c all) in if dead c then next else found

-- At max: park, with a timer unless the wait is unbounded.
unfoldable pub wait_for_free : Client → Pool → Pool
wait_for_free cl p = record p {
  waiters = p.waiters ++ (cl ∷ []);
  timers = (if p.acquire_ms == 0 then p.timers else cl ∷ p.timers);
}

unfoldable pub open_or_wait : Client → Pool → Pool
open_or_wait cl p =
    if ltb (length p.all) p.max then open_for (for_acquire cl) p else wait_for_free cl p

-- From the idle loop on, as at first and after a wait for recovery.
unfoldable pub checkout : (Conn → Bool) → Client → Pool → Pool
checkout dead cl p =
    let t = take_idle dead p.idle p.all in
    let q : Pool = record p { idle = t.idle_left; all = t.all_left } in
    elim t.taken [ some c ↦ resolve cl c (record q { out = c ∷ q.out }) | none ↦ open_or_wait cl q ]

-- The body of `acquire` for a call whose promise is pending; `guarded` is the txGuard's store.
unfoldable pub attempt : (Conn → Bool) → Bool → Client → Pool → Pool
attempt dead guarded cl p =
    if p.closed
    then reject cl pool_closed p
    else if guarded
    then reject cl tx_guard p
    else elim p.broken [
      | some e ↦ reject cl (because e) p
      | none ↦
          if p.down && p.rc_enabled
          then (record p { recovered = p.recovered ++ (cl ∷ []) })
          else checkout dead cl p
    ]

unfoldable pub acquire : (Conn → Bool) → Bool → Client → Pool → Pool
acquire dead guarded cl p = attempt dead guarded cl (record p { pending = cl ∷ p.pending })

-- The `catch` around `open` in `acquire`: the breaker trips and the call starts over.
unfoldable pub acquire_open_failed : (Conn → Bool) → Failure → Client → Pool → Pool
acquire_open_failed dead e cl p =
    let q = trip e p in
    if p.rc_enabled
    then elim q.broken [ some b ↦ reject cl (because b) q | none ↦ attempt dead false cl q ]
    else reject cl (because e) p

-- The `catch` in `refill`: the waiter goes back to the front of the queue.
unfoldable pub refill_open_failed : Failure → Client → Pool → Pool
refill_open_failed e w p =
    let q = trip e (record p { waiters = w ∷ p.waiters }) in
    if p.rc_enabled
    then elim q.broken [ some b ↦ fail_waiters (because b) q | none ↦ q ]
    else reject w (because e) p

-- The checkout of an opened connection.
unfoldable pub check_out : Client → Conn → Pool → Pool
check_out cl c p = resolve cl c (record p { out = c ∷ p.out })
