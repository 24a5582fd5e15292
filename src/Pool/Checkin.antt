-- ===== src/Pool/Checkin.antt =====
-- Checkout's other half: `release`, `reclaim`, `checkin` and `refill` of src/pool.ts.
use minipg.Base.{Bool, ◌||◌, List, [], ◌∷◌, if◌then◌else◌, length, ltb}
use minipg.Pool.State.{Conn, Client, for_refill, Pool, ended, has, remove, resolve}
use minipg.Pool.Breaker.{open_for, settle_breaker}

-- One connection is opened for each waiter, while there is room.
unfoldable pub refill_loop : List Client → Pool → Pool
refill_loop [] p = record p { waiters = [] }
refill_loop (w ∷ ws) p =
    let more = refill_loop ws (open_for (for_refill w) p) in
    if ltb (length p.all) p.max then more else record p { waiters = w ∷ ws }

unfoldable pub refill : Pool → Pool
refill p = if p.down || p.closed then p else refill_loop p.waiters p

unfoldable pub drop_conn : Conn → Pool → Pool
drop_conn c p = record p { all = remove c p.all }

unfoldable pub end_conn : Conn → Pool → Pool
end_conn c p = record p { all = remove c p.all; log = ended c ∷ p.log }

unfoldable pub serve : List Client → Conn → Pool → Pool
serve [] c p = record p { idle = c ∷ p.idle }
serve (w ∷ ws) c p = resolve w c (record p { waiters = ws; out = c ∷ p.out })

unfoldable pub checkin : Conn → Pool → Pool
checkin c p =
    if p.down then settle_breaker (record p { idle = c ∷ p.idle }) else serve p.waiters c p

-- What the pool sees of a connection that comes back.
pub record Seen : Type 0 where
  pub is_closed : Bool
  pub in_transaction : Bool
  -- A cancelled query is still draining.
  pub cancelling : Bool

unfoldable pub reclaim : Seen → Conn → Pool → Pool
reclaim s c p =
    if s.is_closed
    then refill (drop_conn c p)
    else if p.closed
    then end_conn c p
    else if s.in_transaction
    then (record p { rolling = c ∷ p.rolling })
    else checkin c p

unfoldable pub release : Seen → Conn → Pool → Pool
release s c p =
    let q : Pool = record p { out = remove c p.out } in
    if has p.out c
    then (if s.cancelling then (record q { settling = c ∷ q.settling }) else reclaim s c q)
    else p

-- The draining query has settled, and `reclaim` looks at the connection again.
unfoldable pub cancel_settled : Seen → Conn → Pool → Pool
cancel_settled s c p =
    if has p.settling c then reclaim s c (record p { settling = remove c p.settling }) else p

unfoldable pub rollback_done : Conn → Pool → Pool
rollback_done c p =
    if has p.rolling c then checkin c (record p { rolling = remove c p.rolling }) else p

unfoldable pub rollback_failed : Conn → Pool → Pool
rollback_failed c p =
    if has p.rolling c then refill (end_conn c (record p { rolling = remove c p.rolling })) else p
