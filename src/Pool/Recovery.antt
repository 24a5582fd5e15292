-- ===== src/Pool/Recovery.antt =====
-- What becomes of the calls that are parked: after an outage, and at the end of the pool.
use minipg.Base.{
  ℕ, ◌+◌, ◌-◌, ◌<◌, ◌≤◌, ◌≡◌, refl, ap, subst, ◌∙◌, Bool, true, false, none, List, [], ◌∷◌,
  if-split, option-split, one, count, count-remove, count_absent, arith,
}
use minipg.Pool.State.{
  Conn, Client, Reason, Effect, granted, rejected, ended, because, pool_closed, pool_ended, Pool,
  has, settle, reject, reject_all,
}
use minipg.Pool.Breaker.{settle_breaker, wake, fail_waiters, probe_connected}
use minipg.Pool.Events.{end_all, end}

-- The queue of those who wait for a connection, the idle connections, and whether the pool is down or closed.
pub record Queue : Type 0 where
  pub waiting : List Client
  pub free : List Conn
  pub outage : Bool
  pub recovering : List Client
  pub shut : Bool

abbrev pub queue : Pool → Queue
queue p = record {
  waiting = p.waiters;
  free = p.idle;
  outage = p.down;
  recovering = p.recovered;
  shut = p.closed;
}

queue-reject_all :
    (cls : List Client) (r : Reason) (p : Pool) → queue (reject_all cls r p) ≡ queue p
unfolding reject_all reject settle
queue-reject_all [] r p = refl
queue-reject_all (cl ∷ cls) r p =
    queue-reject_all cls r (reject cl r p)
    ∙ if-split (λ (q : Pool). queue q ≡ queue p) (has p.pending cl) (λ e. refl) (λ e. refl)

queue-settle_breaker :
    (p : Pool) → queue (settle_breaker p) ≡ queue (record p { down = false; recovered = [] })
unfolding settle_breaker wake
queue-settle_breaker p =
    if-split P p.closed (λ e. queue-reject_all p.recovered pool_closed _)
      (λ e. option-split P p.broken (λ n. refl) (λ b n. queue-reject_all p.recovered (because b) _))
  where
    P : Pool → Type 0
    P q = queue q ≡ queue (record p { down = false; recovered = [] })

-- When the probe of an outage connects, the calls in the queue stay in it, although the pool is up
-- again and the new connection is idle.
pub probe_connected-waiters :
    (c : Conn) (p : Pool)
    → ((probe_connected c p).waiters ≡ p.waiters)
      × ((probe_connected c p).idle ≡ c ∷ p.idle)
      × ((probe_connected c p).down ≡ false)
unfolding probe_connected
probe_connected-waiters c p =
    let e = queue-settle_breaker (record p { idle = c ∷ p.idle; last_probe_error = none }) in
    (ap (λ (q : Queue). q.waiting) e, ap (λ (q : Queue). q.free) e, ap (λ (q : Queue). q.outage) e)

-- How often a connection was ended, by the log.
unfoldable pub endings : Conn → List Effect → ℕ
endings c [] = 0
endings c (ended d ∷ log) = one d c + endings c log
endings c (granted cl d ∷ log) = endings c log
endings c (rejected cl r ∷ log) = endings c log

-- Nothing but the promises of the calls and the log.
pending-reject :
    (x cl : Client) (r : Reason) (p : Pool)
    → count x (reject cl r p).pending ≤ count x p.pending - one cl x
unfolding reject settle
pending-reject x cl r p =
    if-split (λ (q : Pool). count x q.pending ≤ count x p.pending - one cl x) (has p.pending cl)
      (λ e. omega (arith, count-remove x cl p.pending e)) (λ e. absent e)
  where
    absent : has p.pending cl ≡ false → count x p.pending ≤ count x p.pending - one cl x
    absent e = ground (arith, count_absent cl p.pending e)

pending-reject_all :
    (x : Client) (cls : List Client) (r : Reason) (p : Pool)
    → count x (reject_all cls r p).pending ≤ count x p.pending - count x cls
unfolding reject_all count
pending-reject_all x [] r p = omega arith
pending-reject_all x (cl ∷ cls) r p =
    omega (arith, pending-reject_all x cls r (reject cl r p), pending-reject x cl r p)

outside-reject_all :
    (c : Conn) (cls : List Client) (r : Reason) (p : Pool)
    → (endings c (reject_all cls r p).log ≡ endings c p.log) × ((reject_all cls r p).all ≡ p.all)
unfolding reject_all reject settle endings
outside-reject_all c [] r p = (refl, refl)
outside-reject_all c (cl ∷ cls) r p =
    let h = outside-reject_all c cls r (reject cl r p) in
    let k =
      if-split (λ (q : Pool). (endings c q.log ≡ endings c p.log) × (q.all ≡ p.all))
        (has p.pending cl) (λ e. (refl, refl)) (λ e. (refl, refl)) in
    (h.0 ∙ k.0, h.1 ∙ k.1)

endings-end_all :
    (c : Conn) (cs : List Conn) (log : List Effect)
    → endings c (end_all cs log) ≡ count c cs + endings c log
unfolding endings end_all count
endings-end_all c [] log = omega arith
endings-end_all c (d ∷ cs) log = omega (arith, endings-end_all c cs (ended d ∷ log))

-- `end` settles whoever is parked, and ends every connection: the promise of a call that waits for a
-- connection or for recovery is pending no more, where no promise is pending twice; every connection is
-- ended once more for each time that the pool has it; and afterwards nobody is parked, the pool has
-- no connection, idle or checked out, and is closed.
pub end-settles :
    (x : Client) (c : Conn) (p : Pool)
    → count x p.pending ≤ 1
    → 0 < count x p.waiters + count x p.recovered
    → let q = end p in
      (count x q.pending ≡ 0)
      × (endings c q.log ≡ count c p.all + endings c p.log)
      × ((queue q
            ≡ record { waiting = []; free = []; outage = p.down; recovering = []; shut = true })
          × ((q.out ≡ []) × (q.all ≡ [])))
unfolding end fail_waiters
end-settles x c p o h =
    let shut : Pool = record p { closed = true; waiters = [] } in
    let q : Pool = reject_all p.waiters pool_ended shut in
    let woken : Pool = record q { recovered = [] } in
    let e = queue-reject_all p.waiters pool_ended shut in
    let same : q.recovered ≡ p.recovered = ap (λ (k : Queue). k.recovering) e in
    let r : Pool = reject_all q.recovered pool_closed woken in
    let settled : count x r.pending ≤ count x q.pending - count x p.recovered =
      subst (λ cls. count x r.pending ≤ count x q.pending - count x cls) same
        (pending-reject_all x q.recovered pool_closed woken) in
    let first = outside-reject_all c p.waiters pool_ended shut in
    let second = outside-reject_all c q.recovered pool_closed woken in
    (
      omega (arith, settled, pending-reject_all x p.waiters pool_ended shut, o, h),
      endings-end_all c r.all r.log
          ∙ ap (λ n. n + endings c r.log) (ap (count c) (second.1 ∙ first.1))
          ∙ ap (λ n. count c p.all + n) (second.0 ∙ first.0),
      (
        ap (λ (k : Queue). record k { free = [] }) (queue-reject_all q.recovered pool_closed woken)
            ∙ ap (λ (k : Queue). record k { free = []; recovering = [] }) e,
        (refl, refl),
      ),
    )
