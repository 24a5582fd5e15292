-- ===== src/Pool/Bound/Checkouts.antt =====
-- How many connections checkout and checkin leave in the pool.
use minipg.Base.{
  ℕ, ◌≤◌, ◌≡◌, sym, subst, Bool, true, ◌||◌, List, [], ◌∷◌, arith, ltb, length, ltb→lt, if-split,
  option-split,
}
use minipg.Pool.State.{Conn, Client, Purpose, for_acquire, for_refill, Pool, has, remove, Config}
use minipg.Pool.Breaker.{open_for}
use minipg.Pool.Checkin.{
  refill, refill_loop, serve, drop_conn, end_conn, Seen, reclaim, release, cancel_settled,
  rollback_done, rollback_failed, checkin,
}
use minipg.Pool.Acquire.{Taken, take_idle, wait_for_free, open_or_wait, checkout, check_out}
use minipg.Pool.Kept.{Kept, kept-resolve, kept-settle_breaker}

-- The pool has at most k connections, and k is not below its max.
pub record Fits (k : ℕ) (all : List Conn) (cfg : Config) : Type 0 where
  pub few : length all ≤ k
  pub allowed : cfg.max ≤ k

abbrev pub Fit : ℕ → Pool → Type 0
Fit k p = Fits k p.all p.config

pub as_before : (k : ℕ) {g h : Kept} → g ≡ h → Fits k h.all h.config → Fits k g.all g.config
as_before k e h = subst (λ (g : Kept). Fits k g.all g.config) (sym e) h

pub length-remove : (c : Conn) (xs : List Conn) → length (remove c xs) ≤ length xs
unfolding remove
length-remove c [] = omega arith
length-remove c (x ∷ xs) = ground (arith, length-remove c xs)

pub drop-Fit : (k x : ℕ) (p : Pool) → Fit k p → Fit k (record p { all = remove x p.all })
drop-Fit k x p h = record { few = omega (arith, h.few, length-remove x p.all); allowed = h.allowed }

-- Under the test of the code there is room for one more.
pub room-Fit :
    (k : ℕ) (q : Purpose) (p : Pool)
    → ltb (length p.all) p.max ≡ true
    → Fit k p
    → Fit k (open_for q p)
unfolding open_for
room-Fit k q p e h = record {
  few = omega (arith, ltb→lt (length p.all) p.max e, h.allowed);
  allowed = h.allowed;
}

pub refill_loop-Fit : (k : ℕ) (ws : List Client) (p : Pool) → Fit k p → Fit k (refill_loop ws p)
unfolding refill_loop
refill_loop-Fit k [] p h = h
refill_loop-Fit k (w ∷ ws) p h =
    if-split (Fit k) (ltb (length p.all) p.max)
      (λ e. refill_loop-Fit k ws (open_for (for_refill w) p) (room-Fit k (for_refill w) p e h))
      (λ e. h)

pub refill-Fit : (k : ℕ) (p : Pool) → Fit k p → Fit k (refill p)
unfolding refill
refill-Fit k p h =
    if-split (Fit k) (p.down || p.closed) (λ e. h) (λ e. refill_loop-Fit k p.waiters p h)

pub serve-Fit : (k x : ℕ) (ws : List Client) (p : Pool) → Fit k p → Fit k (serve ws x p)
unfolding serve
serve-Fit k x [] p h = h
serve-Fit k x (w ∷ ws) p h =
    as_before k (kept-resolve w x (record p { waiters = ws; out = x ∷ p.out })) h

pub checkin-Fit : (k x : ℕ) (p : Pool) → Fit k p → Fit k (checkin x p)
unfolding checkin
checkin-Fit k x p h =
    if-split (Fit k) p.down
      (λ e. as_before k (kept-settle_breaker (record p { idle = x ∷ p.idle })) h)
      (λ e. serve-Fit k x p.waiters p h)

pub reclaim-Fit : (s : Seen) (k x : ℕ) (p : Pool) → Fit k p → Fit k (reclaim s x p)
unfolding reclaim drop_conn end_conn
reclaim-Fit s k x p h =
    if-split (Fit k) s.is_closed (λ e. refill-Fit k (drop_conn x p) (drop-Fit k x p h))
      (λ e.
        if-split (Fit k) p.closed (λ u. drop-Fit k x p h)
          (λ u. if-split (Fit k) s.in_transaction (λ t. h) (λ t. checkin-Fit k x p h)))

-- The calls of the clients.
pub release-Fit : (s : Seen) (k x : ℕ) (p : Pool) → Fit k p → Fit k (release s x p)
unfolding release
release-Fit s k x p h =
    if-split (Fit k) (has p.out x)
      (λ e.
        if-split (Fit k) s.cancelling (λ u. h)
          (λ u. reclaim-Fit s k x (record p { out = remove x p.out }) h))
      (λ e. h)

pub cancel_settled-Fit : (s : Seen) (k x : ℕ) (p : Pool) → Fit k p → Fit k (cancel_settled s x p)
unfolding cancel_settled
cancel_settled-Fit s k x p h =
    if-split (Fit k) (has p.settling x)
      (λ e. reclaim-Fit s k x (record p { settling = remove x p.settling }) h) (λ e. h)

pub rollback_done-Fit : (k x : ℕ) (p : Pool) → Fit k p → Fit k (rollback_done x p)
unfolding rollback_done
rollback_done-Fit k x p h =
    if-split (Fit k) (has p.rolling x)
      (λ e. checkin-Fit k x (record p { rolling = remove x p.rolling }) h) (λ e. h)

pub rollback_failed-Fit : (k x : ℕ) (p : Pool) → Fit k p → Fit k (rollback_failed x p)
unfolding rollback_failed end_conn
rollback_failed-Fit k x p h =
    if-split (Fit k) (has p.rolling x)
      (λ e.
        refill-Fit k (end_conn x (record p { rolling = remove x p.rolling })) (drop-Fit k x p h))
      (λ e. h)

length-take_idle :
    (dead : Conn → Bool) (xs all : List Conn) → length (take_idle dead xs all).all_left ≤ length all
unfolding take_idle
length-take_idle dead [] all = omega arith
length-take_idle dead (x ∷ xs) all =
    if-split (λ (t : Taken). length t.all_left ≤ length all) (dead x)
      (λ e. omega (arith, length-take_idle dead xs (remove x all), length-remove x all))
      (λ e. omega arith)

pub open_or_wait-Fit : (k : ℕ) (cl : Client) (p : Pool) → Fit k p → Fit k (open_or_wait cl p)
unfolding open_or_wait wait_for_free
open_or_wait-Fit k cl p h =
    if-split (Fit k) (ltb (length p.all) p.max) (λ e. room-Fit k (for_acquire cl) p e h) (λ e. h)

pub check_out-Fit : (k x : ℕ) (cl : Client) (p : Pool) → Fit k p → Fit k (check_out cl x p)
unfolding check_out
check_out-Fit k x cl p h = as_before k (kept-resolve cl x (record p { out = x ∷ p.out })) h

pub checkout-Fit :
    (dead : Conn → Bool) (k : ℕ) (cl : Client) (p : Pool) → Fit k p → Fit k (checkout dead cl p)
unfolding checkout check_out
checkout-Fit dead k cl p h =
    let t : Taken = take_idle dead p.idle p.all in
    let q : Pool = record p { idle = t.idle_left; all = t.all_left } in
    let f : Fit k q = record {
      few = omega (arith, h.few, length-take_idle dead p.idle p.all);
      allowed = h.allowed;
    } in
    option-split (Fit k) t.taken (λ n. open_or_wait-Fit k cl q f) (λ x n. check_out-Fit k x cl q f)
