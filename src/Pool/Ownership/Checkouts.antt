-- ===== src/Pool/Ownership/Checkouts.antt =====
-- A connection that is checked out, comes back, is cancelled, rolled back, or taken from the idle ones.
use minipg.Base.{
  ℕ, ◌+◌, ◌≤◌, ◌≡◌, Bool, true, Option, none, some, List, [], ◌∷◌, arith, ltb, length, if-split,
}
use minipg.Pool.State.{Conn, Client, Purpose, for_acquire, Pool, has, remove, purpose_of, forget}
use minipg.Pool.Checkin.{end_conn, Seen, release, cancel_settled, rollback_done, rollback_failed}
use minipg.Pool.Acquire.{Taken, take_idle, wait_for_free, open_or_wait, checkout, check_out}
use minipg.Pool.Kept.{kept-resolve}
use minipg.Pool.Ownership.Moves.{
  one, count, total, IsOwned, IsOwnedWith, count-remove, count-forget, moved, drop-IsOwned,
  open_for-IsOwned, refill-IsOwned, checkin-IsOwned, reclaim-IsOwned,
}

pub check_out-IsOwned :
    (c x : Conn) (cl : Client) (p : Pool) → IsOwnedWith c x p → IsOwned c (check_out cl x p)
unfolding check_out total count
check_out-IsOwned c x cl p h =
    moved c (kept-resolve cl x (record p { out = x ∷ p.out }))
      (record { single = omega (arith, h.single); unborn = λ k. omega (arith, h.unborn k) })

-- A place of the pool that holds x gives x up.
pub release-IsOwned : (s : Seen) (c x : Conn) (p : Pool) → IsOwned c p → IsOwned c (release s x p)
unfolding release total count
release-IsOwned s c x p h =
    if-split (IsOwned c) (has p.out x)
      (λ e.
        if-split (IsOwned c) s.cancelling
          (λ k. record {
            single = omega (arith, h.single, count-remove c x p.out e);
            unborn = λ k. omega (arith, h.unborn k, count-remove c x p.out e);
          })
          (λ k.
            reclaim-IsOwned s c x (record p { out = remove x p.out })
              (record {
                single = omega (arith, h.single, count-remove c x p.out e);
                unborn = λ k. omega (arith, h.unborn k, count-remove c x p.out e);
              })))
      (λ e. h)

settling_hand :
    (c x : Conn) (p : Pool)
    → has p.settling x ≡ true
    → IsOwned c p
    → IsOwnedWith c x (record p { settling = remove x p.settling })
unfolding total
settling_hand c x p e h = record {
  single = omega (arith, h.single, count-remove c x p.settling e);
  unborn = λ k. omega (arith, h.unborn k, count-remove c x p.settling e);
}

rolling_hand :
    (c x : Conn) (p : Pool)
    → has p.rolling x ≡ true
    → IsOwned c p
    → IsOwnedWith c x (record p { rolling = remove x p.rolling })
unfolding total
rolling_hand c x p e h = record {
  single = omega (arith, h.single, count-remove c x p.rolling e);
  unborn = λ k. omega (arith, h.unborn k, count-remove c x p.rolling e);
}

pub opening_hand :
    (c x : Conn) (p : Pool) (q : Purpose)
    → purpose_of x p.opening ≡ some q
    → IsOwned c p
    → IsOwnedWith c x (record p { opening = forget x p.opening })
unfolding total
opening_hand c x p q e h = record {
  single = omega (arith, h.single, count-forget c x p.opening q e);
  unborn = λ k. omega (arith, h.unborn k, count-forget c x p.opening q e);
}

pub cancel_settled-IsOwned :
    (s : Seen) (c x : Conn) (p : Pool) → IsOwned c p → IsOwned c (cancel_settled s x p)
unfolding cancel_settled
cancel_settled-IsOwned s c x p h =
    if-split (IsOwned c) (has p.settling x)
      (λ e.
        reclaim-IsOwned s c x (record p { settling = remove x p.settling })
          (settling_hand c x p e h))
      (λ e. h)

pub rollback_done-IsOwned : (c x : Conn) (p : Pool) → IsOwned c p → IsOwned c (rollback_done x p)
unfolding rollback_done
rollback_done-IsOwned c x p h =
    if-split (IsOwned c) (has p.rolling x)
      (λ e.
        checkin-IsOwned c x (record p { rolling = remove x p.rolling }) (rolling_hand c x p e h))
      (λ e. h)

pub rollback_failed-IsOwned :
    (c x : Conn) (p : Pool) → IsOwned c p → IsOwned c (rollback_failed x p)
unfolding rollback_failed end_conn
rollback_failed-IsOwned c x p h =
    if-split (IsOwned c) (has p.rolling x)
      (λ e.
        refill-IsOwned c (end_conn x (record p { rolling = remove x p.rolling }))
          (drop-IsOwned c x (record p { rolling = remove x p.rolling }) (rolling_hand c x p e h)))
      (λ e. h)

-- The idle loop leaves in the idle list what it neither evicts nor takes.
taken_count : Conn → Option Conn → ℕ
taken_count c none = 0
taken_count c (some x) = one x c

count-take_idle :
    (dead : Conn → Bool) (c : Conn) (xs all : List Conn)
    → count c (take_idle dead xs all).idle_left + taken_count c (take_idle dead xs all).taken
      ≤ count c xs
unfolding count take_idle taken_count
count-take_idle dead c [] all = omega arith
count-take_idle dead c (x ∷ xs) all =
    if-split (λ (t : Taken). count c t.idle_left + taken_count c t.taken ≤ one x c + count c xs)
      (dead x) (λ e. omega (arith, count-take_idle dead c xs (remove x all))) (λ e. omega arith)

wait_for_free-IsOwned :
    (c : Conn) (cl : Client) (p : Pool) → IsOwned c p → IsOwned c (open_or_wait cl p)
unfolding open_or_wait wait_for_free
wait_for_free-IsOwned c cl p h =
    if-split (IsOwned c) (ltb (length p.all) p.max) (λ e. open_for-IsOwned c (for_acquire cl) p h)
      (λ e. h)

taken-IsOwned :
    (c : Conn) (cl : Client) (p : Pool) (left all : List Conn) (o : Option Conn)
    → count c left + taken_count c o ≤ count c p.idle
    → IsOwned c p
    → IsOwned c (elim o [
      | some x ↦ check_out cl x (record p { idle = left; all = all })
      | none ↦ open_or_wait cl (record p { idle = left; all = all })
    ])
unfolding taken_count total
taken-IsOwned c cl p left all none k h =
    wait_for_free-IsOwned c cl (record p { idle = left; all = all })
      (record { single = omega (arith, h.single, k); unborn = λ u. omega (arith, h.unborn u, k) })
taken-IsOwned c cl p left all (some x) k h =
    check_out-IsOwned c x cl (record p { idle = left; all = all })
      (record { single = omega (arith, h.single, k); unborn = λ u. omega (arith, h.unborn u, k) })

pub checkout-IsOwned :
    (dead : Conn → Bool) (c : Conn) (cl : Client) (p : Pool)
    → IsOwned c p
    → IsOwned c (checkout dead cl p)
unfolding checkout check_out
checkout-IsOwned dead c cl p h =
    let t : Taken = take_idle dead p.idle p.all in
    taken-IsOwned c cl p t.idle_left t.all_left t.taken (count-take_idle dead c p.idle p.all) h
