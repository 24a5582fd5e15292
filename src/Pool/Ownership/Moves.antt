-- ===== src/Pool/Ownership/Moves.antt =====
-- Each step moves a connection from one place to another, or drops it.
unfoldable pub use minipg.Base.{one, count}
pub use minipg.Base.{count-remove, count-remove_le}
use minipg.Base.{
  ℕ, ◌+◌, ◌≤◌, ◌≡◌, sym, subst, ◌||◌, some, List, [], ◌∷◌, inl, inr, Bool-cases, arith, ltb, length,
  if-split,
}
use minipg.Pool.State.{Conn, Client, Purpose, for_refill, Pool, purpose_of, forget}
use minipg.Pool.Breaker.{open_for}
use minipg.Pool.Checkin.{refill, refill_loop, drop_conn, end_conn, serve, checkin, Seen, reclaim}
use minipg.Pool.Kept.{Holding, holding, Kept, kept-resolve, kept-settle_breaker}

unfoldable pub count_opening : Conn → List (Conn × Purpose) → ℕ
count_opening c [] = 0
count_opening c ((x, q) ∷ xs) = one x c + count_opening c xs

unfoldable pub total : Conn → Holding → ℕ
total c h =
    count c h.idle
    + count c h.out
    + count_opening c h.opening
    + count c h.settling
    + count c h.rolling

-- A connection is in one place at most, and one that was never opened in none. With `extra` of it in
-- hand besides.
pub record Holds (c : Conn) (extra : ℕ) (h : Holding) : Type 0 where
  pub single : total c h + extra ≤ 1
  pub unborn : h.next_conn ≤ c → total c h + extra ≡ 0

abbrev pub IsOwned : Conn → Pool → Type 0
IsOwned c p = Holds c 0 (holding p)

-- The pool's places, and the connection x in hand.
abbrev pub IsOwnedWith : Conn → Conn → Pool → Type 0
IsOwnedWith c x p = Holds c (one x c) (holding p)

pub count-forget :
    (c x : Conn) (xs : List (Conn × Purpose)) (q : Purpose)
    → purpose_of x xs ≡ some q
    → count_opening c xs ≡ one x c + count_opening c (forget x xs)
unfolding count_opening purpose_of forget
count-forget c x [] q h = cc
count-forget c x ((y, r) ∷ xs) q h = ground (arith, count-forget c x xs q)

-- Two states with the same places.
pub moved : (c : Conn) {g h : Kept} → g ≡ h → Holds c 0 h.places → Holds c 0 g.places
moved c e h = subst (λ (k : Kept). Holds c 0 k.places) (sym e) h

-- What is in hand may be dropped.
pub drop-IsOwned : (c x : Conn) (p : Pool) → IsOwnedWith c x p → IsOwned c p
drop-IsOwned c x p h = record {
  single = omega (arith, h.single);
  unborn = λ k. omega (arith, h.unborn k);
}

-- A new connection has a number that none had.
pub open_for-IsOwned : (c : Conn) (q : Purpose) (p : Pool) → IsOwned c p → IsOwned c (open_for q p)
unfolding open_for total count count_opening
open_for-IsOwned c q p h = record {
  single = ground (arith, h.single, h.unborn);
  unborn = λ k. ground (arith, h.unborn);
}

refill_loop-IsOwned :
    (c : Conn) (ws : List Client) (p : Pool) → IsOwned c p → IsOwned c (refill_loop ws p)
unfolding refill_loop
refill_loop-IsOwned c [] p h = h
refill_loop-IsOwned c (w ∷ ws) p h = elim (Bool-cases (ltb (length p.all) p.max)) [
  | inl room ↦
      rw room (
        refill_loop-IsOwned c ws (open_for (for_refill w) p)
          (open_for-IsOwned c (for_refill w) p h))
  | inr full ↦ rw full h
]

pub refill-IsOwned : (c : Conn) (p : Pool) → IsOwned c p → IsOwned c (refill p)
unfolding refill
refill-IsOwned c p h = elim (Bool-cases (p.down || p.closed)) [
  | inl e ↦ rw e h
  | inr e ↦ rw e (refill_loop-IsOwned c p.waiters p h)
]

serve-IsOwned :
    (c x : Conn) (ws : List Client) (p : Pool) → IsOwnedWith c x p → IsOwned c (serve ws x p)
unfolding serve total count
serve-IsOwned c x [] p h = record {
  single = omega (arith, h.single);
  unborn = λ k. omega (arith, h.unborn k);
}
serve-IsOwned c x (w ∷ ws) p h =
    moved c (kept-resolve w x (record p { waiters = ws; out = x ∷ p.out }))
      (record { single = omega (arith, h.single); unborn = λ k. omega (arith, h.unborn k) })

-- A connection in hand goes to the idle ones or to a waiter.
pub checkin-IsOwned : (c x : Conn) (p : Pool) → IsOwnedWith c x p → IsOwned c (checkin x p)
unfolding checkin total count
checkin-IsOwned c x p h =
    if-split (IsOwned c) p.down
      (λ e.
        moved c (kept-settle_breaker (record p { idle = x ∷ p.idle }))
          (record { single = omega (arith, h.single); unborn = λ k. omega (arith, h.unborn k) }))
      (λ e. serve-IsOwned c x p.waiters p h)

pub reclaim-IsOwned :
    (s : Seen) (c x : Conn) (p : Pool) → IsOwnedWith c x p → IsOwned c (reclaim s x p)
unfolding reclaim drop_conn end_conn total count
reclaim-IsOwned s c x p h =
    if-split (IsOwned c) s.is_closed (λ e. refill-IsOwned c (drop_conn x p) (drop-IsOwned c x p h))
      (λ e.
        if-split (IsOwned c) p.closed (λ k. drop-IsOwned c x p h)
          (λ k.
            if-split (IsOwned c) s.in_transaction
              (λ t. record {
                single = omega (arith, h.single);
                unborn = λ k. omega (arith, h.unborn k);
              })
              (λ t. checkin-IsOwned c x p h)))
