-- ===== src/Connection/Held/View.antt =====
-- The part of the state that decides which promises are pending, and the invariant on it.
use minipg.Base.{
  ℕ, ◌+◌, ◌≤◌, ◌≡◌, sym, subst, Bool, true, false, not, ◌&&◌, ◌||◌, Option, List, [], ◌∷◌, ◌++◌,
  if◌then◌else◌, one, count, arith,
}
use minipg.Connection.State.{Task, is_closed, is_ready, Conn}
use minipg.Connection.Cancel.{is_head, canceled_head}

-- How many tasks of the list have the number x, and how many of them are not settled.
unfoldable pub total : ℕ → List Task → ℕ
total x [] = 0
total x (t ∷ ts) = one t.id x + total x ts

abbrev pub unpaid : ℕ → Task → ℕ
unpaid x t = if t.settled then 0 else one t.id x

unfoldable pub unsettled : ℕ → List Task → ℕ
unsettled x [] = 0
unsettled x (t ∷ ts) = unpaid x t + unsettled x ts

pub record View : Type 0 where
  pub pending : List ℕ
  pub queue : List Task
  pub inflight : List Task
  pub next_task : ℕ
  pub head : Option ℕ
  pub is_down : Bool
  pub is_up : Bool
  pub is_attempt : Bool
  -- Between attempts, and before the first.
  pub is_asleep : Bool
  pub is_new : Bool
  pub has_socket : Bool

-- `end` marks the connection closed before it takes its tasks out: `strict` is false meanwhile.
abbrev pub view_in : Bool → Conn → View
view_in strict c = record {
  pending = c.pending;
  queue = c.queue;
  inflight = c.inflight;
  next_task = c.next_task;
  head = canceled_head c.pending_cancel;
  is_down = strict && is_closed c.status;
  is_up = is_ready c.status;
  is_attempt = c.is_connecting;
  is_asleep = c.sleeping;
  is_new = not c.connect_called;
  has_socket = c.socket;
}

abbrev pub view : Conn → View
view c = view_in true c

-- With the tasks `hand` taken out of the two lists: a number is in one place at most, its promise is
-- pending exactly as often as a task with it is held that is not settled, the promise of a canceled
-- head is settled, a closed connection holds no task,
-- and one that is not connected has none in flight.
pub record Holds (x : ℕ) (hand : List Task) (v : View) : Type 0 where
  pub single : total x v.queue + total x v.inflight + total x hand ≤ 1
  pub unborn : v.next_task ≤ x → total x v.queue + total x v.inflight + total x hand ≡ 0
  pub headless : v.next_task ≤ x → is_head x v.head ≡ false
  pub matched : count x v.pending ≡ unsettled x v.queue + unsettled x v.inflight + unsettled x hand
  pub quiet : is_head x v.head ≡ true → count x v.pending ≡ 0
  pub emptied : v.is_down ≡ true → total x v.queue + total x v.inflight ≡ 0
  pub resting :
      (v.is_attempt || (v.is_asleep || v.is_new)) ≡ true
      → (v.is_up ≡ false) × (total x v.inflight ≡ 0)
  pub attempting : v.is_attempt ≡ true → (v.is_asleep || v.is_new) ≡ false
  pub fresh : v.is_new ≡ true → (v.is_asleep || v.has_socket) ≡ false

abbrev pub HeldBy : List Task → View → Type 0
HeldBy hand v = (x : ℕ) → Holds x hand v

pub record IsHeldIn (strict : Bool) (hand : List Task) (c : Conn) : Type 0 where
  pub at : HeldBy hand (view_in strict c)

abbrev pub IsHeld : List Task → Conn → Type 0
IsHeld hand c = IsHeldIn true hand c

pub unsettled_le : (x : ℕ) (ts : List Task) → unsettled x ts ≤ total x ts
unfolding unsettled total
unsettled_le x [] = omega arith
unsettled_le x (t ∷ ts) = ground (arith, unsettled_le x ts)

pub total-append : (x : ℕ) (ts us : List Task) → total x (ts ++ us) ≡ total x ts + total x us
unfolding total
total-append x [] us = omega arith
total-append x (t ∷ ts) us = omega (arith, total-append x ts us)

pub unsettled-append :
    (x : ℕ) (ts us : List Task) → unsettled x (ts ++ us) ≡ unsettled x ts + unsettled x us
unfolding unsettled
unsettled-append x [] us = omega arith
unsettled-append x (t ∷ ts) us = omega (arith, unsettled-append x ts us)

-- Two states with the same view.
pub seen : (hand : List Task) (c d : Conn) → view d ≡ view c → IsHeld hand c → IsHeld hand d
seen hand c d e h = record { at = subst (HeldBy hand) (sym e) h.at }
