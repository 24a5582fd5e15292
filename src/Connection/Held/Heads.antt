-- ===== src/Connection/Held/Heads.antt =====
-- A change of the task at the head that leaves its number and its promise alone.
use minipg.Base.{ℕ, ◌≡◌, refl, ◌∙◌, not, ◌&&◌, List, [], ◌∷◌, if-split, arith}
use minipg.Connection.State.{Task, Error, Conn}
use minipg.Connection.Events.{on_head, has_no_error, with_error, with_copy_out}
use minipg.Connection.Held.View.{total, unsettled, IsHeld}

total-on_head :
    (f : Task → Task)
    → ((t : Task) → ((f t).id ≡ t.id) × ((f t).settled ≡ t.settled))
    → (x : ℕ) (ts : List Task) → total x (on_head f ts) ≡ total x ts
unfolding total
total-on_head f k x [] = refl
total-on_head f k x (t ∷ ts) = ground (arith, k t)

unsettled-on_head :
    (f : Task → Task)
    → ((t : Task) → ((f t).id ≡ t.id) × ((f t).settled ≡ t.settled))
    → (x : ℕ) (ts : List Task) → unsettled x (on_head f ts) ≡ unsettled x ts
unfolding unsettled
unsettled-on_head f k x [] = refl
unsettled-on_head f k x (t ∷ ts) = ground (arith, k t)

-- A change of the head that leaves its number and its promise alone.
pub on_head-IsHeld :
    (f : Task → Task) (c : Conn)
    → ((t : Task) → ((f t).id ≡ t.id) × ((f t).settled ≡ t.settled))
    → IsHeld [] c
    → IsHeld [] (record c { inflight = on_head f c.inflight })
on_head-IsHeld f c k h = record {
  at = λ x. record {
    single = rw (total-on_head f k x c.inflight) (h.at x).single;
    unborn = λ l. rw (total-on_head f k x c.inflight) ((h.at x).unborn l);
    headless = (h.at x).headless;
    matched = rw (unsettled-on_head f k x c.inflight) (h.at x).matched;
    quiet = (h.at x).quiet;
    emptied = λ l. rw (total-on_head f k x c.inflight) ((h.at x).emptied l);
    resting =
        λ l. (((h.at x).resting l).0, total-on_head f k x c.inflight ∙ ((h.at x).resting l).1);
    attempting = (h.at x).attempting;
    fresh = (h.at x).fresh;
  };
}

pub with_error-kept :
    (e : Error) (t : Task) → ((with_error e t).id ≡ t.id) × ((with_error e t).settled ≡ t.settled)
unfolding with_error
with_error-kept e t = (refl, refl)

pub with_copy_out-kept :
    (t : Task) → ((with_copy_out t).id ≡ t.id) × ((with_copy_out t).settled ≡ t.settled)
unfolding with_copy_out with_error
with_copy_out-kept t =
    if-split (λ (u : Task). (u.id ≡ t.id) × (u.settled ≡ t.settled))
      (not t.copy_out && has_no_error t.error) (λ k. (refl, refl)) (λ k. (refl, refl))
