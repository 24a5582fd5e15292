-- ===== src/Pool/Kept.antt =====
-- What the settling of promises and the circuit breaker leave alone: the places where connections are.
use minipg.Base.{◌≡◌, refl, ◌∙◌, ◌||◌, List, [], ◌∷◌, inl, inr, Bool-cases, if-split, option-split}
use minipg.Pool.State.{
  Conn, Client, Failure, fatal, unavailable, classify, Class, Reason, Effect, because, pool_closed,
  Purpose, Config, Pool, has, settle, reject, reject_all, resolve,
}
use minipg.Pool.Breaker.{wake, settle_breaker, trip, fail_waiters}

pub record Holding : Type 0 where
  pub idle : List Conn
  pub out : List Conn
  pub opening : List (Conn × Purpose)
  pub settling : List Conn
  pub rolling : List Conn
  pub next_conn : Conn

abbrev pub holding : Pool → Holding
holding p = record {
  idle = p.idle;
  out = p.out;
  opening = p.opening;
  settling = p.settling;
  rolling = p.rolling;
  next_conn = p.next_conn;
}

-- What the settling of promises and the breaker leave alone.
pub record Kept : Type 0 where
  pub places : Holding
  pub all : List Conn
  pub config : Config

abbrev pub kept : Pool → Kept
kept p = record { places = holding p; all = p.all; config = p.config }

kept-settle : (cl : Client) (e : Effect) (p : Pool) → kept (settle cl e p) ≡ kept p
unfolding settle
kept-settle cl e p = elim (Bool-cases (has p.pending cl)) [ inl h ↦ rw h | inr h ↦ rw h ]

pub kept-resolve : (cl : Client) (c : Conn) (p : Pool) → kept (resolve cl c p) ≡ kept p
unfolding resolve
kept-resolve cl c p = kept-settle cl _ p

pub kept-reject : (cl : Client) (r : Reason) (p : Pool) → kept (reject cl r p) ≡ kept p
unfolding reject
kept-reject cl r p = kept-settle cl _ p

pub kept-reject_all :
    (cls : List Client) (r : Reason) (p : Pool) → kept (reject_all cls r p) ≡ kept p
unfolding reject_all
kept-reject_all [] r p = refl
kept-reject_all (cl ∷ cls) r p = kept-reject_all cls r (reject cl r p) ∙ kept-reject cl r p

pub kept-fail_waiters : (r : Reason) (p : Pool) → kept (fail_waiters r p) ≡ kept p
unfolding fail_waiters
kept-fail_waiters r p = kept-reject_all p.waiters r _

kept-wake : (cls : List Client) (p : Pool) → kept (wake cls p) ≡ kept p
unfolding wake
kept-wake cls p =
    if-split P p.closed (λ h. kept-reject_all cls pool_closed p)
      (λ h. option-split P p.broken (λ n. refl) (λ e n. kept-reject_all cls (because e) p))
  where
    P : Pool → Type 0
    P q = kept q ≡ kept p

pub kept-settle_breaker : (p : Pool) → kept (settle_breaker p) ≡ kept p
unfolding settle_breaker
kept-settle_breaker p = kept-wake p.recovered _

-- What holds of the pool for both classes of an error holds after a look at the class.
pub class-split {ℓ} :
    (P : Pool → Type ℓ) (k : Class) {x y : Pool}
    → P x
    → P y
    → P (elim k [ fatal ↦ x | unavailable ↦ y ])
class-split P fatal f u = f
class-split P unavailable f u = u

pub kept-trip : (e : Failure) (p : Pool) → kept (trip e p) ≡ kept p
unfolding trip
kept-trip e p =
    class-split P (classify e) (kept-settle_breaker _)
      (if-split P (p.down || p.closed) (λ h. refl) (λ h. refl))
  where
    P : Pool → Type 0
    P q = kept q ≡ kept p
