-- ===== src/Pool/Bound/Steps.antt =====
-- How many connections each step leaves in the pool.
use minipg.Base.{
  ℕ, zero, suc, ◌+◌, ◌≤◌, ◌≡◌, refl, subst, ◌∙◌, Bool, true, false, ◌&&◌, none, some, List, [], ◌∷◌,
  ◌==◌, arith, length, if-split, option-split,
}
use minipg.Pool.State.{
  Conn, Client, Failure, because, pool_closed, tx_guard, pool_ended, recovery_timed_out,
  acquire_timed_out, Purpose, for_acquire, for_refill, for_probe, Pool, has, remove, purpose_of,
  forget, reject_all, init, Config, classify,
}
use minipg.Pool.Breaker.{open_for, trip, fail_waiters, nap_over, probe_connected, probe_failed}
use minipg.Pool.Checkin.{end_conn}
use minipg.Pool.Acquire.{attempt, acquire, acquire_open_failed, refill_open_failed}
use minipg.Pool.Events.{
  opened, open_done, not_opened, open_failed, resume, recovery_timeout, acquire_timeout,
  idle_timeout, end, Event, acquires, resumes, open_succeeds, open_fails, releases, cancel_settles,
  rollback_succeeds, rollback_fails, nap_ends, recovery_times_out, acquire_times_out,
  idle_times_out, ends, step, run,
}
use minipg.Pool.Kept.{
  kept-reject, kept-reject_all, kept-fail_waiters, kept-settle_breaker, kept-trip, class-split,
}
use minipg.Pool.Bound.Checkouts.{
  Fit, as_before, cancel_settled-Fit, check_out-Fit, checkout-Fit, drop-Fit, release-Fit,
  rollback_done-Fit, rollback_failed-Fit,
}

more_room : (k : ℕ) (p : Pool) → Fit k p → Fit (suc k) p
more_room k p h = record { few = omega (arith, h.few); allowed = omega (arith, h.allowed) }

attempt-Fit :
    (dead : Conn → Bool) (g : Bool) (k : ℕ) (cl : Client) (p : Pool)
    → Fit k p
    → Fit k (attempt dead g cl p)
unfolding attempt
attempt-Fit dead g k cl p h =
    if-split (Fit k) p.closed (λ e. as_before k (kept-reject cl pool_closed p) h)
      (λ e.
        if-split (Fit k) g (λ u. as_before k (kept-reject cl tx_guard p) h)
          (λ u.
            option-split (Fit k) p.broken
              (λ n.
                if-split (Fit k) (p.down && p.rc_enabled) (λ d. h)
                  (λ d. checkout-Fit dead k cl p h))
              (λ b n. as_before k (kept-reject cl (because b) p) h)))

acquire_open_failed-Fit :
    (dead : Conn → Bool) (f : Failure) (k : ℕ) (cl : Client) (p : Pool)
    → Fit k p
    → Fit k (acquire_open_failed dead f cl p)
unfolding acquire_open_failed
acquire_open_failed-Fit dead f k cl p h =
    let m : Fit k (trip f p) = as_before k (kept-trip f p) h in
    if-split (Fit k) p.rc_enabled
      (λ e.
        option-split (Fit k) (trip f p).broken (λ n. attempt-Fit dead false k cl (trip f p) m)
          (λ b n. as_before k (kept-reject cl (because b) (trip f p)) m))
      (λ e. as_before k (kept-reject cl (because f) p) h)

refill_open_failed-Fit :
    (f : Failure) (k : ℕ) (w : Client) (p : Pool) → Fit k p → Fit k (refill_open_failed f w p)
unfolding refill_open_failed
refill_open_failed-Fit f k w p h =
    let q : Pool = trip f (record p { waiters = w ∷ p.waiters }) in
    let m : Fit k q = as_before k (kept-trip f (record p { waiters = w ∷ p.waiters })) h in
    if-split (Fit k) p.rc_enabled
      (λ e.
        option-split (Fit k) q.broken (λ n. m)
          (λ b n. as_before k (kept-fail_waiters (because b) q) m))
      (λ e. as_before k (kept-reject w (because f) p) h)

probe_failed-Fit : (f : Failure) (k : ℕ) (p : Pool) → Fit k p → Fit k (probe_failed f p)
unfolding probe_failed
probe_failed-Fit f k p h =
    class-split (Fit k) (classify f)
      (as_before k (kept-settle_breaker (record p { last_probe_error = some f; broken = some f }))
        h)
      (if-split (Fit k) p.down (λ d. if-split (Fit k) p.closed (λ u. h) (λ u. h)) (λ d. h))

not_opened-Fit :
    (q : Purpose) (dead : Conn → Bool) (f : Failure) (k : ℕ) (p : Pool)
    → Fit k p
    → Fit k (not_opened q dead f p)
not_opened-Fit (for_acquire cl) dead f k p h = acquire_open_failed-Fit dead f k cl p h
not_opened-Fit (for_refill w) dead f k p h = refill_open_failed-Fit f k w p h
not_opened-Fit for_probe dead f k p h = probe_failed-Fit f k p h

opened-Fit : (q : Purpose) (k x : ℕ) (p : Pool) → Fit k p → Fit k (opened q x p)
unfolding probe_connected
opened-Fit (for_acquire cl) k x p h = check_out-Fit k x cl p h
opened-Fit (for_refill w) k x p h = check_out-Fit k x w p h
opened-Fit for_probe k x p h =
    as_before k (kept-settle_breaker (record p { idle = x ∷ p.idle; last_probe_error = none })) h

open_done-Fit : (k x : ℕ) (p : Pool) → Fit k p → Fit k (open_done x p)
unfolding open_done
open_done-Fit k x p h =
    option-split (Fit k) (purpose_of x p.opening) (λ n. h)
      (λ q e. opened-Fit q k x (record p { opening = forget x p.opening }) h)

open_failed-Fit :
    (dead : Conn → Bool) (k x : ℕ) (f : Failure) (p : Pool)
    → Fit k p
    → Fit k (open_failed dead x f p)
unfolding open_failed
open_failed-Fit dead k x f p h =
    option-split (Fit k) (purpose_of x p.opening) (λ n. h)
      (λ q e.
        not_opened-Fit q dead f k (record p { opening = forget x p.opening; all = remove x p.all })
          (drop-Fit k x p h))

-- The probe does not look at max: a round of it adds one connection at most.
nap_over-Fit : (n k : ℕ) (p : Pool) → Fit k p → Fit (suc k) (nap_over n p)
unfolding nap_over open_for
nap_over-Fit zero k p h = more_room k p h
nap_over-Fit (suc n) k p h =
    if-split (Fit (suc k)) p.down
      (λ d.
        if-split (Fit (suc k)) p.closed (λ u. more_room k p h)
          (λ u. record { few = omega (arith, h.few); allowed = omega (arith, h.allowed) }))
      (λ d. more_room k p h)

-- Timers, and the end of the pool.
idle_timeout-Fit : (k x : ℕ) (p : Pool) → Fit k p → Fit k (idle_timeout x p)
unfolding idle_timeout end_conn
idle_timeout-Fit k x p h =
    if-split (Fit k) (p.idle_ms == 0) (λ z. h)
      (λ z. if-split (Fit k) (has p.idle x) (λ e. drop-Fit k x p h) (λ e. h))

recovery_timeout-Fit : (k : ℕ) (cl : Client) (p : Pool) → Fit k p → Fit k (recovery_timeout cl p)
unfolding recovery_timeout
recovery_timeout-Fit k cl p h =
    if-split (Fit k) (has p.recovered cl) (λ e. as_before k (kept-reject cl recovery_timed_out _) h)
      (λ e. h)

acquire_timeout-Fit : (k : ℕ) (cl : Client) (p : Pool) → Fit k p → Fit k (acquire_timeout cl p)
unfolding acquire_timeout
acquire_timeout-Fit k cl p h =
    if-split (Fit k) (has p.timers cl) (λ e. as_before k (kept-reject cl acquire_timed_out _) h)
      (λ e. h)

resume-Fit :
    (dead : Conn → Bool) (k : ℕ) (cl : Client) (p : Pool) → Fit k p → Fit k (resume dead cl p)
unfolding resume
resume-Fit dead k cl p h =
    if-split (Fit k) (has p.woken cl)
      (λ e. checkout-Fit dead k cl (record p { woken = remove cl p.woken }) h) (λ e. h)

end-Fit : (k : ℕ) (p : Pool) → Fit k p → Fit k (end p)
unfolding end
end-Fit k p h =
    let q : Pool = fail_waiters pool_ended (record p { closed = true }) in
    let e : Fit k (reject_all q.recovered pool_closed (record q { recovered = [] })) =
      as_before k
        (kept-reject_all q.recovered pool_closed (record q { recovered = [] })
          ∙ kept-fail_waiters pool_ended (record p { closed = true }))
        h in
    record { few = omega arith; allowed = e.allowed }

-- The rounds of the probe among the events.
unfoldable pub rounds : List Event → ℕ
rounds [] = 0
rounds (nap_ends ∷ es) = suc (rounds es)
rounds (_ ∷ es) = rounds es

abbrev allowance : Event → ℕ → ℕ
allowance nap_ends k = suc k
allowance _ k = k

step-Fit : (e : Event) (k : ℕ) (p : Pool) → Fit k p → Fit (allowance e k) (step e p)
unfolding step acquire
step-Fit (acquires dead g cl) k p h =
    attempt-Fit dead g k cl (record p { pending = cl ∷ p.pending }) h
step-Fit (resumes dead cl) k p h = resume-Fit dead k cl p h
step-Fit (open_succeeds x) k p h = open_done-Fit k x p h
step-Fit (open_fails dead x f) k p h = open_failed-Fit dead k x f p h
step-Fit (releases s x) k p h = release-Fit s k x p h
step-Fit (cancel_settles s x) k p h = cancel_settled-Fit s k x p h
step-Fit (rollback_succeeds x) k p h = rollback_done-Fit k x p h
step-Fit (rollback_fails x) k p h = rollback_failed-Fit k x p h
step-Fit nap_ends k p h = nap_over-Fit p.naps k p h
step-Fit (recovery_times_out cl) k p h = recovery_timeout-Fit k cl p h
step-Fit (acquire_times_out cl) k p h = acquire_timeout-Fit k cl p h
step-Fit (idle_times_out x) k p h = idle_timeout-Fit k x p h
step-Fit ends k p h = end-Fit k p h

rounds-allowance :
    (e : Event) (es : List Event) (k : ℕ) → rounds es + allowance e k ≡ rounds (e ∷ es) + k
unfolding rounds
rounds-allowance e es k = by_cases e
  where
    by_cases : (e : Event) → rounds es + allowance e k ≡ rounds (e ∷ es) + k
    by_cases nap_ends = omega arith
    by_cases (acquires _ _ _) = refl
    by_cases (resumes _ _) = refl
    by_cases (open_succeeds _) = refl
    by_cases (open_fails _ _ _) = refl
    by_cases (releases _ _) = refl
    by_cases (cancel_settles _ _) = refl
    by_cases (rollback_succeeds _) = refl
    by_cases (rollback_fails _) = refl
    by_cases (recovery_times_out _) = refl
    by_cases (acquire_times_out _) = refl
    by_cases (idle_times_out _) = refl
    by_cases ends = refl

run-Fit : (es : List Event) (k : ℕ) (p : Pool) → Fit k p → Fit (rounds es + k) (run es p)
unfolding run rounds
run-Fit [] k p h = subst (λ n. Fit n p) (omega arith) h
run-Fit (e ∷ es) k p h =
    subst (λ n. Fit n (run es (step e p))) (rounds-allowance e es k)
      (run-Fit es (allowance e k) (step e p) (step-Fit e k p h))

-- Whatever the order of calls and events, from a new pool on: it has at most `max` connections, open
-- or being opened, and one more for each round of the recovery probe.
pub run-init-Fit :
    (cfg : Config) (es : List Event) → length (run es (init cfg)).all ≤ rounds es + cfg.max
unfolding init
run-init-Fit cfg es =
    (run-Fit es cfg.max (init cfg) (record { few = omega arith; allowed = omega arith })).few
