-- ===== src/Pool/Ownership/Steps.antt =====
-- The steps of the pool, and the places where a connection is.
use minipg.Base.{
  ◌≤◌, ℕ, zero, suc, ◌≡◌, ◌∙◌, Bool, true, false, ◌&&◌, none, some, List, [], ◌∷◌, ◌==◌, arith,
  if-split, option-split,
}
use minipg.Pool.State.{
  Conn, Client, Failure, because, pool_closed, tx_guard, pool_ended, recovery_timed_out,
  acquire_timed_out, Purpose, for_acquire, for_refill, for_probe, Pool, has, remove, purpose_of,
  forget, reject_all, init, Config, classify,
}
use minipg.Pool.Breaker.{trip, fail_waiters, nap_over, probe_connected, probe_failed}
use minipg.Pool.Checkin.{end_conn}
use minipg.Pool.Acquire.{attempt, acquire, acquire_open_failed, refill_open_failed}
use minipg.Pool.Events.{
  opened, open_done, not_opened, open_failed, resume, recovery_timeout, acquire_timeout,
  idle_timeout, end, Event, acquires, resumes, open_succeeds, open_fails, releases, cancel_settles,
  rollback_succeeds, rollback_fails, nap_ends, recovery_times_out, acquire_times_out,
  idle_times_out, ends, step, run,
}
use minipg.Pool.Kept.{
  holding, kept, kept-reject, kept-reject_all, kept-fail_waiters, kept-settle_breaker, kept-trip,
  class-split,
}
use minipg.Pool.Ownership.Moves.{
  count, count_opening, total, IsOwned, IsOwnedWith, count-remove_le, moved, drop-IsOwned,
  open_for-IsOwned,
}
use minipg.Pool.Ownership.Checkouts.{
  check_out-IsOwned, release-IsOwned, opening_hand, cancel_settled-IsOwned, rollback_done-IsOwned,
  rollback_failed-IsOwned, checkout-IsOwned,
}

attempt-IsOwned :
    (dead : Conn → Bool) (g : Bool) (c : Conn) (cl : Client) (p : Pool)
    → IsOwned c p
    → IsOwned c (attempt dead g cl p)
unfolding attempt
attempt-IsOwned dead g c cl p h =
    if-split (IsOwned c) p.closed (λ e. moved c (kept-reject cl pool_closed p) h)
      (λ e.
        if-split (IsOwned c) g (λ k. moved c (kept-reject cl tx_guard p) h)
          (λ k.
            option-split (IsOwned c) p.broken
              (λ n.
                if-split (IsOwned c) (p.down && p.rc_enabled) (λ d. h)
                  (λ d. checkout-IsOwned dead c cl p h))
              (λ b n. moved c (kept-reject cl (because b) p) h)))

acquire_open_failed-IsOwned :
    (dead : Conn → Bool) (f : Failure) (c : Conn) (cl : Client) (p : Pool)
    → IsOwned c p
    → IsOwned c (acquire_open_failed dead f cl p)
unfolding acquire_open_failed
acquire_open_failed-IsOwned dead f c cl p h =
    let k : IsOwned c (trip f p) = moved c (kept-trip f p) h in
    if-split (IsOwned c) p.rc_enabled
      (λ e.
        option-split (IsOwned c) (trip f p).broken
          (λ n. attempt-IsOwned dead false c cl (trip f p) k)
          (λ b n. moved c (kept-reject cl (because b) (trip f p)) k))
      (λ e. moved c (kept-reject cl (because f) p) h)

refill_open_failed-IsOwned :
    (f : Failure) (c : Conn) (w : Client) (p : Pool)
    → IsOwned c p
    → IsOwned c (refill_open_failed f w p)
unfolding refill_open_failed
refill_open_failed-IsOwned f c w p h =
    let q : Pool = trip f (record p { waiters = w ∷ p.waiters }) in
    let k : IsOwned c q = moved c (kept-trip f (record p { waiters = w ∷ p.waiters })) h in
    if-split (IsOwned c) p.rc_enabled
      (λ e.
        option-split (IsOwned c) q.broken (λ n. k)
          (λ b n. moved c (kept-fail_waiters (because b) q) k))
      (λ e. moved c (kept-reject w (because f) p) h)

probe_failed-IsOwned :
    (f : Failure) (c : Conn) (p : Pool) → IsOwned c p → IsOwned c (probe_failed f p)
unfolding probe_failed
probe_failed-IsOwned f c p h =
    class-split (IsOwned c) (classify f)
      (moved c (kept-settle_breaker (record p { last_probe_error = some f; broken = some f })) h)
      (if-split (IsOwned c) p.down (λ d. if-split (IsOwned c) p.closed (λ k. h) (λ k. h)) (λ d. h))

not_opened-IsOwned :
    (q : Purpose) (dead : Conn → Bool) (f : Failure) (c : Conn) (p : Pool)
    → IsOwned c p
    → IsOwned c (not_opened q dead f p)
not_opened-IsOwned (for_acquire cl) dead f c p h = acquire_open_failed-IsOwned dead f c cl p h
not_opened-IsOwned (for_refill w) dead f c p h = refill_open_failed-IsOwned f c w p h
not_opened-IsOwned for_probe dead f c p h = probe_failed-IsOwned f c p h

opened-IsOwned :
    (q : Purpose) (c x : Conn) (p : Pool) → IsOwnedWith c x p → IsOwned c (opened q x p)
unfolding probe_connected total count
opened-IsOwned (for_acquire cl) c x p h = check_out-IsOwned c x cl p h
opened-IsOwned (for_refill w) c x p h = check_out-IsOwned c x w p h
opened-IsOwned for_probe c x p h =
    moved c (kept-settle_breaker (record p { idle = x ∷ p.idle; last_probe_error = none }))
      (record { single = omega (arith, h.single); unborn = λ k. omega (arith, h.unborn k) })

open_done-IsOwned : (c x : Conn) (p : Pool) → IsOwned c p → IsOwned c (open_done x p)
unfolding open_done
open_done-IsOwned c x p h =
    option-split (IsOwned c) (purpose_of x p.opening) (λ n. h)
      (λ q e. opened-IsOwned q c x _ (opening_hand c x p q e h))

open_failed-IsOwned :
    (dead : Conn → Bool) (c x : Conn) (f : Failure) (p : Pool)
    → IsOwned c p
    → IsOwned c (open_failed dead x f p)
unfolding open_failed
open_failed-IsOwned dead c x f p h =
    option-split (IsOwned c) (purpose_of x p.opening) (λ n. h)
      (λ q e.
        not_opened-IsOwned q dead f c
          (record p { opening = forget x p.opening; all = remove x p.all })
          (drop-IsOwned c x (record p { opening = forget x p.opening }) (opening_hand c x p q e h)))

nap_over-IsOwned : (n : ℕ) (c : Conn) (p : Pool) → IsOwned c p → IsOwned c (nap_over n p)
unfolding nap_over
nap_over-IsOwned zero c p h = h
nap_over-IsOwned (suc n) c p h =
    if-split (IsOwned c) p.down
      (λ d.
        if-split (IsOwned c) p.closed (λ k. h)
          (λ k. open_for-IsOwned c for_probe (record p { naps = n }) h))
      (λ d. h)

-- Timers, and the end of the pool.
idle_timeout-IsOwned : (c x : Conn) (p : Pool) → IsOwned c p → IsOwned c (idle_timeout x p)
unfolding idle_timeout end_conn total
idle_timeout-IsOwned c x p h =
    if-split (IsOwned c) (p.idle_ms == 0) (λ z. h)
      (λ z.
        if-split (IsOwned c) (has p.idle x)
          (λ e. record {
            single = omega (arith, h.single, count-remove_le c x p.idle);
            unborn = λ k. omega (arith, h.unborn k, count-remove_le c x p.idle);
          })
          (λ e. h))

recovery_timeout-IsOwned :
    (c : Conn) (cl : Client) (p : Pool) → IsOwned c p → IsOwned c (recovery_timeout cl p)
unfolding recovery_timeout
recovery_timeout-IsOwned c cl p h =
    if-split (IsOwned c) (has p.recovered cl) (λ e. moved c (kept-reject cl recovery_timed_out _) h)
      (λ e. h)

acquire_timeout-IsOwned :
    (c : Conn) (cl : Client) (p : Pool) → IsOwned c p → IsOwned c (acquire_timeout cl p)
unfolding acquire_timeout
acquire_timeout-IsOwned c cl p h =
    if-split (IsOwned c) (has p.timers cl) (λ e. moved c (kept-reject cl acquire_timed_out _) h)
      (λ e. h)

resume-IsOwned :
    (dead : Conn → Bool) (c : Conn) (cl : Client) (p : Pool)
    → IsOwned c p
    → IsOwned c (resume dead cl p)
unfolding resume
resume-IsOwned dead c cl p h =
    if-split (IsOwned c) (has p.woken cl) (λ e. checkout-IsOwned dead c cl _ h) (λ e. h)

emptied-IsOwned : (c : Conn) (p : Pool) → IsOwned c p → IsOwned c (record p { idle = []; out = [] })
unfolding total count
emptied-IsOwned c p h = record {
  single = omega (arith, h.single);
  unborn = λ k. omega (arith, h.unborn k);
}

end-IsOwned : (c : Conn) (p : Pool) → IsOwned c p → IsOwned c (end p)
unfolding end
end-IsOwned c p h =
    let q : Pool = fail_waiters pool_ended (record p { closed = true }) in
    let r : Pool = reject_all q.recovered pool_closed (record q { recovered = [] }) in
    let e : kept r ≡ kept p =
      kept-reject_all q.recovered pool_closed (record q { recovered = [] })
      ∙ kept-fail_waiters pool_ended (record p { closed = true }) in
    emptied-IsOwned c r (moved c e h)

-- No step puts a connection in two of the places out, idle, opening, settling and rolling.
pub step-IsOwned : (e : Event) (c : Conn) (p : Pool) → IsOwned c p → IsOwned c (step e p)
unfolding step acquire
step-IsOwned (acquires dead g cl) c p h = attempt-IsOwned dead g c cl _ h
step-IsOwned (resumes dead cl) c p h = resume-IsOwned dead c cl p h
step-IsOwned (open_succeeds x) c p h = open_done-IsOwned c x p h
step-IsOwned (open_fails dead x f) c p h = open_failed-IsOwned dead c x f p h
step-IsOwned (releases s x) c p h = release-IsOwned s c x p h
step-IsOwned (cancel_settles s x) c p h = cancel_settled-IsOwned s c x p h
step-IsOwned (rollback_succeeds x) c p h = rollback_done-IsOwned c x p h
step-IsOwned (rollback_fails x) c p h = rollback_failed-IsOwned c x p h
step-IsOwned nap_ends c p h = nap_over-IsOwned p.naps c p h
step-IsOwned (recovery_times_out cl) c p h = recovery_timeout-IsOwned c cl p h
step-IsOwned (acquire_times_out cl) c p h = acquire_timeout-IsOwned c cl p h
step-IsOwned (idle_times_out x) c p h = idle_timeout-IsOwned c x p h
step-IsOwned ends c p h = end-IsOwned c p h

run-IsOwned : (es : List Event) (c : Conn) (p : Pool) → IsOwned c p → IsOwned c (run es p)
unfolding run
run-IsOwned [] c p h = h
run-IsOwned (e ∷ es) c p h = run-IsOwned es c (step e p) (step-IsOwned e c p h)

init-IsOwned : (cfg : Config) (c : Conn) → IsOwned c (init cfg)
unfolding init total count count_opening
init-IsOwned cfg c = record { single = omega arith; unborn = λ k. omega arith }

-- Whatever the order of calls and events, from a new pool on: a connection is in at most one of the
-- idle list, the set of those checked out, the connections being opened, those with a draining
-- cancelled query and those being rolled back, counted with repetition.
pub total-run :
    (cfg : Config) (es : List Event) (c : Conn) → total c (holding (run es (init cfg))) ≤ 1
total-run cfg es c = omega (arith, (run-IsOwned es c (init cfg) (init-IsOwned cfg c)).single)
