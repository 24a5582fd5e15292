-- ===== src/Pool/Events.antt =====
-- The pool as a machine: one step for each call from outside and each asynchronous event.
use minipg.Base.{Bool, true, none, some, List, [], ◌∷◌, if◌then◌else◌, ◌==◌}
use minipg.Pool.State.{
  Conn, Client, Failure, Effect, ended, pool_closed, pool_ended, recovery_timed_out,
  acquire_timed_out, Purpose, for_acquire, for_refill, for_probe, Pool, has, remove, purpose_of,
  forget, reject, reject_all,
}
use minipg.Pool.Breaker.{fail_waiters, nap_over, probe_connected, probe_failed}
use minipg.Pool.Checkin.{Seen, release, cancel_settled, rollback_done, rollback_failed, end_conn}
use minipg.Pool.Acquire.{acquire, checkout, acquire_open_failed, refill_open_failed, check_out}

abbrev pub opened : Purpose → Conn → Pool → Pool
opened (for_acquire cl) c p = check_out cl c p
opened (for_refill w) c p = check_out w c p
opened for_probe c p = probe_connected c p

-- `conn.connect()` has resolved.
unfoldable pub open_done : Conn → Pool → Pool
open_done c p = elim (purpose_of c p.opening) [
  | none ↦ p
  | some q ↦ opened q c (record p { opening = forget c p.opening })
]

abbrev pub not_opened : Purpose → (Conn → Bool) → Failure → Pool → Pool
not_opened (for_acquire cl) dead e p = acquire_open_failed dead e cl p
not_opened (for_refill w) dead e p = refill_open_failed e w p
not_opened for_probe dead e p = probe_failed e p

-- `conn.connect()` has rejected: `open` takes the connection out of `all` and rethrows.
unfoldable pub open_failed : (Conn → Bool) → Conn → Failure → Pool → Pool
open_failed dead c e p = elim (purpose_of c p.opening) [
  | none ↦ p
  | some q ↦ not_opened q dead e (record p { opening = forget c p.opening; all = remove c p.all })
]

-- An acquirer that recovery has woken goes on with the idle loop.
unfoldable pub resume : (Conn → Bool) → Client → Pool → Pool
resume dead cl p =
    if has p.woken cl then checkout dead cl (record p { woken = remove cl p.woken }) else p

unfoldable pub recovery_timeout : Client → Pool → Pool
recovery_timeout cl p =
    if has p.recovered cl
    then reject cl recovery_timed_out (record p { recovered = remove cl p.recovered })
    else p

-- The acquire timer fires: it takes the waiter out of the queue if it is still there, and rejects.
unfoldable pub acquire_timeout : Client → Pool → Pool
acquire_timeout cl p =
    if has p.timers cl
    then reject cl acquire_timed_out
        (record p { waiters = remove cl p.waiters; timers = remove cl p.timers })
    else p

unfoldable pub idle_timeout : Conn → Pool → Pool
idle_timeout c p =
    if p.idle_ms == 0
    then p
    else (if has p.idle c then end_conn c (record p { idle = remove c p.idle }) else p)

unfoldable pub end_all : List Conn → List Effect → List Effect
end_all [] log = log
end_all (c ∷ cs) log = end_all cs (ended c ∷ log)

unfoldable pub end : Pool → Pool
end p =
    let q = fail_waiters pool_ended (record p { closed = true }) in
    let r = reject_all q.recovered pool_closed (record q { recovered = [] }) in
    record r { all = []; idle = []; out = []; log = end_all r.all r.log }

pub data Event : Type 0 where
  acquires : (Conn → Bool) → Bool → Client → Event
  resumes : (Conn → Bool) → Client → Event
  open_succeeds : Conn → Event
  open_fails : (Conn → Bool) → Conn → Failure → Event
  releases : Seen → Conn → Event
  cancel_settles : Seen → Conn → Event
  rollback_succeeds rollback_fails : Conn → Event
  nap_ends : Event
  recovery_times_out acquire_times_out : Client → Event
  idle_times_out : Conn → Event
  ends : Event

unfoldable pub step : Event → Pool → Pool
step (acquires dead guarded cl) p = acquire dead guarded cl p
step (resumes dead cl) p = resume dead cl p
step (open_succeeds c) p = open_done c p
step (open_fails dead c e) p = open_failed dead c e p
step (releases s c) p = release s c p
step (cancel_settles s c) p = cancel_settled s c p
step (rollback_succeeds c) p = rollback_done c p
step (rollback_fails c) p = rollback_failed c p
step nap_ends p = nap_over p.naps p
step (recovery_times_out cl) p = recovery_timeout cl p
step (acquire_times_out cl) p = acquire_timeout cl p
step (idle_times_out c) p = idle_timeout c p
step ends p = end p

unfoldable pub run : List Event → Pool → Pool
run [] p = p
run (e ∷ es) p = run es (step e p)
