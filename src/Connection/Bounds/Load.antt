-- ===== src/Connection/Bounds/Load.antt =====
-- The pipeline is never deeper than configured, a stream or a COPY is alone in it, and no task has been
-- retried twice: what the dispatcher, cancellation and the loss of a socket do to that.
use minipg.Base.{
  ℕ, ◌+◌, ◌≤◌, ◌≡◌, refl, sym, subst, Bool, true, false, not, ◌&&◌, ◌||◌, List, [], ◌∷◌, ◌++◌,
  if-split, list-split, has, length, All, arith,
}
use minipg.Connection.State.{
  TaskId, Task, Error, Outcome, failed, reconnect_failed, retired, terminate, reconnecting, Conn,
  settle, reject_task, reject_inflight, reject_all, reject_queue, reject_unsettled, is_closed,
  is_fatal_auth,
}
use minipg.Connection.Dispatch.{
  solo, write_out, drop_batch, flush_writes, clear_pending_cancel, close_with, next_attempt,
  attempt_rejected, fail_attempt, drop_inflight, reconnect_or_close, on_socket_down, retire,
  no_names,
}

unfoldable pub has_solo : List Task → Bool
has_solo [] = false
has_solo (t ∷ ts) = solo t || has_solo ts

abbrev pub Once : Task → Type 0
Once t = t.retries ≤ 1

pub record Load : Type 0 where
  pub depth : ℕ
  pub queue : List Task
  pub inflight : List Task

abbrev pub load : Conn → Load
load c = record { depth = c.pipeline_depth; queue = c.queue; inflight = c.inflight }

pub record Fitting (l : Load) : Type 0 where
  pub deep : length l.inflight ≤ l.depth
  pub alone : has_solo l.inflight ≡ true → length l.inflight ≤ 1
  pub once_queue : All Once l.queue
  pub once : All Once l.inflight

pub record Fits (c : Conn) : Type 0 where
  pub at : Fitting (load c)

pub same_load : (c d : Conn) → load d ≡ load c → Fits c → Fits d
same_load c d e h = record { at = subst Fitting (sym e) h.at }

load-settle : (x : TaskId) (o : Outcome) (c : Conn) → load (settle x o c) ≡ load c
unfolding settle
load-settle x o c =
    if-split (λ (d : Conn). load d ≡ load c) (has c.pending x) (λ k. refl) (λ k. refl)

pub load-reject_task : (x : TaskId) (e : Error) (c : Conn) → load (reject_task x e c) ≡ load c
unfolding reject_task
load-reject_task x e c = load-settle x (failed e) c

pub settle-Fits : (x : TaskId) (o : Outcome) (c : Conn) → Fits c → Fits (settle x o c)
settle-Fits x o c h = same_load c (settle x o c) (load-settle x o c) h

pub reject_task-Fits : (x : TaskId) (e : Error) (c : Conn) → Fits c → Fits (reject_task x e c)
unfolding reject_task
reject_task-Fits x e c h = settle-Fits x (failed e) c h

pub reject_inflight-Fits :
    (e : Error) (ts : List Task) (c : Conn) → Fits c → Fits (reject_inflight e ts c)
unfolding reject_inflight
reject_inflight-Fits e [] c h = h
reject_inflight-Fits e (t ∷ ts) c h =
    reject_inflight-Fits e ts _
      (if-split Fits t.settled (λ k. h) (λ k. reject_task-Fits t.id _ c h))

pub reject_unsettled-Fits :
    (e : Error) (ts : List Task) (c : Conn) → Fits c → Fits (reject_unsettled e ts c)
unfolding reject_unsettled
reject_unsettled-Fits e [] c h = h
reject_unsettled-Fits e (t ∷ ts) c h =
    reject_unsettled-Fits e ts _
      (if-split Fits t.settled (λ k. h) (λ k. reject_task-Fits t.id e c h))

reject_all-Fits : (e : Error) (ts : List Task) (c : Conn) → Fits c → Fits (reject_all e ts c)
unfolding reject_all
reject_all-Fits e [] c h = h
reject_all-Fits e (t ∷ ts) c h = reject_all-Fits e ts _ (reject_task-Fits t.id e c h)

-- Fewer tasks fit as well.
pub unqueued-Fits : (c : Conn) → Fits c → Fits (record c { queue = [] })
unqueued-Fits c h = record {
  at = record { deep = h.at.deep; alone = h.at.alone; once_queue = tt; once = h.at.once };
}

pub landed-Fits : (c : Conn) → Fits c → Fits (record c { inflight = [] })
unfolding has_solo
landed-Fits c h = record {
  at = record {
    deep = omega arith;
    alone = λ k. omega arith;
    once_queue = h.at.once_queue;
    once = tt;
  };
}

close_with-Fits : (e : Error) (c : Conn) → Fits c → Fits (close_with e c)
unfolding close_with reject_queue
close_with-Fits e c h = reject_all-Fits e c.queue _ (record { at = (unqueued-Fits c h).at })

next_attempt-Fits : (c : Conn) → Fits c → Fits (next_attempt c)
unfolding next_attempt
next_attempt-Fits c h =
    if-split Fits c.ended (λ e. h)
      (λ e.
        if-split Fits (is_closed c.status) (λ e. h)
          (λ e.
            if-split Fits _ (λ e. close_with-Fits reconnect_failed c h)
              (λ e. record { at = h.at })))

attempt_rejected-Fits : (e : Error) (c : Conn) → Fits c → Fits (attempt_rejected e c)
unfolding attempt_rejected
attempt_rejected-Fits e c h =
    if-split Fits (not c.ever_connected) (λ k. close_with-Fits e c h)
      (λ k.
        if-split Fits (is_fatal_auth e) (λ k. close_with-Fits e c h)
          (λ k. next_attempt-Fits (record c { attempt = c.attempt + 1 }) (record { at = h.at })))

pub fail_attempt-Fits : (e : Error) (c : Conn) → Fits c → Fits (fail_attempt e c)
unfolding fail_attempt
fail_attempt-Fits e c h =
    if-split Fits c.is_connecting
      (λ k.
        attempt_rejected-Fits e (record c { is_connecting = false; socket = false })
          (record { at = h.at }))
      (λ k. h)

drop_inflight-Fits : (e : Error) (c : Conn) → Fits c → Fits (drop_inflight e c)
unfolding drop_inflight clear_pending_cancel
drop_inflight-Fits e c h =
    reject_inflight-Fits e c.inflight _ (record { at = (landed-Fits c h).at })

reconnect_or_close-Fits : (e : Error) (c : Conn) → Fits c → Fits (reconnect_or_close e c)
unfolding reconnect_or_close
reconnect_or_close-Fits e c h =
    if-split Fits (c.reconnects && not c.ended)
      (λ k.
        next_attempt-Fits (record c { status = reconnecting; names = no_names; attempt = 0 })
          (record { at = h.at }))
      (λ k. close_with-Fits e c h)

pub on_socket_down-Fits : (e : Error) (c : Conn) → Fits c → Fits (on_socket_down e c)
unfolding on_socket_down
on_socket_down-Fits e c h =
    if-split Fits (is_closed c.status) (λ k. h)
      (λ k.
        if-split Fits c.is_connecting (λ k. fail_attempt-Fits e c h)
          (λ k. reconnect_or_close-Fits e (drop_inflight e c) (drop_inflight-Fits e c h)))

pub retire-Fits : (c : Conn) → Fits c → Fits (retire c)
unfolding retire
retire-Fits c h =
    on_socket_down-Fits retired (record c { sent = c.sent ++ (terminate ∷ []) })
      (record { at = h.at })

pub load-flush_writes : (c : Conn) → load (flush_writes c) ≡ load c
unfolding flush_writes write_out drop_batch
load-flush_writes c =
    list-split (λ (d : Conn). load d ≡ load c) c.outbuf (λ e. refl)
      (λ k ks e. if-split (λ (d : Conn). load d ≡ load c) c.socket (λ s. refl) (λ s. refl))

pub All-append {ℓ κ} :
    {A : Type ℓ} (P : A → Type κ) (xs ys : List A) → All P xs → All P ys → All P (xs ++ ys)
All-append P [] ys h k = k
All-append P (x ∷ xs) ys h k = (h.0, All-append P xs ys h.1 k)
