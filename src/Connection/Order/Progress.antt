-- ===== src/Connection/Order/Progress.antt =====
-- When the dispatcher of src/connection.ts starts no task.
use minipg.Base.{
  ◌<◌, ◌≡◌, refl, sym, subst, ◌∙◌, ap, Bool, true, false, not, ◌&&◌, none, some, List, [], ◌∷◌,
  if-split, list-split, arith, ltb, lt→ltb,
}
use minipg.Connection.State.{Task, PendingCancel, Conn, is_ready}
use minipg.Connection.Dispatch.{
  can_start_next, write_out, drop_batch, flush_writes, schedule_flush, flush_if_large, start_task,
  may_start, dispatch, flush_or_schedule, process_queue, mark, flush_threshold,
}
use minipg.Connection.Order.{
  Rest, rest, line-flush_if_large, line-flush_or_schedule, rest-start_task,
}

-- Where the loop stops with a task left, that task may not start.
dispatch_stuck :
    (ts us : List Task) (u : Task) (c : Conn)
    → (dispatch ts c).queue ≡ u ∷ us
    → may_start u (dispatch ts c) ≡ false
unfolding dispatch may_start can_start_next
dispatch_stuck [] us u c e = cc
dispatch_stuck (t ∷ ts) us u c e =
    if-split (λ (d : Conn). d.queue ≡ u ∷ us → may_start u d ≡ false) (may_start t c)
      (λ m. dispatch_stuck ts us u _)
      (λ m f. subst (λ (k : Task). may_start k c ≡ false) (first (t ∷ ts) (u ∷ us) f) m) e
  where
    head_or : List Task → Task
    head_or [] = t
    head_or (x ∷ xs) = x

    first : (xs ys : List Task) → xs ≡ ys → head_or xs ≡ head_or ys
    first xs ys f = ap head_or f

rest-dispatch :
    (ts : List Task) (c : Conn)
    → ((dispatch ts c).pending_cancel ≡ c.pending_cancel)
      × ((dispatch ts c).pipeline_depth ≡ c.pipeline_depth)
unfolding dispatch
rest-dispatch [] c = (refl, refl)
rest-dispatch (t ∷ ts) c =
    let b = record c { queue = ts } in
    let d = flush_if_large (start_task t b) in
    let e : rest d ≡ rest b =
      ap (λ (p : List Task × Rest). p.1) (line-flush_if_large (start_task t b))
      ∙ rest-start_task t b in
    if-split
      (λ (r : Conn). (r.pending_cancel ≡ c.pending_cancel) × (r.pipeline_depth ≡ c.pipeline_depth))
      (may_start t c)
      (λ m. (
        (rest-dispatch ts d).0 ∙ ap (λ (r : Rest). r.pending_cancel) e,
        (rest-dispatch ts d).1 ∙ ap (λ (r : Rest). r.depth) e,
      ))
      (λ m. (refl, refl))

-- A flush may find that the socket is full, and never that it has room again.
backed_up-flush_writes :
    (c : Conn) → (flush_writes c).write_backed_up ≡ false → c.write_backed_up ≡ false
unfolding flush_writes write_out drop_batch
backed_up-flush_writes c =
    list-split (λ (d : Conn). d.write_backed_up ≡ false → c.write_backed_up ≡ false) c.outbuf
      (λ e h. h)
      (λ k ks e.
        if-split (λ (d : Conn). d.write_backed_up ≡ false → c.write_backed_up ≡ false) c.socket
          (λ s h. ground arith) (λ s h. h))

backed_up-flush_or_schedule :
    (c : Conn) → (flush_or_schedule c).write_backed_up ≡ false → c.write_backed_up ≡ false
unfolding flush_or_schedule schedule_flush
backed_up-flush_or_schedule c =
    if-split (λ (d : Conn). d.write_backed_up ≡ false → c.write_backed_up ≡ false)
      (c.microtask && (ltb 1 c.pipeline_depth && ltb (mark c.size c.outbuf) flush_threshold))
      (λ e h. h) (λ e. backed_up-flush_writes c)

-- With an empty pipeline, room in the socket and no cancel request, any task may start.
free_may_start :
    (u : Task) (c : Conn)
    → 0 < c.pipeline_depth
    → c.write_backed_up ≡ false
    → c.pending_cancel ≡ none
    → c.inflight ≡ []
    → may_start u c ≡ false
    → ⊥
unfolding may_start can_start_next
free_may_start u c d w p i m = grind (arith, lt→ltb)

dispatched_idle :
    (us : List Task) (c : Conn)
    → c.queue ≡ us
    → 0 < c.pipeline_depth
    → c.pending_cancel ≡ none
    → (dispatch c.queue c).write_backed_up ≡ false
    → (dispatch c.queue c).inflight ≡ []
    → (ts : List Task) → (dispatch c.queue c).queue ≡ ts
    → ts ≡ []
dispatched_idle us c e d p w i [] f = refl
dispatched_idle us c e d p w i (t ∷ ts) f =
    let r = rest-dispatch c.queue c in
    absurd (
      free_may_start t (dispatch c.queue c) (subst (λ n. 0 < n) (sym r.1) d) w (r.0 ∙ p) i
        (dispatch_stuck c.queue ts t c f))

-- The dispatcher does not idle. On a connection that is ready and not retiring, with a pipeline of at
-- least one task and no cancel request under way: if after processQueue nothing is in flight and the
-- socket has room, nothing is queued.
pub process_queue-idle :
    (c : Conn)
    → is_ready c.status ≡ true
    → c.is_retiring ≡ false
    → c.pending_cancel ≡ none
    → 0 < c.pipeline_depth
    → (process_queue c).write_backed_up ≡ false
    → (process_queue c).inflight ≡ []
    → (process_queue c).queue ≡ []
unfolding process_queue
process_queue-idle c r n p d =
    if-split (λ (e : Conn). e.write_backed_up ≡ false → e.inflight ≡ [] → e.queue ≡ [])
      (not (is_ready c.status)) (λ k. absurd (is_up (is_ready c.status) r k))
      (λ k.
        if-split (λ (e : Conn). e.write_backed_up ≡ false → e.inflight ≡ [] → e.queue ≡ [])
          c.is_retiring (λ l. absurd (is_one l n))
          (λ l w i.
            let b = dispatch c.queue c in
            let f = line-flush_or_schedule b in
            ap (λ (q : List Task × Rest). q.1.queue) f
            ∙ dispatched_idle c.queue c refl d p (backed_up-flush_or_schedule b w)
                (sym (ap (λ (q : List Task × Rest). q.0) f) ∙ i) b.queue refl))
  where
    is_up : (b : Bool) → b ≡ true → not b ≡ true → ⊥
    is_up true p q = cc
    is_up false p q = cc

    is_one : {b : Bool} → b ≡ true → b ≡ false → ⊥
    is_one p q = cc

paused_may_not :
    (t : Task) (c : Conn) (p : PendingCancel) → c.pending_cancel ≡ some p → may_start t c ≡ true → ⊥
unfolding may_start can_start_next
paused_may_not t c p e m = grind arith

dispatch_paused :
    (ts : List Task) (c : Conn) (p : PendingCancel)
    → c.pending_cancel ≡ some p
    → ((dispatch ts c).inflight ≡ c.inflight) × ((dispatch ts c).queue ≡ ts)
unfolding dispatch
dispatch_paused [] c p e = (refl, refl)
dispatch_paused (t ∷ ts) c p e =
    if-split (λ (d : Conn). (d.inflight ≡ c.inflight) × (d.queue ≡ t ∷ ts)) (may_start t c)
      (λ m. absurd (paused_may_not t c p e m)) (λ m. (refl, refl))

-- While a cancel request is under way, processQueue of a connection that is not retiring starts no task.
pub process_queue-paused :
    (c : Conn) (p : PendingCancel)
    → c.pending_cancel ≡ some p
    → c.is_retiring ≡ false
    → ((process_queue c).inflight ≡ c.inflight) × ((process_queue c).queue ≡ c.queue)
unfolding process_queue
process_queue-paused c p e n =
    let P = λ (d : Conn). (d.inflight ≡ c.inflight) × (d.queue ≡ c.queue) in
    if-split P (not (is_ready c.status)) (λ k. (refl, refl))
      (λ k.
        if-split P c.is_retiring (λ l. absurd (is_one l n))
          (λ l.
            let f = line-flush_or_schedule (dispatch c.queue c) in
            let g = dispatch_paused c.queue c p e in
            (
              ap (λ (q : List Task × Rest). q.0) f ∙ g.0,
              ap (λ (q : List Task × Rest). q.1.queue) f ∙ g.1,
            )))
  where
    is_one : {b : Bool} → b ≡ true → b ≡ false → ⊥
    is_one p q = cc
