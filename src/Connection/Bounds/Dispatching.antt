-- ===== src/Connection/Bounds/Dispatching.antt =====
-- The dispatcher keeps to the depth of the pipeline, and lets a stream or a COPY run alone.
use minipg.Base.{
  ◌≤◌, ◌≡◌, refl, sym, subst, ◌∙◌, ap, Bool, true, false, not, ◌&&◌, ◌||◌, List, [], ◌∷◌, ◌++◌, ◌⊎◌,
  inl, inr, if-split, option-split, list-split, length, length-append, arith, ltb, leb, ltb→lt,
}
use minipg.Connection.State.{Task, encode_failed, Conn, is_ready}
use minipg.Connection.Serialize.{serialize}
use minipg.Connection.Serialize.Kept.{Tag, tag, tag-serialize}
use minipg.Connection.Dispatch.{
  solo, can_start_next, schedule_flush, flush_if_large, start_task, may_start, dispatch,
  flush_or_schedule, process_queue, mark, flush_threshold, is_empty,
}
use minipg.Connection.Bounds.Load.{
  has_solo, Once, Load, load, Fits, same_load, reject_task-Fits, retire-Fits, load-flush_writes,
  load-reject_task, All-append,
}

load-flush_if_large : (c : Conn) → load (flush_if_large c) ≡ load c
unfolding flush_if_large
load-flush_if_large c =
    if-split (λ (d : Conn). load d ≡ load c) (leb flush_threshold (mark c.size c.outbuf))
      (λ e. load-flush_writes c) (λ e. refl)

load-flush_or_schedule : (c : Conn) → load (flush_or_schedule c) ≡ load c
unfolding flush_or_schedule schedule_flush
load-flush_or_schedule c =
    if-split (λ (d : Conn). load d ≡ load c)
      (c.microtask && (ltb 1 c.pipeline_depth && ltb (mark c.size c.outbuf) flush_threshold))
      (λ e. refl) (λ e. load-flush_writes c)

has_solo-append : (ts us : List Task) → has_solo (ts ++ us) ≡ (has_solo ts || has_solo us)
unfolding has_solo
has_solo-append [] us = refl
has_solo-append (t ∷ ts) us = ground (arith, has_solo-append ts us)

abbrev first_solo : List Task → Bool
first_solo [] = false
first_solo (t ∷ ts) = solo t

can_start_next_lem :
    (t : Task) (c : Conn)
    → can_start_next t c ≡ true
    → (c.inflight ≡ []) ⊎ ((first_solo c.inflight ≡ false) × (solo t ≡ false))
unfolding can_start_next
can_start_next_lem t c =
    let Q : Type 0 = (c.inflight ≡ []) ⊎ ((first_solo c.inflight ≡ false) × (solo t ≡ false)) in
    option-split (λ b. b ≡ true → Q) c.pending_cancel
      (λ e.
        list-split (λ b. b ≡ true → Q) c.inflight (λ f k. inl f)
          (λ u us f.
            if-split (λ b. b ≡ true → Q) (solo u) (λ s k. cc)
              (λ s k. inr (ap first_solo f ∙ s, is_false (solo t) k))))
      (λ p e k. cc)
  where
    is_false : (b : Bool) → not b ≡ true → b ≡ false
    is_false true p = cc
    is_false false p = refl

-- The first of several is not alone, so none of them is one that runs alone.
none_solo :
    (ts : List Task)
    → (has_solo ts ≡ true → length ts ≤ 1)
    → first_solo ts ≡ false
    → has_solo ts ≡ false
unfolding has_solo
none_solo [] h k = refl
none_solo (t ∷ []) h k = ground arith
none_solo (t ∷ u ∷ us) h k = ground (arith, h)

pushed_alone :
    (u t : Task) (c : Conn)
    → solo u ≡ solo t
    → can_start_next t c ≡ true
    → (has_solo c.inflight ≡ true → length c.inflight ≤ 1)
    → has_solo (c.inflight ++ (u ∷ [])) ≡ true
    → length (c.inflight ++ (u ∷ [])) ≤ 1
unfolding has_solo
pushed_alone u t c e k h m = elim (can_start_next_lem t c k) [
  | inl f ↦ rw f (omega arith)
  | inr (f, s) ↦
      absurd (ground (arith, has_solo-append c.inflight (u ∷ []), none_solo c.inflight h f))
]

started-Fits :
    (t u : Task) (c : Conn)
    → tag u ≡ tag t
    → may_start t c ≡ true
    → Once t
    → Fits c
    → Fits (record c { inflight = c.inflight ++ (u ∷ []) })
unfolding may_start solo
started-Fits t u c e m o h = record {
  at = record {
    deep = omega (
      arith,
      ltb→lt (length c.inflight) c.pipeline_depth (first _ _ m),
      length-append c.inflight (u ∷ []),
    );
    alone = pushed_alone u t c same_solo (last _ _ (last _ _ m)) h.at.alone;
    once_queue = h.at.once_queue;
    once = All-append Once c.inflight (u ∷ []) h.at.once (same_once, tt);
  };
}
  where
    first : (a b : Bool) → (a && b) ≡ true → a ≡ true
    first true b p = refl
    first false b p = cc

    last : (a b : Bool) → (a && b) ≡ true → b ≡ true
    last true b p = p
    last false b p = cc

    same_solo : (u.stream || u.copy_source) ≡ (t.stream || t.copy_source)
    same_solo = ap (λ (g : Tag). g.stream || g.copy_source) e

    same_once : u.retries ≤ 1
    same_once = subst (λ (g : Tag). g.retries ≤ 1) (sym e) o

start_task-Fits :
    (t : Task) (c : Conn) → may_start t c ≡ true → Once t → Fits c → Fits (start_task t c)
unfolding start_task
start_task-Fits t c m o h =
    let d = serialize t c.names in
    if-split Fits d.thrown
      (λ k.
        reject_task-Fits t.id encode_failed (record c { names = d.names }) (record { at = h.at }))
      (λ k. record { at = (started-Fits t d.task c (tag-serialize t c.names) m o h).at })

-- What starting a task leaves alone.
queue-start_task : (t : Task) (c : Conn) → (start_task t c).queue ≡ c.queue
unfolding start_task
queue-start_task t c =
    let d = serialize t c.names in
    if-split (λ (e : Conn). e.queue ≡ c.queue) d.thrown
      (λ k.
        ap (λ (l : Load). l.queue)
          (load-reject_task t.id encode_failed (record c { names = d.names })))
      (λ k. refl)

shifted-Fits :
    (t : Task) (ts : List Task) (c : Conn)
    → Fits (record c { queue = t ∷ ts })
    → Fits (record c { queue = ts })
shifted-Fits t ts c h = record {
  at = record {
    deep = h.at.deep;
    alone = h.at.alone;
    once_queue = h.at.once_queue.1;
    once = h.at.once;
  };
}

dispatch-Fits : (ts : List Task) (c : Conn) → Fits (record c { queue = ts }) → Fits (dispatch ts c)
unfolding dispatch may_start can_start_next
dispatch-Fits [] c h = h
dispatch-Fits (t ∷ ts) c h =
    if-split Fits (may_start t c)
      (λ m.
        let d = start_task t (record c { queue = ts }) in
        let s =
          start_task-Fits t (record c { queue = ts }) m h.at.once_queue.0 (shifted-Fits t ts c h) in
        let e =
          ap (λ (l : Load). l.queue) (load-flush_if_large d)
          ∙ queue-start_task t (record c { queue = ts }) in
        dispatch-Fits ts (flush_if_large d) (
          same_load d (record (flush_if_large d) { queue = ts })
            (ap (λ (q : List Task). record (load (flush_if_large d)) { queue = q }) (sym e)
              ∙ load-flush_if_large d)
            s))
      (λ m. h)

pub process_queue-Fits : (c : Conn) → Fits c → Fits (process_queue c)
unfolding process_queue
process_queue-Fits c h =
    if-split Fits (not (is_ready c.status)) (λ k. h)
      (λ k.
        if-split Fits c.is_retiring
          (λ l. if-split Fits (is_empty c.inflight) (λ m. retire-Fits c h) (λ m. h))
          (λ l.
            let d = dispatch c.queue c in
            same_load d (flush_or_schedule d) (load-flush_or_schedule d)
              (dispatch-Fits c.queue c (record { at = h.at }))))
