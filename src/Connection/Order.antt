-- ===== src/Connection/Order.antt =====
-- The order in which the dispatcher of src/connection.ts starts tasks.
pub mod Progress
use minipg.Base.{
  ℕ, ◌+◌, ◌≤◌, ◌<◌, ◌≡◌, refl, sym, subst, ◌∙◌, ap, Bool, true, false, not, ◌&&◌, ◌||◌, Option,
  none, some, List, [], ◌∷◌, ◌++◌, if◌then◌else◌, if-split, list-split, has, length, append_assoc,
  arith, leb, ltb, lt→ltb, ◌⊎◌, inl, inr,
}
use minipg.Connection.State.{
  TaskId, Task, Names, Outcome, failed, encode_failed, PendingCancel, Conn, settle, reject_task,
  ids, is_ready,
}
use minipg.Connection.Serialize.{serialize}
use minipg.Connection.Serialize.Kept.{Tag, tag, tag-serialize}
use minipg.Connection.Dispatch.{
  can_start_next, write_out, drop_batch, answer, flush_writes, schedule_flush, flush_if_large,
  start_task, may_start, dispatch, flush_or_schedule, process_queue, mark, flush_threshold,
  is_empty, retire,
}

-- What is left of some tasks, in their order: a task goes missing only where its serialization
-- throws, whatever statements the client then takes for prepared.
pub data Kept : List ℕ → List Task → Type 0 where
  done : Kept [] []
  keep : (t : Task) {xs : List ℕ} {ts : List Task} → Kept xs ts → Kept (t.id ∷ xs) (t ∷ ts)
  skip :
      (t : Task) (ns : Names) {xs : List ℕ} {ts : List Task}
      → (serialize t ns).thrown ≡ true
      → Kept xs ts
      → Kept xs (t ∷ ts)

Kept_all : (ts : List Task) → Kept (ids ts) ts
unfolding ids
Kept_all [] = done
Kept_all (t ∷ ts) = keep t (Kept_all ts)

ids-append : (ts us : List Task) → ids (ts ++ us) ≡ ids ts ++ ids us
unfolding ids
ids-append [] us = refl
ids-append (t ∷ ts) us = ap (◌∷◌ t.id) (ids-append ts us)

-- What the start of a task and a flush leave alone.
pub record Rest : Type 0 where
  pub queue : List Task
  pub pending_cancel : Option PendingCancel
  pub depth : ℕ

abbrev pub rest : Conn → Rest
rest c = record { queue = c.queue; pending_cancel = c.pending_cancel; depth = c.pipeline_depth }

abbrev pub line : Conn → List Task × Rest
line c = (c.inflight, rest c)

line-settle : (x : TaskId) (o : Outcome) (c : Conn) → line (settle x o c) ≡ line c
unfolding settle
line-settle x o c =
    if-split (λ (d : Conn). line d ≡ line c) (has c.pending x) (λ k. refl) (λ k. refl)

pub line-flush_writes : (c : Conn) → line (flush_writes c) ≡ line c
unfolding flush_writes write_out drop_batch
line-flush_writes c =
    list-split (λ (d : Conn). line d ≡ line c) c.outbuf (λ e. refl)
      (λ k ks e. if-split (λ (d : Conn). line d ≡ line c) c.socket (λ s. refl) (λ s. refl))

pub line-flush_if_large : (c : Conn) → line (flush_if_large c) ≡ line c
unfolding flush_if_large
line-flush_if_large c =
    if-split (λ (d : Conn). line d ≡ line c) (leb flush_threshold (mark c.size c.outbuf))
      (λ e. line-flush_writes c) (λ e. refl)

pub line-flush_or_schedule : (c : Conn) → line (flush_or_schedule c) ≡ line c
unfolding flush_or_schedule schedule_flush
line-flush_or_schedule c =
    if-split (λ (d : Conn). line d ≡ line c)
      (c.microtask && (ltb 1 c.pipeline_depth && ltb (mark c.size c.outbuf) flush_threshold))
      (λ e. refl) (λ e. line-flush_writes c)

pub rest-start_task : (t : Task) (c : Conn) → rest (start_task t c) ≡ rest c
unfolding start_task reject_task
rest-start_task t c =
    let d = serialize t c.names in
    if-split (λ (e : Conn). rest e ≡ rest c) d.thrown
      (λ k.
        ap (λ (p : List Task × Rest). p.1)
          (line-settle t.id (failed encode_failed) (record c { names = d.names })))
      (λ k. refl)

-- The task joins those in flight, or it cannot be serialized and is left out.
abbrev Joins : Task → Conn → Conn → Type 0
Joins t c d =
    (ids d.inflight ≡ ids c.inflight ++ (t.id ∷ []))
    ⊎ ((ids d.inflight ≡ ids c.inflight) × ((serialize t c.names).thrown ≡ true))

start_task-Joins : (t : Task) (c : Conn) → Joins t c (start_task t c)
unfolding start_task reject_task ids
start_task-Joins t c =
    let d = serialize t c.names in
    if-split (Joins t c) d.thrown
      (λ k. inr (
        ap (λ (p : List Task × Rest). ids p.0)
            (line-settle t.id (failed encode_failed) (record c { names = d.names })),
        k,
      ))
      (λ k. inl (
        ids-append c.inflight (d.task ∷ [])
        ∙ ap (λ (g : Tag). ids c.inflight ++ (g.id ∷ [])) (tag-serialize t c.names)))

-- The tasks afterwards: those that were in flight, and then what is kept of the queue.
abbrev pub Orders : List Task → Conn → Conn → Type 0
Orders ts c d =
    (xs : List ℕ) × ((ids d.inflight ++ ids d.queue ≡ ids c.inflight ++ xs) × Kept xs ts)

Orders-Joins :
    (t : Task) (ts : List Task) (c b d : Conn) → Joins t c b → Orders ts b d → Orders (t ∷ ts) c d
Orders-Joins t ts c b d (inl e) (xs, (p, k)) = (
  t.id ∷ xs,
  (p ∙ ap (λ ys. ys ++ xs) e ∙ append_assoc (ids c.inflight) (t.id ∷ []) xs, keep t k),
)
Orders-Joins t ts c b d (inr (e, r)) (xs, (p, k)) =
    (xs, (p ∙ ap (λ ys. ys ++ xs) e, skip t c.names r k))

-- The loop of processQueue loses nothing that is in flight and neither reorders, repeats nor drops a
-- queued task that can be serialized: what is in flight and then what is queued afterwards is, in this
-- order, what was in flight before and then the queue, less tasks whose serialization throws.
pub dispatch-Orders : (ts : List Task) (c : Conn) → Orders ts c (dispatch ts c)
unfolding dispatch ids
dispatch-Orders [] c = ([], (refl, done))
dispatch-Orders (t ∷ ts) c =
    if-split (Orders (t ∷ ts) c) (may_start t c)
      (λ m.
        let b = start_task t (record c { queue = ts }) in
        Orders-Joins t ts c (flush_if_large b) (dispatch ts (flush_if_large b))
          (subst
            (λ (us : List Task).
              (ids us ≡ ids c.inflight ++ (t.id ∷ []))
              ⊎ ((ids us ≡ ids c.inflight) × ((serialize t c.names).thrown ≡ true)))
            (sym (ap (λ (p : List Task × Rest). p.0) (line-flush_if_large b)))
            (start_task-Joins t (record c { queue = ts })))
          (dispatch-Orders ts (flush_if_large b)))
      (λ m. (ids (t ∷ ts), (refl, Kept_all (t ∷ ts))))
