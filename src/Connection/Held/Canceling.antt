-- ===== src/Connection/Held/Canceling.antt =====
-- A cancelled task settles its promise and no other, and the head of a cancel request has settled.
use minipg.Base.{
  ℕ, ◌+◌, ◌≤◌, ◌<◌, ◌≡◌, refl, sym, subst, ◌∙◌, true, false, ◌&&◌, none, some, List, [], ◌∷◌, inl,
  inr, Option-cases, if-split, option-split, has, one, count, arith, count-remove, count-remove_le,
  count_absent,
}
use minipg.Connection.State.{Task, Error, Conn, reject_task, settle}
use minipg.Connection.Cancel.{
  find_task, mark_settled, take_out, is_head, canceled_head, send_cancel_request, cancel_running,
  cancel_task, first_id,
}
use minipg.Connection.Held.View.{total, unpaid, unsettled, IsHeld, unsettled_le}
use minipg.Connection.Held.Settling.{reject_task-IsHeld}

total-mark_settled : (x y : ℕ) (ts : List Task) → total y (mark_settled x ts) ≡ total y ts
unfolding total mark_settled
total-mark_settled x y [] = refl
total-mark_settled x y (t ∷ ts) = ground (arith, total-mark_settled x y ts)

unsettled-mark_settled :
    (x y : ℕ) (ts : List Task) (t : Task)
    → find_task x ts ≡ some t
    → t.settled ≡ false
    → unsettled y ts ≡ one x y + unsettled y (mark_settled x ts)
unfolding unsettled mark_settled find_task
unsettled-mark_settled x y [] t e s = cc
unsettled-mark_settled x y (u ∷ us) t e s = ground (arith, unsettled-mark_settled x y us t)

total-find_task :
    (x : ℕ) (ts : List Task) (t : Task) → find_task x ts ≡ some t → (t.id ≡ x) × (1 ≤ total x ts)
unfolding total find_task
total-find_task x [] t e = cc
total-find_task x (u ∷ us) t e = ground (arith, total-find_task x us t)

total-find_none : (x : ℕ) (ts : List Task) → find_task x ts ≡ none → total x ts ≡ 0
unfolding total find_task
total-find_none x [] e = refl
total-find_none x (u ∷ us) e = ground (arith, total-find_none x us)

total-take_out :
    (x y : ℕ) (ts : List Task) (t : Task)
    → find_task x ts ≡ some t
    → total y ts ≡ one t.id y + total y (take_out x ts)
unfolding total find_task take_out
total-take_out x y [] t e = cc
total-take_out x y (u ∷ us) t e = ground (arith, total-take_out x y us t)

unsettled-take_out :
    (x y : ℕ) (ts : List Task) (t : Task)
    → find_task x ts ≡ some t
    → unsettled y ts ≡ unpaid y t + unsettled y (take_out x ts)
unfolding unsettled find_task take_out
unsettled-take_out x y [] t e = cc
unsettled-take_out x y (u ∷ us) t e = ground (arith, unsettled-take_out x y us t)

take_out-find_none : (x : ℕ) (ts : List Task) → find_task x ts ≡ none → take_out x ts ≡ ts
unfolding find_task take_out
take_out-find_none x [] e = refl
take_out-find_none x (u ∷ us) e = ground (arith, take_out-find_none x us)

-- The promise of a task in flight is settled, and the task stays there.
mark-IsHeld :
    (x : ℕ) (t : Task) (e : Error) (hand : List Task) (c : Conn)
    → find_task x c.inflight ≡ some t
    → t.settled ≡ false
    → IsHeld hand c
    → IsHeld hand (reject_task x e (record c { inflight = mark_settled x c.inflight }))
unfolding reject_task settle
mark-IsHeld x t e hand c f s h =
    if-split (IsHeld hand) (has c.pending x)
      (λ k. record {
        at = λ y. record {
          single = omega (arith, (h.at y).single, total-mark_settled x y c.inflight);
          unborn = λ l. omega (arith, (h.at y).unborn l, total-mark_settled x y c.inflight);
          headless = (h.at y).headless;
          matched = omega (
            arith,
            (h.at y).matched,
            unsettled-mark_settled x y c.inflight t f s,
            count-remove y x c.pending k,
          );
          quiet = λ l. omega (arith, (h.at y).quiet l, count-remove_le y x c.pending);
          emptied = λ l. omega (arith, (h.at y).emptied l, total-mark_settled x y c.inflight);
          resting = λ l.
              (((h.at y).resting l).0, total-mark_settled x y c.inflight ∙ ((h.at y).resting l).1);
          attempting = (h.at y).attempting;
          fresh = (h.at y).fresh;
        };
      })
      (λ k. absurd (is_pending k))
  where
    is_pending : has c.pending x ≡ false → ⊥
    is_pending k = ground (
      arith,
      (h.at x).matched,
      unsettled-mark_settled x x c.inflight t f s,
      count_absent x c.pending k,
    )

-- A settled promise is not pending, and only a number that a task has is canceled.
rejected_quiet :
    (x : ℕ) (t : Task) (e : Error) (hand : List Task) (c : Conn)
    → find_task x c.inflight ≡ some t
    → IsHeld hand c
    → (count x (reject_task x e (record c { inflight = mark_settled x c.inflight })).pending ≡ 0)
      × ((reject_task x e (record c { inflight = mark_settled x c.inflight })).next_task
          ≡ c.next_task)
unfolding reject_task settle
rejected_quiet x t e hand c f h =
    if-split (λ (d : Conn). (count x d.pending ≡ 0) × (d.next_task ≡ c.next_task)) (has c.pending x)
      (λ k. (
        ground (
          arith,
          (h.at x).matched,
          (h.at x).single,
          unsettled_le x c.queue,
          unsettled_le x c.inflight,
          unsettled_le x hand,
          count-remove x x c.pending k,
        ),
        refl,
      ))
      (λ k. (count_absent x c.pending k, refl))

requested-IsHeld :
    (x : ℕ) (hand : List Task) (c : Conn)
    → count x c.pending ≡ 0
    → x < c.next_task
    → IsHeld hand c
    → IsHeld hand (send_cancel_request x c)
unfolding send_cancel_request is_head canceled_head
requested-IsHeld x hand c q b h =
    if-split (IsHeld hand) (c.has_key && c.can_cancel)
      (λ k. record {
        at = λ y. record {
          single = (h.at y).single;
          unborn = (h.at y).unborn;
          headless = λ l. ground arith;
          matched = (h.at y).matched;
          quiet = λ l. ground arith;
          emptied = (h.at y).emptied;
          resting = (h.at y).resting;
          attempting = (h.at y).attempting;
          fresh = (h.at y).fresh;
        };
      })
      (λ k. h)

running-IsHeld :
    (t : Task) (hand : List Task) (c : Conn)
    → count t.id c.pending ≡ 0
    → t.id < c.next_task
    → IsHeld hand c
    → IsHeld hand (cancel_running t c)
unfolding cancel_running
running-IsHeld t hand c q b h =
    if-split (IsHeld hand) (is_head t.id (first_id c.inflight))
      (λ k. if-split (IsHeld hand) t.copy_source (λ l. h) (λ l. requested-IsHeld t.id hand c q b h))
      (λ k. h)

-- A task that is not in flight leaves the queue.
unqueued-IsHeld :
    (x : ℕ) (t : Task) (hand : List Task) (c : Conn)
    → find_task x c.queue ≡ some t
    → IsHeld hand c
    → IsHeld (t ∷ hand) (record c { queue = take_out x c.queue })
unfolding total unsettled
unqueued-IsHeld x t hand c f h = record {
  at = λ y. record {
    single = omega (arith, (h.at y).single, total-take_out x y c.queue t f);
    unborn = λ l. omega (arith, (h.at y).unborn l, total-take_out x y c.queue t f);
    headless = (h.at y).headless;
    matched = omega (arith, (h.at y).matched, unsettled-take_out x y c.queue t f);
    quiet = (h.at y).quiet;
    emptied = λ l. omega (arith, (h.at y).emptied l, total-take_out x y c.queue t f);
    resting = (h.at y).resting;
    attempting = (h.at y).attempting;
    fresh = (h.at y).fresh;
  };
}

-- The connection does not hold the task: its promise has settled.
absent-IsHeld :
    (x : ℕ) (e : Error) (c : Conn)
    → find_task x c.inflight ≡ none
    → find_task x c.queue ≡ none
    → IsHeld [] c
    → IsHeld [] (reject_task x e c)
unfolding reject_task settle total unsettled
absent-IsHeld x e c f g h =
    if-split (IsHeld []) (has c.pending x) (λ k. absurd (is_settled k)) (λ k. h)
  where
    is_settled : has c.pending x ≡ true → ⊥
    is_settled k = ground (
      arith,
      (h.at x).matched,
      total-find_none x c.inflight f,
      total-find_none x c.queue g,
      unsettled_le x c.queue,
      unsettled_le x c.inflight,
      count-remove x x c.pending k,
    )

pub cancel_task-IsHeld :
    (x : ℕ) (e : Error) (c : Conn) → IsHeld [] c → IsHeld [] (cancel_task x e c)
unfolding cancel_task total
cancel_task-IsHeld x e c h =
    option-split (IsHeld []) (find_task x c.inflight)
      (λ f. elim (Option-cases (find_task x c.queue)) [
        | inl g ↦
            subst (λ (q : List Task). IsHeld [] (reject_task x e (record c { queue = q })))
              (sym (take_out-find_none x c.queue g)) (absent-IsHeld x e c f g h)
        | inr (u, g) ↦
            subst (λ (y : ℕ). IsHeld [] (reject_task y e (record c { queue = take_out x c.queue })))
              (total-find_task x c.queue u g).0
              (reject_task-IsHeld u [] e (record c { queue = take_out x c.queue })
                (unqueued-IsHeld x u [] c g h))
      ])
      (λ t f.
        if-split (IsHeld []) t.settled (λ s. h)
          (λ s.
            let d = reject_task x e (record c { inflight = mark_settled x c.inflight }) in
            let q = rejected_quiet x t e [] c f h in
            let i = (total-find_task x c.inflight t f).0 in
            running-IsHeld t [] d (rw i q.0) (born t f q.1 i) (mark-IsHeld x t e [] c f s h)))
  where
    born :
        (t : Task)
        → find_task x c.inflight ≡ some t
        → (reject_task x e (record c { inflight = mark_settled x c.inflight })).next_task
          ≡ c.next_task
        → t.id ≡ x
        → t.id < (reject_task x e (record c { inflight = mark_settled x c.inflight })).next_task
    born t f q i = ground (arith, (h.at x).unborn, (total-find_task x c.inflight t f).1)
