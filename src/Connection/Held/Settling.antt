-- ===== src/Connection/Held/Settling.antt =====
-- Settling the promise of a task in hand.
use minipg.Base.{
  ◌≡◌, refl, Bool, true, false, List, [], ◌∷◌, ◌++◌, inl, inr, Bool-cases, if-split, has, remove,
  count-remove, count-remove_le, count_absent, arith,
}
use minipg.Connection.State.{
  Task, Error, Outcome, Effect, settled_with, failed, Conn, settle, reject_task, reject_inflight,
  reject_unsettled, reject_all,
}
use minipg.Connection.Held.View.{
  total, unsettled, IsHeldIn, unsettled_le, total-append, unsettled-append,
}

module _ {m : Bool} where
  -- A settled task may be dropped.
  pub drop-IsHeld :
      (t : Task) (hand : List Task) (c : Conn)
      → t.settled ≡ true
      → IsHeldIn m (t ∷ hand) c
      → IsHeldIn m hand c
  unfolding total unsettled
  drop-IsHeld t hand c e h = record {
    at = λ x. record {
      single = omega (arith, (h.at x).single);
      unborn = λ k. omega (arith, (h.at x).unborn k);
      headless = (h.at x).headless;
      matched = ground (arith, (h.at x).matched);
      quiet = (h.at x).quiet;
      emptied = (h.at x).emptied;
      resting = (h.at x).resting;
      attempting = (h.at x).attempting;
      fresh = (h.at x).fresh;
    };
  }

  -- The promise of a task that is not settled is pending.
  pub unsettled-has :
      (t : Task) (hand : List Task) (c : Conn)
      → t.settled ≡ false
      → IsHeldIn m (t ∷ hand) c
      → has c.pending t.id ≡ false
      → ⊥
  unfolding total unsettled
  unsettled-has t hand c e h k = ground (arith, (h.at t.id).matched, count_absent t.id c.pending k)

  paid-IsHeld :
      (t : Task) (hand : List Task) (l : List Effect) (c : Conn)
      → t.settled ≡ false
      → IsHeldIn m (t ∷ hand) c
      → has c.pending t.id ≡ true
      → IsHeldIn m hand (record c { pending = remove t.id c.pending; log = l })
  unfolding total unsettled
  paid-IsHeld t hand l c s h e = record {
    at = λ x. record {
      single = omega (arith, (h.at x).single);
      unborn = λ k. omega (arith, (h.at x).unborn k);
      headless = (h.at x).headless;
      matched = ground (arith, (h.at x).matched, count-remove x t.id c.pending e);
      quiet = λ k. omega (arith, (h.at x).quiet k, count-remove_le x t.id c.pending);
      emptied = (h.at x).emptied;
      resting = (h.at x).resting;
      attempting = (h.at x).attempting;
      fresh = (h.at x).fresh;
    };
  }

  pub settle_unsettled-IsHeld :
      (t : Task) (hand : List Task) (o : Outcome) (c : Conn)
      → t.settled ≡ false
      → IsHeldIn m (t ∷ hand) c
      → IsHeldIn m hand (settle t.id o c)
  unfolding settle
  settle_unsettled-IsHeld t hand o c s h =
      if-split (IsHeldIn m hand) (has c.pending t.id)
        (λ e. paid-IsHeld t hand (settled_with t.id o ∷ c.log) c s h e)
        (λ e. absurd (unsettled-has t hand c s h e))

  -- The promise of a settled task is not pending.
  settled-has :
      (t : Task) (hand : List Task) (c : Conn)
      → t.settled ≡ true
      → IsHeldIn m (t ∷ hand) c
      → has c.pending t.id ≡ true
      → ⊥
  unfolding total unsettled
  settled-has t hand c e h k = ground (
    arith,
    (h.at t.id).matched,
    (h.at t.id).single,
    count-remove t.id t.id c.pending k,
    unsettled_le t.id c.queue,
    unsettled_le t.id c.inflight,
    unsettled_le t.id hand,
  )

  settle_settled-IsHeld :
      (t : Task) (hand : List Task) (o : Outcome) (c : Conn)
      → t.settled ≡ true
      → IsHeldIn m (t ∷ hand) c
      → IsHeldIn m hand (settle t.id o c)
  unfolding settle
  settle_settled-IsHeld t hand o c s h =
      if-split (IsHeldIn m hand) (has c.pending t.id) (λ e. absurd (settled-has t hand c s h e))
        (λ e. drop-IsHeld t hand c s h)

  pub settle-IsHeld :
      (t : Task) (hand : List Task) (o : Outcome) (c : Conn)
      → IsHeldIn m (t ∷ hand) c
      → IsHeldIn m hand (settle t.id o c)
  settle-IsHeld t hand o c h = elim (Bool-cases t.settled) [
    | inl s ↦ settle_settled-IsHeld t hand o c s h
    | inr s ↦ settle_unsettled-IsHeld t hand o c s h
  ]

  pub reject_task-IsHeld :
      (t : Task) (hand : List Task) (e : Error) (c : Conn)
      → IsHeldIn m (t ∷ hand) c
      → IsHeldIn m hand (reject_task t.id e c)
  unfolding reject_task
  reject_task-IsHeld t hand e c h = settle-IsHeld t hand (failed e) c h

  pub reject_inflight-IsHeld :
      (e : Error) (ts hand : List Task) (c : Conn)
      → IsHeldIn m (ts ++ hand) c
      → IsHeldIn m hand (reject_inflight e ts c)
  unfolding reject_inflight
  reject_inflight-IsHeld e [] hand c h = h
  reject_inflight-IsHeld e (t ∷ ts) hand c h = reject_inflight-IsHeld e ts hand _ (
      if-split (IsHeldIn m (ts ++ hand)) t.settled (λ s. drop-IsHeld t (ts ++ hand) c s h)
        (λ s. reject_task-IsHeld t (ts ++ hand) _ c h))

  pub reject_unsettled-IsHeld :
      (e : Error) (ts hand : List Task) (c : Conn)
      → IsHeldIn m (ts ++ hand) c
      → IsHeldIn m hand (reject_unsettled e ts c)
  unfolding reject_unsettled
  reject_unsettled-IsHeld e [] hand c h = h
  reject_unsettled-IsHeld e (t ∷ ts) hand c h = reject_unsettled-IsHeld e ts hand _ (
      if-split (IsHeldIn m (ts ++ hand)) t.settled (λ s. drop-IsHeld t (ts ++ hand) c s h)
        (λ s. reject_task-IsHeld t (ts ++ hand) e c h))

  pub reject_all-IsHeld :
      (e : Error) (ts hand : List Task) (c : Conn)
      → IsHeldIn m (ts ++ hand) c
      → IsHeldIn m hand (reject_all e ts c)
  unfolding reject_all
  reject_all-IsHeld e [] hand c h = h
  reject_all-IsHeld e (t ∷ ts) hand c h =
      reject_all-IsHeld e ts hand _ (reject_task-IsHeld t (ts ++ hand) e c h)

  -- The tasks of a list leave the connection's places for the hand.
  pub queue_out-IsHeld :
      (hand : List Task) (c : Conn)
      → IsHeldIn m hand c
      → IsHeldIn m (c.queue ++ hand) (record c { queue = [] })
  unfolding total unsettled
  queue_out-IsHeld hand c h = record {
    at = λ x. record {
      single = omega (arith, (h.at x).single, total-append x c.queue hand);
      unborn = λ k. omega (arith, (h.at x).unborn k, total-append x c.queue hand);
      headless = (h.at x).headless;
      matched = omega (arith, (h.at x).matched, unsettled-append x c.queue hand);
      quiet = (h.at x).quiet;
      emptied = λ k. omega (arith, (h.at x).emptied k);
      resting = (h.at x).resting;
      attempting = (h.at x).attempting;
      fresh = (h.at x).fresh;
    };
  }

  pub inflight_out-IsHeld :
      (hand : List Task) (c : Conn)
      → IsHeldIn m hand c
      → IsHeldIn m (c.inflight ++ hand) (record c { inflight = [] })
  unfolding total unsettled
  inflight_out-IsHeld hand c h = record {
    at = λ x. record {
      single = omega (arith, (h.at x).single, total-append x c.inflight hand);
      unborn = λ k. omega (arith, (h.at x).unborn k, total-append x c.inflight hand);
      headless = (h.at x).headless;
      matched = omega (arith, (h.at x).matched, unsettled-append x c.inflight hand);
      quiet = (h.at x).quiet;
      emptied = λ k. omega (arith, (h.at x).emptied k);
      resting = λ k. (((h.at x).resting k).0, refl);
      attempting = (h.at x).attempting;
      fresh = (h.at x).fresh;
    };
  }
