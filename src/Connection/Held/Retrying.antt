-- ===== src/Connection/Held/Retrying.antt =====
-- Every promise keeps its task when a query that ended is settled or run again, and when its cancel request is checked.
use minipg.Base.{
  ◌+◌, ◌≡◌, refl, Bool, true, false, not, ◌&&◌, none, List, [], ◌∷◌, ◌++◌, if-split, option-split,
  has, arith,
}
use minipg.Connection.State.{Task, LateCancel, Conn, is_closed}
use minipg.Connection.Cancel.{is_head, check_late_cancel, is_current, marks_late}
use minipg.Connection.Finish.{
  late_check, cancel_check, may_retry, outcome, settle_finished, retry, retry_or_settle, invalidate,
  is_invalidated,
}
use minipg.Connection.Held.View.{total, unsettled, IsHeld, total-append, unsettled-append}
use minipg.Connection.Held.Settling.{settle-IsHeld, drop-IsHeld}
use minipg.Connection.Held.Down.{cleared-IsHeld}
use minipg.Connection.Held.Dispatching.{process_queue-IsHeld}
use minipg.Connection.Held.Resolving.{end_canceled_head-IsHeld}

late-IsHeld :
    (t : Task) (l : LateCancel) (hand : List Task) (c : Conn)
    → IsHeld hand c
    → IsHeld hand (check_late_cancel t l c)
unfolding check_late_cancel
late-IsHeld t l hand c h =
    if-split (IsHeld hand) (marks_late t)
      (λ k.
        if-split (IsHeld hand) (is_current l.pending_number c.pending_cancel && not c.is_retiring)
          (λ m. cleared-IsHeld hand (record c { late_cancel = none }) (record { at = h.at }))
          (λ m. record { at = h.at }))
      (λ k. record { at = h.at })

pub late_check-IsHeld :
    (t : Task) (hand : List Task) (c : Conn) → IsHeld hand c → IsHeld hand (late_check t c)
unfolding late_check
late_check-IsHeld t hand c h =
    option-split (IsHeld hand) c.late_cancel (λ e. h)
      (λ l e. if-split (IsHeld hand) (has l.suspects t.id) (λ k. late-IsHeld t l hand c h) (λ k. h))

pub cancel_check-IsHeld :
    (t : Task) (hand : List Task) (c : Conn) → IsHeld hand c → IsHeld hand (cancel_check t c)
unfolding cancel_check
cancel_check-IsHeld t hand c h =
    option-split (IsHeld hand) c.pending_cancel (λ e. h)
      (λ p e.
        if-split (IsHeld hand) (is_head t.id p.head)
          (λ k. end_canceled_head-IsHeld t (record p { head = none }) hand c refl h) (λ k. h))

settle_finished-IsHeld :
    (t : Task) (hand : List Task) (c : Conn)
    → IsHeld (t ∷ hand) c
    → IsHeld hand (settle_finished t c)
unfolding settle_finished
settle_finished-IsHeld t hand c h = process_queue-IsHeld hand _ (
    if-split (IsHeld hand) t.settled (λ k. drop-IsHeld t hand c k h)
      (λ k. settle-IsHeld t hand (outcome t) c h))

-- A task in hand goes to the back of the queue, unless the connection is closed.
pub push_queue-IsHeld :
    (t u : Task) (hand : List Task) (c : Conn)
    → u.id ≡ t.id
    → u.settled ≡ t.settled
    → is_closed c.status ≡ false
    → IsHeld (t ∷ hand) c
    → IsHeld hand (record c { queue = c.queue ++ (u ∷ []) })
unfolding total unsettled
push_queue-IsHeld t u hand c i s r h = record {
  at = λ x. record {
    single = ground (arith, (h.at x).single, total-append x c.queue (u ∷ []));
    unborn = λ k. ground (arith, (h.at x).unborn, total-append x c.queue (u ∷ []));
    headless = (h.at x).headless;
    matched = ground (arith, (h.at x).matched, unsettled-append x c.queue (u ∷ []));
    quiet = (h.at x).quiet;
    emptied = λ l. cc;
    resting = (h.at x).resting;
    attempting = (h.at x).attempting;
    fresh = (h.at x).fresh;
  };
}

retry-IsHeld :
    (t : Task) (hand : List Task) (c : Conn)
    → is_closed c.status ≡ false
    → IsHeld (t ∷ hand) c
    → IsHeld hand (retry t c)
unfolding retry
retry-IsHeld t hand c r h =
    let u = record t { error = none; retries = t.retries + 1; reused = false } in
    process_queue-IsHeld hand (record c { queue = c.queue ++ (u ∷ []) })
      (push_queue-IsHeld t u hand c refl refl r h)

pub retry_or_settle-IsHeld :
    (t : Task) (hand : List Task) (c : Conn)
    → (t.settled ≡ false → is_closed c.status ≡ false)
    → IsHeld (t ∷ hand) c
    → IsHeld hand (retry_or_settle t c)
unfolding retry_or_settle may_retry
retry_or_settle-IsHeld t hand c r h =
    option-split (IsHeld hand) t.name (λ e. settle_finished-IsHeld t hand c h)
      (λ n e.
        let d = record c { names = invalidate n c.names } in
        if-split (IsHeld hand) (is_invalidated t)
          (λ k.
            if-split (IsHeld hand) (may_retry t c)
              (λ m. retry-IsHeld t hand d (r (unsettled m)) (record { at = h.at }))
              (λ m. settle_finished-IsHeld t hand d (record { at = h.at })))
          (λ k. settle_finished-IsHeld t hand c h))
  where
    is_first : (a b : Bool) → (not a && b) ≡ true → a ≡ false
    is_first true b p = cc
    is_first false b p = refl

    unsettled : may_retry t c ≡ true → t.settled ≡ false
    unsettled m = is_first t.settled _ m
