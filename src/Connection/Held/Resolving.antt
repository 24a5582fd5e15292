-- ===== src/Connection/Held/Resolving.antt =====
-- Every promise keeps its task, or is settled, when a cancel request is resolved.
use minipg.Base.{
  ℕ, ◌≡◌, refl, sym, ◌∙◌, ap, true, not, ◌&&◌, ◌||◌, Option, none, some, List, [], ◌==◌, if-split,
  option-split, list-split, arith,
}
use minipg.Connection.State.{TaskId, Task, PendingCancel, Conn}
use minipg.Connection.Dispatch.{clear_pending_cancel}
use minipg.Connection.Cancel.{
  is_head, canceled_head, resolve_canceled_head, end_canceled_head, note_suspects, arm_timer,
  update_cancel, cancel_confirmed, cancel_failed, drain_expired, is_current, is_stopped,
}
use minipg.Connection.Held.View.{view, IsHeld, seen}
use minipg.Connection.Held.Down.{cleared-IsHeld}
use minipg.Connection.Held.Dispatching.{process_queue-IsHeld}

-- A cancel request whose head has ended.
headless-IsHeld :
    (p : PendingCancel) (hand : List Task) (c : Conn)
    → p.head ≡ none
    → IsHeld hand c
    → IsHeld hand (record c { pending_cancel = some p })
unfolding is_head canceled_head
headless-IsHeld p hand c e h = record {
  at = λ x. record {
    single = (h.at x).single;
    unborn = (h.at x).unborn;
    headless = λ k. rw e refl;
    matched = (h.at x).matched;
    quiet = λ k. grind arith;
    emptied = (h.at x).emptied;
    resting = (h.at x).resting;
    attempting = (h.at x).attempting;
    fresh = (h.at x).fresh;
  };
}

resolve-IsHeld :
    (p : PendingCancel) (hand : List Task) (c : Conn)
    → IsHeld hand c
    → IsHeld hand (resolve_canceled_head p c)
unfolding resolve_canceled_head
resolve-IsHeld p hand c h =
    if-split (IsHeld hand) c.is_retiring (λ k. h)
      (λ k.
        if-split (IsHeld hand) (p.has_failed || (p.is_confirmed && c.is_behind_pooler))
          (λ l. process_queue-IsHeld hand (record c { is_retiring = true }) (record { at = h.at }))
          (λ l.
            if-split (IsHeld hand) p.is_confirmed
              (λ m. process_queue-IsHeld hand (clear_pending_cancel c) (cleared-IsHeld hand c h))
              (λ m. h)))

noted-IsHeld :
    (t : Task) (p : PendingCancel) (hand : List Task) (c : Conn)
    → IsHeld hand c
    → IsHeld hand (note_suspects t p c)
unfolding note_suspects
noted-IsHeld t p hand c h =
    list-split (IsHeld hand) c.inflight (λ e. h)
      (λ u us e. if-split (IsHeld hand) (is_stopped t) (λ k. h) (λ k. record { at = h.at }))

armed-IsHeld :
    (p : PendingCancel) (hand : List Task) (c : Conn)
    → p.head ≡ none
    → IsHeld hand c
    → IsHeld hand (arm_timer p c)
unfolding arm_timer
armed-IsHeld p hand c e h =
    if-split (IsHeld hand) (is_current p.number c.pending_cancel && not c.is_retiring)
      (λ k. headless-IsHeld (record p { timer = true }) hand c e h) (λ k. h)

pub end_canceled_head-IsHeld :
    (t : Task) (p : PendingCancel) (hand : List Task) (c : Conn)
    → p.head ≡ none
    → IsHeld hand c
    → IsHeld hand (end_canceled_head t p c)
unfolding end_canceled_head
end_canceled_head-IsHeld t p hand c e h =
    let d = note_suspects t p (record c { pending_cancel = some p }) in
    let k =
      noted-IsHeld t p hand (record c { pending_cancel = some p }) (headless-IsHeld p hand c e h) in
    if-split (IsHeld hand) d.is_retiring (λ l. k)
      (λ l.
        if-split (IsHeld hand) (is_stopped t) (λ m. cleared-IsHeld hand d k)
          (λ m. armed-IsHeld p hand (resolve_canceled_head p d) e (resolve-IsHeld p hand d k)))

-- What the cancel request learned changes nothing about its head.
updated-IsHeld :
    (p q : PendingCancel) (hand : List Task) (c : Conn)
    → c.pending_cancel ≡ some p
    → q.head ≡ p.head
    → IsHeld hand c
    → IsHeld hand (update_cancel q c)
unfolding update_cancel canceled_head
updated-IsHeld p q hand c e f h =
    option-split (IsHeld hand) q.head
      (λ k.
        resolve-IsHeld q hand (record c { pending_cancel = some q }) (headless-IsHeld q hand c k h))
      (λ x k. seen hand c (record c { pending_cancel = some q }) same_head h)
  where
    same_head : view (record c { pending_cancel = some q }) ≡ view c
    same_head =
        ap (λ (o : Option TaskId). record (view c) { head = o }) (f ∙ sym (ap canceled_head e))

pub cancel_confirmed-IsHeld : (n : ℕ) (c : Conn) → IsHeld [] c → IsHeld [] (cancel_confirmed n c)
unfolding cancel_confirmed
cancel_confirmed-IsHeld n c h =
    option-split (IsHeld []) c.pending_cancel (λ e. h)
      (λ p e.
        if-split (IsHeld []) (p.number == n)
          (λ k. updated-IsHeld p (record p { is_confirmed = true }) [] c e refl h) (λ k. h))

pub cancel_failed-IsHeld : (n : ℕ) (c : Conn) → IsHeld [] c → IsHeld [] (cancel_failed n c)
unfolding cancel_failed
cancel_failed-IsHeld n c h =
    option-split (IsHeld []) c.pending_cancel (λ e. h)
      (λ p e.
        if-split (IsHeld []) (p.number == n)
          (λ k. updated-IsHeld p (record p { has_failed = true }) [] c e refl h) (λ k. h))

pub drain_expired-IsHeld : (n : ℕ) (c : Conn) → IsHeld [] c → IsHeld [] (drain_expired n c)
unfolding drain_expired
drain_expired-IsHeld n c h =
    option-split (IsHeld []) c.pending_cancel (λ e. h)
      (λ p e.
        if-split (IsHeld []) (p.number == n && p.timer)
          (λ k. process_queue-IsHeld [] (record c { is_retiring = true }) (record { at = h.at }))
          (λ k. h))
