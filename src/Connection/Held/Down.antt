-- ===== src/Connection/Held/Down.antt =====
-- Every promise keeps its task, or is settled, when a socket is lost.
use minipg.Base.{
  ◌≡◌, refl, ◌∙◌, Bool, true, false, not, ◌&&◌, List, [], ◌∷◌, ◌++◌, if-split, has, arith, ap,
}
use minipg.Connection.State.{
  Task, Error, Conn, retired, terminate, reconnecting, is_ready, is_closed, settle, reject_task,
  reject_inflight,
}
use minipg.Connection.Dispatch.{
  clear_pending_cancel, drop_inflight, reconnect_or_close, on_socket_down, retire, no_names,
}
use minipg.Connection.Cancel.{is_head, canceled_head}
use minipg.Connection.Held.View.{total, IsHeld}
use minipg.Connection.Held.Settling.{inflight_out-IsHeld, reject_inflight-IsHeld}
use minipg.Connection.Held.Closing.{
  IsQuiet, close_with-IsHeld, next_attempt-IsHeld, fail_attempt-IsHeld,
}

pub cleared-IsHeld :
    (hand : List Task) (c : Conn) → IsHeld hand c → IsHeld hand (clear_pending_cancel c)
unfolding clear_pending_cancel is_head canceled_head
cleared-IsHeld hand c h = record {
  at = λ x. record {
    single = (h.at x).single;
    unborn = (h.at x).unborn;
    headless = λ k. refl;
    matched = (h.at x).matched;
    quiet = λ k. cc;
    emptied = (h.at x).emptied;
    resting = (h.at x).resting;
    attempting = (h.at x).attempting;
    fresh = (h.at x).fresh;
  };
}

-- What the rejection of tasks leaves alone.
abbrev flags : Conn → List Task × (Bool × Bool)
flags c = (c.inflight, (c.is_connecting, c.connect_called))

flags-reject_inflight :
    (e : Error) (ts : List Task) (c : Conn) → flags (reject_inflight e ts c) ≡ flags c
unfolding reject_inflight reject_task settle
flags-reject_inflight e [] c = refl
flags-reject_inflight e (t ∷ ts) c =
    flags-reject_inflight e ts _
    ∙ if-split (λ d. flags d ≡ flags c) t.settled (λ k. refl)
        (λ k. if-split (λ d. flags d ≡ flags c) (has c.pending t.id) (λ l. refl) (λ l. refl))

unplugged-IsHeld :
    (hand : List Task) (c : Conn) → IsHeld hand c → IsHeld hand (record c { socket = false })
unplugged-IsHeld hand c h = record {
  at = λ x. record {
    single = (h.at x).single;
    unborn = (h.at x).unborn;
    headless = (h.at x).headless;
    matched = (h.at x).matched;
    quiet = (h.at x).quiet;
    emptied = (h.at x).emptied;
    resting = (h.at x).resting;
    attempting = (h.at x).attempting;
    fresh = λ k. ground (arith, (h.at x).fresh);
  };
}

drop_inflight-IsHeld :
    (e : Error) (hand : List Task) (c : Conn) → IsHeld hand c → IsHeld hand (drop_inflight e c)
unfolding drop_inflight clear_pending_cancel
drop_inflight-IsHeld e hand c h =
    let k = inflight_out-IsHeld hand (clear_pending_cancel c) (cleared-IsHeld hand c h) in
    reject_inflight-IsHeld e c.inflight hand _ (record {
      at =
          (unplugged-IsHeld (c.inflight ++ hand) (record (clear_pending_cancel c) { inflight = [] })
            k).at;
    })

flags-drop_inflight :
    (e : Error) (c : Conn) → flags (drop_inflight e c) ≡ ([], (c.is_connecting, c.connect_called))
unfolding drop_inflight clear_pending_cancel
flags-drop_inflight e c = flags-reject_inflight e c.inflight _

reconnecting-IsHeld :
    (hand : List Task) (c : Conn)
    → IsQuiet c
    → IsHeld hand c
    → IsHeld hand (record c { status = reconnecting; names = no_names; attempt = 0 })
unfolding is_ready is_closed
reconnecting-IsHeld hand c q h = record {
  at = λ x. record {
    single = (h.at x).single;
    unborn = (h.at x).unborn;
    headless = (h.at x).headless;
    matched = (h.at x).matched;
    quiet = (h.at x).quiet;
    emptied = λ k. cc;
    resting = λ k. (refl, q x);
    attempting = (h.at x).attempting;
    fresh = (h.at x).fresh;
  };
}

reconnect_or_close-IsHeld :
    (e : Error) (hand : List Task) (c : Conn)
    → IsQuiet c
    → c.is_connecting ≡ false
    → c.connect_called ≡ true
    → IsHeld hand c
    → IsHeld hand (reconnect_or_close e c)
unfolding reconnect_or_close is_ready
reconnect_or_close-IsHeld e hand c q a o h =
    if-split (IsHeld hand) (c.reconnects && not c.ended)
      (λ k. next_attempt-IsHeld hand _ q refl a o (reconnecting-IsHeld hand c q h))
      (λ k. close_with-IsHeld e hand c q h)

pub on_socket_down-IsHeld :
    (e : Error) (hand : List Task) (c : Conn)
    → c.connect_called ≡ true
    → IsHeld hand c
    → IsHeld hand (on_socket_down e c)
unfolding on_socket_down total
on_socket_down-IsHeld e hand c o h =
    if-split (IsHeld hand) (is_closed c.status) (λ k. h)
      (λ k.
        if-split (IsHeld hand) c.is_connecting (λ k. fail_attempt-IsHeld e hand c h)
          (λ k.
            let f = flags-drop_inflight e c in
            reconnect_or_close-IsHeld e hand (drop_inflight e c)
              (λ x. ap (λ (p : List Task × (Bool × Bool)). total x p.0) f)
              (ap (λ (p : List Task × (Bool × Bool)). p.1.0) f ∙ k)
              (ap (λ (p : List Task × (Bool × Bool)). p.1.1) f ∙ o)
              (drop_inflight-IsHeld e hand c h)))

pub retire-IsHeld :
    (hand : List Task) (c : Conn) → c.connect_called ≡ true → IsHeld hand c → IsHeld hand (retire c)
unfolding retire
retire-IsHeld hand c o h =
    on_socket_down-IsHeld retired hand (record c { sent = c.sent ++ (terminate ∷ []) }) o
      (record { at = h.at })
