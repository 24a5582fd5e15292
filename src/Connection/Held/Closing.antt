-- ===== src/Connection/Held/Closing.antt =====
-- The tasks of a connection that is closed, or whose attempt to connect fails.
use minipg.Base.{ℕ, ◌+◌, ◌≡◌, refl, true, false, not, ◌||◌, List, [], ◌++◌, if-split, arith}
use minipg.Connection.State.{
  Task, Error, Conn, reconnect_failed, closed, is_ready, is_closed, is_fatal_auth, reject_queue,
}
use minipg.Connection.Dispatch.{close_with, next_attempt, attempt_rejected, fail_attempt}
use minipg.Connection.Held.View.{total, IsHeld}
use minipg.Connection.Held.Settling.{queue_out-IsHeld, reject_all-IsHeld}

-- The states that the connection can be closed or reconnect from.
abbrev pub IsQuiet : Conn → Type 0
IsQuiet c = (x : ℕ) → total x c.inflight ≡ 0

closed-IsHeld :
    (hand : List Task) (c : Conn)
    → IsQuiet c
    → IsHeld hand (record c { queue = [] })
    → IsHeld hand (record c { status = closed; sleeping = false; queue = [] })
unfolding total is_closed is_ready
closed-IsHeld hand c q h = record {
  at = λ x. record {
    single = (h.at x).single;
    unborn = (h.at x).unborn;
    headless = (h.at x).headless;
    matched = (h.at x).matched;
    quiet = (h.at x).quiet;
    emptied = λ k. omega (arith, q x);
    resting = λ k. (refl, q x);
    attempting = λ k. ground (arith, (h.at x).attempting k);
    fresh = λ k. ground (arith, (h.at x).fresh);
  };
}

pub close_with-IsHeld :
    (e : Error) (hand : List Task) (c : Conn)
    → IsQuiet c
    → IsHeld hand c
    → IsHeld hand (close_with e c)
unfolding close_with reject_queue
close_with-IsHeld e hand c q h =
    reject_all-IsHeld e c.queue hand _
      (closed-IsHeld (c.queue ++ hand) c q (queue_out-IsHeld hand c h))

-- The reconnect loop goes to sleep.
asleep-IsHeld :
    (hand : List Task) (c : Conn)
    → IsQuiet c
    → is_ready c.status ≡ false
    → c.is_connecting ≡ false
    → c.connect_called ≡ true
    → IsHeld hand c
    → IsHeld hand (record c { sleeping = true })
asleep-IsHeld hand c q r a o h = record {
  at = λ x. record {
    single = (h.at x).single;
    unborn = (h.at x).unborn;
    headless = (h.at x).headless;
    matched = (h.at x).matched;
    quiet = (h.at x).quiet;
    emptied = (h.at x).emptied;
    resting = λ k. (r, q x);
    attempting = λ k. grind arith;
    fresh = λ k. ground arith;
  };
}

pub next_attempt-IsHeld :
    (hand : List Task) (c : Conn)
    → IsQuiet c
    → is_ready c.status ≡ false
    → c.is_connecting ≡ false
    → c.connect_called ≡ true
    → IsHeld hand c
    → IsHeld hand (next_attempt c)
unfolding next_attempt
next_attempt-IsHeld hand c q r a o h =
    if-split (IsHeld hand) c.ended (λ e. h)
      (λ e.
        if-split (IsHeld hand) (is_closed c.status) (λ e. h)
          (λ e.
            if-split (IsHeld hand) _ (λ e. close_with-IsHeld reconnect_failed hand c q h)
              (λ e. asleep-IsHeld hand c q r a o h)))

attempt_rejected-IsHeld :
    (e : Error) (hand : List Task) (c : Conn)
    → IsQuiet c
    → is_ready c.status ≡ false
    → c.is_connecting ≡ false
    → c.connect_called ≡ true
    → IsHeld hand c
    → IsHeld hand (attempt_rejected e c)
unfolding attempt_rejected
attempt_rejected-IsHeld e hand c q r a o h =
    if-split (IsHeld hand) (not c.ever_connected) (λ k. close_with-IsHeld e hand c q h)
      (λ k.
        if-split (IsHeld hand) (is_fatal_auth e) (λ k. close_with-IsHeld e hand c q h)
          (λ k.
            next_attempt-IsHeld hand (record c { attempt = c.attempt + 1 }) q r a o
              (record { at = h.at })))

-- An attempt ends, and with it the connection is neither up nor waiting.
ended_attempt-IsHeld :
    (hand : List Task) (c : Conn)
    → IsHeld hand c
    → IsHeld hand (record c { is_connecting = false; socket = false })
ended_attempt-IsHeld hand c h = record {
  at = λ x. record {
    single = (h.at x).single;
    unborn = (h.at x).unborn;
    headless = (h.at x).headless;
    matched = (h.at x).matched;
    quiet = (h.at x).quiet;
    emptied = (h.at x).emptied;
    resting = λ k. ground (arith, (h.at x).resting);
    attempting = λ k. cc;
    fresh = λ k. ground (arith, (h.at x).fresh);
  };
}

pub fail_attempt-IsHeld :
    (e : Error) (hand : List Task) (c : Conn) → IsHeld hand c → IsHeld hand (fail_attempt e c)
unfolding fail_attempt
fail_attempt-IsHeld e hand c h =
    if-split (IsHeld hand) c.is_connecting
      (λ k.
        attempt_rejected-IsHeld e hand (record c { is_connecting = false; socket = false })
          (λ x. ((h.at x).resting (by_attempt k)).1) ((h.at 0).resting (by_attempt k)).0 refl
          (is_called k) (ended_attempt-IsHeld hand c h))
      (λ k. h)
  where
    is_called : c.is_connecting ≡ true → c.connect_called ≡ true
    is_called k = ground (arith, (h.at 0).attempting)

    by_attempt :
        c.is_connecting ≡ true → (c.is_connecting || (c.sleeping || not c.connect_called)) ≡ true
    by_attempt k = rw k refl
