-- ===== src/Replication/Flow/Paused.antt =====
-- The count of queued bytes, and when the socket is paused.
use minipg.Base.{
  ℕ, ◌+◌, ◌-◌, ◌*◌, ◌≤◌, ◌<◌, ◌≡◌, refl, subst, length, Bool, true, false, not, ◌&&◌, Option, none,
  some, List, [], ◌∷◌, ◌++◌, ltb, ltb→lt, ltb→le, if◌then◌else◌, if-split, list-split, arith,
}
use minipg.Replication.Flow.{
  Queue, bytes, is_over, is_half_empty, pause_if_over, on_data, force_resume, take_next, ceiling,
  put_back, start_stream, finish_stream, arrives, taken, returned, starts, finishes, Reach, here,
  after,
}

-- The count of bytes is that of the queue, a limit is positive, and half of it is used while the socket
-- is paused.
abbrev IsHeld : Option ℕ → ℕ → Type 0
IsHeld none n = ⊥
IsHeld (some m) n = (0 < m) × (m ≤ 2 * n)

abbrev IsLimit : Option ℕ → Type 0
IsLimit none = Unit {0}
IsLimit (some m) = 0 < m

record IsCounted (s : Queue) : Type 0 where
  counted : s.q_bytes ≡ bytes s.q
  held : s.q_paused ≡ true → IsHeld s.max_queue s.q_bytes
  limited : IsLimit s.max_queue
  idle : s.streaming ≡ false → s.max_queue ≡ none

bytes-append : (ms ns : List ℕ) → bytes (ms ++ ns) ≡ bytes ms + bytes ns
unfolding bytes
bytes-append [] ns = omega arith
bytes-append (m ∷ ms) ns = omega (arith, bytes-append ms ns)

more-IsHeld : (o : Option ℕ) (n k : ℕ) → n ≤ k → IsHeld o n → IsHeld o k
more-IsHeld none n k l h = h
more-IsHeld (some m) n k l h = (h.0, omega (arith, h.1))

over-IsHeld : (o : Option ℕ) (n : ℕ) (b : Bool) → IsLimit o → (is_over o n && b) ≡ true → IsHeld o n
unfolding is_over
over-IsHeld none n b l h = cc
over-IsHeld (some m) n b l h = (l, omega (arith, ltb→lt m n (first (ltb m n) b h)))
  where
    first : (a b : Bool) → (a && b) ≡ true → a ≡ true
    first true b p = refl
    first false b p = cc

kept-IsHeld : (o : Option ℕ) (n : ℕ) → IsLimit o → is_half_empty o n ≡ false → IsHeld o n
unfolding is_half_empty
kept-IsHeld none n l h = cc
kept-IsHeld (some m) n l h = (l, ltb→le (2 * n) m h)

pause_if_over-IsCounted : (s : Queue) → IsCounted s → IsCounted (pause_if_over s)
unfolding pause_if_over
pause_if_over-IsCounted s h =
    if-split IsCounted (is_over s.max_queue s.q_bytes && not s.q_paused)
      (λ e. record {
        counted = h.counted;
        held = λ k. over-IsHeld s.max_queue s.q_bytes (not s.q_paused) h.limited e;
        limited = h.limited;
        idle = h.idle;
      })
      (λ e. h)

on_data-IsCounted : (ms : List ℕ) (s : Queue) → IsCounted s → IsCounted (on_data ms s)
unfolding on_data
on_data-IsCounted [] s h = h
on_data-IsCounted (m ∷ ms) s h =
    pause_if_over-IsCounted (record s { q = s.q ++ (m ∷ ms); q_bytes = s.q_bytes + bytes (m ∷ ms) })
      (record {
        counted = omega (arith, h.counted, bytes-append s.q (m ∷ ms));
        held = λ k. more-IsHeld s.max_queue s.q_bytes _ (omega arith) (h.held k);
        limited = h.limited;
        idle = h.idle;
      })

-- With one message less: either the socket goes on, or half of the limit is still used.
drained-IsCounted :
    (r : Queue)
    → r.q_bytes ≡ bytes r.q
    → IsLimit r.max_queue
    → (r.streaming ≡ false → r.max_queue ≡ none)
    → IsCounted (if r.q_paused && is_half_empty r.max_queue r.q_bytes then force_resume r else r)
unfolding force_resume
drained-IsCounted r c l i =
    if-split IsCounted (r.q_paused && is_half_empty r.max_queue r.q_bytes)
      (λ e.
        if-split IsCounted r.q_paused
          (λ k. record { counted = c; held = λ m. cc; limited = l; idle = i })
          (λ k. record { counted = c; held = λ m. cc; limited = l; idle = i }))
      (λ e. record {
        counted = c;
        held = λ k. kept-IsHeld r.max_queue r.q_bytes l (other r.q_paused _ k e);
        limited = l;
        idle = i;
      })
  where
    other : (a b : Bool) → a ≡ true → (a && b) ≡ false → b ≡ false
    other true b p q = q
    other false b p q = cc

take_next-IsCounted : (s : Queue) → IsCounted s → IsCounted (take_next s)
unfolding take_next bytes
take_next-IsCounted s h =
    list-split IsCounted s.q (λ e. h)
      (λ m ms e.
        drained-IsCounted (record s { q = ms; q_bytes = s.q_bytes - (m + 5) })
          (ground (arith, h.counted)) h.limited h.idle)

put_back-IsCounted : (m : ℕ) (s : Queue) → IsCounted s → IsCounted (put_back m s)
unfolding put_back bytes
put_back-IsCounted m s h = record {
  counted = omega (arith, h.counted);
  held = λ k. more-IsHeld s.max_queue s.q_bytes (s.q_bytes + (m + 5)) (omega arith) (h.held k);
  limited = h.limited;
  idle = h.idle;
}

ceiling-IsLimit : (n : Option ℕ) → IsLimit (ceiling n)
unfolding ceiling
ceiling-IsLimit none = tt
ceiling-IsLimit (some n) = if-split IsLimit (ltb 0 n) (λ e. ltb→lt 0 n e) (λ e. omega arith)

start_stream-IsCounted : (n : Option ℕ) (s : Queue) → IsCounted s → IsCounted (start_stream n s)
unfolding start_stream
start_stream-IsCounted n s h =
    if-split IsCounted s.streaming (λ e. h)
      (λ e. record {
        counted = h.counted;
        held = λ k. absurd (subst (λ o. IsHeld o s.q_bytes) (h.idle e) (h.held k));
        limited = ceiling-IsLimit n;
        idle = λ k. cc;
      })

finish_stream-IsCounted : (s : Queue) → IsCounted (finish_stream s)
unfolding finish_stream force_resume
finish_stream-IsCounted s =
    if-split
      (λ (t : Queue).
        IsCounted (record t { q_bytes = bytes t.q; streaming = false; max_queue = none }))
      s.q_paused (λ e. record { counted = refl; held = λ k. cc; limited = tt; idle = λ k. refl })
      (λ e. record { counted = refl; held = λ k. cc; limited = tt; idle = λ k. refl })

Reach-IsCounted : {s : Queue} → Reach s → IsCounted s
unfolding bytes
Reach-IsCounted here = record { counted = refl; held = λ k. cc; limited = tt; idle = λ k. refl }
Reach-IsCounted (after r (arrives ms s)) = on_data-IsCounted ms s (Reach-IsCounted r)
Reach-IsCounted (after r (taken s)) = take_next-IsCounted s (Reach-IsCounted r)
Reach-IsCounted (after r (returned m s)) = put_back-IsCounted m s (Reach-IsCounted r)
Reach-IsCounted (after r (starts n s)) = start_stream-IsCounted n s (Reach-IsCounted r)
Reach-IsCounted (after r (finishes s)) = finish_stream-IsCounted s

held_some : (ms : List ℕ) (o : Option ℕ) → IsHeld o (bytes ms) → 0 < length ms
unfolding bytes
held_some [] none h = absurd h
held_some [] (some m) h = absurd (omega (arith, h.0, h.1))
held_some (m ∷ ms) o h = omega arith

-- Whatever arrives and is taken, and however streams start and finish: the count of queued bytes is that
-- of the messages in the queue, and while the socket is paused messages are queued, so that `next`
-- goes on and can resume it.
pub paused-Reach :
    {s : Queue} → Reach s → (s.q_bytes ≡ bytes s.q) × ((if s.q_paused then 1 else 0) ≤ length s.q)
paused-Reach {s} r =
    let h = Reach-IsCounted r in
    (
      h.counted,
      if-split (λ n. n ≤ length s.q) s.q_paused
          (λ k. held_some s.q s.max_queue (subst (IsHeld s.max_queue) h.counted (h.held k)))
          (λ k. omega arith),
    )
