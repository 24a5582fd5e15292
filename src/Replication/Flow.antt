-- ===== src/Replication/Flow.antt =====
-- The receive queue of src/replication.ts: `onData` fills it and pauses the socket when it holds too
-- many bytes, `next` drains it and resumes the socket.
pub mod Paused
use minipg.Base.{
  ℕ, ◌+◌, ◌-◌, ◌*◌, ◌≤◌, ◌<◌, ◌≡◌, refl, subst, length, Bool, true, false, not, ◌&&◌, ◌||◌, Option,
  none, some, List, [], ◌∷◌, ◌++◌, ltb, ltb→lt, ltb→le, if◌then◌else◌, if-split, list-split, arith,
  tests,
}

-- A message is the length of its body. `max_queue` is none where the code has Infinity.
pub record Queue : Type 0 where
  pub q : List ℕ
  pub q_bytes : ℕ
  pub q_paused : Bool
  pub max_queue : Option ℕ
  pub streaming : Bool

-- What the messages of a queue take: the type byte and the int32 length besides the body.
unfoldable pub bytes : List ℕ → ℕ
bytes [] = 0
bytes (m ∷ ms) = m + 5 + bytes ms

unfoldable pub is_over : Option ℕ → ℕ → Bool
is_over none n = false
is_over (some m) n = ltb m n

unfoldable pub is_half_empty : Option ℕ → ℕ → Bool
is_half_empty none n = true
is_half_empty (some m) n = ltb (2 * n) m

unfoldable pub pause_if_over : Queue → Queue
pause_if_over s =
    if is_over s.max_queue s.q_bytes && not s.q_paused then (record s { q_paused = true }) else s

-- The messages that one chunk completes.
unfoldable pub on_data : List ℕ → Queue → Queue
on_data [] s = s
on_data (m ∷ ms) s =
    pause_if_over (record s { q = s.q ++ (m ∷ ms); q_bytes = s.q_bytes + bytes (m ∷ ms) })

unfoldable pub force_resume : Queue → Queue
force_resume s = if s.q_paused then (record s { q_paused = false }) else s

-- The loop of `next` takes one message out each time; a kind that it skips is taken out the same way.
unfoldable pub take_next : Queue → Queue
take_next s = elim s.q [
  | [] ↦ s
  | m ∷ ms ↦
      let r = record s { q = ms; q_bytes = s.q_bytes - (m + 5) } in
      if r.q_paused && is_half_empty r.max_queue r.q_bytes then force_resume r else r
]

-- `command` puts back the CopyBothResponse that it meets.
unfoldable pub put_back : ℕ → Queue → Queue
put_back m s = record s { q = m ∷ s.q; q_bytes = s.q_bytes + (m + 5) }

-- `maxQueueBytes`: what is not a positive number is 64 MB.
unfoldable pub ceiling : Option ℕ → Option ℕ
ceiling none = none
ceiling (some n) = if ltb 0 n then some n else some (64 * 1024 * 1024)

-- A second stream is refused.
unfoldable pub start_stream : Option ℕ → Queue → Queue
start_stream n s = if s.streaming then s else record s { streaming = true; max_queue = ceiling n }

-- The `finally` of a stream.
unfoldable pub finish_stream : Queue → Queue
finish_stream s =
    let r = record (force_resume s) { streaming = false; max_queue = none } in
    record r { q_bytes = bytes r.q }

pub data Step : Queue → Queue → Type 0 where
  arrives : (ms : List ℕ) (s : Queue) → Step s (on_data ms s)
  taken : (s : Queue) → Step s (take_next s)
  returned : (m : ℕ) (s : Queue) → Step s (put_back m s)
  starts : (n : Option ℕ) (s : Queue) → Step s (start_stream n s)
  finishes : (s : Queue) → Step s (finish_stream s)

abbrev pub empty : Queue
empty = record { q = []; q_bytes = 0; q_paused = false; max_queue = none; streaming = false }

pub data Reach : Queue → Type 0 where
  here : Reach empty
  after : {s t : Queue} → Reach s → Step s t → Reach t
