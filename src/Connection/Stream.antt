-- ===== src/Connection/Stream.antt =====
-- The iterators of src/connection.ts that `stream` and `copyTo` return: rows or chunks wait in a buffer
-- until the consumer asks, and a full buffer pauses the socket.
pub mod Delivery
pub mod Copied
pub mod Backpressure
use minipg.Base.{
  ℕ, ◌+◌, ◌*◌, Bool, true, false, not, ◌&&◌, Option, none, some, List, [], ◌∷◌, ◌++◌, length, ltb,
  if◌then◌else◌,
}
use minipg.Buffer.{Bytes}
use minipg.Connection.State.{Error}

-- How a call of `next` ends.
pub data Answer {ℓ} (A : Type ℓ) : Type ℓ where
  item : A → Answer A
  finished : Answer A
  failed : Error → Answer A

-- `waiting` stands for the promise of a call of `next` that nothing could answer yet. The answers are
-- in the order in which they were given.
pub record Stream {ℓ} (A : Type ℓ) : Type ℓ where
  pub buf : List A
  pub waiting : Bool
  pub done : Bool
  pub err : Option Error
  pub paused : Bool
  -- Whether the connection has a socket.
  pub socket : Bool
  pub high_water_mark : ℕ
  pub answers : List (Answer A)

module _ {ℓ} {A : Type ℓ} where
  unfoldable pub opened : ℕ → Stream A
  opened hwm = record {
    buf = [];
    waiting = false;
    done = false;
    err = none;
    paused = false;
    socket = true;
    high_water_mark = hwm;
    answers = [];
  }

  unfoldable pub answer : Answer A → Stream A → Stream A
  answer a s = record s { answers = s.answers ++ (a ∷ []) }

  -- `streamEnd` and `streamError`.
  unfoldable pub stream_end : Stream A → Stream A
  stream_end s =
      let r = record s { done = true } in
      if s.waiting then answer finished (record r { waiting = false }) else r

  unfoldable pub stream_error : Error → Stream A → Stream A
  stream_error e s =
      let r = record s { err = some e } in
      if s.waiting then answer (failed e) (record r { waiting = false }) else r

  -- What `next` does with an empty buffer.
  unfoldable pub next_empty : Stream A → Stream A
  next_empty s = elim s.err [
    | some e ↦ answer (failed e) s
    | none ↦ if s.done then answer finished s else record s { waiting = true }
  ]

  -- The first of the buffer answers a call.
  unfoldable pub shift : Stream A → Stream A
  shift s = elim s.buf [ [] ↦ s | r ∷ rs ↦ answer (item r) (record s { buf = rs }) ]

  unfoldable pub pause_if_full : Stream A → Stream A
  pause_if_full s =
      if ltb s.high_water_mark (length s.buf) && (s.socket && not s.paused)
      then record s { paused = true }
      else s

  -- `onRow` of `stream`.
  unfoldable pub on_row : A → Stream A → Stream A
  on_row r s =
      let t = record s { buf = s.buf ++ (r ∷ []) } in
      if s.waiting then shift (record t { waiting = false }) else pause_if_full t

  unfoldable pub resume_if_low : Stream A → Stream A
  resume_if_low s =
      if s.paused && ltb (2 * length s.buf) s.high_water_mark
      then record s { paused = false }
      else s

  -- `next` of `stream`.
  unfoldable pub next : Stream A → Stream A
  next s = elim s.buf [
    | [] ↦ next_empty s
    | r ∷ rs ↦ answer (item r) (resume_if_low (record s { buf = rs }))
  ]

pub data Event {ℓ} (A : Type ℓ) : Type ℓ where
  receives : A → Event A
  asks ends : Event A
  fails : Error → Event A
  -- The connection gets a socket, or loses it.
  plugs : Bool → Event A

module _ {ℓ} {A : Type ℓ} where
  unfoldable pub step : Event A → Stream A → Stream A
  step (receives r) s = on_row r s
  step asks s = next s
  step ends s = stream_end s
  step (fails e) s = stream_error e s
  step (plugs b) s = record s { socket = b }

  unfoldable pub run : List (Event A) → Stream A → Stream A
  run [] s = s
  run (e ∷ es) s = run es (step e s)

-- `copyTo`: a chunk goes to a waiting call as it is, and a call drains the whole buffer as one.
unfoldable pub joined : List Bytes → Bytes
joined [] = []
joined (c ∷ cs) = c ++ joined cs

unfoldable pub pause_if_over : Stream Bytes → Stream Bytes
pause_if_over s =
    if ltb s.high_water_mark (length (joined s.buf)) && (not s.paused && s.socket)
    then record s { paused = true }
    else s

unfoldable pub on_copy_data : Bytes → Stream Bytes → Stream Bytes
on_copy_data chunk s =
    if s.waiting
    then answer (item chunk) (record s { waiting = false })
    else pause_if_over (record s { buf = s.buf ++ (chunk ∷ []) })

unfoldable pub next_chunk : Stream Bytes → Stream Bytes
next_chunk s = elim s.buf [
  | [] ↦ next_empty s
  | c ∷ cs ↦ answer (item (c ++ joined cs)) (record s { buf = []; paused = false })
]

unfoldable pub copy_step : Event Bytes → Stream Bytes → Stream Bytes
copy_step (receives c) s = on_copy_data c s
copy_step asks s = next_chunk s
copy_step ends s = stream_end s
copy_step (fails e) s = stream_error e s
copy_step (plugs b) s = record s { socket = b }

unfoldable pub copy_run : List (Event Bytes) → Stream Bytes → Stream Bytes
copy_run [] s = s
copy_run (e ∷ es) s = copy_run es (copy_step e s)
