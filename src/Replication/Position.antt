-- ===== src/Replication/Position.antt =====
-- The positions that src/replication.ts keeps of the log, and what it confirms to the server.
pub mod Confirmed
use minipg.Base.{
  ℕ, Bool, true, false, ◌&&◌, ◌||◌, not, Option, none, some, List, [], ◌∷◌, ltb, leb, if◌then◌else◌,
}

-- A status message confirms `flushed`. The newest is the first.
pub record Positions : Type 0 where
  pub last_received : ℕ
  pub flushed : ℕ
  pub last_delivered_start : ℕ
  pub last_delivered_end : ℕ
  pub statuses : List (ℕ × ℕ)

unfoldable pub send_status : Positions → Positions
send_status s = record s { statuses = (s.last_received, s.flushed) ∷ s.statuses }

-- A position inside the record of the last delivered commit counts as that commit's end.
unfoldable pub normalized : ℕ → Positions → ℕ
normalized v s =
    if leb s.last_delivered_start v && ltb v s.last_delivered_end then s.last_delivered_end else v

unfoldable pub ack : ℕ → Positions → Positions
ack lsn s =
    let v = normalized lsn s in
    if ltb s.flushed v then send_status (record s { flushed = v }) else s

unfoldable pub receive : ℕ → Positions → Positions
receive p s = if ltb s.last_received p then (record s { last_received = p }) else s

-- With nothing unacknowledged, the confirmed position follows the server's.
unfoldable pub follow : Bool → ℕ → Positions → Positions
follow idle_ack wal_end s =
    if idle_ack && (leb s.last_delivered_end s.flushed && ltb s.flushed wal_end)
    then (record s { flushed = wal_end })
    else s

unfoldable pub keepalive : Bool → ℕ → Bool → Positions → Positions
keepalive idle_ack wal_end reply s =
    let r = follow idle_ack wal_end (receive wal_end s) in if reply then send_status r else r

-- A decoded commit with the position of its record and the first one after it.
unfoldable pub deliver : ℕ → ℕ → Positions → Positions
deliver lsn end s =
    if ltb s.last_delivered_end end
    then (record s { last_delivered_start = lsn; last_delivered_end = end })
    else s

-- XLogData: its position, and the commit that it decodes to, if it is one.
unfoldable pub xlog_data : ℕ → Option (ℕ × ℕ) → Positions → Positions
xlog_data wal_start commit s = elim commit [
  | none ↦ receive wal_start s
  | some c ↦ deliver c.0 c.1 (receive wal_start s)
]

pub data Event : Type 0 where
  acks : ℕ → Event
  keeps_alive : (idle_ack : Bool) → ℕ → (reply : Bool) → Event
  has_data : ℕ → Option (ℕ × ℕ) → Event
  reports : Event

unfoldable pub step : Event → Positions → Positions
step (acks v) s = ack v s
step (keeps_alive idle_ack p reply) s = keepalive idle_ack p reply s
step (has_data p c) s = xlog_data p c s
step reports s = send_status s

unfoldable pub run : List Event → Positions → Positions
run [] s = s
run (e ∷ es) s = run es (step e s)
