-- ===== src/Tests/Replication.antt =====
-- src/replication.ts: sample runs, and the theorems on them.
use minipg.Base.{
  ◌≤◌, ◌≡◌, refl, true, false, if◌then◌else◌, none, some, List, [], ◌∷◌, length, All, arith,
}
use minipg.Replication.Batch.{
  message, change, batch_transactions, limit, assemble, is_full, chunk, last_chunk,
}
use minipg.Replication.Batch.Whole.{
  Transaction, stream_of, delivered_all, collect, Within, collect-batch_transactions,
  batch_transactions-Within,
}
use minipg.Replication.Flow.{
  Queue, bytes, on_data, pause_if_over, is_over, start_stream, ceiling, empty, Reach, here, after,
  arrives, starts,
}
use minipg.Replication.Flow.Paused.{paused-Reach}
use minipg.Replication.Position
use minipg.Replication.Position.{Positions, keeps_alive, has_data, acks, reports, ack}
use minipg.Replication.Position.Confirmed.{run_monotone, flushed-run}

-- Two transactions, the first with a message that is not transactional.
abbrev two : List Transaction
two =
    (record {
      xid = 7;
      body = change 1 ∷ message false 2 ∷ change 3 ∷ message true 4 ∷ [];
      end = 10;
    })
    ∷ (record { xid = 8; body = []; end = 11 })
    ∷ []

collect-batch_transactions_example :
    collect [] (batch_transactions (some 2) (stream_of two)) ≡ delivered_all two
collect-batch_transactions_example =
    collect-batch_transactions (some 2) two ((tt, (tt, (tt, (tt, tt)))), (tt, tt))

batch_transactions-Within_example : All (Within 2) (batch_transactions (some 2) (stream_of two))
batch_transactions-Within_example = batch_transactions-Within 2 (stream_of two) (omega arith)

-- A large transaction is handed on in pieces.
in_pieces :
    batch_transactions (some 2) (stream_of two)
    ≡ (record { xid = 7; events = change 1 ∷ change 3 ∷ []; done = none })
      ∷ (record { xid = 7; events = message true 4 ∷ []; done = some 10 })
      ∷ (record { xid = 8; events = []; done = some 11 })
      ∷ []
unfolding batch_transactions limit assemble is_full chunk last_chunk
in_pieces = refl

-- Two messages over a limit of 20 bytes.
abbrev flooded : Queue
flooded = on_data (10 ∷ 10 ∷ []) (start_stream (some 20) empty)

flooded-Reach : Reach flooded
flooded-Reach = after (after here (starts (some 20) empty)) (arrives (10 ∷ 10 ∷ []) _)

paused-Reach_example :
    (flooded.q_bytes ≡ bytes flooded.q) × ((if flooded.q_paused then 1 else 0) ≤ length flooded.q)
paused-Reach_example = paused-Reach flooded-Reach

is_paused : flooded.q_paused ≡ true
unfolding on_data pause_if_over is_over start_stream ceiling bytes
is_paused = refl

abbrev unconfirmed : Positions
unconfirmed = record {
  last_received = 90;
  flushed = 50;
  last_delivered_start = 80;
  last_delivered_end = 90;
  statuses = [];
}

abbrev quiet : List Position.Event
quiet = keeps_alive true 200 true ∷ has_data 120 (some (110, 120)) ∷ reports ∷ []

flushed-run_example : (Position.run quiet unconfirmed).flushed ≡ 50
flushed-run_example = flushed-run quiet unconfirmed (tt, (tt, (tt, tt))) (omega arith)

run_monotone_example :
    (50 ≤ (Position.run (acks 85 ∷ quiet) unconfirmed).flushed)
    × ((90 ≤ (Position.run (acks 85 ∷ quiet) unconfirmed).last_received)
        × (90 ≤ (Position.run (acks 85 ∷ quiet) unconfirmed).last_delivered_end))
run_monotone_example = run_monotone (acks 85 ∷ quiet) unconfirmed
