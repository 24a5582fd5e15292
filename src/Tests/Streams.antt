-- ===== src/Tests/Streams.antt =====
-- The iterators of src/connection.ts: sample runs, and the theorems on them.
use minipg.Base.{ℕ, ◌≡◌, refl, true, List, [], ◌∷◌, ◌++◌}
use minipg.Buffer.{Bytes}
use minipg.Connection.Stream.{
  opened, answer, pause_if_full, resume_if_low, next_empty, on_row, next, Event, receives, asks,
  ends, step, run, joined, copy_run,
}
use minipg.Connection.Stream.Delivery.{items, received, items-run}
use minipg.Connection.Stream.Copied.{joined-copy_run}

-- A call waits for the first row; the others are buffered.
abbrev rows : List (Event ℕ)
rows = asks ∷ receives 1 ∷ receives 2 ∷ receives 3 ∷ receives 4 ∷ asks ∷ ends ∷ []

items-run_example :
    items (run rows (opened 2)).answers ++ (run rows (opened 2)).buf ≡ 1 ∷ 2 ∷ 3 ∷ 4 ∷ []
items-run_example = items-run 2 rows

abbrev chunks : List (Event Bytes)
chunks = receives (1 ∷ []) ∷ receives (2 ∷ 3 ∷ []) ∷ asks ∷ asks ∷ receives (4 ∷ []) ∷ []

joined-copy_run_example :
    joined (items (copy_run chunks (opened 2)).answers) ++ joined (copy_run chunks (opened 2)).buf
    ≡ joined (received chunks)
joined-copy_run_example = joined-copy_run 2 chunks

-- With a high-water mark of 0 a socket that was paused is not resumed when the buffer is empty.
abbrev one_row : List (Event ℕ)
one_row = receives 1 ∷ asks ∷ asks ∷ []

stuck : (run one_row (opened 0)).paused ≡ true
unfolding run step next next_empty on_row answer pause_if_full resume_if_low opened
stuck = refl
