-- ===== src/Tests/Cursor.antt =====
-- src/cursor.ts: a sample server, and the theorems on it.
use minipg.Base.{◌+◌, ◌≤◌, ℕ, ◌≡◌, refl, true, List, [], ◌∷◌, none, some, arith, take, drop}
use minipg.Cursor.{
  Options, Command, fetch, Outcome, value, World, Cursor, new_cursor, run_setup, setup, idle_ms,
  done, all,
}
use minipg.Cursor.Lease.{Use, nexts, aborts, closes, use_all, use_all-new_cursor}
use minipg.Cursor.Sound.{holds, may_hold}
use minipg.Cursor.Drain.{all-new_cursor}

-- The server's state is the list of the rows that the cursor has not given yet.
abbrev answer : Command → List ℕ → Outcome ℕ (List ℕ) × List ℕ
answer (fetch n) s = (value (take n s), drop n s)
answer _ s = (value [], s)

abbrev server : World (List ℕ) ℕ ℕ
server = record { acquire = λ s. (none, s); query = answer }

abbrev by_two : Options
by_two = record {
  fetch_size = some 2;
  snapshot = none;
  full_scan = true;
  idle_timeout_ms = none;
  max_duration_ms = none;
}

-- Three rows in batches of two.
all-new_cursor_example :
    (d : Cursor server by_two) × ((all server by_two 5 (new_cursor server by_two (7 ∷ 8 ∷ 9 ∷ []))
        ≡ some (value (7 ∷ 8 ∷ 9 ∷ []), d))
      × ((d.phase ≡ done) × (d.err ≡ none)))
unfolding run_setup setup idle_ms
all-new_cursor_example =
    all-new_cursor server by_two (λ s. s) (λ n s. refl) (λ n s. refl) 4 (7 ∷ 8 ∷ 9 ∷ [])
      (7 ∷ 8 ∷ 9 ∷ []) (7 ∷ 8 ∷ 9 ∷ []) refl refl (omega arith)

-- The guard fires during the second fetch, and the caller closes the cursor.
abbrev guarded : List (Use server by_two)
guarded = nexts ∷ aborts true 1 ∷ nexts ∷ closes ∷ []

use_all-new_cursor_example :
    let c = use_all server by_two guarded (new_cursor server by_two (7 ∷ 8 ∷ 9 ∷ [])) in
    (c.acquired ≡ c.released + holds c.held) × (c.acquired ≤ 1) × (holds c.held ≤ may_hold c.phase)
use_all-new_cursor_example = use_all-new_cursor server by_two guarded (7 ∷ 8 ∷ 9 ∷ [])
