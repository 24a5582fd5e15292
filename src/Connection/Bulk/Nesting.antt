-- ===== src/Connection/Bulk/Nesting.antt =====
-- How deep in transactions and savepoints the statements of a transaction leave the session.
use minipg.Base.{
  ℕ, ◌≡◌, Bool, true, false, Option, none, some, List, [], ◌∷◌, ◌==◌, if◌then◌else◌, arith,
}
use minipg.Connection.Bulk.{Control, begins, commits, rolls_back, saves, releases, rolls_back_to}

-- A server's session: no transaction, or one with its savepoints, the last first.
abbrev pub Session : Type 0
Session = Option (List ℕ)

-- The savepoints that are older than one of this name, and those up to it.
unfoldable pub older : ℕ → List ℕ → List ℕ
older n [] = []
older n (m ∷ l) = if m == n then l else older n l

unfoldable pub up_to : ℕ → List ℕ → List ℕ
up_to n [] = []
up_to n (m ∷ l) = if m == n then m ∷ l else up_to n l

-- What the statements mean in SQL.
unfoldable pub obey : Control → Session → Session
obey begins none = some []
obey begins (some l) = some l
obey commits s = none
obey rolls_back s = none
obey (saves n) none = none
obey (saves n) (some l) = some (n ∷ l)
obey (releases n) none = none
obey (releases n) (some l) = some (older n l)
obey (rolls_back_to n) none = none
obey (rolls_back_to n) (some l) = some (up_to n l)

-- A statement that is not taken does nothing.
unfoldable pub effect : (Control → Bool) → List Control → Session → Session
effect accepts [] s = s
effect accepts (k ∷ ks) s = effect accepts ks (if accepts k then obey k s else s)

abbrev pub is_open : Session → Bool
is_open none = false
is_open (some l) = true

same : (n : ℕ) → (n == n) ≡ true
same n = ground arith
