-- ===== src/Tests/Bulk.antt =====
-- The bulk helpers and transactions of src/connection.ts: the theorems on sample inputs.
use minipg.Base.{
  ℕ, ◌≡◌, refl, Bool, true, false, if◌then◌else◌, none, some, List, [], ◌∷◌, ◌++◌, All, arith,
}
use minipg.Buffer.{Text}
use minipg.Connection.Bulk.{
  QueryResult, slice, Ended, completed, Control, commits, run_bulk, begin_clause, text, begin,
  begin_string, with_clause, keep, is_kept, is_between, trim_start, trim_end,
}
use minipg.Connection.Bulk.Whole.{rows_of, answers, completes, rows-run_bulk}
use minipg.Connection.Bulk.Clause.{IsWord, begin_clause-IsWord}

abbrev five : List ℕ
five = 1 ∷ 2 ∷ 3 ∷ 4 ∷ 5 ∷ []

abbrev echo : ℕ → ℕ → QueryResult ℕ
echo a b = record { rows = slice a b five; columns = []; row_count = none; command = none }

abbrev all_but_commit : Control → Bool
all_but_commit commits = false
all_but_commit _ = true

-- Three chunks in a transaction of their own, whose COMMIT fails.
rows-run_bulk_example :
    rows_of (run_bulk (answers five echo) all_but_commit true false 2 5 0).0
    ≡ (if completes five echo all_but_commit true false 2 then some five else none)
rows-run_bulk_example =
    rows-run_bulk five echo all_but_commit true false 2 0 (omega arith) (λ a b. refl)

committed : completes five echo (λ k. true) true false 2 ≡ true
committed = refl

uncommitted : completes five echo all_but_commit true false 2 ≡ false
uncommitted = refl

-- A statement behind a semicolon.
abbrev injected : Text
injected = b' ' ∷ b'r' ∷ b'e' ∷ b'a' ∷ b'd' ∷ b';' ∷ b'd' ∷ b'r' ∷ b'o' ∷ b'p' ∷ b' ' ∷ []

begin_clause-IsWord_example : All IsWord (begin_clause (text injected))
begin_clause-IsWord_example = begin_clause-IsWord injected

injected_clause :
    begin_clause (text injected)
    ≡ begin ++ (b' ' ∷ b'r' ∷ b'e' ∷ b'a' ∷ b'd' ∷ b'd' ∷ b'r' ∷ b'o' ∷ b'p' ∷ [])
unfolding begin_clause begin_string with_clause keep is_kept is_between trim_start trim_end
injected_clause = refl

abbrev rows_of_five : Ended ℕ
rows_of_five = completed (echo 0 5)
