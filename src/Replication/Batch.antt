-- ===== src/Replication/Batch.antt =====
-- `batchTransactions` of src/replication.ts: the flat stream of events in one batch for each
-- transaction, or several where a transaction is larger than the limit.
pub mod Whole
use minipg.Base.{
  ℕ, Bool, true, false, Option, none, some, List, [], ◌∷◌, ◌++◌, length, leb, if◌then◌else◌,
}

-- What the assembly reads of an event: a change and a message each stand for all that they carry,
-- a commit for its positions and its time.
pub data Event : Type 0 where
  begin : (xid : ℕ) → Event
  commit : ℕ → Event
  message : (transactional : Bool) → ℕ → Event
  change : ℕ → Event

pub record Batch : Type 0 where
  pub xid : ℕ
  pub events : List Event
  -- The commit that ends the transaction, on its last batch only.
  pub done : Option ℕ

-- `maxEvents`: none, or 0, is no limit.
unfoldable pub limit : Option ℕ → Option ℕ
limit none = none
limit (some n) = if leb n 0 then none else some n

unfoldable pub is_full : Option ℕ → List Event → Bool
is_full none es = false
is_full (some n) es = leb n (length es)

unfoldable pub chunk : ℕ → List Event → Batch
chunk x es = record { xid = x; events = es; done = none }

unfoldable pub last_chunk : ℕ → List Event → ℕ → Batch
last_chunk x es k = record { xid = x; events = es; done = some k }

-- The body of the loop for an event that belongs to a transaction.
unfoldable pub assemble : Option ℕ → ℕ → List Event → List Event → List Batch
assemble max x es [] = []
assemble max x es (begin y ∷ rest) = assemble max y [] rest
assemble max x es (commit k ∷ rest) = last_chunk x es k ∷ assemble max x [] rest
assemble max x es (message false m ∷ rest) = assemble max x es rest
assemble max x es (message true m ∷ rest) =
    if is_full max (es ++ (message true m ∷ []))
    then chunk x (es ++ (message true m ∷ [])) ∷ assemble max x [] rest
    else assemble max x (es ++ (message true m ∷ [])) rest
assemble max x es (change m ∷ rest) =
    if is_full max (es ++ (change m ∷ []))
    then chunk x (es ++ (change m ∷ [])) ∷ assemble max x [] rest
    else assemble max x (es ++ (change m ∷ [])) rest

unfoldable pub batch_transactions : Option ℕ → List Event → List Batch
batch_transactions max stream = assemble (limit max) 0 [] stream
