-- ===== src/Connection/Bulk.antt =====
-- The bulk helpers of src/connection.ts: `bulkInsert` and `bulkUpdate` send the rows in chunks; and the
-- statement that begins a transaction.
pub mod Whole
pub mod Clause
pub mod Nesting
use minipg.Base.{
  ℕ, zero, suc, ◌+◌, ◌-◌, ◌*◌, ◌/◌, Bool, true, false, not, ◌&&◌, ◌||◌, Option, none, some, List,
  [], ◌∷◌, ◌++◌, length, take, drop, get_elem?, map, min, ltb, leb, ◌==◌, if◌then◌else◌,
}
use minipg.Buffer.{Text}

-- What `defaultChunk` reads of a cell: a string's or a byte array's length.
pub data Cell : Type 0 where
  sized : ℕ → Cell
  other : Cell

unfoldable pub cell_bytes : Cell → ℕ
cell_bytes (sized n) = n + 4
cell_bytes other = 12

unfoldable pub row_bytes : List Cell → ℕ
row_bytes [] = 24
row_bytes (c ∷ cs) = cell_bytes c + row_bytes cs

abbrev max : ℕ → ℕ → ℕ
max a b = if ltb a b then b else a

-- One sampled row decides.
unfoldable pub default_chunk : List (List Cell) → ℕ
default_chunk [] = 64
default_chunk (row ∷ rows) = max 16 (min 64 (32768 / row_bytes row))

unfoldable pub chunk_size : Option ℕ → List (List Cell) → ℕ
chunk_size none rows = max 1 (default_chunk rows)
chunk_size (some n) rows = max 1 n

unfoldable pub slice {ℓ} : {A : Type ℓ} → ℕ → ℕ → List A → List A
slice start end rows = take (end - start) (drop start rows)

-- One column of some rows: a row that is too short has undefined there.
unfoldable pub column {ℓ} : {A : Type ℓ} → ℕ → List (List A) → List (Option A)
column c [] = []
column c (row ∷ rows) = get_elem? row c ∷ column c rows

unfoldable pub columns_from {ℓ} : {A : Type ℓ} → ℕ → ℕ → List (List A) → List (List (Option A))
columns_from zero c rows = []
columns_from (suc n) c rows = column c rows ∷ columns_from n (suc c) rows

-- The rows of a range as one array for each of so many columns. A row is an array of cells; one that
-- is a record is looked up by the names.
unfoldable pub pivot_rows {ℓ} : {A : Type ℓ} → ℕ → List (List A) → ℕ → ℕ → List (List (Option A))
pivot_rows names rows start end = columns_from names 0 (slice start end rows)

pub record QueryResult {ℓ} (A : Type ℓ) : Type ℓ where
  pub rows : List A
  pub columns : List Text
  pub row_count : Option ℕ
  pub command : Option Text

abbrev or_zero : Option ℕ → ℕ
or_zero none = 0
or_zero (some n) = n

unfoldable pub all_rows {ℓ} : {A : Type ℓ} → List (QueryResult A) → List A
all_rows [] = []
all_rows (r ∷ rs) = r.rows ++ all_rows rs

unfoldable pub all_counts {ℓ} : {A : Type ℓ} → List (QueryResult A) → ℕ
all_counts [] = 0
all_counts (r ∷ rs) = or_zero r.row_count + all_counts rs

unfoldable pub first_columns {ℓ} : {A : Type ℓ} → List (QueryResult A) → List Text
first_columns [] = []
first_columns (r ∷ rs) = r.columns

unfoldable pub first_command {ℓ} : {A : Type ℓ} → List (QueryResult A) → Option Text
first_command [] = none
first_command (r ∷ rs) = r.command

unfoldable pub merge_results {ℓ} : {A : Type ℓ} → List (QueryResult A) → QueryResult A
merge_results rs = record {
  rows = all_rows rs;
  columns = first_columns rs;
  row_count = some (all_counts rs);
  command = first_command rs;
}

-- The ranges of the loop `for (i = 0; i < n; i += chunk)`. A chunk is one row at least, so the number
-- of rows is fuel enough.
unfoldable pub ranges : ℕ → ℕ → ℕ → ℕ → List (ℕ × ℕ)
ranges zero chunk n i = []
ranges (suc fuel) chunk n i = elim (ltb i n) [
  | true ↦ (i, min (i + chunk) n) ∷ ranges fuel chunk n (i + chunk)
  | false ↦ []
]

-- How a bulk call ends. A failure of the mode that commits each chunk carries what was committed.
pub data Ended {ℓ} (A : Type ℓ) : Type ℓ where
  completed : QueryResult A → Ended A
  failed : (committed : Option ℕ) → Ended A
  in_open_transaction : Ended A

-- What the query for a range answers, none where it rejects.
module _ {ℓ} {A : Type ℓ} (run : ℕ → ℕ → Option (QueryResult A)) where
  -- Chunks that commit on their own, one after the other.
  unfoldable pub run_each : List (ℕ × ℕ) → ℕ → List (QueryResult A) → Ended A
  run_each [] done rs = completed (merge_results rs)
  run_each ((start, end) ∷ later) done rs = elim (run start end) [
    | none ↦ failed (some done)
    | some r ↦ run_each later (done + or_zero r.row_count) (rs ++ (r ∷ []))
  ]

  -- Chunks pipelined in one transaction: `Promise.all`.
  unfoldable pub run_all : List (ℕ × ℕ) → List (QueryResult A) → Ended A
  run_all [] rs = completed (merge_results rs)
  run_all ((start, end) ∷ later) rs = elim (run start end) [
    | none ↦ failed none
    | some r ↦ run_all later (rs ++ (r ∷ []))
  ]

  unfoldable pub run_one : ℕ → Ended A
  run_one n = elim (run 0 n) [ none ↦ failed none | some r ↦ completed r ]

-- What a transaction sends beside its own queries: savepoints have a number.
pub data Control : Type 0 where
  begins commits rolls_back : Control
  saves releases rolls_back_to : ℕ → Control

-- An error inside a savepoint: the second statement is sent where the server takes the first.
unfoldable pub undo_savepoint : (Control → Bool) → ℕ → List Control
undo_savepoint accepts sp =
    if accepts (rolls_back_to sp)
    then rolls_back_to sp ∷ releases sp ∷ []
    else rolls_back_to sp ∷ []

-- Whether the server takes a control statement, or its query rejects.
module _ {ℓ} {A : Type ℓ} (accepts : Control → Bool) where
  unfoldable pub in_savepoint : ℕ → Ended A → Ended A × List Control
  in_savepoint sp (completed r) =
      if accepts (releases sp)
      then (completed r, saves sp ∷ releases sp ∷ [])
      else (failed none, saves sp ∷ releases sp ∷ undo_savepoint accepts sp)
  in_savepoint sp e = (e, saves sp ∷ undo_savepoint accepts sp)

  unfoldable pub in_begin : Ended A → Ended A × List Control
  in_begin (completed r) =
      if accepts commits
      then (completed r, begins ∷ commits ∷ [])
      else (failed none, begins ∷ commits ∷ rolls_back ∷ [])
  in_begin e = (e, begins ∷ rolls_back ∷ [])

  -- `runTx` of a callback that ends so; the number is that of the next savepoint.
  unfoldable pub run_tx : (in_transaction : Bool) → ℕ → Ended A → Ended A × List Control
  run_tx in_transaction sp body =
      if in_transaction
      then (if accepts (saves sp) then in_savepoint sp body else (failed none, saves sp ∷ []))
      else (if accepts begins then in_begin body else (failed none, begins ∷ []))

-- `runBulk` for n rows, and the control statements that it sends.
module _ {ℓ} {A : Type ℓ} (run : ℕ → ℕ → Option (QueryResult A)) (accepts : Control → Bool) where
  unfoldable pub run_bulk :
      (atomic in_transaction : Bool) → (chunk n sp : ℕ) → Ended A × List Control
  run_bulk atomic in_transaction chunk n sp =
      if leb n chunk
      then (run_one run n, [])
      else if atomic
      then (if in_transaction
          then (run_all run (ranges n chunk n 0) [], [])
          else run_tx accepts in_transaction sp (run_all run (ranges n chunk n 0) []))
      else if in_transaction
      then (in_open_transaction, [])
      else (run_each run (ranges n chunk n 0) 0 [], [])

-- The statement that begins a transaction.
pub record TxOptions : Type 0 where
  pub isolation : Option Text
  pub read_only : Option Bool
  pub deferrable : Option Bool

unfoldable pub is_between : ℕ → ℕ → ℕ → Bool
is_between a b c = leb a c && leb c b

-- What the string form keeps: letters and spaces.
unfoldable pub is_kept : ℕ → Bool
is_kept c = is_between b'a' b'z' c || (is_between b'A' b'Z' c || (c == b' '))

unfoldable pub keep : Text → Text
keep [] = []
keep (c ∷ s) = if is_kept c then c ∷ keep s else keep s

unfoldable pub trim_start : Text → Text
trim_start [] = []
trim_start (c ∷ s) = if c == b' ' then trim_start s else c ∷ s

-- Spaces at the end, of which only the last run goes.
unfoldable pub trim_end : Text → Text
trim_end [] = []
trim_end (c ∷ s) =
    let rest = trim_end s in
    elim rest [ [] ↦ (if c == b' ' then [] else c ∷ []) | d ∷ t ↦ c ∷ d ∷ t ]

abbrev pub begin : Text
begin = b'b' ∷ b'e' ∷ b'g' ∷ b'i' ∷ b'n' ∷ []

unfoldable pub with_clause : Text → Text
with_clause [] = begin
with_clause (c ∷ s) = begin ++ (b' ' ∷ c ∷ s)

unfoldable pub begin_string : Text → Text
begin_string s = with_clause (trim_end (trim_start (keep s)))

abbrev isolation_level : Text
isolation_level =
    b'i' ∷ b's' ∷ b'o' ∷ b'l' ∷ b'a' ∷ b't' ∷ b'i' ∷ b'o' ∷ b'n' ∷ b' ' ∷ b'l' ∷ b'e' ∷ b'v' ∷ b'e'
    ∷ b'l' ∷ b' ' ∷ []

abbrev read_only_words : Bool → Text
read_only_words true = b'r' ∷ b'e' ∷ b'a' ∷ b'd' ∷ b' ' ∷ b'o' ∷ b'n' ∷ b'l' ∷ b'y' ∷ []
read_only_words false = b'r' ∷ b'e' ∷ b'a' ∷ b'd' ∷ b' ' ∷ b'w' ∷ b'r' ∷ b'i' ∷ b't' ∷ b'e' ∷ []

abbrev deferrable_words : Bool → Text
deferrable_words true = b'd' ∷ b'e' ∷ b'f' ∷ b'e' ∷ b'r' ∷ b'r' ∷ b'a' ∷ b'b' ∷ b'l' ∷ b'e' ∷ []
deferrable_words false =
    b'n' ∷ b'o' ∷ b't' ∷ b' ' ∷ b'd' ∷ b'e' ∷ b'f' ∷ b'e' ∷ b'r' ∷ b'r' ∷ b'a' ∷ b'b' ∷ b'l' ∷ b'e'
    ∷ []

abbrev no_parts : List Text
no_parts = []

-- An empty isolation level counts as none.
abbrev isolation_part : Option Text → List Text
isolation_part none = no_parts
isolation_part (some []) = no_parts
isolation_part (some (c ∷ s)) = (isolation_level ++ (c ∷ s)) ∷ no_parts

abbrev flag_part : (Bool → Text) → Option Bool → List Text
flag_part words none = no_parts
flag_part words (some b) = words b ∷ no_parts

unfoldable pub parts : TxOptions → List Text
parts o =
    isolation_part o.isolation
    ++ (flag_part read_only_words o.read_only ++ flag_part deferrable_words o.deferrable)

unfoldable pub join_words : List Text → Text
join_words [] = []
join_words (w ∷ []) = w
join_words (w ∷ v ∷ ws) = w ++ (b' ' ∷ join_words (v ∷ ws))

pub data TxArgument : Type 0 where
  absent : TxArgument
  text : Text → TxArgument
  options : TxOptions → TxArgument

unfoldable pub begin_clause : TxArgument → Text
begin_clause absent = begin
begin_clause (text s) = begin_string s
begin_clause (options o) = with_clause (join_words (parts o))
