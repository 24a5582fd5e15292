-- ===== src/Connection/Serialize.antt =====
-- How `startTask` of src/connection.ts writes a task into the batch, and what it does to the record of
-- the server's named statements on the way.
pub mod Kept
use minipg.Base.{
  ℕ, Bool, true, false, Option, none, some, List, [], ◌∷◌, ◌++◌, if◌then◌else◌, decimal,
}
use minipg.Buffer.{Text}
use minipg.Connection.State.{
  Task, Names, Command, close_statement, parse, describe, bind, execute, sync, simple_query, same,
}

-- The methods of a JavaScript Map and Set with string keys.
unfoldable pub find : Text → List (Text × Text) → Option Text
find n [] = none
find n ((k, v) ∷ m) = if same n k then some v else find n m

unfoldable pub delete : Text → List (Text × Text) → List (Text × Text)
delete n [] = []
delete n ((k, v) ∷ m) = if same n k then delete n m else (k, v) ∷ delete n m

unfoldable pub insert : Text → Text → List (Text × Text) → List (Text × Text)
insert n v m = (n, v) ∷ delete n m

unfoldable pub mem : Text → List Text → Bool
mem n [] = false
mem n (k ∷ ks) = if same n k then true else mem n ks

unfoldable pub discard : Text → List Text → List Text
discard n [] = []
discard n (k ∷ ks) = if same n k then discard n ks else k ∷ discard n ks

unfoldable pub add : Text → List Text → List Text
add n ks = if mem n ks then ks else n ∷ ks

unfoldable pub join : List ℕ → Text
join [] = []
join (n ∷ []) = decimal n
join (n ∷ m ∷ ns) = decimal n ++ (b',' ∷ join (m ∷ ns))

unfoldable pub parse_key : Text → List ℕ → Text
parse_key sql [] = sql
parse_key sql (o ∷ os) = sql ++ (0 ∷ join (o ∷ os))

-- What the function has done so far: this task's messages, and `parsedName`.
pub record Draft : Type 0 where
  pub names : Names
  pub commands : List Command
  pub task : Task
  pub parsed : Option Text
  pub thrown : Bool

unfoldable pub write : Command → Draft → Draft
write k d = record d { commands = d.commands ++ (k ∷ []) }

unfoldable pub forget_prepared : Text → Names → Names
forget_prepared n ns = record ns { prepared = delete n ns.prepared }

unfoldable pub forget_stale : Text → Names → Names
forget_stale n ns = record ns { stale = discard n ns.stale }

unfoldable pub forget_parse : Text → Names → Names
forget_parse n ns = record ns { parse_inflight = delete n ns.parse_inflight }

-- The same name with other SQL is deallocated.
unfoldable pub look_up : Text → Draft → Draft
look_up n d = elim (find n d.names.prepared) [
  | none ↦ d
  | some s ↦
      if same s d.task.sql
      then (record d { task = record d.task { reused = true } })
      else write (close_statement n) (record d { names = forget_prepared n d.names })
]

unfoldable pub close_stale : Text → Draft → Draft
close_stale n d =
    if mem n d.names.stale
    then write (close_statement n) (record d { names = forget_stale n d.names })
    else d

-- writeParse throws before it has a name to record.
unfoldable pub write_parse : Text → Option Text → Draft → Draft
write_parse n named d =
    if d.task.writes_sql
    then (record (write (parse n d.task.sql d.task.param_types) d) { parsed = named })
    else record d { thrown = true }

unfoldable pub parse_unless_in_flight : Text → Draft → Draft
parse_unless_in_flight n d = elim (find n d.names.parse_inflight) [
  | none ↦ write_parse n (some n) d
  | some k ↦
      if same k (parse_key d.task.sql d.task.param_types)
      then d
      else write_parse n (some n)
          (write (close_statement n) (record d { names = forget_parse n d.names }))
]

unfoldable pub describe_named : Text → Draft → Draft
describe_named n d =
    if d.thrown
    then d
    else write (describe n) (record d { task = record d.task { cache_name = some n } })

unfoldable pub write_named : Text → Draft → Draft
write_named n d =
    if d.task.reused then d else describe_named n (parse_unless_in_flight n (close_stale n d))

unfoldable pub describe_unnamed : Draft → Draft
describe_unnamed d = if d.thrown then d else write (describe []) d

unfoldable pub record_parse : Draft → Draft
record_parse d = elim d.parsed [
  | none ↦ d
  | some n ↦ record d {
    names = record d.names {
      parse_inflight = insert n (parse_key d.task.sql d.task.param_types) d.names.parse_inflight;
    };
  }
]

unfoldable pub write_bind : Text → Draft → Draft
write_bind n d =
    if d.thrown
    then d
    else if d.task.writes_bind
    then record_parse (write sync (write execute (write (bind n d.task.id) d)))
    else record d { thrown = true }

unfoldable pub write_extended : Option Text → Draft → Draft
write_extended none d = write_bind [] (describe_unnamed (write_parse [] none d))
write_extended (some n) d = write_bind n (write_named n (look_up n d))

-- The task carries `reused = false` and no `cache_name` until this runs.
unfoldable pub draft : Task → Names → Draft
draft t ns = record {
  names = ns;
  commands = [];
  task = record t { reused = false };
  parsed = none;
  thrown = false;
}

unfoldable pub serialize : Task → Names → Draft
serialize t ns =
    if t.copy_source
    then (if t.writes_sql
        then write (simple_query t.sql) (draft t ns)
        else record (draft t ns) { thrown = true })
    else if t.copy_out
    then (if t.writes_sql
        then write (simple_query t.sql) (draft t ns)
        else record (draft t ns) { thrown = true })
    else if t.is_array
    then write_extended t.name (draft t ns)
    else record (draft t ns) { thrown = true }
