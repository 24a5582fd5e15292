-- ===== src/Connection/Serialize/Kept.antt =====
-- Writing a task does not change whose promise it is, nor whether that is settled.
use minipg.Base.{ℕ, ◌≡◌, refl, ◌∙◌, Bool, Option, none, some, [], if-split, option-split}
use minipg.Buffer.{Text}
use minipg.Connection.State.{Task, Names, same, close_statement}
use minipg.Connection.Serialize.{
  Draft, find, mem, write, look_up, close_stale, write_parse, parse_unless_in_flight,
  describe_named, write_named, describe_unnamed, record_parse, write_bind, write_extended, draft,
  serialize, parse_key, forget_parse,
}

-- What identifies the task, with its settings.
pub record Tag : Type 0 where
  pub id : ℕ
  pub settled : Bool
  pub stream : Bool
  pub copy_source : Bool
  pub retries : ℕ

abbrev pub tag : Task → Tag
tag t = record {
  id = t.id;
  settled = t.settled;
  stream = t.stream;
  copy_source = t.copy_source;
  retries = t.retries;
}

abbrev Same : Task → Draft → Type 0
Same t d = tag d.task ≡ tag t

tag-look_up : (n : Text) (d : Draft) → Same d.task (look_up n d)
unfolding look_up write
tag-look_up n d =
    option-split (Same d.task) (find n d.names.prepared) (λ e. refl)
      (λ s e. if-split (Same d.task) (same s d.task.sql) (λ k. refl) (λ k. refl))

tag-close_stale : (n : Text) (d : Draft) → Same d.task (close_stale n d)
unfolding close_stale write
tag-close_stale n d = if-split (Same d.task) (mem n d.names.stale) (λ k. refl) (λ k. refl)

tag-write_parse : (n : Text) (o : Option Text) (d : Draft) → Same d.task (write_parse n o d)
unfolding write_parse write
tag-write_parse n o d = if-split (Same d.task) d.task.writes_sql (λ k. refl) (λ k. refl)

tag-parse_unless_in_flight : (n : Text) (d : Draft) → Same d.task (parse_unless_in_flight n d)
unfolding parse_unless_in_flight write
tag-parse_unless_in_flight n d =
    option-split (Same d.task) (find n d.names.parse_inflight) (λ e. tag-write_parse n (some n) d)
      (λ s e.
        if-split (Same d.task) (same s (parse_key d.task.sql d.task.param_types)) (λ k. refl)
          (λ k.
            tag-write_parse n (some n)
              (write (close_statement n) (record d { names = forget_parse n d.names }))))

tag-describe_named : (n : Text) (d : Draft) → Same d.task (describe_named n d)
unfolding describe_named write
tag-describe_named n d = if-split (Same d.task) d.thrown (λ k. refl) (λ k. refl)

tag-write_named : (n : Text) (d : Draft) → Same d.task (write_named n d)
unfolding write_named
tag-write_named n d =
    if-split (Same d.task) d.task.reused (λ k. refl)
      (λ k.
        tag-describe_named n (parse_unless_in_flight n (close_stale n d))
        ∙ tag-parse_unless_in_flight n (close_stale n d)
        ∙ tag-close_stale n d)

tag-record_parse : (d : Draft) → Same d.task (record_parse d)
unfolding record_parse
tag-record_parse d = option-split (Same d.task) d.parsed (λ e. refl) (λ n e. refl)

tag-write_bind : (n : Text) (d : Draft) → Same d.task (write_bind n d)
unfolding write_bind write
tag-write_bind n d =
    if-split (Same d.task) d.thrown (λ k. refl)
      (λ k. if-split (Same d.task) d.task.writes_bind (λ k. tag-record_parse _) (λ k. refl))

tag-describe_unnamed : (d : Draft) → Same d.task (describe_unnamed d)
unfolding describe_unnamed write
tag-describe_unnamed d = if-split (Same d.task) d.thrown (λ k. refl) (λ k. refl)

tag-write_extended : (o : Option Text) (d : Draft) → Same d.task (write_extended o d)
unfolding write_extended
tag-write_extended none d =
    tag-write_bind [] _ ∙ tag-describe_unnamed (write_parse [] none d) ∙ tag-write_parse [] none d
tag-write_extended (some n) d =
    tag-write_bind n _ ∙ tag-write_named n (look_up n d) ∙ tag-look_up n d

pub tag-serialize : (t : Task) (ns : Names) → Same t (serialize t ns)
unfolding serialize draft write
tag-serialize t ns =
    if-split (Same t) t.copy_source (λ k. if-split (Same t) t.writes_sql (λ k. refl) (λ k. refl))
      (λ k.
        if-split (Same t) t.copy_out (λ k. if-split (Same t) t.writes_sql (λ k. refl) (λ k. refl))
          (λ k.
            if-split (Same t) t.is_array (λ k. tag-write_extended t.name (draft t ns)) (λ k. refl)))
