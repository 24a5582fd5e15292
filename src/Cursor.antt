-- ===== src/Cursor.antt =====
-- src/cursor.ts: the class `Cursor`, used by one caller at a time.
pub mod Sound
pub mod Lease
pub mod Drain
use minipg.Base.{
  ℕ, zero, suc, ◌+◌, ◌≡◌, Bool, true, false, not, ◌&&◌, Option, none, some, List, [], ◌∷◌, ◌++◌,
  length, ltb, ◌==◌, if◌then◌else◌,
}
use minipg.Buffer.{Text}

pub record Options : Type 0 where
  pub fetch_size : Option ℕ
  pub snapshot : Option Text
  pub full_scan : Bool
  pub idle_timeout_ms : Option ℕ
  pub max_duration_ms : Option ℕ

-- What the cursor sends on its connection; `end_conn` is `conn.end()`.
pub data Command : Type 0 where
  begin_plain begin_snapshot set_fraction declare close_cursor commit rollback end_conn : Command
  set_idle_timeout fetch : ℕ → Command
  set_snapshot : Text → Command

-- `Math.max(1, fetchSize ?? 5_000)`
unfoldable pub batch_size : Option ℕ → ℕ
batch_size none = 5000
batch_size (some zero) = 1
batch_size (some (suc n)) = suc n

unfoldable pub idle_ms : Option ℕ → ℕ
idle_ms none = 300000
idle_ms (some n) = n

-- `replace(/'/g, "''")`
unfoldable pub double_quotes : Text → Text
double_quotes [] = []
double_quotes (c ∷ s) = let more = double_quotes s in if c == b'\'' then c ∷ c ∷ more else c ∷ more

-- An option that is missing or empty is false.
abbrev snapshot_commands : Option Text → List Command
snapshot_commands none = []
snapshot_commands (some []) = []
snapshot_commands (some (c ∷ s)) = set_snapshot (double_quotes (c ∷ s)) ∷ []

abbrev begin_command : Option Text → Command
begin_command none = begin_plain
begin_command (some []) = begin_plain
begin_command (some (c ∷ s)) = begin_snapshot

abbrev idle_commands : ℕ → List Command
idle_commands zero = []
idle_commands (suc n) = set_idle_timeout (suc n) ∷ []

unfoldable pub setup : Options → List Command
setup o =
    begin_command o.snapshot
    ∷ (idle_commands (idle_ms o.idle_timeout_ms)
        ++ ((if o.full_scan then set_fraction ∷ [] else [])
            ++ (snapshot_commands o.snapshot ++ declare ∷ [])))

abbrev pub is_positive : ℕ → Bool
is_positive zero = false
is_positive (suc n) = true

abbrev pub has_ceiling : Option ℕ → Bool
has_ceiling none = false
has_ceiling (some n) = is_positive n

pub data Phase : Type 0 where
  idle opened done : Phase

-- A promise: it gives a value or rejects.
pub data Outcome (E : Type 0) (A : Type 0) : Type 0 where
  value : A → Outcome E A
  threw : E → Outcome E A

-- The pool's `acquire` and the connection's `query`, on a state of the world.
pub record World (S E R : Type 0) : Type 0 where
  pub acquire : S → Option E × S
  pub query : Command → S → Outcome E (List R) × S

module _ {S E R : Type 0} (world : World S E R) (opts : Options) where
  pub record Cursor : Type 0 where
    pub phase : Phase
    pub err : Option E
    -- The lease is there, and how many were taken and given back.
    pub held : Bool
    pub acquired : ℕ
    pub released : ℕ
    -- How the promise of `open` ended.
    pub opening : Option (Outcome E Unit)
    pub idle_timer : Bool
    pub deadline : Bool
    pub server : S

  unfoldable pub new_cursor : S → Cursor
  new_cursor s = record {
    phase = idle;
    err = none;
    held = false;
    acquired = 0;
    released = 0;
    opening = none;
    idle_timer = false;
    deadline = false;
    server = s;
  }

  unfoldable pub give_back : Cursor → Cursor
  give_back c = if c.held then (record c { held = false; released = suc c.released }) else c

  unfoldable pub clear_timers : Cursor → Cursor
  clear_timers c = record c { idle_timer = false; deadline = false }

  abbrev pub send : Command → Cursor → Cursor
  send k c = record c { server = (world.query k c.server).1 }

  -- `fetching` tells whether a fetch is under way, which cannot be interrupted.
  unfoldable pub cleanup : Bool → E → Cursor → Cursor
  cleanup fetching e c =
      let d = clear_timers (record c { err = some e; phase = done }) in
      let sent = send (if fetching then end_conn else rollback) d in
      if c.held then give_back sent else d

  -- A timer fires.
  unfoldable pub abort : Bool → E → Cursor → Cursor
  abort fetching why c = elim c.phase [
    | done ↦ c
    | idle ↦ elim c.err [ none ↦ cleanup fetching why c | some e ↦ c ]
    | opened ↦ elim c.err [ none ↦ cleanup fetching why c | some e ↦ c ]
  ]

  -- The queries one after the other, up to the first that fails.
  unfoldable pub run_setup : List Command → S → Option E × S
  run_setup [] s = (none, s)
  run_setup (k ∷ ks) s = elim (world.query k s).0 [
    | value rows ↦ run_setup ks (world.query k s).1
    | threw e ↦ (some e, (world.query k s).1)
  ]

  abbrev pub opened_or_failed : Option E → Cursor → Outcome E Unit × Cursor
  opened_or_failed none c = (
    value tt,
    record c { opening = some (value tt); deadline = has_ceiling opts.max_duration_ms },
  )
  opened_or_failed (some e) c = (threw e, cleanup false e (record c { opening = some (threw e) }))

  abbrev pub leased : Option E → Cursor → Outcome E Unit × Cursor
  leased (some e) c = (threw e, record c { opening = some (threw e) })
  leased none c =
      let r = run_setup (setup opts) c.server in
      opened_or_failed (r.0) (record c { held = true; acquired = suc c.acquired; server = r.1 })

  abbrev pub awaited : Option (Outcome E Unit) → Outcome E Unit
  awaited none = value tt
  awaited (some o) = o

  unfoldable pub open_cursor : Cursor → Outcome E Unit × Cursor
  open_cursor c = elim c.err [
    | some e ↦ (threw e, c)
    | none ↦ elim c.phase [
      | idle ↦
          let r = world.acquire c.server in leased (r.0) (record c { phase = opened; server = r.1 })
      | opened ↦ (awaited c.opening, c)
      | done ↦ (awaited c.opening, c)
    ]
  ]

  abbrev pub committed : Outcome E (List R) → Cursor → Cursor
  committed (value rows) c = c
  committed (threw e) c = send rollback c

  abbrev pub cursor_closed : Outcome E (List R) → Cursor → Cursor
  cursor_closed (value rows) c = committed (world.query commit c.server).0 (send commit c)
  cursor_closed (threw e) c = send rollback c

  -- CLOSE and COMMIT, or ROLLBACK where one of them fails.
  unfoldable pub finish : Cursor → Cursor
  finish c = cursor_closed (world.query close_cursor c.server).0 (send close_cursor c)

  abbrev pub if_open : Phase → Option E → Cursor → Cursor
  if_open opened none c = if c.held then finish c else c
  if_open opened (some e) c = c
  if_open idle e c = c
  if_open done e c = c

  unfoldable pub close : Cursor → Cursor
  close c =
      let d = give_back (if_open c.phase c.err (clear_timers (record c { phase = done }))) in
      elim c.phase [ done ↦ c | idle ↦ d | opened ↦ d ]

  abbrev pub or_null : List R → Option (List R)
  or_null [] = none
  or_null (r ∷ rs) = some (r ∷ rs)

  -- `this.err ?? e`
  abbrev pub earlier : Option E → E → E
  earlier none e = e
  earlier (some first) e = first

  -- What `next` makes of the fetch's answer.
  unfoldable pub fetched : Outcome E (List R) → Cursor → Outcome E (Option (List R)) × Cursor
  fetched (threw e) c = (threw (earlier c.err e), cleanup true (earlier c.err e) c)
  fetched (value rows) c =
      if ltb (length rows) (batch_size opts.fetch_size)
      then (value (or_null rows), close c)
      else (value (some rows), record c { idle_timer = is_positive (idle_ms opts.idle_timeout_ms) })

  abbrev pub fetch_batch : Cursor → Outcome E (Option (List R)) × Cursor
  fetch_batch c =
      let r = world.query (fetch (batch_size opts.fetch_size)) c.server in
      fetched (r.0) (record c { idle_timer = false; server = r.1 })

  abbrev pub after_open : Outcome E Unit × Cursor → Outcome E (Option (List R)) × Cursor
  after_open (threw e, c) = (threw e, c)
  after_open (value u, c) = elim c.err [ some e ↦ (threw e, c) | none ↦ fetch_batch c ]

  unfoldable pub next : Cursor → Outcome E (Option (List R)) × Cursor
  next c = elim c.err [
    | some e ↦ (threw e, c)
    | none ↦ elim c.phase [
      | done ↦ (value none, c)
      | idle ↦ after_open (open_cursor c)
      | opened ↦ after_open (awaited c.opening, c)
    ]
  ]

  abbrev pub join :
      List R → Option (Outcome E (List R) × Cursor) → Option (Outcome E (List R) × Cursor)
  join b none = none
  join b (some (threw e, c)) = some (threw e, c)
  join b (some (value rows, c)) = some (value (b ++ rows), c)

  -- `all`, on fuel; `none` is out of fuel.
  unfoldable pub all : ℕ → Cursor → Option (Outcome E (List R) × Cursor)
  all zero c = none
  all (suc fuel) c = elim (next c).0 [
    | threw e ↦ some (threw e, (next c).1)
    | value o ↦ elim o [
      | none ↦ some (value [], (next c).1)
      | some b ↦ join b (all fuel (next c).1)
    ]
  ]
