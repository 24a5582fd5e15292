-- ===== src/Connection/State.antt =====
-- The state of the class `Connection` of src/connection.ts: its tasks, its two queues, its lifecycle, and
-- the cancel request that may be under way.
use minipg.Base.{
  ℕ, Bool, true, false, ◌||◌, Option, none, some, List, [], ◌∷◌, ◌==◌, if◌then◌else◌, has, remove,
}
use minipg.Buffer.{Text}

abbrev pub TaskId : Type 0
TaskId = ℕ

-- `===` on strings.
unfoldable pub same : Text → Text → Bool
same [] [] = true
same [] (y ∷ ys) = false
same (x ∷ xs) [] = false
same (x ∷ xs) (y ∷ ys) = if x == y then same xs ys else false

-- A `PgError` with its SQLSTATE and `isLateCancel`, or an error of minipg itself. An error that ended
-- an attempt to connect carries minipg's marker `fatal` and what `isUntrustedCertificate` says of it.
pub data Error : Type 0 where
  pg : Option Text → (late : Bool) → Error
  attempt_failed : (fatal untrusted : Bool) → Error
  encode_failed decode_failed copy_discarded query_timeout query_aborted : Error
  terminated retired ended_by_call reconnect_failed already_closed : Error

abbrev pub code_of : Option Error → Option Text
code_of (some (pg c late)) = c
code_of (some _) = none
code_of none = none

abbrev pub is_code : Text → Option Text → Bool
is_code s none = false
is_code s (some c) = same c s

-- SQLSTATE 57014, 0A000 and 26000.
abbrev pub query_canceled : Text
query_canceled = b'5' ∷ b'7' ∷ b'0' ∷ b'1' ∷ b'4' ∷ []

abbrev pub cached_plan_changed : Text
cached_plan_changed = b'0' ∷ b'A' ∷ b'0' ∷ b'0' ∷ b'0' ∷ []

abbrev pub no_such_statement : Text
no_such_statement = b'2' ∷ b'6' ∷ b'0' ∷ b'0' ∷ b'0' ∷ []

abbrev wrong_password : Text
wrong_password = b'2' ∷ b'8' ∷ b'P' ∷ b'0' ∷ b'1' ∷ []

abbrev not_authorized : Text
not_authorized = b'2' ∷ b'8' ∷ b'0' ∷ b'0' ∷ b'0' ∷ []

abbrev no_such_database : Text
no_such_database = b'3' ∷ b'D' ∷ b'0' ∷ b'0' ∷ b'0' ∷ []

unfoldable pub is_fatal_auth : Error → Bool
is_fatal_auth (pg c late) =
    is_code wrong_password c || is_code not_authorized c || is_code no_such_database c
is_fatal_auth (attempt_failed fatal untrusted) = fatal || untrusted
is_fatal_auth _ = false

pub record Task : Type 0 where
  pub id : TaskId
  pub name : Option Text
  pub sql : Text
  pub param_types : List ℕ
  -- `copy_source` stands for a COPY FROM STDIN, `copy_out` for copyTo().
  pub stream : Bool
  pub copy_source : Bool
  pub copy_out : Bool
  pub wire : Bool
  pub typed : Bool
  -- Whether the params are an array, and whether the SQL text and the Bind can be written.
  pub is_array : Bool
  pub writes_sql : Bool
  pub writes_bind : Bool
  pub settled : Bool
  pub error : Option Error
  pub retries : ℕ
  pub cache_name : Option Text
  pub reused : Bool

pub data Outcome : Type 0 where
  resolved stream_ended : Outcome
  failed : Error → Outcome

-- What the connection does to its callers and to the server besides writing to its socket.
pub data Effect : Type 0 where
  settled_with : TaskId → Outcome → Effect
  cancel_requested : TaskId → Effect

-- The frontend messages that it writes, each with what tells it from another of its type.
pub data Command : Type 0 where
  close_statement : Text → Command
  parse : Text → Text → List ℕ → Command
  describe : Text → Command
  bind : Text → TaskId → Command
  execute sync terminate : Command
  simple_query : Text → Command

pub data Status : Type 0 where
  idle connecting ready reconnecting closed : Status

unfoldable pub is_ready : Status → Bool
is_ready ready = true
is_ready _ = false

unfoldable pub is_closed : Status → Bool
is_closed closed = true
is_closed _ = false

-- What the client knows of the server's named statements: `prepared` with the SQL of each, the names
-- to deallocate before they are parsed again, and the key of each Parse that is not answered yet.
pub record Names : Type 0 where
  pub prepared : List (Text × Text)
  pub stale : List Text
  pub parse_inflight : List (Text × Text)

pub record Config : Type 0 where
  pub pipeline_depth : ℕ
  pub microtask : Bool
  pub prepare : Bool
  pub reconnects : Bool
  pub max_retries : Option ℕ
  pub can_cancel : Bool
  pub is_behind_pooler : Bool
  -- How many bytes a message takes.
  pub size : Command → ℕ

-- The objects of src/connection.ts are compared by identity: a cancel request has a number.
pub record PendingCancel : Type 0 where
  pub number : ℕ
  pub head : Option TaskId
  pub is_confirmed : Bool
  pub has_failed : Bool
  pub timer : Bool

pub record LateCancel : Type 0 where
  pub pending_number : ℕ
  pub suspects : List TaskId

pub record Conn : Type 0 where
  pub config : Config
  pub open config use *
  pub status : Status
  pub socket : Bool
  pub connect_called : Bool
  pub is_connecting : Bool
  pub ever_connected : Bool
  pub ended : Bool
  -- A reconnect loop sleeps before its attempt of this number.
  pub sleeping : Bool
  pub attempt : ℕ
  pub queue : List Task
  pub inflight : List Task
  pub max_inflight : ℕ
  pub outbuf : List Command
  pub sent : List Command
  -- What the coming writes to the socket return; after them, true.
  pub answers : List Bool
  pub flushes : ℕ
  pub write_backed_up : Bool
  pub flush_scheduled : Bool
  pub names : Names
  pub in_transaction : Bool
  pub has_key : Bool
  pub pending_cancel : Option PendingCancel
  pub late_cancel : Option LateCancel
  pub is_retiring : Bool
  pub next_cancel : ℕ
  -- The tasks whose promise is not settled, and what happened outside, the newest first.
  pub pending : List TaskId
  pub log : List Effect
  pub next_task : TaskId

-- A promise settles once: `resolve` or `reject` of one that has settled does nothing.
unfoldable pub settle : TaskId → Outcome → Conn → Conn
settle x o c =
    if has c.pending x
    then (record c { pending = remove x c.pending; log = settled_with x o ∷ c.log })
    else c

unfoldable pub reject_task : TaskId → Error → Conn → Conn
reject_task x e c = settle x (failed e) c

unfoldable pub ids : List Task → List TaskId
ids [] = []
ids (t ∷ ts) = t.id ∷ ids ts

abbrev pub or_error : Option Error → Error → Error
or_error none e = e
or_error (some x) e = x

-- The loop that drains `inflight`: a task that is not settled gets its own error, or the given one.
unfoldable pub reject_inflight : Error → List Task → Conn → Conn
reject_inflight e [] c = c
reject_inflight e (t ∷ ts) c =
    reject_inflight e ts (if t.settled then c else reject_task t.id (or_error t.error e) c)

-- The loop of `settlePending` that drains `queue`.
unfoldable pub reject_unsettled : Error → List Task → Conn → Conn
reject_unsettled e [] c = c
reject_unsettled e (t ∷ ts) c =
    reject_unsettled e ts (if t.settled then c else reject_task t.id e c)

unfoldable pub reject_all : Error → List Task → Conn → Conn
reject_all e [] c = c
reject_all e (t ∷ ts) c = reject_all e ts (reject_task t.id e c)

unfoldable pub reject_queue : Error → Conn → Conn
reject_queue e c = reject_all e c.queue (record c { queue = [] })

unfoldable pub init : Config → List Bool → Conn
init cfg answers = record {
  config = cfg;
  status = idle;
  socket = false;
  connect_called = false;
  is_connecting = false;
  ever_connected = false;
  ended = false;
  sleeping = false;
  attempt = 0;
  queue = [];
  inflight = [];
  max_inflight = 0;
  outbuf = [];
  sent = [];
  answers = answers;
  flushes = 0;
  write_backed_up = false;
  flush_scheduled = false;
  names = record { prepared = []; stale = []; parse_inflight = [] };
  in_transaction = false;
  has_key = false;
  pending_cancel = none;
  late_cancel = none;
  is_retiring = false;
  next_cancel = 0;
  pending = [];
  log = [];
  next_task = 0;
}
