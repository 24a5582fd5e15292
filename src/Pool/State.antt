-- ===== src/Pool/State.antt =====
-- The state of the class `Pool` of src/pool.ts, and what it says to its callers.
use text.Mathlib.Text.{◌==◌ as str_eq}
use Prim.Native.String.{String}
unfoldable pub use minipg.Base.{has, remove}
use minipg.Base.{ℕ, Bool, false, ◌||◌, Option, none, some, List, [], ◌∷◌, ◌==◌, if◌then◌else◌}

-- A connection and a call of `acquire` each have a number of their own.
abbrev pub Conn : Type 0
Conn = ℕ

abbrev pub Client : Type 0
Client = ℕ

-- An error that ended an attempt to connect: its SQLSTATE, minipg's own marker, and what
-- `isUntrustedCertificate` and the pattern DISABLED_ENDPOINT say of it.
pub record Failure : Type 0 where
  pub code : Option String
  pub fatal : Bool
  pub untrusted : Bool
  pub disabled_endpoint : Bool

abbrev is_fatal_code : String → Bool
is_fatal_code c = str_eq c "28P01" || str_eq c "28000" || str_eq c "3D000" || str_eq c "08004"

abbrev has_fatal_code : Option String → Bool
has_fatal_code none = false
has_fatal_code (some c) = is_fatal_code c

pub data Class : Type 0 where
  fatal unavailable : Class

unfoldable pub classify : Failure → Class
classify e =
    if has_fatal_code e.code
    then fatal
    else if e.fatal
    then fatal
    else if e.untrusted
    then fatal
    else if e.disabled_endpoint
    then fatal
    else unavailable

-- Why a call of `acquire` was rejected.
pub data Reason : Type 0 where
  pool_closed tx_guard recovery_timed_out acquire_timed_out pool_ended : Reason
  because : Failure → Reason

-- What the pool does to the outside: it hands a connection to a call, rejects a call, or ends a
-- connection.
pub data Effect : Type 0 where
  granted : Client → Conn → Effect
  rejected : Client → Reason → Effect
  ended : Conn → Effect

-- For whom a connection is being opened.
pub data Purpose : Type 0 where
  for_acquire for_refill : Client → Purpose
  for_probe : Purpose

pub record Config : Type 0 where
  pub max : ℕ
  pub rc_enabled : Bool
  -- 0 lets an acquire at max wait for ever, and keeps idle connections for ever.
  pub acquire_ms : ℕ
  pub idle_ms : ℕ

pub record Pool : Type 0 where
  pub config : Config
  pub open config use *
  -- The end of the array, where connections are pushed and popped, is the head of the list.
  pub idle : List Conn
  pub all : List Conn
  pub out : List Conn
  -- The first to be served comes first.
  pub waiters : List Client
  pub closed : Bool
  pub down : Bool
  pub broken : Option Failure
  pub recovered : List Client
  pub last_down_error : Option Failure
  pub last_probe_error : Option Failure
  -- Asynchronous work that is under way: connections being opened, acquirers that recovery has
  -- woken and that have not run yet, connections whose cancelled query is draining, connections that
  -- are rolled back, and probe loops in their backoff sleep.
  pub opening : List (Conn × Purpose)
  pub woken : List Client
  pub settling : List Conn
  pub rolling : List Conn
  pub naps : ℕ
  -- Calls of `acquire` whose promise is not settled, and those of them with an armed timer.
  pub pending : List Client
  pub timers : List Client
  pub next_conn : Conn
  -- What happened outside, the newest first.
  pub log : List Effect

unfoldable pub purpose_of : Conn → List (Conn × Purpose) → Option Purpose
purpose_of c [] = none
purpose_of c ((x, q) ∷ xs) = if x == c then some q else purpose_of c xs

unfoldable pub forget : Conn → List (Conn × Purpose) → List (Conn × Purpose)
forget c [] = []
forget c ((x, q) ∷ xs) = if x == c then xs else (x, q) ∷ forget c xs

-- A promise settles once: `resolve` or `reject` of one that has settled does nothing.
unfoldable pub settle : Client → Effect → Pool → Pool
settle cl e p =
    if has p.pending cl
    then (record p { pending = remove cl p.pending; timers = remove cl p.timers; log = e ∷ p.log })
    else p

unfoldable pub resolve : Client → Conn → Pool → Pool
resolve cl c p = settle cl (granted cl c) p

unfoldable pub reject : Client → Reason → Pool → Pool
reject cl r p = settle cl (rejected cl r) p

unfoldable pub reject_all : List Client → Reason → Pool → Pool
reject_all [] r p = p
reject_all (cl ∷ cls) r p = reject_all cls r (reject cl r p)

unfoldable pub init : Config → Pool
init cfg = record {
  config = cfg;
  idle = [];
  all = [];
  out = [];
  waiters = [];
  closed = false;
  down = false;
  broken = none;
  recovered = [];
  last_down_error = none;
  last_probe_error = none;
  opening = [];
  woken = [];
  settling = [];
  rolling = [];
  naps = 0;
  pending = [];
  timers = [];
  next_conn = 0;
  log = [];
}
