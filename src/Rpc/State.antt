-- ===== src/Rpc/State.antt =====
-- internal/rpc/hub.go: the state of `Hub`.
-- A `*ClientSession` is an index into `heap`, where sessions are allocated and never freed, so that
-- a goroutine that holds a session keeps it after `Unregister`. A channel of results is an index into
-- `channels`: its buffer has room for one result.
use r0rpc.Prelude.{
  ℕ, suc, ℤ, pos, String, Option, none, some, get_or, List, [], string_eq, ltb, get_elem?,
  if◌then◌else◌,
}
use r0rpc.Prelude.Map
use r0rpc.Prelude.Map.{Map, lookup, insert, delete}
use r0rpc.Rpc.Job.{JobResult}
use r0rpc.Rpc.Queue.{JobQueue}

pub record ClientSession : Type 0 where
  pub client_id : String
  pub group : String
  pub user_id : ℤ
  pub platform : String
  pub last_seen_at : ℕ
  pub pending : JobQueue
  pub max_in_flight : ℕ
  pub in_flight : ℕ
  pub dispatch_ready : ℕ

pub record WaiterEntry : Type 0 where
  pub client_id : String
  pub result_ch : ℕ

-- The texts "completed", "expired" and "late" of `completedEntry.State`.
pub data CompletedState : Type 0 where
  completed expired late : CompletedState

pub record CompletedEntry : Type 0 where
  pub client_id : String
  pub state : CompletedState
  pub finished_at : ℕ

pub record Hub : Type 0 where
  pub pending_size : ℕ
  pub default_max_in_flight : ℕ
  pub heap : List ClientSession
  pub sessions : Map String ℕ
  pub groups : Map String (Map String ℕ)
  pub group_order : Map String (List String)
  pub group_cursor : Map String ℕ
  pub waiters : Map String WaiterEntry
  pub completed : Map String CompletedEntry
  pub channels : List (Option JobResult)

-- `if n <= 0 { n = d }`
abbrev pub positive_or : ℤ → ℕ → ℕ
positive_or (pos (suc n)) d = suc n
positive_or _ d = d

unfoldable pub new_hub : ℤ → ℤ → Hub
new_hub pending_size default_max_in_flight = record {
  pending_size = positive_or pending_size 2048;
  default_max_in_flight = positive_or default_max_in_flight 256;
  heap = [];
  sessions = Map.empty;
  groups = Map.empty;
  group_order = Map.empty;
  group_cursor = Map.empty;
  waiters = Map.empty;
  completed = Map.empty;
  channels = [];
}

unfoldable pub normalize_max_in_flight : Hub → ℤ → ℕ
normalize_max_in_flight h (pos (suc n)) = if ltb 1024 (suc n) then 1024 else suc n
normalize_max_in_flight h _ = h.default_max_in_flight

-- Reads of the maps with Go's zero value for a missing key.
abbrev pub order : Hub → String → List String
order h group = get_or (lookup group h.group_order) []

abbrev pub cursor : Hub → String → ℕ
cursor h group = get_or (lookup group h.group_cursor) 0

abbrev pub group_sessions : Hub → String → Map String ℕ
group_sessions h group = get_or (lookup group h.groups) Map.empty

-- The session in the map `sessions`; no pointer dangles.
abbrev pub session_at : Hub → Option ℕ → Option (ℕ × ClientSession)
session_at h none = none
session_at h (some p) = elim (get_elem? h.heap p) [ none ↦ none | some s ↦ some (p, s) ]

abbrev pub session : Hub → String → Option (ℕ × ClientSession)
session h client_id = session_at h (lookup client_id h.sessions)
