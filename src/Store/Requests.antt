-- ===== src/Store/Requests.antt =====
-- internal/store/store.go: the row of a call in the table of requests, whose key is the request id. A name is
-- empty or not as the database compares it; the names that are stored are trimmed.
pub mod Order
pub mod Statements
use r0rpc.Prelude.{
  ℕ, String, ℤ, Bool, Option, none, some, List, [], ◌∷◌, ◌==◌, string_eq, not, not, ltb,
  not_positive, pos, if◌then◌else◌, magnitude, take, drop, length, zero, suc, ◌++◌,
}
use r0rpc.Prelude.Map.{Map, lookup, insert}
use r0rpc.Prelude.Text.{trim_space}

-- `model.RPCRequest`, as it is written.
pub record Item : Type 0 where
  pub request_id : String
  pub group : String
  pub action : String
  pub client_id : String
  pub requester : Option ℤ
  pub request_payload : String
  pub response_payload : String
  pub status : String
  pub http_code : ℤ
  pub latency_ms : ℤ
  pub error_message : String

pub record Row : Type 0 where
  pub group : String
  pub action : String
  pub client_id : String
  pub requester : Option ℤ
  pub request_payload : Option String
  pub response_payload : Option String
  pub status : String
  pub http_code : ℤ
  pub latency_ms : ℤ
  pub error_message : String
  pub finished_at : Option ℕ

unfoldable pub nullable_json : String → Option String
nullable_json raw = if trim_space raw == "" then none else some raw

-- `CASE WHEN VALUES(x) <> '' THEN VALUES(x) ELSE x END` and `COALESCE(VALUES(x), x)`
abbrev pub named_or : String → String → String
named_or new old = if new == "" then old else new

abbrev pub coalesce {ℓ} : {A : Type ℓ} → Option A → Option A → Option A
coalesce none old = old
coalesce (some a) old = some a

abbrev pub inserted : Item → Option ℕ → Row
inserted i finished = record {
  group = i.group;
  action = i.action;
  client_id = i.client_id;
  requester = i.requester;
  request_payload = nullable_json i.request_payload;
  response_payload = nullable_json i.response_payload;
  status = i.status;
  http_code = i.http_code;
  latency_ms = i.latency_ms;
  error_message = i.error_message;
  finished_at = finished;
}

-- The fields that both statements merge into a row that there is.
abbrev pub merged : Item → Row → Row
merged i r = record r {
  group = named_or i.group r.group;
  action = named_or i.action r.action;
  client_id = named_or i.client_id r.client_id;
  requester = coalesce i.requester r.requester;
  request_payload = coalesce (nullable_json i.request_payload) r.request_payload;
}

-- The row that `CreateRPCRequest` leaves.
unfoldable pub created_row : Item → Option Row → Row
created_row i none = inserted i none
created_row i (some r) = merged i r

-- The row that `CompleteRPCRequest` leaves.
unfoldable pub completed_row : Item → ℕ → Option Row → Row
completed_row i now none = inserted i (some now)
completed_row i now (some r) = record (merged i r) {
  response_payload = nullable_json i.response_payload;
  status = i.status;
  http_code = i.http_code;
  latency_ms = i.latency_ms;
  error_message = i.error_message;
  finished_at = some now;
}

unfoldable pub create_rpc_request : Map String Row → Item → Map String Row
unfolding created_row
create_rpc_request m i = insert i.request_id (created_row i (lookup i.request_id m)) m

unfoldable pub complete_rpc_request : ℕ → Map String Row → Item → Map String Row
unfolding completed_row
complete_rpc_request now m i = insert i.request_id (completed_row i now (lookup i.request_id m)) m

-- The row that the statement of `CompleteRPCRequests` leaves, whose text is its own: an item that is a
-- duplicate of a row, or the values to insert.
unfoldable pub batch_row : Item → ℕ → Option Row → Row
batch_row i now none = record {
  group = i.group;
  action = i.action;
  client_id = i.client_id;
  requester = i.requester;
  request_payload = nullable_json i.request_payload;
  response_payload = nullable_json i.response_payload;
  status = i.status;
  http_code = i.http_code;
  latency_ms = i.latency_ms;
  error_message = i.error_message;
  finished_at = some now;
}
batch_row i now (some r) = record {
  group = if not (i.group == "") then i.group else r.group;
  action = if not (i.action == "") then i.action else r.action;
  client_id = if not (i.client_id == "") then i.client_id else r.client_id;
  requester = coalesce i.requester r.requester;
  request_payload = coalesce (nullable_json i.request_payload) r.request_payload;
  response_payload = nullable_json i.response_payload;
  status = i.status;
  http_code = i.http_code;
  latency_ms = i.latency_ms;
  error_message = i.error_message;
  finished_at = some now;
}

-- A statement takes its rows one after another. `NOW()` is the time of the statement.
unfoldable pub complete_statement : ℕ → Map String Row → List Item → Map String Row
unfolding batch_row
complete_statement now m [] = m
complete_statement now m (i ∷ items) =
    complete_statement now (insert i.request_id (batch_row i now (lookup i.request_id m)) m) items

-- The loop of `CompleteRPCRequests` over statements of 128 rows at most, from the statement with the number
-- `j` on; `times` has the time of each.
unfoldable pub complete_statements : ℕ → (ℕ → ℕ) → ℕ → Map String Row → List Item → Map String Row
unfolding complete_statement
complete_statements fuel times j m [] = m
complete_statements zero times j m (i ∷ items) = m
complete_statements (suc fuel) times j m (i ∷ items) =
    complete_statements fuel times (suc j) (complete_statement (times j) m (take 128 (i ∷ items)))
      (drop 128 (i ∷ items))

unfoldable pub complete_rpc_requests : (ℕ → ℕ) → Map String Row → List Item → Map String Row
unfolding complete_statements
complete_rpc_requests times m items = complete_statements (length items) times 0 m items
