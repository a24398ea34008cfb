-- ===== src/App/Invoke.antt =====
-- internal/app/app.go, `InvokeRPC`: a call, and what is recorded of it. The outcome of the hub's `Invoke`
-- is an argument, and so are the random id and the times that the function reads. A JSON text that
-- is stored is the value from which `json.Marshal` makes it.
pub mod Outcome
pub mod Records
use Prim.Native.Char.{Char, code}
use r0rpc.Prelude.{
  ℕ, zero, suc, ◌+◌, ◌-◌, ◌*◌, String, ℤ, pos, negsuc, not_positive, lt_const, Bool, true, false,
  not, ◌&&◌, ◌||◌, Option, none, some, List, [], ◌∷◌, ◌++◌, ◌==◌, string_eq, eqb, leb, ◌⊎◌, inl,
  inr, if◌then◌else◌,
}
use r0rpc.Prelude.Text.{trim_space}
use r0rpc.Rpc.Job.{
  Job, JobResult, HubError, Result, ok, err, no_online_client, preferred_client_down,
  client_queue_full, group_saturated, client_session_gone, result_client_mismatch,
  result_not_waiting, context_error, canceled, deadline_exceeded,
}
use r0rpc.App.Groups.{GroupRow, GroupFailure, ensure_group_active}

pub record InvokeRequest : Type 0 where
  pub client_id : String
  pub payload : List ℕ
  pub timeout : ℤ

-- `buildStoredInvokeRequest`
pub record StoredRequest : Type 0 where
  pub client_id : String
  pub timeout_seconds : ℤ
  pub payload : List ℕ

-- `buildStoredInvokeResponse`
pub record StoredResponse : Type 0 where
  pub is_ok : Bool
  pub request_id : String
  pub group : String
  pub action : String
  pub client_id : String
  pub request_payload : List ℕ
  pub response_payload : List ℕ
  pub result : JobResult

pub data PersistTaskKind : Type 0 where
  create_request complete_request rpc_metric device_metric : PersistTaskKind

pub record PersistTask : Type 0 where
  pub kind : PersistTaskKind
  pub request_id : String
  pub client_id : String
  pub group_name : String
  pub action_name : String
  pub status : String
  pub http_code : ℤ
  pub request_payload : Option StoredRequest
  pub response_payload : Option StoredResponse
  pub latency_ms : ℤ
  pub error_message : String
  pub requester_user_id : Option ℤ
  pub stat_time : ℕ

-- The text of an error of the hub, or of a context.
abbrev pub error_text : HubError → String
error_text result_client_mismatch = "request result client mismatch"
error_text result_not_waiting = "request result not waiting"
error_text no_online_client = "no online client in group"
error_text preferred_client_down = "preferred client not online"
error_text client_queue_full = "client queue is full"
error_text group_saturated = "all online clients in group are saturated"
error_text client_session_gone = "client session not found"
error_text (context_error canceled) = "context canceled"
error_text (context_error deadline_exceeded) = "context deadline exceeded"

-- A letter as `strings.EqualFold` compares it with the letters of "success".
abbrev folded : Char → ℕ
folded ch =
    let c = code ch in if leb 65 c && leb c 90 then c + 32 else if eqb c 0x17f then 115 else c

unfoldable pub letters : String → List ℕ
letters String.[] = []
letters (String.◌∷◌ ch s) = folded ch ∷ letters s

abbrev pub same_letters : List ℕ → List ℕ → Bool
same_letters [] [] = true
same_letters (a ∷ xs) (b ∷ ys) = eqb a b && same_letters xs ys
same_letters _ _ = false

-- Whether `strings.TrimSpace` leaves nothing of a payload, whose blanks are those of JSON.
abbrev pub is_blank_payload : List ℕ → Bool
is_blank_payload [] = true
is_blank_payload (b ∷ bs) = ((leb 9 b && leb b 13) || eqb b 32) && is_blank_payload bs

-- `jsonBodyOrObject`: the payload, or the text `{}`.
unfoldable pub json_body_or_object : List ℕ → List ℕ
json_body_or_object raw = if is_blank_payload raw then 123 ∷ 125 ∷ [] else raw

unfoldable pub build_stored_invoke_request : InvokeRequest → StoredRequest
unfolding json_body_or_object
build_stored_invoke_request req = record {
  client_id = trim_space req.client_id;
  timeout_seconds = req.timeout;
  payload = json_body_or_object req.payload;
}

-- `json.Marshal` succeeds on these values, so that its fallback has no clause.
unfoldable pub build_stored_invoke_response :
    String → String → String → String → List ℕ → JobResult → StoredResponse
unfolding letters json_body_or_object
build_stored_invoke_response request_id group action client_id request_payload result = record {
  is_ok =
      same_letters (letters result.status) (letters "success") && (trim_space result.error == "");
  request_id = request_id;
  group = group;
  action = action;
  client_id = client_id;
  request_payload = json_body_or_object request_payload;
  response_payload = json_body_or_object result.payload;
  result = result;
}

-- The status and the code that are recorded for an error of the hub.
unfoldable pub failure_status : HubError → String × ℤ
failure_status no_online_client = ("no_client", pos 502)
failure_status preferred_client_down = ("no_client", pos 502)
failure_status client_queue_full = ("rejected", pos 429)
failure_status group_saturated = ("rejected", pos 429)
failure_status _ = ("timeout", pos 504)

-- The defaults for a result that a client left incomplete.
unfoldable pub complete_result : JobResult → JobResult
complete_result result = record result {
  http_code = elim result.http_code [
    | pos n ↦ if eqb n 0 then pos 200 else pos n
    | negsuc n ↦ negsuc n
  ];
  status = if result.status == "" then "success" else result.status;
}

-- What the hub's `Invoke` returns: a result or an error, and the client, which is "" when none was
-- picked.
pub record Invoked : Type 0 where
  pub outcome : Result JobResult
  pub client : String

-- The arguments of a call, with the times that the function reads.
pub record Call : Type 0 where
  pub request_id : String
  pub group : String
  pub action : String
  pub requester : Option ℤ
  pub request : InvokeRequest
  pub created_at : ℕ
  pub finished_at : ℕ

-- `if actualClientID != "" { ... }`
abbrev pub used_client : Call → Invoked → String
used_client c r = if r.client == "" then c.request.client_id else r.client
