-- ===== src/Web/Calls.antt =====
-- internal/web/http.go, `handleInvoke`: the answer to a caller. The body of the request, the login and the
-- hub are arguments.
pub mod Recorded
use r0rpc.Prelude.{
  ℕ, String, ℤ, pos, Bool, true, false, ◌&&◌, Option, none, some, List, [], ◌∷◌, ◌==◌, string_eq,
  ◌⊎◌, inl, inr, if◌then◌else◌,
}
use r0rpc.Prelude.Text.{trim_space, contains}
use r0rpc.Rpc.Job.{
  Job, JobResult, HubError, Result, ok, err, no_online_client, preferred_client_down,
  client_queue_full, group_saturated, context_error, deadline_exceeded,
}
use r0rpc.App.Groups.{GroupRow, GroupFailure}
use r0rpc.App.Invoke.{Call, InvokeRequest, Invoked, letters, same_letters, is_blank_payload}
use r0rpc.App.Invoke.Outcome.{Invocation, invoke_rpc}
use r0rpc.Web.Login.{Claims, AuthFailure, Granted, granted, denied}

pub data CallError : Type 0 where
  group_failed : GroupFailure → CallError
  hub_failed : HubError → CallError

-- The body of an answer: `error` is the one of the result, or the text of a failure.
pub record Body : Type 0 where
  pub is_ok : Bool
  pub status : String
  pub code : ℤ
  pub request_id : String
  pub group : String
  pub action : String
  pub client_id : String
  pub request_payload : List ℕ
  pub content : List ℕ
  pub latency_ms : ℤ
  pub failure : CallError ⊎ String

-- The HTTP status of an answer, and its body.
pub data CallReply : Type 0 where
  bad_request : CallReply
  unauthorized : AuthFailure → CallReply
  replied : ℤ → Body → CallReply

-- `jsonBodyOrEmpty`
unfoldable pub json_body_or_empty : List ℕ → List ℕ
json_body_or_empty raw = if is_blank_payload raw then 123 ∷ 125 ∷ [] else raw

-- The switch on the error of `InvokeRPC`.
unfoldable pub error_status : CallError → String × ℤ
error_status (group_failed (GroupFailure.group_not_found g)) = ("group_not_found", pos 404)
error_status (group_failed (GroupFailure.group_disabled g)) = ("group_disabled", pos 403)
error_status (group_failed GroupFailure.group_required) = ("failed", pos 502)
error_status (group_failed (GroupFailure.group_store_error e)) =
    if contains (trim_space e) "context deadline exceeded"
    then ("timeout", pos 504)
    else ("failed", pos 502)
error_status (hub_failed (context_error deadline_exceeded)) = ("timeout", pos 504)
error_status (hub_failed no_online_client) = ("no_client", pos 502)
error_status (hub_failed preferred_client_down) = ("no_client", pos 502)
error_status (hub_failed client_queue_full) = ("rejected", pos 429)
error_status (hub_failed group_saturated) = ("rejected", pos 429)
error_status (hub_failed e) = ("failed", pos 502)

unfoldable pub reply_error : Call → String → CallError → CallReply
unfolding error_status json_body_or_empty
reply_error c client e = replied (error_status e).1 (record {
  is_ok = false;
  status = (error_status e).0;
  code = (error_status e).1;
  request_id = c.request_id;
  group = c.group;
  action = c.action;
  client_id = client;
  request_payload = json_body_or_empty c.request.payload;
  content = [];
  latency_ms = pos 0;
  failure = inl e;
})

unfoldable pub reply_result : Call → String → JobResult → CallReply
unfolding letters json_body_or_empty
reply_result c client r = replied (pos 200) (record {
  is_ok = same_letters (letters r.status) (letters "success") && (trim_space r.error == "");
  status = r.status;
  code = r.http_code;
  request_id = c.request_id;
  group = c.group;
  action = c.action;
  client_id = client;
  request_payload = json_body_or_empty c.request.payload;
  content = json_body_or_empty r.payload;
  latency_ms = r.latency_ms;
  failure = inr r.error;
})

unfoldable pub reply_outcome : Call → String → Result JobResult → CallReply
unfolding reply_error reply_result
reply_outcome c client (ok r) = reply_result c client r
reply_outcome c client (err e) = reply_error c client (hub_failed e)

unfoldable pub reply_invoked : Call → GroupFailure ⊎ Invocation → CallReply
unfolding reply_outcome
reply_invoked c (inl e) = reply_error c "" (group_failed e)
reply_invoked c (inr inv) = reply_outcome c inv.client inv.result

-- The call of a user.
abbrev pub call_by : Call → Claims → Call
call_by c claims = record c { requester = some claims.user_id }

-- The part behind the login: the answer, and what `InvokeRPC` returned.
unfoldable pub invoke_as :
    (String → GroupRow)
    → ℤ
    → (Job → String → ℤ → Invoked)
    → Call
    → Granted
    → CallReply × Option (GroupFailure ⊎ Invocation)
unfolding reply_invoked
invoke_as groups request_timeout hub c (denied e) = (unauthorized e, none)
invoke_as groups request_timeout hub c (granted claims) =
    let invoked = invoke_rpc groups request_timeout hub (call_by c claims) in
    (reply_invoked c invoked, some invoked)

-- `body_ok` says whether the body is JSON or empty.
unfoldable pub handle_invoke :
    (String → GroupRow)
    → ℤ
    → (Job → String → ℤ → Invoked)
    → Call
    → Bool
    → Granted
    → CallReply × Option (GroupFailure ⊎ Invocation)
unfolding invoke_as
handle_invoke groups request_timeout hub c body_ok login =
    if body_ok then invoke_as groups request_timeout hub c login else (bad_request, none)
