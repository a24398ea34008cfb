-- ===== src/App/Invoke/Outcome.antt =====
-- internal/app/app.go, `InvokeRPC`: the tasks that a call queues for the store, by what the hub returns.
use r0rpc.Prelude.{
  suc, ◌+◌, ◌-◌, ◌*◌, String, ℤ, pos, negsuc, not, ◌&&◌, none, some, List, [], ◌∷◌, ◌==◌, string_eq,
  leb, ◌⊎◌, inl, inr, if◌then◌else◌,
}
use r0rpc.Prelude.Text.{trim_space}
use r0rpc.Rpc.Job.{Job, JobResult, HubError, Result, ok, err}
use r0rpc.App.Groups.{GroupRow, GroupFailure, ensure_group_active}
use r0rpc.App.Invoke.{
  StoredResponse, PersistTaskKind, PersistTask, error_text, build_stored_invoke_request,
  build_stored_invoke_response, failure_status, complete_result, Invoked, Call, used_client,
}

-- The task that completes the record of the call.
unfoldable pub complete_task :
    Call → String → String → ℤ → StoredResponse → ℤ → String → PersistTask
unfolding build_stored_invoke_request
complete_task c client status http_code response latency error = record {
  kind = PersistTaskKind.complete_request;
  request_id = c.request_id;
  client_id = client;
  group_name = c.group;
  action_name = c.action;
  status = status;
  http_code = http_code;
  request_payload = some (build_stored_invoke_request c.request);
  response_payload = some response;
  latency_ms = latency;
  error_message = error;
  requester_user_id = c.requester;
  stat_time = 0;
}

-- The tasks for the metrics, of an action and of a device.
unfoldable pub metric_task : PersistTaskKind → Call → String → String → String → ℤ → PersistTask
metric_task kind c action client status latency = record {
  kind = kind;
  request_id = "";
  client_id = client;
  group_name = c.group;
  action_name = action;
  status = status;
  http_code = pos 0;
  request_payload = none;
  response_payload = none;
  latency_ms = latency;
  error_message = "";
  requester_user_id = none;
  stat_time = c.finished_at;
}

-- The tasks that are queued for a call with an outcome.
unfoldable pub tasks_of :
    Call → String → String → ℤ → StoredResponse → ℤ → String → List PersistTask
unfolding complete_task metric_task
tasks_of c client status http_code response latency error =
    complete_task c client status http_code response latency error
    ∷ metric_task PersistTaskKind.rpc_metric c c.action client status latency
    ∷ (if client == ""
        then []
        else metric_task PersistTaskKind.device_metric c "" client status latency ∷ [])

-- What `InvokeRPC` returns, and the tasks that it queues.
pub record Invocation : Type 0 where
  pub result : Result JobResult
  pub client : String
  pub tasks : List PersistTask

-- The result that is stored for an error.
abbrev pub failed_result : String → HubError → JobResult
failed_result request_id e = record {
  request_id = request_id;
  status = (failure_status e).0;
  http_code = (failure_status e).1;
  payload = [];
  payload_encoding = "";
  payload_raw_size = pos 0;
  payload_compressed_size = pos 0;
  error = error_text e;
  latency_ms = pos 0;
}

-- The part of `InvokeRPC` behind the hub's `Invoke`.
unfoldable pub record_outcome : Call → String → Result JobResult → Invocation
unfolding failure_status complete_result build_stored_invoke_response tasks_of
record_outcome c client (err e) =
    let (status, http_code) = failure_status e in
    let response =
      build_stored_invoke_response c.request_id c.group c.action client c.request.payload
        (failed_result c.request_id e) in
    record {
      result = err e;
      client = client;
      tasks = tasks_of c client status http_code response (pos 0) (error_text e);
    }
record_outcome c client (ok r) =
    let result = complete_result r in
    let response =
      build_stored_invoke_response c.request_id c.group c.action client c.request.payload result in
    record {
      result = ok result;
      client = client;
      tasks =
          tasks_of c client result.status result.http_code response result.latency_ms result.error;
    }

-- `if req.Timeout > 0 && req.Timeout < 120`, in nanoseconds.
unfoldable pub call_timeout : ℤ → ℤ → ℤ
call_timeout default (pos n) = if leb 1 n && not (leb 120 n) then pos (n * 1000000000) else default
call_timeout default (negsuc n) = default

-- The job that `InvokeRPC` hands to the hub.
unfoldable pub job_of : Call → ℤ → Job
job_of c timeout = record {
  request_id = c.request_id;
  group = c.group;
  action = c.action;
  client_id = c.request.client_id;
  payload = c.request.payload;
  created_at = c.created_at;
  deadline_at = elim timeout [ pos n ↦ c.created_at + n | negsuc n ↦ c.created_at - suc n ];
}

-- The call with its names trimmed.
unfoldable pub trimmed : Call → Call
trimmed c = record c { group = trim_space c.group; action = trim_space c.action }

-- The whole function: `hub` is what the hub's `Invoke` returns for a job, within a time limit.
unfoldable pub invoke_rpc :
    (String → GroupRow) → ℤ → (Job → String → ℤ → Invoked) → Call → GroupFailure ⊎ Invocation
unfolding trimmed call_timeout job_of record_outcome
invoke_rpc groups request_timeout hub c =
    let t = trimmed c in
    elim (ensure_group_active groups t.group) [
      | some e ↦ inl e
      | none ↦
          let timeout = call_timeout request_timeout c.request.timeout in
          let r = hub (job_of t timeout) c.request.client_id timeout in
          inr (record_outcome t (used_client t r) r.outcome)
    ]
