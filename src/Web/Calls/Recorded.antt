-- ===== src/Web/Calls/Recorded.antt =====
-- internal/web/http.go, `handleInvoke`: what the caller is told agrees with what is recorded of the call.
use r0rpc.Prelude.{
  String, ℤ, pos, Bool, true, false, none, some, List, [], ◌∷◌, ◌≡◌, refl, sym, ap, ◌∙◌, subst, ◌⊎◌,
  inl, inr, string_eq, Option, AllOf, Option-cases, if◌then◌else◌,
}
use r0rpc.Prelude.Text.{trim_space, contains}
use r0rpc.Rpc.Job.{
  Job, JobResult, HubError, Result, ok, err, no_online_client, preferred_client_down,
  client_queue_full, group_saturated, client_session_gone, result_client_mismatch,
  result_not_waiting, context_error, canceled, deadline_exceeded,
}
use r0rpc.App.Groups.{GroupRow, GroupFailure, ensure_group_active}
use r0rpc.App.Invoke.{
  Call, Invoked, PersistTask, StoredResponse, failure_status, complete_result, letters, error_text,
  build_stored_invoke_response,
}
use r0rpc.App.Invoke.Outcome.{
  Invocation, invoke_rpc, record_outcome, trimmed, complete_task, tasks_of,
}
use r0rpc.App.Invoke.Records.{Tells, record_outcome-IsRecorded}
use r0rpc.Web.Login.{AuthFailure, Granted, granted, denied}
use r0rpc.Web.Calls.{
  Body, CallReply, CallError, group_failed, hub_failed, replied, bad_request, unauthorized,
  error_status, reply_error, reply_result, reply_outcome, reply_invoked, invoke_as, handle_invoke,
  call_by,
}

-- The status and the code that are recorded, as against those that the caller is told: the same, or
-- "timeout" with 504 against "failed" with 502, for a call that failed for a reason without a class of
-- its own.
abbrev pub Told : String × ℤ → String × ℤ → Type 0
Told recorded told =
    (recorded ≡ told) ⊎ ((recorded ≡ ("timeout", pos 504)) × (told ≡ ("failed", pos 502)))

-- Whether the stored response says that the call went well.
abbrev stored_ok : Option StoredResponse → Bool
stored_ok none = false
stored_ok (some r) = r.is_ok

abbrev pub recorded_ok : List PersistTask → Bool
recorded_ok [] = false
recorded_ok (t ∷ ts) = stored_ok t.response_payload

-- The text of an error in an answer.
abbrev pub failure_text : CallError ⊎ String → String
failure_text (inl (group_failed e)) = ""
failure_text (inl (hub_failed e)) = error_text e
failure_text (inr text) = text

-- What the HTTP status of an answer is: 200 for a result, and otherwise the code that the body tells.
abbrev pub ReplyCode : Body → ℤ → Type 0
ReplyCode body http = elim body.failure [ inl e ↦ http ≡ body.code | inr text ↦ http ≡ pos 200 ]

-- The first task, which completes the record of the call, as against the body of the answer.
abbrev pub Completes : Body → List PersistTask → Type 0
Completes body [] = ⊥
Completes body (t ∷ ts) =
    Told (t.status, t.http_code) (body.status, body.code)
    × (t.request_id ≡ body.request_id)
    × (t.action_name ≡ trim_space body.action)
    × (t.error_message ≡ failure_text body.failure)
    × (stored_ok t.response_payload ≡ body.is_ok)

-- What each task has in common with the body of the answer.
pub record Shares (body : Body) (t : PersistTask) : Type 0 where
  pub status : (t.status ≡ body.status) ⊎ ((t.status ≡ "timeout") × (body.status ≡ "failed"))
  pub latency : t.latency_ms ≡ body.latency_ms
  pub client : t.client_id ≡ body.client_id
  pub group : t.group_name ≡ trim_space body.group

-- An answer that agrees with the tasks that are queued for the call.
abbrev pub Agrees : CallReply → Invocation → Type 0
Agrees (replied http body) inv =
    Completes body inv.tasks × AllOf (Shares body) inv.tasks × ReplyCode body http
Agrees _ inv = ⊥

-- The status and the code of a call that was refused for its group.
abbrev pub RefusedCode : GroupFailure → String × ℤ → Type 0
RefusedCode (GroupFailure.group_not_found g) told = told ≡ ("group_not_found", pos 404)
RefusedCode (GroupFailure.group_disabled g) told = told ≡ ("group_disabled", pos 403)
RefusedCode GroupFailure.group_required told = told ≡ ("failed", pos 502)
RefusedCode (GroupFailure.group_store_error e) told = told ≡ (
    if contains (trim_space e) "context deadline exceeded"
    then ("timeout", pos 504)
    else ("failed", pos 502))

abbrev pub Refuses : CallReply → GroupFailure → Type 0
Refuses (replied http body) e =
    (body.is_ok ≡ false) × RefusedCode e (body.status, body.code) × (http ≡ body.code)
Refuses _ e = ⊥

-- The answer to a caller, by what `InvokeRPC` returned, which is nothing if the call did not get there.
abbrev pub Answers :
    (String → GroupRow) → Call → CallReply × Option (GroupFailure ⊎ Invocation) → Type 0
Answers groups c (reply, none) =
    (reply ≡ bad_request) ⊎ ((e : AuthFailure) × (reply ≡ unauthorized e))
Answers groups c (reply, some (inl e)) =
    (ensure_group_active groups (trim_space c.group) ≡ some e) × Refuses reply e
Answers groups c (reply, some (inr inv)) =
    (ensure_group_active groups (trim_space c.group) ≡ none) × Agrees reply inv

failure_status-Told : (e : HubError) → Told (failure_status e) (error_status (hub_failed e))
unfolding failure_status error_status
failure_status-Told no_online_client = inl refl
failure_status-Told preferred_client_down = inl refl
failure_status-Told client_queue_full = inl refl
failure_status-Told group_saturated = inl refl
failure_status-Told client_session_gone = inr (refl, refl)
failure_status-Told result_client_mismatch = inr (refl, refl)
failure_status-Told result_not_waiting = inr (refl, refl)
failure_status-Told (context_error canceled) = inr (refl, refl)
failure_status-Told (context_error deadline_exceeded) = inl refl

hub_not_ok :
    (e : HubError) (c : Call) (client : String)
    → recorded_ok (record_outcome c client (err e)).tasks ≡ false
unfolding record_outcome tasks_of complete_task build_stored_invoke_response failure_status letters
hub_not_ok no_online_client c client = refl
hub_not_ok preferred_client_down c client = refl
hub_not_ok client_queue_full c client = refl
hub_not_ok group_saturated c client = refl
hub_not_ok client_session_gone c client = refl
hub_not_ok result_client_mismatch c client = refl
hub_not_ok result_not_waiting c client = refl
hub_not_ok (context_error e) c client = refl

-- The relation of the statuses alone.
status-Told : (r t : String × ℤ) → Told r t → (r.0 ≡ t.0) ⊎ ((r.0 ≡ "timeout") × (t.0 ≡ "failed"))
status-Told r t (inl e) = inl (ap (λ x. x.0) e)
status-Told r t (inr (a, b)) = inr (ap (λ x. x.0) a, ap (λ x. x.0) b)

tasks-Shares :
    (body : Body) (group client status : String) (latency : ℤ) (tasks : List PersistTask)
    → (status ≡ body.status) ⊎ ((status ≡ "timeout") × (body.status ≡ "failed"))
    → latency ≡ body.latency_ms
    → client ≡ body.client_id
    → group ≡ trim_space body.group
    → AllOf (Tells group client status latency) tasks
    → AllOf (Shares body) tasks
tasks-Shares body group client status latency [] e l d g a = tt
tasks-Shares body group client status latency (t ∷ ts) e l d g (k, a) = (
  record {
    status =
        subst (λ x. (x ≡ body.status) ⊎ ((x ≡ "timeout") × (body.status ≡ "failed")))
          (sym k.told_status) e;
    latency = k.told_latency ∙ l;
    client = k.told_client ∙ d;
    group = k.told_group ∙ g;
  },
  tasks-Shares body group client status latency ts e l d g a,
)

outcome-Agrees :
    (c c' : Call) (client : String) (outcome : Result JobResult)
    → c'.request_id ≡ c.request_id
    → c'.group ≡ trim_space c.group
    → c'.action ≡ trim_space c.action
    → let inv = record_outcome c' client outcome in
      Agrees (reply_outcome c inv.client inv.result) inv
unfolding reply_outcome reply_error reply_result record_outcome tasks_of complete_task
    build_stored_invoke_response
outcome-Agrees c c' client (err e) id group action =
    let told = failure_status-Told e in
    (
      (told, id, action, refl, hub_not_ok e c' client),
      tasks-Shares _ c'.group client _ (pos 0) (record_outcome c' client (err e)).tasks
          (status-Told (failure_status e) (error_status (hub_failed e)) told) refl refl group
          (record_outcome-IsRecorded c' client (err e)).told,
      refl,
    )
outcome-Agrees c c' client (ok r) id group action = (
  (inl refl, id, action, refl, refl),
  tasks-Shares _ c'.group client (complete_result r).status (complete_result r).latency_ms
      (record_outcome c' client (ok r)).tasks (inl refl) refl refl group
      (record_outcome-IsRecorded c' client (ok r)).told,
  refl,
)

refused-Refuses : (c : Call) (e : GroupFailure) → Refuses (reply_error c "" (group_failed e)) e
unfolding reply_error error_status
refused-Refuses c (GroupFailure.group_not_found g) = (refl, refl, refl)
refused-Refuses c (GroupFailure.group_disabled g) = (refl, refl, refl)
refused-Refuses c GroupFailure.group_required = (refl, refl, refl)
refused-Refuses c (GroupFailure.group_store_error e) = (refl, refl, refl)

module _ (groups : String → GroupRow) (request_timeout : ℤ) (hub : Job → String → ℤ → Invoked)
    (c : Call) where
  invoke_as-Answers :
      (login : Granted) → Answers groups c (invoke_as groups request_timeout hub c login)
  unfolding invoke_as invoke_rpc reply_invoked trimmed
  invoke_as-Answers (denied e) = inr (e, refl)
  invoke_as-Answers (granted claims) =
      elim (Option-cases (ensure_group_active groups (trim_space c.group))) [
        | inl active ↦
            rw (active, invoke_as, invoke_rpc)
              (active, outcome-Agrees c (trimmed (call_by c claims)) _ _ refl refl refl)
        | inr (e, refused) ↦ rw (refused, invoke_as, invoke_rpc) (refused, refused-Refuses c e)
      ]

  -- `handleInvoke` answers without a call only a body that is not JSON or a login that is denied. A call of
  -- a group that is not active is answered by 404, 403, 502 or 504 by the reason, and nothing is recorded.
  -- Otherwise the task that completes the record has the request id, the trimmed action, the error text,
  -- the status, the code and the ok flag of the answer, and all tasks have its status, its latency, its
  -- client and its trimmed group, except that a failure without a class of its own is recorded as
  -- "timeout" with 504 and told as "failed" with 502. A result is answered by 200, and a failure by the
  -- code that the answer tells.
  pub handle_invoke-Answers :
      (body_ok : Bool) (login : Granted)
      → Answers groups c (handle_invoke groups request_timeout hub c body_ok login)
  unfolding handle_invoke
  handle_invoke-Answers true login = invoke_as-Answers login
  handle_invoke-Answers false login = inl refl
