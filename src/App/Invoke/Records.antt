-- ===== src/App/Invoke/Records.antt =====
-- internal/app/app.go, `InvokeRPC`: what is recorded of a call agrees with what the caller gets.
use r0rpc.Prelude.{
  String, ℤ, pos, negsuc, false, none, some, List, [], ◌∷◌, ◌≡◌, ◌≢◌, refl, ◌⊎◌, inl, inr, ◌==◌,
  string_eq, eqb, by_if, Option-cases, if◌then◌else◌, arith, AllOf,
}
use r0rpc.Prelude.Text.{trim_space}
use r0rpc.Rpc.Job.{Job, JobResult, Result, ok, err}
use r0rpc.App.Groups.{GroupRow, GroupFailure, ensure_group_active}
use r0rpc.App.Invoke.{
  Call, Invoked, PersistTask, PersistTaskKind, StoredResponse, failure_status, complete_result,
  build_stored_invoke_response, error_text,
}
use r0rpc.App.Invoke.Outcome.{
  Invocation, tasks_of, complete_task, metric_task, record_outcome, trimmed, invoke_rpc,
  failed_result,
}

abbrev pub kinds_of : List PersistTask → List PersistTaskKind
kinds_of [] = []
kinds_of (t ∷ ts) = t.kind ∷ kinds_of ts

-- The kinds of tasks that a call queues: the metric of a device only if a client is known.
abbrev pub expected_kinds : String → List PersistTaskKind
expected_kinds client =
    PersistTaskKind.complete_request
    ∷ PersistTaskKind.rpc_metric
    ∷ (if client == "" then [] else PersistTaskKind.device_metric ∷ [])

-- A task that names the group and the client of the call, with a status and a latency.
pub record Tells (group client status : String) (latency : ℤ) (t : PersistTask) : Type 0 where
  pub told_group : t.group_name ≡ group
  pub told_client : t.client_id ≡ client
  pub told_status : t.status ≡ status
  pub told_latency : t.latency_ms ≡ latency

-- The status and the latency that the tasks must have, by what the caller gets.
abbrev pub told_status_of : Result JobResult → String × ℤ
told_status_of (ok r) = (r.status, r.latency_ms)
told_status_of (err e) = ((failure_status e).0, pos 0)

abbrev pub told_code_of : Result JobResult → ℤ
told_code_of (ok r) = r.http_code
told_code_of (err e) = (failure_status e).1

abbrev pub first_code : List PersistTask → ℤ
first_code [] = pos 0
first_code (t ∷ ts) = t.http_code

-- A result has its status and its code set.
abbrev pub HasStatus : Result JobResult → Type 0
HasStatus (ok r) = (r.status ≢ "") × (r.http_code ≢ pos 0)
HasStatus (err e) = Unit

-- The tasks of an invocation of a call in a group.
pub record IsRecorded (group : String) (inv : Invocation) : Type 0 where
  pub kinds : kinds_of inv.tasks ≡ expected_kinds inv.client
  pub told :
      AllOf
        (Tells group inv.client (told_status_of inv.result).0 (told_status_of inv.result).1)
        inv.tasks
  pub code : first_code inv.tasks ≡ told_code_of inv.result
  pub complete : HasStatus inv.result

-- What `InvokeRPC` does with a call: it refuses it without a record, or it records what it returns.
abbrev pub Records : (String → GroupRow) → String → GroupFailure ⊎ Invocation → Type 0
Records groups group (inl e) = ensure_group_active groups group ≡ some e
Records groups group (inr inv) = (ensure_group_active groups group ≡ none) × IsRecorded group inv

module _ (c : Call) (client status : String) (http_code : ℤ) (response : StoredResponse)
    (latency : ℤ) (error : String) where
  kinds-tasks_of :
      kinds_of (tasks_of c client status http_code response latency error) ≡ expected_kinds client
  unfolding tasks_of complete_task metric_task
  kinds-tasks_of = ground arith

  Tells-tasks_of :
      AllOf
        (Tells c.group client status latency)
        (tasks_of c client status http_code response latency error)
  unfolding tasks_of complete_task metric_task
  Tells-tasks_of =
      let told : (t : PersistTask)
          → t.group_name ≡ c.group
          → t.client_id ≡ client
          → t.status ≡ status
          → t.latency_ms ≡ latency
          → Tells c.group client status latency t =
        λ t a b d e. record {
          told_group = a;
          told_client = b;
          told_status = d;
          told_latency = e;
        } in
      (
        told _ refl refl refl refl,
        (
          told _ refl refl refl refl,
          by_if (AllOf (Tells c.group client status latency)) (client == "") (λ _. tt)
              λ _. (told _ refl refl refl refl, tt),
        ),
      )

differ : (s t : String) → (s == t) ≡ false → s ≢ t
differ s t f h = ground (arith, (string_eq.same_iff s t).1 h)

code_set :
    (n : ℤ) → (elim n [ pos n ↦ if eqb n 0 then pos 200 else pos n | negsuc n ↦ negsuc n ]) ≢ pos 0
code_set (pos n) h = ground arith
code_set (negsuc n) h = ground arith

complete_result-HasStatus : (r : JobResult) → HasStatus (ok (complete_result r))
unfolding complete_result
complete_result-HasStatus r = (
  by_if (λ s. s ≢ "") (r.status == "") (λ _. differ "success" "" refl) (λ f. differ r.status "" f),
  code_set r.http_code,
)

pub record_outcome-IsRecorded :
    (c : Call) (client : String) (outcome : Result JobResult)
    → IsRecorded c.group (record_outcome c client outcome)
unfolding record_outcome tasks_of complete_task
record_outcome-IsRecorded c client (err e) =
    let (status, code) = failure_status e in
    let response =
      build_stored_invoke_response c.request_id c.group c.action client c.request.payload
        (failed_result c.request_id e) in
    record {
      kinds = kinds-tasks_of c client status code response (pos 0) (error_text e);
      told = Tells-tasks_of c client status code response (pos 0) (error_text e);
      code = refl;
      complete = tt;
    }
record_outcome-IsRecorded c client (ok r) =
    let d = complete_result r in
    let response =
      build_stored_invoke_response c.request_id c.group c.action client c.request.payload d in
    record {
      kinds = kinds-tasks_of c client d.status d.http_code response d.latency_ms d.error;
      told = Tells-tasks_of c client d.status d.http_code response d.latency_ms d.error;
      code = refl;
      complete = complete_result-HasStatus r;
    }

-- `InvokeRPC` refuses a call without a record only when its group is not active. Otherwise it queues one
-- task that completes the call's record, one for the metric of the action, and one for the metric of
-- the device if a client is known. All of them name the group, the client, the status and the
-- latency of what the caller gets: for an error the status of the error's class, and the latency 0.
-- A result that is returned has a status and a code, and the record has the same code.
pub invoke_rpc-Records :
    (groups : String → GroupRow) (request_timeout : ℤ) (hub : Job → String → ℤ → Invoked) (c : Call)
    → Records groups (trim_space c.group) (invoke_rpc groups request_timeout hub c)
unfolding invoke_rpc trimmed
invoke_rpc-Records groups request_timeout hub c =
    elim (Option-cases (ensure_group_active groups (trim_space c.group))) [
      | inl active ↦ rw (active, invoke_rpc) (active, record_outcome-IsRecorded (trimmed c) _ _)
      | inr (e, refused) ↦ rw (refused, invoke_rpc) refused
    ]
