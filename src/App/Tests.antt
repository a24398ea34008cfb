-- ===== src/App/Tests.antt =====
-- internal/app: a batch of metrics on a table that keeps every row, a call, and a client's presence.
use r0rpc.Prelude.{
  ℕ, ◌*◌, ltb, some, some-injective, inr, if◌then◌else◌, refl, ℤ, pos, none, true, false, ◌≡◌,
  String, List, [], ◌∷◌, ◌++◌, ◌==◌, string_eq, arith,
}
use r0rpc.Prelude.Map
use r0rpc.Prelude.Map.{lookup, find}
use r0rpc.Prelude.Text.{trim_space}
use r0rpc.App.Totals.{Delta, added_up, added_up-append}
use r0rpc.App.Metrics.{MetricTable, MetricTask, accumulate, increment_batch, increment_each}
use r0rpc.App.Metrics.Batch.{batch_agrees}
use r0rpc.Rpc.Job.{Job, JobResult, ok}
use r0rpc.App.Groups.{GroupRow}
use r0rpc.App.Invoke.{Call, Invoked}
use r0rpc.App.Invoke.Outcome.{invoke_rpc}
use r0rpc.App.Invoke.Records.{Records, invoke_rpc-Records}
use r0rpc.Config.{Config, settings, normalize}
use r0rpc.Rpc.State.{new_hub, normalize_max_in_flight}
use r0rpc.Rpc.Hub.Registry.{IsRegistry}
use r0rpc.Rpc.Hub.Registration.{new_hub-IsRegistry}
use r0rpc.Rpc.Hub.Sessions.{Serves}
use r0rpc.App.Clients.{TokenClaims, Jwt, State, LoginStore, LoginRequest, login_client}
use r0rpc.App.Clients.Calls.{touch_of, touch_client_presence, submit_client_result}
use r0rpc.App.Clients.Logins.{LogsIn, login_client-LogsIn}
use r0rpc.App.Clients.Presence.{Submits, submit_client_result-Submits, touched-Serves}
use r0rpc.App.Invoke.{PersistTask, PersistTaskKind}
use r0rpc.App.Persist.{Failures, work}
use r0rpc.App.Persist.Writes.{applied, tasks_for}
use r0rpc.App.Persist.Batches.{Handles, never, handle_batch-Handles}
use r0rpc.App.Persist.Worker.{all_well, work-Empties}
use r0rpc.App.Presence.{second, should_flush_presence, run_presence, flushes, cleans}
use r0rpc.App.Presence.Throttle.{flush_once}

abbrev test_table : MetricTable String (List (String × Delta))
test_table = record {
  row = λ rows k. added_up (λ j. k == j) rows;
  upsert = λ rows more. rows ++ more;
  collates = λ k j. k == j;
  law = λ rows more k. added_up-append (λ j. k == j) rows more;
}

abbrev test_tasks : List (MetricTask String)
test_tasks =
    record { key = "a"; status = "success"; latency_ms = 3 }
    ∷ record { key = "b"; status = "timeout"; latency_ms = 0 }
    ∷ record { key = "a"; status = "failed"; latency_ms = 5 }
    ∷ []

batch_agrees_example :
    test_table.row (increment_batch test_table [] (accumulate Map.empty test_tasks).entries) "a"
    ≡ test_table.row (increment_each test_table [] test_tasks) "a"
batch_agrees_example = batch_agrees test_table [] test_tasks "a" (omega arith)

abbrev test_call : Call
test_call = record {
  request_id = "r1";
  group = " g ";
  action = "echo";
  requester = none;
  request = record { client_id = ""; payload = []; timeout = pos 5 };
  created_at = 100;
  finished_at = 200;
}

-- A result that a client left without a status and a code.
abbrev bare_result : JobResult
bare_result = record {
  request_id = "r1";
  status = "";
  http_code = pos 0;
  payload = [];
  payload_encoding = "";
  payload_raw_size = pos 0;
  payload_compressed_size = pos 0;
  error = "";
  latency_ms = pos 3;
}

abbrev test_invoke : Job → String → ℤ → Invoked
test_invoke job preferred timeout = record { outcome = ok bare_result; client = "a" }

abbrev all_enabled : String → GroupRow
all_enabled name = GroupRow.enabled true

invoke_rpc-Records_example :
    Records all_enabled (trim_space " g ") (invoke_rpc all_enabled (pos 25) test_invoke test_call)
invoke_rpc-Records_example = invoke_rpc-Records all_enabled (pos 25) test_invoke test_call

flush_once_example :
    let written = (should_flush_presence (pos 50) Map.empty "a" 100).0 in
    let after = run_presence (pos 50) (pos 120) written (flushes "b" 120 ∷ cleans 130 ∷ []) in
    should_flush_presence (pos 50) after "a" 149 ≡ (after, false)
unfolding Map.empty should_flush_presence lookup find
flush_once_example =
    flush_once "a" 100 149 50 120 Map.empty (flushes "b" 120 ∷ cleans 130 ∷ []) (omega arith)
      (refl, (refl, tt)) (omega arith) (omega arith) refl

-- A signature that is the claims and the expiry themselves.
abbrev test_jwt : Jwt (TokenClaims × ℕ)
test_jwt = record {
  sign = λ claims expiry. some (claims, expiry);
  verify = λ now t. if ltb now (t.1 * second) then some t.0 else none;
  verify-sign = λ claims expiry now t e lt. ground (arith, some-injective _ _ e);
}

abbrev test_store : LoginStore
test_store = record {
  authenticate_user =
      λ username password rpc. inr (record { id = pos 7; username = username; role = "client" });
  groups = all_enabled;
  upsert_device = λ client user group platform. none;
}

abbrev test_login : LoginRequest
test_login = record {
  username = "dev";
  password = "pw";
  client_id = " a ";
  group = "g";
  platform = "";
  max_in_flight = pos 5000;
}

abbrev test_state : State
test_state = record { hub = new_hub (pos 2) (pos 2); last_presence_flush = Map.empty }

abbrev test_config : Config
test_config = normalize (settings Map.empty)

test_agree : IsRegistry test_state.hub
test_agree = new_hub-IsRegistry (pos 2) (pos 2)

login_client-LogsIn_example :
    LogsIn test_config test_jwt test_store test_state test_login 100
      (login_client test_config test_jwt test_store test_state test_login 100)
login_client-LogsIn_example =
    login_client-LogsIn test_config test_jwt test_store test_state test_login 100 test_agree

abbrev test_claims : TokenClaims
test_claims = record {
  user_id = pos 7;
  username = "dev";
  role = "client";
  client_id = "a";
  group = "g";
  max_in_flight = pos 256;
}

submit_client_result-Submits_example :
    Submits all_enabled test_state test_claims bare_result 100
      (submit_client_result all_enabled (pos 50) test_state test_claims bare_result false 100)
submit_client_result-Submits_example =
    submit_client_result-Submits all_enabled (pos 50) test_state test_claims bare_result false 100
      test_agree

touched-Serves_example :
    Serves
      (touch_client_presence (pos 50) test_state (touch_of test_claims "xposed") false 100).hub
      "a"
      "g"
      (pos 7)
      "xposed"
      (normalize_max_in_flight test_state.hub (pos 256))
touched-Serves_example =
    touched-Serves (pos 50) test_state (touch_of test_claims "xposed") false 100 test_agree
      (λ e. cc) (λ e. cc)

abbrev complete_task : PersistTask
complete_task = record {
  kind = PersistTaskKind.complete_request;
  request_id = "r1";
  client_id = "a";
  group_name = "g";
  action_name = "echo";
  status = "success";
  http_code = pos 200;
  request_payload = none;
  response_payload = none;
  latency_ms = pos 3;
  error_message = "";
  requester_user_id = none;
  stat_time = 5;
}

abbrev call_tasks : List PersistTask
call_tasks =
    complete_task
    ∷ record complete_task { kind = PersistTaskKind.rpc_metric }
    ∷ record complete_task { kind = PersistTaskKind.device_metric }
    ∷ []

-- The statement for the metrics of the devices fails.
abbrev device_failure : Failures
device_failure = record all_well { device_fails = true }

handle_batch-Handles_example : Handles PersistTaskKind.rpc_metric device_failure call_tasks
handle_batch-Handles_example =
    handle_batch-Handles PersistTaskKind.rpc_metric device_failure call_tasks

work-Empties_example :
    ((work 3 all_well never call_tasks).1 ≡ [])
    × (applied PersistTaskKind.rpc_metric (work 3 all_well never call_tasks).0
        ≡ tasks_for PersistTaskKind.rpc_metric call_tasks)
work-Empties_example = work-Empties 3 PersistTaskKind.rpc_metric call_tasks (omega arith)
