-- ===== src/Web/HandlerTests.antt =====
-- internal/web/http.go: the theorems at work on a call, on tokens and on the queue of a group.
use r0rpc.Prelude.{ℤ, String, ◌⊎◌, inr, none, pos, ◌≡◌, refl, string_eq, true, [], ◌∷◌}
use r0rpc.Prelude.Map
use r0rpc.Prelude.Map.{lookup, find}
use r0rpc.Rpc.Job.{JobResult}
use r0rpc.App.Groups.{GroupRow, ensure_group_active}
use r0rpc.Rpc.Job
use r0rpc.Rpc.Job.{Job}
use r0rpc.App.Invoke.{Call, Invoked}
use r0rpc.App.Clients.{TokenClaims}
use r0rpc.Web.Calls.{handle_invoke}
use r0rpc.Web.Calls.Recorded
use r0rpc.Web.Login.{Granted, granted}
use r0rpc.Web.Tokens.{
  CookieRead, Credentials, verify_client_ws_claims, require_role, verify_token_from_request, behind,
}
use r0rpc.Web.Tokens.Roles.{
  Admits, QueriesOrPresents, Guards, verify_client_ws_claims-Admits, require_role-Guards,
}
use r0rpc.Prelude.Text.{trim_space}
use r0rpc.Web.Monitor.{Device, handle_rpc_client_queue}
use r0rpc.Web.Monitor.Queue.{is_panic, handle_rpc_client_queue-panics}

abbrev enabled_groups : String → GroupRow
enabled_groups name = GroupRow.enabled true

abbrev device_claims : TokenClaims
device_claims = record {
  user_id = pos 7;
  username = "dev";
  role = "client";
  client_id = "a";
  group = "g";
  max_in_flight = pos 256;
}

abbrev test_call : Call
test_call = record {
  request_id = "r1";
  group = " g ";
  action = "echo";
  requester = none;
  request = record { client_id = ""; payload = []; timeout = pos 5 };
  created_at = 100;
  finished_at = 200;
}

abbrev test_invoke : Job → String → ℤ → Invoked
test_invoke job preferred timeout = record {
  outcome = Job.err (Job.context_error Job.canceled);
  client = "a";
}

abbrev admin_login : Granted
admin_login = granted (record { user_id = pos 1; username = "root"; role = "admin" })

handle_invoke-Answers_example :
    Recorded.Answers enabled_groups test_call
      (handle_invoke enabled_groups (pos 25) test_invoke test_call true admin_login)
handle_invoke-Answers_example =
    Recorded.handle_invoke-Answers enabled_groups (pos 25) test_invoke test_call true admin_login

abbrev test_credentials : Credentials
test_credentials = record { query_token = "t"; header = ""; cookie = CookieRead.no_cookie }

abbrev test_parse : String → String ⊎ TokenClaims
test_parse token = inr device_claims

verify_client_ws_claims-Admits_example :
    Admits test_parse test_credentials
      (QueriesOrPresents test_credentials)
      (λ claims. claims.role ≡ "client")
      (verify_client_ws_claims test_parse test_credentials)
verify_client_ws_claims-Admits_example = verify_client_ws_claims-Admits test_parse test_credentials

-- A token in the header, and no other.
abbrev header_credentials : Credentials
header_credentials = record {
  query_token = "";
  header = "Bearer t1";
  cookie = CookieRead.no_cookie;
}

require_role-Guards_example :
    Guards test_parse header_credentials "client"
      (require_role test_parse "client" header_credentials)
require_role-Guards_example = require_role-Guards test_parse header_credentials "client"

-- The request of the example is let in.
lets_in : require_role test_parse "client" header_credentials ≡ inr device_claims
unfolding require_role verify_token_from_request behind trim_space
lets_in = refl

abbrev test_device : Device
test_device = record {
  client_id = "a";
  group = "g";
  platform = "xposed";
  status = "online";
  last_seen_at = 5;
  last_ip = "";
}

handle_rpc_client_queue-panics_example :
    is_panic (
      handle_rpc_client_queue
        (λ s. s)
        enabled_groups
        Map.empty
        Map.empty
        "g"
        "offline"
        (inr (test_device ∷ [])))
    ≡ true
unfolding Map.empty lookup find trim_space ensure_group_active
handle_rpc_client_queue-panics_example =
    handle_rpc_client_queue-panics (λ s. s) refl refl Map.empty Map.empty enabled_groups "g"
      "offline" (inr (test_device ∷ []))
