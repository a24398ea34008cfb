-- ===== src/Store/Tests.antt =====
-- internal/store/store.go: the theorems at work on small tables.
use r0rpc.Prelude.{
  ℕ, inl, inr, ◌+◌, String, pos, true, false, none, some, some-injective, [], ◌∷◌, ◌≡◌, refl, sym,
  ◌==◌, string_eq,
}
use r0rpc.Prelude.Map
use r0rpc.Prelude.Map.{lookup, find}
use r0rpc.Store.Users.{
  Bcrypt, Users, NewUser, user_of, create_user, authenticate_user, run_ops, creates, sets_status,
}
use r0rpc.Store.Users.Unique.{IsUnique, Continues, run_ops-Continues}
use r0rpc.Store.Users.Logins.{Admits, created_user-Admits}
use r0rpc.Prelude.Text.{trim_space}
use r0rpc.Store.Groups.{
  CreateGroupBody, GroupReply, normalize_group_name, byte_length, has_reserved,
}
use r0rpc.Store.Groups.History
use r0rpc.Store.Groups.History.{patches, run_group_ops, history, Shows, answer, run_group_ops-Shows}
use r0rpc.Store.Requests.{Item, create_rpc_request, complete_rpc_request, complete_rpc_requests}
use r0rpc.Store.Requests.Order.{create_or_complete_first}
use r0rpc.Store.Requests.Statements.{complete_singly, complete_rpc_requests-singly}

-- A hash that is the password itself.
abbrev test_bcrypt : Bcrypt
test_bcrypt = record {
  generate = λ p. some p;
  compares = λ h p. h == p;
  compares-generate = λ p h e. (string_eq.same_iff h p).1 (sym (some-injective p h e));
}

abbrev same_key : String → String
same_key name = name

abbrev no_users : Users
no_users = record { rows = Map.empty; next_id = 1 }

abbrev device_user : NewUser
device_user = record {
  username = "dev";
  password = "pw";
  role = "client";
  enabled = true;
  can_rpc = false;
  notes = "";
}

abbrev other_user : NewUser
other_user = record {
  username = "root";
  password = "secret";
  role = "admin";
  enabled = true;
  can_rpc = true;
  notes = "";
}

no_users-IsUnique : IsUnique same_key no_users
unfolding Map.empty lookup find
no_users-IsUnique = record {
  named = λ k u e. cc;
  given = λ k u e. cc;
  distinct = λ k j u v e f same. cc;
}

one_user-IsUnique :
    IsUnique same_key (run_ops same_key test_bcrypt no_users (creates other_user ∷ []))
one_user-IsUnique =
    (run_ops-Continues same_key test_bcrypt no_users (creates other_user ∷ [])
      no_users-IsUnique).unique

run_ops-Continues_example :
    Continues same_key test_bcrypt
      (run_ops same_key test_bcrypt no_users (creates other_user ∷ []))
      (run_ops same_key test_bcrypt
        (run_ops same_key test_bcrypt no_users (creates other_user ∷ []))
        (creates device_user ∷ creates other_user ∷ sets_status 1 false true ∷ []))
run_ops-Continues_example =
    run_ops-Continues same_key test_bcrypt
      (run_ops same_key test_bcrypt no_users (creates other_user ∷ []))
      (creates device_user ∷ creates other_user ∷ sets_status 1 false true ∷ []) one_user-IsUnique

created_user-Admits_example :
    Admits device_user
      (user_of device_user "pw" 1)
      true
      (authenticate_user same_key test_bcrypt
        (run_ops same_key test_bcrypt
          (create_user same_key test_bcrypt no_users device_user).0
          (creates other_user ∷ sets_status 2 false false ∷ []))
        "dev"
        "pw"
        true
        9).1
unfolding Map.empty lookup find
created_user-Admits_example =
    created_user-Admits same_key test_bcrypt no_users device_user "pw"
      (creates other_user ∷ sets_status 2 false false ∷ []) true 9 refl refl (refl, (refl, tt))

abbrev test_item : Item
test_item = record {
  request_id = "r1";
  group = "g";
  action = "echo";
  client_id = "a";
  requester = some (pos 7);
  request_payload = "{}";
  response_payload = "";
  status = "pending";
  http_code = pos 200;
  latency_ms = pos 0;
  error_message = "";
}

abbrev done_item : Item
done_item = record test_item { status = "success"; response_payload = "{}"; latency_ms = pos 3 }

-- A creation that does not know the client yet.
abbrev early_item : Item
early_item = record test_item { client_id = "" }

create_or_complete_first_example :
    lookup "r1" (complete_rpc_request 50 (create_rpc_request Map.empty early_item) done_item)
    ≡ lookup "r1" (create_rpc_request (complete_rpc_request 50 Map.empty done_item) early_item)
create_or_complete_first_example =
    create_or_complete_first Map.empty early_item done_item 50 "r1" (record {
      id = refl;
      group = inl refl;
      action = inl refl;
      client = inr (inl refl);
      requester = inl refl;
      payload = inl refl;
    })

abbrev statement_times : ℕ → ℕ
statement_times j = 50 + j

complete_rpc_requests-singly_example :
    complete_rpc_requests statement_times Map.empty (early_item ∷ done_item ∷ [])
    ≡ complete_singly statement_times 0 128 Map.empty (early_item ∷ done_item ∷ [])
complete_rpc_requests-singly_example =
    complete_rpc_requests-singly statement_times Map.empty (early_item ∷ done_item ∷ [])

abbrev new_group : CreateGroupBody
new_group = record { name = " g "; group = ""; enabled = none; notes = "" }

run_group_ops-Shows_example :
    Shows same_key
      (run_group_ops same_key Map.empty
        (History.creates (some new_group) ∷ patches "g" (some false) ∷ []))
      "g "
      (history same_key
        (trim_space "g ")
        none
        (History.creates (some new_group) ∷ patches "g" (some false) ∷ []))
run_group_ops-Shows_example =
    run_group_ops-Shows same_key (History.creates (some new_group) ∷ patches "g" (some false) ∷ [])
      "g "

-- A group that is enabled cannot be enabled again.
enabled_again :
    answer same_key "g" true (history same_key "g" none (History.creates (some new_group) ∷ []))
    ≡ GroupReply.not_found "g"
unfolding normalize_group_name byte_length has_reserved trim_space
enabled_again = refl
