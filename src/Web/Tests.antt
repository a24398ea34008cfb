-- ===== src/Web/Tests.antt =====
-- internal/web: the theorems at work on small frames, tables and connections.
use r0rpc.Prelude.{
  ℕ, ◌*◌, inr, ltb, some-injective, if◌then◌else◌, none, pos, ◌≡◌, refl, string_eq, true, false,
  some, [], ◌∷◌, ◌++◌, arith,
}
use r0rpc.Prelude.Map
use r0rpc.Prelude.Map.{lookup, find}
use r0rpc.Web.Frame.{got, Message, ws_message_text, write_frame, read_message}
use r0rpc.Web.Frame.Reading.{Ends, read_message-Ends}
use r0rpc.Web.Frame.Conversation.{
  ClientFrame, IsProper, bytes_of, pings, pongs, read_message-write_frame, read_message-client,
}
use r0rpc.Rpc.Job.{JobResult}
use r0rpc.Rpc.State.{new_hub}
use r0rpc.Rpc.Hub.Registration.{new_hub-IsRegistry}
use r0rpc.Rpc.Goroutine.Conduct.{Conducts}
use r0rpc.Rpc.Goroutine.Places.{Keeps, Anywhere}
use r0rpc.Rpc.Poll.Slots.{none_of}
use r0rpc.App.Groups.{GroupRow}
use r0rpc.App.Clients.{State}
use r0rpc.Web.PayloadCodec.{Codec}
use r0rpc.Web.Writer.{WriterTurn, writer_loop}
use r0rpc.Web.Writer.Accounts.{slots_at, writer_loop-Conducts}
use r0rpc.Web.Reader.{Envelope, Session, on_envelope, ReaderTurn, reader_loop}
use r0rpc.Web.Reader.Answers.{Answers, Serves, texts, on_envelope-Answers, reader_loop-Serves}
use r0rpc.Config.{Config, settings, normalize}
use r0rpc.App.Presence.{second}
use r0rpc.App.Clients.{TokenClaims, Jwt, LoginStore, LoginRequest}
use r0rpc.Web.Reader.{on_received, ReaderEnd}
use r0rpc.Web.Devices.{handle_client_login}
use r0rpc.Web.Devices.Transports.{
  Follows, on_received-Follows, Welcomes, handle_client_login-Welcomes,
}
use r0rpc.Web.Sessions.{new_client_ws_sessions, clear_if_current, run_ops, replaces, clears}
use r0rpc.Web.Login.{AuthRequest, Authenticated, authenticate_invoke_request}
use r0rpc.Web.Login.Admins.{IsAdminOnly, GrantsAdmins, authenticate-GrantsAdmins}
use r0rpc.Web.Sessions.Cleanup.{first_connect, second_connect, late_cleanup}

read_message-write_frame_example :
    read_message (129 ∷ 2 ∷ 104 ∷ 105 ∷ 7 ∷ [])
    ≡ ([], some (got (Message.text (104 ∷ 105 ∷ [])) (7 ∷ [])))
unfolding write_frame
read_message-write_frame_example =
    read_message-write_frame (104 ∷ 105 ∷ []) (7 ∷ []) (129 ∷ 2 ∷ 104 ∷ 105 ∷ []) refl

abbrev hello : ClientFrame
hello = record { key = 1 ∷ 2 ∷ 3 ∷ 4 ∷ []; payload = 104 ∷ 105 ∷ [] }

hello-IsProper : IsProper hello
hello-IsProper = record {
  key_length = refl;
  key_bytes = (omega arith, (omega arith, (omega arith, (omega arith, tt))));
  payload_bytes = (omega arith, (omega arith, tt));
  fits = omega arith;
}

read_message-client_example :
    read_message (pings (hello ∷ []) ++ (bytes_of ws_message_text hello ++ []))
    ≡ (pongs (hello ∷ []), some (got (Message.text (104 ∷ 105 ∷ [])) []))
read_message-client_example =
    read_message-client (hello ∷ []) hello [] (hello-IsProper, tt) hello-IsProper

read_message-Ends_example : Ends 3 (read_message (137 ∷ 5 ∷ 1 ∷ []))
read_message-Ends_example = read_message-Ends (137 ∷ 5 ∷ 1 ∷ [])

late_cleanup_example :
    let m = new_client_ws_sessions in
    let last = run_ops (second_connect m "a" 10 (replaces "b" 11 ∷ []) 12).0 (clears "b" 2 ∷ []) in
    (clear_if_current last "a" (first_connect m "a" 10).1 ≡ (last, false))
    × (lookup "a" last.items
        ≡ some
            (record { conn_id = (second_connect m "a" 10 (replaces "b" 11 ∷ []) 12).1; conn = 12 }))
unfolding new_client_ws_sessions
late_cleanup_example =
    late_cleanup new_client_ws_sessions "a" 10 12 (replaces "b" 11 ∷ []) (clears "b" 2 ∷ [])
      (omega arith) (refl, tt)

abbrev root_login : AuthRequest
root_login = record { header = ""; token = none; username = "root"; password = "pw" }

abbrev root_accepted : Authenticated
root_accepted = Authenticated.user (record { user_id = pos 1; username = "root"; role = "admin" })

empty-IsAdminOnly : IsAdminOnly Map.empty
unfolding Map.empty lookup find
empty-IsAdminOnly = record { admins = λ k. tt }

authenticate-GrantsAdmins_example :
    GrantsAdmins
      (authenticate_invoke_request (λ user password. password) Map.empty root_login root_accepted 5)
authenticate-GrantsAdmins_example =
    authenticate-GrantsAdmins (λ user password. password) Map.empty root_login root_accepted 5
      empty-IsAdminOnly

-- A turn of the loop in which a job is popped and its write fails.
abbrev failing_turn : WriterTurn
failing_turn = record {
  done_first = false;
  before_slot = [];
  done_on_error = false;
  before_look = [];
  looked_at = 20;
  before_job = [];
  done_with_job = false;
  write_succeeds = false;
  before_release = [];
  before_requeue = [];
  before_push = [];
  requeued_at = 30;
}

writer_loop-Conducts_example :
    Conducts "a" 0 [] slots_at none_of (writer_loop "a" (failing_turn ∷ []))
    × Keeps none Anywhere (writer_loop "a" (failing_turn ∷ []))
writer_loop-Conducts_example = writer_loop-Conducts "a" (failing_turn ∷ [])

-- Formats that leave everything as it is, and a device whose texts are all results for the call "r1".
abbrev test_codec : Codec
test_codec = record {
  json_string = λ raw. some "";
  base64 = λ text. some [];
  gzip_opens = λ bytes. true;
  gzip_content = λ bytes. some bytes;
  trim_bytes = λ bytes. bytes;
  json_valid = λ bytes. true;
}

abbrev test_result : JobResult
test_result = record {
  request_id = "r1";
  status = "";
  http_code = pos 200;
  payload = [];
  payload_encoding = "gzip+base64+json";
  payload_raw_size = pos 0;
  payload_compressed_size = pos 0;
  error = "";
  latency_ms = pos 3;
}

abbrev test_envelope : Envelope
test_envelope = record { kind = "result"; result = some test_result }

abbrev test_session : Session
test_session = record {
  groups = λ name. GroupRow.enabled true;
  flush_interval = pos 50;
  claims = record {
    user_id = pos 7;
    username = "dev";
    role = "client";
    client_id = "a";
    group = "g";
    max_in_flight = pos 256;
  };
  codec = test_codec;
  parse = λ bytes. some test_envelope;
}

abbrev test_state : State
test_state = record { hub = new_hub (pos 2) (pos 2); last_presence_flush = Map.empty }

on_envelope-Answers_example :
    Answers test_session test_state 100
      (some test_envelope)
      (on_envelope test_session test_state false 100 (some test_envelope))
on_envelope-Answers_example =
    on_envelope-Answers test_session test_state false 100 (some test_envelope)
      (new_hub-IsRegistry (pos 2) (pos 2))

abbrev text_turn : ReaderTurn
text_turn = record {
  received = some (Message.text (123 ∷ 125 ∷ []));
  done = false;
  touched_at = 90;
  touch_fails = true;
  submitted_at = 100;
  submit_touch_fails = false;
  write_fails = false;
}

reader_loop-Serves_example :
    Serves 2 (reader_loop test_session test_state (text_turn ∷ text_turn ∷ []))
unfolding texts
reader_loop-Serves_example =
    reader_loop-Serves test_session test_state (text_turn ∷ text_turn ∷ []) (refl, (refl, tt))
      (new_hub-IsRegistry (pos 2) (pos 2))

on_received-Follows_example :
    Follows test_session test_state text_turn test_result
      (λ w. record { state = w; replies = []; ended = ReaderEnd.running })
      (on_received test_session test_state text_turn
        (some (Message.text (123 ∷ 125 ∷ [])))
        λ w. record { state = w; replies = []; ended = ReaderEnd.running })
on_received-Follows_example =
    on_received-Follows test_session test_state text_turn (123 ∷ 125 ∷ []) test_result
      (λ w. record { state = w; replies = []; ended = ReaderEnd.running }) refl refl refl (λ e. cc)

-- A signature that is the claims and the expiry themselves, and a store that knows every user.
abbrev signing_jwt : Jwt (TokenClaims × ℕ)
signing_jwt = record {
  sign = λ claims expiry. some (claims, expiry);
  verify = λ now t. if ltb now (t.1 * second) then some t.0 else none;
  verify-sign = λ claims expiry now t e lt. ground (arith, some-injective _ _ e);
}

abbrev test_store : LoginStore
test_store = record {
  authenticate_user =
      λ username password rpc. inr (record { id = pos 7; username = username; role = "client" });
  groups = λ name. GroupRow.enabled true;
  upsert_device = λ client user group platform. none;
}

abbrev test_login : LoginRequest
test_login = record {
  username = "dev";
  password = "pw";
  client_id = " a ";
  group = "g";
  platform = "";
  max_in_flight = pos 5000;
}

abbrev test_config : Config
test_config = normalize (settings Map.empty)

handle_client_login-Welcomes_example :
    Welcomes
      (some test_login)
      (handle_client_login test_config signing_jwt test_store test_state (some test_login) 100)
handle_client_login-Welcomes_example =
    handle_client_login-Welcomes test_config signing_jwt test_store test_state 100
      (new_hub-IsRegistry (pos 2) (pos 2)) (some test_login)
