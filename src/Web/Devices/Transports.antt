-- ===== src/Web/Devices/Transports.antt =====
-- internal/web/http.go and internal/web/client_ws.go: a result over HTTP and over a WebSocket, and what a
-- device is told of its limit.
use r0rpc.Prelude.{
  ℕ, List, ap, ◌≤◌, ◌≡◌, ◌≢◌, refl, sym, ◌∙◌, String, ℤ, pos, Bool, true, false, Option, none, some,
  ◌==◌, string_eq, ◌⊎◌, inl, inr, Bool-cases, arith,
}
use r0rpc.Prelude.Text.{trim_space}
use r0rpc.Config.{Config}
use r0rpc.Rpc.Job.{
  JobResult, HubError, no_online_client, preferred_client_down, client_queue_full, group_saturated,
  client_session_gone, result_client_mismatch, result_not_waiting, context_error,
}
use r0rpc.Rpc.Hub.Registry.{IsRegistry}
use r0rpc.App.Groups.{GroupFailure}
use r0rpc.App.Clients.{State, Jwt, Login, LoginRequest, LoginStore, platform_of, clamp_in_flight}
use r0rpc.App.Clients.Logins.{LogsIn, login_client-LogsIn, clamp_in_flight-range}
use r0rpc.Rpc.Hub.Sessions.{Serves}
use r0rpc.Web.PayloadCodec
use r0rpc.Web.PayloadCodec.{Decoded, normalize_client_job_result}
use r0rpc.App.Clients.Calls.{touch_of, touch_client_presence}
use r0rpc.Web.Frame.{Message}
use r0rpc.Web.Reader.{
  Session, Reply, ack_of, submit_decoded, on_result, Envelope, ReaderTurn, Read, replied,
  on_envelope, on_message, on_received,
}
use r0rpc.Web.Devices.{
  ResultReply, reply_submitted, submit_normalized, handle_client_result, LoginReply, reply_login,
  handle_client_login,
}

abbrev pub is_accepted : ResultReply → Bool
is_accepted ResultReply.accepted = true
is_accepted _ = false

abbrev pub is_ok_ack : Reply → Bool
is_ok_ack (Reply.result_ack ack) = ack.is_ok
is_ok_ack _ = false

-- The same state, and the same answer to the question whether the result was accepted.
abbrev pub Same : State × ResultReply → State × Reply → Type 0
Same (w, http) (w', ws) = (w ≡ w') × (is_accepted http ≡ is_ok_ack ws)

same_reply :
    (id : String) (e : GroupFailure ⊎ Option HubError)
    → is_accepted (reply_submitted e) ≡ (ack_of id e).is_ok
same_reply id (inl e) = refl
same_reply id (inr none) = refl
same_reply id (inr (some result_client_mismatch)) = refl
same_reply id (inr (some result_not_waiting)) = refl
same_reply id (inr (some no_online_client)) = refl
same_reply id (inr (some preferred_client_down)) = refl
same_reply id (inr (some client_queue_full)) = refl
same_reply id (inr (some group_saturated)) = refl
same_reply id (inr (some client_session_gone)) = refl
same_reply id (inr (some (context_error e))) = refl

module _ (s : Session) (w : State) (fails : Bool) (now : ℕ) where
  normalized-Same :
      (id : String) (d : Decoded JobResult)
      → Same (submit_normalized s w fails now d) (submit_decoded s w fails now id d)
  unfolding submit_normalized submit_decoded
  normalized-Same id (PayloadCodec.err e) = (refl, refl)
  normalized-Same id (PayloadCodec.ok r) = (refl, same_reply r.request_id _)

  -- What the two do with a result in one state, behind the touch of a WebSocket.
  handle_client_result-Same :
      (r : JobResult)
      → r.request_id ≢ ""
      → Same (handle_client_result s w fails now (some r)) (on_result s w fails now (some r))
  unfolding handle_client_result on_result
  handle_client_result-Same r named = elim (Bool-cases (r.request_id == "")) [
    | inl empty ↦ absurd (named ((string_eq.same_iff r.request_id "").0 empty))
    | inr other ↦ rw (other, handle_client_result) (normalized-Same r.request_id _)
  ]

-- An envelope with a result.
abbrev pub result_envelope : JobResult → Envelope
result_envelope r = record { kind = "result"; result = some r }

-- The state behind the touch of a message that was received.
abbrev pub touched_by : Session → State → ReaderTurn → State
touched_by s w t =
    touch_client_presence s.flush_interval w (touch_of s.claims "") t.touch_fails t.touched_at

-- What a turn of the reader must leave for a result: the loop goes on in the state that HTTP leaves, from the
-- touched one, with a reply that says what HTTP does.
abbrev pub Follows : Session → State → ReaderTurn → JobResult → (State → Read) → Read → Type 0
Follows s w t r rest got =
    let (w', http) =
      handle_client_result s (touched_by s w t) t.submit_touch_fails t.submitted_at (some r) in
    (reply : Reply) × (got ≡ replied reply (rest w')) × (is_accepted http ≡ is_ok_ack reply)

module _ (s : Session) (w : State) (t : ReaderTurn) (payload : List ℕ) (r : JobResult)
    (rest : State → Read) (reads : s.parse payload ≡ some (result_envelope r))
    (going : t.done ≡ false) (writes : t.write_fails ≡ false) where
  turn_of_result :
      let (w', reply) =
        on_result s (touched_by s w t) t.submit_touch_fails t.submitted_at (some r) in
      on_received s w t (some (Message.text payload)) rest ≡ replied reply (rest w')
  unfolding on_received on_message on_envelope
  turn_of_result = rw (going, reads, writes) refl

  -- A text with a result that names its request is handled over a WebSocket as HTTP handles the result, but
  -- in the state that the touch of the session leaves, which comes first: the loop goes on in the same
  -- state, and what it replies is an acknowledgement with ok exactly if HTTP answers by 200.
  pub on_received-Follows :
      r.request_id ≢ ""
      → Follows s w t r rest (on_received s w t (some (Message.text payload)) rest)
  on_received-Follows named =
      let touched = touched_by s w t in
      let (w_same, ok_same) =
        handle_client_result-Same s touched t.submit_touch_fails t.submitted_at r named in
      let (w', reply) = on_result s touched t.submit_touch_fails t.submitted_at (some r) in
      (reply, turn_of_result ∙ ap (λ x. replied reply (rest x)) (sym w_same), ok_same)

clamp_once : (cfg : Config) (m : ℕ) → 256 ≤ m → m ≤ 1024 → clamp_in_flight cfg (pos m) ≡ pos m
unfolding clamp_in_flight
clamp_once cfg m low high = ground arith

-- The limit is clamped by the handler and once more by `LoginClient`, which changes nothing.
clamp_twice :
    (cfg : Config) (n : ℤ) → clamp_in_flight cfg (clamp_in_flight cfg n) ≡ clamp_in_flight cfg n
clamp_twice cfg n =
    let (m, is, low, high) = clamp_in_flight-range cfg n in rw is (clamp_once cfg m low high)

-- A device that is welcomed has a session in the hub with the limit that it is told.
abbrev pub Welcomes : {Token : Type 0} → Option LoginRequest → State × LoginReply Token → Type 0
Welcomes (some r) (w, LoginReply.welcome token user group max) =
    (n : ℕ) × (max ≡ pos n)
    × Serves w.hub (trim_space r.client_id) (trim_space r.group) user.id (platform_of r.platform) n
Welcomes none (w, reply) = reply ≡ LoginReply.bad_request
Welcomes _ _ = Unit

module _ {Token : Type 0} (cfg : Config) (jwt : Jwt Token) (st : LoginStore) (w : State) (now : ℕ)
    (agree : IsRegistry w.hub) where
  reply_login-Welcomes :
      (r : LoginRequest) (login : Login Token)
      → LogsIn cfg jwt st w
          (record r { max_in_flight = clamp_in_flight cfg r.max_in_flight })
          now
          login
      → Welcomes (some r) (reply_login r (clamp_in_flight cfg r.max_in_flight) login)
  reply_login-Welcomes r (w', inl e) l = tt
  reply_login-Welcomes r (w', inr (token, user)) l =
      (l.max, sym (clamp_twice cfg r.max_in_flight) ∙ l.granted, l.serves)

  -- In a hub whose maps agree, a device is welcomed only with a session in the hub whose limit of calls in
  -- flight is the one that the answer names.
  pub handle_client_login-Welcomes :
      (body : Option LoginRequest) → Welcomes body (handle_client_login cfg jwt st w body now)
  unfolding handle_client_login
  handle_client_login-Welcomes none = refl
  handle_client_login-Welcomes (some r) = reply_login-Welcomes r _ (
      login_client-LogsIn cfg jwt st w
        (record r { max_in_flight = clamp_in_flight cfg r.max_in_flight }) now agree)
