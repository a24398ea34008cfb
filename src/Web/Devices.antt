-- ===== src/Web/Devices.antt =====
-- internal/web/http.go: the handlers of a device that does not use a WebSocket, and of its login.
pub mod Transports
use r0rpc.Prelude.{
  ℕ, ◌*◌, ◌+◌, String, ℤ, pos, not_positive, lt_int, Bool, true, false, ◌||◌, Option, none, some,
  ◌==◌, string_eq, ◌⊎◌, inl, inr, if◌then◌else◌,
}
use r0rpc.Config.{Config}
use r0rpc.Rpc.Job.{Job, JobResult, HubError, result_client_mismatch}
use r0rpc.Rpc.Hub.{unregister}
use r0rpc.Rpc.Poll.{Polled, PollSchedule}
use r0rpc.App.Groups.{GroupRow, GroupFailure}
use r0rpc.App.Clients.{
  State, TokenClaims, Account, Jwt, LoginFailure, Login, LoginRequest, LoginStore, clamp_in_flight,
  login_client,
}
use r0rpc.App.Clients.Calls.{poll_client, submit_client_result}
use r0rpc.Web.PayloadCodec.{CodecError, Decoded, ok, err, normalize_client_job_result}
use r0rpc.Web.Reader.{Session, with_status}

unfoldable pub group_error_http_status : GroupFailure → Option ℤ
group_error_http_status (GroupFailure.group_not_found g) = some (pos 404)
group_error_http_status (GroupFailure.group_disabled g) = some (pos 403)
group_error_http_status e = none

-- The status of a failure of the group, or the one for other errors.
abbrev pub status_or : ℤ → GroupFailure → ℤ
status_or other e = elim (group_error_http_status e) [ some status ↦ status | none ↦ other ]

pub data ResultError : Type 0 where
  bad_json request_id_required : ResultError
  codec_failed : CodecError → ResultError
  group_failed : GroupFailure → ResultError
  hub_failed : HubError → ResultError

pub data ResultReply : Type 0 where
  accepted : ResultReply
  refused : ℤ → ResultError → ResultReply

abbrev pub reply_submitted : GroupFailure ⊎ Option HubError → ResultReply
reply_submitted (inl e) = ResultReply.refused (status_or (pos 500) e) (ResultError.group_failed e)
reply_submitted (inr none) = ResultReply.accepted
reply_submitted (inr (some result_client_mismatch)) =
    ResultReply.refused (pos 409) (ResultError.hub_failed result_client_mismatch)
reply_submitted (inr (some e)) = ResultReply.refused (pos 500) (ResultError.hub_failed e)

unfoldable pub submit_normalized :
    Session → State → Bool → ℕ → Decoded JobResult → State × ResultReply
submit_normalized s w touch_fails now (err e) =
    (w, ResultReply.refused (pos 400) (ResultError.codec_failed e))
submit_normalized s w touch_fails now (ok r) =
    let (w', returned) =
      submit_client_result s.groups s.flush_interval w s.claims r touch_fails now in
    (w', reply_submitted returned)

-- The body of the request, or `none` if it is not JSON.
unfoldable pub handle_client_result :
    Session → State → Bool → ℕ → Option JobResult → State × ResultReply
unfolding submit_normalized
handle_client_result s w touch_fails now none =
    (w, ResultReply.refused (pos 400) ResultError.bad_json)
handle_client_result s w touch_fails now (some r) =
    if r.request_id == ""
    then (w, ResultReply.refused (pos 400) ResultError.request_id_required)
    else submit_normalized s w touch_fails now (normalize_client_job_result s.codec (with_status r))

-- What the client polls for: its wait in seconds, and the limit of the whole request.
unfoldable pub wait_seconds : ℤ → ℤ
wait_seconds n = if not_positive n || lt_int (pos 55) n then pos 20 else n

pub data PollReply : Type 0 where
  job_reply : Option Job → PollReply
  refused : ℤ → GroupFailure ⊎ HubError → PollReply
  waiting : PollReply

abbrev pub reply_polled : GroupFailure ⊎ Polled → PollReply
reply_polled (inl e) = PollReply.refused (status_or (pos 400) e) (inl e)
reply_polled (inr (Polled.job j)) = PollReply.job_reply (some j)
reply_polled (inr Polled.nothing) = PollReply.job_reply none
reply_polled (inr (Polled.failed e)) = PollReply.refused (pos 400) (inr e)
reply_polled (inr _) = PollReply.waiting

-- The wait is positive, so that there is a timer.
unfoldable pub handle_client_poll : Session → State → Bool → PollSchedule → ℕ → State × PollReply
handle_client_poll s w touch_fails schedule now =
    let (w', polled) =
      poll_client s.groups s.flush_interval w s.claims touch_fails true schedule now in
    (w', reply_polled polled)

-- The write of the device's state in the store is best effort.
unfoldable pub handle_client_logout : Session → State → State
handle_client_logout s w = record w { hub = unregister w.hub s.claims.client_id }

-- What a device is told on its login: the group as it sent it.
pub data LoginReply (Token : Type 0) : Type 0 where
  bad_request : LoginReply Token
  refused : ℤ → LoginFailure → LoginReply Token
  welcome : Token → Account → String → ℤ → LoginReply Token

abbrev login_status : LoginFailure → ℤ
login_status (LoginFailure.group_failure e) = status_or (pos 401) e
login_status e = pos 401

abbrev pub reply_login :
    {Token : Type 0} → LoginRequest → ℤ → Login Token → State × LoginReply Token
reply_login r max (w, inl e) = (w, LoginReply.refused (login_status e) e)
reply_login r max (w, inr (token, user)) = (w, LoginReply.welcome token user r.group max)

unfoldable pub handle_client_login :
    {Token : Type 0}
    → Config
    → Jwt Token
    → LoginStore
    → State
    → Option LoginRequest
    → ℕ
    → State × LoginReply Token
unfolding clamp_in_flight
handle_client_login cfg jwt st w none now = (w, LoginReply.bad_request)
handle_client_login cfg jwt st w (some r) now =
    let max = clamp_in_flight cfg r.max_in_flight in
    reply_login r max (login_client cfg jwt st w (record r { max_in_flight = max }) now)
