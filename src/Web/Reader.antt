-- ===== src/Web/Reader.antt =====
-- internal/web/client_ws.go, `clientWSReaderLoop`: the messages of a device. What the connection does and the
-- times are in the schedule of a turn; the JSON of an envelope is read by an argument.
pub mod Answers
use r0rpc.Prelude.{
  ℕ, ◌*◌, String, ℤ, pos, not_positive, times, Bool, true, false, Option, none, some, List, [], ◌∷◌,
  ◌++◌, ◌==◌, string_eq, ◌⊎◌, inl, inr, if◌then◌else◌,
}
use r0rpc.Prelude.Text.{trim_space}
use r0rpc.Config.{Config}
use r0rpc.Rpc.Job.{JobResult, HubError, result_client_mismatch}
use r0rpc.App.Groups.{GroupRow, GroupFailure}
use r0rpc.App.Presence.{second, device_offline_grace}
use r0rpc.App.Clients.{State, TokenClaims}
use r0rpc.App.Clients.Calls.{touch_of, touch_client_presence, submit_client_result}
use r0rpc.Web.Frame.{Message}
use r0rpc.Web.PayloadCodec.{Codec, CodecError, Decoded, ok, err, normalize_client_job_result}

-- The fields of `wsEnvelope` that the server reads.
pub record Envelope : Type 0 where
  pub kind : String
  pub result : Option JobResult

-- The text of an error in a message.
pub data ReplyError : Type 0 where
  no_error invalid_json_payload unsupported_message_type result_payload_required : ReplyError
  codec_error : CodecError → ReplyError
  group_error : GroupFailure → ReplyError
  hub_error : HubError → ReplyError

pub record ResultAck : Type 0 where
  pub request_id : String
  pub is_ok : Bool
  pub state : String
  pub error : ReplyError

-- The messages that the loop sends.
pub data Reply : Type 0 where
  heartbeat_ack : Reply
  result_ack : ResultAck → Reply
  error_message : ReplyError → Reply

unfoldable pub client_ws_ping_interval : Config → ℤ
client_ws_ping_interval cfg =
    times
      (if not_positive cfg.heartbeat_interval_seconds
        then pos 5
        else cfg.heartbeat_interval_seconds)
      second

-- What the handler of one message knows.
pub record Session : Type 0 where
  pub groups : String → GroupRow
  pub flush_interval : ℤ
  pub claims : TokenClaims
  pub codec : Codec
  pub parse : List ℕ → Option Envelope

-- The state and the error of an acknowledgement, by what `SubmitClientResult` returns.
abbrev pub ack_of : String → GroupFailure ⊎ Option HubError → ResultAck
ack_of id (inl e) = record {
  request_id = id;
  is_ok = false;
  state = "error";
  error = ReplyError.group_error e;
}
ack_of id (inr none) = record {
  request_id = id;
  is_ok = true;
  state = "accepted";
  error = ReplyError.no_error;
}
ack_of id (inr (some result_client_mismatch)) = record {
  request_id = id;
  is_ok = false;
  state = "rejected";
  error = ReplyError.hub_error result_client_mismatch;
}
ack_of id (inr (some e)) = record {
  request_id = id;
  is_ok = false;
  state = "error";
  error = ReplyError.hub_error e;
}

-- `if strings.TrimSpace(Status) == "" { Status = "success" }`
abbrev pub with_status : JobResult → JobResult
with_status r = record r { status = if trim_space r.status == "" then "success" else r.status }

unfoldable pub submit_decoded :
    Session → State → Bool → ℕ → String → Decoded JobResult → State × Reply
submit_decoded s w touch_fails now id (err e) = (
  w,
  Reply.result_ack (record {
    request_id = id;
    is_ok = false;
    state = "rejected";
    error = ReplyError.codec_error e;
  }),
)
submit_decoded s w touch_fails now id (ok r) =
    let (w', returned) =
      submit_client_result s.groups s.flush_interval w s.claims r touch_fails now in
    (w', Reply.result_ack (ack_of r.request_id returned))

unfoldable pub on_result : Session → State → Bool → ℕ → Option JobResult → State × Reply
unfolding submit_decoded
on_result s w touch_fails now none = (
  w,
  Reply.result_ack (record {
    request_id = "";
    is_ok = false;
    state = "";
    error = ReplyError.result_payload_required;
  }),
)
on_result s w touch_fails now (some r) =
    submit_decoded s w touch_fails now r.request_id
      (normalize_client_job_result s.codec (with_status r))

-- The switch on the type of an envelope, or the answer to a text that is none.
unfoldable pub on_envelope : Session → State → Bool → ℕ → Option Envelope → State × Reply
unfolding on_result
on_envelope s w touch_fails now none = (w, Reply.error_message ReplyError.invalid_json_payload)
on_envelope s w touch_fails now (some e) =
    if e.kind == "heartbeat"
    then (w, Reply.heartbeat_ack)
    else if e.kind == "result"
    then on_result s w touch_fails now e.result
    else (w, Reply.error_message ReplyError.unsupported_message_type)

-- What the connection does in a turn: `received` is `none` if the deadline or the read fails.
pub record ReaderTurn : Type 0 where
  pub received : Option Message
  pub done : Bool
  pub touched_at : ℕ
  pub touch_fails : Bool
  pub submitted_at : ℕ
  pub submit_touch_fails : Bool
  pub write_fails : Bool

pub data ReaderEnd : Type 0 where
  stopped read_failed write_failed running : ReaderEnd

pub record Read : Type 0 where
  pub state : State
  pub replies : List Reply
  pub ended : ReaderEnd

-- A failed write of the answer to a text that is no envelope is ignored.
abbrev must_write : Option Envelope → Bool
must_write none = false
must_write (some e) = true

-- A reply, and the loop from there on.
abbrev pub replied : Reply → Read → Read
replied reply r = record r { replies = reply ∷ r.replies }

-- The loop from its next turn on is an argument, as a function of the state.
unfoldable pub on_message : Session → State → ReaderTurn → Message → (State → Read) → Read
unfolding on_envelope
on_message s w t (Message.pong payload) rest = rest w
on_message s w t (Message.text payload) rest =
    let envelope = s.parse payload in
    let (w', reply) = on_envelope s w t.submit_touch_fails t.submitted_at envelope in
    let more = rest w' in
    if t.write_fails
    then (if must_write envelope
        then record { state = w'; replies = []; ended = ReaderEnd.write_failed }
        else more)
    else replied reply more

unfoldable pub on_received : Session → State → ReaderTurn → Option Message → (State → Read) → Read
unfolding on_message touch_client_presence
on_received s w t none rest = record { state = w; replies = []; ended = ReaderEnd.read_failed }
on_received s w t (some message) rest =
    let touched =
      touch_client_presence s.flush_interval w (touch_of s.claims "") t.touch_fails t.touched_at in
    let more = on_message s touched t message rest in
    if t.done then record { state = w; replies = []; ended = ReaderEnd.stopped } else more

unfoldable pub reader_loop : Session → State → List ReaderTurn → Read
unfolding on_received
reader_loop s w [] = record { state = w; replies = []; ended = ReaderEnd.running }
reader_loop s w (t ∷ turns) = on_received s w t t.received (λ k. reader_loop s k turns)
