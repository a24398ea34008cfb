-- ===== src/Web/Reader/Answers.antt =====
-- internal/web/client_ws.go, `clientWSReaderLoop`: every text of a device is answered by one message, which
-- says what became of it.
use r0rpc.Prelude.{
  ℕ, ◌+◌, ◌≡◌, refl, ap, String, Bool, true, false, not, ◌&&◌, Option, none, some, List, [], ◌∷◌,
  ◌==◌, string_eq, ◌⊎◌, inl, inr, if◌then◌else◌, AllOf, arith, Bool-cases, length,
}
use r0rpc.Rpc.Job.{
  JobResult, HubError, Result, ok, err, context_error, result_client_mismatch, result_not_waiting,
  no_online_client, preferred_client_down, client_queue_full, group_saturated, client_session_gone,
}
use r0rpc.Rpc.Hub.Registry.{IsRegistry}
use r0rpc.Rpc.Results.{SubmitOutcome}
use r0rpc.Rpc.Results.Delivery.{phase, answer}
use r0rpc.App.Groups.{GroupFailure, ensure_group_active}
use r0rpc.App.Clients.{State}
use r0rpc.App.Clients.Calls.{touch_of, submit_client_result, error_of}
use r0rpc.App.Clients.Presence.{Submits, submit_client_result-Submits, touched-IsRegistry}
use r0rpc.Web.Frame.{Message}
use r0rpc.Web.PayloadCodec
use r0rpc.Web.PayloadCodec.{Codec, CodecError, Decoded, normalize_client_job_result}
use r0rpc.Web.Reader.{
  Envelope, ReplyError, ResultAck, Reply, Session, ack_of, with_status, submit_decoded, on_result,
  on_envelope, ReaderTurn, ReaderEnd, Read, on_message, on_received, reader_loop,
}

abbrev refusal : String → String → ReplyError → ResultAck
refusal id state e = record { request_id = id; is_ok = false; state = state; error = e }

-- The acknowledgement of a result that could be read, by the device's group and by what the hub answers.
abbrev pub ack_for : String → Option GroupFailure → Result SubmitOutcome → ResultAck
ack_for id (some e) answered = refusal id "error" (ReplyError.group_error e)
ack_for id none (ok outcome) = record {
  request_id = id;
  is_ok = true;
  state = "accepted";
  error = ReplyError.no_error;
}
ack_for id none (err result_client_mismatch) =
    refusal id "rejected" (ReplyError.hub_error result_client_mismatch)
ack_for id none (err e) = refusal id "error" (ReplyError.hub_error e)

-- The acknowledgement of a result, in a state at a time.
abbrev pub ack_decoded : Session → State → ℕ → String → Decoded JobResult → ResultAck
ack_decoded s w now id (PayloadCodec.err e) = refusal id "rejected" (ReplyError.codec_error e)
ack_decoded s w now id (PayloadCodec.ok r) =
    ack_for r.request_id (ensure_group_active s.groups s.claims.group)
      (answer (phase w.hub now r.request_id) s.claims.client_id)

abbrev pub ack_result : Session → State → ℕ → Option JobResult → ResultAck
ack_result s w now none = refusal "" "" ReplyError.result_payload_required
ack_result s w now (some r) =
    ack_decoded s w now r.request_id (normalize_client_job_result s.codec (with_status r))

-- The answer that a text must get.
abbrev pub reply_for : Session → State → ℕ → Option Envelope → Reply
reply_for s w now none = Reply.error_message ReplyError.invalid_json_payload
reply_for s w now (some e) =
    if e.kind == "heartbeat"
    then Reply.heartbeat_ack
    else if e.kind == "result"
    then Reply.result_ack (ack_result s w now e.result)
    else Reply.error_message ReplyError.unsupported_message_type

-- A handler's answer, and a hub whose maps agree.
abbrev pub Answers : Session → State → ℕ → Option Envelope → State × Reply → Type 0
Answers s w now envelope (w', reply) = (reply ≡ reply_for s w now envelope) × IsRegistry w'.hub

ack_same :
    (id : String) (a : Result SubmitOutcome) → ack_of id (inr (error_of a)) ≡ ack_for id none a
ack_same id (ok outcome) = refl
ack_same id (err result_client_mismatch) = refl
ack_same id (err result_not_waiting) = refl
ack_same id (err no_online_client) = refl
ack_same id (err preferred_client_down) = refl
ack_same id (err client_queue_full) = refl
ack_same id (err group_saturated) = refl
ack_same id (err client_session_gone) = refl
ack_same id (err (context_error e)) = refl

acks :
    (s : Session) (w w' : State) (r : JobResult) (now : ℕ) (e : GroupFailure ⊎ Option HubError)
    → Submits s.groups w s.claims r now (w', e)
    → IsRegistry w.hub
    → (ack_of r.request_id e
        ≡ ack_for r.request_id
            (ensure_group_active s.groups s.claims.group)
            (answer (phase w.hub now r.request_id) s.claims.client_id))
      × IsRegistry w'.hub
acks s w w' r now (inl e) (n, same) v = (rw n refl, rw same v)
acks s w w' r now (inr e) (n, is, agree) v = (rw (n, is) (ack_same r.request_id _), agree)

submit_decoded-Answers :
    (s : Session) (w : State) (fails : Bool) (now : ℕ) (id : String) (d : Decoded JobResult)
    → IsRegistry w.hub
    → let (w', reply) = submit_decoded s w fails now id d in
      (reply ≡ Reply.result_ack (ack_decoded s w now id d)) × IsRegistry w'.hub
unfolding submit_decoded
submit_decoded-Answers s w fails now id (PayloadCodec.err e) v = (refl, v)
submit_decoded-Answers s w fails now id (PayloadCodec.ok r) v =
    let r' = submit_client_result s.groups s.flush_interval w s.claims r fails now in
    let (same, agree) =
      acks s w r'.0 r now r'.1
        (submit_client_result-Submits s.groups s.flush_interval w s.claims r fails now v) v in
    (ap Reply.result_ack same, agree)

on_result-Answers :
    (s : Session) (w : State) (fails : Bool) (now : ℕ) (r : Option JobResult)
    → IsRegistry w.hub
    → let (w', reply) = on_result s w fails now r in
      (reply ≡ Reply.result_ack (ack_result s w now r)) × IsRegistry w'.hub
unfolding on_result
on_result-Answers s w fails now none v = (refl, v)
on_result-Answers s w fails now (some r) v = submit_decoded-Answers s w fails now r.request_id _ v

-- In a hub whose maps agree, a text of a device is answered by what it is: no envelope, a heartbeat, a
-- message of another type, a result that is missing or cannot be decoded, a result for a device whose
-- group is not active, or one that the hub accepts, refuses as another device's or does not wait for.
-- Only a result that the hub accepts is acknowledged as accepted, under its own request id; the maps
-- agree afterwards.
pub on_envelope-Answers :
    (s : Session) (w : State) (fails : Bool) (now : ℕ) (envelope : Option Envelope)
    → IsRegistry w.hub
    → Answers s w now envelope (on_envelope s w fails now envelope)
unfolding on_envelope
on_envelope-Answers s w fails now none v = (refl, v)
on_envelope-Answers s w fails now (some e) v = elim (Bool-cases (e.kind == "heartbeat")) [
  | inl beat ↦ rw beat (refl, v)
  | inr other ↦ elim (Bool-cases (e.kind == "result")) [
    | inl result ↦ rw (other, result) (on_result-Answers s w fails now e.result v)
    | inr unknown ↦ rw (other, unknown) (refl, v)
  ]
]

-- A turn in which the device sends something and all goes well on the server's side.
abbrev pub is_smooth : ReaderTurn → Bool
is_smooth t = (elim t.received [ none ↦ false | some m ↦ true ]) && not t.done && not t.write_fails

-- The number of texts among the messages.
abbrev pub is_text : Option Message → Bool
is_text (some (Message.text payload)) = true
is_text _ = false

unfoldable pub texts : List ReaderTurn → ℕ
texts [] = 0
texts (t ∷ turns) = (if is_text t.received then 1 else 0) + texts turns

-- The loop goes on, answers every text, and leaves a hub whose maps agree.
abbrev pub Serves : ℕ → Read → Type 0
Serves n r = (r.ended ≡ ReaderEnd.running) × (length r.replies ≡ n) × IsRegistry r.state.hub

on_message-Serves :
    (s : Session) (w : State) (t : ReaderTurn) (m : Message) (rest : State → Read) (n : ℕ)
    → t.write_fails ≡ false
    → ((k : State) → IsRegistry k.hub → Serves n (rest k))
    → IsRegistry w.hub
    → Serves ((if is_text (some m) then 1 else 0) + n) (on_message s w t m rest)
unfolding on_message
on_message-Serves s w t (Message.pong payload) rest n f next v =
    let (running, count, kept) = next w v in (running, omega (arith, count), kept)
on_message-Serves s w t (Message.text payload) rest n f next v =
    let (answered, agree) =
      on_envelope-Answers s w t.submit_touch_fails t.submitted_at (s.parse payload) v in
    let (running, count, kept) = next _ agree in rw f (running, omega (arith, count), kept)

on_received-Serves :
    (s : Session) (w : State) (t : ReaderTurn) (o : Option Message) (rest : State → Read) (n : ℕ)
    → (elim o [ none ↦ false | some m ↦ true ]) ≡ true
    → t.done ≡ false
    → t.write_fails ≡ false
    → ((k : State) → IsRegistry k.hub → Serves n (rest k))
    → IsRegistry w.hub
    → Serves ((if is_text o then 1 else 0) + n) (on_received s w t o rest)
unfolding on_received
on_received-Serves s w t none rest n e d f next v = cc
on_received-Serves s w t (some m) rest n e d f next v = rw d (
    on_message-Serves s _ t m rest n f next
      (touched-IsRegistry s.flush_interval w (touch_of s.claims "") t.touch_fails t.touched_at v))

-- As long as something arrives, the context is not done and no write fails, whatever a device sends keeps
-- its connection open: the loop goes on, has sent one message for each text, and the maps of the hub
-- still agree.
pub reader_loop-Serves :
    (s : Session) (w : State) (turns : List ReaderTurn)
    → AllOf (λ t. is_smooth t ≡ true) turns
    → IsRegistry w.hub
    → Serves (texts turns) (reader_loop s w turns)
unfolding reader_loop texts
reader_loop-Serves s w [] a v = (refl, refl, v)
reader_loop-Serves s w (t ∷ turns) (smooth, a) v =
    on_received-Serves s w t t.received (λ k. reader_loop s k turns) (texts turns) (ground arith)
      (ground arith) (ground arith) (λ k agree. reader_loop-Serves s k turns a agree) v
