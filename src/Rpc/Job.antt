-- ===== src/Rpc/Job.antt =====
-- internal/rpc/hub.go: jobs, results and the errors of the hub. A `time.Time` is its nanoseconds
-- since the zero time, a `json.RawMessage` its bytes.
use r0rpc.Prelude.{ℕ, String, ℤ, Bool, false, not, List, eqb, ltb, if◌then◌else◌}

pub record Job : Type 0 where
  pub request_id : String
  pub group : String
  pub action : String
  pub client_id : String
  pub payload : List ℕ
  pub created_at : ℕ
  pub deadline_at : ℕ

pub record JobResult : Type 0 where
  pub request_id : String
  pub status : String
  pub http_code : ℤ
  pub payload : List ℕ
  pub payload_encoding : String
  pub payload_raw_size : ℤ
  pub payload_compressed_size : ℤ
  pub error : String
  pub latency_ms : ℤ

-- What a context that is done reports.
pub data ContextError : Type 0 where
  canceled deadline_exceeded : ContextError

pub data HubError : Type 0 where
  result_client_mismatch : HubError
  result_not_waiting : HubError
  no_online_client : HubError
  preferred_client_down : HubError
  client_queue_full : HubError
  group_saturated : HubError
  client_session_gone : HubError
  context_error : ContextError → HubError

-- A deadline of zero is none.
unfoldable pub expired_at : Job → ℕ → Bool
expired_at j now = if eqb j.deadline_at 0 then false else not (ltb now j.deadline_at)

-- What a method of the hub returns: a value, or an error.
pub data Result {ℓ} (A : Type ℓ) : Type ℓ where
  ok : A → Result A
  err : HubError → Result A
