-- ===== src/App/Clients/Calls.antt =====
-- internal/app/app.go: what a device does with the hub, and the writes of its presence. What the store knows
-- of groups, and whether a write of the presence fails, are arguments.
use r0rpc.Prelude.{
  ℕ, String, ℤ, Bool, ◌&&◌, Option, none, some, ◌==◌, string_eq, ◌⊎◌, inl, inr, if◌then◌else◌,
}
use r0rpc.Rpc.Job.{JobResult, Result, HubError, ok, err}
use r0rpc.Rpc.Hub.{register, touch}
use r0rpc.Rpc.Results.{SubmitOutcome, submit_result}
use r0rpc.Rpc.Poll.{Polled, PollSchedule, poll}
use r0rpc.App.Groups.{GroupRow, GroupFailure, ensure_group_active}
use r0rpc.App.Presence.{should_flush_presence, reset_presence_flush}
use r0rpc.App.Clients.{State, TokenClaims}

-- Who calls for a device.
pub record Touch : Type 0 where
  pub client_id : String
  pub group : String
  pub user_id : ℤ
  pub max_in_flight : ℤ
  pub platform : String

-- `TouchDevice` fails if `touch_fails`.
unfoldable pub flush_presence : ℤ → State → String → Bool → ℕ → State
flush_presence interval w client_id touch_fails now =
    let (flushes, due) = should_flush_presence interval w.last_presence_flush client_id now in
    record w {
      last_presence_flush =
          if due && touch_fails then reset_presence_flush flushes client_id else flushes;
    }

unfoldable pub touch_client_presence : ℤ → State → Touch → Bool → ℕ → State
unfolding flush_presence
touch_client_presence interval w t touch_fails now =
    if t.client_id == ""
    then w
    else (let registered =
          if t.group == ""
          then w.hub
          else (register w.hub t.client_id t.group t.user_id t.platform t.max_in_flight now).0 in
        flush_presence interval (record w { hub = touch registered t.client_id now }) t.client_id
          touch_fails now)

abbrev pub touch_of : TokenClaims → String → Touch
touch_of claims platform = record {
  client_id = claims.client_id;
  group = claims.group;
  user_id = claims.user_id;
  max_in_flight = claims.max_in_flight;
  platform = platform;
}

-- `PollClient`, with the hub's `Poll` in the schedule.
unfoldable pub poll_client :
    (String → GroupRow)
    → ℤ
    → State
    → TokenClaims
    → Bool
    → Bool
    → PollSchedule
    → ℕ
    → State × (GroupFailure ⊎ Polled)
unfolding touch_client_presence
poll_client groups interval w claims touch_fails timer s now =
    elim (ensure_group_active groups claims.group) [
      | some e ↦ (w, inl e)
      | none ↦
          let touched =
            touch_client_presence interval w (touch_of claims "xposed") touch_fails now in
          let polled = poll timer claims.client_id s touched.hub in
          (record touched { hub = polled.hub }, inr polled.value)
    ]

-- The error of `SubmitClientResult` for what the hub returns: every outcome is nil.
abbrev pub error_of : Result SubmitOutcome → Option HubError
error_of (ok o) = none
error_of (err e) = some e

-- The part of `SubmitClientResult` behind the check of the group.
unfoldable pub submit_checked :
    ℤ
    → State
    → TokenClaims
    → JobResult
    → Bool
    → ℕ
    → Option GroupFailure
    → State × (GroupFailure ⊎ Option HubError)
unfolding touch_client_presence
submit_checked interval w claims result touch_fails now (some e) = (w, inl e)
submit_checked interval w claims result touch_fails now none =
    let touched = touch_client_presence interval w (touch_of claims "") touch_fails now in
    let (submitted, outcome) = submit_result touched.hub claims.client_id result now in
    (record touched { hub = submitted }, inr (error_of outcome))

unfoldable pub submit_client_result :
    (String → GroupRow)
    → ℤ
    → State
    → TokenClaims
    → JobResult
    → Bool
    → ℕ
    → State × (GroupFailure ⊎ Option HubError)
unfolding submit_checked
submit_client_result groups interval w claims result touch_fails now =
    submit_checked interval w claims result touch_fails now
      (ensure_group_active groups claims.group)
