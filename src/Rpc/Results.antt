-- ===== src/Rpc/Results.antt =====
-- internal/rpc/hub.go: the calls that wait for a result, and the record of the calls that are over.
-- Each function is one critical section; a result channel has room for one result.
pub mod Delivery
pub mod Frame
pub mod Mail
use r0rpc.Prelude.{
  ℕ, ◌+◌, ◌-◌, ◌*◌, ◌^◌, String, Bool, true, false, not, Option, none, some, List, [], ◌∷◌, ◌++◌,
  ◌==◌, string_eq, ltb, length, get_elem?, set, if◌then◌else◌,
}
use r0rpc.Prelude.Map.{lookup, insert, delete, retain}
use r0rpc.Rpc.Job.{JobResult, Result, ok, err, result_client_mismatch, result_not_waiting}
use r0rpc.Rpc.State.{Hub, WaiterEntry, CompletedEntry, CompletedState}
use r0rpc.Rpc.Dispatch.{release_dispatch_locked}

-- `make(chan JobResult, 1)`
unfoldable pub make_channel : Hub → Hub × ℕ
make_channel h = (record h { channels = h.channels ++ none ∷ [] }, length h.channels)

-- `select { case ch <- result: default: }`
pub send_or_drop : List (Option JobResult) → ℕ → JobResult → List (Option JobResult)
send_or_drop channels ch result = elim (get_elem? channels ch) [
  | some none ↦ set channels ch (some result)
  | _ ↦ channels
]

-- `result := <-ch`, which gets nothing as long as the channel is empty.
unfoldable pub receive : Hub → ℕ → Hub × Option JobResult
receive h ch = elim (get_elem? h.channels ch) [
  | some (some result) ↦ (record h { channels = set h.channels ch none }, some result)
  | _ ↦ (h, none)
]

-- `10 * time.Minute`
abbrev pub retention : ℕ
retention = 10 * 60 * 10 ^ 9

abbrev pub is_recent : ℕ → CompletedEntry → Bool
is_recent now e = not (ltb retention (now - e.finished_at))

unfoldable pub cleanup_completed_locked : Hub → ℕ → Hub
cleanup_completed_locked h now = record h { completed = retain (is_recent now) h.completed }

unfoldable pub store_waiter : Hub → String → String → ℕ → ℕ → Hub
store_waiter h request_id client_id ch now =
    let cleaned = cleanup_completed_locked h now in
    let entry : WaiterEntry = record { client_id = client_id; result_ch = ch } in
    record cleaned { waiters = insert request_id entry cleaned.waiters }

unfoldable pub drop_waiter : Hub → String → Hub
drop_waiter h request_id = record h { waiters = delete request_id h.waiters }

abbrev over : String → CompletedState → ℕ → CompletedEntry
over client_id state now = record { client_id = client_id; state = state; finished_at = now }

unfoldable pub expire_waiter : Hub → String → ℕ → Hub
expire_waiter h request_id now = elim (lookup request_id h.waiters) [
  | none ↦ h
  | some w ↦
      cleanup_completed_locked
        (record h {
          waiters = delete request_id h.waiters;
          completed = insert request_id (over w.client_id CompletedState.expired now) h.completed;
        })
        now
]

-- `SubmitOutcome`, of which the source sets one flag.
pub data SubmitOutcome : Type 0 where
  delivered duplicate late : SubmitOutcome

-- The branch of `SubmitResult` for a call that is waiting.
deliver : Hub → String → JobResult → WaiterEntry → ℕ → Hub × Result SubmitOutcome
deliver h client_id result w now =
    if w.client_id == client_id
    then (let dropped = record h { waiters = delete result.request_id h.waiters } in
        let released = release_dispatch_locked dropped client_id in
        (
          record released {
            completed =
                insert result.request_id (over client_id CompletedState.completed now)
                  released.completed;
            channels = send_or_drop released.channels w.result_ch result;
          },
          ok SubmitOutcome.delivered,
        ))
    else (h, err result_client_mismatch)

-- The branch for a call that is over, by how it ended.
answer_over : Hub → String → JobResult → CompletedState → ℕ → Hub × Result SubmitOutcome
answer_over h client_id result CompletedState.completed now = (h, ok SubmitOutcome.duplicate)
answer_over h client_id result CompletedState.expired now =
    let released = release_dispatch_locked h client_id in
    (
      record released {
        completed =
            insert result.request_id (over client_id CompletedState.late now) released.completed;
      },
      ok SubmitOutcome.late,
    )
answer_over h client_id result CompletedState.late now = (h, ok SubmitOutcome.duplicate)

answer_completed : Hub → String → JobResult → CompletedEntry → ℕ → Hub × Result SubmitOutcome
answer_completed h client_id result c now =
    if c.client_id == client_id
    then answer_over h client_id result c.state now
    else (h, err result_client_mismatch)

-- The cases of `SubmitResult`, by what the two maps hold.
answer_lookup :
    Hub
    → String
    → JobResult
    → ℕ
    → Option WaiterEntry
    → Option CompletedEntry
    → Hub × Result SubmitOutcome
answer_lookup h client_id result now (some w) _ = deliver h client_id result w now
answer_lookup h client_id result now none (some c) = answer_completed h client_id result c now
answer_lookup h client_id result now none none = (h, err result_not_waiting)

pub submit_result : Hub → String → JobResult → ℕ → Hub × Result SubmitOutcome
submit_result h client_id result now =
    let cleaned = cleanup_completed_locked h now in
    answer_lookup cleaned client_id result now (lookup result.request_id cleaned.waiters)
      (lookup result.request_id cleaned.completed)
