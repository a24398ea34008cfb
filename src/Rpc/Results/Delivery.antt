-- ===== src/Rpc/Results/Delivery.antt =====
-- internal/rpc/hub.go, `SubmitResult`: a result is delivered once, to the call that waits for it.
use r0rpc.Prelude.{
  ℕ, ◌≡◌, ◌≢◌, refl, sym, ap, ◌∙◌, String, true, Option, none, some, ◌==◌, string_eq, same_refl,
  arith, if◌then◌else◌,
}
use r0rpc.Prelude.Map.{lookup, delete, lookup-insert, lookup-delete, lookup-retain, passing}
use r0rpc.Rpc.Job.{JobResult, Result, ok, err, result_client_mismatch, result_not_waiting}
use r0rpc.Rpc.State.{Hub, WaiterEntry, CompletedEntry, CompletedState}
use r0rpc.Rpc.Hub.{signal_dispatch_locked}
use r0rpc.Rpc.Dispatch.{release_dispatch_locked}
use r0rpc.Rpc.Results.{
  is_recent, cleanup_completed_locked, SubmitOutcome, deliver, answer_over, answer_completed,
  answer_lookup, submit_result, over,
}

-- What the hub knows of a call.
pub data Phase : Type 0 where
  unknown : Phase
  waiting : WaiterEntry → Phase
  finished : CompletedEntry → Phase

abbrev phase_of : Option WaiterEntry → Option CompletedEntry → Phase
phase_of (some w) c = Phase.waiting w
phase_of none (some c) = Phase.finished c
phase_of none none = Phase.unknown

-- The phase of a call, once the entries of calls that are over for too long have been dropped.
abbrev pub phase : Hub → ℕ → String → Phase
phase h now request_id =
    phase_of (lookup request_id h.waiters) (passing (is_recent now) (lookup request_id h.completed))

module _ (h : Hub) (client_id : String) where
  pub waiters-release : (release_dispatch_locked h client_id).waiters ≡ h.waiters
  unfolding release_dispatch_locked signal_dispatch_locked
  waiters-release = ground arith

  pub completed-release : (release_dispatch_locked h client_id).completed ≡ h.completed
  unfolding release_dispatch_locked signal_dispatch_locked
  completed-release = ground arith

  pub channels-release : (release_dispatch_locked h client_id).channels ≡ h.channels
  unfolding release_dispatch_locked signal_dispatch_locked
  channels-release = ground arith

-- The answer to a result that a client submits for a call, by the phase of the call.
abbrev pub answer : Phase → String → Result SubmitOutcome
answer Phase.unknown client_id = err result_not_waiting
answer (Phase.waiting w) client_id =
    if w.client_id == client_id then ok SubmitOutcome.delivered else err result_client_mismatch
answer (Phase.finished c) client_id =
    if c.client_id == client_id
    then (elim c.state [
      | CompletedState.expired ↦ ok SubmitOutcome.late
      | _ ↦ ok SubmitOutcome.duplicate
    ])
    else err result_client_mismatch

-- The phase of the call afterwards.
abbrev pub next_phase : Phase → String → ℕ → Phase
next_phase Phase.unknown client_id now = Phase.unknown
next_phase (Phase.waiting w) client_id now =
    if w.client_id == client_id
    then Phase.finished (over client_id CompletedState.completed now)
    else Phase.waiting w
next_phase (Phase.finished c) client_id now =
    if c.client_id == client_id
    then (elim c.state [
      | CompletedState.expired ↦ Phase.finished (over client_id CompletedState.late now)
      | _ ↦ Phase.finished c
    ])
    else Phase.finished c

just_now :
    (client_id : String) (s : CompletedState) (now : ℕ)
    → is_recent now (over client_id s now) ≡ true
just_now client_id s now = ground arith

-- What `SubmitResult` must do with a result for the call `id`, by the phase of the call.
abbrev pub Answers : Hub → ℕ → String → String → Phase → Hub × Result SubmitOutcome → Type 0
Answers h now id client_id before r =
    (r.1 ≡ answer before client_id)
    × (phase r.0 now id ≡ next_phase before client_id now)
    × ((other : String) → other ≢ id → phase r.0 now other ≡ phase h now other)

cleanup-phase :
    (h : Hub) (now : ℕ) (id : String)
    → phase (cleanup_completed_locked h now) now id ≡ phase h now id
unfolding cleanup_completed_locked
cleanup-phase h now id = ground (arith, lookup-retain (is_recent now) id h.completed)

deliver-Answers :
    (h : Hub) (client_id : String) (result : JobResult) (w : WaiterEntry) (now : ℕ)
    → lookup result.request_id h.waiters ≡ some w
    → Answers h now result.request_id client_id (Phase.waiting w) (deliver h client_id result w now)
unfolding deliver
deliver-Answers h client_id result w now e =
    let id = result.request_id in
    let dropped = record h { waiters = delete id h.waiters } in
    let released = release_dispatch_locked dropped client_id in
    let entry = over client_id CompletedState.completed now in
    (
      ground arith,
      ground (
        arith,
        ap (λ m. lookup id m) (waiters-release dropped client_id),
        lookup-delete id id h.waiters,
        lookup-insert id entry id released.completed,
        same_refl id,
        just_now client_id CompletedState.completed now,
      ),
      λ other ne. ground (
        arith,
        ap (λ m. lookup other m) (waiters-release dropped client_id),
        ap (λ m. lookup other m) (completed-release dropped client_id),
        lookup-delete id other h.waiters,
        lookup-insert id entry other released.completed,
        string_eq.same_iff id other,
      ),
    )

late-Answers :
    (h : Hub) (client_id : String) (result : JobResult) (c : CompletedEntry) (now : ℕ)
    → lookup result.request_id h.waiters ≡ none
    → passing (is_recent now) (lookup result.request_id h.completed) ≡ some c
    → Answers h now result.request_id client_id
        (Phase.finished c)
        (answer_completed h client_id result c now)
unfolding answer_completed answer_over
late-Answers h client_id result c now e f =
    let id = result.request_id in
    let released = release_dispatch_locked h client_id in
    let entry = over client_id CompletedState.late now in
    (
      ground arith,
      ground (
        arith,
        ap (λ m. lookup id m) (waiters-release h client_id),
        lookup-insert id entry id released.completed,
        same_refl id,
        just_now client_id CompletedState.late now,
      ),
      λ other ne. ground (
        arith,
        ap (λ m. lookup other m) (waiters-release h client_id),
        ap (λ m. lookup other m) (completed-release h client_id),
        lookup-insert id entry other released.completed,
        string_eq.same_iff id other,
      ),
    )

answer_lookup-Answers :
    (h : Hub) (client_id : String) (result : JobResult) (now : ℕ) (w : Option WaiterEntry)
    (c : Option CompletedEntry)
    → lookup result.request_id h.waiters ≡ w
    → passing (is_recent now) (lookup result.request_id h.completed) ≡ c
    → Answers h now result.request_id client_id
        (phase_of w c)
        (answer_lookup h client_id result now w c)
unfolding answer_lookup
answer_lookup-Answers h client_id result now (some w) c e f =
    deliver-Answers h client_id result w now e
answer_lookup-Answers h client_id result now none (some c) e f =
    late-Answers h client_id result c now e f
answer_lookup-Answers h client_id result now none none e f =
    (refl, rw (e, f) refl, λ other ne. refl)

passing_twice :
    (now : ℕ) (c : Option CompletedEntry)
    → passing (is_recent now) (passing (is_recent now) c) ≡ passing (is_recent now) c
passing_twice now none = refl
passing_twice now (some c) = ground arith

-- `SubmitResult` answers by the phase of the call alone, and moves the call on: a waiting call is
-- completed by its own client, an expired one becomes late, and in all other cases the phase stays.
-- No other call's phase changes.
pub submit_result-Answers :
    (h : Hub) (client_id : String) (result : JobResult) (now : ℕ)
    → Answers h now result.request_id client_id
        (phase h now result.request_id)
        (submit_result h client_id result now)
unfolding submit_result
submit_result-Answers h client_id result now =
    let id = result.request_id in
    let k = cleanup_completed_locked h now in
    let kept : lookup id k.completed ≡ passing (is_recent now) (lookup id h.completed) =
      unfold cleanup_completed_locked in lookup-retain (is_recent now) id h.completed in
    let same : phase_of (lookup id k.waiters) (lookup id k.completed) ≡ phase h now id =
      unfold cleanup_completed_locked in ap (phase_of (lookup id h.waiters)) kept in
    let (a, b, c) =
      answer_lookup-Answers k client_id result now (lookup id k.waiters) (lookup id k.completed)
        refl
        (ap (passing (is_recent now)) kept
          ∙ passing_twice now (lookup id h.completed)
          ∙ sym kept) in
    (
      a ∙ ap (λ p. answer p client_id) same,
      b ∙ ap (λ p. next_phase p client_id now) same,
      λ other ne. c other ne ∙ cleanup-phase h now other,
    )
