-- ===== src/App/Clients/Presence.antt =====
-- internal/app/app.go, `TouchClientPresence` and the calls of a device: what they do to its session.
use r0rpc.Prelude.{
  ℕ, ◌≡◌, ◌≢◌, refl, String, ℤ, Bool, false, Option, none, some, ◌==◌, string_eq, ◌⊎◌, inl, inr,
  by_if, Bool-cases, ap, ◌∙◌,
}
use r0rpc.Rpc.Job.{JobResult, HubError}
use r0rpc.Rpc.State.{Hub, normalize_max_in_flight}
use r0rpc.Rpc.Hub.{register, touch}
use r0rpc.Rpc.Hub.Frame.{
  SameCalls, SameCalls-refl, SameCalls-trans, register-SameCalls, touch-SameCalls,
}
use r0rpc.Rpc.Hub.Registry.{IsRegistry}
use r0rpc.Rpc.Hub.Registration.{register-IsRegistry, touch-IsRegistry}
use r0rpc.Rpc.Hub.Sessions.{Serves, register-Serves, touch-Serves}
use r0rpc.Rpc.Results.Delivery.{phase, answer, submit_result-Answers}
use r0rpc.Rpc.Results.Frame.{IsRegistry-IsCallFree, submit-keeps}
use r0rpc.App.Groups.{GroupRow, GroupFailure, ensure_group_active}
use r0rpc.App.Clients.{TokenClaims, State}
use r0rpc.App.Clients.Calls.{
  Touch, flush_presence, touch_client_presence, touch_of, error_of, submit_checked,
  submit_client_result,
}

differs : (a b : String) → a ≢ b → (a == b) ≡ false
differs a b n = elim (Bool-cases (a == b)) [
  | inl e ↦ absurd (n ((string_eq.same_iff a b).0 e))
  | inr e ↦ e
]

-- A client without a session has one of the group after a touch that names the group, whatever its
-- token was: with the platform of the touch, also if that is empty.
pub touched-Serves :
    (interval : ℤ) (w : State) (t : Touch) (fails : Bool) (now : ℕ)
    → IsRegistry w.hub
    → t.client_id ≢ ""
    → t.group ≢ ""
    → Serves
        (touch_client_presence interval w t fails now).hub
        t.client_id
        t.group
        t.user_id
        t.platform
        (normalize_max_in_flight w.hub t.max_in_flight)
unfolding touch_client_presence flush_presence
touched-Serves interval w t fails now v named grouped =
    let k = (register w.hub t.client_id t.group t.user_id t.platform t.max_in_flight now).0 in
    let a = differs t.client_id "" named in
    let b = differs t.group "" grouped in
    rw (a, b)
      (touch-Serves k t.client_id t.group t.user_id t.platform _ now
        (register-IsRegistry w.hub t.client_id t.group t.user_id t.platform t.max_in_flight now v)
        (register-Serves w.hub t.client_id t.group t.user_id t.platform t.max_in_flight now v))

-- A touch keeps the maps of the hub in agreement.
pub touched-IsRegistry :
    (interval : ℤ) (w : State) (t : Touch) (fails : Bool) (now : ℕ)
    → IsRegistry w.hub
    → IsRegistry (touch_client_presence interval w t fails now).hub
unfolding touch_client_presence flush_presence
touched-IsRegistry interval w t fails now v =
    by_if (λ (x : State). IsRegistry x.hub) (t.client_id == "") (λ _. v)
      λ _. touch-IsRegistry _ t.client_id now (
        by_if IsRegistry (t.group == "") (λ _. v)
          λ _.
            register-IsRegistry w.hub t.client_id t.group t.user_id t.platform t.max_in_flight now
              v)

touched-SameCalls :
    (interval : ℤ) (w : State) (t : Touch) (fails : Bool) (now : ℕ)
    → SameCalls w.hub (touch_client_presence interval w t fails now).hub
unfolding touch_client_presence flush_presence
touched-SameCalls interval w t fails now =
    by_if (λ (x : State). SameCalls w.hub x.hub) (t.client_id == "") (λ _. SameCalls-refl w.hub)
      λ _.
        by_if (λ k. SameCalls w.hub (touch k t.client_id now)) (t.group == "")
          (λ _. touch-SameCalls w.hub t.client_id now)
          λ _.
            let k =
              (register w.hub t.client_id t.group t.user_id t.platform t.max_in_flight now).0 in
            SameCalls-trans w.hub k _
              (register-SameCalls w.hub t.client_id t.group t.user_id t.platform t.max_in_flight
                now)
              (touch-SameCalls k t.client_id now)

phase-SameCalls :
    (h k : Hub) (now : ℕ) (id : String) → SameCalls h k → phase k now id ≡ phase h now id
phase-SameCalls h k now id same = rw (same.waiters, same.completed) refl

-- What a submission does: for a group that is not active it returns the reason and changes nothing;
-- otherwise the error is the one that the phase of the call demands of the hub, and the maps agree.
abbrev pub Submits :
    (String → GroupRow)
    → State
    → TokenClaims
    → JobResult
    → ℕ
    → State × (GroupFailure ⊎ Option HubError)
    → Type 0
Submits groups w claims result now (w', inl e) =
    (ensure_group_active groups claims.group ≡ some e) × (w' ≡ w)
Submits groups w claims result now (w', inr error) =
    (ensure_group_active groups claims.group ≡ none)
    × (error ≡ error_of (answer (phase w.hub now result.request_id) claims.client_id))
    × IsRegistry w'.hub

submit_checked-Submits :
    (groups : String → GroupRow) (interval : ℤ) (w : State) (claims : TokenClaims)
    (result : JobResult) (fails : Bool) (now : ℕ) (e : Option GroupFailure)
    → ensure_group_active groups claims.group ≡ e
    → IsRegistry w.hub
    → Submits groups w claims result now (submit_checked interval w claims result fails now e)
unfolding submit_checked
submit_checked-Submits groups interval w claims result fails now (some e) n v = (n, refl)
submit_checked-Submits groups interval w claims result fails now none n v =
    let t = touch_of claims "" in
    let k = (touch_client_presence interval w t fails now).hub in
    let same = touched-SameCalls interval w t fails now in
    let (answered, moved, others) = submit_result-Answers k claims.client_id result now in
    (
      n,
      ap error_of (
          answered
          ∙ ap (λ p. answer p claims.client_id)
              (phase-SameCalls w.hub k now result.request_id same)),
      submit-keeps IsRegistry-IsCallFree k claims.client_id result now
          (touched-IsRegistry interval w t fails now v),
    )

-- In a hub whose maps agree, `SubmitClientResult` refuses the result of a device whose group is not
-- active, without any change. Otherwise its error is the one that the hub answers by the phase of the
-- call before: registering the device first changes nothing of it. The maps agree afterwards.
pub submit_client_result-Submits :
    (groups : String → GroupRow) (interval : ℤ) (w : State) (claims : TokenClaims)
    (result : JobResult) (fails : Bool) (now : ℕ)
    → IsRegistry w.hub
    → Submits groups w claims result now
        (submit_client_result groups interval w claims result fails now)
unfolding submit_client_result
submit_client_result-Submits groups interval w claims result fails now v =
    submit_checked-Submits groups interval w claims result fails now
      (ensure_group_active groups claims.group) refl v
