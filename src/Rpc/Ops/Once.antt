-- ===== src/Rpc/Ops/Once.antt =====
-- internal/rpc/hub.go: a call gets at most one result, whatever its clients submit and when.
use r0rpc.Prelude.{
  ℕ, ◌+◌, ◌≤◌, ◌≡◌, refl, sym, ap, ◌∙◌, subst, inl, inr, String, Bool, true, false, ◌&&◌, Option,
  none, some, List, [], ◌∷◌, Bool-cases, Option-cases, arith, ◌==◌, string_eq, same_refl, AllOf,
  if◌then◌else◌,
}
use r0rpc.Prelude.Map.{lookup, lookup-insert, lookup-delete}
use r0rpc.Rpc.Job.{JobResult, Result, ok}
use r0rpc.Rpc.State.{Hub, WaiterEntry}
use r0rpc.Rpc.Hub.Frame.{SameCalls, register-SameCalls, touch-SameCalls, unregister-SameCalls}
use r0rpc.Rpc.Dispatch.Frame.{
  pick_keeps, acquire-SameCalls, release-SameCalls, push_pending-SameCalls, pop_pending-SameCalls,
}
use r0rpc.Rpc.Dispatch.{pick_session}
use r0rpc.Rpc.Results.{
  SubmitOutcome, cleanup_completed_locked, make_channel, receive, store_waiter, drop_waiter,
  expire_waiter, submit_result,
}
use r0rpc.Rpc.Results.Delivery.{Phase, phase, answer, next_phase, submit_result-Answers}
use r0rpc.Rpc.Ops.{
  HubOp, apply_op, registers, touches, unregisters, picks, makes, stores, drops, expires, pushes,
  pops, acquires, releases, submits, receives,
}

abbrev is_some : Option WaiterEntry → Bool
is_some none = false
is_some (some w) = true

-- Whether a call waits for its result.
abbrev pub waits : Hub → String → Bool
waits h id = is_some (lookup id h.waiters)

abbrev is_waiting : Phase → Bool
is_waiting (Phase.waiting w) = true
is_waiting _ = false

waits-phase : (h : Hub) (now : ℕ) (id : String) → waits h id ≡ is_waiting (phase h now id)
waits-phase h now id = ground arith

-- Whether an operation starts the wait of a call with this id.
abbrev pub starts : String → HubOp → Bool
starts id (stores other c ch now) = other == id
starts id _ = false

abbrev is_delivered : Result SubmitOutcome → Bool
is_delivered (ok SubmitOutcome.delivered) = true
is_delivered _ = false

-- Whether an operation delivers a result to the call.
abbrev delivers : String → Hub → HubOp → Bool
delivers id h (submits c result now) =
    (result.request_id == id) && is_delivered (submit_result h c result now).1
delivers id h _ = false

-- How many results a run of the hub delivers to the call.
pub deliveries : String → Hub → List HubOp → ℕ
deliveries id h [] = 0
deliveries id h (op ∷ ops) = (if delivers id h op then 1 else 0) + deliveries id (apply_op h op) ops

same_waits : (h k : Hub) (id : String) → SameCalls h k → waits h id ≡ false → waits k id ≡ false
same_waits h k id same e = ground (arith, ap (λ m. lookup id m) same.waiters)

answer_idle : (p : Phase) (c : String) → is_waiting p ≡ false → is_delivered (answer p c) ≡ false
answer_idle Phase.unknown c e = refl
answer_idle (Phase.waiting w) c e = cc
answer_idle (Phase.finished f) c e = ground arith

next_idle :
    (p : Phase) (c : String) (now : ℕ)
    → is_waiting p ≡ false
    → is_waiting (next_phase p c now) ≡ false
next_idle Phase.unknown c now e = refl
next_idle (Phase.waiting w) c now e = cc
next_idle (Phase.finished f) c now e = ground arith

next_delivered :
    (p : Phase) (c : String) (now : ℕ)
    → is_delivered (answer p c) ≡ true
    → is_waiting (next_phase p c now) ≡ false
next_delivered Phase.unknown c now e = refl
next_delivered (Phase.waiting w) c now e = ground arith
next_delivered (Phase.finished f) c now e = ground arith

module _ (h : Hub) (c : String) (result : JobResult) (now : ℕ) where
  -- The call that a result is for waits afterwards only if it is still waiting for another client.
  waits-submit :
      waits (submit_result h c result now).0 result.request_id
      ≡ is_waiting (next_phase (phase h now result.request_id) c now)
  waits-submit =
      let (a, b, rest) = submit_result-Answers h c result now in
      waits-phase (submit_result h c result now).0 now result.request_id ∙ ap is_waiting b

  -- A submission starts no wait.
  submit_idle :
      (id : String) → waits h id ≡ false → waits (submit_result h c result now).0 id ≡ false
  submit_idle id e =
      let (a, b, rest) = submit_result-Answers h c result now in
      let k = (submit_result h c result now).0 in
      elim (Bool-cases (result.request_id == id)) [
        | inl same ↦
            let at : result.request_id ≡ id = (string_eq.same_iff result.request_id id).0 same in
            subst (λ i. waits h i ≡ false → waits k i ≡ false) at
              (λ f.
                waits-submit
                ∙ next_idle (phase h now result.request_id) c now
                    (sym (waits-phase h now result.request_id) ∙ f))
              e
        | inr other ↦
            waits-phase k now id
            ∙ ap is_waiting (
                rest id (λ at.
                  ground (arith, ap (λ i. result.request_id == i) at, same_refl result.request_id)))
            ∙ sym (waits-phase h now id)
            ∙ e
      ]

  -- A delivery ends the wait.
  delivered_idle :
      is_delivered (submit_result h c result now).1 ≡ true
      → waits (submit_result h c result now).0 result.request_id ≡ false
  delivered_idle d =
      let (a, b, rest) = submit_result-Answers h c result now in
      waits-submit
      ∙ next_delivered (phase h now result.request_id) c now (sym (ap is_delivered a) ∙ d)

  -- Nothing is delivered to a call that does not wait.
  idle_undelivered :
      waits h result.request_id ≡ false → is_delivered (submit_result h c result now).1 ≡ false
  idle_undelivered e =
      let (a, b, rest) = submit_result-Answers h c result now in
      ap is_delivered a
      ∙ answer_idle (phase h now result.request_id) c
          (sym (waits-phase h now result.request_id) ∙ e)

waits-pick :
    (h : Hub) (g c id : String) → waits h id ≡ false → waits (pick_session h g c).0 id ≡ false
waits-pick h g c id e = pick_keeps (λ k. waits k id ≡ false) h (λ m. e) e g c

waits-expire :
    (h : Hub) (other id : String) (now : ℕ)
    → waits h id ≡ false
    → waits (expire_waiter h other now) id ≡ false
unfolding expire_waiter cleanup_completed_locked
waits-expire h other id now e = elim (Option-cases (lookup other h.waiters)) [
  | inl n ↦ rw (n, expire_waiter) e
  | inr (w, n) ↦ rw (n, expire_waiter) (ground (arith, lookup-delete other id h.waiters))
]

-- No operation but the start of the wait makes a call wait.
stays_idle :
    (h : Hub) (id : String) (op : HubOp)
    → starts id op ≡ false
    → waits h id ≡ false
    → waits (apply_op h op) id ≡ false
unfolding apply_op make_channel receive store_waiter drop_waiter expire_waiter
    cleanup_completed_locked
stays_idle h id (registers c g user platform max now) s e =
    same_waits h _ id (register-SameCalls h c g user platform max now) e
stays_idle h id (touches c now) s e = same_waits h _ id (touch-SameCalls h c now) e
stays_idle h id (unregisters c) s e = same_waits h _ id (unregister-SameCalls h c) e
stays_idle h id (picks g c) s e = waits-pick h g c id e
stays_idle h id makes s e = e
stays_idle h id (stores other c ch now) s e =
    ground (arith, lookup-insert other (record { client_id = c; result_ch = ch }) id h.waiters)
stays_idle h id (drops other) s e = ground (arith, lookup-delete other id h.waiters)
stays_idle h id (expires other now) s e = waits-expire h other id now e
stays_idle h id (pushes p now job) s e = same_waits h _ id (push_pending-SameCalls h p now job) e
stays_idle h id (pops p now) s e = same_waits h _ id (pop_pending-SameCalls h p now) e
stays_idle h id (acquires c) s e = same_waits h _ id (acquire-SameCalls h c) e
stays_idle h id (releases c) s e = same_waits h _ id (release-SameCalls h c) e
stays_idle h id (submits c result now) s e = submit_idle h c result now id e
stays_idle h id (receives ch) s e = ground arith

ends_wait :
    (h : Hub) (id : String) (op : HubOp)
    → delivers id h op ≡ true
    → waits (apply_op h op) id ≡ false
unfolding apply_op
ends_wait h id (submits c result now) d =
    let same : result.request_id ≡ id =
      (string_eq.same_iff result.request_id id).0 (ground arith) in
    subst (λ i. waits (submit_result h c result now).0 i ≡ false) same
      (delivered_idle h c result now (ground arith))
ends_wait h id _ d = cc

idle_delivers : (h : Hub) (id : String) (op : HubOp) → waits h id ≡ false → delivers id h op ≡ false
idle_delivers h id (submits c result now) e = elim (Bool-cases (result.request_id == id)) [
  | inl same ↦
      let at : result.request_id ≡ id = (string_eq.same_iff result.request_id id).0 same in
      let none_there =
        idle_undelivered h c result now (subst (λ i. waits h i ≡ false) (sym at) e) in
      ground arith
  | inr other ↦ ground arith
]
idle_delivers h id _ e = refl

at_most_one : (b : Bool) → (if b then 1 else 0) ≤ 1
at_most_one b = ground arith

no_deliveries :
    (id : String) (h : Hub) (ops : List HubOp)
    → AllOf (λ op. starts id op ≡ false) ops
    → waits h id ≡ false
    → deliveries id h ops ≡ 0
unfolding deliveries
no_deliveries id h [] a e = refl
no_deliveries id h (op ∷ ops) (s, a) e =
    let first = idle_delivers h id op e in
    let rest = no_deliveries id (apply_op h op) ops a (stays_idle h id op s e) in ground arith

-- However the critical sections of all goroutines are interleaved after a hub's state `h`, as long as
-- no further call starts its wait under the id: at most one result is delivered for the id, and none
-- if no call waits for it in `h`.
pub delivered_once :
    (id : String) (h : Hub) (ops : List HubOp)
    → AllOf (λ op. starts id op ≡ false) ops
    → deliveries id h ops ≤ (if waits h id then 1 else 0)
unfolding deliveries
delivered_once id h [] a = omega arith
delivered_once id h (op ∷ ops) (s, a) = elim (Bool-cases (waits h id)) [
  | inr idle ↦ let rest = no_deliveries id h (op ∷ ops) (s, a) idle in ground arith
  | inl waiting ↦ elim (Bool-cases (delivers id h op)) [
    | inl d ↦
        let rest = no_deliveries id (apply_op h op) ops a (ends_wait h id op d) in ground arith
    | inr d ↦
        let rest = delivered_once id (apply_op h op) ops a in
        ground (arith, at_most_one (waits (apply_op h op) id))
  ]
]
