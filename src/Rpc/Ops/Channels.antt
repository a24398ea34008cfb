-- ===== src/Rpc/Ops/Channels.antt =====
-- internal/rpc/hub.go: every call that waits has a channel that was made.
use r0rpc.Prelude.{
  ℕ, ◌≡◌, ◌≤◌, ◌<◌, sym, ap, ◌∙◌, inl, inr, String, Bool, true, none, some, some-injective, List,
  [], ◌∷◌, ◌==◌, string_eq, arith, ltb, ltb→lt, Bool-cases, length, length-append,
}
use r0rpc.Prelude.Map.{lookup, lookup-insert, lookup-delete}
use r0rpc.Rpc.Job.{JobResult}
use r0rpc.Rpc.State.{Hub, WaiterEntry}
use r0rpc.Rpc.Results.Mail.{SameMail, Ends, Delivers, length-send_or_drop}
use r0rpc.Rpc.Ops.{
  HubOp, apply_op, run_ops, registers, touches, unregisters, picks, makes, stores, drops, expires,
  pushes, pops, acquires, releases, submits, receives,
}
use r0rpc.Rpc.Ops.Moves.{apply_op-Moves}

pub record IsRanged (h : Hub) : Type 0 where
  pub made :
      (id : String) (w : WaiterEntry)
      → lookup id h.waiters ≡ some w
      → w.result_ch < length h.channels

-- A goroutine stores a channel that it has made.
abbrev pub is_proper : Hub → HubOp → Bool
is_proper h (stores id c ch now) = ltb ch (length h.channels)
is_proper h _ = true

unfoldable pub AllProper : Hub → List HubOp → Type 0
AllProper h [] = Unit
AllProper h (op ∷ ops) = (is_proper h op ≡ true) × AllProper (apply_op h op) ops

-- No call waits that did not wait before, and no channel goes.
Shrinks : Hub → Hub → Type 0
Shrinks h k =
    ((id : String) (w : WaiterEntry) → lookup id k.waiters ≡ some w → lookup id h.waiters ≡ some w)
    × (length h.channels ≤ length k.channels)

Shrinks-IsRanged : (h k : Hub) → Shrinks h k → IsRanged h → IsRanged k
unfolding Shrinks
Shrinks-IsRanged h k (fewer, more) v = record {
  made = λ id w e. omega (arith, v.made id w (fewer id w e), more);
}

quiet : {h k : Hub} → SameMail h k → IsRanged h → IsRanged k
quiet {h} {k} s v =
    Shrinks-IsRanged h k
      (unfold Shrinks in
        (λ id w e. sym (ap (λ m. lookup id m) s.waiters) ∙ e, ground (arith, ap length s.channels)))
      v

ends : {h k : Hub} (id : String) → Ends id h k → IsRanged h → IsRanged k
ends {h} {k} id s v =
    Shrinks-IsRanged h k
      (unfold Shrinks in
        (λ j w e. ground (arith, s.waiters j), ground (arith, ap length s.channels)))
      v

delivers : {h k : Hub} (c : String) (r : JobResult) → Delivers c r h k → IsRanged h → IsRanged k
delivers {h} {k} c r d v =
    Shrinks-IsRanged h k
      (unfold Shrinks in
        (
          λ j w e.
              ground
                (arith, ap (λ m. lookup j m) d.waiters ∙ lookup-delete r.request_id j h.waiters),
          ground (arith, ap length d.channels, length-send_or_drop h.channels d.entry.result_ch r),
        ))
      v

stores-IsRanged :
    (h : Hub) (id c : String) (ch now : ℕ)
    → ch < length h.channels
    → IsRanged h
    → IsRanged (apply_op h (stores id c ch now))
stores-IsRanged h id c ch now lt v =
    let k = apply_op h (stores id c ch now) in
    let (ew, ec) = apply_op-Moves h (stores id c ch now) in
    let entry : WaiterEntry = record { client_id = c; result_ch = ch } in
    record {
      made = λ j w e.
          let at = ap (λ m. lookup j m) ew ∙ lookup-insert id entry j h.waiters in
          elim (Bool-cases (id == j)) [
            | inl same ↦
                let is : entry ≡ w = some-injective _ _ (ground (arith, at)) in
                ground (arith, ap (λ (x : WaiterEntry). x.result_ch) is, ap length ec)
            | inr other ↦ let old = v.made j w (ground (arith, at)) in ground (arith, ap length ec)
          ];
    }

pub step-IsRanged :
    (h : Hub) (op : HubOp) → is_proper h op ≡ true → IsRanged h → IsRanged (apply_op h op)
step-IsRanged h (registers d g user platform max now) f v =
    quiet (apply_op-Moves h (registers d g user platform max now)) v
step-IsRanged h (touches d now) f v = quiet (apply_op-Moves h (touches d now)) v
step-IsRanged h (unregisters d) f v = quiet (apply_op-Moves h (unregisters d)) v
step-IsRanged h (picks g d) f v = quiet (apply_op-Moves h (picks g d)) v
step-IsRanged h makes f v =
    let (ew, ec) = apply_op-Moves h makes in
    Shrinks-IsRanged h _
      (unfold Shrinks in
        (
          λ id w e. sym (ap (λ m. lookup id m) ew) ∙ e,
          ground (arith, ap length ec, length-append h.channels (none ∷ [])),
        ))
      v
step-IsRanged h (stores other d ch' now) f v = stores-IsRanged h other d ch' now (ltb→lt _ _ f) v
step-IsRanged h (drops other) f v = ends other (apply_op-Moves h (drops other)) v
step-IsRanged h (expires other now) f v = ends other (apply_op-Moves h (expires other now)) v
step-IsRanged h (pushes p now job) f v = quiet (apply_op-Moves h (pushes p now job)) v
step-IsRanged h (pops p now) f v = quiet (apply_op-Moves h (pops p now)) v
step-IsRanged h (acquires d) f v = quiet (apply_op-Moves h (acquires d)) v
step-IsRanged h (releases d) f v = quiet (apply_op-Moves h (releases d)) v
step-IsRanged h (submits d result now) f v = elim (apply_op-Moves h (submits d result now)) [
  | inl s ↦ quiet s v
  | inr s ↦ delivers d result s v
]
step-IsRanged h (receives ch') f v =
    let t = apply_op-Moves h (receives ch') in
    Shrinks-IsRanged h _
      (unfold Shrinks in
        (λ id w e. sym (ap (λ m. lookup id m) t.waiters) ∙ e, ground (arith, t.room)))
      v

pub run_ops-IsRanged :
    (h : Hub) (ops : List HubOp) → AllProper h ops → IsRanged h → IsRanged (run_ops h ops)
unfolding run_ops AllProper
run_ops-IsRanged h [] a v = v
run_ops-IsRanged h (op ∷ ops) (f, a) v =
    run_ops-IsRanged (apply_op h op) ops a (step-IsRanged h op f v)
