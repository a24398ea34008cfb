-- ===== src/Rpc/Invoke/Steps.antt =====
-- internal/rpc/hub.go, `Invoke`: the other goroutines, however many of their critical sections come between
-- two of the call's own.
use r0rpc.Prelude.{
  ℕ, ◌≡◌, sym, ap, ◌∙◌, ◌⊎◌, inl, inr, String, true, none, some-injective, List, [], ◌∷◌, ◌++◌,
  ◌==◌, string_eq, get_elem?, arith, AllOf, Bool-cases, get_elem?-lt, get_elem?-append_left,
  eqb_iff,
}
use r0rpc.Prelude.Map.{lookup, lookup-insert}
use r0rpc.Rpc.Job.{JobResult}
use r0rpc.Rpc.State.{Hub, WaiterEntry}
use r0rpc.Rpc.Results.Mail.{SameMail, Delivers, Takes}
use r0rpc.Rpc.Ops.{
  HubOp, apply_op, run_ops, registers, touches, unregisters, picks, makes, stores, drops, expires,
  pushes, pops, acquires, releases, submits, receives,
}
use r0rpc.Rpc.Ops.Moves.{apply_op-Moves}
use r0rpc.Rpc.Invoke.Waiting.{
  entry_of, is_foreign, Vouches, Tracks, Unmoved-Tracks, SameMail-Unmoved, Ends-Unmoved,
  own-Delivers, other-Delivers,
}

module _ (Q : JobResult → Type 0) (id c : String) (ch : ℕ) where
  submit-Tracks :
      (h k : Hub) (c' : String) (result : JobResult)
      → (c' ≡ c → result.request_id ≡ id → Q result)
      → SameMail h k ⊎ Delivers c' result h k
      → Tracks Q id c ch h
      → Tracks Q id c ch k
  submit-Tracks h k c' result q (inl s) v =
      Unmoved-Tracks Q id c ch h k (SameMail-Unmoved Q id c ch h k s) v
  submit-Tracks h k c' result q (inr d) v = elim (Bool-cases (result.request_id == id)) [
    | inl e ↦ own-Delivers Q id c ch h k c' result ((string_eq.same_iff _ id).0 e) q d v
    | inr e ↦
        other-Delivers Q id c ch h k c' result
          (λ same. ground (arith, (string_eq.same_iff _ id).1 same)) d v
  ]

  makes-Tracks :
      (h k : Hub)
      → (k.waiters ≡ h.waiters) × (k.channels ≡ h.channels ++ none ∷ [])
      → Tracks Q id c ch h
      → Tracks Q id c ch k
  makes-Tracks h k (ew, ec) v =
      Unmoved-Tracks Q id c ch h k
        (record {
          call = ap (λ m. lookup id m) ew;
          slot = λ e.
              ap (λ l. get_elem? l ch) ec
              ∙ get_elem?-append_left h.channels (none ∷ []) ch (get_elem?-lt h.channels ch e)
              ∙ e;
          others = λ other w n e. inl (sym (ap (λ m. lookup other m) ew) ∙ e);
        })
        v

  stores-Tracks :
      (h : Hub) (other c' : String) (ch' now : ℕ)
      → is_foreign id ch (stores other c' ch' now) ≡ true
      → Tracks Q id c ch h
      → Tracks Q id c ch (apply_op h (stores other c' ch' now))
  stores-Tracks h other c' ch' now f v =
      let k = apply_op h (stores other c' ch' now) in
      let (ew, ec) = apply_op-Moves h (stores other c' ch' now) in
      let at = λ (j : String).
        ap (λ m. lookup j m) ew ∙ lookup-insert other (entry_of c' ch') j h.waiters in
      Unmoved-Tracks Q id c ch h k
        (record {
          call = ground (arith, at id);
          slot = λ e. ap (λ l. get_elem? l ch) ec ∙ e;
          others = λ o w n e. elim (Bool-cases (other == o)) [
            | inl same ↦
                let is : entry_of c' ch' ≡ w = some-injective _ _ (ground (arith, at o)) in
                inr (λ eq.
                  ground (arith, ap (λ (x : WaiterEntry). x.result_ch) is, (eqb_iff ch' ch).1))
            | inr differ ↦ inl (ground (arith, at o))
          ];
        })
        v

  receives-Tracks :
      (h k : Hub) (ch' : ℕ)
      → is_foreign id ch (receives ch') ≡ true
      → Takes ch' h k
      → Tracks Q id c ch h
      → Tracks Q id c ch k
  receives-Tracks h k ch' f t v =
      Unmoved-Tracks Q id c ch h k
        (record {
          call = ap (λ m. lookup id m) t.waiters;
          slot = λ e. t.others ch (λ eq. ground (arith, (eqb_iff ch' ch).1 eq)) ∙ e;
          others = λ other w n e. inl (sym (ap (λ m. lookup other m) t.waiters) ∙ e);
        })
        v

  quiet-Tracks : {h k : Hub} → SameMail h k → Tracks Q id c ch h → Tracks Q id c ch k
  quiet-Tracks {h} {k} s v = Unmoved-Tracks Q id c ch h k (SameMail-Unmoved Q id c ch h k s) v

  step-Tracks :
      (h : Hub) (op : HubOp)
      → is_foreign id ch op ≡ true
      → Vouches Q id c op
      → Tracks Q id c ch h
      → Tracks Q id c ch (apply_op h op)
  step-Tracks h (registers d g user platform max now) f q v =
      quiet-Tracks (apply_op-Moves h (registers d g user platform max now)) v
  step-Tracks h (touches d now) f q v = quiet-Tracks (apply_op-Moves h (touches d now)) v
  step-Tracks h (unregisters d) f q v = quiet-Tracks (apply_op-Moves h (unregisters d)) v
  step-Tracks h (picks g d) f q v = quiet-Tracks (apply_op-Moves h (picks g d)) v
  step-Tracks h makes f q v = makes-Tracks h _ (apply_op-Moves h makes) v
  step-Tracks h (stores other d ch' now) f q v = stores-Tracks h other d ch' now f v
  step-Tracks h (drops other) f q v =
      Unmoved-Tracks Q id c ch h _
        (Ends-Unmoved Q id c ch h _ other (ground arith) (apply_op-Moves h (drops other))) v
  step-Tracks h (expires other now) f q v =
      Unmoved-Tracks Q id c ch h _
        (Ends-Unmoved Q id c ch h _ other (ground arith) (apply_op-Moves h (expires other now))) v
  step-Tracks h (pushes p now job) f q v = quiet-Tracks (apply_op-Moves h (pushes p now job)) v
  step-Tracks h (pops p now) f q v = quiet-Tracks (apply_op-Moves h (pops p now)) v
  step-Tracks h (acquires d) f q v = quiet-Tracks (apply_op-Moves h (acquires d)) v
  step-Tracks h (releases d) f q v = quiet-Tracks (apply_op-Moves h (releases d)) v
  step-Tracks h (submits d result now) f q v =
      submit-Tracks h _ d result q (apply_op-Moves h (submits d result now)) v
  step-Tracks h (receives ch') f q v = receives-Tracks h _ ch' f (apply_op-Moves h (receives ch')) v

  pub run_ops-Tracks :
      (h : Hub) (ops : List HubOp)
      → AllOf (λ op. is_foreign id ch op ≡ true) ops
      → AllOf (Vouches Q id c) ops
      → Tracks Q id c ch h
      → Tracks Q id c ch (run_ops h ops)
  unfolding run_ops
  run_ops-Tracks h [] f q v = v
  run_ops-Tracks h (op ∷ ops) (f, fs) (q, qs) v =
      run_ops-Tracks (apply_op h op) ops fs qs (step-Tracks h op f q v)
