-- ===== src/Rpc/Invoke/Waiting.antt =====
-- internal/rpc/hub.go, `Invoke`: the channel of a call that waits belongs to that call alone, whatever the
-- other goroutines do.
use r0rpc.Prelude.{
  ℕ, ◌≡◌, ◌≢◌, sym, ap, ◌∙◌, subst, ◌⊎◌, inl, inr, String, Bool, true, false, not, ◌&&◌, Option,
  none, some, some-injective, ◌==◌, string_eq, eqb, get_elem?, arith, Bool-cases,
}
use r0rpc.Prelude.Map.{lookup, lookup-delete}
use r0rpc.Rpc.Job.{JobResult}
use r0rpc.Rpc.State.{Hub, WaiterEntry}
use r0rpc.Rpc.Results.{send_or_drop}
use r0rpc.Rpc.Results.Mail.{SameMail, Ends, Delivers, send_or_drop-other, send_or_drop-here}
use r0rpc.Rpc.Ops.{HubOp, stores, drops, expires, submits, receives}

abbrev pub entry_of : String → ℕ → WaiterEntry
entry_of c ch = record { client_id = c; result_ch = ch }

-- Whether an operation of another goroutine leaves the call and its channel to the call: it starts
-- and ends other waits, and uses other channels.
abbrev pub is_foreign : String → ℕ → HubOp → Bool
is_foreign id ch (stores other c ch' now) = not (other == id) && not (eqb ch' ch)
is_foreign id ch (drops other) = not (other == id)
is_foreign id ch (expires other now) = not (other == id)
is_foreign id ch (receives ch') = not (eqb ch' ch)
is_foreign id ch _ = true

-- An operation that submits a result of the client for the call submits one with the property `Q`.
abbrev pub Vouches : (JobResult → Type 0) → String → String → HubOp → Type 0
Vouches Q id c (submits c' result now) = c' ≡ c → result.request_id ≡ id → Q result
Vouches Q id c _ = Unit

module _ (Q : JobResult → Type 0) (id c : String) (ch : ℕ) where
  abbrev pub Empty : Hub → Type 0
  Empty h = (lookup id h.waiters ≡ some (entry_of c ch)) × (get_elem? h.channels ch ≡ some none)

  abbrev pub Filled : Hub → Type 0
  Filled h =
      (lookup id h.waiters ≡ none)
      × ((r : JobResult) × (get_elem? h.channels ch ≡ some (some r)) × (r.request_id ≡ id) × Q r)

  -- The call waits with an empty channel, or its channel holds a result of its client. No other call
  -- has the channel.
  pub record Tracks (h : Hub) : Type 0 where
    pub separate :
        (other : String) (w : WaiterEntry)
        → other ≢ id
        → lookup other h.waiters ≡ some w
        → w.result_ch ≢ ch
    pub stage : Empty h ⊎ Filled h

  pub record Unmoved (h k : Hub) : Type 0 where
    pub call : lookup id k.waiters ≡ lookup id h.waiters
    pub slot :
        {o : Option JobResult} → get_elem? h.channels ch ≡ some o → get_elem? k.channels ch ≡ some o
    pub others :
        (other : String) (w : WaiterEntry)
        → other ≢ id
        → lookup other k.waiters ≡ some w
        → (lookup other h.waiters ≡ some w) ⊎ (w.result_ch ≢ ch)

  pub Unmoved-Tracks : (h k : Hub) → Unmoved h k → Tracks h → Tracks k
  Unmoved-Tracks h k u v = record {
    separate = λ other w ne e. elim (u.others other w ne e) [
      | inl old ↦ v.separate other w ne old
      | inr n ↦ n
    ];
    stage = elim v.stage [
      | inl (a, b) ↦ inl (u.call ∙ a, u.slot b)
      | inr (a, (r, b, i, q)) ↦ inr (u.call ∙ a, (r, u.slot b, i, q))
    ];
  }

  pub SameMail-Unmoved : (h k : Hub) → SameMail h k → Unmoved h k
  SameMail-Unmoved h k s = record {
    call = ap (λ m. lookup id m) s.waiters;
    slot = λ e. ap (λ l. get_elem? l ch) s.channels ∙ e;
    others = λ other w ne e. inl (sym (ap (λ m. lookup other m) s.waiters) ∙ e);
  }

  pub Ends-Unmoved :
      (h k : Hub) (ended : String) → (ended == id) ≡ false → Ends ended h k → Unmoved h k
  Ends-Unmoved h k ended ne s = record {
    call = ground (arith, s.waiters id);
    slot = λ e. ap (λ l. get_elem? l ch) s.channels ∙ e;
    others = λ other w n e. inl (ground (arith, s.waiters other));
  }

  other_id : (a : String) → a ≢ id → (a == id) ≡ false
  other_id a n = elim (Bool-cases (a == id)) [
    | inl e ↦ absurd (n ((string_eq.same_iff a id).0 e))
    | inr e ↦ e
  ]

  -- The result of another call goes to another channel.
  pub other-Delivers :
      (h k : Hub) (c' : String) (result : JobResult)
      → result.request_id ≢ id
      → Delivers c' result h k
      → Tracks h
      → Tracks k
  other-Delivers h k c' result ne d v =
      let apart = v.separate result.request_id d.entry ne d.waiting in
      let off = other_id result.request_id ne in
      let gone = λ (j : String).
        ap (λ m. lookup j m) d.waiters ∙ lookup-delete result.request_id j h.waiters in
      Unmoved-Tracks h k
        (record {
          call = ground (arith, gone id);
          slot = λ e.
              ap (λ l. get_elem? l ch) d.channels
              ∙ send_or_drop-other h.channels d.entry.result_ch ch result apart
              ∙ e;
          others = λ other w n e. inl (ground (arith, gone other));
        })
        v

  -- A result for the call comes from its client, and fills the channel.
  pub own-Delivers :
      (h k : Hub) (c' : String) (result : JobResult)
      → result.request_id ≡ id
      → (c' ≡ c → result.request_id ≡ id → Q result)
      → Delivers c' result h k
      → Tracks h
      → Tracks k
  own-Delivers h k c' result same q d v =
      let at : lookup id h.waiters ≡ some d.entry =
        subst (λ i. lookup i h.waiters ≡ some d.entry) same d.waiting in
      let gone = λ (j : String).
        ap (λ m. lookup j m) d.waiters ∙ lookup-delete result.request_id j h.waiters in
      let off = (string_eq.same_iff result.request_id id).1 same in
      record {
        separate = λ other w n e. v.separate other w n (ground (arith, gone other));
        stage = elim v.stage [
          | inl (a, b) ↦
              let is : d.entry ≡ entry_of c ch =
                some-injective d.entry (entry_of c ch) (sym at ∙ a) in
              inr (
                ground (arith, gone id),
                (
                  result,
                  ap (λ l. get_elem? l ch) d.channels
                      ∙ ap
                          (λ (x : WaiterEntry).
                            get_elem? (send_or_drop h.channels x.result_ch result) ch)
                          is
                      ∙ send_or_drop-here h.channels ch result b,
                  same,
                  q (sym d.owner ∙ ap (λ (x : WaiterEntry). x.client_id) is) same,
                ),
              )
          | inr (a, rest) ↦ ground (arith, sym at ∙ a)
        ];
      }
