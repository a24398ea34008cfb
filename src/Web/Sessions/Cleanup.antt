-- ===== src/Web/Sessions/Cleanup.antt =====
-- internal/web/client_ws.go: the clean-up of an old connection spares the one that replaced it.
use native.Mathlib.Nat.{mod-eq_of_lt}
use r0rpc.Prelude.{
  ℕ, ◌+◌, ◌%◌, ◌^◌, ◌≤◌, ◌<◌, ◌≡◌, ◌≢◌, refl, ap, ◌∙◌, inl, inr, String, Bool, true, false, not,
  ◌&&◌, some, List, [], ◌∷◌, ◌==◌, string_eq, same_refl, eqb, length, AllOf, arith, by_if,
  Option-cases, Bool-cases,
}
use r0rpc.Prelude.Map.{lookup, lookup-insert, lookup-delete}
use r0rpc.Web.Sessions.{
  ClientWsSessions, ClientWsBinding, replace, clear_if_current, SessionOp, replaces, clears,
  run_ops,
}

-- An operation that neither replaces the client's connection nor clears it under this number.
abbrev pub spares : String → ℕ → SessionOp → Bool
spares c id (replaces d conn) = not (d == c)
spares c id (clears d other) = not (d == c && eqb other id)

clear_spares :
    (c : String) (b : ClientWsBinding) (m : ClientWsSessions) (d : String) (other : ℕ)
    → lookup c m.items ≡ some b
    → spares c b.conn_id (clears d other) ≡ true
    → lookup c (clear_if_current m d other).0.items ≡ some b
unfolding clear_if_current
clear_spares c b m d other e s = elim (Option-cases (lookup d m.items)) [
  | inl n ↦ rw (n, clear_if_current) e
  | inr (current, n) ↦
      rw (n, clear_if_current)
        (by_if (λ (r : ClientWsSessions × Bool). lookup c r.0.items ≡ some b)
          (eqb current.conn_id other)
          (λ same. elim (Bool-cases (d == c)) [
            | inl here ↦
                let at : d ≡ c = (string_eq.same_iff d c).0 here in
                let found : lookup d m.items ≡ some b = ap (λ k. lookup k m.items) at ∙ e in
                ground arith
            | inr there ↦ ground (arith, lookup-delete d c m.items)
          ])
          λ _. e)
]

spared :
    (c : String) (b : ClientWsBinding) (m : ClientWsSessions) (ops : List SessionOp)
    → lookup c m.items ≡ some b
    → AllOf (λ op. spares c b.conn_id op ≡ true) ops
    → lookup c (run_ops m ops).items ≡ some b
unfolding run_ops replace
spared c b m [] e a = e
spared c b m (replaces d conn ∷ ops) e (s, a) =
    let bound : ClientWsBinding = record { conn_id = (m.next_id + 1) % 2 ^ 64; conn = conn } in
    spared c b (replace m d conn).0 ops (ground (arith, lookup-insert d bound c m.items)) a
spared c b m (clears d other ∷ ops) e (s, a) =
    spared c b (clear_if_current m d other).0 ops (clear_spares c b m d other e s) a

next_id-clear :
    (m : ClientWsSessions) (d : String) (other : ℕ)
    → (clear_if_current m d other).0.next_id ≡ m.next_id
unfolding clear_if_current
next_id-clear m d other = ground arith

-- Numbers grow, as long as they do not wrap around.
next_id-le :
    (m : ClientWsSessions) (ops : List SessionOp)
    → m.next_id + length ops < 2 ^ 64
    → (m.next_id ≤ (run_ops m ops).next_id) × ((run_ops m ops).next_id ≤ m.next_id + length ops)
unfolding run_ops replace
next_id-le m [] h = (omega arith, omega arith)
next_id-le m (replaces d conn ∷ ops) h =
    let n : (m.next_id + 1) % 2 ^ 64 ≡ m.next_id + 1 = mod-eq_of_lt (omega (arith, h)) in
    let (a, b) = next_id-le (replace m d conn).0 ops (omega (arith, n, h)) in
    (omega (arith, n, a), omega (arith, n, b))
next_id-le m (clears d other ∷ ops) h =
    let n = next_id-clear m d other in
    let (a, b) = next_id-le (clear_if_current m d other).0 ops (omega (arith, n, h)) in
    (omega (arith, n, a), omega (arith, n, b))

-- The clean-up under a number that is not the current one.
clear_other :
    (m : ClientWsSessions) (c : String) (b : ClientWsBinding) (id : ℕ)
    → lookup c m.items ≡ some b
    → b.conn_id ≢ id
    → clear_if_current m c id ≡ (m, false)
unfolding clear_if_current
clear_other m c b id e ne = rw (e, clear_if_current) (ground arith)

-- The current connection of a client after `replace`.
replace-current :
    (m : ClientWsSessions) (c : String) (conn : ℕ)
    → lookup c (replace m c conn).0.items
      ≡ some (record { conn_id = (replace m c conn).1.0; conn = conn })
unfolding replace
replace-current m c conn =
    lookup-insert c (record { conn_id = (replace m c conn).1.0; conn = conn }) c m.items
    ∙ rw (same_refl c) refl

replace-id :
    (m : ClientWsSessions) (c : String) (conn : ℕ)
    → m.next_id + 1 < 2 ^ 64
    → ((replace m c conn).1.0 ≡ m.next_id + 1) × ((replace m c conn).0.next_id ≡ m.next_id + 1)
unfolding replace
replace-id m c conn h = (mod-eq_of_lt h, mod-eq_of_lt h)

-- A run in which a client connects, other operations follow, and the client connects again.
abbrev pub first_connect : ClientWsSessions → String → ℕ → ClientWsSessions × ℕ
first_connect m c conn = ((replace m c conn).0, (replace m c conn).1.0)

abbrev pub second_connect :
    ClientWsSessions → String → ℕ → List SessionOp → ℕ → ClientWsSessions × ℕ
second_connect m c conn between conn' =
    first_connect (run_ops (first_connect m c conn).0 between) c conn'

-- A client connects twice, with any operations in between, fewer than 2^64 in all; then anything may
-- happen but a further connection of this client and the clean-up of the second one: the clean-up of
-- the first connection clears nothing, and the second connection is still the current one.
pub late_cleanup :
    (m : ClientWsSessions) (c : String) (conn conn' : ℕ) (between ops : List SessionOp)
    → m.next_id + 2 + length between < 2 ^ 64
    → AllOf (λ op. spares c (second_connect m c conn between conn').1 op ≡ true) ops
    → let last = run_ops (second_connect m c conn between conn').0 ops in
      (clear_if_current last c (first_connect m c conn).1 ≡ (last, false))
      × (lookup c last.items
          ≡ some (record { conn_id = (second_connect m c conn between conn').1; conn = conn' }))
late_cleanup m c conn conn' between ops h a =
    let one = first_connect m c conn in
    let two = second_connect m c conn between conn' in
    let b : ClientWsBinding = record { conn_id = two.1; conn = conn' } in
    let (id, n) = replace-id m c conn (omega (arith, h)) in
    let (low, high) = next_id-le one.0 between (omega (arith, n, h)) in
    let (id', n') = replace-id (run_ops one.0 between) c conn' (omega (arith, n, high, h)) in
    let last = spared c b two.0 ops (replace-current (run_ops one.0 between) c conn') a in
    (clear_other (run_ops two.0 ops) c b one.1 last (λ e. omega (arith, e, id, id', low, n)), last)
