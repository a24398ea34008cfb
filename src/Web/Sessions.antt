-- ===== src/Web/Sessions.antt =====
-- internal/web/client_ws.go, `clientWSSessions`: the current connection of each client. Each function is
-- one critical section. A connection, with the function that cancels its context, is a number.
pub mod Cleanup
use r0rpc.Prelude.{
  ℕ, ◌+◌, ◌%◌, ◌^◌, String, Bool, true, false, Option, none, some, string_eq, eqb, if◌then◌else◌,
  List, [], ◌∷◌,
}
use r0rpc.Prelude.Map
use r0rpc.Prelude.Map.{Map, lookup, insert, delete}

pub record ClientWsBinding : Type 0 where
  pub conn_id : ℕ
  pub conn : ℕ

pub record ClientWsSessions : Type 0 where
  pub next_id : ℕ
  pub items : Map String ClientWsBinding

unfoldable pub new_client_ws_sessions : ClientWsSessions
new_client_ws_sessions = record { next_id = 0; items = Map.empty }

-- The number of the new connection, and the connection that it replaces, which is then closed.
unfoldable pub replace :
    ClientWsSessions → String → ℕ → ClientWsSessions × (ℕ × Option ClientWsBinding)
replace m client_id conn =
    let conn_id = (m.next_id + 1) % 2 ^ 64 in
    let bound : ClientWsBinding = record { conn_id = conn_id; conn = conn } in
    (
      record { next_id = conn_id; items = insert client_id bound m.items },
      (conn_id, lookup client_id m.items),
    )

unfoldable pub clear_if_current : ClientWsSessions → String → ℕ → ClientWsSessions × Bool
clear_if_current m client_id conn_id = elim (lookup client_id m.items) [
  | none ↦ (m, false)
  | some current ↦
      if eqb current.conn_id conn_id
      then (record m { items = delete client_id m.items }, true)
      else (m, false)
]

-- The critical sections of the handlers of all connections, in the order in which they happen.
pub data SessionOp : Type 0 where
  replaces : String → ℕ → SessionOp
  clears : String → ℕ → SessionOp

unfoldable pub run_ops : ClientWsSessions → List SessionOp → ClientWsSessions
run_ops m [] = m
run_ops m (replaces c conn ∷ ops) = run_ops (replace m c conn).0 ops
run_ops m (clears c conn_id ∷ ops) = run_ops (clear_if_current m c conn_id).0 ops
