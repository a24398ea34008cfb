-- ===== src/Store/Requests/Statements.antt =====
-- internal/store/store.go, `CompleteRPCRequests`: its statements do what single completions do.
use r0rpc.Prelude.{
  ℕ, zero, suc, ◌≤◌, String, not, Option, none, some, List, [], ◌∷◌, ◌≡◌, refl, sym, ◌∙◌, ◌==◌,
  string_eq, if◌then◌else◌, arith, take, drop, length, Bool-cases, inl, inr,
}
use r0rpc.Prelude.Map.{Map, lookup}
use r0rpc.Store.Requests.{
  Item, Row, named_or, completed_row, complete_rpc_request, batch_row, complete_statement,
  complete_statements, complete_rpc_requests,
}
use r0rpc.Store.Requests.Order.{Row-same}

-- One completion after another, at the times of the statements: `room` more of them at the time with the
-- number `j`, and then 128 at each later one.
abbrev pub complete_singly : (ℕ → ℕ) → ℕ → ℕ → Map String Row → List Item → Map String Row
complete_singly times j room m [] = m
complete_singly times j (suc room) m (i ∷ items) =
    complete_singly times j room (complete_rpc_request (times j) m i) items
complete_singly times j zero m (i ∷ items) =
    complete_singly times (suc j) 127 (complete_rpc_request (times (suc j)) m i) items

unless_empty : (x r : String) → (if not (x == "") then x else r) ≡ named_or x r
unless_empty x r = elim (Bool-cases (x == "")) [ inl e ↦ rw e refl | inr e ↦ rw e refl ]

batch_row-single : (i : Item) (now : ℕ) (o : Option Row) → batch_row i now o ≡ completed_row i now o
unfolding batch_row completed_row
batch_row-single i now none = refl
batch_row-single i now (some r) =
    Row-same i now _ _ _ _ _ _ _ _ _ _ (unless_empty i.group r.group)
      (unless_empty i.action r.action) (unless_empty i.client_id r.client_id) refl refl

next_statement :
    (times : ℕ → ℕ) (j : ℕ) (m : Map String Row) (items : List Item)
    → complete_singly times j zero m items ≡ complete_singly times (suc j) 128 m items
next_statement times j m [] = refl
next_statement times j m (i ∷ items) = refl

statement_singly :
    (times : ℕ → ℕ) (j room : ℕ) (m : Map String Row) (items : List Item)
    → complete_singly times j room m items
      ≡ complete_singly times j zero
          (complete_statement (times j) m (take room items))
          (drop room items)
unfolding complete_statement complete_rpc_request
statement_singly times j zero m items = refl
statement_singly times j (suc room) m [] = refl
statement_singly times j (suc room) m (i ∷ items) =
    rw (batch_row-single i (times j) (lookup i.request_id m), complete_statement)
      (statement_singly times j room _ items)

length-drop : {A : Type 0} (n : ℕ) (x : A) (l : List A) → length (drop (suc n) (x ∷ l)) ≤ length l
length-drop zero x l = omega arith
length-drop (suc n) x [] = omega arith
length-drop (suc n) x (y ∷ l) = omega (arith, length-drop n y l)

statements_singly :
    (fuel : ℕ) (times : ℕ → ℕ) (j : ℕ) (m : Map String Row) (items : List Item)
    → length items ≤ fuel
    → complete_statements fuel times j m items ≡ complete_singly times j 128 m items
unfolding complete_statements
statements_singly fuel times j m [] h = refl
statements_singly zero times j m (i ∷ items) h = elim h [ ]
statements_singly (suc fuel) times j m (i ∷ items) h =
    statements_singly fuel times (suc j) _ (drop 128 (i ∷ items))
      (omega (arith, length-drop 127 i items))
    ∙ sym (next_statement times j _ (drop 128 (i ∷ items)))
    ∙ sym (statement_singly times j 128 m (i ∷ items))

-- `CompleteRPCRequests` leaves the table as `CompleteRPCRequest` would, called for one item after another in
-- their order, for each 128 of them at the time of their statement.
pub complete_rpc_requests-singly :
    (times : ℕ → ℕ) (m : Map String Row) (items : List Item)
    → complete_rpc_requests times m items ≡ complete_singly times 0 128 m items
unfolding complete_rpc_requests
complete_rpc_requests-singly times m items =
    statements_singly (length items) times 0 m items (omega arith)
