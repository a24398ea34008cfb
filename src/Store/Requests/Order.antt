-- ===== src/Store/Requests/Order.antt =====
-- internal/store/store.go: the record of a call does not depend on the order in which the workers write it.
use r0rpc.Prelude.{
  ℕ, String, ℤ, Option, none, some, ◌≡◌, refl, sym, ap, ◌∙◌, ◌⊎◌, inl, inr, ◌==◌, string_eq,
  if◌then◌else◌, arith, Bool-cases, same_refl,
}
use r0rpc.Prelude.Map.{Map, lookup, insert, lookup-insert}
use r0rpc.Store.Requests.{
  Item, Row, nullable_json, named_or, coalesce, inserted, created_row, completed_row,
  create_rpc_request, complete_rpc_request,
}

-- Two values of a field that agree: they are the same, or one of the writers does not know it.
abbrev pub Agree {ℓ} : {A : Type ℓ} → A → A → A → Type ℓ
Agree unknown x y = (x ≡ y) ⊎ (x ≡ unknown) ⊎ (y ≡ unknown)

-- Two records of one call.
pub record SameCall (a b : Item) : Type 0 where
  pub id : a.request_id ≡ b.request_id
  pub group : Agree "" a.group b.group
  pub action : Agree "" a.action b.action
  pub client : Agree "" a.client_id b.client_id
  pub requester : Agree none a.requester b.requester
  pub payload : Agree none (nullable_json a.request_payload) (nullable_json b.request_payload)

named_or_comm :
    (x y r : String) → Agree "" x y → named_or y (named_or x r) ≡ named_or x (named_or y r)
named_or_comm x y r (inl e) = rw e refl
named_or_comm x y r (inr (inl e)) = rw e refl
named_or_comm x y r (inr (inr e)) = rw e refl

known_or_empty : (y : String) → named_or y "" ≡ y
known_or_empty y = elim (Bool-cases (y == "")) [
  | inl e ↦ rw e (sym ((string_eq.same_iff y "").0 e))
  | inr e ↦ rw e refl
]

named_or_empty : (x y : String) → Agree "" x y → named_or y x ≡ named_or x y
named_or_empty x y (inl e) = rw e refl
named_or_empty x y (inr (inl e)) = rw e (known_or_empty y)
named_or_empty x y (inr (inr e)) = rw e (sym (known_or_empty x))

coalesce_comm :
    {A : Type 0} (x y r : Option A)
    → Agree none x y
    → coalesce y (coalesce x r) ≡ coalesce x (coalesce y r)
coalesce_comm x y r (inl e) = rw e refl
coalesce_comm x y r (inr (inl e)) = rw e refl
coalesce_comm x y r (inr (inr e)) = rw e refl

known_none : {A : Type 0} (y : Option A) → coalesce y none ≡ y
known_none none = refl
known_none (some a) = refl

coalesce-none : {A : Type 0} (x y : Option A) → Agree none x y → coalesce y x ≡ coalesce x y
coalesce-none x y (inl e) = rw e refl
coalesce-none x y (inr (inl e)) = rw e (known_none y)
coalesce-none x y (inr (inr e)) = rw e (sym (known_none x))

-- The five fields that both write, by the fields of the row that there is.
pub Row-same :
    (i : Item) (now : ℕ) (g g' a a' c c' : String) (r r' : Option ℤ) (p p' : Option String)
    → g ≡ g'
    → a ≡ a'
    → c ≡ c'
    → r ≡ r'
    → p ≡ p'
    → (λ (g a c : String) (r : Option ℤ) (p : Option String). record (inserted i (some now)) {
      group = g;
      action = a;
      client_id = c;
      requester = r;
      request_payload = p;
    })
        g a c r p
      ≡ (λ (g a c : String) (r : Option ℤ) (p : Option String). record (inserted i (some now)) {
        group = g;
        action = a;
        client_id = c;
        requester = r;
        request_payload = p;
      })
          g' a' c' r' p'
Row-same i now g g' a a' c c' r r' p p' e f h k l = λ t. record (inserted i (some now)) {
  group = e t;
  action = f t;
  client_id = h t;
  requester = k t;
  request_payload = l t;
}

created-completed :
    (a b : Item) (now : ℕ) (o : Option Row)
    → SameCall a b
    → completed_row b now (some (created_row a o)) ≡ created_row a (some (completed_row b now o))
unfolding created_row completed_row
created-completed a b now none s =
    Row-same b now _ _ _ _ _ _ _ _ _ _ (named_or_empty _ _ s.group) (named_or_empty _ _ s.action)
      (named_or_empty _ _ s.client) (coalesce-none _ _ s.requester) (coalesce-none _ _ s.payload)
created-completed a b now (some r) s =
    Row-same b now _ _ _ _ _ _ _ _ _ _ (named_or_comm _ _ r.group s.group)
      (named_or_comm _ _ r.action s.action) (named_or_comm _ _ r.client_id s.client)
      (coalesce_comm _ _ r.requester s.requester) (coalesce_comm _ _ r.request_payload s.payload)

inserted_twice :
    (id k : String) (r r' : Row) (m : Map String Row)
    → lookup k (insert id r (insert id r' m)) ≡ (if id == k then some r else lookup k m)
inserted_twice id k r r' m =
    ground (arith, lookup-insert id r k (insert id r' m), lookup-insert id r' k m)

own_row : (id : String) (r : Row) (m : Map String Row) → lookup id (insert id r m) ≡ some r
own_row id r m = ground (arith, lookup-insert id r id m, same_refl id)

-- Two records of one call, its creation and its completion, that agree on the fields of the call wherever
-- both know them, leave the same table whichever is written first, whatever row there was before.
pub create_or_complete_first :
    (m : Map String Row) (a b : Item) (now : ℕ) (k : String)
    → SameCall a b
    → lookup k (complete_rpc_request now (create_rpc_request m a) b)
      ≡ lookup k (create_rpc_request (complete_rpc_request now m b) a)
unfolding create_rpc_request complete_rpc_request
create_or_complete_first m a b now k s =
    rw
      (
        s.id,
        own_row b.request_id (created_row a (lookup b.request_id m)) m,
        own_row b.request_id (completed_row b now (lookup b.request_id m)) m,
      )
      (inserted_twice b.request_id k _ _ m
        ∙ ap (λ r. if b.request_id == k then some r else lookup k m)
            (created-completed a b now (lookup b.request_id m) s)
        ∙ sym (inserted_twice b.request_id k _ _ m))
