-- ===== src/Store/Users/Unique.antt =====
-- internal/store/store.go: whatever the handlers do, names and ids of users are unique.
use r0rpc.Prelude.{
  ℕ, ◌<◌, ◌≡◌, refl, sym, ap, ◌∙◌, String, Option, none, some, some-injective, List, [], ◌∷◌, ◌==◌,
  string_eq, inl, inr, Bool-cases, Option-cases, arith,
}
use r0rpc.Prelude.Map.{Map, lookup, adjust, mapped, lookup-insert, lookup-adjust}
use r0rpc.Store.Users.{
  User, Bcrypt, Users, UserResult, set_where, update_where, checked_row, logged_in,
  authenticate_user, NewUser, user_of, insert_user, with_hash, create_user, update_user_status,
  with_new_hash, update_user_password, UserOp, creates, logs_in, sets_status, sets_password,
  apply_op, run_ops,
}
use r0rpc.Store.Users.Retained.{
  Retains, Retains-refl, Retains-trans, Keeps, set_where-Keeps, apply_op-Retains,
}

-- Every row stands under the key of its name, has an id that was given out, and no two rows have an id.
pub record IsUnique (key : String → String) (s : Users) : Type 0 where
  pub named : (k : String) (u : User) → lookup k s.rows ≡ some u → key u.username ≡ k
  pub given : (k : String) (u : User) → lookup k s.rows ≡ some u → u.id < s.next_id
  pub distinct :
      (k j : String) (u v : User)
      → lookup k s.rows ≡ some u
      → lookup j s.rows ≡ some v
      → u.id ≡ v.id
      → k ≡ j

-- The row before an update.
pub row_before :
    (f : User → User) (k : String) (m : Map String User) (u : User)
    → lookup k (adjust f m) ≡ some u
    → (v : User) × (lookup k m ≡ some v) × (f v ≡ u)
row_before f k m u e = elim (Option-cases (lookup k m)) [
  | inl n ↦ ground (arith, lookup-adjust f k m)
  | inr (v, n) ↦ (v, n, some-injective _ _ (ap (mapped f) (sym n) ∙ sym (lookup-adjust f k m) ∙ e))
]

module _ (key : String → String) where
  update_where-IsUnique :
      (id : ℕ) (f : User → User) (s : Users)
      → Keeps f
      → IsUnique key s
      → IsUnique key (update_where id f s)
  unfolding update_where
  update_where-IsUnique id f s keeps v =
      let g = set_where id f in
      let kept = set_where-Keeps id f keeps in
      record {
        named = λ k u e.
            let (w, at, is) = row_before g k s.rows u e in
            ap (λ (x : User). key x.username) (sym is) ∙ ap key (kept w).same_name ∙ v.named k w at;
        given = λ k u e.
            let (w, at, is) = row_before g k s.rows u e in
            let low = v.given k w at in
            omega (arith, low, ap (λ (x : User). x.id) is, (kept w).same_id);
        distinct = λ k j u x e f' same.
            let (w, at, is) = row_before g k s.rows u e in
            let (y, at', is') = row_before g j s.rows x f' in
            v.distinct k j w y at at' (
              sym (kept w).same_id
              ∙ ap (λ (z : User). z.id) is
              ∙ same
              ∙ ap (λ (z : User). z.id) (sym is')
              ∙ (kept y).same_id);
      }

  module _ (bcrypt : Bcrypt) where
    logged_in-IsUnique :
        (s : Users) (now : ℕ) (r : UserResult) → IsUnique key s → IsUnique key (logged_in s now r).0
    logged_in-IsUnique s now (inl e) v = v
    logged_in-IsUnique s now (inr u) v =
        update_where-IsUnique u.id _ s
          (λ w. record { same_id = refl; same_name = refl; same_role = refl }) v

    insert_user-IsUnique :
        (s : Users) (r : NewUser) (hash : String) (o : Option User)
        → lookup (key r.username) s.rows ≡ o
        → IsUnique key s
        → IsUnique key (insert_user key s r hash o).0
    insert_user-IsUnique s r hash (some u) e v = v
    insert_user-IsUnique s r hash none e v =
        let k' = key r.username in
        let fresh = user_of r hash s.next_id in
        let at = λ (k : String). lookup-insert k' fresh k s.rows in
        record {
          named = λ k u f. elim (Bool-cases (k' == k)) [
            | inl same ↦
                let is : fresh ≡ u = some-injective _ _ (ground (arith, at k)) in
                ap (λ (x : User). key x.username) (sym is) ∙ (string_eq.same_iff k' k).0 same
            | inr other ↦ v.named k u (ground (arith, at k))
          ];
          given = λ k u f. elim (Bool-cases (k' == k)) [
            | inl same ↦
                let is : fresh ≡ u = some-injective _ _ (ground (arith, at k)) in
                omega (arith, ap (λ (x : User). x.id) is)
            | inr other ↦ omega (arith, v.given k u (ground (arith, at k)))
          ];
          distinct = λ k j u w f g same. elim (Bool-cases (k' == k)) [
            | inl here ↦ elim (Bool-cases (k' == j)) [
              | inl there ↦
                  sym ((string_eq.same_iff k' k).0 here) ∙ (string_eq.same_iff k' j).0 there
              | inr other ↦
                  let is : fresh ≡ u = some-injective _ _ (ground (arith, at k)) in
                  let low = v.given j w (ground (arith, at j)) in
                  absurd (omega (arith, ap (λ (x : User). x.id) is, low, same))
            ]
            | inr away ↦ elim (Bool-cases (k' == j)) [
              | inl there ↦
                  let is : fresh ≡ w = some-injective _ _ (ground (arith, at j)) in
                  let low = v.given k u (ground (arith, at k)) in
                  absurd (omega (arith, ap (λ (x : User). x.id) is, low, same))
              | inr other ↦ v.distinct k j u w (ground (arith, at k)) (ground (arith, at j)) same
            ]
          ];
        }

    with_hash-IsUnique :
        (s : Users) (r : NewUser) (h : Option String)
        → IsUnique key s
        → IsUnique key (with_hash key s r h).0
    with_hash-IsUnique s r none v = v
    with_hash-IsUnique s r (some hash) v = insert_user-IsUnique s r hash _ refl v

    with_new_hash-IsUnique :
        (s : Users) (id : ℕ) (h : Option String)
        → IsUnique key s
        → IsUnique key (with_new_hash s id h).0
    with_new_hash-IsUnique s id none v = v
    with_new_hash-IsUnique s id (some hash) v =
        update_where-IsUnique id _ s
          (λ w. record { same_id = refl; same_name = refl; same_role = refl }) v

    apply_op-IsUnique :
        (s : Users) (op : UserOp) → IsUnique key s → IsUnique key (apply_op key bcrypt s op)
    unfolding apply_op create_user authenticate_user update_user_status update_user_password
    apply_op-IsUnique s (creates r) v = with_hash-IsUnique s r (bcrypt.generate r.password) v
    apply_op-IsUnique s (logs_in username password rpc now) v =
        logged_in-IsUnique s now (checked_row bcrypt password rpc (lookup (key username) s.rows)) v
    apply_op-IsUnique s (sets_status id enabled can_rpc) v =
        update_where-IsUnique id _ s
          (λ w. record { same_id = refl; same_name = refl; same_role = refl }) v
    apply_op-IsUnique s (sets_password id password) v =
        with_new_hash-IsUnique s id (bcrypt.generate password) v

    -- Names and ids are unique, and the accounts of a table before are still there.
    pub record Continues (s t : Users) : Type 0 where
      pub unique : IsUnique key t
      pub retained : Retains s t

    -- Whatever the handlers do, and in whatever order, on a table in which every row stands under the key of its
    -- name and ids are unique and below the next one: this still holds, and every account that there was
    -- is still there, with its id, its name and its role.
    pub run_ops-Continues :
        (s : Users) (ops : List UserOp) → IsUnique key s → Continues s (run_ops key bcrypt s ops)
    unfolding run_ops
    run_ops-Continues s [] v = record { unique = v; retained = Retains-refl s }
    run_ops-Continues s (op ∷ ops) v =
        let t = apply_op key bcrypt s op in
        let later = run_ops-Continues t ops (apply_op-IsUnique s op v) in
        record {
          unique = later.unique;
          retained =
              Retains-trans s t (run_ops key bcrypt t ops) (apply_op-Retains key bcrypt s op)
                later.retained;
        }
