-- ===== src/Store/Users/Logins.antt =====
-- internal/store/store.go: a user that was created can log in, as long as nobody changes the account.
use r0rpc.Prelude.{
  ℕ, ◌+◌, ◌≡◌, refl, sym, ap, ◌∙◌, subst, String, Bool, true, false, not, ◌&&◌, Option, none, some,
  List, [], ◌∷◌, ◌==◌, string_eq, same_refl, eqb, inl, inr, Bool-cases, AllOf, arith,
}
use r0rpc.Prelude.Map.{lookup, insert, mapped, lookup-insert, lookup-adjust}
use r0rpc.Store.Users.{
  User, Bcrypt, Users, UserError, UserResult, set_where, update_where, checked_user, checked_row,
  logged_in, authenticate_user, NewUser, user_of, insert_user, with_hash, create_user,
  update_user_status, with_new_hash, update_user_password, UserOp, creates, logs_in, sets_status,
  sets_password, apply_op, run_ops,
}

-- The account under a key is the user's, but for its last login and its notes.
pub record Holds (s : Users) (k : String) (u : User) : Type 0 where
  pub row : User
  pub found : lookup k s.rows ≡ some row
  pub id : row.id ≡ u.id
  pub hash : row.password_hash ≡ u.password_hash
  pub enabled : row.enabled ≡ u.enabled
  pub can_rpc : row.can_rpc ≡ u.can_rpc

-- Whether an operation leaves the account with an id alone.
abbrev pub leaves : ℕ → UserOp → Bool
leaves id (sets_status i enabled can_rpc) = not (eqb i id)
leaves id (sets_password i password) = not (eqb i id)
leaves id _ = true

module _ (k : String) (u : User) where
  -- An update that leaves the account, or changes nothing of it that counts.
  updated-Holds :
      (s : Users) (i : ℕ) (f : User → User)
      → ((v : User)
          → v.id ≡ u.id
          → ((set_where i f v).id ≡ v.id)
            × ((set_where i f v).password_hash ≡ v.password_hash)
            × ((set_where i f v).enabled ≡ v.enabled)
            × ((set_where i f v).can_rpc ≡ v.can_rpc))
      → Holds s k u
      → Holds (update_where i f s) k u
  unfolding update_where
  updated-Holds s i f keeps h =
      let (a, b, c, d) = keeps h.row h.id in
      record {
        row = set_where i f h.row;
        found = lookup-adjust (set_where i f) k s.rows ∙ ap (mapped (set_where i f)) h.found;
        id = a ∙ h.id;
        hash = b ∙ h.hash;
        enabled = c ∙ h.enabled;
        can_rpc = d ∙ h.can_rpc;
      }

  other-Holds :
      (s : Users) (i : ℕ) (f : User → User)
      → not (eqb i u.id) ≡ true
      → Holds s k u
      → Holds (update_where i f s) k u
  other-Holds s i f n h =
      updated-Holds s i f
        (λ v same.
          let off : eqb v.id i ≡ false = ground (arith, same) in rw off (refl, refl, refl, refl))
        h

  module _ (key : String → String) (bcrypt : Bcrypt) where
    logged_in-Holds :
        (s : Users) (now : ℕ) (r : UserResult) → Holds s k u → Holds (logged_in s now r).0 k u
    logged_in-Holds s now (inl e) h = h
    logged_in-Holds s now (inr w) h =
        updated-Holds s w.id _
          (λ v same. elim (Bool-cases (eqb v.id w.id)) [
            | inl e ↦ rw e (refl, refl, refl, refl)
            | inr e ↦ rw e (refl, refl, refl, refl)
          ])
          h

    inserted-Holds :
        (s : Users) (r : NewUser) (hash : String) (o : Option User)
        → lookup (key r.username) s.rows ≡ o
        → Holds s k u
        → Holds (insert_user key s r hash o).0 k u
    inserted-Holds s r hash (some w) e h = h
    inserted-Holds s r hash none e h = record {
      row = h.row;
      found =
          lookup-insert (key r.username) (user_of r hash s.next_id) k s.rows
          ∙ elim (Bool-cases (key r.username == k)) [
            | inl same ↦ absurd (cc (h.found, e, (string_eq.same_iff (key r.username) k).0 same))
            | inr other ↦ rw other h.found
          ];
      id = h.id;
      hash = h.hash;
      enabled = h.enabled;
      can_rpc = h.can_rpc;
    }

    with_hash-Holds :
        (s : Users) (r : NewUser) (o : Option String)
        → Holds s k u
        → Holds (with_hash key s r o).0 k u
    with_hash-Holds s r none h = h
    with_hash-Holds s r (some hash) h = inserted-Holds s r hash _ refl h

    with_new_hash-Holds :
        (s : Users) (i : ℕ) (o : Option String)
        → not (eqb i u.id) ≡ true
        → Holds s k u
        → Holds (with_new_hash s i o).0 k u
    with_new_hash-Holds s i none n h = h
    with_new_hash-Holds s i (some hash) n h = other-Holds s i _ n h

    apply_op-Holds :
        (s : Users) (op : UserOp)
        → leaves u.id op ≡ true
        → Holds s k u
        → Holds (apply_op key bcrypt s op) k u
    unfolding apply_op create_user authenticate_user update_user_status update_user_password
    apply_op-Holds s (creates r) n h = with_hash-Holds s r (bcrypt.generate r.password) h
    apply_op-Holds s (logs_in username password rpc now) n h =
        logged_in-Holds s now (checked_row bcrypt password rpc (lookup (key username) s.rows)) h
    apply_op-Holds s (sets_status i enabled can_rpc) n h = other-Holds s i _ n h
    apply_op-Holds s (sets_password i password) n h =
        with_new_hash-Holds s i (bcrypt.generate password) n h

    run_ops-Holds :
        (s : Users) (ops : List UserOp)
        → AllOf (λ op. leaves u.id op ≡ true) ops
        → Holds s k u
        → Holds (run_ops key bcrypt s ops) k u
    unfolding run_ops
    run_ops-Holds s [] a h = h
    run_ops-Holds s (op ∷ ops) (n, a) h =
        run_ops-Holds (apply_op key bcrypt s op) ops a (apply_op-Holds s op n h)

-- What a login with the right password gets.
abbrev pub Admits : NewUser → User → Bool → UserResult → Type 0
Admits r u rpc (inr v) = (r.enabled ≡ true) × (v.id ≡ u.id) × ((rpc ≡ true) → r.can_rpc ≡ true)
Admits r u rpc (inl UserError.account_disabled) = r.enabled ≡ false
Admits r u rpc (inl UserError.rpc_access_denied) = (rpc ≡ true) × (r.can_rpc ≡ false)
Admits r u rpc (inl e) = inl e ≡ inr u

checked-Admits :
    (bcrypt : Bcrypt) (r : NewUser) (u v : User) (rpc : Bool)
    → v.id ≡ u.id
    → v.enabled ≡ r.enabled
    → v.can_rpc ≡ r.can_rpc
    → bcrypt.compares v.password_hash r.password ≡ true
    → Admits r u rpc (checked_user bcrypt r.password rpc v)
checked-Admits bcrypt r u v rpc ei ee ec em = elim (Bool-cases v.enabled) [
  | inr off ↦ rw off (sym ee ∙ off)
  | inl on ↦ elim (Bool-cases (rpc && not v.can_rpc)) [
    | inl denied ↦ rw (on, denied) (ground arith, ground arith)
    | inr allowed ↦ rw (on, allowed, em) (sym ee ∙ on, ei, λ needs. ground arith)
  ]
]

result-logged_in : (s : Users) (now : ℕ) (r : UserResult) → (logged_in s now r).1 ≡ r
result-logged_in s now (inl e) = refl
result-logged_in s now (inr u) = refl

held-Admits :
    (key : String → String) (bcrypt : Bcrypt) (t : Users) (r : NewUser) (hash : String) (id : ℕ)
    (rpc : Bool) (now : ℕ)
    → bcrypt.generate r.password ≡ some hash
    → Holds t (key r.username) (user_of r hash id)
    → Admits r
        (user_of r hash id)
        rpc
        (authenticate_user key bcrypt t r.username r.password rpc now).1
unfolding authenticate_user
held-Admits key bcrypt t r hash id rpc now made h =
    subst (Admits r (user_of r hash id) rpc) (sym (result-logged_in t now _)) (
      rw h.found (
        checked-Admits bcrypt r (user_of r hash id) h.row rpc h.id h.enabled h.can_rpc (
          ap (λ x. bcrypt.compares x r.password) h.hash
          ∙ bcrypt.compares-generate r.password hash made)))

-- A user that was created on a table without one of that name can log in with the password, after any calls
-- of the handlers that do not change the status or the password of its id: exactly if the account is
-- enabled, and may call if that is required. No other reason turns the login down.
pub created_user-Admits :
    (key : String → String) (bcrypt : Bcrypt) (s : Users) (r : NewUser) (hash : String)
    (ops : List UserOp) (rpc : Bool) (now : ℕ)
    → bcrypt.generate r.password ≡ some hash
    → lookup (key r.username) s.rows ≡ none
    → AllOf (λ op. leaves s.next_id op ≡ true) ops
    → Admits r
        (user_of r hash s.next_id)
        rpc
        (authenticate_user key bcrypt
          (run_ops key bcrypt (create_user key bcrypt s r).0 ops)
          r.username
          r.password
          rpc
          now).1
unfolding create_user
created_user-Admits key bcrypt s r hash ops rpc now made free a =
    let u = user_of r hash s.next_id in
    let k = key r.username in
    let made_user : Users = record { rows = insert k u s.rows; next_id = s.next_id + 1 } in
    let start : Holds made_user k u = record {
      row = u;
      found = ground (arith, lookup-insert k u k s.rows, same_refl k);
      id = refl;
      hash = refl;
      enabled = refl;
      can_rpc = refl;
    } in
    rw (made, free)
      (held-Admits key bcrypt (run_ops key bcrypt made_user ops) r hash s.next_id rpc now made
        (run_ops-Holds k u key bcrypt made_user ops a start))
