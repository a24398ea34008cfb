-- ===== src/Store/Users/Retained.antt =====
-- internal/store/store.go: whatever the handlers do, the accounts that there are stay.
use r0rpc.Prelude.{
  ℕ, ◌≡◌, refl, ap, ◌∙◌, String, Option, none, some, ◌==◌, string_eq, eqb, inl, inr, Bool-cases,
  arith,
}
use r0rpc.Prelude.Map.{lookup, mapped, lookup-insert, lookup-adjust}
use r0rpc.Store.Users.{
  User, Bcrypt, Users, UserResult, set_where, update_where, checked_row, logged_in,
  authenticate_user, NewUser, user_of, insert_user, with_hash, create_user, update_user_status,
  with_new_hash, update_user_password, UserOp, creates, logs_in, sets_status, sets_password,
  apply_op,
}

-- The same account: its id, its name and its role.
pub record SameAccount (u v : User) : Type 0 where
  pub same_id : v.id ≡ u.id
  pub same_name : v.username ≡ u.username
  pub same_role : v.role ≡ u.role

pub same_account : (u : User) → SameAccount u u
same_account u = record { same_id = refl; same_name = refl; same_role = refl }

-- Every account that was there is still there, under its key.
abbrev pub Retains : Users → Users → Type 0
Retains s t =
    (k : String) (u : User)
    → lookup k s.rows ≡ some u
    → (v : User) × (lookup k t.rows ≡ some v) × SameAccount u v

pub Retains-refl : (s : Users) → Retains s s
Retains-refl s k u e = (u, e, same_account u)

pub Retains-trans : (s t r : Users) → Retains s t → Retains t r → Retains s r
Retains-trans s t r f g k u e =
    let (v, at, a) = f k u e in
    let (w, at', b) = g k v at in
    (
      w,
      at',
      record {
        same_id = b.same_id ∙ a.same_id;
        same_name = b.same_name ∙ a.same_name;
        same_role = b.same_role ∙ a.same_role;
      },
    )

-- A change of a row that keeps the account.
abbrev pub Keeps : (User → User) → Type 0
Keeps f = (u : User) → SameAccount u (f u)

pub set_where-Keeps : (id : ℕ) (f : User → User) → Keeps f → Keeps (set_where id f)
set_where-Keeps id f keeps u = elim (Bool-cases (eqb u.id id)) [
  | inl e ↦ rw e (keeps u)
  | inr e ↦ rw e (same_account u)
]

update_where-Retains :
    (id : ℕ) (f : User → User) (s : Users) → Keeps f → Retains s (update_where id f s)
unfolding update_where
update_where-Retains id f s keeps k u e =
    let g = set_where id f in
    (g u, lookup-adjust g k s.rows ∙ ap (mapped g) e, set_where-Keeps id f keeps u)

module _ (key : String → String) (bcrypt : Bcrypt) where
  logged_in-Retains : (s : Users) (now : ℕ) (r : UserResult) → Retains s (logged_in s now r).0
  logged_in-Retains s now (inl e) = Retains-refl s
  logged_in-Retains s now (inr u) =
      update_where-Retains u.id _ s
        λ w. record { same_id = refl; same_name = refl; same_role = refl }

  insert_user-Retains :
      (s : Users) (r : NewUser) (hash : String) (o : Option User)
      → lookup (key r.username) s.rows ≡ o
      → Retains s (insert_user key s r hash o).0
  insert_user-Retains s r hash (some old) e k u at = Retains-refl s k u at
  insert_user-Retains s r hash none e k u at =
      let k' = key r.username in
      let fresh = user_of r hash s.next_id in
      elim (Bool-cases (k' == k)) [
        | inl same ↦
            let here = ap (λ x. lookup x s.rows) ((string_eq.same_iff k' k).0 same) in
            absurd (ground (arith, here))
        | inr other ↦ (u, ground (arith, lookup-insert k' fresh k s.rows), same_account u)
      ]

  with_hash-Retains :
      (s : Users) (r : NewUser) (h : Option String) → Retains s (with_hash key s r h).0
  with_hash-Retains s r none = Retains-refl s
  with_hash-Retains s r (some hash) = insert_user-Retains s r hash _ refl

  with_new_hash-Retains :
      (s : Users) (id : ℕ) (h : Option String) → Retains s (with_new_hash s id h).0
  with_new_hash-Retains s id none = Retains-refl s
  with_new_hash-Retains s id (some hash) =
      update_where-Retains id _ s λ w. record { same_id = refl; same_name = refl; same_role = refl }

  pub apply_op-Retains : (s : Users) (op : UserOp) → Retains s (apply_op key bcrypt s op)
  unfolding apply_op create_user authenticate_user update_user_status update_user_password
  apply_op-Retains s (creates r) = with_hash-Retains s r (bcrypt.generate r.password)
  apply_op-Retains s (logs_in username password rpc now) =
      logged_in-Retains s now (checked_row bcrypt password rpc (lookup (key username) s.rows))
  apply_op-Retains s (sets_status id enabled can_rpc) =
      update_where-Retains id _ s λ w. record { same_id = refl; same_name = refl; same_role = refl }
  apply_op-Retains s (sets_password id password) =
      with_new_hash-Retains s id (bcrypt.generate password)
