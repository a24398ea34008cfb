-- ===== src/Store/Users.antt =====
-- internal/store/store.go: the users, and their logins. sql/schema.sql declares a name UNIQUE and an id
-- AUTO_INCREMENT, which a map by the names' keys and the next id stand for. Statements succeed, but for
-- the unique key; the collation's sort key and the hash of passwords are arguments.
pub mod Retained
pub mod Unique
pub mod Logins
use r0rpc.Prelude.{
  ℕ, ◌+◌, ◌≡◌, String, Bool, true, false, not, ◌&&◌, Option, none, some, List, [], ◌∷◌, ◌==◌,
  string_eq, eqb, ◌⊎◌, inl, inr, if◌then◌else◌,
}
use r0rpc.Prelude.Map
use r0rpc.Prelude.Map.{Map, lookup, insert, adjust}

-- `model.User`, with times in nanoseconds.
pub record User : Type 0 where
  pub id : ℕ
  pub username : String
  pub password_hash : String
  pub role : String
  pub enabled : Bool
  pub can_rpc : Bool
  pub notes : String
  pub last_login_at : Option ℕ

-- bcrypt: a hash can be refused, and a password matches its own hash.
pub record Bcrypt : Type 0 where
  pub generate : String → Option String
  pub compares : String → String → Bool
  pub compares-generate : (p h : String) → generate p ≡ some h → compares h p ≡ true

pub record Users : Type 0 where
  pub rows : Map String User
  pub next_id : ℕ

pub data UserError : Type 0 where
  no_rows account_disabled rpc_access_denied invalid_credentials username_exists hash_failed :
      UserError

abbrev pub UserResult : Type 0
UserResult = UserError ⊎ User

-- `UPDATE users SET ... WHERE id = ?`
abbrev pub set_where : ℕ → (User → User) → User → User
set_where id f u = if eqb u.id id then f u else u

unfoldable pub update_where : ℕ → (User → User) → Users → Users
update_where id f s = record s { rows = adjust (set_where id f) s.rows }

-- The checks of `AuthenticateUser` on the row.
abbrev pub checked_user : Bcrypt → String → Bool → User → UserResult
checked_user bcrypt password require_rpc u =
    if not u.enabled
    then inl UserError.account_disabled
    else if require_rpc && not u.can_rpc
    then inl UserError.rpc_access_denied
    else if bcrypt.compares u.password_hash password
    then inr u
    else inl UserError.invalid_credentials

abbrev pub checked_row : Bcrypt → String → Bool → Option User → UserResult
checked_row bcrypt password require_rpc none = inl UserError.no_rows
checked_row bcrypt password require_rpc (some u) = checked_user bcrypt password require_rpc u

abbrev pub logged_in : Users → ℕ → UserResult → Users × UserResult
logged_in s now (inl e) = (s, inl e)
logged_in s now (inr u) = (update_where u.id (λ v. record v { last_login_at = some now }) s, inr u)

unfoldable pub authenticate_user :
    (String → String) → Bcrypt → Users → String → String → Bool → ℕ → Users × UserResult
unfolding update_where
authenticate_user key bcrypt s username password require_rpc now =
    logged_in s now (checked_row bcrypt password require_rpc (lookup (key username) s.rows))

-- What a new user is made with.
pub record NewUser : Type 0 where
  pub username : String
  pub password : String
  pub role : String
  pub enabled : Bool
  pub can_rpc : Bool
  pub notes : String

abbrev pub user_of : NewUser → String → ℕ → User
user_of r hash id = record {
  id = id;
  username = r.username;
  password_hash = hash;
  role = r.role;
  enabled = r.enabled;
  can_rpc = r.can_rpc;
  notes = r.notes;
  last_login_at = none;
}

-- The insertion, by the row that there is with the name.
abbrev pub insert_user :
    (String → String) → Users → NewUser → String → Option User → Users × UserResult
insert_user key s r hash (some u) = (s, inl UserError.username_exists)
insert_user key s r hash none = (
  record {
    rows = insert (key r.username) (user_of r hash s.next_id) s.rows;
    next_id = s.next_id + 1;
  },
  inr (user_of r hash s.next_id),
)

abbrev pub with_hash : (String → String) → Users → NewUser → Option String → Users × UserResult
with_hash key s r none = (s, inl UserError.hash_failed)
with_hash key s r (some hash) = insert_user key s r hash (lookup (key r.username) s.rows)

unfoldable pub create_user : (String → String) → Bcrypt → Users → NewUser → Users × UserResult
create_user key bcrypt s r = with_hash key s r (bcrypt.generate r.password)

unfoldable pub update_user_status : Users → ℕ → Bool → Bool → Users
unfolding update_where
update_user_status s id enabled can_rpc =
    update_where id (λ u. record u { enabled = enabled; can_rpc = can_rpc }) s

abbrev pub with_new_hash : Users → ℕ → Option String → Users × Option UserError
with_new_hash s id none = (s, some UserError.hash_failed)
with_new_hash s id (some hash) = (update_where id (λ u. record u { password_hash = hash }) s, none)

unfoldable pub update_user_password : Bcrypt → Users → ℕ → String → Users × Option UserError
unfolding update_where
update_user_password bcrypt s id password = with_new_hash s id (bcrypt.generate password)

-- `EnsureBootstrapAdmin`
unfoldable pub ensure_bootstrap_admin :
    (String → String) → Bcrypt → Users → String → String → Users × UserResult
unfolding create_user
ensure_bootstrap_admin key bcrypt s username password = elim (lookup (key username) s.rows) [
  | some u ↦ (s, inr u)
  | none ↦ create_user key bcrypt s (record {
    username = username;
    password = password;
    role = "admin";
    enabled = true;
    can_rpc = true;
    notes = "bootstrap admin";
  })
]

-- The calls of the handlers, in any order.
pub data UserOp : Type 0 where
  creates : NewUser → UserOp
  logs_in : String → String → Bool → ℕ → UserOp
  sets_status : ℕ → Bool → Bool → UserOp
  sets_password : ℕ → String → UserOp

unfoldable pub apply_op : (String → String) → Bcrypt → Users → UserOp → Users
unfolding create_user authenticate_user update_user_status update_user_password
apply_op key bcrypt s (creates r) = (create_user key bcrypt s r).0
apply_op key bcrypt s (logs_in username password rpc now) =
    (authenticate_user key bcrypt s username password rpc now).0
apply_op key bcrypt s (sets_status id enabled can_rpc) = update_user_status s id enabled can_rpc
apply_op key bcrypt s (sets_password id password) = (update_user_password bcrypt s id password).0

unfoldable pub run_ops : (String → String) → Bcrypt → Users → List UserOp → Users
unfolding apply_op
run_ops key bcrypt s [] = s
run_ops key bcrypt s (op ∷ ops) = run_ops key bcrypt (apply_op key bcrypt s op) ops
