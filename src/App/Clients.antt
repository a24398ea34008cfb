-- ===== src/App/Clients.antt =====
-- internal/app/app.go: the logins of administrators and of devices. The users, the groups and the devices of
-- the store, and the signing of tokens, are arguments.
pub mod Calls
pub mod Logins
pub mod Presence
use r0rpc.Prelude.{
  ℕ, ◌*◌, ◌+◌, ◌/◌, ◌<◌, ◌≡◌, String, ℤ, pos, not_positive, lt_int, Bool, true, false, not, ◌||◌,
  ◌&&◌, Option, none, some, ◌==◌, string_eq, ◌⊎◌, inl, inr, if◌then◌else◌,
}
use r0rpc.Prelude.Map
use r0rpc.Prelude.Map.{Map}
use r0rpc.Prelude.Text.{trim_space}
use r0rpc.Config.{Config, at_least}
use r0rpc.Rpc.Job.{JobResult, Result, HubError, ok, err}
use r0rpc.Rpc.State.{Hub, new_hub}
use r0rpc.Rpc.Hub.{register, touch}
use r0rpc.Rpc.Results.{SubmitOutcome, submit_result}
use r0rpc.Rpc.Poll.{Polled, PollSchedule, poll}
use r0rpc.App.Groups.{GroupRow, GroupFailure, ensure_group_active}
use r0rpc.App.Presence.{
  second, presence_flush_interval, should_flush_presence, mark_presence_flushed,
  reset_presence_flush,
}

-- internal/auth/jwt.go, `Claims`, without those that the library keeps.
pub record TokenClaims : Type 0 where
  pub user_id : ℤ
  pub username : String
  pub role : String
  pub client_id : String
  pub group : String
  pub max_in_flight : ℤ

-- The fields of `model.User` that the logins read.
pub record Account : Type 0 where
  pub id : ℤ
  pub username : String
  pub role : String

-- Why a login fails.
pub data LoginFailure : Type 0 where
  store_failure : String → LoginFailure
  admin_role_required client_and_group_required signing_failed : LoginFailure
  group_failure : GroupFailure → LoginFailure

-- The part of `App` that the calls of the devices change.
pub record State : Type 0 where
  pub hub : Hub
  pub last_presence_flush : Map String ℕ

-- internal/auth/jwt.go: the tokens, signed with an expiry in seconds and checked at a time in nanoseconds.
-- A token that was signed is accepted until it expires, with the claims that it was signed for.
pub record Jwt (Token : Type 0) : Type 0 where
  pub sign : TokenClaims → ℕ → Option Token
  pub verify : ℕ → Token → Option TokenClaims
  pub verify-sign :
      (claims : TokenClaims) (expiry now : ℕ) (t : Token)
      → sign claims expiry ≡ some t
      → now < expiry * second
      → verify now t ≡ some claims

-- `Issue`: a numeric date has whole seconds.
unfoldable pub issue : {Token : Type 0} → Jwt Token → TokenClaims → ℕ → ℕ → Option Token
issue jwt claims ttl now = jwt.sign claims ((now + ttl) / second)

-- `New`
unfoldable pub new : Config → State
new cfg = record {
  hub = new_hub (at_least 2048 cfg.client_queue_size) (at_least 256 cfg.client_max_in_flight);
  last_presence_flush = Map.empty;
}

abbrev pub Login : Type 0 → Type 0
Login Token = State × (LoginFailure ⊎ (Token × Account))

abbrev pub signed : {Token : Type 0} → State → Account → Option Token → Login Token
signed w user none = (w, inl LoginFailure.signing_failed)
signed w user (some token) = (w, inr (token, user))

-- What the store answers to the calls of a login: the user, or why there is none; the group; and the
-- error of the write of the device.
pub record LoginStore : Type 0 where
  pub authenticate_user : String → String → Bool → String ⊎ Account
  pub groups : String → GroupRow
  pub upsert_device : String → ℤ → String → String → Option String

-- An hour, in nanoseconds.
abbrev pub hour : ℕ
hour = 3600 * second

unfoldable pub login_admin :
    {Token : Type 0} → Jwt Token → LoginStore → State → String → String → ℕ → Login Token
unfolding issue
login_admin jwt st w username password now = elim (st.authenticate_user username password false) [
  | inl e ↦ (w, inl (LoginFailure.store_failure e))
  | inr user ↦
      if user.role == "admin"
      then (let claims : TokenClaims = record {
        user_id = user.id;
        username = user.username;
        role = user.role;
        client_id = "";
        group = "";
        max_in_flight = pos 0;
      } in
          signed w user (issue jwt claims (12 * hour) now))
      else (w, inl LoginFailure.admin_role_required)
]

-- What a device sends with its login.
pub record LoginRequest : Type 0 where
  pub username : String
  pub password : String
  pub client_id : String
  pub group : String
  pub platform : String
  pub max_in_flight : ℤ

-- The limit of calls in flight that a device gets.
unfoldable pub clamp_in_flight : Config → ℤ → ℤ
clamp_in_flight cfg n =
    let wanted = if not_positive n then cfg.client_max_in_flight else n in
    let raised = at_least 256 wanted in if lt_int (pos 1024) raised then pos 1024 else raised

abbrev pub platform_of : String → String
platform_of p = if p == "" then "xposed" else p

-- The part of `LoginClient` behind the write of the device.
unfoldable pub enter_client :
    {Token : Type 0} → Config → Jwt Token → State → LoginRequest → Account → ℕ → Login Token
unfolding issue clamp_in_flight
enter_client cfg jwt w r user now =
    let client_id = trim_space r.client_id in
    let group = trim_space r.group in
    let max = clamp_in_flight cfg r.max_in_flight in
    let claims : TokenClaims = record {
      user_id = user.id;
      username = user.username;
      role = "client";
      client_id = client_id;
      group = group;
      max_in_flight = max;
    } in
    let entered : State = record {
      hub = (register w.hub client_id group user.id (platform_of r.platform) max now).0;
      last_presence_flush = mark_presence_flushed w.last_presence_flush client_id now;
    } in
    signed entered user (issue jwt claims (24 * hour) now)

-- The part behind `UpsertDevice`, by its error.
abbrev pub after_upsert :
    {Token : Type 0}
    → Config
    → Jwt Token
    → State
    → LoginRequest
    → Account
    → ℕ
    → Option String
    → Login Token
after_upsert cfg jwt w r user now (some e) = (w, inl (LoginFailure.store_failure e))
after_upsert cfg jwt w r user now none = enter_client cfg jwt w r user now

-- The part of `LoginClient` behind the check of the password.
unfoldable pub admit_client :
    {Token : Type 0}
    → Config
    → Jwt Token
    → LoginStore
    → State
    → LoginRequest
    → Account
    → ℕ
    → Login Token
unfolding enter_client
admit_client cfg jwt st w r user now =
    if trim_space r.client_id == "" || trim_space r.group == ""
    then (w, inl LoginFailure.client_and_group_required)
    else elim (ensure_group_active st.groups (trim_space r.group)) [
      | some e ↦ (w, inl (LoginFailure.group_failure e))
      | none ↦ after_upsert cfg jwt w r user now (
          st.upsert_device (trim_space r.client_id) user.id (trim_space r.group)
            (platform_of r.platform))
    ]

unfoldable pub login_client :
    {Token : Type 0} → Config → Jwt Token → LoginStore → State → LoginRequest → ℕ → Login Token
unfolding admit_client
login_client cfg jwt st w r now = elim (st.authenticate_user r.username r.password true) [
  | inl e ↦ (w, inl (LoginFailure.store_failure e))
  | inr user ↦ admit_client cfg jwt st w r user now
]
