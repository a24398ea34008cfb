-- ===== src/App/Clients/Logins.antt =====
-- internal/app/app.go, `LoginClient`: what the login of a device does, on every branch.
use r0rpc.Prelude.{
  ℕ, ◌*◌, ◌+◌, ◌/◌, ◌<◌, ◌≤◌, ◌≡◌, refl, subst, String, ℤ, pos, negsuc, not_positive, lt_int, true,
  ◌||◌, Option, none, some, ◌==◌, string_eq, ◌⊎◌, inl, inr, if◌then◌else◌, arith, by_if, Bool-cases,
  Option-cases, ltb,
}
use r0rpc.Prelude.Text.{trim_space}
use r0rpc.Config.{Config, at_least}
use r0rpc.Rpc.State.{Hub, normalize_max_in_flight}
use r0rpc.Rpc.Hub.{register}
use r0rpc.Rpc.Hub.Registry.{IsRegistry}
use r0rpc.Rpc.Hub.Registration.{register-IsRegistry}
use r0rpc.Rpc.Hub.Sessions.{Serves, register-Serves}
use r0rpc.App.Groups.{ensure_group_active}
use r0rpc.App.Presence.{second}
use r0rpc.App.Clients.{
  TokenClaims, Account, LoginFailure, State, Jwt, issue, Login, LoginStore, hour, LoginRequest,
  clamp_in_flight, platform_of, enter_client, after_upsert, admit_client, login_client,
}

-- The limit of a device is between 256 and 1024, whatever it asks for and the configuration says.
pub clamp_in_flight-range :
    (cfg : Config) (n : ℤ)
    → (max : ℕ) × (clamp_in_flight cfg n ≡ pos max) × (256 ≤ max) × (max ≤ 1024)
unfolding clamp_in_flight
clamp_in_flight-range cfg n = go (if not_positive n then cfg.client_max_in_flight else n)
  where
    go :
        (wanted : ℤ)
        → (max : ℕ) × ((let raised = at_least 256 wanted in
              if lt_int (pos 1024) raised then pos 1024 else raised)
            ≡ pos max)
          × (256 ≤ max)
          × (max ≤ 1024)
    go (negsuc m) = (256, refl, omega arith, omega arith)
    go (pos m) = elim (Bool-cases (ltb m 256)) [
      | inl low ↦ (256, ground arith, omega arith, omega arith)
      | inr fair ↦ elim (Bool-cases (ltb 1024 m)) [
        | inl high ↦ (1024, ground arith, omega arith, omega arith)
        | inr kept ↦ (m, ground arith, ground arith, ground arith)
      ]
    ]

-- The claims of a device.
abbrev pub claims_of : LoginRequest → Account → ℕ → TokenClaims
claims_of r user max = record {
  user_id = user.id;
  username = user.username;
  role = "client";
  client_id = trim_space r.client_id;
  group = trim_space r.group;
  max_in_flight = pos max;
}

module _ {Token : Type 0} (cfg : Config) (jwt : Jwt Token) (st : LoginStore) (w : State)
    (r : LoginRequest) (now : ℕ) where
  -- What holds when a device is let in: the store knows the user, the group is active, the device has a
  -- session in the hub as it asked for, and until the token expires, in 24 hours, it gives the device's
  -- claims.
  pub record LetIn (w' : State) (user : Account) (token : Token) : Type 0 where
    pub known : st.authenticate_user r.username r.password true ≡ inr user
    pub active : ensure_group_active st.groups (trim_space r.group) ≡ none
    pub max : ℕ
    pub granted : clamp_in_flight cfg r.max_in_flight ≡ pos max
    pub least : 256 ≤ max
    pub most : max ≤ 1024
    pub serves :
        Serves w'.hub
          (trim_space r.client_id)
          (trim_space r.group)
          user.id
          (platform_of r.platform)
          max
    pub agree : IsRegistry w'.hub
    pub valid :
        (later : ℕ)
        → later < (now + 24 * hour) / second * second
        → jwt.verify later token ≡ some (claims_of r user max)

  abbrev pub LogsIn : Login Token → Type 0
  LogsIn (w', inr (token, user)) = LetIn w' user token
  LogsIn (w', inl LoginFailure.signing_failed) = IsRegistry w'.hub
  LogsIn (w', inl e) = w' ≡ w

normalized :
    (h : Hub) (max : ℕ) → 256 ≤ max → max ≤ 1024 → normalize_max_in_flight h (pos max) ≡ max
unfolding normalize_max_in_flight
normalized h max low high = ground arith

module _ {Token : Type 0} (cfg : Config) (jwt : Jwt Token) (st : LoginStore) (w : State)
    (r : LoginRequest) (now : ℕ) (agree : IsRegistry w.hub) where
  enter-LogsIn :
      (user : Account)
      → st.authenticate_user r.username r.password true ≡ inr user
      → ensure_group_active st.groups (trim_space r.group) ≡ none
      → LogsIn cfg jwt st w r now (enter_client cfg jwt w r user now)
  unfolding enter_client issue
  enter-LogsIn user known active =
      let (max, is, low, high) = clamp_in_flight-range cfg r.max_in_flight in
      let claims = claims_of r user max in
      let c = trim_space r.client_id in
      let g = trim_space r.group in
      let platform = platform_of r.platform in
      let kept = register-IsRegistry w.hub c g user.id platform (pos max) now agree in
      let serves =
        subst
          (λ n. Serves (register w.hub c g user.id platform (pos max) now).0 c g user.id platform n)
          (normalized w.hub max low high)
          (register-Serves w.hub c g user.id platform (pos max) now agree) in
      rw is (elim (Option-cases (jwt.sign claims ((now + 24 * hour) / second))) [
        | inl e ↦ rw e kept
        | inr (token, e) ↦ rw e (record {
          known = known;
          active = active;
          max = max;
          granted = is;
          least = low;
          most = high;
          serves = serves;
          agree = kept;
          valid = λ later lt. jwt.verify-sign claims _ later token e lt;
        })
      ])

  after_upsert-LogsIn :
      (user : Account) (e : Option String)
      → st.authenticate_user r.username r.password true ≡ inr user
      → ensure_group_active st.groups (trim_space r.group) ≡ none
      → LogsIn cfg jwt st w r now (after_upsert cfg jwt w r user now e)
  after_upsert-LogsIn user none known active = enter-LogsIn user known active
  after_upsert-LogsIn user (some e) known active = refl

  admit-LogsIn :
      (user : Account)
      → st.authenticate_user r.username r.password true ≡ inr user
      → LogsIn cfg jwt st w r now (admit_client cfg jwt st w r user now)
  unfolding admit_client
  admit-LogsIn user known =
      by_if (LogsIn cfg jwt st w r now) (trim_space r.client_id == "" || trim_space r.group == "")
        (λ _. refl)
        λ _. elim (Option-cases (ensure_group_active st.groups (trim_space r.group))) [
          | inl e ↦ rw e (after_upsert-LogsIn user _ known e)
          | inr (x, e) ↦ rw e refl
        ]

  -- In a hub whose maps agree, the login of a device either fails and changes nothing, or the signing
  -- of the token alone fails, or the device is let in: its user is known to the store, its group is
  -- active, it has a session in the hub with the group, the user, the platform and a limit between 256
  -- and 1024 calls in flight, and its token gives these claims back until it expires in 24 hours. The
  -- maps of the hub agree afterwards.
  pub login_client-LogsIn : LogsIn cfg jwt st w r now (login_client cfg jwt st w r now)
  unfolding login_client
  login_client-LogsIn = go (st.authenticate_user r.username r.password true) refl
    where
      go :
          (a : String ⊎ Account)
          → st.authenticate_user r.username r.password true ≡ a
          → LogsIn cfg jwt st w r now (elim a [
            | inl e ↦ (w, inl (LoginFailure.store_failure e))
            | inr user ↦ admit_client cfg jwt st w r user now
          ])
      go (inl e) known = refl
      go (inr user) known = admit-LogsIn user known
