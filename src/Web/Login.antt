-- ===== src/Web/Login.antt =====
-- internal/web/http.go, `authenticateInvokeRequest`: who may call, and the cache of the logins that the
-- store accepted. Each function on the cache is one critical section. The hash of the cache's keys,
-- the check of a token and the store's check of a password are arguments.
pub mod Admins
use r0rpc.Prelude.{
  ℕ, ◌+◌, ◌*◌, String, ℤ, Bool, true, false, not, ◌||◌, Option, none, some, ◌==◌, string_eq, ltb,
  if◌then◌else◌,
}
use r0rpc.Prelude.Map
use r0rpc.Prelude.Map.{Map, lookup, insert, delete, retain}
use r0rpc.Prelude.Text.{trim_space}

-- The claims that are cached: the other fields are left at their zero values.
pub record Claims : Type 0 where
  pub user_id : ℤ
  pub username : String
  pub role : String

pub record InvokeAuthCacheEntry : Type 0 where
  pub claims : Claims
  pub expires_at : ℕ

-- `12 * time.Hour`
abbrev pub invoke_auth_cache_ttl : ℕ
invoke_auth_cache_ttl = 12 * 3600 * 1000000000

abbrev pub AuthCache : Type 0
AuthCache = Map String InvokeAuthCacheEntry

-- `now.Add(invokeAuthCacheTTL)`
abbrev entry_at : Claims → ℕ → InvokeAuthCacheEntry
entry_at claims now = record { claims = claims; expires_at = now + invoke_auth_cache_ttl }

unfoldable pub get_invoke_auth_cache : AuthCache → String → ℕ → AuthCache × Option Claims
get_invoke_auth_cache m key now = elim (lookup key m) [
  | none ↦ (m, none)
  | some entry ↦
      if ltb entry.expires_at now
      then (delete key m, none)
      else (insert key (entry_at entry.claims now) m, some entry.claims)
]

unfoldable pub put_invoke_auth_cache : AuthCache → String → Claims → ℕ → AuthCache
put_invoke_auth_cache m key claims now =
    insert key (entry_at claims now) (retain (λ entry. not (ltb entry.expires_at now)) m)

pub data AuthFailure : Type 0 where
  insufficient_role missing_credentials admin_role_required : AuthFailure
  store_refused : String → AuthFailure

-- What the store's `AuthenticateUser` returns.
pub data Authenticated : Type 0 where
  user : Claims → Authenticated
  refused : String → Authenticated

pub data Granted : Type 0 where
  granted : Claims → Granted
  denied : AuthFailure → Granted

-- The request: its `Authorization` header, the claims of a token that was verified, and the credentials.
pub record AuthRequest : Type 0 where
  pub header : String
  pub token : Option Claims
  pub username : String
  pub password : String

-- What the store's answer leads to.
unfoldable pub store_login : AuthCache → String → Authenticated → ℕ → AuthCache × Granted
unfolding put_invoke_auth_cache
store_login m key (Authenticated.refused e) now = (m, denied (AuthFailure.store_refused e))
store_login m key (Authenticated.user claims) now =
    if claims.role == "admin"
    then (put_invoke_auth_cache m key claims now, granted claims)
    else (m, denied AuthFailure.admin_role_required)

-- The part behind the credentials: the cache, and then the store.
abbrev pub from_cache : AuthCache × Option Claims → String → Authenticated → ℕ → AuthCache × Granted
from_cache (m, some claims) key store now = (m, granted claims)
from_cache (m, none) key store now = store_login m key store now

unfoldable pub login : AuthCache → String → AuthRequest → Authenticated → ℕ → AuthCache × Granted
unfolding get_invoke_auth_cache
login m key r store now =
    if trim_space r.username == "" || trim_space r.password == ""
    then (m, denied AuthFailure.missing_credentials)
    else from_cache (get_invoke_auth_cache m key now) key store now

abbrev pub from_token : AuthCache → Option Claims → AuthCache × Granted → AuthCache × Granted
from_token m none rest = rest
from_token m (some claims) rest =
    if claims.role == "admin"
    then (m, granted claims)
    else (m, denied AuthFailure.insufficient_role)

-- `digest` is the hash of `invokeAuthCacheKey`, of the trimmed name and the password.
unfoldable pub authenticate_invoke_request :
    (String → String → String) → AuthCache → AuthRequest → Authenticated → ℕ → AuthCache × Granted
unfolding login
authenticate_invoke_request digest m r store now =
    let rest = login m (digest (trim_space r.username) r.password) r store now in
    if trim_space r.header == "" then rest else from_token m r.token rest
