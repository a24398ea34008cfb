-- ===== src/Web/Login/Admins.antt =====
-- internal/web/http.go: only administrators may call.
use r0rpc.Prelude.{
  ℕ, ◌≡◌, sym, subst, String, Bool, ◌||◌, Option, none, some, ◌==◌, string_eq, ltb, by_if, inl, inr,
  Option-cases,
}
use r0rpc.Prelude.Map.{
  lookup, insert, delete, retain, lookup-insert, lookup-delete, lookup-retain, passing,
}
use r0rpc.Prelude.Text.{trim_space}
use r0rpc.Web.Login.{
  Claims, InvokeAuthCacheEntry, AuthCache, get_invoke_auth_cache, put_invoke_auth_cache,
  Authenticated, Granted, granted, denied, AuthRequest, store_login, from_cache, login, from_token,
  authenticate_invoke_request, entry_at,
}

abbrev AdminEntry : Option InvokeAuthCacheEntry → Type 0
AdminEntry none = Unit
AdminEntry (some e) = e.claims.role ≡ "admin"

-- Every cached login is an administrator's.
pub record IsAdminOnly (m : AuthCache) : Type 0 where
  pub admins : (key : String) → AdminEntry (lookup key m)

-- Whoever is granted a call is an administrator, and the cache holds administrators only.
abbrev pub GrantsAdmins : AuthCache × Granted → Type 0
GrantsAdmins (m, granted claims) = (claims.role ≡ "admin") × IsAdminOnly m
GrantsAdmins (m, denied e) = IsAdminOnly m

insert-IsAdminOnly :
    (m : AuthCache) (key : String) (claims : Claims) (now : ℕ)
    → claims.role ≡ "admin"
    → IsAdminOnly m
    → IsAdminOnly (insert key (entry_at claims now) m)
insert-IsAdminOnly m key claims now r v = record {
  admins = λ k.
      subst AdminEntry (sym (lookup-insert key (entry_at claims now) k m))
        (by_if AdminEntry (key == k) (λ _. r) λ _. v.admins k);
}

delete-IsAdminOnly : (m : AuthCache) (key : String) → IsAdminOnly m → IsAdminOnly (delete key m)
delete-IsAdminOnly m key v = record {
  admins = λ k.
      subst AdminEntry (sym (lookup-delete key k m))
        (by_if AdminEntry (key == k) (λ _. tt) λ _. v.admins k);
}

passing-AdminEntry :
    (p : InvokeAuthCacheEntry → Bool) (o : Option InvokeAuthCacheEntry)
    → AdminEntry o
    → AdminEntry (passing p o)
passing-AdminEntry p none a = tt
passing-AdminEntry p (some e) a = by_if AdminEntry (p e) (λ _. a) λ _. tt

retain-IsAdminOnly :
    (m : AuthCache) (p : InvokeAuthCacheEntry → Bool) → IsAdminOnly m → IsAdminOnly (retain p m)
retain-IsAdminOnly m p v = record {
  admins = λ k.
      subst AdminEntry (sym (lookup-retain p k m)) (passing-AdminEntry p (lookup k m) (v.admins k));
}

module _ (m : AuthCache) (key : String) (now : ℕ) (v : IsAdminOnly m) where
  store-GrantsAdmins : (store : Authenticated) → GrantsAdmins (store_login m key store now)
  unfolding store_login put_invoke_auth_cache
  store-GrantsAdmins (Authenticated.refused e) = v
  store-GrantsAdmins (Authenticated.user claims) =
      by_if GrantsAdmins (claims.role == "admin")
        (λ e.
          let r = (string_eq.same_iff claims.role "admin").0 e in
          (r, insert-IsAdminOnly _ key claims now r (retain-IsAdminOnly m _ v)))
        λ _. v

module _ (m : AuthCache) (now : ℕ) (v : IsAdminOnly m) where
  cache-GrantsAdmins :
      (key : String) (store : Authenticated)
      → GrantsAdmins (from_cache (get_invoke_auth_cache m key now) key store now)
  unfolding get_invoke_auth_cache
  cache-GrantsAdmins key store = elim (Option-cases (lookup key m)) [
    | inl n ↦ rw (n, get_invoke_auth_cache) (store-GrantsAdmins m key now v store)
    | inr (entry, n) ↦
        let r : entry.claims.role ≡ "admin" = subst AdminEntry n (v.admins key) in
        rw (n, get_invoke_auth_cache)
          (by_if (λ (c : AuthCache × Option Claims). GrantsAdmins (from_cache c key store now))
            (ltb entry.expires_at now)
            (λ _. store-GrantsAdmins (delete key m) key now (delete-IsAdminOnly m key v) store)
            λ _. (r, insert-IsAdminOnly m key entry.claims now r v))
  ]

  login-GrantsAdmins :
      (key : String) (r : AuthRequest) (store : Authenticated)
      → GrantsAdmins (login m key r store now)
  unfolding login
  login-GrantsAdmins key r store =
      by_if GrantsAdmins (trim_space r.username == "" || trim_space r.password == "") (λ _. v)
        λ _. cache-GrantsAdmins key store

  token-GrantsAdmins :
      (token : Option Claims) (rest : AuthCache × Granted)
      → GrantsAdmins rest
      → GrantsAdmins (from_token m token rest)
  token-GrantsAdmins none rest g = g
  token-GrantsAdmins (some claims) rest g =
      by_if GrantsAdmins (claims.role == "admin")
        (λ e. ((string_eq.same_iff claims.role "admin").0 e, v)) λ _. v

-- With a cache of administrators only, `authenticateInvokeRequest` grants a call to administrators only,
-- by a token, by the cache or by the store, and caches administrators only. This holds whatever the
-- hash of the cache's keys does.
pub authenticate-GrantsAdmins :
    (digest : String → String → String) (m : AuthCache) (r : AuthRequest) (store : Authenticated)
    (now : ℕ)
    → IsAdminOnly m
    → GrantsAdmins (authenticate_invoke_request digest m r store now)
unfolding authenticate_invoke_request
authenticate-GrantsAdmins digest m r store now v =
    let key = digest (trim_space r.username) r.password in
    let rest = login-GrantsAdmins m now v key r store in
    by_if GrantsAdmins (trim_space r.header == "") (λ _. rest)
      λ _. token-GrantsAdmins m now v r.token (login m key r store now) rest
