-- ===== src/Web/Tokens/Roles.antt =====
-- internal/app/app.go and internal/web: nobody is let in without a token of the role.
use r0rpc.Prelude.{
  String, false, ◌&&◌, Option, none, some, ◌≡◌, ◌≢◌, refl, sym, subst, ◌==◌, string_eq, ◌⊎◌, inl,
  inr, by_if, Bool-cases, arith,
}
use r0rpc.Prelude.Text.{trim_space}
use r0rpc.App.Clients.{TokenClaims}
use r0rpc.Web.Tokens.{
  TokenError, CookieRead, Credentials, Verified, parsed, behind, from_header, from_cookie,
  verify_token_from_request, with_role, require_role, client_only, verify_client_ws_claims,
}

-- The places of a request where a token is looked for: its header and its cookie, and for a WebSocket its
-- query too.
abbrev pub InCookie : CookieRead → String → Type 0
InCookie (CookieRead.cookie value) t = trim_space value ≡ t
InCookie c t = t ≢ t

abbrev pub Presents : Credentials → String → Type 0
Presents r t = (behind "Bearer " (trim_space r.header) ≡ some t) ⊎ InCookie r.cookie t

abbrev pub QueriesOrPresents : Credentials → String → Type 0
QueriesOrPresents r t = (trim_space r.query_token ≡ t) ⊎ Presents r t

-- The roles that are let in where one is required: that one, and an administrator as a client.
abbrev pub Suffices : String → String → Type 0
Suffices required role = (role ≡ required) ⊎ ((required ≡ "client") × (role ≡ "admin"))

other_role :
    (required role : String)
    → (role == required) ≡ false
    → ((required == "client") && (role == "admin")) ≡ false
    → ¬ Suffices required role
other_role required role e f (inl s) = ground (arith, (string_eq.same_iff role required).1 s)
other_role required role e f (inr (c, a)) =
    ground
      (arith, (string_eq.same_iff required "client").1 c, (string_eq.same_iff role "admin").1 a)

module _ (parse : String → String ⊎ TokenClaims) (r : Credentials) where
  -- Claims that are let in come from a token that stands in one of the places, and have the property.
  abbrev pub Admits : (String → Type 0) → (TokenClaims → Type 0) → Verified → Type 0
  Admits Place P (inl e) = Unit
  Admits Place P (inr claims) = ((t : String) × Place t × (parse t ≡ inr claims)) × P claims

  Any : TokenClaims → Type 0
  Any claims = Unit

  parsed-Admits :
      (Place : String → Type 0) (t : String) → Place t → Admits Place Any (parsed parse t)
  unfolding Any
  parsed-Admits Place t p = go (parse t) refl
    where
      go :
          (v : String ⊎ TokenClaims)
          → parse t ≡ v
          → Admits Place Any
              (elim v [ inl e ↦ inl (TokenError.not_parsed e) | inr claims ↦ inr claims ])
      go (inl e) is = tt
      go (inr claims) is = ((t, p, is), tt)

  from_header-Admits :
      (h : Option String)
      → behind "Bearer " (trim_space r.header) ≡ h
      → Admits (Presents r) Any (from_header parse h)
  from_header-Admits none e = tt
  from_header-Admits (some String.[]) e = tt
  from_header-Admits (some (String.◌∷◌ c t)) e = parsed-Admits (Presents r) (String.◌∷◌ c t) (inl e)

  from_cookie-Admits :
      (c : CookieRead) → r.cookie ≡ c → Admits (Presents r) Any (from_cookie parse c)
  from_cookie-Admits CookieRead.no_cookie e = tt
  from_cookie-Admits (CookieRead.cookie_error x) e = tt
  from_cookie-Admits (CookieRead.cookie value) e =
      by_if (Admits (Presents r) Any) (trim_space value == "") (λ _. tt)
        λ _.
          parsed-Admits (Presents r) (trim_space value)
            ((inr (subst (λ c. InCookie c (trim_space value)) (sym e) refl)))

  verify-Admits : Admits (Presents r) Any (verify_token_from_request parse r)
  unfolding verify_token_from_request
  verify-Admits =
      by_if (Admits (Presents r) Any) (trim_space r.header == "")
        (λ _. from_cookie-Admits r.cookie refl)
        λ _. from_header-Admits (behind "Bearer " (trim_space r.header)) refl

  client_only-Admits :
      (Place : String → Type 0) (v : Verified)
      → Admits Place Any v
      → Admits Place (λ claims. claims.role ≡ "client") (client_only v)
  client_only-Admits Place (inl e) a = tt
  client_only-Admits Place (inr claims) (from, x) = elim (Bool-cases (claims.role == "client")) [
    | inl e ↦ rw e (from, (string_eq.same_iff claims.role "client").0 e)
    | inr e ↦ rw e tt
  ]

  -- What is found in the header or the cookie is found in one of the three places.
  widened : (v : Verified) → Admits (Presents r) Any v → Admits (QueriesOrPresents r) Any v
  widened (inl e) a = tt
  widened (inr claims) ((t, at, is), x) = ((t, inr at, is), x)

  -- The handler of a WebSocket lets a request in only with a token that stands in its query, its header or
  -- its cookie, and that is valid and of the role "client".
  pub verify_client_ws_claims-Admits :
      Admits
        (QueriesOrPresents r)
        (λ claims. claims.role ≡ "client")
        (verify_client_ws_claims parse r)
  unfolding verify_client_ws_claims
  verify_client_ws_claims-Admits = client_only-Admits (QueriesOrPresents r) _ (
      by_if (Admits (QueriesOrPresents r) Any) (trim_space r.query_token == "")
        (λ _. widened _ verify-Admits)
        λ _. parsed-Admits (QueriesOrPresents r) (trim_space r.query_token) (inl refl))

  -- The answer of a route that requires a role: claims of a token in the header or the cookie, with a role
  -- that suffices, or an error: the one of the check of the token, or that a valid token has another role.
  abbrev pub Guards : String → Verified → Type 0
  Guards role (inr claims) = Admits (Presents r) (λ c. Suffices role c.role) (inr claims)
  Guards role (inl e) =
      (verify_token_from_request parse r ≡ inl e)
      ⊎ ((claims : TokenClaims) × (verify_token_from_request parse r ≡ inr claims)
          × (¬ Suffices role claims.role)
          × (e ≡ TokenError.insufficient_role))

  with_role-Guards :
      (role : String) (v : Verified)
      → verify_token_from_request parse r ≡ v
      → Admits (Presents r) Any v
      → Guards role (with_role role v)
  with_role-Guards role (inl e) is a = inl is
  with_role-Guards role (inr claims) is (from, x) = elim (Bool-cases (claims.role == role)) [
    | inl e ↦ rw e (from, inl ((string_eq.same_iff claims.role role).0 e))
    | inr e ↦ elim (Bool-cases ((role == "client") && (claims.role == "admin"))) [
      | inl f ↦
          rw (e, f)
            (
              from,
              inr (
                (string_eq.same_iff role "client").0 (ground arith),
                (string_eq.same_iff claims.role "admin").0 (ground arith),
              ),
            )
      | inr f ↦ rw (e, f) (inr (claims, is, other_role role claims.role e f, refl))
    ]
  ]

  -- A route that requires a role lets a request in only with a valid token in its header or its cookie, of
  -- that role, or of an administrator where a client is required, and turns away no valid token of such
  -- a role that it finds there.
  pub require_role-Guards : (role : String) → Guards role (require_role parse role r)
  unfolding require_role
  require_role-Guards role = with_role-Guards role _ refl verify-Admits
