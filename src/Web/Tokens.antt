-- ===== src/Web/Tokens.antt =====
-- internal/app/app.go, `VerifyTokenFromRequest`, and the checks of a role in internal/web: who may use a route.
-- The check of a token is an argument.
pub mod Roles
use Prim.Native.Char.{code}
use r0rpc.Prelude.{
  String, Bool, true, false, not, ◌&&◌, ◌||◌, Option, none, some, ◌==◌, string_eq, eqb, ◌⊎◌, inl,
  inr, if◌then◌else◌,
}
use r0rpc.Prelude.Text.{trim_space}
use r0rpc.App.Clients.{TokenClaims}

pub data TokenError : Type 0 where
  invalid_header missing_header insufficient_role : TokenError
  not_parsed : String → TokenError
  no_cookie_read : String → TokenError

-- What `r.Cookie` returns.
pub data CookieRead : Type 0 where
  no_cookie : CookieRead
  cookie : String → CookieRead
  cookie_error : String → CookieRead

pub record Credentials : Type 0 where
  -- the parameter `token` of the query, the header `Authorization` and the cookie of an administrator
  pub query_token : String
  pub header : String
  pub cookie : CookieRead

abbrev pub Verified : Type 0
Verified = TokenError ⊎ TokenClaims

-- `Tokens.Parse`
abbrev pub parsed : (String → String ⊎ TokenClaims) → String → Verified
parsed parse t = elim (parse t) [ inl e ↦ inl (TokenError.not_parsed e) | inr claims ↦ inr claims ]

-- What stands behind a prefix.
unfoldable pub behind : String → String → Option String
behind String.[] s = some s
behind (String.◌∷◌ c p) String.[] = none
behind (String.◌∷◌ c p) (String.◌∷◌ d s) =
    let rest = behind p s in if eqb (code c) (code d) then rest else none

abbrev pub from_header : (String → String ⊎ TokenClaims) → Option String → Verified
from_header parse none = inl TokenError.invalid_header
from_header parse (some String.[]) = inl TokenError.invalid_header
from_header parse (some (String.◌∷◌ c t)) = parsed parse (String.◌∷◌ c t)

abbrev pub from_cookie : (String → String ⊎ TokenClaims) → CookieRead → Verified
from_cookie parse CookieRead.no_cookie = inl TokenError.missing_header
from_cookie parse (CookieRead.cookie_error e) = inl (TokenError.no_cookie_read e)
from_cookie parse (CookieRead.cookie value) =
    if trim_space value == ""
    then inl TokenError.missing_header
    else parsed parse (trim_space value)

unfoldable pub verify_token_from_request : (String → String ⊎ TokenClaims) → Credentials → Verified
unfolding behind
verify_token_from_request parse r =
    let header = trim_space r.header in
    if header == "" then from_cookie parse r.cookie else from_header parse (behind "Bearer " header)

-- The claims that a handler of a role is called with.
abbrev pub with_role : String → Verified → Verified
with_role role (inl e) = inl e
with_role role (inr claims) =
    if not (claims.role == role) && not ((role == "client") && (claims.role == "admin"))
    then inl TokenError.insufficient_role
    else inr claims

unfoldable pub require_role : (String → String ⊎ TokenClaims) → String → Credentials → Verified
unfolding verify_token_from_request
require_role parse role r = with_role role (verify_token_from_request parse r)

abbrev pub client_only : Verified → Verified
client_only (inl e) = inl e
client_only (inr claims) =
    if claims.role == "client" then inr claims else inl TokenError.insufficient_role

unfoldable pub verify_client_ws_claims : (String → String ⊎ TokenClaims) → Credentials → Verified
unfolding verify_token_from_request
verify_client_ws_claims parse r =
    let token = trim_space r.query_token in
    client_only (if token == "" then verify_token_from_request parse r else parsed parse token)
