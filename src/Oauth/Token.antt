-- ===== src/Oauth/Token.antt =====
-- internal/app/oauth.go: `authenticateClient`, `token`, `verify` and `revokeToken`.
use hyprland_computer_use.Base.{
  ℕ, String, Bool, not, ◌&&◌, ◌||◌, Option, none, some, ltb, if◌then◌else◌, ◌==◌, string_eq,
  is_some,
}
use hyprland_computer_use.Base.Dict.{lookup, keep_if}
use hyprland_computer_use.Oauth.State.{
  Library, OauthClient, OauthConnection, OauthRefresh, failure, empty_success, Response,
  OauthProvider, Values, get, unique_params,
}
use hyprland_computer_use.Oauth.Exchange.{Fresh, is_verifier, exchange}
use hyprland_computer_use.Oauth.Refresh.{contradicts, revoke_connection, refresh_token}

-- A request of the token or the revocation endpoint, its form parsed.
pub record TokenRequest : Type 0 where
  pub well_formed : Bool
  pub has_query : Bool
  pub form : Values
  -- `r.BasicAuth()`
  pub basic_auth : Option (String × String)

abbrev checked_id : String → Option String → Option String → Option (String × String)
checked_id claimed (some id) (some secret) =
    if contradicts claimed id then none else some (id, secret)
checked_id claimed id secret = none

-- The client's ID and secret.
unfoldable pub client_credentials : Library → TokenRequest → Option (String × String)
unfolding get
client_credentials lib r = elim r.basic_auth [
  | none ↦ some (get "client_id" r.form, "")
  | some (user, password) ↦
      checked_id (get "client_id" r.form) (lib.unescape user) (lib.unescape password)
]

-- Whether the registered client may be authenticated in this way.
unfoldable pub check_secret : Library → TokenRequest → String → OauthClient → Bool
unfolding get
check_secret lib r secret c =
    if c.method == "none"
    then not (is_some r.basic_auth) && get "client_secret" r.form == ""
    else is_some r.basic_auth && lib.digest secret == c.secret_hash

-- `authenticateClient`
unfoldable pub authenticate_client : Library → TokenRequest → OauthProvider → Option OauthClient
unfolding client_credentials check_secret
authenticate_client lib r p = elim (client_credentials lib r) [
  | none ↦ none
  | some (id, secret) ↦ keep_if (check_secret lib r secret) (lookup id p.clients)
]

-- `token` for an authenticated client.
unfoldable pub token_grant :
    Library → ℕ → OauthClient → Values → Fresh → OauthProvider → Response × OauthProvider
unfolding exchange refresh_token get
token_grant lib now c form fresh p =
    if get "grant_type" form == "refresh_token"
    then refresh_token lib now c form fresh p
    else if not (get "grant_type" form == "authorization_code")
    then (failure 400 "unsupported_grant_type", p)
    else if not (get "resource" form == p.resource)
    then (failure 400 "invalid_target", p)
    else if not (is_verifier (get "code_verifier" form))
    then (failure 400 "invalid_grant", p)
    else exchange lib now c form fresh p

-- `token`: `between` is what other goroutines do after the client is looked up.
unfoldable pub token :
    Library
    → ℕ
    → TokenRequest
    → Fresh
    → (OauthProvider → OauthProvider)
    → OauthProvider
    → Response × OauthProvider
unfolding authenticate_client token_grant unique_params
token lib now r fresh between p =
    if not r.well_formed || (not (unique_params r.form) || r.has_query)
    then (failure 400 "invalid_request", p)
    else elim (authenticate_client lib r p) [
      | none ↦ (failure 401 "invalid_client", p)
      | some c ↦ token_grant lib now c r.form fresh (between p)
    ]

-- `verify`: the connection that the bearer token stands for.
unfoldable pub verify : Library → ℕ → String → OauthProvider → Option OauthConnection
verify lib now raw p =
    keep_if (λ v. ltb now v.expires && v.resource == p.resource) (lookup (lib.digest raw) p.tokens)

-- The connection of an access token, or else of a refresh token.
abbrev connection_of : Option OauthConnection → Option OauthRefresh → Option OauthConnection
connection_of (some v) rt = some v
connection_of none (some rt) = some rt.connection
connection_of none none = none

abbrev revoke_owned :
    OauthClient
    → Option OauthConnection
    → (OauthProvider → OauthProvider)
    → OauthProvider
    → OauthProvider
revoke_owned c none between p = p
revoke_owned c (some v) between p =
    if v.client_id == c.id then revoke_connection v.id (between p) else p

unfoldable pub revoke_token :
    Library
    → TokenRequest
    → (OauthProvider → OauthProvider)
    → OauthProvider
    → Response × OauthProvider
unfolding authenticate_client revoke_connection unique_params get
revoke_token lib r between p =
    if not r.well_formed || (not (unique_params r.form) || r.has_query)
    then (failure 400 "invalid_request", p)
    else elim (authenticate_client lib r p) [
      | none ↦ (failure 401 "invalid_client", p)
      | some c ↦
          let key = lib.digest (get "token" r.form) in
          (
            empty_success,
            revoke_owned c (connection_of (lookup key p.tokens) (lookup key p.refresh)) between p,
          )
    ]
