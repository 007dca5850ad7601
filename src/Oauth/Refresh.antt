-- ===== src/Oauth/Refresh.antt =====
-- internal/app/oauth_refresh.go: `refreshToken`, and `revokeConnection` of oauth.go.
use hyprland_computer_use.Base.{
  ℕ, ◌/◌, String, Bool, true, false, not, ◌&&◌, ◌||◌, Option, none, some, length, ltb, leb,
  if◌then◌else◌, ◌==◌, string_eq, ◌-◌,
}
use hyprland_computer_use.Base.Dict.{lookup, insert, retain}
use hyprland_computer_use.Broker.State.{second}
use hyprland_computer_use.Oauth.State.{
  Library, OauthClient, OauthConnection, OauthRefresh, failure, credentials, Response,
  OauthProvider, Values, connect_scope, get, cleanup,
}
use hyprland_computer_use.Oauth.Exchange.{Fresh, bad_grant}
use hyprland_computer_use.Base.{contains}

-- A claim that is made and differs.
abbrev pub contradicts : String → String → Bool
contradicts claimed id = not (claimed == "") && not (claimed == id)

-- `revokeConnection`, without the broker's disconnect that it calls next.
unfoldable pub revoke_connection : String → OauthProvider → OauthProvider
revoke_connection id p = record p {
  refresh = retain (λ v. not (v.connection.id == id)) p.refresh;
  tokens = retain (λ v. not (v.id == id)) p.tokens;
}

-- The rotation: the old refresh token is used up, the new pair is for the same connection.
unfoldable pub rotate :
    Library → String → OauthRefresh → String → String → OauthProvider → OauthProvider
rotate lib key rt access refresh p = record p {
  refresh =
      insert (lib.digest refresh) (record { connection = rt.connection; used = false })
        (insert key (record rt { used = true }) p.refresh);
  tokens = insert (lib.digest access) rt.connection p.tokens;
}

unfoldable pub reissue :
    Library
    → ℕ
    → String
    → OauthRefresh
    → Option String
    → Option String
    → OauthProvider
    → Response × OauthProvider
unfolding rotate
reissue lib left key rt (some access) (some refresh) p =
    (credentials access refresh left, rotate lib key rt access refresh p)
reissue lib left key rt access refresh p = (failure 500 "server_error", p)

-- The whole seconds that the connection has left.
abbrev pub seconds_left : ℕ → OauthConnection → ℕ
seconds_left now v = (v.expires - now) / second

abbrev pub foreign : OauthClient → OauthRefresh → OauthProvider → Bool
foreign c rt p = not (rt.connection.client_id == c.id) || not (rt.connection.resource == p.resource)

unfoldable pub refresh_with :
    Library
    → ℕ
    → OauthClient
    → Fresh
    → String
    → Option OauthRefresh
    → OauthProvider
    → Response × OauthProvider
unfolding revoke_connection reissue
refresh_with lib now c fresh key none p = (bad_grant, p)
refresh_with lib now c fresh key (some rt) p =
    if foreign c rt p
    then (bad_grant, p)
    else if rt.used
    then (bad_grant, revoke_connection rt.connection.id p)
    else if ltb (seconds_left now rt.connection) 1
    then (bad_grant, p)
    else if leb 256 (length p.tokens) || leb 1024 (length p.refresh)
    then (failure 429 "temporarily_unavailable", p)
    else reissue lib (seconds_left now rt.connection) key rt fresh.access fresh.refresh p

-- `refreshToken`
unfoldable pub refresh_token :
    Library → ℕ → OauthClient → Values → Fresh → OauthProvider → Response × OauthProvider
unfolding cleanup refresh_with get
refresh_token lib now c form fresh p =
    if not (contains c.grant_types "refresh_token")
    then (failure 400 "unauthorized_client", p)
    else if contradicts (get "resource" form) p.resource
    then (failure 400 "invalid_target", p)
    else if contradicts (get "scope" form) connect_scope
    then (failure 400 "invalid_scope", p)
    else let p' = cleanup now p in
      let key = lib.digest (get "refresh_token" form) in
      refresh_with lib now c fresh key (lookup key p'.refresh) p'
