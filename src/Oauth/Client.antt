-- ===== src/Oauth/Client.antt =====
-- internal/app/oauth.go: `validRedirect`, `register`, `authenticateClient` and what `decide` does
-- for the local user.
use hyprland_computer_use.Base.{
  ℕ, ◌/◌, String, Bool, true, false, not, ◌&&◌, ◌||◌, Option, none, some, List, [], ◌∷◌, length,
  ltb, leb, eqb, if◌then◌else◌, ◌==◌, string_eq,
}
use hyprland_computer_use.Base.Addresses.{Url, Addresses, is_loopback_ip}
use hyprland_computer_use.Base.Dict.{insert, erase}
use hyprland_computer_use.Broker.State.{second}
use hyprland_computer_use.Oauth.State.{
  Library, OauthClient, failure, registered, OauthProvider, Response, connect_scope,
}
use hyprland_computer_use.Base.{len}
use hyprland_computer_use.Base.{contains}
use hyprland_computer_use.Base.Text.{clean_reason}

abbrev pub all_of : (String → Bool) → List String → Bool
all_of p [] = true
all_of p (x ∷ xs) = p x && all_of p xs

-- The tests of `validRedirect` on the URL, if it was parsed.
abbrev pub is_redirect_url : Addresses → Option Url → Bool
is_redirect_url net none = false
is_redirect_url net (some u) =
    if u.host == "" || (u.has_user || not (u.fragment == ""))
    then false
    else if u.scheme == "https"
    then true
    else u.scheme == "http"
      && (u.hostname == "localhost" || is_loopback_ip (net.parse_ip u.hostname))

-- `validRedirect`
abbrev pub valid_redirect : Library → String → Bool
valid_redirect lib s =
    if ltb 2048 (len s) then false else is_redirect_url lib.net (lib.net.parse_url s)

-- The body of a registration, as it is decoded from JSON.
pub record Registration : Type 0 where
  pub name : String
  pub redirects : List String
  pub method : String
  pub grant_types : List String
  pub response_types : List String
  pub scope : String

abbrev pub known_method : String → Bool
known_method m = m == "none" || m == "client_secret_basic"

abbrev pub known_grant : String → Bool
known_grant g = g == "authorization_code" || g == "refresh_token"

-- The defaults that `register` fills in.
unfoldable pub with_defaults : Registration → Registration
with_defaults q = record q {
  method = if q.method == "" then "client_secret_basic" else q.method;
  grant_types = if eqb (length q.grant_types) 0 then "authorization_code" ∷ [] else q.grant_types;
}

-- The tests of `register`, in its order: the error's code.
unfoldable pub check_registration : Library → Registration → Option String
check_registration lib q =
    let d = with_defaults q in
    if eqb (length q.redirects) 0 || (ltb 10 (length q.redirects) || ltb 100 (len q.name))
    then some "invalid_client_metadata"
    else if not (all_of (valid_redirect lib) q.redirects)
    then some "invalid_redirect_uri"
    else if not (known_method d.method)
    then some "invalid_client_metadata"
    else if not (all_of known_grant q.grant_types)
    then some "invalid_client_metadata"
    else if not (all_of (λ t. t == "code") q.response_types)
    then some "invalid_client_metadata"
    else if not (q.scope == "") && not (q.scope == connect_scope)
    then some "invalid_client_metadata"
    else if not (contains d.grant_types "authorization_code")
    then some "invalid_client_metadata"
    else none

-- The critical section of `register`: `saved` says whether the registry could be written.
unfoldable pub add_client : OauthClient → String → Bool → OauthProvider → Response × OauthProvider
add_client c secret saved p =
    if leb 256 (length p.clients)
    then (failure 429 "temporarily_unavailable", p)
    else if saved
    then (registered c secret, record p { clients = insert c.id c p.clients })
    else (failure 500 "server_error", record p { clients = erase c.id (insert c.id c p.clients) })

-- What comes from outside: the new client's ID and secret, if there was randomness for them, and
-- whether the registry could be written.
pub record Registering : Type 0 where
  pub time : ℕ
  pub client_id : Option String
  pub secret : Option String
  pub saved : Bool

unfoldable pub new_client : Library → Registering → String → String → Registration → OauthClient
new_client lib env id secret d = record {
  grant_types = d.grant_types;
  id = id;
  name = if clean_reason d.name == "" then "Unnamed MCP client" else clean_reason d.name;
  redirects = d.redirects;
  method = d.method;
  secret_hash = if d.method == "client_secret_basic" then lib.digest secret else "";
  created = env.time / second;
}

-- The client's secret: a public client has none.
abbrev pub client_secret : Registering → Registration → Option String
client_secret env d = if d.method == "client_secret_basic" then env.secret else some ""

abbrev no_randomness : Response
no_randomness = failure 500 "server_error"

unfoldable pub register_as :
    Library
    → Registering
    → Registration
    → Option String
    → Option String
    → OauthProvider
    → Response × OauthProvider
unfolding new_client add_client
register_as lib env d (some id) (some secret) p =
    add_client (new_client lib env id secret d) secret env.saved p
register_as lib env d id secret p = (no_randomness, p)

-- With the error that the checks find, if any.
unfoldable pub register_checked :
    Library → Registering → Registration → Option String → OauthProvider → Response × OauthProvider
unfolding register_as
register_checked lib env d (some code) p = (failure 400 code, p)
register_checked lib env d none p = register_as lib env d env.client_id (client_secret env d) p

-- `register`, for a body that could be decoded.
unfoldable pub register :
    Library → Registering → Registration → OauthProvider → Response × OauthProvider
unfolding check_registration with_defaults register_checked
register lib env q p = register_checked lib env (with_defaults q) (check_registration lib q) p
