-- ===== src/Oauth/Exchange.antt =====
-- internal/app/oauth.go: the exchange of an authorization code, in `token`.
use Prim.Native.Char.{code as code_of}
use hyprland_computer_use.Base.{
  ℕ, String, Bool, true, false, not, ◌&&◌, ◌||◌, Option, none, some, length, ltb, leb, eqb,
  if◌then◌else◌, ◌==◌, string_eq, ◌+◌, len,
}
use hyprland_computer_use.Base.Dict.{Dict, lookup, insert, erase}
use hyprland_computer_use.Oauth.State.{
  Library, OauthClient, OauthCode, OauthConnection, OauthRefresh, failure, credentials, Response,
  OauthProvider, Values, get, cleanup, hour,
}
use hyprland_computer_use.Base.{contains}

-- The new credentials, if there was randomness for them.
pub record Fresh : Type 0 where
  pub access : Option String
  pub connection_id : Option String
  pub refresh : Option String

-- The characters of a PKCE verifier.
abbrev is_unreserved : ℕ → Bool
is_unreserved c =
    leb b'a' c && leb c b'z'
    || (leb b'A' c && leb c b'Z'
        || (leb b'0' c && leb c b'9' || (eqb c b'-' || (eqb c b'.' || (eqb c b'_' || eqb c b'~')))))

unfoldable pub all_unreserved : String → Bool
all_unreserved String.[] = true
all_unreserved (String.◌∷◌ c s) = is_unreserved (code_of c) && all_unreserved s

abbrev pub is_verifier : String → Bool
is_verifier s = not (ltb (len s) 43 || ltb 128 (len s)) && all_unreserved s

abbrev pub bad_grant : Response
bad_grant = failure 400 "invalid_grant"

-- Whether the code was issued to this client, for this redirect, resource and PKCE verifier.
unfoldable pub code_matches : Library → OauthClient → Values → OauthCode → Bool
unfolding get
code_matches lib c form code =
    code.client == c.id
    && (code.redirect == get "redirect_uri" form
        && (code.resource == get "resource" form
            && code.challenge == lib.challenge_of (get "code_verifier" form)))

-- The writes of an exchange: a connection of an hour.
unfoldable pub new_connection : ℕ → OauthClient → String → OauthProvider → OauthConnection
new_connection now c id p = record {
  id = id;
  client_id = c.id;
  name = c.name;
  expires = now + hour;
  resource = p.resource;
}

abbrev pub add_refresh :
    Library → String → OauthConnection → Dict String OauthRefresh → Dict String OauthRefresh
add_refresh lib refresh v d =
    if refresh == ""
    then d
    else insert (lib.digest refresh) (record { connection = v; used = false }) d

unfoldable pub connect :
    Library → ℕ → OauthClient → String → String → String → String → OauthProvider → OauthProvider
unfolding new_connection
connect lib now c key access id refresh p =
    let v = new_connection now c id p in
    record p {
      codes = erase key p.codes;
      tokens = insert (lib.digest access) v p.tokens;
      refresh = add_refresh lib refresh v p.refresh;
    }

-- A refresh token is made for a client that registered the grant type.
abbrev pub wanted_refresh : OauthClient → Option String → Option String
wanted_refresh c fresh = if contains c.grant_types "refresh_token" then fresh else some ""

unfoldable pub issue :
    Library
    → ℕ
    → OauthClient
    → String
    → Option String
    → Option String
    → Option String
    → OauthProvider
    → Response × OauthProvider
unfolding connect
issue lib now c key (some access) (some id) (some refresh) p =
    (credentials access refresh 3600, connect lib now c key access id refresh p)
issue lib now c key access id refresh p = (failure 500 "server_error", p)

unfoldable pub exchange_code :
    Library
    → ℕ
    → OauthClient
    → Values
    → Fresh
    → String
    → Option OauthCode
    → OauthProvider
    → Response × OauthProvider
unfolding code_matches issue
exchange_code lib now c form fresh key none p = (bad_grant, p)
exchange_code lib now c form fresh key (some code) p =
    if not (code_matches lib c form code)
    then (bad_grant, p)
    else if leb 256 (length p.tokens)
    then (failure 429 "temporarily_unavailable", p)
    else issue lib now c key fresh.access fresh.connection_id (wanted_refresh c fresh.refresh) p

-- The critical section of `token`, for an authenticated client and a verifier of the right form.
unfoldable pub exchange :
    Library → ℕ → OauthClient → Values → Fresh → OauthProvider → Response × OauthProvider
unfolding cleanup exchange_code get
exchange lib now c form fresh p =
    let p' = cleanup now p in
    let key = lib.digest (get "code" form) in
    exchange_code lib now c form fresh key (lookup key p'.codes) p'
