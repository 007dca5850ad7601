-- ===== src/Oauth/State.antt =====
-- The data of internal/app/oauth.go, `cleanupLocked`, and what the provider takes from Go's
-- standard library. Times are nanoseconds; the keys of the code, token and refresh maps are
-- digests.
use hyprland_computer_use.Base.{
  ℕ, ◌*◌, String, ◌<>◌, Bool, true, ◌&&◌, Option, none, some, List, [], ◌∷◌, length, ltb, eqb, Eq,
  string_eq,
}
use hyprland_computer_use.Base.Addresses.{Addresses}
use hyprland_computer_use.Base.Dict.{Dict, lookup, retain}
use hyprland_computer_use.Broker.State.{second}

-- The cryptography and the parsers of the standard library, as the provider calls them.
pub record Library : Type 0 where
  -- `digest`: the hexadecimal SHA-256 of a text.
  pub digest : String → String
  -- The unpadded URL-safe base64 of the SHA-256 of a PKCE verifier.
  pub challenge_of : String → String
  -- Whether a PKCE challenge decodes, from 43 characters, to 32 bytes.
  pub is_challenge : String → Bool
  -- `url.Parse` and `net.ParseIP`
  pub net : Addresses
  -- `url.QueryUnescape`
  pub unescape : String → Option String
  -- `hex.DecodeString`: the number of bytes.
  pub hex_bytes : String → Option ℕ

pub record OauthClient : Type 0 where
  pub grant_types : List String
  pub id : String
  pub name : String
  pub redirects : List String
  pub method : String
  pub secret_hash : String
  pub created : ℕ

pub data Decision : Type 0 where
  undecided denied approved : Decision

pub record OauthPending : Type 0 where
  pub id : String
  pub client_id : String
  pub name : String
  pub redirect : String
  pub expires : ℕ
  pub state : String
  pub challenge : String
  pub cookie_hash : String
  pub decision : Decision
  pub code : String

pub record OauthCode : Type 0 where
  pub client : String
  pub redirect : String
  pub challenge : String
  pub resource : String
  pub expires : ℕ

pub record OauthConnection : Type 0 where
  pub id : String
  pub client_id : String
  pub name : String
  pub expires : ℕ
  pub resource : String

pub record OauthRefresh : Type 0 where
  pub connection : OauthConnection
  pub used : Bool

pub record OauthProvider : Type 0 where
  pub refresh : Dict String OauthRefresh
  pub issuer : String
  pub resource : String
  pub clients : Dict String OauthClient
  pub pending : Dict String OauthPending
  pub codes : Dict String OauthCode
  pub tokens : Dict String OauthConnection

unfoldable pub decision_discrete : Discrete Decision
decision_discrete = hlevel

instance unfoldable pub decision_eq : Eq Decision
unfolding decision_discrete
decision_eq = record { dec = decision_discrete }

-- `newOAuthProvider`, for an issuer and a client registry that have been read.
unfoldable pub new_provider : String → Dict String OauthClient → OauthProvider
new_provider issuer clients = record {
  refresh = [];
  issuer = issuer;
  resource = issuer <> "/mcp";
  clients = clients;
  pending = [];
  codes = [];
  tokens = [];
}

abbrev pub live_pending : ℕ → OauthPending → Bool
live_pending now v = ltb now v.expires

abbrev pub live_code : ℕ → OauthCode → Bool
live_code now v = ltb now v.expires

abbrev pub live_refresh : ℕ → OauthRefresh → Bool
live_refresh now v = ltb now v.connection.expires

abbrev pub live_token : ℕ → OauthConnection → Bool
live_token now v = ltb now v.expires

-- `cleanupLocked`
unfoldable pub cleanup : ℕ → OauthProvider → OauthProvider
cleanup now p = record p {
  pending = retain (live_pending now) p.pending;
  codes = retain (live_code now) p.codes;
  refresh = retain (live_refresh now) p.refresh;
  tokens = retain (live_token now) p.tokens;
}

-- What a handler answers: an error with its status and code, a redirect with the query parameters
-- that it sets, the waiting page, new credentials, or an empty success.
pub data Response : Type 0 where
  failure : ℕ → String → Response
  redirect_to : String → Dict String String → Response
  wait_page : String → Response
  registered : OauthClient → String → Response
  -- The access token, the refresh token ("" if none), and the seconds that it lasts.
  credentials : String → String → ℕ → Response
  empty_success : Response

-- `url.Values` and `http.Request.PostForm`.
abbrev pub Values : Type 0
Values = Dict String (List String)

abbrev first_of_values : Option (List String) → String
first_of_values none = ""
first_of_values (some []) = ""
first_of_values (some (v ∷ vs)) = v

-- `Values.Get`
unfoldable pub get : String → Values → String
get k v = first_of_values (lookup k v)

-- `uniqueParams`
unfoldable pub unique_params : Values → Bool
unique_params [] = true
unique_params ((k, vs) ∷ v) = eqb (length vs) 1 && unique_params v

abbrev pub connect_scope : String
connect_scope = "mcp:connect"

abbrev pub hour : ℕ
hour = 3600 * second
