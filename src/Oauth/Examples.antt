-- ===== src/Oauth/Examples.antt =====
-- The provider's theorems at concrete states. The digest and the PKCE challenge are the identity,
-- and every address and challenge is well formed.
use hyprland_computer_use.Base.{
  ◌+◌, ◌≢◌, ℕ, ◌<◌, ◌≡◌, refl, not, arith, true, false, none, some, List, [], ◌∷◌, ◌==◌, string_eq,
  string_discrete,
}
use hyprland_computer_use.Base.Dict.{lookup, NodupKeys, keep_if}
use hyprland_computer_use.Base.Dict.Values.{AllValues}
use hyprland_computer_use.Oauth.Approved.{Approved, minute}
use hyprland_computer_use.Oauth.Approved.Runs.{run-verify}
use hyprland_computer_use.Oauth.Authorize.{Visit, authorize}
use hyprland_computer_use.Oauth.Bounded.{Bounded}
use hyprland_computer_use.Oauth.Bounded.Runs.{run-Bounded}
use hyprland_computer_use.Oauth.Client.{Registration, Registering, register, valid_redirect}
use hyprland_computer_use.Oauth.Exchange.{Fresh, exchange}
use hyprland_computer_use.Oauth.Family.{
  exchange-bound, refresh_token-reuse, verify-revoke_connection,
}
use hyprland_computer_use.Oauth.Machine.{
  run, Section, visits, asks, decides, exchanges, all_approvals,
}
use hyprland_computer_use.Oauth.Once.{exchange-once}
use hyprland_computer_use.Oauth.Refresh.{
  contradicts, refresh_token, seconds_left, revoke_connection,
}
use hyprland_computer_use.Oauth.Redirect.{IsRedirect, valid_redirect-IsRedirect}
use hyprland_computer_use.Oauth.Registered.{ValidClient, register-AllValid, authorize-IsRedirect}
use hyprland_computer_use.Oauth.Rotation.{refresh_token-rotates}
use hyprland_computer_use.Oauth.State.{
  Library, OauthClient, OauthPending, undecided, OauthCode, OauthConnection, OauthRefresh,
  OauthProvider, Values, get, credentials, failure, connect_scope, new_provider, hour, redirect_to,
}
use hyprland_computer_use.Oauth.Token.{verify}
use hyprland_computer_use.Base.{ap, len}
use hyprland_computer_use.Base.{contains}
use hyprland_computer_use.Base.{◌-◌, ◌≤◌, length}
use hyprland_computer_use.Oauth.Limit.{RateEntry, passed, rate_limit-bound}
use hyprland_computer_use.Oauth.Registry.{RegistryFile, load_clients, opened, load_clients-AllValid}
use hyprland_computer_use.Base.Dict.{Dict}
use hyprland_computer_use.Base.Addresses.{Addresses}
use hyprland_computer_use.Base.{String}

-- Every URL is one of an HTTPS host.
abbrev secure_net : Addresses
secure_net = record {
  parse_url = λ s. some (record {
    scheme = "https";
    host = "app";
    hostname = "app";
    has_user = false;
    path = "";
    query = "";
    fragment = "";
  });
  split_host = λ s. none;
  parse_ip = λ s. none;
}

abbrev lib : Library
lib = record {
  digest = λ s. s;
  challenge_of = λ s. s;
  is_challenge = λ s. true;
  net = secure_net;
  unescape = λ s. some s;
  hex_bytes = λ s. some 32;
}

abbrev app : OauthClient
app = record {
  grant_types = "authorization_code" ∷ "refresh_token" ∷ [];
  id = "app";
  name = "App";
  redirects = "https://app" ∷ [];
  method = "none";
  secret_hash = "";
  created = 0;
}

abbrev question : OauthPending
question = record {
  id = "q";
  client_id = "app";
  name = "App";
  redirect = "https://app";
  expires = 300_000_000_000;
  state = "";
  challenge = "proof";
  cookie_hash = "cookie";
  decision = undecided;
  code = "";
}

abbrev good_code : OauthCode
good_code = record {
  client = "app";
  redirect = "https://app";
  challenge = "proof";
  resource = "https://pc/mcp";
  expires = 60_000_000_000;
}

abbrev connection : OauthConnection
connection = record {
  id = "n";
  client_id = "app";
  name = "App";
  expires = 3_600_000_000_000;
  resource = "https://pc/mcp";
}

abbrev provider : OauthProvider
provider = record {
  refresh =
      ("old", record { connection = connection; used = true })
      ∷ ("new", record { connection = connection; used = false })
      ∷ [];
  issuer = "https://pc";
  resource = "https://pc/mcp";
  clients = ("app", app) ∷ [];
  pending = ("q", question) ∷ [];
  codes = ("code", good_code) ∷ [];
  tokens = ("token", connection) ∷ [];
}

abbrev fresh : Fresh
fresh = record { access = some "token2"; connection_id = some "n2"; refresh = some "new2" }

abbrev code_form : Values
code_form =
    ("code", "code" ∷ [])
    ∷ ("redirect_uri", "https://app" ∷ [])
    ∷ ("resource", "https://pc/mcp" ∷ [])
    ∷ ("code_verifier", "proof" ∷ [])
    ∷ []

abbrev old_form : Values
old_form = ("refresh_token", "old" ∷ []) ∷ []

abbrev new_form : Values
new_form = ("refresh_token", "new" ∷ []) ∷ []

exchanged : (exchange lib 1 app code_form fresh provider).0 ≡ credentials "token2" "new2" 3600
unfolding exchange get string_discrete lookup hyprland_computer_use.Base.Dict.retain string_eq
exchanged = refl

exchange-bound_example :
    (code : OauthCode) × (lookup (lib.digest (get "code" code_form)) provider.codes ≡ some code)
    × (1 < code.expires)
    × (code.client ≡ app.id)
    × (code.redirect ≡ get "redirect_uri" code_form)
    × (code.resource ≡ get "resource" code_form)
    × (code.challenge ≡ lib.challenge_of (get "code_verifier" code_form))
unfolding lookup
exchange-bound_example =
    exchange-bound lib 1 app code_form fresh "token2" "new2" 3600 provider (refl, tt) exchanged

exchange-once_example :
    (exchange lib 9 app code_form fresh
      (run lib ((5, visits) ∷ []) (exchange lib 1 app code_form fresh provider).1)).0
    ≡ failure 400 "invalid_grant"
exchange-once_example =
    exchange-once lib 1 9 app app code_form code_form fresh fresh "token2" "new2" 3600
      ((5, visits) ∷ []) provider exchanged (refl, tt) refl

two_keys : NodupKeys provider.refresh
unfolding lookup string_discrete string_eq
two_keys = (refl, (refl, tt))

no_resource : contradicts (get "resource" old_form) provider.resource ≡ false
unfolding get lookup string_discrete string_eq
no_resource = refl

no_scope : contradicts (get "scope" old_form) connect_scope ≡ false
unfolding get lookup string_discrete string_eq
no_scope = refl

old_found :
    lookup (lib.digest (get "refresh_token" old_form)) provider.refresh
    ≡ some (record { connection = connection; used = true })
unfolding get lookup string_discrete string_eq
old_found = refl

may_refresh : contains app.grant_types "refresh_token" ≡ true
unfolding string_discrete string_eq
may_refresh = refl

refresh_token-reuse_example :
    let after = refresh_token lib 1 app old_form fresh provider in
    (after.0 ≡ failure 400 "invalid_grant")
    × (verify lib 2 "token" after.1
        ≡ keep_if (λ v. not (v.id == connection.id)) (verify lib 2 "token" provider))
unfolding lookup
refresh_token-reuse_example =
    refresh_token-reuse lib 1 2 app old_form fresh "token"
      (record { connection = connection; used = true }) provider (refl, tt) two_keys (omega arith)
      may_refresh no_resource no_scope old_found refl refl refl (omega arith)

refreshed : (refresh_token lib 1 app new_form fresh provider).0 ≡ credentials "token2" "new2" 3599
unfolding refresh_token get string_discrete lookup string_eq hyprland_computer_use.Base.Dict.retain
refreshed = refl

new_digest : lib.digest "new2" ≢ lib.digest (get "refresh_token" new_form)
unfolding get lookup string_discrete string_eq
new_digest e = omega (arith, ap len e)

refresh_token-rotates_example :
    let key = lib.digest (get "refresh_token" new_form) in
    let after = (refresh_token lib 1 app new_form fresh provider).1 in
    (contains app.grant_types "refresh_token" ≡ true)
    × ((rt : OauthRefresh) × (lookup key provider.refresh ≡ some rt)
        × (rt.used ≡ false)
        × (rt.connection.client_id ≡ app.id)
        × (3599 ≡ seconds_left 1 rt.connection)
        × (verify lib 1 "token2" after ≡ some rt.connection)
        × (lookup key after.refresh ≡ some (record rt { used = true })))
refresh_token-rotates_example =
    refresh_token-rotates lib 1 app new_form fresh "token2" "new2" 3599 provider two_keys new_digest
      refreshed

verify-revoke_connection_example :
    verify lib 2 "token" (revoke_connection "n" provider)
    ≡ keep_if (λ v. not (v.id == "n")) (verify lib 2 "token" provider)
unfolding lookup
verify-revoke_connection_example = verify-revoke_connection lib 2 "n" "token" provider (refl, tt)

abbrev visit : Visit
visit = record { time = 1; nonce = some "cookie"; pending_id = some "q" }

abbrev page : Values
page = ("redirect_uri", "https://app" ∷ []) ∷ ("code_challenge", "proof" ∷ []) ∷ []

abbrev session : List (ℕ × Section)
session =
    (1, asks visit app page "cookie" "q")
    ∷ (2, decides "q" true (some "code"))
    ∷ (
      3,
      exchanges app
          (("code", "code" ∷ [])
            ∷ ("redirect_uri", "https://app" ∷ [])
            ∷ ("resource", "https://pc/mcp" ∷ [])
            ∷ ("code_verifier", "proof" ∷ [])
            ∷ [])
          fresh,
    )
    ∷ []

abbrev begun : OauthProvider
begun = new_provider "https://pc" (("app", app) ∷ [])

abbrev first_connection : OauthConnection
first_connection = record {
  id = "n2";
  client_id = "app";
  name = "App";
  expires = 3_600_000_000_003;
  resource = "https://pc/mcp";
}

verified : verify lib 4 "token2" (run lib session begun) ≡ some first_connection
unfolding verify run new_provider string_discrete lookup hyprland_computer_use.Base.Dict.retain
    hyprland_computer_use.Base.Dict.insert string_eq hyprland_computer_use.Oauth.State.decision_eq
verified = refl

run-verify_example :
    Approved (minute + hour) "app" 3_600_000_000_003 (all_approvals lib session begun [])
    × (4 < 3_600_000_000_003)
run-verify_example =
    run-verify lib "https://pc" (("app", app) ∷ []) session 4 "token2" first_connection verified

one_client : Bounded provider
unfolding lookup string_discrete
one_client = record {
  clients = (omega arith, (refl, tt));
  pending = (omega arith, (refl, tt));
  codes = (omega arith, (refl, tt));
  tokens = (omega arith, (refl, tt));
  refresh = two_keys;
}

run-Bounded_example : Bounded (run lib session provider)
run-Bounded_example = run-Bounded lib session provider one_client

is_valid : valid_redirect lib "https://app" ≡ true
unfolding string_eq
is_valid = refl

app-ValidClient : ValidClient lib app
unfolding string_discrete string_eq
app-ValidClient = record {
  some_redirect = omega arith;
  few_redirects = omega arith;
  redirects_valid = (valid_redirect-IsRedirect lib "https://app" is_valid, tt);
  method_known = refl;
  uses_codes = refl;
}

abbrev registration : Registration
registration = record {
  name = "B";
  redirects = "https://b" ∷ [];
  method = "none";
  grant_types = [];
  response_types = [];
  scope = "";
}

abbrev registering : Registering
registering = record { time = 1; client_id = some "b"; secret = none; saved = true }

register-AllValid_example :
    AllValues (ValidClient lib) (register lib registering registration provider).1.clients
register-AllValid_example =
    register-AllValid lib registering registration provider (app-ValidClient, tt)

abbrev bad_page : Values
bad_page = ("client_id", "app" ∷ []) ∷ ("redirect_uri", "https://app" ∷ []) ∷ []

redirected :
    (authorize lib visit bad_page (λ p. p) provider).0
    ≡ redirect_to "https://app"
        (("error", "unsupported_response_type") ∷ ("iss", "https://pc") ∷ [])
unfolding authorize string_discrete lookup get string_eq
redirected = refl

authorize-IsRedirect_example :
    (c : OauthClient) × (lookup (get "client_id" bad_page) provider.clients ≡ some c)
    × (contains c.redirects "https://app" ≡ true)
    × IsRedirect lib "https://app"
authorize-IsRedirect_example =
    authorize-IsRedirect lib visit bad_page (λ p. p) provider "https://app"
      (("error", "unsupported_response_type") ∷ ("iss", "https://pc") ∷ []) (app-ValidClient, tt)
      redirected

abbrev entry : RateEntry
entry = record { window = 1; count = 1 }

rate_limit-bound_example :
    passed 2 "k" ((3, "k") ∷ (4, "other") ∷ (5, "k") ∷ []) (("k", entry) ∷ []) ≤ 2 - entry.count
unfolding lookup string_discrete string_eq
rate_limit-bound_example =
    rate_limit-bound 2 "k" ((3, "k") ∷ (4, "other") ∷ (5, "k") ∷ []) (("k", entry) ∷ []) entry
      (refl, tt) refl (omega arith, (omega arith, (omega arith, tt)))

abbrev stored : OauthClient
stored = record app { id = "0123456789abcdef0123456789abcdef" }

abbrev stored_clients : Dict String OauthClient
stored_clients = (stored.id, stored) ∷ []

abbrev registry : RegistryFile
registry = record {
  has_stat = true;
  is_regular = true;
  is_private = true;
  is_owned = true;
  size = 300;
  read = true;
  closed = true;
  clients = some stored_clients;
}

registry_loaded : load_clients lib (opened registry) ≡ some stored_clients
unfolding load_clients string_discrete string_eq
registry_loaded = refl

load_clients-AllValid_example :
    AllValues (ValidClient lib) stored_clients × (length stored_clients ≤ 256)
load_clients-AllValid_example =
    load_clients-AllValid lib (opened registry) stored_clients registry_loaded
