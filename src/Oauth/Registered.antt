-- ===== src/Oauth/Registered.antt =====
-- What is registered is valid, and the provider sends browsers to registered addresses only.
use mathlib.Core.Path.{subst}
use hyprland_computer_use.Base.{
  ◌≤◌, ◌<◌, ◌≢◌, true, Bool, ◌≡◌, refl, arith, if_both, leb, length, Option, none, some, string_eq,
  String,
}
use hyprland_computer_use.Base.Dict.{Dict, lookup, insert}
use hyprland_computer_use.Base.Dict.Values.{
  AllValues, AllValues-insert, AllValues-erase, lookup-AllValues,
}
use hyprland_computer_use.Oauth.Authorize.{authorize_client, ask_user, Visit, add_pending}
use hyprland_computer_use.Oauth.Client.{
  known_method, Registering, Registration, with_defaults, check_registration, new_client,
  register_as, register, client_secret, add_client,
}
use hyprland_computer_use.Oauth.State.{
  Library, OauthClient, Values, get, OauthProvider, cleanup, Response, redirect_to,
}
use hyprland_computer_use.Oauth.Authorize.{authorize, answer_client, redirect_error}
use hyprland_computer_use.Oauth.Client.{register_checked}
use hyprland_computer_use.Base.{contains, contains-All, All}
use hyprland_computer_use.Oauth.Redirect.{IsRedirect, all_of-AllRedirect}

pub record ValidClient (lib : Library) (c : OauthClient) : Type 0 where
  pub some_redirect : 0 < length c.redirects
  pub few_redirects : length c.redirects ≤ 10
  pub redirects_valid : All (IsRedirect lib) c.redirects
  pub method_known : known_method c.method ≡ true
  pub uses_codes : contains c.grant_types "authorization_code" ≡ true

checked_client-ValidClient :
    (lib : Library) (env : Registering) (q : Registration) (id secret : String)
    → check_registration lib q ≡ none
    → ValidClient lib (new_client lib env id secret (with_defaults q))
unfolding check_registration new_client with_defaults
checked_client-ValidClient lib env q id secret e = record {
  some_redirect = ground arith;
  few_redirects = ground arith;
  redirects_valid = all_of-AllRedirect lib q.redirects (ground arith);
  method_known = ground arith;
  uses_codes = ground arith;
}

add_client-AllValid :
    (lib : Library) (c : OauthClient) (secret : String) (saved : Bool) (p : OauthProvider)
    → ValidClient lib c
    → AllValues (ValidClient lib) p.clients
    → AllValues (ValidClient lib) (add_client c secret saved p).1.clients
unfolding add_client
add_client-AllValid lib c secret saved p v a =
    let P = λ (r : Response × OauthProvider). AllValues (ValidClient lib) r.1.clients in
    let added = AllValues-insert (ValidClient lib) c.id c p.clients v a in
    if_both P (leb 256 (length p.clients)) _ _ a (
      if_both P saved _ _ added
        (AllValues-erase (ValidClient lib) c.id (insert c.id c p.clients) added))

register_as-AllValid :
    (lib : Library) (env : Registering) (q : Registration) (id secret : Option String)
    (p : OauthProvider)
    → check_registration lib q ≡ none
    → AllValues (ValidClient lib) p.clients
    → AllValues (ValidClient lib) (register_as lib env (with_defaults q) id secret p).1.clients
unfolding register_as
register_as-AllValid lib env q (some id) (some secret) p e a =
    add_client-AllValid lib (new_client lib env id secret (with_defaults q)) secret env.saved p
      (checked_client-ValidClient lib env q id secret e) a
register_as-AllValid lib env q (some id) none p e a = a
register_as-AllValid lib env q none secret p e a = a

register_checked-AllValid :
    (lib : Library) (env : Registering) (q : Registration) (code : Option String)
    (p : OauthProvider)
    → check_registration lib q ≡ code
    → AllValues (ValidClient lib) p.clients
    → AllValues (ValidClient lib) (register_checked lib env (with_defaults q) code p).1.clients
unfolding register_checked
register_checked-AllValid lib env q (some code) p e a = a
register_checked-AllValid lib env q none p e a =
    register_as-AllValid lib env q env.client_id (client_secret env (with_defaults q)) p e a

-- A registration, accepted or not, leaves every registered client valid: with one to ten redirect
-- addresses, each a URL of at most 2048 bytes with a host, without credentials and fragment, of
-- HTTPS, or of HTTP to localhost or a literal loopback address; with a known authentication method,
-- and with the authorization code grant.
pub register-AllValid :
    (lib : Library) (env : Registering) (q : Registration) (p : OauthProvider)
    → AllValues (ValidClient lib) p.clients
    → AllValues (ValidClient lib) (register lib env q p).1.clients
unfolding register
register-AllValid lib env q p a =
    register_checked-AllValid lib env q (check_registration lib q) p refl a

ask_user-no_redirect :
    (lib : Library) (env : Visit) (c : OauthClient) (q : Values) (nonce id : Option String)
    (p : OauthProvider) (u : String) (d : Dict String String)
    → (ask_user lib env c q nonce id p).0 ≢ redirect_to u d
unfolding ask_user add_pending
ask_user-no_redirect lib env c q (some n) (some id) p u d e = ground arith
ask_user-no_redirect lib env c q (some n) none p u d e = cc
ask_user-no_redirect lib env c q none id p u d e = cc

answer_client-redirect :
    (lib : Library) (env : Visit) (c : OauthClient) (q : Values) (code : Option String)
    (p : OauthProvider) (u : String) (d : Dict String String)
    → (answer_client lib env c q code p).0 ≡ redirect_to u d
    → get "redirect_uri" q ≡ u
unfolding answer_client
answer_client-redirect lib env c q (some code) p u d e = cc
answer_client-redirect lib env c q none p u d e =
    absurd (ask_user-no_redirect lib env c q env.nonce env.pending_id p u d e)

authorize_client-redirect :
    (lib : Library) (env : Visit) (o : Option OauthClient) (q : Values) (p : OauthProvider)
    (u : String) (d : Dict String String)
    → (authorize_client lib env o q p).0 ≡ redirect_to u d
    → (c : OauthClient) × (o ≡ some c) × (contains c.redirects u ≡ true)
unfolding authorize_client
authorize_client-redirect lib env none q p u d e = cc
authorize_client-redirect lib env (some c) q p u d e =
    let r = answer_client-redirect lib env c q (redirect_error lib p.resource q) p u d in
    let same : get "redirect_uri" q ≡ u = ground (arith, r) in
    let listed : contains c.redirects (get "redirect_uri" q) ≡ true = ground (arith) in
    (c, refl, subst (λ x. contains c.redirects x ≡ true) same listed)

-- Where every registered client is valid, an authorization request that is answered by a redirect
-- is sent to an address registered for the client that it names, and that address is valid: a URL
-- of at most 2048 bytes with a host, without credentials and fragment, of HTTPS, or of HTTP to
-- localhost or a literal loopback address.
pub authorize-IsRedirect :
    (lib : Library) (env : Visit) (q : Values) (between : OauthProvider → OauthProvider)
    (p : OauthProvider) (u : String) (d : Dict String String)
    → AllValues (ValidClient lib) p.clients
    → (authorize lib env q between p).0 ≡ redirect_to u d
    → (c : OauthClient) × (lookup (get "client_id" q) p.clients ≡ some c)
      × (contains c.redirects u ≡ true)
      × IsRedirect lib u
unfolding authorize cleanup
authorize-IsRedirect lib env q between p u d a e =
    let r =
      authorize_client-redirect lib env (lookup (get "client_id" q) p.clients) q
        (between (cleanup env.time p)) u d (ground arith) in
    let v = lookup-AllValues (ValidClient lib) (get "client_id" q) p.clients r.0 a r.1 in
    (r.0, r.1, r.2, contains-All (IsRedirect lib) r.0.redirects u v.redirects_valid r.2)
