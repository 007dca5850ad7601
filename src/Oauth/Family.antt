-- ===== src/Oauth/Family.antt =====
-- The tokens of one connection: their revocation, their rotation, and single use of codes.
use hyprland_computer_use.Base.{ℕ, ◌≤◌, ◌<◌, ◌≡◌, arith, not, String, true, some, ◌==◌, string_eq}
use hyprland_computer_use.Base.Dict.{NodupKeys, lookup, lookup-retain, keep_if}
use hyprland_computer_use.Oauth.Exchange.{exchange, Fresh, exchange_code, code_matches}
use hyprland_computer_use.Oauth.Refresh.{revoke_connection, refresh_with, refresh_token}
use hyprland_computer_use.Oauth.State.{
  Library, OauthClient, OauthProvider, OauthCode, OauthConnection, OauthRefresh, Values, failure,
  credentials, cleanup, get, live_token, live_code, live_refresh,
}
use hyprland_computer_use.Oauth.Token.{verify}
use hyprland_computer_use.Base.{refl, ap, false, ◌∙◌, none, Option}
use hyprland_computer_use.Base.Dict.{retain-NodupKeys}
use hyprland_computer_use.Oauth.Refresh.{contradicts}
use hyprland_computer_use.Oauth.State.{connect_scope, Response}
use hyprland_computer_use.Base.{contains}

-- Where each token stands once in its map, a revocation ends the tokens of the connection, and no
-- other: every other bearer token stands for what it stood for.
pub verify-revoke_connection :
    (lib : Library) (now : ℕ) (id raw : String) (p : OauthProvider)
    → NodupKeys p.tokens
    → verify lib now raw (revoke_connection id p)
      ≡ keep_if (λ v. not (v.id == id)) (verify lib now raw p)
unfolding verify revoke_connection
verify-revoke_connection lib now id raw p u =
    ground
      (arith, lookup-retain (λ (v : OauthConnection). not (v.id == id)) (lib.digest raw) p.tokens u)

cleanup-NodupTokens :
    (now : ℕ) (p : OauthProvider) → NodupKeys p.tokens → NodupKeys (cleanup now p).tokens
unfolding cleanup
cleanup-NodupTokens now p u = retain-NodupKeys (live_token now) p.tokens u

verify-cleanup :
    (lib : Library) (now later : ℕ) (raw : String) (p : OauthProvider)
    → NodupKeys p.tokens
    → now ≤ later
    → verify lib later raw (cleanup now p) ≡ verify lib later raw p
unfolding verify cleanup
verify-cleanup lib now later raw p u le =
    ground (arith, lookup-retain (live_token now) (lib.digest raw) p.tokens u)

refresh_with-used :
    (lib : Library) (now : ℕ) (c : OauthClient) (fresh : Fresh) (key : String) (rt : OauthRefresh)
    (p : OauthProvider)
    → rt.used ≡ true
    → rt.connection.client_id ≡ c.id
    → rt.connection.resource ≡ p.resource
    → refresh_with lib now c fresh key (some rt) p
      ≡ (failure 400 "invalid_grant", revoke_connection rt.connection.id p)
unfolding refresh_with
refresh_with-used lib now c fresh key rt p d own res = ground arith

live_refresh-found :
    (now : ℕ) (key : String) (rt : OauthRefresh) (p : OauthProvider)
    → NodupKeys p.refresh
    → lookup key p.refresh ≡ some rt
    → now < rt.connection.expires
    → lookup key (cleanup now p).refresh ≡ some rt
unfolding cleanup
live_refresh-found now key rt p w f h =
    ground (arith, lookup-retain (live_refresh now) key p.refresh w)

refresh_token-checked :
    (lib : Library) (now : ℕ) (c : OauthClient) (form : Values) (fresh : Fresh) (p : OauthProvider)
    → contains c.grant_types "refresh_token" ≡ true
    → contradicts (get "resource" form) p.resource ≡ false
    → contradicts (get "scope" form) connect_scope ≡ false
    → let key = lib.digest (get "refresh_token" form) in
      let p' = cleanup now p in
      refresh_token lib now c form fresh p
      ≡ refresh_with lib now c fresh key (lookup key p'.refresh) p'
unfolding refresh_token
refresh_token-checked lib now c form fresh p g r s = rw (g, r, s) refl

refresh_token-used :
    (lib : Library) (now : ℕ) (c : OauthClient) (form : Values) (fresh : Fresh) (rt : OauthRefresh)
    (p : OauthProvider)
    → NodupKeys p.refresh
    → contains c.grant_types "refresh_token" ≡ true
    → contradicts (get "resource" form) p.resource ≡ false
    → contradicts (get "scope" form) connect_scope ≡ false
    → lookup (lib.digest (get "refresh_token" form)) p.refresh ≡ some rt
    → rt.used ≡ true
    → rt.connection.client_id ≡ c.id
    → rt.connection.resource ≡ p.resource
    → now < rt.connection.expires
    → refresh_token lib now c form fresh p
      ≡ (failure 400 "invalid_grant", revoke_connection rt.connection.id (cleanup now p))
unfolding cleanup
refresh_token-used lib now c form fresh rt p w g r s f d own res h =
    refresh_token-checked lib now c form fresh p g r s
    ∙ ap
        (λ o.
          refresh_with lib now c fresh (lib.digest (get "refresh_token" form)) o (cleanup now p))
        (live_refresh-found now (lib.digest (get "refresh_token" form)) rt p w f h)
    ∙ refresh_with-used lib now c fresh (lib.digest (get "refresh_token" form)) rt (cleanup now p) d
        own res

-- Where each token and each refresh token stands once in its map: a refresh token that its client,
-- registered for refreshing, presents again after its use, with no other resource or scope and
-- while its connection lasts, is refused and ends the connection. From then on no bearer token of
-- the connection is accepted, and every other one stands for what it stood for.
pub refresh_token-reuse :
    (lib : Library) (now later : ℕ) (c : OauthClient) (form : Values) (fresh : Fresh) (raw : String)
    (rt : OauthRefresh) (p : OauthProvider)
    → NodupKeys p.tokens
    → NodupKeys p.refresh
    → now ≤ later
    → contains c.grant_types "refresh_token" ≡ true
    → contradicts (get "resource" form) p.resource ≡ false
    → contradicts (get "scope" form) connect_scope ≡ false
    → lookup (lib.digest (get "refresh_token" form)) p.refresh ≡ some rt
    → rt.used ≡ true
    → rt.connection.client_id ≡ c.id
    → rt.connection.resource ≡ p.resource
    → now < rt.connection.expires
    → let after = refresh_token lib now c form fresh p in
      (after.0 ≡ failure 400 "invalid_grant")
      × (verify lib later raw after.1
          ≡ keep_if (λ v. not (v.id == rt.connection.id)) (verify lib later raw p))
refresh_token-reuse lib now later c form fresh raw rt p u w le g r s f d own res h =
    let used = refresh_token-used lib now c form fresh rt p w g r s f d own res h in
    let p' = cleanup now p in
    let n : NodupKeys p'.tokens = cleanup-NodupTokens now p u in
    (
      ap (λ (x : Response × OauthProvider). x.0) used,
      ap (λ (x : Response × OauthProvider). verify lib later raw x.1) used
          ∙ verify-revoke_connection lib later rt.connection.id raw p' n
          ∙ ap (keep_if (λ v. not (v.id == rt.connection.id)))
              (verify-cleanup lib now later raw p u le),
    )

exchange_code-matches :
    (lib : Library) (now : ℕ) (c : OauthClient) (form : Values) (fresh : Fresh) (key : String)
    (o : Option OauthCode) (access refresh : String) (seconds : ℕ) (p : OauthProvider)
    → (exchange_code lib now c form fresh key o p).0 ≡ credentials access refresh seconds
    → (code : OauthCode) × (o ≡ some code) × (code_matches lib c form code ≡ true)
unfolding exchange_code
exchange_code-matches lib now c form fresh key none access refresh seconds p e = cc
exchange_code-matches lib now c form fresh key (some code) access refresh seconds p e =
    (code, refl, ground arith)

live_code-found :
    (now : ℕ) (key : String) (code : OauthCode) (p : OauthProvider)
    → NodupKeys p.codes
    → lookup key (cleanup now p).codes ≡ some code
    → (lookup key p.codes ≡ some code) × (now < code.expires)
unfolding cleanup
live_code-found now key code p u e =
    let f = lookup-retain (live_code now) key p.codes u in (ground (arith, f), ground (arith, f))

-- Where each code stands once in its map: an exchange that succeeds is by the client that the code
-- was issued to, for its redirect URI and resource, with the PKCE verifier of the code's
-- challenge, while the code lasts.
pub exchange-bound :
    (lib : Library) (now : ℕ) (c : OauthClient) (form : Values) (fresh : Fresh)
    (access refresh : String) (seconds : ℕ) (p : OauthProvider)
    → NodupKeys p.codes
    → (exchange lib now c form fresh p).0 ≡ credentials access refresh seconds
    → (code : OauthCode) × (lookup (lib.digest (get "code" form)) p.codes ≡ some code)
      × (now < code.expires)
      × (code.client ≡ c.id)
      × (code.redirect ≡ get "redirect_uri" form)
      × (code.resource ≡ get "resource" form)
      × (code.challenge ≡ lib.challenge_of (get "code_verifier" form))
unfolding exchange code_matches
exchange-bound lib now c form fresh access refresh seconds p u e =
    let p' = cleanup now p in
    let key = lib.digest (get "code" form) in
    let m =
      exchange_code-matches lib now c form fresh key (lookup key p'.codes) access refresh seconds p'
        e in
    let live = live_code-found now key m.0 p u m.1 in
    (m.0, live.0, live.1, ground arith, ground arith, ground arith, ground arith)
