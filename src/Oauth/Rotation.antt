-- ===== src/Oauth/Rotation.antt =====
-- A refresh rotates the tokens of a connection, and never extends it.
use hyprland_computer_use.Base.{false, ◌≡◌, refl, ℕ, arith, Option, none, some, String, string_eq}
use hyprland_computer_use.Oauth.Exchange.{Fresh}
use hyprland_computer_use.Oauth.Refresh.{reissue, rotate, refresh_with, seconds_left}
use hyprland_computer_use.Oauth.State.{
  Library, OauthClient, OauthRefresh, credentials, OauthProvider,
}
use hyprland_computer_use.Base.{true, ◌<◌, ◌≢◌, ==_self, sym, ap, ◌∙◌}
use hyprland_computer_use.Base.Dict.{lookup, lookup-retain, lookup-insert, insert, NodupKeys}
use hyprland_computer_use.Oauth.Refresh.{refresh_token}
use hyprland_computer_use.Oauth.State.{Response, cleanup, live_refresh, get, Values}
use hyprland_computer_use.Oauth.Token.{verify}
use hyprland_computer_use.Base.{contains}

reissue-success :
    (lib : Library) (left : ℕ) (key : String) (rt : OauthRefresh) (fa fr : Option String)
    (access refresh : String) (seconds : ℕ) (p : OauthProvider)
    → (reissue lib left key rt fa fr p).0 ≡ credentials access refresh seconds
    → (seconds ≡ left) × ((reissue lib left key rt fa fr p).1 ≡ rotate lib key rt access refresh p)
unfolding reissue
reissue-success lib left key rt (some a) (some r) access refresh seconds p e =
    (ground arith, ground arith)
reissue-success lib left key rt (some a) none access refresh seconds p e = cc
reissue-success lib left key rt none fr access refresh seconds p e = cc

refresh_with-success :
    (lib : Library) (now : ℕ) (c : OauthClient) (fresh : Fresh) (key : String)
    (o : Option OauthRefresh) (access refresh : String) (seconds : ℕ) (p : OauthProvider)
    → (refresh_with lib now c fresh key o p).0 ≡ credentials access refresh seconds
    → (rt : OauthRefresh) × (o ≡ some rt)
      × (rt.used ≡ false)
      × (rt.connection.client_id ≡ c.id)
      × (rt.connection.resource ≡ p.resource)
      × (seconds ≡ seconds_left now rt.connection)
      × ((refresh_with lib now c fresh key o p).1 ≡ rotate lib key rt access refresh p)
unfolding refresh_with
refresh_with-success lib now c fresh key none access refresh seconds p e = cc
refresh_with-success lib now c fresh key (some rt) access refresh seconds p e =
    let s =
      reissue-success lib (seconds_left now rt.connection) key rt fresh.access fresh.refresh access
        refresh seconds p in
    (rt, refl, ground arith, ground arith, ground arith, ground (arith, s), ground (arith, s))

refresh_token-success :
    (lib : Library) (now : ℕ) (c : OauthClient) (form : Values) (fresh : Fresh)
    (access refresh : String) (seconds : ℕ) (p : OauthProvider)
    → let key = lib.digest (get "refresh_token" form) in
      let p' = cleanup now p in
      (refresh_token lib now c form fresh p).0 ≡ credentials access refresh seconds
      → (refresh_token lib now c form fresh p
          ≡ refresh_with lib now c fresh key (lookup key p'.refresh) p')
        × (contains c.grant_types "refresh_token" ≡ true)
unfolding refresh_token
refresh_token-success lib now c form fresh access refresh seconds p e = (ground arith, ground arith)

live_refresh-kept :
    (now : ℕ) (key : String) (rt : OauthRefresh) (p : OauthProvider)
    → NodupKeys p.refresh
    → lookup key (cleanup now p).refresh ≡ some rt
    → (lookup key p.refresh ≡ some rt) × (now < rt.connection.expires)
unfolding cleanup
live_refresh-kept now key rt p u e =
    let f = lookup-retain (live_refresh now) key p.refresh u in
    (ground (arith, f), ground (arith, f))

rotate-verify :
    (lib : Library) (now : ℕ) (key : String) (rt : OauthRefresh) (access refresh : String)
    (p : OauthProvider)
    → rt.connection.resource ≡ p.resource
    → now < rt.connection.expires
    → verify lib now access (rotate lib key rt access refresh p) ≡ some rt.connection
unfolding verify rotate
rotate-verify lib now key rt access refresh p r h = ground (
  arith,
  lookup-insert (lib.digest access) (lib.digest access) rt.connection p.tokens,
  ==_self (lib.digest access),
)

rotate-used :
    (lib : Library) (key : String) (rt : OauthRefresh) (access refresh : String) (p : OauthProvider)
    → lib.digest refresh ≢ key
    → lookup key (rotate lib key rt access refresh p).refresh ≡ some (record rt { used = true })
unfolding rotate
rotate-used lib key rt access refresh p ne = ground (
  arith,
  lookup-insert key (lib.digest refresh) (record { connection = rt.connection; used = false })
      (insert key (record rt { used = true }) p.refresh),
  lookup-insert key key (record rt { used = true }) p.refresh,
  ==_self key,
)

-- Where each refresh token stands once in its map, and the new refresh token's digest is not that
-- of the old: a refresh that succeeds is by the client of an unused refresh token, registered for
-- refreshing. The new access token stands for the same connection, with the same end, and the
-- answer says how long that is; the old refresh token is there as used.
pub refresh_token-rotates :
    (lib : Library) (now : ℕ) (c : OauthClient) (form : Values) (fresh : Fresh)
    (access refresh : String) (seconds : ℕ) (p : OauthProvider)
    → let key = lib.digest (get "refresh_token" form) in
      let after = (refresh_token lib now c form fresh p).1 in
      NodupKeys p.refresh
      → lib.digest refresh ≢ key
      → (refresh_token lib now c form fresh p).0 ≡ credentials access refresh seconds
      → (contains c.grant_types "refresh_token" ≡ true)
        × ((rt : OauthRefresh) × (lookup key p.refresh ≡ some rt)
            × (rt.used ≡ false)
            × (rt.connection.client_id ≡ c.id)
            × (seconds ≡ seconds_left now rt.connection)
            × (verify lib now access after ≡ some rt.connection)
            × (lookup key after.refresh ≡ some (record rt { used = true })))
unfolding cleanup
refresh_token-rotates lib now c form fresh access refresh seconds p u ne e =
    let key = lib.digest (get "refresh_token" form) in
    let p' = cleanup now p in
    let first = refresh_token-success lib now c form fresh access refresh seconds p e in
    let r =
      refresh_with-success lib now c fresh key (lookup key p'.refresh) access refresh seconds p'
        (sym (ap (λ (x : Response × OauthProvider). x.0) first.0) ∙ e) in
    let after : (refresh_token lib now c form fresh p).1 ≡ rotate lib key r.0 access refresh p' =
      ap (λ (x : Response × OauthProvider). x.1) first.0 ∙ r.6 in
    let live = live_refresh-kept now key r.0 p u r.1 in
    (
      first.1,
      (
        r.0,
        live.0,
        r.2,
        r.3,
        r.5,
        rw after (rotate-verify lib now key r.0 access refresh p' r.4 live.1),
        rw after (rotate-used lib key r.0 access refresh p' ne),
      ),
    )
