-- ===== src/Oauth/Bounded/Runs.antt =====
-- The bounds of the provider's maps through the token endpoint, and over every run.
use hyprland_computer_use.Base.{
  ltb, refl, false, not, ◌≡◌, ◌||◌, List, [], ◌∷◌, ℕ, arith, if_both, leb, length, Option, none,
  some, ◌==◌, string_eq, String,
}
use hyprland_computer_use.Base.Dict.{retain-NodupKeys, insert-NodupKeys, NodupKeys}
use hyprland_computer_use.Oauth.Authorize.{continue_auth, decide, new_pending}
use hyprland_computer_use.Oauth.Bounded.{
  if_room, add_client-Bounded, add_pending-Bounded, continue_pending-Bounded,
  decide_pending-Bounded, cleanup-Bounded, Bounded, retain-Small, erase-Small, insert-Small,
}
use hyprland_computer_use.Oauth.Exchange.{
  connect, issue, exchange_code, code_matches, wanted_refresh, Fresh, exchange,
}
use hyprland_computer_use.Oauth.Machine.{
  Section, registers, visits, asks, continues, decides, exchanges, refreshes, revokes, step, run,
}
use hyprland_computer_use.Oauth.Refresh.{
  revoke_connection, reissue, rotate, refresh_with, refresh_token, foreign, seconds_left,
  contradicts,
}
use hyprland_computer_use.Oauth.State.{
  Library, OauthClient, OauthCode, OauthRefresh, Values, get, connect_scope, OauthProvider, cleanup,
  Response,
}
use hyprland_computer_use.Base.{contains}

revoke_connection-Bounded :
    (id : String) (p : OauthProvider) → Bounded p → Bounded (revoke_connection id p)
unfolding revoke_connection
revoke_connection-Bounded id p b = record {
  clients = b.clients;
  pending = b.pending;
  codes = b.codes;
  tokens = retain-Small 256 p.tokens _ b.tokens;
  refresh = retain-NodupKeys _ p.refresh b.refresh;
}

connect-Bounded :
    (lib : Library) (now : ℕ) (c : OauthClient) (key access id refresh : String) (p : OauthProvider)
    → leb 256 (length p.tokens) ≡ false
    → Bounded p
    → Bounded (connect lib now c key access id refresh p)
unfolding connect
connect-Bounded lib now c key access id refresh p room b = record {
  clients = b.clients;
  pending = b.pending;
  codes = erase-Small 64 p.codes key b.codes;
  tokens = insert-Small 256 p.tokens (lib.digest access) _ room b.tokens;
  refresh =
      if_both NodupKeys (refresh == "") _ _ b.refresh
        (insert-NodupKeys (lib.digest refresh) _ p.refresh b.refresh);
}

issue-Bounded :
    (lib : Library) (now : ℕ) (c : OauthClient) (key : String) (access id refresh : Option String)
    (p : OauthProvider)
    → leb 256 (length p.tokens) ≡ false
    → Bounded p
    → Bounded (issue lib now c key access id refresh p).1
unfolding issue
issue-Bounded lib now c key (some access) (some id) (some refresh) p room b =
    connect-Bounded lib now c key access id refresh p room b
issue-Bounded lib now c key (some access) (some id) none p room b = b
issue-Bounded lib now c key (some access) none refresh p room b = b
issue-Bounded lib now c key none id refresh p room b = b

exchange_code-Bounded :
    (lib : Library) (now : ℕ) (c : OauthClient) (form : Values) (fresh : Fresh) (key : String)
    (code : Option OauthCode) (p : OauthProvider)
    → Bounded p
    → Bounded (exchange_code lib now c form fresh key code p).1
unfolding exchange_code
exchange_code-Bounded lib now c form fresh key none p b = b
exchange_code-Bounded lib now c form fresh key (some v) p b =
    let P = λ (r : Response × OauthProvider). Bounded r.1 in
    if_both P (not (code_matches lib c form v)) _ _ b (
      if_room P (leb 256 (length p.tokens)) _ _ b (λ room.
        issue-Bounded lib now c key fresh.access fresh.connection_id
          (wanted_refresh c fresh.refresh) p room b))

reissue-Bounded :
    (lib : Library) (left : ℕ) (key : String) (rt : OauthRefresh) (access refresh : Option String)
    (p : OauthProvider)
    → leb 256 (length p.tokens) ≡ false
    → Bounded p
    → Bounded (reissue lib left key rt access refresh p).1
unfolding reissue rotate
reissue-Bounded lib left key rt (some access) (some refresh) p room b = record {
  clients = b.clients;
  pending = b.pending;
  codes = b.codes;
  tokens = insert-Small 256 p.tokens (lib.digest access) _ room b.tokens;
  refresh = insert-NodupKeys (lib.digest refresh) _ _ (insert-NodupKeys key _ p.refresh b.refresh);
}
reissue-Bounded lib left key rt (some access) none p room b = b
reissue-Bounded lib left key rt none refresh p room b = b

refresh_with-Bounded :
    (lib : Library) (now : ℕ) (c : OauthClient) (fresh : Fresh) (key : String)
    (rt : Option OauthRefresh) (p : OauthProvider)
    → Bounded p
    → Bounded (refresh_with lib now c fresh key rt p).1
unfolding refresh_with
refresh_with-Bounded lib now c fresh key none p b = b
refresh_with-Bounded lib now c fresh key (some v) p b =
    let P = λ (r : Response × OauthProvider). Bounded r.1 in
    let left = seconds_left now v.connection in
    if_both P (foreign c v p) _ _ b (
      if_both P v.used _ _ (revoke_connection-Bounded v.connection.id p b) (
        if_both P (ltb left 1) _ _ b (
          if_room P (leb 256 (length p.tokens) || leb 1024 (length p.refresh)) _ _ b (λ room.
            reissue-Bounded lib left key v fresh.access fresh.refresh p (ground arith) b))))

refresh_token-Bounded :
    (lib : Library) (now : ℕ) (c : OauthClient) (form : Values) (fresh : Fresh) (p : OauthProvider)
    → Bounded p
    → Bounded (refresh_token lib now c form fresh p).1
unfolding refresh_token
refresh_token-Bounded lib now c form fresh p b =
    let P = λ (r : Response × OauthProvider). Bounded r.1 in
    if_both P (not (contains c.grant_types "refresh_token")) _ _ b (
      if_both P (contradicts (get "resource" form) p.resource) _ _ b (
        if_both P (contradicts (get "scope" form) connect_scope) _ _ b
          (refresh_with-Bounded lib now c fresh _ _ (cleanup now p) (cleanup-Bounded now p b))))

step-Bounded :
    (lib : Library) (now : ℕ) (s : Section) (p : OauthProvider)
    → Bounded p
    → Bounded (step lib now s p)
unfolding step continue_auth decide exchange
step-Bounded lib now (registers c secret saved) p b = add_client-Bounded c secret saved p b
step-Bounded lib now visits p b = cleanup-Bounded now p b
step-Bounded lib now (asks env c q nonce id) p b =
    add_pending-Bounded (new_pending lib env c q nonce id) p b
step-Bounded lib now (continues id cookie) p b =
    continue_pending-Bounded lib id cookie _ _ (cleanup-Bounded now p b)
step-Bounded lib now (decides id approves fresh) p b =
    decide_pending-Bounded lib now id approves fresh _ (cleanup now p) refl
      (cleanup-Bounded now p b)
step-Bounded lib now (exchanges c form fresh) p b =
    exchange_code-Bounded lib now c form fresh _ _ (cleanup now p) (cleanup-Bounded now p b)
step-Bounded lib now (refreshes c form fresh) p b = refresh_token-Bounded lib now c form fresh p b
step-Bounded lib now (revokes id) p b = revoke_connection-Bounded id p b

-- Over any run, from maps within the bounds, there are at most 256 clients, 16 pending
-- authorizations, 64 codes and 256 access tokens, and each key stands once in its map.
pub run-Bounded :
    (lib : Library) (t : List (ℕ × Section)) (p : OauthProvider) → Bounded p → Bounded (run lib t p)
unfolding run
run-Bounded lib [] p b = b
run-Bounded lib ((now, s) ∷ t) p b =
    run-Bounded lib t (step lib now s p) (step-Bounded lib now s p b)
