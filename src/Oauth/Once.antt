-- ===== src/Oauth/Once.antt =====
-- An authorization code is good for one exchange.
use hyprland_computer_use.Base.{
  ap, ◌∙◌, if_both, ℕ, ◌≡◌, refl, arith, not, ==_self, String, Bool, true, false, Option, none,
  some, List, [], ◌∷◌, leb, length, ◌==◌, string_eq,
}
use hyprland_computer_use.Base.Dict.{lookup, lookup-retain-none, lookup-erase, lookup-insert}
use hyprland_computer_use.Oauth.Authorize.{
  decide, approve_pending, decide_pending, add_pending, new_pending, continue_pending,
  continue_auth,
}
use hyprland_computer_use.Oauth.Client.{add_client}
use hyprland_computer_use.Oauth.Exchange.{
  exchange, Fresh, exchange_code, issue, connect, code_matches, wanted_refresh,
}
use hyprland_computer_use.Oauth.Machine.{
  Section, registers, visits, asks, continues, decides, exchanges, refreshes, revokes, step, run,
}
use hyprland_computer_use.Oauth.Refresh.{
  revoke_connection, rotate, reissue, refresh_with, refresh_token, contradicts,
}
use hyprland_computer_use.Oauth.State.{
  Library, OauthClient, OauthProvider, OauthCode, OauthRefresh, OauthPending, Values, cleanup,
  live_code, Response, credentials, failure, get, connect_scope,
}
use hyprland_computer_use.Oauth.Authorize.{new_code}
use hyprland_computer_use.Base.{contains}

-- The section may issue a code of that digest.
abbrev pub issues : Library → String → Section → Bool
issues lib key (decides id true (some code)) = lib.digest code == key
issues lib key s = false

-- No code of that digest is there.
abbrev NoCode : String → OauthProvider → Type 0
NoCode key p = lookup key p.codes ≡ none

cleanup-NoCode :
    (now : ℕ) (key : String) (p : OauthProvider) → NoCode key p → NoCode key (cleanup now p)
unfolding cleanup
cleanup-NoCode now key p h = lookup-retain-none (live_code now) key p.codes h

issue-NoCode :
    (lib : Library) (now : ℕ) (c : OauthClient) (used : String) (access id refresh : Option String)
    (key : String) (p : OauthProvider)
    → NoCode key p
    → NoCode key (issue lib now c used access id refresh p).1
unfolding issue connect
issue-NoCode lib now c used (some access) (some id) (some refresh) key p h =
    ground (arith, lookup-erase key used p.codes)
issue-NoCode lib now c used (some access) (some id) none key p h = h
issue-NoCode lib now c used (some access) none refresh key p h = h
issue-NoCode lib now c used none id refresh key p h = h

exchange_code-NoCode :
    (lib : Library) (now : ℕ) (c : OauthClient) (form : Values) (fresh : Fresh) (used : String)
    (o : Option OauthCode) (key : String) (p : OauthProvider)
    → NoCode key p
    → NoCode key (exchange_code lib now c form fresh used o p).1
unfolding exchange_code
exchange_code-NoCode lib now c form fresh used none key p h = h
exchange_code-NoCode lib now c form fresh used (some code) key p h =
    let P = λ (r : Response × OauthProvider). NoCode key r.1 in
    if_both P (not (code_matches lib c form code)) _ _ h (
      if_both P (leb 256 (length p.tokens)) _ _ h (
        issue-NoCode lib now c used fresh.access fresh.connection_id
          (wanted_refresh c fresh.refresh) key p h))

refresh_with-codes :
    (lib : Library) (now : ℕ) (c : OauthClient) (fresh : Fresh) (key : String)
    (o : Option OauthRefresh) (p : OauthProvider)
    → (refresh_with lib now c fresh key o p).1.codes ≡ p.codes
unfolding refresh_with reissue rotate revoke_connection
refresh_with-codes lib now c fresh key none p = refl
refresh_with-codes lib now c fresh key (some rt) p = ground arith

refresh_token-NoCode :
    (lib : Library) (now : ℕ) (c : OauthClient) (form : Values) (fresh : Fresh) (key : String)
    (p : OauthProvider)
    → NoCode key p
    → NoCode key (refresh_token lib now c form fresh p).1
unfolding refresh_token
refresh_token-NoCode lib now c form fresh key p h =
    let P = λ (r : Response × OauthProvider). NoCode key r.1 in
    let used = lib.digest (get "refresh_token" form) in
    let p' = cleanup now p in
    if_both P (not (contains c.grant_types "refresh_token")) _ _ h (
      if_both P (contradicts (get "resource" form) p.resource) _ _ h (
        if_both P (contradicts (get "scope" form) connect_scope) _ _ h (
          ap (lookup key) (refresh_with-codes lib now c fresh used (lookup used p'.refresh) p')
          ∙ cleanup-NoCode now key p h)))

decide_pending-NoCode :
    (lib : Library) (now : ℕ) (id : String) (approves : Bool) (fresh : Option String)
    (v : Option OauthPending) (key : String) (p : OauthProvider)
    → issues lib key (decides id approves fresh) ≡ false
    → NoCode key p
    → NoCode key (decide_pending lib now id approves fresh v p).1
unfolding decide_pending approve_pending
decide_pending-NoCode lib now id approves fresh none key p n h = h
decide_pending-NoCode lib now id false fresh (some v) key p n h = ground arith
decide_pending-NoCode lib now id true none (some v) key p n h = ground arith
decide_pending-NoCode lib now id true (some code) (some v) key p n h =
    ground (arith, lookup-insert key (lib.digest code) (new_code now v p) p.codes)

add_client-codes :
    (c : OauthClient) (secret : String) (saved : Bool) (p : OauthProvider)
    → (add_client c secret saved p).1.codes ≡ p.codes
unfolding add_client
add_client-codes c secret saved p = ground arith

add_pending-codes : (v : OauthPending) (p : OauthProvider) → (add_pending v p).1.codes ≡ p.codes
unfolding add_pending
add_pending-codes v p = ground arith

continue_pending-codes :
    (lib : Library) (id : String) (cookie : Option String) (v : Option OauthPending)
    (p : OauthProvider)
    → (continue_pending lib id cookie v p).1.codes ≡ p.codes
unfolding continue_pending
continue_pending-codes lib id (some cookie) (some v) p = ground arith
continue_pending-codes lib id (some cookie) none p = refl
continue_pending-codes lib id none v p = refl

step-NoCode :
    (lib : Library) (now : ℕ) (s : Section) (key : String) (p : OauthProvider)
    → issues lib key s ≡ false
    → NoCode key p
    → NoCode key (step lib now s p)
unfolding step continue_auth decide exchange revoke_connection
step-NoCode lib now (registers c secret saved) key p n h =
    ap (lookup key) (add_client-codes c secret saved p) ∙ h
step-NoCode lib now visits key p n h = cleanup-NoCode now key p h
step-NoCode lib now (asks env c q nonce id) key p n h =
    ap (lookup key) (add_pending-codes (new_pending lib env c q nonce id) p) ∙ h
step-NoCode lib now (continues id cookie) key p n h =
    ap (lookup key) (continue_pending-codes lib id cookie _ (cleanup now p))
    ∙ cleanup-NoCode now key p h
step-NoCode lib now (decides id approves fresh) key p n h =
    decide_pending-NoCode lib now id approves fresh _ key (cleanup now p) n
      (cleanup-NoCode now key p h)
step-NoCode lib now (exchanges c form fresh) key p n h =
    exchange_code-NoCode lib now c form fresh _ _ key (cleanup now p) (cleanup-NoCode now key p h)
step-NoCode lib now (refreshes c form fresh) key p n h =
    refresh_token-NoCode lib now c form fresh key p h
step-NoCode lib now (revokes id) key p n h = h

-- No section of the run issues a code of that digest.
abbrev pub NeverIssues : Library → String → List (ℕ × Section) → Type 0
NeverIssues lib key [] = Unit
NeverIssues lib key ((now, s) ∷ t) = (issues lib key s ≡ false) × NeverIssues lib key t

run-NoCode :
    (lib : Library) (t : List (ℕ × Section)) (key : String) (p : OauthProvider)
    → NeverIssues lib key t
    → NoCode key p
    → NoCode key (run lib t p)
unfolding run
run-NoCode lib [] key p n h = h
run-NoCode lib ((now, s) ∷ t) key p n h =
    run-NoCode lib t key (step lib now s p) n.1 (step-NoCode lib now s key p n.0 h)

issue-spent :
    (lib : Library) (now : ℕ) (c : OauthClient) (key : String) (access id refresh : Option String)
    (a r : String) (seconds : ℕ) (p : OauthProvider)
    → (issue lib now c key access id refresh p).0 ≡ credentials a r seconds
    → NoCode key (issue lib now c key access id refresh p).1
unfolding issue connect
issue-spent lib now c key (some access) (some id) (some refresh) a r seconds p e =
    lookup-erase key key p.codes ∙ rw (==_self key) refl
issue-spent lib now c key (some access) (some id) none a r seconds p e = cc
issue-spent lib now c key (some access) none refresh a r seconds p e = cc
issue-spent lib now c key none id refresh a r seconds p e = cc

exchange_code-spent :
    (lib : Library) (now : ℕ) (c : OauthClient) (form : Values) (fresh : Fresh) (key : String)
    (o : Option OauthCode) (a r : String) (seconds : ℕ) (p : OauthProvider)
    → (exchange_code lib now c form fresh key o p).0 ≡ credentials a r seconds
    → NoCode key (exchange_code lib now c form fresh key o p).1
unfolding exchange_code
exchange_code-spent lib now c form fresh key none a r seconds p e = cc
exchange_code-spent lib now c form fresh key (some code) a r seconds p e =
    let spent =
      issue-spent lib now c key fresh.access fresh.connection_id (wanted_refresh c fresh.refresh) a
        r seconds p in
    ground (arith, spent)

-- After an exchange that succeeds, every later exchange of the same code is refused, by any client
-- and after any run of other sections, unless the provider draws a code with that digest again.
pub exchange-once :
    (lib : Library) (now later : ℕ) (c c' : OauthClient) (form form' : Values)
    (fresh fresh' : Fresh) (access refresh : String) (seconds : ℕ) (t : List (ℕ × Section))
    (p : OauthProvider)
    → (exchange lib now c form fresh p).0 ≡ credentials access refresh seconds
    → NeverIssues lib (lib.digest (get "code" form)) t
    → get "code" form' ≡ get "code" form
    → (exchange lib later c' form' fresh' (run lib t (exchange lib now c form fresh p).1)).0
      ≡ failure 400 "invalid_grant"
unfolding exchange exchange_code
exchange-once lib now later c c' form form' fresh fresh' access refresh seconds t p e n same =
    let key = lib.digest (get "code" form) in
    let first = exchange lib now c form fresh p in
    let q = run lib t first.1 in
    let spent : NoCode key first.1 =
      exchange_code-spent lib now c form fresh key (lookup key (cleanup now p).codes) access refresh
        seconds (cleanup now p) e in
    let gone : lookup key (cleanup later q).codes ≡ none =
      cleanup-NoCode later key q (run-NoCode lib t key first.1 n spent) in
    rw (same, gone) refl
