-- ===== src/Oauth/Approved/Runs.antt =====
-- The invariant `Backed` through each section of the machine and over every run.
use mathlib.Core.Path.{subst}
use hyprland_computer_use.Base.{
  if_both, ℕ, ◌+◌, ◌<◌, ◌++◌, ◌≡◌, refl, sym, inl, arith, not, ◌||◌, ltb, String, Bool, true, false,
  Option, none, some, List, [], ◌∷◌, leb, length, ◌==◌, string_eq,
}
use hyprland_computer_use.Base.Dict.{Dict, lookup}
use hyprland_computer_use.Base.Dict.Values.{
  AllValues, AllValues-retain_test, AllValues-insert, lookup-AllValues,
}
use hyprland_computer_use.Oauth.Approved.{
  Approved, minute, ApprovedCode, ApprovedConnection, ApprovedRefresh, Backed, append-Backed,
  cleanup-Backed, revoke_connection-Backed, exchange_code-Backed,
}
use hyprland_computer_use.Oauth.Authorize.{
  decide, approve_pending, decide_pending, DecideError, add_pending, new_pending, continue_pending,
  continue_auth,
}
use hyprland_computer_use.Oauth.Client.{add_client}
use hyprland_computer_use.Oauth.Exchange.{exchange, Fresh}
use hyprland_computer_use.Oauth.Machine.{
  Section, registers, visits, asks, continues, decides, exchanges, refreshes, revokes, step, run,
  all_approvals, approval_of,
}
use hyprland_computer_use.Oauth.Refresh.{
  rotate, reissue, refresh_with, refresh_token, seconds_left, contradicts,
}
use hyprland_computer_use.Oauth.State.{
  Library, OauthClient, OauthProvider, OauthCode, OauthConnection, OauthRefresh, OauthPending,
  Values, hour, cleanup, live_code, Response, get, connect_scope, new_provider, undecided,
  decision_eq,
}
use hyprland_computer_use.Oauth.Token.{verify}
use hyprland_computer_use.Oauth.Machine.{approvals}
use hyprland_computer_use.Oauth.Refresh.{foreign}
use hyprland_computer_use.Base.{contains}

-- A code that is found after the cleanup is approved and has not expired.
found_code :
    (now : ℕ) (key : String) (log : List (ℕ × String)) (p : OauthProvider) (v : OauthCode)
    → Backed log p
    → lookup key (cleanup now p).codes ≡ some v
    → ApprovedCode log v × (now < v.expires)
unfolding cleanup
found_code now key log p v b e = (
  lookup-AllValues (ApprovedCode log) key _ v (cleanup-Backed now log p b).codes e,
  lookup-AllValues (λ (w : OauthCode). now < w.expires) key _ v
      (AllValues-retain_test (λ (w : OauthCode). now < w.expires) (live_code now) p.codes
        (λ w h. ground arith))
      e,
)

exchange-Backed :
    (lib : Library) (now : ℕ) (c : OauthClient) (form : Values) (fresh : Fresh)
    (log : List (ℕ × String)) (p : OauthProvider)
    → Backed log p
    → Backed log (exchange lib now c form fresh p).1
unfolding exchange
exchange-Backed lib now c form fresh log p b =
    let key = lib.digest (get "code" form) in
    exchange_code-Backed lib now c form fresh key (lookup key (cleanup now p).codes) log
      (cleanup now p) (λ v. found_code now key log p v b) (cleanup-Backed now log p b)

rotate-Backed :
    (lib : Library) (key : String) (rt : OauthRefresh) (access refresh : String)
    (log : List (ℕ × String)) (p : OauthProvider)
    → ApprovedRefresh log rt
    → Backed log p
    → Backed log (rotate lib key rt access refresh p)
unfolding rotate
rotate-Backed lib key rt access refresh log p a b = record {
  codes = b.codes;
  tokens = AllValues-insert (ApprovedConnection log) (lib.digest access) _ p.tokens a b.tokens;
  refresh =
      AllValues-insert (ApprovedRefresh log) (lib.digest refresh) _ _ a
        (AllValues-insert (ApprovedRefresh log) key _ p.refresh a b.refresh);
}

reissue-Backed :
    (lib : Library) (left : ℕ) (key : String) (rt : OauthRefresh) (access refresh : Option String)
    (log : List (ℕ × String)) (p : OauthProvider)
    → ApprovedRefresh log rt
    → Backed log p
    → Backed log (reissue lib left key rt access refresh p).1
unfolding reissue
reissue-Backed lib left key rt (some access) (some refresh) log p a b =
    rotate-Backed lib key rt access refresh log p a b
reissue-Backed lib left key rt (some access) none log p a b = b
reissue-Backed lib left key rt none refresh log p a b = b

refresh_with-Backed :
    (lib : Library) (now : ℕ) (c : OauthClient) (fresh : Fresh) (key : String)
    (rt : Option OauthRefresh) (log : List (ℕ × String)) (p : OauthProvider)
    → ((v : OauthRefresh) → rt ≡ some v → ApprovedRefresh log v)
    → Backed log p
    → Backed log (refresh_with lib now c fresh key rt p).1
unfolding refresh_with
refresh_with-Backed lib now c fresh key none log p h b = b
refresh_with-Backed lib now c fresh key (some v) log p h b =
    let refused = revoke_connection-Backed v.connection.id log p b in
    let renewed =
      reissue-Backed lib (seconds_left now v.connection) key v fresh.access fresh.refresh log p
        (h v refl) b in
    let P = λ (r : Response × OauthProvider). Backed log r.1 in
    if_both P (foreign c v p) _ _ b (
      if_both P v.used _ _ refused (
        if_both P (ltb (seconds_left now v.connection) 1) _ _ b
          (if_both P (leb 256 (length p.tokens) || leb 1024 (length p.refresh)) _ _ b renewed)))

refresh_token-Backed :
    (lib : Library) (now : ℕ) (c : OauthClient) (form : Values) (fresh : Fresh)
    (log : List (ℕ × String)) (p : OauthProvider)
    → Backed log p
    → Backed log (refresh_token lib now c form fresh p).1
unfolding refresh_token
refresh_token-Backed lib now c form fresh log p b =
    let key = lib.digest (get "refresh_token" form) in
    let p' = cleanup now p in
    let kept = cleanup-Backed now log p b in
    let P = λ (r : Response × OauthProvider). Backed log r.1 in
    if_both P (not (contains c.grant_types "refresh_token")) _ _ b (
      if_both P (contradicts (get "resource" form) p.resource) _ _ b (
        if_both P (contradicts (get "scope" form) connect_scope) _ _ b (
          refresh_with-Backed lib now c fresh key (lookup key p'.refresh) log p'
            (λ v. lookup-AllValues (ApprovedRefresh log) key p'.refresh v kept.refresh) kept)))

-- A step with the log of its approvals.
approve_pending-Backed :
    (lib : Library) (now : ℕ) (id code : String) (v : OauthPending) (log : List (ℕ × String))
    (p : OauthProvider)
    → Backed log p
    → Backed ((now, v.client_id) ∷ log) (approve_pending lib now id code v p)
unfolding approve_pending
approve_pending-Backed lib now id code v log p b =
    let longer = append-Backed ((now, v.client_id) ∷ []) log p b in
    record {
      codes =
          AllValues-insert (ApprovedCode ((now, v.client_id) ∷ log)) (lib.digest code) _ p.codes
            (inl (refl, omega arith)) longer.codes;
      tokens = longer.tokens;
      refresh = longer.refresh;
    }

decide_pending-Backed :
    (lib : Library) (now : ℕ) (id : String) (fresh : Option String) (v : Option OauthPending)
    (log : List (ℕ × String)) (p : OauthProvider)
    → Backed log p
    → Backed (approval_of now v ++ log) (decide_pending lib now id true fresh v p).1
unfolding decide_pending
decide_pending-Backed lib now id fresh none log p b = b
decide_pending-Backed lib now id none (some v) log p b =
    let longer = append-Backed ((now, v.client_id) ∷ []) log p b in
    let P = λ (r : Option DecideError × OauthProvider). Backed ((now, v.client_id) ∷ log) r.1 in
    if_both P (not (v.decision == undecided)) _ _ longer
      (if_both P (leb 64 (length p.codes)) _ _ longer longer)
decide_pending-Backed lib now id (some code) (some v) log p b =
    let longer = append-Backed ((now, v.client_id) ∷ []) log p b in
    let P = λ (r : Option DecideError × OauthProvider). Backed ((now, v.client_id) ∷ log) r.1 in
    if_both P (not (v.decision == undecided)) _ _ longer (
      if_both P (leb 64 (length p.codes)) _ _ longer
        (approve_pending-Backed lib now id code v log p b))

deny_pending-Backed :
    (lib : Library) (now : ℕ) (id : String) (fresh : Option String) (v : Option OauthPending)
    (log : List (ℕ × String)) (p : OauthProvider)
    → Backed log p
    → Backed log (decide_pending lib now id false fresh v p).1
unfolding decide_pending
deny_pending-Backed lib now id fresh none log p b = b
deny_pending-Backed lib now id fresh (some v) log p b =
    if_both (λ (r : Option DecideError × OauthProvider). Backed log r.1)
      (not (v.decision == undecided)) _ _ b
      (record { codes = b.codes; tokens = b.tokens; refresh = b.refresh })

-- The other sections leave what the invariant is about, but for the cleanup.
same-Backed :
    (log : List (ℕ × String)) (p q : OauthProvider)
    → Backed log p
    → q.codes ≡ p.codes
    → q.tokens ≡ p.tokens
    → q.refresh ≡ p.refresh
    → Backed log q
same-Backed log p q b c t r = record {
  codes = subst (AllValues (ApprovedCode log)) (sym c) b.codes;
  tokens = subst (AllValues (ApprovedConnection log)) (sym t) b.tokens;
  refresh = subst (AllValues (ApprovedRefresh log)) (sym r) b.refresh;
}

add_client-Backed :
    (c : OauthClient) (secret : String) (saved : Bool) (log : List (ℕ × String)) (p : OauthProvider)
    → Backed log p
    → Backed log (add_client c secret saved p).1
unfolding add_client
add_client-Backed c secret saved log p b =
    same-Backed log p _ b (ground arith) (ground arith) (ground arith)

add_pending-Backed :
    (v : OauthPending) (log : List (ℕ × String)) (p : OauthProvider)
    → Backed log p
    → Backed log (add_pending v p).1
unfolding add_pending
add_pending-Backed v log p b = same-Backed log p _ b (ground arith) (ground arith) (ground arith)

continue_pending-Backed :
    (lib : Library) (id : String) (cookie : Option String) (v : Option OauthPending)
    (log : List (ℕ × String)) (p : OauthProvider)
    → Backed log p
    → Backed log (continue_pending lib id cookie v p).1
unfolding continue_pending
continue_pending-Backed lib id (some cookie) (some v) log p b =
    same-Backed log p _ b (ground arith) (ground arith) (ground arith)
continue_pending-Backed lib id (some cookie) none log p b = b
continue_pending-Backed lib id none v log p b = b

step-Backed :
    (lib : Library) (now : ℕ) (s : Section) (log : List (ℕ × String)) (p : OauthProvider)
    → Backed log p
    → Backed (approvals now s p ++ log) (step lib now s p)
unfolding step approvals continue_auth decide
step-Backed lib now (registers c secret saved) log p b = add_client-Backed c secret saved log p b
step-Backed lib now visits log p b = cleanup-Backed now log p b
step-Backed lib now (asks env c q nonce id) log p b =
    add_pending-Backed (new_pending lib env c q nonce id) log p b
step-Backed lib now (continues id cookie) log p b =
    continue_pending-Backed lib id cookie _ log _ (cleanup-Backed now log p b)
step-Backed lib now (decides id true fresh) log p b =
    decide_pending-Backed lib now id fresh _ log _ (cleanup-Backed now log p b)
step-Backed lib now (decides id false fresh) log p b =
    deny_pending-Backed lib now id fresh _ log _ (cleanup-Backed now log p b)
step-Backed lib now (exchanges c form fresh) log p b = exchange-Backed lib now c form fresh log p b
step-Backed lib now (refreshes c form fresh) log p b =
    refresh_token-Backed lib now c form fresh log p b
step-Backed lib now (revokes id) log p b = revoke_connection-Backed id log p b

run-Backed :
    (lib : Library) (t : List (ℕ × Section)) (log : List (ℕ × String)) (p : OauthProvider)
    → Backed log p
    → Backed (all_approvals lib t p log) (run lib t p)
unfolding run all_approvals
run-Backed lib [] log p b = b
run-Backed lib ((now, s) ∷ t) log p b =
    run-Backed lib t (approvals now s p ++ log) (step lib now s p) (step-Backed lib now s log p b)

-- After any run of the provider's sections from a new provider, a bearer token that is accepted is
-- that of a connection which the local user approved for the same client in that run: the
-- connection has not expired, and it expires at most an hour and a minute after that approval,
-- however often its tokens were refreshed.
pub run-verify :
    (lib : Library) (issuer : String) (clients : Dict String OauthClient) (t : List (ℕ × Section))
    (now : ℕ) (raw : String) (v : OauthConnection)
    → verify lib now raw (run lib t (new_provider issuer clients)) ≡ some v
    → Approved
        (minute + hour)
        v.client_id
        v.expires
        (all_approvals lib t (new_provider issuer clients) [])
      × (now < v.expires)
unfolding verify new_provider
run-verify lib issuer clients t now raw v e =
    let p = run lib t (new_provider issuer clients) in
    let log = all_approvals lib t (new_provider issuer clients) [] in
    let b =
      run-Backed lib t [] (new_provider issuer clients)
        (record { codes = tt; tokens = tt; refresh = tt }) in
    (
      lookup-AllValues (ApprovedConnection log) (lib.digest raw) p.tokens v b.tokens (ground arith),
      ground arith,
    )
