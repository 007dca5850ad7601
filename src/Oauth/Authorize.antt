-- ===== src/Oauth/Authorize.antt =====
-- internal/app/oauth.go: `authorize`, `continueAuth` and `decide`.
use hyprland_computer_use.Base.{
  ℕ, ◌*◌, String, Bool, not, ◌&&◌, ◌||◌, Option, none, some, [], ◌∷◌, length, ltb, leb,
  if◌then◌else◌, ◌==◌, string_eq, ◌+◌, ◌++◌, len,
}
use hyprland_computer_use.Base.Dict.{Dict, lookup, insert, erase}
use hyprland_computer_use.Broker.State.{second}
use hyprland_computer_use.Oauth.State.{
  Library, OauthClient, OauthPending, undecided, denied, approved, decision_eq, failure,
  redirect_to, wait_page, Response, OauthProvider, Values, connect_scope, get, unique_params,
  cleanup,
}
use hyprland_computer_use.Oauth.State.{OauthCode}
use hyprland_computer_use.Base.{contains}

-- The checks of `authorize` that it reports through the client's redirect, in its order.
unfoldable pub redirect_error : Library → String → Values → Option String
unfolding get
redirect_error lib resource q =
    if not (get "response_type" q == "code")
    then some "unsupported_response_type"
    else if not (get "resource" q == resource)
    then some "invalid_target"
    else if not (get "scope" q == "") && not (get "scope" q == connect_scope)
    then some "invalid_scope"
    else if not (get "code_challenge_method" q == "S256")
        || not (lib.is_challenge (get "code_challenge" q))
    then some "invalid_request"
    else none

-- The query parameter `state`, which is set if there is one.
abbrev state_values : String → Dict String String
state_values state = if state == "" then [] else ("state", state) ∷ []

-- The new authorization's ID and the nonce of the browser's cookie.
pub record Visit : Type 0 where
  pub time : ℕ
  pub nonce : Option String
  pub pending_id : Option String

unfoldable pub new_pending : Library → Visit → OauthClient → Values → String → String → OauthPending
unfolding get
new_pending lib env c q nonce id = record {
  id = id;
  client_id = c.id;
  name = c.name;
  redirect = get "redirect_uri" q;
  expires = env.time + 300 * second;
  state = get "state" q;
  challenge = get "code_challenge" q;
  cookie_hash = lib.digest nonce;
  decision = undecided;
  code = "";
}

-- The second critical section of `authorize`.
unfoldable pub add_pending : OauthPending → OauthProvider → Response × OauthProvider
add_pending v p =
    if leb 16 (length p.pending)
    then (failure 429 "temporarily_unavailable", p)
    else (wait_page v.id, record p { pending = insert v.id v p.pending })

unfoldable pub ask_user :
    Library
    → Visit
    → OauthClient
    → Values
    → Option String
    → Option String
    → OauthProvider
    → Response × OauthProvider
unfolding new_pending add_pending
ask_user lib env c q (some nonce) (some id) p = add_pending (new_pending lib env c q nonce id) p
ask_user lib env c q secret id p = (failure 500 "server_error", p)

-- The answer for a registered redirect, with the error that the checks find, if any.
unfoldable pub answer_client :
    Library
    → Visit
    → OauthClient
    → Values
    → Option String
    → OauthProvider
    → Response × OauthProvider
unfolding ask_user get
answer_client lib env c q (some code) p = (
  redirect_to (get "redirect_uri" q)
      (("error", code) ∷ ("iss", p.issuer) ∷ state_values (get "state" q)),
  p,
)
answer_client lib env c q none p = ask_user lib env c q env.nonce env.pending_id p

-- `authorize` for the registered client, if it is one.
unfoldable pub authorize_client :
    Library → Visit → Option OauthClient → Values → OauthProvider → Response × OauthProvider
unfolding redirect_error answer_client get
authorize_client lib env none q p = (failure 400 "invalid_request", p)
authorize_client lib env (some c) q p =
    if not (contains c.redirects (get "redirect_uri" q))
    then (failure 400 "invalid_request", p)
    else if ltb 2048 (len (get "state" q))
    then (failure 400 "invalid_request", p)
    else answer_client lib env c q (redirect_error lib p.resource q) p

-- `authorize`: `between` is what other goroutines do between its two critical sections.
unfoldable pub authorize :
    Library
    → Visit
    → Values
    → (OauthProvider → OauthProvider)
    → OauthProvider
    → Response × OauthProvider
unfolding authorize_client cleanup unique_params get
authorize lib env q between p =
    if not (unique_params q)
    then (failure 400 "invalid_request", p)
    else let p' = cleanup env.time p in
      authorize_client lib env (lookup (get "client_id" q) p'.clients) q (between p')

-- The answer that the browser brings to the client: a code for an approval, else an error.
abbrev answer_values : OauthPending → Dict String String
answer_values v =
    if v.decision == approved then ("code", v.code) ∷ [] else ("error", "access_denied") ∷ []

-- `continueAuth` for the pending authorization of that ID and the value of its cookie.
unfoldable pub continue_pending :
    Library
    → String
    → Option String
    → Option OauthPending
    → OauthProvider
    → Response × OauthProvider
continue_pending lib id (some cookie) (some v) p =
    if not (lib.digest cookie == v.cookie_hash)
    then (failure 400 "invalid_request", p)
    else if v.decision == undecided
    then (wait_page id, p)
    else (
      redirect_to v.redirect (("iss", p.issuer) ∷ state_values v.state ++ answer_values v),
      record p { pending = erase id p.pending },
    )
continue_pending lib id cookie v p = (failure 400 "invalid_request", p)

unfoldable pub continue_auth :
    Library → ℕ → String → Option String → OauthProvider → Response × OauthProvider
unfolding cleanup continue_pending
continue_auth lib now id cookie p =
    let p' = cleanup now p in continue_pending lib id cookie (lookup id p'.pending) p'

pub data DecideError : Type 0 where
  already_decided code_limit no_secret : DecideError

-- The code of a pending authorization: it is good for a minute.
unfoldable pub new_code : ℕ → OauthPending → OauthProvider → OauthCode
new_code now v p = record {
  client = v.client_id;
  redirect = v.redirect;
  challenge = v.challenge;
  resource = p.resource;
  expires = now + 60 * second;
}

-- The approval of a pending authorization.
unfoldable pub approve_pending :
    Library → ℕ → String → String → OauthPending → OauthProvider → OauthProvider
unfolding new_code
approve_pending lib now id code v p = record p {
  pending = insert id (record v { decision = approved; code = code }) p.pending;
  codes = insert (lib.digest code) (new_code now v p) p.codes;
}

unfoldable pub decide_pending :
    Library
    → ℕ
    → String
    → Bool
    → Option String
    → Option OauthPending
    → OauthProvider
    → Option DecideError × OauthProvider
unfolding approve_pending
decide_pending lib now id approves fresh none p = (some already_decided, p)
decide_pending lib now id approves fresh (some v) p =
    if not (v.decision == undecided)
    then (some already_decided, p)
    else if not approves
    then (none, record p { pending = insert id (record v { decision = denied }) p.pending })
    else if leb 64 (length p.codes)
    then (some code_limit, p)
    else elim fresh [
      | none ↦ (some no_secret, p)
      | some code ↦ (none, approve_pending lib now id code v p)
    ]

-- `decide`: `fresh` is the new authorization code.
unfoldable pub decide :
    Library → ℕ → String → Bool → Option String → OauthProvider → Option DecideError × OauthProvider
unfolding cleanup decide_pending
decide lib now id approves fresh p =
    let p' = cleanup now p in decide_pending lib now id approves fresh (lookup id p'.pending) p'
