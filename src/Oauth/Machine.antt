-- ===== src/Oauth/Machine.antt =====
-- The critical sections of the provider (those of internal/app/oauth.go and oauth_refresh.go under
-- `p.mu`) as the steps of one machine: any interleaving of the handlers' goroutines is a list of
-- them. A handler's section after its first may come with any client and any form, so the machine
-- has every run of the program and more.
use hyprland_computer_use.Base.{
  ℕ, ◌++◌, String, Bool, true, Option, none, some, List, [], ◌∷◌, string_eq,
}
use hyprland_computer_use.Base.Dict.{lookup}
use hyprland_computer_use.Oauth.Authorize.{Visit, new_pending, add_pending, continue_auth, decide}
use hyprland_computer_use.Oauth.Client.{add_client}
use hyprland_computer_use.Oauth.Exchange.{Fresh, exchange}
use hyprland_computer_use.Oauth.Refresh.{refresh_token, revoke_connection}
use hyprland_computer_use.Oauth.State.{
  Library, OauthClient, OauthProvider, OauthPending, Values, cleanup,
}

pub data Section : Type 0 where
  registers : OauthClient → String → Bool → Section
  -- The first section of `authorize`, and its second.
  visits : Section
  asks : Visit → OauthClient → Values → String → String → Section
  continues : String → Option String → Section
  decides : String → Bool → Option String → Section
  exchanges : OauthClient → Values → Fresh → Section
  refreshes : OauthClient → Values → Fresh → Section
  revokes : String → Section

unfoldable pub step : Library → ℕ → Section → OauthProvider → OauthProvider
unfolding add_client cleanup new_pending add_pending continue_auth decide exchange refresh_token
step lib now (registers c secret saved) p = (add_client c secret saved p).1
step lib now visits p = cleanup now p
step lib now (asks env c q nonce id) p = (add_pending (new_pending lib env c q nonce id) p).1
step lib now (continues id cookie) p = (continue_auth lib now id cookie p).1
step lib now (decides id approves fresh) p = (decide lib now id approves fresh p).1
step lib now (exchanges c form fresh) p = (exchange lib now c form fresh p).1
step lib now (refreshes c form fresh) p = (refresh_token lib now c form fresh p).1
step lib now (revokes id) p = revoke_connection id p

unfoldable pub run : Library → List (ℕ × Section) → OauthProvider → OauthProvider
unfolding step
run lib [] p = p
run lib ((now, s) ∷ t) p = run lib t (step lib now s p)

-- The local user's approvals: when, and of which client's authorization.
abbrev pub approval_of : ℕ → Option OauthPending → List (ℕ × String)
approval_of now none = []
approval_of now (some v) = (now, v.client_id) ∷ []

unfoldable pub approvals : ℕ → Section → OauthProvider → List (ℕ × String)
unfolding cleanup
approvals now (decides id true fresh) p = approval_of now (lookup id (cleanup now p).pending)
approvals now s p = []

-- All approvals of a run, the latest first, before those of `log`.
unfoldable pub all_approvals :
    Library → List (ℕ × Section) → OauthProvider → List (ℕ × String) → List (ℕ × String)
unfolding step approvals
all_approvals lib [] p log = log
all_approvals lib ((now, s) ∷ t) p log =
    all_approvals lib t (step lib now s p) (approvals now s p ++ log)
