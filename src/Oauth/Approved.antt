-- ===== src/Oauth/Approved.antt =====
-- Every code, token and refresh token comes from an approval of the local user.
pub mod Runs
use hyprland_computer_use.Base.{
  ℕ, ◌+◌, ◌*◌, ◌≤◌, ◌<◌, ◌++◌, ◌≡◌, refl, ◌∙◌, ◌⊎◌, inl, inr, arith, String, Option, none, some,
  List, [], ◌∷◌, leb, length, Bool-cases, ◌==◌, string_eq,
}
use hyprland_computer_use.Base.Dict.Values.{
  AllValues, AllValues-weaken, AllValues-retain, AllValues-insert, AllValues-erase,
}
use hyprland_computer_use.Broker.State.{second}
use hyprland_computer_use.Oauth.Exchange.{
  connect, new_connection, issue, exchange_code, code_matches, Fresh, wanted_refresh,
}
use hyprland_computer_use.Oauth.Refresh.{revoke_connection}
use hyprland_computer_use.Oauth.State.{
  Library, OauthClient, OauthProvider, OauthCode, OauthConnection, OauthRefresh, Values, hour,
  cleanup, live_code, live_token, live_refresh,
}

-- The log has an approval of the client, at most `slack` before `expires`.
abbrev pub Approved : ℕ → String → ℕ → List (ℕ × String) → Type 0
Approved slack client expires [] = ⊥
Approved slack client expires ((time, c) ∷ log) =
    ((client ≡ c) × (expires ≤ time + slack)) ⊎ Approved slack client expires log

abbrev pub minute : ℕ
minute = 60 * second

abbrev pub ApprovedCode : List (ℕ × String) → OauthCode → Type 0
ApprovedCode log v = Approved minute v.client v.expires log

abbrev pub ApprovedConnection : List (ℕ × String) → OauthConnection → Type 0
ApprovedConnection log v = Approved (minute + hour) v.client_id v.expires log

abbrev pub ApprovedRefresh : List (ℕ × String) → OauthRefresh → Type 0
ApprovedRefresh log v = ApprovedConnection log v.connection

-- All that gives access is approved.
pub record Backed (log : List (ℕ × String)) (p : OauthProvider) : Type 0 where
  pub codes : AllValues (ApprovedCode log) p.codes
  pub tokens : AllValues (ApprovedConnection log) p.tokens
  pub refresh : AllValues (ApprovedRefresh log) p.refresh

Approved-append :
    (slack : ℕ) (client : String) (expires : ℕ) (more log : List (ℕ × String))
    → Approved slack client expires log
    → Approved slack client expires (more ++ log)
Approved-append slack client expires [] log h = h
Approved-append slack client expires ((t, c) ∷ more) log h =
    inr (Approved-append slack client expires more log h)

-- A connection of an hour that an unexpired code opens.
Approved-hour :
    (client other : String) (now expires : ℕ) (log : List (ℕ × String))
    → Approved minute other expires log
    → client ≡ other
    → now < expires
    → Approved (minute + hour) client (now + hour) log
Approved-hour client other now expires [] a e h = absurd a
Approved-hour client other now expires ((t, c) ∷ log) (inl a) e h =
    inl (e ∙ a.0, omega (arith, a.1))
Approved-hour client other now expires ((t, c) ∷ log) (inr a) e h =
    inr (Approved-hour client other now expires log a e h)

pub append-Backed :
    (more log : List (ℕ × String)) (p : OauthProvider) → Backed log p → Backed (more ++ log) p
append-Backed more log p b = record {
  codes =
      AllValues-weaken (ApprovedCode log) (ApprovedCode (more ++ log)) p.codes
        (λ v. Approved-append minute v.client v.expires more log) b.codes;
  tokens =
      AllValues-weaken (ApprovedConnection log) (ApprovedConnection (more ++ log)) p.tokens
        (λ v. Approved-append (minute + hour) v.client_id v.expires more log) b.tokens;
  refresh =
      AllValues-weaken (ApprovedRefresh log) (ApprovedRefresh (more ++ log)) p.refresh
        (λ v. Approved-append (minute + hour) v.connection.client_id v.connection.expires more log)
        b.refresh;
}

pub cleanup-Backed :
    (now : ℕ) (log : List (ℕ × String)) (p : OauthProvider)
    → Backed log p
    → Backed log (cleanup now p)
unfolding cleanup
cleanup-Backed now log p b = record {
  codes = AllValues-retain (ApprovedCode log) (live_code now) p.codes b.codes;
  tokens = AllValues-retain (ApprovedConnection log) (live_token now) p.tokens b.tokens;
  refresh = AllValues-retain (ApprovedRefresh log) (live_refresh now) p.refresh b.refresh;
}

pub revoke_connection-Backed :
    (id : String) (log : List (ℕ × String)) (p : OauthProvider)
    → Backed log p
    → Backed log (revoke_connection id p)
unfolding revoke_connection
revoke_connection-Backed id log p b = record {
  codes = b.codes;
  tokens = AllValues-retain (ApprovedConnection log) _ p.tokens b.tokens;
  refresh = AllValues-retain (ApprovedRefresh log) _ p.refresh b.refresh;
}

connect-Backed :
    (lib : Library) (now : ℕ) (c : OauthClient) (key access id refresh : String)
    (log : List (ℕ × String)) (p : OauthProvider)
    → ApprovedConnection log (new_connection now c id p)
    → Backed log p
    → Backed log (connect lib now c key access id refresh p)
unfolding connect
connect-Backed lib now c key access id refresh log p a b = record {
  codes = AllValues-erase (ApprovedCode log) key p.codes b.codes;
  tokens = AllValues-insert (ApprovedConnection log) (lib.digest access) _ p.tokens a b.tokens;
  refresh = elim (Bool-cases (refresh == "")) [
    | inl same ↦ rw same b.refresh
    | inr other ↦
        rw other
          (AllValues-insert (ApprovedRefresh log) (lib.digest refresh) _ p.refresh a b.refresh)
  ];
}

issue-Backed :
    (lib : Library) (now : ℕ) (c : OauthClient) (key : String) (access id refresh : Option String)
    (log : List (ℕ × String)) (p : OauthProvider)
    → Approved (minute + hour) c.id (now + hour) log
    → Backed log p
    → Backed log (issue lib now c key access id refresh p).1
unfolding issue new_connection
issue-Backed lib now c key (some access) (some id) (some refresh) log p a b =
    connect-Backed lib now c key access id refresh log p a b
issue-Backed lib now c key (some access) (some id) none log p a b = b
issue-Backed lib now c key (some access) none refresh log p a b = b
issue-Backed lib now c key none id refresh log p a b = b

pub exchange_code-Backed :
    (lib : Library) (now : ℕ) (c : OauthClient) (form : Values) (fresh : Fresh) (key : String)
    (code : Option OauthCode) (log : List (ℕ × String)) (p : OauthProvider)
    → ((v : OauthCode) → code ≡ some v → ApprovedCode log v × (now < v.expires))
    → Backed log p
    → Backed log (exchange_code lib now c form fresh key code p).1
unfolding exchange_code code_matches
exchange_code-Backed lib now c form fresh key none log p h b = b
exchange_code-Backed lib now c form fresh key (some v) log p h b =
    elim (Bool-cases (code_matches lib c form v)) [
      | inr other ↦ rw other b
      | inl same ↦ rw same (elim (Bool-cases (leb 256 (length p.tokens))) [
        | inl full ↦ rw full b
        | inr room ↦ rw room (
            issue-Backed lib now c key fresh.access fresh.connection_id
              (wanted_refresh c fresh.refresh) log p
              (Approved-hour c.id v.client now v.expires log (h v refl).0 (ground arith)
                (h v refl).1)
              b)
      ])
    ]
