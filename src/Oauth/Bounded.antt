-- ===== src/Oauth/Bounded.antt =====
-- The maps of the provider stay small, and each key stands in them once.
pub mod Runs
use hyprland_computer_use.Base.{ℕ, ◌≤◌, arith, String, length, string_eq}
use hyprland_computer_use.Base.Dict.{length-retain, retain-NodupKeys, NodupKeys, Dict}
use hyprland_computer_use.Oauth.State.{
  OauthClient, OauthProvider, OauthPending, cleanup, live_code, live_pending, live_token,
  live_refresh,
}
use hyprland_computer_use.Base.{
  refl, true, Bool, false, not, ◌≡◌, leb, is_some, if_both, if◌then◌else◌, Option, none, some, ◌==◌,
}
use hyprland_computer_use.Base.Dict.{
  erase-NodupKeys, insert-NodupKeys, length-erase, length-insert, length-insert_old, insert, erase,
  retain, lookup,
}
use hyprland_computer_use.Oauth.Authorize.{
  add_pending, continue_pending, decide_pending, approve_pending, new_code, DecideError,
}
use hyprland_computer_use.Oauth.Client.{add_client}
use hyprland_computer_use.Oauth.State.{undecided, decision_eq, Library, Response}

-- At most `n` keys, each once.
abbrev pub Small : {V : Type 0} → ℕ → Dict String V → Type 0
Small n d = (length d ≤ n) × NodupKeys d

pub record Bounded (p : OauthProvider) : Type 0 where
  pub clients : Small 256 p.clients
  pub pending : Small 16 p.pending
  pub codes : Small 64 p.codes
  pub tokens : Small 256 p.tokens
  pub refresh : NodupKeys p.refresh

module _ {V : Type 0} (n : ℕ) (d : Dict String V) where
  pub retain-Small : (f : V → Bool) → Small n d → Small n (retain f d)
  retain-Small f s = (omega (arith, length-retain f d, s.0), retain-NodupKeys f d s.1)

  pub erase-Small : (k : String) → Small n d → Small n (erase k d)
  erase-Small k s = (omega (arith, length-erase k d, s.0), erase-NodupKeys k d s.1)

  pub insert-Small :
      (k : String) (v : V) → leb n (length d) ≡ false → Small n d → Small n (insert k v d)
  insert-Small k v room s = (ground (arith, length-insert k v d), insert-NodupKeys k v d s.1)

  update-Small :
      (k : String) (v : V) → is_some (lookup k d) ≡ true → Small n d → Small n (insert k v d)
  update-Small k v old s =
      (omega (arith, length-insert_old k v d old, s.0), insert-NodupKeys k v d s.1)

-- Of a conditional, where the second branch may use that the test fails.
pub if_room {ℓ μ} :
    {A : Type ℓ} (P : A → Type μ) (b : Bool) (x y : A)
    → P x
    → (b ≡ false → P y)
    → P (if b then x else y)
if_room P true x y h k = h
if_room P false x y h k = k refl

pub cleanup-Bounded : (now : ℕ) (p : OauthProvider) → Bounded p → Bounded (cleanup now p)
unfolding cleanup
cleanup-Bounded now p b = record {
  clients = b.clients;
  pending = retain-Small 16 p.pending (live_pending now) b.pending;
  codes = retain-Small 64 p.codes (live_code now) b.codes;
  tokens = retain-Small 256 p.tokens (live_token now) b.tokens;
  refresh = retain-NodupKeys (live_refresh now) p.refresh b.refresh;
}

pub add_client-Bounded :
    (c : OauthClient) (secret : String) (saved : Bool) (p : OauthProvider)
    → Bounded p
    → Bounded (add_client c secret saved p).1
unfolding add_client
add_client-Bounded c secret saved p b =
    let P = λ (r : Response × OauthProvider). Bounded r.1 in
    if_room P (leb 256 (length p.clients)) _ _ b (λ room.
      let added = insert-Small 256 p.clients c.id c room b.clients in
      if_both P saved _ _
        (record {
          clients = added;
          pending = b.pending;
          codes = b.codes;
          tokens = b.tokens;
          refresh = b.refresh;
        })
        (record {
          clients = erase-Small 256 (insert c.id c p.clients) c.id added;
          pending = b.pending;
          codes = b.codes;
          tokens = b.tokens;
          refresh = b.refresh;
        }))

pub add_pending-Bounded :
    (v : OauthPending) (p : OauthProvider) → Bounded p → Bounded (add_pending v p).1
unfolding add_pending
add_pending-Bounded v p b =
    if_room (λ (r : Response × OauthProvider). Bounded r.1) (leb 16 (length p.pending)) _ _ b
      (λ room. record {
        clients = b.clients;
        pending = insert-Small 16 p.pending v.id v room b.pending;
        codes = b.codes;
        tokens = b.tokens;
        refresh = b.refresh;
      })

pub continue_pending-Bounded :
    (lib : Library) (id : String) (cookie : Option String) (v : Option OauthPending)
    (p : OauthProvider)
    → Bounded p
    → Bounded (continue_pending lib id cookie v p).1
unfolding continue_pending
continue_pending-Bounded lib id (some cookie) (some v) p b =
    let P = λ (r : Response × OauthProvider). Bounded r.1 in
    if_both P (not (lib.digest cookie == v.cookie_hash)) _ _ b (
      if_both P (v.decision == undecided) _ _ b (record {
        clients = b.clients;
        pending = erase-Small 16 p.pending id b.pending;
        codes = b.codes;
        tokens = b.tokens;
        refresh = b.refresh;
      }))
continue_pending-Bounded lib id (some cookie) none p b = b
continue_pending-Bounded lib id none v p b = b

set_pending-Bounded :
    (id : String) (v : OauthPending) (p : OauthProvider)
    → is_some (lookup id p.pending) ≡ true
    → Bounded p
    → Bounded (record p { pending = insert id v p.pending })
set_pending-Bounded id v p old b = record {
  clients = b.clients;
  pending = update-Small 16 p.pending id v old b.pending;
  codes = b.codes;
  tokens = b.tokens;
  refresh = b.refresh;
}

pub decide_pending-Bounded :
    (lib : Library) (now : ℕ) (id : String) (approves : Bool) (fresh : Option String)
    (v : Option OauthPending) (p : OauthProvider)
    → lookup id p.pending ≡ v
    → Bounded p
    → Bounded (decide_pending lib now id approves fresh v p).1
unfolding decide_pending approve_pending
decide_pending-Bounded lib now id approves fresh none p e b = b
decide_pending-Bounded lib now id false fresh (some v) p e b =
    if_both (λ (r : Option DecideError × OauthProvider). Bounded r.1)
      (not (v.decision == undecided)) _ _ b (set_pending-Bounded id _ p (rw e refl) b)
decide_pending-Bounded lib now id true none (some v) p e b =
    let P = λ (r : Option DecideError × OauthProvider). Bounded r.1 in
    if_both P (not (v.decision == undecided)) _ _ b (if_both P (leb 64 (length p.codes)) _ _ b b)
decide_pending-Bounded lib now id true (some code) (some v) p e b =
    let P = λ (r : Option DecideError × OauthProvider). Bounded r.1 in
    if_both P (not (v.decision == undecided)) _ _ b (
      if_room P (leb 64 (length p.codes)) _ _ b (λ room. record {
        clients = b.clients;
        pending = update-Small 16 p.pending id _ (rw e refl) b.pending;
        codes = insert-Small 64 p.codes (lib.digest code) (new_code now v p) room b.codes;
        tokens = b.tokens;
        refresh = b.refresh;
      }))
