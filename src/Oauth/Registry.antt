-- ===== src/Oauth/Registry.antt =====
-- internal/app/oauth.go: `validateOAuthClient`, and how `newOAuthProvider` opens the registry of
-- clients.
use mathlib.Core.Path.{subst}
use hyprland_computer_use.Base.{
  ℕ, ◌≤◌, ◌≡◌, arith, Bool, true, false, not, ◌&&◌, ◌||◌, eqb, ltb, len, Option, none, some, [],
  ◌∷◌, length, is_some, String, string_eq, ◌==◌, if◌then◌else◌,
}
use hyprland_computer_use.Base.Dict.{Dict}
use hyprland_computer_use.Base.Dict.Values.{AllValues}
use hyprland_computer_use.Oauth.Redirect.{all_of-AllRedirect}
use hyprland_computer_use.Oauth.Client.{valid_redirect, all_of, known_method, known_grant}
use hyprland_computer_use.Oauth.Registered.{ValidClient}
use hyprland_computer_use.Oauth.State.{Library, OauthClient}
use hyprland_computer_use.Base.{contains}

abbrev has_bytes : ℕ → Option ℕ → Bool
has_bytes n none = false
has_bytes n (some m) = eqb m n

-- `validateOAuthClient`: whether there is no error.
unfoldable pub validate_client : Library → OauthClient → Bool
validate_client lib c =
    eqb (len c.id) 32
    && (is_some (lib.hex_bytes c.id)
        && (not (
              eqb (len c.name) 0
              || (ltb 100 (len c.name)
                  || (eqb (length c.redirects) 0 || ltb 10 (length c.redirects))))
            && (all_of (valid_redirect lib) c.redirects
                && (known_method c.method
                    && (contains c.grant_types "authorization_code"
                        && (all_of known_grant c.grant_types
                            && (not (c.method == "none" && not (c.secret_hash == ""))
                                && not (
                                    c.method == "client_secret_basic"
                                    && not (has_bytes 32 (lib.hex_bytes c.secret_hash))))))))))

-- The registry's file, once it is open: what `Stat` says, and its clients if it could be read,
-- closed and decoded as an object.
pub record RegistryFile : Type 0 where
  pub has_stat : Bool
  pub is_regular : Bool
  pub is_private : Bool
  pub is_owned : Bool
  pub size : ℕ
  pub read : Bool
  pub closed : Bool
  pub clients : Option (Dict String OauthClient)

pub data OpenedRegistry : Type 0 where
  absent : OpenedRegistry
  unreadable : OpenedRegistry
  opened : RegistryFile → OpenedRegistry

-- The loop over the clients: each stands under its ID and is valid.
unfoldable pub valid_entries : Library → Dict String OauthClient → Bool
unfolding validate_client
valid_entries lib [] = true
valid_entries lib ((id, c) ∷ d) = id == c.id && (validate_client lib c && valid_entries lib d)

abbrev is_safe : RegistryFile → Bool
is_safe f =
    f.has_stat && (f.is_regular && (f.is_private && (f.is_owned && not (ltb 1048576 f.size))))

abbrev checked_clients :
    Library → Option (Dict String OauthClient) → Option (Dict String OauthClient)
checked_clients lib none = none
checked_clients lib (some d) =
    if not (ltb 256 (length d)) && valid_entries lib d then some d else none

-- The clients that a new provider starts with, or none if it cannot start.
unfoldable pub load_clients : Library → OpenedRegistry → Option (Dict String OauthClient)
unfolding valid_entries
load_clients lib absent = some []
load_clients lib unreadable = none
load_clients lib (opened f) =
    if is_safe f && (f.read && f.closed) then checked_clients lib f.clients else none

validate_client-ValidClient :
    (lib : Library) (c : OauthClient) → validate_client lib c ≡ true → ValidClient lib c
unfolding validate_client
validate_client-ValidClient lib c h = record {
  some_redirect = ground arith;
  few_redirects = ground arith;
  redirects_valid = all_of-AllRedirect lib c.redirects (ground arith);
  method_known = ground arith;
  uses_codes = ground arith;
}

valid_entries-AllValid :
    (lib : Library) (d : Dict String OauthClient)
    → valid_entries lib d ≡ true
    → AllValues (ValidClient lib) d
unfolding valid_entries
valid_entries-AllValid lib [] h = tt
valid_entries-AllValid lib ((id, c) ∷ d) h =
    (validate_client-ValidClient lib c (ground arith), valid_entries-AllValid lib d (ground arith))

checked_clients-AllValid :
    (lib : Library) (o : Option (Dict String OauthClient)) (d : Dict String OauthClient)
    → checked_clients lib o ≡ some d
    → AllValues (ValidClient lib) d × (length d ≤ 256)
checked_clients-AllValid lib none d h = cc
checked_clients-AllValid lib (some x) d h =
    let same : x ≡ d = ground arith in
    let valid : valid_entries lib x ≡ true = ground arith in
    let few : length x ≤ 256 = ground arith in
    subst (λ z. AllValues (ValidClient lib) z × (length z ≤ 256)) same
      (valid_entries-AllValid lib x valid, few)

-- A provider that starts from its registry's file has at most 256 clients, all of them valid as
-- those that `register` accepts.
pub load_clients-AllValid :
    (lib : Library) (file : OpenedRegistry) (d : Dict String OauthClient)
    → load_clients lib file ≡ some d
    → AllValues (ValidClient lib) d × (length d ≤ 256)
unfolding load_clients
load_clients-AllValid lib absent d h =
    let same : [] ≡ d = ground arith in
    subst (λ z. AllValues (ValidClient lib) z × (length z ≤ 256)) same (tt, omega arith)
load_clients-AllValid lib unreadable d h = cc
load_clients-AllValid lib (opened f) d h = checked_clients-AllValid lib f.clients d (ground arith)
