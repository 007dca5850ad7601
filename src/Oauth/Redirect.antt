-- ===== src/Oauth/Redirect.antt =====
-- What `validRedirect` (internal/app/oauth.go) accepts.
use hyprland_computer_use.Base.{
  ◌≡◌, ◌≢◌, ◌≤◌, ◌⊎◌, inl, inr, refl, arith, String, len, string_eq, ◌==◌, true, false, Option,
  none, some, List, [], ◌∷◌, All, Bool-cases,
}
use hyprland_computer_use.Base.Addresses.{Url, Addresses, IsLoopback, is_loopback_ip-some}
use hyprland_computer_use.Oauth.Client.{is_redirect_url, valid_redirect, all_of}
use hyprland_computer_use.Oauth.State.{Library}

-- An address of HTTPS, or one of HTTP to this computer.
abbrev pub IsSafeUrl : Addresses → Url → Type 0
IsSafeUrl net u =
    (u.scheme ≡ "https")
    ⊎ ((u.scheme ≡ "http") × ((u.hostname ≡ "localhost") ⊎ IsLoopback net u.hostname))

-- A URL of at most 2048 bytes, with a host, without credentials and fragment.
pub record IsRedirect (lib : Library) (s : String) : Type 0 where
  pub short : len s ≤ 2048
  pub url : Url
  pub parsed : lib.net.parse_url s ≡ some url
  pub has_host : url.host ≢ ""
  pub anonymous : url.has_user ≡ false
  pub no_fragment : url.fragment ≡ ""
  pub safe : IsSafeUrl lib.net url

is_redirect_url-IsSafeUrl :
    (net : Addresses) (u : Url) → is_redirect_url net (some u) ≡ true → IsSafeUrl net u
is_redirect_url-IsSafeUrl net u h = elim (Bool-cases (u.scheme == "https")) [
  | inl e ↦ inl (ground (arith, e))
  | inr e ↦ inr (ground (arith, e, h), local (Bool-cases (u.hostname == "localhost")) e)
]
  where
    local :
        ((u.hostname == "localhost") ≡ true) ⊎ ((u.hostname == "localhost") ≡ false)
        → (u.scheme == "https") ≡ false
        → (u.hostname ≡ "localhost") ⊎ IsLoopback net u.hostname
    local (inl l) e = inl (ground (arith, l))
    local (inr l) e = inr (is_loopback_ip-some (net.parse_ip u.hostname) (ground (arith, e, h, l)))

pub valid_redirect-IsRedirect :
    (lib : Library) (s : String) → valid_redirect lib s ≡ true → IsRedirect lib s
valid_redirect-IsRedirect lib s h = read (lib.net.parse_url s) refl (ground (arith, h))
  where
    read :
        (o : Option Url)
        → lib.net.parse_url s ≡ o
        → is_redirect_url lib.net o ≡ true
        → IsRedirect lib s
    read none e k = cc
    read (some u) e k = record {
      short = ground (arith, h);
      url = u;
      parsed = e;
      has_host = λ n. ground (arith, k, n);
      anonymous = ground (arith, k);
      no_fragment = ground (arith, k);
      safe = is_redirect_url-IsSafeUrl lib.net u k;
    }

pub all_of-AllRedirect :
    (lib : Library) (xs : List String)
    → all_of (valid_redirect lib) xs ≡ true
    → All (IsRedirect lib) xs
all_of-AllRedirect lib [] h = tt
all_of-AllRedirect lib (x ∷ xs) h = elim (Bool-cases (valid_redirect lib x)) [
  | inl e ↦ (valid_redirect-IsRedirect lib x e, all_of-AllRedirect lib xs (rw e at h))
  | inr e ↦ absurd (cc (rw e at h))
]
