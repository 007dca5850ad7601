-- ===== src/Http/Guarded.antt =====
-- What holds of every request that the HTTP server lets through to its routes, from the command line
-- to the handler (internal/app/http.go).
use hyprland_computer_use.Base.{
  ℕ, String, ◌<>◌, len, ◌≡◌, ◌≢◌, ◌≤◌, ◌⊎◌, inl, inr, refl, arith, Bool, true, false, not, ◌&&◌,
  ◌||◌, Option, none, some, ◌==◌, string_eq, string_discrete, Bool-cases,
}
use hyprland_computer_use.Base.Addresses.{Url, Addresses, is_loopback_ip, IsLoopback}
use hyprland_computer_use.Base.Result.{ok, Ends, Ends-bind, Ends-unless, Ends-or_error}
use mathlib.Core.Path.{subst}
use hyprland_computer_use.Http.Origin.{
  half_certificate, must_be_loopback, needs_proxy, bad_url, oauth_needs_https, tls_needs_https,
  bad_origin, HttpFlags, is_loopback_listen, public_url, http_origin, is_origin, trim_slashes,
  new_http_gateway, start_http, HttpRequest, served, handle_request,
}

module _ (net : Addresses) where
  -- The host of the address to listen on is the literal of a loopback address.
  pub record IsLocal (h : HttpFlags) : Type 0 where
    pub host : String
    pub split : net.split_host h.addr ≡ some host
    pub loopback : IsLoopback net host

  -- The URL is that of the flags, or, without OAuth only, one made of the address.
  abbrev pub IsConfigured : HttpFlags → String → Type 0
  IsConfigured h url =
      ((h.public ≢ "") × (url ≡ h.public))
      ⊎ ((h.oauth ≡ false)
          × ((h.cert ≡ "") × (url ≡ "http" <> "://" <> h.addr)
              ⊎ (h.cert ≢ "") × (url ≡ "https" <> "://" <> h.addr)))

  -- A server that started, with the host and the origin of its gateway.
  pub record IsSafeServer (h : HttpFlags) (host origin : String) : Type 0 where
    pub url : String
    pub configured : IsConfigured h url
    pub parsed : Url
    pub is_parsed : net.parse_url url ≡ some parsed
    pub host_is : parsed.host ≡ host
    pub has_host : host ≢ ""
    pub origin_is : trim_slashes url ≡ origin
    pub anonymous : parsed.has_user ≡ false
    pub no_path : (parsed.path ≡ "") ⊎ (parsed.path ≡ "/")
    pub no_query : (parsed.query ≡ "") × (parsed.fragment ≡ "")
    pub plain :
        (parsed.scheme ≡ "http") × (h.oauth ≡ false) × (h.cert ≡ "") ⊎ (parsed.scheme ≡ "https")
    pub guarded : IsLocal h ⊎ (h.oauth ≡ true) × (h.cert ≢ "") × (h.key ≢ "")

  -- A request that is let through, with the limit of its body.
  pub record IsGuarded (host origin : String) (r : HttpRequest) (limit : ℕ) : Type 0 where
    pub for_host : r.host ≡ host
    pub same_origin : (r.origin ≡ "") ⊎ (r.origin ≡ origin)
    pub no_options : r.is_options ≡ false
    pub short_query : len r.query ≤ 8192
    pub no_secrets : r.path ≡ "/mcp" → r.query ≡ ""
    pub body : (r.path ≡ "/mcp") × (limit ≡ 1048576) ⊎ (r.path ≢ "/mcp") × (limit ≡ 32768)

  listen-IsLocal : (h : HttpFlags) → is_loopback_listen net h.addr ≡ true → IsLocal h
  listen-IsLocal h k = split (net.split_host h.addr) refl k
    where
      parse :
          (host : String)
          → (o : Option Bool) → net.parse_ip host ≡ o
          → is_loopback_ip o ≡ true
          → IsLoopback net host
      parse host none e k = cc
      parse host (some b) e k = ground (arith, e, k)

      split :
          (o : Option String)
          → net.split_host h.addr ≡ o
          → elim o as (λ o'. Bool) [ none ↦ false | some host ↦ is_loopback_ip (net.parse_ip host) ]
            ≡ true
          → IsLocal h
      split none e k = cc
      split (some host) e k = record {
        host = host;
        split = e;
        loopback = parse host (net.parse_ip host) refl k;
      }

  public_url-IsConfigured : (h : HttpFlags) → Ends (IsConfigured h) (public_url net h)
  unfolding public_url
  public_url-IsConfigured h = elim (Bool-cases (h.public == "")) [
    | inr e ↦ rw e (inl (λ k. ground (arith, e, k), refl))
    | inl e ↦ elim (Bool-cases h.oauth) [
      | inl o ↦ rw (e, o) tt
      | inr o ↦ elim (Bool-cases (is_loopback_listen net h.addr)) [
        | inr l ↦ rw (e, o, l) tt
        | inl l ↦ elim (Bool-cases (h.cert == "")) [
          | inl c ↦ rw (e, l, c) (rw o (inr (refl, inl (ground (arith, c), refl))))
          | inr c ↦ rw (e, l, c) (rw o (inr (refl, inr (λ k. ground (arith, c, k), refl))))
        ]
      ]
    ]
  ]

  handle_request-IsGuarded :
      (host origin : String) (r : HttpRequest) (limit : ℕ)
      → handle_request host origin r ≡ served limit
      → IsGuarded host origin r limit
  unfolding handle_request
  handle_request-IsGuarded host origin r limit h = record {
    for_host = ground arith;
    same_origin = elim (string_discrete r.origin "") [
      | yes e ↦ inl e
      | no ne ↦ inr (ground (arith, ne))
    ];
    no_options = ground arith;
    short_query = ground arith;
    no_secrets = λ e. ground (arith, e);
    body = elim (string_discrete r.path "/mcp") [
      | yes e ↦ inl (e, ground (arith, e))
      | no ne ↦ inr (ne, ground (arith, ne))
    ];
  }

  -- The schemes that an origin may have.
  plain_scheme :
      (h : HttpFlags) (u : Url)
      → is_origin u ≡ true
      → (not h.oauth || u.scheme == "https") ≡ true
      → (not (not (h.cert == "")) || u.scheme == "https") ≡ true
      → (u.scheme ≡ "http") × (h.oauth ≡ false) × (h.cert ≡ "") ⊎ (u.scheme ≡ "https")
  plain_scheme h u o s t = elim (string_discrete u.scheme "https") [
    | yes e ↦ inr e
    | no ne ↦ inl (ground (arith, o, ne), ground (arith, s, ne), ground (arith, t, ne))
  ]

  root_path : (u : Url) → is_origin u ≡ true → (u.path ≡ "") ⊎ (u.path ≡ "/")
  root_path u o = elim (string_discrete u.path "") [
    | yes e ↦ inl e
    | no ne ↦ inr (ground (arith, o, ne))
  ]

  -- Where the server may listen.
  guarded_listener :
      (h : HttpFlags)
      → ((h.cert == "" && h.key == "") || not (h.cert == "" || h.key == "")) ≡ true
      → (h.oauth || is_loopback_listen net h.addr) ≡ true
      → (not h.oauth || (not (h.cert == "") || is_loopback_listen net h.addr)) ≡ true
      → IsLocal h ⊎ (h.oauth ≡ true) × (h.cert ≢ "") × (h.key ≢ "")
  guarded_listener h p g q = elim (Bool-cases (is_loopback_listen net h.addr)) [
    | inl l ↦ inl (listen-IsLocal h l)
    | inr l ↦ elim (string_discrete h.cert "") [
      | yes e ↦ absurd (ground (arith, p, g, q, l, e))
      | no ne ↦ inr (ground (arith, g, l), ne, λ k. ground (arith, p, ne, k))
    ]
  ]

  -- What `httpOrigin` has checked of a URL that it accepts.
  record IsAccepted (h : HttpFlags) (url : String) : Type 0 where
    configured : IsConfigured h url
    guarded : IsLocal h ⊎ (h.oauth ≡ true) × (h.cert ≢ "") × (h.key ≢ "")
    parsed : Url
    is_parsed : net.parse_url url ≡ some parsed
    secure : (not h.oauth || parsed.scheme == "https") ≡ true
    tls : (not (not (h.cert == "")) || parsed.scheme == "https") ≡ true

  http_origin-IsAccepted : (h : HttpFlags) → Ends (IsAccepted h) (http_origin net h)
  unfolding http_origin
  http_origin-IsAccepted h =
      Ends-unless P half_certificate
        ((h.cert == "" && h.key == "") || not (h.cert == "" || h.key == "")) _
        (λ paired. Ends-bind P (public_url net h) _ (λ url made.
          Ends-unless P must_be_loopback (h.oauth || is_loopback_listen net h.addr) _ (λ guarded.
            Ends-unless P needs_proxy
              (not h.oauth || (not (h.cert == "") || is_loopback_listen net h.addr)) _
              (λ proxied. Ends-or_error P bad_url (net.parse_url url) _ (λ u parsed.
                Ends-unless P oauth_needs_https (not h.oauth || u.scheme == "https") _ (λ secure.
                  Ends-unless P tls_needs_https (not (not (h.cert == "")) || u.scheme == "https") _
                    (λ tls. record {
                      configured = subst (Ends (IsConfigured h)) made (public_url-IsConfigured h);
                      guarded = guarded_listener h paired guarded proxied;
                      parsed = u;
                      is_parsed = parsed;
                      secure = secure;
                      tls = tls;
                    })))))))
    where
      P : String → Type 0
      P = IsAccepted h

  safe_server :
      (h : HttpFlags) (url : String) (u : Url)
      → IsAccepted h url
      → net.parse_url url ≡ some u
      → is_origin u ≡ true
      → IsSafeServer h u.host (trim_slashes url)
  safe_server h url u k p o = record {
    url = url;
    configured = k.configured;
    parsed = u;
    is_parsed = p;
    host_is = refl;
    has_host = λ e. ground (arith, o, e);
    origin_is = refl;
    anonymous = ground (arith, o);
    no_path = root_path u o;
    no_query = (ground (arith, o), ground (arith, o));
    plain =
        plain_scheme h u o (ground (arith, k.secure, k.is_parsed, p))
          (ground (arith, k.tls, k.is_parsed, p));
    guarded = k.guarded;
  }

  start_http-IsSafeServer :
      (h : HttpFlags) → Ends (λ (host, origin). IsSafeServer h host origin) (start_http net h)
  unfolding start_http new_http_gateway
  start_http-IsSafeServer h = Ends-bind P (http_origin net h) _ (λ url e.
      let k = subst (Ends (IsAccepted h)) e (http_origin-IsAccepted h) in
      Ends-or_error P bad_origin (net.parse_url url) _ (λ u parsed.
        Ends-unless P bad_origin (is_origin u) _ (λ o. safe_server h url u k parsed o)))
    where
      P : String × String → Type 0
      P (host, origin) = IsSafeServer h host origin

  -- If the HTTP server starts and lets a request through to its routes, then the server is safe:
  -- its URL is that of the command line, or without OAuth one made of the address; it has a
  -- host, no credentials, query or fragment, and no path but "/"; it is an HTTPS URL wherever
  -- OAuth is on or there is a certificate, and an HTTP or HTTPS URL otherwise; and the server
  -- listens on a literal loopback address, or it has OAuth, a certificate and its key. The
  -- request names exactly this URL's host, and no other origin than the URL without slashes at
  -- its end; it is no preflight, its query has at most 8192 bytes and is empty on "/mcp", and
  -- its body is limited to 1 MiB there and to 32 KiB elsewhere.
  pub start_http-IsGuarded :
      (h : HttpFlags) (host origin : String) (r : HttpRequest) (limit : ℕ)
      → start_http net h ≡ ok (host, origin)
      → handle_request host origin r ≡ served limit
      → IsSafeServer h host origin × IsGuarded host origin r limit
  start_http-IsGuarded h host origin r limit started passed = (
    subst (Ends (λ (host, origin). IsSafeServer h host origin)) started (start_http-IsSafeServer h),
    handle_request-IsGuarded host origin r limit passed,
  )
