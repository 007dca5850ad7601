-- ===== src/Http/Origin.antt =====
-- `httpOrigin`, the start of `newHTTPGateway` and `startHTTP` of internal/app/http.go, and the checks
-- that the gateway's handler makes of every request. The parsing of addresses is a parameter.
use hyprland_computer_use.Base.{
  ℕ, zero, suc, String, ◌<>◌, len, slice, Bool, false, not, ◌&&◌, ◌||◌, none, some, ltb,
  if◌then◌else◌, ◌==◌, string_eq,
}
use hyprland_computer_use.Base.Addresses.{Url, Addresses, is_loopback_ip}
use hyprland_computer_use.Base.Result.{Result, error, ok, unless, or_error, ◌>>=◌}

pub data OriginError : Type 0 where
  half_certificate oauth_needs_url must_be_loopback needs_proxy : OriginError
  bad_url oauth_needs_https tls_needs_https bad_origin : OriginError

-- The command line: the address, the public URL, whether OAuth is on, the certificate and the key.
pub record HttpFlags : Type 0 where
  pub addr : String
  pub public : String
  pub oauth : Bool
  pub cert : String
  pub key : String

-- `strings.TrimRight(s, "/")` of the first bytes of a text.
unfoldable pub trim_to : ℕ → String → String
trim_to zero s = ""
trim_to (suc n) s =
    let rest = trim_to n s in if slice s n (suc n) == "/" then rest else slice s 0 (suc n)

unfoldable pub trim_slashes : String → String
unfolding trim_to
trim_slashes s = trim_to (len s) s

-- The test of `newHTTPGateway` on the URL of the origin: an HTTP(S) origin without path or
-- credentials.
abbrev pub is_origin : Url → Bool
is_origin u =
    (u.scheme == "http" || u.scheme == "https")
    && (not (u.host == "")
        && (not u.has_user
            && (u.query == "" && (u.fragment == "" && (u.path == "" || u.path == "/")))))

module _ (net : Addresses) where
  -- `isLoopbackListen`, of the host and port that were split, if they were.
  abbrev pub is_loopback_listen : String → Bool
  is_loopback_listen addr = elim (net.split_host addr) [
    | none ↦ false
    | some host ↦ is_loopback_ip (net.parse_ip host)
  ]

  abbrev has_cert : HttpFlags → Bool
  has_cert h = not (h.cert == "")

  abbrev is_paired : HttpFlags → Bool
  is_paired h = (h.cert == "" && h.key == "") || not (h.cert == "" || h.key == "")

  -- The public URL, or one made of the address.
  unfoldable pub public_url : HttpFlags → Result OriginError String
  public_url h =
      if not (h.public == "")
      then ok h.public
      else if h.oauth
      then error oauth_needs_url
      else if not (is_loopback_listen h.addr)
      then error must_be_loopback
      else ok ((if has_cert h then "https" else "http") <> "://" <> h.addr)

  -- `httpOrigin`
  unfoldable pub http_origin : HttpFlags → Result OriginError String
  unfolding public_url
  http_origin h = do
    paired ← unless half_certificate (is_paired h)
    public ← public_url h
    guarded ← unless must_be_loopback (h.oauth || is_loopback_listen h.addr)
    proxied ← unless needs_proxy (not h.oauth || (has_cert h || is_loopback_listen h.addr))
    u ← or_error bad_url (net.parse_url public)
    secure ← unless oauth_needs_https (not h.oauth || u.scheme == "https")
    tls ← unless tls_needs_https (not (has_cert h) || u.scheme == "https")
    ok public

  -- The start of `newHTTPGateway`: the host that it answers for, and the origin that it trusts.
  unfoldable pub new_http_gateway : String → Result OriginError (String × String)
  unfolding trim_slashes
  new_http_gateway origin = do
    u ← or_error bad_origin (net.parse_url origin)
    plain ← unless bad_origin (is_origin u)
    ok (u.host, trim_slashes origin)

  -- `startHTTP`, up to its gateway: the OAuth provider, the certificate and the listener, which can
  -- fail too, are left out.
  unfoldable pub start_http : HttpFlags → Result OriginError (String × String)
  unfolding http_origin new_http_gateway
  start_http h = do origin ← http_origin h; new_http_gateway origin

-- A request, as far as the handler looks at it before it is routed.
pub record HttpRequest : Type 0 where
  pub host : String
  pub origin : String
  pub is_options : Bool
  pub path : String
  pub query : String

pub data Handled : Type 0 where
  refused_with : ℕ → Handled
  preflight : Handled
  -- The limit of the body.
  served : ℕ → Handled

-- The handler of `newHTTPGateway`, for the host and the origin that it was made for.
unfoldable pub handle_request : String → String → HttpRequest → Handled
handle_request host origin r =
    if not (r.host == host)
    then refused_with 403
    else if not (r.origin == "") && not (r.origin == origin)
    then refused_with 403
    else if r.is_options
    then preflight
    else if ltb 8192 (len r.query)
    then refused_with 414
    else if r.path == "/mcp" && not (r.query == "")
    then refused_with 400
    else served (if r.path == "/mcp" then 1048576 else 32768)
