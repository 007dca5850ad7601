-- ===== src/Base/Addresses.antt =====
-- Addresses and URLs, as Go's `net` and `net/url` packages read them. Of their parsers nothing is
-- assumed.
use Prim.Native.String.{String}
use mathlib.Core.Bool.{Bool, true, false}
use mathlib.Core.Option.{Option, none, some}
use mathlib.Core.Path.{◌≡◌, ap}

-- A URL that was parsed: `Scheme`, `Host`, `Hostname()`, `User != nil`, `Path`, `RawQuery` and
-- `Fragment`.
pub record Url : Type 0 where
  pub scheme : String
  pub host : String
  pub hostname : String
  pub has_user : Bool
  pub path : String
  pub query : String
  pub fragment : String

-- `url.Parse`; the host of `net.SplitHostPort`; and `net.ParseIP`, with `IsLoopback` of the address
-- if it is one.
pub record Addresses : Type 0 where
  pub parse_url : String → Option Url
  pub split_host : String → Option String
  pub parse_ip : String → Option Bool

-- `ip != nil && ip.IsLoopback()`
abbrev pub is_loopback_ip : Option Bool → Bool
is_loopback_ip none = false
is_loopback_ip (some b) = b

-- A text that is the literal of a loopback address.
abbrev pub IsLoopback : Addresses → String → Type 0
IsLoopback net host = net.parse_ip host ≡ some true

pub is_loopback_ip-some : (o : Option Bool) → is_loopback_ip o ≡ true → o ≡ some true
is_loopback_ip-some none h = cc
is_loopback_ip-some (some b) h = ap some h
