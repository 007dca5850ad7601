-- ===== src/Http/Examples.antt =====
-- A local listener without OAuth, a remote one with it, and a gateway with one peer.
use hyprland_computer_use.Base.{
  ◌≡◌, ◌≤◌, refl, true, false, some, [], ◌∷◌, List, length, String, string_eq, string_discrete,
  ◌==◌, nat_eq,
}
use hyprland_computer_use.Base.Result.{ok, error}
use hyprland_computer_use.Base.Addresses.{Url, Addresses}
use hyprland_computer_use.Http.Origin.{
  HttpFlags, start_http, must_be_loopback, HttpRequest, handle_request, refused_with, served,
}
use hyprland_computer_use.Http.Guarded.{IsSafeServer, IsGuarded, start_http-IsGuarded}
use hyprland_computer_use.Http.Peers.{
  GatewayStep, admits, serves, answers, run_gateway, new_gateway,
}
use hyprland_computer_use.Http.Peers.Bounded.{run_gateway-bound}

-- Every URL is that of one secure host, and one address is the loopback's.
abbrev secure_url : Url
secure_url = record {
  scheme = "https";
  host = "x";
  hostname = "x";
  has_user = false;
  path = "/";
  query = "";
  fragment = "";
}

abbrev local_net : Addresses
local_net = record {
  parse_url = λ u. some secure_url;
  split_host = λ a. some "0.0.0.0";
  parse_ip = λ a. some (a == "127.0.0.1");
}

abbrev remote : HttpFlags
remote = record { addr = "0.0.0.0:443"; public = "https://x/"; oauth = true; cert = "c"; key = "k" }

starts_remote : start_http local_net remote ≡ ok ("x", "https://x")
unfolding start_http string_eq
starts_remote = refl

refuses_open : start_http local_net (record remote { oauth = false }) ≡ error must_be_loopback
unfolding start_http string_eq
refuses_open = refl

abbrev post : HttpRequest
post = record { host = "x"; origin = "https://x"; is_options = false; path = "/mcp"; query = "" }

lets_through : handle_request "x" "https://x" post ≡ served 1048576
unfolding handle_request string_eq
lets_through = refl

start_http-IsGuarded_example :
    IsSafeServer local_net remote "x" "https://x" × IsGuarded local_net "x" "https://x" post 1048576
start_http-IsGuarded_example =
    start_http-IsGuarded local_net remote "x" "https://x" post 1048576 starts_remote lets_through

abbrev steps : List GatewayStep
steps = admits true ∷ serves 0 "p" ∷ answers 0 ∷ admits true ∷ []

one_peer : length (run_gateway steps new_gateway).peers ≡ 2
unfolding run_gateway hyprland_computer_use.Base.Dict.lookup new_gateway
    hyprland_computer_use.Base.Dict.insert nat_eq
one_peer = refl

run_gateway-bound_example : length (run_gateway steps new_gateway).peers ≤ 64
run_gateway-bound_example = run_gateway-bound steps

wrong_host :
    handle_request "a" "https://a"
      (record { host = "b"; origin = ""; is_options = false; path = "/mcp"; query = "" })
    ≡ refused_with 403
unfolding handle_request string_eq
wrong_host = refl
