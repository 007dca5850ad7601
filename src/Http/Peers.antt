-- ===== src/Http/Peers.antt =====
-- The peers of the gateway of internal/app/http.go: `admitMCP`, `newServer`, the goroutine of a peer
-- and `revokePrincipal`, as the steps of one machine. An ID is the number of its drawing:
-- `randomID` does not repeat.
pub mod Bounded
use hyprland_computer_use.Base.{
  ℕ, suc, ◌+◌, String, Bool, true, false, Option, none, some, List, [], ◌∷◌, length, leb,
  if◌then◌else◌, ◌==◌, string_eq, nat_eq,
}
use hyprland_computer_use.Base.Dict.{Dict, lookup, insert, erase, map_values}

pub record Peer : Type 0 where
  pub principal : String
  pub cancelled : Bool

-- A reservation is a peer that is not there yet. `admissions` are the requests that are being
-- served, and whether `newServer` has consumed their reservation.
pub record Gateway : Type 0 where
  pub peers : Dict ℕ (Option Peer)
  pub admissions : Dict ℕ Bool
  pub next_id : ℕ

pub data GatewayStep : Type 0 where
  -- A request that may create a peer arrives; `draws` says whether the random source works.
  admits : (draws : Bool) → GatewayStep
  -- The SDK asks for the server of an admitted request.
  serves : (id : ℕ) (principal : String) → GatewayStep
  -- The request is answered.
  answers : ℕ → GatewayStep
  -- The goroutine of a peer ends.
  ends : ℕ → GatewayStep
  revokes : String → GatewayStep

pub data Admitted : Type 0 where
  no_random_id at_capacity : Admitted
  admitted : ℕ → Admitted

-- The reservation of `admitMCP`.
unfoldable pub admit : Bool → Gateway → Admitted × Gateway
admit false g = (no_random_id, g)
admit true g =
    let drawn = record g { next_id = suc g.next_id } in
    if leb 64 (length g.peers) then (at_capacity, drawn) else (
      admitted g.next_id,
      record drawn {
        peers = insert g.next_id none g.peers;
        admissions = insert g.next_id false g.admissions;
      },
    )

-- `newServer`: nothing if the admission was consumed.
abbrev pub serve_if : ℕ → String → Option Bool → Gateway → Gateway
serve_if id principal none g = g
serve_if id principal (some true) g = g
serve_if id principal (some false) g = record g {
  peers = insert id (some (record { principal = principal; cancelled = false })) g.peers;
  admissions = insert id true g.admissions;
}

-- The deferred function of `admitMCP`: a reservation that was not consumed is given up.
abbrev pub answer_if : ℕ → Option Bool → Gateway → Gateway
answer_if id none g = g
answer_if id (some true) g = record g { admissions = erase id g.admissions }
answer_if id (some false) g = record g {
  peers = erase id g.peers;
  admissions = erase id g.admissions;
}

-- The end of a peer that is there.
abbrev pub end_if : ℕ → Option (Option Peer) → Gateway → Gateway
end_if id (some (some p)) g = record g { peers = erase id g.peers }
end_if id p g = g

abbrev pub cancel_if : String → Option Peer → Option Peer
cancel_if principal none = none
cancel_if principal (some p) =
    if p.principal == principal then some (record p { cancelled = true }) else some p

-- `revokePrincipal`
unfoldable pub revoke_principal : String → Gateway → Gateway
revoke_principal principal g = record g { peers = map_values (cancel_if principal) g.peers }

unfoldable pub gateway_step : GatewayStep → Gateway → Gateway
unfolding admit revoke_principal
gateway_step (admits draws) g = (admit draws g).1
gateway_step (serves id principal) g = serve_if id principal (lookup id g.admissions) g
gateway_step (answers id) g = answer_if id (lookup id g.admissions) g
gateway_step (ends id) g = end_if id (lookup id g.peers) g
gateway_step (revokes principal) g = revoke_principal principal g

unfoldable pub run_gateway : List GatewayStep → Gateway → Gateway
unfolding gateway_step
run_gateway [] g = g
run_gateway (s ∷ steps) g = run_gateway steps (gateway_step s g)

unfoldable pub new_gateway : Gateway
new_gateway = record { peers = []; admissions = []; next_id = 0 }
