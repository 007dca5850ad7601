-- ===== src/Http/Peers/Bounded.antt =====
-- The gateway never has more than 64 peers and reservations (internal/app/http.go).
use mathlib.Core.Option
use mathlib.Core.Path.{subst}
use hyprland_computer_use.Base.{
  is_some, ℕ, ◌≡◌, ◌≤◌, refl, sym, ap, ◌∙◌, arith, String, Bool, true, false, Option, none, some,
  List, [], ◌∷◌, length, string_eq, nat_eq,
}
use hyprland_computer_use.Base.Dict.{
  lookup, lookup-insert, lookup-erase, lookup-map_values, length-insert, length-insert_old,
  length-erase, length-map_values,
}
use hyprland_computer_use.Http.Peers.{
  Peer, Gateway, GatewayStep, admits, serves, answers, ends, revokes, admit, serve_if, answer_if,
  end_if, cancel_if, revoke_principal, gateway_step, run_gateway, new_gateway,
}

-- A request whose reservation was not consumed has one, and no ID was drawn that is to come.
pub record IsBounded (g : Gateway) : Type 0 where
  pub few : length g.peers ≤ 64
  pub place : (id : ℕ) → lookup id g.admissions ≡ some false → lookup id g.peers ≡ some none

admit-IsBounded : (draws : Bool) (g : Gateway) → IsBounded g → IsBounded (admit draws g).1
unfolding admit
admit-IsBounded false g h = h
admit-IsBounded true g h = record {
  few = ground (arith, h.few, length-insert g.next_id none g.peers);
  place = λ id e. ground (
    arith,
    h.place id,
    lookup-insert id g.next_id none g.peers,
    lookup-insert id g.next_id false g.admissions,
  );
}

serve_if-IsBounded :
    (id : ℕ) (principal : String) (a : Option Bool) (g : Gateway)
    → lookup id g.admissions ≡ a
    → IsBounded g
    → IsBounded (serve_if id principal a g)
serve_if-IsBounded id principal none g e h = h
serve_if-IsBounded id principal (some true) g e h = h
serve_if-IsBounded id principal (some false) g e h =
    let peer : Option Peer = some (record { principal = principal; cancelled = false }) in
    record {
      few =
          subst (λ n. n ≤ 64) (sym (length-insert_old id peer g.peers (ap is_some (h.place id e))))
            h.few;
      place = λ j k.
          ground (
            arith,
            h.place j,
            lookup-insert j id peer g.peers,
            lookup-insert j id true g.admissions,
          );
    }

answer_if-IsBounded :
    (id : ℕ) (a : Option Bool) (g : Gateway) → IsBounded g → IsBounded (answer_if id a g)
answer_if-IsBounded id none g h = h
answer_if-IsBounded id (some true) g h = record {
  few = h.few;
  place = λ j k. ground (arith, h.place j, lookup-erase j id g.admissions);
}
answer_if-IsBounded id (some false) g h = record {
  few = omega (arith, h.few, length-erase id g.peers);
  place =
      λ j k. ground (arith, h.place j, lookup-erase j id g.admissions, lookup-erase j id g.peers);
}

end_if-IsBounded :
    (id : ℕ) (p : Option (Option Peer)) (g : Gateway)
    → lookup id g.peers ≡ p
    → IsBounded g
    → IsBounded (end_if id p g)
end_if-IsBounded id none g e h = h
end_if-IsBounded id (some none) g e h = h
end_if-IsBounded id (some (some p)) g e h = record {
  few = omega (arith, h.few, length-erase id g.peers);
  place = λ j k. ground (arith, h.place j, e, lookup-erase j id g.peers);
}

revoke_principal-IsBounded :
    (principal : String) (g : Gateway) → IsBounded g → IsBounded (revoke_principal principal g)
unfolding revoke_principal
revoke_principal-IsBounded principal g h = record {
  few = omega (arith, h.few, length-map_values (cancel_if principal) g.peers);
  place = λ j k.
      lookup-map_values (cancel_if principal) j g.peers
      ∙ ap (Option.map (cancel_if principal)) (h.place j k);
}

gateway_step-IsBounded :
    (s : GatewayStep) (g : Gateway) → IsBounded g → IsBounded (gateway_step s g)
unfolding gateway_step
gateway_step-IsBounded (admits draws) g h = admit-IsBounded draws g h
gateway_step-IsBounded (serves id principal) g h =
    serve_if-IsBounded id principal (lookup id g.admissions) g refl h
gateway_step-IsBounded (answers id) g h = answer_if-IsBounded id (lookup id g.admissions) g h
gateway_step-IsBounded (ends id) g h = end_if-IsBounded id (lookup id g.peers) g refl h
gateway_step-IsBounded (revokes principal) g h = revoke_principal-IsBounded principal g h

run_gateway-IsBounded :
    (steps : List GatewayStep) (g : Gateway) → IsBounded g → IsBounded (run_gateway steps g)
unfolding run_gateway
run_gateway-IsBounded [] g h = h
run_gateway-IsBounded (s ∷ steps) g h =
    run_gateway-IsBounded steps (gateway_step s g) (gateway_step-IsBounded s g h)

-- After any steps of a new gateway, in any order, it has at most 64 peers, reservations included:
-- `newServer` finds the place that `admitMCP` has reserved, for a request that is still served.
pub run_gateway-bound :
    (steps : List GatewayStep) → length (run_gateway steps new_gateway).peers ≤ 64
unfolding new_gateway lookup
run_gateway-bound steps =
    (run_gateway-IsBounded steps new_gateway (record { few = omega arith; place = λ id e. cc })).few
