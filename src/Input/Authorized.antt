-- ===== src/Input/Authorized.antt =====
-- Every request of a batch was allowed when it was sent (internal/app/desktop.go).
use hyprland_computer_use.Base.{
  ◌+◌, length, sym, ◌∙◌, ℕ, suc, ◌≡◌, ◌≢◌, refl, Option, none, some, List, [], ◌∷◌, All, All-append,
  if_both,
}
use hyprland_computer_use.Actions.Keys.{key_spec}
use hyprland_computer_use.Surfaces.{Floats}
use hyprland_computer_use.Broker.State.{Broker, Grant}
use hyprland_computer_use.Input.Guard.{GuardError, Seats, guard}
use hyprland_computer_use.Input.Pointer.{
  Action, ActionType, focus, move, click, drag, scroll, key, text, other_type,
}
use hyprland_computer_use.Input.Deliver.{
  focus_window, pointer_transaction, pointer_request, key_request, query_of, waited, handed,
  chunk_sent, text_transaction, text_chunks, Acted, acted, Delivery, Session, Turn, Sent,
  GuardRequest, SendError, may_send, send, checked, send_chunks, send_action, send_actions,
}

some_not_none : {A : Type 0} {a : A} → some a ≢ none
some_not_none h = cc

module _ (f : Floats) (s : Session) where
  -- The client could control the window under the state of the broker that was looked at, and the
  -- request carries the lease and the geometry of the batch.
  abbrev pub IsAuthorized : Sent f → Type 0
  IsAuthorized x =
      (may_send s x.time x.under ≢ none)
      × (x.message.token ≡ s.token)
      × (x.message.revision ≡ s.revision)
      × (x.message.surface ≡ s.surface)

  abbrev pub AllAuthorized : Delivery f → Type 0
  AllAuthorized d = All IsAuthorized d.sent

-- What the waiting and each allowed request preserve is preserved by the whole batch.
module _ (f : Floats) (s : Session) (P : Delivery f → Type 0)
    (waits : (b : Broker) (d : Delivery f) → P d → P (waited f b d))
    (hands : (t : Turn) (q : GuardRequest f) (b : Broker) (r : Option GuardError × Seats)
        (d : Delivery f)
      → may_send s t.now b ≢ none
      → P d
      → P (handed f s t q b r d).1) where
  checked-keeps :
      (t : Turn) (q : GuardRequest f) (b : Broker) (g : Option (Option Grant)) (d : Delivery f)
      → may_send s t.now b ≡ g
      → P d
      → P (checked f s t q b g d).1
  checked-keeps t q b none d e h = waits b d h
  checked-keeps t q b (some g) d e h =
      hands t q b (guard (query_of f q) t.reply d.seats) d (λ no. some_not_none (sym e ∙ no)) h

  send-keeps :
      (turns : ℕ → Turn) (q : GuardRequest f) (d : Delivery f) → P d → P (send f s turns q d).1
  unfolding send
  send-keeps turns q d h =
      let t = turns d.turn in
      let b = t.others d.broker in
      if_both (λ (r : Option SendError × Delivery f). P r.1) t.cancelled _ _ (waits b d h)
        (checked-keeps t q b (may_send s t.now b) d refl h)

  send_chunks-keeps :
      (turns : ℕ → Turn) (cs : List (List ℕ)) (n : ℕ) (d : Delivery f)
      → P d
      → P (send_chunks f s turns cs n d).1.1
  unfolding send_chunks
  send_chunks-keeps turns [] n d h = h
  send_chunks-keeps turns (c ∷ cs) n d h =
      go (send f s turns (text_transaction c) d) (send-keeps turns (text_transaction c) d h)
        (λ d' k. send_chunks-keeps turns cs (n + length c) d' k)
    where
      go :
          (r : Option SendError × Delivery f)
          → P r.1
          → ((d' : Delivery f) → P d' → P (send_chunks f s turns cs (n + length c) d').1.1)
          → P (chunk_sent f (length c) n (send_chunks f s turns cs) r).1.1
      go (some x, d') k rest = k
      go (none, d') k rest = rest d' k

  send_action-keeps :
      (turns : ℕ → Turn) (t : ActionType) (a : Action f) (d : Delivery f)
      → P d
      → P (send_action f s turns t a d).1.1
  unfolding send_action
  send_action-keeps turns focus a d h = send-keeps turns focus_window d h
  send_action-keeps turns move a d h =
      send-keeps turns (pointer_transaction (pointer_request f a)) d h
  send_action-keeps turns click a d h =
      send-keeps turns (pointer_transaction (pointer_request f a)) d h
  send_action-keeps turns drag a d h =
      send-keeps turns (pointer_transaction (pointer_request f a)) d h
  send_action-keeps turns scroll a d h =
      send-keeps turns (pointer_transaction (pointer_request f a)) d h
  send_action-keeps turns key a d h = send-keeps turns (key_request f (key_spec a.key_name)) d h
  send_action-keeps turns text a d h = send_chunks-keeps turns (text_chunks a.runes) 0 d h
  send_action-keeps turns (other_type t) a d h = h

  send_actions-keeps :
      (turns : ℕ → Turn) (actions : List (Action f)) (i : ℕ) (d : Delivery f)
      → P d
      → P (send_actions f s turns actions i d).1
  unfolding send_actions
  send_actions-keeps turns [] i d h = h
  send_actions-keeps turns (a ∷ actions) i d h =
      go (send_action f s turns a.type a d) (send_action-keeps turns a.type a d h)
        (λ d' k. send_actions-keeps turns actions (suc i) d' k)
    where
      go :
          (r : Acted f)
          → P r.1.1
          → ((d' : Delivery f) → P d' → P (send_actions f s turns actions (suc i) d').1)
          → P (acted f i (send_actions f s turns actions) r).1
      go (some x, (n, d')) k rest = k
      go (none, (n, d')) k rest = rest d' k

-- Every request of a batch that was handed to the guard, after those that were before it, was
-- checked: the client could control the window at the time and under the state of the broker that
-- the check saw, whatever other goroutines did between the requests. It carries the lease, the
-- geometry revision and the surface of the batch.
pub send_actions-AllAuthorized :
    (f : Floats) (s : Session) (turns : ℕ → Turn) (actions : List (Action f)) (i : ℕ)
    (d : Delivery f)
    → AllAuthorized f s d
    → AllAuthorized f s (send_actions f s turns actions i d).1
send_actions-AllAuthorized f s turns actions i d h =
    send_actions-keeps f s (AllAuthorized f s) (λ b d' k. k)
      (λ t q b r d' may k. All-append (IsAuthorized f s) d'.sent _ k ((may, refl, refl, refl), tt))
      turns actions i d h
