-- ===== src/Input/Plan.antt =====
-- The requests that an input batch asks for, as a list, and the sending of it as the sending of
-- that list up to the first error (internal/app/desktop.go).
use hyprland_computer_use.Actions.Keys.{key_spec}
use hyprland_computer_use.Base.{
  ℕ, ◌+◌, ◌≡◌, refl, sym, ap, ◌∙◌, Option, none, some, List, [], ◌∷◌, ◌++◌, map, length, if_both,
}
use hyprland_computer_use.Surfaces.{Floats}
use hyprland_computer_use.Broker.State.{Broker, Grant}
use hyprland_computer_use.Input.Guard.{GuardError, Seats, guard}
use hyprland_computer_use.Input.Pointer.{
  Action, ActionType, focus, move, click, drag, scroll, key, text, other_type,
}
use hyprland_computer_use.Input.Deliver.{
  Sent, alone, waited, context_ended, permission_revoked, Delivery, Session, Turn, GuardRequest,
  SendError, focus_window, pointer_transaction, pointer_request, key_request, text_transaction,
  text_chunks, may_send, send, query_of, handed, checked, chunk_sent, send_chunks, Acted,
  send_action,
}
use mathlib.Core.List.{append_assoc, append-nil, map-append}

module _ (f : Floats) where
  abbrev pub texts : List (List ℕ) → List (GuardRequest f)
  texts [] = []
  texts (c ∷ cs) = text_transaction c ∷ texts cs

  -- The requests of one action.
  abbrev pub requests_of : ActionType → Action f → List (GuardRequest f)
  requests_of focus a = focus_window ∷ []
  requests_of key a = key_request f (key_spec a.key_name) ∷ []
  requests_of text a = texts (text_chunks a.runes)
  requests_of (other_type t) a = []
  requests_of move a = pointer_transaction (pointer_request f a) ∷ []
  requests_of click a = pointer_transaction (pointer_request f a) ∷ []
  requests_of drag a = pointer_transaction (pointer_request f a) ∷ []
  requests_of scroll a = pointer_transaction (pointer_request f a) ∷ []

  abbrev pub plan : List (Action f) → List (GuardRequest f)
  plan [] = []
  plan (a ∷ actions) = requests_of a.type a ++ plan actions

  -- What has been handed to the guard.
  abbrev pub requests_sent : Delivery f → List (GuardRequest f)
  requests_sent d = map (λ x. x.message.request) d.sent

  -- All of `wanted` is sent if there is no error, and a first part of it if there is one.
  abbrev pub Sends {ℓ} :
      {E : Type ℓ} → List (GuardRequest f) → Delivery f → Option E → Delivery f → Type 0
  Sends wanted d none d' = requests_sent d' ≡ requests_sent d ++ wanted
  Sends wanted d (some x) d' =
      (front : List (GuardRequest f)) × (rest : List (GuardRequest f)) × (wanted ≡ front ++ rest)
      × (requests_sent d' ≡ requests_sent d ++ front)

  nothing_sent :
      {E : Type 0} (wanted : List (GuardRequest f)) (d d' : Delivery f) (x : E)
      → requests_sent d' ≡ requests_sent d
      → Sends wanted d (some x) d'
  nothing_sent wanted d d' x h = ([], wanted, refl, h ∙ sym (append-nil (requests_sent d)))

  abbrev After : List (GuardRequest f) → Delivery f → Option SendError × Delivery f → Type 0
  After wanted d (e, d') = Sends wanted d e d'

  handed-Sends :
      (s : Session) (t : Turn) (q : GuardRequest f) (b : Broker) (r : Option GuardError × Seats)
      (d : Delivery f)
      → After (q ∷ []) d (handed f s t q b r d)
  handed-Sends s t q b (none, seats) d = map-append (λ (x : Sent f). x.message.request) d.sent _
  handed-Sends s t q b (some x, seats) d =
      (q ∷ [], [], refl, map-append (λ (x : Sent f). x.message.request) d.sent _)

  checked-Sends :
      (s : Session) (t : Turn) (q : GuardRequest f) (b : Broker) (g : Option (Option Grant))
      (d : Delivery f)
      → After (q ∷ []) d (checked f s t q b g d)
  checked-Sends s t q b none d = nothing_sent (q ∷ []) d (waited f b d) permission_revoked refl
  checked-Sends s t q b (some g) d = handed-Sends s t q b (guard (query_of f q) t.reply d.seats) d

  send-Sends :
      (s : Session) (turns : ℕ → Turn) (q : GuardRequest f) (d : Delivery f)
      → After (q ∷ []) d (send f s turns q d)
  unfolding send
  send-Sends s turns q d =
      let t = turns d.turn in
      let b = t.others d.broker in
      if_both (After (q ∷ []) d) t.cancelled _ _
        (nothing_sent (q ∷ []) d (waited f b d) context_ended refl)
        (checked-Sends s t q b (may_send s t.now b) d)

  -- First `some`, and then what comes after if there was no error.
  pub then-Sends :
      {E : Type 0} (first second : List (GuardRequest f)) (d d' d'' : Delivery f) (e : Option E)
      → requests_sent d' ≡ requests_sent d ++ first
      → Sends second d' e d''
      → Sends (first ++ second) d e d''
  then-Sends first second d d' d'' none h k =
      k
      ∙ ap (λ (t : List (GuardRequest f)). t ++ second) h
      ∙ append_assoc (requests_sent d) first second
  then-Sends first second d d' d'' (some x) h (front, rest, same, k) = (
    first ++ front,
    rest,
    ap (λ (t : List (GuardRequest f)). first ++ t) same ∙ sym (append_assoc first front rest),
    k
        ∙ ap (λ (t : List (GuardRequest f)). t ++ front) h
        ∙ append_assoc (requests_sent d) first front,
  )

  stops :
      {E : Type 0} (first second : List (GuardRequest f)) (d d' : Delivery f) (x : E)
      → Sends first d (some x) d'
      → Sends (first ++ second) d (some x) d'
  stops first second d d' x (front, rest, same, k) = (
    front,
    rest ++ second,
    ap (λ (t : List (GuardRequest f)). t ++ second) same ∙ append_assoc front rest second,
    k,
  )

  abbrev pub Performs : List (GuardRequest f) → Delivery f → Acted f → Type 0
  Performs wanted d (e, (n, d')) = Sends wanted d e d'

  send_chunks-Performs :
      (s : Session) (turns : ℕ → Turn) (cs : List (List ℕ)) (n : ℕ) (d : Delivery f)
      → Performs (texts cs) d (send_chunks f s turns cs n d)
  unfolding send_chunks
  send_chunks-Performs s turns [] n d = sym (append-nil (requests_sent d))
  send_chunks-Performs s turns (c ∷ cs) n d =
      go (send f s turns (text_transaction c) d) (send-Sends s turns (text_transaction c) d)
        (λ d'. send_chunks-Performs s turns cs (n + length c) d')
    where
      go :
          (r : Option SendError × Delivery f)
          → After (text_transaction c ∷ []) d r
          → ((d' : Delivery f)
              → Performs (texts cs) d' (send_chunks f s turns cs (n + length c) d'))
          → Performs
              (text_transaction c ∷ texts cs)
              d
              (chunk_sent f (length c) n (send_chunks f s turns cs) r)
      go (some x, d') h rest = stops (text_transaction c ∷ []) (texts cs) d d' x h
      go (none, d') h rest =
          let (e, (m, d'')) = send_chunks f s turns cs (n + length c) d' in
          then-Sends (text_transaction c ∷ []) (texts cs) d d' _ _ h (rest d')

  alone-Performs :
      (wanted : List (GuardRequest f)) (d : Delivery f) (r : Option SendError × Delivery f)
      → After wanted d r
      → Performs wanted d (alone f r)
  alone-Performs wanted d (e, d') h = h

  pub send_action-Performs :
      (s : Session) (turns : ℕ → Turn) (t : ActionType) (a : Action f) (d : Delivery f)
      → Performs (requests_of t a) d (send_action f s turns t a d)
  unfolding send_action
  send_action-Performs s turns focus a d = send-Sends s turns focus_window d
  send_action-Performs s turns move a d =
      send-Sends s turns (pointer_transaction (pointer_request f a)) d
  send_action-Performs s turns click a d =
      send-Sends s turns (pointer_transaction (pointer_request f a)) d
  send_action-Performs s turns drag a d =
      send-Sends s turns (pointer_transaction (pointer_request f a)) d
  send_action-Performs s turns scroll a d =
      send-Sends s turns (pointer_transaction (pointer_request f a)) d
  send_action-Performs s turns key a d = send-Sends s turns (key_request f (key_spec a.key_name)) d
  send_action-Performs s turns text a d = send_chunks-Performs s turns (text_chunks a.runes) 0 d
  send_action-Performs s turns (other_type t) a d = sym (append-nil (requests_sent d))
