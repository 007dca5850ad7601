-- ===== src/Broker/Cleanup.antt =====
-- internal/app/broker.go: `cleanupGuard` and `retryRevocations`. The compositor guard is outside
-- the Go program: each call to it takes the guard's reply as an argument.
use hyprland_computer_use.Base.{ℕ, ◌+◌, String, ◌<>◌, ◌||◌, List, [], ◌∷◌, ltb, eqb}
use hyprland_computer_use.Base.{if◌then◌else◌, string_eq, length, is_some}
use hyprland_computer_use.Base.Dict.{Dict, lookup, insert, erase}
use hyprland_computer_use.Broker.State.{GuardOp, Broker, note, second}

pub data Reply : Type 0 where
  done : Reply
  failed : String → Reply

-- `fmt.Sprint(q["op"], ":", q["token"])`
unfoldable pub revocation_key : GuardOp → String
revocation_key (GuardOp.revoke token) = "revoke:" <> token
revocation_key GuardOp.clear = "clear:<nil>"

-- The guard refused, or did not answer.
unfoldable pub cleanup_failed : ℕ → GuardOp → String → Broker → Broker
unfolding note revocation_key
cleanup_failed now q e b =
    let key = revocation_key q in
    let text = key <> ": " <> e <> "; retrying; compositor lease expiry is the backstop" in
    let b' =
      if is_some (lookup key b.pending_revocations)
      then b
      else note now "revocation_unconfirmed" text b in
    record b' {
      pending_revocations = insert key q b'.pending_revocations;
      next_revocation_retry = now + second;
    }

-- The guard confirmed.
unfoldable pub cleanup_done : ℕ → GuardOp → Broker → Broker
unfolding note revocation_key
cleanup_done now GuardOp.clear b =
    let b' =
      if ltb 0 (length b.pending_revocations)
      then note now "revocation_confirmed" "clear" b
      else b in
    record b' { pending_revocations = [] }
cleanup_done now (GuardOp.revoke token) b =
    let key = revocation_key (GuardOp.revoke token) in
    if is_some (lookup key b.pending_revocations)
    then note now "revocation_confirmed" key
        (record b { pending_revocations = erase key b.pending_revocations })
    else b

unfoldable pub cleanup_guard : ℕ → GuardOp → Reply → Broker → Broker
unfolding cleanup_failed cleanup_done
cleanup_guard now q done b = cleanup_done now q b
cleanup_guard now q (failed e) b = cleanup_failed now q e b

abbrev pub ops : Dict String GuardOp → List GuardOp
ops [] = []
ops ((k, q) ∷ d) = q ∷ ops d

-- The snapshot that `retryRevocations` takes: nothing before the next retry is due.
unfoldable pub retry_due : ℕ → Broker → List GuardOp
retry_due now b =
    if eqb (length b.pending_revocations) 0 || ltb now b.next_revocation_retry
    then []
    else ops b.pending_revocations

unfoldable pub cleanup_all : ℕ → (GuardOp → Reply) → List GuardOp → Broker → Broker
unfolding cleanup_guard
cleanup_all now reply [] b = b
cleanup_all now reply (q ∷ qs) b = cleanup_all now reply qs (cleanup_guard now q (reply q) b)

unfoldable pub retry_revocations : ℕ → (GuardOp → Reply) → Broker → Broker
unfolding retry_due cleanup_all
retry_revocations now reply b = cleanup_all now reply (retry_due now b) b

-- `clearBackend`
unfoldable pub clear_backend : ℕ → Reply → Broker → Broker
unfolding cleanup_guard
clear_backend now reply b = if b.has_backend then cleanup_guard now GuardOp.clear reply b else b
