-- ===== src/Broker/Scope.antt =====
-- internal/app/broker.go: `validScope`, `grantMatches` and `allowedLocked`.
use hyprland_computer_use.Base.{
  ℕ, String, len, Bool, true, false, not, ◌&&◌, ◌||◌, Option, none, some, ltb, leb, eqb,
}
use hyprland_computer_use.Base.{if◌then◌else◌, ◌==◌, string_eq, length}
use hyprland_computer_use.Base.Dict.{find_value}
use hyprland_computer_use.Base.Text.{sprint}
use hyprland_computer_use.Broker.State.{
  Capability, observe, control, recording, launch, workspace, window, application, Scope, Window,
  Grant, Broker, yolo,
}
use hyprland_computer_use.Broker.State.{capability_eq, kind_eq, scope_eq, mode_eq}

-- The errors of the broker's operations, one for each message; `guard_failed` carries the guard's.
pub data Error : Type 0 where
  invalid_scope_id observe_scope window_scope application_scope unknown_capability : Error
  supervisor_unavailable paused_by_user revocation_unconfirmed too_many_requests : Error
  random_failed not_pending cannot_grant bad_duration : Error
  target_unavailable target_closed request_changed : Error
  share_capability resume_first no_client unknown_client no_window : Error
  picker_expired sharing_paused recipient_changed select_client not_offered window_moved : Error
  picker_changed windows_failed : Error
  guard_failed : String → Error

-- `validScope`: the error, or none.
unfoldable pub valid_scope : Capability → Scope → Option Error
valid_scope capability s =
    if leb (len s.id) 0 || ltb 80 (len s.id) then some invalid_scope_id else elim capability [
      | observe ↦ if s.kind == workspace || s.kind == window then none else some observe_scope
      | control ↦ if s.kind == window then none else some window_scope
      | recording ↦ if s.kind == window then none else some window_scope
      | launch ↦ if s.kind == application then none else some application_scope
      | Capability.other c ↦ some unknown_capability
    ]

-- `w != nil && fmt.Sprint(w.Workspace.ID) == id`
abbrev pub in_workspace : Option Window → String → Bool
in_workspace none id = false
in_workspace (some w) id = sprint w.workspace == id

-- `grantMatches`
unfoldable pub grant_matches : Grant → String → Capability → Scope → Option Window → Bool
grant_matches g client capability scope w =
    if not (g.client == client)
    then false
    else if not (g.capability == capability)
        && not (capability == observe && (g.capability == control || g.capability == recording))
    then false
    else if g.scope == scope
    then true
    else capability == observe
      && (scope.kind == window && (g.scope.kind == workspace && in_workspace w g.scope.id))

-- `b.paused || b.uiCount == 0 || len(b.pendingRevocations) > 0`
abbrev pub is_closed : Broker → Bool
is_closed b = b.paused || (eqb b.ui_count 0 || ltb 0 (length b.pending_revocations))

-- `allowedLocked`: none if it is not allowed; the grant that allows it, or none in yolo mode.
unfoldable pub allowed :
    ℕ → String → Capability → Scope → Option Window → Broker → Option (Option Grant)
allowed now client capability s w b =
    if is_closed b
    then none
    else if b.mode == yolo
    then some none
    else elim (find_value (λ g. ltb now g.expires && grant_matches g client capability s w)
        b.grants) [ none ↦ none | some g ↦ some (some g) ]
