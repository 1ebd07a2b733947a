-- ===== src/Permissions/Authorize/Roles.antt =====
-- packages/permissions/src/authorize.ts: who may assign roles, and how far a resident reaches.
use mathlib.Core.List.{Memᴰ}
use manglam_balaji_managemen.Js.Text.{trimmed_length}
use manglam_balaji_managemen.Permissions.Authorize.{
  AuthorizationActor, AuthorizationRequest, AuthorizationDecision, AuthorizationResource, allowed,
  denied, authorize, can_assign_role, role_request, restrict_role, is_administrator, scope_matches,
  is_among, includes_id, is_id,
}
use manglam_balaji_managemen.Permissions.Authorize.Laws.{authorize-allowed, authorize-scope}
use manglam_balaji_managemen.Permissions.Authorize.Scopes.{Holds}
use manglam_balaji_managemen.Permissions.Authorize.Loops.{not_in_nil}
use manglam_balaji_managemen.Permissions.Catalog.{
  RoleName, RoleName-discrete, PermissionScopeKind, PermissionAction, PermissionAction-discrete,
  permission_by_action,
}
use manglam_balaji_managemen.Permissions.Policies.Laws.{IsResident, is_own_scope, resident_scopes}
use manglam_balaji_managemen.Prelude.{
  ◌≤◌, ◌≡◌, inl, inr, refl, subst, Bool, true, false, List, [], String, some, arith, includes,
  includes→mem, mem→includes, ap, ◌⊎◌, not, ◌&&◌, ◌||◌, any, if◌then◌else◌,
}

not_refused :
    (has admin : Bool) (d e f : AuthorizationDecision)
    → (d ≡ f → ⊥)
    → (if not has && admin then d else e) ≡ f
    → (e ≡ f) × (admin ≡ true → has ≡ true)
not_refused true admin d e f no_d h = (h, λ _. refl)
not_refused false true d e f no_d h = absurd (no_d h)
not_refused false false d e f no_d h = (h, λ k. k)

restrict_role-allowed :
    (roles : List RoleName) (target : RoleName) (d : AuthorizationDecision) (a : PermissionAction)
    (s : PermissionScopeKind)
    → restrict_role roles target d ≡ allowed a s
    → (d ≡ allowed a s)
      × (is_administrator target ≡ true
          → includes RoleName-discrete roles RoleName.super_admin ≡ true)
restrict_role-allowed roles target (denied _ _) a s h = cc
restrict_role-allowed roles target (allowed _ _) a s h =
    not_refused _ _ _ _ (allowed a s) (λ e. cc) h

super_only :
    (roles : List RoleName) (target : RoleName)
    → (is_administrator target ≡ true
        → includes RoleName-discrete roles RoleName.super_admin ≡ true)
    → (target ≡ RoleName.society_admin) ⊎ (target ≡ RoleName.super_admin)
    → Memᴰ RoleName.super_admin roles
super_only roles target need (inl e) =
    includes→mem RoleName-discrete roles RoleName.super_admin (need (ap is_administrator e))
super_only roles target need (inr e) =
    includes→mem RoleName-discrete roles RoleName.super_admin (need (ap is_administrator e))

not_among_denied :
    (actions : List PermissionAction) (a : PermissionAction)
    → includes PermissionAction-discrete actions a ≡ false
    → ¬ (Memᴰ a actions)
not_among_denied actions a h m =
    absurd (ground (arith, mem→includes PermissionAction-discrete actions m))

-- A role is assigned only by an active actor that was not denied `role.manage`, holds a scope for it,
-- has authenticated recently and gives a reason of three characters or more, and the roles
-- `SOCIETY_ADMIN` and `SUPER_ADMIN` are assigned only by a holder of `SUPER_ADMIN`.
pub can_assign_role-guarded :
    (actor : AuthorizationActor) (target : RoleName) (reason : String) (recent : Bool)
    (a : PermissionAction) (s : PermissionScopeKind)
    → can_assign_role actor target reason recent ≡ allowed a s
    → (a ≡ PermissionAction.role_manage)
      × Holds actor PermissionAction.role_manage s
      × (actor.active ≡ true)
      × (¬ (Memᴰ PermissionAction.role_manage actor.denied_actions))
      × (recent ≡ true)
      × (3 ≤ trimmed_length (some reason))
      × ((target ≡ RoleName.society_admin) ⊎ (target ≡ RoleName.super_admin)
          → Memᴰ RoleName.super_admin actor.roles)
unfolding can_assign_role permission_by_action
can_assign_role-guarded actor target reason recent a s h =
    let (d, super) = restrict_role-allowed actor.roles target _ a s h in
    let r = role_request actor reason recent in
    let (e, entitled, _) = authorize-allowed r a s d in
    let (_, (held, _), _) = authorize-scope r a s d in
    (
      e,
      held,
      entitled.active,
      not_among_denied actor.denied_actions PermissionAction.role_manage entitled.not_denied,
      entitled.recent refl,
      entitled.reason refl,
      super_only actor.roles target super,
    )

-- Every role of the actor is a resident's, and it has no direct grants.
pub record OnlyResident (actor : AuthorizationActor) : Type 0 where
  pub resident : (role : RoleName) → Memᴰ role actor.roles → IsResident role
  pub no_grants : actor.direct_grants ≡ []

-- What `scope_matches` tests for such a scope.
abbrev pub is_within_reach : AuthorizationActor → AuthorizationResource → Bool
is_within_reach actor resource =
    is_id resource.owner_user_id actor.user_id
    || is_among resource.flat_id actor.active_flat_ids
    || includes_id resource.target_user_ids actor.user_id
    || any (includes_id actor.active_flat_ids) resource.target_flat_ids

reaches :
    (actor : AuthorizationActor) (resource : AuthorizationResource) (s : PermissionScopeKind)
    → is_own_scope s ≡ true
    → scope_matches s actor resource ≡ true
    → is_within_reach actor resource ≡ true
unfolding scope_matches
reaches actor resource PermissionScopeKind.self own fits = ground (arith, fits)
reaches actor resource PermissionScopeKind.active_flat own fits = ground (arith, fits)
reaches actor resource PermissionScopeKind.targeted own fits = ground (arith, fits)
reaches actor resource PermissionScopeKind.assigned_gate own fits = cc
reaches actor resource PermissionScopeKind.assigned_complaint own fits = cc
reaches actor resource PermissionScopeKind.society own fits = cc

held_own :
    (actor : AuthorizationActor) (action : PermissionAction) (s : PermissionScopeKind)
    → OnlyResident actor
    → Holds actor action s
    → is_own_scope s ≡ true
held_own actor action s only (inl r) =
    resident_scopes r.role action s (only.resident r.role r.held) r.grants
held_own actor action s only (inr g) =
    absurd (not_in_nil (subst (λ gs. Memᴰ g.grant gs) only.no_grants g.held))

-- An actor whose roles are all a resident's, with no direct grants, is allowed nothing outside the
-- society and only on a resource that it owns, that belongs to one of its active flats, or that is
-- addressed to it or to one of these flats.
pub resident-isolated :
    (r : AuthorizationRequest) (a : PermissionAction) (s : PermissionScopeKind)
    → OnlyResident r.actor
    → authorize r ≡ allowed a s
    → (r.resource.society_id ≡ r.actor.society_id) × (is_within_reach r.actor r.resource ≡ true)
resident-isolated r a s only h =
    let (_, entitled, _) = authorize-allowed r a s h in
    let (_, (held, fits), _) = authorize-scope r a s h in
    (
      entitled.same_society,
      reaches r.actor r.resource s (held_own r.actor r.action s only held) fits,
    )
