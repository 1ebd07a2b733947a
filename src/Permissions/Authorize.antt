-- ===== src/Permissions/Authorize.antt =====
-- packages/permissions/src/authorize.ts: whether an actor may act on a resource.
pub mod Loops
pub mod Scopes
pub mod Laws
pub mod Roles
use manglam_balaji_managemen.Js.Sets.{add_all}
use manglam_balaji_managemen.Js.Text.{trimmed_length}
use manglam_balaji_managemen.Permissions.Catalog.{
  RoleName, RoleName-discrete, PermissionScopeKind, PermissionScopeKind-discrete, PermissionAction,
  PermissionAction-discrete, permission_by_action,
}
use manglam_balaji_managemen.Permissions.Policies.{role_policies, scopes_of, RolePolicy}
use manglam_balaji_managemen.Prelude.{
  Bool, true, false, not, ◌&&◌, ◌||◌, List, [], ◌∷◌, Option, none, some, String, str_eq, any, find,
  includes, same, ltb, if◌then◌else◌,
}

pub record DirectPermissionGrant : Type 0 where
  pub action : PermissionAction
  pub scopes : List PermissionScopeKind

-- The optional lists are read like empty ones when they are absent.
pub record AuthorizationActor : Type 0 where
  pub user_id : String
  pub society_id : String
  pub active : Bool
  pub roles : List RoleName
  pub active_flat_ids : List String
  pub assigned_gate_ids : List String
  pub assigned_complaint_ids : List String
  pub direct_grants : List DirectPermissionGrant
  pub denied_actions : List PermissionAction

pub record AuthorizationResource : Type 0 where
  pub society_id : String
  pub owner_user_id : Option String
  pub flat_id : Option String
  pub gate_id : Option String
  pub complaint_id : Option String
  pub assigned_to_user_id : Option String
  pub target_user_ids : List String
  pub target_flat_ids : List String

pub data AuthorizationDenialReason : Type 0 where
  actor_inactive society_mismatch action_not_granted : AuthorizationDenialReason
  scope_mismatch recent_authentication_required reason_required : AuthorizationDenialReason

pub data AuthorizationDecision : Type 0 where
  allowed : PermissionAction → PermissionScopeKind → AuthorizationDecision
  denied : PermissionAction → AuthorizationDenialReason → AuthorizationDecision

pub record AuthorizationRequest : Type 0 where
  pub actor : AuthorizationActor
  pub action : PermissionAction
  pub resource : AuthorizationResource
  pub recently_authenticated : Bool
  pub reason : Option String

-- `ids.includes(id)` on texts.
abbrev pub includes_id : List String → String → Bool
includes_id ids id = any (λ x. str_eq x id) ids

-- `id !== undefined && ids.includes(id)`
abbrev pub is_among : Option String → List String → Bool
is_among none ids = false
is_among (some id) ids = includes_id ids id

-- `id === text`, where the identifier may be undefined.
abbrev pub is_id : Option String → String → Bool
is_id none text = false
is_id (some id) text = str_eq id text

unfoldable pub scope_matches :
    PermissionScopeKind → AuthorizationActor → AuthorizationResource → Bool
scope_matches PermissionScopeKind.self actor resource = is_id resource.owner_user_id actor.user_id
scope_matches PermissionScopeKind.active_flat actor resource =
    is_among resource.flat_id actor.active_flat_ids
scope_matches PermissionScopeKind.assigned_gate actor resource =
    is_among resource.gate_id actor.assigned_gate_ids
scope_matches PermissionScopeKind.assigned_complaint actor resource =
    is_among resource.complaint_id actor.assigned_complaint_ids
    || is_id resource.assigned_to_user_id actor.user_id
scope_matches PermissionScopeKind.targeted actor resource =
    includes_id resource.target_user_ids actor.user_id
    || any (includes_id actor.active_flat_ids) resource.target_flat_ids
scope_matches PermissionScopeKind.society actor resource =
    str_eq resource.society_id actor.society_id

abbrev add_scopes : List PermissionScopeKind → List PermissionScopeKind → List PermissionScopeKind
add_scopes = add_all (same PermissionScopeKind-discrete)

-- The scopes of a direct grant that the catalogue allows for the action.
allowed_scopes : PermissionAction → List PermissionScopeKind → List PermissionScopeKind
allowed_scopes action [] = []
allowed_scopes action (scope ∷ scopes) =
    if includes PermissionScopeKind-discrete (permission_by_action action).scopes scope
    then scope ∷ allowed_scopes action scopes
    else allowed_scopes action scopes

-- The two loops of `effectiveScopes`, over the roles and over the direct grants.
pub scopes_from_roles :
    PermissionAction → List PermissionScopeKind → List RoleName → List PermissionScopeKind
scopes_from_roles action scopes [] = scopes
scopes_from_roles action scopes (role ∷ roles) =
    scopes_from_roles action (add_scopes scopes (scopes_of (role_policies role) action)) roles

pub scopes_from_grants :
    PermissionAction
    → List PermissionScopeKind
    → List DirectPermissionGrant
    → List PermissionScopeKind
scopes_from_grants action scopes [] = scopes
scopes_from_grants action scopes (grant ∷ grants) =
    scopes_from_grants action
      (if same PermissionAction-discrete grant.action action
        then add_scopes scopes (allowed_scopes action grant.scopes)
        else scopes)
      grants

unfoldable pub effective_scopes : AuthorizationActor → PermissionAction → List PermissionScopeKind
unfolding scopes_from_roles scopes_from_grants allowed_scopes
effective_scopes actor action =
    scopes_from_grants action (scopes_from_roles action [] actor.roles) actor.direct_grants

abbrev is_empty : List PermissionScopeKind → Bool
is_empty [] = true
is_empty (_ ∷ _) = false

-- The last step: `scopes.find(…)`.
abbrev decide_scope : PermissionAction → Option PermissionScopeKind → AuthorizationDecision
decide_scope action none = denied action AuthorizationDenialReason.scope_mismatch
decide_scope action (some scope) = allowed action scope

unfoldable pub authorize : AuthorizationRequest → AuthorizationDecision
unfolding effective_scopes scope_matches
authorize request =
    if not actor.active
    then denied action AuthorizationDenialReason.actor_inactive
    else (if not (str_eq resource.society_id actor.society_id)
        then denied action AuthorizationDenialReason.society_mismatch
        else (if includes PermissionAction-discrete actor.denied_actions action
            then denied action AuthorizationDenialReason.action_not_granted
            else (if is_empty (effective_scopes actor action)
                then denied action AuthorizationDenialReason.action_not_granted
                else (if (permission_by_action action).requires_recent_authentication
                      && not request.recently_authenticated
                    then denied action AuthorizationDenialReason.recent_authentication_required
                    else (if (permission_by_action action).requires_reason
                          && ltb (trimmed_length request.reason) 3
                        then denied action AuthorizationDenialReason.reason_required
                        else decide_scope action (
                            find (λ scope. scope_matches scope actor resource)
                              (effective_scopes actor action)))))))
  where
    open request use {actor, action, resource}

-- The resource that `canAssignRole` asks about: the actor's own society.
abbrev pub society_resource : String → AuthorizationResource
society_resource society_id = record {
  society_id = society_id;
  owner_user_id = none;
  flat_id = none;
  gate_id = none;
  complaint_id = none;
  assigned_to_user_id = none;
  target_user_ids = [];
  target_flat_ids = [];
}

abbrev is_administrator : RoleName → Bool
is_administrator RoleName.society_admin = true
is_administrator RoleName.super_admin = true
is_administrator _ = false

-- The request that `canAssignRole` makes.
abbrev pub role_request : AuthorizationActor → String → Bool → AuthorizationRequest
role_request actor reason recently_authenticated = record {
  actor = actor;
  action = PermissionAction.role_manage;
  resource = society_resource actor.society_id;
  recently_authenticated = recently_authenticated;
  reason = some reason;
}

-- What follows the decision on `role.manage`.
abbrev restrict_role : List RoleName → RoleName → AuthorizationDecision → AuthorizationDecision
restrict_role roles target_role (denied action reason) = denied action reason
restrict_role roles target_role (allowed action scope) =
    if not (includes RoleName-discrete roles RoleName.super_admin) && is_administrator target_role
    then denied PermissionAction.role_manage AuthorizationDenialReason.action_not_granted
    else allowed action scope

unfoldable pub can_assign_role :
    AuthorizationActor → RoleName → String → Bool → AuthorizationDecision
unfolding authorize
can_assign_role actor target_role reason recently_authenticated =
    restrict_role actor.roles target_role
      (authorize (role_request actor reason recently_authenticated))
