-- ===== src/Examples/Access.antt =====
-- packages/permissions/src at concrete actors.
use mathlib.Core.List.{Memᴰ}
use manglam_balaji_managemen.Js.Text.{trimmed_length}
use manglam_balaji_managemen.Permissions.Authorize.{
  AuthorizationActor, AuthorizationResource, AuthorizationRequest, AuthorizationDenialReason,
  allowed, denied, authorize, can_assign_role, effective_scopes,
}
use manglam_balaji_managemen.Permissions.Authorize.Laws.{IsEntitled, Fits, authorize-allows_iff}
use manglam_balaji_managemen.Permissions.Authorize.Roles.{
  can_assign_role-guarded, OnlyResident, resident-isolated, is_within_reach,
}
use manglam_balaji_managemen.Permissions.Authorize.Scopes.{Holds, effective_scopes_iff}
use manglam_balaji_managemen.Permissions.Catalog.{
  RoleName, RoleName-discrete, PermissionScopeKind, PermissionScopeKind-discrete, PermissionAction,
  PermissionAction-discrete, permission_by_action,
}
use manglam_balaji_managemen.Permissions.Policies.{role_policies, scopes_of}
use manglam_balaji_managemen.Permissions.Policies.Laws.{IsResident}
use manglam_balaji_managemen.Prelude.{
  ◌⊎◌, ◌≤◌, ◌≡◌, ◌↔◌, refl, sym, subst, true, false, [], ◌∷◌, none, some, String,
}

-- A tenant of flat A-101.
abbrev tenant : AuthorizationActor
tenant = record {
  user_id = "user-1";
  society_id = "society-1";
  active = true;
  roles = RoleName.resident_tenant ∷ [];
  active_flat_ids = "A-101" ∷ [];
  assigned_gate_ids = [];
  assigned_complaint_ids = [];
  direct_grants = [];
  denied_actions = [];
}

-- A visit to a flat.
abbrev visit_to : String → AuthorizationResource
visit_to flat_id = record {
  society_id = "society-1";
  owner_user_id = none;
  flat_id = some flat_id;
  gate_id = some "gate-1";
  complaint_id = none;
  assigned_to_user_id = none;
  target_user_ids = [];
  target_flat_ids = [];
}

abbrev reading : String → AuthorizationRequest
reading flat_id = record {
  actor = tenant;
  action = PermissionAction.visitor_read_flat;
  resource = visit_to flat_id;
  recently_authenticated = false;
  reason = none;
}

reads_own :
    authorize (reading "A-101")
    ≡ allowed PermissionAction.visitor_read_flat PermissionScopeKind.active_flat
unfolding authorize role_policies scopes_of permission_by_action RoleName-discrete
    PermissionScopeKind-discrete PermissionAction-discrete trimmed_length
reads_own = refl

-- Another flat's visits are out of reach.
reads_no_other :
    authorize (reading "A-102")
    ≡ denied PermissionAction.visitor_read_flat AuthorizationDenialReason.scope_mismatch
unfolding authorize role_policies scopes_of permission_by_action RoleName-discrete
    PermissionScopeKind-discrete PermissionAction-discrete trimmed_length
reads_no_other = refl

authorize-allows_iff_example :
    IsEntitled (reading "A-101") × ((s : PermissionScopeKind) × Fits (reading "A-101") s)
authorize-allows_iff_example =
    (authorize-allows_iff (reading "A-101")).0 (PermissionScopeKind.active_flat, reads_own)

only_resident : OnlyResident tenant
only_resident = record { resident = λ role m. one_role role m; no_grants = refl }
  where
    one_role : (role : RoleName) → Memᴰ role tenant.roles → IsResident role
    one_role role (Memᴰ.head e) = subst IsResident (sym e) IsResident.tenant
    one_role role (Memᴰ.tail m) = elim m [ ]

resident-isolated_example :
    ("society-1" ≡ tenant.society_id) × (is_within_reach tenant (visit_to "A-101") ≡ true)
resident-isolated_example =
    resident-isolated (reading "A-101") PermissionAction.visitor_read_flat
      PermissionScopeKind.active_flat only_resident reads_own

effective_scopes_iff_example :
    Memᴰ PermissionScopeKind.active_flat
      (effective_scopes tenant PermissionAction.visitor_read_flat)
    ↔ Holds tenant PermissionAction.visitor_read_flat PermissionScopeKind.active_flat
effective_scopes_iff_example =
    effective_scopes_iff tenant PermissionAction.visitor_read_flat PermissionScopeKind.active_flat

tenant_policy :
    Memᴰ PermissionScopeKind.active_flat
      (scopes_of (role_policies RoleName.resident_tenant) PermissionAction.visitor_read_flat)
unfolding role_policies scopes_of permission_by_action PermissionScopeKind-discrete
    PermissionAction-discrete
tenant_policy = Memᴰ.head refl

-- The owner of the platform makes a society administrator.
abbrev super_user : AuthorizationActor
super_user = record tenant { user_id = "user-2"; roles = RoleName.super_admin ∷ [] }

assigns :
    can_assign_role super_user RoleName.society_admin "new committee" true
    ≡ allowed PermissionAction.role_manage PermissionScopeKind.society
unfolding can_assign_role authorize role_policies scopes_of permission_by_action RoleName-discrete
    PermissionScopeKind-discrete PermissionAction-discrete trimmed_length
assigns = refl

-- A society administrator cannot.
assigns_no_peer :
    can_assign_role
      (record super_user { roles = RoleName.society_admin ∷ [] })
      RoleName.society_admin
      "new committee"
      true
    ≡ denied PermissionAction.role_manage AuthorizationDenialReason.action_not_granted
unfolding can_assign_role authorize role_policies scopes_of permission_by_action RoleName-discrete
    PermissionScopeKind-discrete PermissionAction-discrete trimmed_length
assigns_no_peer = refl

can_assign_role-guarded_example :
    (PermissionAction.role_manage ≡ PermissionAction.role_manage)
    × Holds super_user PermissionAction.role_manage PermissionScopeKind.society
    × (super_user.active ≡ true)
    × (¬ (Memᴰ PermissionAction.role_manage super_user.denied_actions))
    × (true ≡ true)
    × (3 ≤ trimmed_length (some "new committee"))
    × ((RoleName.society_admin ≡ RoleName.society_admin)
          ⊎ (RoleName.society_admin ≡ RoleName.super_admin)
        → Memᴰ RoleName.super_admin super_user.roles)
can_assign_role-guarded_example =
    can_assign_role-guarded super_user RoleName.society_admin "new committee" true
      PermissionAction.role_manage PermissionScopeKind.society assigns
