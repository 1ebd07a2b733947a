-- ===== src/Permissions/Authorize/Scopes.antt =====
-- packages/permissions/src/authorize.ts: where a scope that is held comes from.
use mathlib.Core.List.{Memᴰ}
use manglam_balaji_managemen.Permissions.Authorize.{
  DirectPermissionGrant, AuthorizationActor, scopes_from_roles, effective_scopes,
}
use manglam_balaji_managemen.Permissions.Catalog.{
  RoleName, PermissionScopeKind, PermissionAction, permission_by_action,
}
use manglam_balaji_managemen.Permissions.Policies.{role_policies, scopes_of}
use manglam_balaji_managemen.Permissions.Policies.Laws.{role_policies-in_catalog}
use manglam_balaji_managemen.Prelude.{◌≡◌, ◌⊎◌, inl, inr, ◌↔◌, []}
use manglam_balaji_managemen.Permissions.Authorize.Loops.{
  not_in_nil, scopes_from_roles-mem, mem-scopes_from_roles, scopes_from_grants-mem,
  scopes_from_grants-keeps, mem-scopes_from_grants,
}

-- A role of the actor gives the scope for the action.
pub record ByRole (actor : AuthorizationActor) (action : PermissionAction)
    (scope : PermissionScopeKind) : Type 0 where
  pub role : RoleName
  pub held : Memᴰ role actor.roles
  pub grants : Memᴰ scope (scopes_of (role_policies role) action)

-- A direct grant gives it, within the catalogue.
pub record ByGrant (actor : AuthorizationActor) (action : PermissionAction)
    (scope : PermissionScopeKind) : Type 0 where
  pub grant : DirectPermissionGrant
  pub held : Memᴰ grant actor.direct_grants
  pub for_action : grant.action ≡ action
  pub grants : Memᴰ scope grant.scopes
  pub in_catalog : Memᴰ scope (permission_by_action action).scopes

abbrev pub Holds : AuthorizationActor → PermissionAction → PermissionScopeKind → Type 0
Holds actor action scope = ByRole actor action scope ⊎ ByGrant actor action scope

effective_scopes→Holds :
    (actor : AuthorizationActor) (action : PermissionAction) (x : PermissionScopeKind)
    → Memᴰ x (effective_scopes actor action)
    → Holds actor action x
unfolding effective_scopes
effective_scopes→Holds actor action x m =
    elim (scopes_from_grants-mem action x (scopes_from_roles action [] actor.roles)
      actor.direct_grants m) [
        | inl k ↦ elim (scopes_from_roles-mem action x [] actor.roles k) [
          | inl nothing ↦ absurd (not_in_nil nothing)
          | inr (role, held, grants) ↦ inl (record { role = role; held = held; grants = grants })
        ]
        | inr (grant, held, e, grants, c) ↦
            inr (record {
              grant = grant;
              held = held;
              for_action = e;
              grants = grants;
              in_catalog = c;
            })
      ]

Holds→effective_scopes :
    (actor : AuthorizationActor) (action : PermissionAction) (x : PermissionScopeKind)
    → Holds actor action x
    → Memᴰ x (effective_scopes actor action)
unfolding effective_scopes
Holds→effective_scopes actor action x (inl r) =
    scopes_from_grants-keeps action x _ actor.direct_grants
      (mem-scopes_from_roles action x [] actor.roles r.role r.held r.grants)
Holds→effective_scopes actor action x (inr g) =
    mem-scopes_from_grants action x _ actor.direct_grants
      (g.grant, g.held, g.for_action, g.grants, g.in_catalog)

-- The effective scopes of an actor for an action are exactly those that one of its roles grants, or a
-- direct grant for the action within the catalogue.
pub effective_scopes_iff :
    (actor : AuthorizationActor) (action : PermissionAction) (scope : PermissionScopeKind)
    → Memᴰ scope (effective_scopes actor action) ↔ Holds actor action scope
effective_scopes_iff actor action scope =
    (effective_scopes→Holds actor action scope, Holds→effective_scopes actor action scope)

-- A scope that is held is one that the catalogue allows for the action.
pub Holds-in_catalog :
    (actor : AuthorizationActor) (action : PermissionAction) (scope : PermissionScopeKind)
    → Holds actor action scope
    → Memᴰ scope (permission_by_action action).scopes
Holds-in_catalog actor action scope (inl r) = role_policies-in_catalog r.role action scope r.grants
Holds-in_catalog actor action scope (inr g) = g.in_catalog
