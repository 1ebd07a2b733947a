-- ===== src/Permissions/Policies/Laws.antt =====
-- packages/permissions/src/policies.ts: the policies keep to the catalogue.
use mathlib.Core.List.{Memᴰ}
use manglam_balaji_managemen.Permissions.Catalog.{
  RoleName, PermissionScopeKind, PermissionScopeKind-discrete, PermissionAction,
  PermissionAction-discrete, permission_by_action,
}
use manglam_balaji_managemen.Permissions.Policies.{role_policies, scopes_of, RolePolicy}
use manglam_balaji_managemen.Prelude.{
  ◌≡◌, inl, inr, refl, Bool, true, false, List, [], ◌∷◌, all, includes, includes→mem, arith, same,
  same→eq, Bool-cases, subst, sym,
}

-- Every entry of a policy has only scopes that pass the test.
abbrev all_entries : (PermissionAction → PermissionScopeKind → Bool) → RolePolicy → Bool
all_entries p = all (λ (action, scopes). all (p action) scopes)

all_mem :
    (p : PermissionScopeKind → Bool) (xs : List PermissionScopeKind) (x : PermissionScopeKind)
    → all p xs ≡ true
    → Memᴰ x xs
    → p x ≡ true
all_mem p [] x h m = elim m [ ]
all_mem p (y ∷ ys) x h (Memᴰ.head e) = subst (λ z. p z ≡ true) (sym e) (ground arith)
all_mem p (y ∷ ys) x h (Memᴰ.tail m) = all_mem p ys x (ground arith) m

all_entries-scopes_of :
    (p : PermissionAction → PermissionScopeKind → Bool) (policy : RolePolicy)
    (action : PermissionAction) (scope : PermissionScopeKind)
    → all_entries p policy ≡ true
    → Memᴰ scope (scopes_of policy action)
    → p action scope ≡ true
unfolding scopes_of
all_entries-scopes_of p [] action scope h m = elim m [ ]
all_entries-scopes_of p ((a, scopes) ∷ rest) action scope h m =
    elim (Bool-cases (same PermissionAction-discrete a action)) [
      | inl it ↦
          let e = same→eq PermissionAction-discrete a action it in
          subst (λ b. p b scope ≡ true) e (all_mem (p a) scopes scope (ground arith) (rw it at m))
      | inr other ↦ all_entries-scopes_of p rest action scope (ground arith) (rw other at m)
    ]

abbrev in_catalog : PermissionAction → PermissionScopeKind → Bool
in_catalog action = includes PermissionScopeKind-discrete (permission_by_action action).scopes

role_in_catalog : (role : RoleName) → all_entries in_catalog (role_policies role) ≡ true
unfolding role_policies permission_by_action PermissionAction-discrete PermissionScopeKind-discrete
role_in_catalog RoleName.guard = refl
role_in_catalog _ = refl

-- No role grants a scope that the catalogue does not allow for the action.
pub role_policies-in_catalog :
    (role : RoleName) (action : PermissionAction) (scope : PermissionScopeKind)
    → Memᴰ scope (scopes_of (role_policies role) action)
    → Memᴰ scope (permission_by_action action).scopes
role_policies-in_catalog role action scope m =
    includes→mem PermissionScopeKind-discrete _ scope
      (all_entries-scopes_of in_catalog (role_policies role) action scope (role_in_catalog role) m)

-- The roles of a resident.
pub data IsResident : RoleName → Type 0 where
  owner : IsResident RoleName.resident_owner
  tenant : IsResident RoleName.resident_tenant
  family : IsResident RoleName.resident_family

-- The scopes that reach no further than oneself, one's flats and what is sent to one.
abbrev pub is_own_scope : PermissionScopeKind → Bool
is_own_scope PermissionScopeKind.self = true
is_own_scope PermissionScopeKind.active_flat = true
is_own_scope PermissionScopeKind.targeted = true
is_own_scope _ = false

resident_own :
    {role : RoleName}
    → IsResident role
    → all_entries (λ _ s. is_own_scope s) (role_policies role) ≡ true
unfolding role_policies permission_by_action PermissionAction-discrete PermissionScopeKind-discrete
resident_own owner = refl
resident_own tenant = refl
resident_own family = refl

pub resident_scopes :
    (role : RoleName) (action : PermissionAction) (scope : PermissionScopeKind)
    → IsResident role
    → Memᴰ scope (scopes_of (role_policies role) action)
    → is_own_scope scope ≡ true
resident_scopes role action scope r m =
    all_entries-scopes_of (λ _ s. is_own_scope s) (role_policies role) action scope (resident_own r)
      m
