-- ===== src/Permissions/Authorize/Loops.antt =====
-- packages/permissions/src/authorize.ts: what the two loops of `effectiveScopes` gather.
use mathlib.Core.List.{Memᴰ}
use manglam_balaji_managemen.Js.Sets.Laws.{add_all-mem, add_all-keeps, add_all-adds}
use manglam_balaji_managemen.Permissions.Authorize.{
  DirectPermissionGrant, allowed_scopes, scopes_from_roles, scopes_from_grants, add_scopes,
}
use manglam_balaji_managemen.Permissions.Catalog.{
  RoleName, PermissionScopeKind, PermissionScopeKind-discrete, PermissionAction,
  PermissionAction-discrete, permission_by_action,
}
use manglam_balaji_managemen.Permissions.Policies.{role_policies, scopes_of}
use manglam_balaji_managemen.Prelude.{
  ◌≡◌, ◌⊎◌, inl, inr, refl, sym, subst, true, List, [], ◌∷◌, includes, includes→mem, mem→includes,
  same, same→eq, same_refl, uncons-mem, Bool-cases,
}

pub not_in_nil : {A : Type 0} {x : A} → Memᴰ x [] → ⊥
not_in_nil m = elim m [ ]

allowed_scopes-mem :
    (action : PermissionAction) (scopes : List PermissionScopeKind) (x : PermissionScopeKind)
    → Memᴰ x (allowed_scopes action scopes)
    → Memᴰ x scopes × Memᴰ x (permission_by_action action).scopes
unfolding allowed_scopes
allowed_scopes-mem action [] x m = elim m [ ]
allowed_scopes-mem action (y ∷ ys) x m =
    elim (Bool-cases
      (includes PermissionScopeKind-discrete (permission_by_action action).scopes y)) [
        | inl fits ↦ elim (uncons-mem (rw fits at m)) [
          | inl e ↦ (
            Memᴰ.head e,
            subst (λ z. Memᴰ z (permission_by_action action).scopes) (sym e)
                (includes→mem PermissionScopeKind-discrete _ y fits),
          )
          | inr k ↦ let (j, c) = allowed_scopes-mem action ys x k in (Memᴰ.tail j, c)
        ]
        | inr not_fits ↦
            let (k, c) = allowed_scopes-mem action ys x (rw not_fits at m) in (Memᴰ.tail k, c)
      ]

mem-allowed_scopes :
    (action : PermissionAction) (scopes : List PermissionScopeKind) (x : PermissionScopeKind)
    → Memᴰ x scopes
    → Memᴰ x (permission_by_action action).scopes
    → Memᴰ x (allowed_scopes action scopes)
unfolding allowed_scopes
mem-allowed_scopes action [] x m c = elim m [ ]
mem-allowed_scopes action (y ∷ ys) x m c =
    elim (Bool-cases
      (includes PermissionScopeKind-discrete (permission_by_action action).scopes y)) [
        | inl fits ↦ elim (uncons-mem m) [
          | inl e ↦ rw fits (Memᴰ.head e)
          | inr k ↦ rw fits (Memᴰ.tail (mem-allowed_scopes action ys x k c))
        ]
        | inr not_fits ↦ elim (uncons-mem m) [
          | inl e ↦ cc (
            not_fits,
            mem→includes PermissionScopeKind-discrete _
                (subst (λ z. Memᴰ z (permission_by_action action).scopes) e c),
          )
          | inr k ↦ rw not_fits (mem-allowed_scopes action ys x k c)
        ]
      ]

module _ (action : PermissionAction) (x : PermissionScopeKind) where
  abbrev pub FromRole : List RoleName → Type 0
  FromRole roles =
      (role : RoleName) × Memᴰ role roles × Memᴰ x (scopes_of (role_policies role) action)

  FromRole-tail : (r : RoleName) (rs : List RoleName) → FromRole rs → FromRole (r ∷ rs)
  FromRole-tail r rs (role, m, g) = (role, Memᴰ.tail m, g)

  pub scopes_from_roles-mem :
      (set : List PermissionScopeKind) (roles : List RoleName)
      → Memᴰ x (scopes_from_roles action set roles)
      → Memᴰ x set ⊎ FromRole roles
  unfolding scopes_from_roles
  scopes_from_roles-mem set [] m = inl m
  scopes_from_roles-mem set (r ∷ rs) m =
      elim (scopes_from_roles-mem (add_scopes set (scopes_of (role_policies r) action)) rs m) [
        | inl k ↦
            elim (add_all-mem PermissionScopeKind-discrete set (scopes_of (role_policies r) action)
              x k) [ inl j ↦ inl j | inr j ↦ inr (r, Memᴰ.head refl, j) ]
        | inr f ↦ inr (FromRole-tail r rs f)
      ]

  scopes_from_roles-keeps :
      (set : List PermissionScopeKind) (roles : List RoleName)
      → Memᴰ x set
      → Memᴰ x (scopes_from_roles action set roles)
  unfolding scopes_from_roles
  scopes_from_roles-keeps set [] m = m
  scopes_from_roles-keeps set (r ∷ rs) m =
      scopes_from_roles-keeps (add_scopes set (scopes_of (role_policies r) action)) rs
        (add_all-keeps PermissionScopeKind-discrete set (scopes_of (role_policies r) action) x m)

  pub mem-scopes_from_roles :
      (set : List PermissionScopeKind) (roles : List RoleName) (role : RoleName)
      → Memᴰ role roles
      → Memᴰ x (scopes_of (role_policies role) action)
      → Memᴰ x (scopes_from_roles action set roles)
  unfolding scopes_from_roles
  mem-scopes_from_roles set [] role m g = elim m [ ]
  mem-scopes_from_roles set (r ∷ rs) role (Memᴰ.head e) g =
      scopes_from_roles-keeps (add_scopes set (scopes_of (role_policies r) action)) rs (
        add_all-adds PermissionScopeKind-discrete set (scopes_of (role_policies r) action) x
          (subst (λ z. Memᴰ x (scopes_of (role_policies z) action)) e g))
  mem-scopes_from_roles set (r ∷ rs) role (Memᴰ.tail m) g =
      mem-scopes_from_roles (add_scopes set (scopes_of (role_policies r) action)) rs role m g

  abbrev pub FromGrant : List DirectPermissionGrant → Type 0
  FromGrant grants =
      (grant : DirectPermissionGrant) × Memᴰ grant grants
      × (grant.action ≡ action)
      × Memᴰ x grant.scopes
      × Memᴰ x (permission_by_action action).scopes

  FromGrant-tail :
      (g : DirectPermissionGrant) (gs : List DirectPermissionGrant)
      → FromGrant gs
      → FromGrant (g ∷ gs)
  FromGrant-tail g gs (grant, m, e, k, c) = (grant, Memᴰ.tail m, e, k, c)

  pub scopes_from_grants-mem :
      (set : List PermissionScopeKind) (grants : List DirectPermissionGrant)
      → Memᴰ x (scopes_from_grants action set grants)
      → Memᴰ x set ⊎ FromGrant grants
  unfolding scopes_from_grants
  scopes_from_grants-mem set [] m = inl m
  scopes_from_grants-mem set (g ∷ gs) m =
      elim (Bool-cases (same PermissionAction-discrete g.action action)) [
        | inl it ↦
            elim (scopes_from_grants-mem (add_scopes set (allowed_scopes action g.scopes)) gs
              (rw it at m)) [
                | inl k ↦
                    elim (add_all-mem PermissionScopeKind-discrete set
                      (allowed_scopes action g.scopes) x k) [
                        | inl j ↦ inl j
                        | inr j ↦
                            let (a, c) = allowed_scopes-mem action g.scopes x j in
                            inr (g, Memᴰ.head refl, same→eq PermissionAction-discrete _ _ it, a, c)
                      ]
                | inr f ↦ inr (FromGrant-tail g gs f)
              ]
        | inr other ↦ elim (scopes_from_grants-mem set gs (rw other at m)) [
          | inl k ↦ inl k
          | inr f ↦ inr (FromGrant-tail g gs f)
        ]
      ]

  pub scopes_from_grants-keeps :
      (set : List PermissionScopeKind) (grants : List DirectPermissionGrant)
      → Memᴰ x set
      → Memᴰ x (scopes_from_grants action set grants)
  unfolding scopes_from_grants
  scopes_from_grants-keeps set [] m = m
  scopes_from_grants-keeps set (g ∷ gs) m =
      elim (Bool-cases (same PermissionAction-discrete g.action action)) [
        | inl it ↦ rw it (
            scopes_from_grants-keeps (add_scopes set (allowed_scopes action g.scopes)) gs
              (add_all-keeps PermissionScopeKind-discrete set (allowed_scopes action g.scopes) x m))
        | inr other ↦ rw other (scopes_from_grants-keeps set gs m)
      ]

  pub mem-scopes_from_grants :
      (set : List PermissionScopeKind) (grants : List DirectPermissionGrant)
      → FromGrant grants
      → Memᴰ x (scopes_from_grants action set grants)
  unfolding scopes_from_grants
  mem-scopes_from_grants set [] (grant, m, e, k, c) = elim m [ ]
  mem-scopes_from_grants set (g ∷ gs) (grant, Memᴰ.tail m, e, k, c) =
      elim (Bool-cases (same PermissionAction-discrete g.action action)) [
        | inl it ↦ rw it (
            mem-scopes_from_grants (add_scopes set (allowed_scopes action g.scopes)) gs
              (grant, m, e, k, c))
        | inr other ↦ rw other (mem-scopes_from_grants set gs (grant, m, e, k, c))
      ]
  mem-scopes_from_grants set (g ∷ gs) (grant, Memᴰ.head h, e, k, c) =
      let it : same PermissionAction-discrete g.action action ≡ true =
        subst (λ y. same PermissionAction-discrete y.action action ≡ true) h
          (subst (λ y. same PermissionAction-discrete y action ≡ true) (sym e)
            (same_refl PermissionAction-discrete action)) in
      rw it (
        scopes_from_grants-keeps (add_scopes set (allowed_scopes action g.scopes)) gs (
          add_all-adds PermissionScopeKind-discrete set (allowed_scopes action g.scopes) x
            (mem-allowed_scopes action g.scopes x (subst (λ y. Memᴰ x y.scopes) h k) c)))
