-- ===== src/Permissions/Authorize/Laws.antt =====
-- packages/permissions/src/authorize.ts: what an allowed request shows.
use mathlib.Core.List.{Memᴰ}
use manglam_balaji_managemen.Js.Text.{trimmed_length}
use manglam_balaji_managemen.Permissions.Authorize.{
  AuthorizationRequest, AuthorizationDecision, AuthorizationDenialReason, allowed, denied,
  scope_matches, effective_scopes, authorize, is_empty, decide_scope,
}
use manglam_balaji_managemen.Permissions.Authorize.Scopes.{
  Holds, effective_scopes_iff, Holds-in_catalog,
}
use manglam_balaji_managemen.Permissions.Catalog.{
  PermissionScopeKind, PermissionAction, PermissionAction-discrete, permission_by_action,
}
use manglam_balaji_managemen.Prelude.{
  ℕ, ◌≤◌, ◌≡◌, ◌↔◌, refl, sym, ap, Bool, true, false, List, [], ◌∷◌, Option, none, some, arith,
  includes, find, find-some, find_of_mem, eq_iff, str_eq, ltb, not, ◌&&◌, if◌then◌else◌, String,
}

-- What stands in front of the choice of a scope.
pub record IsEntitled (r : AuthorizationRequest) : Type 0 where
  pub active : r.actor.active ≡ true
  pub same_society : r.resource.society_id ≡ r.actor.society_id
  pub not_denied : includes PermissionAction-discrete r.actor.denied_actions r.action ≡ false
  pub recent :
      (permission_by_action r.action).requires_recent_authentication ≡ true
      → r.recently_authenticated ≡ true
  pub reason : (permission_by_action r.action).requires_reason ≡ true → 3 ≤ trimmed_length r.reason

-- The scopes that the actor holds for the action and that fit the resource.
abbrev pub Fits : AuthorizationRequest → PermissionScopeKind → Type 0
Fits r scope = Holds r.actor r.action scope × (scope_matches scope r.actor r.resource ≡ true)

abbrev chosen : AuthorizationRequest → Option PermissionScopeKind
chosen r = find (λ s. scope_matches s r.actor r.resource) (effective_scopes r.actor r.action)

decide_scope-allowed :
    (a : PermissionAction) (o : Option PermissionScopeKind) (b : PermissionAction)
    (s : PermissionScopeKind)
    → decide_scope a o ≡ allowed b s
    → (a ≡ b) × (o ≡ some s)
decide_scope-allowed a none b s h = cc
decide_scope-allowed a (some t) b s h = ground arith

not-false : (b : Bool) → not b ≡ false → b ≡ true
not-false b h = ground arith

same_text : (s t : String) → not (str_eq s t) ≡ false → s ≡ t
same_text s t h = ground (arith, eq_iff s t)

implied : (need have : Bool) → need && not have ≡ false → need ≡ true → have ≡ true
implied need have h n = ground arith

long_enough : (need : Bool) (n : ℕ) → need && ltb n 3 ≡ false → need ≡ true → 3 ≤ n
long_enough need n h e = ground arith

-- A guard that refuses was not met.
past :
    (b : Bool) (a : PermissionAction) (why : AuthorizationDenialReason)
    (rest : AuthorizationDecision) (c : PermissionAction) (s : PermissionScopeKind)
    → (if b then denied a why else rest) ≡ allowed c s
    → (b ≡ false) × (rest ≡ allowed c s)
past true a why rest c s h = cc
past false a why rest c s h = (refl, h)

pub authorize-allowed :
    (r : AuthorizationRequest) (a : PermissionAction) (s : PermissionScopeKind)
    → authorize r ≡ allowed a s
    → (a ≡ r.action) × IsEntitled r × (chosen r ≡ some s)
unfolding authorize
authorize-allowed r a s h =
    let (active, h1) = past _ _ _ _ a s h in
    let (society, h2) = past _ _ _ _ a s h1 in
    let (not_denied, h3) = past _ _ _ _ a s h2 in
    let (held, h4) = past _ _ _ _ a s h3 in
    let (recent, h5) = past _ _ _ _ a s h4 in
    let (reason, h6) = past _ _ _ _ a s h5 in
    let (e, found) = decide_scope-allowed _ _ a s h6 in
    (
      sym e,
      record {
        active = not-false _ active;
        same_society = same_text _ _ society;
        not_denied = not_denied;
        recent = implied _ _ recent;
        reason = long_enough _ _ reason;
      },
      found,
    )

-- A guard that is not met is passed.
skip :
    (b : Bool) (a : PermissionAction) (why : AuthorizationDenialReason)
    (rest : AuthorizationDecision) {d : AuthorizationDecision}
    → b ≡ false
    → rest ≡ d
    → (if b then denied a why else rest) ≡ d
skip b a why rest n h = ground arith

differs : (s t : String) → s ≡ t → not (str_eq s t) ≡ false
differs s t h = ground (arith, eq_iff s t)

no_need : (need have : Bool) → (need ≡ true → have ≡ true) → need && not have ≡ false
no_need need have h = ground arith

no_short : (need : Bool) (n : ℕ) → (need ≡ true → 3 ≤ n) → need && ltb n 3 ≡ false
no_short need n h = ground arith

found-not_empty :
    (p : PermissionScopeKind → Bool) (xs : List PermissionScopeKind) (s : PermissionScopeKind)
    → find p xs ≡ some s
    → is_empty xs ≡ false
found-not_empty p [] s h = cc
found-not_empty p (x ∷ xs) s h = refl

IsEntitled→decision :
    (r : AuthorizationRequest) (s : PermissionScopeKind)
    → IsEntitled r
    → chosen r ≡ some s
    → authorize r ≡ allowed r.action s
unfolding authorize
IsEntitled→decision r s e h = skip _ _ _ _ (ap not e.active) (
    skip _ _ _ _ (differs _ _ e.same_society) (
      skip _ _ _ _ e.not_denied (
        skip _ _ _ _ (found-not_empty _ _ _ h) (
          skip _ _ _ _ (no_need _ _ e.recent)
            (skip _ _ _ _ (no_short _ _ e.reason) (ap (decide_scope r.action) h))))))

-- A request is allowed exactly when the actor is active and of the resource's society, is not denied
-- the action, has authenticated recently and given a reason where the action asks for it, and holds a
-- scope for the action that fits the resource.
pub authorize-allows_iff :
    (r : AuthorizationRequest)
    → ((s : PermissionScopeKind) × (authorize r ≡ allowed r.action s))
      ↔ (IsEntitled r × ((s : PermissionScopeKind) × Fits r s))
authorize-allows_iff r = (
  (λ (s, h).
      let (_, e, found) = authorize-allowed r _ s h in
      let (m, fits) = find-some (λ s. scope_matches s r.actor r.resource) _ s found in
      (e, (s, ((effective_scopes_iff r.actor r.action s).0 m, fits)))),
  (λ (e, (s, (held, fits))).
      let (t, found) =
        find_of_mem (λ s. scope_matches s r.actor r.resource) _
          ((effective_scopes_iff r.actor r.action s).1 held) fits in
      (t, IsEntitled→decision r t e found)),
)

-- The scope of an allowed request is one that the actor holds for the action asked, that the catalogue
-- has for it, and that fits the resource.
pub authorize-scope :
    (r : AuthorizationRequest) (a : PermissionAction) (s : PermissionScopeKind)
    → authorize r ≡ allowed a s
    → (a ≡ r.action) × Fits r s × Memᴰ s (permission_by_action r.action).scopes
authorize-scope r a s h =
    let (e, _, found) = authorize-allowed r a s h in
    let (m, fits) = find-some (λ s. scope_matches s r.actor r.resource) _ s found in
    let held = (effective_scopes_iff r.actor r.action s).0 m in
    (e, (held, fits), Holds-in_catalog r.actor r.action s held)
