-- ===== src/Domain/StateMachine/Lives.antt =====
-- The life of a record that is moved by a transition function only: a list of accepted commands, each
-- met in the state that the one before it left. A caller has to store `current` of each accepted
-- transition and nothing of a refused one, as
-- apps/api/src/modules/memberships/membership.service.ts does for memberships; no service of the
-- repository moves visits, approvals, pre-approvals or parcels, and
-- apps/api/src/modules/operations/operations.service.ts moves complaints by a table of its own.
use mathlib.Core.List.{Memᴰ}
use manglam_balaji_managemen.Types.Errors.{DomainError, Result, ok, err, StateTransition}
use manglam_balaji_managemen.Prelude.{
  ℕ, ◌+◌, ◌≤◌, ◌≡◌, refl, Bool, true, false, List, [], ◌∷◌, arith, length, Bool-cases, ◌⊎◌, inl,
  inr,
}

pub Result-cases :
    {A : Type 0} (r : Result A) → ((a : A) × (r ≡ ok a)) ⊎ ((e : DomainError) × (r ≡ err e))
Result-cases (ok a) = inl (a, refl)
Result-cases (err e) = inr (e, refl)

abbrev pub total : {C : Type 0} → (C → ℕ) → List C → ℕ
total cost [] = 0
total cost (c ∷ cs) = cost c + total cost cs

pub total-one : {C : Type 0} (cs : List C) → total (λ _. 1) cs ≡ length cs
total-one [] = refl
total-one (c ∷ cs) = omega (arith, total-one cs)

module _ {S C : Type 0} (step : S → C → Result (StateTransition S)) where
  abbrev pub live : S → List C → Result S
  live s [] = ok s
  live s (c ∷ cs) = elim (step s c) [ ok r ↦ live r.current cs | err e ↦ err e ]

  -- Where each accepted command pays its cost by raising the weight, a life costs no more than the
  -- weights are apart.
  pub live-weight :
      (weight : S → ℕ) (cost : C → ℕ)
      → ((s : S) (c : C) (r : StateTransition S)
          → step s c ≡ ok r
          → weight s + cost c ≤ weight r.current)
      → (s t : S) (cs : List C) → live s cs ≡ ok t
      → weight s + total cost cs ≤ weight t
  live-weight weight cost pay s t [] h = ground arith
  live-weight weight cost pay s t (c ∷ cs) h = elim (Result-cases (step s c)) [
    | inl (r, e) ↦
        omega (arith, pay s c r e, live-weight weight cost pay r.current t cs (rw (e, live) at h))
    | inr (x, e) ↦ cc (rw (e, live) at h)
  ]

  -- A life that starts outside a set of states and ends inside it holds a command that entered it.
  pub live-enters :
      (inside : S → Bool) (P : C → Type 0)
      → ((s : S) (c : C) (r : StateTransition S)
          → step s c ≡ ok r
          → inside s ≡ false
          → inside r.current ≡ true
          → P c)
      → (s t : S) (cs : List C) → live s cs ≡ ok t
      → inside s ≡ false
      → inside t ≡ true
      → (c : C) × Memᴰ c cs × P c
  live-enters inside P enter s t [] h out in' = ground arith
  live-enters inside P enter s t (c ∷ cs) h out in' = elim (Result-cases (step s c)) [
    | inl (r, e) ↦ elim (Bool-cases (inside r.current)) [
      | inl now ↦ (c, Memᴰ.head refl, enter s c r e out now)
      | inr later ↦
          let (d, m, p) = live-enters inside P enter r.current t cs (rw (e, live) at h) later in' in
          (d, Memᴰ.tail m, p)
    ]
    | inr (x, e) ↦ cc (rw (e, live) at h)
  ]
