-- ===== src/Domain/Payment/Allocation/Greedy.antt =====
-- packages/domain/src/payment.ts, `allocatePaymentOldestFirst`: the loop over the ordered charges.
use mathlib.Core.List.{Memᴰ}
use manglam_balaji_managemen.Domain.Payment.Allocation.{
  OutstandingCharge, PaymentAllocation, outstanding, sum_from, allocate_from, due, push,
}
use manglam_balaji_managemen.Prelude.{
  ℕ, ◌+◌, ◌-◌, ◌≤◌, ◌<◌, ◌≡◌, ◌≢◌, refl, sym, ap, subst, zero, suc, List, [], ◌∷◌, String, arith,
  Bool-cases, inl, inr, ltb, ltb→lt, ◌==◌, All, All-map, All-mem, str_eq, eq_iff, if◌then◌else◌,
  min,
}

-- What a list of allocations spends in all, and on one charge.
unfoldable pub spent : List PaymentAllocation → ℕ
spent [] = 0
spent (x ∷ xs) = x.amount_minor + spent xs

unfoldable pub spent_on : String → List PaymentAllocation → ℕ
spent_on id [] = 0
spent_on id (x ∷ xs) = (if str_eq x.charge_id id then x.amount_minor else 0) + spent_on id xs

unfoldable pub owed : List OutstandingCharge → ℕ
owed [] = 0
owed (c ∷ cs) = outstanding c + owed cs

pub sum_from-eq-add : (n : ℕ) (cs : List OutstandingCharge) → sum_from n cs ≡ n + owed cs
unfolding owed
sum_from-eq-add n [] = omega arith
sum_from-eq-add n (c ∷ cs) = omega (arith, sum_from-eq-add (n + outstanding c) cs)

allocate_from-zero : (cs : List OutstandingCharge) → allocate_from 0 cs ≡ []
unfolding allocate_from
allocate_from-zero [] = refl
allocate_from-zero (c ∷ cs) = refl

-- The loop spends the whole payment, where the charges owe that much.
pub spent-allocate_from :
    (n : ℕ) (cs : List OutstandingCharge) → n ≤ owed cs → spent (allocate_from n cs) ≡ n
unfolding spent allocate_from owed
spent-allocate_from n [] h = omega arith
spent-allocate_from n (c ∷ cs) h =
    ground (arith, spent-allocate_from (n - min n (outstanding c)) cs)

-- What an allocation says of the charge that it goes to.
pub record Pays (x : PaymentAllocation) (c : OutstandingCharge) : Type 0 where
  pub id : x.charge_id ≡ c.charge_id
  pub positive : 0 < x.amount_minor
  pub within : x.amount_minor ≤ outstanding c

-- It goes to one of the charges.
abbrev pub PaysOneOf : List OutstandingCharge → PaymentAllocation → Type 0
PaysOneOf cs x = (c : OutstandingCharge) × Memᴰ c cs × Pays x c

All-push :
    (P : PaymentAllocation → Type 0) (c : OutstandingCharge) (n : ℕ) (rest : List PaymentAllocation)
    → (0 < n → P (record { charge_id = c.charge_id; amount_minor = n }))
    → All P rest
    → All P (push c n rest)
All-push P c n rest here later = elim (Bool-cases (ltb 0 n)) [
  | inl pos ↦ rw pos (here (ltb→lt 0 n pos), later)
  | inr none ↦ rw none later
]

-- Each allocation is positive, and goes to a charge that owes that much.
pub allocate_from-PaysOneOf :
    (n : ℕ) (cs : List OutstandingCharge) → All (PaysOneOf cs) (allocate_from n cs)
unfolding allocate_from
allocate_from-PaysOneOf n [] = tt
allocate_from-PaysOneOf n (c ∷ cs) = elim (Bool-cases (n == 0)) [
  | inl done ↦ rw done tt
  | inr more ↦ rw more (
      All-push (PaysOneOf (c ∷ cs)) c _ _
        (λ pos. (c, Memᴰ.head refl, record { id = refl; positive = pos; within = omega arith }))
        (All-map (λ x (d, m, p). (d, Memᴰ.tail m, p)) _
          (allocate_from-PaysOneOf (n - min n (outstanding c)) cs)))
]

-- No other charge has the identifier.
abbrev pub IsFresh : String → List OutstandingCharge → Type 0
IsFresh id = All (λ c. c.charge_id ≢ id)

abbrev pub HasDistinctIds : List OutstandingCharge → Type 0
HasDistinctIds [] = Unit
HasDistinctIds (c ∷ cs) = IsFresh c.charge_id cs × HasDistinctIds cs

-- The charges are in the order of their due times.
abbrev pub IsOrdered : List OutstandingCharge → Type 0
IsOrdered [] = Unit
IsOrdered (c ∷ cs) = All (λ d. due c ≤ due d) cs × IsOrdered cs

spent_on-push :
    (id : String) (c : OutstandingCharge) (n : ℕ) (rest : List PaymentAllocation)
    → spent_on id (push c n rest) ≡ (if str_eq c.charge_id id then n else 0) + spent_on id rest
unfolding spent_on
spent_on-push id c n rest = ground arith

spent_on_fresh :
    (id : String) (n : ℕ) (cs : List OutstandingCharge)
    → IsFresh id cs
    → spent_on id (allocate_from n cs) ≡ 0
unfolding spent_on allocate_from
spent_on_fresh id n [] h = refl
spent_on_fresh id n (c ∷ cs) (ne, h) = elim (Bool-cases (n == 0)) [
  | inl done ↦ rw done
  | inr more ↦
      rw (more, spent_on-push, spent_on_fresh id (n - min n (outstanding c)) cs h)
        (ground (arith, eq_iff c.charge_id id))
]

-- What the loop spends on the first charge, and on any other.
spent_on_first :
    (n : ℕ) (c : OutstandingCharge) (cs : List OutstandingCharge)
    → IsFresh c.charge_id cs
    → spent_on c.charge_id (allocate_from n (c ∷ cs)) ≡ min n (outstanding c)
unfolding spent_on allocate_from
spent_on_first n c cs fresh = elim (Bool-cases (n == 0)) [
  | inl done ↦ ground arith
  | inr more ↦
      rw (more, spent_on-push, spent_on_fresh c.charge_id (n - min n (outstanding c)) cs fresh)
        (ground (arith, eq_iff c.charge_id c.charge_id))
]

spent_on_other :
    (id : String) (n : ℕ) (c : OutstandingCharge) (cs : List OutstandingCharge)
    → id ≢ c.charge_id
    → spent_on id (allocate_from n (c ∷ cs))
      ≡ spent_on id (allocate_from (n - min n (outstanding c)) cs)
unfolding spent_on allocate_from
spent_on_other id zero c cs ne = rw (sub_zero c) (rw (allocate_from-zero cs))
  where
    sub_zero : (c : OutstandingCharge) → 0 - min 0 (outstanding c) ≡ 0
    sub_zero c = omega arith
spent_on_other id (suc n) c cs ne = ground (
  arith,
  eq_iff c.charge_id id,
  spent_on-push id c (min (suc n) (outstanding c))
      (allocate_from (suc n - min (suc n) (outstanding c)) cs),
)

spent_on-pos :
    (id : String) (n : ℕ) (cs : List OutstandingCharge)
    → 0 < spent_on id (allocate_from n cs)
    → 0 < n
unfolding spent_on
spent_on-pos id zero cs h = rw (allocate_from-zero cs) at h
spent_on-pos id (suc n) cs h = omega arith

id_ne_of_mem :
    (x d : OutstandingCharge) (xs : List OutstandingCharge)
    → IsFresh x.charge_id xs
    → Memᴰ d xs
    → d.charge_id ≢ x.charge_id
id_ne_of_mem x d xs fresh m =
    All-mem (λ (c : OutstandingCharge). c.charge_id ≢ x.charge_id) xs fresh m

-- A charge that gets anything leaves those in front of it paid in full.
pub earlier_paid_in_full :
    (n : ℕ) (cs : List OutstandingCharge)
    → HasDistinctIds cs
    → IsOrdered cs
    → (c d : OutstandingCharge) → Memᴰ c cs
    → Memᴰ d cs
    → due c < due d
    → 0 < spent_on d.charge_id (allocate_from n cs)
    → spent_on c.charge_id (allocate_from n cs) ≡ outstanding c
earlier_paid_in_full n [] ids ord c d mc md lt pos = elim mc [ ]
earlier_paid_in_full n (x ∷ xs) (fresh, ids) (first, ord) c d mc (Memᴰ.head e) lt pos =
    absurd (not_before mc)
  where
    not_before : Memᴰ c (x ∷ xs) → ⊥
    not_before (Memᴰ.head p) = ground (arith, ap due e, ap due p)
    not_before (Memᴰ.tail m) =
        ground (arith, ap due e, All-mem (λ (y : OutstandingCharge). due x ≤ due y) xs first m)
earlier_paid_in_full n (x ∷ xs) (fresh, ids) (first, ord) c d (Memᴰ.head p) (Memᴰ.tail m) lt pos =
    let ne = id_ne_of_mem x d xs fresh m in
    let left = spent_on-pos _ _ _ (rw (spent_on_other d.charge_id n x xs ne) at pos) in
    subst (λ y. spent_on y.charge_id (allocate_from n (x ∷ xs)) ≡ outstanding y) (sym p)
      (omega (arith, spent_on_first n x xs fresh))
earlier_paid_in_full n (x ∷ xs) (fresh, ids) (first, ord) c d (Memᴰ.tail k) (Memᴰ.tail m) lt pos =
    let nd = id_ne_of_mem x d xs fresh m in
    let nc = id_ne_of_mem x c xs fresh k in
    rw (spent_on_other c.charge_id n x xs nc) (
      earlier_paid_in_full (n - min n (outstanding x)) xs ids ord c d k m lt
        (rw (spent_on_other d.charge_id n x xs nd) at pos))
