-- ===== src/Domain/Payment/Allocation/Sorting.antt =====
-- packages/domain/src/payment.ts, `allocatePaymentOldestFirst`: what the sort keeps and orders.
use Prim.Native.Nat.{Ordering}
use mathlib.Core.List.{Memᴰ}
use manglam_balaji_managemen.Domain.Payment.Allocation.{
  OutstandingCharge, outstanding, due, sort, insert, comparator, is_after,
}
use manglam_balaji_managemen.Domain.Payment.Allocation.Greedy.{
  owed, IsFresh, HasDistinctIds, IsOrdered,
}
use manglam_balaji_managemen.Prelude.{
  ◌+◌, ◌≤◌, ◌≡◌, ◌≢◌, inl, inr, refl, sym, true, false, List, [], ◌∷◌, String, arith, All, All-map,
  Bool-cases,
}

-- Sorting keeps what is owed and which charges there are, and orders them by their due times.
module _ (locale_compare : String → String → Ordering) where
  owed-insert :
      (c : OutstandingCharge) (ds : List OutstandingCharge)
      → owed (insert locale_compare c ds) ≡ outstanding c + owed ds
  unfolding insert owed
  owed-insert c [] = refl
  owed-insert c (d ∷ ds) = ground (arith, owed-insert c ds)

  pub owed-sort : (cs : List OutstandingCharge) → owed (sort locale_compare cs) ≡ owed cs
  unfolding sort owed
  owed-sort [] = refl
  owed-sort (c ∷ cs) = omega (arith, owed-insert c (sort locale_compare cs), owed-sort cs)

  All-insert :
      (P : OutstandingCharge → Type 0) (c : OutstandingCharge) (ds : List OutstandingCharge)
      → P c
      → All P ds
      → All P (insert locale_compare c ds)
  unfolding insert
  All-insert P c [] p h = (p, tt)
  All-insert P c (d ∷ ds) p (q, h) = elim (Bool-cases (is_after (comparator locale_compare c d))) [
    | inl after ↦ rw after (q, All-insert P c ds p h)
    | inr before ↦ rw before (p, (q, h))
  ]

  pub All-sort :
      (P : OutstandingCharge → Type 0) (cs : List OutstandingCharge)
      → All P cs
      → All P (sort locale_compare cs)
  unfolding sort
  All-sort P [] h = tt
  All-sort P (c ∷ cs) (p, h) = All-insert P c (sort locale_compare cs) p (All-sort P cs h)

  mem-insert-self :
      (c x : OutstandingCharge) (ds : List OutstandingCharge)
      → x ≡ c
      → Memᴰ x (insert locale_compare c ds)
  unfolding insert
  mem-insert-self c x [] e = Memᴰ.head e
  mem-insert-self c x (d ∷ ds) e = elim (Bool-cases (is_after (comparator locale_compare c d))) [
    | inl after ↦ rw after (Memᴰ.tail (mem-insert-self c x ds e))
    | inr before ↦ rw before (Memᴰ.head e)
  ]

  mem-insert :
      (c x : OutstandingCharge) (ds : List OutstandingCharge)
      → Memᴰ x ds
      → Memᴰ x (insert locale_compare c ds)
  unfolding insert
  mem-insert c x [] m = elim m [ ]
  mem-insert c x (d ∷ ds) (Memᴰ.head e) =
      elim (Bool-cases (is_after (comparator locale_compare c d))) [
        | inl after ↦ rw after (Memᴰ.head e)
        | inr before ↦ rw before (Memᴰ.tail (Memᴰ.head e))
      ]
  mem-insert c x (d ∷ ds) (Memᴰ.tail m) =
      elim (Bool-cases (is_after (comparator locale_compare c d))) [
        | inl after ↦ rw after (Memᴰ.tail (mem-insert c x ds m))
        | inr before ↦ rw before (Memᴰ.tail (Memᴰ.tail m))
      ]

  pub mem-sort :
      (x : OutstandingCharge) (cs : List OutstandingCharge)
      → Memᴰ x cs
      → Memᴰ x (sort locale_compare cs)
  unfolding sort
  mem-sort x [] m = elim m [ ]
  mem-sort x (c ∷ cs) (Memᴰ.head e) = mem-insert-self c x _ e
  mem-sort x (c ∷ cs) (Memᴰ.tail m) = mem-insert c x _ (mem-sort x cs m)

  comparator-after :
      (c d : OutstandingCharge) → is_after (comparator locale_compare c d) ≡ true → due d ≤ due c
  unfolding comparator
  comparator-after c d h = ground arith

  comparator-before :
      (c d : OutstandingCharge) → is_after (comparator locale_compare c d) ≡ false → due c ≤ due d
  unfolding comparator
  comparator-before c d h = ground arith

  IsOrdered-insert :
      (c : OutstandingCharge) (ds : List OutstandingCharge)
      → IsOrdered ds
      → IsOrdered (insert locale_compare c ds)
  unfolding insert
  IsOrdered-insert c [] o = (tt, tt)
  IsOrdered-insert c (d ∷ ds) (first, o) =
      elim (Bool-cases (is_after (comparator locale_compare c d))) [
        | inl after ↦ rw after (
          All-insert (λ y. due d ≤ due y) c ds (comparator-after c d after) first,
          IsOrdered-insert c ds o,
        )
        | inr before ↦
            let le = comparator-before c d before in
            rw before ((le, All-map (λ y (k : due d ≤ due y). omega arith) ds first), (first, o))
      ]

  pub IsOrdered-sort : (cs : List OutstandingCharge) → IsOrdered (sort locale_compare cs)
  unfolding sort
  IsOrdered-sort [] = tt
  IsOrdered-sort (c ∷ cs) = IsOrdered-insert c (sort locale_compare cs) (IsOrdered-sort cs)

  HasDistinctIds-insert :
      (c : OutstandingCharge) (ds : List OutstandingCharge)
      → IsFresh c.charge_id ds
      → HasDistinctIds ds
      → HasDistinctIds (insert locale_compare c ds)
  unfolding insert
  HasDistinctIds-insert c [] f h = (tt, tt)
  HasDistinctIds-insert c (d ∷ ds) (ne, f) (g, h) =
      elim (Bool-cases (is_after (comparator locale_compare c d))) [
        | inl after ↦ rw after (
          All-insert (λ y. y.charge_id ≢ d.charge_id) c ds (λ e. ne (sym e)) g,
          HasDistinctIds-insert c ds f h,
        )
        | inr before ↦ rw before ((ne, f), (g, h))
      ]

  pub HasDistinctIds-sort :
      (cs : List OutstandingCharge) → HasDistinctIds cs → HasDistinctIds (sort locale_compare cs)
  unfolding sort
  HasDistinctIds-sort [] h = tt
  HasDistinctIds-sort (c ∷ cs) (f, h) =
      HasDistinctIds-insert c (sort locale_compare cs)
        (All-sort (λ y. y.charge_id ≢ c.charge_id) cs f) (HasDistinctIds-sort cs h)
