-- ===== src/Js/Sets/Laws.antt =====
-- The size of a set tells whether the elements were distinct.
use mathlib.Core.List.{Memᴰ}
use manglam_balaji_managemen.Js.Sets.{has, add_all}
use manglam_balaji_managemen.Prelude.{
  ◌+◌, ◌≤◌, ◌≡◌, ◌↔◌, refl, Bool, true, false, List, [], ◌∷◌, ◌++◌, arith, length, Bool-cases,
  subst, sym, ◌⊎◌, inl, inr, length-append, same,
}

-- No element of the list is in the set, and none occurs twice.
module _ {A : Type 0} (eq : A → A → Bool) where
  abbrev pub AreNew : List A → List A → Type 0
  AreNew set [] = Unit
  AreNew set (x ∷ xs) = (has eq set x ≡ false) × AreNew (set ++ x ∷ []) xs

  length-add_all-le : (set xs : List A) → length (add_all eq set xs) ≤ length set + length xs
  length-add_all-le set [] = omega arith
  length-add_all-le set (x ∷ xs) = elim (Bool-cases (has eq set x)) [
    | inl old ↦ rw old (omega (arith, length-add_all-le set xs))
    | inr new ↦
        rw new (omega (arith, length-add_all-le (set ++ x ∷ []) xs, length-append set (x ∷ [])))
  ]

  pub AreNew-iff_length :
      (set xs : List A) → (length (add_all eq set xs) ≡ length set + length xs) ↔ AreNew set xs
  AreNew-iff_length set [] = (λ _. tt, λ _. omega arith)
  AreNew-iff_length set (x ∷ xs) = elim (Bool-cases (has eq set x)) [
    | inl old ↦ (
      λ h. absurd (omega (arith, length-add_all-le set xs, rw old at h)),
      λ (new, _). cc (old, new),
    )
    | inr new ↦
        let (to, from) = AreNew-iff_length (set ++ x ∷ []) xs in
        rw new (
          λ h. (refl, to (omega (arith, h, length-append set (x ∷ [])))),
          λ (_, rest). omega (arith, from rest, length-append set (x ∷ [])),
        )
  ]

-- A set holds what it held and what was added.
module _ {A : Type 0} (d : Discrete A) where
  pub add_all-mem :
      (set xs : List A) (x : A) → Memᴰ x (add_all (same d) set xs) → Memᴰ x set ⊎ Memᴰ x xs
  add_all-mem set [] x m = inl m
  add_all-mem set (y ∷ xs) x m = elim (Bool-cases (has (same d) set y)) [
    | inl old ↦ later (add_all-mem set xs x (rw old at m))
    | inr new ↦ split (add_all-mem (set ++ y ∷ []) xs x (rw new at m))
  ]
    where
      later : Memᴰ x set ⊎ Memᴰ x xs → Memᴰ x set ⊎ Memᴰ x (y ∷ xs)
      later (inl k) = inl k
      later (inr k) = inr (Memᴰ.tail k)

      last : (zs : List A) → Memᴰ x (zs ++ y ∷ []) → Memᴰ x zs ⊎ Memᴰ x (y ∷ xs)
      last [] (Memᴰ.head e) = inr (Memᴰ.head e)
      last [] (Memᴰ.tail k) = elim k [ ]
      last (z ∷ zs) (Memᴰ.head e) = inl (Memᴰ.head e)
      last (z ∷ zs) (Memᴰ.tail k) = onto (last zs k)
        where
          onto : Memᴰ x zs ⊎ Memᴰ x (y ∷ xs) → Memᴰ x (z ∷ zs) ⊎ Memᴰ x (y ∷ xs)
          onto (inl j) = inl (Memᴰ.tail j)
          onto (inr j) = inr j

      split : Memᴰ x (set ++ y ∷ []) ⊎ Memᴰ x xs → Memᴰ x set ⊎ Memᴰ x (y ∷ xs)
      split (inl k) = last set k
      split (inr k) = inr (Memᴰ.tail k)

mem-append_left : {A : Type 0} {x : A} (xs ys : List A) → Memᴰ x xs → Memᴰ x (xs ++ ys)
mem-append_left [] ys m = elim m [ ]
mem-append_left (z ∷ zs) ys (Memᴰ.head e) = Memᴰ.head e
mem-append_left (z ∷ zs) ys (Memᴰ.tail m) = Memᴰ.tail (mem-append_left zs ys m)

mem-append_last : {A : Type 0} (xs : List A) (x : A) → Memᴰ x (xs ++ x ∷ [])
mem-append_last [] x = Memᴰ.head refl
mem-append_last (z ∷ zs) x = Memᴰ.tail (mem-append_last zs x)

module _ {A : Type 0} (d : Discrete A) where
  has→mem : (xs : List A) (a : A) → has (same d) xs a ≡ true → Memᴰ a xs
  has→mem [] a h = cc
  has→mem (x ∷ xs) a h = elim (d x a) [
    | yes e ↦ Memᴰ.head (sym e)
    | no ne ↦ Memᴰ.tail (has→mem xs a (ground arith))
  ]

  pub add_all-keeps : (set xs : List A) (x : A) → Memᴰ x set → Memᴰ x (add_all (same d) set xs)
  add_all-keeps set [] x m = m
  add_all-keeps set (y ∷ xs) x m = elim (Bool-cases (has (same d) set y)) [
    | inl old ↦ rw old (add_all-keeps set xs x m)
    | inr new ↦ rw new (add_all-keeps (set ++ y ∷ []) xs x (mem-append_left set (y ∷ []) m))
  ]

  pub add_all-adds : (set xs : List A) (x : A) → Memᴰ x xs → Memᴰ x (add_all (same d) set xs)
  add_all-adds set [] x m = elim m [ ]
  add_all-adds set (y ∷ xs) x (Memᴰ.head e) = elim (Bool-cases (has (same d) set y)) [
    | inl old ↦
        rw old (add_all-keeps set xs x (subst (λ z. Memᴰ z set) (sym e) (has→mem set y old)))
    | inr new ↦ rw new (
        add_all-keeps (set ++ y ∷ []) xs x
          (subst (λ z. Memᴰ z (set ++ y ∷ [])) (sym e) (mem-append_last set y)))
  ]
  add_all-adds set (y ∷ xs) x (Memᴰ.tail m) = elim (Bool-cases (has (same d) set y)) [
    | inl old ↦ rw old (add_all-adds set xs x m)
    | inr new ↦ rw new (add_all-adds (set ++ y ∷ []) xs x m)
  ]
