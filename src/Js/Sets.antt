-- ===== src/Js/Sets.antt =====
-- A JavaScript `Set`, in the order of insertion, given by its elements and a test for equality.
pub mod Laws
use manglam_balaji_managemen.Prelude.{
  ℕ, suc, ◌+◌, ◌≤◌, ◌≡◌, ◌≢◌, ◌↔◌, refl, Bool, true, false, List, [], ◌∷◌, ◌++◌, arith, length,
  Bool-cases, inl, inr, ◌||◌, Option, if◌then◌else◌,
}

module _ {A : Type 0} (eq : A → A → Bool) where
  -- `set.has(x)` on a list that holds the elements.
  abbrev pub has : List A → A → Bool
  has [] x = false
  has (y ∷ ys) x = eq y x || has ys x

  -- `set.add(x)`
  abbrev pub add : List A → A → List A
  add ys x = if has ys x then ys else ys ++ x ∷ []

  -- `for (const x of xs) set.add(x)`
  abbrev pub add_all : List A → List A → List A
  add_all set [] = set
  add_all set (x ∷ xs) = add_all (add set x) xs
