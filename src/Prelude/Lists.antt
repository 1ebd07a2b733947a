-- ===== src/Prelude/Lists.antt =====
-- Lists measured by native numbers, and the array methods that the program calls on them.
use Prim.Native.Nat.{ℕ, suc, ◌+◌}
use mathlib.Core.Path.{◌≡◌, sym, subst}
use mathlib.Core.Logic.{◌⊎◌, inl, inr}
use mathlib.Core.Bool.{Bool, true, false, ◌||◌, ◌&&◌}
use mathlib.Core.Option.{Option, none, some}
use mathlib.Core.List.{List, [], ◌∷◌, ◌++◌, Memᴰ}
use native.Mathlib.Omega.{arith}
use manglam_balaji_managemen.Prelude.Tests.{Bool-cases}

-- `===` on a type whose equality is decided.
abbrev pub same {ℓ} : {A : Type ℓ} → Discrete A → A → A → Bool
same d a b = elim (d a b) [ yes _ ↦ true | no _ ↦ false ]

pub same_refl {ℓ} : {A : Type ℓ} (d : Discrete A) (a : A) → same d a a ≡ true
same_refl d a = ground arith

pub same→eq {ℓ} : {A : Type ℓ} (d : Discrete A) (a b : A) → same d a b ≡ true → a ≡ b
same→eq d a b h = ground arith

module _ {ℓ} {A : Type ℓ} where
  abbrev pub length : List A → ℕ
  length [] = 0
  length (x ∷ xs) = suc (length xs)

  pub length-append : (xs ys : List A) → length (xs ++ ys) ≡ length xs + length ys
  length-append [] ys = omega arith
  length-append (x ∷ xs) ys = omega (arith, length-append xs ys)

  -- `xs.some(p)`
  abbrev pub any : (A → Bool) → List A → Bool
  any p [] = false
  any p (x ∷ xs) = p x || any p xs

  abbrev pub all : (A → Bool) → List A → Bool
  all p [] = true
  all p (x ∷ xs) = p x && all p xs

  -- `xs.find(p)`
  abbrev pub find : (A → Bool) → List A → Option A
  find p [] = none
  find p (x ∷ xs) = elim (p x) [ true ↦ some x | false ↦ find p xs ]

  -- `xs.includes(x)`
  abbrev pub includes : Discrete A → List A → A → Bool
  includes d [] x = false
  includes d (y ∷ ys) x = same d y x || includes d ys x

module _ {ℓ κ} {A : Type ℓ} (P : A → Type κ) where
  abbrev pub All : List A → Type κ
  All [] = Unit
  All (x ∷ xs) = P x × All xs

module _ {ℓ κ ι} {A : Type ℓ} {P : A → Type κ} {Q : A → Type ι} where
  pub All-map : ((x : A) → P x → Q x) → (xs : List A) → All P xs → All Q xs
  All-map f [] h = tt
  All-map f (x ∷ xs) (p, h) = (f x p, All-map f xs h)

module _ {ℓ κ} {A : Type ℓ} (P : A → Type κ) where
  pub All-mem : (xs : List A) {x : A} → All P xs → Memᴰ x xs → P x
  All-mem [] h m = elim m [ ]
  All-mem (y ∷ xs) (p, h) (Memᴰ.head e) = subst P (sym e) p
  All-mem (y ∷ xs) (p, h) (Memᴰ.tail m) = All-mem xs h m

module _ {ℓ} {A : Type ℓ} (d : Discrete A) where
  pub includes→mem : (xs : List A) (a : A) → includes d xs a ≡ true → Memᴰ a xs
  includes→mem [] a h = cc
  includes→mem (x ∷ xs) a h = elim (d x a) [
    | yes e ↦ Memᴰ.head (sym e)
    | no ne ↦ Memᴰ.tail (includes→mem xs a (ground arith))
  ]

  pub mem→includes : (xs : List A) {a : A} → Memᴰ a xs → includes d xs a ≡ true
  mem→includes [] m = elim m [ ]
  mem→includes (x ∷ xs) (Memᴰ.head e) = ground arith
  mem→includes (x ∷ xs) (Memᴰ.tail m) = ground (arith, mem→includes xs m)

module _ {ℓ} {A : Type ℓ} (p : A → Bool) where
  pub find-some : (xs : List A) (x : A) → find p xs ≡ some x → Memᴰ x xs × (p x ≡ true)
  find-some [] x h = cc
  find-some (y ∷ ys) x h = elim (Bool-cases (p y)) [
    | inl here ↦ let e : y ≡ x = ground arith in (Memᴰ.head (sym e), subst (λ z. p z ≡ true) e here)
    | inr there ↦ let (m, q) = find-some ys x (ground arith) in (Memᴰ.tail m, q)
  ]

  pub find_of_mem : (xs : List A) {x : A} → Memᴰ x xs → p x ≡ true → (y : A) × (find p xs ≡ some y)
  find_of_mem [] m q = elim m [ ]
  find_of_mem (y ∷ ys) (Memᴰ.head e) q =
      let here : p y ≡ true = subst (λ z. p z ≡ true) e q in (y, rw (here, find))
  find_of_mem (y ∷ ys) (Memᴰ.tail m) q = elim (Bool-cases (p y)) [
    | inl here ↦ (y, ground arith)
    | inr there ↦ let (z, f) = find_of_mem ys m q in (z, ground arith)
  ]

pub uncons-mem {ℓ} : {A : Type ℓ} {x y : A} {ys : List A} → Memᴰ x (y ∷ ys) → (x ≡ y) ⊎ Memᴰ x ys
uncons-mem (Memᴰ.head e) = inl e
uncons-mem (Memᴰ.tail m) = inr m
