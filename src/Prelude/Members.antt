-- ===== src/Prelude/Members.antt =====
-- Selecting, sorting and pairing the rows of a table, and what that does to membership.
use Prim.Native.Nat.{ℕ, zero, suc}
use mathlib.Core.Path.{◌≡◌, refl, sym, ap, subst, ◌∙◌}
use mathlib.Core.Logic.{inl, inr}
use mathlib.Core.Bool.{Bool, true, false}
use mathlib.Core.Option.{Option, none, some}
use mathlib.Core.List.{List, [], ◌∷◌, map, Memᴰ}
use native.Mathlib.Omega.{arith}
use manglam_balaji_managemen.Prelude.Tests.{if◌then◌else◌, Bool-cases}
use manglam_balaji_managemen.Prelude.Lists.{uncons-mem, any, find}

module _ {ℓ} {A : Type ℓ} where
  abbrev pub filter : (A → Bool) → List A → List A
  filter p [] = []
  filter p (x ∷ xs) = if p x then x ∷ filter p xs else filter p xs

  abbrev pub take : ℕ → List A → List A
  take zero xs = []
  take (suc n) [] = []
  take (suc n) (x ∷ xs) = x ∷ take n xs

  -- `ORDER BY` a comparison that holds where the first row may come first.
  abbrev pub insert_sorted : (A → A → Bool) → A → List A → List A
  insert_sorted before x [] = x ∷ []
  insert_sorted before x (y ∷ ys) = if before x y then x ∷ y ∷ ys else y ∷ insert_sorted before x ys

  abbrev pub order_by : (A → A → Bool) → List A → List A
  order_by before [] = []
  order_by before (x ∷ xs) = insert_sorted before x (order_by before xs)

  pub filter-mem :
      (p : A → Bool) (xs : List A) {x : A} → Memᴰ x (filter p xs) → Memᴰ x xs × (p x ≡ true)
  filter-mem p [] m = elim m [ ]
  filter-mem p (y ∷ xs) {x} m = elim (Bool-cases (p y)) [
    | inl here ↦
        elim (uncons-mem
          (subst (λ b. Memᴰ x (if b then y ∷ filter p xs else filter p xs)) here m)) [
            | inl e ↦ (Memᴰ.head e, ap p e ∙ here)
            | inr later ↦ let (n, q) = filter-mem p xs later in (Memᴰ.tail n, q)
          ]
    | inr skipped ↦
        let (n, q) =
          filter-mem p xs
            (subst (λ b. Memᴰ x (if b then y ∷ filter p xs else filter p xs)) skipped m) in
        (Memᴰ.tail n, q)
  ]

  pub take-mem : (n : ℕ) (xs : List A) {x : A} → Memᴰ x (take n xs) → Memᴰ x xs
  take-mem zero xs m = elim m [ ]
  take-mem (suc n) [] m = elim m [ ]
  take-mem (suc n) (y ∷ xs) (Memᴰ.head e) = Memᴰ.head e
  take-mem (suc n) (y ∷ xs) (Memᴰ.tail m) = Memᴰ.tail (take-mem n xs m)

  pub insert_sorted-mem :
      (before : A → A → Bool) (y : A) (ys : List A) {x : A}
      → Memᴰ x (insert_sorted before y ys)
      → Memᴰ x (y ∷ ys)
  insert_sorted-mem before y [] m = m
  insert_sorted-mem before y (z ∷ ys) {x} m = elim (Bool-cases (before y z)) [
    | inl first ↦
        subst (λ b. Memᴰ x (if b then y ∷ z ∷ ys else z ∷ insert_sorted before y ys)) first m
    | inr after ↦
        elim (uncons-mem
          (subst (λ b. Memᴰ x (if b then y ∷ z ∷ ys else z ∷ insert_sorted before y ys)) after m)) [
            | inl e ↦ Memᴰ.tail (Memᴰ.head e)
            | inr later ↦ elim (uncons-mem (insert_sorted-mem before y ys later)) [
              | inl e ↦ Memᴰ.head e
              | inr n ↦ Memᴰ.tail (Memᴰ.tail n)
            ]
          ]
  ]

  pub order_by-mem :
      (before : A → A → Bool) (xs : List A) {x : A} → Memᴰ x (order_by before xs) → Memᴰ x xs
  order_by-mem before [] m = m
  order_by-mem before (y ∷ xs) m =
      elim (uncons-mem (insert_sorted-mem before y (order_by before xs) m)) [
        | inl e ↦ Memᴰ.head e
        | inr later ↦ Memᴰ.tail (order_by-mem before xs later)
      ]

module _ {ℓ κ} {A : Type ℓ} {B : Type κ} where
  pub map-mem :
      (f : A → B) (xs : List A) {y : B} → Memᴰ y (map f xs) → (x : A) × Memᴰ x xs × (y ≡ f x)
  map-mem f [] m = elim m [ ]
  map-mem f (x ∷ xs) (Memᴰ.head e) = (x, Memᴰ.head refl, e)
  map-mem f (x ∷ xs) (Memᴰ.tail m) = let (z, n, e) = map-mem f xs m in (z, Memᴰ.tail n, e)

module _ {ℓ} {A : Type ℓ} (p : A → Bool) where
  pub find_here : (x : A) (xs : List A) → p x ≡ true → find p (x ∷ xs) ≡ some x
  find_here x xs h = rw (h, find)

  pub find_there : (x : A) (xs : List A) → p x ≡ false → find p (x ∷ xs) ≡ find p xs
  find_there x xs h = rw (h, find)

  pub any-mem : (xs : List A) → any p xs ≡ true → (x : A) × Memᴰ x xs × (p x ≡ true)
  any-mem [] h = cc
  any-mem (x ∷ xs) h = elim (Bool-cases (p x)) [
    | inl here ↦ (x, Memᴰ.head refl, here)
    | inr later ↦ let (y, m, q) = any-mem xs (ground arith) in (y, Memᴰ.tail m, q)
  ]

  pub any_of_mem : (xs : List A) {x : A} → Memᴰ x xs → p x ≡ true → any p xs ≡ true
  any_of_mem [] m q = elim m [ ]
  any_of_mem (y ∷ ys) (Memᴰ.head e) q = ground arith
  any_of_mem (y ∷ ys) (Memᴰ.tail m) q = ground (arith, any_of_mem ys m q)

pub some-ne-none {ℓ} : {A : Type ℓ} {a : A} {o : Option A} → o ≡ none → o ≡ some a → ⊥
some-ne-none p q = cc (p, q)

-- Rows that keep their keys.
pub map-same_keys {ℓ κ} :
    {A : Type ℓ} {K : Type κ} (key : A → K) (f : A → A)
    → ((x : A) → key (f x) ≡ key x)
    → (xs : List A) → map key (map f xs) ≡ map key xs
map-same_keys key f h [] = refl
map-same_keys key f h (x ∷ xs) = cc (h x, map-same_keys key f h xs)

-- No value stands twice.
abbrev pub Distinct {ℓ} : {A : Type ℓ} → List A → Type ℓ
Distinct [] = Unit
Distinct (x ∷ xs) = ¬ (Memᴰ x xs) × Distinct xs

module _ {ℓ κ} {A : Type ℓ} {B : Type κ} (f : A → B) where
  pub mem-map : (xs : List A) {x : A} → Memᴰ x xs → Memᴰ (f x) (map f xs)
  mem-map (y ∷ xs) (Memᴰ.head e) = Memᴰ.head (ap f e)
  mem-map (y ∷ xs) (Memᴰ.tail m) = Memᴰ.tail (mem-map xs m)
  mem-map [] m = elim m [ ]

  -- Rows with distinct keys are told apart by their keys.
  pub eq_of_key :
      (xs : List A) {x y : A} → Distinct (map f xs) → Memᴰ x xs → Memᴰ y xs → f x ≡ f y → x ≡ y
  eq_of_key [] h m n e = elim m [ ]
  eq_of_key (z ∷ xs) h (Memᴰ.head p) (Memᴰ.head q) e = p ∙ sym q
  eq_of_key (z ∷ xs) {x} {y} h (Memᴰ.head p) (Memᴰ.tail n) e =
      absurd (h.0 (subst (λ k. Memᴰ k (map f xs)) (sym e ∙ ap f p) (mem-map xs n)))
  eq_of_key (z ∷ xs) h (Memᴰ.tail m) (Memᴰ.head q) e =
      absurd (h.0 (subst (λ k. Memᴰ k (map f xs)) (e ∙ ap f q) (mem-map xs m)))
  eq_of_key (z ∷ xs) h (Memᴰ.tail m) (Memᴰ.tail n) e = eq_of_key xs h.1 m n e

module _ {ℓ} {A : Type ℓ} (R : A → A → Type 0) where
  -- Row by row, the first table is related to the second.
  abbrev pub Rowwise : List A → List A → Type 0
  Rowwise [] [] = Unit
  Rowwise (x ∷ xs) (y ∷ ys) = R x y × Rowwise xs ys
  Rowwise _ _ = ⊥

  pub Rowwise-refl : ((x : A) → R x x) → (xs : List A) → Rowwise xs xs
  Rowwise-refl r [] = tt
  Rowwise-refl r (x ∷ xs) = (r x, Rowwise-refl r xs)

  pub Rowwise-trans :
      ((x y z : A) → R x y → R y z → R x z)
      → (xs ys zs : List A) → Rowwise xs ys
      → Rowwise ys zs
      → Rowwise xs zs
  Rowwise-trans t [] [] [] p q = tt
  Rowwise-trans t (x ∷ xs) (y ∷ ys) (z ∷ zs) (p, ps) (q, qs) =
      (t x y z p q, Rowwise-trans t xs ys zs ps qs)
  Rowwise-trans t [] (y ∷ ys) zs p q = elim p [ ]
  Rowwise-trans t (x ∷ xs) [] zs p q = elim p [ ]
  Rowwise-trans t (x ∷ xs) (y ∷ ys) [] p q = elim q [ ]
  Rowwise-trans t [] [] (z ∷ zs) p q = elim q [ ]

  pub Rowwise-map :
      (f : A → A) (xs : List A) → ((x : A) → Memᴰ x xs → R x (f x)) → Rowwise xs (map f xs)
  Rowwise-map f [] r = tt
  Rowwise-map f (x ∷ xs) r = (r x (Memᴰ.head refl), Rowwise-map f xs (λ y m. r y (Memᴰ.tail m)))

  pub Rowwise-mem :
      (xs ys : List A) {y : A} → Rowwise xs ys → Memᴰ y ys → (x : A) × Memᴰ x xs × R x y
  Rowwise-mem [] [] r m = elim m [ ]
  Rowwise-mem [] (z ∷ ys) r m = elim r [ ]
  Rowwise-mem (x ∷ xs) [] r m = elim m [ ]
  Rowwise-mem (x ∷ xs) (z ∷ ys) (r, rs) (Memᴰ.head e) =
      (x, Memᴰ.head refl, subst (λ w. R x w) (sym e) r)
  Rowwise-mem (x ∷ xs) (z ∷ ys) (r, rs) (Memᴰ.tail m) =
      let (w, n, q) = Rowwise-mem xs ys rs m in (w, Memᴰ.tail n, q)

  pub Rowwise-keys {κ} :
      {K : Type κ} (key : A → K) (xs ys : List A)
      → ((x y : A) → R x y → key x ≡ key y)
      → Rowwise xs ys
      → map key xs ≡ map key ys
  Rowwise-keys key [] [] k r = refl
  Rowwise-keys key [] (y ∷ ys) k r = elim r [ ]
  Rowwise-keys key (x ∷ xs) [] k r = elim r [ ]
  Rowwise-keys key (x ∷ xs) (y ∷ ys) k (r, rs) = cc (k x y r, Rowwise-keys key xs ys k rs)
