-- ===== src/Js/Number.antt =====
-- JavaScript numbers, as far as the program looks at them: an integer, or one of the values that
-- `Number.isFinite` and `Number.isSafeInteger` refuse. Fractions are left out: wherever the
-- modelled code meets a caller's number it first asks for a safe integer, but for two durations in
-- days and minutes, which are taken to be whole.
use manglam_balaji_managemen.Prelude.{
  ℕ, suc, ◌-◌, ◌^◌, ◌≤◌, Bool, true, false, leb, ◌≡◌, refl, not, ◌||◌, arith,
}

pub data Number : Type 0 where
  nan infinite : Number
  integer : ℕ → Number
  -- `negative n` is -(n + 1)
  negative : ℕ → Number

abbrev pub max_safe_integer : ℕ
max_safe_integer = 2 ^ 53 - 1

-- `Number.isFinite`
abbrev pub is_finite : Number → Bool
is_finite nan = false
is_finite infinite = false
is_finite _ = true

-- `Number.isSafeInteger`
abbrev pub is_safe_integer : Number → Bool
is_safe_integer nan = false
is_safe_integer infinite = false
is_safe_integer (integer n) = leb n max_safe_integer
is_safe_integer (negative n) = leb (suc n) max_safe_integer

-- `n < 0` and `n <= 0` on a finite number
abbrev pub is_negative : Number → Bool
is_negative (negative _) = true
is_negative _ = false

-- The value of a number that has passed the tests for a safe integer and for not being negative.
abbrev pub value : Number → ℕ
value (integer n) = n
value _ = 0

-- A safe integer that is not negative.
abbrev pub IsAmount : Number → ℕ → Type 0
IsAmount x n = (x ≡ integer n) × (n ≤ max_safe_integer)

-- The tests that the program makes of an amount.
abbrev pub is_bad_amount : Number → Bool
is_bad_amount amount = not (is_safe_integer amount) || is_negative amount

pub IsAmount_of_good : (x : Number) → is_bad_amount x ≡ false → IsAmount x (value x)
IsAmount_of_good (integer n) h = (refl, ground arith)
IsAmount_of_good (negative n) h = ground arith
IsAmount_of_good nan h = cc
IsAmount_of_good infinite h = cc

pub is_bad_amount-IsAmount :
    (x : Number) (n : ℕ) → IsAmount x n → (is_bad_amount x ≡ false) × (value x ≡ n)
is_bad_amount-IsAmount x n (e, le) = rw e (ground arith)
