-- ===== src/Domain/Payment/Allocation.antt =====
-- packages/domain/src/payment.ts, `allocatePaymentOldestFirst`: a payment is spread over the charges
-- that are due first. `localeCompare`, which breaks ties, is a parameter: the text that it orders
-- decides nothing but the order of charges that are due at the same time.
pub mod Greedy
pub mod Sorting
pub mod Checks
pub mod Laws
use Prim.Native.Nat.{compare, Ordering}
use manglam_balaji_managemen.Js.Date.{date_parse}
use manglam_balaji_managemen.Js.Number.{
  Number, is_safe_integer, is_bad_amount, value, max_safe_integer,
}
use manglam_balaji_managemen.Js.Sets.{add_all}
use manglam_balaji_managemen.Types.Errors.{
  ApiErrorCode, DomainError, domain_error, Result, ok, or_refuse, refuse_if,
}
use manglam_balaji_managemen.Prelude.{
  ℕ, ◌+◌, ◌-◌, Bool, true, false, not, ◌&&◌, ◌||◌, List, [], ◌∷◌, Option, none, some, String, any,
  ltb, leb, ◌==◌, str_eq, if◌then◌else◌, length, map, min,
}

pub record OutstandingCharge : Type 0 where
  pub charge_id : String
  pub due_at : String
  pub outstanding_minor : Number

pub record PaymentAllocation : Type 0 where
  pub charge_id : String
  pub amount_minor : ℕ

allocation_invalid : String → DomainError
allocation_invalid message = domain_error ApiErrorCode.payment_allocation_invalid message []

-- What the loop and the sort read of a charge whose balance and date have been checked.
abbrev pub outstanding : OutstandingCharge → ℕ
outstanding c = value c.outstanding_minor

abbrev pub time_or_zero : Option ℕ → ℕ
time_or_zero none = 0
time_or_zero (some t) = t

unfoldable pub due : OutstandingCharge → ℕ
due c = time_or_zero (date_parse c.due_at)

pub amount_refusal : Number → Option DomainError
unfolding allocation_invalid
amount_refusal amount =
    refuse_if (not (is_safe_integer amount) || leb (value amount) 0)
      (allocation_invalid "Payment amount must be positive minor units.")

abbrev is_nan : Option ℕ → Bool
is_nan none = true
is_nan (some _) = false

-- `!Number.isFinite(Date.parse(dueAt)) || !Number.isSafeInteger(outstanding) || outstanding < 0`
is_bad_balance : OutstandingCharge → Bool
is_bad_balance c = is_nan (date_parse c.due_at) || is_bad_amount c.outstanding_minor

pub balance_refusal : List OutstandingCharge → Option DomainError
unfolding allocation_invalid is_bad_balance
balance_refusal charges =
    refuse_if (any is_bad_balance charges) (allocation_invalid "Outstanding balances are invalid.")

abbrev pub charge_ids : List OutstandingCharge → List String
charge_ids = map (λ c. c.charge_id)

-- `new Set(ids).size !== charges.length`
pub identity_refusal : List OutstandingCharge → Option DomainError
unfolding allocation_invalid
identity_refusal charges =
    refuse_if (not (length (add_all str_eq [] (charge_ids charges)) == length charges))
      (allocation_invalid "Charge identifiers must be unique.")

-- `charges.reduce((sum, charge) => sum + charge.outstandingMinor, 0)`. The sum of floats is exact up
-- to the safe integers, and past them no sum of further balances comes back.
abbrev pub sum_from : ℕ → List OutstandingCharge → ℕ
sum_from sum [] = sum
sum_from sum (c ∷ cs) = sum_from (sum + outstanding c) cs

abbrev pub total_outstanding : List OutstandingCharge → ℕ
total_outstanding = sum_from 0

pub total_refusal : Number → List OutstandingCharge → Option DomainError
unfolding allocation_invalid
total_refusal amount charges =
    if not (leb (total_outstanding charges) max_safe_integer)
    then some (allocation_invalid "Outstanding balance total is unsafe.")
    else refuse_if (ltb (total_outstanding charges) (value amount))
        (allocation_invalid "Payment exceeds the selected outstanding balance.")

-- `if (allocated > 0) allocations.push(…)`
abbrev pub push : OutstandingCharge → ℕ → List PaymentAllocation → List PaymentAllocation
push c allocated rest =
    if ltb 0 allocated
    then record { charge_id = c.charge_id; amount_minor = allocated } ∷ rest
    else rest

-- The loop over the ordered charges: `remaining` is what is left of the payment.
unfoldable pub allocate_from : ℕ → List OutstandingCharge → List PaymentAllocation
allocate_from remaining [] = []
allocate_from remaining (c ∷ cs) =
    let allocated = min remaining (outstanding c) in
    let rest = allocate_from (remaining - allocated) cs in
    if remaining == 0 then [] else push c allocated rest

abbrev pub is_after : Ordering → Bool
is_after Ordering.gt = true
is_after _ = false

module _ (locale_compare : String → String → Ordering) where
  -- `Date.parse(left.dueAt) - Date.parse(right.dueAt) || left.chargeId.localeCompare(…)`, by its sign
  comparator : OutstandingCharge → OutstandingCharge → Ordering
  comparator left right = elim (compare (due left) (due right)) [
    | Ordering.eq ↦ locale_compare left.charge_id right.charge_id
    | other ↦ other
  ]

  -- `[...charges].sort(comparator)`, which is stable: a charge stays in front of those that compare
  -- equal.
  insert : OutstandingCharge → List OutstandingCharge → List OutstandingCharge
  insert c [] = c ∷ []
  insert c (d ∷ ds) = if is_after (comparator c d) then d ∷ insert c ds else c ∷ d ∷ ds

  pub sort : List OutstandingCharge → List OutstandingCharge
  sort [] = []
  sort (c ∷ cs) = insert c (sort cs)

  unfoldable pub allocate_payment_oldest_first :
      Number → List OutstandingCharge → Result (List PaymentAllocation)
  unfolding amount_refusal balance_refusal identity_refusal total_refusal allocate_from sort insert
      comparator
  allocate_payment_oldest_first amount charges = or_refuse (amount_refusal amount) (
      or_refuse (balance_refusal charges) (
        or_refuse (identity_refusal charges) (
          or_refuse (total_refusal amount charges)
            (ok (allocate_from (value amount) (sort charges))))))
