-- ===== src/Domain/Payment/Allocation/Laws.antt =====
-- packages/domain/src/payment.ts, `allocatePaymentOldestFirst`: when a payment is spread, and how.
use Prim.Native.Nat.{Ordering}
use mathlib.Core.List.{Memᴰ}
use manglam_balaji_managemen.Domain.Payment.Allocation.{
  OutstandingCharge, PaymentAllocation, outstanding, due, amount_refusal, balance_refusal,
  identity_refusal, total_refusal, allocate_from, sort, allocate_payment_oldest_first,
}
use manglam_balaji_managemen.Domain.Payment.Allocation.Greedy.{
  spent, spent_on, spent-allocate_from, PaysOneOf, allocate_from-PaysOneOf, earlier_paid_in_full,
}
use manglam_balaji_managemen.Domain.Payment.Allocation.Sorting.{
  owed-sort, All-sort, mem-sort, IsOrdered-sort, HasDistinctIds-sort,
}
use manglam_balaji_managemen.Js.Number.{Number, value}
use manglam_balaji_managemen.Types.Errors.{ok, or_refuse-eq-ok}
use manglam_balaji_managemen.Prelude.{
  ◌<◌, ◌≡◌, ◌↔◌, sym, subst, List, String, arith, All, All-map, All-mem,
}
use manglam_balaji_managemen.Domain.Payment.Allocation.Checks.{
  IsPayable, amount_refusal_iff, balance_refusal_iff, identity_refusal_iff, total_refusal_iff,
  within_itself,
}

module _ (locale_compare : String → String → Ordering) where
  spreads :
      (amount : Number) (charges : List OutstandingCharge) (xs : List PaymentAllocation)
      → allocate_payment_oldest_first locale_compare amount charges ≡ ok xs
      → IsPayable amount charges × (allocate_from (value amount) (sort locale_compare charges) ≡ xs)
  unfolding allocate_payment_oldest_first
  spreads amount charges xs h =
      let (a, h₁) = or_refuse-eq-ok (amount_refusal amount) _ h in
      let (b, h₂) = or_refuse-eq-ok (balance_refusal charges) _ h₁ in
      let (i, h₃) = or_refuse-eq-ok (identity_refusal charges) _ h₂ in
      let (t, h₄) = or_refuse-eq-ok (total_refusal amount charges) _ h₃ in
      let (safe, positive) = (amount_refusal_iff amount).0 a in
      let (total_safe, covered) = (total_refusal_iff amount charges).0 t in
      (
        record {
          safe = safe;
          positive = positive;
          sound = (balance_refusal_iff charges).0 b;
          distinct = (identity_refusal_iff charges).0 i;
          total_safe = total_safe;
          covered = covered;
        },
        cc h₄,
      )

  spreads_payable :
      (amount : Number) (charges : List OutstandingCharge)
      → IsPayable amount charges
      → allocate_payment_oldest_first locale_compare amount charges
        ≡ ok (allocate_from (value amount) (sort locale_compare charges))
  unfolding allocate_payment_oldest_first
  spreads_payable amount charges p = rw (
    (amount_refusal_iff amount).1 (p.safe, p.positive),
    (balance_refusal_iff charges).1 p.sound,
    (identity_refusal_iff charges).1 p.distinct,
    (total_refusal_iff amount charges).1 (p.total_safe, p.covered),
  )

  -- A payment is spread exactly if its amount is a positive safe integer, each charge has a date and a
  -- safe balance, no two charges share an identifier, and the balances have a safe sum that covers the
  -- amount.
  pub allocate_payment_oldest_first-accepts_iff :
      (amount : Number) (charges : List OutstandingCharge)
      → ((xs : List PaymentAllocation) × (allocate_payment_oldest_first locale_compare amount
              charges
            ≡ ok xs))
        ↔ IsPayable amount charges
  allocate_payment_oldest_first-accepts_iff amount charges =
      (λ (xs, h). (spreads amount charges xs h).0, λ p. (_, spreads_payable amount charges p))

  -- The allocations add up to the payment, and each is positive and goes to one of the charges, within
  -- its balance.
  pub allocate_payment_oldest_first-spent :
      (amount : Number) (charges : List OutstandingCharge) (xs : List PaymentAllocation)
      → allocate_payment_oldest_first locale_compare amount charges ≡ ok xs
      → (spent xs ≡ value amount) × All (PaysOneOf charges) xs
  allocate_payment_oldest_first-spent amount charges xs h =
      let (p, e) = spreads amount charges xs h in
      let sorted = sort locale_compare charges in
      subst (λ ys. (spent ys ≡ value amount) × All (PaysOneOf charges) ys) e
        (
          spent-allocate_from (value amount) sorted
              (omega (arith, p.covered, owed-sort locale_compare charges)),
          All-map
              (λ x (c, m, pays). (
                c,
                All-mem (λ d. Memᴰ d charges) sorted
                    (All-sort locale_compare (λ d. Memᴰ d charges) charges (within_itself charges))
                    m,
                pays,
              ))
              _ (allocate_from-PaysOneOf (value amount) sorted),
        )

  -- Oldest first: a charge that gets anything leaves every charge that is due earlier paid in full.
  pub allocate_payment_oldest_first-oldest_first :
      (amount : Number) (charges : List OutstandingCharge) (xs : List PaymentAllocation)
      → allocate_payment_oldest_first locale_compare amount charges ≡ ok xs
      → (c d : OutstandingCharge) → Memᴰ c charges
      → Memᴰ d charges
      → due c < due d
      → 0 < spent_on d.charge_id xs
      → spent_on c.charge_id xs ≡ outstanding c
  allocate_payment_oldest_first-oldest_first amount charges xs h c d mc md earlier pos =
      let (p, e) = spreads amount charges xs h in
      let sorted = sort locale_compare charges in
      subst (λ ys. spent_on c.charge_id ys ≡ outstanding c) e
        (earlier_paid_in_full (value amount) sorted
          (HasDistinctIds-sort locale_compare charges p.distinct)
          (IsOrdered-sort locale_compare charges) c d (mem-sort locale_compare c charges mc)
          (mem-sort locale_compare d charges md) earlier
          (subst (λ ys. 0 < spent_on d.charge_id ys) (sym e) pos))
