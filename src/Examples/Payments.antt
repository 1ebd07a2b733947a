-- ===== src/Examples/Payments.antt =====
-- packages/domain/src/payment.ts at concrete payments.
use Prim.Native.Nat.{compare, Ordering}
use mathlib.Core.List.{Memᴰ}
use manglam_balaji_managemen.Domain.StateMachine.{moved, has_required_text}
use manglam_balaji_managemen.Domain.Payment.{
  PaymentSource, PaymentSource-discrete, PaymentTransitionCommand, transition_payment,
  ChargeAmounts, derive_maintenance_charge_status,
}
use manglam_balaji_managemen.Domain.Payment.Laws.{
  PaymentEdge, IsProven, transition_payment-ok_iff, HasAmounts, HasStatus,
  derive_maintenance_charge_status-ok_iff,
}
use manglam_balaji_managemen.Domain.Payment.Allocation.{
  OutstandingCharge, PaymentAllocation, outstanding, due, allocate_payment_oldest_first,
}
use manglam_balaji_managemen.Domain.Payment.Allocation.Greedy.{spent, spent_on, PaysOneOf}
use manglam_balaji_managemen.Domain.Payment.Allocation.Checks.{IsPayable}
use manglam_balaji_managemen.Domain.Payment.Allocation.Laws.{
  allocate_payment_oldest_first-accepts_iff, allocate_payment_oldest_first-spent,
  allocate_payment_oldest_first-oldest_first,
}
use manglam_balaji_managemen.Js.Date.{date_parse}
use manglam_balaji_managemen.Js.Number.{integer}
use manglam_balaji_managemen.Types.Enums.Payments.{
  PaymentStatus, PaymentStatus-discrete, payment_status_enum, PaymentMethod, PaymentMethod-discrete,
  MaintenanceChargeStatus,
}
use manglam_balaji_managemen.Types.Errors.{ok}
use manglam_balaji_managemen.Prelude.{
  ℕ, ◌<◌, ◌≡◌, refl, true, false, List, [], ◌∷◌, none, some, String, arith, All,
}

abbrev reversal : PaymentTransitionCommand
reversal = record {
  current = PaymentStatus.confirmed;
  target = PaymentStatus.reversed;
  method = PaymentMethod.cheque;
  source = PaymentSource.manual;
  reference = none;
  provider_verified = false;
  has_reverse_permission = true;
  recent_authentication = true;
  reason = some "cheque bounced";
  occurred_at = "2026-07-03T10:00:00.000Z";
}

transition_payment-ok_iff_example :
    PaymentEdge reversal.current reversal.target
    × IsProven reversal
    × (moved "PAYMENT" reversal.current reversal.target reversal.occurred_at
        ≡ moved "PAYMENT" reversal.current reversal.target reversal.occurred_at)
unfolding transition_payment PaymentStatus-discrete PaymentMethod-discrete PaymentSource-discrete
    has_required_text
transition_payment-ok_iff_example =
    (transition_payment-ok_iff reversal
        (moved "PAYMENT" reversal.current reversal.target reversal.occurred_at)).0
      refl

abbrev half_paid : ChargeAmounts
half_paid = record {
  total_minor = integer 250000;
  paid_minor = integer 100000;
  waived_minor = integer 0;
  cancelled = false;
}

derive_maintenance_charge_status-ok_iff_example :
    (t : ℕ) × (p : ℕ) × (w : ℕ) × HasAmounts half_paid t p w
    × HasStatus t p w half_paid.cancelled MaintenanceChargeStatus.partially_paid
unfolding derive_maintenance_charge_status
derive_maintenance_charge_status-ok_iff_example =
    (derive_maintenance_charge_status-ok_iff half_paid MaintenanceChargeStatus.partially_paid).0
      refl

-- `localeCompare` where all texts count as equal.
abbrev no_order : String → String → Ordering
no_order _ _ = compare 0 0

-- The charges for two months, the later one first.
abbrev june : OutstandingCharge
june = record {
  charge_id = "june";
  due_at = "2026-06-10T00:00:00.000Z";
  outstanding_minor = integer 500;
}

abbrev july : OutstandingCharge
july = record {
  charge_id = "july";
  due_at = "2026-07-10T00:00:00.000Z";
  outstanding_minor = integer 500;
}

abbrev charges : List OutstandingCharge
charges = july ∷ june ∷ []

abbrev allocations : List PaymentAllocation
allocations =
    record { charge_id = "june"; amount_minor = 500 }
    ∷ record { charge_id = "july"; amount_minor = 200 }
    ∷ []

allocated : allocate_payment_oldest_first no_order (integer 700) charges ≡ ok allocations
unfolding allocate_payment_oldest_first date_parse due
allocated = refl

allocate_payment_oldest_first-accepts_iff_example : IsPayable (integer 700) charges
allocate_payment_oldest_first-accepts_iff_example =
    (allocate_payment_oldest_first-accepts_iff no_order (integer 700) charges).0
      (allocations, allocated)

allocate_payment_oldest_first-spent_example :
    (spent allocations ≡ 700) × All (PaysOneOf charges) allocations
allocate_payment_oldest_first-spent_example =
    allocate_payment_oldest_first-spent no_order (integer 700) charges allocations allocated

earlier : due june < due july
unfolding due date_parse
earlier = omega arith

allocate_payment_oldest_first-oldest_first_example : spent_on "june" allocations ≡ outstanding june
unfolding spent_on
allocate_payment_oldest_first-oldest_first_example =
    allocate_payment_oldest_first-oldest_first no_order (integer 700) charges allocations allocated
      june july (Memᴰ.tail (Memᴰ.head refl)) (Memᴰ.head refl) earlier (omega arith)
