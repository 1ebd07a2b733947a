-- ===== src/Domain/Payment.antt =====
-- packages/domain/src/payment.ts: the life of a payment, and the state of a charge.
pub mod Laws
pub mod Allocation
use manglam_balaji_managemen.Domain.StateMachine.{
  Transition, TransitionTable, apply_transition, has_required_text,
}
use manglam_balaji_managemen.Js.Number.{Number, is_bad_amount, value}
use manglam_balaji_managemen.Types.Enums.Payments.{
  PaymentMethod, PaymentMethod-discrete, PaymentStatus, PaymentStatus-discrete, payment_status_enum,
  MaintenanceChargeStatus,
}
use manglam_balaji_managemen.Types.Errors.{
  ApiErrorCode, DomainError, domain_error, Result, ok, err, or_refuse, refuse_if, StateTransition,
}
use manglam_balaji_managemen.Prelude.{
  ℕ, ◌+◌, Bool, not, ◌&&◌, ◌||◌, List, [], ◌∷◌, Option, none, some, String, same, includes, any,
  ltb, ◌==◌, if◌then◌else◌,
}

unfoldable pub payment_transitions : TransitionTable PaymentStatus
payment_transitions PaymentStatus.pending_verification =
    PaymentStatus.confirmed ∷ PaymentStatus.failed ∷ []
payment_transitions PaymentStatus.confirmed = PaymentStatus.reversed ∷ []
payment_transitions PaymentStatus.reversed = []
payment_transitions PaymentStatus.failed = []

abbrev pub reference_required_methods : List PaymentMethod
reference_required_methods =
    PaymentMethod.upi ∷ PaymentMethod.bank_transfer ∷ PaymentMethod.cheque ∷ []

pub data PaymentSource : Type 0 where
  manual payment_gateway : PaymentSource

unfoldable pub PaymentSource-discrete : Discrete PaymentSource
PaymentSource-discrete = hlevel

pub record PaymentTransitionCommand : Type 0 where
  pub current : PaymentStatus
  pub target : PaymentStatus
  pub method : PaymentMethod
  pub source : PaymentSource
  pub reference : Option String
  pub provider_verified : Bool
  pub has_reverse_permission : Bool
  pub recent_authentication : Bool
  pub reason : Option String
  pub occurred_at : String

abbrev pub is_payment : PaymentStatus → PaymentStatus → Bool
is_payment = same PaymentStatus-discrete

abbrev invalid_payment : String → DomainError
invalid_payment message = domain_error ApiErrorCode.payment_invalid_transition message []

reference_refusal : PaymentTransitionCommand → Option DomainError
reference_refusal c =
    refuse_if
      (is_payment c.target PaymentStatus.confirmed
        && includes PaymentMethod-discrete reference_required_methods c.method
        && not (has_required_text c.reference))
      (domain_error ApiErrorCode.payment_reference_required
        "A traceable payment reference is required." [])

verification_refusal : PaymentTransitionCommand → Option DomainError
verification_refusal c =
    refuse_if
      (is_payment c.target PaymentStatus.confirmed
        && same PaymentSource-discrete c.source payment_gateway
        && not c.provider_verified)
      (domain_error ApiErrorCode.payment_verification_required
        "Gateway confirmation must be verified server-side." [])

reversal_refusal : PaymentTransitionCommand → Option DomainError
reversal_refusal c =
    if is_payment c.target PaymentStatus.reversed
    then (if not c.has_reverse_permission || not c.recent_authentication
        then some
            (invalid_payment "Payment reversal requires permission and recent authentication.")
        else refuse_if (not (has_required_text c.reason))
            (invalid_payment "A reversal reason is required."))
    else none

failure_refusal : PaymentTransitionCommand → Option DomainError
failure_refusal c =
    refuse_if (is_payment c.target PaymentStatus.failed && not (has_required_text c.reason))
      (invalid_payment "A failure reason is required.")

-- The argument of `applyTransition`.
abbrev pub payment_input : PaymentTransitionCommand → Transition PaymentStatus
payment_input c = record {
  table = payment_transitions;
  current = c.current;
  target = c.target;
  occurred_at = c.occurred_at;
  event_prefix = "PAYMENT";
  error_code = ApiErrorCode.payment_invalid_transition;
  aggregate_label = "payment";
}

unfoldable pub transition_payment :
    PaymentTransitionCommand → Result (StateTransition PaymentStatus)
unfolding apply_transition payment_transitions reference_refusal verification_refusal
    reversal_refusal failure_refusal
transition_payment c = or_refuse (reference_refusal c) (
    or_refuse (verification_refusal c) (
      or_refuse (reversal_refusal c)
        (or_refuse (failure_refusal c) (apply_transition (payment_input c)))))

-- The argument of `deriveMaintenanceChargeStatus`.
pub record ChargeAmounts : Type 0 where
  pub total_minor : Number
  pub paid_minor : Number
  pub waived_minor : Number
  pub cancelled : Bool

allocation_invalid : String → DomainError
allocation_invalid message = domain_error ApiErrorCode.payment_allocation_invalid message []

-- What follows the checks of the amounts. `outstanding < 0` is `total < paid + waived`: the sum and
-- the difference of safe integers have the sign of the exact ones.
charge_status : ℕ → ℕ → ℕ → Bool → Result MaintenanceChargeStatus
unfolding allocation_invalid
charge_status total paid waived cancelled =
    if cancelled
    then (if paid == 0 && waived == 0
        then ok MaintenanceChargeStatus.cancelled
        else err (allocation_invalid "A funded charge cannot be destructively cancelled."))
    else (if ltb total (paid + waived)
        then err (allocation_invalid "Payments and waivers exceed the charge.")
        else (if total == paid + waived
            then ok (
                if paid == 0 && ltb 0 waived
                then MaintenanceChargeStatus.waived
                else MaintenanceChargeStatus.paid)
            else (if ltb 0 paid || ltb 0 waived
                then ok MaintenanceChargeStatus.partially_paid
                else ok MaintenanceChargeStatus.unpaid)))

amounts_refusal : ChargeAmounts → Option DomainError
unfolding allocation_invalid
amounts_refusal input =
    refuse_if
      (any is_bad_amount (input.total_minor ∷ input.paid_minor ∷ input.waived_minor ∷ [])
        || value input.total_minor == 0)
      (allocation_invalid "Charge amounts must be positive integer minor units.")

unfoldable pub derive_maintenance_charge_status : ChargeAmounts → Result MaintenanceChargeStatus
unfolding charge_status amounts_refusal
derive_maintenance_charge_status input = or_refuse (amounts_refusal input) (
    charge_status (value input.total_minor) (value input.paid_minor) (value input.waived_minor)
      input.cancelled)
