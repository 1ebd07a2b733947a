-- ===== src/Domain/Payment/Laws.antt =====
-- packages/domain/src/payment.ts: when a payment moves, and what state a charge is in.
use manglam_balaji_managemen.Domain.Payment.{
  PaymentTransitionCommand, transition_payment, payment_transitions, PaymentSource,
  reference_refusal, verification_refusal, reversal_refusal, failure_refusal, payment_input,
  ChargeAmounts, derive_maintenance_charge_status, charge_status, amounts_refusal,
}
use manglam_balaji_managemen.Domain.StateMachine.{can_transition, has_required_text, moved}
use manglam_balaji_managemen.Domain.StateMachine.Laws.{apply_transition-ok}
use manglam_balaji_managemen.Js.Number.{IsAmount, IsAmount_of_good, is_bad_amount-IsAmount, value}
use manglam_balaji_managemen.Types.Enums.Payments.{
  PaymentMethod, PaymentStatus, payment_status_enum, MaintenanceChargeStatus,
}
use manglam_balaji_managemen.Types.Errors.{ok, or_refuse-eq-ok, StateTransition}
use manglam_balaji_managemen.Prelude.{
  ℕ, ◌+◌, ◌<◌, ◌≡◌, ◌⊎◌, ◌↔◌, refl, Bool, true, false, none, arith,
}

-- The edges of the diagram.
pub data PaymentEdge : PaymentStatus → PaymentStatus → Type 0 where
  confirm : PaymentEdge PaymentStatus.pending_verification PaymentStatus.confirmed
  fail : PaymentEdge PaymentStatus.pending_verification PaymentStatus.failed
  reverse : PaymentEdge PaymentStatus.confirmed PaymentStatus.reversed

ruleset edges = (confirm, fail, reverse)

edge_of_table :
    (s t : PaymentStatus) → can_transition payment_transitions s t ≡ true → PaymentEdge s t
unfolding can_transition payment_transitions
edge_of_table PaymentStatus.pending_verification t h = grind (arith, edges)
edge_of_table _ t h = grind (arith, edges)

-- The methods whose payments leave a trace elsewhere.
abbrev pub IsTraceable : PaymentMethod → Type 0
IsTraceable m =
    (m ≡ PaymentMethod.upi) ⊎ ((m ≡ PaymentMethod.bank_transfer) ⊎ (m ≡ PaymentMethod.cheque))

-- What each target asks for.
pub record IsProven (c : PaymentTransitionCommand) : Type 0 where
  pub reference :
      c.target ≡ PaymentStatus.confirmed
      → IsTraceable c.method
      → has_required_text c.reference ≡ true
  pub verified :
      c.target ≡ PaymentStatus.confirmed
      → c.source ≡ PaymentSource.payment_gateway
      → c.provider_verified ≡ true
  pub reversal :
      c.target ≡ PaymentStatus.reversed
      → (c.has_reverse_permission ≡ true) × (c.recent_authentication ≡ true)
  pub reason :
      (c.target ≡ PaymentStatus.reversed) ⊎ (c.target ≡ PaymentStatus.failed)
      → has_required_text c.reason ≡ true

refusals→IsProven :
    (c : PaymentTransitionCommand)
    → reference_refusal c ≡ none
    → verification_refusal c ≡ none
    → reversal_refusal c ≡ none
    → failure_refusal c ≡ none
    → IsProven c
unfolding reference_refusal verification_refusal reversal_refusal failure_refusal
refusals→IsProven c p q x f = record {
  reference = ground arith;
  verified = ground arith;
  reversal = ground arith;
  reason = ground arith;
}

transition_payment_sound :
    (c : PaymentTransitionCommand) (r : StateTransition PaymentStatus)
    → transition_payment c ≡ ok r
    → PaymentEdge c.current c.target
      × IsProven c
      × (r ≡ moved "PAYMENT" c.current c.target c.occurred_at)
unfolding transition_payment
transition_payment_sound c r h =
    let (p, h₁) = or_refuse-eq-ok (reference_refusal c) _ h in
    let (q, h₂) = or_refuse-eq-ok (verification_refusal c) _ h₁ in
    let (x, h₃) = or_refuse-eq-ok (reversal_refusal c) _ h₂ in
    let (f, h₄) = or_refuse-eq-ok (failure_refusal c) _ h₃ in
    let (edge, m) = apply_transition-ok (payment_input c) r h₄ in
    (edge_of_table c.current c.target edge, refusals→IsProven c p q x f, m)

edge_passes :
    {s t : PaymentStatus} (c : PaymentTransitionCommand)
    → PaymentEdge s t
    → c.current ≡ s
    → c.target ≡ t
    → IsProven c
    → transition_payment c ≡ ok (moved "PAYMENT" c.current c.target c.occurred_at)
unfolding transition_payment
edge_passes c PaymentEdge.confirm p q j = ground arith
edge_passes c _ p q j = ground arith

-- A payment moves exactly along an edge of the diagram: confirmed with a reference where its method
-- has one and with the provider's verification where a gateway reports it, reversed with permission,
-- recent authentication and a reason, and failed with a reason.
pub transition_payment-ok_iff :
    (c : PaymentTransitionCommand) (r : StateTransition PaymentStatus)
    → (transition_payment c ≡ ok r) ↔ (
        PaymentEdge c.current c.target
        × IsProven c
        × (r ≡ moved "PAYMENT" c.current c.target c.occurred_at))
transition_payment-ok_iff c r =
    (transition_payment_sound c r, λ (e, j, m). rw m (edge_passes c e refl refl j))

-- What each state says of a charge of `t` minor units, `p` of them paid and `w` waived.
pub data HasStatus (t p w : ℕ) : Bool → MaintenanceChargeStatus → Type 0 where
  is_cancelled : p ≡ 0 → w ≡ 0 → HasStatus t p w true MaintenanceChargeStatus.cancelled
  is_unpaid : p ≡ 0 → w ≡ 0 → HasStatus t p w false MaintenanceChargeStatus.unpaid
  is_partial : 0 < p + w → p + w < t → HasStatus t p w false MaintenanceChargeStatus.partially_paid
  is_paid : 0 < p → p + w ≡ t → HasStatus t p w false MaintenanceChargeStatus.paid
  is_waived : p ≡ 0 → w ≡ t → HasStatus t p w false MaintenanceChargeStatus.waived

charge_status_sound :
    (t p w : ℕ) (x : Bool) (s : MaintenanceChargeStatus)
    → 0 < t
    → charge_status t p w x ≡ ok s
    → HasStatus t p w x s
unfolding charge_status
charge_status_sound t p w true s h e =
    let q : (s ≡ MaintenanceChargeStatus.cancelled) × (p ≡ 0) × (w ≡ 0) = ground arith in
    rw q.0 (is_cancelled q.1 q.2)
charge_status_sound t p w false MaintenanceChargeStatus.unpaid h e =
    is_unpaid (ground arith) (ground arith)
charge_status_sound t p w false MaintenanceChargeStatus.partially_paid h e =
    is_partial (ground arith) (ground arith)
charge_status_sound t p w false MaintenanceChargeStatus.paid h e =
    is_paid (ground arith) (ground arith)
charge_status_sound t p w false MaintenanceChargeStatus.waived h e =
    is_waived (ground arith) (ground arith)
charge_status_sound t p w false MaintenanceChargeStatus.cancelled h e = ground arith

charge_status_complete :
    {x : Bool} {s : MaintenanceChargeStatus} (t p w : ℕ)
    → 0 < t
    → HasStatus t p w x s
    → charge_status t p w x ≡ ok s
unfolding charge_status
charge_status_complete t p w h (is_cancelled a b) = ground arith
charge_status_complete t p w h (is_unpaid a b) = ground arith
charge_status_complete t p w h (is_partial a b) = ground arith
charge_status_complete t p w h (is_paid a b) = ground arith
charge_status_complete t p w h (is_waived a b) = ground arith

-- The amounts of a charge: safe numbers of minor units, the total not 0.
pub record HasAmounts (input : ChargeAmounts) (t p w : ℕ) : Type 0 where
  pub total : IsAmount input.total_minor t
  pub paid : IsAmount input.paid_minor p
  pub waived : IsAmount input.waived_minor w
  pub positive : 0 < t

-- A charge has a state exactly if its amounts are safe integers, none is negative and the total is
-- not 0, and if it is not funded where it is cancelled, nor funded beyond its total. The state is then
-- the one that describes what was paid and waived.
pub derive_maintenance_charge_status-ok_iff :
    (input : ChargeAmounts) (s : MaintenanceChargeStatus)
    → (derive_maintenance_charge_status input ≡ ok s)
      ↔ ((t : ℕ) × (p : ℕ) × (w : ℕ) × HasAmounts input t p w × HasStatus t p w input.cancelled s)
unfolding derive_maintenance_charge_status
derive_maintenance_charge_status-ok_iff input s = (
  λ h.
      let (fine, rest) = or_refuse-eq-ok (amounts_refusal input) _ h in
      let positive : 0 < value input.total_minor = ground arith in
      (
        value input.total_minor,
        value input.paid_minor,
        value input.waived_minor,
        record {
          total = IsAmount_of_good _ (ground arith);
          paid = IsAmount_of_good _ (ground arith);
          waived = IsAmount_of_good _ (ground arith);
          positive = positive;
        },
        charge_status_sound _ _ _ _ s positive rest,
      ),
  λ (t, p, w, a, st).
      let (bt, vt) = is_bad_amount-IsAmount _ _ a.total in
      let (bp, vp) = is_bad_amount-IsAmount _ _ a.paid in
      let (bw, vw) = is_bad_amount-IsAmount _ _ a.waived in
      rw (bt, bp, bw, vt, vp, vw)
        (ground (arith, a.positive, charge_status_complete t p w a.positive st)),
)
