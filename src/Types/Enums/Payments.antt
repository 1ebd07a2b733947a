-- ===== src/Types/Enums/Payments.antt =====
-- packages/types/src/enums.ts: the states of charges and payments.
use manglam_balaji_managemen.Types.Enum.{Enum}
use manglam_balaji_managemen.Prelude.{String}

pub data MaintenanceChargeStatus : Type 0 where
  unpaid partially_paid paid waived cancelled : MaintenanceChargeStatus

unfoldable pub MaintenanceChargeStatus-discrete : Discrete MaintenanceChargeStatus
MaintenanceChargeStatus-discrete = hlevel

abbrev pub maintenance_charge_status_text : MaintenanceChargeStatus → String
maintenance_charge_status_text MaintenanceChargeStatus.unpaid = "UNPAID"
maintenance_charge_status_text MaintenanceChargeStatus.partially_paid = "PARTIALLY_PAID"
maintenance_charge_status_text MaintenanceChargeStatus.paid = "PAID"
maintenance_charge_status_text MaintenanceChargeStatus.waived = "WAIVED"
maintenance_charge_status_text MaintenanceChargeStatus.cancelled = "CANCELLED"

instance abbrev pub maintenance_charge_status_enum : Enum MaintenanceChargeStatus
maintenance_charge_status_enum = record {
  is = MaintenanceChargeStatus-discrete;
  text = maintenance_charge_status_text;
}

pub data PaymentMethod : Type 0 where
  cash upi bank_transfer cheque other : PaymentMethod

unfoldable pub PaymentMethod-discrete : Discrete PaymentMethod
PaymentMethod-discrete = hlevel

abbrev pub payment_method_text : PaymentMethod → String
payment_method_text PaymentMethod.cash = "CASH"
payment_method_text PaymentMethod.upi = "UPI"
payment_method_text PaymentMethod.bank_transfer = "BANK_TRANSFER"
payment_method_text PaymentMethod.cheque = "CHEQUE"
payment_method_text PaymentMethod.other = "OTHER"

instance abbrev pub payment_method_enum : Enum PaymentMethod
payment_method_enum = record { is = PaymentMethod-discrete; text = payment_method_text }

pub data PaymentStatus : Type 0 where
  pending_verification confirmed reversed failed : PaymentStatus

unfoldable pub PaymentStatus-discrete : Discrete PaymentStatus
PaymentStatus-discrete = hlevel

abbrev pub payment_status_text : PaymentStatus → String
payment_status_text PaymentStatus.pending_verification = "PENDING_VERIFICATION"
payment_status_text PaymentStatus.confirmed = "CONFIRMED"
payment_status_text PaymentStatus.reversed = "REVERSED"
payment_status_text PaymentStatus.failed = "FAILED"

instance abbrev pub payment_status_enum : Enum PaymentStatus
payment_status_enum = record { is = PaymentStatus-discrete; text = payment_status_text }
