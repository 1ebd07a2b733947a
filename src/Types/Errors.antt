-- ===== src/Types/Errors.antt =====
-- packages/types/src/api.ts and contracts.ts: error codes, domain errors, results and transitions.
use manglam_balaji_managemen.Js.Number.{Number}
use manglam_balaji_managemen.Prelude.{
  ◌≡◌, refl, Bool, true, false, Option, none, some, String, List,
}

pub data ApiErrorCode : Type 0 where
  authentication_required session_expired permission_denied resource_not_found : ApiErrorCode
  validation_failed conflict rate_limited idempotency_key_reused : ApiErrorCode
  idempotency_request_in_progress otp_invalid otp_expired otp_attempts_exceeded otp_superseded :
      ApiErrorCode
  otp_already_used otp_resend_too_soon visit_invalid_transition visit_already_checked_in :
      ApiErrorCode
  visit_already_checked_out visit_override_not_allowed visit_override_reason_required : ApiErrorCode
  approval_already_decided complaint_invalid_transition complaint_reopen_window_expired :
      ApiErrorCode
  payment_invalid_transition payment_verification_required payment_allocation_invalid : ApiErrorCode
  payment_reference_required emergency_invalid_transition parcel_invalid_transition : ApiErrorCode
  parcel_collection_code_invalid daily_help_invalid_transition attendance_invalid_transition :
      ApiErrorCode
  membership_invalid_transition offline_operation_not_allowed offline_device_revoked : ApiErrorCode
  offline_lease_expired offline_signature_invalid offline_sequence_conflict : ApiErrorCode
  offline_version_conflict internal_error : ApiErrorCode

-- A value under `details`: the program puts texts and numbers there.
pub data Detail : Type 0 where
  text : String → Detail
  number : Number → Detail

pub record DomainError : Type 0 where
  pub code : ApiErrorCode
  pub message : String
  pub details : List (String × Detail)

abbrev pub domain_error : ApiErrorCode → String → List (String × Detail) → DomainError
domain_error code message details = record { code = code; message = message; details = details }

pub data Result {ℓ} (A : Type ℓ) : Type ℓ where
  ok : A → Result A
  err : DomainError → Result A

-- An early return: a refusal, or else what follows.
abbrev pub or_refuse {ℓ} : {A : Type ℓ} → Option DomainError → Result A → Result A
or_refuse none next = next
or_refuse (some error) next = err error

-- `if (test) return err(error);`
abbrev pub refuse_if : Bool → DomainError → Option DomainError
refuse_if true error = some error
refuse_if false error = none

pub or_refuse-eq-ok {ℓ} :
    {A : Type ℓ} (refusal : Option DomainError) (next : Result A) {a : A}
    → or_refuse refusal next ≡ ok a
    → (refusal ≡ none) × (next ≡ ok a)
or_refuse-eq-ok none next h = (refl, h)
or_refuse-eq-ok (some error) next h = cc

-- `StateTransition`: `previous` is null for a record that did not exist before.
pub record StateTransition (S : Type 0) : Type 0 where
  pub previous : Option S
  pub current : S
  pub event : String
  pub occurred_at : String
