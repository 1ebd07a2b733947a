-- ===== src/Domain/Otp.antt =====
-- packages/domain/src/otp.ts: the verification of one-time passwords, and when another may be sent.
pub mod Laws
use manglam_balaji_managemen.Domain.Codes.{verify_secret}
use manglam_balaji_managemen.Js.Date.{date_parse, elapsed_at_least}
use manglam_balaji_managemen.Js.Number.{Number, integer}
use manglam_balaji_managemen.Js.Text.{utf16}
use manglam_balaji_managemen.Types.Errors.{
  ApiErrorCode, number, DomainError, domain_error, Result, ok, err,
}
use manglam_balaji_managemen.Prelude.{
  ℕ, ◌+◌, ◌-◌, Bool, true, false, ◌&&◌, List, [], ◌∷◌, Option, none, some, String, ◌==◌, leb, all,
  if◌then◌else◌, length, ◌>>=◌,
}

pub data OtpPurpose : Type 0 where
  login step_up phone_change : OtpPurpose

abbrev pub otp_purpose_text : OtpPurpose → String
otp_purpose_text login = "LOGIN"
otp_purpose_text step_up = "STEP_UP"
otp_purpose_text phone_change = "PHONE_CHANGE"

-- Of `OTP_POLICY`, what this file's functions read.
abbrev pub otp_digits : ℕ
otp_digits = 6

abbrev pub resend_cooldown_ms : ℕ
resend_cooldown_ms = 60000

pub record OtpChallengeSnapshot : Type 0 where
  pub id : String
  pub phone_e164 : String
  pub purpose : OtpPurpose
  pub device_nonce : String
  pub digest : String
  pub created_at : String
  pub expires_at : String
  pub attempts : ℕ
  pub max_attempts : ℕ
  -- null is `none`
  pub consumed_at : Option String
  pub superseded_at : Option String

pub data OtpVerificationFailure : Type 0 where
  invalid expired attempts_exceeded superseded already_used : OtpVerificationFailure

pub data OtpVerificationDecision : Type 0 where
  accepted : OtpChallengeSnapshot → OtpVerificationDecision
  rejected : OtpVerificationFailure → OtpChallengeSnapshot → DomainError → OtpVerificationDecision

-- What is handed in with a challenge.
pub record OtpAttempt : Type 0 where
  pub candidate : String
  pub pepper : String
  pub now : String

abbrev pub challenge_context : OtpChallengeSnapshot → List String
challenge_context c = c.id ∷ c.phone_e164 ∷ otp_purpose_text c.purpose ∷ c.device_nonce ∷ []

abbrev pub is_given : Option String → Bool
is_given none = false
is_given (some _) = true

-- `now >= expiresAt`, which no unreadable date is.
abbrev pub is_expired : Option ℕ → Option ℕ → Bool
is_expired (some now) (some expires_at) = leb expires_at now
is_expired _ _ = false

abbrev pub is_digit : ℕ → Bool
is_digit c = leb b'0' c && leb c b'9'

-- `new RegExp(`^\\d{${OTP_POLICY.digits}}$`).test(candidate)`
unfoldable pub has_valid_format : String → Bool
has_valid_format candidate =
    length (utf16 candidate) == otp_digits && all is_digit (utf16 candidate)

-- The tests in front of the comparison.
earlier_refusal : OtpChallengeSnapshot → String → Option OtpVerificationDecision
earlier_refusal c now =
    if is_given c.consumed_at
    then some (
        rejected already_used c (
          domain_error ApiErrorCode.otp_already_used "This OTP challenge has already been used."
            []))
    else (if is_given c.superseded_at
        then some (
            rejected superseded c (
              domain_error ApiErrorCode.otp_superseded
                "A newer OTP challenge has replaced this one." []))
        else (if is_expired (date_parse now) (date_parse c.expires_at)
            then some (
                rejected expired c
                  (domain_error ApiErrorCode.otp_expired "This OTP has expired." []))
            else (if leb c.max_attempts c.attempts
                then some (
                    rejected attempts_exceeded c (
                      domain_error ApiErrorCode.otp_attempts_exceeded "No OTP attempts remain." []))
                else none)))

-- The challenge with one more attempt.
abbrev pub attempted : OtpChallengeSnapshot → OtpChallengeSnapshot
attempted c = record c { attempts = c.attempts + 1 }

-- The answer once the code is known to match or not. `maxAttempts - attempts` is not negative here,
-- since `attempts` was below `maxAttempts`.
unfoldable pub otp_answer : OtpChallengeSnapshot → String → Bool → OtpVerificationDecision
otp_answer c now true = accepted (record (attempted c) { consumed_at = some now })
otp_answer c now false =
    let remaining = c.max_attempts - (c.attempts + 1) in
    if remaining == 0
    then rejected attempts_exceeded (attempted c) (
        domain_error ApiErrorCode.otp_attempts_exceeded "No OTP attempts remain."
          (("attemptsRemaining", number (integer remaining)) ∷ []))
    else rejected invalid (attempted c) (
        domain_error ApiErrorCode.otp_invalid "The OTP is invalid."
          (("attemptsRemaining", number (integer remaining)) ∷ []))

-- An early return, or else what follows.
abbrev pub or_earlier :
    Option OtpVerificationDecision → Option OtpVerificationDecision → Option OtpVerificationDecision
or_earlier (some decision) next = some decision
or_earlier none next = next

module _ (hmac_hex : List ℕ → List ℕ → String) where
  -- `validFormat && verifySecret(…)`; `none` is the error that a short pepper raises.
  unfoldable pub otp_matches : OtpChallengeSnapshot → OtpAttempt → Option Bool
  unfolding has_valid_format
  otp_matches c attempt =
      if has_valid_format attempt.candidate
      then verify_secret hmac_hex attempt.candidate c.digest (challenge_context c) attempt.pepper
      else some false

  unfoldable pub verify_otp_challenge :
      OtpChallengeSnapshot → OtpAttempt → Option OtpVerificationDecision
  unfolding earlier_refusal
  verify_otp_challenge c attempt =
      or_earlier (earlier_refusal c attempt.now)
        (otp_matches c attempt >>= λ matches. some (otp_answer c attempt.now matches))

pub data OtpResendDecision : Type 0 where
  allowed : OtpResendDecision
  retry_after : Number → OtpResendDecision

-- Where a date is unreadable, `remaining` is NaN, which is not at most 0.
abbrev resend_at : Option ℕ → Option ℕ → OtpResendDecision
resend_at (some last) (some now) =
    if leb (last + resend_cooldown_ms) now
    then allowed
    else retry_after (integer (last + resend_cooldown_ms - now))
resend_at _ _ = retry_after Number.nan

unfoldable pub evaluate_otp_resend : Option String → String → OtpResendDecision
evaluate_otp_resend none now = allowed
evaluate_otp_resend (some last_requested_at) now =
    resend_at (date_parse last_requested_at) (date_parse now)

pub data Environment : Type 0 where
  development test staging production : Environment

pub data OtpProvider : Type 0 where
  development external : OtpProvider

unfoldable pub validate_otp_provider_for_environment : Environment → OtpProvider → Result Bool
validate_otp_provider_for_environment Environment.development provider = ok true
validate_otp_provider_for_environment test provider = ok true
validate_otp_provider_for_environment environment OtpProvider.external = ok true
validate_otp_provider_for_environment environment OtpProvider.development = err (
    domain_error ApiErrorCode.validation_failed
      "The development OTP provider is forbidden outside development and test." [])
