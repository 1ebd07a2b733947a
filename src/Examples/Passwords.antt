-- ===== src/Examples/Passwords.antt =====
-- packages/domain/src/otp.ts at a concrete challenge, with a toy function for the HMAC.
use manglam_balaji_managemen.Domain.Codes.{
  decimal, digest_message, verify_secret, constant_time_digest_equal, utf8,
}
use manglam_balaji_managemen.Domain.Codes.Laws.{bytes_of, digest_message-injective}
use manglam_balaji_managemen.Domain.Otp.{
  OtpPurpose, OtpChallengeSnapshot, OtpAttempt, accepted, attempted, otp_answer, otp_matches,
  verify_otp_challenge, evaluate_otp_resend, OtpResendDecision,
}
use manglam_balaji_managemen.Domain.Otp.Laws.{
  IsOpen, IsCode, IsRight, verify_otp_challenge-accepts_iff, otp_tries_bounded, acceptances,
  guesses, used,
}
use manglam_balaji_managemen.Js.Date.{date_parse}
use manglam_balaji_managemen.Js.Number.{integer}
use manglam_balaji_managemen.Prelude.{
  ℕ, ◌+◌, ◌%◌, ◌≤◌, ◌≡◌, refl, List, [], ◌∷◌, none, some, String, ◌==◌, if◌then◌else◌,
}

abbrev sum : List ℕ → ℕ
sum [] = 0
sum (b ∷ bs) = b + sum bs

-- One of two digests, by the sum of the message.
abbrev toy_hmac : List ℕ → List ℕ → String
toy_hmac key message =
    if sum message % 2 == 1
    then "aaaaaaaaaaaaaaaaaaaaaaaaaaaaaaaaaaaaaaaaaaaaaaaaaaaaaaaaaaaaaaaa"
    else "bbbbbbbbbbbbbbbbbbbbbbbbbbbbbbbbbbbbbbbbbbbbbbbbbbbbbbbbbbbbbbbb"

abbrev challenge : OtpChallengeSnapshot
challenge = record {
  id = "otp-1";
  phone_e164 = "+919800000000";
  purpose = OtpPurpose.login;
  device_nonce = "nonce-1";
  digest = "AAAAAAAAAAAAAAAAAAAAAAAAAAAAAAAAAAAAAAAAAAAAAAAAAAAAAAAAAAAAAAAA";
  created_at = "2026-07-01T10:00:00.000Z";
  expires_at = "2026-07-01T10:05:00.000Z";
  attempts = 3;
  max_attempts = 5;
  consumed_at = none;
  superseded_at = none;
}

abbrev try_code : String → OtpAttempt
try_code candidate = record {
  candidate = candidate;
  pepper = "0123456789abcdef0123456789abcdef";
  now = "2026-07-01T10:01:00.000Z";
}

abbrev consumed : OtpChallengeSnapshot
consumed = record (attempted challenge) { consumed_at = some "2026-07-01T10:01:00.000Z" }

accepts_code :
    verify_otp_challenge toy_hmac challenge (try_code "123456") ≡ some (accepted consumed)
unfolding verify_otp_challenge otp_answer otp_matches verify_secret constant_time_digest_equal
    date_parse utf8 digest_message decimal
accepts_code = refl

verify_otp_challenge-accepts_iff_example :
    IsOpen challenge (try_code "123456").now
    × IsCode "123456"
    × IsRight toy_hmac challenge (try_code "123456")
    × (consumed ≡ consumed)
verify_otp_challenge-accepts_iff_example =
    (verify_otp_challenge-accepts_iff toy_hmac challenge (try_code "123456") consumed).0
      accepts_code

-- The second try is the right one, and the third meets a challenge that is used up.
abbrev tries : List OtpAttempt
tries = try_code "123457" ∷ try_code "123456" ∷ try_code "123456" ∷ []

otp_tries_bounded_example :
    (used challenge + acceptances toy_hmac challenge tries ≤ 1)
    × (challenge.attempts + guesses toy_hmac challenge tries ≤ 5)
otp_tries_bounded_example = otp_tries_bounded toy_hmac challenge tries

-- Twenty seconds after a code was sent, another may be sent in forty.
resend_waits :
    evaluate_otp_resend (some "2026-07-01T10:00:00.000Z") "2026-07-01T10:00:20.000Z"
    ≡ OtpResendDecision.retry_after (integer 40000)
unfolding evaluate_otp_resend date_parse
resend_waits = refl

-- A code and its context.
abbrev context : List String
context = "otp-1" ∷ "+919800000000" ∷ []

digest_message-injective_example :
    (utf8 "123456" ≡ utf8 "123456") × (bytes_of context ≡ bytes_of context)
digest_message-injective_example = digest_message-injective "123456" "123456" context context refl

-- A date alone is its midnight, and seconds may be left out.
day_is_midnight : date_parse "2026-07-01" ≡ date_parse "2026-07-01T00:00:00.000Z"
unfolding date_parse
day_is_midnight = refl

minutes_suffice : date_parse "2026-07-01T10:30+05:30" ≡ date_parse "2026-07-01T05:00:00.000Z"
unfolding date_parse
minutes_suffice = refl
