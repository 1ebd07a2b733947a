-- ===== src/Api/Attempts.antt =====
-- apps/api/src/modules/auth/credential-attempt.service.ts: the table of attempts to sign in, and
-- the limits on those that fail. Digests are texts that the caller computes; times are
-- milliseconds, and `now` is the time of the transaction.
pub mod Limits
use manglam_balaji_managemen.Prelude.{
  ℕ, ◌+◌, ◌*◌, ◌≡◌, Bool, true, false, ◌&&◌, ◌||◌, ltb, leb, List, [], ◌∷◌, length, filter, same,
  Option, none, some, String, str_eq,
}

pub data AuthenticationMethod : Type 0 where
  admin_password guard_pin otp refresh_token resident_app_pin totp : AuthenticationMethod

unfoldable pub AuthenticationMethod-discrete : Discrete AuthenticationMethod
AuthenticationMethod-discrete = hlevel

pub data AttemptOutcome : Type 0 where
  blocked failure success : AttemptOutcome

-- A row of authentication_attempts, without its id.
pub record AuthenticationAttempt : Type 0 where
  pub society_id : String
  pub subject_digest : String
  pub origin_digest : Option String
  pub method : AuthenticationMethod
  pub outcome : AttemptOutcome
  pub failure_code : Option String
  pub retention_until : ℕ
  pub occurred_at : ℕ

pub record CredentialAttemptKeys : Type 0 where
  pub origin_digest : Option String
  pub subject_digest : String

abbrev pub subject_attempts_per_15_minutes : ℕ
subject_attempts_per_15_minutes = 5

abbrev pub subject_attempts_per_day : ℕ
subject_attempts_per_day = 20

abbrev pub origin_attempts_per_15_minutes : ℕ
origin_attempts_per_15_minutes = 30

abbrev pub attempt_retention_ms : ℕ
attempt_retention_ms = 30 * 24 * 60 * 60000

abbrev pub minutes_15 : ℕ
minutes_15 = 900000

abbrev pub hours_24 : ℕ
hours_24 = 86400000

-- `outcome IN ('FAILURE', 'BLOCKED')`
abbrev pub counts_against : AttemptOutcome → Bool
counts_against AttemptOutcome.blocked = true
counts_against AttemptOutcome.failure = true
counts_against AttemptOutcome.success = false

-- `occurred_at >= now() - interval`
abbrev pub is_since : ℕ → ℕ → AuthenticationAttempt → Bool
is_since now interval row = leb now (row.occurred_at + interval)

-- The query's WHERE.
unfoldable pub is_counted : AuthenticationMethod → String → ℕ → AuthenticationAttempt → Bool
is_counted method society_id now row =
    str_eq row.society_id society_id
    && same AuthenticationMethod-discrete row.method method
    && counts_against row.outcome
    && is_since now hours_24 row

abbrev pub is_subject : String → AuthenticationAttempt → Bool
is_subject subject_digest row = str_eq row.subject_digest subject_digest

-- `digest IS NOT NULL AND origin_digest = digest`
abbrev pub is_origin : Option String → Option String → Bool
is_origin none origin = false
is_origin (some digest) none = false
is_origin (some digest) (some origin) = str_eq origin digest

pub record AttemptCounts : Type 0 where
  pub origin_recent : ℕ
  pub subject_day : ℕ
  pub subject_recent : ℕ

unfoldable pub attempt_counts :
    CredentialAttemptKeys
    → AuthenticationMethod
    → String
    → ℕ
    → List AuthenticationAttempt
    → AttemptCounts
attempt_counts keys method society_id now rows =
    let counted = filter (is_counted method society_id now) rows in
    record {
      origin_recent = length (
          filter
            (λ row. is_origin keys.origin_digest row.origin_digest && is_since now minutes_15 row)
            counted);
      subject_day =
          length (
            filter (λ row. is_subject keys.subject_digest row && is_since now hours_24 row)
              counted);
      subject_recent = length (
          filter (λ row. is_subject keys.subject_digest row && is_since now minutes_15 row)
            counted);
    }

unfoldable pub allowed :
    CredentialAttemptKeys → AuthenticationMethod → String → ℕ → List AuthenticationAttempt → Bool
allowed keys method society_id now rows =
    let counts = attempt_counts keys method society_id now rows in
    ltb counts.subject_recent subject_attempts_per_15_minutes
    && ltb counts.subject_day subject_attempts_per_day
    && ltb counts.origin_recent origin_attempts_per_15_minutes

-- `record`: the row is stamped with the time of the database.
unfoldable pub record_attempt :
    CredentialAttemptKeys
    → AuthenticationMethod
    → AttemptOutcome
    → Option String
    → String
    → ℕ
    → List AuthenticationAttempt
    → List AuthenticationAttempt
record_attempt keys method outcome failure_code society_id now rows =
    let row : AuthenticationAttempt = record {
      society_id = society_id;
      subject_digest = keys.subject_digest;
      origin_digest = keys.origin_digest;
      method = method;
      outcome = outcome;
      failure_code = failure_code;
      retention_until = now + attempt_retention_ms;
      occurred_at = now;
    } in
    row ∷ rows
