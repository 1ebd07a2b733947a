-- ===== src/Api/Attempts/Limits.antt =====
-- apps/api/src/modules/auth/credential-attempt.service.ts: what the limits promise of the services
-- that use them: guard-auth, admin-auth, resident-pin, auth and session services.
use manglam_balaji_managemen.Api.Attempts.{
  AuthenticationMethod, AuthenticationMethod-discrete, AttemptOutcome, AuthenticationAttempt,
  CredentialAttemptKeys, allowed, record_attempt, attempt_counts, is_counted, counts_against,
  is_since, is_subject, minutes_15, hours_24, attempt_retention_ms,
}
use manglam_balaji_managemen.Prelude.{
  ℕ, ◌+◌, ◌≤◌, ◌<◌, ◌≡◌, ◌⊎◌, inl, inr, refl, Bool, true, false, ◌&&◌, leb, List, [], ◌∷◌, length,
  filter, same, same→eq, subst, none, String, str_eq, eq_iff, arith, Bool-cases, if◌then◌else◌,
}

-- One attempt at a service; `accepted` is what its checks make of it, those of the credential, which
-- may come before the limits are asked (guard-auth, admin-auth and resident-pin verify it first),
-- and those of the account and the device.
pub record Try : Type 0 where
  pub keys : CredentialAttemptKeys
  pub method : AuthenticationMethod
  pub society_id : String
  pub time : ℕ
  pub accepted : Bool

-- What the transaction of an attempt records: where the limits refuse, BLOCKED whatever the checks
-- gave; otherwise FAILURE or SUCCESS. It holds the subject's advisory lock from `allowed` on, and
-- `now()` is one time in it.
abbrev pub outcome_of : List AuthenticationAttempt → Try → AttemptOutcome
outcome_of rows t =
    if allowed t.keys t.method t.society_id t.time rows
    then (if t.accepted then AttemptOutcome.success else AttemptOutcome.failure)
    else AttemptOutcome.blocked

unfoldable pub attempt : Try → List AuthenticationAttempt → List AuthenticationAttempt
attempt t rows = record_attempt t.keys t.method (outcome_of rows t) none t.society_id t.time rows

unfoldable pub attempts : List Try → List AuthenticationAttempt → List AuthenticationAttempt
unfolding attempt
attempts [] rows = rows
attempts (t ∷ ts) rows = attempts ts (attempt t rows)

abbrev pub is_failure : AttemptOutcome → Bool
is_failure AttemptOutcome.failure = true
is_failure _ = false

-- A FAILURE of the subject, from `start` on and no later than an interval after it.
abbrev pub is_failure_row :
    AuthenticationMethod → String → String → ℕ → ℕ → AuthenticationAttempt → Bool
is_failure_row method society_id subject start interval row =
    str_eq row.society_id society_id
    && same AuthenticationMethod-discrete row.method method
    && is_subject subject row
    && is_failure row.outcome
    && leb start row.occurred_at
    && leb row.occurred_at (start + interval)

abbrev pub failures :
    AuthenticationMethod → String → String → ℕ → ℕ → List AuthenticationAttempt → ℕ
failures method society_id subject start interval rows =
    length (filter (is_failure_row method society_id subject start interval) rows)

length-filter-le {ℓ} :
    {A : Type ℓ} (p q r : A → Bool) (xs : List A)
    → ((x : A) → p x ≡ true → (q x ≡ true) × (r x ≡ true))
    → length (filter p xs) ≤ length (filter r (filter q xs))
length-filter-le p q r [] h = omega arith
length-filter-le p q r (x ∷ xs) h = elim (Bool-cases (p x)) [
  | inl yes_p ↦ ground (arith, h x yes_p, length-filter-le p q r xs h)
  | inr no_p ↦ ground (arith, length-filter-le p q r xs h)
]

failure_counts : (o : AttemptOutcome) → is_failure o ≡ true → counts_against o ≡ true
failure_counts AttemptOutcome.blocked h = refl
failure_counts AttemptOutcome.failure h = refl
failure_counts AttemptOutcome.success h = cc

-- Every failure of a window that reaches up to now is counted now.
is_failure_row-counted :
    (method : AuthenticationMethod) (society_id subject : String) (start interval now : ℕ)
    (row : AuthenticationAttempt)
    → interval ≤ hours_24
    → now ≤ start + interval
    → is_failure_row method society_id subject start interval row ≡ true
    → (is_counted method society_id now row ≡ true)
      × ((is_subject subject row && is_since now interval row) ≡ true)
unfolding is_counted
is_failure_row-counted method society_id subject start interval now row short late h =
    (ground (arith, failure_counts row.outcome), ground arith)

-- No window of 15 minutes has more than five failures, and none of a day more than twenty.
abbrev pub IsLimited : AuthenticationMethod → String → String → List AuthenticationAttempt → Type 0
IsLimited method society_id subject rows =
    (start : ℕ)
    → (failures method society_id subject start minutes_15 rows ≤ 5)
      × (failures method society_id subject start hours_24 rows ≤ 20)

module _ (method : AuthenticationMethod) (society_id subject : String)
    (rows : List AuthenticationAttempt) (row : AuthenticationAttempt) where
  -- A new row counts in the windows in which it lies.
  failures-cons :
      (start interval : ℕ)
      → (failures method society_id subject start interval (row ∷ rows)
          ≡ failures method society_id subject start interval rows)
        ⊎ ((is_failure_row method society_id subject start interval row ≡ true)
            × (failures method society_id subject start interval (row ∷ rows)
                ≡ failures method society_id subject start interval rows + 1))
  failures-cons start interval =
      elim (Bool-cases (is_failure_row method society_id subject start interval row)) [
        | inl here ↦ inr (here, rw here (omega arith))
        | inr other ↦ inl (rw other refl)
      ]

-- An attempt that is allowed finds fewer failures than its limits in the windows up to it.
allowed-failures :
    (keys : CredentialAttemptKeys) (method : AuthenticationMethod) (society_id : String) (now : ℕ)
    (rows : List AuthenticationAttempt)
    → allowed keys method society_id now rows ≡ true
    → (start : ℕ)
    → (now ≤ start + minutes_15
        → failures method society_id keys.subject_digest start minutes_15 rows < 5)
      × (now ≤ start + hours_24
          → failures method society_id keys.subject_digest start hours_24 rows < 20)
unfolding allowed attempt_counts
allowed-failures keys method society_id now rows h start = (
  λ late. ground (
    arith,
    length-filter-le _ (is_counted method society_id now) _ rows (λ row.
        is_failure_row-counted method society_id keys.subject_digest start minutes_15 now row
          (omega arith) late),
  ),
  λ late. ground (
    arith,
    length-filter-le _ (is_counted method society_id now) _ rows (λ row.
        is_failure_row-counted method society_id keys.subject_digest start hours_24 now row
          (omega arith) late),
  ),
)

abbrev new_row : Try → List AuthenticationAttempt → AuthenticationAttempt
new_row t rows = record {
  society_id = t.society_id;
  subject_digest = t.keys.subject_digest;
  origin_digest = t.keys.origin_digest;
  method = t.method;
  outcome = outcome_of rows t;
  failure_code = none;
  retention_until = t.time + attempt_retention_ms;
  occurred_at = t.time;
}

attempt-cons :
    (t : Try) (rows : List AuthenticationAttempt) → attempt t rows ≡ (new_row t rows ∷ rows)
unfolding attempt record_attempt
attempt-cons t rows = refl

outcome_of-failure :
    (t : Try) (rows : List AuthenticationAttempt)
    → is_failure (outcome_of rows t) ≡ true
    → allowed t.keys t.method t.society_id t.time rows ≡ true
outcome_of-failure t rows h = elim (Bool-cases (allowed t.keys t.method t.society_id t.time rows)) [
  | inl here ↦ here
  | inr other ↦ cc (rw other at h)
]

new_row-limits :
    (method : AuthenticationMethod) (society_id subject : String) (t : Try)
    (rows : List AuthenticationAttempt) (start interval : ℕ)
    → is_failure_row method society_id subject start interval (new_row t rows) ≡ true
    → (allowed t.keys method society_id t.time rows ≡ true)
      × (t.keys.subject_digest ≡ subject)
      × (t.time ≤ start + interval)
new_row-limits method society_id subject t rows start interval h =
    let same_society : t.society_id ≡ society_id = ground (arith, eq_iff t.society_id society_id) in
    let same_method : t.method ≡ method =
      same→eq AuthenticationMethod-discrete t.method method (ground arith) in
    let wrong : is_failure (outcome_of rows t) ≡ true = ground arith in
    let open_now = outcome_of-failure t rows wrong in
    (
      subst (λ m. allowed t.keys m society_id t.time rows ≡ true) same_method
          (subst (λ s. allowed t.keys t.method s t.time rows ≡ true) same_society open_now),
      ground (arith, eq_iff t.keys.subject_digest subject),
      ground arith,
    )

attempt-IsLimited :
    (method : AuthenticationMethod) (society_id subject : String) (t : Try)
    (rows : List AuthenticationAttempt)
    → IsLimited method society_id subject rows
    → IsLimited method society_id subject (attempt t rows)
attempt-IsLimited method society_id subject t rows h start =
    let row = new_row t rows in
    rw (attempt-cons t rows) (
      (elim (failures-cons method society_id subject rows row start minutes_15) [
        | inl q ↦ omega (arith, h start)
        | inr (failed, q) ↦
            let (open_now, same_subject, late) =
              new_row-limits method society_id subject t rows start minutes_15 failed in
            let few =
              (allowed-failures t.keys method society_id t.time rows open_now start).0 late in
            omega (
              arith,
              subst (λ d. failures method society_id d start minutes_15 rows < 5) same_subject few,
            )
      ]),
      (elim (failures-cons method society_id subject rows row start hours_24) [
        | inl q ↦ omega (arith, h start)
        | inr (failed, q) ↦
            let (open_now, same_subject, late) =
              new_row-limits method society_id subject t rows start hours_24 failed in
            let few =
              (allowed-failures t.keys method society_id t.time rows open_now start).1 late in
            omega (
              arith,
              subst (λ d. failures method society_id d start hours_24 rows < 20) same_subject few,
            )
      ]),
    )

-- Over any attempts, at whatever times, for whatever subjects and by whatever methods, whose
-- transactions first ask `allowed` and then record BLOCKED if it refuses and FAILURE or SUCCESS if
-- it does not, a subject of a society gets no more than five rows of FAILURE for one method in any
-- 15 minutes and no more than twenty in any 24 hours, if that was so before. (How many credentials
-- are verified is not bounded by this: a BLOCKED attempt may have been verified too.)
pub attempts-IsLimited :
    (method : AuthenticationMethod) (society_id subject : String) (ts : List Try)
    (rows : List AuthenticationAttempt)
    → IsLimited method society_id subject rows
    → IsLimited method society_id subject (attempts ts rows)
unfolding attempts
attempts-IsLimited method society_id subject [] rows h = h
attempts-IsLimited method society_id subject (t ∷ ts) rows h =
    attempts-IsLimited method society_id subject ts (attempt t rows)
      (attempt-IsLimited method society_id subject t rows h)
