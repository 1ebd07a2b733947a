-- ===== src/Domain/Otp/Laws.antt =====
-- packages/domain/src/otp.ts: when a password is accepted, and how often it can be tried.
use manglam_balaji_managemen.Domain.Codes.{digest_secret, verify_secret}
use manglam_balaji_managemen.Domain.Codes.Digests.{
  all_iff, SameDigest, constant_time_digest_equal_iff,
}
use manglam_balaji_managemen.Js.Text.{utf16}
use manglam_balaji_managemen.Domain.Otp.{
  is_digit, has_valid_format, otp_purpose_text, challenge_context, OtpChallengeSnapshot,
  OtpVerificationDecision, accepted, rejected, OtpAttempt, is_expired, earlier_refusal, attempted,
  otp_answer, or_earlier, otp_matches, verify_otp_challenge,
}
use manglam_balaji_managemen.Js.Date.{date_parse}
use manglam_balaji_managemen.Prelude.{
  ℕ, ◌+◌, ◌≤◌, ◌<◌, ◌≡◌, ◌↔◌, refl, Bool, true, false, List, [], ◌∷◌, Option, none, some, String,
  arith, max, Option-cases, Bool-cases, All, length, inl, inr, ap, sym, ◌∙◌, ◌>>=◌,
}

-- A challenge that may still be tried.
pub record IsOpen (c : OtpChallengeSnapshot) (now : String) : Type 0 where
  pub unused : c.consumed_at ≡ none
  pub current : c.superseded_at ≡ none
  pub in_time : (t e : ℕ) → date_parse now ≡ some t → date_parse c.expires_at ≡ some e → t < e
  pub attempts_left : c.attempts < c.max_attempts

is_expired_iff :
    (now expires_at : Option ℕ)
    → (is_expired now expires_at ≡ false) ↔ ((t e : ℕ) → now ≡ some t → expires_at ≡ some e → t < e)
is_expired_iff none expires_at = (λ h t e p. cc, λ h. refl)
is_expired_iff (some t) none = (λ h t e p q. cc, λ h. refl)
is_expired_iff (some t) (some e) =
    (λ h t' e' p q. ground arith, λ h. ground (arith, h t e refl refl))

some-true : (b : Bool) → some b ≡ some true → b ≡ true
some-true b h = ground arith

-- Six decimal digits.
pub record IsCode (candidate : String) : Type 0 where
  pub long : length (utf16 candidate) ≡ 6
  pub digits : All (λ c. (b'0' ≤ c) × (c ≤ b'9')) (utf16 candidate)

is_digit_iff : (c : ℕ) → (is_digit c ≡ true) ↔ ((b'0' ≤ c) × (c ≤ b'9'))
is_digit_iff c = ground arith

has_valid_format_iff : (candidate : String) → (has_valid_format candidate ≡ true) ↔ IsCode candidate
unfolding has_valid_format
has_valid_format_iff candidate =
    let digits_iff =
      all_iff is_digit (λ c. (b'0' ≤ c) × (c ≤ b'9')) is_digit_iff (utf16 candidate) in
    (
      λ h. record { long = ground arith; digits = digits_iff.0 (ground arith) },
      λ d. ground (arith, d.long, digits_iff.1 d.digits),
    )

earlier_refusal_iff :
    (c : OtpChallengeSnapshot) (now : String) → (earlier_refusal c now ≡ none) ↔ IsOpen c now
unfolding earlier_refusal
earlier_refusal_iff c now = (
  λ h. record {
    unused = ground arith;
    current = ground arith;
    in_time = (is_expired_iff (date_parse now) (date_parse c.expires_at)).0 (ground arith);
    attempts_left = ground arith;
  },
  λ o. ground (
    arith,
    o.unused,
    o.current,
    o.attempts_left,
    (is_expired_iff (date_parse now) (date_parse c.expires_at)).1 o.in_time,
  ),
)

-- The state after an attempt: the caller stores the decision's challenge, and nothing where the
-- verification raises an error.
abbrev pub after : OtpChallengeSnapshot → Option OtpVerificationDecision → OtpChallengeSnapshot
after c none = c
after c (some (accepted d)) = d
after c (some (rejected _ d _)) = d

abbrev pub accepts : Option OtpVerificationDecision → ℕ
accepts (some (accepted _)) = 1
accepts _ = 0

-- 1 for a challenge that is used up.
abbrev pub used : OtpChallengeSnapshot → ℕ
used c = elim c.consumed_at [ none ↦ 0 | some _ ↦ 1 ]

-- 1 if the attempt gets as far as a comparison of codes.
guess_of : Option OtpVerificationDecision → Option Bool → ℕ
guess_of none (some _) = 1
guess_of _ _ = 0

earlier_refusal-keeps :
    (c : OtpChallengeSnapshot) (now : String) (r : OtpVerificationDecision)
    → earlier_refusal c now ≡ some r
    → (after c (some r) ≡ c) × (accepts (some r) ≡ 0)
unfolding earlier_refusal
earlier_refusal-keeps c now (accepted d) h = ground arith
earlier_refusal-keeps c now (rejected f d e) h = (ground arith, refl)

otp_answer-accepted :
    (c d : OtpChallengeSnapshot) (now : String) (m : Bool)
    → otp_answer c now m ≡ accepted d
    → (m ≡ true) × (d ≡ record (attempted c) { consumed_at = some now })
unfolding otp_answer
otp_answer-accepted c d now true h = (refl, ground arith)
otp_answer-accepted c d now false h = ground arith

otp_answer-after :
    (c : OtpChallengeSnapshot) (now : String) (m : Bool)
    → ((after c (some (otp_answer c now m))).attempts ≡ c.attempts + 1)
      × ((after c (some (otp_answer c now m))).max_attempts ≡ c.max_attempts)
      × (c.consumed_at ≡ none
          → used c + accepts (some (otp_answer c now m))
            ≤ used (after c (some (otp_answer c now m))))
unfolding otp_answer
otp_answer-after c now true = (refl, refl, λ e. ground arith)
otp_answer-after c now false = (ground arith, ground arith, λ e. ground arith)

module _ (hmac_hex : List ℕ → List ℕ → String) where
  abbrev pub verify : OtpChallengeSnapshot → OtpAttempt → Option OtpVerificationDecision
  verify = verify_otp_challenge hmac_hex

  verify_refused :
      (c : OtpChallengeSnapshot) (a : OtpAttempt) {r : OtpVerificationDecision}
      → earlier_refusal c a.now ≡ some r
      → verify_otp_challenge hmac_hex c a ≡ some r
  unfolding verify_otp_challenge
  verify_refused c a e =
      ap
        (λ o.
          or_earlier o (otp_matches hmac_hex c a >>= λ matches. some (otp_answer c a.now matches)))
        e

  verify_compares :
      (c : OtpChallengeSnapshot) (a : OtpAttempt) {m : Option Bool}
      → earlier_refusal c a.now ≡ none
      → otp_matches hmac_hex c a ≡ m
      → verify_otp_challenge hmac_hex c a ≡ (m >>= λ matches. some (otp_answer c a.now matches))
  unfolding verify_otp_challenge
  verify_compares c a e f =
      ap
        (λ o.
          or_earlier o (otp_matches hmac_hex c a >>= λ matches. some (otp_answer c a.now matches)))
        e
      ∙ ap (λ m. m >>= λ matches. some (otp_answer c a.now matches)) f

  -- The digest of a candidate, bound to its challenge, is the challenge's.
  pub record IsRight (c : OtpChallengeSnapshot) (a : OtpAttempt) : Type 0 where
    pub digest : String
    pub computed :
        digest_secret hmac_hex a.candidate
          (c.id ∷ c.phone_e164 ∷ otp_purpose_text c.purpose ∷ c.device_nonce ∷ [])
          a.pepper
        ≡ some digest
    pub same_digest : SameDigest digest c.digest

  otp_matches_iff :
      (c : OtpChallengeSnapshot) (a : OtpAttempt)
      → (otp_matches hmac_hex c a ≡ some true) ↔ (IsCode a.candidate × IsRight c a)
  unfolding otp_matches verify_secret
  otp_matches_iff c a = (
    λ h. elim (Bool-cases (has_valid_format a.candidate)) [
      | inr other ↦ cc (rw other at h)
      | inl valid ↦
          elim (Option-cases (digest_secret hmac_hex a.candidate (challenge_context c) a.pepper)) [
            | inl e ↦ cc (rw (valid, e) at h)
            | inr (digest, e) ↦ (
              (has_valid_format_iff a.candidate).0 valid,
              record {
                digest = digest;
                computed = e;
                same_digest =
                    (constant_time_digest_equal_iff digest c.digest).0
                      (some-true _ (rw (valid, e) at h));
              },
            )
          ]
    ],
    λ (code, right).
        rw ((has_valid_format_iff a.candidate).1 code, right.computed)
          (ap some ((constant_time_digest_equal_iff right.digest c.digest).1 right.same_digest)),
  )

  -- A password is accepted exactly if the challenge is neither used nor superseded, has not expired
  -- and has attempts left, and the candidate is six decimal digits whose digest, bound to the
  -- challenge's id, phone, purpose and device nonce, is the challenge's; the challenge is then
  -- consumed, with one more attempt.
  pub verify_otp_challenge-accepts_iff :
      (c : OtpChallengeSnapshot) (a : OtpAttempt) (d : OtpChallengeSnapshot)
      → (verify_otp_challenge hmac_hex c a ≡ some (accepted d)) ↔ (
          IsOpen c a.now
          × IsCode a.candidate
          × IsRight c a
          × (d ≡ record (attempted c) { consumed_at = some a.now }))
  unfolding otp_answer
  verify_otp_challenge-accepts_iff c a d = (
    λ h. elim (Option-cases (earlier_refusal c a.now)) [
      | inl live ↦ elim (Option-cases (otp_matches hmac_hex c a)) [
        | inl e ↦ cc (h, verify_compares c a live e)
        | inr (m, e) ↦
            let (t, q) = otp_answer-accepted c d a.now m (cc (h, verify_compares c a live e)) in
            let (code, right) = (otp_matches_iff c a).0 (e ∙ ap some t) in
            ((earlier_refusal_iff c a.now).0 live, code, right, q)
      ]
      | inr (r, e) ↦
          let (_, none_taken) = earlier_refusal-keeps c a.now r e in
          absurd (omega (arith, none_taken, ap accepts (sym (verify_refused c a e) ∙ h)))
    ],
    λ (o, code, right, q).
        verify_compares c a ((earlier_refusal_iff c a.now).1 o)
          ((otp_matches_iff c a).1 (code, right))
        ∙ ap (λ x. some (accepted x)) (sym q),
  )

  unfoldable pub guess : OtpChallengeSnapshot → OtpAttempt → ℕ
  unfolding guess_of earlier_refusal
  guess c a = guess_of (earlier_refusal c a.now) (otp_matches hmac_hex c a)

  -- Attempts one after another: how many are accepted, and how many compare a code.
  unfoldable pub acceptances : OtpChallengeSnapshot → List OtpAttempt → ℕ
  acceptances c [] = 0
  acceptances c (a ∷ rest) = accepts (verify c a) + acceptances (after c (verify c a)) rest

  unfoldable pub guesses : OtpChallengeSnapshot → List OtpAttempt → ℕ
  guesses c [] = 0
  guesses c (a ∷ rest) = guess c a + guesses (after c (verify c a)) rest

  attempt_uses :
      (c : OtpChallengeSnapshot) (a : OtpAttempt)
      → used c + accepts (verify c a) ≤ used (after c (verify c a))
  attempt_uses c a = elim (Option-cases (earlier_refusal c a.now)) [
    | inl live ↦ elim (Option-cases (otp_matches hmac_hex c a)) [
      | inl e ↦ rw (verify_compares c a live e) (omega arith)
      | inr (m, e) ↦
          rw (verify_compares c a live e)
            ((otp_answer-after c a.now m).2 ((earlier_refusal_iff c a.now).0 live).unused)
    ]
    | inr (r, e) ↦
        let (same, none_taken) = earlier_refusal-keeps c a.now r e in
        rw (verify_refused c a e) (omega (arith, none_taken, ap used same))
  ]

  attempt_counts :
      (c : OtpChallengeSnapshot) (a : OtpAttempt)
      → (c.attempts + guess c a ≡ (after c (verify c a)).attempts)
        × ((after c (verify c a)).max_attempts ≡ c.max_attempts)
        × (c.attempts + guess c a ≤ max c.attempts c.max_attempts)
  unfolding guess_of guess
  attempt_counts c a = elim (Option-cases (earlier_refusal c a.now)) [
    | inl live ↦
        let left = ((earlier_refusal_iff c a.now).0 live).attempts_left in
        elim (Option-cases (otp_matches hmac_hex c a)) [
          | inl e ↦ rw (verify_compares c a live e, live, e) (omega arith, refl, omega arith)
          | inr (m, e) ↦
              let (more, same_max, _) = otp_answer-after c a.now m in
              rw (verify_compares c a live e, live, e)
                (omega (arith, more), same_max, omega (arith, left))
        ]
    | inr (r, e) ↦
        let (same, none_taken) = earlier_refusal-keeps c a.now r e in
        rw (verify_refused c a e, e)
          (
            omega (arith, ap (λ (x : OtpChallengeSnapshot). x.attempts) same),
            ap (λ (x : OtpChallengeSnapshot). x.max_attempts) same,
            omega arith,
          )
  ]

  used-le : (c : OtpChallengeSnapshot) → used c ≤ 1
  used-le c = ground arith

  -- However often and with whatever codes a challenge is tried, at most one attempt is accepted (none
  -- if the challenge was used before), and no code is compared beyond the attempts that it allows.
  pub otp_tries_bounded :
      (c : OtpChallengeSnapshot) (tries : List OtpAttempt)
      → (used c + acceptances c tries ≤ 1)
        × (c.attempts + guesses c tries ≤ max c.attempts c.max_attempts)
  unfolding acceptances guesses
  otp_tries_bounded c [] = (omega (arith, used-le c), omega arith)
  otp_tries_bounded c (a ∷ rest) =
      let (once, few) = otp_tries_bounded (after c (verify c a)) rest in
      let (counts, same_max, within) = attempt_counts c a in
      (omega (arith, attempt_uses c a, once), omega (arith, counts, same_max, within, few))
