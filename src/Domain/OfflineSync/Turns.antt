-- ===== src/Domain/OfflineSync/Turns.antt =====
-- packages/domain/src/offline-sync.ts: the order in which a device's changes are accepted.
use manglam_balaji_managemen.Domain.OfflineSync.{
  SyncRequest, OfflineSyncDecision, accept, evaluate_offline_mutation,
}
use manglam_balaji_managemen.Prelude.{
  ℕ, zero, suc, ◌+◌, ◌≡◌, inl, inr, refl, subst, ap, ◌∙◌, List, [], ◌∷◌, Option, none, some, String,
  arith, length, Option-cases,
}
use manglam_balaji_managemen.Domain.OfflineSync.Laws.{evaluate_offline_mutation-accepts_iff}

-- The `k` numbers that follow `last`.
abbrev pub numbers_from : ℕ → ℕ → List ℕ
numbers_from last zero = []
numbers_from last (suc k) = (last + 1) ∷ numbers_from (last + 1) k

abbrev pub accepted_number : Option OfflineSyncDecision → Option ℕ
accepted_number (some (accept n)) = some n
accepted_number _ = none

accepted_number-some :
    (o : Option OfflineSyncDecision) (n : ℕ) → accepted_number o ≡ some n → o ≡ some (accept n)
accepted_number-some (some (accept m)) n h = ground arith
accepted_number-some o n h = ground arith

module _ (sha256_hex : List ℕ → String) (hmac_hex : List ℕ → List ℕ → String) where
  -- A request met with the number that the device's record holds: a caller is to store the number of an
  -- accepted change there.
  abbrev pub after_sequence : ℕ → SyncRequest → SyncRequest
  after_sequence last r = record r { device = record r.device { last_accepted_sequence = last } }

  -- The numbers that are accepted of a device's requests, one after another.
  unfoldable pub accepted_sequences : ℕ → List SyncRequest → List ℕ
  accepted_sequences last [] = []
  accepted_sequences last (r ∷ rs) =
      elim (accepted_number
        (evaluate_offline_mutation sha256_hex hmac_hex (after_sequence last r))) [
          | none ↦ accepted_sequences last rs
          | some n ↦ n ∷ accepted_sequences n rs
        ]

  accepted-next :
      (last : ℕ) (r : SyncRequest) (n : ℕ)
      → accepted_number (evaluate_offline_mutation sha256_hex hmac_hex (after_sequence last r))
        ≡ some n
      → n ≡ last + 1
  accepted-next last r n h =
      let (_, _, _, next, answer) =
        (evaluate_offline_mutation-accepts_iff sha256_hex hmac_hex (after_sequence last r) n).0
          (accepted_number-some _ n h) in
      answer ∙ next.in_turn

  -- Whatever a device sends, in whatever order and how often: the changes that are accepted bear the
  -- numbers that follow the last one accepted, without a gap and none twice.
  pub accepted_sequences-consecutive :
      (last : ℕ) (rs : List SyncRequest)
      → accepted_sequences last rs ≡ numbers_from last (length (accepted_sequences last rs))
  unfolding accepted_sequences
  accepted_sequences-consecutive last [] = refl
  accepted_sequences-consecutive last (r ∷ rs) =
      elim (Option-cases
        (accepted_number (evaluate_offline_mutation sha256_hex hmac_hex (after_sequence last r)))) [
          | inl e ↦ rw (e, accepted_sequences) (accepted_sequences-consecutive last rs)
          | inr (n, e) ↦
              let next = accepted-next last r n e in
              rw (e, accepted_sequences)
                (subst
                  (λ k.
                    n ∷ accepted_sequences n rs
                    ≡ k ∷ numbers_from k (length (accepted_sequences n rs)))
                  next (ap (λ (ns : List ℕ). n ∷ ns) (accepted_sequences-consecutive n rs)))
        ]
