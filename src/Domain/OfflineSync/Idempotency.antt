-- ===== src/Domain/OfflineSync/Idempotency.antt =====
-- packages/domain/src/offline-sync.ts, `evaluateIdempotency`: whose stored answer is given again.
use manglam_balaji_managemen.Domain.OfflineSync.{
  IdempotencyRecord, IdempotencyDecision, IdempotentRequest, is_over, is_same_request, answer_known,
  evaluate_idempotency,
}
use manglam_balaji_managemen.Js.Date.{date_parse}
use manglam_balaji_managemen.Types.Enums.Platform.{IdempotencyStatus}
use manglam_balaji_managemen.Prelude.{
  ◌≡◌, ◌↔◌, inl, inr, refl, true, false, Option, none, some, arith, eq_iff, Option-cases,
}

-- The record is of the same request: its actor, operation, key and contents.
pub record IsSameRequest {Response : Type 0} (known : IdempotencyRecord Response)
    (r : IdempotentRequest Response) : Type 0 where
  pub actor : known.actor_id ≡ r.actor_id
  pub operation : known.operation ≡ r.operation
  pub key : known.key ≡ r.key
  pub contents : known.request_hash ≡ r.request_hash

module _ {Response : Type 0} where
  is_same_request_iff :
      (known : IdempotencyRecord Response) (r : IdempotentRequest Response)
      → (is_same_request known r ≡ true) ↔ IsSameRequest known r
  is_same_request_iff known r = (
    λ h. record {
      actor = ground (arith, eq_iff known.actor_id r.actor_id);
      operation = ground (arith, eq_iff known.operation r.operation);
      key = ground (arith, eq_iff known.key r.key);
      contents = ground (arith, eq_iff known.request_hash r.request_hash);
    },
    λ k. ground (
      arith,
      eq_iff known.actor_id r.actor_id,
      eq_iff known.operation r.operation,
      eq_iff known.key r.key,
      eq_iff known.request_hash r.request_hash,
    ),
  )

  answer_known-replay :
      (status : IdempotencyStatus) (response : Option Response) (x : Response)
      → (answer_known status response ≡ IdempotencyDecision.replay x)
        ↔ ((status ≡ IdempotencyStatus.completed) × (response ≡ some x))
  unfolding answer_known
  answer_known-replay IdempotencyStatus.completed (some y) x =
      (λ h. ground arith, λ k. ground arith)
  answer_known-replay IdempotencyStatus.completed none x = (λ h. ground arith, λ k. ground arith)
  answer_known-replay IdempotencyStatus.processing response x =
      (λ h. ground arith, λ k. ground arith)
  answer_known-replay IdempotencyStatus.failed response x = (λ h. ground arith, λ k. ground arith)

  -- An answer is given again exactly if a record is there that has not expired, is of the same request,
  -- and is completed with this answer.
  pub evaluate_idempotency-replays_iff :
      (r : IdempotentRequest Response) (x : Response)
      → (evaluate_idempotency r ≡ IdempotencyDecision.replay x) ↔ (
          (known : IdempotencyRecord Response) × (r.existing ≡ some known)
          × (is_over (date_parse r.now) (date_parse known.expires_at) ≡ false)
          × IsSameRequest known r
          × (known.status ≡ IdempotencyStatus.completed)
          × (known.response ≡ some x))
  unfolding evaluate_idempotency
  evaluate_idempotency-replays_iff r x = (
    λ h. elim (Option-cases r.existing) [
      | inl e ↦ ground arith
      | inr (known, e) ↦
          let same : is_same_request known r ≡ true = ground arith in
          let given : answer_known known.status known.response ≡ IdempotencyDecision.replay x =
            ground arith in
          let (done, answer) = (answer_known-replay known.status known.response x).0 given in
          (known, e, ground arith, (is_same_request_iff known r).0 same, done, answer)
    ],
    λ (known, e, fresh, same, done, answer).
        rw
          (
            e,
            fresh,
            (is_same_request_iff known r).1 same,
            (answer_known-replay known.status known.response x).1 (done, answer),
          )
          refl,
  )
