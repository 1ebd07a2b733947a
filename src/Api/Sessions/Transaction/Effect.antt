-- ===== src/Api/Sessions/Transaction/Effect.antt =====
-- apps/api/src/modules/auth/session.service.ts, `rotate`: what the whole service does to the tables of
-- sessions, whatever the journal and the limits say.
use manglam_balaji_managemen.Api.Attempts.{AuthenticationMethod, CredentialAttemptKeys, allowed}
use manglam_balaji_managemen.Api.Errors.{answer, bind-answer, Answer-cases}
use manglam_balaji_managemen.Api.Journal.{MutationActor, MutationClaim, execute, replay, begin}
use manglam_balaji_managemen.Api.Sessions.{
  AuthTables, TokenView, RefreshToken, Rotation, unknown, refused, rotated, tables_after,
}
use manglam_balaji_managemen.Api.Sessions.Tokens.{live_tokens}
use manglam_balaji_managemen.Api.Sessions.Families.{rotate_tables-live_tokens}
use manglam_balaji_managemen.Api.Sessions.Rotate.{
  stored, RotateSessionInput, MutationRequestContext, Drawn, ApiTables, rotate_actor,
}
use manglam_balaji_managemen.Api.Sessions.Transaction.{
  SessionService, Outcome, RefreshFailure, failure_commit, commit_journal, commit_refresh_failure,
  commit_rotated, rotated_commit, response_of, attempt_keys, presented, presented_by,
  record_rotation, execute_rotation, answer_claim, rotate_transaction, rotate, located, located_id,
  begin_input, with_records, token_digest,
}
use manglam_balaji_managemen.Prelude.{
  ◌≤◌, ◌≡◌, ◌⊎◌, inl, inr, String, Option, none, some, arith, Bool-cases,
}

module _ {Body : Type 0} (service : SessionService Body) (society_id : String)
    (context : MutationRequestContext) (drawn : Drawn) where
  abbrev auth_of : Outcome × ApiTables Body → AuthTables
  auth_of done = done.1.auth

  commit_refresh_failure-auth :
      (f : RefreshFailure) (auth : AuthTables) (tables : ApiTables Body)
      (done : Outcome × ApiTables Body)
      → commit_refresh_failure service society_id context drawn f auth tables ≡ answer done
      → auth_of done ≡ auth
  unfolding commit_refresh_failure
  commit_refresh_failure-auth f auth tables done h =
      let (journal, _, q) =
        bind-answer
          (commit_journal service society_id context drawn
            (failure_commit service society_id context drawn f) tables.journal)
          _ done h in
      ground arith

  commit_rotated-auth :
      (actor : MutationActor) (keys : CredentialAttemptKeys) (claim_id : String)
      (token : RefreshToken) (view : TokenView) (auth : AuthTables) (tables : ApiTables Body)
      (done : Outcome × ApiTables Body)
      → commit_rotated service society_id context drawn actor keys claim_id token view auth tables
        ≡ answer done
      → (auth_of done ≡ auth)
        × (done.0 ≡ stored (response_of service society_id context drawn token view))
  unfolding commit_rotated
  commit_rotated-auth actor keys claim_id token view auth tables done h =
      let (journal, _, q) =
        bind-answer
          (commit_journal service society_id context drawn
            (rotated_commit service society_id context drawn actor claim_id view
              (response_of service society_id context drawn token view))
            tables.journal)
          _ done h in
      (ground arith, ground arith)

  module _ (input : RotateSessionInput) where
    abbrev outcome_tables : AuthTables → AuthTables
    outcome_tables auth = tables_after auth (presented service society_id context drawn input auth)

    record_rotation-auth :
        (actor : MutationActor) (operation_id claim_id : String) (tables : ApiTables Body)
        (r : Rotation) (done : Outcome × ApiTables Body)
        → record_rotation service society_id context drawn input actor operation_id claim_id tables
            r
          ≡ answer done
        → auth_of done ≡ tables_after tables.auth r
    unfolding record_rotation
    record_rotation-auth actor operation_id claim_id tables unknown done h =
        commit_refresh_failure-auth _ tables.auth tables done h
    record_rotation-auth actor operation_id claim_id tables (refused compromise view auth) done h =
        commit_refresh_failure-auth _ auth tables done h
    record_rotation-auth actor operation_id claim_id tables (rotated token view auth) done h =
        (commit_rotated-auth actor _ claim_id token view auth tables done h).0

    answer_claim-auth :
        (actor : MutationActor) (operation_id : String) (tables : ApiTables Body)
        (claim : MutationClaim Outcome) (done : Outcome × ApiTables Body)
        → answer_claim service society_id context drawn input actor operation_id tables claim
          ≡ answer done
        → (auth_of done ≡ tables.auth) ⊎ (auth_of done ≡ outcome_tables tables.auth)
    unfolding answer_claim execute_rotation
    answer_claim-auth actor operation_id tables (replay outcome) done h = inl (ground arith)
    answer_claim-auth actor operation_id tables (execute claim_id hash) done h =
        elim (Bool-cases (
          allowed (attempt_keys service society_id context drawn input)
            AuthenticationMethod.refresh_token society_id drawn.now tables.attempts)) [
              | inr blocked ↦
                  inl (commit_refresh_failure-auth _ tables.auth tables done (rw blocked at h))
              | inl open_now ↦ inr (
                  record_rotation-auth actor operation_id claim_id tables
                    (presented service society_id context drawn input tables.auth) done
                    (rw open_now at h))
            ]

    presented_by-live_tokens :
        (digest : Option String) (auth : AuthTables) (s f : String)
        → live_tokens s f
            (tables_after auth
              (presented_by service society_id context drawn input digest auth)).tokens
          ≤ live_tokens s f auth.tokens
    unfolding presented_by
    presented_by-live_tokens none auth s f = omega arith
    presented_by-live_tokens (some digest) auth s f =
        rotate_tables-live_tokens service.refresh_ttl_seconds society_id digest _ _ drawn.now auth s
          f

    rotate_transaction-live_tokens :
        (actor : MutationActor) (operation_id : String) (tables : ApiTables Body)
        (done : Outcome × ApiTables Body) (s f : String)
        → rotate_transaction service society_id context drawn input actor operation_id tables
          ≡ answer done
        → live_tokens s f (auth_of done).tokens ≤ live_tokens s f tables.auth.tokens
    unfolding rotate_transaction
    rotate_transaction-live_tokens actor operation_id tables done s f h =
        let (begun, _, q) =
          bind-answer
            (begin service.decrypt service.request_hash
              (begin_input service society_id context drawn input actor) drawn.record_id drawn.now
              tables.journal.records)
            _ done h in
        elim (answer_claim-auth actor operation_id
          (with_records service society_id context drawn input begun.1 tables) begun.0 done q) [
            | inl kept ↦ rw kept (omega arith)
            | inr settled ↦ rw settled (
                presented_by-live_tokens (token_digest service society_id context drawn input)
                  tables.auth s f)
          ]

    -- Whatever token is presented to the service, with whatever idempotency key and whatever its
    -- journal and its limits say, no family of tokens has more active tokens afterwards than
    -- before.
    pub rotate-live_tokens :
        (before : AuthTables) (tables : ApiTables Body) (s f : String)
        → live_tokens s f
            (rotate service society_id context drawn input before tables).1.auth.tokens
          ≤ live_tokens s f tables.auth.tokens
    unfolding rotate
    rotate-live_tokens before tables s f =
        let actor =
          rotate_actor (attempt_keys service society_id context drawn input)
            (located service society_id context drawn input before) in
        let id =
          located_id service society_id context drawn input
            (located service society_id context drawn input before) in
        elim (Answer-cases
          (rotate_transaction service society_id context drawn input actor id tables)) [
            | inl (done, q) ↦
                rw (q, rotate) (rotate_transaction-live_tokens actor id tables done s f q)
            | inr (error, q) ↦ rw (q, rotate) (omega arith)
          ]
