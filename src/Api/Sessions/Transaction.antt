-- ===== src/Api/Sessions/Transaction.antt =====
-- apps/api/src/modules/auth/session.service.ts, `rotate`: the transaction itself.
pub mod Effect
use mathlib.Core.Option
use manglam_balaji_managemen.Api.Attempts.{
  AuthenticationMethod, AttemptOutcome, CredentialAttemptKeys, allowed, record_attempt,
}
use manglam_balaji_managemen.Api.Digests
use manglam_balaji_managemen.Api.Digests.{Secrets}
use manglam_balaji_managemen.Api.Errors.{ApiError, api, api_error, Answer, answer, throw, ◌>>=◌}
use manglam_balaji_managemen.Api.Journal.{
  MutationActor, BeginMutationInput, MutationClaim, execute, replay, begin, IdempotencyRow,
}
use manglam_balaji_managemen.Api.Journal.Commit.{
  CommitMutationInput, CommitContext, Journal, AuditMaterial, AuditOutcome, commit,
}
use manglam_balaji_managemen.Api.Sessions.{
  AuthTables, TokenView, RefreshToken, Rotation, unknown, refused, rotated, rotate_tables,
}
use manglam_balaji_managemen.Api.Sessions.Rotate.{
  SessionTokenResponse, StoredOutcome, stored, stored_failure, parse_refresh_family,
  RotateSessionInput, MutationRequestContext, Drawn, ApiTables, AccessClaims, AccessToken, Located,
  locate, rotate_actor, or_none,
}
use manglam_balaji_managemen.Domain.Json.{
  JsonValue, JsonFields, string, null, object, no_fields, field,
}
use manglam_balaji_managemen.Js.Text.{template}
use manglam_balaji_managemen.Prelude.{
  ℕ, not, Bool, true, false, List, [], ◌∷◌, if◌then◌else◌, Option, none, some, String,
}

-- What the service is built with: the signer of access tokens, the digests' secrets and HMAC, the
-- hash of a request, the cipher of answers, the hash of an audit entry and the payload schemas.
pub record SessionService (Body : Type 0) : Type 0 where
  pub refresh_ttl_seconds : ℕ
  pub secrets : Secrets
  pub hmac_hex : List ℕ → List ℕ → String
  pub issue : AccessClaims → ℕ → AccessToken
  pub request_hash : JsonValue → String
  pub encrypt : StoredOutcome SessionTokenResponse → Body
  pub decrypt : Body → StoredOutcome SessionTokenResponse
  pub entry_hash : AuditMaterial → String
  pub otp_schema : JsonValue → Option String
  pub notification_schema : JsonValue → Option String

abbrev pub Outcome : Type 0
Outcome = StoredOutcome SessionTokenResponse

-- The refusal that `commitRefreshFailure` records.
pub record RefreshFailure : Type 0 where
  pub actor : MutationActor
  pub attempt_keys : CredentialAttemptKeys
  pub claim_id : String
  pub compromise : Bool
  pub failure_code : String
  pub operation_id : String
  pub is_blocked : Bool
  pub session_id : Option String

abbrev pub failure_error : Bool → ApiError
failure_error is_blocked =
    if is_blocked
    then record {
      code = "AUTHENTICATION_RATE_LIMITED";
      details = [];
      message = "Too many authentication attempts. Try again later.";
      status = 429;
    }
    else record {
      code = "SESSION_EXPIRED";
      details = [];
      message = "The session is no longer valid.";
      status = 401;
    }

abbrev pub status_name : Bool → String
status_name compromise = if compromise then "COMPROMISED" else "EXPIRED"

module _ {Body : Type 0} (service : SessionService Body) (society_id : String)
    (context : MutationRequestContext) (drawn : Drawn) where
  abbrev pub failure_commit : RefreshFailure → CommitMutationInput Outcome
  failure_commit f = record {
    action = if f.compromise then "auth.session.compromise" else "auth.session.rotate_failed";
    audit_outcome = some AuditOutcome.failure;
    actor = f.actor;
    aggregate_id = f.operation_id;
    aggregate_type = "UserSession";
    correlation_id = context.database_correlation_id;
    entity_id = f.session_id;
    entity_type = "UserSession";
    event_type =
        if f.compromise then "auth.session.compromised" else "auth.session.rotation_failed";
    idempotency_record_id = f.claim_id;
    metadata = some (
        field "failureCode" (string f.failure_code)
          (field "ipAddress" (or_none context.ip_address) no_fields));
    outbox_payload = none;
    outbox_payload_mode = none;
    new_values = elim f.session_id [
      | none ↦ none
      | some _ ↦ some (field "status" (string (status_name f.compromise)) no_fields)
    ];
    operation_key = none;
    previous_values = none;
    reason = some f.failure_code;
    response = stored_failure (failure_error f.is_blocked);
    response_status = (failure_error f.is_blocked).status;
    society_id = society_id;
  }

  abbrev pub commit_journal : CommitMutationInput Outcome → Journal Body → Answer (Journal Body)
  commit_journal input =
      commit service.encrypt service.entry_hash service.otp_schema service.notification_schema input
        drawn.commit

  -- `commitRefreshFailure`, on the tables of sessions that it has already changed
  unfoldable pub commit_refresh_failure :
      RefreshFailure → AuthTables → ApiTables Body → Answer (Outcome × ApiTables Body)
  commit_refresh_failure f auth tables = do
    let attempts =
        record_attempt f.attempt_keys AuthenticationMethod.refresh_token
          (if f.is_blocked then AttemptOutcome.blocked else AttemptOutcome.failure)
          (some f.failure_code) society_id drawn.now tables.attempts
    journal ← commit_journal (failure_commit f) tables.journal
    answer (
      stored_failure (failure_error f.is_blocked),
      record { journal = journal; attempts = attempts; auth = auth },
    )

  -- The new token as it is sent: the family, a point and the random part.
  abbrev pub raw_token : String → String
  raw_token family_id = template (family_id ∷ "." ∷ drawn.random_token ∷ [])

  abbrev pub response_of : RefreshToken → TokenView → SessionTokenResponse
  response_of token view =
      let access : AccessToken =
        service.issue
          (record {
            device_id = view.device.id;
            kind = view.session.kind;
            session_id = view.token.session_id;
            society_id = society_id;
            user_id = view.session.user_id;
          })
          drawn.now in
      record {
        access_token = access.token;
        access_token_expires_at = access.expires_at;
        refresh_token = raw_token view.token.family_id;
        refresh_token_expires_at = token.expires_at;
        session_id = view.token.session_id;
      }

  abbrev pub rotated_commit :
      MutationActor → String → TokenView → SessionTokenResponse → CommitMutationInput Outcome
  rotated_commit actor claim_id view response = record {
    action = "auth.session.rotate";
    audit_outcome = none;
    actor = actor;
    aggregate_id = view.token.session_id;
    aggregate_type = "UserSession";
    correlation_id = context.database_correlation_id;
    entity_id = some view.token.session_id;
    entity_type = "UserSession";
    event_type = "auth.session.rotated";
    idempotency_record_id = claim_id;
    metadata = some (field "ipAddress" (or_none context.ip_address) no_fields);
    outbox_payload = none;
    outbox_payload_mode = none;
    new_values = some (field "refreshTokenIdRotatedFrom" (string view.token.id) no_fields);
    operation_key = none;
    previous_values = none;
    reason = none;
    response = stored response;
    response_status = 200;
    society_id = society_id;
  }

  unfoldable pub commit_rotated :
      MutationActor
      → CredentialAttemptKeys
      → String
      → RefreshToken
      → TokenView
      → AuthTables
      → ApiTables Body
      → Answer (Outcome × ApiTables Body)
  commit_rotated actor keys claim_id token view auth tables = do
    let response = response_of token view
    let attempts =
        record_attempt keys AuthenticationMethod.refresh_token AttemptOutcome.success none
          society_id drawn.now tables.attempts
    journal ← commit_journal (rotated_commit actor claim_id view response) tables.journal
    answer (stored response, record { journal = journal; attempts = attempts; auth = auth })

  module _ (input : RotateSessionInput) where
    abbrev pub family : Option String
    family = parse_refresh_family input.refresh_token

    abbrev pub raw_digest : String
    raw_digest = service.request_hash (string input.refresh_token)

    abbrev pub identifier : Option String → String
    identifier none = raw_digest
    identifier (some family_id) = family_id

    abbrev pub attempt_keys : CredentialAttemptKeys
    attempt_keys = record {
      origin_digest = some (
          Digests.authentication_origin service.hmac_hex service.secrets input.device_fingerprint
            context.ip_address society_id);
      subject_digest =
          Digests.authentication_subject service.hmac_hex service.secrets (identifier family)
            "REFRESH_TOKEN" society_id;
    }

    abbrev pub digest_of : String → String → String
    digest_of = Digests.refresh_token service.hmac_hex service.secrets

    abbrev pub token_digest : Option String
    token_digest = Option.map (λ family_id. digest_of input.refresh_token family_id) family

    abbrev pub fingerprint_digest : String
    fingerprint_digest =
        Digests.device_fingerprint service.hmac_hex service.secrets input.device_fingerprint
          society_id

    -- The presented token on the tables; without a family there is no digest to look for.
    unfoldable pub presented_by : Option String → AuthTables → Rotation
    presented_by none auth = unknown
    presented_by (some digest) auth =
        rotate_tables service.refresh_ttl_seconds society_id digest fingerprint_digest
          (record {
            id = drawn.token_id;
            digest = λ family_id. digest_of (raw_token family_id) family_id;
          })
          drawn.now auth

    abbrev pub presented : AuthTables → Rotation
    presented auth = presented_by token_digest auth

    abbrev pub refresh_failure : MutationActor → String → String → RefreshFailure
    refresh_failure actor claim_id operation_id = record {
      actor = actor;
      attempt_keys = attempt_keys;
      claim_id = claim_id;
      compromise = false;
      failure_code = "SESSION_EXPIRED";
      operation_id = operation_id;
      is_blocked = false;
      session_id = none;
    }

    -- What is recorded of the presented token.
    unfoldable pub record_rotation :
        MutationActor
        → String
        → String
        → ApiTables Body
        → Rotation
        → Answer (Outcome × ApiTables Body)
    record_rotation actor operation_id claim_id tables unknown =
        commit_refresh_failure (refresh_failure actor claim_id operation_id) tables.auth tables
    record_rotation actor operation_id claim_id tables (refused compromise view auth) =
        commit_refresh_failure
          (record (refresh_failure actor claim_id operation_id) {
            compromise = compromise;
            failure_code = if compromise then "SESSION_COMPROMISED" else "SESSION_EXPIRED";
            operation_id = view.token.session_id;
            session_id = some view.token.session_id;
          })
          auth tables
    record_rotation actor operation_id claim_id tables (rotated token view auth) =
        commit_rotated actor attempt_keys claim_id token view auth tables

    -- What follows a claim that may execute.
    unfoldable pub execute_rotation :
        MutationActor → String → String → ApiTables Body → Answer (Outcome × ApiTables Body)
    unfolding record_rotation
    execute_rotation actor operation_id claim_id tables =
        if not (
          allowed attempt_keys AuthenticationMethod.refresh_token society_id drawn.now
            tables.attempts)
        then commit_refresh_failure
            (record (refresh_failure actor claim_id operation_id) {
              failure_code = "AUTHENTICATION_RATE_LIMITED";
              is_blocked = true;
            })
            tables.auth tables
        else record_rotation actor operation_id claim_id tables (presented tables.auth)

    -- A replay answers with what was stored and changes nothing.
    unfoldable pub answer_claim :
        MutationActor
        → String
        → ApiTables Body
        → MutationClaim Outcome
        → Answer (Outcome × ApiTables Body)
    answer_claim actor operation_id tables (replay outcome) = answer (outcome, tables)
    answer_claim actor operation_id tables (execute claim_id hash) =
        execute_rotation actor operation_id claim_id tables

    abbrev pub begin_input : MutationActor → BeginMutationInput JsonValue
    begin_input actor = record {
      actor = actor;
      idempotency_key = context.idempotency_key;
      operation = "auth.session.rotate";
      request = object (
          field "deviceFingerprintDigest" (string fingerprint_digest)
            (field "refreshTokenDigest" (string raw_digest) no_fields));
      society_id = society_id;
    }

    abbrev pub with_records : List (IdempotencyRow Body) → ApiTables Body → ApiTables Body
    with_records records tables = record tables {
      journal = record {
        records = records;
        audit_logs = tables.journal.audit_logs;
        outbox_events = tables.journal.outbox_events;
      };
    }

    unfoldable pub rotate_transaction :
        MutationActor → String → ApiTables Body → Answer (Outcome × ApiTables Body)
    unfolding answer_claim
    rotate_transaction actor operation_id tables =
        begin service.decrypt service.request_hash (begin_input actor) drawn.record_id drawn.now
          tables.journal.records
        >>= λ begun. answer_claim actor operation_id (with_records begun.1 tables) begun.0

    unfoldable pub located_id : Option Located → String
    located_id none = drawn.operation_id
    located_id (some l) = l.token.session_id

    unfoldable pub located : AuthTables → Option Located
    located before = elim token_digest [
      | none ↦ none
      | some digest ↦ locate society_id digest before
    ]

    -- `unwrapOutcome`: a refusal is thrown once the transaction is committed.
    unfoldable pub unwrap_outcome : Outcome → Answer SessionTokenResponse
    unwrap_outcome (stored response) = answer response
    unwrap_outcome (stored_failure error) = throw (api error)

    -- `rotate`, with the tables as they were when the token was located: the answer, and the tables
    -- after it, which are the old ones if the transaction is rolled back.
    unfoldable pub rotate :
        AuthTables → ApiTables Body → Answer SessionTokenResponse × ApiTables Body
    unfolding located located_id unwrap_outcome
    rotate before tables =
        let l = located before in
        elim (rotate_transaction (rotate_actor attempt_keys l) (located_id l) tables) [
          | throw error ↦ (throw error, tables)
          | answer done ↦ (unwrap_outcome done.0, done.1)
        ]
