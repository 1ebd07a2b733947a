-- ===== src/Api/Journal.antt =====
-- apps/api/src/modules/platform/mutation-journal.service.ts: `begin`, which claims an idempotency
-- key for a mutation or finds the answer that it gave before. The hash of a request and the
-- cipher of stored answers are parameters; ids are drawn by the caller, times are milliseconds.
pub mod Claims
pub mod Turns
pub mod Exclusion
pub mod Payload
pub mod Commit
use manglam_balaji_managemen.Api.Errors.{Answer, answer, throw, Thrown, api_error}
use manglam_balaji_managemen.Js.Text.{utf16}
use manglam_balaji_managemen.Prelude.{
  ℕ, ◌+◌, ◌≡◌, refl, Bool, true, false, not, ◌&&◌, ◌||◌, ltb, leb, ◌==◌, if◌then◌else◌, List, [],
  ◌∷◌, map, find, filter, length, all, same, Option, none, some, String, str_eq, eq_iff, arith,
}

-- The statuses of the database, which spells the first one otherwise than packages/types.
pub data RecordStatus : Type 0 where
  in_progress completed failed : RecordStatus

unfoldable pub RecordStatus-discrete : Discrete RecordStatus
RecordStatus-discrete = hlevel

pub record MutationActor : Type 0 where
  pub actor_scope_key : String
  pub device_id : Option String
  pub gate_id : Option String
  pub guard_device_id : Option String
  pub session_id : Option String
  pub user_id : Option String

-- `societyId_actorScopeKey_operation_key`, which is unique in the table.
pub record MutationKey : Type 0 where
  pub society_id : String
  pub actor_scope_key : String
  pub operation : String
  pub key : String

unfoldable pub is_key : MutationKey → MutationKey → Bool
is_key j k =
    str_eq j.society_id k.society_id
    && str_eq j.actor_scope_key k.actor_scope_key
    && str_eq j.operation k.operation
    && str_eq j.key k.key

-- A row of idempotency_records.
pub record IdempotencyRow (Body : Type 0) : Type 0 where
  pub id : String
  pub unique_key : MutationKey
  pub actor_user_id : Option String
  pub guard_device_id : Option String
  pub session_id : Option String
  pub request_hash : String
  pub status : RecordStatus
  pub response_status : Option ℕ
  pub response_body : Option Body
  pub locked_until : Option ℕ
  pub expires_at : ℕ

pub record BeginMutationInput (Request : Type 0) : Type 0 where
  pub actor : MutationActor
  pub idempotency_key : String
  pub operation : String
  pub request : Request
  pub society_id : String

pub data MutationClaim (Response : Type 0) : Type 0 where
  -- the record's id and the hash of the request
  execute : String → String → MutationClaim Response
  replay : Response → MutationClaim Response

abbrev pub idempotency_ttl_ms : ℕ
idempotency_ttl_ms = 86400000

abbrev pub claim_lock_ms : ℕ
claim_lock_ms = 30000

-- /^[A-Za-z0-9._:-]+$/ on one code unit
is_key_unit : ℕ → Bool
is_key_unit c =
    (leb b'A' c && leb c b'Z')
    || (leb b'a' c && leb c b'z')
    || (leb b'0' c && leb c b'9')
    || c == b'.'
    || c == b'_'
    || c == b':'
    || c == b'-'

-- `idempotencyKeySchema`, which changes nothing in a key that it accepts
unfoldable pub is_idempotency_key : String → Bool
unfolding is_key_unit
is_idempotency_key key =
    let units = utf16 key in
    leb 16 (length units) && leb (length units) 128 && all is_key_unit units

abbrev pub has_status : RecordStatus → RecordStatus → Bool
has_status s t = same RecordStatus-discrete s t

abbrev pub in_progress_error : String → Thrown
in_progress_error operation =
    api_error "IDEMPOTENCY_REQUEST_IN_PROGRESS" (("operation", operation) ∷ [])
      "The same request is already being processed." 409

-- `lockedUntil === null || lockedUntil <= now`
abbrev pub is_unlocked : ℕ → Option ℕ → Bool
is_unlocked now none = true
is_unlocked now (some locked_until) = leb locked_until now

module _ {Body : Type 0} where
  -- The row that the upsert creates.
  abbrev pub new_record :
      {Request : Type 0} → BeginMutationInput Request → String → String → ℕ → IdempotencyRow Body
  new_record input hash candidate_id now = record {
    id = candidate_id;
    unique_key = record {
      society_id = input.society_id;
      actor_scope_key = input.actor.actor_scope_key;
      operation = input.operation;
      key = input.idempotency_key;
    };
    actor_user_id = input.actor.user_id;
    guard_device_id = input.actor.guard_device_id;
    session_id = input.actor.session_id;
    request_hash = hash;
    status = RecordStatus.in_progress;
    response_status = none;
    response_body = none;
    locked_until = some (now + claim_lock_ms);
    expires_at = now + idempotency_ttl_ms;
  }

  -- `upsert` with an empty update: the row of the key, and the table.
  unfoldable pub upsert :
      IdempotencyRow Body
      → List (IdempotencyRow Body)
      → IdempotencyRow Body × List (IdempotencyRow Body)
  upsert new rows = elim (find (λ row. is_key row.unique_key new.unique_key) rows) [
    | some row ↦ (row, rows)
    | none ↦ (new, new ∷ rows)
  ]

  -- `status === COMPLETED && responseBody !== null`
  unfoldable pub stored_body : IdempotencyRow Body → Option Body
  stored_body row = if has_status row.status RecordStatus.completed then row.response_body else none

  unfoldable pub is_claimable : String → ℕ → IdempotencyRow Body → Bool
  is_claimable id now row =
      str_eq row.id id
      && (has_status row.status RecordStatus.failed || is_unlocked now row.locked_until)

  abbrev pub claim_record : ℕ → IdempotencyRow Body → IdempotencyRow Body
  claim_record now row = record row {
    locked_until = some (now + claim_lock_ms);
    response_body = none;
    response_status = none;
    status = RecordStatus.in_progress;
  }

  module _ {Response : Type 0} (decrypt : Body → Response) where
    abbrev pub Claimed : Type 0
    Claimed = MutationClaim Response × List (IdempotencyRow Body)

    -- A record of an earlier request: `updateMany` claims it, if nobody else holds it.
    unfoldable pub claim_again :
        String → String → ℕ → IdempotencyRow Body → List (IdempotencyRow Body) → Answer Claimed
    claim_again operation hash now row rows =
        if not (length (filter (is_claimable row.id now) rows) == 1)
        then throw (in_progress_error operation)
        else answer (
          execute row.id hash,
          map (λ r. if is_claimable row.id now r then claim_record now r else r) rows,
        )

    unfoldable pub answer_record :
        String
        → String
        → String
        → ℕ
        → IdempotencyRow Body
        → List (IdempotencyRow Body)
        → Answer Claimed
    unfolding claim_again
    answer_record candidate_id operation hash now row rows =
        if not (str_eq row.request_hash hash)
        then throw (
            api_error "IDEMPOTENCY_KEY_REUSED" (("operation", operation) ∷ [])
              "This idempotency key was already used for a different request." 409)
        else if str_eq row.id candidate_id
        then answer (execute row.id hash, rows)
        else elim (stored_body row) [
          | some body ↦ answer (replay (decrypt body), rows)
          | none ↦
              if has_status row.status RecordStatus.in_progress
                && not (is_unlocked now row.locked_until)
              then throw (in_progress_error operation)
              else claim_again operation hash now row rows
        ]

    module _ {Request : Type 0} (request_hash : Request → String) where
      unfoldable pub begin :
          BeginMutationInput Request → String → ℕ → List (IdempotencyRow Body) → Answer Claimed
      unfolding upsert answer_record
      begin input candidate_id now rows =
          if not (is_idempotency_key input.idempotency_key)
          then throw (
              api_error "VALIDATION_FAILED" (("field", "idempotency-key") ∷ [])
                "A valid Idempotency-Key header is required." 400)
          else let hash = request_hash input.request in
            let (row, rows') = upsert (new_record input hash candidate_id now) rows in
            answer_record candidate_id input.operation hash now row rows'
