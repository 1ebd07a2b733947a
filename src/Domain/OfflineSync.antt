-- ===== src/Domain/OfflineSync.antt =====
-- packages/domain/src/offline-sync.ts: what becomes of a change that a guard's device made offline, and
-- of a request whose idempotency key is known. The hash and the HMAC of node:crypto are parameters.
pub mod Laws
pub mod Turns
pub mod Idempotency
use manglam_balaji_managemen.Domain.Codes.{constant_time_digest_equal, utf8}
use manglam_balaji_managemen.Domain.Json.{
  JsonValue, null, number, string, object, JsonFields, no_fields, field, canonicalize,
}
use manglam_balaji_managemen.Js.Date.{date_parse}
use manglam_balaji_managemen.Js.Number.{integer}
use manglam_balaji_managemen.Js.Text.{utf16}
use manglam_balaji_managemen.Types.Enums.Platform.{
  DeviceStatus, DeviceStatus-discrete, OfflineMutationOperation, OfflineMutationOperation-discrete,
  offline_mutation_operation_text, IdempotencyStatus,
}
use manglam_balaji_managemen.Prelude.{
  ℕ, ◌+◌, Bool, true, false, not, ◌&&◌, ◌||◌, List, [], ◌∷◌, Option, none, some, String, str_eq,
  any, includes, same, ◌==◌, leb, ltb, length, if◌then◌else◌, ◌>>=◌,
}

-- Sequence numbers and versions are counts.
pub record OfflineMutation : Type 0 where
  pub client_mutation_id : String
  pub device_id : String
  pub gate_id : String
  pub operation : OfflineMutationOperation
  pub aggregate_id : String
  pub local_sequence : ℕ
  -- null is `none`
  pub base_version : Option ℕ
  pub client_occurred_at : String
  pub payload : JsonValue
  pub payload_hash : String
  pub signature : String

abbrev version_json : Option ℕ → JsonValue
version_json none = null
version_json (some n) = number (integer n)

-- `signaturePayload`
unfoldable pub signature_payload : OfflineMutation → JsonValue
signature_payload m = object (
    field "aggregateId" (string m.aggregate_id) (
      field "baseVersion" (version_json m.base_version) (
        field "clientMutationId" (string m.client_mutation_id) (
          field "clientOccurredAt" (string m.client_occurred_at) (
            field "deviceId" (string m.device_id) (
              field "gateId" (string m.gate_id) (
                field "localSequence" (number (integer m.local_sequence)) (
                  field "operation" (string (offline_mutation_operation_text m.operation))
                    (field "payloadHash" (string m.payload_hash) no_fields)))))))))

abbrev pub allowed_offline_operations : List OfflineMutationOperation
allowed_offline_operations =
    OfflineMutationOperation.visit_prepare ∷ OfflineMutationOperation.visit_manual_entry
    ∷ OfflineMutationOperation.visit_check_out ∷ OfflineMutationOperation.daily_help_check_in
    ∷ OfflineMutationOperation.daily_help_check_out ∷ OfflineMutationOperation.emergency_acknowledge
    ∷ []

pub record OfflineDeviceSnapshot : Type 0 where
  pub id : String
  pub status : DeviceStatus
  pub assigned_gate_ids : List String
  pub lease_issued_at : String
  pub lease_expires_at : String
  pub last_accepted_sequence : ℕ

pub record ExistingOfflineMutation : Type 0 where
  pub client_mutation_id : String
  pub payload_hash : String
  pub operation : OfflineMutationOperation
  pub server_entity_id : String

pub data ConflictCode : Type 0 where
  client_mutation_reused sequence_conflict version_conflict : ConflictCode

pub data RejectCode : Type 0 where
  device_revoked gate_not_assigned lease_expired operation_not_allowed : RejectCode
  payload_hash_invalid signature_invalid clock_skew : RejectCode

pub data OfflineSyncDecision : Type 0 where
  accept : ℕ → OfflineSyncDecision
  replay : String → OfflineSyncDecision
  conflict : ConflictCode → OfflineSyncDecision
  reject : RejectCode → OfflineSyncDecision

-- The argument of `evaluateOfflineMutation`.
pub record SyncRequest : Type 0 where
  pub mutation : OfflineMutation
  pub device : OfflineDeviceSnapshot
  pub device_secret : String
  pub now : String
  pub server_aggregate_version : Option ℕ
  pub existing : Option ExistingOfflineMutation
  pub max_future_clock_skew_ms : Option ℕ

abbrev pub is_operation : OfflineMutationOperation → OfflineMutationOperation → Bool
is_operation = same OfflineMutationOperation-discrete

-- `now >= expiresAt`, which no unreadable date is.
abbrev pub is_over : Option ℕ → Option ℕ → Bool
is_over (some now) (some expires_at) = leb expires_at now
is_over _ _ = false

device_refusal : SyncRequest → Option RejectCode
device_refusal r =
    if not (same DeviceStatus-discrete r.device.status DeviceStatus.active)
      || not (str_eq r.mutation.device_id r.device.id)
    then some device_revoked
    else (if not (any (λ id. str_eq id r.mutation.gate_id) r.device.assigned_gate_ids)
        then some gate_not_assigned
        else (if is_over (date_parse r.now) (date_parse r.device.lease_expires_at)
            then some lease_expired
            else (if not (
                  includes OfflineMutationOperation-discrete allowed_offline_operations
                    r.mutation.operation)
                then some operation_not_allowed
                else none)))

abbrev pub skew_ms : Option ℕ → ℕ
skew_ms none = 900000
skew_ms (some ms) = ms

-- `occurredAt < leaseIssuedAt - skew`
abbrev pub is_too_early : ℕ → Option ℕ → ℕ → Bool
is_too_early occurred_at none skew = false
is_too_early occurred_at (some issued_at) skew = ltb (occurred_at + skew) issued_at

-- `occurredAt > now + skew`
abbrev pub is_too_late : ℕ → Option ℕ → ℕ → Bool
is_too_late occurred_at none skew = false
is_too_late occurred_at (some now) skew = ltb (now + skew) occurred_at

abbrev is_skewed : Option ℕ → Option ℕ → Option ℕ → ℕ → Bool
is_skewed none issued_at now skew = true
is_skewed (some occurred_at) issued_at now skew =
    is_too_early occurred_at issued_at skew || is_too_late occurred_at now skew

clock_refusal : SyncRequest → Option RejectCode
clock_refusal r =
    if is_skewed (date_parse r.mutation.client_occurred_at) (date_parse r.device.lease_issued_at)
      (date_parse r.now) (skew_ms r.max_future_clock_skew_ms)
    then some clock_skew
    else none

abbrev pub differ : Option ℕ → Option ℕ → Bool
differ (some base) (some server) = not (base == server)
differ _ _ = false

-- What follows the tests: a change that is known, out of its turn, or made on an older version.
order_decision : SyncRequest → OfflineSyncDecision
order_decision r = elim r.existing [
  | some known ↦
      if str_eq known.client_mutation_id r.mutation.client_mutation_id
        && str_eq known.payload_hash r.mutation.payload_hash
        && is_operation known.operation r.mutation.operation
      then replay known.server_entity_id
      else conflict client_mutation_reused
  | none ↦
      if not (r.mutation.local_sequence == r.device.last_accepted_sequence + 1)
      then conflict sequence_conflict
      else (if differ r.mutation.base_version r.server_aggregate_version
          then conflict version_conflict
          else accept r.mutation.local_sequence)
]

abbrev or_reject : Option RejectCode → Option OfflineSyncDecision → Option OfflineSyncDecision
or_reject (some why) next = some (reject why)
or_reject none next = next

module _ (sha256_hex : List ℕ → String) where
  -- `none` is the error that a number which is not finite raises.
  unfoldable pub hash_canonical_payload : JsonValue → Option String
  hash_canonical_payload payload = canonicalize payload >>= λ text. some (sha256_hex text)

module _ (hmac_hex : List ℕ → List ℕ → String) where
  -- `none` is the error that a short secret raises.
  unfoldable pub sign_offline_mutation : OfflineMutation → String → Option String
  unfolding signature_payload
  sign_offline_mutation mutation device_secret =
      if ltb (length (utf16 device_secret)) 32
      then none
      else (canonicalize (signature_payload mutation) >>= λ text.
          some (hmac_hex (utf8 device_secret) text))

abbrev hash_refusal : Option String → String → Option RejectCode
hash_refusal none hash = some payload_hash_invalid
hash_refusal (some computed) hash =
    if constant_time_digest_equal computed hash then none else some payload_hash_invalid

abbrev signed_refusal : String → String → Option RejectCode
signed_refusal computed signature =
    if constant_time_digest_equal computed signature then none else some signature_invalid

module _ (sha256_hex : List ℕ → String) (hmac_hex : List ℕ → List ℕ → String) where
  -- `none` is the error of `signOfflineMutation`, which the caller meets.
  unfoldable pub evaluate_offline_mutation : SyncRequest → Option OfflineSyncDecision
  unfolding device_refusal clock_refusal order_decision
  evaluate_offline_mutation r = or_reject (device_refusal r) (
      or_reject
        (hash_refusal (hash_canonical_payload sha256_hex r.mutation.payload)
          r.mutation.payload_hash)
        (sign_offline_mutation hmac_hex r.mutation r.device_secret >>= λ computed.
          or_reject (signed_refusal computed r.mutation.signature)
            (or_reject (clock_refusal r) (some (order_decision r)))))

pub record IdempotencyRecord (Response : Type 0) : Type 0 where
  pub actor_id : String
  pub operation : String
  pub key : String
  pub request_hash : String
  pub status : IdempotencyStatus
  -- null is `none`
  pub response : Option Response
  pub expires_at : String

pub data IdempotencyDecision (Response : Type 0) : Type 0 where
  claim in_progress retry conflict : IdempotencyDecision Response
  replay : Response → IdempotencyDecision Response

-- The argument of `evaluateIdempotency`.
pub record IdempotentRequest (Response : Type 0) : Type 0 where
  pub actor_id : String
  pub operation : String
  pub key : String
  pub request_hash : String
  pub now : String
  pub existing : Option (IdempotencyRecord Response)

module _ {Response : Type 0} where
  abbrev is_same_request : IdempotencyRecord Response → IdempotentRequest Response → Bool
  is_same_request known r =
      str_eq known.actor_id r.actor_id
      && str_eq known.operation r.operation
      && str_eq known.key r.key
      && str_eq known.request_hash r.request_hash

  -- The answer by the state of a record of the same request.
  answer_known : IdempotencyStatus → Option Response → IdempotencyDecision Response
  answer_known IdempotencyStatus.processing response = IdempotencyDecision.in_progress
  answer_known IdempotencyStatus.failed response = IdempotencyDecision.retry
  answer_known IdempotencyStatus.completed none = IdempotencyDecision.conflict
  answer_known IdempotencyStatus.completed (some response) = IdempotencyDecision.replay response

  unfoldable pub evaluate_idempotency : IdempotentRequest Response → IdempotencyDecision Response
  unfolding answer_known
  evaluate_idempotency r = elim r.existing [
    | none ↦ IdempotencyDecision.claim
    | some known ↦
        if is_over (date_parse r.now) (date_parse known.expires_at)
        then IdempotencyDecision.claim
        else (if not (is_same_request known r)
            then IdempotencyDecision.conflict
            else answer_known known.status known.response)
  ]
