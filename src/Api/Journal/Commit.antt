-- ===== src/Api/Journal/Commit.antt =====
-- apps/api/src/modules/platform/mutation-journal.service.ts: `commit`, which writes the audit entry of
-- a mutation, the event for the worker and the answer to repeat. The hash of an entry, the
-- cipher and the schemas of payloads are parameters; ids and times are given by the caller.
pub mod Chain
use Prim.Native.Nat.{Ordering}
use Prim.Native.String.{compare as compare_text}
use manglam_balaji_managemen.Api.Errors.{Answer, answer, throw, plain, ◌>>=◌}
use manglam_balaji_managemen.Api.Journal.{RecordStatus, MutationActor, IdempotencyRow}
use manglam_balaji_managemen.Api.Journal.Payload.{assert_safe_outbox_payload, spread}
use manglam_balaji_managemen.Domain.Json.{JsonValue, JsonFields, string, object, no_fields, field}
use manglam_balaji_managemen.Js.Text.{utf16, template, trimmed_length}
use manglam_balaji_managemen.Worker.Outbox.{OutboxStatus, OutboxEvent}
use manglam_balaji_managemen.Prelude.{
  ℕ, ◌+◌, Bool, true, false, not, ◌&&◌, ◌||◌, ltb, leb, ◌==◌, if◌then◌else◌, List, [], ◌∷◌, any,
  all, map, take, Option, none, some, String, str_eq, length,
}

pub data AuditOutcome : Type 0 where
  success failure denied : AuditOutcome

pub data PayloadMode : Type 0 where
  durable_context exact : PayloadMode

pub record CommitMutationInput (Response : Type 0) : Type 0 where
  pub action : String
  pub audit_outcome : Option AuditOutcome
  pub actor : MutationActor
  pub aggregate_id : String
  pub aggregate_type : String
  pub correlation_id : String
  pub entity_id : Option String
  pub entity_type : String
  pub event_type : String
  pub idempotency_record_id : String
  pub metadata : Option JsonFields
  pub outbox_payload : Option JsonFields
  pub outbox_payload_mode : Option PayloadMode
  pub new_values : Option JsonFields
  pub operation_key : Option String
  pub previous_values : Option JsonFields
  pub reason : Option String
  pub response : Response
  pub response_status : ℕ
  pub society_id : String

-- What is hashed for an audit entry.
pub record AuditMaterial : Type 0 where
  pub action : String
  pub actor : MutationActor
  pub correlation_id : String
  pub entity_id : Option String
  pub entity_type : String
  pub metadata : Option JsonFields
  pub new_values : Option JsonFields
  pub occurred_at : ℕ
  pub previous_hash : Option String
  pub previous_values : Option JsonFields
  pub reason : Option String
  pub society_id : String

-- A row of audit_logs: what was hashed for it, from which its other columns are copied, the
-- reason without the blanks around it.
pub record AuditEntry : Type 0 where
  pub id : String
  pub material : AuditMaterial
  pub outcome : AuditOutcome
  pub entry_hash : String

pub record Journal (Body : Type 0) : Type 0 where
  pub records : List (IdempotencyRow Body)
  pub audit_logs : List AuditEntry
  pub outbox_events : List OutboxEvent

abbrev pub is_of : String → AuditEntry → Bool
is_of society_id entry = str_eq entry.material.society_id society_id

-- `orderBy: [{ occurredAt: 'desc' }, { id: 'desc' }]`
unfoldable pub is_newer : AuditEntry → AuditEntry → Bool
is_newer e f =
    ltb f.material.occurred_at e.material.occurred_at
    || (e.material.occurred_at == f.material.occurred_at
        && (elim (compare_text e.id f.id) [ Ordering.gt ↦ true | _ ↦ false ]))

newer : AuditEntry → Option AuditEntry → AuditEntry
newer e none = e
newer e (some f) = if is_newer f e then f else e

-- `findFirst`: the newest entry of the society.
unfoldable pub newest : String → List AuditEntry → Option AuditEntry
unfolding newer
newest society_id [] = none
newest society_id (e ∷ entries) =
    if is_of society_id e
    then some (newer e (newest society_id entries))
    else newest society_id entries

abbrev pub hash_of : Option AuditEntry → Option String
hash_of none = none
hash_of (some e) = some e.entry_hash

abbrev pub or_default : {A : Type 0} → Option A → A → A
or_default none other = other
or_default (some s) other = s

module _ {Response : Type 0} where
  abbrev pub event_context : CommitMutationInput Response → JsonFields
  event_context input = field "aggregateId" (string input.aggregate_id) (
      field "correlationId" (string input.correlation_id)
        (field "societyId" (string input.society_id) no_fields))

  unfoldable pub outbox_payload_of : CommitMutationInput Response → JsonValue
  outbox_payload_of input = elim input.outbox_payload_mode [
    | some mode ↦ elim mode [
      | PayloadMode.exact ↦ object (or_default input.outbox_payload no_fields)
      | PayloadMode.durable_context ↦
          object (spread (event_context input) (or_default input.outbox_payload no_fields))
    ]
    | none ↦ object (spread (event_context input) (or_default input.outbox_payload no_fields))
  ]

  abbrev pub audit_material : CommitMutationInput Response → ℕ → Option AuditEntry → AuditMaterial
  audit_material input now previous = record {
    action = input.action;
    actor = input.actor;
    correlation_id = input.correlation_id;
    entity_id = input.entity_id;
    entity_type = input.entity_type;
    metadata = input.metadata;
    new_values = input.new_values;
    occurred_at = now;
    previous_hash = hash_of previous;
    previous_values = input.previous_values;
    reason = input.reason;
    society_id = input.society_id;
  }

  unfoldable pub append_audit :
      (AuditMaterial → String)
      → CommitMutationInput Response
      → String
      → ℕ
      → List AuditEntry
      → List AuditEntry
  append_audit entry_hash input id now entries =
      let material = audit_material input now (newest input.society_id entries) in
      let entry : AuditEntry = record {
        id = id;
        material = material;
        outcome = or_default input.audit_outcome AuditOutcome.success;
        entry_hash = entry_hash material;
      } in
      entry ∷ entries

  -- `${operationKey ?? eventType}:${idempotencyRecordId}`.slice(0, 200)
  unfoldable pub dedupe_key : CommitMutationInput Response → List ℕ
  dedupe_key input = take 200 (
      utf16 (
        template (
          or_default input.operation_key input.event_type
          ∷ ":"
          ∷ input.idempotency_record_id
          ∷ [])))

  abbrev pub pending_event : CommitMutationInput Response → JsonValue → String → ℕ → OutboxEvent
  pending_event input payload id now = record {
    id = id;
    society_id = input.society_id;
    aggregate_type = input.aggregate_type;
    aggregate_id = input.aggregate_id;
    event_type = input.event_type;
    correlation_id = input.correlation_id;
    payload = payload;
    dedupe_key = dedupe_key input;
    status = OutboxStatus.pending;
    available_at = now;
    created_at = now;
    claimed_at = none;
    published_at = none;
    attempt_count = 0;
    last_error_code = none;
    updated_at = now;
  }

  module _ {Body : Type 0} (encrypt : Response → Body) where
    abbrev pub complete_record :
        CommitMutationInput Response → IdempotencyRow Body → IdempotencyRow Body
    complete_record input row = record row {
      locked_until = none;
      response_body = some (encrypt input.response);
      response_status = some input.response_status;
      status = RecordStatus.completed;
    }

    -- `idempotencyRecord.update`, which throws where there is no such row
    unfoldable pub update_record :
        CommitMutationInput Response
        → List (IdempotencyRow Body)
        → Answer (List (IdempotencyRow Body))
    update_record input rows =
        if any (λ row. str_eq row.id input.idempotency_record_id) rows
        then answer (
            map
              (λ row.
                if str_eq row.id input.idempotency_record_id
                then complete_record input row
                else row)
              rows)
        else throw (plain "No record was found for an update.")

same_units : List ℕ → List ℕ → Bool
same_units [] [] = true
same_units (c ∷ cs) (d ∷ ds) = c == d && same_units cs ds
same_units _ _ = false

-- `outboxEvent.create`, under the table's unique index on the society and the dedupe key
unfoldable pub create_event : OutboxEvent → List OutboxEvent → Answer (List OutboxEvent)
unfolding same_units
create_event event events =
    if any
      (λ other.
        str_eq other.society_id event.society_id && same_units other.dedupe_key event.dedupe_key)
      events
    then throw (plain "Unique constraint failed.")
    else answer (event ∷ events)

-- The ids that the database draws, and the time.
pub record CommitContext : Type 0 where
  pub audit_id : String
  pub event_id : String
  pub now : ℕ

module _ {Response Body : Type 0} (encrypt : Response → Body) (entry_hash : AuditMaterial → String)
    (otp_schema notification_schema : JsonValue → Option String) where
  unfoldable pub commit :
      CommitMutationInput Response → CommitContext → Journal Body → Answer (Journal Body)
  commit input context journal = do
    let payload = outbox_payload_of input
    safe ← assert_safe_outbox_payload otp_schema notification_schema input.event_type payload
    let audit_logs = append_audit entry_hash input context.audit_id context.now journal.audit_logs
    outbox_events ←
        create_event (pending_event input payload context.event_id context.now)
          journal.outbox_events
    records ← update_record encrypt input journal.records
    answer (record { records = records; audit_logs = audit_logs; outbox_events = outbox_events })
