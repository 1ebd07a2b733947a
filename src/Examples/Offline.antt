-- ===== src/Examples/Offline.antt =====
-- packages/domain/src/offline-sync.ts at concrete requests, with toy functions for the hashes.
use manglam_balaji_managemen.Domain.Codes.{constant_time_digest_equal, decimal, utf8}
use manglam_balaji_managemen.Domain.Json.{string, number, object, no_fields, field, canonicalize}
use manglam_balaji_managemen.Domain.OfflineSync.{
  OfflineMutation, OfflineDeviceSnapshot, SyncRequest, accept, evaluate_offline_mutation,
  hash_canonical_payload, sign_offline_mutation, IdempotencyRecord, IdempotentRequest,
  evaluate_idempotency, is_over,
}
use manglam_balaji_managemen.Domain.OfflineSync.Idempotency.{
  IsSameRequest, evaluate_idempotency-replays_iff,
}
use manglam_balaji_managemen.Domain.OfflineSync.Laws.{
  IsEntitled, IsSigned, IsTimely, IsNext, evaluate_offline_mutation-accepts_iff,
}
use manglam_balaji_managemen.Domain.OfflineSync.Turns.{
  accepted_sequences, numbers_from, accepted_sequences-consecutive,
}
use manglam_balaji_managemen.Js.Date.{date_parse}
use manglam_balaji_managemen.Js.Number.{integer}
use manglam_balaji_managemen.Types.Enums.Platform.{
  DeviceStatus, DeviceStatus-discrete, OfflineMutationOperation, OfflineMutationOperation-discrete,
  IdempotencyStatus,
}
use manglam_balaji_managemen.Prelude.{
  ℕ, ◌%◌, ◌≡◌, refl, false, List, [], ◌∷◌, none, some, String, ◌==◌, length, if◌then◌else◌,
}

-- One of two digests, by the length of the message.
abbrev toy_digest : List ℕ → String
toy_digest message =
    if length message % 2 == 0
    then "aaaaaaaaaaaaaaaaaaaaaaaaaaaaaaaaaaaaaaaaaaaaaaaaaaaaaaaaaaaaaaaa"
    else "bbbbbbbbbbbbbbbbbbbbbbbbbbbbbbbbbbbbbbbbbbbbbbbbbbbbbbbbbbbbbbbb"

abbrev toy_hmac : List ℕ → List ℕ → String
toy_hmac key message = toy_digest message

-- The keys are put in order.
canonical_order :
    canonicalize
      (object (field "plate" (string "MH12") (field "count" (number (integer 2)) no_fields)))
    ≡ some (utf8 "{\"count\":2,\"plate\":\"MH12\"}")
unfolding canonicalize utf8 decimal
canonical_order = refl

-- A visitor leaves while the gate is offline.
abbrev change : OfflineMutation
change = record {
  client_mutation_id = "m-8";
  device_id = "device-1";
  gate_id = "gate-1";
  operation = OfflineMutationOperation.visit_check_out;
  aggregate_id = "visit-1";
  local_sequence = 8;
  base_version = none;
  client_occurred_at = "2026-07-01T10:00:00.000Z";
  payload = object no_fields;
  payload_hash = "aaaaaaaaaaaaaaaaaaaaaaaaaaaaaaaaaaaaaaaaaaaaaaaaaaaaaaaaaaaaaaaa";
  signature = "aaaaaaaaaaaaaaaaaaaaaaaaaaaaaaaaaaaaaaaaaaaaaaaaaaaaaaaaaaaaaaaa";
}

abbrev device : OfflineDeviceSnapshot
device = record {
  id = "device-1";
  status = DeviceStatus.active;
  assigned_gate_ids = "gate-1" ∷ [];
  lease_issued_at = "2026-07-01T06:00:00.000Z";
  lease_expires_at = "2026-07-01T18:00:00.000Z";
  last_accepted_sequence = 7;
}

abbrev upload : SyncRequest
upload = record {
  mutation = change;
  device = device;
  device_secret = "0123456789abcdef0123456789abcdef";
  now = "2026-07-01T10:30:00.000Z";
  server_aggregate_version = some 3;
  existing = none;
  max_future_clock_skew_ms = none;
}

uploaded : evaluate_offline_mutation toy_digest toy_hmac upload ≡ some (accept 8)
unfolding evaluate_offline_mutation hash_canonical_payload sign_offline_mutation canonicalize
    constant_time_digest_equal date_parse utf8 decimal DeviceStatus-discrete
    OfflineMutationOperation-discrete
uploaded = refl

evaluate_offline_mutation-accepts_iff_example :
    IsEntitled upload
    × IsSigned toy_digest toy_hmac upload
    × IsTimely upload
    × IsNext upload
    × (8 ≡ upload.mutation.local_sequence)
evaluate_offline_mutation-accepts_iff_example =
    (evaluate_offline_mutation-accepts_iff toy_digest toy_hmac upload 8).0 uploaded

-- The same upload twice.
abbrev uploads : List SyncRequest
uploads = upload ∷ upload ∷ []

accepted_sequences-consecutive_example :
    accepted_sequences toy_digest toy_hmac 7 uploads
    ≡ numbers_from 7 (length (accepted_sequences toy_digest toy_hmac 7 uploads))
accepted_sequences-consecutive_example =
    accepted_sequences-consecutive toy_digest toy_hmac 7 uploads

-- A request is repeated within the life of its record.
abbrev known : IdempotencyRecord String
known = record {
  actor_id = "user-1";
  operation = "visit.approve";
  key = "key-1";
  request_hash = "hash-1";
  status = IdempotencyStatus.completed;
  response = some "approved";
  expires_at = "2026-07-02T10:00:00.000Z";
}

abbrev repeated : IdempotentRequest String
repeated = record {
  actor_id = "user-1";
  operation = "visit.approve";
  key = "key-1";
  request_hash = "hash-1";
  now = "2026-07-01T10:00:00.000Z";
  existing = some known;
}

evaluate_idempotency-replays_iff_example :
    (k : IdempotencyRecord String) × (repeated.existing ≡ some k)
    × (is_over (date_parse repeated.now) (date_parse k.expires_at) ≡ false)
    × IsSameRequest k repeated
    × (k.status ≡ IdempotencyStatus.completed)
    × (k.response ≡ some "approved")
unfolding evaluate_idempotency date_parse
evaluate_idempotency-replays_iff_example =
    (evaluate_idempotency-replays_iff repeated "approved").0 refl
