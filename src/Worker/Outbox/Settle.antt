-- ===== src/Worker/Outbox/Settle.antt =====
-- apps/worker/src/outbox/repository.ts: the SQL statements that complete and fail an event, and the
-- methods of OutboxRepository around the statements.
use manglam_balaji_managemen.Js.Number.{Number, integer, is_safe_integer, value}
use manglam_balaji_managemen.Js.Text.{template, integer_text}
use manglam_balaji_managemen.Worker.Retry.{
  Called, returned, thrown, Fraction, WorkerError, retry_delay_ms, error_code, error_detail,
}
use manglam_balaji_managemen.Worker.Outbox.{
  OutboxStatus, OutboxEvent, OutboxAttempt, Outbox, LeasedOutboxEvent, has_status, has_attempt,
  lease_sql,
}
use manglam_balaji_managemen.Prelude.{
  ℕ, ◌+◌, Bool, not, ◌&&◌, ◌||◌, ltb, leb, ◌==◌, if◌then◌else◌, List, [], ◌∷◌, map, any, none, some,
  String, str_eq,
}

-- The WHERE of COMPLETE_SQL and FAIL_SQL: the event is still held for this very attempt.
unfoldable pub is_held : List OutboxAttempt → String → String → ℕ → OutboxEvent → Bool
is_held rows id society_id attempt event =
    str_eq event.id id
    && str_eq event.society_id society_id
    && has_status event.status OutboxStatus.processing
    && event.attempt_count == attempt
    && not (has_attempt id attempt rows)

-- `transitioned` and `attempted`: the held events change, and each leaves a row. The answer is
-- whether there was one.
unfoldable pub settle_sql :
    (OutboxEvent → OutboxEvent) → OutboxAttempt → String → String → ℕ → Outbox → Bool × Outbox
settle_sql change row id society_id attempt outbox =
    let held = is_held outbox.attempts id society_id attempt in
    (
      any held outbox.events,
      record {
        events = map (λ event. if held event then change event else event) outbox.events;
        attempts = if any held outbox.events then row ∷ outbox.attempts else outbox.attempts;
      },
    )

abbrev pub complete : ℕ → OutboxEvent → OutboxEvent
complete now event = record event {
  status = OutboxStatus.published;
  published_at = some now;
  claimed_at = none;
  last_error_code = none;
  updated_at = now;
}

abbrev pub give_up : OutboxStatus → ℕ → List ℕ → ℕ → OutboxEvent → OutboxEvent
give_up status delay code now event = record event {
  status = status;
  claimed_at = none;
  available_at = now + delay;
  last_error_code = some code;
  updated_at = now;
}

abbrev pub published_attempt : LeasedOutboxEvent → OutboxAttempt
published_attempt event = record {
  society_id = event.society_id;
  outbox_event_id = event.id;
  attempt = event.attempt_count;
  status = OutboxStatus.published;
  error_code = none;
  error_detail = none;
}

abbrev pub failed_attempt : OutboxStatus → List ℕ → LeasedOutboxEvent → OutboxAttempt
failed_attempt status code event = record {
  society_id = event.society_id;
  outbox_event_id = event.id;
  attempt = event.attempt_count;
  status = status;
  error_code = some code;
  error_detail = some error_detail;
}

-- COMPLETE_SQL
unfoldable pub complete_sql : LeasedOutboxEvent → ℕ → Outbox → Bool × Outbox
complete_sql event now outbox =
    settle_sql (complete now) (published_attempt event) event.id event.society_id
      event.attempt_count outbox

-- FAIL_SQL
unfoldable pub fail_sql : LeasedOutboxEvent → OutboxStatus → ℕ → List ℕ → ℕ → Outbox → Bool × Outbox
fail_sql event status delay code now outbox =
    settle_sql (give_up status delay code now) (failed_attempt status code event) event.id
      event.society_id event.attempt_count outbox

-- `new OutboxRepository(database, maximumAttempts)`
unfoldable pub outbox_repository : Number → Called ℕ
outbox_repository maximum_attempts =
    if not (is_safe_integer maximum_attempts)
      || ltb (value maximum_attempts) 1
      || ltb 30 (value maximum_attempts)
    then thrown "maximumAttempts is outside the allowed range."
    else returned (value maximum_attempts)

unfoldable pub lease :
    Number → Number → ℕ → (String → Bool) → ℕ → Outbox → Called (List LeasedOutboxEvent) × Outbox
lease batch_size lease_seconds maximum locked now outbox =
    if not (is_safe_integer batch_size) || ltb (value batch_size) 1 || ltb 100 (value batch_size)
    then (thrown "batchSize is outside the allowed range.", outbox)
    else if not (is_safe_integer lease_seconds)
        || ltb (value lease_seconds) 10
        || ltb 900 (value lease_seconds)
    then (thrown "leaseSeconds is outside the allowed range.", outbox)
    else let (events, outbox') =
        lease_sql (value batch_size) (value lease_seconds) maximum locked now outbox in
      (returned events, outbox')

-- `requireAtomicTransition`
unfoldable pub require_atomic_transition :
    {A : Type 0} → LeasedOutboxEvent → A → Bool × Outbox → Called A × Outbox
require_atomic_transition event answer (transitioned, outbox) = (
  if transitioned
      then returned answer
      else thrown (
          template (
            "Outbox event "
            ∷ event.id
            ∷ " no longer owns processing attempt "
            ∷ integer_text event.attempt_count
            ∷ "."
            ∷ [])),
  outbox,
)

unfoldable pub publish : LeasedOutboxEvent → ℕ → Outbox → Called (Unit {0}) × Outbox
publish event now outbox = require_atomic_transition event tt (complete_sql event now outbox)

-- `event.attemptCount >= this.maximumAttempts ? 'DEAD_LETTER' : 'RETRY'`
unfoldable pub failed_status : ℕ → LeasedOutboxEvent → OutboxStatus
failed_status maximum event =
    if leb maximum event.attempt_count then OutboxStatus.dead_letter else OutboxStatus.retry

unfoldable pub failed_delay : ℕ → Fraction → LeasedOutboxEvent → Called ℕ
failed_delay maximum jitter event =
    if leb maximum event.attempt_count
    then returned 0
    else retry_delay_ms (integer event.attempt_count) jitter

unfoldable pub fail :
    ℕ → Fraction → LeasedOutboxEvent → WorkerError → ℕ → Outbox → Called OutboxStatus × Outbox
unfolding failed_status failed_delay
fail maximum jitter event error now outbox = elim (failed_delay maximum jitter event) [
  | thrown message ↦ (thrown message, outbox)
  | returned delay ↦
      let status = failed_status maximum event in
      require_atomic_transition event status
        (fail_sql event status delay (error_code error) now outbox)
]
