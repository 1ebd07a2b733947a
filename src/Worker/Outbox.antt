-- ===== src/Worker/Outbox.antt =====
-- apps/worker/src/outbox/repository.ts: the table of events and the table of their attempts, with
-- the SQL statement that leases events. It is one atomic step on the two
-- tables, that reads the tables as they were before it. Times are milliseconds; `now` is the time
-- of the database, and `locked` says which rows another transaction holds, for SKIP LOCKED.
pub mod Settle
pub mod Machine
pub mod Steps
pub mod Runs
pub mod Records
pub mod Once
pub mod Fencing
pub mod Leases
use manglam_balaji_managemen.Domain.Json.{JsonValue}
use manglam_balaji_managemen.Prelude.{
  ℕ, ◌+◌, ◌*◌, ◌≡◌, Bool, true, false, not, ◌&&◌, ◌||◌, ltb, leb, ◌==◌, if◌then◌else◌, List, [],
  ◌∷◌, ◌++◌, map, any, find, filter, take, order_by, same, Option, none, some, String, str_eq,
}

pub data OutboxStatus : Type 0 where
  pending processing published retry dead_letter : OutboxStatus

unfoldable pub OutboxStatus-discrete : Discrete OutboxStatus
OutboxStatus-discrete = hlevel

-- A row of outbox_events.
pub record OutboxEvent : Type 0 where
  pub id : String
  pub society_id : String
  pub aggregate_type : String
  pub aggregate_id : String
  pub event_type : String
  pub correlation_id : String
  pub payload : JsonValue
  pub dedupe_key : List ℕ
  pub status : OutboxStatus
  pub available_at : ℕ
  pub created_at : ℕ
  pub claimed_at : Option ℕ
  pub published_at : Option ℕ
  pub attempt_count : ℕ
  pub last_error_code : Option (List ℕ)
  pub updated_at : ℕ

-- A row of outbox_attempts, without the id that the database draws.
pub record OutboxAttempt : Type 0 where
  pub society_id : String
  pub outbox_event_id : String
  pub attempt : ℕ
  pub status : OutboxStatus
  pub error_code : Option (List ℕ)
  pub error_detail : Option String

pub record Outbox : Type 0 where
  pub events : List OutboxEvent
  pub attempts : List OutboxAttempt

pub record LeasedOutboxEvent : Type 0 where
  pub id : String
  pub society_id : String
  pub aggregate_type : String
  pub aggregate_id : String
  pub event_type : String
  pub payload : JsonValue
  pub attempt_count : ℕ
  pub correlation_id : String

abbrev pub has_status : OutboxStatus → OutboxStatus → Bool
has_status s t = same OutboxStatus-discrete s t

-- `claimed_at < NOW() - interval`, which is not true of a NULL
is_abandoned : ℕ → ℕ → Option ℕ → Bool
is_abandoned seconds now none = false
is_abandoned seconds now (some claimed) = ltb (claimed + seconds * 1000) now

unfoldable pub is_candidate : ℕ → ℕ → OutboxEvent → Bool
unfolding is_abandoned OutboxStatus-discrete
is_candidate seconds now event =
    ((has_status event.status OutboxStatus.pending || has_status event.status OutboxStatus.retry)
      && leb event.available_at now)
    || (has_status event.status OutboxStatus.processing
        && is_abandoned seconds now event.claimed_at)

comes_first : OutboxEvent → OutboxEvent → Bool
comes_first e f =
    ltb e.available_at f.available_at
    || (e.available_at == f.available_at && leb e.created_at f.created_at)

unfoldable pub candidates : ℕ → ℕ → (String → Bool) → ℕ → List OutboxEvent → List OutboxEvent
unfolding comes_first
candidates batch seconds locked now events = take batch (
    filter (λ event. not (locked event.id))
      (order_by comes_first (filter (is_candidate seconds now) events)))

unfoldable pub has_attempt : String → ℕ → List OutboxAttempt → Bool
has_attempt id attempt rows =
    any (λ row. str_eq row.outbox_event_id id && row.attempt == attempt) rows

-- ON CONFLICT (outbox_event_id, attempt) DO NOTHING
unfoldable pub insert_attempt : OutboxAttempt → List OutboxAttempt → List OutboxAttempt
insert_attempt row rows =
    if has_attempt row.outbox_event_id row.attempt rows then rows else row ∷ rows

abbrev pub lease_expired : List ℕ
lease_expired =
    b'L' ∷ b'E' ∷ b'A' ∷ b'S' ∷ b'E' ∷ b'_' ∷ b'E' ∷ b'X' ∷ b'P' ∷ b'I' ∷ b'R' ∷ b'E' ∷ b'D' ∷ []

-- The row that `abandoned_attempts` inserts for a candidate.
abbrev pub abandoned_attempt : ℕ → OutboxEvent → OutboxAttempt
abandoned_attempt maximum candidate = record {
  society_id = candidate.society_id;
  outbox_event_id = candidate.id;
  attempt = candidate.attempt_count;
  status =
      if leb maximum candidate.attempt_count then OutboxStatus.dead_letter else OutboxStatus.retry;
  error_code = some lease_expired;
  error_detail = some "Worker lease expired before the processing outcome was persisted.";
}

-- A candidate was held, and its attempt has left no row.
unfoldable pub is_unrecorded : List OutboxAttempt → OutboxEvent → Bool
is_unrecorded rows candidate =
    has_status candidate.status OutboxStatus.processing
    && ltb 0 candidate.attempt_count
    && not (has_attempt candidate.id candidate.attempt_count rows)

insert_attempts : List OutboxAttempt → List OutboxAttempt → List OutboxAttempt
insert_attempts [] rows = rows
insert_attempts (row ∷ new) rows = insert_attempt row (insert_attempts new rows)

unfoldable pub is_exhausted : ℕ → OutboxEvent → Bool
is_exhausted maximum candidate =
    has_status candidate.status OutboxStatus.processing && leb maximum candidate.attempt_count

abbrev pub exhaust : ℕ → OutboxEvent → OutboxEvent
exhaust now event = record event {
  status = OutboxStatus.dead_letter;
  claimed_at = none;
  last_error_code = some lease_expired;
  updated_at = now;
}

abbrev pub claim : ℕ → OutboxEvent → OutboxEvent
claim now event = record event {
  status = OutboxStatus.processing;
  claimed_at = some now;
  attempt_count = event.attempt_count + 1;
  updated_at = now;
}

unfoldable pub candidate_of : List OutboxEvent → String → Option OutboxEvent
candidate_of cs id = find (λ candidate. str_eq candidate.id id) cs

-- The updates `exhausted` and `leased` on one event.
unfoldable pub lease_event : ℕ → ℕ → List OutboxEvent → OutboxEvent → OutboxEvent
lease_event maximum now cs event = elim (candidate_of cs event.id) [
  | none ↦ event
  | some candidate ↦ if is_exhausted maximum candidate then exhaust now event else claim now event
]

abbrev pub to_leased : OutboxEvent → LeasedOutboxEvent
to_leased event = record {
  id = event.id;
  society_id = event.society_id;
  aggregate_type = event.aggregate_type;
  aggregate_id = event.aggregate_id;
  event_type = event.event_type;
  payload = event.payload;
  attempt_count = event.attempt_count;
  correlation_id = event.correlation_id;
}

-- The rows that `leased` returns, in the table's order.
unfoldable pub leased_events : ℕ → ℕ → List OutboxEvent → List OutboxEvent → List LeasedOutboxEvent
leased_events maximum now cs [] = []
leased_events maximum now cs (event ∷ events) = elim (candidate_of cs event.id) [
  | none ↦ leased_events maximum now cs events
  | some candidate ↦
      if is_exhausted maximum candidate
      then leased_events maximum now cs events
      else to_leased (claim now event) ∷ leased_events maximum now cs events
]

-- LEASE_SQL
unfoldable pub lease_sql :
    ℕ → ℕ → ℕ → (String → Bool) → ℕ → Outbox → List LeasedOutboxEvent × Outbox
unfolding insert_attempts
lease_sql batch seconds maximum locked now outbox =
    let cs = candidates batch seconds locked now outbox.events in
    (
      leased_events maximum now cs outbox.events,
      record {
        events = map (lease_event maximum now cs) outbox.events;
        attempts =
            insert_attempts
              (map (abandoned_attempt maximum) (filter (is_unrecorded outbox.attempts) cs))
              outbox.attempts;
      },
    )
