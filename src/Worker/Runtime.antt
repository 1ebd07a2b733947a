-- ===== src/Worker/Runtime.antt =====
-- apps/worker/src/runtime.ts: the poll of the outbox by one worker, and the scheduling of its polls
-- and heartbeats. The handler of jobs is a parameter: it returns, or throws an error. The times
-- of the database's statements and the random fractions are arguments; errors of the database
-- itself are left out, but for the refusal of a lease.
pub mod Settling
pub mod Outcomes
pub mod Polls
pub mod Scheduling
use manglam_balaji_managemen.Js.Number.{Number}
use manglam_balaji_managemen.Worker.Retry.{
  Called, returned, thrown, Fraction, WorkerError, error_code,
}
use manglam_balaji_managemen.Worker.Outbox.{OutboxStatus, Outbox, LeasedOutboxEvent}
use manglam_balaji_managemen.Worker.Outbox.Settle.{outbox_repository, lease, publish, fail}
use manglam_balaji_managemen.Prelude.{
  ℕ, Bool, true, false, not, ◌&&◌, List, [], ◌∷◌, ◌++◌, Option, none, some, String, if◌then◌else◌,
}

-- What one call of the handler and the statements after it meet.
pub record Moment : Type 0 where
  pub publish_time : ℕ
  pub fail_time : ℕ
  pub jitter : Fraction

-- The lines that a poll writes about an event.
pub data EventLog : Type 0 where
  event_failed : LeasedOutboxEvent → List ℕ → OutboxStatus → EventLog
  event_transition_lost : LeasedOutboxEvent → List ℕ → EventLog

-- A plain Error, whose name is "Error".
abbrev pub plain_error : WorkerError
plain_error = record { code = none; name = some "Error" }

module _ (handle : LeasedOutboxEvent → Option WorkerError)
    (moment : LeasedOutboxEvent → Moment) where
  -- The outer `catch`: the event is failed, or the worker finds that it has lost it.
  unfoldable pub fail_event : ℕ → LeasedOutboxEvent → WorkerError → Outbox → List EventLog × Outbox
  fail_event maximum event error outbox =
      let (outcome, outbox') =
        fail maximum (moment event).jitter event error (moment event).fail_time outbox in
      elim outcome [
        | returned status ↦ (event_failed event (error_code error) status ∷ [], outbox')
        | thrown message ↦ (event_transition_lost event (error_code plain_error) ∷ [], outbox')
      ]

  -- The body of the loop over the leased events.
  unfoldable pub process_event : ℕ → LeasedOutboxEvent → Outbox → List EventLog × Outbox
  unfolding fail_event
  process_event maximum event outbox = elim (handle event) [
    | some error ↦ fail_event maximum event error outbox
    | none ↦
        let (done, outbox') = publish event (moment event).publish_time outbox in
        elim done [
          | returned _ ↦ ([], outbox')
          | thrown message ↦ fail_event maximum event plain_error outbox'
        ]
  ]

  unfoldable pub process_events : ℕ → List LeasedOutboxEvent → Outbox → List EventLog × Outbox
  unfolding process_event
  process_events maximum [] outbox = ([], outbox)
  process_events maximum (event ∷ events) outbox =
      let (log, outbox') = process_event maximum event outbox in
      let (logs, outbox'') = process_events maximum events outbox' in (log ++ logs, outbox'')

-- The worker's part of the environment.
pub record WorkerEnvironment : Type 0 where
  pub max_attempts : Number
  pub batch_size : Number
  pub lease_seconds : Number

-- What a poll leaves: its health, the lines that it writes about events, and the tables.
pub record Polled : Type 0 where
  pub poll_healthy : Bool
  pub logs : List EventLog
  pub outbox : Outbox

module _ (handle : LeasedOutboxEvent → Option WorkerError) (moment : LeasedOutboxEvent → Moment)
    (environment : WorkerEnvironment) where
  unfoldable pub poll_once : (String → Bool) → ℕ → Outbox → Polled
  poll_once locked now outbox = elim (outbox_repository environment.max_attempts) [
    | thrown message ↦ record { poll_healthy = false; logs = []; outbox = outbox }
    | returned maximum ↦
        let (events, outbox') =
          lease environment.batch_size environment.lease_seconds maximum locked now outbox in
        elim events [
          | thrown message ↦ record { poll_healthy = false; logs = []; outbox = outbox' }
          | returned leased ↦
              let (logs, outbox'') = process_events handle moment maximum leased outbox' in
              record { poll_healthy = true; logs = logs; outbox = outbox'' }
        ]
  ]
