-- ===== src/Examples/Worker.antt =====
-- apps/worker/src at a small outbox: an event that waits and one whose worker has stopped.
use mathlib.Core.List.{Memᴰ}
use manglam_balaji_managemen.Domain.Json.{object, no_fields}
use manglam_balaji_managemen.Js.Number.{integer}
use manglam_balaji_managemen.Worker.Retry.{
  returned, Fraction, WorkerError, retry_delay_ms, jittered_ms, exponential_ms,
}
use manglam_balaji_managemen.Worker.Outbox.{
  OutboxStatus, OutboxStatus-discrete, OutboxEvent, OutboxAttempt, Outbox, LeasedOutboxEvent,
  candidates, is_candidate, candidate_of, is_exhausted, is_unrecorded, has_attempt, insert_attempt,
  lease_event, leased_events, lease_sql, to_leased, claim,
}
use manglam_balaji_managemen.Worker.Outbox.Settle.{
  outbox_repository, lease, publish, fail, complete, published_attempt, complete_sql, settle_sql,
  is_held, require_atomic_transition,
}
use manglam_balaji_managemen.Worker.Outbox.Machine.{InBounds, phase, done}
use manglam_balaji_managemen.Worker.Outbox.Steps.{Advances, HasUniqueIds}
use manglam_balaji_managemen.Worker.Outbox.Runs.{
  Call, lease_batch, publish_event, fail_event, run, run-refines, run-bounded,
}
use manglam_balaji_managemen.Worker.Outbox.Once.{run-published_once}
use manglam_balaji_managemen.Worker.Outbox.Records.{IsConsistent}
use manglam_balaji_managemen.Worker.Outbox.Fencing.{run_stale, IsLost}
use manglam_balaji_managemen.Worker.Runtime.{Moment, WorkerEnvironment, poll_once}
use manglam_balaji_managemen.Worker.Runtime.Outcomes.{IsAt, outcome}
use manglam_balaji_managemen.Worker.Runtime.Polls.{poll_once_settles}
use manglam_balaji_managemen.Prelude.{
  ℕ, ◌≡◌, ◌≢◌, refl, Bool, true, false, List, [], ◌∷◌, Option, none, some, String, take, str_eq,
  if◌then◌else◌, ◌<◌, uncons-mem, inl, inr, eq_iff, All-mem, Rowwise, arith,
}

abbrev waiting_event : OutboxEvent
waiting_event = record {
  id = "e1";
  society_id = "s1";
  aggregate_type = "Visit";
  aggregate_id = "v1";
  event_type = "visit.approved";
  correlation_id = "c1";
  payload = object no_fields;
  dedupe_key = [];
  status = OutboxStatus.pending;
  available_at = 1000;
  created_at = 900;
  claimed_at = none;
  published_at = none;
  attempt_count = 0;
  last_error_code = none;
  updated_at = 900;
}

-- Held for its first attempt since time 100000.
abbrev abandoned_event : OutboxEvent
abandoned_event = record waiting_event {
  id = "e2";
  status = OutboxStatus.processing;
  claimed_at = some 100000;
  attempt_count = 1;
}

abbrev tables : Outbox
tables = record { events = waiting_event ∷ abandoned_event ∷ []; attempts = [] }

abbrev lost_lease : LeasedOutboxEvent
lost_lease = to_leased abandoned_event

abbrev nothing_locked : String → Bool
nothing_locked id = false

abbrev half : Fraction
half = record { numerator = 1; denominator = 2 }

-- Another worker leases both events, and the first one comes back too late.
abbrev calls : List Call
calls =
    lease_batch (integer 10) (integer 60) nothing_locked 200000
    ∷ publish_event lost_lease 200500
    ∷ publish_event (to_leased (claim 200000 waiting_event)) 200600
    ∷ fail_event half (to_leased (claim 200000 abandoned_event))
        (record { code = some "SMTP-timeout"; name = none }) 200700
    ∷ []

second_delay : retry_delay_ms (integer 2) half ≡ returned 2000
unfolding retry_delay_ms jittered_ms exponential_ms
second_delay = refl

abbrev both : List LeasedOutboxEvent
both = to_leased (claim 200000 waiting_event) ∷ to_leased (claim 200000 abandoned_event) ∷ []

leases_both : (lease (integer 10) (integer 60) 8 nothing_locked 200000 tables).0 ≡ returned both
unfolding lease lease_sql candidates is_candidate candidate_of is_exhausted is_unrecorded
    has_attempt insert_attempt lease_event leased_events OutboxStatus-discrete
leases_both = refl

tables-HasUniqueIds : HasUniqueIds tables.events
tables-HasUniqueIds = (
  λ m. elim (uncons-mem m) [ inl e ↦ ground (arith, eq_iff "e1" "e2") | inr n ↦ elim n [ ] ],
  (λ m. elim m [ ], tt),
)

tables-IsConsistent : IsConsistent tables
tables-IsConsistent row e m n i = elim m [ ]

tables-InBounds : (e : OutboxEvent) → Memᴰ e tables.events → InBounds 8 (phase e)
tables-InBounds e m =
    All-mem (λ (e : OutboxEvent). InBounds 8 (phase e)) tables.events
      (omega arith, (omega arith, tt)) m

run-refines_example : Rowwise (Advances 8) tables.events (run 8 calls tables).events
run-refines_example = run-refines 8 calls tables tables-HasUniqueIds

-- The first event, after it was leased and published, with its row.
abbrev published_event : OutboxEvent
published_event = complete 200600 (claim 200000 waiting_event)

abbrev published_row : OutboxAttempt
published_row = published_attempt (to_leased (claim 200000 waiting_event))

leased_and_published :
    Memᴰ published_event (run 8 (take 3 calls) tables).events
    × Memᴰ published_row (run 8 (take 3 calls) tables).attempts
unfolding run lease lease_sql candidates is_candidate candidate_of is_exhausted is_unrecorded
    has_attempt insert_attempt lease_event leased_events OutboxStatus-discrete publish complete_sql
    settle_sql is_held require_atomic_transition
leased_and_published = (Memᴰ.head refl, Memᴰ.head refl)

run-bounded_example : InBounds 8 (phase published_event)
run-bounded_example =
    run-bounded 8 (take 3 calls) tables tables-HasUniqueIds tables-InBounds published_event
      leased_and_published.0

run-published_once_example : ◌≡◌ {A = ℕ} 1 1 × (phase published_event ≡ done 1)
run-published_once_example =
    run-published_once 8 (take 3 calls) tables tables-HasUniqueIds tables-IsConsistent
      published_event published_row published_row leased_and_published.0 leased_and_published.1
      leased_and_published.1 refl refl refl refl

-- The tables once the second event is leased for another attempt.
abbrev retaken : Outbox
retaken = record { events = waiting_event ∷ claim 200000 abandoned_event ∷ []; attempts = [] }

retaken-IsLost : IsLost lost_lease retaken.events
retaken-IsLost e m i =
    All-mem (λ (e : OutboxEvent). e.id ≡ lost_lease.id → 1 < e.attempt_count) retaken.events
      ((λ i. absurd (ground (arith, eq_iff "e1" "e2"))), ((λ i. omega arith), tt)) m i

abbrev mail_error : WorkerError
mail_error = record { code = some "SMTP-timeout"; name = none }

run_stale_example :
    let after = run 8 calls retaken in
    ((publish lost_lease 300000 after).0 ≢ returned tt)
    × ((publish lost_lease 300000 after).1 ≡ after)
    × ((s : OutboxStatus) → (fail 8 half lost_lease mail_error 300000 after).0 ≢ returned s)
    × ((fail 8 half lost_lease mail_error 300000 after).1 ≡ after)
run_stale_example =
    run_stale 8 calls retaken lost_lease tables-HasUniqueIds retaken-IsLost half mail_error 300000

abbrev moment : LeasedOutboxEvent → Moment
moment event = record { publish_time = 200500; fail_time = 200600; jitter = half }

-- The mail of the second event cannot be sent.
abbrev handle : LeasedOutboxEvent → Option WorkerError
handle event = if str_eq event.id "e2" then some mail_error else none

abbrev environment : WorkerEnvironment
environment = record {
  max_attempts = integer 8;
  batch_size = integer 10;
  lease_seconds = integer 60;
}

maximum_read : outbox_repository (integer 8) ≡ returned 8
unfolding outbox_repository
maximum_read = refl

poll_once_settles_example :
    ((poll_once handle moment environment nothing_locked 200000 tables).poll_healthy ≡ true)
    × ((l : LeasedOutboxEvent)
        → Memᴰ l both
        → IsAt l.id
            (outcome 8 (handle l) l)
            (poll_once handle moment environment nothing_locked 200000 tables).outbox)
poll_once_settles_example =
    poll_once_settles handle moment environment nothing_locked 200000 tables 8 both maximum_read
      leases_both tables-HasUniqueIds tables-IsConsistent tables-InBounds (λ l. omega arith)
