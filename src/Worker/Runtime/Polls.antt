-- ===== src/Worker/Runtime/Polls.antt =====
-- apps/worker/src/runtime.ts, `pollOnce`: a poll settles every event that it leases.
use mathlib.Core.List.{Memᴰ}
use manglam_balaji_managemen.Js.Number.{Number, value}
use manglam_balaji_managemen.Worker.Retry.{returned, WorkerError}
use manglam_balaji_managemen.Worker.Outbox.{OutboxEvent, Outbox, LeasedOutboxEvent, lease_sql}
use manglam_balaji_managemen.Worker.Outbox.Settle.{outbox_repository, lease}
use manglam_balaji_managemen.Worker.Outbox.Machine.{InBounds, phase}
use manglam_balaji_managemen.Worker.Outbox.Steps.{HasUniqueIds}
use manglam_balaji_managemen.Worker.Outbox.Records.{IsConsistent}
use manglam_balaji_managemen.Worker.Outbox.Leases.{
  leased-Distinct, leased-IsHolder, leased-attempts,
}
use manglam_balaji_managemen.Worker.Runtime.{Moment, WorkerEnvironment, poll_once}
use manglam_balaji_managemen.Worker.Runtime.Outcomes.{IsAt, IsJitter, outcome, process_events-IsAt}
use manglam_balaji_managemen.Prelude.{ℕ, ◌≤◌, ◌≡◌, refl, Bool, true, List, Option, String, arith}

outbox_repository-le :
    (n : Number) (maximum : ℕ) → outbox_repository n ≡ returned maximum → maximum ≤ 30
unfolding outbox_repository
outbox_repository-le n maximum h = ground arith

lease-returned :
    (batch seconds : Number) (maximum : ℕ) (locked : String → Bool) (now : ℕ) (o : Outbox)
    (leased : List LeasedOutboxEvent)
    → (lease batch seconds maximum locked now o).0 ≡ returned leased
    → (leased ≡ (lease_sql (value batch) (value seconds) maximum locked now o).0)
      × ((lease batch seconds maximum locked now o).1
          ≡ (lease_sql (value batch) (value seconds) maximum locked now o).1)
unfolding lease
lease-returned batch seconds maximum locked now o leased h = (ground arith, ground arith)

-- With limits in range and random fractions from zero to one, a poll on consistent tables with
-- unique ids and attempts in bounds is healthy and settles every event that it leases, where no
-- other worker's statement comes between: the event is published if the handler returns, dead if
-- the handler throws at the last attempt, and waiting again if it throws before, always with the
-- count of attempts for which it was leased.
pub poll_once_settles :
    (handle : LeasedOutboxEvent → Option WorkerError) (moment : LeasedOutboxEvent → Moment)
    (environment : WorkerEnvironment) (locked : String → Bool) (now : ℕ) (o : Outbox) (maximum : ℕ)
    (leased : List LeasedOutboxEvent)
    → outbox_repository environment.max_attempts ≡ returned maximum
    → (lease environment.batch_size environment.lease_seconds maximum locked now o).0
      ≡ returned leased
    → HasUniqueIds o.events
    → IsConsistent o
    → ((e : OutboxEvent) → Memᴰ e o.events → InBounds maximum (phase e))
    → ((l : LeasedOutboxEvent) → IsJitter (moment l).jitter)
    → ((poll_once handle moment environment locked now o).poll_healthy ≡ true)
      × ((l : LeasedOutboxEvent)
          → Memᴰ l leased
          → IsAt l.id
              (outcome maximum (handle l) l)
              (poll_once handle moment environment locked now o).outbox)
unfolding poll_once
poll_once_settles handle moment environment locked now o maximum leased repo got unique fits bounded
      jitters =
    let batch = value environment.batch_size in
    let seconds = value environment.lease_seconds in
    let (same_events, same_tables) =
      lease-returned environment.batch_size environment.lease_seconds maximum locked now o leased
        got in
    let le = outbox_repository-le environment.max_attempts maximum repo in
    rw (repo, poll_once, got, same_tables, same_events)
      (
        refl,
        process_events-IsAt handle moment maximum (lease_sql batch seconds maximum locked now o).0
            (lease_sql batch seconds maximum locked now o).1
            (leased-Distinct batch seconds maximum locked now o unique)
            (λ l m.
              let (low, high) =
                leased-attempts batch seconds maximum locked now o unique bounded l m in
              (
                low,
                omega arith,
                jitters l,
                leased-IsHolder batch seconds maximum locked now o unique fits l m,
              )),
      )
