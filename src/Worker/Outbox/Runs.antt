-- ===== src/Worker/Outbox/Runs.antt =====
-- apps/worker/src/outbox/repository.ts: the calls that any number of workers make, one after the
-- other in the order in which the database runs them. A worker may stop at any point, and may
-- settle an event that it no longer holds.
use mathlib.Core.List.{Memᴰ}
use manglam_balaji_managemen.Js.Number.{Number, value}
use manglam_balaji_managemen.Worker.Retry.{Fraction, WorkerError, Called-cases, error_code}
use manglam_balaji_managemen.Worker.Outbox.{
  OutboxStatus, OutboxEvent, Outbox, LeasedOutboxEvent, lease_sql,
}
use manglam_balaji_managemen.Worker.Outbox.Settle.{
  lease, publish, fail, failed_status, failed_delay, complete_sql, fail_sql,
  require_atomic_transition,
}
use manglam_balaji_managemen.Worker.Outbox.Machine
use manglam_balaji_managemen.Worker.Outbox.Machine.{
  Moves, stay, move, Moves-trans, Moves-InBounds, InBounds, phase, phase_of,
}
use manglam_balaji_managemen.Worker.Outbox.Steps.{
  Advances, HasUniqueIds, event_id, lease_sql-Advances, settle_sql-Advances,
}
use manglam_balaji_managemen.Prelude.{
  ℕ, ◌≡◌, ◌⊎◌, refl, sym, subst, ◌∙◌, inl, inr, Bool, List, [], ◌∷◌, Rowwise, Rowwise-refl,
  Rowwise-trans, Rowwise-keys, Distinct, Rowwise-mem, String, leb, arith, Bool-cases,
}

pub data Call : Type 0 where
  lease_batch : Number → Number → (String → Bool) → ℕ → Call
  publish_event : LeasedOutboxEvent → ℕ → Call
  fail_event : Fraction → LeasedOutboxEvent → WorkerError → ℕ → Call

unfoldable pub perform : ℕ → Call → Outbox → Outbox
perform maximum (lease_batch batch seconds locked now) outbox =
    (lease batch seconds maximum locked now outbox).1
perform maximum (publish_event event now) outbox = (publish event now outbox).1
perform maximum (fail_event jitter event error now) outbox =
    (fail maximum jitter event error now outbox).1

unfoldable pub run : ℕ → List Call → Outbox → Outbox
unfolding perform
run maximum [] outbox = outbox
run maximum (call ∷ calls) outbox = run maximum calls (perform maximum call outbox)

Advances-refl : (maximum : ℕ) (e : OutboxEvent) → Advances maximum e e
Advances-refl maximum e = (refl, stay)

Advances-trans :
    (maximum : ℕ) (e f g : OutboxEvent)
    → Advances maximum e f
    → Advances maximum f g
    → Advances maximum e g
Advances-trans maximum e f g (p, h) (q, k) =
    (p ∙ q, Moves-trans maximum (phase e) (phase f) (phase g) h k)

-- A lease that is refused changes nothing, another is the statement.
pub lease-cases :
    (batch seconds : Number) (maximum : ℕ) (locked : String → Bool) (now : ℕ) (outbox : Outbox)
    → ((lease batch seconds maximum locked now outbox).1 ≡ outbox)
      ⊎ ((lease batch seconds maximum locked now outbox).1
          ≡ (lease_sql (value batch) (value seconds) maximum locked now outbox).1)
unfolding lease
lease-cases batch seconds maximum locked now outbox = ground arith

pub publish-eq :
    (event : LeasedOutboxEvent) (now : ℕ) (outbox : Outbox)
    → (publish event now outbox).1 ≡ (complete_sql event now outbox).1
unfolding publish require_atomic_transition
publish-eq event now outbox = refl

pub fail-cases :
    (maximum : ℕ) (jitter : Fraction) (event : LeasedOutboxEvent) (error : WorkerError) (now : ℕ)
    (outbox : Outbox)
    → ((fail maximum jitter event error now outbox).1 ≡ outbox)
      ⊎ ((delay : ℕ) × ((fail maximum jitter event error now outbox).1
            ≡ (fail_sql event (failed_status maximum event) delay (error_code error) now outbox).1))
unfolding fail require_atomic_transition
fail-cases maximum jitter event error now outbox =
    elim (Called-cases (failed_delay maximum jitter event)) [
      | inl (delay, q) ↦ inr (delay, rw (q, fail))
      | inr (message, q) ↦ inl (rw (q, fail))
    ]

failed-Moves :
    (maximum : ℕ) (event : LeasedOutboxEvent) (s : OutboxStatus) (n : ℕ)
    → s ≡ OutboxStatus.processing
    → n ≡ event.attempt_count
    → Moves maximum (phase_of s n) (phase_of (failed_status maximum event) n)
unfolding failed_status
failed-Moves maximum event s n q e = elim (Bool-cases (leb maximum event.attempt_count)) [
  | inl over ↦ rw (q, over) (move stay (Machine.bury n (ground arith)))
  | inr more ↦ rw (q, more) (move stay (Machine.give_back n (ground arith)))
]

-- Each call takes every event some steps along the machine.
perform-Advances :
    (maximum : ℕ) (call : Call) (outbox : Outbox)
    → HasUniqueIds outbox.events
    → Rowwise (Advances maximum) outbox.events (perform maximum call outbox).events
unfolding perform fail_sql complete_sql
perform-Advances maximum (lease_batch batch seconds locked now) outbox unique =
    elim (lease-cases batch seconds maximum locked now outbox) [
      | inl q ↦ rw q (Rowwise-refl (Advances maximum) (Advances-refl maximum) outbox.events)
      | inr q ↦
          rw q (lease_sql-Advances (value batch) (value seconds) maximum locked now outbox unique)
    ]
perform-Advances maximum (publish_event event now) outbox unique =
    rw (publish-eq event now outbox) (
      settle_sql-Advances maximum _ _ event.id event.society_id event.attempt_count outbox (λ e s n.
        (
          refl,
          subst (λ t. Moves maximum (phase_of t e.attempt_count) (Machine.done e.attempt_count))
              (sym s) (move stay (Machine.publish e.attempt_count)),
        )))
perform-Advances maximum (fail_event jitter event error now) outbox unique =
    elim (fail-cases maximum jitter event error now outbox) [
      | inl q ↦ rw q (Rowwise-refl (Advances maximum) (Advances-refl maximum) outbox.events)
      | inr (delay, q) ↦ rw q (
          settle_sql-Advances maximum _ _ event.id event.society_id event.attempt_count outbox
            (λ e s n. (refl, failed-Moves maximum event e.status e.attempt_count s n)))
    ]

HasUniqueIds-Advances :
    (maximum : ℕ) (es fs : List OutboxEvent)
    → Rowwise (Advances maximum) es fs
    → HasUniqueIds es
    → HasUniqueIds fs
HasUniqueIds-Advances maximum es fs r unique =
    subst Distinct (Rowwise-keys (Advances maximum) event_id es fs (λ e f h. h.0) r) unique

pub perform-HasUniqueIds :
    (maximum : ℕ) (call : Call) (outbox : Outbox)
    → HasUniqueIds outbox.events
    → HasUniqueIds (perform maximum call outbox).events
perform-HasUniqueIds maximum call outbox unique =
    HasUniqueIds-Advances maximum _ _ (perform-Advances maximum call outbox unique) unique

-- Whatever calls any workers make in whatever order, each event of a table with unique ids keeps
-- its row and its id, and moves along the steps of the machine: it is leased from waiting, taken
-- over while it is held if it has attempts left, published, given back, or buried when it has
-- none left; published and dead events do not move.
pub run-refines :
    (maximum : ℕ) (calls : List Call) (outbox : Outbox)
    → HasUniqueIds outbox.events
    → Rowwise (Advances maximum) outbox.events (run maximum calls outbox).events
unfolding run
run-refines maximum [] outbox unique =
    Rowwise-refl (Advances maximum) (Advances-refl maximum) outbox.events
run-refines maximum (call ∷ calls) outbox unique =
    let next = perform maximum call outbox in
    Rowwise-trans (Advances maximum) (Advances-trans maximum) outbox.events next.events
      (run maximum calls next).events (perform-Advances maximum call outbox unique)
      (run-refines maximum calls next (perform-HasUniqueIds maximum call outbox unique))

-- Whatever calls are made, no event of a table with unique ids is tried more often than the limit
-- if that was so before: one that waits has fewer attempts, one that is held or published at
-- least one and at most the limit, and a dead one exactly the limit.
pub run-bounded :
    (maximum : ℕ) (calls : List Call) (outbox : Outbox)
    → HasUniqueIds outbox.events
    → ((e : OutboxEvent) → Memᴰ e outbox.events → InBounds maximum (phase e))
    → (f : OutboxEvent) → Memᴰ f (run maximum calls outbox).events
    → InBounds maximum (phase f)
run-bounded maximum calls outbox unique bounded f m =
    let (e, n, (same_id, moves)) =
      Rowwise-mem (Advances maximum) _ _ (run-refines maximum calls outbox unique) m in
    Moves-InBounds maximum moves (bounded e n)
