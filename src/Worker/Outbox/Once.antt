-- ===== src/Worker/Outbox/Once.antt =====
-- apps/worker/src/outbox/repository.ts: the tables agree with each other after any calls, so that
-- no event is published twice.
use mathlib.Core.List.{Memᴰ}
use manglam_balaji_managemen.Js.Number.{value}
use manglam_balaji_managemen.Worker.Retry.{error_code}
use manglam_balaji_managemen.Worker.Outbox.{
  OutboxStatus, OutboxEvent, OutboxAttempt, Outbox, LeasedOutboxEvent,
}
use manglam_balaji_managemen.Worker.Outbox.Settle.{
  complete, complete_sql, fail_sql, give_up, failed_status, published_attempt, failed_attempt,
}
use manglam_balaji_managemen.Worker.Outbox.Machine.{
  Phase, waiting, held, done, dead, phase, phase_of,
}
use manglam_balaji_managemen.Worker.Outbox.Steps.{HasUniqueIds}
use manglam_balaji_managemen.Worker.Outbox.Records.{
  Fits, IsConsistent, lease_sql-IsConsistent, settle_sql-IsConsistent,
}
use manglam_balaji_managemen.Worker.Outbox.Runs.{
  Call, lease_batch, publish_event, fail_event, perform, run, perform-HasUniqueIds, lease-cases,
  publish-eq, fail-cases,
}
use manglam_balaji_managemen.Prelude.{
  ℕ, ◌≡◌, refl, sym, ap, subst, inl, inr, List, [], ◌∷◌, leb, arith, Bool-cases,
}

failed_status-Fits :
    (maximum : ℕ) (event : LeasedOutboxEvent) (n : ℕ)
    → n ≡ event.attempt_count
    → let status = failed_status maximum event in
      Fits status event.attempt_count (phase_of status n)
      × ((s : OutboxStatus) (k : ℕ)
          → Fits s k (held event.attempt_count)
          → Fits s k (phase_of status n))
unfolding failed_status
failed_status-Fits maximum event n e = elim (Bool-cases (leb maximum event.attempt_count)) [
  | inl over ↦ rw over ((omega arith, cc), λ s k h. (omega arith, h.1))
  | inr more ↦ rw more ((omega arith, cc), λ s k h. (omega arith, h.1))
]

complete_sql-IsConsistent :
    (event : LeasedOutboxEvent) (now : ℕ) (outbox : Outbox)
    → HasUniqueIds outbox.events
    → IsConsistent outbox
    → IsConsistent (complete_sql event now outbox).1
unfolding complete_sql
complete_sql-IsConsistent event now outbox unique fits =
    settle_sql-IsConsistent (complete now) (published_attempt event) event.society_id outbox unique
      (λ e. refl) (λ e s n. (inl (sym n, refl), λ t k h. inr (omega arith, h.1))) fits

fail_sql-IsConsistent :
    (maximum : ℕ) (event : LeasedOutboxEvent) (delay : ℕ) (code : List ℕ) (now : ℕ)
    (outbox : Outbox)
    → HasUniqueIds outbox.events
    → IsConsistent outbox
    → IsConsistent (fail_sql event (failed_status maximum event) delay code now outbox).1
unfolding fail_sql
fail_sql-IsConsistent maximum event delay code now outbox unique fits =
    let status = failed_status maximum event in
    settle_sql-IsConsistent (give_up status delay code now) (failed_attempt status code event)
      event.society_id outbox unique (λ e. refl)
      (λ e s n. failed_status-Fits maximum event e.attempt_count n) fits

perform-IsConsistent :
    (maximum : ℕ) (call : Call) (outbox : Outbox)
    → HasUniqueIds outbox.events
    → IsConsistent outbox
    → IsConsistent (perform maximum call outbox)
unfolding perform
perform-IsConsistent maximum (lease_batch batch seconds locked now) outbox unique fits =
    elim (lease-cases batch seconds maximum locked now outbox) [
      | inl q ↦ subst IsConsistent (sym q) fits
      | inr q ↦ subst IsConsistent (sym q) (
          lease_sql-IsConsistent (value batch) (value seconds) maximum locked now outbox unique
            fits)
    ]
perform-IsConsistent maximum (publish_event event now) outbox unique fits =
    subst IsConsistent (sym (publish-eq event now outbox))
      (complete_sql-IsConsistent event now outbox unique fits)
perform-IsConsistent maximum (fail_event jitter event error now) outbox unique fits =
    elim (fail-cases maximum jitter event error now outbox) [
      | inl q ↦ subst IsConsistent (sym q) fits
      | inr (delay, q) ↦
          subst IsConsistent (sym q)
            (fail_sql-IsConsistent maximum event delay (error_code error) now outbox unique fits)
    ]

-- Whatever calls are made on a table with unique ids, the rows of the attempts still agree with
-- the events afterwards if they did before: an event that waits or is dead has no row of an
-- attempt beyond those counted and none that says published, a held one none of its present
-- attempt or later and none that says published, and a published one none beyond its last attempt
-- and none that says published but of that attempt, where every row says so.
pub run-IsConsistent :
    (maximum : ℕ) (calls : List Call) (outbox : Outbox)
    → HasUniqueIds outbox.events
    → IsConsistent outbox
    → IsConsistent (run maximum calls outbox)
unfolding run
run-IsConsistent maximum [] outbox unique fits = fits
run-IsConsistent maximum (call ∷ calls) outbox unique fits =
    run-IsConsistent maximum calls (perform maximum call outbox)
      (perform-HasUniqueIds maximum call outbox unique)
      (perform-IsConsistent maximum call outbox unique fits)

Fits-published : (k : ℕ) (p : Phase) → Fits OutboxStatus.published k p → p ≡ done k
Fits-published k (waiting n) h = absurd (h.1 refl)
Fits-published k (held n) h = absurd (h.1 refl)
Fits-published k (done n) (inl (e, q)) = ap done (sym e)
Fits-published k (done n) (inr (lt, ne)) = absurd (ne refl)
Fits-published k (dead n) h = absurd (h.1 refl)

-- Whatever calls are made on consistent tables with unique ids, no event is published twice: two
-- rows that say that an event was published are of one attempt, and the event is published and has
-- made no attempt since.
pub run-published_once :
    (maximum : ℕ) (calls : List Call) (outbox : Outbox)
    → HasUniqueIds outbox.events
    → IsConsistent outbox
    → (e : OutboxEvent) (a b : OutboxAttempt) → Memᴰ e (run maximum calls outbox).events
    → Memᴰ a (run maximum calls outbox).attempts
    → Memᴰ b (run maximum calls outbox).attempts
    → a.outbox_event_id ≡ e.id
    → b.outbox_event_id ≡ e.id
    → a.status ≡ OutboxStatus.published
    → b.status ≡ OutboxStatus.published
    → (a.attempt ≡ b.attempt) × (phase e ≡ done a.attempt)
run-published_once maximum calls outbox unique fits e a b m ma mb ea eb sa sb =
    let fits' = run-IsConsistent maximum calls outbox unique fits in
    let at_a =
      Fits-published a.attempt (phase e)
        (subst (λ s. Fits s a.attempt (phase e)) sa (fits' a e ma m ea)) in
    let at_b =
      Fits-published b.attempt (phase e)
        (subst (λ s. Fits s b.attempt (phase e)) sb (fits' b e mb m eb)) in
    (cc (at_a, at_b), at_a)
