-- ===== src/Worker/Runtime/Outcomes.antt =====
-- apps/worker/src/runtime.ts, `pollOnce`: an event that the worker holds is settled by the loop.
use mathlib.Core.List.{Memᴰ}
use manglam_balaji_managemen.Js.Number.{integer}
use manglam_balaji_managemen.Worker.Retry.{
  returned, Fraction, WorkerError, error_code, retry_delay_ms, jittered_ms, exponential_ms,
}
use manglam_balaji_managemen.Worker.Outbox.{OutboxEvent, OutboxAttempt, Outbox, LeasedOutboxEvent}
use manglam_balaji_managemen.Worker.Outbox.Settle.{
  is_held, settle_sql, complete_sql, fail_sql, give_up, fail, failed_status, failed_delay,
}
use manglam_balaji_managemen.Worker.Outbox.Machine.{Phase, done, dead, waiting, phase, phase_of}
use manglam_balaji_managemen.Worker.Outbox.Steps.{event_id}
use manglam_balaji_managemen.Worker.Outbox.Runs.{publish-eq}
use manglam_balaji_managemen.Worker.Outbox.Fencing.{
  IsHolder, is_held_of_parts, publish-returns_iff, require-kept,
}
use manglam_balaji_managemen.Worker.Outbox.Leases.{leased_id}
use manglam_balaji_managemen.Worker.Runtime.{Moment, process_event, process_events}
use manglam_balaji_managemen.Worker.Runtime.Settling.{
  Untouched, Untouched-refl, Untouched-trans, process_event-Untouched, process_event-failed,
  process_event-published, failed, published,
}
use manglam_balaji_managemen.Prelude.{
  ℕ, ◌≤◌, ◌≡◌, refl, sym, ap, subst, ◌∙◌, inl, inr, true, List, [], ◌∷◌, map, mem-map, Option, none,
  some, String, leb, arith, Bool-cases, Option-cases, if◌then◌else◌, Distinct,
}

-- Where the event is in the table, in a phase.
abbrev pub IsAt : String → Phase → Outbox → Type 0
IsAt id p o = (e : OutboxEvent) × Memᴰ e o.events × (e.id ≡ id) × (phase e ≡ p)

-- Where the handler's answer takes a leased event.
abbrev pub outcome : ℕ → Option WorkerError → LeasedOutboxEvent → Phase
outcome maximum none event = done event.attempt_count
outcome maximum (some error) event =
    if leb maximum event.attempt_count
    then dead event.attempt_count
    else waiting event.attempt_count

-- A random fraction between zero and one.
abbrev pub IsJitter : Fraction → Type 0
IsJitter jitter = (1 ≤ jitter.denominator) × (jitter.numerator ≤ jitter.denominator)

retry_delay_ms-returns :
    (n : ℕ) (jitter : Fraction)
    → 1 ≤ n
    → n ≤ 30
    → IsJitter jitter
    → retry_delay_ms (integer n) jitter ≡ returned (jittered_ms jitter (exponential_ms n))
unfolding retry_delay_ms
retry_delay_ms-returns n jitter low high h = ground arith

failed_delay-returns :
    (maximum : ℕ) (event : LeasedOutboxEvent) (jitter : Fraction)
    → 1 ≤ event.attempt_count
    → event.attempt_count ≤ 30
    → IsJitter jitter
    → (delay : ℕ) × (failed_delay maximum jitter event ≡ returned delay)
unfolding failed_delay
failed_delay-returns maximum event jitter low high h =
    elim (Bool-cases (leb maximum event.attempt_count)) [
      | inl over ↦ (0, rw over)
      | inr more ↦ (
        jittered_ms jitter (exponential_ms event.attempt_count),
        rw more (retry_delay_ms-returns event.attempt_count jitter low high h),
      )
    ]

fail-eq :
    (maximum : ℕ) (event : LeasedOutboxEvent) (jitter : Fraction) (error : WorkerError) (now : ℕ)
    (o : Outbox) (delay : ℕ)
    → failed_delay maximum jitter event ≡ returned delay
    → (fail maximum jitter event error now o).1
      ≡ (fail_sql event (failed_status maximum event) delay (error_code error) now o).1
unfolding fail
fail-eq maximum event jitter error now o delay q =
    rw (q, fail)
      (require-kept event (failed_status maximum event)
        (fail_sql event (failed_status maximum event) delay (error_code error) now o))

failed_status-outcome :
    (maximum : ℕ) (error : WorkerError) (event : LeasedOutboxEvent) (n : ℕ)
    → n ≡ event.attempt_count
    → phase_of (failed_status maximum event) n ≡ outcome maximum (some error) event
unfolding failed_status
failed_status-outcome maximum error event n e = ground arith

-- A held event changes where it is.
settle_sql-IsAt :
    (change : OutboxEvent → OutboxEvent) (row : OutboxAttempt) (event : LeasedOutboxEvent)
    (p : Phase) (o : Outbox)
    → ((e : OutboxEvent)
        → e.attempt_count ≡ event.attempt_count
        → (event_id (change e) ≡ e.id) × (phase (change e) ≡ p))
    → IsHolder event o
    → IsAt event.id p (settle_sql change row event.id event.society_id event.attempt_count o).1
unfolding settle_sql
settle_sql-IsAt change row event p o changes (e, m, i, c, s, n, u) =
    let mine = is_held o.attempts event.id event.society_id event.attempt_count in
    let is_mine : mine e ≡ true =
      is_held_of_parts o.attempts event.id event.society_id event.attempt_count e i c s n u in
    let changed : (if mine e then change e else e) ≡ change e = rw is_mine refl in
    (
      change e,
      subst (λ f. Memᴰ f (map (λ event. if mine event then change event else event) o.events))
          changed (mem-map (λ event. if mine event then change event else event) o.events m),
      (changes e n).0 ∙ i,
      (changes e n).1,
    )

module _ (handle : LeasedOutboxEvent → Option WorkerError) (moment : LeasedOutboxEvent → Moment)
    (maximum : ℕ) (event : LeasedOutboxEvent) where
  published-IsAt :
      (o : Outbox)
      → IsHolder event o
      → IsAt event.id (done event.attempt_count) (published handle moment maximum event o).1
  unfolding complete_sql
  published-IsAt o h =
      subst (IsAt event.id (done event.attempt_count))
        (sym (publish-eq event (moment event).publish_time o))
        (settle_sql-IsAt _ _ event (done event.attempt_count) o (λ e n. (refl, ap done n)) h)

  failed-IsAt :
      (error : WorkerError) (o : Outbox)
      → 1 ≤ event.attempt_count
      → event.attempt_count ≤ 30
      → IsJitter (moment event).jitter
      → IsHolder event o
      → IsAt event.id
          (outcome maximum (some error) event)
          (failed handle moment maximum event error o)
  unfolding fail_sql
  failed-IsAt error o low high j h =
      let jitter = (moment event).jitter in
      let now = (moment event).fail_time in
      let (delay, q) = failed_delay-returns maximum event jitter low high j in
      let status = failed_status maximum event in
      subst (IsAt event.id (outcome maximum (some error) event))
        (sym (fail-eq maximum event jitter error now o delay q))
        (settle_sql-IsAt (give_up status delay (error_code error) now) _ event _ o
          (λ e n. (refl, failed_status-outcome maximum error event e.attempt_count n)) h)

  pub process_event-IsAt :
      (o : Outbox)
      → 1 ≤ event.attempt_count
      → event.attempt_count ≤ 30
      → IsJitter (moment event).jitter
      → IsHolder event o
      → IsAt event.id
          (outcome maximum (handle event) event)
          (process_event handle moment maximum event o).1
  process_event-IsAt o low high j h = elim (Option-cases (handle event)) [
    | inl q ↦
        rw
          (
            q,
            process_event-published handle moment maximum event o q
                ((publish-returns_iff event _ o).0.1 h),
          )
          (published-IsAt o h)
    | inr (error, q) ↦
        rw (q, process_event-failed handle moment maximum event error o q)
          (failed-IsAt error o low high j h)
  ]

IsHolder-Untouched :
    (event : LeasedOutboxEvent) (o o' : Outbox)
    → Untouched event.id o o'
    → IsHolder event o
    → IsHolder event o'
IsHolder-Untouched event o o' same_rows (e, m, i, c, s, n, u) =
    (e, same_rows.events e i m, i, c, s, n, same_rows.attempts event.attempt_count ∙ u)

IsAt-Untouched :
    (id : String) (p : Phase) (o o' : Outbox) → Untouched id o o' → IsAt id p o → IsAt id p o'
IsAt-Untouched id p o o' same_rows (e, m, i, q) = (e, same_rows.events e i m, i, q)

module _ (handle : LeasedOutboxEvent → Option WorkerError) (moment : LeasedOutboxEvent → Moment)
    (maximum : ℕ) where
  process_events-Untouched :
      (events : List LeasedOutboxEvent) (other : String) (o : Outbox)
      → ¬ (Memᴰ other (map leased_id events))
      → Untouched other o (process_events handle moment maximum events o).1
  unfolding process_events
  process_events-Untouched [] other o ne = Untouched-refl other o
  process_events-Untouched (event ∷ events) other o ne =
      let o' = (process_event handle moment maximum event o).1 in
      Untouched-trans other o o' (process_events handle moment maximum events o').1
        (process_event-Untouched handle moment maximum event other o (λ e. ne (Memᴰ.head (sym e))))
        (process_events-Untouched events other o' (λ m. ne (Memᴰ.tail m)))

  -- The loop settles each event in hand by what the handler makes of it.
  pub process_events-IsAt :
      (events : List LeasedOutboxEvent) (o : Outbox)
      → Distinct (map leased_id events)
      → ((l : LeasedOutboxEvent)
          → Memᴰ l events
          → (1 ≤ l.attempt_count)
            × (l.attempt_count ≤ 30)
            × IsJitter (moment l).jitter
            × IsHolder l o)
      → (l : LeasedOutboxEvent) → Memᴰ l events
      → IsAt l.id (outcome maximum (handle l) l) (process_events handle moment maximum events o).1
  unfolding process_events
  process_events-IsAt [] o distinct facts l m = elim m [ ]
  process_events-IsAt (event ∷ events) o (new, distinct) facts l (Memᴰ.head e) =
      let (low, high, j, h) = facts event (Memᴰ.head refl) in
      let o' = (process_event handle moment maximum event o).1 in
      rw e (
        IsAt-Untouched event.id _ o' _ (process_events-Untouched events event.id o' new)
          (process_event-IsAt handle moment maximum event o low high j h))
  process_events-IsAt (event ∷ events) o (new, distinct) facts l (Memᴰ.tail m) =
      let o' = (process_event handle moment maximum event o).1 in
      process_events-IsAt events o' distinct
        (λ k n.
          let (low, high, j, h) = facts k (Memᴰ.tail n) in
          (
            low,
            high,
            j,
            IsHolder-Untouched k o o'
                (process_event-Untouched handle moment maximum event k.id o (λ e. new (
                  subst (λ id. Memᴰ id (map leased_id events)) (sym e)
                    (mem-map leased_id events n))))
                h,
          ))
        l m
