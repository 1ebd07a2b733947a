-- ===== src/Worker/Runtime/Settling.antt =====
-- apps/worker/src/runtime.ts, `pollOnce`: what the loop does to the event in hand and to the others.
use mathlib.Core.List.{Memᴰ}
use manglam_balaji_managemen.Worker.Retry.{
  Called, Called-cases, returned, thrown, Fraction, WorkerError,
}
use manglam_balaji_managemen.Worker.Outbox.{
  OutboxEvent, OutboxAttempt, Outbox, LeasedOutboxEvent, has_attempt,
}
use manglam_balaji_managemen.Worker.Outbox.Settle.{
  is_held, settle_sql, complete_sql, fail_sql, publish, fail,
}
use manglam_balaji_managemen.Worker.Outbox.Steps.{is_held-parts}
use manglam_balaji_managemen.Worker.Outbox.Runs.{publish-eq, fail-cases}
use manglam_balaji_managemen.Worker.Runtime.{Moment, fail_event, process_event, plain_error}
use manglam_balaji_managemen.Prelude.{
  ℕ, ◌≡◌, ◌≢◌, refl, sym, subst, ◌∙◌, inl, inr, map, any, mem-map, Option, none, some, String,
  eq_iff, arith, Bool-cases, Option-cases, if◌then◌else◌,
}

-- The events of an id stay, and so does what is recorded of their attempts.
pub record Untouched (id : String) (o o' : Outbox) : Type 0 where
  pub events : (e : OutboxEvent) → e.id ≡ id → Memᴰ e o.events → Memᴰ e o'.events
  pub attempts : (n : ℕ) → has_attempt id n o'.attempts ≡ has_attempt id n o.attempts

pub Untouched-refl : (id : String) (o : Outbox) → Untouched id o o
Untouched-refl id o = record { events = λ e i m. m; attempts = λ n. refl }

pub Untouched-trans :
    (id : String) (o o' o'' : Outbox) → Untouched id o o' → Untouched id o' o'' → Untouched id o o''
Untouched-trans id o o' o'' h k = record {
  events = λ e i m. k.events e i (h.events e i m);
  attempts = λ n. k.attempts n ∙ h.attempts n;
}

settle_sql-Untouched :
    (change : OutboxEvent → OutboxEvent) (row : OutboxAttempt) (id society_id other : String)
    (attempt : ℕ) (o : Outbox)
    → row.outbox_event_id ≢ other
    → id ≢ other
    → Untouched other o (settle_sql change row id society_id attempt o).1
unfolding settle_sql has_attempt
settle_sql-Untouched change row id society_id other attempt o ne ne' = record {
  events = λ e i m.
      let held = is_held o.attempts id society_id attempt in
      subst (λ f. Memᴰ f (map (λ event. if held event then change event else event) o.events))
        (kept e i) (mem-map (λ event. if held event then change event else event) o.events m);
  attempts = λ n. elim (Bool-cases (any (is_held o.attempts id society_id attempt) o.events)) [
    | inl found ↦ rw found (ground (arith, eq_iff row.outbox_event_id other))
    | inr nothing ↦ rw nothing refl
  ];
}
  where
    kept :
        (e : OutboxEvent)
        → e.id ≡ other
        → (if is_held o.attempts id society_id attempt e then change e else e) ≡ e
    kept e i = elim (Bool-cases (is_held o.attempts id society_id attempt e)) [
      | inl h ↦ absurd (ne' (sym (is_held-parts o.attempts id society_id attempt e h).0 ∙ i))
      | inr h ↦ rw h refl
    ]

module _ (other : String) (event : LeasedOutboxEvent) (ne : event.id ≢ other) where
  publish-Untouched : (now : ℕ) (o : Outbox) → Untouched other o (publish event now o).1
  unfolding complete_sql
  publish-Untouched now o =
      subst (Untouched other o) (sym (publish-eq event now o))
        (settle_sql-Untouched _ _ event.id event.society_id other event.attempt_count o ne ne)

  fail-Untouched :
      (maximum : ℕ) (jitter : Fraction) (error : WorkerError) (now : ℕ) (o : Outbox)
      → Untouched other o (fail maximum jitter event error now o).1
  unfolding fail_sql
  fail-Untouched maximum jitter error now o = elim (fail-cases maximum jitter event error now o) [
    | inl q ↦ subst (Untouched other o) (sym q) (Untouched-refl other o)
    | inr (delay, q) ↦
        subst (Untouched other o) (sym q)
          (settle_sql-Untouched _ _ event.id event.society_id other event.attempt_count o ne ne)
  ]

module _ (handle : LeasedOutboxEvent → Option WorkerError) (moment : LeasedOutboxEvent → Moment)
    (maximum : ℕ) (event : LeasedOutboxEvent) where
  abbrev pub failed : WorkerError → Outbox → Outbox
  failed error o = (fail maximum (moment event).jitter event error (moment event).fail_time o).1

  abbrev pub published : Outbox → Called (Unit {0}) × Outbox
  published o = publish event (moment event).publish_time o

  fail_event-outbox :
      (error : WorkerError) (o : Outbox)
      → (fail_event handle moment maximum event error o).1 ≡ failed error o
  unfolding fail_event
  fail_event-outbox error o = ground arith

  -- The tables after the loop's body, by what the handler and the publication did.
  pub process_event-failed :
      (error : WorkerError) (o : Outbox)
      → handle event ≡ some error
      → (process_event handle moment maximum event o).1 ≡ failed error o
  unfolding process_event
  process_event-failed error o h = rw (h, process_event) (fail_event-outbox error o)

  pub process_event-published :
      (o : Outbox)
      → handle event ≡ none
      → (published o).0 ≡ returned tt
      → (process_event handle moment maximum event o).1 ≡ (published o).1
  unfolding process_event
  process_event-published o h p = rw (h, process_event, p)

  process_event-lost :
      (o : Outbox) (message : String)
      → handle event ≡ none
      → (published o).0 ≡ thrown message
      → (process_event handle moment maximum event o).1 ≡ failed plain_error (published o).1
  unfolding process_event
  process_event-lost o message h p =
      rw (h, process_event, p) (fail_event-outbox plain_error (published o).1)

  pub process_event-Untouched :
      (other : String) (o : Outbox)
      → event.id ≢ other
      → Untouched other o (process_event handle moment maximum event o).1
  process_event-Untouched other o ne = elim (Option-cases (handle event)) [
    | inr (error, h) ↦ subst (Untouched other o) (sym (process_event-failed error o h)) (
        fail-Untouched other event ne maximum (moment event).jitter error (moment event).fail_time
          o)
    | inl h ↦
        let first = publish-Untouched other event ne (moment event).publish_time o in
        elim (Called-cases (published o).0) [
          | inl (tt, p) ↦ subst (Untouched other o) (sym (process_event-published o h p)) first
          | inr (message, p) ↦ subst (Untouched other o) (sym (process_event-lost o message h p)) (
              Untouched-trans other o (published o).1 _ first (
                fail-Untouched other event ne maximum (moment event).jitter plain_error
                  (moment event).fail_time (published o).1))
        ]
  ]
