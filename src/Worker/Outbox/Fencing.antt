-- ===== src/Worker/Outbox/Fencing.antt =====
-- apps/worker/src/outbox/repository.ts: only the worker that holds an event's present attempt can
-- settle it, and one that has lost it never can again.
use mathlib.Core.List.{Memᴰ}
use manglam_balaji_managemen.Worker.Retry.{
  Called-cases, returned, Fraction, WorkerError, error_code,
}
use manglam_balaji_managemen.Worker.Outbox.{
  OutboxStatus, OutboxStatus-discrete, OutboxEvent, OutboxAttempt, Outbox, LeasedOutboxEvent,
  has_attempt,
}
use manglam_balaji_managemen.Worker.Outbox.Settle.{
  is_held, settle_sql, complete_sql, fail_sql, publish, fail, failed_status, failed_delay,
  require_atomic_transition,
}
use manglam_balaji_managemen.Worker.Outbox.Machine
use manglam_balaji_managemen.Worker.Outbox.Machine.{Phase, phase, phase_of, Step, Moves, stay, move}
use manglam_balaji_managemen.Worker.Outbox.Steps.{HasUniqueIds, Advances, is_held-parts}
use manglam_balaji_managemen.Worker.Outbox.Runs.{Call, run, run-refines}
use manglam_balaji_managemen.Prelude.{
  ℕ, ◌≤◌, ◌<◌, ◌≡◌, ◌≢◌, ◌↔◌, refl, ap, ◌∙◌, inl, inr, Bool, true, false, List, [], ◌∷◌, map, any,
  any-mem, any_of_mem, Rowwise-mem, String, eq_iff, arith, Bool-cases, if◌then◌else◌,
}

-- The event is in the table, held for the attempt for which it was leased, and that attempt has
-- left no row.
abbrev pub IsHolder : LeasedOutboxEvent → Outbox → Type 0
IsHolder event outbox =
    (e : OutboxEvent) × Memᴰ e outbox.events
    × (e.id ≡ event.id)
    × (e.society_id ≡ event.society_id)
    × (e.status ≡ OutboxStatus.processing)
    × (e.attempt_count ≡ event.attempt_count)
    × (has_attempt event.id event.attempt_count outbox.attempts ≡ false)

map_none_held :
    (p : OutboxEvent → Bool) (change : OutboxEvent → OutboxEvent) (events : List OutboxEvent)
    → any p events ≡ false
    → map (λ event. if p event then change event else event) events ≡ events
map_none_held p change [] h = refl
map_none_held p change (e ∷ events) h = elim (Bool-cases (p e)) [
  | inl here ↦ absurd (ground arith)
  | inr other ↦ cc (
    map_none_held p change events (ground arith),
    ap (λ (b : Bool). if b then change e else e) other,
  )
]

pub is_held_of_parts :
    (rows : List OutboxAttempt) (id society_id : String) (attempt : ℕ) (e : OutboxEvent)
    → e.id ≡ id
    → e.society_id ≡ society_id
    → e.status ≡ OutboxStatus.processing
    → e.attempt_count ≡ attempt
    → has_attempt id attempt rows ≡ false
    → is_held rows id society_id attempt e ≡ true
unfolding is_held OutboxStatus-discrete
is_held_of_parts rows id society_id attempt e i c s n u =
    ground (arith, eq_iff e.id id, eq_iff e.society_id society_id)

module _ (change : OutboxEvent → OutboxEvent) (row : OutboxAttempt) (event : LeasedOutboxEvent)
    (outbox : Outbox) where
  abbrev settled : Bool × Outbox
  settled = settle_sql change row event.id event.society_id event.attempt_count outbox

  settle_sql-IsHolder : (settled.0 ≡ true) ↔ IsHolder event outbox
  unfolding settle_sql
  settle_sql-IsHolder = (
    λ h.
        let (e, m, q) = any-mem _ outbox.events h in
        let (i, c, s, n, u) =
          is_held-parts outbox.attempts event.id event.society_id event.attempt_count e q in
        (e, m, i, c, s, n, u),
    λ (e, m, i, c, s, n, u). any_of_mem _ outbox.events m (
        is_held_of_parts outbox.attempts event.id event.society_id event.attempt_count e i c s n u),
  )

  settle_sql_refused : settled.0 ≡ false → settled.1 ≡ outbox
  unfolding settle_sql
  settle_sql_refused h = cc (
    h,
    map_none_held _ change outbox.events h,
    ap (λ (b : Bool). if b then row ∷ outbox.attempts else outbox.attempts) h,
  )

pub require-returned :
    {A : Type 0} (event : LeasedOutboxEvent) (answer : A) (r : Bool × Outbox)
    → ((require_atomic_transition event answer r).0 ≡ returned answer) ↔ (r.0 ≡ true)
unfolding require_atomic_transition
require-returned event answer (true, outbox) = (λ h. refl, λ h. refl)
require-returned event answer (false, outbox) = (λ h. cc, λ h. cc)

pub require-kept :
    {A : Type 0} (event : LeasedOutboxEvent) (answer : A) (r : Bool × Outbox)
    → (require_atomic_transition event answer r).1 ≡ r.1
unfolding require_atomic_transition
require-kept event answer (b, outbox) = refl

require_lost :
    {A : Type 0} (event : LeasedOutboxEvent) (answer other : A) (r : Bool × Outbox)
    → r.0 ≡ false
    → (require_atomic_transition event answer r).0 ≢ returned other
unfolding require_atomic_transition
require_lost event answer other (true, outbox) h = cc
require_lost event answer other (false, outbox) h = λ e. cc

-- An event is published exactly for a worker that holds its present attempt: the table has the
-- event of that id and society, processing and at the attempt for which it was leased, and no
-- outcome of that attempt is recorded. Otherwise an error is thrown and the tables stay as they
-- are.
pub publish-returns_iff :
    (event : LeasedOutboxEvent) (now : ℕ) (outbox : Outbox)
    → (((publish event now outbox).0 ≡ returned tt) ↔ IsHolder event outbox)
      × ((publish event now outbox).0 ≢ returned tt → (publish event now outbox).1 ≡ outbox)
unfolding publish complete_sql require_atomic_transition
publish-returns_iff event now outbox =
    let (to_holder, of_holder) = settle_sql-IsHolder _ _ event outbox in
    let (to_true, of_true) = require-returned event tt (complete_sql event now outbox) in
    (
      (λ h. to_holder (to_true h), λ h. of_true (of_holder h)),
      λ refused. elim (Bool-cases (complete_sql event now outbox).0) [
        | inl done ↦ absurd (refused (of_true done))
        | inr lost ↦ settle_sql_refused _ _ event outbox lost
      ],
    )

attempts_of : Phase → ℕ
attempts_of (Machine.waiting n) = n
attempts_of (Machine.held n) = n
attempts_of (Machine.done n) = n
attempts_of (Machine.dead n) = n

attempts_of-phase_of : (s : OutboxStatus) (n : ℕ) → attempts_of (phase_of s n) ≡ n
unfolding attempts_of
attempts_of-phase_of OutboxStatus.pending n = refl
attempts_of-phase_of OutboxStatus.processing n = refl
attempts_of-phase_of OutboxStatus.published n = refl
attempts_of-phase_of OutboxStatus.retry n = refl
attempts_of-phase_of OutboxStatus.dead_letter n = refl

Step-attempts_of : {maximum : ℕ} {p q : Phase} → Step maximum p q → attempts_of p ≤ attempts_of q
unfolding attempts_of
Step-attempts_of (Machine.lease n) = omega arith
Step-attempts_of (Machine.take_over n lt) = omega arith
Step-attempts_of (Machine.publish n) = omega arith
Step-attempts_of (Machine.give_back n lt) = omega arith
Step-attempts_of (Machine.bury n le) = omega arith

Moves-attempts_of : (maximum : ℕ) {p q : Phase} → Moves maximum p q → attempts_of p ≤ attempts_of q
Moves-attempts_of maximum stay = omega arith
Moves-attempts_of maximum (move k st) =
    omega (arith, Moves-attempts_of maximum k, Step-attempts_of st)

-- The table's event of this id, if there is one, has gone on to a later attempt.
abbrev pub IsLost : LeasedOutboxEvent → List OutboxEvent → Type 0
IsLost event events =
    (e : OutboxEvent) → Memᴰ e events → e.id ≡ event.id → event.attempt_count < e.attempt_count

run-IsLost :
    (maximum : ℕ) (calls : List Call) (outbox : Outbox) (event : LeasedOutboxEvent)
    → HasUniqueIds outbox.events
    → IsLost event outbox.events
    → IsLost event (run maximum calls outbox).events
run-IsLost maximum calls outbox event unique lost f m i =
    let (e, k, (same_id, moves)) =
      Rowwise-mem (Advances maximum) _ _ (run-refines maximum calls outbox unique) m in
    omega (
      arith,
      lost e k (same_id ∙ i),
      Moves-attempts_of maximum moves,
      attempts_of-phase_of e.status e.attempt_count,
      attempts_of-phase_of f.status f.attempt_count,
    )

IsLost-not-IsHolder :
    (event : LeasedOutboxEvent) (outbox : Outbox)
    → IsLost event outbox.events
    → ¬ IsHolder event outbox
IsLost-not-IsHolder event outbox lost (e, m, i, c, s, n, u) = absurd (omega (arith, lost e m i))

false_of_not : (b : Bool) → ¬ (b ≡ true) → b ≡ false
false_of_not true h = absurd (h refl)
false_of_not false h = refl

fail_refused :
    (maximum : ℕ) (jitter : Fraction) (event : LeasedOutboxEvent) (error : WorkerError) (now : ℕ)
    (outbox : Outbox)
    → ¬ IsHolder event outbox
    → ((s : OutboxStatus) → (fail maximum jitter event error now outbox).0 ≢ returned s)
      × ((fail maximum jitter event error now outbox).1 ≡ outbox)
unfolding fail fail_sql
fail_refused maximum jitter event error now outbox no_holder =
    elim (Called-cases (failed_delay maximum jitter event)) [
      | inr (message, q) ↦ rw (q, fail) (λ s e. cc, refl)
      | inl (delay, q) ↦
          let status = failed_status maximum event in
          let lost : (fail_sql event status delay (error_code error) now outbox).0 ≡ false =
            false_of_not _ (λ h. no_holder ((settle_sql-IsHolder _ _ event outbox).0 h)) in
          rw (q, fail)
            (
              λ s. require_lost event status s _ lost,
              require-kept event status (fail_sql event status delay (error_code error) now outbox)
                  ∙ settle_sql_refused _ _ event outbox lost,
            )
    ]

-- Once another worker has taken an event over, so that its count of attempts is past the one
-- for which it was leased, then whatever calls follow, the first worker can neither publish the
-- event nor record a failure: both throw and leave the tables as they are.
pub run_stale :
    (maximum : ℕ) (calls : List Call) (outbox : Outbox) (event : LeasedOutboxEvent)
    → HasUniqueIds outbox.events
    → IsLost event outbox.events
    → (jitter : Fraction) (error : WorkerError) (now : ℕ)
    → let outbox' = run maximum calls outbox in
      ((publish event now outbox').0 ≢ returned tt)
      × ((publish event now outbox').1 ≡ outbox')
      × ((s : OutboxStatus) → (fail maximum jitter event error now outbox').0 ≢ returned s)
      × ((fail maximum jitter event error now outbox').1 ≡ outbox')
run_stale maximum calls outbox event unique lost jitter error now =
    let outbox' = run maximum calls outbox in
    let no_holder =
      IsLost-not-IsHolder event outbox' (run-IsLost maximum calls outbox event unique lost) in
    let (published_iff, kept) = publish-returns_iff event now outbox' in
    let refused =
      λ (h : (publish event now outbox').0 ≡ returned tt). no_holder (published_iff.0 h) in
    let (fail_refuses, fail_keeps) =
      fail_refused maximum jitter event error now outbox' no_holder in
    (refused, kept refused, fail_refuses, fail_keeps)
