-- ===== src/Worker/Outbox/Steps.antt =====
-- apps/worker/src/outbox/repository.ts: what each statement does to an event, as a step of the
-- machine, where no two events have one id.
use mathlib.Core.List.{Memᴰ}
use manglam_balaji_managemen.Worker.Outbox.{
  OutboxStatus, OutboxStatus-discrete, OutboxEvent, OutboxAttempt, Outbox, is_candidate, candidates,
  candidate_of, is_exhausted, exhaust, claim, lease_event, lease_sql, has_attempt,
}
use manglam_balaji_managemen.Worker.Outbox.Settle.{is_held, settle_sql}
use manglam_balaji_managemen.Worker.Outbox.Machine.{
  held, dead, phase, phase_of, Step, lease, take_over, bury, Moves, stay, move,
}
use manglam_balaji_managemen.Prelude.{
  ℕ, ◌+◌, ◌≡◌, ◌⊎◌, refl, sym, ap, subst, ◌∙◌, inl, inr, Bool, true, false, List, map, find-some,
  filter-mem, take-mem, order_by-mem, Distinct, eq_of_key, Rowwise, Rowwise-map, none, some, String,
  eq_iff, arith, Bool-cases, Option-cases,
}

abbrev pub event_id : OutboxEvent → String
event_id event = event.id

abbrev pub HasUniqueIds : List OutboxEvent → Type 0
HasUniqueIds events = Distinct (map event_id events)

-- An event is the same one, further on in its life.
abbrev pub Advances : ℕ → OutboxEvent → OutboxEvent → Type 0
Advances maximum e f = (e.id ≡ f.id) × Moves maximum (phase e) (phase f)

-- Only an event of the table becomes a candidate, and one that waits or is held.
pub candidates-mem :
    (batch seconds : ℕ) (locked : String → Bool) (now : ℕ) (events : List OutboxEvent)
    {e : OutboxEvent}
    → Memᴰ e (candidates batch seconds locked now events)
    → Memᴰ e events × (is_candidate seconds now e ≡ true)
unfolding candidates
candidates-mem batch seconds locked now events m =
    filter-mem _ events (order_by-mem _ _ (filter-mem _ _ (take-mem batch _ m)).0)

-- In a table with unique ids, the candidate found for an event is the event.
pub candidate_of-eq :
    (batch seconds : ℕ) (locked : String → Bool) (now : ℕ) (events : List OutboxEvent)
    (e c : OutboxEvent)
    → HasUniqueIds events
    → Memᴰ e events
    → candidate_of (candidates batch seconds locked now events) e.id ≡ some c
    → (c ≡ e) × (is_candidate seconds now e ≡ true)
unfolding candidate_of
candidate_of-eq batch seconds locked now events e c unique m found =
    let (n, q) = find-some _ _ c found in
    let (k, ready) = candidates-mem batch seconds locked now events n in
    let same_event = eq_of_key event_id events unique k m ((eq_iff c.id e.id).0 q) in
    (same_event, subst (λ d. is_candidate seconds now d ≡ true) same_event ready)

-- A candidate that has had all its attempts is dead, another is held for one more.
claim-Step :
    (maximum seconds now : ℕ) (e : OutboxEvent) (s : OutboxStatus)
    → e.status ≡ s
    → is_candidate seconds now e ≡ true
    → is_exhausted maximum e ≡ false
    → Step maximum (phase_of s e.attempt_count) (held (e.attempt_count + 1))
unfolding is_candidate is_exhausted OutboxStatus-discrete
claim-Step maximum seconds now e OutboxStatus.pending q ready more = lease e.attempt_count
claim-Step maximum seconds now e OutboxStatus.retry q ready more = lease e.attempt_count
claim-Step maximum seconds now e OutboxStatus.processing q ready more =
    take_over e.attempt_count (ground arith)
claim-Step maximum seconds now e OutboxStatus.published q ready more = absurd (ground arith)
claim-Step maximum seconds now e OutboxStatus.dead_letter q ready more = absurd (ground arith)

exhaust-Step :
    (maximum : ℕ) (e : OutboxEvent) (s : OutboxStatus)
    → e.status ≡ s
    → is_exhausted maximum e ≡ true
    → Step maximum (phase_of s e.attempt_count) (dead e.attempt_count)
unfolding is_exhausted OutboxStatus-discrete
exhaust-Step maximum e OutboxStatus.processing q over = bury e.attempt_count (ground arith)
exhaust-Step maximum e OutboxStatus.pending q over = absurd (ground arith)
exhaust-Step maximum e OutboxStatus.retry q over = absurd (ground arith)
exhaust-Step maximum e OutboxStatus.published q over = absurd (ground arith)
exhaust-Step maximum e OutboxStatus.dead_letter q over = absurd (ground arith)

-- What LEASE_SQL does to each event: nothing, or what its state as a candidate asks for.
pub lease_event-cases :
    (maximum now : ℕ) (cs : List OutboxEvent) (e : OutboxEvent)
    → ((c : OutboxEvent) → candidate_of cs e.id ≡ some c → c ≡ e)
    → ((candidate_of cs e.id ≡ none) × (lease_event maximum now cs e ≡ e))
      ⊎ ((candidate_of cs e.id ≡ some e)
          × (is_exhausted maximum e ≡ true)
          × (lease_event maximum now cs e ≡ exhaust now e))
      ⊎ ((candidate_of cs e.id ≡ some e)
          × (is_exhausted maximum e ≡ false)
          × (lease_event maximum now cs e ≡ claim now e))
unfolding lease_event
lease_event-cases maximum now cs e is_it = elim (Option-cases (candidate_of cs e.id)) [
  | inl q ↦ inl (q, rw (q, lease_event))
  | inr (c, q) ↦
      let q' = q ∙ ap some (is_it c q) in
      elim (Bool-cases (is_exhausted maximum e)) [
        | inl over ↦ inr (inl (q', over, rw (q', lease_event, over)))
        | inr more ↦ inr (inr (q', more, rw (q', lease_event, more)))
      ]
]

lease_event-Advances :
    (batch seconds maximum : ℕ) (locked : String → Bool) (now : ℕ) (events : List OutboxEvent)
    (e : OutboxEvent)
    → HasUniqueIds events
    → Memᴰ e events
    → Advances maximum e (lease_event maximum now (candidates batch seconds locked now events) e)
lease_event-Advances batch seconds maximum locked now events e unique m =
    let cs = candidates batch seconds locked now events in
    let found = λ (c : OutboxEvent) (q : candidate_of cs e.id ≡ some c).
      candidate_of-eq batch seconds locked now events e c unique m q in
    elim (lease_event-cases maximum now cs e (λ c q. (found c q).0)) [
      | inl (q, same_event) ↦ subst (Advances maximum e) (sym same_event) (refl, stay)
      | inr (inl (q, over, exhausted)) ↦
          subst (Advances maximum e) (sym exhausted)
            (refl, move stay (exhaust-Step maximum e e.status refl over))
      | inr (inr (q, more, claimed)) ↦
          subst (Advances maximum e) (sym claimed)
            (refl, move stay (claim-Step maximum seconds now e e.status refl (found e q).1 more))
    ]

pub lease_sql-Advances :
    (batch seconds maximum : ℕ) (locked : String → Bool) (now : ℕ) (outbox : Outbox)
    → HasUniqueIds outbox.events
    → Rowwise
        (Advances maximum)
        outbox.events
        (lease_sql batch seconds maximum locked now outbox).1.events
unfolding lease_sql
lease_sql-Advances batch seconds maximum locked now outbox unique =
    Rowwise-map (Advances maximum) _ outbox.events
      (λ e m. lease_event-Advances batch seconds maximum locked now outbox.events e unique m)

-- What a held event is: the one named, in the state and at the attempt that are named.
pub is_held-parts :
    (rows : List OutboxAttempt) (id society_id : String) (attempt : ℕ) (e : OutboxEvent)
    → is_held rows id society_id attempt e ≡ true
    → (e.id ≡ id)
      × (e.society_id ≡ society_id)
      × (e.status ≡ OutboxStatus.processing)
      × (e.attempt_count ≡ attempt)
      × (has_attempt id attempt rows ≡ false)
unfolding is_held OutboxStatus-discrete
is_held-parts rows id society_id attempt e h = (
  ground (arith, eq_iff e.id id),
  ground (arith, eq_iff e.society_id society_id),
  ground arith,
  ground arith,
  ground arith,
)

pub settle_sql-Advances :
    (maximum : ℕ) (change : OutboxEvent → OutboxEvent) (row : OutboxAttempt)
    (id society_id : String) (attempt : ℕ) (outbox : Outbox)
    → ((e : OutboxEvent)
        → e.status ≡ OutboxStatus.processing
        → e.attempt_count ≡ attempt
        → Advances maximum e (change e))
    → Rowwise
        (Advances maximum)
        outbox.events
        (settle_sql change row id society_id attempt outbox).1.events
unfolding settle_sql
settle_sql-Advances maximum change row id society_id attempt outbox changes =
    Rowwise-map (Advances maximum) _ outbox.events λ e m.
      elim (Bool-cases (is_held outbox.attempts id society_id attempt e)) [
        | inl h ↦
            let (p, q, s, n, r) = is_held-parts outbox.attempts id society_id attempt e h in
            rw h (changes e s n)
        | inr h ↦ rw h (refl, stay)
      ]
