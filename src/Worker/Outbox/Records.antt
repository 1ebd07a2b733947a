-- ===== src/Worker/Outbox/Records.antt =====
-- apps/worker/src/outbox/repository.ts: the rows that attempts leave agree with the events, after
-- each statement that changes the tables.
use mathlib.Core.List.{Memᴰ}
use manglam_balaji_managemen.Worker.Outbox.{
  OutboxStatus, OutboxStatus-discrete, OutboxEvent, OutboxAttempt, Outbox, has_attempt,
  is_candidate, candidates, candidate_of, is_exhausted, is_unrecorded, abandoned_attempt,
  insert_attempt, insert_attempts, lease_event, lease_sql,
}
use manglam_balaji_managemen.Worker.Outbox.Settle.{is_held, settle_sql}
use manglam_balaji_managemen.Worker.Outbox.Machine.{
  Phase, waiting, held, done, dead, phase, phase_of,
}
use manglam_balaji_managemen.Worker.Outbox.Steps.{
  HasUniqueIds, event_id, candidate_of-eq, candidates-mem, lease_event-cases, is_held-parts,
}
use manglam_balaji_managemen.Prelude.{
  ℕ, ◌+◌, ◌≤◌, ◌<◌, ◌≡◌, ◌≢◌, ◌⊎◌, refl, sym, ap, subst, ◌∙◌, inl, inr, Bool, true, List, [], ◌∷◌,
  any, any-mem, find_of_mem, filter-mem, map-mem, uncons-mem, eq_of_key, none, String, str_eq,
  eq_iff, arith, Bool-cases, Option-cases, if◌then◌else◌,
}

-- What a row of attempt k with a status may say about an event in a phase.
abbrev pub Fits : OutboxStatus → ℕ → Phase → Type 0
Fits s k (waiting n) = (k ≤ n) × (s ≢ OutboxStatus.published)
Fits s k (held n) = (k < n) × (s ≢ OutboxStatus.published)
Fits s k (done n) =
    ((k ≡ n) × (s ≡ OutboxStatus.published)) ⊎ ((k < n) × (s ≢ OutboxStatus.published))
Fits s k (dead n) = (k ≤ n) × (s ≢ OutboxStatus.published)

abbrev pub IsConsistent : Outbox → Type 0
IsConsistent outbox =
    (row : OutboxAttempt) (e : OutboxEvent)
    → Memᴰ row outbox.attempts
    → Memᴰ e outbox.events
    → row.outbox_event_id ≡ e.id
    → Fits row.status row.attempt (phase e)

-- An older row still fits an event that is claimed or exhausted.
claim-Fits :
    (seconds now : ℕ) (e : OutboxEvent) (s t : OutboxStatus) (k : ℕ)
    → e.status ≡ t
    → is_candidate seconds now e ≡ true
    → Fits s k (phase_of t e.attempt_count)
    → Fits s k (held (e.attempt_count + 1))
unfolding is_candidate OutboxStatus-discrete
claim-Fits seconds now e s OutboxStatus.pending k q ready (le, ne) = (omega arith, ne)
claim-Fits seconds now e s OutboxStatus.retry k q ready (le, ne) = (omega arith, ne)
claim-Fits seconds now e s OutboxStatus.processing k q ready (le, ne) = (omega arith, ne)
claim-Fits seconds now e s OutboxStatus.published k q ready h = absurd (ground arith)
claim-Fits seconds now e s OutboxStatus.dead_letter k q ready h = absurd (ground arith)

exhaust-Fits :
    (maximum : ℕ) (e : OutboxEvent) (s t : OutboxStatus) (k : ℕ)
    → e.status ≡ t
    → is_exhausted maximum e ≡ true
    → Fits s k (phase_of t e.attempt_count)
    → Fits s k (dead e.attempt_count)
unfolding is_exhausted OutboxStatus-discrete
exhaust-Fits maximum e s OutboxStatus.processing k q over (le, ne) = (omega arith, ne)
exhaust-Fits maximum e s OutboxStatus.pending k q over h = h
exhaust-Fits maximum e s OutboxStatus.retry k q over h = h
exhaust-Fits maximum e s OutboxStatus.published k q over h = absurd (ground arith)
exhaust-Fits maximum e s OutboxStatus.dead_letter k q over h = h

insert_attempt-mem :
    (x : OutboxAttempt) (rows : List OutboxAttempt) {row : OutboxAttempt}
    → Memᴰ row (insert_attempt x rows)
    → (row ≡ x) ⊎ Memᴰ row rows
unfolding insert_attempt
insert_attempt-mem x rows {row} m =
    elim (Bool-cases (has_attempt x.outbox_event_id x.attempt rows)) [
      | inl known ↦ inr (rw known at m)
      | inr new ↦ uncons-mem (rw new at m)
    ]

insert_attempts-mem :
    (new rows : List OutboxAttempt) {row : OutboxAttempt}
    → Memᴰ row (insert_attempts new rows)
    → Memᴰ row new ⊎ Memᴰ row rows
unfolding insert_attempts
insert_attempts-mem [] rows m = inr m
insert_attempts-mem (x ∷ new) rows m = elim (insert_attempt-mem x (insert_attempts new rows) m) [
  | inl e ↦ inl (Memᴰ.head e)
  | inr later ↦ elim (insert_attempts-mem new rows later) [
    | inl n ↦ inl (Memᴰ.tail n)
    | inr old ↦ inr old
  ]
]

abandoned_attempt-status :
    (maximum : ℕ) (c : OutboxEvent) → (abandoned_attempt maximum c).status ≢ OutboxStatus.published
abandoned_attempt-status maximum c = ground arith

candidate_of-ne-none :
    (cs : List OutboxEvent) (c : OutboxEvent) → Memᴰ c cs → candidate_of cs c.id ≢ none
unfolding candidate_of
candidate_of-ne-none cs c m q =
    let (d, found) =
      find_of_mem (λ candidate. str_eq candidate.id c.id) cs m ((eq_iff c.id c.id).1 refl) in
    cc (found, q)

-- The rows after a lease: those from before, and those of candidates that were held.
lease_sql-attempts :
    (batch seconds maximum : ℕ) (locked : String → Bool) (now : ℕ) (outbox : Outbox)
    {row : OutboxAttempt}
    → Memᴰ row (lease_sql batch seconds maximum locked now outbox).1.attempts
    → ((c : OutboxEvent) × Memᴰ c (candidates batch seconds locked now outbox.events)
        × (row ≡ abandoned_attempt maximum c))
      ⊎ Memᴰ row outbox.attempts
unfolding lease_sql
lease_sql-attempts batch seconds maximum locked now outbox m =
    elim (insert_attempts-mem _ outbox.attempts m) [
      | inl new ↦
          let (c, n, e) = map-mem (abandoned_attempt maximum) _ new in
          inl (c, (filter-mem (is_unrecorded outbox.attempts) _ n).0, e)
      | inr old ↦ inr old
    ]

lease_event-id :
    (maximum now : ℕ) (cs : List OutboxEvent) (e : OutboxEvent)
    → event_id (lease_event maximum now cs e) ≡ e.id
unfolding lease_event
lease_event-id maximum now cs e = elim (Option-cases (candidate_of cs e.id)) [
  | inl q ↦ rw (q, lease_event)
  | inr (c, q) ↦ elim (Bool-cases (is_exhausted maximum c)) [
    | inl over ↦ rw (q, lease_event, over)
    | inr more ↦ rw (q, lease_event, more)
  ]
]

module _ (batch seconds maximum : ℕ) (locked : String → Bool) (now : ℕ) (outbox : Outbox)
    (unique : HasUniqueIds outbox.events) where
  abbrev chosen : List OutboxEvent
  chosen = candidates batch seconds locked now outbox.events

  -- A row that fitted an event fits it after the lease, and so does the row of its own lost lease.
  lease_event-Fits :
      (row : OutboxAttempt) (e : OutboxEvent)
      → Memᴰ e outbox.events
      → Fits row.status row.attempt (phase e)
      → Fits row.status row.attempt (phase (lease_event maximum now chosen e))
  lease_event-Fits row e m h =
      elim (lease_event-cases maximum now chosen e
        (λ c q. (candidate_of-eq batch seconds locked now outbox.events e c unique m q).0)) [
          | inl (q, kept) ↦ rw kept h
          | inr (inl (q, over, exhausted)) ↦
              rw exhausted (exhaust-Fits maximum e row.status e.status row.attempt refl over h)
          | inr (inr (q, more, claimed)) ↦ rw claimed (
              claim-Fits seconds now e row.status e.status row.attempt refl
                (candidate_of-eq batch seconds locked now outbox.events e e unique m q).1 h)
        ]

  lease_event-Fits_abandoned :
      (c : OutboxEvent)
      → Memᴰ c outbox.events
      → Memᴰ c chosen
      → let row = abandoned_attempt maximum c in
        Fits row.status row.attempt (phase (lease_event maximum now chosen c))
  lease_event-Fits_abandoned c m chosen_c =
      elim (lease_event-cases maximum now chosen c
        (λ d q. (candidate_of-eq batch seconds locked now outbox.events c d unique m q).0)) [
          | inl (q, kept) ↦ absurd (candidate_of-ne-none chosen c chosen_c q)
          | inr (inl (q, over, exhausted)) ↦
              rw exhausted (omega arith, abandoned_attempt-status maximum c)
          | inr (inr (q, more, claimed)) ↦
              rw claimed (omega arith, abandoned_attempt-status maximum c)
        ]

  lease_sql-events :
      {f : OutboxEvent}
      → Memᴰ f (lease_sql batch seconds maximum locked now outbox).1.events
      → (e : OutboxEvent) × Memᴰ e outbox.events × (f ≡ lease_event maximum now chosen e)
  unfolding lease_sql
  lease_sql-events m = map-mem (lease_event maximum now chosen) outbox.events m

  pub lease_sql-IsConsistent :
      IsConsistent outbox → IsConsistent (lease_sql batch seconds maximum locked now outbox).1
  lease_sql-IsConsistent fits row f m n same_id =
      let (e, k, q) = lease_sql-events n in
      let e_id : row.outbox_event_id ≡ e.id =
        same_id ∙ ap event_id q ∙ lease_event-id maximum now chosen e in
      elim (lease_sql-attempts batch seconds maximum locked now outbox m) [
        | inr old ↦ rw q (lease_event-Fits row e k (fits row e old k e_id))
        | inl (c, chosen_c, r) ↦
            let c_mem = (candidates-mem batch seconds locked now outbox.events chosen_c).0 in
            let c_eq : c ≡ e =
              eq_of_key event_id outbox.events unique c_mem k
                (sym (ap (λ (x : OutboxAttempt). x.outbox_event_id) r) ∙ e_id) in
            rw (r, q, ← c_eq) (lease_event-Fits_abandoned c c_mem chosen_c)
      ]

-- Completing or failing a held event: its new row fits it, and so do its older rows.
module _ (change : OutboxEvent → OutboxEvent) (row : OutboxAttempt) (society_id : String)
    (outbox : Outbox) (unique : HasUniqueIds outbox.events) where
  abbrev pub is_mine : OutboxEvent → Bool
  is_mine = is_held outbox.attempts row.outbox_event_id society_id row.attempt

  abbrev pub settled : Outbox
  settled = (settle_sql change row row.outbox_event_id society_id row.attempt outbox).1

  module _ (keeps : (e : OutboxEvent) → event_id (change e) ≡ e.id)
      (changes : (e : OutboxEvent)
        → e.status ≡ OutboxStatus.processing
        → e.attempt_count ≡ row.attempt
        → Fits row.status row.attempt (phase (change e))
          × ((s : OutboxStatus) (k : ℕ)
              → Fits s k (held row.attempt)
              → Fits s k (phase (change e)))) where
    settled_event-id : (e : OutboxEvent) → event_id (if is_mine e then change e else e) ≡ e.id
    settled_event-id e = elim (Bool-cases (is_mine e)) [
      | inl mine ↦ rw mine (keeps e)
      | inr other ↦ rw other refl
    ]

    settled_event-Fits :
        (r : OutboxAttempt) (e : OutboxEvent)
        → Fits r.status r.attempt (phase e)
        → Fits r.status r.attempt (phase (if is_mine e then change e else e))
    settled_event-Fits r e h = elim (Bool-cases (is_mine e)) [
      | inr other ↦ rw other h
      | inl mine ↦
          let (i, c, s, n, u) =
            is_held-parts outbox.attempts row.outbox_event_id society_id row.attempt e mine in
          let is_now : phase e ≡ held row.attempt = cc in
          rw mine ((changes e s n).1 r.status r.attempt (subst (Fits r.status r.attempt) is_now h))
    ]

    settled_event-Fits_new :
        (e h : OutboxEvent)
        → Memᴰ e outbox.events
        → Memᴰ h outbox.events
        → is_mine h ≡ true
        → row.outbox_event_id ≡ e.id
        → Fits row.status row.attempt (phase (if is_mine e then change e else e))
    settled_event-Fits_new e h m n mine same_id =
        let (i, c, s, k, u) =
          is_held-parts outbox.attempts row.outbox_event_id society_id row.attempt h mine in
        let is_it = eq_of_key event_id outbox.events unique n m (i ∙ same_id) in
        rw (← is_it, mine) ((changes h s k).0)

    pub settle_sql-IsConsistent : IsConsistent outbox → IsConsistent settled
    unfolding settle_sql
    settle_sql-IsConsistent fits r f m n same_id =
        let (e, k, q) =
          map-mem (λ event. if is_mine event then change event else event) outbox.events n in
        let e_id : r.outbox_event_id ≡ e.id = same_id ∙ ap event_id q ∙ settled_event-id e in
        elim (Bool-cases (any is_mine outbox.events)) [
          | inr untouched ↦ rw q (settled_event-Fits r e (fits r e (rw untouched at m) k e_id))
          | inl found ↦
              let (h, h_mem, mine) = any-mem is_mine outbox.events found in
              elim (uncons-mem (rw found at m)) [
                | inr old ↦ rw q (settled_event-Fits r e (fits r e old k e_id))
                | inl new ↦
                    rw (q, new)
                      (settled_event-Fits_new e h k h_mem mine
                        (sym (ap (λ (x : OutboxAttempt). x.outbox_event_id) new) ∙ e_id))
              ]
        ]
