-- ===== src/Worker/Outbox/Leases.antt =====
-- apps/worker/src/outbox/repository.ts, LEASE_SQL: the events that a lease returns are held by it.
use mathlib.Core.List.{Memᴰ}
use manglam_balaji_managemen.Worker.Outbox.{
  OutboxStatus, OutboxEvent, Outbox, LeasedOutboxEvent, candidates, candidate_of, is_exhausted,
  claim, to_leased, lease_event, leased_events, lease_sql, has_attempt,
}
use manglam_balaji_managemen.Worker.Outbox.Machine.{InBounds, Moves-InBounds, phase, phase_of}
use manglam_balaji_managemen.Worker.Outbox.Steps.{
  Advances, HasUniqueIds, event_id, candidate_of-eq, lease_sql-Advances,
}
use manglam_balaji_managemen.Worker.Outbox.Records.{Fits, IsConsistent, lease_sql-IsConsistent}
use manglam_balaji_managemen.Worker.Outbox.Fencing.{IsHolder}
use manglam_balaji_managemen.Prelude.{
  ℕ, ◌≤◌, ◌≡◌, refl, sym, ap, subst, ◌∙◌, inl, inr, Bool, true, false, List, [], ◌∷◌, map, mem-map,
  map-mem, uncons-mem, any-mem, Distinct, Rowwise-mem, none, some, String, eq_iff, arith,
  Bool-cases, Option-cases,
}

abbrev pub leased_id : LeasedOutboxEvent → String
leased_id event = event.id

-- Where a leased event comes from: an event that was a candidate with attempts left.
abbrev IsLeased : ℕ → ℕ → List OutboxEvent → LeasedOutboxEvent → OutboxEvent → Type 0
IsLeased maximum now cs l e =
    (c : OutboxEvent) × (candidate_of cs e.id ≡ some c)
    × (is_exhausted maximum c ≡ false)
    × (l ≡ to_leased (claim now e))

module _ (maximum now : ℕ) (cs : List OutboxEvent) where
  leased_events-none :
      (e : OutboxEvent) (es : List OutboxEvent)
      → candidate_of cs e.id ≡ none
      → leased_events maximum now cs (e ∷ es) ≡ leased_events maximum now cs es
  unfolding leased_events
  leased_events-none e es q = rw (q, leased_events)

  leased_events-exhausted :
      (e c : OutboxEvent) (es : List OutboxEvent)
      → candidate_of cs e.id ≡ some c
      → is_exhausted maximum c ≡ true
      → leased_events maximum now cs (e ∷ es) ≡ leased_events maximum now cs es
  unfolding leased_events
  leased_events-exhausted e c es q over = rw (q, leased_events, over)

  leased_events-claimed :
      (e c : OutboxEvent) (es : List OutboxEvent)
      → candidate_of cs e.id ≡ some c
      → is_exhausted maximum c ≡ false
      → leased_events maximum now cs (e ∷ es)
        ≡ (to_leased (claim now e) ∷ leased_events maximum now cs es)
  unfolding leased_events
  leased_events-claimed e c es q more = rw (q, leased_events, more)

  leased_events-mem :
      (es : List OutboxEvent) {l : LeasedOutboxEvent}
      → Memᴰ l (leased_events maximum now cs es)
      → (e : OutboxEvent) × Memᴰ e es × IsLeased maximum now cs l e
  unfolding leased_events
  leased_events-mem [] m = elim m [ ]
  leased_events-mem (e ∷ es) {l} m = elim (Option-cases (candidate_of cs e.id)) [
    | inl q ↦
        let (f, n, r) = leased_events-mem es (rw (leased_events-none e es q) at m) in
        (f, Memᴰ.tail n, r)
    | inr (c, q) ↦ elim (Bool-cases (is_exhausted maximum c)) [
      | inl over ↦
          let (f, n, r) = leased_events-mem es (rw (leased_events-exhausted e c es q over) at m) in
          (f, Memᴰ.tail n, r)
      | inr more ↦ elim (uncons-mem (rw (leased_events-claimed e c es q more) at m)) [
        | inl here ↦ (e, Memᴰ.head refl, (c, q, more, here))
        | inr later ↦ let (f, n, r) = leased_events-mem es later in (f, Memᴰ.tail n, r)
      ]
    ]
  ]

  leased_id-mem :
      (es : List OutboxEvent) {id : String}
      → Memᴰ id (map leased_id (leased_events maximum now cs es))
      → Memᴰ id (map event_id es)
  leased_id-mem es m =
      let (l, n, q) = map-mem leased_id (leased_events maximum now cs es) m in
      let (e, k, (c, _, _, r)) = leased_events-mem es n in
      subst (λ id. Memᴰ id (map event_id es)) (sym (q ∙ ap leased_id r)) (mem-map event_id es k)

  leased_events-Distinct :
      (es : List OutboxEvent)
      → HasUniqueIds es
      → Distinct (map leased_id (leased_events maximum now cs es))
  unfolding leased_events
  leased_events-Distinct [] unique = tt
  leased_events-Distinct (e ∷ es) (new, unique) = elim (Option-cases (candidate_of cs e.id)) [
    | inl q ↦ rw (leased_events-none e es q) (leased_events-Distinct es unique)
    | inr (c, q) ↦ elim (Bool-cases (is_exhausted maximum c)) [
      | inl over ↦ rw (leased_events-exhausted e c es q over) (leased_events-Distinct es unique)
      | inr more ↦
          rw (leased_events-claimed e c es q more)
            ((λ m. new (leased_id-mem es m)), leased_events-Distinct es unique)
    ]
  ]

lease_event-claim :
    (maximum now : ℕ) (cs : List OutboxEvent) (e c : OutboxEvent)
    → candidate_of cs e.id ≡ some c
    → is_exhausted maximum c ≡ false
    → lease_event maximum now cs e ≡ claim now e
unfolding lease_event
lease_event-claim maximum now cs e c q more = rw (q, lease_event, more)

-- The row of a held event's present attempt is not there yet.
not_recorded :
    (o : Outbox) (e : OutboxEvent)
    → IsConsistent o
    → Memᴰ e o.events
    → e.status ≡ OutboxStatus.processing
    → has_attempt e.id e.attempt_count o.attempts ≡ false
unfolding has_attempt
not_recorded o e fits m s = elim (Bool-cases (has_attempt e.id e.attempt_count o.attempts)) [
  | inr absent ↦ absent
  | inl there ↦
      let (row, n, q) = any-mem _ o.attempts there in
      let fit =
        subst (λ t. Fits row.status row.attempt (phase_of t e.attempt_count)) s
          (fits row e n m (ground (arith, eq_iff row.outbox_event_id e.id))) in
      let same_attempt : row.attempt ≡ e.attempt_count = ground arith in
      absurd (omega (arith, fit.0))
]

module _ (batch seconds maximum : ℕ) (locked : String → Bool) (now : ℕ) (o : Outbox)
    (unique : HasUniqueIds o.events) where
  abbrev pub after_lease : List LeasedOutboxEvent × Outbox
  after_lease = lease_sql batch seconds maximum locked now o

  abbrev chosen : List OutboxEvent
  chosen = candidates batch seconds locked now o.events

  -- A leased event stands in the table as claimed.
  leased-mem :
      {l : LeasedOutboxEvent}
      → Memᴰ l after_lease.0
      → (e : OutboxEvent) × Memᴰ (claim now e) after_lease.1.events × (l ≡ to_leased (claim now e))
  unfolding lease_sql
  leased-mem m =
      let (e, n, (c, q, more, r)) = leased_events-mem maximum now chosen o.events m in
      let c_eq = (candidate_of-eq batch seconds locked now o.events e c unique n q).0 in
      (
        e,
        subst (λ f. Memᴰ f (map (lease_event maximum now chosen) o.events))
            (lease_event-claim maximum now chosen e c q more)
            (mem-map (lease_event maximum now chosen) o.events n),
        r,
      )

  pub leased-Distinct : Distinct (map leased_id after_lease.0)
  unfolding lease_sql
  leased-Distinct = leased_events-Distinct maximum now chosen o.events unique

  pub leased-IsHolder :
      IsConsistent o → (l : LeasedOutboxEvent) → Memᴰ l after_lease.0 → IsHolder l after_lease.1
  leased-IsHolder fits l m =
      let (e, n, r) = leased-mem m in
      let fits' = lease_sql-IsConsistent batch seconds maximum locked now o unique fits in
      rw r (
        claim now e,
        n,
        refl,
        refl,
        refl,
        refl,
        not_recorded after_lease.1 (claim now e) fits' n refl,
      )

  pub leased-attempts :
      ((e : OutboxEvent) → Memᴰ e o.events → InBounds maximum (phase e))
      → (l : LeasedOutboxEvent) → Memᴰ l after_lease.0
      → (1 ≤ l.attempt_count) × (l.attempt_count ≤ maximum)
  leased-attempts bounded l m =
      let (e, n, r) = leased-mem m in
      let (f, k, (i, moves)) =
        Rowwise-mem (Advances maximum) _ _
          (lease_sql-Advances batch seconds maximum locked now o unique) n in
      rw r (Moves-InBounds maximum moves (bounded f k))
