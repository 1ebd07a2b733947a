-- ===== src/Worker/Outbox/Machine.antt =====
-- What apps/worker/src/outbox/repository.ts promises of one event: it waits, is held for an
-- attempt, and ends published or dead. A held event is given back, taken over or given up.
use manglam_balaji_managemen.Worker.Outbox.{OutboxStatus, OutboxEvent}
use manglam_balaji_managemen.Prelude.{ℕ, ◌+◌, ◌≤◌, ◌<◌, ◌≡◌, refl, subst, arith}

-- Each with the attempts made so far.
pub data Phase : Type 0 where
  waiting held done dead : ℕ → Phase

abbrev pub phase_of : OutboxStatus → ℕ → Phase
phase_of OutboxStatus.pending n = waiting n
phase_of OutboxStatus.retry n = waiting n
phase_of OutboxStatus.processing n = held n
phase_of OutboxStatus.published n = done n
phase_of OutboxStatus.dead_letter n = dead n

abbrev pub phase : OutboxEvent → Phase
phase event = phase_of event.status event.attempt_count

pub data Step (maximum : ℕ) : Phase → Phase → Type 0 where
  lease : (n : ℕ) → Step maximum (waiting n) (held (n + 1))
  take_over : (n : ℕ) → n < maximum → Step maximum (held n) (held (n + 1))
  publish : (n : ℕ) → Step maximum (held n) (done n)
  give_back : (n : ℕ) → n < maximum → Step maximum (held n) (waiting n)
  bury : (n : ℕ) → maximum ≤ n → Step maximum (held n) (dead n)

pub data Moves (maximum : ℕ) (p : Phase) : Phase → Type 0 where
  stay : Moves maximum p p
  move : {q r : Phase} → Moves maximum p q → Step maximum q r → Moves maximum p r

pub Moves-trans :
    (maximum : ℕ) (p q r : Phase) → Moves maximum p q → Moves maximum q r → Moves maximum p r
Moves-trans maximum p q r h stay = h
Moves-trans maximum p q r h (move {q = s} k st) = move (Moves-trans maximum p q s h k) st

-- No event is tried more often than the limit, and one that waits may be tried again.
abbrev pub InBounds : ℕ → Phase → Type 0
InBounds maximum (waiting n) = n < maximum
InBounds maximum (held n) = (1 ≤ n) × (n ≤ maximum)
InBounds maximum (done n) = (1 ≤ n) × (n ≤ maximum)
InBounds maximum (dead n) = n ≡ maximum

Step-InBounds :
    {maximum : ℕ} {p q : Phase} → Step maximum p q → InBounds maximum p → InBounds maximum q
Step-InBounds (lease n) h = omega arith
Step-InBounds (take_over n lt) h = omega arith
Step-InBounds (publish n) h = h
Step-InBounds (give_back n lt) h = lt
Step-InBounds (bury n le) h = omega arith

pub Moves-InBounds :
    (maximum : ℕ) {p q : Phase} → Moves maximum p q → InBounds maximum p → InBounds maximum q
Moves-InBounds maximum stay h = h
Moves-InBounds maximum (move k st) h = Step-InBounds st (Moves-InBounds maximum k h)

-- An event that is published or dead stays as it is.
abbrev pub IsFinal : Phase → Type 0
IsFinal (waiting n) = ⊥
IsFinal (held n) = ⊥
IsFinal (done n) = Unit
IsFinal (dead n) = Unit

Step-not-IsFinal : {maximum : ℕ} {p q : Phase} → Step maximum p q → IsFinal p → ⊥
Step-not-IsFinal (lease n) h = h
Step-not-IsFinal (take_over n lt) h = h
Step-not-IsFinal (publish n) h = h
Step-not-IsFinal (give_back n lt) h = h
Step-not-IsFinal (bury n le) h = h

pub Moves-IsFinal : (maximum : ℕ) {p q : Phase} → Moves maximum p q → IsFinal p → q ≡ p
Moves-IsFinal maximum stay h = refl
Moves-IsFinal maximum {p} (move {q} {r} k st) h =
    let e = Moves-IsFinal maximum k h in
    absurd (Step-not-IsFinal (subst (λ s. Step maximum s r) e st) h)
