-- ===== src/Domain/Visit/Lives.antt =====
-- packages/domain/src/visitor.ts: what holds of the whole life of a visit.
use mathlib.Core.List.{Memᴰ}
use manglam_balaji_managemen.Domain.StateMachine.Lives.{
  live, live-weight, live-enters, total, total-one, Result-cases,
}
use manglam_balaji_managemen.Domain.Visit.{
  VisitTransitionMode, VisitTransitionCommand, transition_visit, is_status,
}
use manglam_balaji_managemen.Domain.Visit.Laws.{
  VisitEdge, IsOverride, IsAuthorised, transition_visit-edge, transition_visit-IsAuthorised,
  transition_visit-moved,
}
use manglam_balaji_managemen.Types.Enums.Visits.{VisitStatus}
use manglam_balaji_managemen.Types.Errors.{Result, ok, StateTransition}
use manglam_balaji_managemen.Prelude.{
  ℕ, ap, sym, ◌+◌, ◌≤◌, ◌≡◌, refl, ◌⊎◌, inl, inr, Bool, true, false, List, ◌∷◌, arith, length,
  if◌then◌else◌,
}

-- A command met in the state that the visit is in.
abbrev pub visit_from : VisitStatus → VisitTransitionCommand → Result (StateTransition VisitStatus)
visit_from s c = transition_visit (record c { current = s })

-- An accepted command follows an edge, is authorised, and leaves the visit in its target.
visit_from-ok :
    (s : VisitStatus) (c : VisitTransitionCommand) (r : StateTransition VisitStatus)
    → visit_from s c ≡ ok r
    → VisitEdge s c.target × IsAuthorised (record c { current = s }) × (r.current ≡ c.target)
visit_from-ok s c r h = (
  transition_visit-edge _ r h,
  transition_visit-IsAuthorised _ r h,
  ap (λ (x : StateTransition VisitStatus). x.current) (transition_visit-moved _ r h),
)

-- How far a visit has come.
abbrev progress : VisitStatus → ℕ
progress VisitStatus.draft = 0
progress VisitStatus.expected = 1
progress VisitStatus.arrived_at_gate = 2
progress VisitStatus.awaiting_approval = 3
progress VisitStatus.rejected = 4
progress VisitStatus.approval_timed_out = 4
progress VisitStatus.approved = 5
progress VisitStatus.checked_in = 6
progress VisitStatus.checked_out = 7
progress VisitStatus.cancelled = 7
progress VisitStatus.expired = 7

progress-edge : {s t : VisitStatus} → VisitEdge s t → progress s + 1 ≤ progress t
progress-edge VisitEdge.announce = omega arith
progress-edge _ = omega arith

progress-le : (s : VisitStatus) → progress s ≤ 7
progress-le VisitStatus.draft = omega arith
progress-le _ = omega arith

-- From any state, a visit accepts at most seven commands: its life ends.
pub visit_life_bounded :
    (s t : VisitStatus) (cs : List VisitTransitionCommand)
    → live visit_from s cs ≡ ok t
    → length cs ≤ 7
visit_life_bounded s t cs h = omega (
  arith,
  live-weight visit_from progress (λ (c : VisitTransitionCommand). 1)
      (λ (s : VisitStatus) (c : VisitTransitionCommand) (r : StateTransition VisitStatus)
          (e : visit_from s c ≡ ok r).
        let (edge, _, m) = visit_from-ok s c r e in rw m (progress-edge edge))
      s t cs h,
  total-one cs,
  progress-le t,
)

abbrev is_check_in : VisitTransitionCommand → ℕ
is_check_in c = if is_status c.target VisitStatus.checked_in then 1 else 0

-- 1 for a visitor who has come in.
abbrev pub has_entered : VisitStatus → ℕ
has_entered VisitStatus.checked_in = 1
has_entered VisitStatus.checked_out = 1
has_entered _ = 0

has_entered-edge :
    {s t : VisitStatus}
    → VisitEdge s t
    → has_entered s + (if is_status t VisitStatus.checked_in then 1 else 0) ≤ has_entered t
has_entered-edge VisitEdge.announce = ground arith
has_entered-edge _ = ground arith

has_entered-le : (s : VisitStatus) → has_entered s ≤ 1
has_entered-le VisitStatus.checked_in = omega arith
has_entered-le VisitStatus.checked_out = omega arith
has_entered-le _ = omega arith

abbrev pub check_ins : List VisitTransitionCommand → ℕ
check_ins = total is_check_in

-- A visit checks in at most once, and not at all after it has entered.
pub visit_enters_once :
    (s t : VisitStatus) (cs : List VisitTransitionCommand)
    → live visit_from s cs ≡ ok t
    → has_entered s + check_ins cs ≤ 1
visit_enters_once s t cs h = omega (
  arith,
  live-weight visit_from has_entered is_check_in
      (λ (s : VisitStatus) (c : VisitTransitionCommand) (r : StateTransition VisitStatus)
          (e : visit_from s c ≡ ok r).
        let (edge, _, m) = visit_from-ok s c r e in rw m (has_entered-edge edge))
      s t cs h,
  has_entered-le t,
)

-- Approved, and perhaps in or out since.
abbrev pub was_let_in : VisitStatus → Bool
was_let_in VisitStatus.approved = true
was_let_in VisitStatus.checked_in = true
was_let_in VisitStatus.checked_out = true
was_let_in _ = false

-- The three ways to be let in.
abbrev pub IsVouched : VisitTransitionCommand → Type 0
IsVouched c =
    ((c.mode ≡ VisitTransitionMode.pre_approval) × (c.pre_approval_valid ≡ true))
    ⊎ ((c.mode ≡ VisitTransitionMode.resident_decision) ⊎ IsOverride c)

IsVouched-of_edge :
    {s t : VisitStatus} (c : VisitTransitionCommand)
    → VisitEdge s t
    → s ≡ c.current
    → t ≡ c.target
    → IsAuthorised c
    → was_let_in s ≡ false
    → was_let_in t ≡ true
    → IsVouched c
IsVouched-of_edge c VisitEdge.wave_through p q a out now = inl (a.at_gate (sym p) (sym q))
IsVouched-of_edge c VisitEdge.approve p q a out now =
    inr (inl (a.by_resident (sym p) (inl (sym q))))
IsVouched-of_edge c VisitEdge.overrule p q a out now =
    inr (inr (a.by_override (inl (sym p)) (sym q)))
IsVouched-of_edge c VisitEdge.overrule_time_out p q a out now =
    inr (inr (a.by_override (inr (sym p)) (sym q)))
IsVouched-of_edge c e p q a out now = cc

-- A visit that was not let in yet, and later is (a checked in visitor above all), was let in by a
-- valid pre-approval, by a resident's decision, or by an override of a recently authenticated actor
-- with the permission and a reason.
pub visit_entry_IsVouched :
    (s t : VisitStatus) (cs : List VisitTransitionCommand)
    → live visit_from s cs ≡ ok t
    → was_let_in s ≡ false
    → was_let_in t ≡ true
    → (c : VisitTransitionCommand) × Memᴰ c cs × IsVouched c
visit_entry_IsVouched s t cs h out in' =
    live-enters visit_from was_let_in IsVouched
      (λ s c r e before after.
        let (edge, a, m) = visit_from-ok s c r e in
        IsVouched-of_edge (record c { current = s }) edge refl refl a before (rw m at after))
      s t cs h out in'

refused-target :
    {s t : VisitStatus}
    → VisitEdge s t
    → (s ≡ VisitStatus.rejected) ⊎ (s ≡ VisitStatus.approval_timed_out)
    → t ≡ VisitStatus.approved
refused-target VisitEdge.announce from = ground arith
refused-target _ from = ground arith

-- A visit that a resident has rejected, or whose approval timed out, is let in by an override alone:
-- the first command that it accepts is one.
pub refused_visit_overruled :
    (s t : VisitStatus) (c : VisitTransitionCommand) (cs : List VisitTransitionCommand)
    → live visit_from s (c ∷ cs) ≡ ok t
    → (s ≡ VisitStatus.rejected) ⊎ (s ≡ VisitStatus.approval_timed_out)
    → IsOverride c × (c.target ≡ VisitStatus.approved)
refused_visit_overruled s t c cs h from = elim (Result-cases (visit_from s c)) [
  | inl (r, e) ↦
      let (edge, a, _) = visit_from-ok s c r e in
      let to : c.target ≡ VisitStatus.approved = refused-target edge from in
      (a.by_override from to, to)
  | inr (x, e) ↦ cc (rw (e, live) at h)
]
