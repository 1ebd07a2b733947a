-- ===== src/Domain/Complaint/Laws.antt =====
-- packages/domain/src/complaint.ts: when a complaint moves, and when it may be reopened.
use manglam_balaji_managemen.Domain.Complaint.{
  ComplaintTransitionCommand, transition_complaint, complaint_transitions, window_days, is_within,
  is_complaint, complaint_input, parse_option, assignee_refusal, resolution_refusal,
  cancellation_refusal, reopening_refusal,
}
use manglam_balaji_managemen.Domain.StateMachine.{can_transition, has_required_text, moved}
use manglam_balaji_managemen.Domain.StateMachine.Laws.{apply_transition-ok}
use manglam_balaji_managemen.Js.Date.{date_parse}
use manglam_balaji_managemen.Js.Number.{Number, integer}
use manglam_balaji_managemen.Js.Text.{is_blank}
use manglam_balaji_managemen.Types.Enums.Records.{
  ComplaintStatus, ComplaintStatus-discrete, complaint_status_enum,
}
use manglam_balaji_managemen.Types.Errors.{ok, or_refuse-eq-ok, StateTransition}
use manglam_balaji_managemen.Prelude.{
  ℕ, ◌+◌, ◌*◌, ◌≤◌, ◌<◌, ◌≡◌, ◌↔◌, refl, ap, true, false, Option, none, some, String, arith,
  Bool-cases, inl, inr, str_eq, eq_iff, same→eq,
}

-- The edges of the diagram.
pub data ComplaintEdge : ComplaintStatus → ComplaintStatus → Type 0 where
  assign : ComplaintEdge ComplaintStatus.opened ComplaintStatus.assigned
  drop : ComplaintEdge ComplaintStatus.opened ComplaintStatus.cancelled
  start : ComplaintEdge ComplaintStatus.assigned ComplaintStatus.in_progress
  resolve_early : ComplaintEdge ComplaintStatus.assigned ComplaintStatus.resolved
  unassign : ComplaintEdge ComplaintStatus.assigned ComplaintStatus.cancelled
  resolve : ComplaintEdge ComplaintStatus.in_progress ComplaintStatus.resolved
  abandon : ComplaintEdge ComplaintStatus.in_progress ComplaintStatus.cancelled
  close : ComplaintEdge ComplaintStatus.resolved ComplaintStatus.closed
  reopen : ComplaintEdge ComplaintStatus.resolved ComplaintStatus.reopened
  assign_again : ComplaintEdge ComplaintStatus.reopened ComplaintStatus.assigned
  start_again : ComplaintEdge ComplaintStatus.reopened ComplaintStatus.in_progress
  resolve_again : ComplaintEdge ComplaintStatus.reopened ComplaintStatus.resolved
  drop_again : ComplaintEdge ComplaintStatus.reopened ComplaintStatus.cancelled

ruleset edges = (
  assign, drop, start, resolve_early, unassign, resolve, abandon, close, reopen, assign_again,
  start_again, resolve_again, drop_again,
)

edge_of_table :
    (s t : ComplaintStatus) → can_transition complaint_transitions s t ≡ true → ComplaintEdge s t
unfolding can_transition complaint_transitions
edge_of_table ComplaintStatus.opened t h = grind (arith, edges)
edge_of_table _ t h = grind (arith, edges)

-- The times of a reopening: both are dates, and the complaint was resolved at most so many days ago.
pub record IsTimely (c : ComplaintTransitionCommand) : Type 0 where
  pub days : ℕ
  pub resolved : ℕ
  pub occurred : ℕ
  pub window : window_days c.reopen_window_days ≡ integer days
  pub some_days : 0 < days
  pub resolved_at : parse_option c.resolved_at ≡ some resolved
  pub occurred_at : date_parse c.occurred_at ≡ some occurred
  pub not_before : resolved ≤ occurred
  pub not_late : occurred ≤ resolved + days * 86400000

-- What each target asks for.
pub record IsDocumented (c : ComplaintTransitionCommand) : Type 0 where
  pub assignee : c.target ≡ ComplaintStatus.assigned → is_blank c.assignee_id ≡ false
  pub note : c.target ≡ ComplaintStatus.resolved → has_required_text c.resolution_note ≡ true
  pub cancel_reason : c.target ≡ ComplaintStatus.cancelled → has_required_text c.reason ≡ true
  pub reopen_reason : c.target ≡ ComplaintStatus.reopened → has_required_text c.reason ≡ true
  pub timely : c.target ≡ ComplaintStatus.reopened → IsTimely c

within→timely :
    (c : ComplaintTransitionCommand) (w : Number) (r o : Option ℕ)
    → is_within w r o ≡ true
    → window_days c.reopen_window_days ≡ w
    → parse_option c.resolved_at ≡ r
    → date_parse c.occurred_at ≡ o
    → IsTimely c
unfolding is_within
within→timely c (integer days) (some resolved) (some occurred) h p q s = record {
  days = days;
  resolved = resolved;
  occurred = occurred;
  window = p;
  some_days = ground arith;
  resolved_at = q;
  occurred_at = s;
  not_before = ground arith;
  not_late = ground arith;
}
within→timely c _ _ _ h p q s = cc

timely→within :
    (c : ComplaintTransitionCommand)
    → IsTimely c
    → is_within
        (window_days c.reopen_window_days)
        (parse_option c.resolved_at)
        (date_parse c.occurred_at)
      ≡ true
unfolding is_within
timely→within c t =
    rw (t.window, t.resolved_at, t.occurred_at)
      (ground (arith, t.some_days, t.not_before, t.not_late))

date_parse-blank : date_parse "" ≡ none
unfolding date_parse
date_parse-blank = refl

-- A text that is a date is not empty.
is_blank-date : (o : Option String) (t : ℕ) → parse_option o ≡ some t → is_blank o ≡ false
is_blank-date none t h = cc
is_blank-date (some s) t h = elim (Bool-cases (str_eq s "")) [
  | inl empty ↦ cc (date_parse-blank, ap date_parse ((eq_iff s "").0 empty))
  | inr other ↦ other
]

reopening_refusal_iff :
    (c : ComplaintTransitionCommand)
    → reopening_refusal c ≡ none
    → c.target ≡ ComplaintStatus.reopened
    → (has_required_text c.reason ≡ true) × IsTimely c
unfolding reopening_refusal
reopening_refusal_iff c h t = (ground arith, within→timely c _ _ _ (ground arith) refl refl refl)

-- The tests refuse nothing exactly where the command is documented.
refusals→IsDocumented :
    (c : ComplaintTransitionCommand)
    → assignee_refusal c ≡ none
    → resolution_refusal c ≡ none
    → cancellation_refusal c ≡ none
    → reopening_refusal c ≡ none
    → IsDocumented c
unfolding assignee_refusal resolution_refusal cancellation_refusal
refusals→IsDocumented c a n x o = record {
  assignee = ground arith;
  note = ground arith;
  cancel_reason = ground arith;
  reopen_reason = λ t. (reopening_refusal_iff c o t).0;
  timely = λ t. (reopening_refusal_iff c o t).1;
}

transition_complaint_sound :
    (c : ComplaintTransitionCommand) (r : StateTransition ComplaintStatus)
    → transition_complaint c ≡ ok r
    → ComplaintEdge c.current c.target
      × IsDocumented c
      × (r ≡ moved "COMPLAINT" c.current c.target c.occurred_at)
unfolding transition_complaint
transition_complaint_sound c r h =
    let (p₁, h₁) = or_refuse-eq-ok (assignee_refusal c) _ h in
    let (p₂, h₂) = or_refuse-eq-ok (resolution_refusal c) _ h₁ in
    let (p₃, h₃) = or_refuse-eq-ok (cancellation_refusal c) _ h₂ in
    let (p₄, h₄) = or_refuse-eq-ok (reopening_refusal c) _ h₃ in
    let (edge, m) = apply_transition-ok (complaint_input c) r h₄ in
    (edge_of_table c.current c.target edge, refusals→IsDocumented c p₁ p₂ p₃ p₄, m)

reopening_passes : (c : ComplaintTransitionCommand) → IsDocumented c → reopening_refusal c ≡ none
unfolding reopening_refusal
reopening_passes c d = elim (Bool-cases (is_complaint c.target ComplaintStatus.reopened)) [
  | inl it ↦
      let t = same→eq ComplaintStatus-discrete _ _ it in
      rw (
        it,
        d.reopen_reason t,
        is_blank-date c.resolved_at _ (d.timely t).resolved_at,
        timely→within c (d.timely t),
      )
  | inr not_it ↦ rw not_it
]

edge_passes :
    {s t : ComplaintStatus} (c : ComplaintTransitionCommand)
    → ComplaintEdge s t
    → c.current ≡ s
    → c.target ≡ t
    → IsDocumented c
    → transition_complaint c ≡ ok (moved "COMPLAINT" c.current c.target c.occurred_at)
unfolding transition_complaint
edge_passes c ComplaintEdge.assign p q d = ground (arith, reopening_passes c d)
edge_passes c _ p q d = ground (arith, reopening_passes c d)

-- A complaint moves exactly along an edge of the diagram, with what the target asks for: an assignee,
-- a resolution note, a reason, and for a reopening also a resolution time which is no later than the
-- command and no more than the window's days before it (seven, if none is given).
pub transition_complaint-ok_iff :
    (c : ComplaintTransitionCommand) (r : StateTransition ComplaintStatus)
    → (transition_complaint c ≡ ok r) ↔ (
        ComplaintEdge c.current c.target
        × IsDocumented c
        × (r ≡ moved "COMPLAINT" c.current c.target c.occurred_at))
transition_complaint-ok_iff c r =
    (transition_complaint_sound c r, λ (e, d, m). rw m (edge_passes c e refl refl d))
