-- ===== src/Examples/Visits.antt =====
-- packages/domain/src/visitor.ts at concrete commands.
use mathlib.Core.List.{Memᴰ}
use manglam_balaji_managemen.Domain.StateMachine.{moved, has_required_text}
use manglam_balaji_managemen.Domain.StateMachine.Lives.{live}
use manglam_balaji_managemen.Domain.Approval.{
  ApprovalDecisionCommand, decide_visit_approval, PreApprovalCommand, transition_pre_approval,
}
use manglam_balaji_managemen.Domain.Approval.Laws.{
  decide_visit_approval-ok_iff, first_decision_wins, pre_approval_used_once, IsGuardOverride,
  decide_from, pre_approve_from, uses, is_live,
}
use manglam_balaji_managemen.Domain.Visit.{
  VisitTransitionMode, VisitTransitionMode-discrete, VisitTransitionCommand, transition_visit,
}
use manglam_balaji_managemen.Domain.Visit.Laws.{
  VisitEdge, IsAuthorised, IsOverride, visit_moved, transition_visit-ok_iff,
}
use manglam_balaji_managemen.Domain.Visit.Lives.{
  visit_from, visit_life_bounded, visit_enters_once, has_entered, check_ins, visit_entry_IsVouched,
  IsVouched, refused_visit_overruled,
}
use manglam_balaji_managemen.Types.Enums.Visits.{
  VisitStatus, VisitStatus-discrete, VisitApprovalStatus, VisitApprovalStatus-discrete,
  visit_approval_status_enum, ApprovalSource, ApprovalSource-discrete, PreApprovalStatus,
  PreApprovalStatus-discrete,
}
use manglam_balaji_managemen.Types.Errors.{
  ApiErrorCode, domain_error, text, ok, err, StateTransition,
}
use manglam_balaji_managemen.Prelude.{
  ◌+◌, ◌≤◌, ◌≡◌, ◌≢◌, inl, refl, true, false, List, [], ◌∷◌, some, length,
}

-- A visitor waits at the gate, the resident refuses, a supervisor overrules, the visitor comes and goes.
abbrev visit_command : VisitStatus → VisitStatus → VisitTransitionMode → VisitTransitionCommand
visit_command current target mode = record {
  current = current;
  target = target;
  mode = mode;
  actor_id = "guard-1";
  gate_id = some "gate-1";
  guard_id = some "guard-1";
  reason = some "known family doctor";
  has_override_permission = true;
  recent_authentication = true;
  pre_approval_valid = false;
  occurred_at = "2026-07-01T10:00:00.000Z";
}

abbrev overrule : VisitTransitionCommand
overrule = visit_command VisitStatus.rejected VisitStatus.approved VisitTransitionMode.override

abbrev afterwards : List VisitTransitionCommand
afterwards =
    visit_command VisitStatus.approved VisitStatus.checked_in VisitTransitionMode.standard
    ∷ visit_command VisitStatus.checked_in VisitStatus.checked_out VisitTransitionMode.standard
    ∷ []

abbrev visit : List VisitTransitionCommand
visit =
    visit_command VisitStatus.arrived_at_gate VisitStatus.awaiting_approval
      VisitTransitionMode.standard
    ∷ visit_command VisitStatus.awaiting_approval VisitStatus.rejected
        VisitTransitionMode.resident_decision
    ∷ overrule
    ∷ afterwards

-- A run of the whole visit.
visit_runs : live visit_from VisitStatus.arrived_at_gate visit ≡ ok VisitStatus.checked_out
unfolding transition_visit VisitStatus-discrete VisitTransitionMode-discrete has_required_text
visit_runs = refl

-- Without the permission the override is refused.
no_override :
    transition_visit (record overrule { has_override_permission = false })
    ≡ err (
        domain_error ApiErrorCode.visit_override_not_allowed
          "This visit requires an authorised supervisor override."
          (("current", text "REJECTED") ∷ []))
unfolding transition_visit VisitStatus-discrete VisitTransitionMode-discrete has_required_text
no_override = refl

transition_visit-ok_iff_example :
    VisitEdge overrule.current overrule.target
    × IsAuthorised overrule
    × (visit_moved overrule ≡ visit_moved overrule)
unfolding transition_visit VisitStatus-discrete VisitTransitionMode-discrete has_required_text
transition_visit-ok_iff_example = (transition_visit-ok_iff overrule (visit_moved overrule)).0 refl

visit_life_bounded_example : length visit ≤ 7
visit_life_bounded_example =
    visit_life_bounded VisitStatus.arrived_at_gate VisitStatus.checked_out visit visit_runs

visit_enters_once_example : has_entered VisitStatus.arrived_at_gate + check_ins visit ≤ 1
visit_enters_once_example =
    visit_enters_once VisitStatus.arrived_at_gate VisitStatus.checked_out visit visit_runs

visit_entry_IsVouched_example : (c : VisitTransitionCommand) × Memᴰ c visit × IsVouched c
visit_entry_IsVouched_example =
    visit_entry_IsVouched VisitStatus.arrived_at_gate VisitStatus.checked_out visit visit_runs refl
      refl

overruled :
    live visit_from VisitStatus.rejected (overrule ∷ afterwards) ≡ ok VisitStatus.checked_out
unfolding transition_visit VisitStatus-discrete VisitTransitionMode-discrete has_required_text
overruled = refl

refused_visit_overruled_example : IsOverride overrule × (overrule.target ≡ VisitStatus.approved)
refused_visit_overruled_example =
    refused_visit_overruled VisitStatus.rejected VisitStatus.checked_out overrule afterwards
      overruled (inl refl)

-- The guard overrides an approval that is pending.
abbrev guard_decision : ApprovalDecisionCommand
guard_decision = record {
  current = VisitApprovalStatus.pending;
  target = VisitApprovalStatus.overridden;
  source = ApprovalSource.guard_override;
  actor_id = some "guard-1";
  reason = some "resident confirmed by phone";
  occurred_at = "2026-07-01T10:00:00.000Z";
}

-- The resident's decision comes after it.
abbrev resident_decision : ApprovalDecisionCommand
resident_decision = record guard_decision {
  target = VisitApprovalStatus.rejected;
  source = ApprovalSource.resident_app;
}

abbrev overridden : StateTransition VisitApprovalStatus
overridden =
    moved "VISIT_APPROVAL" guard_decision.current guard_decision.target guard_decision.occurred_at

guard_decides : decide_visit_approval guard_decision ≡ ok overridden
unfolding decide_visit_approval VisitApprovalStatus-discrete ApprovalSource-discrete
    has_required_text
guard_decides = refl

decide_visit_approval-ok_iff_example :
    (guard_decision.current ≡ VisitApprovalStatus.pending)
    × (guard_decision.target ≢ VisitApprovalStatus.pending)
    × (guard_decision.target ≡ VisitApprovalStatus.overridden → IsGuardOverride guard_decision)
    × (overridden ≡ overridden)
decide_visit_approval-ok_iff_example =
    (decide_visit_approval-ok_iff guard_decision overridden).0 guard_decides

first_decision_wins_example :
    decide_from VisitApprovalStatus.overridden resident_decision
    ≡ err (
        domain_error ApiErrorCode.approval_already_decided
          "The first terminal approval decision has already won."
          (("current", text "OVERRIDDEN") ∷ ("attempted", text "REJECTED") ∷ []))
first_decision_wins_example =
    first_decision_wins guard_decision resident_decision overridden guard_decides

-- A pre-approval is suspended, active again, and used.
abbrev pre_approval_command : PreApprovalStatus → PreApprovalCommand
pre_approval_command target = record {
  current = PreApprovalStatus.active;
  target = target;
  occurred_at = "2026-07-01T10:00:00.000Z";
}

abbrev pre_approval_life : List PreApprovalCommand
pre_approval_life =
    pre_approval_command PreApprovalStatus.suspended
    ∷ pre_approval_command PreApprovalStatus.active
    ∷ pre_approval_command PreApprovalStatus.consumed
    ∷ []

pre_approval_runs :
    live pre_approve_from PreApprovalStatus.active pre_approval_life ≡ ok PreApprovalStatus.consumed
unfolding transition_pre_approval PreApprovalStatus-discrete
pre_approval_runs = refl

pre_approval_used_once_example :
    (uses pre_approval_life ≤ 1)
    × (is_live PreApprovalStatus.active ≡ false → pre_approval_life ≡ [])
pre_approval_used_once_example =
    pre_approval_used_once PreApprovalStatus.active PreApprovalStatus.consumed pre_approval_life
      pre_approval_runs
