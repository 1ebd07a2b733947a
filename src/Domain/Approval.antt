-- ===== src/Domain/Approval.antt =====
-- packages/domain/src/visitor.ts: the decision on a visit, and pre-approvals.
pub mod Laws
use manglam_balaji_managemen.Domain.StateMachine.{
  Transition, Transition, TransitionTable, apply_transition, has_required_text,
}
use manglam_balaji_managemen.Js.Text.{is_blank}
use manglam_balaji_managemen.Types.Enums.Visits.{
  VisitApprovalStatus, VisitApprovalStatus-discrete, visit_approval_status_text,
  visit_approval_status_enum, ApprovalSource, ApprovalSource-discrete, PreApprovalStatus,
  pre_approval_status_enum,
}
use manglam_balaji_managemen.Types.Errors.{
  ApiErrorCode, DomainError, text, domain_error, Result, or_refuse, StateTransition,
}
use manglam_balaji_managemen.Prelude.{
  Bool, not, ◌&&◌, ◌||◌, [], ◌∷◌, Option, none, some, String, same, if◌then◌else◌,
}

unfoldable pub visit_approval_transitions : TransitionTable VisitApprovalStatus
visit_approval_transitions VisitApprovalStatus.pending =
    VisitApprovalStatus.approved ∷ VisitApprovalStatus.rejected ∷ VisitApprovalStatus.timed_out
    ∷ VisitApprovalStatus.cancelled ∷ VisitApprovalStatus.overridden ∷ []
visit_approval_transitions VisitApprovalStatus.approved = []
visit_approval_transitions VisitApprovalStatus.rejected = []
visit_approval_transitions VisitApprovalStatus.timed_out = []
visit_approval_transitions VisitApprovalStatus.cancelled = []
visit_approval_transitions VisitApprovalStatus.overridden = []

-- The type excludes `PENDING` as a target; the theorems do not need that.
pub record ApprovalDecisionCommand : Type 0 where
  pub current : VisitApprovalStatus
  pub target : VisitApprovalStatus
  pub source : ApprovalSource
  -- null is `none`
  pub actor_id : Option String
  pub reason : Option String
  pub occurred_at : String

abbrev pub is_decision : VisitApprovalStatus → VisitApprovalStatus → Bool
is_decision = same VisitApprovalStatus-discrete

decided_refusal : ApprovalDecisionCommand → Option DomainError
decided_refusal c =
    if not (is_decision c.current VisitApprovalStatus.pending)
    then some (
        domain_error ApiErrorCode.approval_already_decided
          "The first terminal approval decision has already won."
          (("current", text (visit_approval_status_text c.current))
            ∷ ("attempted", text (visit_approval_status_text c.target))
            ∷ []))
    else none

override_refusal : ApprovalDecisionCommand → Option DomainError
override_refusal c =
    if is_decision c.target VisitApprovalStatus.overridden
      && (not (same ApprovalSource-discrete c.source ApprovalSource.guard_override)
          || is_blank c.actor_id
          || not (has_required_text c.reason))
    then some (
        domain_error ApiErrorCode.visit_override_reason_required
          "An override requires an actor and reason." [])
    else none

-- The argument of `applyTransition`.
abbrev pub visit_approval_input : ApprovalDecisionCommand → Transition VisitApprovalStatus
visit_approval_input c = record {
  table = visit_approval_transitions;
  current = c.current;
  target = c.target;
  occurred_at = c.occurred_at;
  event_prefix = "VISIT_APPROVAL";
  error_code = ApiErrorCode.approval_already_decided;
  aggregate_label = "visit approval";
}

unfoldable pub decide_visit_approval :
    ApprovalDecisionCommand → Result (StateTransition VisitApprovalStatus)
unfolding apply_transition visit_approval_transitions decided_refusal override_refusal
decide_visit_approval c =
    or_refuse (decided_refusal c)
      (or_refuse (override_refusal c) (apply_transition (visit_approval_input c)))

unfoldable pub pre_approval_transitions : TransitionTable PreApprovalStatus
pre_approval_transitions PreApprovalStatus.active =
    PreApprovalStatus.consumed ∷ PreApprovalStatus.cancelled ∷ PreApprovalStatus.expired
    ∷ PreApprovalStatus.suspended ∷ []
pre_approval_transitions PreApprovalStatus.consumed = []
pre_approval_transitions PreApprovalStatus.cancelled = []
pre_approval_transitions PreApprovalStatus.expired = []
pre_approval_transitions PreApprovalStatus.suspended =
    PreApprovalStatus.active ∷ PreApprovalStatus.cancelled ∷ PreApprovalStatus.expired ∷ []

-- The argument of `transitionPreApproval`.
pub record PreApprovalCommand : Type 0 where
  pub current : PreApprovalStatus
  pub target : PreApprovalStatus
  pub occurred_at : String

-- The argument of `applyTransition`.
abbrev pub pre_approval_input : PreApprovalCommand → Transition PreApprovalStatus
pre_approval_input c = record {
  table = pre_approval_transitions;
  current = c.current;
  target = c.target;
  occurred_at = c.occurred_at;
  event_prefix = "PRE_APPROVAL";
  error_code = ApiErrorCode.visit_invalid_transition;
  aggregate_label = "pre-approval";
}

unfoldable pub transition_pre_approval :
    PreApprovalCommand → Result (StateTransition PreApprovalStatus)
unfolding apply_transition pre_approval_transitions
transition_pre_approval c = apply_transition (pre_approval_input c)
