-- ===== src/Domain/Approval/Laws.antt =====
-- packages/domain/src/visitor.ts: the first decision on a visit wins, and a pre-approval is used once.
use manglam_balaji_managemen.Domain.Approval.{
  ApprovalDecisionCommand, decide_visit_approval, PreApprovalCommand, transition_pre_approval,
}
use manglam_balaji_managemen.Domain.StateMachine.{has_required_text, moved}
use manglam_balaji_managemen.Domain.StateMachine.Lives.{live, live-weight, total, Result-cases}
use manglam_balaji_managemen.Js.Text.{is_blank}
use manglam_balaji_managemen.Types.Enums.Visits.{
  VisitApprovalStatus, ApprovalSource, PreApprovalStatus, PreApprovalStatus-discrete,
  visit_approval_status_text, visit_approval_status_enum,
}
use manglam_balaji_managemen.Types.Errors.{
  Result, ok, err, domain_error, ApiErrorCode, text, StateTransition,
}
use manglam_balaji_managemen.Prelude.{
  ℕ, ◌+◌, ◌≤◌, ◌≡◌, ◌≢◌, ◌↔◌, Bool, true, false, List, [], ◌∷◌, arith, same, if◌then◌else◌, refl,
  inl, inr,
}

-- What an override has to show.
abbrev pub IsGuardOverride : ApprovalDecisionCommand → Type 0
IsGuardOverride c =
    (c.source ≡ ApprovalSource.guard_override)
    × (is_blank c.actor_id ≡ false)
    × (has_required_text c.reason ≡ true)

-- A decision is accepted exactly for an approval that is pending, with a decision as its target,
-- where an override comes from a guard's override with an actor and a reason; the result names the
-- decision. Neither a permission nor a recent authentication of the actor is asked for here, though
-- documentation/phase-1/DATA_MODEL.md and a check of the database ask for them.
pub decide_visit_approval-ok_iff :
    (c : ApprovalDecisionCommand) (r : StateTransition VisitApprovalStatus)
    → (decide_visit_approval c ≡ ok r) ↔ (
        (c.current ≡ VisitApprovalStatus.pending)
        × (c.target ≢ VisitApprovalStatus.pending)
        × (c.target ≡ VisitApprovalStatus.overridden → IsGuardOverride c)
        × (r ≡ moved "VISIT_APPROVAL" c.current c.target c.occurred_at))
unfolding decide_visit_approval
decide_visit_approval-ok_iff c r = ground arith

-- Decisions one after another on one approval, each met by the state that the last one left.
abbrev pub decide_from :
    VisitApprovalStatus → ApprovalDecisionCommand → Result (StateTransition VisitApprovalStatus)
decide_from s c = decide_visit_approval (record c { current = s })

-- The first decision wins: once one is accepted, any other is refused with the error
-- `APPROVAL_ALREADY_DECIDED`, which names the decision that stands and the one attempted.
pub first_decision_wins :
    (c d : ApprovalDecisionCommand) (r : StateTransition VisitApprovalStatus)
    → decide_visit_approval c ≡ ok r
    → decide_from r.current d
      ≡ err (
          domain_error ApiErrorCode.approval_already_decided
            "The first terminal approval decision has already won."
            (("current", text (visit_approval_status_text c.target))
              ∷ ("attempted", text (visit_approval_status_text d.target))
              ∷ []))
unfolding decide_visit_approval
first_decision_wins c d r h =
    let (_, decided, _, m) = (decide_visit_approval-ok_iff c r).0 h in rw m (ground arith)

-- The states of a pre-approval that it can be used in, at once or after a suspension is lifted.
abbrev pub is_live : PreApprovalStatus → Bool
is_live PreApprovalStatus.active = true
is_live PreApprovalStatus.suspended = true
is_live _ = false

abbrev pub pre_approve_from :
    PreApprovalStatus → PreApprovalCommand → Result (StateTransition PreApprovalStatus)
pre_approve_from s c = transition_pre_approval (record c { current = s })

transition_pre_approval-ok :
    (s : PreApprovalStatus) (c : PreApprovalCommand) (r : StateTransition PreApprovalStatus)
    → pre_approve_from s c ≡ ok r
    → (is_live s ≡ true)
      × (r.current ≡ c.target)
      × (c.target ≡ PreApprovalStatus.consumed → s ≡ PreApprovalStatus.active)
      × (s ≢ c.target)
unfolding transition_pre_approval
transition_pre_approval-ok s c r h = ground arith

abbrev is_use : PreApprovalCommand → ℕ
is_use c = if same PreApprovalStatus-discrete c.target PreApprovalStatus.consumed then 1 else 0

abbrev is_used : PreApprovalStatus → ℕ
is_used PreApprovalStatus.consumed = 1
is_used _ = 0

-- How often a pre-approval is consumed.
abbrev pub uses : List PreApprovalCommand → ℕ
uses = total is_use

use_pays :
    (s : PreApprovalStatus) (c : PreApprovalCommand) (r : StateTransition PreApprovalStatus)
    → pre_approve_from s c ≡ ok r
    → is_used s + is_use c ≤ is_used r.current
use_pays s c r h = ground (arith, transition_pre_approval-ok s c r h)

is_used-le : (s : PreApprovalStatus) → is_used s ≤ 1
is_used-le PreApprovalStatus.consumed = omega arith
is_used-le _ = omega arith

ended :
    (s t : PreApprovalStatus) (cs : List PreApprovalCommand)
    → live pre_approve_from s cs ≡ ok t
    → is_live s ≡ false
    → cs ≡ []
ended s t [] h dead = refl
ended s t (c ∷ cs) h dead = elim (Result-cases (pre_approve_from s c)) [
  | inl (r, e) ↦ cc (dead, (transition_pre_approval-ok s c r e).0)
  | inr (x, e) ↦ cc (rw (e, live) at h)
]

-- Whatever commands a pre-approval accepts, suspensions and their end included, it is consumed at
-- most once, and one that is consumed, cancelled or expired accepts none.
pub pre_approval_used_once :
    (s t : PreApprovalStatus) (cs : List PreApprovalCommand)
    → live pre_approve_from s cs ≡ ok t
    → (uses cs ≤ 1) × (is_live s ≡ false → cs ≡ [])
pre_approval_used_once s t cs h = (
  omega (arith, live-weight pre_approve_from is_used is_use use_pays s t cs h, is_used-le t),
  ended s t cs h,
)
