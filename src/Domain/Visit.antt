-- ===== src/Domain/Visit.antt =====
-- packages/domain/src/visitor.ts: the life of a visit.
pub mod Laws
pub mod Lives
use manglam_balaji_managemen.Domain.StateMachine.{
  TransitionTable, apply_transition, has_required_text,
}
use manglam_balaji_managemen.Js.Date.{date_parse, elapsed_at_least}
use manglam_balaji_managemen.Js.Number.{Number, nan, infinite, integer, negative}
use manglam_balaji_managemen.Js.Text.{is_blank}
use manglam_balaji_managemen.Types.Enums.Visits.{
  VisitStatus, VisitStatus-discrete, visit_status_text, visit_status_enum,
}
use manglam_balaji_managemen.Types.Errors.{
  ApiErrorCode, DomainError, text, domain_error, Result, or_refuse, StateTransition,
}
use manglam_balaji_managemen.Prelude.{
  Bool, false, not, ◌&&◌, ◌||◌, [], ◌∷◌, Option, none, some, String, ◌*◌, ◌==◌, same, if◌then◌else◌,
}

unfoldable pub visit_transitions : TransitionTable VisitStatus
visit_transitions VisitStatus.draft =
    VisitStatus.expected ∷ VisitStatus.arrived_at_gate ∷ VisitStatus.cancelled ∷ []
visit_transitions VisitStatus.expected =
    VisitStatus.arrived_at_gate ∷ VisitStatus.cancelled ∷ VisitStatus.expired ∷ []
visit_transitions VisitStatus.arrived_at_gate =
    VisitStatus.awaiting_approval ∷ VisitStatus.approved ∷ VisitStatus.cancelled ∷ []
visit_transitions VisitStatus.awaiting_approval =
    VisitStatus.approved ∷ VisitStatus.rejected ∷ VisitStatus.approval_timed_out
    ∷ VisitStatus.cancelled ∷ []
visit_transitions VisitStatus.approved =
    VisitStatus.checked_in ∷ VisitStatus.cancelled ∷ VisitStatus.expired ∷ []
visit_transitions VisitStatus.rejected = VisitStatus.approved ∷ []
visit_transitions VisitStatus.approval_timed_out = VisitStatus.approved ∷ []
visit_transitions VisitStatus.checked_in = VisitStatus.checked_out ∷ []
visit_transitions VisitStatus.checked_out = []
visit_transitions VisitStatus.cancelled = []
visit_transitions VisitStatus.expired = []

pub data VisitTransitionMode : Type 0 where
  standard pre_approval resident_decision override system : VisitTransitionMode

unfoldable pub VisitTransitionMode-discrete : Discrete VisitTransitionMode
VisitTransitionMode-discrete = hlevel

-- `preApprovalValid?: boolean` and the like are tested by `=== true`, so absent is false.
pub record VisitTransitionCommand : Type 0 where
  pub current : VisitStatus
  pub target : VisitStatus
  pub mode : VisitTransitionMode
  pub actor_id : String
  pub gate_id : Option String
  pub guard_id : Option String
  pub reason : Option String
  pub has_override_permission : Bool
  pub recent_authentication : Bool
  pub pre_approval_valid : Bool
  pub occurred_at : String

abbrev invalid_visit : String → VisitTransitionCommand → DomainError
invalid_visit message command = domain_error ApiErrorCode.visit_invalid_transition message (
    ("current", text (visit_status_text command.current))
    ∷ ("target", text (visit_status_text command.target))
    ∷ [])

abbrev pub is_status : VisitStatus → VisitStatus → Bool
is_status = same VisitStatus-discrete

abbrev pub is_mode : VisitTransitionMode → VisitTransitionMode → Bool
is_mode = same VisitTransitionMode-discrete

-- The first test: a visit that is already in or out.
already_done : VisitTransitionCommand → Option DomainError
already_done c =
    if is_status c.current c.target
    then (if is_status c.target VisitStatus.checked_in
        then some (
            domain_error ApiErrorCode.visit_already_checked_in
              "This visit has already been checked in." [])
        else (if is_status c.target VisitStatus.checked_out
            then some (
                domain_error ApiErrorCode.visit_already_checked_out
                  "This visit has already been checked out." [])
            else none))
    else none

override_refusal : VisitTransitionCommand → Option DomainError
override_refusal c =
    if not (is_mode c.mode override) || not c.has_override_permission
    then some (
        domain_error ApiErrorCode.visit_override_not_allowed
          "This visit requires an authorised supervisor override."
          (("current", text (visit_status_text c.current)) ∷ []))
    else (if not c.recent_authentication
        then some (
            domain_error ApiErrorCode.visit_override_not_allowed
              "A recent authentication is required for an override." [])
        else (if not (has_required_text c.reason)
            then some (
                domain_error ApiErrorCode.visit_override_reason_required
                  "A meaningful override reason is required." [])
            else none))

-- The second test: who may approve, by the state that the visit is in.
approval_refusal : VisitTransitionCommand → Option DomainError
unfolding override_refusal
approval_refusal c =
    if is_status c.target VisitStatus.approved
    then (if is_status c.current VisitStatus.arrived_at_gate
        then (if not (is_mode c.mode pre_approval) || not c.pre_approval_valid
            then some (invalid_visit "Gate approval requires a valid pre-approval." c)
            else none)
        else (if is_status c.current VisitStatus.awaiting_approval
            then (if not (is_mode c.mode resident_decision)
                then some
                    (invalid_visit "An awaiting visit requires an authorised resident decision." c)
                else none)
            else (if is_status c.current VisitStatus.rejected
                  || is_status c.current VisitStatus.approval_timed_out
                then override_refusal c
                else none)))
    else none

rejection_refusal : VisitTransitionCommand → Option DomainError
rejection_refusal c =
    if is_status c.current VisitStatus.awaiting_approval
      && is_status c.target VisitStatus.rejected
      && not (is_mode c.mode resident_decision)
    then some (invalid_visit "Only an authorised resident decision may reject this visit." c)
    else none

timeout_refusal : VisitTransitionCommand → Option DomainError
timeout_refusal c =
    if is_status c.target VisitStatus.approval_timed_out && not (is_mode c.mode system)
    then some (invalid_visit "Only the configured timeout process may time out an approval." c)
    else none

entry_refusal : VisitTransitionCommand → Option DomainError
entry_refusal c =
    if (is_status c.target VisitStatus.checked_in || is_status c.target VisitStatus.checked_out)
      && (is_blank c.gate_id || is_blank c.guard_id)
    then some (invalid_visit "Gate and guard identity are required for entry events." c)
    else none

-- The table's answer, once no test has refused.
visit_step : VisitTransitionCommand → Result (StateTransition VisitStatus)
unfolding apply_transition visit_transitions
visit_step c = apply_transition (record {
  table = visit_transitions;
  current = c.current;
  target = c.target;
  occurred_at = c.occurred_at;
  event_prefix = "VISIT";
  error_code = ApiErrorCode.visit_invalid_transition;
  aggregate_label = "visit";
})

unfoldable pub transition_visit : VisitTransitionCommand → Result (StateTransition VisitStatus)
unfolding already_done approval_refusal rejection_refusal timeout_refusal entry_refusal visit_step
transition_visit c = or_refuse (already_done c) (
    or_refuse (approval_refusal c) (
      or_refuse (rejection_refusal c)
        (or_refuse (timeout_refusal c) (or_refuse (entry_refusal c) (visit_step c)))))

-- `isLongVisit`
unfoldable pub is_long_visit : String → String → Number → Bool
is_long_visit checked_in_at now nan = false
is_long_visit checked_in_at now infinite = false
is_long_visit checked_in_at now (negative _) = false
is_long_visit checked_in_at now (integer threshold_minutes) =
    if threshold_minutes == 0
    then false
    else elapsed_at_least (threshold_minutes * 60000) (date_parse checked_in_at) (date_parse now)
