-- ===== src/Domain/Complaint.antt =====
-- packages/domain/src/complaint.ts: the life of a complaint.
pub mod Laws
use manglam_balaji_managemen.Domain.StateMachine.{
  Transition, TransitionTable, apply_transition, has_required_text,
}
use manglam_balaji_managemen.Js.Date.{date_parse}
use manglam_balaji_managemen.Js.Number.{Number, nan, infinite, integer, negative}
use manglam_balaji_managemen.Js.Text.{is_blank}
use manglam_balaji_managemen.Types.Enums.Records.{
  ComplaintStatus, ComplaintStatus-discrete, complaint_status_enum,
}
use manglam_balaji_managemen.Types.Errors.{
  ApiErrorCode, DomainError, number, domain_error, Result, or_refuse, StateTransition,
}
use manglam_balaji_managemen.Prelude.{
  ℕ, ◌+◌, ◌*◌, Bool, true, false, not, ◌&&◌, ◌||◌, [], ◌∷◌, Option, none, some, String, ◌==◌, leb,
  same, if◌then◌else◌,
}

unfoldable pub complaint_transitions : TransitionTable ComplaintStatus
complaint_transitions ComplaintStatus.opened =
    ComplaintStatus.assigned ∷ ComplaintStatus.cancelled ∷ []
complaint_transitions ComplaintStatus.assigned =
    ComplaintStatus.in_progress ∷ ComplaintStatus.resolved ∷ ComplaintStatus.cancelled ∷ []
complaint_transitions ComplaintStatus.in_progress =
    ComplaintStatus.resolved ∷ ComplaintStatus.cancelled ∷ []
complaint_transitions ComplaintStatus.resolved =
    ComplaintStatus.closed ∷ ComplaintStatus.reopened ∷ []
complaint_transitions ComplaintStatus.closed = []
complaint_transitions ComplaintStatus.reopened =
    ComplaintStatus.assigned ∷ ComplaintStatus.in_progress ∷ ComplaintStatus.resolved
    ∷ ComplaintStatus.cancelled ∷ []
complaint_transitions ComplaintStatus.cancelled = []

pub record ComplaintTransitionCommand : Type 0 where
  pub current : ComplaintStatus
  pub target : ComplaintStatus
  pub actor_id : String
  pub assignee_id : Option String
  pub reason : Option String
  pub resolution_note : Option String
  pub resolved_at : Option String
  pub occurred_at : String
  pub reopen_window_days : Option Number

abbrev pub is_complaint : ComplaintStatus → ComplaintStatus → Bool
is_complaint = same ComplaintStatus-discrete

invalid_complaint : String → DomainError
invalid_complaint message = domain_error ApiErrorCode.complaint_invalid_transition message []

-- `command.reopenWindowDays ?? 7`
abbrev pub window_days : Option Number → Number
window_days none = integer 7
window_days (some n) = n

-- `Date.parse(command.resolvedAt)`, met only where the text is there.
abbrev pub parse_option : Option String → Option ℕ
parse_option none = none
parse_option (some s) = date_parse s

-- `elapsed` is a number, not negative, and at most the window.
unfoldable pub is_within : Number → Option ℕ → Option ℕ → Bool
is_within (integer days) (some resolved) (some occurred) =
    not (days == 0) && leb resolved occurred && leb occurred (resolved + days * 86400000)
is_within _ _ _ = false

assignee_refusal : ComplaintTransitionCommand → Option DomainError
unfolding invalid_complaint
assignee_refusal c =
    if is_complaint c.target ComplaintStatus.assigned && is_blank c.assignee_id
    then some (invalid_complaint "An assignee is required.")
    else none

resolution_refusal : ComplaintTransitionCommand → Option DomainError
unfolding invalid_complaint
resolution_refusal c =
    if is_complaint c.target ComplaintStatus.resolved && not (has_required_text c.resolution_note)
    then some (invalid_complaint "A resolution note is required.")
    else none

cancellation_refusal : ComplaintTransitionCommand → Option DomainError
unfolding invalid_complaint
cancellation_refusal c =
    if is_complaint c.target ComplaintStatus.cancelled && not (has_required_text c.reason)
    then some (invalid_complaint "A cancellation reason is required.")
    else none

reopening_refusal : ComplaintTransitionCommand → Option DomainError
unfolding invalid_complaint is_within
reopening_refusal c =
    if not (is_complaint c.target ComplaintStatus.reopened)
    then none
    else (if not (has_required_text c.reason) || is_blank c.resolved_at
        then some (invalid_complaint "Reopening requires a reason and resolution time.")
        else (if not (
              is_within (window_days c.reopen_window_days) (parse_option c.resolved_at)
                (date_parse c.occurred_at))
            then some (
                domain_error ApiErrorCode.complaint_reopen_window_expired
                  "The complaint reopening window has expired."
                  (("reopenWindowDays", number (window_days c.reopen_window_days)) ∷ []))
            else none))

-- The argument of `applyTransition`.
abbrev pub complaint_input : ComplaintTransitionCommand → Transition ComplaintStatus
complaint_input c = record {
  table = complaint_transitions;
  current = c.current;
  target = c.target;
  occurred_at = c.occurred_at;
  event_prefix = "COMPLAINT";
  error_code = ApiErrorCode.complaint_invalid_transition;
  aggregate_label = "complaint";
}

unfoldable pub transition_complaint :
    ComplaintTransitionCommand → Result (StateTransition ComplaintStatus)
unfolding apply_transition complaint_transitions assignee_refusal resolution_refusal
    cancellation_refusal reopening_refusal
transition_complaint c = or_refuse (assignee_refusal c) (
    or_refuse (resolution_refusal c) (
      or_refuse (cancellation_refusal c)
        (or_refuse (reopening_refusal c) (apply_transition (complaint_input c)))))
