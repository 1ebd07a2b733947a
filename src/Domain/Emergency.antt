-- ===== src/Domain/Emergency.antt =====
-- packages/domain/src/emergency.ts: the life of an emergency.
pub mod Laws
use manglam_balaji_managemen.Domain.StateMachine.{
  Transition, TransitionTable, apply_transition, has_required_text,
}
use manglam_balaji_managemen.Js.Text.{is_blank}
use manglam_balaji_managemen.Types.Enums.Records.{
  EmergencyStatus, EmergencyStatus-discrete, emergency_status_enum,
}
use manglam_balaji_managemen.Types.Errors.{
  ApiErrorCode, DomainError, domain_error, Result, or_refuse, refuse_if, StateTransition,
}
use manglam_balaji_managemen.Prelude.{Bool, not, ◌&&◌, [], ◌∷◌, Option, some, String, same}

unfoldable pub emergency_transitions : TransitionTable EmergencyStatus
emergency_transitions EmergencyStatus.active =
    EmergencyStatus.acknowledged ∷ EmergencyStatus.false_alarm ∷ []
emergency_transitions EmergencyStatus.acknowledged =
    EmergencyStatus.responding ∷ EmergencyStatus.resolved ∷ EmergencyStatus.false_alarm ∷ []
emergency_transitions EmergencyStatus.responding =
    EmergencyStatus.resolved ∷ EmergencyStatus.false_alarm ∷ []
emergency_transitions EmergencyStatus.resolved = []
emergency_transitions EmergencyStatus.false_alarm = []

pub record EmergencyTransitionCommand : Type 0 where
  pub current : EmergencyStatus
  pub target : EmergencyStatus
  pub actor_id : String
  pub reason : Option String
  pub response_note : Option String
  pub occurred_at : String

abbrev pub is_emergency : EmergencyStatus → EmergencyStatus → Bool
is_emergency = same EmergencyStatus-discrete

abbrev invalid_emergency : String → DomainError
invalid_emergency message = domain_error ApiErrorCode.emergency_invalid_transition message []

actor_refusal : EmergencyTransitionCommand → Option DomainError
actor_refusal c =
    refuse_if (is_blank (some c.actor_id)) (invalid_emergency "An acting responder is required.")

note_refusal : EmergencyTransitionCommand → Option DomainError
note_refusal c =
    refuse_if
      (is_emergency c.target EmergencyStatus.resolved && not (has_required_text c.response_note))
      (invalid_emergency "Resolution details are required.")

reason_refusal : EmergencyTransitionCommand → Option DomainError
reason_refusal c =
    refuse_if
      (is_emergency c.target EmergencyStatus.false_alarm && not (has_required_text c.reason))
      (invalid_emergency "A false-alarm reason is required.")

-- The argument of `applyTransition`.
abbrev pub emergency_input : EmergencyTransitionCommand → Transition EmergencyStatus
emergency_input c = record {
  table = emergency_transitions;
  current = c.current;
  target = c.target;
  occurred_at = c.occurred_at;
  event_prefix = "EMERGENCY";
  error_code = ApiErrorCode.emergency_invalid_transition;
  aggregate_label = "emergency";
}

unfoldable pub transition_emergency :
    EmergencyTransitionCommand → Result (StateTransition EmergencyStatus)
unfolding apply_transition emergency_transitions actor_refusal note_refusal reason_refusal
transition_emergency c = or_refuse (actor_refusal c) (
    or_refuse (note_refusal c)
      (or_refuse (reason_refusal c) (apply_transition (emergency_input c))))
