-- ===== src/Domain/Parcel.antt =====
-- packages/domain/src/parcel.ts: the life of a parcel at the gate.
pub mod Laws
use manglam_balaji_managemen.Domain.StateMachine.{
  Transition, TransitionTable, apply_transition, has_required_text,
}
use manglam_balaji_managemen.Types.Enums.Records.{
  ParcelStatus, ParcelStatus-discrete, parcel_status_enum,
}
use manglam_balaji_managemen.Types.Errors.{
  ApiErrorCode, DomainError, domain_error, Result, or_refuse, refuse_if, StateTransition,
}
use manglam_balaji_managemen.Prelude.{Bool, not, ◌&&◌, ◌||◌, [], ◌∷◌, Option, String, same}

unfoldable pub parcel_transitions : TransitionTable ParcelStatus
parcel_transitions ParcelStatus.expected = ParcelStatus.arrived ∷ ParcelStatus.cancelled ∷ []
parcel_transitions ParcelStatus.arrived =
    ParcelStatus.held_at_gate ∷ ParcelStatus.returned ∷ ParcelStatus.cancelled ∷ []
parcel_transitions ParcelStatus.held_at_gate = ParcelStatus.collected ∷ ParcelStatus.returned ∷ []
parcel_transitions ParcelStatus.collected = []
parcel_transitions ParcelStatus.returned = []
parcel_transitions ParcelStatus.cancelled = []

pub record ParcelTransitionCommand : Type 0 where
  pub current : ParcelStatus
  pub target : ParcelStatus
  pub actor_id : String
  pub collection_code_verified : Bool
  pub reason : Option String
  pub occurred_at : String

abbrev pub is_parcel : ParcelStatus → ParcelStatus → Bool
is_parcel = same ParcelStatus-discrete

collection_refusal : ParcelTransitionCommand → Option DomainError
collection_refusal c =
    refuse_if (is_parcel c.target ParcelStatus.collected && not c.collection_code_verified) (
      domain_error ApiErrorCode.parcel_collection_code_invalid
        "A valid one-time collection code is required." [])

reason_refusal : ParcelTransitionCommand → Option DomainError
reason_refusal c =
    refuse_if
      ((is_parcel c.target ParcelStatus.returned || is_parcel c.target ParcelStatus.cancelled)
        && not (has_required_text c.reason))
      (domain_error ApiErrorCode.parcel_invalid_transition
        "A reason is required for this parcel action." [])

-- The argument of `applyTransition`.
abbrev pub parcel_input : ParcelTransitionCommand → Transition ParcelStatus
parcel_input c = record {
  table = parcel_transitions;
  current = c.current;
  target = c.target;
  occurred_at = c.occurred_at;
  event_prefix = "PARCEL";
  error_code = ApiErrorCode.parcel_invalid_transition;
  aggregate_label = "parcel";
}

unfoldable pub transition_parcel : ParcelTransitionCommand → Result (StateTransition ParcelStatus)
unfolding apply_transition parcel_transitions collection_refusal reason_refusal
transition_parcel c =
    or_refuse (collection_refusal c)
      (or_refuse (reason_refusal c) (apply_transition (parcel_input c)))
