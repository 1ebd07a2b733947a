-- ===== src/Domain/Membership.antt =====
-- packages/domain/src/membership.ts: a resident's membership of a flat.
pub mod Laws
use manglam_balaji_managemen.Domain.StateMachine.{
  Transition, TransitionTable, apply_transition, has_required_text,
}
use manglam_balaji_managemen.Js.Date.{date_parse}
use manglam_balaji_managemen.Js.Text.{is_blank}
use manglam_balaji_managemen.Types.Enums.Visits.{
  MembershipStatus, MembershipStatus-discrete, membership_status_enum,
}
use manglam_balaji_managemen.Types.Errors.{
  ApiErrorCode, DomainError, domain_error, Result, or_refuse, refuse_if, StateTransition,
}
use manglam_balaji_managemen.Prelude.{
  ℕ, Bool, true, false, not, ◌&&◌, ◌||◌, [], ◌∷◌, Option, none, some, String, same, leb, ltb,
  if◌then◌else◌,
}

unfoldable pub membership_transitions : TransitionTable MembershipStatus
membership_transitions MembershipStatus.pending =
    MembershipStatus.approved ∷ MembershipStatus.rejected ∷ []
membership_transitions MembershipStatus.approved =
    MembershipStatus.suspended ∷ MembershipStatus.ended ∷ []
membership_transitions MembershipStatus.rejected = []
membership_transitions MembershipStatus.suspended =
    MembershipStatus.approved ∷ MembershipStatus.ended ∷ []
membership_transitions MembershipStatus.ended = []

pub record MembershipTransitionCommand : Type 0 where
  pub current : MembershipStatus
  pub target : MembershipStatus
  pub actor_id : String
  pub reason : Option String
  pub occupancy_ends_at : Option String
  pub occurred_at : String

abbrev pub is_membership : MembershipStatus → MembershipStatus → Bool
is_membership = same MembershipStatus-discrete

abbrev invalid_membership : String → DomainError
invalid_membership message = domain_error ApiErrorCode.membership_invalid_transition message []

actor_refusal : MembershipTransitionCommand → Option DomainError
actor_refusal c =
    refuse_if (is_blank (some c.actor_id))
      (invalid_membership "An acting administrator is required.")

reason_refusal : MembershipTransitionCommand → Option DomainError
reason_refusal c =
    refuse_if
      ((is_membership c.target MembershipStatus.rejected
          || is_membership c.target MembershipStatus.suspended
          || is_membership c.target MembershipStatus.ended)
        && not (has_required_text c.reason))
      (invalid_membership "A membership status reason is required.")

-- `command.occupancyEndsAt ? Date.parse(command.occupancyEndsAt) : Number.NaN`
abbrev pub parse_if_given : Option String → Option ℕ
parse_if_given none = none
parse_if_given (some s) = if is_blank (some s) then none else date_parse s

-- `endsAt` and `occurredAt` are numbers and `endsAt` is not later.
abbrev pub has_passed : Option ℕ → Option ℕ → Bool
has_passed (some ends_at) (some occurred_at) = leb ends_at occurred_at
has_passed _ _ = false

end_refusal : MembershipTransitionCommand → Option DomainError
end_refusal c =
    refuse_if
      (is_membership c.target MembershipStatus.ended
        && not (has_passed (parse_if_given c.occupancy_ends_at) (date_parse c.occurred_at)))
      (invalid_membership "Membership end time must be recorded and effective.")

-- The argument of `applyTransition`.
abbrev pub membership_input : MembershipTransitionCommand → Transition MembershipStatus
membership_input c = record {
  table = membership_transitions;
  current = c.current;
  target = c.target;
  occurred_at = c.occurred_at;
  event_prefix = "MEMBERSHIP";
  error_code = ApiErrorCode.membership_invalid_transition;
  aggregate_label = "membership";
}

unfoldable pub transition_membership :
    MembershipTransitionCommand → Result (StateTransition MembershipStatus)
unfolding apply_transition membership_transitions actor_refusal reason_refusal end_refusal
transition_membership c = or_refuse (actor_refusal c) (
    or_refuse (reason_refusal c)
      (or_refuse (end_refusal c) (apply_transition (membership_input c))))

-- The argument of `isMembershipEffective`; a null `endsAt` is `none`.
pub record Effectiveness : Type 0 where
  pub status : MembershipStatus
  pub starts_at : String
  pub ends_at : Option String
  pub at : String

-- `at < endsAt`, where no end is infinity and NaN compares to nothing.
abbrev is_before_end : ℕ → Option String → Bool
is_before_end at none = true
is_before_end at (some s) = elim (date_parse s) [ some ends_at ↦ ltb at ends_at | none ↦ false ]

abbrev spans : Option ℕ → Option ℕ → Option String → Bool
spans (some at) (some starts_at) ends_at = leb starts_at at && is_before_end at ends_at
spans _ _ _ = false

unfoldable pub is_membership_effective : Effectiveness → Bool
is_membership_effective input =
    if not (is_membership input.status MembershipStatus.approved)
    then false
    else spans (date_parse input.at) (date_parse input.starts_at) input.ends_at
