-- ===== src/Examples/Services.antt =====
-- packages/domain/src/complaint.ts, parcel.ts, emergency.ts, membership.ts and daily-help.ts at
-- concrete commands.
use mathlib.Core.List.{Memᴰ}
use manglam_balaji_managemen.Domain.StateMachine.{moved, has_required_text}
use manglam_balaji_managemen.Domain.StateMachine.Lives.{live}
use manglam_balaji_managemen.Domain.Complaint.{ComplaintTransitionCommand, transition_complaint}
use manglam_balaji_managemen.Domain.Complaint.Laws.{
  ComplaintEdge, IsDocumented, transition_complaint-ok_iff,
}
use manglam_balaji_managemen.Domain.DailyHelp.{DailyHelpCommand, AttendanceTransitionCommand}
use manglam_balaji_managemen.Domain.Emergency.{EmergencyTransitionCommand}
use manglam_balaji_managemen.Domain.Membership.{
  MembershipTransitionCommand, transition_membership, Effectiveness, is_membership_effective,
}
use manglam_balaji_managemen.Domain.Membership.Laws.{
  MembershipEdge, IsGrounded, transition_membership-ok_iff, Covers, is_membership_effective_iff,
}
use manglam_balaji_managemen.Domain.Parcel.{ParcelTransitionCommand, transition_parcel}
use manglam_balaji_managemen.Domain.Parcel.Laws.{parcel_from, parcel_collection_verified}
use manglam_balaji_managemen.Js.Date.{date_parse}
use manglam_balaji_managemen.Types.Enums.Records.{
  ComplaintStatus, ComplaintStatus-discrete, complaint_status_enum, ParcelStatus,
  ParcelStatus-discrete, parcel_status_enum, EmergencyStatus, emergency_status_enum,
  DailyHelpStatus, daily_help_status_enum, AttendanceStatus,
}
use manglam_balaji_managemen.Types.Enums.Visits.{
  MembershipStatus, MembershipStatus-discrete, membership_status_enum,
}
use manglam_balaji_managemen.Types.Errors.{ok}
use manglam_balaji_managemen.Prelude.{ℕ, ◌≡◌, refl, true, false, List, [], ◌∷◌, none, some}

-- A complaint is reopened two days after its resolution.
abbrev reopening : ComplaintTransitionCommand
reopening = record {
  current = ComplaintStatus.resolved;
  target = ComplaintStatus.reopened;
  actor_id = "user-1";
  assignee_id = none;
  reason = some "it leaks again";
  resolution_note = none;
  resolved_at = some "2026-07-01T10:00:00.000Z";
  occurred_at = "2026-07-03T10:00:00.000Z";
  reopen_window_days = none;
}

transition_complaint-ok_iff_example :
    ComplaintEdge reopening.current reopening.target
    × IsDocumented reopening
    × (moved "COMPLAINT" reopening.current reopening.target reopening.occurred_at
        ≡ moved "COMPLAINT" reopening.current reopening.target reopening.occurred_at)
unfolding transition_complaint ComplaintStatus-discrete has_required_text date_parse
transition_complaint-ok_iff_example =
    (transition_complaint-ok_iff reopening
        (moved "COMPLAINT" reopening.current reopening.target reopening.occurred_at)).0
      refl

-- A parcel is held at the gate and handed over for its code.
abbrev parcel_command : ParcelStatus → ParcelTransitionCommand
parcel_command target = record {
  current = ParcelStatus.held_at_gate;
  target = target;
  actor_id = "guard-1";
  collection_code_verified = true;
  reason = none;
  occurred_at = "2026-07-03T10:00:00.000Z";
}

abbrev collection : ParcelTransitionCommand
collection = parcel_command ParcelStatus.collected

abbrev parcel_life : List ParcelTransitionCommand
parcel_life =
    parcel_command ParcelStatus.arrived ∷ parcel_command ParcelStatus.held_at_gate ∷ collection ∷ []

parcel_runs : live parcel_from ParcelStatus.expected parcel_life ≡ ok ParcelStatus.collected
unfolding transition_parcel ParcelStatus-discrete has_required_text
parcel_runs = refl

parcel_collection_verified_example :
    (c : ParcelTransitionCommand) × Memᴰ c parcel_life
    × ((c.target ≡ ParcelStatus.collected) × (c.collection_code_verified ≡ true))
parcel_collection_verified_example =
    parcel_collection_verified ParcelStatus.expected ParcelStatus.collected parcel_life parcel_runs
      (λ e. cc) refl

-- An emergency is dealt with.
abbrev resolution : EmergencyTransitionCommand
resolution = record {
  current = EmergencyStatus.responding;
  target = EmergencyStatus.resolved;
  actor_id = "guard-1";
  reason = none;
  response_note = some "ambulance came";
  occurred_at = "2026-07-03T10:00:00.000Z";
}

-- A tenancy ends on its last day.
abbrev ending : MembershipTransitionCommand
ending = record {
  current = MembershipStatus.approved;
  target = MembershipStatus.ended;
  actor_id = "admin-1";
  reason = some "lease is over";
  occupancy_ends_at = some "2026-06-30T18:30:00.000Z";
  occurred_at = "2026-07-01T10:00:00.000Z";
}

transition_membership-ok_iff_example :
    MembershipEdge ending.current ending.target
    × IsGrounded ending
    × (moved "MEMBERSHIP" ending.current ending.target ending.occurred_at
        ≡ moved "MEMBERSHIP" ending.current ending.target ending.occurred_at)
unfolding transition_membership MembershipStatus-discrete has_required_text date_parse
transition_membership-ok_iff_example =
    (transition_membership-ok_iff ending
        (moved "MEMBERSHIP" ending.current ending.target ending.occurred_at)).0
      refl

abbrev tenancy : Effectiveness
tenancy = record {
  status = MembershipStatus.approved;
  starts_at = "2026-01-01T00:00:00.000Z";
  ends_at = some "2026-06-30T18:30:00.000Z";
  at = "2026-03-01T12:00:00.000+05:30";
}

is_membership_effective_iff_example :
    (tenancy.status ≡ MembershipStatus.approved)
    × ((at : ℕ) × (date_parse tenancy.at ≡ some at) × Covers at tenancy)
unfolding is_membership_effective MembershipStatus-discrete date_parse
is_membership_effective_iff_example = (is_membership_effective_iff tenancy).0 refl

-- A cook is suspended, and comes to work.
abbrev suspension : DailyHelpCommand
suspension = record {
  current = DailyHelpStatus.active;
  target = DailyHelpStatus.suspended;
  reason = some "police check due";
  occurred_at = "2026-07-03T10:00:00.000Z";
}

abbrev check_in : AttendanceTransitionCommand
check_in = record {
  current = none;
  target = AttendanceStatus.checked_in;
  actor_id = "guard-1";
  gate_id = "gate-1";
  helper_active = true;
  has_void_permission = false;
  reason = none;
  occurred_at = "2026-07-03T10:00:00.000Z";
}
