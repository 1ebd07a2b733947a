-- ===== src/Domain/DailyHelp.antt =====
-- packages/domain/src/daily-help.ts: daily helpers and their attendance.
pub mod Laws
use manglam_balaji_managemen.Domain.StateMachine.{
  Transition, TransitionTable, apply_transition, has_required_text,
}
use manglam_balaji_managemen.Js.Text.{is_blank, template}
use manglam_balaji_managemen.Types.Enums.Records.{
  DailyHelpStatus, DailyHelpStatus-discrete, daily_help_status_enum, AttendanceStatus,
  AttendanceStatus-discrete, attendance_status_text,
}
use manglam_balaji_managemen.Types.Errors.{
  ApiErrorCode, DomainError, text, domain_error, Result, ok, or_refuse, refuse_if, StateTransition,
}
use manglam_balaji_managemen.Prelude.{
  Bool, not, ◌&&◌, ◌||◌, List, [], ◌∷◌, Option, none, some, String, same, includes,
}

unfoldable pub daily_help_transitions : TransitionTable DailyHelpStatus
daily_help_transitions DailyHelpStatus.active =
    DailyHelpStatus.suspended ∷ DailyHelpStatus.inactive ∷ []
daily_help_transitions DailyHelpStatus.suspended =
    DailyHelpStatus.active ∷ DailyHelpStatus.inactive ∷ []
daily_help_transitions DailyHelpStatus.inactive = DailyHelpStatus.active ∷ []

-- The argument of `transitionDailyHelp`.
pub record DailyHelpCommand : Type 0 where
  pub current : DailyHelpStatus
  pub target : DailyHelpStatus
  pub reason : Option String
  pub occurred_at : String

abbrev pub is_daily_help : DailyHelpStatus → DailyHelpStatus → Bool
is_daily_help = same DailyHelpStatus-discrete

-- The argument of `applyTransition`.
abbrev pub daily_help_input : DailyHelpCommand → Transition DailyHelpStatus
daily_help_input c = record {
  table = daily_help_transitions;
  current = c.current;
  target = c.target;
  occurred_at = c.occurred_at;
  event_prefix = "DAILY_HELP";
  error_code = ApiErrorCode.daily_help_invalid_transition;
  aggregate_label = "daily-help profile";
}

unfoldable pub transition_daily_help : DailyHelpCommand → Result (StateTransition DailyHelpStatus)
unfolding apply_transition daily_help_transitions
transition_daily_help c =
    or_refuse
      (refuse_if
        ((is_daily_help c.target DailyHelpStatus.suspended
            || is_daily_help c.target DailyHelpStatus.inactive)
          && not (has_required_text c.reason))
        (domain_error ApiErrorCode.daily_help_invalid_transition
          "A status-change reason is required." []))
      (apply_transition (daily_help_input c))

-- `'NOT_STARTED' | AttendanceStatusType`: the key `NOT_STARTED` is `none`, as it is null outside.
unfoldable pub attendance_transitions : Option AttendanceStatus → List AttendanceStatus
attendance_transitions none = AttendanceStatus.checked_in ∷ []
attendance_transitions (some AttendanceStatus.checked_in) =
    AttendanceStatus.checked_out ∷ AttendanceStatus.voided ∷ []
attendance_transitions (some AttendanceStatus.checked_out) = AttendanceStatus.voided ∷ []
attendance_transitions (some AttendanceStatus.voided) = []

pub record AttendanceTransitionCommand : Type 0 where
  pub current : Option AttendanceStatus
  pub target : AttendanceStatus
  pub actor_id : String
  pub gate_id : String
  pub helper_active : Bool
  pub has_void_permission : Bool
  pub reason : Option String
  pub occurred_at : String

abbrev pub is_attendance : AttendanceStatus → AttendanceStatus → Bool
is_attendance = same AttendanceStatus-discrete

abbrev pub current_key : Option AttendanceStatus → String
current_key none = "NOT_STARTED"
current_key (some s) = attendance_status_text s

table_refusal : AttendanceTransitionCommand → Option DomainError
table_refusal c =
    refuse_if (not (includes AttendanceStatus-discrete (attendance_transitions c.current) c.target))
      (domain_error ApiErrorCode.attendance_invalid_transition
        "This attendance transition is not permitted."
        (("current", text (current_key c.current))
          ∷ ("target", text (attendance_status_text c.target))
          ∷ []))

helper_refusal : AttendanceTransitionCommand → Option DomainError
helper_refusal c =
    refuse_if (is_attendance c.target AttendanceStatus.checked_in && not c.helper_active) (
      domain_error ApiErrorCode.attendance_invalid_transition "Inactive daily help cannot check in."
        [])

guard_refusal : AttendanceTransitionCommand → Option DomainError
guard_refusal c =
    refuse_if (is_blank (some c.actor_id) || is_blank (some c.gate_id))
      (domain_error ApiErrorCode.attendance_invalid_transition "Guard and gate are required." [])

void_refusal : AttendanceTransitionCommand → Option DomainError
void_refusal c =
    refuse_if
      (is_attendance c.target AttendanceStatus.voided
        && (not c.has_void_permission || not (has_required_text c.reason)))
      (domain_error ApiErrorCode.attendance_invalid_transition
        "Voiding attendance requires permission and a reason." [])

-- The transition that is returned.
abbrev pub attended : AttendanceTransitionCommand → StateTransition AttendanceStatus
attended c = record {
  previous = c.current;
  current = c.target;
  event = template ("DAILY_HELP_ATTENDANCE_" ∷ attendance_status_text c.target ∷ []);
  occurred_at = c.occurred_at;
}

unfoldable pub transition_attendance :
    AttendanceTransitionCommand → Result (StateTransition AttendanceStatus)
unfolding attendance_transitions table_refusal helper_refusal guard_refusal void_refusal
transition_attendance c = or_refuse (table_refusal c) (
    or_refuse (helper_refusal c)
      (or_refuse (guard_refusal c) (or_refuse (void_refusal c) (ok (attended c)))))
