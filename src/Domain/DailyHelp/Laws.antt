-- ===== src/Domain/DailyHelp/Laws.antt =====
-- packages/domain/src/daily-help.ts: when a helper's status and attendance move.
use manglam_balaji_managemen.Domain.DailyHelp.{
  DailyHelpCommand, transition_daily_help, AttendanceTransitionCommand, transition_attendance,
  attended, attendance_transitions, table_refusal, helper_refusal, guard_refusal, void_refusal,
}
use manglam_balaji_managemen.Domain.StateMachine.{has_required_text, moved}
use manglam_balaji_managemen.Types.Enums.Records.{
  DailyHelpStatus, daily_help_status_enum, AttendanceStatus, AttendanceStatus-discrete,
}
use manglam_balaji_managemen.Types.Errors.{ok, or_refuse-eq-ok, StateTransition}
use manglam_balaji_managemen.Prelude.{
  ◌≡◌, ◌≢◌, ◌⊎◌, ◌↔◌, refl, true, none, some, Option, arith, eq_iff, includes,
}

-- A helper's status changes exactly to another one, from inactive to active alone, and with a reason
-- unless it becomes active.
pub transition_daily_help-ok_iff :
    (c : DailyHelpCommand) (r : StateTransition DailyHelpStatus)
    → (transition_daily_help c ≡ ok r) ↔ (
        (c.current ≢ c.target)
        × (c.current ≡ DailyHelpStatus.inactive → c.target ≡ DailyHelpStatus.active)
        × ((c.target ≡ DailyHelpStatus.active) ⊎ (has_required_text c.reason ≡ true))
        × (r ≡ moved "DAILY_HELP" c.current c.target c.occurred_at))
unfolding transition_daily_help
transition_daily_help-ok_iff c r = ground arith

-- The steps of an attendance, from none at all.
pub data AttendanceEdge : Option AttendanceStatus → AttendanceStatus → Type 0 where
  come : AttendanceEdge none AttendanceStatus.checked_in
  leave : AttendanceEdge (some AttendanceStatus.checked_in) AttendanceStatus.checked_out
  void_in : AttendanceEdge (some AttendanceStatus.checked_in) AttendanceStatus.voided
  void_out : AttendanceEdge (some AttendanceStatus.checked_out) AttendanceStatus.voided

ruleset edges = (come, leave, void_in, void_out)

-- What an attendance event asks for.
pub record IsRecordable (c : AttendanceTransitionCommand) : Type 0 where
  pub actor : c.actor_id ≢ ""
  pub gate : c.gate_id ≢ ""
  pub helper : c.target ≡ AttendanceStatus.checked_in → c.helper_active ≡ true
  pub void :
      c.target ≡ AttendanceStatus.voided
      → (c.has_void_permission ≡ true) × (has_required_text c.reason ≡ true)

edge_of_table :
    (s : Option AttendanceStatus) (t : AttendanceStatus)
    → includes AttendanceStatus-discrete (attendance_transitions s) t ≡ true
    → AttendanceEdge s t
unfolding attendance_transitions
edge_of_table none t h = grind (arith, edges)
edge_of_table (some AttendanceStatus.checked_in) t h = grind (arith, edges)
edge_of_table (some _) t h = grind (arith, edges)

transition_attendance_sound :
    (c : AttendanceTransitionCommand) (r : StateTransition AttendanceStatus)
    → transition_attendance c ≡ ok r
    → AttendanceEdge c.current c.target × IsRecordable c × (r ≡ attended c)
unfolding transition_attendance
transition_attendance_sound c r h =
    let (t, h₁) = or_refuse-eq-ok (table_refusal c) _ h in
    let (p, h₂) = or_refuse-eq-ok (helper_refusal c) _ h₁ in
    let (g, h₃) = or_refuse-eq-ok (guard_refusal c) _ h₂ in
    let (v, h₄) = or_refuse-eq-ok (void_refusal c) _ h₃ in
    (
      edge_of_table c.current c.target (ground arith),
      record {
        actor = ground (arith, eq_iff c.actor_id "");
        gate = ground (arith, eq_iff c.gate_id "");
        helper = ground arith;
        void = ground arith;
      },
      ground arith,
    )

edge_passes :
    {s : Option AttendanceStatus} {t : AttendanceStatus} (c : AttendanceTransitionCommand)
    → AttendanceEdge s t
    → c.current ≡ s
    → c.target ≡ t
    → IsRecordable c
    → transition_attendance c ≡ ok (attended c)
unfolding transition_attendance
edge_passes c AttendanceEdge.come p q j = ground (arith, eq_iff c.actor_id "", eq_iff c.gate_id "")
edge_passes c _ p q j = ground (arith, eq_iff c.actor_id "", eq_iff c.gate_id "")

-- An attendance is recorded exactly along a step, by a named guard at a named gate, for an active
-- helper where it is a check-in, and with permission and a reason where it is voided.
pub transition_attendance-ok_iff :
    (c : AttendanceTransitionCommand) (r : StateTransition AttendanceStatus)
    → (transition_attendance c ≡ ok r)
      ↔ (AttendanceEdge c.current c.target × IsRecordable c × (r ≡ attended c))
transition_attendance-ok_iff c r =
    (transition_attendance_sound c r, λ (e, j, m). rw m (edge_passes c e refl refl j))
