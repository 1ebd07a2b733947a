-- ===== src/Domain/Emergency/Laws.antt =====
-- packages/domain/src/emergency.ts: when an emergency moves, and that its life ends.
use manglam_balaji_managemen.Domain.Emergency.{
  EmergencyTransitionCommand, transition_emergency, emergency_transitions, actor_refusal,
  note_refusal, reason_refusal, emergency_input,
}
use manglam_balaji_managemen.Domain.StateMachine.{can_transition, has_required_text, moved}
use manglam_balaji_managemen.Domain.StateMachine.Laws.{apply_transition-ok}
use manglam_balaji_managemen.Types.Enums.Records.{EmergencyStatus, emergency_status_enum}
use manglam_balaji_managemen.Types.Errors.{ok, or_refuse-eq-ok, StateTransition}
use manglam_balaji_managemen.Prelude.{◌≡◌, ◌≢◌, ◌↔◌, refl, true, none, arith, eq_iff}

-- The edges of the diagram.
pub data EmergencyEdge : EmergencyStatus → EmergencyStatus → Type 0 where
  acknowledge : EmergencyEdge EmergencyStatus.active EmergencyStatus.acknowledged
  dismiss : EmergencyEdge EmergencyStatus.active EmergencyStatus.false_alarm
  respond : EmergencyEdge EmergencyStatus.acknowledged EmergencyStatus.responding
  resolve_early : EmergencyEdge EmergencyStatus.acknowledged EmergencyStatus.resolved
  dismiss_known : EmergencyEdge EmergencyStatus.acknowledged EmergencyStatus.false_alarm
  resolve : EmergencyEdge EmergencyStatus.responding EmergencyStatus.resolved
  stand_down : EmergencyEdge EmergencyStatus.responding EmergencyStatus.false_alarm

ruleset edges = (acknowledge, dismiss, respond, resolve_early, dismiss_known, resolve, stand_down)

edge_of_table :
    (s t : EmergencyStatus) → can_transition emergency_transitions s t ≡ true → EmergencyEdge s t
unfolding can_transition emergency_transitions
edge_of_table EmergencyStatus.active t h = grind (arith, edges)
edge_of_table _ t h = grind (arith, edges)

-- What each target asks for.
pub record IsAnswered (c : EmergencyTransitionCommand) : Type 0 where
  pub actor : c.actor_id ≢ ""
  pub note : c.target ≡ EmergencyStatus.resolved → has_required_text c.response_note ≡ true
  pub reason : c.target ≡ EmergencyStatus.false_alarm → has_required_text c.reason ≡ true

refusals→IsAnswered :
    (c : EmergencyTransitionCommand)
    → actor_refusal c ≡ none
    → note_refusal c ≡ none
    → reason_refusal c ≡ none
    → IsAnswered c
unfolding actor_refusal note_refusal reason_refusal
refusals→IsAnswered c a n x = ground (arith, eq_iff c.actor_id "")

transition_emergency_sound :
    (c : EmergencyTransitionCommand) (r : StateTransition EmergencyStatus)
    → transition_emergency c ≡ ok r
    → EmergencyEdge c.current c.target
      × IsAnswered c
      × (r ≡ moved "EMERGENCY" c.current c.target c.occurred_at)
unfolding transition_emergency
transition_emergency_sound c r h =
    let (a, h₁) = or_refuse-eq-ok (actor_refusal c) _ h in
    let (n, h₂) = or_refuse-eq-ok (note_refusal c) _ h₁ in
    let (x, h₃) = or_refuse-eq-ok (reason_refusal c) _ h₂ in
    let (edge, m) = apply_transition-ok (emergency_input c) r h₃ in
    (edge_of_table c.current c.target edge, refusals→IsAnswered c a n x, m)

edge_passes :
    {s t : EmergencyStatus} (c : EmergencyTransitionCommand)
    → EmergencyEdge s t
    → c.current ≡ s
    → c.target ≡ t
    → IsAnswered c
    → transition_emergency c ≡ ok (moved "EMERGENCY" c.current c.target c.occurred_at)
unfolding transition_emergency
edge_passes c EmergencyEdge.acknowledge p q j = ground (arith, eq_iff c.actor_id "")
edge_passes c _ p q j = ground (arith, eq_iff c.actor_id "")

-- An emergency moves exactly along an edge of the diagram, by a named responder, with a note where it
-- is resolved and a reason where it is a false alarm.
pub transition_emergency-ok_iff :
    (c : EmergencyTransitionCommand) (r : StateTransition EmergencyStatus)
    → (transition_emergency c ≡ ok r) ↔ (
        EmergencyEdge c.current c.target
        × IsAnswered c
        × (r ≡ moved "EMERGENCY" c.current c.target c.occurred_at))
transition_emergency-ok_iff c r =
    (transition_emergency_sound c r, λ (e, j, m). rw m (edge_passes c e refl refl j))
