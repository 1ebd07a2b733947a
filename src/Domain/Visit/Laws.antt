-- ===== src/Domain/Visit/Laws.antt =====
-- packages/domain/src/visitor.ts: which visit transitions pass, and what every visit's life obeys.
use manglam_balaji_managemen.Domain.Visit.{
  VisitTransitionMode, VisitTransitionCommand, transition_visit, already_done, approval_refusal,
  rejection_refusal, timeout_refusal, entry_refusal, visit_step, visit_transitions,
}
use manglam_balaji_managemen.Domain.StateMachine.{can_transition, moved, has_required_text}
use manglam_balaji_managemen.Js.Text.{is_blank}
use manglam_balaji_managemen.Types.Enums.Visits.{VisitStatus, visit_status_enum}
use manglam_balaji_managemen.Types.Errors.{ok, or_refuse-eq-ok, StateTransition}
use manglam_balaji_managemen.Prelude.{◌≡◌, refl, ◌⊎◌, ◌↔◌, true, false, inl, none, arith}

-- The edges of the diagram.
pub data VisitEdge : VisitStatus → VisitStatus → Type 0 where
  announce : VisitEdge VisitStatus.draft VisitStatus.expected
  walk_in : VisitEdge VisitStatus.draft VisitStatus.arrived_at_gate
  drop : VisitEdge VisitStatus.draft VisitStatus.cancelled
  arrive : VisitEdge VisitStatus.expected VisitStatus.arrived_at_gate
  withdraw : VisitEdge VisitStatus.expected VisitStatus.cancelled
  miss : VisitEdge VisitStatus.expected VisitStatus.expired
  ask : VisitEdge VisitStatus.arrived_at_gate VisitStatus.awaiting_approval
  wave_through : VisitEdge VisitStatus.arrived_at_gate VisitStatus.approved
  turn_away : VisitEdge VisitStatus.arrived_at_gate VisitStatus.cancelled
  approve : VisitEdge VisitStatus.awaiting_approval VisitStatus.approved
  reject : VisitEdge VisitStatus.awaiting_approval VisitStatus.rejected
  time_out : VisitEdge VisitStatus.awaiting_approval VisitStatus.approval_timed_out
  give_up : VisitEdge VisitStatus.awaiting_approval VisitStatus.cancelled
  check_in : VisitEdge VisitStatus.approved VisitStatus.checked_in
  revoke : VisitEdge VisitStatus.approved VisitStatus.cancelled
  lapse : VisitEdge VisitStatus.approved VisitStatus.expired
  overrule : VisitEdge VisitStatus.rejected VisitStatus.approved
  overrule_time_out : VisitEdge VisitStatus.approval_timed_out VisitStatus.approved
  check_out : VisitEdge VisitStatus.checked_in VisitStatus.checked_out

pub ruleset edges = (
  announce, walk_in, drop, arrive, withdraw, miss, ask, wave_through, turn_away, approve, reject,
  time_out, give_up, check_in, revoke, lapse, overrule, overrule_time_out, check_out,
)

abbrev pub IsOverride : VisitTransitionCommand → Type 0
IsOverride c =
    (c.mode ≡ VisitTransitionMode.override)
    × (c.has_override_permission ≡ true)
    × (c.recent_authentication ≡ true)
    × (has_required_text c.reason ≡ true)

-- Who may take which step.
pub record IsAuthorised (c : VisitTransitionCommand) : Type 0 where
  pub at_gate :
      c.current ≡ VisitStatus.arrived_at_gate
      → c.target ≡ VisitStatus.approved
      → (c.mode ≡ VisitTransitionMode.pre_approval) × (c.pre_approval_valid ≡ true)
  pub by_resident :
      c.current ≡ VisitStatus.awaiting_approval
      → (c.target ≡ VisitStatus.approved) ⊎ (c.target ≡ VisitStatus.rejected)
      → c.mode ≡ VisitTransitionMode.resident_decision
  pub by_override :
      (c.current ≡ VisitStatus.rejected) ⊎ (c.current ≡ VisitStatus.approval_timed_out)
      → c.target ≡ VisitStatus.approved
      → IsOverride c
  pub by_system : c.target ≡ VisitStatus.approval_timed_out → c.mode ≡ VisitTransitionMode.system
  pub by_guard :
      (c.target ≡ VisitStatus.checked_in) ⊎ (c.target ≡ VisitStatus.checked_out)
      → (is_blank c.gate_id ≡ false) × (is_blank c.guard_id ≡ false)

-- What an accepted command returns.
abbrev pub visit_moved : VisitTransitionCommand → StateTransition VisitStatus
visit_moved c = moved "VISIT" c.current c.target c.occurred_at

-- No test has refused an accepted command, and the table has let it pass.
passes :
    (c : VisitTransitionCommand) (r : StateTransition VisitStatus)
    → transition_visit c ≡ ok r
    → (already_done c ≡ none)
      × (approval_refusal c ≡ none)
      × (rejection_refusal c ≡ none)
      × (timeout_refusal c ≡ none)
      × (entry_refusal c ≡ none)
      × (visit_step c ≡ ok r)
unfolding transition_visit
passes c r h =
    let (p₁, h₁) = or_refuse-eq-ok (already_done c) _ h in
    let (p₂, h₂) = or_refuse-eq-ok (approval_refusal c) _ h₁ in
    let (p₃, h₃) = or_refuse-eq-ok (rejection_refusal c) _ h₂ in
    let (p₄, h₄) = or_refuse-eq-ok (timeout_refusal c) _ h₃ in
    let (p₅, h₅) = or_refuse-eq-ok (entry_refusal c) _ h₄ in (p₁, p₂, p₃, p₄, p₅, h₅)

edge_of_table : (s t : VisitStatus) → can_transition visit_transitions s t ≡ true → VisitEdge s t
unfolding can_transition visit_transitions
edge_of_table VisitStatus.draft t h = grind (arith, edges)
edge_of_table s t h = grind (arith, edges)

visit_step-moved :
    (c : VisitTransitionCommand) (r : StateTransition VisitStatus)
    → visit_step c ≡ ok r
    → (can_transition visit_transitions c.current c.target ≡ true) × (r ≡ visit_moved c)
unfolding visit_step
visit_step-moved c r h = ground arith

gate_authorised :
    (c : VisitTransitionCommand)
    → approval_refusal c ≡ none
    → c.current ≡ VisitStatus.arrived_at_gate
    → c.target ≡ VisitStatus.approved
    → (c.mode ≡ VisitTransitionMode.pre_approval) × (c.pre_approval_valid ≡ true)
unfolding approval_refusal
gate_authorised c h s t = ground arith

resident_authorised :
    (c : VisitTransitionCommand)
    → approval_refusal c ≡ none
    → rejection_refusal c ≡ none
    → c.current ≡ VisitStatus.awaiting_approval
    → (c.target ≡ VisitStatus.approved) ⊎ (c.target ≡ VisitStatus.rejected)
    → c.mode ≡ VisitTransitionMode.resident_decision
unfolding approval_refusal rejection_refusal
resident_authorised c h k s t = ground arith

supervisor_authorised :
    (c : VisitTransitionCommand)
    → approval_refusal c ≡ none
    → (c.current ≡ VisitStatus.rejected) ⊎ (c.current ≡ VisitStatus.approval_timed_out)
    → c.target ≡ VisitStatus.approved
    → IsOverride c
unfolding approval_refusal
supervisor_authorised c h s t = ground arith

pub transition_visit-edge :
    (c : VisitTransitionCommand) (r : StateTransition VisitStatus)
    → transition_visit c ≡ ok r
    → VisitEdge c.current c.target
transition_visit-edge c r h =
    edge_of_table c.current c.target (visit_step-moved c r (passes c r h).5).0

pub transition_visit-moved :
    (c : VisitTransitionCommand) (r : StateTransition VisitStatus)
    → transition_visit c ≡ ok r
    → r ≡ visit_moved c
transition_visit-moved c r h = (visit_step-moved c r (passes c r h).5).1

pub transition_visit-IsAuthorised :
    (c : VisitTransitionCommand) (r : StateTransition VisitStatus)
    → transition_visit c ≡ ok r
    → IsAuthorised c
transition_visit-IsAuthorised c r h =
    let (_, approval, rejection, timeout, entry, _) = passes c r h in
    record {
      at_gate = gate_authorised c approval;
      by_resident = resident_authorised c approval rejection;
      by_override = supervisor_authorised c approval;
      by_system = unfold timeout_refusal in ground arith;
      by_guard = unfold entry_refusal in ground arith;
    }

edge_passes :
    {s t : VisitStatus} (c : VisitTransitionCommand)
    → VisitEdge s t
    → c.current ≡ s
    → c.target ≡ t
    → IsAuthorised c
    → transition_visit c ≡ ok (visit_moved c)
unfolding transition_visit
edge_passes c announce p q a = ground arith
edge_passes c check_in p q a = ground (arith, a.by_guard (inl q))
edge_passes c e p q a = ground arith

-- A visit command is accepted exactly when the diagram has its edge and the actor is authorised for
-- it; the result then names the old state, the new one, the event and the time of the command.
pub transition_visit-ok_iff :
    (c : VisitTransitionCommand) (r : StateTransition VisitStatus)
    → (transition_visit c ≡ ok r)
      ↔ (VisitEdge c.current c.target × IsAuthorised c × (r ≡ visit_moved c))
transition_visit-ok_iff c r = (
  λ h. (
    transition_visit-edge c r h,
    transition_visit-IsAuthorised c r h,
    transition_visit-moved c r h,
  ),
  λ (e, a, m). rw m (edge_passes c e refl refl a),
)
