-- ===== src/Domain/StateMachine/Laws.antt =====
-- packages/domain/src/state-machine.ts: when a table lets a transition pass, and with what result.
use manglam_balaji_managemen.Domain.StateMachine.{
  Transition, can_transition, apply_transition, moved,
}
use manglam_balaji_managemen.Types.Enum.{Enum}
use manglam_balaji_managemen.Types.Errors.{StateTransition, ok}
use manglam_balaji_managemen.Prelude.{◌≡◌, true, arith}

module _ {S : Type 0} ⦃e : Enum S⦄ where
  pub apply_transition-ok :
      (t : Transition S) (r : StateTransition S)
      → apply_transition t ≡ ok r
      → (can_transition t.table t.current t.target ≡ true)
        × (r ≡ moved t.event_prefix t.current t.target t.occurred_at)
  unfolding apply_transition
  apply_transition-ok t r h = ground arith
