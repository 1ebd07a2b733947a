-- ===== src/Domain/Parcel/Laws.antt =====
-- packages/domain/src/parcel.ts: when a parcel moves, and how it may leave the gate.
use mathlib.Core.List.{Memᴰ}
use manglam_balaji_managemen.Domain.Parcel.{
  ParcelTransitionCommand, transition_parcel, parcel_transitions, collection_refusal,
  reason_refusal, parcel_input,
}
use manglam_balaji_managemen.Domain.StateMachine.{can_transition, has_required_text, moved}
use manglam_balaji_managemen.Domain.StateMachine.Laws.{apply_transition-ok}
use manglam_balaji_managemen.Domain.StateMachine.Lives.{live, live-enters}
use manglam_balaji_managemen.Types.Enums.Records.{ParcelStatus, parcel_status_enum}
use manglam_balaji_managemen.Types.Errors.{Result, ok, or_refuse-eq-ok, StateTransition}
use manglam_balaji_managemen.Prelude.{
  ◌≡◌, ◌≢◌, ◌⊎◌, ◌↔◌, refl, Bool, true, false, none, List, arith,
}

-- The edges of the diagram.
pub data ParcelEdge : ParcelStatus → ParcelStatus → Type 0 where
  arrive : ParcelEdge ParcelStatus.expected ParcelStatus.arrived
  call_off : ParcelEdge ParcelStatus.expected ParcelStatus.cancelled
  hold : ParcelEdge ParcelStatus.arrived ParcelStatus.held_at_gate
  send_back : ParcelEdge ParcelStatus.arrived ParcelStatus.returned
  cancel : ParcelEdge ParcelStatus.arrived ParcelStatus.cancelled
  collect : ParcelEdge ParcelStatus.held_at_gate ParcelStatus.collected
  return_held : ParcelEdge ParcelStatus.held_at_gate ParcelStatus.returned

ruleset edges = (arrive, call_off, hold, send_back, cancel, collect, return_held)

edge_of_table : (s t : ParcelStatus) → can_transition parcel_transitions s t ≡ true → ParcelEdge s t
unfolding can_transition parcel_transitions
edge_of_table ParcelStatus.expected t h = grind (arith, edges)
edge_of_table _ t h = grind (arith, edges)

-- What each target asks for.
pub record IsJustified (c : ParcelTransitionCommand) : Type 0 where
  pub code : c.target ≡ ParcelStatus.collected → c.collection_code_verified ≡ true
  pub reason :
      (c.target ≡ ParcelStatus.returned) ⊎ (c.target ≡ ParcelStatus.cancelled)
      → has_required_text c.reason ≡ true

refusals→IsJustified :
    (c : ParcelTransitionCommand)
    → collection_refusal c ≡ none
    → reason_refusal c ≡ none
    → IsJustified c
unfolding collection_refusal reason_refusal
refusals→IsJustified c p q = ground arith

transition_parcel_sound :
    (c : ParcelTransitionCommand) (r : StateTransition ParcelStatus)
    → transition_parcel c ≡ ok r
    → ParcelEdge c.current c.target
      × IsJustified c
      × (r ≡ moved "PARCEL" c.current c.target c.occurred_at)
unfolding transition_parcel
transition_parcel_sound c r h =
    let (p, h₁) = or_refuse-eq-ok (collection_refusal c) _ h in
    let (q, h₂) = or_refuse-eq-ok (reason_refusal c) _ h₁ in
    let (edge, m) = apply_transition-ok (parcel_input c) r h₂ in
    (edge_of_table c.current c.target edge, refusals→IsJustified c p q, m)

edge_passes :
    {s t : ParcelStatus} (c : ParcelTransitionCommand)
    → ParcelEdge s t
    → c.current ≡ s
    → c.target ≡ t
    → IsJustified c
    → transition_parcel c ≡ ok (moved "PARCEL" c.current c.target c.occurred_at)
unfolding transition_parcel
edge_passes c ParcelEdge.arrive p q j = ground arith
edge_passes c _ p q j = ground arith

-- A parcel moves exactly along an edge of the diagram, with a verified collection code where it is
-- collected and a reason where it is returned or cancelled.
pub transition_parcel-ok_iff :
    (c : ParcelTransitionCommand) (r : StateTransition ParcelStatus)
    → (transition_parcel c ≡ ok r) ↔ (
        ParcelEdge c.current c.target
        × IsJustified c
        × (r ≡ moved "PARCEL" c.current c.target c.occurred_at))
transition_parcel-ok_iff c r =
    (transition_parcel_sound c r, λ (e, j, m). rw m (edge_passes c e refl refl j))

-- A command met in the state that the parcel is in.
abbrev pub parcel_from :
    ParcelStatus → ParcelTransitionCommand → Result (StateTransition ParcelStatus)
parcel_from s c = transition_parcel (record c { current = s })

abbrev pub is_collected : ParcelStatus → Bool
is_collected ParcelStatus.collected = true
is_collected _ = false

abbrev pub was_held : ParcelStatus → Bool
was_held ParcelStatus.held_at_gate = true
was_held ParcelStatus.collected = true
was_held ParcelStatus.returned = true
was_held _ = false

-- A parcel that was not collected and at last is was handed over by a command whose one-time code was
-- verified.
pub parcel_collection_verified :
    (s t : ParcelStatus) (cs : List ParcelTransitionCommand)
    → live parcel_from s cs ≡ ok t
    → s ≢ ParcelStatus.collected
    → t ≡ ParcelStatus.collected
    → (c : ParcelTransitionCommand) × Memᴰ c cs
      × ((c.target ≡ ParcelStatus.collected) × (c.collection_code_verified ≡ true))
parcel_collection_verified s t cs h before after =
    live-enters parcel_from is_collected
      (λ c. (c.target ≡ ParcelStatus.collected) × (c.collection_code_verified ≡ true))
      (λ s c r e out in'. enters s c r e in') s t cs h (ground arith) (ground arith)
  where
    enters :
        (s : ParcelStatus) (c : ParcelTransitionCommand) (r : StateTransition ParcelStatus)
        → parcel_from s c ≡ ok r
        → is_collected r.current ≡ true
        → (c.target ≡ ParcelStatus.collected) × (c.collection_code_verified ≡ true)
    enters s c r e in' =
        let (_, j, m) = transition_parcel_sound (record c { current = s }) r e in
        let to : c.target ≡ ParcelStatus.collected = ground arith in (to, j.code to)
