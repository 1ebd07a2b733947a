-- ===== src/Domain/Membership/Laws.antt =====
-- packages/domain/src/membership.ts: when a membership moves, and when it counts.
use manglam_balaji_managemen.Domain.Membership.{
  MembershipTransitionCommand, transition_membership, membership_transitions, actor_refusal,
  reason_refusal, end_refusal, membership_input, parse_if_given, Effectiveness,
  is_membership_effective, is_membership, has_passed, spans,
}
use manglam_balaji_managemen.Domain.StateMachine.{can_transition, has_required_text, moved}
use manglam_balaji_managemen.Domain.StateMachine.Laws.{apply_transition-ok}
use manglam_balaji_managemen.Js.Date.{date_parse}
use manglam_balaji_managemen.Types.Enums.Visits.{
  MembershipStatus, MembershipStatus-discrete, membership_status_enum,
}
use manglam_balaji_managemen.Types.Errors.{ok, or_refuse-eq-ok, StateTransition}
use manglam_balaji_managemen.Prelude.{
  ℕ, ◌≤◌, ◌<◌, ◌≡◌, ◌≢◌, ◌⊎◌, inl, inr, ◌↔◌, refl, true, Option, none, some, String, arith, eq_iff,
  Bool-cases, Option-cases, same→eq,
}

-- The edges of the diagram.
pub data MembershipEdge : MembershipStatus → MembershipStatus → Type 0 where
  approve : MembershipEdge MembershipStatus.pending MembershipStatus.approved
  reject : MembershipEdge MembershipStatus.pending MembershipStatus.rejected
  suspend : MembershipEdge MembershipStatus.approved MembershipStatus.suspended
  finish : MembershipEdge MembershipStatus.approved MembershipStatus.ended
  reinstate : MembershipEdge MembershipStatus.suspended MembershipStatus.approved
  finish_suspended : MembershipEdge MembershipStatus.suspended MembershipStatus.ended

ruleset edges = (approve, reject, suspend, finish, reinstate, finish_suspended)

edge_of_table :
    (s t : MembershipStatus) → can_transition membership_transitions s t ≡ true → MembershipEdge s t
unfolding can_transition membership_transitions
edge_of_table MembershipStatus.pending t h = grind (arith, edges)
edge_of_table _ t h = grind (arith, edges)

-- The occupancy has ended: both times are dates, and the end is not later than the command.
pub record HasEnded (c : MembershipTransitionCommand) : Type 0 where
  pub ends_at : ℕ
  pub occurred_at : ℕ
  pub recorded : parse_if_given c.occupancy_ends_at ≡ some ends_at
  pub occurs : date_parse c.occurred_at ≡ some occurred_at
  pub effective : ends_at ≤ occurred_at

-- What each target asks for.
pub record IsGrounded (c : MembershipTransitionCommand) : Type 0 where
  pub actor : c.actor_id ≢ ""
  pub reason :
      (c.target ≡ MembershipStatus.rejected)
        ⊎ ((c.target ≡ MembershipStatus.suspended) ⊎ (c.target ≡ MembershipStatus.ended))
      → has_required_text c.reason ≡ true
  pub end : c.target ≡ MembershipStatus.ended → HasEnded c

has_passed→HasEnded :
    (c : MembershipTransitionCommand) (e o : Option ℕ)
    → has_passed e o ≡ true
    → parse_if_given c.occupancy_ends_at ≡ e
    → date_parse c.occurred_at ≡ o
    → HasEnded c
has_passed→HasEnded c (some e) (some o) h p q = record {
  ends_at = e;
  occurred_at = o;
  recorded = p;
  occurs = q;
  effective = ground arith;
}
has_passed→HasEnded c _ _ h p q = cc

refusals→IsGrounded :
    (c : MembershipTransitionCommand)
    → actor_refusal c ≡ none
    → reason_refusal c ≡ none
    → end_refusal c ≡ none
    → IsGrounded c
unfolding actor_refusal reason_refusal end_refusal
refusals→IsGrounded c a x e = record {
  actor = ground (arith, eq_iff c.actor_id "");
  reason = ground arith;
  end = λ t. has_passed→HasEnded c _ _ (ground arith) refl refl;
}

transition_membership_sound :
    (c : MembershipTransitionCommand) (r : StateTransition MembershipStatus)
    → transition_membership c ≡ ok r
    → MembershipEdge c.current c.target
      × IsGrounded c
      × (r ≡ moved "MEMBERSHIP" c.current c.target c.occurred_at)
unfolding transition_membership
transition_membership_sound c r h =
    let (a, h₁) = or_refuse-eq-ok (actor_refusal c) _ h in
    let (x, h₂) = or_refuse-eq-ok (reason_refusal c) _ h₁ in
    let (e, h₃) = or_refuse-eq-ok (end_refusal c) _ h₂ in
    let (edge, m) = apply_transition-ok (membership_input c) r h₃ in
    (edge_of_table c.current c.target edge, refusals→IsGrounded c a x e, m)

end_passes : (c : MembershipTransitionCommand) → IsGrounded c → end_refusal c ≡ none
unfolding end_refusal
end_passes c j = elim (Bool-cases (is_membership c.target MembershipStatus.ended)) [
  | inl it ↦
      let e = j.end (same→eq MembershipStatus-discrete _ _ it) in
      rw (e.recorded, e.occurs) (ground (arith, e.effective))
  | inr not_it ↦ rw not_it
]

edge_passes :
    {s t : MembershipStatus} (c : MembershipTransitionCommand)
    → MembershipEdge s t
    → c.current ≡ s
    → c.target ≡ t
    → IsGrounded c
    → transition_membership c ≡ ok (moved "MEMBERSHIP" c.current c.target c.occurred_at)
unfolding transition_membership
edge_passes c MembershipEdge.approve p q j = ground (arith, eq_iff c.actor_id "", end_passes c j)
edge_passes c _ p q j = ground (arith, eq_iff c.actor_id "", end_passes c j)

-- A membership moves exactly along an edge of the diagram, by a named administrator, with a reason for
-- every target but an approval, and ends only once its recorded end time has come.
pub transition_membership-ok_iff :
    (c : MembershipTransitionCommand) (r : StateTransition MembershipStatus)
    → (transition_membership c ≡ ok r) ↔ (
        MembershipEdge c.current c.target
        × IsGrounded c
        × (r ≡ moved "MEMBERSHIP" c.current c.target c.occurred_at))
transition_membership-ok_iff c r =
    (transition_membership_sound c r, λ (e, j, m). rw m (edge_passes c e refl refl j))

-- The interval of an approved membership: from its start, up to its end if it has one.
pub data Covers (at : ℕ) (input : Effectiveness) : Type 0 where
  unending :
      (start : ℕ)
      → date_parse input.starts_at ≡ some start
      → input.ends_at ≡ none
      → start ≤ at
      → Covers at input
  limited :
      (start finish : ℕ) (text : String)
      → date_parse input.starts_at ≡ some start
      → input.ends_at ≡ some text
      → date_parse text ≡ some finish
      → start ≤ at
      → at < finish
      → Covers at input

spans→Covers :
    (input : Effectiveness) (a s : Option ℕ) (e : Option String)
    → spans a s e ≡ true
    → date_parse input.at ≡ a
    → date_parse input.starts_at ≡ s
    → input.ends_at ≡ e
    → (at : ℕ) × (date_parse input.at ≡ some at) × Covers at input
spans→Covers input (some a) (some s) none h p q r = (a, p, Covers.unending s q r (ground arith))
spans→Covers input (some a) (some s) (some text) h p q r = elim (Option-cases (date_parse text)) [
  | inl bad ↦ ground arith
  | inr (stop, good) ↦ (a, p, Covers.limited s stop text q r good (ground arith) (ground arith))
]
spans→Covers input none _ _ h p q r = cc
spans→Covers input (some a) none _ h p q r = cc

Covers→spans :
    (input : Effectiveness) (at : ℕ)
    → date_parse input.at ≡ some at
    → Covers at input
    → spans (date_parse input.at) (date_parse input.starts_at) input.ends_at ≡ true
Covers→spans input at p (Covers.unending start q r le) = rw (p, q, r) (ground arith)
Covers→spans input at p (Covers.limited start stop text q r good le lt) =
    rw (p, q, r) (ground arith)

-- A membership counts at a time exactly if it is approved, the time is a date, and it lies from the
-- membership's start up to, and without, its end, if it has one.
pub is_membership_effective_iff :
    (input : Effectiveness)
    → (is_membership_effective input ≡ true) ↔ (
        (input.status ≡ MembershipStatus.approved)
        × ((at : ℕ) × (date_parse input.at ≡ some at) × Covers at input))
unfolding is_membership_effective
is_membership_effective_iff input = (
  λ h. (ground arith, spans→Covers input _ _ _ (ground arith) refl refl refl),
  λ (approved, (at, p, covers)). ground (arith, Covers→spans input at p covers),
)
