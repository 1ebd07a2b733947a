-- ===== src/Domain/StateMachine.antt =====
-- packages/domain/src/state-machine.ts: transitions allowed by a table, and required texts.
pub mod Laws
pub mod Lives
use manglam_balaji_managemen.Js.Text.{trimmed_length, template}
use manglam_balaji_managemen.Types.Enum.{Enum}
use manglam_balaji_managemen.Types.Errors.{
  ApiErrorCode, text, domain_error, Result, ok, err, StateTransition,
}
use manglam_balaji_managemen.Prelude.{
  Bool, List, [], ◌∷◌, Option, none, some, String, ℕ, leb, length, includes, if◌then◌else◌,
}

-- `TransitionTable<TState>`: the targets of each state.
abbrev pub TransitionTable : Type 0 → Type 0
TransitionTable S = S → List S

-- The argument of `applyTransition`.
pub record Transition (S : Type 0) : Type 0 where
  pub table : TransitionTable S
  pub current : S
  pub target : S
  pub occurred_at : String
  pub event_prefix : String
  pub error_code : ApiErrorCode
  pub aggregate_label : String

module _ {S : Type 0} ⦃e : Enum S⦄ where
  open e use {is, text as name}

  unfoldable pub can_transition : TransitionTable S → S → S → Bool
  can_transition table current target = includes is (table current) target

  -- The transition that is returned: where the record was, where it is, the event and the time.
  abbrev pub moved : String → S → S → String → StateTransition S
  moved event_prefix current target occurred_at = record {
    previous = some current;
    current = target;
    event = template (event_prefix ∷ "_" ∷ name target ∷ []);
    occurred_at = occurred_at;
  }

  unfoldable pub apply_transition : Transition S → Result (StateTransition S)
  unfolding can_transition
  apply_transition input =
      if can_transition table current target
      then ok (moved event_prefix current target occurred_at)
      else err (
          domain_error error_code
            (template (
              "Cannot transition "
              ∷ aggregate_label
              ∷ " from "
              ∷ name current
              ∷ " to "
              ∷ name target
              ∷ "."
              ∷ []))
            (("current", text (name current)) ∷ ("target", text (name target)) ∷ []))
    where
      open input use {
        table, current, target, occurred_at, event_prefix, error_code, aggregate_label,
      }

-- `hasRequiredText` at its default `minimumLength`, the only one that is used.
unfoldable pub has_required_text : Option String → Bool
unfolding trimmed_length
has_required_text s = leb 3 (trimmed_length s)
