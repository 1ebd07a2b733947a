-- ===== src/Types/Enum.antt =====
-- packages/types/src/enums.ts: what `enumObject` gives a frozen list of names. A state is its own
-- text in the program, so it is compared by `===` and spliced into event names and messages.
use manglam_balaji_managemen.Prelude.{String}

pub record Enum (S : Type 0) : Type 0 where
  pub is : Discrete S
  pub text : S → String
