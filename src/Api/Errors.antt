-- ===== src/Api/Errors.antt =====
-- apps/api/src/common/http/api-error.ts: the errors of the API, and what a transaction gives.
use manglam_balaji_managemen.Prelude.{ℕ, List, String, ◌≡◌, refl, ◌⊎◌, inl, inr}

pub record ApiError : Type 0 where
  pub code : String
  pub details : List (String × String)
  pub message : String
  pub status : ℕ

-- What is thrown: an ApiError, or an Error of a library or of the code.
pub data Thrown : Type 0 where
  api : ApiError → Thrown
  plain : String → Thrown

-- An answer, or an error that was thrown.
pub data Answer {ℓ} (A : Type ℓ) : Type ℓ where
  answer : A → Answer A
  throw : Thrown → Answer A

infixl 5 ◌>>=◌
abbrev pub ◌>>=◌ {ℓ κ} : {A : Type ℓ} {B : Type κ} → Answer A → (A → Answer B) → Answer B
answer a >>= f = f a
throw e >>= f = throw e

abbrev pub api_error : String → List (String × String) → String → ℕ → Thrown
api_error code details message status =
    api (record { code = code; details = details; message = message; status = status })

-- A chain that answers has answered at its first step.
pub bind-answer {ℓ κ} :
    {A : Type ℓ} {B : Type κ} (m : Answer A) (f : A → Answer B) (b : B)
    → (m >>= f) ≡ answer b
    → (a : A) × (m ≡ answer a) × (f a ≡ answer b)
bind-answer (answer a) f b h = (a, refl, h)
bind-answer (throw e) f b h = cc

pub Answer-cases {ℓ} :
    {A : Type ℓ} (m : Answer A) → ((a : A) × (m ≡ answer a)) ⊎ ((e : Thrown) × (m ≡ throw e))
Answer-cases (answer a) = inl (a, refl)
Answer-cases (throw e) = inr (e, refl)
