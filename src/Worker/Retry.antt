-- ===== src/Worker/Retry.antt =====
-- apps/worker/src/retry.ts: the wait before another attempt, and what is kept of an error. The
-- random fraction is an argument, given exactly by its numerator and denominator; the source
-- multiplies in floating point.

use manglam_balaji_managemen.Js.Number.{Number, is_safe_integer, value}
use manglam_balaji_managemen.Js.Text.{utf16}
use manglam_balaji_managemen.Prelude.{
  ℕ, ◌≡◌, refl, ◌⊎◌, inl, inr, ◌+◌, ◌-◌, ◌*◌, ◌/◌, ◌^◌, min, Bool, not, ◌&&◌, ◌||◌, ltb, leb, ◌==◌,
  if◌then◌else◌, List, [], ◌∷◌, map, take, Option, none, some, String, str_eq,
}

-- A call that returns a value, or throws an Error with a message.
pub data Called {ℓ} (A : Type ℓ) : Type ℓ where
  returned : A → Called A
  thrown : String → Called A

pub Called-cases {ℓ} :
    {A : Type ℓ} (c : Called A) → ((a : A) × (c ≡ returned a)) ⊎ ((m : String) × (c ≡ thrown m))
Called-cases (returned a) = inl (a, refl)
Called-cases (thrown message) = inr (message, refl)

abbrev pub maximum_retry_delay_ms : ℕ
maximum_retry_delay_ms = 3600000

pub record Fraction : Type 0 where
  pub numerator : ℕ
  pub denominator : ℕ

-- `Math.min(MAXIMUM_RETRY_DELAY_MS, 1_000 * 2 ** (attempt - 1))`
unfoldable pub exponential_ms : ℕ → ℕ
exponential_ms attempt = min maximum_retry_delay_ms (1000 * 2 ^ (attempt - 1))

-- `Math.min(MAXIMUM_RETRY_DELAY_MS, Math.floor(exponential * (0.5 + jitter)))`
unfoldable pub jittered_ms : Fraction → ℕ → ℕ
jittered_ms jitter exponential =
    min maximum_retry_delay_ms
      (exponential * (jitter.denominator + 2 * jitter.numerator) / (2 * jitter.denominator))

unfoldable pub retry_delay_ms : Number → Fraction → Called ℕ
retry_delay_ms attempt jitter =
    if not (is_safe_integer attempt) || ltb (value attempt) 1
    then thrown "attempt must be a positive integer."
    else if jitter.denominator == 0 || ltb jitter.denominator jitter.numerator
    then thrown "random jitter must be between zero and one."
    else returned (jittered_ms jitter (exponential_ms (value attempt)))

-- What `errorCode` looks at in a value that was thrown: a text under `code`, and the name of an
-- Error.
pub record WorkerError : Type 0 where
  pub code : Option String
  pub name : Option String

is_code_unit : ℕ → Bool
is_code_unit c =
    (leb b'A' c && leb c b'Z')
    || (leb b'a' c && leb c b'z')
    || (leb b'0' c && leb c b'9')
    || c == b'_'

-- `.replace(/[^A-Za-z0-9_]/g, '_')` and `.toUpperCase()` on one code unit
unfoldable pub code_unit : ℕ → ℕ
unfolding is_code_unit
code_unit c = if not (is_code_unit c) then b'_' else if leb b'a' c && leb c b'z' then c - 32 else c

abbrev pub worker_failure : String
worker_failure = "WORKER_FAILURE"

error_name : Option String → String
error_name none = worker_failure
error_name (some name) = if str_eq name "Error" then worker_failure else name

unfoldable pub raw_code : WorkerError → String
unfolding error_name
raw_code error = elim error.code [
  | none ↦ error_name error.name
  | some code ↦ if str_eq code "" then error_name error.name else code
]

or_worker_failure : List ℕ → List ℕ
or_worker_failure [] = utf16 worker_failure
or_worker_failure (c ∷ code) = c ∷ code

-- The code in UTF-16 code units, which are ASCII characters here.
unfoldable pub error_code : WorkerError → List ℕ
unfolding raw_code code_unit or_worker_failure
error_code error = or_worker_failure (take 80 (map code_unit (utf16 (raw_code error))))

abbrev pub error_detail : String
error_detail = "Worker handler failed; inspect secret-safe logs using the outbox event id."
