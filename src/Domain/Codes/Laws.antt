-- ===== src/Domain/Codes/Laws.antt =====
-- packages/domain/src/codes.ts: the message of a digest tells its parts apart.
use mathlib.Core.List.{append_assoc, append-nil}
use manglam_balaji_managemen.Domain.Codes.{
  utf8, decimal, decimal_digits, length_prefix, context_bytes, digest_message,
}
use manglam_balaji_managemen.Prelude.{
  ℕ, zero, suc, ◌+◌, ◌-◌, ◌*◌, ◌/◌, ◌%◌, ◌≤◌, ◌<◌, ◌≡◌, ◌≢◌, refl, sym, ap, ◌∙◌, List, [], ◌∷◌,
  ◌++◌, map, String, arith, length, All, ltb, Bool-cases, inl, inr,
}

-- The number that digits stand for.
read : ℕ → List ℕ → ℕ
read n [] = n
read n (c ∷ cs) = read (n * 10 + (c - b'0')) cs

read-snoc : (n : ℕ) (cs : List ℕ) (c : ℕ) → read n (cs ++ c ∷ []) ≡ read n cs * 10 + (c - b'0')
unfolding read
read-snoc n [] c = refl
read-snoc n (d ∷ cs) c = read-snoc (n * 10 + (d - b'0')) cs c

read-decimal_digits : (fuel n : ℕ) → n < fuel → read 0 (decimal_digits fuel n) ≡ n
unfolding decimal_digits read
read-decimal_digits zero n h = absurd (omega arith)
read-decimal_digits (suc fuel) n h = elim (Bool-cases (ltb n 10)) [
  | inl small ↦ rw small (omega arith)
  | inr large ↦
      let big : 10 ≤ n = ground arith in
      let fewer : n / 10 < fuel = omega arith in
      rw large (
        omega (
          arith,
          big,
          read-snoc 0 (decimal_digits fuel (n / 10)) (b'0' + n % 10),
          read-decimal_digits fuel (n / 10) fewer,
        ))
]

-- The bytes in front of the colon.
abbrev IsDigit : ℕ → Type 0
IsDigit c = (b'0' ≤ c) × (c ≤ b'9')

All-append : (P : ℕ → Type 0) (xs ys : List ℕ) → All P xs → All P ys → All P (xs ++ ys)
All-append P [] ys h k = k
All-append P (x ∷ xs) ys (p, h) k = (p, All-append P xs ys h k)

decimal_digits-IsDigit : (fuel n : ℕ) → All IsDigit (decimal_digits fuel n)
unfolding decimal_digits
decimal_digits-IsDigit zero n = tt
decimal_digits-IsDigit (suc fuel) n = elim (Bool-cases (ltb n 10)) [
  | inl small ↦ rw small ((omega arith, ground arith), tt)
  | inr large ↦ rw large (
      All-append IsDigit (decimal_digits fuel (n / 10)) ((b'0' + n % 10) ∷ [])
        (decimal_digits-IsDigit fuel (n / 10)) ((omega arith, omega arith), tt))
]

-- Digits end at the first colon.
split_at_colon :
    (xs ys r s : List ℕ)
    → All IsDigit xs
    → All IsDigit ys
    → xs ++ b':' ∷ r ≡ ys ++ b':' ∷ s
    → (xs ≡ ys) × (r ≡ s)
split_at_colon [] [] r s dx dy h = ground arith
split_at_colon [] (y ∷ ys) r s dx (d, dy) h = ground arith
split_at_colon (x ∷ xs) [] r s (d, dx) dy h = ground arith
split_at_colon (x ∷ xs) (y ∷ ys) r s (_, dx) (_, dy) h =
    let (e, f) = split_at_colon xs ys r s dx dy (ground arith) in (ground (arith, e), f)

split_at_length :
    (xs ys r s : List ℕ) → length xs ≡ length ys → xs ++ r ≡ ys ++ s → (xs ≡ ys) × (r ≡ s)
split_at_length [] [] r s l h = (refl, h)
split_at_length [] (y ∷ ys) r s l h = ground arith
split_at_length (x ∷ xs) [] r s l h = ground arith
split_at_length (x ∷ xs) (y ∷ ys) r s l h =
    let (e, f) = split_at_length xs ys r s (ground arith) (ground arith) in (ground (arith, e), f)

decimal-injective : (m n : ℕ) → decimal m ≡ decimal n → m ≡ n
unfolding decimal
decimal-injective m n h =
    sym (read-decimal_digits (suc m) m (omega arith))
    ∙ ap (read 0) h
    ∙ read-decimal_digits (suc n) n (omega arith)

length_prefix-append : (p r : List ℕ) → length_prefix p ++ r ≡ decimal (length p) ++ b':' ∷ (p ++ r)
unfolding length_prefix
length_prefix-append p r = append_assoc (decimal (length p)) (b':' ∷ p) r

-- A prefixed part ends where its prefix says, whatever follows.
pub length_prefix-cancel :
    (p q r s : List ℕ) → length_prefix p ++ r ≡ length_prefix q ++ s → (p ≡ q) × (r ≡ s)
unfolding decimal
length_prefix-cancel p q r s h =
    let (e, f) =
      split_at_colon (decimal (length p)) (decimal (length q)) (p ++ r) (q ++ s)
        (decimal_digits-IsDigit (suc (length p)) (length p))
        (decimal_digits-IsDigit (suc (length q)) (length q))
        (sym (length_prefix-append p r) ∙ h ∙ length_prefix-append q s) in
    split_at_length p q r s (decimal-injective (length p) (length q) e) f

length_prefix-cancel_last : (p q : List ℕ) → length_prefix p ≡ length_prefix q → p ≡ q
length_prefix-cancel_last p q h = (length_prefix-cancel p q [] [] (ap (λ x. x ++ []) h)).0

append-ne_nil : (xs : List ℕ) (y : ℕ) (ys : List ℕ) → xs ++ y ∷ ys ≢ []
append-ne_nil [] y ys h = ground arith
append-ne_nil (x ∷ xs) y ys h = ground arith

length_prefix-ne_nil : (p : List ℕ) → length_prefix p ≢ []
unfolding length_prefix
length_prefix-ne_nil p h = append-ne_nil (decimal (length p)) b':' p h

length_prefix-append_ne_nil : (p r : List ℕ) → length_prefix p ++ r ≢ []
length_prefix-append_ne_nil p r h =
    append-ne_nil (decimal (length p)) b':' (p ++ r) (sym (length_prefix-append p r) ∙ h)

length_prefix-longer : (p q r : List ℕ) (c : ℕ) → length_prefix p ≢ length_prefix q ++ c ∷ r
length_prefix-longer p q r c h =
    let (_, e) = length_prefix-cancel p q [] (c ∷ r) (append-nil (length_prefix p) ∙ h) in
    ground (arith, e)

abbrev pub bytes_of : List String → List (List ℕ)
bytes_of = map utf8

context_bytes-injective :
    (ps qs : List String) → context_bytes ps ≡ context_bytes qs → bytes_of ps ≡ bytes_of qs
unfolding context_bytes
context_bytes-injective [] [] h = refl
context_bytes-injective [] (q ∷ []) h = absurd (length_prefix-ne_nil (utf8 q) (sym h))
context_bytes-injective [] (q ∷ q₂ ∷ qs) h =
    absurd (length_prefix-append_ne_nil (utf8 q) (b'|' ∷ context_bytes (q₂ ∷ qs)) (sym h))
context_bytes-injective (p ∷ []) [] h = absurd (length_prefix-ne_nil (utf8 p) h)
context_bytes-injective (p ∷ p₂ ∷ ps) [] h =
    absurd (length_prefix-append_ne_nil (utf8 p) (b'|' ∷ context_bytes (p₂ ∷ ps)) h)
context_bytes-injective (p ∷ []) (q ∷ []) h =
    ap (λ x. x ∷ []) (length_prefix-cancel_last (utf8 p) (utf8 q) h)
context_bytes-injective (p ∷ []) (q ∷ q₂ ∷ qs) h =
    absurd (length_prefix-longer (utf8 p) (utf8 q) (context_bytes (q₂ ∷ qs)) b'|' h)
context_bytes-injective (p ∷ p₂ ∷ ps) (q ∷ []) h =
    absurd (length_prefix-longer (utf8 q) (utf8 p) (context_bytes (p₂ ∷ ps)) b'|' (sym h))
context_bytes-injective (p ∷ p₂ ∷ ps) (q ∷ q₂ ∷ qs) h =
    let (e, f) = length_prefix-cancel (utf8 p) (utf8 q) _ _ h in
    let rest : bytes_of (p₂ ∷ ps) ≡ bytes_of (q₂ ∷ qs) =
      context_bytes-injective (p₂ ∷ ps) (q₂ ∷ qs) (ground (arith, f)) in
    λ i. e i ∷ rest i

-- The message that a digest is taken of determines the secret and the parts of its context, their
-- number and order included, up to their bytes in UTF-8.
pub digest_message-injective :
    (secret other : String) (parts others : List String)
    → digest_message secret parts ≡ digest_message other others
    → (utf8 secret ≡ utf8 other) × (bytes_of parts ≡ bytes_of others)
unfolding digest_message
digest_message-injective secret other parts others h =
    let (e, f) =
      length_prefix-cancel (context_bytes parts) (context_bytes others)
        (length_prefix (utf8 secret)) (length_prefix (utf8 other)) h in
    (length_prefix-cancel_last _ _ f, context_bytes-injective parts others e)
