-- ===== src/Domain/Codes/Digests.antt =====
-- packages/domain/src/codes.ts, `constantTimeDigestEqual`: which texts count as the same digest.
use manglam_balaji_managemen.Domain.Codes.{
  is_hex, is_digest, nibble, same_nibbles, constant_time_digest_equal,
}
use manglam_balaji_managemen.Js.Text.{utf16}
use manglam_balaji_managemen.Prelude.{
  ℕ, ◌≤◌, ◌≡◌, ◌↔◌, ◌⊎◌, refl, Bool, true, List, [], ◌∷◌, map, String, arith, length, All, all,
}

-- A Boolean test of every element, and what it tests.
pub all_iff {ℓ κ} :
    {A : Type ℓ} (p : A → Bool) (P : A → Type κ)
    → ((x : A) → (p x ≡ true) ↔ P x)
    → (xs : List A) → (all p xs ≡ true) ↔ All P xs
all_iff p P f [] = ((λ h. tt), (λ h. refl))
all_iff p P f (x ∷ xs) = (
  λ h. ((f x).0 (ground arith), (all_iff p P f xs).0 (ground arith)),
  λ (k, ks). ground (arith, (f x).1 k, (all_iff p P f xs).1 ks),
)

abbrev pub IsHexDigit : ℕ → Type 0
IsHexDigit c = ((b'0' ≤ c) × (c ≤ b'9')) ⊎ ((b'a' ≤ c) × (c ≤ b'f')) ⊎ ((b'A' ≤ c) × (c ≤ b'F'))

is_hex_iff : (c : ℕ) → (is_hex c ≡ true) ↔ IsHexDigit c
is_hex_iff c = ground arith

-- 64 hexadecimal digits.
pub record IsDigest (s : String) : Type 0 where
  pub long : length (utf16 s) ≡ 64
  pub digits : All IsHexDigit (utf16 s)

is_digest_iff : (s : String) → (is_digest (utf16 s) ≡ true) ↔ IsDigest s
unfolding is_digest
is_digest_iff s =
    let digits_iff = all_iff is_hex IsHexDigit is_hex_iff (utf16 s) in
    (
      λ h. record { long = ground arith; digits = digits_iff.0 (ground arith) },
      λ d. ground (arith, d.long, digits_iff.1 d.digits),
    )

-- Two digests of the same bits: the case of their letters does not count.
pub record SameDigest (left right : String) : Type 0 where
  pub left_digest : IsDigest left
  pub right_digest : IsDigest right
  pub same_bits : map nibble (utf16 left) ≡ map nibble (utf16 right)

same_nibbles_iff : (xs ys : List ℕ) → (same_nibbles xs ys ≡ true) ↔ (map nibble xs ≡ map nibble ys)
same_nibbles_iff [] [] = (λ h. refl, λ h. refl)
same_nibbles_iff [] (y ∷ ys) = (λ h. cc, λ h. cc)
same_nibbles_iff (x ∷ xs) [] = (λ h. cc, λ h. cc)
same_nibbles_iff (x ∷ xs) (y ∷ ys) = (
  λ h. ground (arith, (same_nibbles_iff xs ys).0),
  λ h. ground (arith, (same_nibbles_iff xs ys).1),
)

pub constant_time_digest_equal_iff :
    (left right : String) → (constant_time_digest_equal left right ≡ true) ↔ SameDigest left right
unfolding constant_time_digest_equal
constant_time_digest_equal_iff left right = (
  λ h. record {
    left_digest = (is_digest_iff left).0 (ground arith);
    right_digest = (is_digest_iff right).0 (ground arith);
    same_bits = (same_nibbles_iff (utf16 left) (utf16 right)).0 (ground arith);
  },
  λ s. ground (
    arith,
    (is_digest_iff left).1 s.left_digest,
    (is_digest_iff right).1 s.right_digest,
    (same_nibbles_iff (utf16 left) (utf16 right)).1 s.same_bits,
  ),
)
