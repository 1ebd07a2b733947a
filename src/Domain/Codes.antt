-- ===== src/Domain/Codes.antt =====
-- packages/domain/src/codes.ts: digests of secrets, bound to a context, and their comparison. The HMAC
-- of node:crypto is a parameter: from a key and a message, as bytes, it gives a hexadecimal text.
pub mod Laws
pub mod Digests
use Prim.Native.Char.{code}
use Prim.Native.String
use manglam_balaji_managemen.Js.Text.{utf16}
use manglam_balaji_managemen.Prelude.{
  ℕ, zero, suc, ◌+◌, ◌-◌, ◌/◌, ◌%◌, Bool, true, false, not, ◌&&◌, ◌||◌, List, [], ◌∷◌, ◌++◌, map,
  Option, none, some, String, ◌==◌, leb, ltb, all, if◌then◌else◌, length, ◌>>=◌,
}

-- The bytes of a character in UTF-8.
pub utf8_bytes : ℕ → List ℕ
utf8_bytes c =
    if ltb c 0x80
    then c ∷ []
    else (if ltb c 0x800
        then (0xc0 + c / 0x40) ∷ (0x80 + c % 0x40) ∷ []
        else (if ltb c 0x10000
            then (0xe0 + c / 0x1000) ∷ (0x80 + c / 0x40 % 0x40) ∷ (0x80 + c % 0x40) ∷ []
            else (0xf0 + c / 0x40000)
              ∷ (0x80 + c / 0x1000 % 0x40)
              ∷ (0x80 + c / 0x40 % 0x40)
              ∷ (0x80 + c % 0x40)
              ∷ []))

-- `Buffer.from(value, 'utf8')`
unfoldable pub utf8 : String → List ℕ
unfolding utf8_bytes
utf8 String.[] = []
utf8 (String.◌∷◌ c s) = utf8_bytes (code c) ++ utf8 s

-- The decimal digits of a number, which has no more of them than one more than itself.
decimal_digits : ℕ → ℕ → List ℕ
decimal_digits zero n = []
decimal_digits (suc fuel) n =
    let rest = decimal_digits fuel (n / 10) in
    if ltb n 10 then (b'0' + n) ∷ [] else rest ++ (b'0' + n % 10) ∷ []

unfoldable pub decimal : ℕ → List ℕ
unfolding decimal_digits
decimal n = decimal_digits (suc n) n

-- `lengthPrefix`, on the bytes of the text.
unfoldable pub length_prefix : List ℕ → List ℕ
length_prefix bytes = decimal (length bytes) ++ b':' ∷ bytes

-- `contextParts.map(lengthPrefix).join('|')`
unfoldable pub context_bytes : List String → List ℕ
unfolding length_prefix utf8
context_bytes [] = []
context_bytes (part ∷ []) = length_prefix (utf8 part)
context_bytes (part ∷ next ∷ parts) =
    length_prefix (utf8 part) ++ b'|' ∷ context_bytes (next ∷ parts)

-- What the two calls of `update` hand to the HMAC.
unfoldable pub digest_message : String → List String → List ℕ
unfolding length_prefix utf8 context_bytes
digest_message secret context_parts =
    length_prefix (context_bytes context_parts) ++ length_prefix (utf8 secret)

abbrev pub is_hex : ℕ → Bool
is_hex c = (leb b'0' c && leb c b'9') || (leb b'a' c && leb c b'f') || (leb b'A' c && leb c b'F')

-- `/^[a-f0-9]{64}$/i.test(text)`
unfoldable pub is_digest : List ℕ → Bool
is_digest units = length units == 64 && all is_hex units

-- The four bits that a hexadecimal digit stands for.
abbrev pub nibble : ℕ → ℕ
nibble c = if leb c b'9' then c - b'0' else (if leb c b'F' then c - b'A' + 10 else c - b'a' + 10)

-- `timingSafeEqual` on two buffers of one length.
abbrev pub same_nibbles : List ℕ → List ℕ → Bool
same_nibbles [] [] = true
same_nibbles (c ∷ cs) (d ∷ ds) = nibble c == nibble d && same_nibbles cs ds
same_nibbles _ _ = false

unfoldable pub constant_time_digest_equal : String → String → Bool
unfolding is_digest
constant_time_digest_equal left right =
    if not (is_digest (utf16 left)) || not (is_digest (utf16 right))
    then false
    else same_nibbles (utf16 left) (utf16 right)

module _ (hmac_hex : List ℕ → List ℕ → String) where
  -- `none` is the error that a short pepper raises.
  unfoldable pub digest_secret : String → List String → String → Option String
  unfolding digest_message
  digest_secret secret context_parts pepper =
      if ltb (length (utf16 pepper)) 32
      then none
      else some (hmac_hex (utf8 pepper) (digest_message secret context_parts))

  unfoldable pub verify_secret : String → String → List String → String → Option Bool
  unfolding digest_secret
  verify_secret candidate expected_digest context_parts pepper =
      digest_secret candidate context_parts pepper >>= λ digest.
      some (constant_time_digest_equal digest expected_digest)
