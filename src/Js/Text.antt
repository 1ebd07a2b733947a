-- ===== src/Js/Text.antt =====
-- JavaScript texts: their UTF-16 code units, `trim`, `length`, and the tests on optional texts.
use Prim.Native.Char.{code}
use Prim.Native.String
use manglam_balaji_managemen.Prelude.{
  ℕ, zero, suc, ◌+◌, ◌-◌, ◌/◌, ◌%◌, Bool, true, false, ◌||◌, List, [], ◌∷◌, reverse, Option, none,
  some, String, str_eq, ◌==◌, leb, ltb, ◌&&◌, if◌then◌else◌, length,
}

-- A character outside the basic plane is a surrogate pair.
abbrev code_units : ℕ → List ℕ → List ℕ
code_units c rest =
    if ltb c 0x10000
    then c ∷ rest
    else (0xd800 + (c - 0x10000) / 0x400) ∷ (0xdc00 + (c - 0x10000) % 0x400) ∷ rest

abbrev pub utf16 : String → List ℕ
utf16 String.[] = []
utf16 (String.◌∷◌ c s) = code_units (code c) (utf16 s)

-- WhiteSpace and LineTerminator of ECMA-262, which `trim` removes at both ends.
is_white_space : ℕ → Bool
is_white_space c =
    c == 0x20
    || (leb 0x9 c && leb c 0xd)
    || c == 0xa0
    || c == 0x1680
    || (leb 0x2000 c && leb c 0x200a)
    || c == 0x2028
    || c == 0x2029
    || c == 0x202f
    || c == 0x205f
    || c == 0x3000
    || c == 0xfeff

trim_start : List ℕ → List ℕ
trim_start [] = []
trim_start (c ∷ s) = if is_white_space c then trim_start s else c ∷ s

unfoldable pub trim : List ℕ → List ℕ
unfolding trim_start is_white_space
trim s = reverse (trim_start (reverse (trim_start s)))

-- `!value` on an optional text: undefined or the empty text.
abbrev pub is_blank : Option String → Bool
is_blank none = true
is_blank (some s) = str_eq s ""

-- A template literal, given by its parts.
abbrev pub template : List String → String
template [] = ""
template (part ∷ parts) = String.◌++◌ part (template parts)

-- `value?.trim().length ?? 0`
unfoldable pub trimmed_length : Option String → ℕ
unfolding trim
trimmed_length none = 0
trimmed_length (some s) = length (trim (utf16 s))

digit_text : ℕ → String
digit_text zero = "0"
digit_text (suc zero) = "1"
digit_text (suc (suc zero)) = "2"
digit_text (suc (suc (suc zero))) = "3"
digit_text (suc (suc (suc (suc zero)))) = "4"
digit_text (suc (suc (suc (suc (suc zero))))) = "5"
digit_text (suc (suc (suc (suc (suc (suc zero)))))) = "6"
digit_text (suc (suc (suc (suc (suc (suc (suc zero))))))) = "7"
digit_text (suc (suc (suc (suc (suc (suc (suc (suc zero)))))))) = "8"
digit_text _ = "9"

digits_text : ℕ → ℕ → String
digits_text zero n = ""
digits_text (suc fuel) n = elim (ltb n 10) [
  | true ↦ digit_text n
  | false ↦ String.◌++◌ (digits_text fuel (n / 10)) (digit_text (n % 10))
]

-- `${n}` of an integer, which has no more digits than one more than itself.
unfoldable pub integer_text : ℕ → String
unfolding digits_text digit_text
integer_text n = digits_text (n + 1) n
