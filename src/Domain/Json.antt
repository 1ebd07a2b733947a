-- ===== src/Domain/Json.antt =====
-- packages/domain/src/offline-sync.ts, `canonicalJson`: one text for a value, whatever the order of its
-- keys. A text is given by its bytes in UTF-8, the way it is hashed. A value has no cycles here and holds
-- nothing but JSON, so a number that is not finite is the one error left.
use Prim.Native.Char.{code}
use manglam_balaji_managemen.Domain.Codes.{utf8, utf8_bytes, decimal}
use manglam_balaji_managemen.Js.Number.{Number, nan, infinite, integer, negative}
use manglam_balaji_managemen.Js.Text.{utf16}
use manglam_balaji_managemen.Prelude.{
  ℕ, suc, ◌+◌, ◌/◌, ◌%◌, Bool, true, false, List, [], ◌∷◌, ◌++◌, map, Option, none, some, String,
  ◌==◌, ltb, if◌then◌else◌, ◌>>=◌,
}

mutual
  pub data JsonValue : Type 0 where
    null : JsonValue
    boolean : Bool → JsonValue
    number : Number → JsonValue
    string : String → JsonValue
    array : JsonItems → JsonValue
    object : JsonFields → JsonValue

  pub data JsonItems : Type 0 where
    no_items : JsonItems
    item : JsonValue → JsonItems → JsonItems

  pub data JsonFields : Type 0 where
    no_fields : JsonFields
    field : String → JsonValue → JsonFields → JsonFields

hex_digit : ℕ → ℕ
hex_digit n = if ltb n 10 then b'0' + n else b'a' + n

-- A character inside a quoted text: `JSON.stringify` escapes quotes, backslashes and controls.
escape : ℕ → List ℕ
unfolding hex_digit
escape c =
    if c == b'"'
    then b'\\' ∷ b'"' ∷ []
    else (if c == b'\\'
        then b'\\' ∷ b'\\' ∷ []
        else (if c == 0x8
            then b'\\' ∷ b'b' ∷ []
            else (if c == 0x9
                then b'\\' ∷ b't' ∷ []
                else (if c == 0xa
                    then b'\\' ∷ b'n' ∷ []
                    else (if c == 0xc
                        then b'\\' ∷ b'f' ∷ []
                        else (if c == 0xd
                            then b'\\' ∷ b'r' ∷ []
                            else (if ltb c 0x20
                                then b'\\'
                                  ∷ b'u'
                                  ∷ b'0'
                                  ∷ b'0'
                                  ∷ hex_digit (c / 0x10)
                                  ∷ hex_digit (c % 0x10)
                                  ∷ []
                                else utf8_bytes c)))))))

escaped : String → List ℕ
escaped String.[] = []
escaped (String.◌∷◌ c s) = escape (code c) ++ escaped s

-- `JSON.stringify` on a text.
quote : String → List ℕ
quote s = b'"' ∷ escaped s ++ b'"' ∷ []

number_text : Number → Option (List ℕ)
number_text nan = none
number_text infinite = none
number_text (integer n) = some (decimal n)
number_text (negative n) = some (b'-' ∷ decimal (suc n))

-- `texts.join(',')`
join : List (List ℕ) → List ℕ
join [] = []
join (text ∷ []) = text
join (text ∷ next ∷ texts) = text ++ b',' ∷ join (next ∷ texts)

-- The order of texts by their code units.
before : List ℕ → List ℕ → Bool
before [] [] = false
before [] (d ∷ ds) = true
before (c ∷ cs) [] = false
before (c ∷ cs) (d ∷ ds) = if c == d then before cs ds else ltb c d

-- The entries in the order of their keys.
insert_entry : String × List ℕ → List (String × List ℕ) → List (String × List ℕ)
insert_entry e [] = e ∷ []
insert_entry (key, text) ((other, next) ∷ entries) =
    if before (utf16 other) (utf16 key)
    then (other, next) ∷ insert_entry (key, text) entries
    else (key, text) ∷ (other, next) ∷ entries

sort_entries : List (String × List ℕ) → List (String × List ℕ)
sort_entries [] = []
sort_entries (e ∷ es) = insert_entry e (sort_entries es)

entry_text : String × List ℕ → List ℕ
entry_text (key, text) = quote key ++ b':' ∷ text

in_brackets : List (List ℕ) → List ℕ
in_brackets texts = b'[' ∷ join texts ++ b']' ∷ []

in_braces : List (String × List ℕ) → List ℕ
in_braces entries = b'{' ∷ join (map entry_text (sort_entries entries)) ++ b'}' ∷ []

unfoldable mutual
  unfolding number_text quote escaped escape in_brackets in_braces join entry_text sort_entries
      insert_entry before utf8

  pub canonicalize : JsonValue → Option (List ℕ)
  canonicalize null = some (utf8 "null")
  canonicalize (boolean true) = some (utf8 "true")
  canonicalize (boolean false) = some (utf8 "false")
  canonicalize (number n) = number_text n
  canonicalize (string s) = some (quote s)
  canonicalize (array items) = canonical_items items >>= λ texts. some (in_brackets texts)
  canonicalize (object fields) = canonical_fields fields >>= λ entries. some (in_braces entries)

  pub canonical_items : JsonItems → Option (List (List ℕ))
  canonical_items no_items = some []
  canonical_items (item value items) =
      canonicalize value >>= λ text. canonical_items items >>= λ texts. some (text ∷ texts)

  pub canonical_fields : JsonFields → Option (List (String × List ℕ))
  canonical_fields no_fields = some []
  canonical_fields (field key value fields) = canonicalize value >>= λ text.
      canonical_fields fields >>= λ entries. some ((key, text) ∷ entries)
