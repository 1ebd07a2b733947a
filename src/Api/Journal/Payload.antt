-- ===== src/Api/Journal/Payload.antt =====
-- apps/api/src/modules/platform/outbox-contracts.ts: what may not stand in an outbox event, and the
-- payload of an event in mutation-journal.service.ts. The schemas of the two events that have one
-- are parameters: a message, if the payload does not fit.
use manglam_balaji_managemen.Api.Errors.{Answer, answer, throw, plain}
use manglam_balaji_managemen.Domain.Json.{
  JsonValue, JsonItems, JsonFields, array, object, no_items, item, no_fields, field,
}
use manglam_balaji_managemen.Js.Text.{utf16, template}
use manglam_balaji_managemen.Prelude.{
  ℕ, ◌+◌, Bool, true, false, ◌&&◌, ◌||◌, leb, ◌==◌, if◌then◌else◌, List, [], ◌∷◌, any, filter, map,
  Option, none, some, String, str_eq,
}

is_letter_or_digit : ℕ → Bool
is_letter_or_digit c =
    (leb b'A' c && leb c b'Z') || (leb b'a' c && leb c b'z') || (leb b'0' c && leb c b'9')

lower : ℕ → ℕ
lower c = if leb b'A' c && leb c b'Z' then c + 32 else c

-- `key.replace(/[^A-Za-z0-9]/g, '').toLowerCase()`, in UTF-16 code units
unfoldable pub normalized : String → List ℕ
unfolding is_letter_or_digit lower
normalized key = map lower (filter is_letter_or_digit (utf16 key))

same_units : List ℕ → List ℕ → Bool
same_units [] [] = true
same_units (c ∷ cs) (d ∷ ds) = c == d && same_units cs ds
same_units _ _ = false

abbrev pub forbidden_outbox_keys : List String
forbidden_outbox_keys =
    "apikey" ∷ "authorization" ∷ "endpointtoken" ∷ "password" ∷ "pin" ∷ "plaintextcode"
    ∷ "providertoken" ∷ "pushtoken" ∷ "refreshtoken" ∷ "secret" ∷ []

unfoldable pub is_forbidden : String → Bool
unfolding same_units normalized
is_forbidden key = any (λ name. same_units (utf16 name) (normalized key)) forbidden_outbox_keys

or_else : Option String → Option String → Option String
or_else none second = second
or_else (some key) second = some key

-- `assertNoForbiddenKeys`: the first forbidden key, at any depth.
unfoldable mutual
  unfolding or_else

  pub forbidden_key : JsonValue → Option String
  forbidden_key (array items) = forbidden_key_in_items items
  forbidden_key (object fields) = forbidden_key_in_fields fields
  forbidden_key _ = none

  pub forbidden_key_in_items : JsonItems → Option String
  forbidden_key_in_items no_items = none
  forbidden_key_in_items (item value items) =
      or_else (forbidden_key value) (forbidden_key_in_items items)

  pub forbidden_key_in_fields : JsonFields → Option String
  forbidden_key_in_fields no_fields = none
  forbidden_key_in_fields (field key value fields) =
      if is_forbidden key
      then some key
      else or_else (forbidden_key value) (forbidden_key_in_fields fields)

refuse_by : Option String → Answer (Unit {0})
refuse_by none = answer tt
refuse_by (some message) = throw (plain message)

module _ (otp_schema notification_schema : JsonValue → Option String) where
  unfoldable pub assert_safe_outbox_payload : String → JsonValue → Answer (Unit {0})
  unfolding refuse_by
  assert_safe_outbox_payload event_type payload = elim (forbidden_key payload) [
    | some key ↦
        throw (plain (template ("Outbox payload contains forbidden sensitive field: " ∷ key ∷ [])))
    | none ↦
        if str_eq event_type "otp.deliver"
        then refuse_by (otp_schema payload)
        else if str_eq event_type "notification.dispatch"
        then refuse_by (notification_schema payload)
        else answer tt
  ]

-- A field of an object literal: a key that is there keeps its place.
set_field : String → JsonValue → JsonFields → JsonFields
set_field key value no_fields = field key value no_fields
set_field key value (field other old fields) =
    if str_eq other key
    then field key value fields
    else field other old (set_field key value fields)

-- `{ ...fields, ...more }`
unfoldable pub spread : JsonFields → JsonFields → JsonFields
unfolding set_field
spread fields no_fields = fields
spread fields (field key value more) = spread (set_field key value fields) more
