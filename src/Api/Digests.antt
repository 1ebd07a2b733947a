-- ===== src/Api/Digests.antt =====
-- apps/api/src/modules/security/secrets.ts and secret-digest.service.ts: keyed digests of secrets.
-- The HMAC of node:crypto is a parameter, on bytes.
use manglam_balaji_managemen.Domain.Codes.{utf8, length_prefix, constant_time_digest_equal}
use manglam_balaji_managemen.Js.Text.{template}
use manglam_balaji_managemen.Prelude.{ℕ, Bool, List, [], ◌∷◌, ◌++◌, Option, none, some, String}

-- What the HMAC is updated with: each part and then the value, with its length in bytes before it.
unfoldable pub secret_message : String → List String → List ℕ
secret_message value [] = length_prefix (utf8 value)
secret_message value (part ∷ context) = length_prefix (utf8 part) ++ secret_message value context

unfoldable pub digest_matches : String → String → Bool
digest_matches left right = constant_time_digest_equal left right

ip_or_default : Option String → String
ip_or_default none = "no-ip"
ip_or_default (some ip_address) = ip_address

-- The secrets of the service.
pub record Secrets : Type 0 where
  pub otp_secret : String
  pub refresh_secret : String
  pub visitor_secret : String

module _ (hmac_hex : List ℕ → List ℕ → String) where
  unfoldable pub secret_digest : String → List String → String → String
  unfolding secret_message
  secret_digest value context secret = hmac_hex (utf8 secret) (secret_message value context)

  module _ (secrets : Secrets) where
    unfoldable pub authentication_origin : String → Option String → String → String
    unfolding ip_or_default
    authentication_origin device_fingerprint ip_address society_id =
        secret_digest (template (device_fingerprint ∷ "\0" ∷ ip_or_default ip_address ∷ []))
          ("authentication-origin" ∷ society_id ∷ []) secrets.refresh_secret

    unfoldable pub authentication_subject : String → String → String → String
    authentication_subject identifier method society_id =
        secret_digest identifier ("authentication-subject" ∷ society_id ∷ method ∷ [])
          secrets.refresh_secret

    unfoldable pub credential_proof : String → String → String → String
    credential_proof value purpose society_id =
        secret_digest value ("credential-proof" ∷ society_id ∷ purpose ∷ []) secrets.refresh_secret

    unfoldable pub device_fingerprint : String → String → String
    device_fingerprint fingerprint society_id =
        secret_digest fingerprint ("device" ∷ society_id ∷ []) secrets.refresh_secret

    unfoldable pub device_nonce : String → String → String
    device_nonce nonce society_id =
        secret_digest nonce ("device-nonce" ∷ society_id ∷ []) secrets.otp_secret

    unfoldable pub guard_enrollment_token : String → String → String → String
    guard_enrollment_token token society_id guard_device_id =
        secret_digest token ("guard-enrollment" ∷ society_id ∷ guard_device_id ∷ [])
          secrets.refresh_secret

    unfoldable pub phone : String → String → String
    phone phone_e164 society_id =
        secret_digest phone_e164 ("phone" ∷ society_id ∷ []) secrets.otp_secret

    unfoldable pub refresh_token : String → String → String
    refresh_token token family_id =
        secret_digest token ("refresh-token" ∷ family_id ∷ []) secrets.refresh_secret

    unfoldable pub request_ip : String → String
    request_ip ip_address = secret_digest ip_address ("request-ip" ∷ []) secrets.otp_secret
