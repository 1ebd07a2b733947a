-- ===== src/Api/Sessions/Rotate.antt =====
-- apps/api/src/modules/auth/session.service.ts, `rotate`: the transaction around the tables of
-- sessions, with the mutation journal and the limits on attempts. Random ids and tokens and the
-- times are given; the access token's signer and the digest of a request are parameters.
use mathlib.Core.Option
use manglam_balaji_managemen.Api.Attempts.{AuthenticationAttempt, CredentialAttemptKeys}
use manglam_balaji_managemen.Api.Errors.{ApiError}
use manglam_balaji_managemen.Api.Journal.{MutationActor}
use manglam_balaji_managemen.Api.Journal.Commit.{CommitContext, Journal}
use manglam_balaji_managemen.Api.Sessions.{
  SessionKind, AuthTables, RefreshToken, UserSession, Device,
}
use manglam_balaji_managemen.Domain.Json.{JsonValue, string, null}
use manglam_balaji_managemen.Js.Text.{utf16, template}
use manglam_balaji_managemen.Prelude.{
  ℕ, zero, suc, ◌+◌, Bool, true, false, not, ◌&&◌, ◌||◌, ltb, leb, ◌==◌, if◌then◌else◌, List, [],
  ◌∷◌, any, length, take, find, ◌>>=◌, Option, none, some, String, str_eq,
}

pub record SessionTokenResponse : Type 0 where
  pub access_token : String
  pub access_token_expires_at : ℕ
  pub refresh_token : String
  pub refresh_token_expires_at : ℕ
  pub session_id : String

-- What is stored under an idempotency key: an answer, or a failure to repeat.
pub data StoredOutcome (T : Type 0) : Type 0 where
  stored : T → StoredOutcome T
  stored_failure : ApiError → StoredOutcome T

-- The classes of /^[0-9a-f]{8}-[0-9a-f]{4}-[1-5][0-9a-f]{3}-[89ab][0-9a-f]{3}-[0-9a-f]{12}$/i
pub data UuidUnit : Type 0 where
  hex dash version variant : UuidUnit

is_hex_unit : ℕ → Bool
is_hex_unit c =
    (leb b'0' c && leb c b'9') || (leb b'a' c && leb c b'f') || (leb b'A' c && leb c b'F')

is_unit : UuidUnit → ℕ → Bool
is_unit hex c = is_hex_unit c
is_unit dash c = c == b'-'
is_unit version c = leb b'1' c && leb c b'5'
is_unit variant c = c == b'8' || c == b'9' || c == b'a' || c == b'b' || c == b'A' || c == b'B'

fits : List UuidUnit → List ℕ → Bool
fits [] [] = true
fits (u ∷ us) (c ∷ cs) = is_unit u c && fits us cs
fits _ _ = false

hexes : ℕ → List UuidUnit → List UuidUnit
hexes zero rest = rest
hexes (suc n) rest = hex ∷ hexes n rest

uuid_units : List UuidUnit
unfolding hexes
uuid_units =
    hexes 8
      (dash ∷ hexes 4 (dash ∷ version ∷ hexes 3 (dash ∷ variant ∷ hexes 3 (dash ∷ hexes 12 []))))

drop : ℕ → List ℕ → List ℕ
drop zero cs = cs
drop (suc n) [] = []
drop (suc n) (c ∷ cs) = drop n cs

prefix : ℕ → String → String
prefix zero s = ""
prefix (suc n) String.[] = ""
prefix (suc n) (String.◌∷◌ c s) = String.◌∷◌ c (prefix n s)

-- `units.indexOf(c)`
index_of : ℕ → List ℕ → Option ℕ
index_of c [] = none
index_of c (d ∷ units) = if c == d then some 0 else Option.map (λ n. n + 1) (index_of c units)

is_index : ℕ → Option ℕ → Bool
is_index n none = false
is_index n (some m) = m == n

-- A family is an id of 36 characters before the one point of the token.
unfoldable pub parse_refresh_family : String → Option String
unfolding is_hex_unit is_unit fits uuid_units drop prefix index_of is_index
parse_refresh_family token =
    let units = utf16 token in
    if ltb (length units) 64 || ltb 512 (length units)
    then none
    else if not (is_index 36 (index_of b'.' units)) || any (λ c. c == b'.') (drop 37 units)
    then none
    else if fits uuid_units (take 36 units)
    then some (prefix 36 token)
    else none

pub record RotateSessionInput : Type 0 where
  pub device_fingerprint : String
  pub refresh_token : String

pub record MutationRequestContext : Type 0 where
  pub database_correlation_id : String
  pub idempotency_key : String
  pub ip_address : Option String

-- What the service draws or asks the clock for: the ids, the random part of the next token, and
-- the time of the transaction.
pub record Drawn : Type 0 where
  pub operation_id : String
  pub record_id : String
  pub token_id : String
  pub random_token : String
  pub commit : CommitContext
  pub now : ℕ

pub record ApiTables (Body : Type 0) : Type 0 where
  pub journal : Journal Body
  pub attempts : List AuthenticationAttempt
  pub auth : AuthTables

-- The claims of an access token, and what its signer gives.
pub record AccessClaims : Type 0 where
  pub device_id : String
  pub kind : SessionKind
  pub session_id : String
  pub society_id : String
  pub user_id : String

pub record AccessToken : Type 0 where
  pub token : String
  pub expires_at : ℕ

-- `located`: the token's rows as they are before the transaction.
pub record Located : Type 0 where
  pub token : RefreshToken
  pub session : UserSession
  pub device : Option Device

unfoldable pub locate : String → String → AuthTables → Option Located
locate society_id digest tables = do
  token ← find (λ t. str_eq t.society_id society_id && str_eq t.token_digest digest) tables.tokens
  session ← find (λ s. str_eq s.id token.session_id) tables.sessions
  some (record {
    token = token;
    session = session;
    device = session.device_id >>= λ id. find (λ d. str_eq d.id id) tables.devices;
  })

abbrev pub no_actor : String → MutationActor
no_actor scope = record {
  actor_scope_key = scope;
  device_id = none;
  gate_id = none;
  guard_device_id = none;
  session_id = none;
  user_id = none;
}

unfoldable pub rotate_actor : CredentialAttemptKeys → Option Located → MutationActor
rotate_actor keys none = no_actor (template ("refresh:" ∷ keys.subject_digest ∷ []))
rotate_actor keys (some l) = record {
  actor_scope_key = template ("session:" ∷ l.token.session_id ∷ []);
  device_id = Option.map (λ d. d.id) l.device;
  gate_id = none;
  guard_device_id = none;
  session_id = some l.token.session_id;
  user_id = some l.session.user_id;
}

abbrev pub or_none : Option String → JsonValue
or_none none = null
or_none (some s) = string s
