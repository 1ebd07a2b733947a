-- ===== src/Api/Sessions.antt =====
-- apps/api/src/modules/auth/session.service.ts: sessions and their refresh tokens, as rows. Times are
-- milliseconds, digests are texts that the caller has computed, and ids and random tokens are
-- given. The access token that goes with an answer is made by a parameter of the service.
pub mod Tokens
pub mod Families
pub mod Reuse
pub mod Rotate
pub mod Transaction
use manglam_balaji_managemen.Api.Digests.{digest_matches}
use manglam_balaji_managemen.Types.Enums.Platform.{DeviceStatus, DeviceStatus-discrete}
use manglam_balaji_managemen.Prelude.{
  ℕ, ◌+◌, ◌*◌, min, Bool, true, false, not, ◌&&◌, ◌||◌, ltb, ◌==◌, if◌then◌else◌, List, [], ◌∷◌,
  map, find, filter, length, same, Option, none, some, ◌>>=◌, String, str_eq,
}

pub data SessionStatus : Type 0 where
  active revoked expired compromised : SessionStatus

unfoldable pub SessionStatus-discrete : Discrete SessionStatus
SessionStatus-discrete = hlevel

pub data UserStatus : Type 0 where
  pending active suspended deactivated : UserStatus

unfoldable pub UserStatus-discrete : Discrete UserStatus
UserStatus-discrete = hlevel

pub data SessionKind : Type 0 where
  resident guard privileged : SessionKind

unfoldable pub SessionKind-discrete : Discrete SessionKind
SessionKind-discrete = hlevel

pub record User : Type 0 where
  pub id : String
  pub status : UserStatus
  pub last_authenticated_at : Option ℕ

-- A device, with the status of its guard device where it has one.
pub record Device : Type 0 where
  pub id : String
  pub society_id : String
  pub user_id : Option String
  pub fingerprint_digest : String
  pub status : DeviceStatus
  pub guard_status : Option DeviceStatus
  pub label : Option String
  pub platform : String
  pub app_version : Option String
  pub operating_system : Option String
  pub last_seen_at : ℕ

pub record UserSession : Type 0 where
  pub id : String
  pub society_id : String
  pub user_id : String
  pub device_id : Option String
  pub kind : SessionKind
  pub refresh_token_family_id : String
  pub status : SessionStatus
  pub absolute_expires_at : ℕ
  pub idle_expires_at : ℕ
  pub last_seen_at : ℕ
  pub revoked_at : Option ℕ
  pub revocation_reason : Option String
  pub ip_address : Option String
  pub user_agent_hash : Option String

pub record RefreshToken : Type 0 where
  pub id : String
  pub society_id : String
  pub session_id : String
  pub family_id : String
  pub parent_token_id : Option String
  pub token_digest : String
  pub status : SessionStatus
  pub expires_at : ℕ
  pub consumed_at : Option ℕ
  pub revoked_at : Option ℕ

pub record AuthTables : Type 0 where
  pub users : List User
  pub devices : List Device
  pub sessions : List UserSession
  pub tokens : List RefreshToken

-- SESSION_IDLE_TTL_SECONDS
abbrev pub session_idle_ttl_seconds : ℕ
session_idle_ttl_seconds = 7 * 24 * 60 * 60

-- A token with the rows that `include` brings.
pub record TokenView : Type 0 where
  pub token : RefreshToken
  pub session : UserSession
  pub user : User
  pub device : Device

abbrev pub has_session_status : SessionStatus → SessionStatus → Bool
has_session_status s t = same SessionStatus-discrete s t

abbrev is_some : {A : Type 0} → Option A → Bool
is_some none = false
is_some (some a) = true

find_token : String → String → List RefreshToken → Option RefreshToken
find_token society_id digest tokens =
    find (λ t. str_eq t.society_id society_id && str_eq t.token_digest digest) tokens

find_device : Option String → List Device → Option Device
find_device none devices = none
find_device (some id) devices = find (λ d. str_eq d.id id) devices

-- `refreshToken.findFirst` with the session, its user and its device; none without a device, which
-- the service treats as an unknown token.
unfoldable pub view_token : String → String → AuthTables → Option TokenView
unfolding find_token find_device
view_token society_id digest tables = do
  token ← find_token society_id digest tables.tokens
  session ← find (λ s. str_eq s.id token.session_id) tables.sessions
  user ← find (λ u. str_eq u.id session.user_id) tables.users
  device ← find_device session.device_id tables.devices
  some (record { token = token; session = session; user = user; device = device })

-- `token.status !== ACTIVE || token.consumedAt !== null`
unfoldable pub is_replayed : RefreshToken → Bool
is_replayed token =
    not (has_session_status token.status SessionStatus.active) || is_some token.consumed_at

unfoldable pub is_active : ℕ → TokenView → Bool
is_active now view =
    ltb now view.token.expires_at
    && has_session_status view.session.status SessionStatus.active
    && ltb now view.session.absolute_expires_at
    && ltb now view.session.idle_expires_at
    && same DeviceStatus-discrete view.device.status DeviceStatus.active
    && same UserStatus-discrete view.user.status UserStatus.active

-- The two updates of `commitRefreshFailure` where a session and a family are named.
abbrev pub failed_status : Bool → SessionStatus
failed_status compromise = if compromise then SessionStatus.compromised else SessionStatus.expired

abbrev pub fail_session : Bool → ℕ → UserSession → UserSession
fail_session compromise now session = record session {
  status = failed_status compromise;
  revoked_at = some now;
  revocation_reason =
      some (
        if compromise
        then "Refresh token reuse or device mismatch detected"
        else "Session expired");
}

abbrev pub fail_token : Bool → ℕ → RefreshToken → RefreshToken
fail_token compromise now token = record token {
  status = failed_status compromise;
  revoked_at = some now;
}

abbrev pub is_in_family : String → String → RefreshToken → Bool
is_in_family society_id family_id token =
    str_eq token.family_id family_id && str_eq token.society_id society_id

unfoldable pub end_family : String → Bool → String → String → ℕ → AuthTables → AuthTables
end_family society_id compromise session_id family_id now tables = record tables {
  sessions =
      map
        (λ s.
          if str_eq s.id session_id && str_eq s.society_id society_id
          then fail_session compromise now s
          else s)
        tables.sessions;
  tokens =
      map (λ t. if is_in_family society_id family_id t then fail_token compromise now t else t)
        tables.tokens;
}

-- `refreshToken.updateMany` of the presented token: its count, and the table.
abbrev pub is_fresh : String → RefreshToken → Bool
is_fresh id token = str_eq token.id id && not (is_replayed token)

abbrev pub consume : ℕ → RefreshToken → RefreshToken
consume now token = record token { consumed_at = some now; status = SessionStatus.revoked }

unfoldable pub consume_token : String → ℕ → List RefreshToken → ℕ × List RefreshToken
consume_token id now tokens = (
  length (filter (is_fresh id) tokens),
  map (λ t. if is_fresh id t then consume now t else t) tokens,
)

-- What is drawn for the next token: its id, and its digest in a family.
pub record NextToken : Type 0 where
  pub id : String
  pub digest : String → String

abbrev pub next_token : ℕ → String → ℕ → NextToken → TokenView → RefreshToken
next_token ttl_seconds society_id now drawn view = record {
  id = drawn.id;
  society_id = society_id;
  session_id = view.token.session_id;
  family_id = view.token.family_id;
  parent_token_id = some view.token.id;
  token_digest = drawn.digest view.token.family_id;
  status = SessionStatus.active;
  expires_at = min view.session.absolute_expires_at (now + ttl_seconds * 1000);
  consumed_at = none;
  revoked_at = none;
}

abbrev pub prolong : ℕ → UserSession → UserSession
prolong now session = record session {
  idle_expires_at = min session.absolute_expires_at (now + session_idle_ttl_seconds * 1000);
  last_seen_at = now;
}

-- The outcome of a presented token.
pub data Rotation : Type 0 where
  -- no such token or device: nothing is changed
  unknown : Rotation
  -- refused, with whether the session counts as compromised
  refused : Bool → TokenView → AuthTables → Rotation
  -- the session goes on, with a new token
  rotated : RefreshToken → TokenView → AuthTables → Rotation

unfoldable pub refuse_token : Bool → TokenView → String → ℕ → AuthTables → Rotation
refuse_token compromise view society_id now tables =
    refused compromise view
      (end_family society_id compromise view.token.session_id view.token.family_id now tables)

unfoldable pub issue_next : ℕ → String → NextToken → ℕ → TokenView → AuthTables → Rotation
issue_next ttl_seconds society_id drawn now view tables =
    let (count, tokens) = consume_token view.token.id now tables.tokens in
    if not (count == 1)
    then refuse_token true view society_id now (record tables { tokens = tokens })
    else let token = next_token ttl_seconds society_id now drawn view in
      rotated token view (record tables {
        tokens = token ∷ tokens;
        sessions =
            map (λ s. if str_eq s.id view.token.session_id then prolong now s else s)
              tables.sessions;
      })

unfoldable pub rotate_view : ℕ → String → String → NextToken → ℕ → TokenView → AuthTables → Rotation
unfolding issue_next
rotate_view ttl_seconds society_id fingerprint_digest drawn now view tables =
    let matches = digest_matches fingerprint_digest view.device.fingerprint_digest in
    let misused = is_replayed view.token || not matches in
    if misused || not (is_active now view)
    then refuse_token misused view society_id now tables
    else issue_next ttl_seconds society_id drawn now view tables

unfoldable pub rotate_tables : ℕ → String → String → String → NextToken → ℕ → AuthTables → Rotation
rotate_tables ttl_seconds society_id token_digest fingerprint_digest drawn now tables =
    elim (view_token society_id token_digest tables) [
      | none ↦ unknown
      | some view ↦ rotate_view ttl_seconds society_id fingerprint_digest drawn now view tables
    ]

abbrev pub tables_after : AuthTables → Rotation → AuthTables
tables_after before unknown = before
tables_after before (refused compromise view tables) = tables
tables_after before (rotated token view tables) = tables

-- The updates of `revokeSession` on a session of the principal; none if there is no such session.
abbrev pub revoke : ℕ → String → UserSession → UserSession
revoke now reason session = record session {
  revoked_at = some now;
  revocation_reason = some reason;
  status = SessionStatus.revoked;
}

abbrev pub revoke_token : ℕ → RefreshToken → RefreshToken
revoke_token now token = record token { revoked_at = some now; status = SessionStatus.revoked }

unfoldable pub revoke_tables :
    String → String → String → String → ℕ → AuthTables → Option AuthTables
revoke_tables society_id user_id session_id reason now tables = do
  session ←
      find
        (λ s. str_eq s.id session_id && str_eq s.society_id society_id && str_eq s.user_id user_id)
        tables.sessions
  some (record tables {
    sessions =
        map
          (λ s.
            if str_eq s.id session.id && has_session_status s.status SessionStatus.active
            then revoke now reason s
            else s)
          tables.sessions;
    tokens =
        map
          (λ t.
            if str_eq t.session_id session.id && has_session_status t.status SessionStatus.active
            then revoke_token now t
            else t)
          tables.tokens;
  })
