-- ===== src/Api/Sessions/Families.antt =====
-- apps/api/src/modules/auth/session.service.ts: the family of tokens of one session, over any number
-- of presented tokens.
use manglam_balaji_managemen.Api.Sessions.Tokens.{
  live_tokens, Calms-changed, consume-dead, revoke_token-dead, fail_token-dead, TokenStep,
  unchanged, calmed, calmed_twice, replaced, TokenStep-live_tokens,
}
use mathlib.Core.List.{Memᴰ}
use manglam_balaji_managemen.Api.Digests.{digest_matches}
use manglam_balaji_managemen.Api.Sessions.{
  SessionStatus, RefreshToken, AuthTables, TokenView, NextToken, has_session_status, is_replayed,
  is_fresh, consume, consume_token, next_token, is_in_family, fail_token, end_family, refuse_token,
  issue_next, rotate_view, rotate_tables, view_token, find_token, find_device, tables_after,
  unknown, revoke_tables, revoke_token, is_active,
}
use manglam_balaji_managemen.Prelude.{
  ℕ, ◌≤◌, ◌≡◌, inl, inr, refl, sym, ap, subst, ◌∙◌, Bool, true, false, not, ◌&&◌, ◌||◌, ◌==◌, List,
  [], ◌∷◌, find-some, length, filter, Option, none, some, String, str_eq, eq_iff, arith, Bool-cases,
  Option-cases, bind-some, find, if◌then◌else◌,
}

-- Calls of the service on the tables, in the order of their transactions.
pub data AuthCall : Type 0 where
  rotate_call : String → String → String → NextToken → ℕ → AuthCall
  revoke_call : String → String → String → String → ℕ → AuthCall

abbrev pub or_same : AuthTables → Option AuthTables → AuthTables
or_same tables none = tables
or_same tables (some tables') = tables'

unfoldable pub auth_call : ℕ → AuthCall → AuthTables → AuthTables
auth_call ttl (rotate_call society_id digest fingerprint drawn now) tables =
    tables_after tables (rotate_tables ttl society_id digest fingerprint drawn now tables)
auth_call ttl (revoke_call society_id user_id session_id reason now) tables =
    or_same tables (revoke_tables society_id user_id session_id reason now tables)

unfoldable pub auth_calls : ℕ → List AuthCall → AuthTables → AuthTables
unfolding auth_call
auth_calls ttl [] tables = tables
auth_calls ttl (call ∷ calls) tables = auth_calls ttl calls (auth_call ttl call tables)

-- The tokens after each call.
end_family-TokenStep :
    (society_id : String) (compromise : Bool) (session_id family_id : String) (now : ℕ)
    (tables : AuthTables)
    → TokenStep tables.tokens
        (end_family society_id compromise session_id family_id now tables).tokens
unfolding end_family
end_family-TokenStep society_id compromise session_id family_id now tables = calmed _ (
    Calms-changed (is_in_family society_id family_id) (fail_token compromise now)
      (fail_token-dead compromise now))

pub fresh-active :
    (t : RefreshToken)
    → is_replayed t ≡ false
    → has_session_status t.status SessionStatus.active ≡ true
unfolding is_replayed
fresh-active t h = ground arith

is_fresh_self : (t : RefreshToken) → is_replayed t ≡ false → is_fresh t.id t ≡ true
is_fresh_self t h = ground (arith, eq_iff t.id t.id)

issue_next-TokenStep :
    (ttl : ℕ) (society_id : String) (drawn : NextToken) (now : ℕ) (view : TokenView)
    (tables : AuthTables)
    → Memᴰ view.token tables.tokens
    → view.token.society_id ≡ society_id
    → is_replayed view.token ≡ false
    → TokenStep tables.tokens
        (tables_after tables (issue_next ttl society_id drawn now view tables)).tokens
unfolding issue_next consume_token refuse_token end_family
issue_next-TokenStep ttl society_id drawn now view tables m soc fresh =
    let consumes = Calms-changed (is_fresh view.token.id) (consume now) (consume-dead now) in
    elim (Bool-cases (length (filter (is_fresh view.token.id) tables.tokens) == 1)) [
      | inr lost ↦ rw lost (
          calmed_twice _ _ consumes (
            Calms-changed (is_in_family society_id view.token.family_id) (fail_token true now)
              (fail_token-dead true now)))
      | inl one ↦ rw one (
          replaced _ view.token (next_token ttl society_id now drawn view) consumes m
            (fresh-active view.token fresh)
            (ap
                (λ (b : Bool).
                  has_session_status (if b then consume now view.token else view.token).status
                    SessionStatus.active)
                (is_fresh_self view.token fresh)
              ∙ consume-dead now view.token)
            refl (sym soc))
    ]

rotate_view-TokenStep :
    (ttl : ℕ) (society_id fingerprint : String) (drawn : NextToken) (now : ℕ) (view : TokenView)
    (tables : AuthTables)
    → Memᴰ view.token tables.tokens
    → view.token.society_id ≡ society_id
    → TokenStep tables.tokens
        (tables_after tables (rotate_view ttl society_id fingerprint drawn now view tables)).tokens
unfolding rotate_view refuse_token
rotate_view-TokenStep ttl society_id fingerprint drawn now view tables m soc =
    let misused =
      is_replayed view.token || not (digest_matches fingerprint view.device.fingerprint_digest) in
    elim (Bool-cases (misused || not (is_active now view))) [
      | inl bad ↦ rw bad (
          end_family-TokenStep society_id misused view.token.session_id view.token.family_id now
            tables)
      | inr good ↦
          rw good (issue_next-TokenStep ttl society_id drawn now view tables m soc (ground arith))
    ]

token_of : Option TokenView → Option RefreshToken
token_of none = none
token_of (some view) = some view.token

view_token-token :
    (society_id digest : String) (tables : AuthTables) (view : TokenView)
    → view_token society_id digest tables ≡ some view
    → find_token society_id digest tables.tokens ≡ some view.token
unfolding view_token token_of
view_token-token society_id digest tables view h =
    let (token, q, rest) = bind-some (find_token society_id digest tables.tokens) _ view h in
    let (session, _, rest) =
      bind-some (find (λ s. str_eq s.id token.session_id) tables.sessions) _ view rest in
    let (user, _, rest) =
      bind-some (find (λ u. str_eq u.id session.user_id) tables.users) _ view rest in
    let (device, _, rest) = bind-some (find_device session.device_id tables.devices) _ view rest in
    q ∙ ap token_of rest

-- A token that is found is in the table, of the society, and has the digest.
pub view_token-parts :
    (society_id digest : String) (tables : AuthTables) (view : TokenView)
    → view_token society_id digest tables ≡ some view
    → Memᴰ view.token tables.tokens
      × (view.token.society_id ≡ society_id)
      × (view.token.token_digest ≡ digest)
unfolding find_token
view_token-parts society_id digest tables view h =
    let found = view_token-token society_id digest tables view h in
    let (m, q) =
      find-some (λ t. str_eq t.society_id society_id && str_eq t.token_digest digest) tables.tokens
        view.token found in
    (
      m,
      ground (arith, eq_iff view.token.society_id society_id),
      ground (arith, eq_iff view.token.token_digest digest),
    )

module _ (ttl : ℕ) (society_id digest fingerprint : String) (drawn : NextToken) (now : ℕ)
    (tables : AuthTables) where
  pub rotate_tables-none :
      view_token society_id digest tables ≡ none
      → rotate_tables ttl society_id digest fingerprint drawn now tables ≡ unknown
  unfolding rotate_tables
  rotate_tables-none q = rw (q, rotate_tables)

  pub rotate_tables-view :
      (view : TokenView)
      → view_token society_id digest tables ≡ some view
      → rotate_tables ttl society_id digest fingerprint drawn now tables
        ≡ rotate_view ttl society_id fingerprint drawn now view tables
  unfolding rotate_tables
  rotate_tables-view view q = rw (q, rotate_tables)

  rotate_tables-TokenStep :
      TokenStep tables.tokens
        (tables_after tables
          (rotate_tables ttl society_id digest fingerprint drawn now tables)).tokens
  rotate_tables-TokenStep = elim (Option-cases (view_token society_id digest tables)) [
    | inl nothing ↦
        subst (λ r. TokenStep tables.tokens (tables_after tables r).tokens)
          (sym (rotate_tables-none nothing)) unchanged
    | inr (view, q) ↦
        let (m, soc, _) = view_token-parts society_id digest tables view q in
        subst (λ r. TokenStep tables.tokens (tables_after tables r).tokens)
          (sym (rotate_tables-view view q))
          (rotate_view-TokenStep ttl society_id fingerprint drawn now view tables m soc)
  ]

pub rotate_tables-live_tokens :
    (ttl : ℕ) (society_id digest fingerprint : String) (drawn : NextToken) (now : ℕ)
    (tables : AuthTables) (s f : String)
    → live_tokens s f
        (tables_after tables
          (rotate_tables ttl society_id digest fingerprint drawn now tables)).tokens
      ≤ live_tokens s f tables.tokens
rotate_tables-live_tokens ttl society_id digest fingerprint drawn now tables s f =
    TokenStep-live_tokens s f
      (rotate_tables-TokenStep ttl society_id digest fingerprint drawn now tables)

revoke_tables-TokenStep :
    (society_id user_id session_id reason : String) (now : ℕ) (tables : AuthTables)
    → TokenStep tables.tokens
        (or_same tables (revoke_tables society_id user_id session_id reason now tables)).tokens
unfolding revoke_tables
revoke_tables-TokenStep society_id user_id session_id reason now tables =
    elim (Option-cases (
      find
        (λ s. str_eq s.id session_id && str_eq s.society_id society_id && str_eq s.user_id user_id)
        tables.sessions)) [
          | inl nothing ↦ rw nothing unchanged
          | inr (session, q) ↦ rw q (
              calmed _ (
                Calms-changed
                  (λ t.
                    str_eq t.session_id session.id
                    && has_session_status t.status SessionStatus.active)
                  (revoke_token now) (revoke_token-dead now)))
        ]

auth_call-TokenStep :
    (ttl : ℕ) (call : AuthCall) (tables : AuthTables)
    → TokenStep tables.tokens (auth_call ttl call tables).tokens
unfolding auth_call
auth_call-TokenStep ttl (rotate_call society_id digest fingerprint drawn now) tables =
    rotate_tables-TokenStep ttl society_id digest fingerprint drawn now tables
auth_call-TokenStep ttl (revoke_call society_id user_id session_id reason now) tables =
    revoke_tables-TokenStep society_id user_id session_id reason now tables

pub auth_calls-live_tokens :
    (ttl : ℕ) (calls : List AuthCall) (tables : AuthTables) (society_id family_id : String)
    → live_tokens society_id family_id (auth_calls ttl calls tables).tokens
      ≤ live_tokens society_id family_id tables.tokens
unfolding auth_calls
auth_calls-live_tokens ttl [] tables society_id family_id = omega arith
auth_calls-live_tokens ttl (call ∷ calls) tables society_id family_id = omega (
  arith,
  auth_calls-live_tokens ttl calls (auth_call ttl call tables) society_id family_id,
  TokenStep-live_tokens society_id family_id (auth_call-TokenStep ttl call tables),
)

-- Whatever tokens are presented and whatever sessions are revoked, a family that had at most one
-- active token before has at most one active token afterwards.
pub one_live_token :
    (ttl : ℕ) (calls : List AuthCall) (tables : AuthTables) (society_id family_id : String)
    → live_tokens society_id family_id tables.tokens ≤ 1
    → live_tokens society_id family_id (auth_calls ttl calls tables).tokens ≤ 1
one_live_token ttl calls tables society_id family_id h =
    omega (arith, auth_calls-live_tokens ttl calls tables society_id family_id)
