-- ===== src/Api/Sessions/Reuse.antt =====
-- apps/api/src/modules/auth/session.service.ts: a token that is presented twice ends its session.
use mathlib.Core.List.{Memᴰ}
use manglam_balaji_managemen.Api.Sessions.{
  RefreshToken, AuthTables, TokenView, NextToken, is_replayed, is_in_family, fail_token, end_family,
  refuse_token, rotate_view, rotate_tables, view_token, refused, rotated, tables_after,
}
use manglam_balaji_managemen.Api.Sessions.Families.{
  AuthCall, auth_calls, auth_calls-live_tokens, view_token-parts, rotate_tables-view, fresh-active,
}
use manglam_balaji_managemen.Api.Sessions.Tokens.{is_live, live_tokens, fail_token-dead}
use manglam_balaji_managemen.Prelude.{
  ℕ, ◌≤◌, ◌≡◌, ◌≢◌, inl, inr, refl, sym, ap, subst, ◌∙◌, Bool, true, false, List, [], ◌∷◌, map,
  some, String, eq_iff, arith, Bool-cases, if◌then◌else◌,
}

-- A family with a live token in the table.
live_tokens_of_mem :
    (society_id family_id : String) (tokens : List RefreshToken) {t : RefreshToken}
    → Memᴰ t tokens
    → is_live society_id family_id t ≡ true
    → 1 ≤ live_tokens society_id family_id tokens
live_tokens_of_mem society_id family_id [] m live = elim m [ ]
live_tokens_of_mem society_id family_id (u ∷ tokens) (Memᴰ.head e) live =
    let here : is_live society_id family_id u ≡ true =
      subst (λ x. is_live society_id family_id x ≡ true) e live in
    rw here (omega arith)
live_tokens_of_mem society_id family_id (u ∷ tokens) (Memᴰ.tail m) live =
    let rest = live_tokens_of_mem society_id family_id tokens m live in
    elim (Bool-cases (is_live society_id family_id u)) [
      | inl here ↦ rw here (omega arith)
      | inr other ↦ rw other rest
    ]

-- Once a family is ended, none of its tokens is live.
ended-live_tokens :
    (society_id family_id : String) (compromise : Bool) (now : ℕ) (tokens : List RefreshToken)
    → live_tokens society_id family_id (
        map
          (λ t. if is_in_family society_id family_id t then fail_token compromise now t else t)
          tokens)
      ≡ 0
ended-live_tokens society_id family_id compromise now [] = refl
ended-live_tokens society_id family_id compromise now (t ∷ tokens) =
    let rest = ended-live_tokens society_id family_id compromise now tokens in
    elim (Bool-cases (is_in_family society_id family_id t)) [
      | inl here ↦
          let calm : is_live society_id family_id (fail_token compromise now t) ≡ false =
            ground (arith, fail_token-dead compromise now t) in
          rw (here, calm) rest
      | inr other ↦
          let calm : is_live society_id family_id t ≡ false = ground arith in rw (other, calm) rest
    ]

rotate_view-misused :
    (ttl : ℕ) (society_id fingerprint : String) (drawn : NextToken) (now : ℕ) (view : TokenView)
    (tables : AuthTables)
    → is_replayed view.token ≡ true
    → rotate_view ttl society_id fingerprint drawn now view tables
      ≡ refuse_token true view society_id now tables
unfolding rotate_view
rotate_view-misused ttl society_id fingerprint drawn now view tables h = rw h refl

rotate_view-rotated :
    (ttl : ℕ) (society_id fingerprint : String) (drawn : NextToken) (now : ℕ) (view : TokenView)
    (tables : AuthTables) (token : RefreshToken) (view' : TokenView) (tables' : AuthTables)
    → rotate_view ttl society_id fingerprint drawn now view tables ≡ rotated token view' tables'
    → is_replayed view.token ≡ false
unfolding refuse_token
rotate_view-rotated ttl society_id fingerprint drawn now view tables token view' tables' h =
    elim (Bool-cases (is_replayed view.token)) [
      | inr fresh ↦ fresh
      | inl used ↦ cc (rotate_view-misused ttl society_id fingerprint drawn now view tables used, h)
    ]

refused_view :
    (ttl : ℕ) (society_id digest fingerprint : String) (drawn : NextToken) (now : ℕ)
    (tables : AuthTables) (view : TokenView)
    → view_token society_id digest tables ≡ some view
    → is_replayed view.token ≡ true
    → rotate_tables ttl society_id digest fingerprint drawn now tables
      ≡ refused true view
          (end_family society_id true view.token.session_id view.token.family_id now tables)
unfolding refuse_token
refused_view ttl society_id digest fingerprint drawn now tables view found used =
    rotate_tables-view ttl society_id digest fingerprint drawn now tables view found
    ∙ rotate_view-misused ttl society_id fingerprint drawn now view tables used

end_family-live_tokens :
    (society_id : String) (view : TokenView) (now : ℕ) (tables : AuthTables)
    → live_tokens society_id view.token.family_id
        (end_family society_id true view.token.session_id view.token.family_id now tables).tokens
      ≡ 0
unfolding end_family
end_family-live_tokens society_id view now tables =
    ended-live_tokens society_id view.token.family_id true now tables.tokens

-- Without a live token in the table, none of the family is exchanged.
no_live_rotated :
    (ttl : ℕ) (society_id digest fingerprint : String) (drawn : NextToken) (now : ℕ)
    (tables : AuthTables) (view : TokenView) (family_id : String) (token : RefreshToken)
    (view' : TokenView) (tables' : AuthTables)
    → view_token society_id digest tables ≡ some view
    → view.token.family_id ≡ family_id
    → live_tokens society_id family_id tables.tokens ≡ 0
    → rotate_tables ttl society_id digest fingerprint drawn now tables ≢ rotated token view' tables'
no_live_rotated ttl society_id digest fingerprint drawn now tables view family_id token view'
      tables' found same_family none_live again =
    let (m, soc, _) = view_token-parts society_id digest tables view found in
    let fresh =
      rotate_view-rotated ttl society_id fingerprint drawn now view tables token view' tables' (
        sym (rotate_tables-view ttl society_id digest fingerprint drawn now tables view found)
        ∙ again) in
    let live : is_live society_id family_id view.token ≡ true = ground (
      arith,
      eq_iff view.token.family_id family_id,
      eq_iff view.token.society_id society_id,
      fresh-active view.token fresh,
    ) in
    absurd (omega (arith, live_tokens_of_mem society_id family_id tables.tokens m live, none_live))

-- A token that was already exchanged, or whose own status is no longer active, ends its whole family
-- when it is presented: it is refused as compromised, and whatever tokens are presented and
-- sessions revoked afterwards, no token of the family is active, and one that is presented then
-- is not exchanged. (A token that is still active is not of this kind, even if its session has
-- expired.)
pub reuse_ends_family :
    (ttl : ℕ) (society_id digest fingerprint : String) (drawn : NextToken) (now : ℕ)
    (tables : AuthTables) (view : TokenView)
    → view_token society_id digest tables ≡ some view
    → is_replayed view.token ≡ true
    → (calls : List AuthCall) (digest' fingerprint' : String) (drawn' : NextToken) (now' : ℕ)
      (later : TokenView)
    → let r = rotate_tables ttl society_id digest fingerprint drawn now tables in
      let tables' = auth_calls ttl calls (tables_after tables r) in
      view_token society_id digest' tables' ≡ some later
      → later.token.family_id ≡ view.token.family_id
      → (r
          ≡ refused true view
              (end_family society_id true view.token.session_id view.token.family_id now tables))
        × (live_tokens society_id view.token.family_id tables'.tokens ≡ 0)
        × ((token : RefreshToken) (view' : TokenView) (tables'' : AuthTables)
            → rotate_tables ttl society_id digest' fingerprint' drawn' now' tables'
              ≢ rotated token view' tables'')
reuse_ends_family ttl society_id digest fingerprint drawn now tables view found used calls digest'
      fingerprint' drawn' now' later found' same_family =
    let family_id = view.token.family_id in
    let r = rotate_tables ttl society_id digest fingerprint drawn now tables in
    let first = refused_view ttl society_id digest fingerprint drawn now tables view found used in
    let none_live : live_tokens society_id family_id (tables_after tables r).tokens ≡ 0 =
      ap (λ x. live_tokens society_id family_id (tables_after tables x).tokens) first
      ∙ end_family-live_tokens society_id view now tables in
    let still_none : live_tokens society_id family_id
          (auth_calls ttl calls (tables_after tables r)).tokens
        ≡ 0 =
      omega (
        arith,
        none_live,
        auth_calls-live_tokens ttl calls (tables_after tables r) society_id family_id,
      ) in
    (
      first,
      still_none,
      λ token view' tables'' again.
          no_live_rotated ttl society_id digest' fingerprint' drawn' now'
            (auth_calls ttl calls (tables_after tables r)) later family_id token view' tables''
            found' same_family still_none again,
    )
