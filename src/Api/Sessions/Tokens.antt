-- ===== src/Api/Sessions/Tokens.antt =====
-- apps/api/src/modules/auth/session.service.ts: how many tokens of a family can still be presented,
-- and the changes of the table of tokens that do not raise this.
use mathlib.Core.List.{Memᴰ}
use manglam_balaji_managemen.Api.Sessions.{
  SessionStatus, SessionStatus-discrete, RefreshToken, has_session_status, consume, is_in_family,
  fail_token, revoke_token,
}
use manglam_balaji_managemen.Prelude.{
  ℕ, ◌+◌, ◌≤◌, ◌≡◌, inl, inr, refl, ap, subst, ◌∙◌, Bool, true, false, ◌&&◌, List, [], ◌∷◌, map,
  length, filter, String, str_eq, arith, Bool-cases, if◌then◌else◌,
}

-- A token of the family that can still be presented.
abbrev pub is_live : String → String → RefreshToken → Bool
is_live society_id family_id token =
    is_in_family society_id family_id token && has_session_status token.status SessionStatus.active

abbrev pub live_tokens : String → String → List RefreshToken → ℕ
live_tokens society_id family_id tokens = length (filter (is_live society_id family_id) tokens)

-- A change of tokens that makes none live.
abbrev pub Calms : (RefreshToken → RefreshToken) → Type 0
Calms f =
    (society_id family_id : String) (t : RefreshToken)
    → is_live society_id family_id (f t) ≡ true
    → is_live society_id family_id t ≡ true

live_tokens-map :
    (f : RefreshToken → RefreshToken) (society_id family_id : String) (tokens : List RefreshToken)
    → Calms f
    → live_tokens society_id family_id (map f tokens) ≤ live_tokens society_id family_id tokens
live_tokens-map f society_id family_id [] calms = omega arith
live_tokens-map f society_id family_id (t ∷ tokens) calms =
    let rest = live_tokens-map f society_id family_id tokens calms in
    elim (Bool-cases (is_live society_id family_id (f t))) [
      | inl after ↦ rw (after, calms society_id family_id t after) (omega arith)
      | inr calm ↦ rw calm (at_most t rest)
    ]
  where
    at_most :
        (t : RefreshToken)
        → length (filter (is_live society_id family_id) (map f tokens))
          ≤ live_tokens society_id family_id tokens
        → length (filter (is_live society_id family_id) (map f tokens))
          ≤ live_tokens society_id family_id (t ∷ tokens)
    at_most t h = elim (Bool-cases (is_live society_id family_id t)) [
      | inl before ↦ rw before (omega arith)
      | inr other ↦ rw other h
    ]

-- Where a live token is changed so that it is not live, there is one less.
live_tokens-map_lt :
    (f : RefreshToken → RefreshToken) (society_id family_id : String) (tokens : List RefreshToken)
    (t : RefreshToken)
    → Calms f
    → Memᴰ t tokens
    → is_live society_id family_id t ≡ true
    → is_live society_id family_id (f t) ≡ false
    → live_tokens society_id family_id (map f tokens) + 1 ≤ live_tokens society_id family_id tokens
live_tokens-map_lt f society_id family_id [] t calms m live gone = elim m [ ]
live_tokens-map_lt f society_id family_id (u ∷ tokens) t calms (Memᴰ.head e) live gone =
    let here : is_live society_id family_id u ≡ true =
      subst (λ x. is_live society_id family_id x ≡ true) e live in
    let away : is_live society_id family_id (f u) ≡ false =
      subst (λ x. is_live society_id family_id (f x) ≡ false) e gone in
    rw (here, away) (omega (arith, live_tokens-map f society_id family_id tokens calms))
live_tokens-map_lt f society_id family_id (u ∷ tokens) t calms (Memᴰ.tail m) live gone =
    let rest = live_tokens-map_lt f society_id family_id tokens t calms m live gone in
    elim (Bool-cases (is_live society_id family_id (f u))) [
      | inl after ↦ rw (after, calms society_id family_id u after) (omega arith)
      | inr calm ↦ elim (Bool-cases (is_live society_id family_id u)) [
        | inl before ↦ rw (calm, before) (omega arith)
        | inr other ↦ rw (calm, other) rest
      ]
    ]

module _ (c : RefreshToken → Bool) (g : RefreshToken → RefreshToken) where
  abbrev pub changed : RefreshToken → RefreshToken
  changed t = if c t then g t else t

  pub Calms-changed :
      ((t : RefreshToken) → has_session_status (g t).status SessionStatus.active ≡ false)
      → Calms changed
  Calms-changed dead society_id family_id t live = elim (Bool-cases (c t)) [
    | inl here ↦ absurd (not_live t (dead t) (rw here at live))
    | inr other ↦ rw other at live
  ]
    where
      not_live :
          (t : RefreshToken)
          → has_session_status (g t).status SessionStatus.active ≡ false
          → is_live society_id family_id (g t) ≡ true
          → ⊥
      not_live t d l = absurd (ground arith)

pub fail_token-dead :
    (compromise : Bool) (now : ℕ) (t : RefreshToken)
    → has_session_status (fail_token compromise now t).status SessionStatus.active ≡ false
unfolding SessionStatus-discrete
fail_token-dead true now t = refl
fail_token-dead false now t = refl

pub consume-dead :
    (now : ℕ) (t : RefreshToken)
    → has_session_status (consume now t).status SessionStatus.active ≡ false
unfolding SessionStatus-discrete
consume-dead now t = refl

pub revoke_token-dead :
    (now : ℕ) (t : RefreshToken)
    → has_session_status (revoke_token now t).status SessionStatus.active ≡ false
unfolding SessionStatus-discrete
revoke_token-dead now t = refl

-- What a call may do to the tokens: calm some of them, and where it issues a new one, calm the
-- token that was presented, which was live.
pub data TokenStep (before : List RefreshToken) : List RefreshToken → Type 0 where
  unchanged : TokenStep before before
  calmed : (f : RefreshToken → RefreshToken) → Calms f → TokenStep before (map f before)
  calmed_twice :
      (f g : RefreshToken → RefreshToken)
      → Calms f
      → Calms g
      → TokenStep before (map g (map f before))
  replaced :
      (f : RefreshToken → RefreshToken) (old new : RefreshToken)
      → Calms f
      → Memᴰ old before
      → has_session_status old.status SessionStatus.active ≡ true
      → has_session_status (f old).status SessionStatus.active ≡ false
      → new.family_id ≡ old.family_id
      → new.society_id ≡ old.society_id
      → TokenStep before (new ∷ map f before)

live_tokens-cons :
    (society_id family_id : String) (t : RefreshToken) (tokens : List RefreshToken)
    → live_tokens society_id family_id (t ∷ tokens) ≤ live_tokens society_id family_id tokens + 1
live_tokens-cons society_id family_id t tokens =
    elim (Bool-cases (is_live society_id family_id t)) [
      | inl live ↦ rw live (omega arith)
      | inr calm ↦ rw calm (omega arith)
    ]

live_tokens-cons_other :
    (society_id family_id : String) (t : RefreshToken) (tokens : List RefreshToken)
    → is_in_family society_id family_id t ≡ false
    → live_tokens society_id family_id (t ∷ tokens) ≡ live_tokens society_id family_id tokens
live_tokens-cons_other society_id family_id t tokens other =
    let calm : is_live society_id family_id t ≡ false = ground arith in rw calm refl

pub TokenStep-live_tokens :
    (society_id family_id : String) {before after : List RefreshToken}
    → TokenStep before after
    → live_tokens society_id family_id after ≤ live_tokens society_id family_id before
TokenStep-live_tokens society_id family_id unchanged = omega arith
TokenStep-live_tokens society_id family_id {before} (calmed f calms) =
    omega (arith, live_tokens-map f society_id family_id before calms)
TokenStep-live_tokens society_id family_id {before} (calmed_twice f g calms calms') = omega (
  arith,
  live_tokens-map f society_id family_id before calms,
  live_tokens-map g society_id family_id (map f before) calms',
)
TokenStep-live_tokens society_id family_id {before} (replaced f old new calms m was gone fam soc) =
    elim (Bool-cases (is_in_family society_id family_id old)) [
      | inl here ↦ omega (
        arith,
        live_tokens-cons society_id family_id new (map f before),
        live_tokens-map_lt f society_id family_id before old calms m (ground arith) (ground arith),
      )
      | inr other ↦ omega (
        arith,
        live_tokens-cons_other society_id family_id new (map f before) (
            ap (λ x. str_eq x family_id && str_eq new.society_id society_id) fam
            ∙ ap (λ x. str_eq old.family_id family_id && str_eq x society_id) soc
            ∙ other),
        live_tokens-map f society_id family_id before calms,
      )
    ]
