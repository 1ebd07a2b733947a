-- ===== src/Examples/Api.antt =====
-- apps/api/src at small tables, with toy functions for the hashes and the cipher.
use mathlib.Core.List.{Memᴰ}
use manglam_balaji_managemen.Api.Attempts.{AuthenticationMethod, CredentialAttemptKeys}
use manglam_balaji_managemen.Api.Attempts.Limits.{Try, attempts, IsLimited, attempts-IsLimited}
use manglam_balaji_managemen.Api.Errors.{Thrown, answer, throw, api_error}
use manglam_balaji_managemen.Api.Journal.{
  RecordStatus, MutationActor, BeginMutationInput, execute, replay, IdempotencyRow, begin,
  is_idempotency_key, upsert, is_key, answer_record, new_record,
}
use manglam_balaji_managemen.Api.Journal.Commit.{
  complete_record, update_record, CommitMutationInput, AuditEntry, AuditMaterial, newest,
}
use manglam_balaji_managemen.Api.Journal.Commit.Chain.{
  append_audit-links, next_hash, entry, is_greater,
}
use manglam_balaji_managemen.Api.Journal.Exclusion.{begin_excludes, begin-replays}
use manglam_balaji_managemen.Api.Journal.Turns.{Journaled}
use manglam_balaji_managemen.Api.Sessions.{
  SessionStatus, SessionStatus-discrete, User, UserStatus, Device, UserSession, SessionKind,
  RefreshToken, AuthTables, TokenView, NextToken, view_token, is_replayed, rotate_tables,
  rotate_view, refuse_token, fail_token, fail_session, refused, rotated, end_family, tables_after,
}
use manglam_balaji_managemen.Api.Sessions.Families.{
  AuthCall, rotate_call, auth_calls, one_live_token,
}
use manglam_balaji_managemen.Api.Sessions.Tokens.{live_tokens}
use manglam_balaji_managemen.Api.Sessions.Reuse.{reuse_ends_family}
use manglam_balaji_managemen.Types.Enums.Platform.{DeviceStatus}
use manglam_balaji_managemen.Prelude.{
  ◌<◌, find, ℕ, ◌≤◌, ◌≡◌, ◌≢◌, refl, true, false, List, [], ◌∷◌, none, some, String, str_eq, eq_iff,
  if◌then◌else◌, ◌==◌, ◌&&◌, uncons-mem, inl, inr, arith,
}

abbrev keys : CredentialAttemptKeys
keys = record { origin_digest = none; subject_digest = "subject-1" }

abbrev wrong_at : ℕ → Try
wrong_at time = record {
  keys = keys;
  method = AuthenticationMethod.guard_pin;
  society_id = "s1";
  time = time;
  accepted = false;
}

abbrev seven_tries : List Try
seven_tries =
    wrong_at 1000000
    ∷ wrong_at 1000001
    ∷ wrong_at 1000002
    ∷ wrong_at 1000003
    ∷ wrong_at 1000004
    ∷ wrong_at 1000005
    ∷ wrong_at 2000000
    ∷ []

attempts-IsLimited_example :
    IsLimited AuthenticationMethod.guard_pin "s1" "subject-1" (attempts seven_tries [])
attempts-IsLimited_example =
    attempts-IsLimited AuthenticationMethod.guard_pin "s1" "subject-1" seven_tries []
      (λ start. omega arith)

-- A request by a visitor's gate, and its hash: the request itself.
abbrev toy_hash : String → String
toy_hash request = request

abbrev actor : MutationActor
actor = record {
  actor_scope_key = "session:1";
  device_id = none;
  gate_id = none;
  guard_device_id = none;
  session_id = some "1";
  user_id = some "u1";
}

abbrev check_in : BeginMutationInput String
check_in = record {
  actor = actor;
  idempotency_key = "check-in-0000001";
  operation = "visit.check_in";
  request = "v1";
  society_id = "s1";
}

abbrev decrypt : ℕ → ℕ
decrypt body = body

abbrev claimed : IdempotencyRow ℕ
claimed = new_record check_in "v1" "r1" 5000

check_in_executes :
    begin decrypt toy_hash check_in "r1" 5000 [] ≡ answer (execute "r1" "v1", claimed ∷ [])
unfolding begin is_idempotency_key upsert answer_record
check_in_executes = refl

r2-new : ¬ (Memᴰ {A = String} "r2" ("r1" ∷ []))
r2-new m = elim (uncons-mem m) [ inl e ↦ ground (arith, eq_iff "r2" "r1") | inr n ↦ elim n [ ] ]

abbrev approved : CommitMutationInput ℕ
approved = record {
  action = "visit.approve";
  audit_outcome = none;
  actor = actor;
  aggregate_id = "v1";
  aggregate_type = "Visit";
  correlation_id = "c1";
  entity_id = some "v1";
  entity_type = "Visit";
  event_type = "visit.approved";
  idempotency_record_id = "r1";
  metadata = none;
  outbox_payload = none;
  outbox_payload_mode = none;
  new_values = none;
  operation_key = none;
  previous_values = none;
  reason = none;
  response = 7;
  response_status = 200;
  society_id = "s1";
}

-- Meanwhile another mutation is claimed under another key, and commits.
abbrev check_out : BeginMutationInput String
check_out = record check_in { idempotency_key = "check-out-000002"; operation = "visit.check_out" }

abbrev other_claimed : IdempotencyRow ℕ
other_claimed = new_record check_out "v1" "r3" 6000

check_out_executes :
    begin decrypt toy_hash check_out "r3" 6000 (claimed ∷ [])
    ≡ answer (execute "r3" "v1", other_claimed ∷ claimed ∷ [])
unfolding begin is_idempotency_key upsert answer_record is_key
check_out_executes = refl

abbrev check_out_commit : CommitMutationInput ℕ
check_out_commit = record approved { idempotency_record_id = "r3" }

abbrev after_commit : List (IdempotencyRow ℕ)
after_commit = complete_record decrypt check_out_commit other_claimed ∷ claimed ∷ []

check_out_commits :
    update_record decrypt check_out_commit (other_claimed ∷ claimed ∷ []) ≡ answer after_commit
unfolding update_record
check_out_commits = refl

r3-new : ¬ (Memᴰ {A = String} "r3" ("r1" ∷ []))
r3-new m = elim (uncons-mem m) [ inl e ↦ ground (arith, eq_iff "r3" "r1") | inr n ↦ elim n [ ] ]

r2-new_among : ¬ (Memᴰ {A = String} "r2" ("r3" ∷ "r1" ∷ []))
r2-new_among m = elim (uncons-mem m) [ inl e ↦ ground (arith, eq_iff "r2" "r3") | inr n ↦ r2-new n ]

r3-not_kept : ◌≢◌ {A = String} "r3" "r1"
r3-not_kept e = ground (arith, eq_iff "r3" "r1")

meanwhile : Journaled decrypt toy_hash (λ time. time < 35000) "r1" (claimed ∷ []) after_commit
meanwhile =
    Journaled.commit_step
      (Journaled.claim_step Journaled.start check_out "r3" 6000 (execute "r3" "v1") r3-new
        (omega arith) check_out_executes)
      decrypt check_out_commit r3-not_kept check_out_commits

begin_excludes_example :
    (e : Thrown) × (begin decrypt toy_hash check_in "r2" 20000 after_commit ≡ throw e)
begin_excludes_example =
    begin_excludes decrypt toy_hash check_in "r1" 5000 [] "r1" "v1" (claimed ∷ []) after_commit tt
      (λ m. elim m [ ]) check_in_executes meanwhile check_in "r2" 20000 refl (omega arith)
      r2-new_among

abbrev answered : IdempotencyRow ℕ
answered = record claimed {
  status = RecordStatus.completed;
  response_body = some 7;
  response_status = some 200;
  locked_until = none;
}

key_allowed : is_idempotency_key "check-in-0000001" ≡ true
unfolding is_idempotency_key
key_allowed = refl

answered_here :
    (find (λ row. is_key row.unique_key claimed.unique_key) (answered ∷ [])) ≡ some answered
unfolding is_key
answered_here = refl

begin-replays_example : begin decrypt toy_hash check_in "r2" 90000 (answered ∷ []) ≡ (
    if str_eq "v1" "v1"
    then answer (replay 7, answered ∷ [])
    else throw (
        api_error "IDEMPOTENCY_KEY_REUSED"
          (("operation", "visit.check_in") ∷ [])
          "This idempotency key was already used for a different request."
          409))
begin-replays_example =
    begin-replays decrypt toy_hash check_in 7 answered (answered ∷ []) (answered ∷ [])
      ((λ m. elim m [ ]), tt) answered_here (refl, refl) Journaled.start key_allowed "r2" 90000
      r2-new

abbrev toy_entry_hash : AuditMaterial → String
toy_entry_hash material = material.action

-- The first entry of its society.
abbrev first_entry : AuditEntry
first_entry = entry toy_entry_hash approved "id-b" 5000 []

-- The next entry is of the same millisecond, and the id drawn for it is the smaller one.
first_found : newest "s1" (first_entry ∷ []) ≡ some first_entry
unfolding newest
first_found = refl

append_audit-links_example :
    ((entry toy_entry_hash approved "id-a" 5000 (first_entry ∷ [])).material.previous_hash
      ≡ some "visit.approve")
    × (next_hash toy_entry_hash approved "id-a" 5000 (first_entry ∷ []) approved
        ≡ some (
            if first_entry.material.occurred_at == 5000 && is_greater first_entry.id "id-a"
            then first_entry.entry_hash
            else (entry toy_entry_hash approved "id-a" 5000 (first_entry ∷ [])).entry_hash))
append_audit-links_example =
    append_audit-links toy_entry_hash approved approved "id-a" 5000 (first_entry ∷ []) first_entry
      refl first_found (omega arith)

abbrev digest : String
digest = "aaaaaaaaaaaaaaaaaaaaaaaaaaaaaaaaaaaaaaaaaaaaaaaaaaaaaaaaaaaaaaaa"

abbrev session : UserSession
session = record {
  id = "session-1";
  society_id = "s1";
  user_id = "u1";
  device_id = some "d1";
  kind = SessionKind.resident;
  refresh_token_family_id = "family-1";
  status = SessionStatus.active;
  absolute_expires_at = 9000000;
  idle_expires_at = 8000000;
  last_seen_at = 1000;
  revoked_at = none;
  revocation_reason = none;
  ip_address = none;
  user_agent_hash = none;
}

-- A token that was exchanged, and the one that was given for it.
abbrev spent : RefreshToken
spent = record {
  id = "t1";
  society_id = "s1";
  session_id = "session-1";
  family_id = "family-1";
  parent_token_id = none;
  token_digest = "first";
  status = SessionStatus.revoked;
  expires_at = 9000000;
  consumed_at = some 2000;
  revoked_at = none;
}

abbrev current : RefreshToken
current = record spent {
  id = "t2";
  parent_token_id = some "t1";
  token_digest = "second";
  status = SessionStatus.active;
  consumed_at = none;
}

abbrev user : User
user = record { id = "u1"; status = UserStatus.active; last_authenticated_at = none }

abbrev phone : Device
phone = record {
  id = "d1";
  society_id = "s1";
  user_id = some "u1";
  fingerprint_digest = digest;
  status = DeviceStatus.active;
  guard_status = none;
  label = none;
  platform = "ANDROID";
  app_version = none;
  operating_system = none;
  last_seen_at = 1000;
}

abbrev auth : AuthTables
auth = record {
  users = user ∷ [];
  devices = phone ∷ [];
  sessions = session ∷ [];
  tokens = current ∷ spent ∷ [];
}

abbrev spent_view : TokenView
spent_view = record { token = spent; session = session; user = user; device = phone }

abbrev drawn : NextToken
drawn = record { id = "t3"; digest = λ family_id. "third" }

spent_found : view_token "s1" "first" auth ≡ some spent_view
unfolding view_token
spent_found = refl

spent_replayed : is_replayed spent ≡ true
unfolding is_replayed SessionStatus-discrete
spent_replayed = refl

one_before : live_tokens "s1" "family-1" auth.tokens ≤ 1
unfolding SessionStatus-discrete
one_before = omega arith

abbrev calls : List AuthCall
calls =
    rotate_call "s1" "second" digest drawn 3000 ∷ rotate_call "s1" "second" digest drawn 4000 ∷ []

one_live_token_example : live_tokens "s1" "family-1" (auth_calls 100 calls auth).tokens ≤ 1
one_live_token_example = one_live_token 100 calls auth "s1" "family-1" one_before

-- The second token, when it is presented after the first one was presented again, and refused.
abbrev ended_view : TokenView
ended_view = record {
  token = fail_token true 4000 (fail_token true 3000 current);
  session = fail_session true 4000 (fail_session true 3000 session);
  user = user;
  device = phone;
}

abbrev second_call : List AuthCall
second_call = rotate_call "s1" "second" digest drawn 4000 ∷ []

ended_found :
    view_token "s1" "second" (
      auth_calls 100 second_call
        (tables_after auth (rotate_tables 100 "s1" "first" digest drawn 3000 auth)))
    ≡ some ended_view
unfolding view_token auth_calls rotate_tables rotate_view refuse_token end_family is_replayed
    SessionStatus-discrete
ended_found = refl

reuse_ends_family_example :
    let r = rotate_tables 100 "s1" "first" digest drawn 3000 auth in
    let ended = auth_calls 100 second_call (tables_after auth r) in
    (r ≡ refused true spent_view (end_family "s1" true "session-1" "family-1" 3000 auth))
    × (live_tokens "s1" "family-1" ended.tokens ≡ 0)
    × ((token : RefreshToken) (view' : TokenView) (tables'' : AuthTables)
        → rotate_tables 100 "s1" "second" digest drawn 5000 ended ≢ rotated token view' tables'')
reuse_ends_family_example =
    reuse_ends_family 100 "s1" "first" digest drawn 3000 auth spent_view spent_found spent_replayed
      second_call "second" digest drawn 5000 ended_view ended_found refl
