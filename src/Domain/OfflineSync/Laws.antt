-- ===== src/Domain/OfflineSync/Laws.antt =====
-- packages/domain/src/offline-sync.ts: which offline changes are accepted, and in which order.
use mathlib.Core.List.{Memᴰ}
use manglam_balaji_managemen.Domain.Codes.{constant_time_digest_equal}
use manglam_balaji_managemen.Domain.Codes.Digests.{SameDigest, constant_time_digest_equal_iff}
use manglam_balaji_managemen.Domain.OfflineSync.{
  SyncRequest, OfflineSyncDecision, accept, RejectCode, allowed_offline_operations, is_over,
  device_refusal, is_too_early, is_too_late, skew_ms, clock_refusal, differ, order_decision,
  or_reject, hash_canonical_payload, sign_offline_mutation, evaluate_offline_mutation, hash_refusal,
  signed_refusal,
}
use manglam_balaji_managemen.Js.Date.{date_parse}
use manglam_balaji_managemen.Types.Enums.Platform.{
  DeviceStatus, OfflineMutationOperation, OfflineMutationOperation-discrete,
}
use manglam_balaji_managemen.Prelude.{
  ℕ, ◌+◌, ◌*◌, ◌≤◌, ◌<◌, [], ◌∷◌, sym, Bool-cases, ◌≡◌, ◌↔◌, inl, inr, refl, ap, true, false, List,
  Option, none, some, String, arith, includes, any, str_eq, eq_iff, Option-cases, ◌>>=◌,
}

-- The operations that a device may carry out offline: all but the decision of a resident.
abbrev pub IsOffline : OfflineMutationOperation → Type 0
IsOffline OfflineMutationOperation.visit_prepare = Unit
IsOffline OfflineMutationOperation.visit_manual_entry = Unit
IsOffline OfflineMutationOperation.visit_check_out = Unit
IsOffline OfflineMutationOperation.daily_help_check_in = Unit
IsOffline OfflineMutationOperation.daily_help_check_out = Unit
IsOffline OfflineMutationOperation.emergency_acknowledge = Unit
IsOffline OfflineMutationOperation.resident_visitor_approval = ⊥

allowed_offline_operations-IsOffline :
    (o : OfflineMutationOperation)
    → (includes OfflineMutationOperation-discrete allowed_offline_operations o ≡ true) ↔ IsOffline o
unfolding OfflineMutationOperation-discrete
allowed_offline_operations-IsOffline OfflineMutationOperation.visit_prepare = (λ h. tt, λ h. refl)
allowed_offline_operations-IsOffline OfflineMutationOperation.visit_manual_entry =
    (λ h. tt, λ h. refl)
allowed_offline_operations-IsOffline OfflineMutationOperation.visit_check_out = (λ h. tt, λ h. refl)
allowed_offline_operations-IsOffline OfflineMutationOperation.daily_help_check_in =
    (λ h. tt, λ h. refl)
allowed_offline_operations-IsOffline OfflineMutationOperation.daily_help_check_out =
    (λ h. tt, λ h. refl)
allowed_offline_operations-IsOffline OfflineMutationOperation.emergency_acknowledge =
    (λ h. tt, λ h. refl)
allowed_offline_operations-IsOffline OfflineMutationOperation.resident_visitor_approval =
    (λ h. cc, λ h. elim h [ ])

any-mem_iff :
    (ids : List String) (id : String) → (any (λ other. str_eq other id) ids ≡ true) ↔ Memᴰ id ids
any-mem_iff [] id = (λ h. cc, λ m. elim m [ ])
any-mem_iff (x ∷ ids) id = (
  λ h. elim (Bool-cases (str_eq x id)) [
    | inl here ↦ Memᴰ.head (sym ((eq_iff x id).0 here))
    | inr other ↦ Memᴰ.tail ((any-mem_iff ids id).0 (ground arith))
  ],
  λ m. elim m [
    | Memᴰ.head e ↦ ground (arith, (eq_iff x id).1 (sym e))
    | Memᴰ.tail n ↦ ground (arith, (any-mem_iff ids id).1 n)
  ],
)

is_over_iff :
    (now expires_at : Option ℕ)
    → (is_over now expires_at ≡ false) ↔ ((t e : ℕ) → now ≡ some t → expires_at ≡ some e → t < e)
is_over_iff none expires_at = (λ h t e p. cc, λ h. refl)
is_over_iff (some t) none = (λ h t e p q. cc, λ h. refl)
is_over_iff (some t) (some e) = (λ h t' e' p q. ground arith, λ h. ground (arith, h t e refl refl))

is_too_early_iff :
    (occurred_at : ℕ) (issued_at : Option ℕ) (skew : ℕ)
    → (is_too_early occurred_at issued_at skew ≡ false)
      ↔ ((i : ℕ) → issued_at ≡ some i → i ≤ occurred_at + skew)
is_too_early_iff occurred_at none skew = (λ h i p. cc, λ h. refl)
is_too_early_iff occurred_at (some i) skew = (λ h j p. ground arith, λ h. ground (arith, h i refl))

is_too_late_iff :
    (occurred_at : ℕ) (now : Option ℕ) (skew : ℕ)
    → (is_too_late occurred_at now skew ≡ false) ↔ ((t : ℕ) → now ≡ some t → occurred_at ≤ t + skew)
is_too_late_iff occurred_at none skew = (λ h i p. cc, λ h. refl)
is_too_late_iff occurred_at (some i) skew = (λ h j p. ground arith, λ h. ground (arith, h i refl))

differ_iff :
    (base server : Option ℕ)
    → (differ base server ≡ false) ↔ ((b s : ℕ) → base ≡ some b → server ≡ some s → b ≡ s)
differ_iff none server = (λ h t e p. cc, λ h. refl)
differ_iff (some t) none = (λ h t e p q. cc, λ h. refl)
differ_iff (some t) (some e) = (λ h t' e' p q. ground arith, λ h. ground (arith, h t e refl refl))

-- The device may send the change now.
pub record IsEntitled (r : SyncRequest) : Type 0 where
  pub active : r.device.status ≡ DeviceStatus.active
  pub own : r.mutation.device_id ≡ r.device.id
  pub at_gate : Memᴰ r.mutation.gate_id r.device.assigned_gate_ids
  pub leased :
      (t e : ℕ) → date_parse r.now ≡ some t → date_parse r.device.lease_expires_at ≡ some e → t < e
  pub offline_operation : IsOffline r.mutation.operation

device_refusal_iff : (r : SyncRequest) → (device_refusal r ≡ none) ↔ IsEntitled r
unfolding device_refusal
device_refusal_iff r = (
  λ h. record {
    active = ground arith;
    own = ground (arith, eq_iff r.mutation.device_id r.device.id);
    at_gate = (any-mem_iff r.device.assigned_gate_ids r.mutation.gate_id).0 (ground arith);
    leased =
        (is_over_iff (date_parse r.now) (date_parse r.device.lease_expires_at)).0 (ground arith);
    offline_operation =
        (allowed_offline_operations-IsOffline r.mutation.operation).0 (ground arith);
  },
  λ e. ground (
    arith,
    eq_iff r.mutation.device_id r.device.id,
    e.active,
    e.own,
    (any-mem_iff r.device.assigned_gate_ids r.mutation.gate_id).1 e.at_gate,
    (is_over_iff (date_parse r.now) (date_parse r.device.lease_expires_at)).1 e.leased,
    (allowed_offline_operations-IsOffline r.mutation.operation).1 e.offline_operation,
  ),
)

-- Fifteen minutes, where the request names no other tolerance.
abbrev pub tolerance : Option ℕ → ℕ
tolerance none = 15 * 60 * 1000
tolerance (some ms) = ms

skew_ms_lem : (skew : Option ℕ) → skew_ms skew ≡ tolerance skew
skew_ms_lem none = omega arith
skew_ms_lem (some ms) = refl

-- The device made the change at a readable time, within its lease and not ahead of the server, but for
-- the skew that is tolerated.
pub record IsTimely (r : SyncRequest) : Type 0 where
  pub occurred_at : ℕ
  pub readable : date_parse r.mutation.client_occurred_at ≡ some occurred_at
  pub not_early :
      (i : ℕ)
      → date_parse r.device.lease_issued_at ≡ some i
      → i ≤ occurred_at + tolerance r.max_future_clock_skew_ms
  pub not_late :
      (t : ℕ) → date_parse r.now ≡ some t → occurred_at ≤ t + tolerance r.max_future_clock_skew_ms

clock_refusal_iff : (r : SyncRequest) → (clock_refusal r ≡ none) ↔ IsTimely r
unfolding clock_refusal
clock_refusal_iff r =
    let same_skew = skew_ms_lem r.max_future_clock_skew_ms in
    let skew = skew_ms r.max_future_clock_skew_ms in
    (
      λ h. elim (Option-cases (date_parse r.mutation.client_occurred_at)) [
        | inl e ↦ ground arith
        | inr (t, e) ↦ record {
          occurred_at = t;
          readable = e;
          not_early =
              rw (← same_skew)
                ((is_too_early_iff t (date_parse r.device.lease_issued_at) skew).0 (ground arith));
          not_late =
              rw (← same_skew) ((is_too_late_iff t (date_parse r.now) skew).0 (ground arith));
        }
      ],
      λ t. ground (
        arith,
        t.readable,
        (is_too_early_iff t.occurred_at (date_parse r.device.lease_issued_at) skew).1
            (rw same_skew t.not_early),
        (is_too_late_iff t.occurred_at (date_parse r.now) skew).1 (rw same_skew t.not_late),
      ),
    )

-- The change is new and next in turn, and its version and the server's, where both are known, are the
-- same.
pub record IsNext (r : SyncRequest) : Type 0 where
  pub fresh : r.existing ≡ none
  pub in_turn : r.mutation.local_sequence ≡ r.device.last_accepted_sequence + 1
  pub up_to_date :
      (b s : ℕ) → r.mutation.base_version ≡ some b → r.server_aggregate_version ≡ some s → b ≡ s

order_decision_iff :
    (r : SyncRequest) (n : ℕ)
    → (order_decision r ≡ accept n) ↔ (IsNext r × (n ≡ r.mutation.local_sequence))
unfolding order_decision
order_decision_iff r n = (
  λ h. elim (Option-cases r.existing) [
    | inl e ↦ (
      record {
        fresh = e;
        in_turn = ground arith;
        up_to_date =
            (differ_iff r.mutation.base_version r.server_aggregate_version).0 (ground arith);
      },
      ground arith,
    )
    | inr (known, e) ↦ ground arith
  ],
  λ (x, e). ground (
    arith,
    x.fresh,
    x.in_turn,
    (differ_iff r.mutation.base_version r.server_aggregate_version).1 x.up_to_date,
  ),
)

or_reject-accepts :
    (why : Option RejectCode) (next : Option OfflineSyncDecision) (n : ℕ)
    → or_reject why next ≡ some (accept n)
    → (why ≡ none) × (next ≡ some (accept n))
or_reject-accepts none next n h = (refl, h)
or_reject-accepts (some why) next n h = ground arith

hash_refusal-none :
    (o : Option String) (hash : String)
    → hash_refusal o hash ≡ none
    → (computed : String) × (o ≡ some computed) × (constant_time_digest_equal computed hash ≡ true)
hash_refusal-none none hash h = ground arith
hash_refusal-none (some computed) hash h = (computed, refl, ground arith)

signed_refusal-none :
    (computed signature : String)
    → signed_refusal computed signature ≡ none
    → constant_time_digest_equal computed signature ≡ true
signed_refusal-none computed signature h = ground arith

signs :
    (o : Option String) (f : String → Option OfflineSyncDecision) (n : ℕ)
    → (o >>= f) ≡ some (accept n)
    → (computed : String) × (o ≡ some computed) × (f computed ≡ some (accept n))
signs none f n h = ground arith
signs (some computed) f n h = (computed, refl, h)

not_rejected :
    (why : Option RejectCode) (next d : Option OfflineSyncDecision)
    → why ≡ none
    → next ≡ d
    → or_reject why next ≡ d
not_rejected none next d e h = h
not_rejected (some why) next d e h = ground arith

hash_refusal-same :
    (o : Option String) (hash computed : String)
    → o ≡ some computed
    → constant_time_digest_equal computed hash ≡ true
    → hash_refusal o hash ≡ none
hash_refusal-same none hash computed e h = ground arith
hash_refusal-same (some c) hash computed e h = ground arith

signed_refusal-same :
    (computed signature : String)
    → constant_time_digest_equal computed signature ≡ true
    → signed_refusal computed signature ≡ none
signed_refusal-same computed signature h = ground arith

signed_with :
    (o : Option String) (f : String → Option OfflineSyncDecision) (computed : String)
    (d : Option OfflineSyncDecision)
    → o ≡ some computed
    → f computed ≡ d
    → (o >>= f) ≡ d
signed_with o f computed d e h = rw e h

module _ (sha256_hex : List ℕ → String) (hmac_hex : List ℕ → List ℕ → String) where
  -- The change arrives as the device signed it.
  pub record IsSigned (r : SyncRequest) : Type 0 where
    pub hash : String
    pub hashed : hash_canonical_payload sha256_hex r.mutation.payload ≡ some hash
    pub same_hash : SameDigest hash r.mutation.payload_hash
    pub signed : String
    pub signature : sign_offline_mutation hmac_hex r.mutation r.device_secret ≡ some signed
    pub same_signature : SameDigest signed r.mutation.signature

  -- An offline change is accepted exactly if it comes from an active device, its own, for a gate assigned
  -- to it, with a lease that is not over and an operation allowed offline; its payload has the hash and it
  -- has the signature that it should; it was made at a readable time, not before the lease or after the
  -- server's time by more than the tolerance; and it is new, next in the device's turn, and made on the
  -- server's version, where both versions are known. The answer is then its sequence number. (A
  -- lease, a server's time or a version that is not readable or not known excludes nothing.)
  pub evaluate_offline_mutation-accepts_iff :
      (r : SyncRequest) (n : ℕ)
      → (evaluate_offline_mutation sha256_hex hmac_hex r ≡ some (accept n))
        ↔ (IsEntitled r × IsSigned r × IsTimely r × IsNext r × (n ≡ r.mutation.local_sequence))
  unfolding evaluate_offline_mutation
  evaluate_offline_mutation-accepts_iff r n = (
    λ h.
        let (d, h₁) = or_reject-accepts (device_refusal r) _ n h in
        let (p, h₂) = or_reject-accepts (hash_refusal _ _) _ n h₁ in
        let (hash, hashed, same_hash) = hash_refusal-none _ _ p in
        let (signed, signature, h₃) = signs _ _ n h₂ in
        let (g, h₄) = or_reject-accepts (signed_refusal signed r.mutation.signature) _ n h₃ in
        let (t, h₅) = or_reject-accepts (clock_refusal r) _ n h₄ in
        let (next, answer) = (order_decision_iff r n).0 (ground (arith, h₅)) in
        (
          (device_refusal_iff r).0 d,
          record {
            hash = hash;
            hashed = hashed;
            same_hash = (constant_time_digest_equal_iff hash r.mutation.payload_hash).0 same_hash;
            signed = signed;
            signature = signature;
            same_signature =
                (constant_time_digest_equal_iff signed r.mutation.signature).0
                  (signed_refusal-none signed r.mutation.signature g);
          },
          (clock_refusal_iff r).0 t,
          next,
          answer,
        ),
    λ (e, s, t, x, q). not_rejected _ _ _ ((device_refusal_iff r).1 e) (
        not_rejected _ _ _
          (hash_refusal-same _ _ _ s.hashed
            ((constant_time_digest_equal_iff s.hash r.mutation.payload_hash).1 s.same_hash))
          (signed_with _ _ _ _ s.signature (
            not_rejected _ _ _
              (signed_refusal-same _ _
                ((constant_time_digest_equal_iff s.signed r.mutation.signature).1 s.same_signature))
              (not_rejected _ _ _ ((clock_refusal_iff r).1 t)
                (ap some ((order_decision_iff r n).1 (x, q))))))),
  )
