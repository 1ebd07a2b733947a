-- ===== src/Api/Journal/Exclusion.antt =====
-- apps/api/src/modules/platform/mutation-journal.service.ts: for 30 seconds, or until it commits, a
-- request that executes a mutation is the only one to do so, and once it has committed its answer
-- is the answer.
use mathlib.Core.List.{Memᴰ}
use manglam_balaji_managemen.Api.Errors.{Thrown, answer, throw, api_error, Answer-cases}
use manglam_balaji_managemen.Api.Journal.{
  RecordStatus-discrete, MutationClaim, MutationKey, is_key, IdempotencyRow, BeginMutationInput,
  execute, replay, claim_lock_ms, stored_body, is_claimable, claim_record, claim_again,
  answer_record, begin, Claimed, is_idempotency_key, new_record,
}
use manglam_balaji_managemen.Api.Journal.Claims.{
  record_of, record_id, reclaimed, record_of-reclaimed, key_of, begin-found, begin-fresh,
  begin-valid, is_key_refl,
}
use manglam_balaji_managemen.Api.Journal.Turns.{
  HasDistinctRecords, IsLocked, IsAnswered, IsAnswered-stored_body, Journaled, Journaled-IsLocked,
  Journaled-IsAnswered,
}
use manglam_balaji_managemen.Prelude.{
  ℕ, ◌+◌, ◌<◌, ◌≡◌, ◌≢◌, inl, inr, refl, sym, ap, subst, ◌∙◌, Bool, true, List, [], ◌∷◌, map,
  find-some, find_here, length, filter, filter-mem, some, String, str_eq, eq_iff, arith, Bool-cases,
  Option-cases, if◌then◌else◌, mem-map, eq_of_key,
}

length_one-mem {ℓ} : {A : Type ℓ} (xs : List A) → length xs ≡ 1 → (x : A) × Memᴰ x xs
length_one-mem [] h = absurd (omega arith)
length_one-mem (x ∷ xs) h = (x, Memᴰ.head refl)

is_claimable-id :
    {Body : Type 0} (id : String) (now : ℕ) (row : IdempotencyRow Body)
    → is_claimable id now row ≡ true
    → row.id ≡ id
unfolding is_claimable
is_claimable-id id now row h = ground (arith, eq_iff row.id id)

module _ {Body Response : Type 0} (decrypt : Body → Response) where
  claim_again-execute :
      (operation hash : String) (now : ℕ) (row : IdempotencyRow Body)
      (rows : List (IdempotencyRow Body)) (r : Claimed decrypt)
      → claim_again decrypt operation hash now row rows ≡ answer r
      → (r.1 ≡ map (reclaimed row.id now) rows)
        × (length (filter (is_claimable row.id now) rows) ≡ 1)
        × (r.0 ≡ execute row.id hash)
  unfolding claim_again
  claim_again-execute operation hash now row rows (c, rows') h =
      (ground arith, ground arith, ground arith)

  same_record :
      (a b c d : String) → ◌≡◌ {A = MutationClaim Response} (execute a b) (execute c d) → a ≡ c
  same_record a b c d h = cc

  -- An execution of another request's record takes it over.
  answer_record-execute :
      (id operation hash : String) (now : ℕ) (row : IdempotencyRow Body)
      (rows : List (IdempotencyRow Body)) (record_id request_hash : String)
      (rows' : List (IdempotencyRow Body))
      → row.id ≢ id
      → answer_record decrypt id operation hash now row rows
        ≡ answer (execute record_id request_hash, rows')
      → (rows' ≡ map (reclaimed row.id now) rows)
        × (length (filter (is_claimable row.id now) rows) ≡ 1)
        × (row.id ≡ record_id)
  unfolding answer_record
  answer_record-execute id operation hash now row rows rid rh rows' other h =
      elim (Bool-cases (str_eq row.request_hash hash)) [
        | inr reused ↦ absurd (ground arith)
        | inl same_request ↦ elim (Option-cases (stored_body row)) [
          | inr (body, q) ↦ absurd (ground (arith, eq_iff row.id id))
          | inl q ↦
              let (taken, one, claim) =
                claim_again-execute operation hash now row rows (execute rid rh, rows')
                  (ground (arith, eq_iff row.id id)) in
              (taken, one, sym (same_record rid rh row.id hash claim))
        ]
      ]

  IsLocked-throws :
      (id operation hash : String) (now until : ℕ) (row : IdempotencyRow Body)
      (rows : List (IdempotencyRow Body)) (r : Claimed decrypt)
      → row.id ≢ id
      → IsLocked until row
      → now < until
      → answer_record decrypt id operation hash now row rows ≢ answer r
  unfolding answer_record stored_body RecordStatus-discrete
  IsLocked-throws id operation hash now until row rows r other (s, l) lt h =
      ground (arith, eq_iff row.id id)

  IsAnswered-replays :
      (id operation hash : String) (now : ℕ) (body : Body) (row : IdempotencyRow Body)
      (rows : List (IdempotencyRow Body))
      → row.id ≢ id
      → IsAnswered body row
      → answer_record decrypt id operation hash now row rows ≡ (
          if str_eq row.request_hash hash
          then answer (replay (decrypt body), rows)
          else throw (
              api_error "IDEMPOTENCY_KEY_REUSED"
                (("operation", operation) ∷ [])
                "This idempotency key was already used for a different request."
                409))
  unfolding answer_record
  IsAnswered-replays id operation hash now body row rows other done =
      ground (arith, eq_iff row.id id, IsAnswered-stored_body body row done)

  module _ {Request : Type 0} (request_hash : Request → String) where
    abbrev pub key : BeginMutationInput Request → MutationKey
    key = key_of decrypt request_hash

    -- A record that was taken over is locked from now on.
    taken-IsLocked :
        (k : MutationKey) (now : ℕ) (row : IdempotencyRow Body) (rows : List (IdempotencyRow Body))
        → HasDistinctRecords rows
        → record_of k rows ≡ some row
        → length (filter (is_claimable row.id now) rows) ≡ 1
        → record_of k (map (reclaimed row.id now) rows) ≡ some (claim_record now row)
    taken-IsLocked k now row rows distinct found one =
        let (taken, m) = length_one-mem _ one in
        let (n, claimable) = filter-mem (is_claimable row.id now) rows m in
        let (row_mem, _) = find-some (λ r. is_key r.unique_key k) rows row found in
        let same_row : taken ≡ row =
          eq_of_key record_id rows distinct n row_mem
            (is_claimable-id row.id now taken claimable) in
        let now_claimed : is_claimable row.id now row ≡ true =
          subst (λ r. is_claimable row.id now r ≡ true) same_row claimable in
        record_of-reclaimed k row.id now rows row found
        ∙ ap (λ (b : Bool). some (if b then claim_record now row else row)) now_claimed

    -- A request that may execute has its key's record locked for it.
    execute-IsLocked :
        (input : BeginMutationInput Request) (id : String) (now : ℕ)
        (rows : List (IdempotencyRow Body)) (rid rh : String) (rows' : List (IdempotencyRow Body))
        → HasDistinctRecords rows
        → ¬ (Memᴰ id (map record_id rows))
        → begin decrypt request_hash input id now rows ≡ answer (execute rid rh, rows')
        → (row : IdempotencyRow Body) × (record_of (key input) rows' ≡ some row)
          × (row.id ≡ rid)
          × IsLocked (now + claim_lock_ms) row
    execute-IsLocked input id now rows rid rh rows' distinct fresh h =
        let valid = begin-valid decrypt request_hash input id now rows _ h in
        let hash = request_hash input.request in
        elim (Option-cases (record_of (key input) rows)) [
          | inl q ↦
              let new : IdempotencyRow Body = new_record input hash id now in
              let added : rows' ≡ (new ∷ rows) =
                cc (begin-fresh decrypt request_hash input id now rows valid q, h) in
              (
                new,
                rw added (
                    find_here (λ r. is_key r.unique_key (key input)) new rows
                      (is_key_refl (key input))),
                cc (begin-fresh decrypt request_hash input id now rows valid q, h),
                (refl, refl),
              )
          | inr (row, q) ↦
              let (m, _) = find-some (λ r. is_key r.unique_key (key input)) rows row q in
              let other : row.id ≢ id = λ e.
                fresh (subst (λ i. Memᴰ i (map record_id rows)) e (mem-map record_id rows m)) in
              let (taken, one, same_id) =
                answer_record-execute id input.operation hash now row rows rid rh rows' other
                  (sym (begin-found decrypt request_hash input id now rows row valid q) ∙ h) in
              (
                claim_record now row,
                rw taken (taken-IsLocked (key input) now row rows distinct q one),
                same_id,
                (refl, refl),
              )
        ]

    not_among :
        (k : MutationKey) (rows : List (IdempotencyRow Body)) (row : IdempotencyRow Body)
        (id : String)
        → record_of k rows ≡ some row
        → ¬ (Memᴰ id (map record_id rows))
        → row.id ≢ id
    not_among k rows row id found fresh e =
        let (m, _) = find-some (λ r. is_key r.unique_key k) rows row found in
        fresh (subst (λ i. Memᴰ i (map record_id rows)) e (mem-map record_id rows m))

    not_answered :
        (input : BeginMutationInput Request) (id : String) (now : ℕ)
        (rows : List (IdempotencyRow Body)) (rid rh : String)
        (rows' rows'' : List (IdempotencyRow Body))
        → HasDistinctRecords rows
        → ¬ (Memᴰ id (map record_id rows))
        → begin decrypt request_hash input id now rows ≡ answer (execute rid rh, rows')
        → Journaled decrypt request_hash (λ time. time < now + claim_lock_ms) rid rows' rows''
        → (other : BeginMutationInput Request) (other_id : String) (time : ℕ)
        → key other ≡ key input
        → time < now + claim_lock_ms
        → ¬ (Memᴰ other_id (map record_id rows''))
        → (r : Claimed decrypt) → begin decrypt request_hash other other_id time rows'' ≢ answer r
    not_answered input id now rows rid rh rows' rows'' distinct fresh h claims other other_id time
          same_key early fresh' r answered =
        let (row, here, same_id, locked) =
          execute-IsLocked input id now rows rid rh rows' distinct fresh h in
        let still : record_of (key input) rows'' ≡ some row =
          Journaled-IsLocked decrypt request_hash (key input) (now + claim_lock_ms) row rows' locked
            (subst
              (λ i.
                Journaled decrypt request_hash (λ time. time < now + claim_lock_ms) i rows' rows'')
              (sym same_id) claims)
            here in
        let found : record_of (key other) rows'' ≡ some row =
          subst (λ k. record_of k rows'' ≡ some row) (sym same_key) still in
        let valid = begin-valid decrypt request_hash other other_id time rows'' r answered in
        IsLocked-throws other_id other.operation (request_hash other.request) time
          (now + claim_lock_ms) row rows'' r
          (not_among (key other) rows'' row other_id found fresh') locked early
          (sym (begin-found decrypt request_hash other other_id time rows'' row valid found)
            ∙ answered)

    -- Once a request has been told to execute a mutation, and until it commits, every other request
    -- with its key, whatever it asks for, fails with an error in the next 30 seconds: it is neither
    -- told to execute it nor given an answer, however many claims are accepted and other mutations
    -- commit meanwhile, if ids are not drawn twice.
    pub begin_excludes :
        (input : BeginMutationInput Request) (id : String) (now : ℕ)
        (rows : List (IdempotencyRow Body)) (rid rh : String)
        (rows' rows'' : List (IdempotencyRow Body))
        → HasDistinctRecords rows
        → ¬ (Memᴰ id (map record_id rows))
        → begin decrypt request_hash input id now rows ≡ answer (execute rid rh, rows')
        → Journaled decrypt request_hash (λ time. time < now + claim_lock_ms) rid rows' rows''
        → (other : BeginMutationInput Request) (other_id : String) (time : ℕ)
        → key other ≡ key input
        → time < now + claim_lock_ms
        → ¬ (Memᴰ other_id (map record_id rows''))
        → (e : Thrown) × (begin decrypt request_hash other other_id time rows'' ≡ throw e)
    begin_excludes input id now rows rid rh rows' rows'' distinct fresh h claims other other_id time
          same_key early fresh' =
        elim (Answer-cases (begin decrypt request_hash other other_id time rows'')) [
          | inr thrown ↦ thrown
          | inl (r, answered) ↦ absurd (
              not_answered input id now rows rid rh rows' rows'' distinct fresh h claims other
                other_id time same_key early fresh' r answered)
        ]

    -- Once the mutation of a key is done, and however many claims are accepted and other mutations
    -- commit since, a request with the key is answered at any later time: with the answer that was
    -- stored, if it asks for the same as the first one by its hash, and by an error that the key was
    -- used otherwise. It is never told to execute the mutation again. This takes an allowed key and
    -- ids not drawn twice.
    pub begin-replays :
        (input : BeginMutationInput Request) (body : Body) (row : IdempotencyRow Body)
        (rows rows' : List (IdempotencyRow Body))
        → HasDistinctRecords rows
        → record_of (key input) rows ≡ some row
        → IsAnswered body row
        → Journaled decrypt request_hash (λ time. Unit {0}) row.id rows rows'
        → is_idempotency_key input.idempotency_key ≡ true
        → (id : String) (now : ℕ) → ¬ (Memᴰ id (map record_id rows'))
        → begin decrypt request_hash input id now rows' ≡ (
            if str_eq row.request_hash (request_hash input.request)
            then answer (replay (decrypt body), rows')
            else throw (
                api_error "IDEMPOTENCY_KEY_REUSED"
                  (("operation", input.operation) ∷ [])
                  "This idempotency key was already used for a different request."
                  409))
    begin-replays input body row rows rows' distinct found done claims valid id now fresh =
        let still : record_of (key input) rows' ≡ some row =
          Journaled-IsAnswered decrypt request_hash (key input) body row rows done distinct claims
            found in
        begin-found decrypt request_hash input id now rows' row valid still
        ∙ IsAnswered-replays id input.operation (request_hash input.request) now body row rows'
            (not_among (key input) rows' row id still fresh) done
