-- ===== src/Api/Journal/Turns.antt =====
-- apps/api/src/modules/platform/mutation-journal.service.ts: a key over the claims and commits of many
-- requests.
use mathlib.Core.List.{Memᴰ}
use manglam_balaji_managemen.Api.Errors.{answer}
use manglam_balaji_managemen.Api.Journal.{
  RecordStatus, RecordStatus-discrete, MutationKey, is_key, IdempotencyRow, BeginMutationInput,
  MutationClaim, stored_body, is_claimable, claim_record, begin,
}
use manglam_balaji_managemen.Api.Journal.Commit.{
  CommitMutationInput, complete_record, update_record,
}
use manglam_balaji_managemen.Api.Journal.Claims.{
  record_of-map, record_of, record_id, reclaimed, reclaimed-id, record_of-reclaimed, Outcome, adds,
  leaves, takes, key_of, begin-Outcome, is_key-eq,
}
use manglam_balaji_managemen.Prelude.{
  ℕ, ◌<◌, ◌≡◌, ◌≢◌, inl, inr, refl, sym, ap, subst, ◌∙◌, Bool, false, List, map, find-some,
  find_there, none, some, String, str_eq, eq_iff, arith, Bool-cases, if◌then◌else◌, eq_of_key,
  Distinct, some-ne-none, map-same_keys,
}

module _ {Body : Type 0} where
  abbrev pub HasDistinctRecords : List (IdempotencyRow Body) → Type 0
  HasDistinctRecords rows = Distinct (map record_id rows)

  -- The row of a key stays as it is, where a claim of the same key does not take it over and
  -- neither does a claim of a row with the same id.
  Outcome-keeps :
      (k j : MutationKey) (id : String) (now : ℕ) (row : IdempotencyRow Body)
      (rows rows' : List (IdempotencyRow Body))
      → record_of k rows ≡ some row
      → ((other : IdempotencyRow Body)
          → record_of j rows ≡ some other
          → stored_body other ≡ none
          → is_claimable other.id now row ≡ false)
      → Outcome j id now rows rows'
      → record_of k rows' ≡ some row
  Outcome-keeps k j id now row rows _ h safe leaves = h
  Outcome-keeps k j id now row rows _ h safe (adds new none_yet new_key new_id) =
      elim (Bool-cases (is_key new.unique_key k)) [
        | inl here ↦
            let same_key : j ≡ k = sym new_key ∙ is_key-eq new.unique_key k here in
            absurd (some-ne-none (subst (λ i. record_of i rows ≡ none) same_key none_yet) h)
        | inr other ↦ find_there (λ r. is_key r.unique_key k) new rows other ∙ h
      ]
  Outcome-keeps k j id now row rows _ h safe (takes other found no_body) =
      let kept : reclaimed other.id now row ≡ row =
        ap (λ (b : Bool). if b then claim_record now row else row) (safe other found no_body) in
      record_of-reclaimed k other.id now rows row h ∙ ap some kept

  Outcome-HasDistinctRecords :
      (j : MutationKey) (id : String) (now : ℕ) (rows rows' : List (IdempotencyRow Body))
      → ¬ (Memᴰ id (map record_id rows))
      → HasDistinctRecords rows
      → Outcome j id now rows rows'
      → HasDistinctRecords rows'
  Outcome-HasDistinctRecords j id now rows _ fresh h leaves = h
  Outcome-HasDistinctRecords j id now rows _ fresh h (adds new none_yet new_key new_id) =
      ((λ m. fresh (subst (λ i. Memᴰ i (map record_id rows)) new_id m)), h)
  Outcome-HasDistinctRecords j id now rows _ fresh h (takes other found no_body) =
      subst Distinct
        (sym (map-same_keys record_id (reclaimed other.id now) (reclaimed-id other.id now) rows)) h

  -- A row that is in progress and locked until a time.
  abbrev pub IsLocked : ℕ → IdempotencyRow Body → Type 0
  IsLocked until row = (row.status ≡ RecordStatus.in_progress) × (row.locked_until ≡ some until)

  -- A row whose mutation is done, with the answer that it gave.
  abbrev pub IsAnswered : Body → IdempotencyRow Body → Type 0
  IsAnswered body row = (row.status ≡ RecordStatus.completed) × (row.response_body ≡ some body)

  IsLocked-not_claimable :
      (id : String) (now until : ℕ) (row : IdempotencyRow Body)
      → IsLocked until row
      → now < until
      → is_claimable id now row ≡ false
  unfolding is_claimable RecordStatus-discrete
  IsLocked-not_claimable id now until row (s, l) lt = rw (s, l) (ground arith)

  pub IsAnswered-stored_body :
      (body : Body) (row : IdempotencyRow Body) → IsAnswered body row → stored_body row ≡ some body
  unfolding stored_body RecordStatus-discrete
  IsAnswered-stored_body body row (s, b) = rw (s, b) refl

  -- A claim of another row does not touch a row that is answered.
  other_id-not_claimable :
      (rows : List (IdempotencyRow Body)) (now : ℕ) (body : Body) (k j : MutationKey)
      (row other : IdempotencyRow Body)
      → HasDistinctRecords rows
      → record_of k rows ≡ some row
      → record_of j rows ≡ some other
      → IsAnswered body row
      → stored_body other ≡ none
      → is_claimable other.id now row ≡ false
  unfolding is_claimable
  other_id-not_claimable rows now body k j row other distinct found found' done no_body =
      elim (Bool-cases (str_eq row.id other.id)) [
        | inr apart ↦ rw apart refl
        | inl same_id ↦
            let (m, _) = find-some (λ r. is_key r.unique_key k) rows row found in
            let (n, _) = find-some (λ r. is_key r.unique_key j) rows other found' in
            let same_row : row ≡ other =
              eq_of_key record_id rows distinct m n ((eq_iff row.id other.id).0 same_id) in
            absurd (
              some-ne-none no_body (
                subst (λ r. stored_body r ≡ some body) same_row
                  (IsAnswered-stored_body body row done)))
      ]

  module _ {Response : Type 0} (encrypt : Response → Body)
      (input : CommitMutationInput Response) where
    -- What `update` makes of each row.
    abbrev completed_row : IdempotencyRow Body → IdempotencyRow Body
    completed_row r =
        if str_eq r.id input.idempotency_record_id then complete_record encrypt input r else r

    completed_row-key : (r : IdempotencyRow Body) → (completed_row r).unique_key ≡ r.unique_key
    completed_row-key r = elim (Bool-cases (str_eq r.id input.idempotency_record_id)) [
      | inl here ↦ rw here refl
      | inr other ↦ rw other refl
    ]

    completed_row-id : (r : IdempotencyRow Body) → record_id (completed_row r) ≡ r.id
    completed_row-id r = elim (Bool-cases (str_eq r.id input.idempotency_record_id)) [
      | inl here ↦ rw here refl
      | inr other ↦ rw other refl
    ]

    update_record-rows :
        (rows rows' : List (IdempotencyRow Body))
        → update_record encrypt input rows ≡ answer rows'
        → rows' ≡ map completed_row rows
    unfolding update_record
    update_record-rows rows rows' h = ground arith

    -- A commit of another record leaves a row as it is.
    update_record-keeps :
        (k : MutationKey) (row : IdempotencyRow Body) (rows rows' : List (IdempotencyRow Body))
        → input.idempotency_record_id ≢ row.id
        → update_record encrypt input rows ≡ answer rows'
        → record_of k rows ≡ some row
        → record_of k rows' ≡ some row
    update_record-keeps k row rows rows' other h found =
        let apart : str_eq row.id input.idempotency_record_id ≡ false =
          ground (arith, eq_iff row.id input.idempotency_record_id) in
        let same : completed_row row ≡ row =
          ap (λ (b : Bool). if b then complete_record encrypt input row else row) apart in
        ap (record_of k) (update_record-rows rows rows' h)
        ∙ record_of-map completed_row completed_row-key k rows row found
        ∙ ap some same

    update_record-HasDistinctRecords :
        (rows rows' : List (IdempotencyRow Body))
        → update_record encrypt input rows ≡ answer rows'
        → HasDistinctRecords rows
        → HasDistinctRecords rows'
    update_record-HasDistinctRecords rows rows' h distinct =
        subst HasDistinctRecords (sym (update_record-rows rows rows' h)) (
          subst Distinct (sym (map-same_keys record_id completed_row completed_row-id rows))
            distinct)

  module _ {Response Request : Type 0} (decrypt : Body → Response)
      (request_hash : Request → String) where
    -- The table after any number of accepted claims and of commits, in any order: each claim with an
    -- id that is new to the table and at an allowed time, and no commit of the record `kept`. A
    -- claim or a commit that throws changes nothing.
    pub data Journaled (Allowed : ℕ → Type 0) (kept : String) (rows : List (IdempotencyRow Body))
        : List (IdempotencyRow Body) → Type 0 where
      start : Journaled Allowed kept rows rows
      claim_step :
          {now_rows next_rows : List (IdempotencyRow Body)}
          → Journaled Allowed kept rows now_rows
          → (input : BeginMutationInput Request) (id : String) (now : ℕ)
          → (c : MutationClaim Response) → ¬ (Memᴰ id (map record_id now_rows))
          → Allowed now
          → begin decrypt request_hash input id now now_rows ≡ answer (c, next_rows)
          → Journaled Allowed kept rows next_rows
      commit_step :
          {now_rows next_rows : List (IdempotencyRow Body)}
          → Journaled Allowed kept rows now_rows
          → (encrypt : Response → Body) (input : CommitMutationInput Response)
          → input.idempotency_record_id ≢ kept
          → update_record encrypt input now_rows ≡ answer next_rows
          → Journaled Allowed kept rows next_rows

    pub Journaled-HasDistinctRecords :
        (Allowed : ℕ → Type 0) (kept : String) (rows : List (IdempotencyRow Body))
        {rows' : List (IdempotencyRow Body)}
        → Journaled Allowed kept rows rows'
        → HasDistinctRecords rows
        → HasDistinctRecords rows'
    Journaled-HasDistinctRecords Allowed kept rows start h = h
    Journaled-HasDistinctRecords Allowed kept rows
          (claim_step {now_rows} {next_rows} b input id now c fresh ok q) h =
        Outcome-HasDistinctRecords (key_of decrypt request_hash input) id now now_rows next_rows
          fresh (Journaled-HasDistinctRecords Allowed kept rows b h)
          (begin-Outcome decrypt request_hash input id now now_rows c next_rows q)
    Journaled-HasDistinctRecords Allowed kept rows
          (commit_step {now_rows} {next_rows} b encrypt input other q) h =
        update_record-HasDistinctRecords encrypt input now_rows next_rows q
          (Journaled-HasDistinctRecords Allowed kept rows b h)

    pub Journaled-IsLocked :
        (k : MutationKey) (until : ℕ) (row : IdempotencyRow Body)
        (rows : List (IdempotencyRow Body)) {rows' : List (IdempotencyRow Body)}
        → IsLocked until row
        → Journaled (λ now. now < until) row.id rows rows'
        → record_of k rows ≡ some row
        → record_of k rows' ≡ some row
    Journaled-IsLocked k until row rows locked start h = h
    Journaled-IsLocked k until row rows locked
          (claim_step {now_rows} {next_rows} b input id now c fresh ok q) h =
        Outcome-keeps k (key_of decrypt request_hash input) id now row now_rows next_rows
          (Journaled-IsLocked k until row rows locked b h)
          (λ other found no_body. IsLocked-not_claimable other.id now until row locked ok)
          (begin-Outcome decrypt request_hash input id now now_rows c next_rows q)
    Journaled-IsLocked k until row rows locked
          (commit_step {now_rows} {next_rows} b encrypt input other q) h =
        update_record-keeps encrypt input k row now_rows next_rows other q
          (Journaled-IsLocked k until row rows locked b h)

    pub Journaled-IsAnswered :
        (k : MutationKey) (body : Body) (row : IdempotencyRow Body)
        (rows : List (IdempotencyRow Body)) {rows' : List (IdempotencyRow Body)}
        → IsAnswered body row
        → HasDistinctRecords rows
        → Journaled (λ now. Unit {0}) row.id rows rows'
        → record_of k rows ≡ some row
        → record_of k rows' ≡ some row
    Journaled-IsAnswered k body row rows done distinct start h = h
    Journaled-IsAnswered k body row rows done distinct
          (claim_step {now_rows} {next_rows} b input id now c fresh ok q) h =
        let here = Journaled-IsAnswered k body row rows done distinct b h in
        let distinct' = Journaled-HasDistinctRecords (λ now. Unit {0}) row.id rows b distinct in
        Outcome-keeps k (key_of decrypt request_hash input) id now row now_rows next_rows here
          (λ other found no_body.
            other_id-not_claimable now_rows now body k (key_of decrypt request_hash input) row other
              distinct' here found done no_body)
          (begin-Outcome decrypt request_hash input id now now_rows c next_rows q)
    Journaled-IsAnswered k body row rows done distinct
          (commit_step {now_rows} {next_rows} b encrypt input other q) h =
        update_record-keeps encrypt input k row now_rows next_rows other q
          (Journaled-IsAnswered k body row rows done distinct b h)
