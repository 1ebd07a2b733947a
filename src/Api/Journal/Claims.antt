-- ===== src/Api/Journal/Claims.antt =====
-- apps/api/src/modules/platform/mutation-journal.service.ts, `begin`: who may execute a mutation.
use manglam_balaji_managemen.Api.Errors.{answer}
use manglam_balaji_managemen.Api.Journal.{
  MutationKey, is_key, IdempotencyRow, BeginMutationInput, MutationClaim, execute, new_record,
  upsert, stored_body, is_claimable, claim_record, claim_again, answer_record, begin, Claimed,
  is_idempotency_key,
}
use manglam_balaji_managemen.Prelude.{
  ℕ, ◌≡◌, ◌⊎◌, inl, inr, refl, sym, ap, subst, ◌∙◌, true, List, [], ◌∷◌, map, find, find_here,
  find_there, Option, none, some, String, str_eq, eq_iff, arith, Bool-cases, Option-cases,
  if◌then◌else◌,
}

pub is_key-eq : (j k : MutationKey) → is_key j k ≡ true → j ≡ k
unfolding is_key
is_key-eq j k h = ground (
  arith,
  eq_iff j.society_id k.society_id,
  eq_iff j.actor_scope_key k.actor_scope_key,
  eq_iff j.operation k.operation,
  eq_iff j.key k.key,
)

pub is_key_refl : (k : MutationKey) → is_key k k ≡ true
unfolding is_key
is_key_refl k = ground (
  arith,
  eq_iff k.society_id k.society_id,
  eq_iff k.actor_scope_key k.actor_scope_key,
  eq_iff k.operation k.operation,
  eq_iff k.key k.key,
)

module _ {Body : Type 0} where
  -- The row of a key.
  abbrev pub record_of : MutationKey → List (IdempotencyRow Body) → Option (IdempotencyRow Body)
  record_of k rows = find (λ row. is_key row.unique_key k) rows

  abbrev pub record_id : IdempotencyRow Body → String
  record_id row = row.id

  -- What `updateMany` makes of each row.
  abbrev pub reclaimed : String → ℕ → IdempotencyRow Body → IdempotencyRow Body
  reclaimed id now r = if is_claimable id now r then claim_record now r else r

  reclaimed-key :
      (id : String) (now : ℕ) (r : IdempotencyRow Body)
      → (reclaimed id now r).unique_key ≡ r.unique_key
  reclaimed-key id now r = elim (Bool-cases (is_claimable id now r)) [
    | inl here ↦ rw here refl
    | inr other ↦ rw other refl
  ]

  pub reclaimed-id :
      (id : String) (now : ℕ) (r : IdempotencyRow Body) → record_id (reclaimed id now r) ≡ r.id
  reclaimed-id id now r = elim (Bool-cases (is_claimable id now r)) [
    | inl here ↦ rw here refl
    | inr other ↦ rw other refl
  ]

  -- A change of rows that keeps their keys changes the row of a key in its place.
  pub record_of-map :
      (f : IdempotencyRow Body → IdempotencyRow Body)
      → ((r : IdempotencyRow Body) → (f r).unique_key ≡ r.unique_key)
      → (k : MutationKey) (rows : List (IdempotencyRow Body)) (row : IdempotencyRow Body)
      → record_of k rows ≡ some row
      → record_of k (map f rows) ≡ some (f row)
  record_of-map f same_key k [] row h = cc
  record_of-map f same_key k (r ∷ rows) row h = elim (Bool-cases (is_key r.unique_key k)) [
    | inl here ↦
        let same_row : r ≡ row = ground arith in
        find_here (λ row. is_key row.unique_key k) (f r) (map f rows)
          (ap (λ j. is_key j k) (same_key r) ∙ here)
        ∙ ap (λ r. some (f r)) same_row
    | inr other ↦
        find_there (λ row. is_key row.unique_key k) (f r) (map f rows)
          (ap (λ j. is_key j k) (same_key r) ∙ other)
        ∙ record_of-map f same_key k rows row (ground arith)
  ]

  pub record_of-reclaimed :
      (k : MutationKey) (id : String) (now : ℕ) (rows : List (IdempotencyRow Body))
      (row : IdempotencyRow Body)
      → record_of k rows ≡ some row
      → record_of k (map (reclaimed id now) rows) ≡ some (reclaimed id now row)
  record_of-reclaimed k id now = record_of-map (reclaimed id now) (reclaimed-key id now) k

  -- What an accepted claim does to the table: it adds the row of a new key, leaves the table, or
  -- takes over the key's row, which then has no answer and is not locked by another.
  pub data Outcome (k : MutationKey) (id : String) (now : ℕ) (rows : List (IdempotencyRow Body))
      : List (IdempotencyRow Body) → Type 0 where
    adds :
        (new : IdempotencyRow Body)
        → record_of k rows ≡ none
        → new.unique_key ≡ k
        → new.id ≡ id
        → Outcome k id now rows (new ∷ rows)
    leaves : Outcome k id now rows rows
    takes :
        (row : IdempotencyRow Body)
        → record_of k rows ≡ some row
        → stored_body row ≡ none
        → Outcome k id now rows (map (reclaimed row.id now) rows)

  upsert-found :
      (new : IdempotencyRow Body) (rows : List (IdempotencyRow Body)) (row : IdempotencyRow Body)
      → record_of new.unique_key rows ≡ some row
      → upsert new rows ≡ (row, rows)
  unfolding upsert
  upsert-found new rows row q = rw (q, upsert)

  upsert-fresh :
      (new : IdempotencyRow Body) (rows : List (IdempotencyRow Body))
      → record_of new.unique_key rows ≡ none
      → upsert new rows ≡ (new, new ∷ rows)
  unfolding upsert
  upsert-fresh new rows q = rw (q, upsert)

  module _ {Response : Type 0} (decrypt : Body → Response) where
    pub claim_again-answer :
        (operation hash : String) (now : ℕ) (row : IdempotencyRow Body)
        (rows : List (IdempotencyRow Body)) (c : MutationClaim Response)
        (rows' : List (IdempotencyRow Body))
        → claim_again decrypt operation hash now row rows ≡ answer (c, rows')
        → (rows' ≡ map (reclaimed row.id now) rows) × (c ≡ execute row.id hash)
    unfolding claim_again
    claim_again-answer operation hash now row rows c rows' h = (ground arith, ground arith)

    pub answer_record-answer :
        (id operation hash : String) (now : ℕ) (row : IdempotencyRow Body)
        (rows : List (IdempotencyRow Body)) (c : MutationClaim Response)
        (rows' : List (IdempotencyRow Body))
        → answer_record decrypt id operation hash now row rows ≡ answer (c, rows')
        → (rows' ≡ rows) ⊎ ((stored_body row ≡ none) × (rows' ≡ map (reclaimed row.id now) rows))
    unfolding answer_record
    answer_record-answer id operation hash now row rows c rows' h =
        elim (Bool-cases (str_eq row.request_hash hash)) [
          | inr reused ↦ absurd (ground arith)
          | inl same_request ↦ elim (Bool-cases (str_eq row.id id)) [
            | inl mine ↦ inl (ground arith)
            | inr other ↦ elim (Option-cases (stored_body row)) [
              | inr (body, q) ↦ inl (ground arith)
              | inl q ↦
                  inr (q, ground (arith, claim_again-answer operation hash now row rows c rows'))
            ]
          ]
        ]

    answer_record-mine :
        (id operation : String) (now : ℕ) (row : IdempotencyRow Body)
        (rows : List (IdempotencyRow Body))
        → row.id ≡ id
        → answer_record decrypt id operation row.request_hash now row rows
          ≡ answer (execute id row.request_hash, rows)
    unfolding answer_record
    answer_record-mine id operation now row rows e =
        ground (arith, eq_iff row.request_hash row.request_hash, eq_iff row.id id)

    module _ {Request : Type 0} (request_hash : Request → String) where
      abbrev pub key_of : BeginMutationInput Request → MutationKey
      key_of input = record {
        society_id = input.society_id;
        actor_scope_key = input.actor.actor_scope_key;
        operation = input.operation;
        key = input.idempotency_key;
      }

      pub begin-valid :
          (input : BeginMutationInput Request) (id : String) (now : ℕ)
          (rows : List (IdempotencyRow Body)) (r : Claimed decrypt)
          → begin decrypt request_hash input id now rows ≡ answer r
          → is_idempotency_key input.idempotency_key ≡ true
      unfolding begin
      begin-valid input id now rows r h =
          elim (Bool-cases (is_idempotency_key input.idempotency_key)) [
            | inl valid ↦ valid
            | inr bad ↦ cc (rw bad at h)
          ]

      begin-eq :
          (input : BeginMutationInput Request) (id : String) (now : ℕ)
          (rows : List (IdempotencyRow Body))
          → is_idempotency_key input.idempotency_key ≡ true
          → let hash = request_hash input.request in
            let u : IdempotencyRow Body × List (IdempotencyRow Body) =
              upsert (new_record input hash id now) rows in
            begin decrypt request_hash input id now rows
            ≡ answer_record decrypt id input.operation hash now u.0 u.1
      unfolding begin
      begin-eq input id now rows valid = rw (valid, begin)

      -- A known key is answered from its record, a new one from the row that is added.
      pub begin-found :
          (input : BeginMutationInput Request) (id : String) (now : ℕ)
          (rows : List (IdempotencyRow Body)) (row : IdempotencyRow Body)
          → is_idempotency_key input.idempotency_key ≡ true
          → record_of (key_of input) rows ≡ some row
          → begin decrypt request_hash input id now rows
            ≡ answer_record decrypt id input.operation (request_hash input.request) now row rows
      begin-found input id now rows row valid q =
          let hash = request_hash input.request in
          begin-eq input id now rows valid
          ∙ ap (λ u. answer_record decrypt id input.operation hash now u.0 u.1)
              (upsert-found (new_record input hash id now) rows row q)

      pub begin-fresh :
          (input : BeginMutationInput Request) (id : String) (now : ℕ)
          (rows : List (IdempotencyRow Body))
          → is_idempotency_key input.idempotency_key ≡ true
          → record_of (key_of input) rows ≡ none
          → let hash = request_hash input.request in
            begin decrypt request_hash input id now rows
            ≡ answer (execute id hash, new_record input hash id now ∷ rows)
      begin-fresh input id now rows valid q =
          let hash = request_hash input.request in
          let new : IdempotencyRow Body = new_record input hash id now in
          begin-eq input id now rows valid
          ∙ ap (λ u. answer_record decrypt id input.operation hash now u.0 u.1)
              (upsert-fresh new rows q)
          ∙ answer_record-mine id input.operation now new (new ∷ rows) refl

      pub begin-Outcome :
          (input : BeginMutationInput Request) (id : String) (now : ℕ)
          (rows : List (IdempotencyRow Body)) (c : MutationClaim Response)
          (rows' : List (IdempotencyRow Body))
          → begin decrypt request_hash input id now rows ≡ answer (c, rows')
          → Outcome (key_of input) id now rows rows'
      begin-Outcome input id now rows c rows' h =
          let hash = request_hash input.request in
          let valid = begin-valid input id now rows (c, rows') h in
          let Result : List (IdempotencyRow Body) → Type 0 = Outcome (key_of input) id now rows in
          elim (Option-cases (record_of (key_of input) rows)) [
            | inl q ↦
                let added : (new_record input hash id now ∷ rows) ≡ rows' =
                  cc (begin-fresh input id now rows valid q, h) in
                subst Result added (adds (new_record input hash id now) q refl refl)
            | inr (row, q) ↦
                elim (answer_record-answer id input.operation hash now row rows c rows'
                  (sym (begin-found input id now rows row valid q) ∙ h)) [
                    | inl same_rows ↦ subst Result (sym same_rows) leaves
                    | inr (no_body, taken) ↦ subst Result (sym taken) (takes row q no_body)
                  ]
          ]
