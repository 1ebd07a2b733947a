-- ===== src/Api/Journal/Commit/Chain.antt =====
-- apps/api/src/modules/platform/mutation-journal.service.ts, `appendAudit`: the chain of hashes.
use Prim.Native.Nat.{Ordering}
use Prim.Native.String.{compare as compare_text}
use manglam_balaji_managemen.Api.Journal.Commit.{
  AuditMaterial, AuditEntry, CommitMutationInput, is_newer, newer, newest, append_audit,
  audit_material, or_default, AuditOutcome, hash_of,
}
use manglam_balaji_managemen.Prelude.{
  ℕ, ◌≤◌, ◌≡◌, ◌==◌, ◌&&◌, false, Bool, if◌then◌else◌, true, List, inl, inr, ap, ◌∙◌, Option, some,
  String, eq_iff, arith, Bool-cases, refl,
}

-- Whether a text sorts after another, as the database sorts ids.
abbrev pub is_greater : String → String → Bool
is_greater a b = elim (compare_text a b) [ Ordering.gt ↦ true | _ ↦ false ]

if_hash :
    (b : Bool) (e f : AuditEntry)
    → some (if b then e else f).entry_hash ≡ some (if b then e.entry_hash else f.entry_hash)
if_hash true e f = refl
if_hash false e f = refl

module _ {Response : Type 0} (entry_hash : AuditMaterial → String)
    (input : CommitMutationInput Response) (id : String) (now : ℕ) (entries : List AuditEntry) where
  abbrev pub appended : List AuditEntry
  appended = append_audit entry_hash input id now entries

  abbrev pub entry : AuditEntry
  entry =
      let material = audit_material input now (newest input.society_id entries) in
      record {
        id = id;
        material = material;
        outcome = or_default input.audit_outcome AuditOutcome.success;
        entry_hash = entry_hash material;
      }

  appended-newest :
      newest input.society_id appended ≡ some (newer entry (newest input.society_id entries))
  unfolding append_audit newest
  appended-newest = ground (arith, eq_iff input.society_id input.society_id)

  -- The entry that the next commit of the society writes.
  abbrev pub next_hash : CommitMutationInput Response → Option String
  next_hash next = hash_of (newest next.society_id appended)

  next_hash-newest :
      (next : CommitMutationInput Response) (e : AuditEntry)
      → next.society_id ≡ input.society_id
      → newer entry (newest input.society_id entries) ≡ e
      → next_hash next ≡ some e.entry_hash
  next_hash-newest next e same_society q =
      rw same_society (ap hash_of (appended-newest ∙ ap some q))

  newer-cases :
      (last : AuditEntry)
      → newest input.society_id entries ≡ some last
      → last.material.occurred_at ≤ now
      → newer entry (newest input.society_id entries)
        ≡ (if last.material.occurred_at == now && is_greater last.id id then last else entry)
  unfolding newer is_newer
  newer-cases last q in_time = elim (Bool-cases (last.material.occurred_at == now)) [
    | inl same_time ↦ rw (q, same_time) (ground arith)
    | inr earlier ↦ rw (q, earlier) (ground arith)
  ]

-- An audit entry records the hash of the newest entry of its society, and the next entry records
-- its hash, unless the newest one is of the same millisecond and has the greater id: then the next
-- entry records the hash of that one again, so that none records the hash of the entry between
-- them. This takes a clock that has not gone back since the newest entry.
pub append_audit-links :
    {Response : Type 0} (entry_hash : AuditMaterial → String)
    (input next : CommitMutationInput Response) (id : String) (now : ℕ) (entries : List AuditEntry)
    (last : AuditEntry)
    → next.society_id ≡ input.society_id
    → newest input.society_id entries ≡ some last
    → last.material.occurred_at ≤ now
    → ((entry entry_hash input id now entries).material.previous_hash ≡ some last.entry_hash)
      × (next_hash entry_hash input id now entries next
          ≡ some (
              if last.material.occurred_at == now && is_greater last.id id
              then last.entry_hash
              else (entry entry_hash input id now entries).entry_hash))
append_audit-links entry_hash input next id now entries last same_society q in_time = (
  ap hash_of q,
  next_hash-newest entry_hash input id now entries next
        (if last.material.occurred_at == now && is_greater last.id id
          then last
          else entry entry_hash input id now entries)
        same_society (newer-cases entry_hash input id now entries last q in_time)
      ∙ if_hash _ last (entry entry_hash input id now entries),
)
