-- ===== src/Domain/Payment/Allocation/Checks.antt =====
-- packages/domain/src/payment.ts, `allocatePaymentOldestFirst`: what each of its checks asks for.
use mathlib.Core.List.{Memᴰ}
use manglam_balaji_managemen.Domain.Payment.Allocation.{
  OutstandingCharge, outstanding, amount_refusal, balance_refusal, identity_refusal, total_refusal,
  charge_ids, is_bad_balance, is_nan,
}
use manglam_balaji_managemen.Domain.Payment.Allocation.Greedy.{
  owed, sum_from-eq-add, IsFresh, HasDistinctIds,
}
use manglam_balaji_managemen.Js.Date.{date_parse}
use manglam_balaji_managemen.Js.Number.{
  Number, nan, infinite, integer, negative, max_safe_integer, value, IsAmount, IsAmount_of_good,
  is_bad_amount-IsAmount,
}
use manglam_balaji_managemen.Js.Sets.{has}
use manglam_balaji_managemen.Js.Sets.Laws.{AreNew, AreNew-iff_length}
use manglam_balaji_managemen.Prelude.{
  ℕ, suc, ◌≤◌, ◌<◌, ◌≡◌, ◌↔◌, refl, ap, false, List, [], ◌∷◌, ◌++◌, Option, none, some, String,
  arith, All, All-map, length, str_eq, eq_iff, ◌||◌, any,
}

has-append :
    (set : List String) (y x : String)
    → has str_eq (set ++ y ∷ []) x ≡ (has str_eq set x || str_eq y x)
has-append [] y x = ground arith
has-append (z ∷ set) y x = ground (arith, has-append set y x)

AreNew→HasDistinctIds :
    (set : List String) (cs : List OutstandingCharge)
    → AreNew str_eq set (charge_ids cs)
    → HasDistinctIds cs × All (λ c. has str_eq set c.charge_id ≡ false) cs
AreNew→HasDistinctIds set [] h = (tt, tt)
AreNew→HasDistinctIds set (c ∷ cs) (new, h) =
    let (ids, apart) = AreNew→HasDistinctIds (set ++ c.charge_id ∷ []) cs h in
    (
      (
        All-map
            (λ d k.
              ground
                (arith, has-append set c.charge_id d.charge_id, eq_iff c.charge_id d.charge_id))
            cs apart,
        ids,
      ),
      (new, All-map (λ d k. ground (arith, has-append set c.charge_id d.charge_id)) cs apart),
    )

HasDistinctIds→AreNew :
    (set : List String) (cs : List OutstandingCharge)
    → HasDistinctIds cs
    → All (λ c. has str_eq set c.charge_id ≡ false) cs
    → AreNew str_eq set (charge_ids cs)
HasDistinctIds→AreNew set [] ids apart = tt
HasDistinctIds→AreNew set (c ∷ cs) (fresh, ids) (new, apart) =
    (new, HasDistinctIds→AreNew (set ++ c.charge_id ∷ []) cs ids (both cs fresh apart))
  where
    both :
        (ds : List OutstandingCharge)
        → IsFresh c.charge_id ds
        → All (λ d. has str_eq set d.charge_id ≡ false) ds
        → All (λ d. has str_eq (set ++ c.charge_id ∷ []) d.charge_id ≡ false) ds
    both [] f a = tt
    both (d ∷ ds) (ne, f) (n, a) = (
      ground (arith, has-append set c.charge_id d.charge_id, eq_iff c.charge_id d.charge_id),
      both ds f a,
    )

length-charge_ids : (cs : List OutstandingCharge) → length (charge_ids cs) ≡ length cs
length-charge_ids [] = refl
length-charge_ids (c ∷ cs) = ap suc (length-charge_ids cs)

-- A charge with a date and a safe balance.
abbrev pub IsSound : OutstandingCharge → Type 0
IsSound c =
    ((t : ℕ) × (date_parse c.due_at ≡ some t)) × IsAmount c.outstanding_minor (outstanding c)

-- What a payment has to meet.
pub record IsPayable (amount : Number) (charges : List OutstandingCharge) : Type 0 where
  pub safe : IsAmount amount (value amount)
  pub positive : 0 < value amount
  pub sound : All IsSound charges
  pub distinct : HasDistinctIds charges
  pub total_safe : owed charges ≤ max_safe_integer
  pub covered : value amount ≤ owed charges

-- Each test of the code, and the field that it stands for.
pub amount_refusal_iff :
    (amount : Number)
    → (amount_refusal amount ≡ none) ↔ (IsAmount amount (value amount) × (0 < value amount))
unfolding amount_refusal
amount_refusal_iff (integer n) = (λ h. ((refl, ground arith), ground arith), λ k. ground arith)
amount_refusal_iff (negative n) = (λ h. ground arith, λ (_, pos). absurd (omega arith))
amount_refusal_iff nan = (λ h. cc, λ (_, pos). absurd (omega arith))
amount_refusal_iff infinite = (λ h. cc, λ (_, pos). absurd (omega arith))

is_nan-false : (o : Option ℕ) → is_nan o ≡ false → (t : ℕ) × (o ≡ some t)
is_nan-false none h = cc
is_nan-false (some t) h = (t, refl)

is_bad_balance_iff : (c : OutstandingCharge) → (is_bad_balance c ≡ false) ↔ IsSound c
unfolding is_bad_balance
is_bad_balance_iff c = (
  λ h. (is_nan-false _ (ground arith), IsAmount_of_good _ (ground arith)),
  λ ((t, dated), a). rw (dated, (is_bad_amount-IsAmount _ _ a).0),
)

any_bad_iff : (cs : List OutstandingCharge) → (any is_bad_balance cs ≡ false) ↔ All IsSound cs
any_bad_iff [] = (λ _. tt, λ _. refl)
any_bad_iff (c ∷ cs) = (
  λ h. ((is_bad_balance_iff c).0 (ground arith), (any_bad_iff cs).0 (ground arith)),
  λ (s, ss). rw ((is_bad_balance_iff c).1 s) ((any_bad_iff cs).1 ss),
)

pub balance_refusal_iff :
    (cs : List OutstandingCharge) → (balance_refusal cs ≡ none) ↔ All IsSound cs
unfolding balance_refusal
balance_refusal_iff cs = (λ h. (any_bad_iff cs).0 (ground arith), λ s. rw ((any_bad_iff cs).1 s))

no_ids_taken : (cs : List OutstandingCharge) → All (λ c. has str_eq [] c.charge_id ≡ false) cs
no_ids_taken [] = tt
no_ids_taken (c ∷ cs) = (refl, no_ids_taken cs)

pub identity_refusal_iff :
    (cs : List OutstandingCharge) → (identity_refusal cs ≡ none) ↔ HasDistinctIds cs
unfolding identity_refusal
identity_refusal_iff cs =
    let (to, from) = AreNew-iff_length str_eq [] (charge_ids cs) in
    (
      λ h. (AreNew→HasDistinctIds [] cs (to (ground (arith, length-charge_ids cs)))).0,
      λ ids.
          let e = from (HasDistinctIds→AreNew [] cs ids (no_ids_taken cs)) in
          ground (arith, length-charge_ids cs, e),
    )

pub total_refusal_iff :
    (amount : Number) (cs : List OutstandingCharge)
    → (total_refusal amount cs ≡ none) ↔ ((owed cs ≤ max_safe_integer) × (value amount ≤ owed cs))
unfolding total_refusal
total_refusal_iff amount cs =
    (λ h. ground (arith, sum_from-eq-add 0 cs), λ k. ground (arith, sum_from-eq-add 0 cs))

within_of_mem :
    (cs ds : List OutstandingCharge)
    → ((d : OutstandingCharge) → Memᴰ d cs → Memᴰ d ds)
    → All (λ d. Memᴰ d ds) cs
within_of_mem [] ds f = tt
within_of_mem (c ∷ cs) ds f = (f c (Memᴰ.head refl), within_of_mem cs ds (λ d m. f d (Memᴰ.tail m)))

pub within_itself : (cs : List OutstandingCharge) → All (λ d. Memᴰ d cs) cs
within_itself cs = within_of_mem cs cs (λ d m. m)
