-- ===== src/Domain/Notification/Laws.antt =====
-- packages/domain/src/notifications.ts: where a notification goes, and when it is sent again.
use mathlib.Core.List.{Memᴰ}
use native.Mathlib.Nat.{two-pow-succ, pow-zero, mul-add}
use manglam_balaji_managemen.Domain.Notification.{
  notification_rules, DeliveryRequest, resolve_notification_delivery, is_among, is_channel,
  requested_channels, add_channels, exceed, notification_retry_delay_ms, every_way,
}
use manglam_balaji_managemen.Js.Number.{integer}
use manglam_balaji_managemen.Js.Sets.{add}
use manglam_balaji_managemen.Js.Sets.Laws.{add_all-mem, add_all-keeps, add_all-adds}
use manglam_balaji_managemen.Types.Enums.Platform.{
  NotificationCategory, NotificationChannel, NotificationChannel-discrete,
}
use manglam_balaji_managemen.Prelude.{
  ℕ, zero, suc, ◌+◌, ◌-◌, ◌*◌, ◌^◌, ◌≤◌, ◌<◌, min, ◌≡◌, ◌⊎◌, ◌↔◌, inl, inr, refl, sym, subst, ap,
  ◌∙◌, true, false, List, [], ◌∷◌, some, arith, includes→mem, mem→includes, same→eq, same_refl,
  Bool-cases, ◌||◌, if◌then◌else◌,
}

-- A channel that a request may add.
abbrev MayUse : List NotificationChannel → NotificationChannel → Type 0
MayUse available x = (x ≡ NotificationChannel.in_app) ⊎ Memᴰ x available

usable_iff :
    (available : List NotificationChannel) (x : NotificationChannel)
    → ((is_channel x NotificationChannel.in_app || is_among available x) ≡ true)
      ↔ MayUse available x
usable_iff available x = (
  λ h. elim (Bool-cases (is_channel x NotificationChannel.in_app)) [
    | inl e ↦ inl (same→eq NotificationChannel-discrete x NotificationChannel.in_app e)
    | inr e ↦ inr (includes→mem NotificationChannel-discrete available x (ground arith))
  ],
  λ k. elim k [
    | inl e ↦ ground (arith, same_refl NotificationChannel-discrete NotificationChannel.in_app, e)
    | inr m ↦ ground (arith, mem→includes NotificationChannel-discrete available m)
  ],
)

the_only : {x y : NotificationChannel} → Memᴰ x (y ∷ []) → x ≡ y
the_only (Memᴰ.head e) = e
the_only (Memᴰ.tail m) = elim m [ ]

module _ (available : List NotificationChannel) (x : NotificationChannel) where
  add_channels-mem :
      (set requested : List NotificationChannel)
      → Memᴰ x (add_channels available set requested)
      → Memᴰ x set ⊎ (Memᴰ x requested × MayUse available x)
  unfolding add_channels
  add_channels-mem set [] m = inl m
  add_channels-mem set (c ∷ cs) m =
      elim (Bool-cases (is_channel c NotificationChannel.in_app || is_among available c)) [
        | inl fits ↦ elim (add_channels-mem (add is_channel set c) cs (rw fits at m)) [
          | inl k ↦ elim (add_all-mem NotificationChannel-discrete set (c ∷ []) x k) [
            | inl j ↦ inl j
            | inr j ↦
                let e = the_only j in
                inr
                  (Memᴰ.head e, subst (MayUse available) (sym e) ((usable_iff available c).0 fits))
          ]
          | inr (j, u) ↦ inr (Memᴰ.tail j, u)
        ]
        | inr other ↦ elim (add_channels-mem set cs (rw other at m)) [
          | inl k ↦ inl k
          | inr (j, u) ↦ inr (Memᴰ.tail j, u)
        ]
      ]

  add_channels-keeps :
      (set requested : List NotificationChannel)
      → Memᴰ x set
      → Memᴰ x (add_channels available set requested)
  unfolding add_channels
  add_channels-keeps set [] m = m
  add_channels-keeps set (c ∷ cs) m =
      elim (Bool-cases (is_channel c NotificationChannel.in_app || is_among available c)) [
        | inl fits ↦ rw fits (
            add_channels-keeps (add is_channel set c) cs
              (add_all-keeps NotificationChannel-discrete set (c ∷ []) x m))
        | inr other ↦ rw other (add_channels-keeps set cs m)
      ]

  mem-add_channels :
      (set requested : List NotificationChannel)
      → Memᴰ x requested
      → MayUse available x
      → Memᴰ x (add_channels available set requested)
  unfolding add_channels
  mem-add_channels set [] m u = elim m [ ]
  mem-add_channels set (c ∷ cs) (Memᴰ.head e) u =
      rw ((usable_iff available c).1 (subst (MayUse available) e u)) (
        add_channels-keeps (add is_channel set c) cs
          (add_all-adds NotificationChannel-discrete set (c ∷ []) x (Memᴰ.head e)))
  mem-add_channels set (c ∷ cs) (Memᴰ.tail m) u =
      elim (Bool-cases (is_channel c NotificationChannel.in_app || is_among available c)) [
        | inl fits ↦ rw fits (mem-add_channels (add is_channel set c) cs m u)
        | inr other ↦ rw other (mem-add_channels set cs m u)
      ]

-- The categories that leave the choice of channels to the user.
abbrev pub LeavesChoice : NotificationCategory → Type 0
LeavesChoice NotificationCategory.security_critical = ⊥
LeavesChoice NotificationCategory.emergency = ⊥
LeavesChoice NotificationCategory.visitor_approval = ⊥
LeavesChoice NotificationCategory.visitor_activity = Unit
LeavesChoice NotificationCategory.notice = Unit
LeavesChoice NotificationCategory.complaint = Unit
LeavesChoice NotificationCategory.payment = Unit
LeavesChoice NotificationCategory.general = Unit

-- What asks for a channel beside the app's own list.
abbrev pub IsWanted : NotificationCategory → List NotificationChannel → NotificationChannel → Type 0
IsWanted category preferred x =
    (LeavesChoice category × Memᴰ x preferred)
    ⊎ ((¬ LeavesChoice category)
        × ((x ≡ NotificationChannel.push) ⊎ (x ≡ NotificationChannel.realtime)))

abbrev requested : NotificationCategory → List NotificationChannel → List NotificationChannel
requested category preferred =
    if (notification_rules category).preference_mutable
    then preferred
    else (notification_rules category).default_channels

module _ (preferred : List NotificationChannel) (x : NotificationChannel) where
  fixed-wanted :
      Memᴰ x every_way
      → (x ≡ NotificationChannel.in_app)
        ⊎ ((x ≡ NotificationChannel.push) ⊎ (x ≡ NotificationChannel.realtime))
  fixed-wanted (Memᴰ.head e) = inl e
  fixed-wanted (Memᴰ.tail (Memᴰ.head e)) = inr (inl e)
  fixed-wanted (Memᴰ.tail (Memᴰ.tail (Memᴰ.head e))) = inr (inr e)
  fixed-wanted (Memᴰ.tail (Memᴰ.tail (Memᴰ.tail m))) = elim m [ ]

  wanted-fixed :
      (x ≡ NotificationChannel.push) ⊎ (x ≡ NotificationChannel.realtime) → Memᴰ x every_way
  wanted-fixed (inl e) = Memᴰ.tail (Memᴰ.head e)
  wanted-fixed (inr e) = Memᴰ.tail (Memᴰ.tail (Memᴰ.head e))

  -- A category that leaves no choice has every channel in its rule.
  requested_of_fixed :
      (category : NotificationCategory)
      → ¬ LeavesChoice category
      → requested category preferred ≡ every_way
  unfolding notification_rules
  requested_of_fixed NotificationCategory.security_critical n = refl
  requested_of_fixed NotificationCategory.emergency n = refl
  requested_of_fixed NotificationCategory.visitor_approval n = refl
  requested_of_fixed NotificationCategory.visitor_activity n = absurd (n tt)
  requested_of_fixed NotificationCategory.notice n = absurd (n tt)
  requested_of_fixed NotificationCategory.complaint n = absurd (n tt)
  requested_of_fixed NotificationCategory.payment n = absurd (n tt)
  requested_of_fixed NotificationCategory.general n = absurd (n tt)

  requested_of_choice :
      (category : NotificationCategory)
      → LeavesChoice category
      → requested category preferred ≡ preferred
  unfolding notification_rules
  requested_of_choice NotificationCategory.security_critical c = elim c [ ]
  requested_of_choice NotificationCategory.emergency c = elim c [ ]
  requested_of_choice NotificationCategory.visitor_approval c = elim c [ ]
  requested_of_choice NotificationCategory.visitor_activity c = refl
  requested_of_choice NotificationCategory.notice c = refl
  requested_of_choice NotificationCategory.complaint c = refl
  requested_of_choice NotificationCategory.payment c = refl
  requested_of_choice NotificationCategory.general c = refl

  choice-cases :
      (category : NotificationCategory) → LeavesChoice category ⊎ (¬ LeavesChoice category)
  choice-cases NotificationCategory.security_critical = inr (λ c. c)
  choice-cases NotificationCategory.emergency = inr (λ c. c)
  choice-cases NotificationCategory.visitor_approval = inr (λ c. c)
  choice-cases NotificationCategory.visitor_activity = inl tt
  choice-cases NotificationCategory.notice = inl tt
  choice-cases NotificationCategory.complaint = inl tt
  choice-cases NotificationCategory.payment = inl tt
  choice-cases NotificationCategory.general = inl tt

  requested-IsWanted :
      (category : NotificationCategory)
      → Memᴰ x (requested category preferred)
      → (x ≡ NotificationChannel.in_app) ⊎ IsWanted category preferred x
  requested-IsWanted category m = elim (choice-cases category) [
    | inl c ↦ inr (inl (c, subst (Memᴰ x) (requested_of_choice category c) m))
    | inr n ↦ elim (fixed-wanted (subst (Memᴰ x) (requested_of_fixed category n) m)) [
      | inl e ↦ inl e
      | inr w ↦ inr (inr (n, w))
    ]
  ]

  IsWanted-requested :
      (category : NotificationCategory)
      → IsWanted category preferred x
      → Memᴰ x (requested category preferred)
  IsWanted-requested category (inl (c, m)) = subst (Memᴰ x) (sym (requested_of_choice category c)) m
  IsWanted-requested category (inr (n, w)) =
      subst (Memᴰ x) (sym (requested_of_fixed category n)) (wanted-fixed w)

-- A notification goes to a channel exactly if it is the app's own list, or a channel that is available
-- and asked for. What asks is the user where the category is an optional one; for security alerts,
-- emergencies and visits to approve it is the rule, which asks for push and realtime messages whatever
-- the user prefers.
pub resolve_notification_delivery-channels_iff :
    (r : DeliveryRequest) (x : NotificationChannel)
    → Memᴰ x (resolve_notification_delivery r).channels ↔ (
        (x ≡ NotificationChannel.in_app)
        ⊎ (IsWanted r.category r.preferred_channels x × Memᴰ x r.available_channels))
unfolding resolve_notification_delivery
resolve_notification_delivery-channels_iff r x = (
  λ m.
      elim (add_channels-mem r.available_channels x (NotificationChannel.in_app ∷ [])
        (requested_channels r) m) [
          | inl k ↦ inl (the_only k)
          | inr (k, inl e) ↦ inl e
          | inr (k, inr j) ↦ elim (requested-IsWanted r.preferred_channels x r.category k) [
            | inl e ↦ inl e
            | inr w ↦ inr (w, j)
          ]
        ],
  λ k. elim k [
    | inl e ↦
        add_channels-keeps r.available_channels x (NotificationChannel.in_app ∷ [])
          (requested_channels r) (Memᴰ.head e)
    | inr (w, j) ↦
        mem-add_channels r.available_channels x (NotificationChannel.in_app ∷ [])
          (requested_channels r) (IsWanted-requested r.preferred_channels x r.category w) (inr j)
  ],
)

within_of_exceed :
    (xs ys : List NotificationChannel)
    → exceed xs ys ≡ false
    → (x : NotificationChannel) → Memᴰ x xs
    → Memᴰ x ys
within_of_exceed [] ys h x m = elim m [ ]
within_of_exceed (z ∷ zs) ys h x (Memᴰ.head e) =
    subst (λ c. Memᴰ c ys) (sym e) (includes→mem NotificationChannel-discrete ys z (ground arith))
within_of_exceed (z ∷ zs) ys h x (Memᴰ.tail m) = within_of_exceed zs ys (ground arith) x m

exceed_of_within :
    (xs ys : List NotificationChannel)
    → ((x : NotificationChannel) → Memᴰ x xs → Memᴰ x ys)
    → exceed xs ys ≡ false
exceed_of_within [] ys f = refl
exceed_of_within (z ∷ zs) ys f = ground (
  arith,
  mem→includes NotificationChannel-discrete ys (f z (Memᴰ.head refl)),
  exceed_of_within zs ys (λ x m. f x (Memᴰ.tail m)),
)

-- The user's wish counts as overridden exactly if the category leaves no choice and the wish does not
-- consist of just the rule's channels, in whatever order.
pub resolve_notification_delivery-overridden_iff :
    (r : DeliveryRequest)
    → ((resolve_notification_delivery r).preference_overridden ≡ false) ↔ (
        ((notification_rules r.category).preference_mutable ≡ true)
        ⊎ ((x : NotificationChannel)
            → Memᴰ x r.preferred_channels
              ↔ Memᴰ x (notification_rules r.category).default_channels))
unfolding resolve_notification_delivery
resolve_notification_delivery-overridden_iff r =
    let rule = notification_rules r.category in
    (
      λ h. elim (Bool-cases rule.preference_mutable) [
        | inl free ↦ inl free
        | inr fixed ↦
            let less : exceed r.preferred_channels rule.default_channels ≡ false = ground arith in
            let more : exceed rule.default_channels r.preferred_channels ≡ false = ground arith in
            inr (λ x. (
              within_of_exceed r.preferred_channels rule.default_channels less x,
              within_of_exceed rule.default_channels r.preferred_channels more x,
            ))
      ],
      λ k. elim k [
        | inl free ↦ rw free refl
        | inr f ↦ ground (
          arith,
          exceed_of_within r.preferred_channels rule.default_channels (λ x. (f x).0),
          exceed_of_within rule.default_channels r.preferred_channels (λ x. (f x).1),
        )
      ],
    )

-- Each rule has attempts, few enough for every number, and a first wait within the longest.
rule_lem :
    (category : NotificationCategory)
    → ((notification_rules category).max_delivery_attempts ≤ 10)
      × (0 < (notification_rules category).base_retry_ms)
      × ((notification_rules category).base_retry_ms ≤ (notification_rules category).max_retry_ms)
unfolding notification_rules
rule_lem NotificationCategory.general = (omega arith, omega arith, omega arith)
rule_lem _ = (omega arith, omega arith, omega arith)

retry_delay :
    (category : NotificationCategory) (k d : ℕ)
    → notification_retry_delay_ms category (integer k) ≡ some d
    → (0 < k)
      × (k < (notification_rules category).max_delivery_attempts)
      × (d
          ≡ min
              ((notification_rules category).base_retry_ms * 2 ^ (k - 1))
              (notification_rules category).max_retry_ms)
unfolding notification_retry_delay_ms
retry_delay category k d h = (ground arith, ground arith, ground arith)

double : (b j : ℕ) → b * 2 ^ suc j ≡ b * 2 ^ j + b * 2 ^ j
double b j = ap (λ (t : ℕ). b * t) (two-pow-succ j) ∙ mul-add b (2 ^ j) (2 ^ j)

first_is_least : (b j : ℕ) → b ≤ b * 2 ^ j
first_is_least b zero = omega (arith, ap (λ (t : ℕ). b * t) (pow-zero 2))
first_is_least b (suc j) = omega (arith, double b j, first_is_least b j)

capped :
    (b j m d e : ℕ)
    → b ≤ m
    → d ≡ min (b * 2 ^ (suc j - 1)) m
    → e ≡ min (b * 2 ^ (suc (suc j) - 1)) m
    → (b ≤ d) × (d ≤ e) × (e ≡ min (2 * d) m)
capped b j m d e fits p q =
    let one : suc j - 1 ≡ j = omega arith in
    let two : suc (suc j) - 1 ≡ suc j = omega arith in
    let p' : d ≡ min (b * 2 ^ j) m = rw one at p in
    let q' : e ≡ min (b * 2 ^ suc j) m = rw two at q in
    omega (arith, double b j, first_is_least b j, p', q', fits)

-- The first wait is the one of the rule.
first_wait :
    (category : NotificationCategory)
    → notification_retry_delay_ms category (integer 1)
      ≡ some (notification_rules category).base_retry_ms
unfolding notification_retry_delay_ms notification_rules
first_wait NotificationCategory.general = refl
first_wait _ = refl

-- The first wait is the rule's base, and each further wait is twice the last one, cut at the rule's
-- longest; so none is shorter than the last one.
pub notification_retry_delay_ms-grows :
    (category : NotificationCategory) (k d e : ℕ)
    → notification_retry_delay_ms category (integer k) ≡ some d
    → notification_retry_delay_ms category (integer (suc k)) ≡ some e
    → (notification_retry_delay_ms category (integer 1)
        ≡ some (notification_rules category).base_retry_ms)
      × ((notification_rules category).base_retry_ms ≤ d)
      × (d ≤ e)
      × (e ≡ min (2 * d) (notification_rules category).max_retry_ms)
notification_retry_delay_ms-grows category zero d e h k =
    absurd (omega (arith, (retry_delay category zero d h).0))
notification_retry_delay_ms-grows category (suc j) d e h k =
    let (_, _, p) = retry_delay category (suc j) d h in
    let (_, _, q) = retry_delay category (suc (suc j)) e k in
    let (_, _, fits) = rule_lem category in
    let (least, longer, twice) =
      capped (notification_rules category).base_retry_ms j
        (notification_rules category).max_retry_ms d e fits p q in
    (first_wait category, least, longer, twice)
