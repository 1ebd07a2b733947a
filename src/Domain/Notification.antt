-- ===== src/Domain/Notification.antt =====
-- packages/domain/src/notifications.ts: the rules of notifications, their channels and their retries.
pub mod Laws
use manglam_balaji_managemen.Js.Number.{Number, nan, infinite, integer, negative, is_safe_integer}
use manglam_balaji_managemen.Js.Sets.{add}
use manglam_balaji_managemen.Types.Enums.Platform.{
  NotificationCategory, NotificationChannel, NotificationChannel-discrete,
}
use manglam_balaji_managemen.Prelude.{
  ℕ, ◌-◌, ◌*◌, ◌^◌, min, Bool, true, false, not, ◌&&◌, ◌||◌, List, [], ◌∷◌, Option, none, some, any,
  includes, same, leb, ltb, if◌then◌else◌,
}

pub data NotificationCriticality : Type 0 where
  mandatory_critical time_sensitive optional : NotificationCriticality

pub record NotificationRule : Type 0 where
  pub criticality : NotificationCriticality
  pub preference_mutable : Bool
  pub default_channels : List NotificationChannel
  pub max_delivery_attempts : ℕ
  pub base_retry_ms : ℕ
  pub max_retry_ms : ℕ

abbrev pub every_way : List NotificationChannel
every_way =
    NotificationChannel.in_app ∷ NotificationChannel.push ∷ NotificationChannel.realtime ∷ []

abbrev two_ways : List NotificationChannel
two_ways = NotificationChannel.in_app ∷ NotificationChannel.push ∷ []

unfoldable pub notification_rules : NotificationCategory → NotificationRule
notification_rules NotificationCategory.security_critical = record {
  criticality = mandatory_critical;
  preference_mutable = false;
  default_channels = every_way;
  max_delivery_attempts = 8;
  base_retry_ms = 2000;
  max_retry_ms = 300000;
}
notification_rules NotificationCategory.emergency = record {
  criticality = mandatory_critical;
  preference_mutable = false;
  default_channels = every_way;
  max_delivery_attempts = 10;
  base_retry_ms = 1000;
  max_retry_ms = 120000;
}
notification_rules NotificationCategory.visitor_approval = record {
  criticality = time_sensitive;
  preference_mutable = false;
  default_channels = every_way;
  max_delivery_attempts = 6;
  base_retry_ms = 2000;
  max_retry_ms = 60000;
}
notification_rules NotificationCategory.visitor_activity = record {
  criticality = optional;
  preference_mutable = true;
  default_channels = two_ways;
  max_delivery_attempts = 5;
  base_retry_ms = 5000;
  max_retry_ms = 600000;
}
notification_rules NotificationCategory.notice = record {
  criticality = optional;
  preference_mutable = true;
  default_channels = two_ways;
  max_delivery_attempts = 5;
  base_retry_ms = 10000;
  max_retry_ms = 900000;
}
notification_rules NotificationCategory.complaint = record {
  criticality = optional;
  preference_mutable = true;
  default_channels = two_ways;
  max_delivery_attempts = 5;
  base_retry_ms = 10000;
  max_retry_ms = 900000;
}
notification_rules NotificationCategory.payment = record {
  criticality = optional;
  preference_mutable = true;
  default_channels = two_ways;
  max_delivery_attempts = 5;
  base_retry_ms = 10000;
  max_retry_ms = 900000;
}
notification_rules NotificationCategory.general = record {
  criticality = optional;
  preference_mutable = true;
  default_channels = NotificationChannel.in_app ∷ [];
  max_delivery_attempts = 3;
  base_retry_ms = 30000;
  max_retry_ms = 1800000;
}

unfoldable pub is_notification_preference_mutable : NotificationCategory → Bool
is_notification_preference_mutable category = (notification_rules category).preference_mutable

-- `requiresInAppFallback` is the constant true.
pub record ResolvedNotificationDelivery : Type 0 where
  pub channels : List NotificationChannel
  pub preference_overridden : Bool
  pub requires_in_app_fallback : Bool

-- The argument of `resolveNotificationDelivery`.
pub record DeliveryRequest : Type 0 where
  pub category : NotificationCategory
  pub preferred_channels : List NotificationChannel
  pub available_channels : List NotificationChannel

abbrev pub is_among : List NotificationChannel → NotificationChannel → Bool
is_among = includes NotificationChannel-discrete

abbrev pub is_channel : NotificationChannel → NotificationChannel → Bool
is_channel = same NotificationChannel-discrete

abbrev pub requested_channels : DeliveryRequest → List NotificationChannel
requested_channels input =
    if (notification_rules input.category).preference_mutable
    then input.preferred_channels
    else (notification_rules input.category).default_channels

-- The loop over the channels that are requested.
unfoldable pub add_channels :
    List NotificationChannel
    → List NotificationChannel
    → List NotificationChannel
    → List NotificationChannel
add_channels available channels [] = channels
add_channels available channels (channel ∷ requested) =
    add_channels available
      (if is_channel channel NotificationChannel.in_app || is_among available channel
        then add is_channel channels channel
        else channels)
      requested

-- Some of the first are not among the second.
abbrev pub exceed : List NotificationChannel → List NotificationChannel → Bool
exceed channels others = any (λ channel. not (is_among others channel)) channels

unfoldable pub resolve_notification_delivery : DeliveryRequest → ResolvedNotificationDelivery
unfolding add_channels
resolve_notification_delivery input = record {
  channels =
      add_channels input.available_channels (NotificationChannel.in_app ∷ [])
        (requested_channels input);
  preference_overridden =
      (not rule.preference_mutable && exceed input.preferred_channels rule.default_channels)
      || (not rule.preference_mutable && exceed rule.default_channels input.preferred_channels);
  requires_in_app_fallback = true;
}
  where
    rule : NotificationRule
    rule = notification_rules input.category

-- null is `none`. The powers that occur are small.
unfoldable pub notification_retry_delay_ms : NotificationCategory → Number → Option ℕ
notification_retry_delay_ms category nan = none
notification_retry_delay_ms category infinite = none
notification_retry_delay_ms category (negative _) = none
notification_retry_delay_ms category (integer attempt) =
    if not (is_safe_integer (integer attempt))
      || ltb attempt 1
      || leb (notification_rules category).max_delivery_attempts attempt
    then none
    else some (
        min ((notification_rules category).base_retry_ms * 2 ^ (attempt - 1))
          (notification_rules category).max_retry_ms)
