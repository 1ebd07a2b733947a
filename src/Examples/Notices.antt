-- ===== src/Examples/Notices.antt =====
-- packages/domain/src/notifications.ts at concrete requests.
use mathlib.Core.List.{Memᴰ}
use manglam_balaji_managemen.Domain.Notification.{
  notification_rules, DeliveryRequest, resolve_notification_delivery, notification_retry_delay_ms,
}
use manglam_balaji_managemen.Domain.Notification.Laws.{
  IsWanted, resolve_notification_delivery-channels_iff, notification_retry_delay_ms-grows,
}
use manglam_balaji_managemen.Js.Number.{integer}
use manglam_balaji_managemen.Types.Enums.Platform.{
  NotificationCategory, NotificationChannel, NotificationChannel-discrete,
}
use manglam_balaji_managemen.Prelude.{some, min, ◌*◌, ◌≤◌, ◌≡◌, ◌⊎◌, refl, [], ◌∷◌}

-- A user without a wish gets an emergency by the ways that work.
abbrev alarm : DeliveryRequest
alarm = record {
  category = NotificationCategory.emergency;
  preferred_channels = [];
  available_channels = NotificationChannel.realtime ∷ NotificationChannel.sms ∷ [];
}

alarm_channels :
    (resolve_notification_delivery alarm).channels
    ≡ NotificationChannel.in_app ∷ NotificationChannel.realtime ∷ []
unfolding resolve_notification_delivery notification_rules NotificationChannel-discrete
alarm_channels = refl

by_realtime : Memᴰ NotificationChannel.realtime (resolve_notification_delivery alarm).channels
unfolding resolve_notification_delivery notification_rules NotificationChannel-discrete
by_realtime = Memᴰ.tail (Memᴰ.head refl)

resolve_notification_delivery-channels_iff_example :
    (NotificationChannel.realtime ≡ NotificationChannel.in_app)
    ⊎ (IsWanted alarm.category alarm.preferred_channels NotificationChannel.realtime
        × Memᴰ NotificationChannel.realtime alarm.available_channels)
resolve_notification_delivery-channels_iff_example =
    (resolve_notification_delivery-channels_iff alarm NotificationChannel.realtime).0 by_realtime

-- A notice leaves the choice to the user.
abbrev notice : DeliveryRequest
notice = record alarm { category = NotificationCategory.notice }

-- The sixth wait of an emergency is 32 seconds, the seventh 64.
notification_retry_delay_ms-grows_example :
    (notification_retry_delay_ms NotificationCategory.emergency (integer 1) ≡ some 1000)
    × (1000 ≤ 32000)
    × (32000 ≤ 64000)
    × (64000 ≡ min (2 * 32000) 120000)
unfolding notification_retry_delay_ms notification_rules
notification_retry_delay_ms-grows_example =
    notification_retry_delay_ms-grows NotificationCategory.emergency 6 32000 64000 refl refl
