-- ===== src/Admin/Channels/Shown.antt =====
-- apps/api/src/admin/channels.ts: the numbers that the directory shows, and the rank that orders it.
use webhook_broadcast.Base.{
  ℕ, ◌+◌, ◌<◌, ◌≡◌, ◌↔◌, arith, Bool, true, ◌&&◌, List, [], ◌∷◌, ◌==◌, any, count, is_some,
}
use webhook_broadcast.Store.Rows.{Database, ChannelRow, EndpointRow}
use webhook_broadcast.Store.Deliveries.{get_recent_failure_counts, is_recent_failure, window_start}
use webhook_broadcast.Store.Directory.{channel_health_rank, get_auto_disabled_endpoint_count}
use webhook_broadcast.Store.Directory.Rollup.{count_badge}
use webhook_broadcast.Admin.Channels.{hydrate_channel}

any-count : {A : Type 0} (p : A → Bool) (xs : List A) → (any p xs ≡ true) ↔ (0 < count p xs)
any-count p [] = (λ h. absurd (ground arith), λ h. absurd (omega arith))
any-count p (x ∷ xs) = ground (arith, any-count p xs)

shown_failures :
    (db : Database) (now : ℕ) (c : ChannelRow)
    → (hydrate_channel db now c).recent_failed_delivery_count
      ≡ count (is_recent_failure c.id (window_start now)) db.deliveries
unfolding hydrate_channel get_recent_failure_counts
shown_failures db now c = count_badge c.id (window_start now) db.deliveries

rank_shown :
    (db : Database) (now : ℕ) (c : ChannelRow)
    → (channel_health_rank db (window_start now) c ≡ 0) ↔ (
        (c.enabled ≡ true)
        × (0
            < count (is_recent_failure c.id (window_start now)) db.deliveries
              + (hydrate_channel db now c).auto_disabled_endpoint_count))
unfolding channel_health_rank hydrate_channel get_auto_disabled_endpoint_count
rank_shown db now c = ground (
  arith,
  any-count (is_recent_failure c.id (window_start now)) db.deliveries,
  any-count (λ (e : EndpointRow). e.channel_id == c.id && is_some e.auto_disabled_at) db.endpoints,
)

-- A Channel is ranked as one that needs attention exactly if it is enabled and the directory shows, at
-- the same moment, a recent failure or an auto-disabled Endpoint for it.
channel_health_rank-shown :
    (db : Database) (now : ℕ) (c : ChannelRow)
    → (channel_health_rank db (window_start now) c ≡ 0) ↔ (
        (c.enabled ≡ true)
        × (0
            < (hydrate_channel db now c).recent_failed_delivery_count
              + (hydrate_channel db now c).auto_disabled_endpoint_count))
channel_health_rank-shown db now c = rw (shown_failures db now c) (rank_shown db now c)
