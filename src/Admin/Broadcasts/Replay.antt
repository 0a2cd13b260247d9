-- ===== src/Admin/Broadcasts/Replay.antt =====
-- apps/api/src/admin/broadcasts.ts: what a replay that is accepted leaves behind.
use webhook_broadcast.Base.{ℕ, ◌≡◌, Option, some, Text}
use webhook_broadcast.Store.Rows.{Database, BroadcastRow, ChannelRow}
use webhook_broadcast.Store.Channels.{get_channel_by_id}
use webhook_broadcast.Store.Broadcasts.{get_broadcast_by_id}
use webhook_broadcast.FanOut.{DeliveryQueue, FanOutResult, accepted}
use webhook_broadcast.FanOut.Laws.{IsAccepted}

module _ {Q : Type 0} (queue : DeliveryQueue Q) (uuid : ℕ → ℕ) (parse_id : Text → Option ℕ)
    (id now request_id : ℕ) (channel_param broadcast_param : Text) (db : Database) (q : Q) where
  -- The request of an accepted replay, and the fan-out that it made.
  pub record Replayed (k : ℕ) (s' : Database × Q) : Type 0 where
    pub channel : ChannelRow
    pub original : BroadcastRow
    pub channel_id : ℕ
    pub broadcast_id : ℕ
    pub names_channel : parse_id channel_param ≡ some channel_id
    pub names_broadcast : parse_id broadcast_param ≡ some broadcast_id
    pub live : get_channel_by_id db channel_id ≡ some channel
    pub retained : get_broadcast_by_id db channel_id broadcast_id ≡ some original
    pub answered : k ≡ id
    pub count : ℕ
    -- the new Broadcast
    pub copy : BroadcastRow
    pub copied :
        (copy.channel_id ≡ original.channel_id)
        × (copy.content_type ≡ original.content_type)
        × (copy.body ≡ original.body)
        × (copy.headers ≡ original.headers)
    pub dated : (copy.id ≡ id) × (copy.received_at ≡ now)
    pub fanned : IsAccepted queue db q copy request_id count s'.0 s'.1

  broadcast_id_of : FanOutResult → ℕ
  broadcast_id_of (accepted b _ _) = b.id
  broadcast_id_of _ = id
