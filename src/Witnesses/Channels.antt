-- ===== src/Witnesses/Channels.antt =====
-- Channels and tokens at concrete inputs.
use webhook_broadcast.Base.{true, none, some, [], ◌∷◌, ◌++◌, codes, ◌≡◌, refl}
use webhook_broadcast.Store.Rows.{Database, ChannelRow, ChannelTokenRow}
use webhook_broadcast.Store.Channels.{
  written, insert_channel, get_active_channel_by_slug, soft_delete_channel, has_2xx_status,
  has_open_ingest_length,
}
use webhook_broadcast.Store.Channels.Sound.{AreSound}
use webhook_broadcast.Store.Channels.Slugs.{soft_delete-frees_slug}
use webhook_broadcast.Store.Tokens.{
  insert_channel_token, revoke_channel_token, find_channel_token_by_hash,
}
use webhook_broadcast.Store.Tokens.Lifetime.{revoke_channel_token-find, unless_revoked}
use webhook_broadcast.Witnesses.Data.{db, channel}

sound : AreSound db.channels
unfolding has_2xx_status has_open_ingest_length
sound = (refl, refl, refl, refl, tt)

abbrev successor : ChannelRow
successor = record channel { id = 22 }

successor_ok : (has_2xx_status successor ≡ true) × (has_open_ingest_length successor ≡ true)
unfolding has_2xx_status has_open_ingest_length
successor_ok = (refl, refl)

soft_delete-frees_slug_example :
    let after = (soft_delete_channel db 1 50).0 in
    (get_active_channel_by_slug after (codes "orders") ≡ none)
    × (insert_channel after successor
        ≡ written (record after { channels = after.channels ++ successor ∷ [] }, successor))
soft_delete-frees_slug_example =
    soft_delete-frees_slug db 1 50 channel successor sound refl refl (successor_ok.0)
      (successor_ok.1) refl

abbrev token : ChannelTokenRow
token = record {
  id = 31;
  channel_id = 1;
  token_hash = codes "ab12";
  prefix = codes "wb_";
  created_at = 40;
}

abbrev with_token : Database
with_token = record db { channel_tokens = token ∷ [] }

token_inserted : insert_channel_token db token ≡ some (with_token, token)
unfolding insert_channel_token
token_inserted = refl

revoke_channel_token-find_example :
    find_channel_token_by_hash (revoke_channel_token with_token 1 31).0 1 (codes "ab12")
    ≡ unless_revoked 1 31 (find_channel_token_by_hash with_token 1 (codes "ab12"))
revoke_channel_token-find_example =
    revoke_channel_token-find with_token 1 31 1 (codes "ab12") (refl, tt)
