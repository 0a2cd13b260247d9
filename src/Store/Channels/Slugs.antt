-- ===== src/Store/Channels/Slugs.antt =====
-- When the slug of a Channel is free.
use webhook_broadcast.Base.{
  ℕ, true, false, none, some, List, [], ◌∷◌, ◌++◌, ◌≡◌, refl, arith, Text, text_eq_iff, any, find,
  update_where,
}
use webhook_broadcast.Store.Rows.{Database, ChannelRow}
use webhook_broadcast.Store.Channels.{
  written, has_open_ingest_length, has_2xx_status, live_with, has_channel_id, insert_channel,
  live_id, deleted, soft_delete_channel, is_active, get_active_channel_by_slug,
}
use webhook_broadcast.Store.Channels.Sound.{AreSound, update_absent, any_id-update}

active_is_live :
    (slug : Text) (cs : List ChannelRow)
    → any (live_with slug) cs ≡ false
    → find (is_active slug) cs ≡ none
active_is_live slug [] h = refl
active_is_live slug (c ∷ cs) h = ground (arith, active_is_live slug cs)

slug_freed :
    (id at : ℕ) (cs : List ChannelRow) (e : ChannelRow)
    → find (live_id id) cs ≡ some e
    → AreSound cs
    → any (live_with e.slug) (update_where (live_id id) (deleted at) cs) ≡ false
slug_freed id at [] e found h = refl
slug_freed id at (c ∷ cs) e found (s, l, key, slug, rest) = ground (
  arith,
  slug_freed id at cs e,
  update_absent id (deleted at) cs,
  live_found cs,
  text_eq_iff c.slug e.slug,
  text_eq_iff e.slug c.slug,
)
  where
    live_found :
        (ds : List ChannelRow) → find (live_id id) ds ≡ some e → any (live_with e.slug) ds ≡ true
    live_found [] k = ground arith
    live_found (d ∷ ds) k = ground (arith, live_found ds, text_eq_iff e.slug e.slug)

-- After the soft delete of a Channel, ingest no longer finds its slug, and a new Channel that meets the
-- checks and has a new id can take it.
pub soft_delete-frees_slug :
    (db : Database) (id at : ℕ) (c row : ChannelRow)
    → AreSound db.channels
    → find (live_id id) db.channels ≡ some c
    → row.slug ≡ c.slug
    → has_2xx_status row ≡ true
    → has_open_ingest_length row ≡ true
    → any (has_channel_id row.id) db.channels ≡ false
    → let after = (soft_delete_channel db id at).0 in
      (get_active_channel_by_slug after c.slug ≡ none)
      × (insert_channel after row
          ≡ written (record after { channels = after.channels ++ row ∷ [] }, row))
unfolding soft_delete_channel get_active_channel_by_slug insert_channel
soft_delete-frees_slug db id at c row h found same status length key =
    let freed = slug_freed id at db.channels c found h in
    (
      active_is_live c.slug (update_where (live_id id) (deleted at) db.channels) freed,
      rw same (ground (arith, freed, any_id-update id row.id (deleted at) db.channels (λ d. refl))),
    )
