-- ===== src/Store/Channels/Sound.antt =====
-- The constraints of the table `channel`, as a predicate on its rows.
use webhook_broadcast.Base.{
  ℕ, true, false, ◌&&◌, List, [], ◌∷◌, ◌≡◌, refl, arith, any, update_where,
}
use webhook_broadcast.Store.Rows.{ChannelRow}
use webhook_broadcast.Store.Channels.{
  is_live, has_open_ingest_length, has_2xx_status, live_with, has_channel_id, live_id,
}

-- Both checks hold of each row, ids are unique, and no two live rows share a slug.
abbrev pub AreSound : List ChannelRow → Type 0
AreSound [] = Unit
AreSound (c ∷ cs) =
    (has_2xx_status c ≡ true)
    × (has_open_ingest_length c ≡ true)
    × (any (has_channel_id c.id) cs ≡ false)
    × ((is_live c && any (live_with c.slug) cs) ≡ false)
    × AreSound cs

-- A row of another id is not touched.
pub update_absent :
    (id : ℕ) (f : ChannelRow → ChannelRow) (cs : List ChannelRow)
    → any (has_channel_id id) cs ≡ false
    → update_where (live_id id) f cs ≡ cs
update_absent id f [] h = refl
update_absent id f (c ∷ cs) h = ground (arith, update_absent id f cs)

pub any_id-update :
    (id j : ℕ) (f : ChannelRow → ChannelRow) (cs : List ChannelRow)
    → ((c : ChannelRow) → (f c).id ≡ c.id)
    → any (has_channel_id j) (update_where (live_id id) f cs) ≡ any (has_channel_id j) cs
any_id-update id j f [] keeps = refl
any_id-update id j f (c ∷ cs) keeps = ground (arith, any_id-update id j f cs keeps, keeps c)
