-- ===== src/Store/Directory/Complete.antt =====
-- packages/db/src/repositories/channels.ts: following the pages of `listChannels`.
use webhook_broadcast.Base.{
  ℕ, zero, suc, ◌<◌, ◌≡◌, refl, ◌∙◌, arith, Bool, true, false, ◌&&◌, ◌||◌, Option, none, List, [],
  ◌∷◌, ◌++◌, Text, text_eq_iff, ◌==◌, ltb, filter, any, all, count, length,
}
use mathlib.Core.Path.{fun_ext}
use webhook_broadcast.Store.Rows.{Database, ChannelRow}
use webhook_broadcast.Store.Deliveries.{window_start}
use webhook_broadcast.Store.Channels.{is_live}
use webhook_broadcast.Paging.{follow}
use webhook_broadcast.Paging.Order.{
  IsStrictOrder, HasDistinctKeys, Sorted, order_by-Sorted, count-order_by,
}
use webhook_broadcast.Paging.Pages.{pages, pages_complete}
use webhook_broadcast.Paging.Lex.{
  IsCollation, ltb-IsStrictOrder, ascending-IsStrictOrder, descending-IsStrictOrder,
  by_text-IsStrictOrder, by_text, descending,
}
use webhook_broadcast.Store.Directory.{ChannelCursor, channel_key, worse, has_slug, list_channels}

-- `channel.id` is a primary key.
abbrev pub HasKeys : List ChannelRow → Type 0
HasKeys [] = Unit
HasKeys (c ∷ cs) = (any (λ d. d.id == c.id) cs ≡ false) × HasKeys cs

-- What a client reads that starts at the head of the directory and follows every `nextCursor`, while
-- the database and the clock stand still.
unfoldable pub directory :
    (Text → Text → Bool)
    → Database
    → ℕ
    → Option Text
    → ℕ
    → ℕ
    → Option ChannelCursor
    → List ChannelRow
directory precedes db limit slug now zero cursor = []
directory precedes db limit slug now (suc fuel) cursor =
    (list_channels precedes db cursor limit slug now).0
    ++ follow (directory precedes db limit slug now fuel)
        (list_channels precedes db cursor limit slug now).1

abbrev pub is_listed : Option Text → ChannelRow → Bool
is_listed slug c = is_live c && has_slug slug c

abbrev pub directory_key : Database → ℕ → ChannelRow → ChannelCursor
directory_key db now = channel_key db (window_start now)

pub worse-IsStrictOrder :
    (precedes : Text → Text → Bool) → IsCollation precedes → IsStrictOrder (worse precedes)
worse-IsStrictOrder precedes collation =
    ascending-IsStrictOrder (descending (descending (by_text ltb precedes))) (
      descending-IsStrictOrder (descending (by_text ltb precedes)) (
        descending-IsStrictOrder (by_text ltb precedes)
          (by_text-IsStrictOrder ltb ltb-IsStrictOrder precedes collation)))

module _ (precedes : Text → Text → Bool) (collation : IsCollation precedes) (db : Database)
    (slug : Option Text) (now : ℕ) where
  -- Two rows with different ids are in order.
  comparable :
      (c d : ChannelRow)
      → (d.id == c.id) ≡ false
      → (worse precedes ((directory_key db now) c) ((directory_key db now) d)
          || worse precedes ((directory_key db now) d) ((directory_key db now) c))
        ≡ true
  unfolding channel_key
  comparable c d h =
      ground
        (arith, collation.total c.slug d.slug, text_eq_iff c.slug d.slug, text_eq_iff d.slug c.slug)

  distinct_cons :
      (p : ChannelRow → Bool) (c : ChannelRow) (cs : List ChannelRow)
      → any (λ d. d.id == c.id) cs ≡ false
      → all
          (λ d.
            worse precedes ((directory_key db now) c) ((directory_key db now) d)
            || worse precedes ((directory_key db now) d) ((directory_key db now) c))
          (filter p cs)
        ≡ true
  distinct_cons p c [] h = refl
  distinct_cons p c (d ∷ cs) h = ground (arith, distinct_cons p c cs, comparable c d)

  keys-HasDistinctKeys :
      (p : ChannelRow → Bool) (cs : List ChannelRow)
      → HasKeys cs
      → HasDistinctKeys
          (directory_key db now)
          (worse precedes)
          (worse-IsStrictOrder precedes collation)
          (filter p cs)
  keys-HasDistinctKeys p [] h = tt
  keys-HasDistinctKeys p (c ∷ cs) h =
      ground (arith, keys-HasDistinctKeys p cs (h.1), distinct_cons p c cs (h.0))

  directory-eq-pages :
      (limit fuel : ℕ) (cursor : Option ChannelCursor)
      → directory precedes db limit slug now fuel cursor
        ≡ pages
            (directory_key db now)
            (worse precedes)
            (is_listed slug)
            db.channels
            limit
            fuel
            cursor
  unfolding directory pages list_channels
  directory-eq-pages limit zero cursor = refl
  directory-eq-pages limit (suc fuel) cursor = rw (fun_ext (directory-eq-pages limit fuel)) refl

  -- The directory is complete: the pages together hold the live Channels (with the slug, where one is
  -- asked for) and no other, each as often as the table has it, the worst first, for any page size; and
  -- one request more than there are rows reads them all.
  pub directory_complete :
      (limit fuel : ℕ)
      → HasKeys db.channels
      → 0 < limit
      → length db.channels < fuel
      → let read = directory precedes db limit slug now fuel none in
        Sorted (directory_key db now) (worse precedes) (worse-IsStrictOrder precedes collation) read
        × ((p : ChannelRow → Bool) → count p read ≡ count p (filter (is_listed slug) db.channels))
  directory_complete limit fuel keys pos enough =
      let rows = filter (is_listed slug) db.channels in
      let distinct = keys-HasDistinctKeys (is_listed slug) db.channels keys in
      let e =
        directory-eq-pages limit fuel none
        ∙ pages_complete (directory_key db now) (worse precedes)
            (worse-IsStrictOrder precedes collation) (is_listed slug) db.channels distinct limit
            fuel pos enough in
      (
        rw e (
            order_by-Sorted (directory_key db now) (worse precedes)
              (worse-IsStrictOrder precedes collation) rows distinct),
        λ p. rw e (
            count-order_by (directory_key db now) (worse precedes)
              (worse-IsStrictOrder precedes collation) p rows),
      )
