-- ===== src/Store/Broadcasts/Listing.antt =====
-- Channel Activity: following the pages of `listBroadcastsByChannel`.
use webhook_broadcast.Base.{
  ℕ, zero, suc, ◌++◌, ◌∙◌, ◌<◌, Bool, true, false, ◌||◌, Option, none, List, [], ◌∷◌, ◌≡◌, refl,
  arith, ◌==◌, filter, any, all, length, count, ◌+◌,
}
use webhook_broadcast.Store.Rows.{
  Database, BroadcastRow, DeliveryRow, DeliveryStatus, status_eq, in_progress,
}
use mathlib.Core.Path.{fun_ext}
use webhook_broadcast.Paging.{follow}
use webhook_broadcast.Paging.Order.{
  IsStrictOrder, HasDistinctKeys, Sorted, order_by-Sorted, count-order_by,
}
use webhook_broadcast.Paging.Pages.{pages, pages_complete}
use webhook_broadcast.Store.Broadcasts.{
  Cursor, cursor_of, newer, get_fanout_summary, list_broadcasts_by_channel,
}

pub newer-IsStrictOrder : IsStrictOrder newer
newer-IsStrictOrder = record {
  irrefl = λ (a, i). ground arith;
  trans = λ (a, i) (b, j) (c, k) h l. ground arith;
}

-- `broadcast.id` is a primary key.
abbrev pub HasKeys : List BroadcastRow → Type 0
HasKeys [] = Unit
HasKeys (b ∷ bs) = (any (λ c. c.id == b.id) bs ≡ false) × HasKeys bs

distinct_cons :
    (p : BroadcastRow → Bool) (b : BroadcastRow) (bs : List BroadcastRow)
    → any (λ c. c.id == b.id) bs ≡ false
    → all
        (λ c. newer (cursor_of b) (cursor_of c) || newer (cursor_of c) (cursor_of b))
        (filter p bs)
      ≡ true
distinct_cons p b [] h = refl
distinct_cons p b (c ∷ bs) h = ground (arith, distinct_cons p b bs)

keys-HasDistinctKeys :
    (p : BroadcastRow → Bool) (bs : List BroadcastRow)
    → HasKeys bs
    → HasDistinctKeys cursor_of newer newer-IsStrictOrder (filter p bs)
keys-HasDistinctKeys p [] h = tt
keys-HasDistinctKeys p (b ∷ bs) h =
    ground (arith, keys-HasDistinctKeys p bs (h.1), distinct_cons p b bs (h.0))

-- What a client reads that starts at the head of a Channel's Activity and follows every `nextCursor`.
unfoldable pub activity : Database → ℕ → ℕ → ℕ → Option Cursor → List BroadcastRow
activity db channel_id limit zero cursor = []
activity db channel_id limit (suc fuel) cursor =
    (list_broadcasts_by_channel db channel_id cursor limit).0
    ++ follow (activity db channel_id limit fuel)
        (list_broadcasts_by_channel db channel_id cursor limit).1

activity-eq-pages :
    (db : Database) (channel_id limit fuel : ℕ) (cursor : Option Cursor)
    → activity db channel_id limit fuel cursor
      ≡ pages cursor_of newer (λ b. b.channel_id == channel_id) db.broadcasts limit fuel cursor
unfolding activity pages list_broadcasts_by_channel
activity-eq-pages db channel_id limit zero cursor = refl
activity-eq-pages db channel_id limit (suc fuel) cursor =
    rw (fun_ext (activity-eq-pages db channel_id limit fuel))

-- Activity is complete: the pages together hold the Broadcasts of the Channel and no other, each as often
-- as the table has it, newest first, for any page size; and one request more than there are rows reads
-- them all.
pub activity_complete :
    (db : Database) (channel_id limit fuel : ℕ)
    → HasKeys db.broadcasts
    → 0 < limit
    → length db.broadcasts < fuel
    → let read = activity db channel_id limit fuel none in
      Sorted cursor_of newer newer-IsStrictOrder read
      × ((p : BroadcastRow → Bool)
          → count p read ≡ count p (filter (λ b. b.channel_id == channel_id) db.broadcasts))
activity_complete db channel_id limit fuel keys pos enough =
    let rows = filter (λ b. b.channel_id == channel_id) db.broadcasts in
    let distinct = keys-HasDistinctKeys (λ b. b.channel_id == channel_id) db.broadcasts keys in
    let e =
      activity-eq-pages db channel_id limit fuel none
      ∙ pages_complete cursor_of newer newer-IsStrictOrder (λ b. b.channel_id == channel_id)
          db.broadcasts distinct limit fuel pos enough in
    (
      rw e (order_by-Sorted cursor_of newer newer-IsStrictOrder rows distinct),
      λ p. rw e (count-order_by cursor_of newer newer-IsStrictOrder p rows),
    )

-- The roll-up adds up: each Delivery of a Broadcast is in one of the four columns.
count_statuses :
    (ds : List DeliveryRow)
    → length ds
      ≡ count (λ d. status_eq d.status DeliveryStatus.succeeded) ds
        + count (λ d. status_eq d.status DeliveryStatus.failed) ds
        + count (λ d. status_eq d.status DeliveryStatus.dead_lettered) ds
        + count
            (λ d. status_eq d.status DeliveryStatus.pending || status_eq d.status in_progress)
            ds
unfolding status_eq
count_statuses [] = omega arith
count_statuses (d ∷ ds) = ground (arith, count_statuses ds)

-- In a fan-out summary the four columns add up to the total, whatever the Deliveries' statuses.
pub get_fanout_summary-total :
    (db : Database) (broadcast_id : ℕ)
    → let s = get_fanout_summary db broadcast_id in
      s.total ≡ s.succeeded + s.failed + s.dead_lettered + s.pending
unfolding get_fanout_summary
get_fanout_summary-total db broadcast_id =
    count_statuses (filter (λ d. d.broadcast_id == broadcast_id) db.deliveries)
