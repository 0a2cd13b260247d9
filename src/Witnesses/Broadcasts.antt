-- ===== src/Witnesses/Broadcasts.antt =====
-- Queries and deletes of Broadcasts on a concrete database.
use webhook_broadcast.Base.{
  ◌+◌, Bool, true, none, [], ◌∷◌, ◌≡◌, ◌==◌, refl, arith, filter, all, count, length,
}
use webhook_broadcast.Store.Rows.{Database, BroadcastRow}
use webhook_broadcast.Store.Broadcasts.{cursor_of, newer}
use webhook_broadcast.Store.Broadcasts.Cascade.{IsIntegral, is_retained}
use webhook_broadcast.Store.Broadcasts.Listing.{activity, activity_complete, newer-IsStrictOrder}
use webhook_broadcast.Retention.{run_retention_sweep, run_retention_sweep_lem}
use webhook_broadcast.Paging.Order.{Sorted}
use webhook_broadcast.Witnesses.Data.{db, broadcast}

abbrev pub integral : IsIntegral db
integral = record { deliveries = refl; attempts = refl }

run_retention_sweep_lem_example :
    let after = run_retention_sweep db 2 200000000 in
    (filter (is_retained 200000000 2) after.0.broadcasts
      ≡ filter (is_retained 200000000 2) (broadcast ∷ []))
    × (all (is_retained 200000000 2) after.0.broadcasts ≡ true)
    × (after.1 + length after.0.broadcasts ≡ 1)
run_retention_sweep_lem_example = run_retention_sweep_lem db 2 200000000

abbrev two_broadcasts : Database
two_broadcasts = record db {
  broadcasts = broadcast ∷ record broadcast { id = 7; received_at = 150 } ∷ [];
}

activity_complete_example :
    let read = activity two_broadcasts 1 1 3 none in
    Sorted cursor_of newer newer-IsStrictOrder read
    × ((p : BroadcastRow → Bool)
        → count p read ≡ count p (filter (λ b. b.channel_id == 1) two_broadcasts.broadcasts))
activity_complete_example =
    activity_complete two_broadcasts 1 1 3 (refl, (refl, tt)) (omega arith) (omega arith)
