-- ===== src/Retention.antt =====
-- apps/api/src/worker/retentionSweeper.ts: one pass of the retention sweep.
use webhook_broadcast.Base.{ℕ, ◌+◌, ◌-◌, ◌*◌, true, ◌≡◌, filter, all, length}
use webhook_broadcast.Store.Rows.{Database}
use webhook_broadcast.Store.Broadcasts.{delete_broadcasts_received_before}
use webhook_broadcast.Store.Broadcasts.Cascade.{is_retained, delete_received_before_lem}

-- A cutoff before the epoch is the epoch, which no Broadcast precedes.
unfoldable pub run_retention_sweep : Database → ℕ → ℕ → Database × ℕ
run_retention_sweep db retention_days now =
    delete_broadcasts_received_before db (now - retention_days * 24 * 60 * 60 * 1000)

-- A pass keeps exactly the Broadcasts that were received in the last `retention_days` days, and reports
-- the number of the others.
pub run_retention_sweep_lem :
    (db : Database) (retention_days now : ℕ)
    → let after = run_retention_sweep db retention_days now in
      (filter (is_retained now retention_days) after.0.broadcasts
        ≡ filter (is_retained now retention_days) db.broadcasts)
      × (all (is_retained now retention_days) after.0.broadcasts ≡ true)
      × (after.1 + length after.0.broadcasts ≡ length db.broadcasts)
unfolding run_retention_sweep
run_retention_sweep_lem db retention_days now = delete_received_before_lem db now retention_days
