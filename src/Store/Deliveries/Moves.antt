-- ===== src/Store/Deliveries/Moves.antt =====
-- The statements that move a Delivery between two statuses: claim, release and the operator's retry.
use mathlib.Core.Option
use webhook_broadcast.Base.{
  ℕ, ◌∙◌, ap, some, false, ◌&&◌, ◌==◌, update_where_none, ◌||◌, ◌≡◌, refl, arith, Option-cases, inl,
  inr, Bool-cases,
}
use webhook_broadcast.Store.Rows.{
  Database, DeliveryRow, pending, in_progress, dead_lettered, status_eq,
}
use webhook_broadcast.Store.Deliveries.{
  find_delivery, move_status, moves_status, mark_delivery_in_progress, is_claimed,
  reset_in_progress_delivery_to_pending, retry_dead_lettered_delivery,
}
use webhook_broadcast.Store.Deliveries.Lookup.{
  HasKeys, find_delivery-id, find_delivery-move_status, found, move_status-HasKeys, moved,
  moves_status-found,
}

-- Claiming moves a `pending` row, and is granted exactly where the row is not terminal.
pub find_delivery-mark :
    (db : Database) (id at j : ℕ)
    → HasKeys db.deliveries
    → find_delivery (mark_delivery_in_progress db id at).0 j
      ≡ Option.map (moved pending in_progress id at) (find_delivery db j)
unfolding mark_delivery_in_progress
find_delivery-mark db id at j h = elim (Bool-cases (moves_status pending id db)) [
  | inl e ↦ rw e (find_delivery-move_status pending in_progress id at j db)
  | inr e ↦ rw e (elim (Option-cases (find_delivery db j)) [
    | inl absent ↦ rw absent
    | inr (d, there) ↦
        ground (arith, there, find_delivery-id db j there, moves_status-found pending id db h)
  ])
]

pub mark-granted :
    (db : Database) (id at : ℕ)
    → HasKeys db.deliveries
    → (mark_delivery_in_progress db id at).1
      ≡ found
          (λ d. status_eq d.status pending || status_eq d.status in_progress)
          (find_delivery db id)
unfolding mark_delivery_in_progress is_claimed
mark-granted db id at h = ground (arith, moves_status-found pending id db h)

pub mark-HasKeys :
    (db : Database) (id at : ℕ)
    → HasKeys db.deliveries
    → HasKeys (mark_delivery_in_progress db id at).0.deliveries
unfolding mark_delivery_in_progress
mark-HasKeys db id at h = ground (arith, move_status-HasKeys pending in_progress id at db h)

pub mark-attempts :
    (db : Database) (id at : ℕ) → (mark_delivery_in_progress db id at).0.attempts ≡ db.attempts
unfolding mark_delivery_in_progress move_status
mark-attempts db id at = ground arith

pub find_delivery-reset :
    (db : Database) (id at j : ℕ)
    → (find_delivery (reset_in_progress_delivery_to_pending db id at).0 j
        ≡ Option.map (moved in_progress pending id at) (find_delivery db j))
      × ((reset_in_progress_delivery_to_pending db id at).0.attempts ≡ db.attempts)
unfolding reset_in_progress_delivery_to_pending move_status
find_delivery-reset db id at j = (find_delivery-move_status in_progress pending id at j db, refl)

pub reset-HasKeys :
    (db : Database) (id at : ℕ)
    → HasKeys db.deliveries
    → HasKeys (reset_in_progress_delivery_to_pending db id at).0.deliveries
unfolding reset_in_progress_delivery_to_pending
reset-HasKeys db id at h = move_status-HasKeys in_progress pending id at db h

pub find_delivery-retry :
    (db : Database) (id at j : ℕ)
    → (find_delivery (retry_dead_lettered_delivery db id at).0 j
        ≡ Option.map (moved dead_lettered pending id at) (find_delivery db j))
      × ((retry_dead_lettered_delivery db id at).0.attempts ≡ db.attempts)
unfolding retry_dead_lettered_delivery move_status
find_delivery-retry db id at j = (find_delivery-move_status dead_lettered pending id at j db, refl)

pub retry-HasKeys :
    (db : Database) (id at : ℕ)
    → HasKeys db.deliveries
    → HasKeys (retry_dead_lettered_delivery db id at).0.deliveries
unfolding retry_dead_lettered_delivery
retry-HasKeys db id at h = move_status-HasKeys dead_lettered pending id at db h

pub retry-endpoints :
    (db : Database) (id at : ℕ) → (retry_dead_lettered_delivery db id at).0.endpoints ≡ db.endpoints
unfolding retry_dead_lettered_delivery move_status
retry-endpoints db id at = refl

pub retry-deliveries :
    (db : Database) (id at : ℕ)
    → let after = (retry_dead_lettered_delivery db id at).0 in
      after ≡ record db { deliveries = after.deliveries }
unfolding retry_dead_lettered_delivery move_status
retry-deliveries db id at = refl

pub retry-granted :
    (db : Database) (id at : ℕ) (d : DeliveryRow)
    → HasKeys db.deliveries
    → find_delivery db id ≡ some d
    → (retry_dead_lettered_delivery db id at).1 ≡ status_eq d.status dead_lettered
unfolding retry_dead_lettered_delivery
retry-granted db id at d keys h = moves_status-found dead_lettered id db keys ∙ rw h refl

-- A retry that moves no row leaves the database as it was.
pub retry-refused :
    (db : Database) (id at : ℕ)
    → (retry_dead_lettered_delivery db id at).1 ≡ false
    → (retry_dead_lettered_delivery db id at).0 ≡ db
unfolding retry_dead_lettered_delivery move_status moves_status
retry-refused db id at h =
    ap (λ ds. record db { deliveries = ds })
      (update_where_none (λ d. d.id == id && status_eq d.status dead_lettered)
        (λ d. record d { status = pending; updated_at = at }) db.deliveries h)
