-- ===== src/Store/Broadcasts/Cascade.antt =====
-- Foreign keys under the deletes of Broadcasts.
use webhook_broadcast.Base.{
  ℕ, ◌+◌, ◌*◌, ◌-◌, Bool, true, not, List, [], ◌∷◌, ◌≡◌, refl, arith, ◌==◌, ltb, leb, filter, any,
  all, length,
}
use webhook_broadcast.Store.Rows.{Database, BroadcastRow, DeliveryRow, AttemptRow}
use webhook_broadcast.Store.Broadcasts.{delete_broadcasts_received_before}

abbrev pub has_broadcast : List BroadcastRow → DeliveryRow → Bool
has_broadcast bs d = any (λ b. b.id == d.broadcast_id) bs

abbrev pub has_delivery : List DeliveryRow → AttemptRow → Bool
has_delivery ds a = any (λ d. d.id == a.delivery_id) ds

-- Each Delivery has its Broadcast and each Attempt its Delivery.
pub record IsIntegral (db : Database) : Type 0 where
  pub deliveries : all (has_broadcast db.broadcasts) db.deliveries ≡ true
  pub attempts : all (has_delivery db.deliveries) db.attempts ≡ true

length-filter-not :
    (p : BroadcastRow → Bool) (bs : List BroadcastRow)
    → length (filter p bs) + length (filter (λ b. not (p b)) bs) ≡ length bs
length-filter-not p [] = omega arith
length-filter-not p (b ∷ bs) = ground (arith, length-filter-not p bs)

filter-filter_same :
    (p q : BroadcastRow → Bool) (bs : List BroadcastRow)
    → ((b : BroadcastRow) → q b ≡ not (p b))
    → (filter q (filter (λ b. not (p b)) bs) ≡ filter q bs)
      × (all q (filter (λ b. not (p b)) bs) ≡ true)
filter-filter_same p q [] h = (refl, refl)
filter-filter_same p q (b ∷ bs) h =
    let rest = filter-filter_same p q bs h in
    (ground (arith, rest.0, h b), ground (arith, rest.1, h b))

-- `received_at` is inside the last `days` days.
abbrev pub is_retained : ℕ → ℕ → BroadcastRow → Bool
is_retained now days b = leb now (b.received_at + days * 24 * 60 * 60 * 1000)

-- The retention delete keeps exactly the Broadcasts that were received in the last `days` days, and
-- reports the number of the others.
pub delete_received_before_lem :
    (db : Database) (now days : ℕ)
    → let after = delete_broadcasts_received_before db (now - days * 24 * 60 * 60 * 1000) in
      (filter (is_retained now days) after.0.broadcasts
        ≡ filter (is_retained now days) db.broadcasts)
      × (all (is_retained now days) after.0.broadcasts ≡ true)
      × (after.1 + length after.0.broadcasts ≡ length db.broadcasts)
unfolding delete_broadcasts_received_before
delete_received_before_lem db now days =
    let same =
      filter-filter_same (λ b. ltb b.received_at (now - days * 24 * 60 * 60 * 1000))
        (is_retained now days) db.broadcasts λ b. ground arith in
    (
      same.0,
      same.1,
      length-filter-not (λ b. ltb b.received_at (now - days * 24 * 60 * 60 * 1000)) db.broadcasts,
    )
