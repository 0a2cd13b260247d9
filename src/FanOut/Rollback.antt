-- ===== src/FanOut/Rollback.antt =====
-- Deleting a new Broadcast takes back what its transaction wrote.
use webhook_broadcast.Base.{
  ℕ, Bool, true, false, not, List, [], ◌∷◌, ◌++◌, ◌≡◌, refl, ap, ◌∙◌, arith, ◌==◌, ==_refl, all,
  any, filter, append-nil_lem, filter-append, filter-all, filter_none,
}
use webhook_broadcast.Store.Rows.{Database, BroadcastRow, DeliveryRow}
use webhook_broadcast.Store.Endpoints.{keep_attempts}
use webhook_broadcast.Store.Broadcasts.{delete_broadcast_by_id}
use webhook_broadcast.Store.Broadcasts.Cascade.{IsIntegral, has_broadcast, has_delivery}

any-id_false :
    (id : ℕ) (bs : List BroadcastRow)
    → any (λ b. b.id == id) bs ≡ false
    → all (λ b. not (b.id == id)) bs ≡ true
any-id_false id [] h = refl
any-id_false id (b ∷ bs) h = ground (arith, any-id_false id bs)

-- A Delivery of another Broadcast than a new one.
other_broadcast :
    (id : ℕ) (bs : List BroadcastRow) (d : DeliveryRow)
    → any (λ b. b.id == id) bs ≡ false
    → any (λ b. b.id == d.broadcast_id) bs ≡ true
    → (id == d.broadcast_id) ≡ false
other_broadcast id [] d h k = ground arith
other_broadcast id (b ∷ bs) d h k = ground (arith, other_broadcast id bs d)

others_kept :
    (b : BroadcastRow) (bs : List BroadcastRow) (ds : List DeliveryRow)
    → any (λ c. c.id == b.id) bs ≡ false
    → all (has_broadcast bs) ds ≡ true
    → filter (λ d. not (has_broadcast (b ∷ []) d)) ds ≡ ds
others_kept b bs [] h k = refl
others_kept b bs (d ∷ ds) h k = ground (arith, others_kept b bs ds h, other_broadcast b.id bs d h)

any_of_all-not :
    (p : DeliveryRow → Bool) (ds : List DeliveryRow)
    → all (λ d. not (p d)) ds ≡ true
    → filter p ds ≡ []
any_of_all-not p [] h = refl
any_of_all-not p (d ∷ ds) h = ground (arith, any_of_all-not p ds)

module _ (db : Database) (b : BroadcastRow) (rows : List DeliveryRow)
    (unused : any (λ c. c.id == b.id) db.broadcasts ≡ false) (integral : IsIntegral db)
    (owned : all (has_broadcast (b ∷ [])) rows ≡ true) where
  abbrev pub committed : Database
  committed = record db { broadcasts = db.broadcasts ++ b ∷ []; deliveries = db.deliveries ++ rows }

  broadcasts_back : filter (λ c. not (c.id == b.id)) committed.broadcasts ≡ db.broadcasts
  broadcasts_back = ground (
    arith,
    filter-append (λ c. not (c.id == b.id)) db.broadcasts (b ∷ []),
    filter-all (λ c. not (c.id == b.id)) db.broadcasts (any-id_false b.id db.broadcasts unused),
    append-nil_lem db.broadcasts,
    ==_refl b.id,
  )

  gone : filter (λ c. c.id == b.id) committed.broadcasts ≡ b ∷ []
  gone = ground (
    arith,
    filter-append (λ c. c.id == b.id) db.broadcasts (b ∷ []),
    filter_none (λ c. c.id == b.id) db.broadcasts unused,
    ==_refl b.id,
  )

  filter-not :
      (p : DeliveryRow → Bool) (ds : List DeliveryRow)
      → all p ds ≡ true
      → filter (λ d. not (p d)) ds ≡ []
  filter-not p [] h = refl
  filter-not p (d ∷ ds) h = ground (arith, filter-not p ds)

  deliveries_back :
      filter
        (λ d. not (has_broadcast (filter (λ c. c.id == b.id) committed.broadcasts) d))
        committed.deliveries
      ≡ db.deliveries
  deliveries_back = rw gone (
      filter-append (λ d. not (has_broadcast (b ∷ []) d)) db.deliveries rows
      ∙ ap (λ ds. ds ++ filter (λ d. not (has_broadcast (b ∷ []) d)) rows)
          (others_kept b db.broadcasts db.deliveries unused integral.deliveries)
      ∙ ap (◌++◌ db.deliveries) (filter-not (has_broadcast (b ∷ [])) rows owned)
      ∙ append-nil_lem db.deliveries)

  attempts_back :
      keep_attempts
        (filter
          (λ d. not (has_broadcast (filter (λ c. c.id == b.id) committed.broadcasts) d))
          committed.deliveries)
        db.attempts
      ≡ db.attempts
  attempts_back =
      rw deliveries_back (filter-all (has_delivery db.deliveries) db.attempts integral.attempts)

  -- Deleting a new Broadcast takes back all that its transaction wrote.
  pub undo : (delete_broadcast_by_id committed b.id).0 ≡ db
  unfolding delete_broadcast_by_id
  undo i = record db {
    broadcasts = broadcasts_back i;
    deliveries = deliveries_back i;
    attempts = attempts_back i;
  }
