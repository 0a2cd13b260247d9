-- ===== src/Store/Deliveries/Creation.antt =====
-- The rows that `createDeliveriesForBroadcast` inserts.
use webhook_broadcast.Base.{
  ℕ, suc, ◌≤◌, Bool, true, false, List, [], ◌∷◌, ◌++◌, ◌≡◌, ◌∙◌, ◌≢◌, refl, arith, ◌==◌, ==_refl,
  all, any, ◌||◌,
}
use webhook_broadcast.Store.Rows.{Database, DeliveryRow, pending}
use webhook_broadcast.Store.Deliveries.{new_deliveries, insert_deliveries, has_id}
use webhook_broadcast.Store.Deliveries.Lookup.{HasKeys}

-- The rows belong to the given Endpoints, in order; they are pending and without an Attempt.
abbrev pub AreFresh : ℕ → ℕ → List ℕ → List DeliveryRow → Type 0
AreFresh b c [] [] = Unit
AreFresh b c [] (d ∷ ds) = ⊥
AreFresh b c (e ∷ es) [] = ⊥
AreFresh b c (e ∷ es) (d ∷ ds) =
    (d.endpoint_id ≡ e)
    × (d.broadcast_id ≡ b)
    × (d.channel_id ≡ c)
    × (d.status ≡ pending)
    × (d.attempt_count ≡ 0)
    × AreFresh b c es ds

new_deliveries-AreFresh :
    (uuid : ℕ → ℕ) (k b c now : ℕ) (es : List ℕ)
    → AreFresh b c es (new_deliveries uuid k b c now es)
unfolding new_deliveries
new_deliveries-AreFresh uuid k b c now [] = tt
new_deliveries-AreFresh uuid k b c now (e ∷ es) =
    (refl, refl, refl, refl, refl, new_deliveries-AreFresh uuid (suc k) b c now es)

pub create-AreFresh :
    (uuid : ℕ → ℕ) (db : Database) (b c : ℕ) (es : List ℕ) (now : ℕ)
    → AreFresh b c es (insert_deliveries uuid db b c es now).1
unfolding insert_deliveries
create-AreFresh uuid db b c es now = new_deliveries-AreFresh uuid 0 b c now es

pub create-db :
    (uuid : ℕ → ℕ) (db : Database) (b c : ℕ) (es : List ℕ) (now : ℕ)
    → (insert_deliveries uuid db b c es now).0
      ≡ record db { deliveries = db.deliveries ++ (insert_deliveries uuid db b c es now).1 }
unfolding insert_deliveries
create-db uuid db b c es now = refl

-- A property of the rows of a Delivery with that Broadcast, Channel, status and count holds of each.
pub all_of_AreFresh :
    (p : DeliveryRow → Bool) (b c : ℕ) (es : List ℕ) (ds : List DeliveryRow)
    → ((d : DeliveryRow)
        → d.broadcast_id ≡ b
        → d.attempt_count ≡ 0
        → d.status ≡ pending
        → p d ≡ true)
    → AreFresh b c es ds
    → all p ds ≡ true
all_of_AreFresh p b c [] [] h f = refl
all_of_AreFresh p b c [] (d ∷ ds) h f = absurd f
all_of_AreFresh p b c (e ∷ es) [] h f = absurd f
all_of_AreFresh p b c (e ∷ es) (d ∷ ds) h (_, in_b, _, status, count, rest) =
    ground (arith, h d in_b count status, all_of_AreFresh p b c es ds h rest)

-- The ids are those of the calls of `randomUUID`.
any-has_id-new :
    (uuid : ℕ → ℕ) (j k b c now : ℕ) (es : List ℕ)
    → ((i : ℕ) → k ≤ i → uuid i ≢ j)
    → any (has_id j) (new_deliveries uuid k b c now es) ≡ false
unfolding new_deliveries
any-has_id-new uuid j k b c now [] h = refl
any-has_id-new uuid j k b c now (e ∷ es) h =
    ground (
      arith,
      h k (omega arith),
      any-has_id-new uuid j (suc k) b c now es (λ i le. h i (omega arith)),
    )

new-HasKeys :
    (uuid : ℕ → ℕ) (k b c now : ℕ) (es : List ℕ)
    → ((i j : ℕ) → uuid i ≡ uuid j → i ≡ j)
    → HasKeys (new_deliveries uuid k b c now es)
unfolding new_deliveries
new-HasKeys uuid k b c now [] inj = tt
new-HasKeys uuid k b c now (e ∷ es) inj = (
  any-has_id-new uuid (uuid k) (suc k) b c now es
      (λ i le same. absurd (omega (arith, inj i k same))),
  new-HasKeys uuid (suc k) b c now es inj,
)

any-has_id-append :
    (j : ℕ) (xs ys : List DeliveryRow)
    → any (has_id j) (xs ++ ys) ≡ (any (has_id j) xs || any (has_id j) ys)
any-has_id-append j [] ys = refl
any-has_id-append j (x ∷ xs) ys = ground (arith, any-has_id-append j xs ys)

append-HasKeys :
    (xs : List DeliveryRow) (uuid : ℕ → ℕ) (b c now : ℕ) (es : List ℕ)
    → ((i : ℕ) → any (has_id (uuid i)) xs ≡ false)
    → HasKeys xs
    → HasKeys (new_deliveries uuid 0 b c now es)
    → HasKeys (xs ++ new_deliveries uuid 0 b c now es)
append-HasKeys [] uuid b c now es apart h k = k
append-HasKeys (x ∷ xs) uuid b c now es apart h k = (
  any-has_id-append x.id xs (new_deliveries uuid 0 b c now es)
      ∙ ground (
        arith,
        h.0,
        any-has_id-new uuid x.id 0 b c now es
            (λ i le same. absurd (ground (arith, apart i, same, ==_refl x.id))),
      ),
  append-HasKeys xs uuid b c now es (λ i. ground (arith, apart i)) (h.1) k,
)

pub create-HasKeys :
    (uuid : ℕ → ℕ) (db : Database) (b c : ℕ) (es : List ℕ) (now : ℕ)
    → ((i j : ℕ) → uuid i ≡ uuid j → i ≡ j)
    → ((i : ℕ) → any (has_id (uuid i)) db.deliveries ≡ false)
    → HasKeys db.deliveries
    → HasKeys (db.deliveries ++ (insert_deliveries uuid db b c es now).1)
unfolding insert_deliveries
create-HasKeys uuid db b c es now inj apart h =
    append-HasKeys db.deliveries uuid b c now es apart h (new-HasKeys uuid 0 b c now es inj)

pub create-absent :
    (uuid : ℕ → ℕ) (db : Database) (b c : ℕ) (es : List ℕ) (now j : ℕ)
    → ((i : ℕ) → (uuid i == j) ≡ false)
    → any (has_id j) (insert_deliveries uuid db b c es now).1 ≡ false
unfolding insert_deliveries
create-absent uuid db b c es now j apart =
    any-has_id-new uuid j 0 b c now es
      (λ i le same. absurd (ground (arith, apart i, same, ==_refl j)))
