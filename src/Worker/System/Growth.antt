-- ===== src/Worker/System/Growth.antt =====
-- The rows that a fan-out adds, seen from the workers under way.
use webhook_broadcast.Base.{
  ℕ, false, Option, none, some, List, [], ◌∷◌, ◌++◌, ◌≡◌, refl, sym, subst, ◌∙◌, ap, arith, ◌==◌,
  any, find, or_else, map,
}
use webhook_broadcast.Store.Rows.{DeliveryRow, pending, BroadcastRow}
use webhook_broadcast.Store.Deliveries.{has_id, is_attempt, find_delivery, DeliveryForProcessing}
use webhook_broadcast.Store.Deliveries.Lookup.{HasKeys}
use webhook_broadcast.Store.Deliveries.Creation.{AreFresh}
use webhook_broadcast.Store.Endpoints.{list_enabled_endpoints_by_channel}
use webhook_broadcast.FanOut.{committed_broadcast}
use webhook_broadcast.FanOut.Laws.{
  committed_broadcast-eq, committed_broadcast-AreFresh, committed_broadcast-HasKeys,
  committed_broadcast-absent,
}
use webhook_broadcast.Worker.System.{System, IsNew}
use webhook_broadcast.Worker.System.Invariant.{Fits, AllFit, covers, Inv}

find-append :
    (j : ℕ) (xs ys : List DeliveryRow)
    → find (has_id j) (xs ++ ys) ≡ or_else (find (has_id j) xs) (find (has_id j) ys)
find-append j [] ys = refl
find-append j (x ∷ xs) ys = ground (arith, find-append j xs ys)

any_of_find :
    (j : ℕ) (ds : List DeliveryRow) → find (has_id j) ds ≡ none → any (has_id j) ds ≡ false
any_of_find j [] h = refl
any_of_find j (d ∷ ds) h = ground (arith, any_of_find j ds)

find_of_any :
    (j : ℕ) (ds : List DeliveryRow) → any (has_id j) ds ≡ false → find (has_id j) ds ≡ none
find_of_any j [] h = refl
find_of_any j (d ∷ ds) h = ground (arith, find_of_any j ds)

-- A row of a fan-out, if it is one.
abbrev pub IsFresh : Option DeliveryRow → Type 0
IsFresh none = Unit
IsFresh (some d) = (d.status ≡ pending) × (d.attempt_count ≡ 0)

find-IsFresh :
    (b c j : ℕ) (es : List ℕ) (ds : List DeliveryRow)
    → AreFresh b c es ds
    → IsFresh (find (has_id j) ds)
find-IsFresh b c j [] [] f = tt
find-IsFresh b c j [] (d ∷ ds) f = absurd f
find-IsFresh b c j (e ∷ es) [] f = absurd f
find-IsFresh b c j (e ∷ es) (d ∷ ds) (_, _, _, status, count, rest) =
    ground (arith, find-IsFresh b c j es ds rest)

module _ (uuid : ℕ → ℕ) (w : System) (b : BroadcastRow) (new : IsNew uuid w) where
  -- The new row with the id `j`.
  abbrev added : ℕ → Option DeliveryRow
  added j = find (has_id j) (committed_broadcast uuid w.db b).1

  pub added-IsFresh : (j : ℕ) → IsFresh (added j)
  added-IsFresh j =
      find-IsFresh b.id b.channel_id j
        (map (λ e. e.id) (list_enabled_endpoints_by_channel w.db b.channel_id))
        (committed_broadcast uuid w.db b).1 (committed_broadcast-AreFresh uuid w.db b)

  pub find_delivery-fan_out :
      (j : ℕ)
      → find_delivery (committed_broadcast uuid w.db b).0 j
        ≡ or_else (find_delivery w.db j) (added j)
  unfolding find_delivery
  find_delivery-fan_out j =
      rw (committed_broadcast-eq uuid w.db b)
        (find-append j w.db.deliveries (committed_broadcast uuid w.db b).1)

  fan_out-HasKeys : HasKeys w.db.deliveries → HasKeys (committed_broadcast uuid w.db b).0.deliveries
  unfolding find_delivery
  fan_out-HasKeys h = rw (committed_broadcast-eq uuid w.db b) (
      committed_broadcast-HasKeys uuid w.db b new.injective
        (λ i. any_of_find (uuid i) w.db.deliveries (new.unused i)) h)

  Fits-of_unheld :
      (r : DeliveryForProcessing)
      → ((i : ℕ) → (r.id == uuid i) ≡ false)
      → Fits (find_delivery w.db r.id) r.attempt_count
      → Fits (find_delivery (committed_broadcast uuid w.db b).0 r.id) r.attempt_count
  Fits-of_unheld r apart f =
      subst (λ o. Fits o r.attempt_count)
        (sym (
          find_delivery-fan_out r.id
          ∙ ap (or_else (find_delivery w.db r.id)) (
              find_of_any r.id (committed_broadcast uuid w.db b).1
                (committed_broadcast-absent uuid w.db b r.id (λ i. ground (arith, apart i))))
          ∙ or_else_none (find_delivery w.db r.id)))
        f
    where
      or_else_none : (o : Option DeliveryRow) → or_else o none ≡ o
      or_else_none none = refl
      or_else_none (some d) = refl

  AllFit-fan_out :
      (rs : List DeliveryForProcessing)
      → ((i : ℕ) → any (λ r. r.id == uuid i) rs ≡ false)
      → AllFit w.db rs
      → AllFit (committed_broadcast uuid w.db b).0 rs
  AllFit-fan_out [] apart f = tt
  AllFit-fan_out (r ∷ rs) apart f = (
    Fits-of_unheld r (λ i. ground (arith, apart i)) (f.0),
    AllFit-fan_out rs (λ i. ground (arith, apart i)) (f.1),
  )

  covers-fresh :
      (o p : Option DeliveryRow) (n : ℕ) → IsFresh p → covers (or_else o p) n ≡ covers o n
  covers-fresh none none n f = refl
  covers-fresh none (some d) n (_, count) = ground arith
  covers-fresh (some d) p n f = refl

  pub Inv-fan_out : Inv w → Inv (record w { db = (committed_broadcast uuid w.db b).0 })
  Inv-fan_out inv = record {
    keys = fan_out-HasKeys inv.keys;
    fits = AllFit-fan_out w.held new.unheld inv.fits;
    attempts = λ id n.
        ap (λ db. any (is_attempt id n) db.attempts) (committed_broadcast-eq uuid w.db b)
        ∙ inv.attempts id n
        ∙ sym (
            ap (λ o. covers o n) (find_delivery-fan_out id)
            ∙ covers-fresh (find_delivery w.db id) (added id) n (added-IsFresh id));
  }
