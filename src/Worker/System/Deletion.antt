-- ===== src/Worker/System/Deletion.antt =====
-- The statements that delete Deliveries, with the Attempts that go with them.
use webhook_broadcast.Base.{
  ℕ, Bool, false, not, ◌&&◌, Option, none, some, List, [], ◌∷◌, ◌≡◌, ◌⊎◌, refl, sym, subst, ◌∙◌, ap,
  arith, ◌==◌, if◌then◌else◌, any, filter, find, is_some, Bool-cases, inl, inr,
}
use webhook_broadcast.Store.Rows.{Database, DeliveryRow, AttemptRow, BroadcastRow}
use webhook_broadcast.Store.Deliveries.{has_id, is_attempt, find_delivery, DeliveryForProcessing}
use webhook_broadcast.Store.Deliveries.Lookup.{HasKeys}
use webhook_broadcast.Store.Endpoints.{keep_attempts, delete_endpoint}
use webhook_broadcast.Store.Broadcasts.{delete_broadcasts}
use webhook_broadcast.Worker.System.{System}
use webhook_broadcast.Worker.System.Invariant.{Fits, AllFit, covers, Inv}

-- A row that is kept, or gone.
abbrev pub kept : (DeliveryRow → Bool) → Option DeliveryRow → Option DeliveryRow
kept p none = none
kept p (some d) = if p d then some d else none

any-has_id-filter :
    (p : DeliveryRow → Bool) (j : ℕ) (ds : List DeliveryRow)
    → any (has_id j) ds ≡ false
    → any (has_id j) (filter p ds) ≡ false
any-has_id-filter p j [] h = refl
any-has_id-filter p j (d ∷ ds) h = ground (arith, any-has_id-filter p j ds)

find_absent :
    (j : ℕ) (ds : List DeliveryRow) → any (has_id j) ds ≡ false → find (has_id j) ds ≡ none
find_absent j [] h = refl
find_absent j (d ∷ ds) h = ground (arith, find_absent j ds)

pub filter-HasKeys :
    (p : DeliveryRow → Bool) (ds : List DeliveryRow) → HasKeys ds → HasKeys (filter p ds)
filter-HasKeys p [] h = tt
filter-HasKeys p (d ∷ ds) h =
    ground (arith, filter-HasKeys p ds h.1, any-has_id-filter p d.id ds h.0)

find-filter :
    (p : DeliveryRow → Bool) (j : ℕ) (ds : List DeliveryRow)
    → HasKeys ds
    → find (has_id j) (filter p ds) ≡ kept p (find (has_id j) ds)
find-filter p j [] h = refl
find-filter p j (d ∷ ds) h =
    ground (arith, find-filter p j ds h.1, find_absent j (filter p ds), any-has_id-filter p j ds)

any-find : (j : ℕ) (ds : List DeliveryRow) → any (has_id j) ds ≡ is_some (find (has_id j) ds)
any-find j [] = refl
any-find j (d ∷ ds) = ground (arith, any-find j ds)

any-keep_attempts :
    (ds : List DeliveryRow) (atts : List AttemptRow) (j n : ℕ)
    → any (is_attempt j n) (keep_attempts ds atts)
      ≡ (any (is_attempt j n) atts && any (has_id j) ds)
any-keep_attempts ds [] j n = refl
any-keep_attempts ds (a ∷ atts) j n = ground (arith, any-keep_attempts ds atts j n)

Fits-kept : (p : DeliveryRow → Bool) (o : Option DeliveryRow) (n : ℕ) → Fits o n → Fits (kept p o) n
Fits-kept p none n f = tt
Fits-kept p (some d) n f = ground arith

covers-kept :
    (p : DeliveryRow → Bool) (o : Option DeliveryRow) (n : ℕ)
    → covers (kept p o) n ≡ (covers o n && is_some (kept p o))
covers-kept p none n = refl
covers-kept p (some d) n = ground arith

AllFit-kept :
    (p : DeliveryRow → Bool) (db db' : Database) (rs : List DeliveryForProcessing)
    → ((id : ℕ) → find_delivery db' id ≡ kept p (find_delivery db id))
    → AllFit db rs
    → AllFit db' rs
AllFit-kept p db db' [] e f = tt
AllFit-kept p db db' (r ∷ rs) e f = (
  subst (λ o. Fits o r.attempt_count) (sym (e r.id))
      (Fits-kept p (find_delivery db r.id) r.attempt_count (f.0)),
  AllFit-kept p db db' rs e (f.1),
)

pub find_delivery-filter :
    (p : DeliveryRow → Bool) (db db' : Database) (id : ℕ)
    → HasKeys db.deliveries
    → db'.deliveries ≡ filter p db.deliveries
    → find_delivery db' id ≡ kept p (find_delivery db id)
unfolding find_delivery
find_delivery-filter p db db' id h e = ap (find (has_id id)) e ∙ find-filter p id db.deliveries h

any-is_attempt-filter :
    (db db' : Database) (id n : ℕ)
    → db'.attempts ≡ keep_attempts db'.deliveries db.attempts
    → any (is_attempt id n) db'.attempts
      ≡ (any (is_attempt id n) db.attempts && is_some (find_delivery db' id))
unfolding find_delivery
any-is_attempt-filter db db' id n e =
    ap (any (is_attempt id n)) e
    ∙ any-keep_attempts db'.deliveries db.attempts id n
    ∙ ap (λ b. any (is_attempt id n) db.attempts && b) (any-find id db'.deliveries)

-- A delete that cascades keeps the invariant.
pub Inv-of_filter :
    (p : DeliveryRow → Bool) (w : System) (db' : Database)
    → db'.deliveries ≡ filter p w.db.deliveries
    → db'.attempts ≡ keep_attempts db'.deliveries w.db.attempts
    → Inv w
    → Inv (record w { db = db' })
Inv-of_filter p w db' rows atts inv =
    let lookup = λ (id : ℕ). find_delivery-filter p w.db db' id inv.keys rows in
    record {
      keys = subst HasKeys (sym rows) (filter-HasKeys p w.db.deliveries inv.keys);
      fits = AllFit-kept p w.db db' w.held lookup inv.fits;
      attempts = λ id n.
          any-is_attempt-filter w.db db' id n atts
          ∙ ground (arith, inv.attempts id n, lookup id, covers-kept p (find_delivery w.db id) n);
    }

-- The Deliveries that a delete of Broadcasts keeps.
abbrev pub outlives : (BroadcastRow → Bool) → Database → DeliveryRow → Bool
outlives doomed db d = not (any (λ b. b.id == d.broadcast_id) (filter doomed db.broadcasts))

pub delete_broadcasts-eq :
    (doomed : BroadcastRow → Bool) (db : Database)
    → ((delete_broadcasts doomed db).deliveries ≡ filter (outlives doomed db) db.deliveries)
      × ((delete_broadcasts doomed db).attempts
          ≡ keep_attempts (delete_broadcasts doomed db).deliveries db.attempts)
unfolding delete_broadcasts
delete_broadcasts-eq doomed db = (refl, refl)

pub delete_endpoint-eq :
    (db : Database) (channel_id id : ℕ)
    → ((delete_endpoint db channel_id id).0 ≡ db)
      ⊎ (((delete_endpoint db channel_id id).0.deliveries
            ≡ filter (λ d. not (d.endpoint_id == id)) db.deliveries)
          × ((delete_endpoint db channel_id id).0.attempts
              ≡ keep_attempts (delete_endpoint db channel_id id).0.deliveries db.attempts))
unfolding delete_endpoint
delete_endpoint-eq db channel_id id =
    elim (Bool-cases (any (λ e. e.channel_id == channel_id && e.id == id) db.endpoints)) [
      | inl e ↦ rw e (inr (refl, refl))
      | inr e ↦ rw e (inl refl)
    ]
