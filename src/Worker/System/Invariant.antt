-- ===== src/Worker/System/Invariant.antt =====
-- What holds of the rows and of the workers under way in every reachable state.
use webhook_broadcast.Base.{
  ℕ, ◌≤◌, Bool, true, false, ◌&&◌, Option, none, some, List, [], ◌∷◌, ◌++◌, ◌≡◌, refl, sym, subst,
  ◌∙◌, ap, arith, leb, any,
}
use mathlib.Core.Option
use webhook_broadcast.Store.Rows.{Database, DeliveryRow, DeliveryStatus}
use webhook_broadcast.Store.Deliveries.{
  DeliveryForProcessing, get_delivery_for_processing, is_attempt, find_delivery,
}
use webhook_broadcast.Store.Deliveries.Lookup.{HasKeys, moved, find_delivery-id}
use webhook_broadcast.Worker.{is_open}
use webhook_broadcast.Worker.Process.{get_delivery-row}
use webhook_broadcast.Worker.System.{System}

-- What a worker holds is not newer than the row; and if no Attempt was recorded since it was read, the
-- row is not terminal.
abbrev pub Fits : Option DeliveryRow → ℕ → Type 0
Fits none n = Unit
Fits (some d) n = (n ≤ d.attempt_count) × (n ≡ d.attempt_count → is_open d.status ≡ true)

abbrev pub AllFit : Database → List DeliveryForProcessing → Type 0
AllFit db [] = Unit
AllFit db (r ∷ rs) = Fits (find_delivery db r.id) r.attempt_count × AllFit db rs

-- Whether the row's count covers the Attempt `n`.
abbrev pub covers : Option DeliveryRow → ℕ → Bool
covers none n = false
covers (some d) n = leb 1 n && leb n d.attempt_count

pub record Inv (w : System) : Type 0 where
  pub keys : HasKeys w.db.deliveries
  pub fits : AllFit w.db w.held
  -- the recorded Attempts of a Delivery are those numbered from 1 to its count
  pub attempts : (id n : ℕ) → any (is_attempt id n) w.db.attempts ≡ covers (find_delivery w.db id) n

-- A change of one row that keeps count and openness keeps what the workers hold.
abbrev pub SameOrOpen : Option DeliveryRow → Option DeliveryRow → Type 0
SameOrOpen none none = Unit
SameOrOpen (some d) (some e) =
    (e.attempt_count ≡ d.attempt_count) × (is_open d.status ≡ true → is_open e.status ≡ true)
SameOrOpen _ _ = ⊥

Fits-of_SameOrOpen : (o p : Option DeliveryRow) (n : ℕ) → SameOrOpen o p → Fits o n → Fits p n
Fits-of_SameOrOpen none none n s f = tt
Fits-of_SameOrOpen (some d) (some e) n s f = (omega arith, λ same. s.1 (f.1 (omega arith)))
Fits-of_SameOrOpen none (some e) n s f = absurd s
Fits-of_SameOrOpen (some d) none n s f = absurd s

covers_of_SameOrOpen : (o p : Option DeliveryRow) (n : ℕ) → SameOrOpen o p → covers p n ≡ covers o n
covers_of_SameOrOpen none none n s = refl
covers_of_SameOrOpen (some d) (some e) n s = ground arith
covers_of_SameOrOpen none (some e) n s = absurd s
covers_of_SameOrOpen (some d) none n s = absurd s

pub AllFit-of_SameOrOpen :
    (db db' : Database) (rs : List DeliveryForProcessing)
    → ((id : ℕ) → SameOrOpen (find_delivery db id) (find_delivery db' id))
    → AllFit db rs
    → AllFit db' rs
AllFit-of_SameOrOpen db db' [] s f = tt
AllFit-of_SameOrOpen db db' (r ∷ rs) s f = (
  Fits-of_SameOrOpen (find_delivery db r.id) (find_delivery db' r.id) r.attempt_count (s r.id)
      (f.0),
  AllFit-of_SameOrOpen db db' rs s (f.1),
)

-- A statement that moves a row between statuses keeps the invariant.
pub Inv-of_SameOrOpen :
    (w : System) (db' : Database)
    → HasKeys db'.deliveries
    → ((id : ℕ) → SameOrOpen (find_delivery w.db id) (find_delivery db' id))
    → db'.attempts ≡ w.db.attempts
    → Inv w
    → Inv (record w { db = db' })
Inv-of_SameOrOpen w db' keys s same inv = record {
  keys = keys;
  fits = AllFit-of_SameOrOpen w.db db' w.held s inv.fits;
  attempts = λ id n.
      ap (any (is_attempt id n)) same
      ∙ inv.attempts id n
      ∙ sym (covers_of_SameOrOpen (find_delivery w.db id) (find_delivery db' id) n (s id));
}

pub moved-SameOrOpen :
    (from to : DeliveryStatus) (id at : ℕ) (o : Option DeliveryRow)
    → is_open to ≡ true
    → SameOrOpen o (Option.map (moved from to id at) o)
moved-SameOrOpen from to id at none h = tt
moved-SameOrOpen from to id at (some d) h = ground arith

pub Fits-self :
    (db : Database) (id : ℕ) (r : DeliveryForProcessing)
    → get_delivery_for_processing db id ≡ some r
    → is_open r.status ≡ true
    → Fits (find_delivery db r.id) r.attempt_count
Fits-self db id r e h =
    let (d, there, same_id, same_status, same_count) = get_delivery-row db id r e in
    let here = same_id ∙ find_delivery-id db id there in
    subst (λ o. Fits o r.attempt_count) (sym (ap (find_delivery db) here ∙ there))
      (omega (arith, same_count), λ same. ap is_open (sym same_status) ∙ h)

pub AllFit-remove :
    (db : Database) (front rear : List DeliveryForProcessing) (r : DeliveryForProcessing)
    → AllFit db (front ++ r ∷ rear)
    → AllFit db (front ++ rear) × Fits (find_delivery db r.id) r.attempt_count
AllFit-remove db [] rear r f = (f.1, f.0)
AllFit-remove db (x ∷ front) rear r f =
    let rest = AllFit-remove db front rear r (f.1) in ((f.0, rest.0), rest.1)
