-- ===== src/Store/Deliveries/Lookup.antt =====
-- What each statement on the tables `delivery` and `attempt` does to the row of one Delivery.
use webhook_broadcast.Base.{
  ℕ, Bool, true, false, Option-cases, inl, inr, ◌&&◌, ◌||◌, Option, none, some, List, [], ◌∷◌, ◌++◌,
  ◌≡◌, refl, arith, ◌==◌, if◌then◌else◌, any, find, update_where, any-append,
}
use mathlib.Core.Option
use webhook_broadcast.Store.Rows.{Database, DeliveryRow, DeliveryStatus, status_eq}
use webhook_broadcast.Store.Deliveries.{
  has_id, find_delivery, move_status, moves_status, Completion, is_attempt, completed, attempt_of,
  complete_delivery,
}

-- `delivery.id` is a primary key.
abbrev pub HasKeys : List DeliveryRow → Type 0
HasKeys [] = Unit
HasKeys (d ∷ ds) = (any (has_id d.id) ds ≡ false) × HasKeys ds

-- A test on the row that was found.
abbrev pub found : (DeliveryRow → Bool) → Option DeliveryRow → Bool
found q none = false
found q (some d) = q d

any_absent :
    (q : DeliveryRow → Bool) (id : ℕ) (ds : List DeliveryRow)
    → any (has_id id) ds ≡ false
    → any (λ d. d.id == id && q d) ds ≡ false
any_absent q id [] h = refl
any_absent q id (d ∷ ds) h = ground (arith, any_absent q id ds)

-- On a table with a primary key, a condition on `id` and `q` selects a row exactly where the row of
-- that id meets `q`.
pub any-found :
    (q : DeliveryRow → Bool) (id : ℕ) (ds : List DeliveryRow)
    → HasKeys ds
    → any (λ d. d.id == id && q d) ds ≡ found q (find (has_id id) ds)
any-found q id [] h = refl
any-found q id (d ∷ ds) h = ground (arith, any-found q id ds h.1, any_absent q id ds)

abbrev changed : ℕ → (DeliveryRow → Bool) → (DeliveryRow → DeliveryRow) → DeliveryRow → DeliveryRow
changed id q f d = if d.id == id && q d then f d else d

-- An update of the row `id` that keeps its key, seen from the row `j`.
pub find-update_where :
    (id j : ℕ) (q : DeliveryRow → Bool) (f : DeliveryRow → DeliveryRow) (ds : List DeliveryRow)
    → ((d : DeliveryRow) → (f d).id ≡ d.id)
    → find (has_id j) (update_where (λ d. d.id == id && q d) f ds)
      ≡ Option.map (changed id q f) (find (has_id j) ds)
find-update_where id j q f [] keeps = refl
find-update_where id j q f (d ∷ ds) keeps =
    ground (arith, find-update_where id j q f ds keeps, keeps d)

any-has_id-update_where :
    (j : ℕ) (p : DeliveryRow → Bool) (f : DeliveryRow → DeliveryRow) (ds : List DeliveryRow)
    → ((d : DeliveryRow) → (f d).id ≡ d.id)
    → any (has_id j) (update_where p f ds) ≡ any (has_id j) ds
any-has_id-update_where j p f [] keeps = refl
any-has_id-update_where j p f (d ∷ ds) keeps =
    ground (arith, any-has_id-update_where j p f ds keeps, keeps d)

pub update_where-HasKeys :
    (p : DeliveryRow → Bool) (f : DeliveryRow → DeliveryRow) (ds : List DeliveryRow)
    → ((d : DeliveryRow) → (f d).id ≡ d.id)
    → HasKeys ds
    → HasKeys (update_where p f ds)
update_where-HasKeys p f [] keeps h = tt
update_where-HasKeys p f (d ∷ ds) keeps h = ground (
  arith,
  update_where-HasKeys p f ds keeps h.1,
  any-has_id-update_where d.id p f ds keeps,
  keeps d,
)

-- The row after a move between statuses.
abbrev pub moved : DeliveryStatus → DeliveryStatus → ℕ → ℕ → DeliveryRow → DeliveryRow
moved from to id at d =
    if d.id == id && status_eq d.status from then record d { status = to; updated_at = at } else d

pub find_delivery-move_status :
    (from to : DeliveryStatus) (id at j : ℕ) (db : Database)
    → find_delivery (move_status from to id at db) j
      ≡ Option.map (moved from to id at) (find_delivery db j)
unfolding find_delivery move_status
find_delivery-move_status from to id at j db =
    find-update_where id j (λ d. status_eq d.status from)
      (λ d. record d { status = to; updated_at = at }) db.deliveries (λ d. refl)

pub moves_status-found :
    (from : DeliveryStatus) (id : ℕ) (db : Database)
    → HasKeys db.deliveries
    → moves_status from id db ≡ found (λ d. status_eq d.status from) (find_delivery db id)
unfolding find_delivery moves_status
moves_status-found from id db h = any-found (λ d. status_eq d.status from) id db.deliveries h

pub move_status-HasKeys :
    (from to : DeliveryStatus) (id at : ℕ) (db : Database)
    → HasKeys db.deliveries
    → HasKeys (move_status from to id at db).deliveries
unfolding move_status
move_status-HasKeys from to id at db h =
    update_where-HasKeys (λ d. d.id == id && status_eq d.status from)
      (λ d. record d { status = to; updated_at = at }) db.deliveries (λ d. refl) h

find-has_id :
    (id : ℕ) (ds : List DeliveryRow) (d : DeliveryRow) → find (has_id id) ds ≡ some d → d.id ≡ id
find-has_id id [] d e = ground arith
find-has_id id (x ∷ ds) d e = ground (arith, find-has_id id ds d)

pub find_delivery-id :
    (db : Database) (id : ℕ) {d : DeliveryRow} → find_delivery db id ≡ some d → d.id ≡ id
unfolding find_delivery
find_delivery-id db id {d} e = find-has_id id db.deliveries d e

find-update_id :
    (id j : ℕ) (f : DeliveryRow → DeliveryRow) (ds : List DeliveryRow)
    → ((d : DeliveryRow) → (f d).id ≡ d.id)
    → find (has_id j) (update_where (has_id id) f ds)
      ≡ Option.map (λ d. if d.id == id then f d else d) (find (has_id j) ds)
find-update_id id j f [] keeps = refl
find-update_id id j f (d ∷ ds) keeps = ground (arith, find-update_id id j f ds keeps, keeps d)

-- The row after a completion.
abbrev pub completed_by : Completion → DeliveryRow → DeliveryRow
completed_by c d = if d.id == c.delivery_id then completed c d else d

complete_delivery-eq :
    (db db' : Database) (attempt_id : ℕ) (c : Completion)
    → complete_delivery db attempt_id c ≡ some db'
    → (db'.deliveries ≡ update_where (has_id c.delivery_id) (completed c) db.deliveries)
      × (db'.attempts ≡ db.attempts ++ attempt_of c attempt_id ∷ [])
      × (any (is_attempt c.delivery_id c.n) db.attempts ≡ false)
unfolding complete_delivery
complete_delivery-eq db db' attempt_id c e = ground arith

completed-id : (c : Completion) (d : DeliveryRow) → (completed c d).id ≡ d.id
unfolding completed
completed-id c d = refl

pub find_delivery_complete :
    (db db' : Database) (attempt_id : ℕ) (c : Completion) (j : ℕ)
    → complete_delivery db attempt_id c ≡ some db'
    → find_delivery db' j ≡ Option.map (completed_by c) (find_delivery db j)
unfolding find_delivery
find_delivery_complete db db' attempt_id c j e =
    let parts = complete_delivery-eq db db' attempt_id c e in
    rw (parts.0) (find-update_id c.delivery_id j (completed c) db.deliveries (completed-id c))

pub complete-HasKeys :
    (db db' : Database) (attempt_id : ℕ) (c : Completion)
    → complete_delivery db attempt_id c ≡ some db'
    → HasKeys db.deliveries
    → HasKeys db'.deliveries
complete-HasKeys db db' attempt_id c e h =
    let parts = complete_delivery-eq db db' attempt_id c e in
    rw (parts.0)
      (update_where-HasKeys (has_id c.delivery_id) (completed c) db.deliveries (completed-id c) h)

is_attempt-attempt_of :
    (c : Completion) (attempt_id i n : ℕ)
    → is_attempt i n (attempt_of c attempt_id) ≡ (c.delivery_id == i && c.n == n)
unfolding attempt_of
is_attempt-attempt_of c attempt_id i n = refl

-- A completion records the one Attempt, which was not there before.
pub attempts_complete :
    (db db' : Database) (attempt_id : ℕ) (c : Completion) (i n : ℕ)
    → complete_delivery db attempt_id c ≡ some db'
    → (any (is_attempt i n) db'.attempts
        ≡ (any (is_attempt i n) db.attempts || c.delivery_id == i && c.n == n))
      × (any (is_attempt c.delivery_id c.n) db.attempts ≡ false)
attempts_complete db db' attempt_id c i n e =
    let parts = complete_delivery-eq db db' attempt_id c e in
    (
      rw (parts.1) (
          ground (
            arith,
            any-append (is_attempt i n) db.attempts (attempt_of c attempt_id ∷ []),
            is_attempt-attempt_of c attempt_id i n,
          )),
      parts.2,
    )

-- A completion goes through where the Delivery is there and the number is new.
pub complete_delivery_refused :
    (db : Database) (attempt_id : ℕ) (c : Completion)
    → any (is_attempt c.delivery_id c.n) db.attempts ≡ true
    → complete_delivery db attempt_id c ≡ none
unfolding complete_delivery
complete_delivery_refused db attempt_id c taken =
    elim (Option-cases (find_delivery db c.delivery_id)) [
      | inl gone ↦ rw (complete_delivery, gone) refl
      | inr (d, there) ↦ rw (complete_delivery, there) (rw taken refl)
    ]

pub complete_delivery-goes_through :
    (db : Database) (attempt_id : ℕ) (c : Completion) (d : DeliveryRow)
    → find_delivery db c.delivery_id ≡ some d
    → any (is_attempt c.delivery_id c.n) db.attempts ≡ false
    → (db' : Database) × (complete_delivery db attempt_id c ≡ some db')
unfolding complete_delivery
complete_delivery-goes_through db attempt_id c d e h = (
  record db {
    attempts = db.attempts ++ attempt_of c attempt_id ∷ [];
    deliveries = update_where (has_id c.delivery_id) (completed c) db.deliveries;
  },
  ground arith,
)
