-- ===== src/Worker/System/Preserved.antt =====
-- The invariant over whole interleavings.
use webhook_broadcast.Base.{
  ℕ, true, not, Option, none, some, ◌++◌, ◌≡◌, refl, sym, subst, arith, ◌==◌, inl, inr,
}
use mathlib.Core.Option
use webhook_broadcast.Store.Rows.{
  Database, DeliveryRow, DeliveryStatus, pending, in_progress, dead_lettered, status_eq,
}
use webhook_broadcast.Store.Deliveries.{
  mark_delivery_in_progress, reset_in_progress_delivery_to_pending, retry_dead_lettered_delivery,
  find_delivery,
}
use webhook_broadcast.Store.Deliveries.Lookup.{HasKeys, moved}
use webhook_broadcast.Store.Deliveries.Moves.{
  find_delivery-mark, mark-HasKeys, mark-attempts, find_delivery-reset, reset-HasKeys,
  find_delivery-retry, retry-HasKeys,
}
use webhook_broadcast.Store.Endpoints.{delete_endpoint, maybe_auto_disable_endpoint}
use webhook_broadcast.Store.Broadcasts.{delete_broadcasts}
use webhook_broadcast.Worker.{completion, is_open}
use webhook_broadcast.Worker.Verdict.{auto_disable-deliveries}
use webhook_broadcast.Worker.System.{
  System, Step, Reach, read, claim, complete, reset, leave, auto_disable, retry, fan_out, sweep,
  remove_endpoint, here, next,
}
use webhook_broadcast.Worker.System.Invariant.{
  AllFit, Inv, SameOrOpen, Inv-of_SameOrOpen, moved-SameOrOpen, Fits-self, AllFit-remove,
}
use webhook_broadcast.Worker.System.Completed.{complete-current, Inv-complete}
use webhook_broadcast.Worker.System.Deletion.{
  Inv-of_filter, outlives, delete_broadcasts-eq, delete_endpoint-eq,
}
use webhook_broadcast.Worker.System.Growth.{Inv-fan_out}

-- A statement that moves the row `id` between two statuses, the new one opened, keeps the invariant.
Inv-of_move :
    (from to : DeliveryStatus) (id at : ℕ) (w : System) (db' : Database)
    → is_open to ≡ true
    → ((j : ℕ) → find_delivery db' j ≡ Option.map (moved from to id at) (find_delivery w.db j))
    → db'.attempts ≡ w.db.attempts
    → HasKeys db'.deliveries
    → Inv w
    → Inv (record w { db = db' })
Inv-of_move from to id at w db' opened lookup same keys inv =
    Inv-of_SameOrOpen w db' keys
      (λ j.
        subst (SameOrOpen (find_delivery w.db j)) (sym (lookup j))
          (moved-SameOrOpen from to id at (find_delivery w.db j) opened))
      same inv

Inv-claim :
    (w : System) (id at : ℕ)
    → Inv w
    → Inv (record w { db = (mark_delivery_in_progress w.db id at).0 })
unfolding status_eq
Inv-claim w id at inv =
    Inv-of_move pending in_progress id at w (mark_delivery_in_progress w.db id at).0 refl
      (λ j. find_delivery-mark w.db id at j inv.keys) (mark-attempts w.db id at)
      (mark-HasKeys w.db id at inv.keys) inv

Inv-reset :
    (w : System) (id at : ℕ)
    → Inv w
    → Inv (record w { db = (reset_in_progress_delivery_to_pending w.db id at).0 })
unfolding status_eq
Inv-reset w id at inv =
    Inv-of_move in_progress pending id at w (reset_in_progress_delivery_to_pending w.db id at).0
      refl (λ j. (find_delivery-reset w.db id at j).0) (find_delivery-reset w.db id at id).1
      (reset-HasKeys w.db id at inv.keys) inv

Inv-retry :
    (w : System) (id at : ℕ)
    → Inv w
    → Inv (record w { db = (retry_dead_lettered_delivery w.db id at).0 })
unfolding status_eq
Inv-retry w id at inv =
    Inv-of_move dead_lettered pending id at w (retry_dead_lettered_delivery w.db id at).0 refl
      (λ j. (find_delivery-retry w.db id at j).0) (find_delivery-retry w.db id at id).1
      (retry-HasKeys w.db id at inv.keys) inv

-- A statement that leaves both tables alone.
SameOrOpen-self : (o : Option DeliveryRow) → SameOrOpen o o
SameOrOpen-self none = tt
SameOrOpen-self (some d) = (refl, λ h. h)

pub find_delivery_of_deliveries :
    (db db' : Database) (id : ℕ)
    → db'.deliveries ≡ db.deliveries
    → find_delivery db' id ≡ find_delivery db id
unfolding find_delivery
find_delivery_of_deliveries db db' id e = rw e refl

Inv-auto_disable :
    (w : System) (id after now : ℕ)
    → Inv w
    → Inv (record w { db = (maybe_auto_disable_endpoint w.db id after now).0 })
Inv-auto_disable w id after now inv =
    let (rows, atts) = auto_disable-deliveries w.db id after now in
    Inv-of_SameOrOpen w (maybe_auto_disable_endpoint w.db id after now).0
      (subst HasKeys (sym rows) inv.keys)
      (λ j.
        subst (SameOrOpen (find_delivery w.db j))
          (sym (
            find_delivery_of_deliveries w.db (maybe_auto_disable_endpoint w.db id after now).0 j
              rows))
          (SameOrOpen-self (find_delivery w.db j)))
      atts inv

-- Every step keeps the invariant.
pub Step-Inv : {w v : System} → Step w v → Inv w → Inv v
unfolding completion
Step-Inv {w} (read id r e opened) inv = record {
  keys = inv.keys;
  fits = (Fits-self w.db id r e opened, inv.fits);
  attempts = inv.attempts;
}
Step-Inv {w} (claim id at) inv = Inv-claim w id at inv
Step-Inv {w} (complete front rear r s a status db held e) inv =
    let (rest, fit) = AllFit-remove w.db front rear r (subst (AllFit w.db) held inv.fits) in
    let c = completion s r a status in
    let (d, there, count, opened) =
      complete-current w db s.attempt_id r.attempt_count c inv fit refl e in
    Inv-complete w db s.attempt_id c d inv there (omega (arith, count)) e (front ++ rear) rest
Step-Inv {w} (reset id at) inv = Inv-reset w id at inv
Step-Inv {w} (leave front rear r held) inv = record {
  keys = inv.keys;
  fits = (AllFit-remove w.db front rear r (subst (AllFit w.db) held inv.fits)).0;
  attempts = inv.attempts;
}
Step-Inv {w} (auto_disable id after now) inv = Inv-auto_disable w id after now inv
Step-Inv {w} (retry id at) inv = Inv-retry w id at inv
Step-Inv {w} (fan_out uuid b new) inv = Inv-fan_out uuid w b new inv
Step-Inv {w} (sweep doomed) inv =
    let (rows, atts) = delete_broadcasts-eq doomed w.db in
    Inv-of_filter (outlives doomed w.db) w (delete_broadcasts doomed w.db) rows atts inv
Step-Inv {w} (remove_endpoint channel_id id) inv = elim (delete_endpoint-eq w.db channel_id id) [
  | inl same ↦ subst (λ db. Inv (record w { db = db })) (sym same) inv
  | inr (rows, atts) ↦
      Inv-of_filter (λ d. not (d.endpoint_id == id)) w (delete_endpoint w.db channel_id id).0 rows
        atts inv
]

-- However workers, retries, fan-outs and deletes interleave, from a state in which the invariant holds:
-- the Delivery ids stay unique, the recorded Attempts of each Delivery are those numbered from 1 to its
-- `attempt_count`, and a worker whose Delivery got no Attempt since it was read finds it not terminal.
pub Reach-Inv : {w v : System} → Reach w v → Inv w → Inv v
Reach-Inv here inv = inv
Reach-Inv (next run step) inv = Step-Inv step (Reach-Inv run inv)
