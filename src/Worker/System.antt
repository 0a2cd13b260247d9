-- ===== src/Worker/System.antt =====
-- Workers, the operator's retry, fan-outs and deletes side by side. One step is one statement or one
-- transaction of a process; between its read and its completion a worker holds what it has read.
-- A job that BullMQ delivers twice is two workers on one Delivery.
pub mod Invariant
pub mod Deletion
pub mod Growth
pub mod Completed
pub mod Preserved
pub mod Terminal
pub mod Run
pub mod Ends
use webhook_broadcast.Base.{
  ℕ, ◌+◌, ◌≤◌, Bool, true, false, not, ◌&&◌, ◌||◌, Option, none, some, List, [], ◌∷◌, ◌++◌, ◌≡◌,
  ◌≢◌, ◌==◌, any, filter, map,
}
use webhook_broadcast.Store.Rows.{
  Database, DeliveryRow, DeliveryStatus, pending, in_progress, status_eq, BroadcastRow,
}
use webhook_broadcast.Store.Deliveries.{
  DeliveryForProcessing, get_delivery_for_processing, mark_delivery_in_progress, complete_delivery,
  reset_in_progress_delivery_to_pending, retry_dead_lettered_delivery, find_delivery,
}
use webhook_broadcast.Store.Endpoints.{delete_endpoint, maybe_auto_disable_endpoint}
use webhook_broadcast.Store.Broadcasts.{delete_broadcasts}
use webhook_broadcast.FanOut.{committed_broadcast}
use webhook_broadcast.Worker.{completion, is_open}
use webhook_broadcast.Request.{Surroundings, Answer}

pub record System : Type 0 where
  pub db : Database
  -- what each worker under way has read
  pub held : List DeliveryForProcessing

-- The ids that `randomUUID` answers are new: different from each other, from those of the rows, and from
-- those that a worker still holds.
pub record IsNew (uuid : ℕ → ℕ) (w : System) : Type 0 where
  pub injective : (i j : ℕ) → uuid i ≡ uuid j → i ≡ j
  pub unused : (i : ℕ) → find_delivery w.db (uuid i) ≡ none
  pub unheld : (i : ℕ) → any (λ r. r.id == uuid i) w.held ≡ false

pub data Step (w : System) : System → Type 0 where
  -- `getDeliveryForProcessing`, and the guard on the status
  read :
      (id : ℕ) (r : DeliveryForProcessing)
      → get_delivery_for_processing w.db id ≡ some r
      → is_open r.status ≡ true
      → Step w (record w { held = r ∷ w.held })
  -- `markDeliveryInProgress`
  claim : (id at : ℕ) → Step w (record w { db = (mark_delivery_in_progress w.db id at).0 })
  -- `completeDelivery`, by the worker that holds `r`
  complete :
      (front rear : List DeliveryForProcessing) (r : DeliveryForProcessing) (s : Surroundings)
      (a : Answer) (status : DeliveryStatus) (db : Database)
      → w.held ≡ front ++ r ∷ rear
      → complete_delivery w.db s.attempt_id (completion s r a status) ≡ some db
      → Step w (record { db = db; held = front ++ rear })
  -- `resetInProgressDeliveryToPending`
  reset :
      (id at : ℕ) → Step w (record w { db = (reset_in_progress_delivery_to_pending w.db id at).0 })
  -- a worker returns, throws or dies
  leave :
      (front rear : List DeliveryForProcessing) (r : DeliveryForProcessing)
      → w.held ≡ front ++ r ∷ rear
      → Step w (record w { held = front ++ rear })
  -- `maybeAutoDisableEndpoint`
  auto_disable :
      (id after now : ℕ)
      → Step w (record w { db = (maybe_auto_disable_endpoint w.db id after now).0 })
  -- `retryDeadLetteredDelivery`
  retry : (id at : ℕ) → Step w (record w { db = (retry_dead_lettered_delivery w.db id at).0 })
  -- the transaction of a fan-out, which goes through since its ids are new
  fan_out :
      (uuid : ℕ → ℕ) (b : BroadcastRow)
      → IsNew uuid w
      → Step w (record w { db = (committed_broadcast uuid w.db b).0 })
  -- the retention sweep, and the rollback of a fan-out
  sweep : (doomed : BroadcastRow → Bool) → Step w (record w { db = delete_broadcasts doomed w.db })
  -- `deleteEndpoint`
  remove_endpoint :
      (channel_id id : ℕ) → Step w (record w { db = (delete_endpoint w.db channel_id id).0 })

pub data Reach (w : System) : System → Type 0 where
  here : Reach w w
  next : {v u : System} → Reach w v → Step v u → Reach w u
