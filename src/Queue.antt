-- ===== src/Queue.antt =====
-- apps/api/src/deliveryQueue.ts: the queue of Deliveries over BullMQ, which is a parameter. A call of
-- BullMQ that throws is `none`, and has changed nothing.
pub mod Live
use webhook_broadcast.Base.{ℕ, Bool, true, false, ◌&&◌, Option, none, some, List, [], ◌∷◌, map}
use webhook_broadcast.FanOut.{WorkItem, DeliveryQueue}

pub data JobState : Type 0 where
  waiting active delayed completed failed : JobState

-- `jobAddOptions`, where the backoff is always the custom one.
pub record JobOptions : Type 0 where
  pub job_id : ℕ
  pub attempts : ℕ

pub record Job : Type 0 where
  pub item : WorkItem
  pub opts : JobOptions

-- What the class calls of BullMQ's `Queue`, over its state.
pub record BullQueue (J : Type 0) : Type 0 where
  -- `getJob` and `getState`: `some none` where there is no such job
  pub get_state : J → ℕ → Option (Option JobState)
  pub remove : J → ℕ → Option J
  pub add : J → Job → Option J
  pub add_bulk : J → List Job → Option J

-- The queue after a call, and whether it went through: a call of BullMQ that throws changes nothing.
abbrev pub went : {J : Type 0} → J → Option J → J × Bool
went j none = (j, false)
went j (some j') = (j', true)

-- `await`: nothing more is done where the first part has thrown.
infixl 5 ◌>>=◌
abbrev pub ◌>>=◌ : {J : Type 0} → J × Bool → (J → J × Bool) → J × Bool
(j, true) >>= k = k j
(j, false) >>= k = (j, false)

module _ {J : Type 0} (bull : BullQueue J) (max_attempts : ℕ) where
  remove_if_finished : J → ℕ → Option (Option JobState) → J × Bool
  remove_if_finished j id none = (j, false)
  remove_if_finished j id (some (some completed)) = went j (bull.remove j id)
  remove_if_finished j id (some (some failed)) = went j (bull.remove j id)
  remove_if_finished j id (some other) = (j, true)

  unfoldable pub remove_finished_job : J → ℕ → J × Bool
  unfolding remove_if_finished
  remove_finished_job j id = remove_if_finished j id (bull.get_state j id)

  unfoldable pub job_add_options : ℕ → JobOptions
  job_add_options id = record { job_id = id; attempts = max_attempts }

  unfoldable pub job_of : WorkItem → Job
  job_of item = record { item = item; opts = job_add_options item.delivery_id }

  unfoldable pub enqueue : J → WorkItem → J × Bool
  enqueue j item = remove_finished_job j item.delivery_id >>= λ cleared.
      went cleared (bull.add cleared (job_of item))

  -- `Promise.all`: each removal is made, also where another one throws.
  remove_all : J → List WorkItem → J × Bool
  remove_all j [] = (j, true)
  remove_all j (item ∷ items) =
      let first = remove_finished_job j item.delivery_id in
      let rest = remove_all first.0 items in (rest.0, first.1 && rest.1)

  unfoldable pub enqueue_bulk : J → List WorkItem → J × Bool
  unfolding remove_all
  enqueue_bulk j [] = (j, true)
  enqueue_bulk j (item ∷ items) = remove_all j (item ∷ items) >>= λ cleared.
      went cleared (bull.add_bulk cleared (map job_of (item ∷ items)))

  -- An `enqueueBulk` as the fan-out sees it, for which there is no job with one of the ids: it throws or has
  -- put the jobs there.
  abbrev as_fan_out : J × Bool → Option J
  as_fan_out (j, true) = some j
  as_fan_out (j, false) = none

  -- `BullMqDeliveryQueue` as the `DeliveryQueue` of a fan-out.
  unfoldable pub bull_mq_delivery_queue : DeliveryQueue J
  bull_mq_delivery_queue = record {
    enqueue = enqueue;
    enqueue_bulk = λ j items. as_fan_out (enqueue_bulk j items);
  }
