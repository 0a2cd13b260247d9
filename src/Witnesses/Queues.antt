-- ===== src/Witnesses/Queues.antt =====
-- The queue over a concrete job store.
use webhook_broadcast.Base.{
  ℕ, ◌≡◌, ◌≢◌, refl, arith, subst, ap, or_default, map, ==_refl, Bool-cases, inl, inr, true, Bool,
  false, Option, none, some, List, [], ◌∷◌, ◌==◌, ==_iff, any, if◌then◌else◌,
}
use webhook_broadcast.FanOut.{WorkItem}
use webhook_broadcast.Queue.{
  JobState, waiting, failed, BullQueue, enqueue_bulk, job_of, remove_finished_job,
}
use webhook_broadcast.Queue.Live.{BullLaws, is_live, names, enqueue_bulk-live}

-- The jobs by id.
abbrev Jobs : Type 0
Jobs = ℕ → Option JobState

abbrev or_waiting : Option JobState → Option JobState
or_waiting none = some waiting
or_waiting (some s) = some s

abbrev store : BullQueue Jobs
store = record {
  get_state = λ j id. some (j id);
  remove = λ j id. some (λ k. if k == id then none else j k);
  add = λ j job. some (λ k. if k == job.opts.job_id then or_waiting (j k) else j k);
  add_bulk = λ j list. some (λ k. if any (names k) list then or_waiting (j k) else j k);
}

removed_other : (j : Jobs) (id k : ℕ) → k ≢ id → (if k == id then none else j k) ≡ j k
removed_other j id k other = elim (Bool-cases (k == id)) [
  | inl same ↦ absurd (other ((==_iff k id).0 same))
  | inr differs ↦ rw differs refl
]

kept :
    (b : Bool) (o : Option JobState) (s : JobState)
    → o ≡ some s
    → (if b then or_waiting o else o) ≡ some s
kept true o s e = rw e refl
kept false o s e = e

after_write :
    (f j' : Jobs) (P : Jobs → Type 0) → ◌≡◌ {A = Option Jobs} (some f) (some j') → P f → P j'
after_write f j' P e h = subst P (ap (λ (o : Option Jobs). or_default o f) e) h

laws : BullLaws store (λ j. j)
laws = record {
  reads = λ j id o e. ground (arith, e);
  removes = λ j j' id e. after_write _ j' (λ (x : Jobs). x id ≡ none) e (rw (==_refl id) refl);
  removes_only = λ j j' id k e other.
      after_write _ j' (λ (x : Jobs). x k ≡ j k) e (removed_other j id k other);
  adds = λ j j' job e new.
      after_write _ j' (λ (x : Jobs). x job.opts.job_id ≡ some waiting) e
        (rw (==_refl job.opts.job_id) (rw new refl));
  adds_once = λ j j' job k s e old.
      after_write _ j' (λ (x : Jobs). x k ≡ some s) e (kept (k == job.opts.job_id) (j k) s old);
  adds_bulk = λ j j' list k e member new.
      after_write _ j' (λ (x : Jobs). x k ≡ some waiting) e (rw (member, new) refl);
  adds_bulk_once = λ j j' list k s e old.
      after_write _ j' (λ (x : Jobs). x k ≡ some s) e (kept (any (names k) list) (j k) s old);
}

abbrev item : ℕ → WorkItem
item id = record {
  delivery_id = id;
  request_id = 77;
  channel_id = 1;
  broadcast_id = 4;
  endpoint_id = 2;
}

-- The job 5 has failed.
abbrev held : Jobs
held k = if k == 5 then some failed else none

abbrev cleared : Jobs
cleared k = if k == 5 then none else held k

abbrev items : List WorkItem
items = item 5 ∷ item 6 ∷ []

abbrev enqueued_jobs : Jobs
enqueued_jobs k =
    if any (names k) (map (job_of store 3) items) then or_waiting (cleared k) else cleared k

enqueued : enqueue_bulk store 3 held items ≡ (enqueued_jobs, true)
unfolding enqueue_bulk remove_finished_job
enqueued = refl

enqueue_bulk-live_example : is_live (enqueued_jobs 5) ≡ true
enqueue_bulk-live_example =
    enqueue_bulk-live store (λ j. j) laws 3 held enqueued_jobs items 5 enqueued refl
