-- ===== src/Queue/Live.antt =====
-- apps/api/src/deliveryQueue.ts: what has been enqueued is waiting for a worker, or with one.
use webhook_broadcast.Base.{
  ℕ, ◌≡◌, ◌≢◌, inl, inr, refl, sym, ap, subst, ◌∙◌, arith, Bool, true, false, ◌&&◌, ◌||◌, ◌==◌,
  ==_iff, Option, none, some, List, [], ◌∷◌, map, any, Bool-cases,
}
use webhook_broadcast.FanOut.{WorkItem}
use webhook_broadcast.Queue.{
  JobState, waiting, active, delayed, completed, failed, Job, BullQueue, went, ◌>>=◌,
  remove_if_finished, remove_finished_job, job_add_options, job_of, enqueue, remove_all,
  enqueue_bulk,
}

-- There is a job, and a worker will run it.
abbrev pub is_live : Option JobState → Bool
is_live none = false
is_live (some completed) = false
is_live (some failed) = false
is_live (some other) = true

-- There is no job, or it is live.
abbrev pub is_clear : Option JobState → Bool
is_clear none = true
is_clear (some completed) = false
is_clear (some failed) = false
is_clear (some other) = true

abbrev pub names : ℕ → Job → Bool
names id job = job.opts.job_id == id

-- What BullMQ documents: `add` does nothing where a job has the id, whatever its state, and otherwise
-- makes one that waits; `remove` takes the job away. `jobs` is what the queue holds.
pub record BullLaws {J : Type 0} (bull : BullQueue J) (jobs : J → ℕ → Option JobState)
    : Type 0 where
  pub reads : (j : J) (id : ℕ) (o : Option JobState) → bull.get_state j id ≡ some o → jobs j id ≡ o
  pub removes : (j j' : J) (id : ℕ) → bull.remove j id ≡ some j' → jobs j' id ≡ none
  pub removes_only :
      (j j' : J) (id k : ℕ) → bull.remove j id ≡ some j' → k ≢ id → jobs j' k ≡ jobs j k
  pub adds :
      (j j' : J) (job : Job)
      → bull.add j job ≡ some j'
      → jobs j job.opts.job_id ≡ none
      → jobs j' job.opts.job_id ≡ some waiting
  pub adds_once :
      (j j' : J) (job : Job) (k : ℕ) (s : JobState)
      → bull.add j job ≡ some j'
      → jobs j k ≡ some s
      → jobs j' k ≡ some s
  pub adds_bulk :
      (j j' : J) (list : List Job) (k : ℕ)
      → bull.add_bulk j list ≡ some j'
      → any (names k) list ≡ true
      → jobs j k ≡ none
      → jobs j' k ≡ some waiting
  pub adds_bulk_once :
      (j j' : J) (list : List Job) (k : ℕ) (s : JobState)
      → bull.add_bulk j list ≡ some j'
      → jobs j k ≡ some s
      → jobs j' k ≡ some s

module _ {J : Type 0} (bull : BullQueue J) (jobs : J → ℕ → Option JobState)
    (laws : BullLaws bull jobs) (max_attempts : ℕ) where
  clear-live :
      (o : Option JobState) (p : Option JobState)
      → is_clear o ≡ true
      → (o ≡ none → p ≡ some waiting)
      → ((s : JobState) → o ≡ some s → p ≡ some s)
      → is_live p ≡ true
  clear-live none p clear new old = rw (new refl) refl
  clear-live (some waiting) p clear new old = rw (old waiting refl) refl
  clear-live (some active) p clear new old = rw (old active refl) refl
  clear-live (some delayed) p clear new old = rw (old delayed refl) refl
  clear-live (some completed) p clear new old = absurd (ground arith)
  clear-live (some failed) p clear new old = absurd (ground arith)

  taken : (j j' : J) (o : Option J) → went j o ≡ (j', true) → o ≡ some j'
  taken j j' none e = absurd (ground (arith, ap (λ r. r.1) e))
  taken j j' (some k) e = ap (λ r. some r.0) e

  -- A first part that is followed by a second one that went through has gone through.
  went_through :
      (p : J × Bool) (k : J → J × Bool) (b : J)
      → (p >>= k) ≡ (b, true)
      → (a : J) × (p ≡ (a, true)) × (k a ≡ (b, true))
  went_through (j, true) k b e = (j, refl, e)
  went_through (j, false) k b e = absurd (ground (arith, ap (λ r. r.1) e))

  untouched :
      (j j' : J) (id : ℕ) (o : Option JobState)
      → ◌≡◌ {A = J × Bool} (j, true) (j', true)
      → jobs j id ≡ o
      → is_clear o ≡ true
      → is_clear (jobs j' id) ≡ true
  untouched j j' id o e held clear =
      subst (λ (x : J). is_clear (jobs x id) ≡ true) (ap (λ r. r.0) e) (rw held clear)

  removed-clear :
      (j j' : J) (id : ℕ) (o : Option JobState)
      → jobs j id ≡ o
      → remove_if_finished bull max_attempts j id (some o) ≡ (j', true)
      → is_clear (jobs j' id) ≡ true
  unfolding remove_if_finished
  removed-clear j j' id none held e = untouched j j' id _ e held refl
  removed-clear j j' id (some completed) held e = rw (laws.removes j j' id (taken j j' _ e)) refl
  removed-clear j j' id (some failed) held e = rw (laws.removes j j' id (taken j j' _ e)) refl
  removed-clear j j' id (some waiting) held e = untouched j j' id _ e held refl
  removed-clear j j' id (some active) held e = untouched j j' id _ e held refl
  removed-clear j j' id (some delayed) held e = untouched j j' id _ e held refl

  -- The removal of a finished job leaves the others as clear as they were.
  removed_other :
      (j j' : J) (id k : ℕ) (o : Option JobState)
      → remove_if_finished bull max_attempts j id (some o) ≡ (j', true)
      → k ≢ id
      → jobs j' k ≡ jobs j k
  unfolding remove_if_finished
  removed_other j j' id k none e other = ap (λ r. jobs r.0 k) (sym e)
  removed_other j j' id k (some completed) e other =
      laws.removes_only j j' id k (taken j j' _ e) other
  removed_other j j' id k (some failed) e other = laws.removes_only j j' id k (taken j j' _ e) other
  removed_other j j' id k (some waiting) e other = ap (λ r. jobs r.0 k) (sym e)
  removed_other j j' id k (some active) e other = ap (λ r. jobs r.0 k) (sym e)
  removed_other j j' id k (some delayed) e other = ap (λ r. jobs r.0 k) (sym e)

  -- A removal that went through has read a state.
  has_read :
      (j j' : J) (id : ℕ) (o : Option (Option JobState))
      → remove_if_finished bull max_attempts j id o ≡ (j', true)
      → (s : Option JobState) × (o ≡ some s)
        × (remove_if_finished bull max_attempts j id (some s) ≡ (j', true))
  unfolding remove_if_finished
  has_read j j' id none e = absurd (ground (arith, ap (λ r. r.1) e))
  has_read j j' id (some s) e = (s, refl, e)

  finished-clear :
      (j j' : J) (id : ℕ)
      → remove_finished_job bull max_attempts j id ≡ (j', true)
      → is_clear (jobs j' id) ≡ true
  unfolding remove_finished_job
  finished-clear j j' id e =
      let (o, read, rest) = has_read j j' id (bull.get_state j id) e in
      removed-clear j j' id o (laws.reads j id o read) rest

  finished-keeps :
      (j j' : J) (id k : ℕ)
      → remove_finished_job bull max_attempts j id ≡ (j', true)
      → is_clear (jobs j k) ≡ true
      → is_clear (jobs j' k) ≡ true
  unfolding remove_finished_job
  finished-keeps j j' id k e clear = elim (Bool-cases (k == id)) [
    | inl same ↦ rw ((==_iff k id).0 same) (finished-clear j j' id e)
    | inr other ↦
        let (o, read, rest) = has_read j j' id (bull.get_state j id) e in
        rw
          (removed_other j j' id k o rest
            (λ same. absurd (ground (arith, other, (==_iff k id).1 same))))
          clear
  ]

  -- What `enqueue` takes is live afterwards, also where a finished job had its id.
  pub enqueue-live :
      (j j' : J) (item : WorkItem)
      → enqueue bull max_attempts j item ≡ (j', true)
      → is_live (jobs j' item.delivery_id) ≡ true
  unfolding enqueue job_of job_add_options
  enqueue-live j j' item e =
      let (cleared, removed, added) =
        went_through (remove_finished_job bull max_attempts j item.delivery_id)
          (λ c. went c (bull.add c (job_of bull max_attempts item))) j' e in
      let new = taken cleared j' _ added in
      clear-live (jobs cleared item.delivery_id) (jobs j' item.delivery_id)
        (finished-clear j cleared item.delivery_id removed)
        (laws.adds cleared j' (job_of bull max_attempts item) new)
        (λ s held.
          laws.adds_once cleared j' (job_of bull max_attempts item) item.delivery_id s new held)

  abbrev pub has_item : ℕ → List WorkItem → Bool
  has_item k items = any (λ item. item.delivery_id == k) items

  all_taken :
      (j j' : J) (item : WorkItem) (items : List WorkItem)
      → remove_all bull max_attempts j (item ∷ items) ≡ (j', true)
      → (c : J) × (remove_finished_job bull max_attempts j item.delivery_id ≡ (c, true))
        × (remove_all bull max_attempts c items ≡ (j', true))
  unfolding remove_all
  all_taken j j' item items e =
      let first = remove_finished_job bull max_attempts j item.delivery_id in
      let rest = remove_all bull max_attempts first.0 items in
      let both : (first.1 && rest.1) ≡ true = ap (λ r. r.1) e in
      let one : first.1 ≡ true = ground (arith, both) in
      let two : rest.1 ≡ true = ground (arith, both) in
      (
        first.0,
        ap (λ (b : Bool). (first.0, b)) one,
        ap (λ (b : Bool). (rest.0, b)) two ∙ ap (λ (x : J). (x, true)) (ap (λ r. r.0) e),
      )

  remove_all-keeps :
      (j j' : J) (items : List WorkItem) (k : ℕ)
      → remove_all bull max_attempts j items ≡ (j', true)
      → is_clear (jobs j k) ≡ true
      → is_clear (jobs j' k) ≡ true
  unfolding remove_all
  remove_all-keeps j j' [] k e clear = untouched j j' k (jobs j k) e refl clear
  remove_all-keeps j j' (item ∷ items) k e clear =
      let (c, removed, rest) = all_taken j j' item items e in
      remove_all-keeps c j' items k rest (finished-keeps j c item.delivery_id k removed clear)

  remove_all-clear :
      (j j' : J) (items : List WorkItem) (k : ℕ)
      → remove_all bull max_attempts j items ≡ (j', true)
      → has_item k items ≡ true
      → is_clear (jobs j' k) ≡ true
  unfolding remove_all
  remove_all-clear j j' [] k e h = absurd (ground arith)
  remove_all-clear j j' (item ∷ items) k e h =
      let (c, removed, rest) = all_taken j j' item items e in
      elim (Bool-cases (item.delivery_id == k)) [
        | inl same ↦ remove_all-keeps c j' items k rest (
            subst (λ (i : ℕ). is_clear (jobs c i) ≡ true) ((==_iff item.delivery_id k).0 same)
              (finished-clear j c item.delivery_id removed))
        | inr other ↦ remove_all-clear c j' items k rest (ground (arith, h, other))
      ]

  names-job_of :
      (items : List WorkItem) (k : ℕ)
      → any (names k) (map (job_of bull max_attempts) items) ≡ has_item k items
  unfolding job_of job_add_options
  names-job_of [] k = refl
  names-job_of (item ∷ items) k = ap (λ b. item.delivery_id == k || b) (names-job_of items k)

  -- What `enqueueBulk` takes is live afterwards, each item of it.
  pub enqueue_bulk-live :
      (j j' : J) (items : List WorkItem) (k : ℕ)
      → enqueue_bulk bull max_attempts j items ≡ (j', true)
      → has_item k items ≡ true
      → is_live (jobs j' k) ≡ true
  unfolding enqueue_bulk
  enqueue_bulk-live j j' [] k e h = absurd (ground arith)
  enqueue_bulk-live j j' (item ∷ items) k e h =
      let (c, removed, added) =
        went_through (remove_all bull max_attempts j (item ∷ items))
          (λ c. went c (bull.add_bulk c (map (job_of bull max_attempts) (item ∷ items)))) j' e in
      let new = taken c j' _ added in
      clear-live (jobs c k) (jobs j' k) (remove_all-clear j c (item ∷ items) k removed h)
        (laws.adds_bulk c j' _ k new (names-job_of (item ∷ items) k ∙ h))
        (λ s held. laws.adds_bulk_once c j' _ k s new held)

  remove_finished_job_absent :
      (j : J) (id : ℕ) (o : Option (Option JobState))
      → ((s : Option JobState) → o ≡ some s → s ≡ none)
      → (remove_if_finished bull max_attempts j id o).0 ≡ j
  unfolding remove_if_finished
  remove_finished_job_absent j id none absent = refl
  remove_finished_job_absent j id (some s) absent = rw (absent s refl) refl

  remove_all_absent :
      (j : J) (items : List WorkItem)
      → ((k : ℕ) → has_item k items ≡ true → jobs j k ≡ none)
      → (remove_all bull max_attempts j items).0 ≡ j
  unfolding remove_all remove_finished_job
  remove_all_absent j [] absent = refl
  remove_all_absent j (item ∷ items) absent =
      rw
        (remove_finished_job_absent j item.delivery_id (bull.get_state j item.delivery_id) (λ s e.
          sym (laws.reads j item.delivery_id s e)
          ∙ absent item.delivery_id (ground (arith, ==_iff item.delivery_id item.delivery_id))))
        (remove_all_absent j items (λ k h. absent k (ground (arith, h))))

  undone :
      (p : J × Bool) (jobs_of : J → Option J)
      → ((p >>= λ c. went c (jobs_of c)).1 ≡ false)
      → (p >>= λ c. went c (jobs_of c)).0 ≡ p.0
  undone (j, false) f e = refl
  undone (j, true) f e = unadded (f j) e
    where
      unadded : (o : Option J) → (went j o).1 ≡ false → (went j o).0 ≡ j
      unadded none e = refl
      unadded (some k) e = absurd (ground (arith, e))

  -- An `enqueueBulk` that throws, with no job there for any of its items, leaves the queue as it was. So a
  -- fan-out, whose Deliveries are new, sees all of its items enqueued or none.
  enqueue_bulk_all_or_none :
      (j : J) (items : List WorkItem)
      → ((k : ℕ) → has_item k items ≡ true → jobs j k ≡ none)
      → (enqueue_bulk bull max_attempts j items).1 ≡ false
      → (enqueue_bulk bull max_attempts j items).0 ≡ j
  unfolding enqueue_bulk
  enqueue_bulk_all_or_none j [] absent e = refl
  enqueue_bulk_all_or_none j (item ∷ items) absent e =
      undone (remove_all bull max_attempts j (item ∷ items))
        (λ c. bull.add_bulk c (map (job_of bull max_attempts) (item ∷ items))) e
      ∙ remove_all_absent j (item ∷ items) absent
