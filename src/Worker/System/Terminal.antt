-- ===== src/Worker/System/Terminal.antt =====
-- Where the status of a Delivery can go, whoever acts on it.
use webhook_broadcast.Base.{
  ℕ, suc, ◌+◌, Bool, true, not, ◌&&◌, Option, none, some, ◌≡◌, refl, sym, subst, ◌∙◌, ap, arith,
  ◌==◌, Bool-cases, inl, inr,
}
use mathlib.Core.Option
use webhook_broadcast.Store.Rows.{
  DeliveryRow, DeliveryStatus, pending, in_progress, dead_lettered, status_eq, status_eq_iff,
}
use webhook_broadcast.Store.Deliveries.{
  Completion, completed, find_delivery, mark_delivery_in_progress,
  reset_in_progress_delivery_to_pending, retry_dead_lettered_delivery,
}
use webhook_broadcast.Store.Deliveries.Lookup.{
  moved, completed_by, find_delivery_complete, find_delivery-id,
}
use webhook_broadcast.Store.Deliveries.Moves.{
  find_delivery-mark, find_delivery-reset, find_delivery-retry,
}
use webhook_broadcast.Worker.{completion, is_open}
use webhook_broadcast.Worker.Verdict.{auto_disable-deliveries}
use webhook_broadcast.Worker.System.{
  System, Step, Reach, read, claim, complete, reset, leave, auto_disable, retry, fan_out, sweep,
  remove_endpoint,
}
use webhook_broadcast.Worker.System.Invariant.{AllFit, Inv, AllFit-remove}
use webhook_broadcast.Worker.System.Completed.{complete-current}
use webhook_broadcast.Worker.System.Deletion.{
  kept, outlives, delete_broadcasts-eq, delete_endpoint-eq, find_delivery-filter,
}
use webhook_broadcast.Worker.System.Growth.{find_delivery-fan_out}
use webhook_broadcast.Worker.System.Preserved.{Reach-Inv, find_delivery_of_deliveries}

-- What one step does to one row, by its statuses and counts before and after.
pub data Moves : DeliveryStatus → ℕ → DeliveryStatus → ℕ → Type 0 where
  stays : (status : DeliveryStatus) (n : ℕ) → Moves status n status n
  claims : (n : ℕ) → Moves pending n in_progress n
  releases : (n : ℕ) → Moves in_progress n pending n
  revives : (n : ℕ) → Moves dead_lettered n pending n
  -- an Attempt is recorded
  answers :
      (before after : DeliveryStatus) (n : ℕ) → is_open before ≡ true → Moves before n after (suc n)

-- The row after a step, or none where it was deleted.
abbrev pub After : DeliveryRow → Option DeliveryRow → Type 0
After d none = Unit
After d (some e) = Moves d.status d.attempt_count e.status e.attempt_count

After-same : (d : DeliveryRow) (o : Option DeliveryRow) → o ≡ some d → After d o
After-same d o e = subst (After d) (sym e) (stays d.status d.attempt_count)

After-moved :
    (from to : DeliveryStatus) (id at : ℕ) (d : DeliveryRow)
    → ((n : ℕ) → Moves from n to n)
    → After d (some (moved from to id at d))
After-moved from to id at d m = elim (Bool-cases (d.id == id && status_eq d.status from)) [
  | inl e ↦ rw e (
      subst (λ s. Moves s d.attempt_count to d.attempt_count)
        (sym ((status_eq_iff d.status from).0 (ground (arith, e)))) (m d.attempt_count))
  | inr e ↦ rw e (stays d.status d.attempt_count)
]

-- A statement that moves rows between two statuses.
After-of_move :
    (from to : DeliveryStatus) (id at : ℕ) (o p : Option DeliveryRow) (d : DeliveryRow)
    → ((n : ℕ) → Moves from n to n)
    → o ≡ some d
    → p ≡ Option.map (moved from to id at) o
    → After d p
After-of_move from to id at o p d m there lookup =
    subst (After d) (sym (lookup ∙ ap (Option.map (moved from to id at)) there))
      (After-moved from to id at d m)

After-kept : (q : DeliveryRow → Bool) (d : DeliveryRow) → After d (kept q (some d))
After-kept q d = elim (Bool-cases (q d)) [
  | inl e ↦ rw e (stays d.status d.attempt_count)
  | inr e ↦ rw e tt
]

After-of_filter :
    (q : DeliveryRow → Bool) (o p : Option DeliveryRow) (d : DeliveryRow)
    → o ≡ some d
    → p ≡ kept q o
    → After d p
After-of_filter q o p d there lookup =
    subst (After d) (sym (lookup ∙ ap (kept q) there)) (After-kept q d)

After-completed :
    (c : Completion) (d : DeliveryRow)
    → (d.id ≡ c.delivery_id → (c.n ≡ suc d.attempt_count) × (is_open d.status ≡ true))
    → After d (some (completed_by c d))
unfolding completed
After-completed c d met = elim (Bool-cases (d.id == c.delivery_id)) [
  | inl e ↦
      let (count, opened) = met (ground (arith, e)) in
      rw e (rw count (answers d.status c.status d.attempt_count opened))
  | inr e ↦ rw e (stays d.status d.attempt_count)
]

-- One step moves each row along an edge of `Moves`, or deletes it.
Step-Moves :
    {w v : System} (id : ℕ) (d : DeliveryRow)
    → Step w v
    → Inv w
    → find_delivery w.db id ≡ some d
    → After d (find_delivery v.db id)
unfolding completion
Step-Moves {w} id d (read _ r e _) inv there = After-same d (find_delivery w.db id) there
Step-Moves {w} id d (claim i at) inv there =
    After-of_move pending in_progress i at (find_delivery w.db id)
      (find_delivery (mark_delivery_in_progress w.db i at).0 id) d claims there
      (find_delivery-mark w.db i at id inv.keys)
Step-Moves {w} id d (complete front rear r s a status db held e) inv there =
    let fit = (AllFit-remove w.db front rear r (subst (AllFit w.db) held inv.fits)).1 in
    let c = completion s r a status in
    let (x, at_c, count, opened) =
      complete-current w db s.attempt_id r.attempt_count c inv fit refl e in
    subst (After d)
      (sym (
        find_delivery_complete w.db db s.attempt_id c id e
        ∙ ap (Option.map (completed_by c)) there))
      (After-completed c d (λ same.
        meets x d r.attempt_count
          (sym at_c ∙ ap (find_delivery w.db) (sym same ∙ find_delivery-id w.db id there) ∙ there)
          count opened))
  where
    meets :
        (x d : DeliveryRow) (n : ℕ)
        → some x ≡ some d
        → x.attempt_count ≡ n
        → is_open x.status ≡ true
        → (n + 1 ≡ suc d.attempt_count) × (is_open d.status ≡ true)
    meets x d n same count opened = (ground (arith, same), ground (arith, same))
Step-Moves {w} id d (reset i at) inv there =
    After-of_move in_progress pending i at (find_delivery w.db id)
      (find_delivery (reset_in_progress_delivery_to_pending w.db i at).0 id) d releases there
      (find_delivery-reset w.db i at id).0
Step-Moves {w} id d (leave _ _ _ _) inv there = After-same d (find_delivery w.db id) there
Step-Moves {w} {v} id d (auto_disable i after now) inv there =
    After-same d (find_delivery v.db id) (
      find_delivery_of_deliveries w.db v.db id (auto_disable-deliveries w.db i after now).0 ∙ there)
Step-Moves {w} id d (retry i at) inv there =
    After-of_move dead_lettered pending i at (find_delivery w.db id)
      (find_delivery (retry_dead_lettered_delivery w.db i at).0 id) d revives there
      (find_delivery-retry w.db i at id).0
Step-Moves {w} {v} id d (fan_out uuid b new) inv there =
    After-same d (find_delivery v.db id) (find_delivery-fan_out uuid w b new id ∙ rw there refl)
Step-Moves {w} {v} id d (sweep doomed) inv there =
    After-of_filter (outlives doomed w.db) (find_delivery w.db id) (find_delivery v.db id) d there (
      find_delivery-filter (outlives doomed w.db) w.db v.db id inv.keys
        (delete_broadcasts-eq doomed w.db).0)
Step-Moves {w} {v} id d (remove_endpoint channel_id i) inv there =
    elim (delete_endpoint-eq w.db channel_id i) [
      | inl same ↦
          After-same d (find_delivery v.db id) (ap (λ db. find_delivery db id) same ∙ there)
      | inr (rows, _) ↦
          After-of_filter (λ x. not (x.endpoint_id == i)) (find_delivery w.db id)
            (find_delivery v.db id) d there
            (find_delivery-filter (λ x. not (x.endpoint_id == i)) w.db v.db id inv.keys rows)
    ]

-- In a reachable state, whatever step is taken next, by a worker, an operator, a fan-out or a delete, a
-- Delivery is deleted, or keeps its status and count, or is claimed, released, retried from
-- `dead_lettered`, or gets one more Attempt, the last only from `pending` or `in_progress`. So a stale
-- worker never overwrites a terminal status.
pub Reach-Moves :
    {w v u : System} (id : ℕ) (d : DeliveryRow)
    → Inv w
    → Reach w v
    → Step v u
    → find_delivery v.db id ≡ some d
    → After d (find_delivery u.db id)
Reach-Moves id d inv run step there = Step-Moves id d step (Reach-Inv run inv) there
