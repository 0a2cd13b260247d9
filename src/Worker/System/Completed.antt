-- ===== src/Worker/System/Completed.antt =====
-- `completeDelivery` among other workers: it meets the row that its worker read, or is refused.
use webhook_broadcast.Base.{
  ℕ, ◌+◌, ◌≤◌, true, false, ◌&&◌, ◌||◌, Option, none, some, List, [], ◌∷◌, ◌≡◌, refl, sym, subst,
  ◌∙◌, ap, arith, ◌==◌, leb, Option-cases, inl, inr,
}
use mathlib.Core.Option
use webhook_broadcast.Store.Rows.{Database, DeliveryRow}
use webhook_broadcast.Store.Deliveries.{
  DeliveryForProcessing, Completion, complete_delivery, completed, find_delivery,
}
use webhook_broadcast.Store.Deliveries.Lookup.{
  completed_by, find_delivery_complete, complete-HasKeys, attempts_complete, find_delivery-id,
}
use webhook_broadcast.Worker.{is_open}
use webhook_broadcast.Worker.System.{System}
use webhook_broadcast.Worker.System.Invariant.{Fits, AllFit, covers, Inv}

complete_delivery-there :
    (db db' : Database) (attempt_id : ℕ) (c : Completion)
    → complete_delivery db attempt_id c ≡ some db'
    → (d : DeliveryRow) × (find_delivery db c.delivery_id ≡ some d)
unfolding complete_delivery
complete_delivery-there db db' attempt_id c e =
    elim (Option-cases (find_delivery db c.delivery_id)) [
      | inl absent ↦ absurd (ground (arith, e, absent))
      | inr there ↦ there
    ]

-- A completion that goes through meets the row as its worker read it: open, and with that many
-- Attempts.
pub complete-current :
    (w : System) (db : Database) (attempt_id n : ℕ) (c : Completion)
    → Inv w
    → Fits (find_delivery w.db c.delivery_id) n
    → c.n ≡ n + 1
    → complete_delivery w.db attempt_id c ≡ some db
    → (d : DeliveryRow) × (find_delivery w.db c.delivery_id ≡ some d)
      × (d.attempt_count ≡ n)
      × (is_open d.status ≡ true)
complete-current w db attempt_id n c inv fits count e =
    let (d, there) = complete_delivery-there w.db db attempt_id c e in
    let new = (attempts_complete w.db db attempt_id c c.delivery_id c.n e).1 in
    let fit = subst (λ o. Fits o n) there fits in
    let at_most = sym new ∙ inv.attempts c.delivery_id c.n ∙ ap (λ o. covers o c.n) there in
    let same = at_count d.attempt_count c.n n at_most count (fit.0) in
    (d, there, same, fit.1 (sym same))
  where
    at_count : (k m n : ℕ) → false ≡ (leb 1 m && leb m k) → m ≡ n + 1 → n ≤ k → k ≡ n
    at_count k m n h e le = ground arith

-- What the others hold stays older than the row.
Fits-completed :
    (c : Completion) (d : DeliveryRow) (n : ℕ)
    → (d.id ≡ c.delivery_id → c.n ≡ d.attempt_count + 1)
    → Fits (some d) n
    → Fits (some (completed_by c d)) n
unfolding completed
Fits-completed c d n bump f = ground arith

covers-completed :
    (c : Completion) (d : DeliveryRow) (n : ℕ)
    → (d.id ≡ c.delivery_id → c.n ≡ d.attempt_count + 1)
    → covers (some (completed_by c d)) n ≡ (covers (some d) n || c.delivery_id == d.id && c.n == n)
unfolding completed
covers-completed c d n bump = ground arith

abbrev IsNextAfter : ℕ → Option DeliveryRow → Type 0
IsNextAfter n none = ⊥
IsNextAfter n (some d) = n ≡ d.attempt_count + 1

module _ (w : System) (db : Database) (attempt_id : ℕ) (c : Completion) (d : DeliveryRow)
    (inv : Inv w) (there : find_delivery w.db c.delivery_id ≡ some d)
    (count : c.n ≡ d.attempt_count + 1) (e : complete_delivery w.db attempt_id c ≡ some db) where
  -- The row of that id is the one that the completion met.
  bump :
      (j : ℕ) (x : DeliveryRow)
      → find_delivery w.db j ≡ some x
      → x.id ≡ c.delivery_id
      → c.n ≡ x.attempt_count + 1
  bump j x at_j same =
      let at_c = ap (find_delivery w.db) (sym same ∙ find_delivery-id w.db j at_j) ∙ at_j in
      subst (λ o. IsNextAfter c.n o) (sym there ∙ at_c) count

  row-Fits : (j n : ℕ) → Fits (find_delivery w.db j) n → Fits (find_delivery db j) n
  row-Fits j n f = elim (Option-cases (find_delivery w.db j)) [
    | inl absent ↦
        subst (λ o. Fits o n)
          (sym (
            find_delivery_complete w.db db attempt_id c j e
            ∙ ap (Option.map (completed_by c)) absent))
          tt
    | inr (x, at_j) ↦
        subst (λ o. Fits o n)
          (sym (
            find_delivery_complete w.db db attempt_id c j e
            ∙ ap (Option.map (completed_by c)) at_j))
          (Fits-completed c x n (bump j x at_j) (subst (λ o. Fits o n) at_j f))
  ]

  all_fit : (rs : List DeliveryForProcessing) → AllFit w.db rs → AllFit db rs
  all_fit [] f = tt
  all_fit (r ∷ rs) f = (row-Fits r.id r.attempt_count (f.0), all_fit rs (f.1))

  row_covers :
      (j n : ℕ)
      → covers (find_delivery db j) n
        ≡ (covers (find_delivery w.db j) n || c.delivery_id == j && c.n == n)
  row_covers j n = elim (Option-cases (find_delivery w.db j)) [
    | inl absent ↦
        rw (find_delivery_complete w.db db attempt_id c j e)
          (rw absent (ground (arith, there, absent)))
    | inr (x, at_j) ↦
        rw (find_delivery_complete w.db db attempt_id c j e) (
          rw at_j (covers-completed c x n (bump j x at_j) ∙ rw (find_delivery-id w.db j at_j) refl))
  ]

  pub Inv-complete :
      (rest : List DeliveryForProcessing) → AllFit w.db rest → Inv (record { db = db; held = rest })
  Inv-complete rest fits = record {
    keys = complete-HasKeys w.db db attempt_id c e inv.keys;
    fits = all_fit rest fits;
    attempts = λ j n.
        (attempts_complete w.db db attempt_id c j n e).0
        ∙ ap (λ b. b || c.delivery_id == j && c.n == n) (inv.attempts j n)
        ∙ sym (row_covers j n);
  }
