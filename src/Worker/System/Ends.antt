-- ===== src/Worker/System/Ends.antt =====
-- A Delivery that is tried again and again.
use webhook_broadcast.Base.{
  ℕ, suc, ◌+◌, ◌≤◌, ◌<◌, ◌≡◌, ◌≢◌, ◌⊎◌, inl, inr, sym, ap, subst, ◌∙◌, arith, true, false, ◌&&◌,
  Option, none, some, List, [], ◌∷◌, length, ◌==◌, any, Bool-cases, Option-cases,
}
use webhook_broadcast.Store.Rows.{DeliveryStatus, status_eq, status_eq_iff}
use webhook_broadcast.Store.Deliveries.{
  DeliveryForProcessing, get_delivery_for_processing, find_delivery, is_attempt,
}
use webhook_broadcast.Store.Deliveries.Lookup.{found, find_delivery-id}
use webhook_broadcast.Retry.{random_scale}
use webhook_broadcast.Request.{Config, Surroundings, max_attempts_of, reading, claiming}
use webhook_broadcast.Worker.{World, is_open, process_delivery}
use webhook_broadcast.Worker.Verdict.{Verdict, delivered, refused, exhausted, again, Verdict-total}
use webhook_broadcast.Worker.Settle.{Settled, Works}
use webhook_broadcast.Worker.Process.{
  answered, get_delivery-row, process_delivery_idle, process_delivery-Settled,
}
use webhook_broadcast.Worker.System.Invariant.{Inv}
use webhook_broadcast.Worker.System.Preserved.{Reach-Inv}
use webhook_broadcast.Worker.System.Run.{seen, process_delivery-Reach}

-- One run of `processDelivery` after the other, as the queue makes them.
unfoldable pub deliver : Config → ℕ → List Surroundings → World → World
deliver c id [] w = w
deliver c id (s ∷ ss) w = deliver c id ss (process_delivery c s id w).0

-- The Delivery is gone, or has a terminal status.
abbrev pub IsOver : ℕ → World → Type 0
IsOver id w =
    (get_delivery_for_processing w.db id ≡ none)
    ⊎ ((r : DeliveryForProcessing) × (get_delivery_for_processing w.db id ≡ some r)
        × (is_open r.status ≡ false))

-- The database takes each statement of the runs.
abbrev pub AllRecorded : List Surroundings → Type 0
AllRecorded [] = Unit
AllRecorded (s ∷ ss) = (s.random < random_scale) × Works s × AllRecorded ss

-- The runs left are enough for a Delivery that is not over.
abbrev Enough : Config → ℕ → World → ℕ → Type 0
Enough c id w n =
    (r : DeliveryForProcessing)
    → get_delivery_for_processing w.db id ≡ some r
    → is_open r.status ≡ true
    → (0 < n) × (max_attempts_of c ≤ r.attempt_count + n)

open_verdict :
    {max n : ℕ} {code : Option ℕ} {status : DeliveryStatus}
    → Verdict max n code status
    → is_open status ≡ true
    → n + 1 < max
unfolding status_eq
open_verdict (delivered _ _ _) h = absurd (ground arith)
open_verdict (refused _ _ _) h = absurd (ground arith)
open_verdict (exhausted _ _ _) h = absurd (ground arith)
open_verdict (again _ _ less) h = less

over-closed :
    (id : ℕ) (w : World)
    → IsOver id w
    → (r : DeliveryForProcessing) → get_delivery_for_processing w.db id ≡ some r
    → is_open r.status ≢ true
over-closed id w (inl gone) r there opened = absurd (ground (arith, sym gone ∙ there))
over-closed id w (inr (q, is_q, closed)) r there opened =
    let same : q ≡ r = ground (arith, sym is_q ∙ there) in
    absurd
      (cc (subst (λ (x : DeliveryForProcessing). is_open x.status ≡ false) same closed, opened))

module _ (c : Config) (id : ℕ) where
  -- What a recorded run leaves to do.
  run-Enough :
      (s : Surroundings) (w : World) (r : DeliveryForProcessing) (status : DeliveryStatus) (n : ℕ)
      → get_delivery_for_processing w.db id ≡ some r
      → max_attempts_of c ≤ r.attempt_count + suc n
      → Verdict (max_attempts_of c) r.attempt_count (answered c s r).status_code status
      → Settled c r status (process_delivery c s id w)
      → Enough c id (process_delivery c s id w).0 n
  run-Enough s w r status n there enough v settled r' there' opened =
      let (d, found_d, same_id, _, _) = get_delivery-row w.db id r there in
      let (d', found_d', same_id', same_status, same_count) =
        get_delivery-row (process_delivery c s id w).0.db id r' there' in
      let at_id : r.id ≡ id = same_id ∙ find_delivery-id w.db id found_d in
      let row =
        subst
          (λ (i : ℕ).
            found (λ d. status_eq d.status status && d.attempt_count == r.attempt_count + 1)
              (find_delivery (process_delivery c s id w).0.db i)
            ≡ true)
          at_id settled.row in
      let facts : (d'.status ≡ status) × (d'.attempt_count ≡ r.attempt_count + 1) = (
        ground (arith, row, found_d', status_eq_iff d'.status status),
        ground (arith, row, found_d'),
      ) in
      let less =
        open_verdict v
          (subst (λ (t : DeliveryStatus). is_open t ≡ true) (same_status ∙ facts.0) opened) in
      (omega (arith, less, enough), omega (arith, less, enough, same_count, facts.1))

  fresh_attempt :
      (w : World) (r : DeliveryForProcessing)
      → Inv (seen w [])
      → get_delivery_for_processing w.db id ≡ some r
      → any (is_attempt id (r.attempt_count + 1)) w.db.attempts ≡ false
  fresh_attempt w r inv there =
      let (d, found_d, _, _, same_count) = get_delivery-row w.db id r there in
      inv.attempts id (r.attempt_count + 1) ∙ ground (arith, found_d, same_count)

  deliver-ends :
      (ss : List Surroundings) (w : World)
      → Inv (seen w [])
      → AllRecorded ss
      → Enough c id w (length ss)
      → IsOver id (deliver c id ss w)
  unfolding deliver
  deliver-ends [] w inv recorded enough =
      elim (Option-cases (get_delivery_for_processing w.db id)) [
        | inl gone ↦ inl gone
        | inr (r, there) ↦ elim (Bool-cases (is_open r.status)) [
          | inl opened ↦ absurd (omega (arith, (enough r there opened).0))
          | inr closed ↦ inr (r, there, closed)
        ]
      ]
  deliver-ends (s ∷ ss) w inv (random, works, recorded) enough =
      deliver-ends ss (process_delivery c s id w).0
        (Reach-Inv (process_delivery-Reach c s id w) inv) recorded
        (elim (Option-cases (get_delivery_for_processing w.db id)) [
          | inl gone ↦ idle (inl gone)
          | inr (r, there) ↦ elim (Bool-cases (is_open r.status)) [
            | inr closed ↦ idle (inr (r, there, closed))
            | inl opened ↦
                let (status, v) =
                  Verdict-total (max_attempts_of c) r.attempt_count (answered c s r).status_code in
                run-Enough s w r status (length ss) there (enough r there opened).1 v (
                  (process_delivery-Settled c s id w r there inv.keys opened (works reading)
                    (works claiming) status random works (fresh_attempt w r inv there) v).0)
          ]
        ])
    where
      idle : IsOver id w → Enough c id (process_delivery c s id w).0 (length ss)
      idle over r' there' opened =
          let same = ap (λ p. p.0) (process_delivery_idle c s id w over (works reading)) in
          absurd (
            over-closed id w over r'
              (subst (λ (v : World). get_delivery_for_processing v.db id ≡ some r') same there')
              opened)

  -- If the database takes each statement of the runs, then whatever the Endpoint answers, as many runs as the
  -- Delivery has Attempts left, and at least one, leave it in a terminal status, or gone.
  pub deliver-IsOver :
      (ss : List Surroundings) (w : World) (r : DeliveryForProcessing)
      → Inv (seen w [])
      → AllRecorded ss
      → get_delivery_for_processing w.db id ≡ some r
      → 0 < length ss
      → max_attempts_of c ≤ r.attempt_count + length ss
      → IsOver id (deliver c id ss w)
  deliver-IsOver ss w r inv recorded there some_run enough =
      deliver-ends ss w inv recorded (λ q is_q _. (
        some_run,
        (let same : r ≡ q = ground (arith, sym there ∙ is_q) in
            subst (λ (x : DeliveryForProcessing). max_attempts_of c ≤ x.attempt_count + length ss)
              same enough),
      ))
