-- ===== src/Witnesses/Workers.antt =====
-- Workers at concrete states.
use webhook_broadcast.Base.{
  Bool, ℕ, ◌≡◌, ◌&&◌, ◌==◌, true, false, none, some, [], ◌∷◌, refl, arith, inl,
}
use webhook_broadcast.Store.Rows.{in_progress, DeliveryStatus, pending, status_eq}
use webhook_broadcast.Store.Deliveries.{
  DeliveryForProcessing, get_delivery_for_processing, find_delivery, mark_delivery_in_progress,
}
use webhook_broadcast.Store.Deliveries.Lookup.{found}
use webhook_broadcast.Worker.{crashed, is_open, process_delivery}
use webhook_broadcast.Request.{
  DbCall, recording, resetting, disabling, fetch_request, Surroundings, answer,
}
use webhook_broadcast.Worker.Verdict.{Verdict, delivered, Verdict-total}
use webhook_broadcast.Worker.Settle.{Settled}
use webhook_broadcast.Worker.Process.{
  answered, process_delivery-Settled, process_delivery_unpersisted,
}
use webhook_broadcast.Worker.System.{System, Reach, here, next, read, claim}
use webhook_broadcast.Worker.System.Invariant.{Inv, covers}
use webhook_broadcast.Worker.System.Preserved.{Reach-Inv}
use webhook_broadcast.Worker.System.Terminal.{After, Reach-Moves}
use webhook_broadcast.Worker.System.Ends.{IsOver, deliver, deliver-IsOver}
use webhook_broadcast.Witnesses.Data.{
  db, delivery, endpoint, broadcast, channel, config, answering, world,
}

abbrev held : DeliveryForProcessing
held = record {
  id = 5;
  endpoint_id = 2;
  status = pending;
  attempt_count = 0;
  url = endpoint.url;
  endpoint_headers = endpoint.headers;
  timeout_ms = none;
  content_type = broadcast.content_type;
  body = broadcast.body;
  broadcast_headers = broadcast.headers;
  forward_headers = channel.forward_headers;
}

held_read : get_delivery_for_processing db 5 ≡ some held
unfolding get_delivery_for_processing find_delivery
held_read = refl

held_is_open : is_open pending ≡ true
unfolding status_eq
held_is_open = refl

absent : get_delivery_for_processing db 9 ≡ none
unfolding get_delivery_for_processing find_delivery
absent = refl

verdict : Verdict 3 0 (answered config (answering 200) held).status_code DeliveryStatus.succeeded
unfolding answer
verdict = delivered 200 (omega arith) (omega arith)

process_delivery-Settled_example :
    Settled config held DeliveryStatus.succeeded (process_delivery config (answering 200) 5 world)
    × ((process_delivery config (answering 200) 5 world).0.sent ≡ fetch_request config held ∷ [])
process_delivery-Settled_example =
    process_delivery-Settled config (answering 200) 5 world held held_read (refl, tt) held_is_open
      refl refl DeliveryStatus.succeeded (omega arith) (λ _. refl) refl verdict

-- A database that is gone once the answer is there.
abbrev gone_after : DbCall → Bool
gone_after recording = true
gone_after resetting = true
gone_after disabling = true
gone_after _ = false

abbrev cut_off : Surroundings
cut_off = record (answering 503) { fails = gone_after }

process_delivery_unpersisted_example :
    let after = process_delivery config cut_off 5 world in
    (found
        (λ d. status_eq d.status in_progress && d.attempt_count == 0)
        (find_delivery after.0.db 5)
      ≡ true)
    × (after.0.db.attempts ≡ [])
    × (after.1 ≡ crashed)
process_delivery_unpersisted_example =
    process_delivery_unpersisted config cut_off 5 world held held_read (refl, tt) held_is_open refl
      refl (omega arith) (inl refl)

abbrev start : System
start = record { db = db; held = [] }

start-Inv : Inv start
unfolding find_delivery
start-Inv = record { keys = (refl, tt); fits = tt; attempts = λ id n. counted id n }
  where
    counted : (id n : ℕ) → false ≡ covers (find_delivery db id) n
    counted id n = ground arith

abbrev reading : System
reading = record { db = db; held = held ∷ [] }

-- Two workers that read the Delivery.
two_readers : Reach start (record { db = db; held = held ∷ held ∷ [] })
two_readers =
    next (next here (read 5 held held_read held_is_open)) (read 5 held held_read held_is_open)

Reach-Inv_example : Inv (record { db = db; held = held ∷ held ∷ [] })
Reach-Inv_example = Reach-Inv two_readers start-Inv

there : find_delivery db 5 ≡ some delivery
unfolding find_delivery
there = refl

Reach-Moves_example : After delivery (find_delivery (mark_delivery_in_progress db 5 200).0 5)
Reach-Moves_example = Reach-Moves 5 delivery start-Inv two_readers (claim 5 200) there

Verdict-total_example : (status : DeliveryStatus) × Verdict 3 2 (some 503) status
Verdict-total_example = Verdict-total 3 2 (some 503)

-- Two answers that may recover, and then one that is final.
deliver-IsOver_example :
    IsOver 5 (deliver config 5 (answering 503 ∷ answering 429 ∷ answering 200 ∷ []) world)
deliver-IsOver_example =
    deliver-IsOver config 5 (answering 503 ∷ answering 429 ∷ answering 200 ∷ []) world held
      start-Inv
      (omega arith, (λ _. refl), (omega arith, (λ _. refl), (omega arith, (λ _. refl), tt)))
      held_read (omega arith) (omega arith)
