-- ===== src/Witnesses/FanOuts.antt =====
-- Fan-outs at concrete inputs, over a queue that is a list with room for a given number of items.
use webhook_broadcast.Base.{
  ℕ, ◌+◌, none, some, List, [], ◌∷◌, ◌++◌, ◌≡◌, refl, length, leb, true, false, if◌then◌else◌,
}
use webhook_broadcast.Store.Rows.{BroadcastRow}
use webhook_broadcast.Store.Deliveries.{create_deliveries_for_broadcast}
use webhook_broadcast.Store.Endpoints.{list_enabled_endpoints_by_channel}
use webhook_broadcast.Store.Broadcasts.{insert_broadcast}
use webhook_broadcast.FanOut.{
  WorkItem, DeliveryQueue, accept_broadcast, fan_out_broadcast, accepted, not_queued,
}
use webhook_broadcast.FanOut.Laws.{
  IsAccepted, fan_out_broadcast_rollback, fan_out_broadcast-IsAccepted,
}
use webhook_broadcast.Witnesses.Broadcasts.{integral}
use webhook_broadcast.Witnesses.Data.{db, broadcast}

-- A queue that takes items while it has no more than `room`.
abbrev pub bounded : ℕ → DeliveryQueue (List WorkItem)
bounded room = record {
  enqueue = λ q item. if leb (length q + 1) room then (q ++ item ∷ [], true) else (q, false);
  enqueue_bulk = λ q items. if leb (length q + length items) room then some (q ++ items) else none;
}

abbrev new_broadcast : BroadcastRow
new_broadcast = record broadcast { id = 8; received_at = 300 }

abbrev pub uuid : ℕ → ℕ
uuid k = 1000 + k

refused : (fan_out_broadcast (bounded 0) uuid db [] new_broadcast 77).2 ≡ not_queued
unfolding fan_out_broadcast accept_broadcast create_deliveries_for_broadcast insert_broadcast
    list_enabled_endpoints_by_channel
refused = refl

fan_out_broadcast_rollback_example :
    ((fan_out_broadcast (bounded 0) uuid db [] new_broadcast 77).0 ≡ db)
    × ((fan_out_broadcast (bounded 0) uuid db [] new_broadcast 77).1 ≡ [])
fan_out_broadcast_rollback_example =
    fan_out_broadcast_rollback (bounded 0) uuid db [] new_broadcast 77 refl integral refused

taken : (fan_out_broadcast (bounded 5) uuid db [] new_broadcast 77).2 ≡ accepted new_broadcast 77 1
unfolding fan_out_broadcast accept_broadcast create_deliveries_for_broadcast insert_broadcast
    list_enabled_endpoints_by_channel
taken = refl

fan_out_broadcast-IsAccepted_example :
    IsAccepted
      (bounded 5)
      db
      []
      new_broadcast
      77
      1
      (fan_out_broadcast (bounded 5) uuid db [] new_broadcast 77).0
      (fan_out_broadcast (bounded 5) uuid db [] new_broadcast 77).1
fan_out_broadcast-IsAccepted_example =
    fan_out_broadcast-IsAccepted (bounded 5) uuid db [] new_broadcast 77 1 taken
