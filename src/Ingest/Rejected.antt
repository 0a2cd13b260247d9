-- ===== src/Ingest/Rejected.antt =====
-- Requests that are not accepted.
use webhook_broadcast.Base.{ℕ, false, Option, none, some, ◌≡◌, ◌≢◌, refl, Text, any, ◌==◌}
use webhook_broadcast.Store.Rows.{Database, ChannelRow}
use webhook_broadcast.Store.Broadcasts.Cascade.{IsIntegral}
use webhook_broadcast.FanOut.{
  DeliveryQueue, FanOutResult, accepted, not_queued, not_stored, is_accepted, fan_out_broadcast,
}
use webhook_broadcast.FanOut.Laws.{fan_out_broadcast_untouched}
use webhook_broadcast.Ingest.{
  IngestConfig, IngestRequest, IngestResponse, ingested, Gate, refused, admitted, gate, ReadResult,
  read_body, over_limit, read_failed, receive, ingest_broadcast, answer_fan_out, answer_body,
  answer_gate, ingest,
}

module _ {Q : Type 0} (queue : DeliveryQueue Q) (hash : Text → Text) (config : IngestConfig)
    (uuid : ℕ → ℕ) (id now request_id : ℕ) (db : Database) (q : Q) (r : IngestRequest) where
  abbrev Untouched : Database × Q × IngestResponse → Type 0
  Untouched a = (a.0 ≡ db) × (a.1 ≡ q)

  fan_out-Untouched :
      (c : ChannelRow) (p : Database × Q × FanOutResult)
      → (is_accepted p.2 ≡ false → (p.0 ≡ db) × (p.1 ≡ q))
      → ((s k : ℕ)
          → (answer_fan_out queue hash config uuid id now request_id db q r c p).2 ≢ ingested s k)
      → Untouched (answer_fan_out queue hash config uuid id now request_id db q r c p)
  unfolding answer_fan_out
  fan_out-Untouched c (db', q', accepted b x n) h not_in = absurd (not_in _ b.id refl)
  fan_out-Untouched c (db', q', not_queued) h not_in = h refl
  fan_out-Untouched c (db', q', not_stored) h not_in = h refl

  module _ (unused : any (λ b. b.id == id) db.broadcasts ≡ false) (integral : IsIntegral db) where
    body-Untouched :
        (c : ChannelRow) (o : Option ReadResult)
        → ((s k : ℕ)
            → (answer_body queue hash config uuid id now request_id db q r c o).2 ≢ ingested s k)
        → Untouched (answer_body queue hash config uuid id now request_id db q r c o)
    unfolding answer_body ingest_broadcast
    body-Untouched c none not_in = (refl, refl)
    body-Untouched c (some over_limit) not_in = (refl, refl)
    body-Untouched c (some read_failed) not_in = (refl, refl)
    body-Untouched c (some (read_body body)) not_in =
        let b = ingest_broadcast config r c id now body in
        fan_out-Untouched c (fan_out_broadcast queue uuid db q b request_id)
          (fan_out_broadcast_untouched queue uuid db q b request_id unused integral) not_in

    gate-Untouched :
        (g : Gate)
        → ((s k : ℕ)
            → (answer_gate queue hash config uuid id now request_id db q r g).2 ≢ ingested s k)
        → Untouched (answer_gate queue hash config uuid id now request_id db q r g)
    unfolding answer_gate
    gate-Untouched (refused response) not_in = (refl, refl)
    gate-Untouched (admitted c) not_in = body-Untouched c (receive config r) not_in

    -- A request that is not accepted, whether for its slug, its token, its length, its body, the
    -- transaction or the queue,
    -- leaves database and queue exactly as they were, provided that the id drawn for the Broadcast is new
    -- and no row dangled before.
    pub ingest_untouched :
        ((s k : ℕ) → (ingest queue hash config uuid id now request_id db q r).2 ≢ ingested s k)
        → ((ingest queue hash config uuid id now request_id db q r).0 ≡ db)
          × ((ingest queue hash config uuid id now request_id db q r).1 ≡ q)
    unfolding ingest
    ingest_untouched not_in = gate-Untouched (gate hash db r.slug r.authorization) not_in
