-- ===== src/Ingest/Laws.antt =====
-- What a request leaves behind, and what it takes to be accepted.
use webhook_broadcast.Base.{
  ℕ, ◌≤◌, Bool, true, false, Option, none, some, List, [], ◌∷◌, codes, ◌∙◌, ◌≡◌, ◌⊎◌, refl, sym, ap,
  subst, arith, Text, if◌then◌else◌, length, or_default, inl, inr, Bool-cases, Option-cases,
}
use webhook_broadcast.Store.Rows.{Database, BroadcastRow, ChannelRow, ChannelTokenRow}
use webhook_broadcast.Store.Channels.{get_active_channel_by_slug}
use webhook_broadcast.Store.Tokens.{find_channel_token_by_hash}
use webhook_broadcast.FanOut.{
  DeliveryQueue, FanOutResult, accepted, not_queued, not_stored, is_accepted, fan_out_broadcast,
}
use webhook_broadcast.FanOut.Laws.{
  IsAccepted, fan_out_broadcast-IsAccepted, fan_out_broadcast-result,
}
use webhook_broadcast.Headers.{filter_headers}
use webhook_broadcast.Ingest.Body.{read_from-fits}
use webhook_broadcast.Ingest.{
  over, read_limited_body, concat, IngestConfig, IngestRequest, IngestResponse, ingested,
  invalid_token, missing_token, Gate, refused, admitted, gate, gate_channel, gate_token, gate_found,
  content_type_of, extract_bearer_token, ReadResult, read_body, over_limit, read_failed, receive,
  ingest_broadcast, answer_fan_out, answer_body, answer_gate, ingest,
}

-- Who may send to a Channel: anyone if it is open, and else the holder of one of its tokens.
pub data MaySend (hash : Text → Text) (db : Database) (c : ChannelRow) (authorization : Option Text)
    : Type 0 where
  is_open : c.allow_unauthenticated_ingest ≡ true → MaySend hash db c authorization
  holds_token :
      (token : Text) (row : ChannelTokenRow)
      → extract_bearer_token authorization ≡ some token
      → find_channel_token_by_hash db c.id (hash token) ≡ some row
      → MaySend hash db c authorization

gate_token-admits :
    (hash : Text → Text) (db : Database) (c d : ChannelRow) (authorization bearer : Option Text)
    → extract_bearer_token authorization ≡ bearer
    → gate_token hash db c bearer ≡ admitted d
    → (c ≡ d) × MaySend hash db c authorization
unfolding gate_token gate_found
gate_token-admits hash db c d authorization none b e = absurd (ground arith)
gate_token-admits hash db c d authorization (some token) b e =
    elim (Option-cases (find_channel_token_by_hash db c.id (hash token))) [
      | inl absent ↦ absurd (ground (arith, e, absent))
      | inr (row, there) ↦ (ground (arith, e, there), holds_token token row b there)
    ]

if_admits :
    (b : Bool) (c d : ChannelRow) (g : Gate)
    → (if b then admitted c else g) ≡ admitted d
    → ((b ≡ true) × (c ≡ d)) ⊎ (g ≡ admitted d)
if_admits true c d g e = inl (refl, ground arith)
if_admits false c d g e = inr e

gate_channel-admits :
    (hash : Text → Text) (db : Database) (authorization : Option Text) (o : Option ChannelRow)
    (d : ChannelRow)
    → gate_channel hash db authorization o ≡ admitted d
    → (o ≡ some d) × MaySend hash db d authorization
unfolding gate_channel
gate_channel-admits hash db authorization none d e = absurd (ground arith)
gate_channel-admits hash db authorization (some c) d e =
    elim (if_admits c.allow_unauthenticated_ingest c d
      (gate_token hash db c (extract_bearer_token authorization)) e) [
        | inl (free, same) ↦
            (ap some same, is_open (subst (λ x. x.allow_unauthenticated_ingest ≡ true) same free))
        | inr checked ↦
            let (same, may) =
              gate_token-admits hash db c d authorization (extract_bearer_token authorization) refl
                checked in
            (ap some same, subst (λ x. MaySend hash db x authorization) same may)
      ]

gate_channel-refuses :
    (hash : Text → Text) (db : Database) (authorization : Option Text) (o : Option ChannelRow)
    (response : IngestResponse)
    → gate_channel hash db authorization o ≡ refused response
    → (response ≡ invalid_token) ⊎ (response ≡ missing_token)
unfolding gate_channel gate_token gate_found
gate_channel-refuses hash db authorization none response e = inl (ground arith)
gate_channel-refuses hash db authorization (some c) response e = ground arith

-- The content type as it was sent, or the one of raw bytes.
abbrev pub Typed : Text → Text → Type 0
Typed [] t = t ≡ codes "application/octet-stream"
Typed (c ∷ sent) t = t ≡ c ∷ sent

content_type_of-Typed : (sent : Text) → Typed sent (content_type_of sent)
content_type_of-Typed [] = refl
content_type_of-Typed (c ∷ sent) = refl

broadcast_of : FanOutResult → ℕ → ℕ
broadcast_of (accepted b _ _) k = b.id
broadcast_of _ k = k

ingested_id : IngestResponse → ℕ → ℕ
ingested_id (ingested _ k) _ = k
ingested_id _ k = k

module _ {Q : Type 0} (queue : DeliveryQueue Q) (hash : Text → Text) (config : IngestConfig)
    (uuid : ℕ → ℕ) (id now request_id : ℕ) (db : Database) (q : Q) (r : IngestRequest) where
  -- What an accepted request was, and what it left behind.
  pub record Ingested (status k : ℕ) (result : Database × Q) : Type 0 where
    pub channel : ChannelRow
    pub active : get_active_channel_by_slug db r.slug ≡ some channel
    pub may_send : MaySend hash db channel r.authorization
    pub body : List ℕ
    pub received : receive config r ≡ some (read_body body)
    pub within : length body ≤ config.max_body_bytes
    pub answered : status ≡ or_default channel.ingest_success_status config.success_status
    pub count : ℕ
    -- what was stored
    pub stored : BroadcastRow
    pub named : (stored.id ≡ id) × (k ≡ id)
    pub of_channel : stored.channel_id ≡ channel.id
    pub at_time : stored.received_at ≡ now
    pub typed : Typed r.content_type stored.content_type
    pub whole : stored.body ≡ body
    pub kept :
        stored.headers ≡ filter_headers r.headers config.header_allowlist config.header_denylist
    pub fanned_out : IsAccepted queue db q stored request_id count result.0 result.1

  receive-fits :
      (body : List ℕ)
      → receive config r ≡ some (read_body body)
      → length body ≤ config.max_body_bytes
  unfolding receive read_limited_body concat
  receive-fits body e = elim (Bool-cases (over config.max_body_bytes r.declared_length)) [
    | inl large ↦ absurd (ground (arith, rw (receive, large) at e))
    | inr small ↦
        read_from-fits config.max_body_bytes 0 [] r.events body refl (omega arith)
          (rw (receive, small) at e)
  ]

  answer_fan_out-accepts :
      (c : ChannelRow) (p : Database × Q × FanOutResult) (b : BroadcastRow) (status k : ℕ)
      → ((n : ℕ) × (p.2 ≡ accepted b request_id n)) ⊎ (is_accepted p.2 ≡ false)
      → (answer_fan_out queue hash config uuid id now request_id db q r c p).2 ≡ ingested status k
      → (n : ℕ) × (p.2 ≡ accepted b request_id n)
        × (status ≡ or_default c.ingest_success_status config.success_status)
        × (k ≡ b.id)
        × ((answer_fan_out queue hash config uuid id now request_id db q r c p).0 ≡ p.0)
        × ((answer_fan_out queue hash config uuid id now request_id db q r c p).1 ≡ p.1)
  unfolding answer_fan_out broadcast_of ingested_id
  answer_fan_out-accepts c (db', q', accepted x y m) b status k (inl (n, res)) e = (
    n,
    res,
    ground arith,
    sym (ap (λ x. ingested_id x k) e) ∙ ap (λ x. broadcast_of x k) res,
    refl,
    refl,
  )
  answer_fan_out-accepts c (db', q', accepted x y m) b status k (inr res) e = absurd (ground arith)
  answer_fan_out-accepts c (db', q', not_queued) b status k o e = absurd (ground arith)
  answer_fan_out-accepts c (db', q', not_stored) b status k o e = absurd (ground arith)

  answer_body-accepts :
      (c : ChannelRow) (o : Option ReadResult) (status k : ℕ)
      → receive config r ≡ o
      → get_active_channel_by_slug db r.slug ≡ some c
      → MaySend hash db c r.authorization
      → (answer_body queue hash config uuid id now request_id db q r c o).2 ≡ ingested status k
      → Ingested status k (
        (answer_body queue hash config uuid id now request_id db q r c o).0,
        (answer_body queue hash config uuid id now request_id db q r c o).1,
      )
  unfolding answer_body ingest_broadcast
  answer_body-accepts c none status k got active may e = absurd (ground arith)
  answer_body-accepts c (some over_limit) status k got active may e = absurd (ground arith)
  answer_body-accepts c (some read_failed) status k got active may e = absurd (ground arith)
  answer_body-accepts c (some (read_body body)) status k got active may e =
      let b = ingest_broadcast config r c id now body in
      let p = fan_out_broadcast queue uuid db q b request_id in
      let (n, res, code, names, same_db, same_q) =
        answer_fan_out-accepts c p b status k
          (fan_out_broadcast-result queue uuid db q b request_id) e in
      record {
        channel = c;
        active = active;
        may_send = may;
        body = body;
        received = got;
        within = receive-fits body got;
        answered = code;
        count = n;
        stored = b;
        named = (refl, names);
        of_channel = refl;
        at_time = refl;
        typed = content_type_of-Typed r.content_type;
        whole = refl;
        kept = refl;
        fanned_out =
            subst
              (λ d.
                IsAccepted queue db q b request_id n d
                  (answer_fan_out queue hash config uuid id now request_id db q r c p).1)
              (sym same_db)
              (subst (λ x. IsAccepted queue db q b request_id n p.0 x) (sym same_q)
                (fan_out_broadcast-IsAccepted queue uuid db q b request_id n res));
      }

  answer_gate-accepts :
      (g : Gate) (status k : ℕ)
      → gate hash db r.slug r.authorization ≡ g
      → (answer_gate queue hash config uuid id now request_id db q r g).2 ≡ ingested status k
      → Ingested status k (
        (answer_gate queue hash config uuid id now request_id db q r g).0,
        (answer_gate queue hash config uuid id now request_id db q r g).1,
      )
  unfolding answer_gate gate
  answer_gate-accepts (refused response) status k g e =
      absurd
        (elim (gate_channel-refuses hash db r.authorization (get_active_channel_by_slug db r.slug)
          response g) [
            | inl invalid ↦ ground (arith, e, invalid)
            | inr missing ↦ ground (arith, e, missing)
          ])
  answer_gate-accepts (admitted c) status k g e =
      let (active, may) =
        gate_channel-admits hash db r.authorization (get_active_channel_by_slug db r.slug) c g in
      answer_body-accepts c (receive config r) status k refl active may e

  -- A request that is accepted named an active Channel and, unless the Channel is open, carried one of its
  -- tokens; its whole body was read and is within the limit; the status is the Channel's or else the
  -- service's; and a Broadcast of that Channel with exactly that body, the content type that was sent
  -- (application/octet-stream if none was) and the filtered headers was fanned out, whose id the answer
  -- names.
  pub ingest-Ingested :
      (status k : ℕ)
      → (ingest queue hash config uuid id now request_id db q r).2 ≡ ingested status k
      → Ingested status k (
        (ingest queue hash config uuid id now request_id db q r).0,
        (ingest queue hash config uuid id now request_id db q r).1,
      )
  unfolding ingest
  ingest-Ingested status k e =
      answer_gate-accepts (gate hash db r.slug r.authorization) status k refl e
