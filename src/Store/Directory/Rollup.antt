-- ===== src/Store/Directory/Rollup.antt =====
-- packages/db/src/repositories/endpoints.ts and deliveries.ts: the roll-up of failures and the count of
-- recent failures of a Channel agree.
use webhook_broadcast.Base.{
  ℕ, suc, ◌+◌, ◌≡◌, refl, sym, ◌∙◌, subst, ==_iff, Bool-cases, inl, inr, arith, Bool, true, false,
  ◌&&◌, List, [], ◌∷◌, map, Text, ◌==◌, filter, any, all, count, if◌then◌else◌,
}
use webhook_broadcast.Store.Rows.{
  Database, EndpointRow, DeliveryRow, failed, dead_lettered, status_eq,
}
use webhook_broadcast.Store.Deliveries.{get_recent_failure_counts, is_recent_failure, window_start}
use webhook_broadcast.Paging.{order_by, insert}
use webhook_broadcast.Store.Directory.{
  EndpointFailureRollupRow, recent_failure_of, rollup_row, rollup_key, ranked, RollupKey,
  get_failure_rollup_for_channel,
}

-- `endpoint.id` is a primary key.
abbrev pub HasKeys : List EndpointRow → Type 0
HasKeys [] = Unit
HasKeys (e ∷ es) = (any (λ f. f.id == e.id) es ≡ false) × HasKeys es

-- The Endpoint of each Delivery is there, and is of the Delivery's Channel.
abbrev pub are_owned : List EndpointRow → List DeliveryRow → Bool
are_owned es ds = all (λ d. any (λ e. e.id == d.endpoint_id && e.channel_id == d.channel_id) es) ds

-- `failed + deadLettered` over all rows.
abbrev pub failures : List EndpointFailureRollupRow → ℕ
failures [] = 0
failures (r ∷ rs) = r.failed + r.dead_lettered + failures rs

failures-insert :
    (before : RollupKey → RollupKey → Bool) (r : EndpointFailureRollupRow)
    (rs : List EndpointFailureRollupRow)
    → failures (insert rollup_key before r rs) ≡ failures (r ∷ rs)
unfolding insert
failures-insert before r [] = refl
failures-insert before r (s ∷ rs) = ground (arith, failures-insert before r rs)

failures-order_by :
    (before : RollupKey → RollupKey → Bool) (rs : List EndpointFailureRollupRow)
    → failures (order_by rollup_key before rs) ≡ failures rs
unfolding order_by
failures-order_by before [] = refl
failures-order_by before (r ∷ rs) =
    omega
      (arith, failures-order_by before rs, failures-insert before r (order_by rollup_key before rs))

count_both :
    (since id : ℕ) (ds : List DeliveryRow)
    → count (λ d. status_eq d.status failed) (filter (recent_failure_of since id) ds)
        + count (λ d. status_eq d.status dead_lettered) (filter (recent_failure_of since id) ds)
      ≡ count (recent_failure_of since id) ds
unfolding status_eq
count_both since id [] = omega arith
count_both since id (d ∷ ds) = ground (arith, count_both since id ds)

count_none : (p : DeliveryRow → Bool) (ds : List DeliveryRow) → any p ds ≡ false → count p ds ≡ 0
count_none p [] h = refl
count_none p (d ∷ ds) h = ground (arith, count_none p ds)

module _ (since channel_id : ℕ) where
  -- The recent failures of the Endpoints of the Channel, Endpoint by Endpoint.
  abbrev total : List EndpointRow → List DeliveryRow → ℕ
  total [] ds = 0
  total (e ∷ es) ds =
      let rest = total es ds in
      if e.channel_id == channel_id then count (recent_failure_of since e.id) ds + rest else rest

  failures-total :
      (db : Database) (es : List EndpointRow)
      → failures (
          map (rollup_row db since) (
            filter
              (λ e. e.channel_id == channel_id && any (recent_failure_of since e.id) db.deliveries)
              es))
        ≡ total es db.deliveries
  unfolding rollup_row
  failures-total db [] = refl
  failures-total db (e ∷ es) = ground (
    arith,
    failures-total db es,
    count_both since e.id db.deliveries,
    count_none (recent_failure_of since e.id) db.deliveries,
  )

  -- Whether a Delivery counts for one of the Endpoints, as a number.
  abbrev hits : List EndpointRow → DeliveryRow → ℕ
  hits [] d = 0
  hits (e ∷ es) d =
      let rest = hits es d in
      if e.channel_id == channel_id && recent_failure_of since e.id d then suc rest else rest

  total_nil : (es : List EndpointRow) → total es [] ≡ 0
  total_nil [] = refl
  total_nil (e ∷ es) = ground (arith, total_nil es)

  total_cons :
      (es : List EndpointRow) (d : DeliveryRow) (ds : List DeliveryRow)
      → total es (d ∷ ds) ≡ hits es d + total es ds
  total_cons [] d ds = refl
  total_cons (e ∷ es) d ds = ground (arith, total_cons es d ds)

  hits_absent :
      (es : List EndpointRow) (d : DeliveryRow)
      → any (λ e. e.id == d.endpoint_id) es ≡ false
      → hits es d ≡ 0
  hits_absent [] d h = refl
  hits_absent (e ∷ es) d h = ground (arith, hits_absent es d)

  -- No Endpoint of that id, so none of that id and Channel.
  owner_absent :
      (es : List EndpointRow) (d : DeliveryRow)
      → any (λ e. e.id == d.endpoint_id) es ≡ false
      → any (λ e. e.id == d.endpoint_id && e.channel_id == d.channel_id) es ≡ false
  owner_absent [] d h = refl
  owner_absent (e ∷ es) d h = ground (arith, owner_absent es d)

  hits_owned :
      (es : List EndpointRow) (d : DeliveryRow)
      → HasKeys es
      → any (λ e. e.id == d.endpoint_id && e.channel_id == d.channel_id) es ≡ true
      → hits es d ≡ (if is_recent_failure channel_id since d then 1 else 0)
  hits_owned [] d keys h = absurd (ground arith)
  hits_owned (e ∷ es) d keys h = elim (Bool-cases (e.id == d.endpoint_id)) [
    | inl same ↦
        let absent =
          subst (λ (i : ℕ). any (λ f. f.id == i) es ≡ false) ((==_iff e.id d.endpoint_id).0 same)
            keys.0 in
        ground (arith, same, hits_absent es d absent, owner_absent es d absent)
    | inr other ↦ ground (arith, other, hits_owned es d keys.1)
  ]

  total_owned :
      (es : List EndpointRow) (ds : List DeliveryRow)
      → HasKeys es
      → are_owned es ds ≡ true
      → total es ds ≡ count (is_recent_failure channel_id since) ds
  total_owned es [] keys h = total_nil es
  total_owned es (d ∷ ds) keys h =
      ground (arith, total_cons es d ds, hits_owned es d keys, total_owned es ds keys)

pub count_badge :
    (channel_id since : ℕ) (ds : List DeliveryRow)
    → count (λ d. status_eq d.status failed) (filter (is_recent_failure channel_id since) ds)
        + count
            (λ d. status_eq d.status dead_lettered)
            (filter (is_recent_failure channel_id since) ds)
      ≡ count (is_recent_failure channel_id since) ds
unfolding status_eq
count_badge channel_id since [] = omega arith
count_badge channel_id since (d ∷ ds) = ground (arith, count_badge channel_id since ds)

-- The two numbers that the directory shows for a Channel and the columns of its roll-up have one sum,
-- where the Endpoint of each Delivery is there and of the Delivery's Channel.
pub rollup-badge :
    (precedes : Text → Text → Bool) (db : Database) (channel_id now : ℕ)
    → HasKeys db.endpoints
    → are_owned db.endpoints db.deliveries ≡ true
    → let badge = get_recent_failure_counts db channel_id now in
      failures (get_failure_rollup_for_channel precedes db channel_id now) ≡ badge.0 + badge.1
unfolding get_failure_rollup_for_channel get_recent_failure_counts
rollup-badge precedes db channel_id now keys owned =
    failures-order_by (ranked precedes) _
    ∙ failures-total (window_start now) channel_id db db.endpoints
    ∙ total_owned (window_start now) channel_id db.endpoints db.deliveries keys owned
    ∙ sym (count_badge channel_id (window_start now) db.deliveries)
