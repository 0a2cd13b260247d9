-- ===== src/Store/Rows.antt =====
-- packages/db/src/schema.ts: the tables. A UUID is its 128-bit number, a timestamp is milliseconds
-- since the epoch, and a table is the list of its rows in the order of insertion.
use webhook_broadcast.Base.{ℕ, ◌≡◌, ◌↔◌, arith, true, Bool, Option, List, Text, ◌==◌, ◌||◌}

pub data DeliveryStatus : Type 0 where
  pending in_progress succeeded failed dead_lettered : DeliveryStatus

-- A stored header value: `string | string[]`.
pub data HeaderValue : Type 0 where
  one : Text → HeaderValue
  many : List Text → HeaderValue

pub record ChannelRow : Type 0 where
  pub id : ℕ
  pub slug : Text
  pub description : Option Text
  pub enabled : Bool
  pub forward_headers : List Text
  pub allow_unauthenticated_ingest : Bool
  pub ingest_success_status : Option ℕ
  pub deleted_at : Option ℕ
  pub created_at : ℕ
  pub updated_at : ℕ

pub record ChannelTokenRow : Type 0 where
  pub id : ℕ
  pub channel_id : ℕ
  pub token_hash : Text
  pub prefix : Text
  pub created_at : ℕ

pub record OperatorTokenRow : Type 0 where
  pub id : ℕ
  pub token_hash : Text
  pub prefix : Text
  pub label : Text
  pub created_at : ℕ
  pub last_used_at : Option ℕ

pub record EndpointRow : Type 0 where
  pub id : ℕ
  pub channel_id : ℕ
  pub name : Option Text
  pub url : Text
  pub timeout_ms : Option ℕ
  pub headers : List (Text × Text)
  pub enabled : Bool
  pub auto_disabled_at : Option ℕ
  pub created_at : ℕ
  pub updated_at : ℕ

pub record BroadcastRow : Type 0 where
  pub id : ℕ
  pub channel_id : ℕ
  pub received_at : ℕ
  pub content_type : Text
  pub body : List ℕ
  pub headers : List (Text × HeaderValue)

pub record DeliveryRow : Type 0 where
  pub id : ℕ
  pub broadcast_id : ℕ
  pub endpoint_id : ℕ
  pub channel_id : ℕ
  pub status : DeliveryStatus
  pub attempt_count : ℕ
  pub last_status_code : Option ℕ
  pub last_duration_ms : Option ℕ
  pub last_error : Option Text
  pub updated_at : ℕ

pub record AttemptRow : Type 0 where
  pub id : ℕ
  pub delivery_id : ℕ
  pub n : ℕ
  pub status_code : Option ℕ
  pub duration_ms : Option ℕ
  pub error : Option Text
  pub at : ℕ

pub record Database : Type 0 where
  pub channels : List ChannelRow
  pub channel_tokens : List ChannelTokenRow
  pub operator_tokens : List OperatorTokenRow
  pub endpoints : List EndpointRow
  pub broadcasts : List BroadcastRow
  pub deliveries : List DeliveryRow
  pub attempts : List AttemptRow

-- The position of a status in the enum `delivery_status`.
abbrev tag : DeliveryStatus → ℕ
tag pending = 0
tag in_progress = 1
tag succeeded = 2
tag failed = 3
tag dead_lettered = 4

unfoldable pub status_eq : DeliveryStatus → DeliveryStatus → Bool
status_eq s t = tag s == tag t

-- `inArray(deliveries.status, ["failed", "dead_lettered"])`
abbrev pub is_failure : DeliveryStatus → Bool
is_failure s = status_eq s failed || status_eq s dead_lettered

pub status_eq_iff : (s t : DeliveryStatus) → (status_eq s t ≡ true) ↔ (s ≡ t)
unfolding status_eq
status_eq_iff s t = ground arith
