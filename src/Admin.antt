-- ===== src/Admin.antt =====
-- apps/api/src/admin: the routes of the admin API. A route is a handler over a state; one request runs
-- at a time. Messages of error envelopes are left out, their status and code are kept.
pub mod Handling
pub mod Deliveries
pub mod Broadcasts
pub mod Endpoints
pub mod Tokens
pub mod Auth
pub mod Channels
use webhook_broadcast.Base.{
  ℕ, Option, none, some, Text, List, [], ◌∷◌, Bool, true, false, if◌then◌else◌,
}
use webhook_broadcast.Store.Rows.{Database, ChannelRow}
use webhook_broadcast.Store.Channels.{get_channel_by_id}

pub data ErrorCode : Type 0 where
  validation_failed not_found conflict unauthorized rate_limited : ErrorCode

-- How a handler, or a part of one, ends: with a value, with an error envelope, or with an error that
-- the application answers by 500.
pub data Outcome (A : Type 0) : Type 0 where
  done : A → Outcome A
  refused : ℕ → ErrorCode → Outcome A
  thrown : Outcome A

abbrev pub Handler : Type 0 → Type 0 → Type 0
Handler S A = S → S × Outcome A

-- A status and a body.
abbrev pub Reply : Type 0 → Type 0
Reply B = ℕ × B

abbrev pub after : {S A B : Type 0} → S × Outcome A → (A → Handler S B) → S × Outcome B
after (s, done a) k = k a s
after (s, refused status code) k = (s, refused status code)
after (s, thrown) k = (s, thrown)

infixl 5 ◌>>=◌
abbrev pub ◌>>=◌ : {S A B : Type 0} → Handler S A → (A → Handler S B) → Handler S B
(m >>= k) s = after (m s) k

abbrev pub reply : {S B : Type 0} → ℕ → B → Handler S (Reply B)
reply status body s = (s, done (status, body))

abbrev pub refuse : {S A : Type 0} → ℕ → ErrorCode → Handler S A
refuse status code s = (s, refused status code)

-- A read of the state.
abbrev pub read : {S A : Type 0} → (S → A) → Handler S A
read f s = (s, done (f s))

-- A write.
abbrev pub write : {S A : Type 0} → (S → S × A) → Handler S A
write f s = let r = f s in (r.0, done r.1)

abbrev pub require : {S A : Type 0} → ℕ → ErrorCode → Option A → Handler S A
require status code (some a) s = (s, done a)
require status code none s = (s, refused status code)

-- `requireUuidParam`: `parse_id` is the contract's `idSchema`.
unfoldable pub require_uuid_param : {S : Type 0} → (Text → Option ℕ) → Text → Handler S ℕ
require_uuid_param parse_id value = require 400 validation_failed (parse_id value)

-- `safeParse` of a body or a query.
unfoldable pub require_valid : {S A : Type 0} → Option A → Handler S A
require_valid parsed = require 400 validation_failed parsed

-- `requireChannel`, with the row that it stashes.
unfoldable pub require_channel : {S : Type 0} → (S → Database) → ℕ → Handler S ChannelRow
require_channel db_of channel_id s =
    require 404 not_found (get_channel_by_id (db_of s) channel_id) s

-- `parseListCursor`: no cursor is `none`.
unfoldable pub parse_list_cursor :
    {S K : Type 0} → (Text → Option K) → Option Text → Handler S (Option K)
parse_list_cursor decode none s = (s, done none)
parse_list_cursor decode (some []) s = (s, done none)
parse_list_cursor decode (some (c ∷ text)) s =
    (require 400 validation_failed (decode (c ∷ text)) >>= (λ k. read (λ _. some k))) s
