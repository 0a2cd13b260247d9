-- ===== src/Store/Tokens.antt =====
-- packages/db/src/repositories/channelTokens.ts and operatorTokens.ts: only hashes are stored.
pub mod Lifetime
use webhook_broadcast.Base.{
  ℕ, Bool, true, false, not, ◌&&◌, ◌||◌, Option, none, some, List, [], ◌∷◌, ◌++◌, Text, text_eq,
  ◌==◌, ltb, if◌then◌else◌, filter, any, find, update_where,
}
use webhook_broadcast.Store.Rows.{Database, ChannelTokenRow, OperatorTokenRow}
use webhook_broadcast.Paging.{order_by}

-- `none` where the hash (`unique`) or the id is taken, or the Channel is not there: the insert throws.
unfoldable pub insert_channel_token :
    Database → ChannelTokenRow → Option (Database × ChannelTokenRow)
insert_channel_token db row =
    if any (λ t. t.id == row.id || text_eq t.token_hash row.token_hash) db.channel_tokens
      || not (any (λ c. c.id == row.channel_id) db.channels)
    then none
    else some (record db { channel_tokens = db.channel_tokens ++ row ∷ [] }, row)

abbrev pub is_token : ℕ → ℕ → ChannelTokenRow → Bool
is_token channel_id id t = t.id == id && t.channel_id == channel_id

unfoldable pub revoke_channel_token : Database → ℕ → ℕ → Database × Bool
revoke_channel_token db channel_id token_id = (
  record db {
    channel_tokens = filter (λ t. not (is_token channel_id token_id t)) db.channel_tokens;
  },
  any (is_token channel_id token_id) db.channel_tokens,
)

abbrev pub opens : ℕ → Text → ChannelTokenRow → Bool
opens channel_id token_hash t = t.channel_id == channel_id && text_eq t.token_hash token_hash

unfoldable pub find_channel_token_by_hash : Database → ℕ → Text → Option ChannelTokenRow
find_channel_token_by_hash db channel_id token_hash =
    find (opens channel_id token_hash) db.channel_tokens

unfoldable pub insert_operator_token :
    Database → OperatorTokenRow → Option (Database × OperatorTokenRow)
insert_operator_token db row =
    if any (λ t. t.id == row.id || text_eq t.token_hash row.token_hash) db.operator_tokens
    then none
    else some (record db { operator_tokens = db.operator_tokens ++ row ∷ [] }, row)

unfoldable pub revoke_operator_token : Database → ℕ → Database × Bool
revoke_operator_token db token_id = (
  record db { operator_tokens = filter (λ t. not (t.id == token_id)) db.operator_tokens },
  any (λ t. t.id == token_id) db.operator_tokens,
)

abbrev pub has_hash : Text → OperatorTokenRow → Bool
has_hash token_hash t = text_eq t.token_hash token_hash

unfoldable pub find_operator_token_by_hash : Database → Text → Option OperatorTokenRow
find_operator_token_by_hash db token_hash = find (has_hash token_hash) db.operator_tokens

-- Newest first.
unfoldable pub list_operator_tokens : Database → List OperatorTokenRow
list_operator_tokens db = order_by (λ t. t.created_at) (λ t u. ltb u t) db.operator_tokens

unfoldable pub touch_operator_token_last_used : Database → ℕ → ℕ → Database
touch_operator_token_last_used db token_id at = record db {
  operator_tokens =
      update_where (λ t. t.id == token_id) (λ t. record t { last_used_at = some at })
        db.operator_tokens;
}
