-- ===== src/Admin/Tokens.antt =====
-- apps/api/src/admin/tokens.ts and operatorTokens.ts: minting, listing and revoking the two kinds of
-- tokens. `id` and `now` are `randomUUID()` and `new Date()`.
pub mod Minted
use webhook_broadcast.Base.{
  ℕ, Bool, true, false, Option, none, some, List, map, Text, if◌then◌else◌,
}
use webhook_broadcast.Store.Rows.{Database, ChannelTokenRow, OperatorTokenRow}
use webhook_broadcast.Store.Tokens.{
  insert_channel_token, revoke_channel_token, insert_operator_token, revoke_operator_token,
  list_operator_tokens,
}
use webhook_broadcast.Tokens.{MintedToken, mint_channel_token, mint_operator_token}
use webhook_broadcast.Admin.{
  Handler, Outcome, Reply, ◌>>=◌, after, done, refused, thrown, not_found, validation_failed, reply,
  refuse, read, write, require, require_uuid_param, require_valid, require_channel,
}

pub record ChannelTokenCreated : Type 0 where
  pub id : ℕ
  pub token : Text
  pub created_at : ℕ

pub record OperatorTokenCreated : Type 0 where
  pub id : ℕ
  pub token : Text
  pub label : Text
  pub created_at : ℕ

pub record OperatorToken : Type 0 where
  pub id : ℕ
  pub label : Text
  pub prefix : Text
  pub created_at : ℕ
  pub last_used_at : Option ℕ

-- An insert that the database refuses throws.
abbrev pub inserted : {A : Type 0} → Database → Option (Database × A) → Database × Outcome A
inserted db none = (db, thrown)
inserted db (some (db', row)) = (db', done row)

unfoldable pub channel_token_row : MintedToken → ℕ → ℕ → ℕ → ChannelTokenRow
channel_token_row minted channel_id id now = record {
  id = id;
  channel_id = channel_id;
  token_hash = minted.token_hash;
  prefix = minted.prefix;
  created_at = now;
}

unfoldable pub operator_token_row : MintedToken → Text → ℕ → ℕ → OperatorTokenRow
operator_token_row minted label id now = record {
  id = id;
  token_hash = minted.token_hash;
  prefix = minted.prefix;
  label = label;
  created_at = now;
  last_used_at = none;
}

module _ (parse_id : Text → Option ℕ) (hash : Text → Text) where
  unfoldable pub create_channel_token :
      ℕ → ℕ → Text → Text → Handler Database (Reply ChannelTokenCreated)
  unfolding require_uuid_param require_channel
  create_channel_token id now random channel_param = do
    channel_id ← require_uuid_param parse_id channel_param
    _ ← require_channel (λ db. db) channel_id
    row ← (λ db. inserted db (
        insert_channel_token db
          (channel_token_row (mint_channel_token hash random) channel_id id now)))
    reply 201 (record {
      id = row.id;
      token = (mint_channel_token hash random).token;
      created_at = row.created_at;
    })

  unfoldable pub delete_channel_token : Text → Text → Handler Database (Reply Bool)
  delete_channel_token channel_param token_param = do
    channel_id ← require_uuid_param parse_id channel_param
    token_id ← require_uuid_param parse_id token_param
    revoked ← write (λ db. revoke_channel_token db channel_id token_id)
    if revoked then reply 204 true else refuse 404 not_found

  -- `parsed` is the label that `operatorTokenCreateSchema` leaves of a body.
  unfoldable pub create_operator_token :
      ℕ → ℕ → Text → Option Text → Handler Database (Reply OperatorTokenCreated)
  unfolding require_valid
  create_operator_token id now random parsed = do
    label ← require_valid parsed
    row ← (λ db. inserted db (
        insert_operator_token db
          (operator_token_row (mint_operator_token hash random) label id now)))
    reply 201 (record {
      id = row.id;
      token = (mint_operator_token hash random).token;
      label = row.label;
      created_at = row.created_at;
    })

  unfoldable pub delete_operator_token : Text → Handler Database (Reply Bool)
  delete_operator_token token_param = do
    token_id ← require_uuid_param parse_id token_param
    revoked ← write (λ db. revoke_operator_token db token_id)
    if revoked then reply 204 true else refuse 404 not_found

unfoldable pub list_tokens : Handler Database (Reply (List OperatorToken))
list_tokens = do
  rows ← read list_operator_tokens
  reply 200 (
      map
        (λ row. record {
          id = row.id;
          label = row.label;
          prefix = row.prefix;
          created_at = row.created_at;
          last_used_at = row.last_used_at;
        })
        rows)
