-- ===== src/Admin/Tokens/Minted.antt =====
-- apps/api/src/admin/tokens.ts with apps/api/src/ingest/routes.ts: a token that was just minted.
use webhook_broadcast.Base.{
  ℕ, ◌≡◌, refl, sym, ap, subst, ◌∙◌, arith, false, Option, none, some, [], take, ◌∷◌, ◌++◌, Text,
  codes, any, ◌==◌, ==_refl, text_eq_refl,
}
use webhook_broadcast.Store.Rows.{Database, ChannelRow, ChannelTokenRow}
use webhook_broadcast.Store.Channels.{get_active_channel_by_slug, get_channel_by_id}
use webhook_broadcast.Store.Tokens.{insert_channel_token}
use webhook_broadcast.Store.Tokens.Lifetime.{
  insert_channel_token-find, insert_channel_token-row, insert_channel_token-tokens,
}
use webhook_broadcast.Ingest.{admitted, gate}
use webhook_broadcast.Ingest.Laws.{holds_token}
use webhook_broadcast.Ingest.Admits.{gate_admits, extract_bearer_token-Bearer}
use webhook_broadcast.Tokens.{mint_channel_token, mint_token}
use webhook_broadcast.Admin.{
  done, not_found, validation_failed, require_uuid_param, require_channel,
}
use webhook_broadcast.Admin.Handling.{after-Passed, require-Required, reply-done, value_of}
use webhook_broadcast.Admin.Tokens.{
  ChannelTokenCreated, inserted, channel_token_row, create_channel_token,
}

pub inserted-some :
    {A : Type 0} (db db' : Database) (o : Option (Database × A)) (row : A)
    → inserted db o ≡ (db', done row)
    → o ≡ some (db', row)
unfolding value_of
inserted-some db db' none row e = absurd (ground (arith, ap (λ r. r.1) e))
inserted-some db db' (some (d, r)) row e = ap (λ x. some (x.0, value_of row x.1)) e

get_active-same :
    (db db' : Database) (slug : Text)
    → db'.channels ≡ db.channels
    → get_active_channel_by_slug db' slug ≡ get_active_channel_by_slug db slug
unfolding get_active_channel_by_slug
get_active-same db db' slug e = rw e refl

-- `wbt_`, and then no blank.
minted_opens :
    (hash : Text → Text) (id now : ℕ) (random slug : Text) (db db' : Database) (c : ChannelRow)
    (row : ChannelTokenRow)
    → any (◌==◌ b' ') random ≡ false
    → get_active_channel_by_slug db slug ≡ some c
    → insert_channel_token db (channel_token_row (mint_channel_token hash random) c.id id now)
      ≡ some (db', row)
    → gate hash db' slug (some (codes "Bearer " ++ (mint_channel_token hash random).token))
      ≡ admitted c
unfolding mint_channel_token mint_token channel_token_row
minted_opens hash id now random slug db db' c row blank active stored =
    gate_admits hash db' slug c _
      (get_active-same db db' slug (insert_channel_token-row db db' _ row stored).1 ∙ active)
      (holds_token (codes "wbt_" ++ random) new
        (extract_bearer_token-Bearer b'w' (b'b' ∷ b't' ∷ b'_' ∷ random) blank)
        (insert_channel_token-find db db' new row c.id (hash (codes "wbt_" ++ random)) stored
          ∙ rw (==_refl c.id, text_eq_refl (hash (codes "wbt_" ++ random))) refl))
  where
    new : ChannelTokenRow
    new = channel_token_row (mint_channel_token hash random) c.id id now

-- What is stored of a minted token: a row of the Channel with the hash and the first twelve characters.
abbrev pub Keeps : (Text → Text) → ℕ → Text → Database → Database → Type 0
Keeps hash channel_id token db db' =
    (row : ChannelTokenRow) × (db'.channel_tokens ≡ db.channel_tokens ++ row ∷ [])
    × (row.channel_id ≡ channel_id)
    × (row.token_hash ≡ hash token)
    × (row.prefix ≡ take 12 token)

minted_kept :
    (hash : Text → Text) (id now channel_id : ℕ) (random : Text) (db db' : Database)
    (row : ChannelTokenRow)
    → insert_channel_token db (channel_token_row (mint_channel_token hash random) channel_id id now)
      ≡ some (db', row)
    → Keeps hash channel_id (mint_channel_token hash random).token db db'
unfolding mint_channel_token mint_token channel_token_row
minted_kept hash id now channel_id random db db' row stored = (
  channel_token_row (mint_channel_token hash random) channel_id id now,
  insert_channel_token-tokens db db' _ row stored,
  refl,
  refl,
  refl,
)

module _ (parse_id : Text → Option ℕ) (hash : Text → Text) (id now : ℕ) (random param slug : Text)
    (db db' : Database) (c : ChannelRow) (status : ℕ) (created : ChannelTokenCreated) where
  -- The plaintext that the mint answers is let through at once as a bearer of the Channel; the row that is
  -- stored for it has its hash and its first twelve characters.
  pub create_channel_token-admitted :
      any (◌==◌ b' ') random ≡ false
      → get_active_channel_by_slug db slug ≡ some c
      → parse_id param ≡ some c.id
      → create_channel_token parse_id hash id now random param db ≡ (db', done (status, created))
      → (gate hash db' slug (some (codes "Bearer " ++ created.token)) ≡ admitted c)
        × Keeps hash c.id created.token db db'
  unfolding create_channel_token require_uuid_param require_channel mint_channel_token mint_token
      channel_token_row
  create_channel_token-admitted blank active names e =
      let p =
        require-Required 400 validation_failed (parse_id param) _ db db' (status, created) e in
      let live =
        require-Required 404 not_found (get_channel_by_id db p.value) _ db db' (status, created)
          p.rest in
      let row = channel_token_row (mint_channel_token hash random) p.value id now in
      let stored =
        after-Passed (inserted db (insert_channel_token db row)) _ db' (status, created)
          live.rest in
      let said = reply-done 201 status _ created stored.state db' stored.rest in
      let wrote =
        inserted-some db stored.state (insert_channel_token db row) stored.value stored.here in
      let same : p.value ≡ c.id = ground (arith, sym p.present ∙ names) in
      let there =
        subst
          (λ (k : ℕ).
            insert_channel_token db (channel_token_row (mint_channel_token hash random) k id now)
            ≡ some (stored.state, stored.value))
          same wrote in
      subst
        (λ (d : Database).
          (gate hash d slug (some (codes "Bearer " ++ created.token)) ≡ admitted c)
          × Keeps hash c.id created.token db d)
        (said.0)
        (subst
          (λ (t : Text).
            (gate hash stored.state slug (some (codes "Bearer " ++ t)) ≡ admitted c)
            × Keeps hash c.id t db stored.state)
          (ap (λ x. x.token) (said.2))
          (
            minted_opens hash id now random slug db stored.state c stored.value blank active there,
            minted_kept hash id now c.id random db stored.state stored.value there,
          ))
