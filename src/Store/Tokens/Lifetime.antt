-- ===== src/Store/Tokens/Lifetime.antt =====
-- When a token's hash is found.
use webhook_broadcast.Base.{
  ℕ, Bool, false, not, ◌&&◌, ◌||◌, Option, none, some, List, [], ◌∷◌, ◌++◌, ◌≡◌, refl, arith, Text,
  text_eq, text_eq_iff, ◌==◌, if◌then◌else◌, filter, any, find,
}
use webhook_broadcast.Store.Rows.{Database, ChannelTokenRow}
use webhook_broadcast.Store.Tokens.{
  insert_channel_token, is_token, revoke_channel_token, opens, find_channel_token_by_hash,
}

-- `token_hash` is unique.
abbrev pub HaveHashes : List ChannelTokenRow → Type 0
HaveHashes [] = Unit
HaveHashes (t ∷ ts) = (any (λ u. text_eq u.token_hash t.token_hash) ts ≡ false) × HaveHashes ts

find_appended :
    (c : ℕ) (h : Text) (ts : List ChannelTokenRow) (row : ChannelTokenRow)
    → any (λ t. t.id == row.id || text_eq t.token_hash row.token_hash) ts ≡ false
    → find (opens c h) (ts ++ row ∷ []) ≡ (if opens c h row then some row else find (opens c h) ts)
find_appended c h [] row k = ground arith
find_appended c h (t ∷ ts) row k = ground (
  arith,
  find_appended c h ts row,
  text_eq_iff t.token_hash row.token_hash,
  text_eq_iff t.token_hash h,
  text_eq_iff row.token_hash h,
)

find_hash_absent :
    (c : ℕ) (h : Text) (ts : List ChannelTokenRow)
    → any (λ u. text_eq u.token_hash h) ts ≡ false
    → find (opens c h) ts ≡ none
find_hash_absent c h [] k = refl
find_hash_absent c h (t ∷ ts) k = ground (arith, find_hash_absent c h ts)

abbrev pub unless_revoked : ℕ → ℕ → Option ChannelTokenRow → Option ChannelTokenRow
unless_revoked c id none = none
unless_revoked c id (some t) = if t.id == id && t.channel_id == c then none else some t

hash_absent-filter :
    (h : Text) (p : ChannelTokenRow → Bool) (ts : List ChannelTokenRow)
    → any (λ u. text_eq u.token_hash h) ts ≡ false
    → any (λ u. text_eq u.token_hash h) (filter p ts) ≡ false
hash_absent-filter h p [] k = refl
hash_absent-filter h p (t ∷ ts) k = ground (arith, hash_absent-filter h p ts)

find_revoked :
    (c d id : ℕ) (h : Text) (ts : List ChannelTokenRow)
    → HaveHashes ts
    → find (opens c h) (filter (λ t. not (is_token d id t)) ts)
      ≡ unless_revoked d id (find (opens c h) ts)
find_revoked c d id h [] k = refl
find_revoked c d id h (t ∷ ts) k = ground (
  arith,
  find_revoked c d id h ts k.1,
  text_eq_iff t.token_hash h,
  find_hash_absent c h (filter (λ u. not (is_token d id u)) ts),
  hash_absent-filter h (λ u. not (is_token d id u)) ts,
)

-- An ingest token opens its own Channel as soon as it is inserted; an insert changes no other lookup.
pub insert_channel_token-find :
    (db db' : Database) (row row' : ChannelTokenRow) (channel_id : ℕ) (token_hash : Text)
    → insert_channel_token db row ≡ some (db', row')
    → find_channel_token_by_hash db' channel_id token_hash ≡ (
        if opens channel_id token_hash row
        then some row
        else find_channel_token_by_hash db channel_id token_hash)
unfolding insert_channel_token find_channel_token_by_hash
insert_channel_token-find db db' row row' c h e =
    ground (arith, find_appended c h db.channel_tokens row)

-- A revoked ingest token opens nothing from then on, on whatever Channel it is tried, and a revocation
-- changes the lookup of no other token; one that names another Channel than the token's revokes nothing.
pub revoke_channel_token-find :
    (db : Database) (channel_id token_id tried_on : ℕ) (token_hash : Text)
    → HaveHashes db.channel_tokens
    → find_channel_token_by_hash (revoke_channel_token db channel_id token_id).0 tried_on token_hash
      ≡ unless_revoked channel_id token_id (find_channel_token_by_hash db tried_on token_hash)
unfolding revoke_channel_token find_channel_token_by_hash
revoke_channel_token-find db channel_id token_id tried_on token_hash h =
    find_revoked tried_on channel_id token_id token_hash db.channel_tokens h

pub insert_channel_token-row :
    (db db' : Database) (row row' : ChannelTokenRow)
    → insert_channel_token db row ≡ some (db', row')
    → (row' ≡ row) × (db'.channels ≡ db.channels)
unfolding insert_channel_token
insert_channel_token-row db db' row row' e = ground arith

pub insert_channel_token-tokens :
    (db db' : Database) (row row' : ChannelTokenRow)
    → insert_channel_token db row ≡ some (db', row')
    → db'.channel_tokens ≡ db.channel_tokens ++ row ∷ []
unfolding insert_channel_token
insert_channel_token-tokens db db' row row' e = ground arith
