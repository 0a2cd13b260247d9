-- ===== src/Ingest/Admits.antt =====
-- Who is let through from the slug to the token.
use webhook_broadcast.Base.{
  ℕ, ◌≡◌, refl, arith, false, Option, some, ◌∷◌, ◌++◌, Text, codes, any, ◌==◌, split, split_from,
  split_none, to_lower, text_eq, inl, inr, Bool-cases,
}
use webhook_broadcast.Store.Rows.{Database, ChannelRow}
use webhook_broadcast.Store.Channels.{get_active_channel_by_slug}
use webhook_broadcast.Ingest.{
  admitted, gate, gate_channel, gate_token, gate_found, extract_bearer_token,
}
use webhook_broadcast.Ingest.Laws.{MaySend, is_open, holds_token}

gate_channel_admits :
    (hash : Text → Text) (db : Database) (c : ChannelRow) (authorization : Option Text)
    → MaySend hash db c authorization
    → gate_channel hash db authorization (some c) ≡ admitted c
unfolding gate_channel gate_token gate_found
gate_channel_admits hash db c authorization (is_open free) = ground (arith, free)
gate_channel_admits hash db c authorization (holds_token token row bearer there) =
    elim (Bool-cases c.allow_unauthenticated_ingest) [
      | inl free ↦ ground (arith, free)
      | inr closed ↦ ground (arith, closed, bearer, there)
    ]

pub gate_admits :
    (hash : Text → Text) (db : Database) (slug : Text) (c : ChannelRow)
    (authorization : Option Text)
    → get_active_channel_by_slug db slug ≡ some c
    → MaySend hash db c authorization
    → gate hash db slug authorization ≡ admitted c
unfolding gate
gate_admits hash db slug c authorization active may =
    rw active (gate_channel_admits hash db c authorization may)

-- A header `Bearer <token>` is read back as the token, where that has no blank.
pub extract_bearer_token-Bearer :
    (c : ℕ) (token : Text)
    → any (◌==◌ b' ') (c ∷ token) ≡ false
    → extract_bearer_token (some (codes "Bearer " ++ c ∷ token)) ≡ some (c ∷ token)
unfolding extract_bearer_token split split_from to_lower text_eq
extract_bearer_token-Bearer c token h = rw (split_none b' ' (c ∷ token) h) refl
