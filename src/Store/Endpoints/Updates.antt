-- ===== src/Store/Endpoints/Updates.antt =====
-- packages/db/src/repositories/endpoints.ts: what an update that goes through writes.
use webhook_broadcast.Base.{
  ℕ, ◌≡◌, arith, Bool, ◌&&◌, Option, none, some, ◌==◌, any, update_where, inl, inr, Bool-cases,
  Option-cases,
}
use webhook_broadcast.Store.Rows.{Database, EndpointRow}
use webhook_broadcast.Store.Endpoints.{
  Written, written, url_conflict, EndpointPatch, patch_endpoint, update_endpoint,
  get_endpoint_by_id, patched, clashes,
}

abbrev pub is_row : ℕ → ℕ → EndpointRow → Bool
is_row channel_id id e = e.channel_id == channel_id && e.id == id

-- The row that was there, the row that is answered, and the table after it.
pub record Updated (db : Database) (channel_id id : ℕ) (p : EndpointPatch) (db' : Database)
    (row : EndpointRow) : Type 0 where
  pub before : EndpointRow
  pub there : get_endpoint_by_id db channel_id id ≡ some before
  pub answered : row ≡ patch_endpoint p before
  pub table : db'.endpoints ≡ update_where (is_row channel_id id) (patch_endpoint p) db.endpoints

result_of :
    Database × EndpointRow → Written (Option (Database × EndpointRow)) → Database × EndpointRow
result_of d (written (some r)) = r
result_of d (written none) = d
result_of d (url_conflict url) = d

patched-Updated :
    (db : Database) (channel_id id : ℕ) (p : EndpointPatch) (e : EndpointRow) (db' : Database)
    (row : EndpointRow)
    → get_endpoint_by_id db channel_id id ≡ some e
    → patched db channel_id id p e ≡ written (some (db', row))
    → Updated db channel_id id p db' row
unfolding patched
patched-Updated db channel_id id p e db' row there h =
    elim (Bool-cases (any (clashes channel_id id (patch_endpoint p e).url) db.endpoints)) [
      | inl taken ↦ absurd (ground (arith, h, taken))
      | inr clear ↦ record {
        before = e;
        there = there;
        answered = ground (arith, h, clear);
        table = ground (arith, h, clear);
      }
    ]

pub update_endpoint-Updated :
    (db : Database) (channel_id id : ℕ) (p : EndpointPatch) (db' : Database) (row : EndpointRow)
    → update_endpoint db channel_id id p ≡ written (some (db', row))
    → Updated db channel_id id p db' row
unfolding update_endpoint
update_endpoint-Updated db channel_id id p db' row h =
    elim (Option-cases (get_endpoint_by_id db channel_id id)) [
      | inl absent ↦ absurd (ground (arith, h, absent))
      | inr (e, there) ↦
          patched-Updated db channel_id id p e db' row there (ground (arith, h, there))
    ]
