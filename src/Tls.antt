-- ===== src/Tls.antt =====
-- packages/db/src/ssl.ts and apps/api/src/redisTls.ts: whether a connection is encrypted and its server
-- verified. The URL parser is the runtime's. An empty text is a variable that is not set, as for the code.
pub mod Pinned
use webhook_broadcast.Base.{
  ℕ, Bool, not, ◌&&◌, Option, none, some, List, [], ◌∷◌, Text, codes, distinct_from, to_lower, trim,
  starts_with, filter, ◌==◌, if◌then◌else◌,
}

-- What `pg` is given, or the error that is thrown.
pub data DatabaseSsl : Type 0 where
  left_to_url : DatabaseSsl
  verified : (ca : Text) → DatabaseSsl
  conflicting_database_ssl_config : (url_ssl_params : List Text) → DatabaseSsl

-- What ioredis is given.
pub data RedisTls : Type 0 where
  no_tls : RedisTls
  encrypted_only : RedisTls
  encrypted_and_verified : (ca : Text) → RedisTls

-- `replace(/\\n/g, "\n")`
unfoldable pub unescape_newlines : Text → Text
unescape_newlines [] = []
unescape_newlines (c ∷ []) = c ∷ []
unescape_newlines (c ∷ d ∷ s) =
    let after = unescape_newlines s in
    let rest = unescape_newlines (d ∷ s) in
    if c == b'\\' && d == b'n' then b'\n' ∷ after else c ∷ rest

abbrev pub names_ssl : Text → Bool
names_ssl key = starts_with (to_lower key) (codes "ssl")

abbrev pub ssl_keys : Option (List Text) → List Text
ssl_keys none = []
ssl_keys (some keys) = filter names_ssl (distinct_from [] keys)

-- `search_params` gives the keys of the query, or `none` where the URL does not parse.
unfoldable pub ssl_params_in : (Text → Option (List Text)) → Text → List Text
ssl_params_in search_params connection_string = ssl_keys (search_params connection_string)

abbrev pub refuse_or_pin : List Text → Text → DatabaseSsl
refuse_or_pin [] ca_cert = verified (unescape_newlines ca_cert)
refuse_or_pin (p ∷ ps) ca_cert = conflicting_database_ssl_config (p ∷ ps)

unfoldable pub resolve_database_ssl : (Text → Option (List Text)) → Text → Text → DatabaseSsl
unfolding ssl_params_in
resolve_database_ssl search_params connection_string [] = left_to_url
resolve_database_ssl search_params connection_string (c ∷ cert) =
    refuse_or_pin (ssl_params_in search_params connection_string) (c ∷ cert)

abbrev verify_or_encrypt : Text → RedisTls
verify_or_encrypt [] = encrypted_only
verify_or_encrypt (c ∷ cert) = encrypted_and_verified (unescape_newlines (c ∷ cert))

abbrev pub names_rediss : Text → Bool
names_rediss redis_url = starts_with (to_lower (trim redis_url)) (codes "rediss://")

unfoldable pub resolve_redis_tls : Text → Text → RedisTls
resolve_redis_tls redis_url ca_cert =
    if not (names_rediss redis_url) then no_tls else verify_or_encrypt ca_cert
