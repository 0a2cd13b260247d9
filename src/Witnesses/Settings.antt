-- ===== src/Witnesses/Settings.antt =====
-- TLS settings and the clock of the dashboard at concrete inputs.
use webhook_broadcast.Base.{
  ◌≡◌, ◌↔◌, refl, ◌++◌, true, false, Option, some, List, [], ◌∷◌, Text, codes, any, distinct_from,
  starts_with, to_lower, trim, decimal,
}
use webhook_broadcast.Tls.{
  verified, conflicting_database_ssl_config, encrypted_and_verified, ssl_params_in,
  unescape_newlines, resolve_database_ssl, resolve_redis_tls,
}
use webhook_broadcast.Tls.Pinned.{begins_ssl, Unescapes, query_keys, resolve_database_ssl_verified}
use webhook_broadcast.Dashboard.ElapsedClock.{
  Event, subscribes, unsubscribes, visibility_changes, fires, loaded, handle_all, is_well_timed,
  elapsed_clock-is_well_timed,
}
use webhook_broadcast.Dashboard.RelativeTime.{format_elapsed}

abbrev keys : Text → Option (List Text)
keys url = some (url ∷ codes "application_name" ∷ url ∷ [])

abbrev pem : Text
pem = codes "-----" ++ b'\\' ∷ codes "nMII"

abbrev real_pem : Text
real_pem = codes "-----" ++ b'\n' ∷ codes "MII"

resolve_database_ssl_verified_example :
    (resolve_database_ssl keys (codes "host") pem ≡ verified real_pem)
    ↔ ((any begins_ssl (query_keys (keys (codes "host"))) ≡ false) × Unescapes pem real_pem)
resolve_database_ssl_verified_example =
    resolve_database_ssl_verified keys (codes "host") b'-' (codes "----" ++ b'\\' ∷ codes "nMII")
      real_pem

pinned : resolve_database_ssl keys (codes "host") pem ≡ verified real_pem
unfolding resolve_database_ssl ssl_params_in unescape_newlines distinct_from starts_with to_lower
pinned = refl

refused :
    resolve_database_ssl keys (codes "SSLmode") pem
    ≡ conflicting_database_ssl_config (codes "SSLmode" ∷ [])
unfolding resolve_database_ssl ssl_params_in distinct_from starts_with to_lower
refused = refl

redis : resolve_redis_tls (codes " Rediss://cache") pem ≡ encrypted_and_verified real_pem
unfolding resolve_redis_tls unescape_newlines starts_with to_lower trim
redis = refl

-- Two labels, a tab that is hidden and shown, and a label that goes.
abbrev events : List Event
events =
    subscribes 1 5
    ∷ subscribes 2 6
    ∷ fires 30006
    ∷ visibility_changes true 30010
    ∷ visibility_changes false 90000
    ∷ unsubscribes 1
    ∷ []

elapsed_clock-is_well_timed_example : is_well_timed (handle_all events (loaded 0 false)) ≡ true
elapsed_clock-is_well_timed_example = elapsed_clock-is_well_timed 0 false events

one_interval : (handle_all events (loaded 0 false)).running ≡ 2 ∷ []
unfolding handle_all
one_interval = refl

two_minutes : format_elapsed 0 120000 ≡ codes "2m ago"
unfolding format_elapsed decimal
two_minutes = refl
