-- ===== src/Dashboard/ActivityFilter.antt =====
-- apps/web/src/lib/activityFilter.ts: the parameters of the Activity view. `get` and `has` of the URL's
-- parameters are one function, `none` where a parameter is absent.
use webhook_broadcast.Base.{
  ℕ, ltb, Option, none, some, List, [], ◌++◌, map, Text, text_eq, codes, split, trim, join, filter,
  distinct_from, if◌then◌else◌,
}
use webhook_broadcast.Headers.{is_nonempty}

data ActivityFilter : Type 0 where
  all_broadcasts : ActivityFilter
  failed : ActivityFilter

abbrev activity_filter_param : Text
activity_filter_param = codes "filter"

abbrev failed_filter_value : Text
failed_filter_value = codes "failed"

abbrev activity_endpoint_param : Text
activity_endpoint_param = codes "endpoint"

abbrev filter_value : Option Text → ActivityFilter
filter_value none = all_broadcasts
filter_value (some value) = if text_eq value failed_filter_value then failed else all_broadcasts

activity_filter_from_params : (Text → Option Text) → ActivityFilter
activity_filter_from_params search_params = filter_value (search_params activity_filter_param)

activity_filter_search : ActivityFilter → Text
activity_filter_search failed =
    codes "?" ++ activity_filter_param ++ codes "=" ++ failed_filter_value
activity_filter_search all_broadcasts = []

abbrev ids_of : Option Text → Option (List Text)
ids_of none = none
ids_of (some raw) = some (distinct_from [] (filter is_nonempty (map trim (split b',' raw))))

-- `none` where the operator has not chosen.
expanded_endpoint_ids_from_params : (Text → Option Text) → Option (List Text)
expanded_endpoint_ids_from_params search_params = ids_of (search_params activity_endpoint_param)

expanded_endpoint_ids_to_search_value : List Text → Text
expanded_endpoint_ids_to_search_value ids = join (codes ",") ids

channel_activity_href : Text → ℕ → Text
unfolding activity_filter_search
channel_activity_href slug recent_failed_delivery_count =
    if ltb 0 recent_failed_delivery_count
    then codes "/channels/" ++ slug ++ codes "/activity" ++ activity_filter_search failed
    else codes "/channels/" ++ slug
