-- ===== src/Witnesses/Directories.antt =====
-- The directory of Channels at concrete inputs, with texts in the order of their codes.
use webhook_broadcast.Base.{
  ◌+◌, ◌≡◌, refl, arith, Bool, true, false, ◌&&◌, ◌||◌, none, [], ◌∷◌, Text, codes, text_eq, ◌==◌,
  ltb, filter, count,
}
use webhook_broadcast.Store.Rows.{Database, ChannelRow, dead_lettered}
use webhook_broadcast.Store.Deliveries.{get_recent_failure_counts}
use webhook_broadcast.Store.Directory.{worse, get_failure_rollup_for_channel}
use webhook_broadcast.Store.Directory.Complete.{
  directory, worse-IsStrictOrder, is_listed, directory_key, directory_complete,
}
use webhook_broadcast.Store.Directory.Rollup.{failures, rollup-badge}
use webhook_broadcast.Paging.Order.{Sorted}
use webhook_broadcast.Paging.Lex.{IsCollation}
use webhook_broadcast.Witnesses.Data.{db, channel, delivery}

abbrev precedes : Text → Text → Bool
precedes [] [] = false
precedes [] (y ∷ ys) = true
precedes (x ∷ xs) [] = false
precedes (x ∷ xs) (y ∷ ys) = ltb x y || x == y && precedes xs ys

irrefl : (s : Text) → precedes s s ≡ false
irrefl [] = refl
irrefl (x ∷ xs) = ground (arith, irrefl xs)

trans : (s t u : Text) → precedes s t ≡ true → precedes t u ≡ true → precedes s u ≡ true
trans [] [] u h k = absurd (ground arith)
trans [] (y ∷ ys) [] h k = absurd (ground arith)
trans [] (y ∷ ys) (z ∷ zs) h k = refl
trans (x ∷ xs) [] u h k = absurd (ground arith)
trans (x ∷ xs) (y ∷ ys) [] h k = absurd (ground arith)
trans (x ∷ xs) (y ∷ ys) (z ∷ zs) h k = ground (arith, trans xs ys zs)

total : (s t : Text) → (precedes s t || text_eq s t || precedes t s) ≡ true
unfolding text_eq
total [] [] = refl
total [] (y ∷ ys) = refl
total (x ∷ xs) [] = ground arith
total (x ∷ xs) (y ∷ ys) = ground (arith, total xs ys)

collation : IsCollation precedes
collation = record { strict = record { irrefl = irrefl; trans = trans }; total = total }

abbrev failing : Database
failing = record db {
  channels = channel ∷ record channel { id = 21; slug = codes "refunds" } ∷ [];
  deliveries = record delivery { status = dead_lettered; attempt_count = 3 } ∷ [];
}

directory_complete_example :
    let read = directory precedes failing 1 none 200 3 none in
    Sorted
      (directory_key failing 200)
      (worse precedes)
      (worse-IsStrictOrder precedes collation)
      read
    × ((p : ChannelRow → Bool) → count p read ≡ count p (filter (is_listed none) failing.channels))
directory_complete_example =
    directory_complete precedes collation failing none 200 1 3 (refl, (refl, tt)) (omega arith)
      (omega arith)

rollup-badge_example :
    let badge = get_recent_failure_counts failing 1 200 in
    failures (get_failure_rollup_for_channel precedes failing 1 200) ≡ badge.0 + badge.1
rollup-badge_example = rollup-badge precedes failing 1 200 (refl, (refl, tt)) refl
