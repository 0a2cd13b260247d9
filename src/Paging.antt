-- ===== src/Paging.antt =====
-- Keyset pagination, as the three list queries of packages/db/src/repositories do it: the rows after a
-- cursor in the order of their keys, one row more than the page to see whether there is a next one.
pub mod Order
pub mod Lex
pub mod Pages
use webhook_broadcast.Base.{
  ℕ, suc, ◌+◌, Bool, true, false, ◌&&◌, Option, none, some, List, [], ◌∷◌, length, take, last?,
  filter, ltb, if◌then◌else◌,
}
use mathlib.Core.Option

module _ {ℓ κ} {A : Type ℓ} {K : Type κ} (key : A → K) (before : K → K → Bool) where
  -- `order by`, by insertion.
  unfoldable pub insert : A → List A → List A
  insert r [] = r ∷ []
  insert r (s ∷ ss) =
      let rest = insert r ss in if before (key r) (key s) then r ∷ s ∷ ss else s ∷ rest

  unfoldable pub order_by : List A → List A
  order_by [] = []
  order_by (r ∷ rs) = insert r (order_by rs)

  abbrev pub is_after : Option K → A → Bool
  is_after none r = true
  is_after (some cursor) r = before cursor (key r)

  -- The tail of each query: `hasMore`, `items` and `nextCursor` from at most `limit + 1` rows.
  unfoldable pub page : ℕ → List A → List A × Option K
  page limit rows =
      if ltb limit (length rows)
      then (take limit rows, Option.map key (last? (take limit rows)))
      else (rows, none)

  -- The rows that match, after the cursor, in order.
  unfoldable pub rows_after : (A → Bool) → List A → Option K → List A
  rows_after matches table cursor = order_by (filter (λ r. matches r && is_after cursor r) table)

  unfoldable pub list_page : (A → Bool) → List A → Option K → ℕ → List A × Option K
  unfolding page rows_after
  list_page matches table cursor limit =
      page limit (take (suc limit) (rows_after matches table cursor))

-- What a client reads next: nothing after the last page.
abbrev pub follow {ℓ κ} : {A : Type ℓ} {K : Type κ} → (Option K → List A) → Option K → List A
follow rest none = []
follow rest (some next) = rest (some next)
