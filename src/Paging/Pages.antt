-- ===== src/Paging/Pages.antt =====
-- Following `nextCursor` from the first page to the last.
use webhook_broadcast.Base.{
  ℕ, zero, suc, ◌-◌, ◌≤◌, ◌<◌, Bool, true, ◌&&◌, Option, none, some, List, [], ◌∷◌, ◌++◌, ◌≡◌, refl,
  sym, subst, ◌∙◌, ap, arith, length, take, drop, last?, filter, filter-all, all, append-nil_lem,
  take-append-drop, take_all, length-filter-le,
}
use mathlib.Core.Option
use mathlib.Core.List.{append_assoc}
use native.Mathlib.Decide.{dec_le}
use webhook_broadcast.Paging.{order_by, insert, page, rows_after, list_page, follow}
use webhook_broadcast.Paging.Order.{
  IsStrictOrder, Sorted, HasDistinctKeys, order_by-Sorted, order_by-filter, filter_after,
}

module _ {ℓ} {A : Type ℓ} where
  length-take-le : (n : ℕ) (xs : List A) → n ≤ length xs → length (take n xs) ≡ n
  length-take-le zero xs h = refl
  length-take-le (suc n) [] h = absurd (omega arith)
  length-take-le (suc n) (x ∷ xs) h = omega (arith, length-take-le n xs)

  length-drop : (n : ℕ) (xs : List A) → length (drop n xs) ≡ length xs - n
  length-drop zero xs = omega arith
  length-drop (suc n) [] = omega arith
  length-drop (suc n) (x ∷ xs) = omega (arith, length-drop n xs)

  take-take-suc : (n : ℕ) (xs : List A) → take n (take (suc n) xs) ≡ take n xs
  take-take-suc zero xs = refl
  take-take-suc (suc n) [] = refl
  take-take-suc (suc n) (x ∷ xs) = ap (◌∷◌ x) (take-take-suc n xs)

  -- A list that is not empty ends in its last element.
  split_last :
      (xs : List A)
      → 0 < length xs
      → (front : List A) × (x : A) × (xs ≡ front ++ x ∷ []) × (last? xs ≡ some x)
  split_last [] h = absurd (omega arith)
  split_last (x ∷ []) h = ([], x, refl, refl)
  split_last (x ∷ y ∷ xs) h =
      let (front, z, e, l) = split_last (y ∷ xs) (omega arith) in (x ∷ front, z, ap (◌∷◌ x) e, l)

  all-true : (xs : List A) → all (λ (x : A). true) xs ≡ true
  all-true [] = refl
  all-true (x ∷ xs) = all-true xs

  regroup_tail :
      (n : ℕ) (front rest : List A) → front ++ rest ≡ (front ++ take n rest) ++ drop n rest
  regroup_tail n front rest =
      ap (◌++◌ front) (sym (take-append-drop n rest)) ∙ sym (append_assoc front _ _)

  around :
      (n : ℕ) (front rest q : List A) (x : A)
      → take n rest ≡ q ++ x ∷ []
      → front ++ rest ≡ (front ++ q) ++ x ∷ drop n rest
  around n front rest q x e = regroup_tail n front rest ∙ rw e (simp append_assoc)

  filter-filter :
      (p q : A → Bool) (xs : List A) → filter (λ r. p r && q r) xs ≡ filter q (filter p xs)
  filter-filter p q [] = refl
  filter-filter p q (x ∷ xs) = ground (arith, filter-filter p q xs)

module _ {ℓ κ} {A : Type ℓ} {K : Type κ} (key : A → K) (before : K → K → Bool) where
  length-insert : (x : A) (xs : List A) → length (insert key before x xs) ≡ suc (length xs)
  unfolding insert
  length-insert x [] = refl
  length-insert x (y ∷ ys) = ground (arith, length-insert x ys)

  length-order_by : (xs : List A) → length (order_by key before xs) ≡ length xs
  unfolding order_by
  length-order_by [] = refl
  length-order_by (x ∷ xs) =
      omega (arith, length-order_by xs, length-insert x (order_by key before xs))

  page_last :
      (limit : ℕ) (rows : List A)
      → length rows ≤ limit
      → page key before limit (take (suc limit) rows) ≡ (rows, none)
  unfolding page
  page_last limit rows h = rw (take_all (suc limit) rows (omega arith)) (ground arith)

  page_more :
      (limit : ℕ) (rows : List A)
      → limit < length rows
      → page key before limit (take (suc limit) rows)
        ≡ (take limit rows, Option.map key (last? (take limit rows)))
  unfolding page
  page_more limit rows h =
      ground (arith, length-take-le (suc limit) rows h, take-take-suc limit rows)

  -- The rows of every page, as a client that follows the cursors sees them.
  unfoldable pub pages : (A → Bool) → List A → ℕ → ℕ → Option K → List A
  pages matches table limit zero cursor = []
  pages matches table limit (suc fuel) cursor =
      (list_page key before matches table cursor limit).0
      ++ follow (pages matches table limit fuel) (list_page key before matches table cursor limit).1

module _ {ℓ κ} {A : Type ℓ} {K : Type κ} (key : A → K) (before : K → K → Bool)
    (order : IsStrictOrder before) (matches : A → Bool) (table : List A)
    (distinct : HasDistinctKeys key before order (filter matches table)) where
  whole : List A
  whole = order_by key before (filter matches table)

  rows_after-some :
      (cursor : K)
      → rows_after key before matches table (some cursor)
        ≡ filter (λ r. before cursor (key r)) whole
  unfolding rows_after whole
  rows_after-some cursor =
      ap (order_by key before) (filter-filter matches (λ r. before cursor (key r)) table)
      ∙ order_by-filter key before order (λ r. before cursor (key r)) (filter matches table)
          distinct

  rows_after-none : rows_after key before matches table none ≡ whole
  unfolding rows_after whole
  rows_after-none = ap (order_by key before) (
      filter-filter matches (λ r. true) table
      ∙ filter-all (λ r. true) (filter matches table) (all-true (filter matches table)))

  after_page :
      (limit : ℕ) (front rest q : List A) (x : A)
      → whole ≡ front ++ rest
      → take limit rest ≡ q ++ x ∷ []
      → rows_after key before matches table (some (key x)) ≡ drop limit rest
  unfolding whole
  after_page limit front rest q x split ends =
      let e = split ∙ around limit front rest q x ends in
      rows_after-some (key x)
      ∙ ap (filter (λ r. before (key x) (key r))) e
      ∙ filter_after key before order (front ++ q) (drop limit rest) x (
          subst (Sorted key before order) e
            (order_by-Sorted key before order (filter matches table) distinct))

  pages_rest :
      (limit fuel : ℕ) (cursor : Option K) (front rest : List A)
      → 0 < limit
      → length rest < fuel
      → whole ≡ front ++ rest
      → rows_after key before matches table cursor ≡ rest
      → pages key before matches table limit fuel cursor ≡ rest
  unfolding pages list_page
  pages_rest limit zero cursor front rest pos short split at = absurd (omega arith)
  pages_rest limit (suc fuel) cursor front rest pos short split at =
      elim (dec_le (length rest) limit) [
        | yes last ↦ rw at (rw (page_last key before limit rest last) (append-nil_lem rest))
        | no more ↦
            let (q, x, ends, is_last) =
              split_last (take limit rest) (omega (arith, length-take-le limit rest)) in
            rw at (
              rw (page_more key before limit rest (omega arith)) (
                rw is_last (
                  ap (◌++◌ (take limit rest)) (
                    pages_rest limit fuel (some (key x)) (front ++ take limit rest)
                      (drop limit rest) pos (omega (arith, length-drop limit rest))
                      (split ∙ (regroup_tail limit front rest))
                      (after_page limit front rest q x split ends))
                  ∙ take-append-drop limit rest)))
      ]

  -- Following the cursors from the first page returns every row that matches once, in order, whatever
  -- the page size; one request more than there are rows is always enough.
  pub pages_complete :
      (limit fuel : ℕ)
      → 0 < limit
      → length table < fuel
      → pages key before matches table limit fuel none ≡ order_by key before (filter matches table)
  unfolding whole
  pages_complete limit fuel pos short =
      pages_rest limit fuel none [] whole pos
        (omega (
          arith,
          length-order_by key before (filter matches table),
          length-filter-le matches table,
        ))
        refl rows_after-none
