-- ===== src/Paging/Order.antt =====
-- Sorting by a strict order on keys.
use webhook_broadcast.Base.{
  Bool, true, false, ◌&&◌, ◌||◌, List, [], ◌∷◌, ◌++◌, ◌≡◌, refl, ◌∙◌, arith, filter, count, all,
  filter-all, if◌then◌else◌, Bool-cases, inl, inr,
}
use webhook_broadcast.Paging.{insert, order_by}

-- A strict order.
pub record IsStrictOrder {κ} {K : Type κ} (before : K → K → Bool) : Type κ where
  pub irrefl : (a : K) → before a a ≡ false
  pub trans : (a b c : K) → before a b ≡ true → before b c ≡ true → before a c ≡ true

pub asym {κ} :
    {K : Type κ} (before : K → K → Bool)
    → IsStrictOrder before
    → (a b : K) → before a b ≡ true
    → before b a ≡ false
asym before order a b h = elim (Bool-cases (before b a)) [
  | inl e ↦ cc (order.trans a b a h e, order.irrefl a)
  | inr e ↦ e
]

module _ {ℓ} {A : Type ℓ} where
  pub all-filter : (p q : A → Bool) (xs : List A) → all q xs ≡ true → all q (filter p xs) ≡ true
  all-filter p q [] h = refl
  all-filter p q (x ∷ xs) h = ground (arith, all-filter p q xs)

  all-middle :
      (p : A → Bool) (front rear : List A) (x : A) → all p (front ++ x ∷ rear) ≡ true → p x ≡ true
  all-middle p [] rear x h = ground arith
  all-middle p (y ∷ front) rear x h = ground (arith, all-middle p front rear x)

module _ {ℓ κ} {A : Type ℓ} {K : Type κ} (key : A → K) (before : K → K → Bool)
    (order : IsStrictOrder before) where
  abbrev pub Sorted : List A → Type 0
  Sorted [] = Unit
  Sorted (x ∷ xs) = (all (λ y. before (key x) (key y)) xs ≡ true) × Sorted xs

  abbrev comparable : A → A → Bool
  comparable x y = before (key x) (key y) || before (key y) (key x)

  -- Any two rows are ordered by their keys, as where the key holds a primary key.
  abbrev pub HasDistinctKeys : List A → Type 0
  HasDistinctKeys [] = Unit
  HasDistinctKeys (x ∷ xs) = (all (comparable x) xs ≡ true) × HasDistinctKeys xs

  all-insert :
      (p : A → Bool) (x : A) (ys : List A) → all p (insert key before x ys) ≡ (p x && all p ys)
  unfolding insert
  all-insert p x [] = refl
  all-insert p x (y ∷ ys) = ground (arith, all-insert p x ys)

  all-order_by : (p : A → Bool) (xs : List A) → all p (order_by key before xs) ≡ all p xs
  unfolding order_by
  all-order_by p [] = refl
  all-order_by p (x ∷ xs) =
      ground (arith, all-order_by p xs, all-insert p x (order_by key before xs))

  count-insert :
      (p : A → Bool) (x : A) (ys : List A) → count p (insert key before x ys) ≡ count p (x ∷ ys)
  unfolding insert
  count-insert p x [] = refl
  count-insert p x (y ∷ ys) = ground (arith, count-insert p x ys)

  -- Sorting keeps every row, as often as it was there.
  pub count-order_by : (p : A → Bool) (xs : List A) → count p (order_by key before xs) ≡ count p xs
  unfolding order_by
  count-order_by p [] = refl
  count-order_by p (x ∷ xs) =
      ground (arith, count-order_by p xs, count-insert p x (order_by key before xs))

  all-before :
      (x y : A) (ys : List A)
      → before (key x) (key y) ≡ true
      → all (λ z. before (key y) (key z)) ys ≡ true
      → all (λ z. before (key x) (key z)) ys ≡ true
  all-before x y [] h k = refl
  all-before x y (z ∷ zs) h k =
      ground (arith, all-before x y zs h, order.trans (key x) (key y) (key z) h)

  insert-Sorted :
      (x : A) (ys : List A)
      → all (comparable x) ys ≡ true
      → Sorted ys
      → Sorted (insert key before x ys)
  unfolding insert
  insert-Sorted x [] c s = (refl, tt)
  insert-Sorted x (y ∷ ys) c s = elim (Bool-cases (before (key x) (key y))) [
    | inl e ↦ rw e ((ground (arith, all-before x y ys e (s.0)), s))
    | inr e ↦ rw e (
        (
          ground (arith, all-insert (λ z. before (key y) (key z)) x ys, s.0),
          insert-Sorted x ys (ground arith) (s.1),
        ))
  ]

  pub order_by-Sorted : (xs : List A) → HasDistinctKeys xs → Sorted (order_by key before xs)
  unfolding order_by
  order_by-Sorted [] d = tt
  order_by-Sorted (x ∷ xs) d =
      insert-Sorted x (order_by key before xs) (all-order_by (comparable x) xs ∙ d.0)
        (order_by-Sorted xs (d.1))

  insert_front :
      (x : A) (ys : List A)
      → all (λ y. before (key x) (key y)) ys ≡ true
      → insert key before x ys ≡ x ∷ ys
  unfolding insert
  insert_front x [] h = refl
  insert_front x (y ∷ ys) h = ground arith

  filter-insert :
      (p : A → Bool) (x : A) (ys : List A)
      → Sorted ys
      → filter p (insert key before x ys)
        ≡ (if p x then insert key before x (filter p ys) else filter p ys)
  unfolding insert
  filter-insert p x [] s = ground arith
  filter-insert p x (y ∷ ys) s = elim (Bool-cases (before (key x) (key y))) [
    | inl e ↦ ground (
      arith,
      e,
      insert_front x (filter p ys)
          (all-filter p (λ z. before (key x) (key z)) ys (all-before x y ys e (s.0))),
    )
    | inr e ↦ ground (arith, e, filter-insert p x ys (s.1))
  ]

  -- Filtering before the sort is filtering after it.
  pub order_by-filter :
      (p : A → Bool) (xs : List A)
      → HasDistinctKeys xs
      → order_by key before (filter p xs) ≡ filter p (order_by key before xs)
  unfolding order_by
  order_by-filter p [] d = refl
  order_by-filter p (x ∷ xs) d = ground (
    arith,
    order_by-filter p xs (d.1),
    filter-insert p x (order_by key before xs) (order_by-Sorted xs (d.1)),
  )

  -- In a sorted list, the rows after one of them are those that follow it.
  pub filter_after :
      (front rear : List A) (x : A)
      → Sorted (front ++ x ∷ rear)
      → filter (λ y. before (key x) (key y)) (front ++ x ∷ rear) ≡ rear
  filter_after [] rear x s =
      ground (arith, order.irrefl (key x), filter-all (λ y. before (key x) (key y)) rear (s.0))
  filter_after (y ∷ front) rear x s = ground (
    arith,
    filter_after front rear x (s.1),
    asym before order (key y) (key x),
    all-middle (λ z. before (key y) (key z)) front rear x (s.0),
  )
