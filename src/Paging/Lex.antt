-- ===== src/Paging/Lex.antt =====
-- Orders of keys that compare one column after the other.
use webhook_broadcast.Base.{
  ℕ, ◌≡◌, arith, Bool, true, ◌&&◌, ◌||◌, Text, text_eq, text_eq_iff, ◌==◌, ltb,
}
use webhook_broadcast.Paging.Order.{IsStrictOrder}

-- The order of a column of texts in the database: total, and strict.
pub record IsCollation (precedes : Text → Text → Bool) : Type 0 where
  pub strict : IsStrictOrder precedes
  pub total : (s t : Text) → (precedes s t || text_eq s t || precedes t s) ≡ true

pub ltb-IsStrictOrder : IsStrictOrder ltb
ltb-IsStrictOrder = record { irrefl = λ a. ground arith; trans = λ a b c h l. ground arith }

module _ {L : Type 0} (after : L → L → Bool) where
  -- `asc(column)`, then the rest.
  abbrev pub ascending : ℕ × L → ℕ × L → Bool
  ascending (k, l) (k', l') = ltb k k' || k == k' && after l l'

  -- `desc(column)`, then the rest.
  abbrev pub descending : ℕ × L → ℕ × L → Bool
  descending (k, l) (k', l') = ltb k' k || k == k' && after l l'

  -- `asc` of a column of texts, then the rest.
  abbrev pub by_text : (Text → Text → Bool) → Text × L → Text × L → Bool
  by_text precedes (s, l) (s', l') = precedes s s' || text_eq s s' && after l l'

module _ {L : Type 0} (after : L → L → Bool) (order : IsStrictOrder after) where
  pub ascending-IsStrictOrder : IsStrictOrder (ascending after)
  ascending-IsStrictOrder = record {
    irrefl = λ (k, l). ground (arith, order.irrefl l);
    trans = λ (a, l) (b, m) (c, n) h k. ground (arith, order.trans l m n);
  }

  pub descending-IsStrictOrder : IsStrictOrder (descending after)
  descending-IsStrictOrder = record {
    irrefl = λ (k, l). ground (arith, order.irrefl l);
    trans = λ (a, l) (b, m) (c, n) h k. ground (arith, order.trans l m n);
  }

  pub by_text-IsStrictOrder :
      (precedes : Text → Text → Bool)
      → IsCollation precedes
      → IsStrictOrder (by_text after precedes)
  by_text-IsStrictOrder precedes collation = record {
    irrefl = λ (s, l). ground (arith, order.irrefl l, collation.strict.irrefl s);
    trans = λ (s, l) (t, m) (u, n) h k. ground (
      arith,
      order.trans l m n,
      collation.strict.trans s t u,
      text_eq_iff s t,
      text_eq_iff t u,
      text_eq_iff s u,
    );
  }
