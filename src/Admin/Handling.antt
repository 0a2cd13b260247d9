-- ===== src/Admin/Handling.antt =====
-- What the end of a handler says of its parts.
use webhook_broadcast.Base.{ℕ, ◌≡◌, refl, ap, arith, Option, none, some}
use webhook_broadcast.Admin.{
  Outcome, done, refused, thrown, Handler, ErrorCode, reply, after, require,
}

-- A part that ends with a value, in a state.
pub record Passed {S A B : Type 0} (r : S × Outcome A) (k : A → Handler S B) (s' : S) (b : B)
    : Type 0 where
  pub state : S
  pub value : A
  pub here : r ≡ (state, done value)
  pub rest : k value state ≡ (s', done b)

pub after-Passed :
    {S A B : Type 0} (r : S × Outcome A) (k : A → Handler S B) (s' : S) (b : B)
    → after r k ≡ (s', done b)
    → Passed r k s' b
after-Passed (s, done a) k s' b e = record { state = s; value = a; here = refl; rest = e }
after-Passed (s, refused status code) k s' b e = absurd (ground (arith, ap (λ p. p.1) e))
after-Passed (s, thrown) k s' b e = absurd (ground (arith, ap (λ p. p.1) e))

unfoldable pub value_of : {A : Type 0} → A → Outcome A → A
value_of d (done a) = a
value_of d (refused status code) = d
value_of d thrown = d

pub require-done :
    {S A : Type 0} (status : ℕ) (code : ErrorCode) (o : Option A) (s s' : S) (a : A)
    → require status code o s ≡ (s', done a)
    → (o ≡ some a) × (s ≡ s')
unfolding value_of
require-done status code none s s' a e = absurd (ground (arith, ap (λ p. p.1) e))
require-done status code (some b) s s' a e = (ap (λ p. some (value_of b p.1)) e, ap (λ p. p.0) e)

-- A part that requires something, and a handler that goes on with it.
pub record Required {S A B : Type 0} (o : Option A) (k : A → Handler S B) (s s' : S) (b : B)
    : Type 0 where
  pub value : A
  pub present : o ≡ some value
  pub rest : k value s ≡ (s', done b)

pub require-Required :
    {S A B : Type 0} (status : ℕ) (code : ErrorCode) (o : Option A) (k : A → Handler S B) (s s' : S)
    (b : B)
    → after (require status code o s) k ≡ (s', done b)
    → Required o k s s' b
require-Required status code none k s s' b e = absurd (ground (arith, ap (λ p. p.1) e))
require-Required status code (some a) k s s' b e = record { value = a; present = refl; rest = e }

pub reply-done :
    {S B : Type 0} (n status : ℕ) (a b : B) (s s' : S)
    → reply n a s ≡ (s', done (status, b))
    → (s ≡ s') × (n ≡ status) × (a ≡ b)
unfolding value_of
reply-done {B = B} n status a b s s' e = (
  ap (λ r. r.0) e,
  ap (λ r. (value_of {A = ℕ × B} (status, b) r.1).0) e,
  ap (λ r. (value_of {A = ℕ × B} (status, b) r.1).1) e,
)

-- What each part of a handler keeps, the handler keeps.
pub after_kept :
    {S A B : Type 0} (P : S → Type 0) (r : S × Outcome A) (k : A → Handler S B)
    → P r.0
    → ((s : S) (a : A) → r ≡ (s, done a) → P s → P (k a s).0)
    → P (after r k).0
after_kept P (s, done a) k h keeps = keeps s a refl h
after_kept P (s, refused status code) k h keeps = h
after_kept P (s, thrown) k h keeps = h

pub require_kept :
    {S A : Type 0} (P : S → Type 0) (status : ℕ) (code : ErrorCode) (o : Option A) (s : S)
    → P s
    → P (require status code o s).0
require_kept P status code none s h = h
require_kept P status code (some a) s h = h
