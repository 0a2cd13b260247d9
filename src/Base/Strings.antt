-- ===== src/Base/Strings.antt =====
-- Texts as lists of character codes, and the string methods that the program calls on them.
-- Lower-casing is that of ASCII letters and `trim` drops ASCII white space.
use Prim.Native.Char.{code}
use Prim.Native.Nat.{ℕ, zero, suc, ◌+◌, ◌/◌, ◌%◌}
use Prim.Native.String.{String}
use mathlib.Core.Path.{◌≡◌, refl, sym, subst}
use mathlib.Core.Logic.{◌↔◌}
use mathlib.Core.Bool.{Bool, true, false, ◌&&◌, ◌||◌}
use mathlib.Core.List.{List, [], ◌∷◌, ◌++◌, reverse, reverse_aux}
use native.Mathlib.Omega.{arith}
use webhook_broadcast.Base.Lists.{any, any-append}
use webhook_broadcast.Base.Tests.{leb, ltb, ◌==◌, if◌then◌else◌}

abbrev pub Text : Type 0
Text = List ℕ

-- A literal.
abbrev pub codes : String → Text
codes String.[] = []
codes (String.◌∷◌ c s) = code c ∷ codes s

unfoldable pub text_eq : Text → Text → Bool
text_eq [] [] = true
text_eq (x ∷ xs) (y ∷ ys) = (x == y) && text_eq xs ys
text_eq _ _ = false

text_eq_sound : (s t : Text) → text_eq s t ≡ true → s ≡ t
unfolding text_eq
text_eq_sound [] [] h = refl
text_eq_sound (x ∷ xs) (y ∷ ys) h = ground (arith, text_eq_sound xs ys)
text_eq_sound [] (y ∷ ys) h = ground arith
text_eq_sound (x ∷ xs) [] h = ground arith

pub text_eq_refl : (s : Text) → text_eq s s ≡ true
unfolding text_eq
text_eq_refl [] = refl
text_eq_refl (x ∷ xs) = ground (arith, text_eq_refl xs)

pub text_eq_iff : (s t : Text) → (text_eq s t ≡ true) ↔ (s ≡ t)
text_eq_iff s t = (text_eq_sound s t, λ e. ground (arith, text_eq_refl s))

-- `list.includes(s)`, `set.has(s)`
unfoldable pub has_text : Text → List Text → Bool
unfolding text_eq
has_text s [] = false
has_text s (t ∷ ts) = text_eq t s || has_text s ts

-- `[...new Set(list)]`: the first of each, in order.
unfoldable pub distinct_from : List Text → List Text → List Text
unfolding has_text
distinct_from seen [] = seen
distinct_from seen (s ∷ ss) = distinct_from (if has_text s seen then seen else seen ++ s ∷ []) ss

pub has_text-append :
    (s : Text) (xs ys : List Text) → has_text s (xs ++ ys) ≡ (has_text s xs || has_text s ys)
unfolding has_text
has_text-append s [] ys = refl
has_text-append s (x ∷ xs) ys = ground (arith, has_text-append s xs ys)

pub has_text-distinct_from :
    (s : Text) (seen xs : List Text)
    → has_text s (distinct_from seen xs) ≡ (has_text s seen || has_text s xs)
unfolding distinct_from has_text
has_text-distinct_from s seen [] = ground arith
has_text-distinct_from s seen (x ∷ xs) = ground (
  arith,
  has_text-distinct_from s (if has_text x seen then seen else seen ++ x ∷ []) xs,
  has_text-append s seen (x ∷ []),
  text_eq_iff x s,
)

-- A text that is there already counts for the whole list.
any-has_text :
    (p : Text → Bool) (s : Text) (ts : List Text)
    → has_text s ts ≡ true
    → p s ≡ true
    → any p ts ≡ true
unfolding has_text
any-has_text p s [] h q = ground arith
any-has_text p s (t ∷ ts) h q = ground (
  arith,
  any-has_text p s ts,
  λ (e : text_eq t s ≡ true). subst (λ u. p u ≡ true) (sym (text_eq_sound t s e)) q,
)

pub any-distinct_from :
    (p : Text → Bool) (seen xs : List Text)
    → any p (distinct_from seen xs) ≡ (any p seen || any p xs)
unfolding distinct_from
any-distinct_from p seen [] = ground arith
any-distinct_from p seen (x ∷ xs) = ground (
  arith,
  any-distinct_from p (if has_text x seen then seen else seen ++ x ∷ []) xs,
  any-append p seen (x ∷ []),
  any-has_text p x seen,
)

unfoldable pub lower_char : ℕ → ℕ
lower_char c = if leb b'A' c && leb c b'Z' then c + 32 else c

unfoldable pub to_lower : Text → Text
unfolding lower_char
to_lower [] = []
to_lower (c ∷ s) = lower_char c ∷ to_lower s

lower_char_idem : (c : ℕ) → lower_char (lower_char c) ≡ lower_char c
unfolding lower_char
lower_char_idem c = ground arith

pub to_lower_idem : (s : Text) → to_lower (to_lower s) ≡ to_lower s
unfolding to_lower
to_lower_idem [] = refl
to_lower_idem (c ∷ s) = cc (lower_char_idem c, to_lower_idem s)

abbrev is_space : ℕ → Bool
is_space c = c == 32 || leb 9 c && leb c 13

unfoldable pub trim_start : Text → Text
trim_start [] = []
trim_start (c ∷ s) = let rest = trim_start s in if is_space c then rest else c ∷ s

unfoldable pub trim : Text → Text
unfolding trim_start
trim s = reverse (trim_start (reverse (trim_start s)))

-- `s.split(sep)` for a one-character separator: one part more than there are separators.
unfoldable pub split_from : ℕ → Text → Text → List Text
split_from sep part [] = reverse part ∷ []
split_from sep part (c ∷ s) =
    let closed = reverse part ∷ split_from sep [] s in
    let longer = split_from sep (c ∷ part) s in if c == sep then closed else longer

unfoldable pub split : ℕ → Text → List Text
unfolding split_from
split sep s = split_from sep [] s

-- `s.startsWith(t)`
unfoldable pub starts_with : Text → Text → Bool
starts_with s [] = true
starts_with [] (d ∷ t) = false
starts_with (c ∷ s) (d ∷ t) = (c == d) && starts_with s t

-- `s.endsWith(t)`
unfoldable pub ends_with : Text → Text → Bool
unfolding starts_with
ends_with s t = starts_with (reverse s) (reverse t)

-- The decimal digits of a number, in front of `tail`; `n + 1` rounds are enough.
digits_of : ℕ → ℕ → Text → Text
digits_of zero n tail = tail
digits_of (suc fuel) n tail =
    let more = digits_of fuel (n / 10) ((48 + n % 10) ∷ tail) in
    if ltb n 10 then (48 + n) ∷ tail else more

-- `String(n)`
unfoldable pub decimal : ℕ → Text
unfolding digits_of
decimal n = digits_of (suc n) n []

-- `parts.join(sep)`
unfoldable pub join : Text → List Text → Text
join sep [] = []
join sep (t ∷ []) = t
join sep (t ∷ u ∷ ts) = t ++ sep ++ join sep (u ∷ ts)

split_from_none :
    (sep : ℕ) (part s : Text)
    → any (◌==◌ sep) s ≡ false
    → split_from sep part s ≡ reverse_aux part s ∷ []
unfolding split_from
split_from_none sep part [] h = refl
split_from_none sep part (c ∷ s) h = ground (arith, split_from_none sep (c ∷ part) s)

-- A text without the separator is its own only part.
pub split_none : (sep : ℕ) (s : Text) → any (◌==◌ sep) s ≡ false → split_from sep [] s ≡ s ∷ []
split_none sep s h = split_from_none sep [] s h
