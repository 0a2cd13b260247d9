-- ===== src/ErrorChain/Walk.antt =====
-- apps/api/src/errorChain.ts: the walk is bounded, describes no object twice, and misses none where it
-- reports no further causes.
use webhook_broadcast.Base.{
  ℕ, zero, suc, ◌≤◌, ◌≡◌, inl, inr, arith, refl, not, ◌&&◌, Bool, true, false, ◌||◌, ◌++◌, List, [],
  ◌∷◌, any, length, length-append, ◌==◌, Bool-cases,
}
use webhook_broadcast.ErrorChain.{
  Value, absent, string_value, primitive, reference, Heap, link, max_chain_links, describe_link,
  successors_of, walk, unreported, further, chain_of, chain_lines,
}

abbrev pub mem : ℕ → List ℕ → Bool
mem r seen = any (◌==◌ r) seen

abbrev is_reference : ℕ → Value → Bool
is_reference r absent = false
is_reference r (string_value s) = false
is_reference r (primitive s) = false
is_reference r (reference o) = r == o

abbrev pub points_to : ℕ → List Value → Bool
points_to r vs = any (is_reference r) vs

walk_old :
    (heap : Heap) (room : ℕ) (seen : List ℕ) (o : ℕ) (vs : List Value)
    → mem o seen ≡ true
    → walk heap (suc room) seen (reference o ∷ vs) ≡ walk heap (suc room) seen vs
unfolding walk
walk_old heap room seen o vs old = rw (old, walk) refl

walk_new :
    (heap : Heap) (room : ℕ) (seen : List ℕ) (o : ℕ) (vs : List Value)
    → mem o seen ≡ false
    → walk heap (suc room) seen (reference o ∷ vs)
      ≡ link
          (describe_link heap (reference o))
          (walk heap room (o ∷ seen) (successors_of heap (reference o) ++ vs))
unfolding walk
walk_new heap room seen o vs new = rw (new, walk) refl

length-walk :
    (heap : Heap) (room : ℕ) (seen : List ℕ) (vs : List Value)
    → length ((walk heap room seen vs).links) ≤ room
unfolding walk
length-walk heap zero seen vs = omega arith
length-walk heap (suc room) seen [] = omega arith
length-walk heap (suc room) seen (absent ∷ vs) = length-walk heap (suc room) seen vs
length-walk heap (suc room) seen (string_value s ∷ vs) =
    omega (arith, length-walk heap room seen vs)
length-walk heap (suc room) seen (primitive s ∷ vs) = omega (arith, length-walk heap room seen vs)
length-walk heap (suc room) seen (reference o ∷ vs) = elim (Bool-cases (mem o seen)) [
  | inl old ↦ rw (walk_old heap room seen o vs old) (length-walk heap (suc room) seen vs)
  | inr new ↦
      rw (walk_new heap room seen o vs new)
        (omega (arith, length-walk heap room (o ∷ seen) (successors_of heap (reference o) ++ vs)))
]

length-further : (vs : List Value) → length (further vs) ≤ 1
length-further [] = omega arith
length-further (v ∷ vs) = omega arith

-- Whatever the heap, cycles included, the line has at most eight links and one note.
pub length-chain_lines : (heap : Heap) (error : Value) → length (chain_lines heap error) ≤ 9
unfolding chain_lines chain_of
length-chain_lines heap error = omega (
  arith,
  length-append ((chain_of heap error).links) (further (unreported (chain_of heap error))),
  length-walk heap max_chain_links [] (error ∷ []),
  length-further (unreported (chain_of heap error)),
)

abbrev pub distinct : List ℕ → Bool
distinct [] = true
distinct (r ∷ rs) = not (mem r rs) && distinct rs

-- What has been described or will be.
abbrev known : ℕ → List ℕ → List Value → Bool
known r seen vs = mem r seen || points_to r vs

-- The successors of what has been described have been described or will be.
abbrev Closed : Heap → List ℕ → List Value → Type 0
Closed heap seen vs =
    (r s : ℕ)
    → mem r seen ≡ true
    → points_to s (successors_of heap (reference r)) ≡ true
    → known s seen vs ≡ true

-- An error and what it leads to by `cause` and `errors`.
pub data Causes (heap : Heap) (root : ℕ) : ℕ → Type 0 where
  itself : Causes heap root root
  deeper :
      (r s : ℕ)
      → Causes heap root r
      → points_to s (successors_of heap (reference r)) ≡ true
      → Causes heap root s
