-- ===== src/Base/Objects.antt =====
-- A JavaScript object with text keys: its entries in the order of first assignment. (An object
-- lists integer-like keys first; nothing here depends on that order.)
use mathlib.Core.Path.{◌≡◌, refl}
use mathlib.Core.Option.{Option, none, some}
use mathlib.Core.List.{List, [], ◌∷◌}
use native.Mathlib.Omega.{arith}
use webhook_broadcast.Base.Tests.{if◌then◌else◌}
use webhook_broadcast.Base.Strings.{Text, text_eq, text_eq_iff}

module _ {ℓ} {V : Type ℓ} where
  -- `object[key]`
  unfoldable pub get : Text → List (Text × V) → Option V
  get k [] = none
  get k ((j, v) ∷ m) = let rest = get k m in if text_eq j k then some v else rest

  -- `object[key] = value`
  unfoldable pub put : Text → V → List (Text × V) → List (Text × V)
  put k v [] = (k, v) ∷ []
  put k v ((j, w) ∷ m) = let rest = put k v m in if text_eq j k then (j, v) ∷ m else (j, w) ∷ rest

  -- `{ ...object, ...entries }`
  unfoldable pub assign : List (Text × V) → List (Text × V) → List (Text × V)
  assign m [] = m
  assign m ((k, v) ∷ es) = assign (put k v m) es

  -- No key twice.
  abbrev pub IsObject : List (Text × V) → Type ℓ
  IsObject [] = Unit
  IsObject ((k, v) ∷ m) = (get k m ≡ none) × IsObject m

  -- The first, where it has a value.
  abbrev pub or_else : Option V → Option V → Option V
  or_else none b = b
  or_else (some a) b = some a

  pub get-put :
      (j k : Text) (v : V) (m : List (Text × V))
      → get j (put k v m) ≡ (if text_eq k j then some v else get j m)
  unfolding get put
  get-put j k v [] = refl
  get-put j k v ((i, w) ∷ m) =
      ground (arith, text_eq_iff k j, text_eq_iff i k, text_eq_iff i j, get-put j k v m)

  pub put-IsObject : (k : Text) (v : V) (m : List (Text × V)) → IsObject m → IsObject (put k v m)
  unfolding get put
  put-IsObject k v [] h = (refl, tt)
  put-IsObject k v ((j, w) ∷ m) h =
      ground (arith, put-IsObject k v m h.1, get-put j k v m, text_eq_iff j k, text_eq_iff k j)

  pub assign-IsObject : (m es : List (Text × V)) → IsObject m → IsObject (assign m es)
  unfolding assign
  assign-IsObject m [] h = h
  assign-IsObject m ((k, v) ∷ es) h = assign-IsObject (put k v m) es (put-IsObject k v m h)

  -- The later object wins.
  pub get-assign :
      (j : Text) (m es : List (Text × V))
      → IsObject es
      → get j (assign m es) ≡ or_else (get j es) (get j m)
  unfolding get assign
  get-assign j m [] h = refl
  get-assign j m ((k, v) ∷ es) h =
      ground (arith, get-assign j (put k v m) es h.1, get-put j k v m, text_eq_iff k j)
