-- ===== src/DatabaseErrors.antt =====
-- packages/db/src/pgErrors.ts: which constraint an error of the database reports. An error is read to the end
-- of its causes, of which there are finitely many.
use webhook_broadcast.Base.{
  ◌≡◌, refl, Bool, false, ◌&&◌, Option, none, some, List, [], ◌∷◌, Text, codes, text_eq,
}

-- What is read of a thrown value: whether it is an object, its `code` and `constraint` where they are texts,
-- and its `cause` where it has one.
pub data Thrown : Type 0 where
  opaque : Thrown
  uncaused : (code constraint : Option Text) → Thrown
  caused : (code constraint : Option Text) (cause : Thrown) → Thrown

abbrev unique_violation : Text
unique_violation = codes "23505"

abbrev check_violation : Text
check_violation = codes "23514"

pg_error_code : Thrown → Option Text
pg_error_code opaque = none
pg_error_code (uncaused code constraint) = code
pg_error_code (caused (some code) constraint cause) = some code
pg_error_code (caused none constraint cause) = pg_error_code cause

pg_constraint_name : Thrown → Option Text
pg_constraint_name opaque = none
pg_constraint_name (uncaused code constraint) = constraint
pg_constraint_name (caused code (some constraint) cause) = some constraint
pg_constraint_name (caused code none cause) = pg_constraint_name cause

abbrev is_text : Text → Option Text → Bool
is_text expected none = false
is_text expected (some t) = text_eq t expected

is_unique_violation : Thrown → Bool
unfolding pg_error_code
is_unique_violation error = is_text unique_violation (pg_error_code error)

is_check_violation : Thrown → Text → Bool
unfolding pg_error_code pg_constraint_name
is_check_violation error constraint_name =
    is_text check_violation (pg_error_code error)
    && is_text constraint_name (pg_constraint_name error)

-- Errors around a driver's error that have neither a code nor a constraint of their own, outermost first.
wrapped : List Thrown → Thrown → Thrown
wrapped [] error = error
wrapped (w ∷ ws) error = caused none none (wrapped ws error)

-- Such wrappers, however many, hide no violation.
violation-wrapped :
    (ws : List Thrown) (error : Thrown) (name : Text)
    → (is_unique_violation (wrapped ws error) ≡ is_unique_violation error)
      × (is_check_violation (wrapped ws error) name ≡ is_check_violation error name)
unfolding wrapped is_unique_violation is_check_violation pg_error_code pg_constraint_name
violation-wrapped [] error name = (refl, refl)
violation-wrapped (w ∷ ws) error name = violation-wrapped ws error name
