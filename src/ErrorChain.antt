-- ===== src/ErrorChain.antt =====
-- apps/api/src/errorChain.ts: one line for an error and everything that caused it. Objects and functions
-- live in a heap, so that a cause can lead back to an error above it.
pub mod Walk
use webhook_broadcast.Base.{
  ℕ, zero, suc, Bool, true, false, not, ◌&&◌, Option, none, some, List, [], ◌∷◌, ◌++◌, map, Text,
  codes, text_eq, starts_with, trim, decimal, join, any, filter, length, ◌==◌, if◌then◌else◌,
}

pub data Value : Type 0 where
  -- `undefined` and `null`
  absent : Value
  string_value : Text → Value
  -- any other primitive, as `String(value)` prints it
  primitive : Text → Value
  -- an object or a function, by its place in the heap
  reference : ℕ → Value

-- What is read of an object or a function: a field that is no string is `none`.
pub record ErrorObject : Type 0 where
  pub is_function : Bool
  pub message : Option Text
  pub name : Option Text
  pub code : Option Text
  pub severity : Option Text
  pub detail : Option Text
  pub hint : Option Text
  pub cause : Value
  -- `none` where `errors` is no array
  pub errors : Option (List Value)
  -- `JSON.stringify(value) ?? String(value)`, `none` where it throws
  pub stringified : Option Text

abbrev pub Heap : Type 0
Heap = ℕ → ErrorObject

abbrev pub max_chain_links : ℕ
max_chain_links = 8

nonempty : Text → Option Text
nonempty [] = none
nonempty (c ∷ s) = some (c ∷ s)

read_nonempty_string : Option Text → Option Text
unfolding nonempty
read_nonempty_string none = none
read_nonempty_string (some s) = nonempty (trim s)

stringify_opaque : ErrorObject → Text
stringify_opaque o = elim o.stringified [ none ↦ codes "[unserializable object]" | some s ↦ s ]

head_of : ErrorObject → Option Text → Option Text → Text
unfolding stringify_opaque
head_of o none none = stringify_opaque o
head_of o none (some name) = name
head_of o (some message) none = message
head_of o (some message) (some name) =
    if text_eq name (codes "Error")
    then message
    else if starts_with message name
    then message
    else name ++ codes ": " ++ message

diagnostic : Text → Option Text → List Text
diagnostic field none = []
diagnostic field (some detail) = (field ++ codes "=" ++ detail) ∷ []

unfoldable pub diagnostics : ErrorObject → List Text
unfolding diagnostic read_nonempty_string
diagnostics o =
    diagnostic (codes "code") (read_nonempty_string o.code)
    ++ diagnostic (codes "severity") (read_nonempty_string o.severity)
    ++ diagnostic (codes "detail") (read_nonempty_string o.detail)
    ++ diagnostic (codes "hint") (read_nonempty_string o.hint)

with_diagnostics : Text → List Text → Text
with_diagnostics head [] = head
with_diagnostics head (d ∷ ds) = head ++ codes " (" ++ join (codes ", ") (d ∷ ds) ++ codes ")"

or_text : Text → Text → Text
or_text [] default = default
or_text (c ∷ s) default = c ∷ s

function_name : Option Text → Text
unfolding or_text
function_name none = codes "anonymous"
function_name (some name) = or_text name (codes "anonymous")

unfoldable pub describe_link : Heap → Value → Text
unfolding head_of with_diagnostics or_text function_name read_nonempty_string
describe_link heap absent = []
describe_link heap (string_value s) = or_text (trim s) (codes "(empty string)")
describe_link heap (primitive printed) = printed
describe_link heap (reference o) =
    if (heap o).is_function
    then codes "[Function: " ++ function_name ((heap o).name) ++ codes "]"
    else with_diagnostics
        (head_of (heap o) (read_nonempty_string ((heap o).message))
          (read_nonempty_string ((heap o).name)))
        (diagnostics (heap o))

abbrev unless_absent : Value → List Value
unless_absent absent = []
unless_absent v = v ∷ []

abbrev or_nil : Option (List Value) → List Value
or_nil none = []
or_nil (some errors) = errors

unfoldable pub successors_of : Heap → Value → List Value
successors_of heap (reference o) =
    if (heap o).is_function then [] else unless_absent ((heap o).cause) ++ or_nil ((heap o).errors)
successors_of heap _ = []

-- What the loop leaves: the links, the objects that were described, and what is still pending.
pub record Chain : Type 0 where
  pub links : List Text
  pub seen : List ℕ
  pub pending : List Value

abbrev pub link : Text → Chain → Chain
link text c = record { links = text ∷ c.links; seen = c.seen; pending = c.pending }

-- The loop, with room for so many links.
unfoldable pub walk : Heap → ℕ → List ℕ → List Value → Chain
walk heap zero seen pending = record { links = []; seen = seen; pending = pending }
walk heap (suc room) seen [] = record { links = []; seen = seen; pending = [] }
walk heap (suc room) seen (absent ∷ vs) = walk heap (suc room) seen vs
walk heap (suc room) seen (string_value s ∷ vs) =
    link (describe_link heap (string_value s)) (walk heap room seen vs)
walk heap (suc room) seen (primitive s ∷ vs) =
    link (describe_link heap (primitive s)) (walk heap room seen vs)
walk heap (suc room) seen (reference o ∷ vs) = elim (any (◌==◌ o) seen) [
  | true ↦ walk heap (suc room) seen vs
  | false ↦
      link (describe_link heap (reference o))
        (walk heap room (o ∷ seen) (successors_of heap (reference o) ++ vs))
]

unfoldable pub is_unreported : List ℕ → Value → Bool
is_unreported seen absent = false
is_unreported seen (string_value s) = true
is_unreported seen (primitive s) = true
is_unreported seen (reference o) = not (any (◌==◌ o) seen)

unfoldable pub unreported : Chain → List Value
unfolding is_unreported
unreported c = filter (is_unreported c.seen) c.pending

abbrev further : List Value → List Text
further [] = []
further (v ∷ vs) =
    (codes "... " ++ decimal (length (v ∷ vs)) ++ codes " further cause(s) not shown") ∷ []

or_unknown : List Text → Text
or_unknown [] = codes "Unknown error"
or_unknown (l ∷ ls) = join (codes " -> ") (l ∷ ls)

unfoldable pub chain_of : Heap → Value → Chain
chain_of heap error = walk heap max_chain_links [] (error ∷ [])

-- The links with the note on what is not shown.
unfoldable pub chain_lines : Heap → Value → List Text
chain_lines heap error = (chain_of heap error).links ++ further (unreported (chain_of heap error))

unfoldable pub serialize_error_chain : Heap → Value → Text
unfolding or_unknown
serialize_error_chain heap error = or_unknown (chain_lines heap error)
