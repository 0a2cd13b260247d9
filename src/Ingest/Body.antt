-- ===== src/Ingest/Body.antt =====
-- Bodies under the limit.
use webhook_broadcast.Base.{
  ℕ, ◌+◌, ◌≤◌, true, some, List, [], ◌∷◌, ◌++◌, ◌≡◌, refl, sym, ap, ◌∙◌, arith, leb, if◌then◌else◌,
  length, map,
}
use webhook_broadcast.Ingest.{
  ReadEvent, data_event, end_event, error_event, read_body, over_limit, concat, read_from,
  read_limited_body,
}

length-append : (xs ys : List ℕ) → length (xs ++ ys) ≡ length xs + length ys
length-append [] ys = omega arith
length-append (x ∷ xs) ys = ground (arith, length-append xs ys)

append_assoc : (xs ys zs : List ℕ) → (xs ++ ys) ++ zs ≡ xs ++ (ys ++ zs)
append_assoc [] ys zs = refl
append_assoc (x ∷ xs) ys zs = ap (◌∷◌ x) (append_assoc xs ys zs)

append_nil : (xs : List ℕ) → xs ++ [] ≡ xs
append_nil [] = refl
append_nil (x ∷ xs) = ap (◌∷◌ x) (append_nil xs)

concat-snoc : (cs : List (List ℕ)) (c : List ℕ) → concat (cs ++ c ∷ []) ≡ concat cs ++ c
unfolding concat
concat-snoc [] c = append_nil c
concat-snoc (d ∷ cs) c = ap (◌++◌ d) (concat-snoc cs c) ∙ sym (append_assoc d (concat cs) c)

read_from-end :
    (limit total : ℕ) (seen cs : List (List ℕ)) (rest : List ReadEvent)
    → total ≡ length (concat seen)
    → leb total limit ≡ true
    → read_from limit total seen (map data_event cs ++ end_event ∷ rest) ≡ (
        if leb (total + length (concat cs)) limit
        then some (read_body (concat seen ++ concat cs))
        else some over_limit)
unfolding read_from concat
read_from-end limit total seen [] rest e h = ground (arith, append_nil (concat seen))
read_from-end limit total seen (c ∷ cs) rest e h = ground (
  arith,
  read_from-end limit (total + length c) (seen ++ c ∷ []) cs rest,
  concat-snoc seen c,
  length-append (concat seen) c,
  length-append c (concat cs),
  append_assoc (concat seen) c (concat cs),
)

-- However the bytes are cut into chunks, a body that ends is read whole, byte for byte, if it is within the
-- limit, and is refused if it is not.
pub read_limited_body-whole :
    (limit : ℕ) (chunks : List (List ℕ)) (rest : List ReadEvent)
    → read_limited_body limit (map data_event chunks ++ end_event ∷ rest) ≡ (
        if leb (length (concat chunks)) limit
        then some (read_body (concat chunks))
        else some over_limit)
unfolding read_limited_body concat
read_limited_body-whole limit chunks rest =
    read_from-end limit 0 [] chunks rest refl (ground arith) ∙ ground arith

-- What was read is within the limit.
pub read_from-fits :
    (limit total : ℕ) (seen : List (List ℕ)) (events : List ReadEvent) (body : List ℕ)
    → total ≡ length (concat seen)
    → total ≤ limit
    → read_from limit total seen events ≡ some (read_body body)
    → length body ≤ limit
unfolding read_from concat
read_from-fits limit total seen [] body t h e = ground arith
read_from-fits limit total seen (data_event c ∷ events) body t h e = ground (
  arith,
  read_from-fits limit (total + length c) (seen ++ c ∷ []) events body,
  concat-snoc seen c,
  length-append (concat seen) c,
)
read_from-fits limit total seen (end_event ∷ events) body t h e = ground arith
read_from-fits limit total seen (error_event ∷ events) body t h e = ground arith
