-- ===== src/Admin/Auth/Granted.antt =====
-- apps/api/src/admin/auth.ts: the credentials that open the admin API, and their revocation.
use webhook_broadcast.Base.{
  ℕ, ◌≡◌, ◌≢◌, ◌↔◌, refl, ap, subst, ◌∙◌, arith, Bool, true, false, not, ◌==◌, ==_refl, Option,
  none, some, List, [], ◌∷◌, Text, codes, text_eq, text_eq_refl, text_eq_iff, length, any, filter,
  find, inl, inr, Bool-cases, Option-cases,
}
use webhook_broadcast.Store.Rows.{Database, OperatorTokenRow}
use webhook_broadcast.Store.Tokens.{find_operator_token_by_hash, revoke_operator_token, has_hash}
use webhook_broadcast.Ingest.{extract_bearer_token}
use webhook_broadcast.Admin.{done, require_uuid_param}
use webhook_broadcast.Admin.Tokens.{delete_operator_token}
use webhook_broadcast.Admin.Auth.{
  safe_equal, AuthRequest, granted, unauthorized, check_bearer, check_cookie, operator_auth,
}

safe_equal-same : (utf8 : Text → List ℕ) (a : Text) → safe_equal utf8 a a ≡ true
unfolding safe_equal
safe_equal-same utf8 a = rw (==_refl (length (utf8 a)), text_eq_refl (utf8 a)) refl

same-safe_equal :
    (utf8 : Text → List ℕ) (a b : Text)
    → ((s t : Text) → utf8 s ≡ utf8 t → s ≡ t)
    → safe_equal utf8 a b ≡ true
    → a ≡ b
unfolding safe_equal
same-safe_equal utf8 a b injective h =
    injective a b ((text_eq_iff (utf8 a) (utf8 b)).0 (ground arith))

module _ (utf8 : Text → List ℕ) (injective : (s t : Text) → utf8 s ≡ utf8 t → s ≡ t)
    (hash : Text → Text) (key : Text) (fails : Bool) (now : ℕ) (db : Database)
    (r : AuthRequest) where
  -- The credentials of a request, and the label that they go under.
  pub data MayOperate (label : Text) : Type 0 where
    bearer_key :
        extract_bearer_token r.authorization ≡ some key
        → codes "bootstrap" ≡ label
        → MayOperate label
    bearer_token :
        (token : Text) (row : OperatorTokenRow)
        → extract_bearer_token r.authorization ≡ some token
        → token ≢ key
        → find_operator_token_by_hash db (hash token) ≡ some row
        → row.label ≡ label
        → MayOperate label
    cookie_key :
        extract_bearer_token r.authorization ≡ none
        → r.cookie ≡ some key
        → codes "bootstrap" ≡ label
        → MayOperate label

  check_bearer-MayOperate :
      (token label : Text)
      → extract_bearer_token r.authorization ≡ some token
      → (check_bearer utf8 hash key fails now db token).1 ≡ granted label
      → MayOperate label
  unfolding check_bearer
  check_bearer-MayOperate token label sent e = elim (Bool-cases (safe_equal utf8 token key)) [
    | inl same ↦
        bearer_key (sent ∙ ap some (same-safe_equal utf8 token key injective same))
          (ground (arith, e, same))
    | inr other ↦ elim (Option-cases (find_operator_token_by_hash db (hash token))) [
      | inl absent ↦ absurd (ground (arith, e, other, absent))
      | inr (row, there) ↦
          bearer_token token row sent
            (λ equal. absurd (
              cc (
                subst (λ (t : Text). safe_equal utf8 t key ≡ false) equal other,
                safe_equal-same utf8 key,
              )))
            there (ground (arith, e, other, there))
    ]
  ]

  check_cookie-MayOperate :
      (o : Option Text) (label : Text)
      → extract_bearer_token r.authorization ≡ none
      → r.cookie ≡ o
      → (check_cookie utf8 hash key db o).1 ≡ granted label
      → MayOperate label
  unfolding check_cookie
  check_cookie-MayOperate none label no_bearer sent e = absurd (ground arith)
  check_cookie-MayOperate (some cookie) label no_bearer sent e =
      elim (Bool-cases (safe_equal utf8 cookie key)) [
        | inl same ↦
            cookie_key no_bearer (sent ∙ ap some (same-safe_equal utf8 cookie key injective same))
              (ground (arith, e, same))
        | inr other ↦ absurd (ground (arith, e, other))
      ]

  granted-MayOperate :
      (label : Text)
      → (operator_auth utf8 hash key fails now db r).1 ≡ granted label
      → MayOperate label
  unfolding operator_auth
  granted-MayOperate label e = elim (Option-cases (extract_bearer_token r.authorization)) [
    | inl no_bearer ↦
        check_cookie-MayOperate r.cookie label no_bearer refl (ground (arith, e, no_bearer))
    | inr (token, sent) ↦ check_bearer-MayOperate token label sent (ground (arith, e, sent))
  ]

  MayOperate-granted :
      (label : Text)
      → MayOperate label
      → (operator_auth utf8 hash key fails now db r).1 ≡ granted label
  unfolding operator_auth check_bearer check_cookie
  MayOperate-granted label (bearer_key sent named) =
      ground (arith, sent, named, safe_equal-same utf8 key)
  MayOperate-granted label (cookie_key no_bearer sent named) =
      ground (arith, no_bearer, sent, named, safe_equal-same utf8 key)
  MayOperate-granted label (bearer_token token row sent other there named) =
      elim (Bool-cases (safe_equal utf8 token key)) [
        | inl same ↦ absurd (other (same-safe_equal utf8 token key injective same))
        | inr differs ↦ ground (arith, sent, differs, there, named)
      ]

  -- A request is let through, under the label named, exactly with the bootstrap key as its bearer, with a
  -- bearer whose hash is a stored operator token's, or, if it has no bearer, with the bootstrap key in
  -- the cookie.
  pub operator_auth_iff :
      (label : Text)
      → ((operator_auth utf8 hash key fails now db r).1 ≡ granted label) ↔ MayOperate label
  operator_auth_iff label = (granted-MayOperate label, MayOperate-granted label)

-- `token_hash` is unique.
abbrev pub HaveHashes : List OperatorTokenRow → Type 0
HaveHashes [] = Unit
HaveHashes (t ∷ ts) = (any (λ u. text_eq u.token_hash t.token_hash) ts ≡ false) × HaveHashes ts

hash_absent :
    (h : Text) (q : OperatorTokenRow → Bool) (ts : List OperatorTokenRow)
    → any (λ u. text_eq u.token_hash h) ts ≡ false
    → find (has_hash h) (filter q ts) ≡ none
hash_absent h q [] k = refl
hash_absent h q (t ∷ ts) k = ground (arith, hash_absent h q ts)

find_revoked :
    (h : Text) (id : ℕ) (row : OperatorTokenRow) (ts : List OperatorTokenRow)
    → HaveHashes ts
    → find (has_hash h) ts ≡ some row
    → row.id ≡ id
    → find (has_hash h) (filter (λ t. not (t.id == id)) ts) ≡ none
find_revoked h id row [] k there same = refl
find_revoked h id row (t ∷ ts) k there same = ground (
  arith,
  find_revoked h id row ts k.1,
  text_eq_iff t.token_hash h,
  hash_absent h (λ t. not (t.id == id)) ts,
)

find-any_id :
    (h : Text) (id : ℕ) (row : OperatorTokenRow) (ts : List OperatorTokenRow)
    → find (has_hash h) ts ≡ some row
    → row.id ≡ id
    → any (λ t. t.id == id) ts ≡ true
find-any_id h id row [] there same = absurd (ground arith)
find-any_id h id row (t ∷ ts) there same = ground (arith, find-any_id h id row ts, ==_refl id)

-- A DELETE that names an operator token answers 204, and from then on the token is not let through,
-- whatever the cookie says, unless it is the bootstrap key itself.
pub delete_operator_token-locked_out :
    (parse_id : Text → Option ℕ) (utf8 : Text → List ℕ) (hash : Text → Text)
    (key param token : Text) (fails : Bool) (now : ℕ) (db : Database) (r : AuthRequest)
    (row : OperatorTokenRow)
    → ((s t : Text) → utf8 s ≡ utf8 t → s ≡ t)
    → HaveHashes db.operator_tokens
    → extract_bearer_token r.authorization ≡ some token
    → token ≢ key
    → find_operator_token_by_hash db (hash token) ≡ some row
    → parse_id param ≡ some row.id
    → ((delete_operator_token parse_id hash param db).1 ≡ done (204, true))
      × ((operator_auth utf8 hash key fails now
            (delete_operator_token parse_id hash param db).0
            r).1
          ≡ unauthorized)
unfolding delete_operator_token require_uuid_param revoke_operator_token find_operator_token_by_hash
    operator_auth check_bearer
delete_operator_token-locked_out parse_id utf8 hash key param token fails now db r row injective
      unique sent other there names =
    let found = find-any_id (hash token) row.id row db.operator_tokens there refl in
    let gone = find_revoked (hash token) row.id row db.operator_tokens unique there refl in
    rw (names, found)
      (
        refl,
        elim (Bool-cases (safe_equal utf8 token key)) [
          | inl same ↦ absurd (other (same-safe_equal utf8 token key injective same))
          | inr differs ↦ ground (arith, sent, differs, gone)
        ],
      )
