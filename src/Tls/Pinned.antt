-- ===== src/Tls/Pinned.antt =====
-- When a pinned certificate is the one that a connection is verified against.
use webhook_broadcast.Base.{
  ◌&&◌, ◌||◌, Bool, Bool-cases, inl, inr, subst, to_lower, lower_char, starts_with, ℕ, ◌≡◌, refl,
  ap, sym, ◌∙◌, ◌↔◌, arith, true, false, Option, none, some, List, [], ◌∷◌, Text, any, all,
  filter_none, any_none, all-filter_self, any-distinct_from, distinct_from, ◌==◌,
}
use webhook_broadcast.Tls.{
  verified, resolve_database_ssl, ssl_params_in, ssl_keys, names_ssl, refuse_or_pin,
  unescape_newlines,
}

-- A certificate with real newlines, hence with no backslash, is taken as it is.
unescape_newlines_plain : (s : Text) → any (λ c. c == b'\\') s ≡ false → unescape_newlines s ≡ s
unfolding unescape_newlines
unescape_newlines_plain [] h = refl
unescape_newlines_plain (c ∷ []) h = refl
unescape_newlines_plain (c ∷ d ∷ s) h =
    ground (arith, unescape_newlines_plain s, unescape_newlines_plain (d ∷ s))

-- The keys of a query, of a URL that does not parse none.
abbrev pub query_keys : Option (List Text) → List Text
query_keys none = []
query_keys (some keys) = keys

ssl_keys_none :
    (keys : Option (List Text)) → any names_ssl (query_keys keys) ≡ false → ssl_keys keys ≡ []
ssl_keys_none none h = refl
ssl_keys_none (some keys) h =
    filter_none names_ssl (distinct_from [] keys) (any-distinct_from names_ssl [] keys ∙ h)

all-ssl_keys : (keys : Option (List Text)) → all names_ssl (ssl_keys keys) ≡ true
all-ssl_keys none = refl
all-ssl_keys (some keys) = all-filter_self names_ssl (distinct_from [] keys)

ssl_keys_none_iff :
    (keys : Option (List Text)) → (ssl_keys keys ≡ []) ↔ (any names_ssl (query_keys keys) ≡ false)
ssl_keys_none_iff none = (λ e. refl, λ e. refl)
ssl_keys_none_iff (some keys) = (
  λ e. sym (any-distinct_from names_ssl [] keys) ∙ any_none names_ssl (distinct_from [] keys) e,
  ssl_keys_none (some keys),
)

refuse_or_pin_iff :
    (ps : List Text) (cert ca : Text)
    → (refuse_or_pin ps cert ≡ verified ca) ↔ ((ps ≡ []) × (unescape_newlines cert ≡ ca))
refuse_or_pin_iff [] cert ca = (λ e. (refl, cc e), λ h. ap verified h.1)
refuse_or_pin_iff (p ∷ ps) cert ca = (λ e. absurd (ground arith), λ h. absurd (ground arith))

-- The three letters, in either case.
abbrev pub begins_ssl : Text → Bool
begins_ssl (a ∷ b ∷ c ∷ rest) =
    (a == b's' || a == b'S') && ((b == b's' || b == b'S') && (c == b'l' || c == b'L'))
begins_ssl _ = false

names_ssl-begins : (key : Text) → names_ssl key ≡ begins_ssl key
unfolding to_lower starts_with lower_char
names_ssl-begins [] = refl
names_ssl-begins (a ∷ []) = ground arith
names_ssl-begins (a ∷ b ∷ []) = ground arith
names_ssl-begins (a ∷ b ∷ c ∷ rest) = ground arith

any-begins : (keys : List Text) → any names_ssl keys ≡ any begins_ssl keys
any-begins [] = refl
any-begins (k ∷ ks) = rw (names_ssl-begins k, any-begins ks) refl

abbrev pub is_escape : Text → Bool
is_escape (a ∷ b ∷ s) = a == b'\\' && b == b'n'
is_escape _ = false

-- A text, and the one where a real newline stands for each backslash with an n behind it.
pub data Unescapes : Text → Text → Type 0 where
  ends : Unescapes [] []
  newline : {s t : Text} → Unescapes s t → Unescapes (b'\\' ∷ b'n' ∷ s) (b'\n' ∷ t)
  keeps :
      {s t : Text} (c : ℕ) → is_escape (c ∷ s) ≡ false → Unescapes s t → Unescapes (c ∷ s) (c ∷ t)

unescape_pair :
    (c d : ℕ) (s : Text)
    → Unescapes s (unescape_newlines s)
    → Unescapes (d ∷ s) (unescape_newlines (d ∷ s))
    → Unescapes (c ∷ d ∷ s) (unescape_newlines (c ∷ d ∷ s))
unfolding unescape_newlines
unescape_pair c d s after rest = elim (Bool-cases (c == b'\\' && d == b'n')) [
  | inr plain ↦ rw plain (keeps c plain rest)
  | inl escape ↦
      let is_c : c ≡ b'\\' = ground (arith, escape) in
      let is_d : d ≡ b'n' = ground (arith, escape) in rw (is_c, is_d) (newline after)
]

unescape_newlines-Unescapes : (s : Text) → Unescapes s (unescape_newlines s)
unfolding unescape_newlines
unescape_newlines-Unescapes [] = ends
unescape_newlines-Unescapes (c ∷ []) = keeps c refl ends
unescape_newlines-Unescapes (c ∷ d ∷ s) =
    unescape_pair c d s (unescape_newlines-Unescapes s) (unescape_newlines-Unescapes (d ∷ s))

Unescapes-unescape : {s t : Text} → Unescapes s t → unescape_newlines s ≡ t
unfolding unescape_newlines
Unescapes-unescape ends = refl
Unescapes-unescape (newline u) = ap (λ r. b'\n' ∷ r) (Unescapes-unescape u)
Unescapes-unescape (keeps {s = []} {t = t} c plain u) = ap (λ r. c ∷ r) (Unescapes-unescape u)
Unescapes-unescape (keeps {s = d ∷ s} {t = t} c plain u) =
    rw plain (ap (λ r. c ∷ r) (Unescapes-unescape u))

-- With a certificate that is set, a connection is verified against `ca` exactly if no key of the URL's query
-- begins with the letters ssl, in either case, and `ca` is the certificate with a real newline in place of
-- each escaped one.
pub resolve_database_ssl_verified :
    (search_params : Text → Option (List Text)) (url : Text) (c : ℕ) (cert ca : Text)
    → (resolve_database_ssl search_params url (c ∷ cert) ≡ verified ca)
      ↔ ((any begins_ssl (query_keys (search_params url)) ≡ false) × Unescapes (c ∷ cert) ca)
unfolding resolve_database_ssl ssl_params_in
resolve_database_ssl_verified search_params url c cert ca = (
  λ e.
      let (none_named, same) =
        (refuse_or_pin_iff (ssl_keys (search_params url)) (c ∷ cert) ca).0 e in
      (
        sym (any-begins keys) ∙ (ssl_keys_none_iff (search_params url)).0 none_named,
        subst (λ t. Unescapes (c ∷ cert) t) same (unescape_newlines-Unescapes (c ∷ cert)),
      ),
  λ h.
      (refuse_or_pin_iff (ssl_keys (search_params url)) (c ∷ cert) ca).1
        ((ssl_keys_none_iff (search_params url)).1 (any-begins keys ∙ h.0), Unescapes-unescape h.1),
)
  where
    keys : List Text
    keys = query_keys (search_params url)
