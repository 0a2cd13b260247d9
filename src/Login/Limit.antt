-- ===== src/Login/Limit.antt =====
-- How many logins a client may try.
use webhook_broadcast.Base.{
  ℕ, suc, ◌+◌, ◌-◌, ◌≤◌, ◌<◌, max, true, false, Option, none, some, List, [], ◌∷◌, ◌≡◌, ◌⊎◌, ◌∙◌,
  refl, arith, Text, text_eq, text_eq_iff, text_eq_refl, leb, if◌then◌else◌, get, put, get-put,
  Bool-cases, inl, inr,
}
use webhook_broadcast.Login.{
  LoginRateLimitConfig, Window, Windows, try_consume, consume, open_window,
}

-- The number of allowed calls of one client in a sequence of calls, each a time and a client.
unfoldable pub allowed_calls : LoginRateLimitConfig → Text → List (ℕ × Text) → Windows → ℕ
allowed_calls config ip [] ws = 0
allowed_calls config ip ((now, caller) ∷ calls) ws =
    let step = try_consume config now caller ws in
    let rest = allowed_calls config ip calls step.0 in
    if text_eq caller ip then (if step.1.allowed then suc rest else rest) else rest

abbrev pub AllBefore : ℕ → List (ℕ × Text) → Type 0
AllBefore t [] = Unit
AllBefore t ((now, caller) ∷ calls) = (now < t) × AllBefore t calls

get-put_other :
    (ip caller : Text) (w : Window) (ws : Windows)
    → text_eq caller ip ≡ false
    → get ip (put caller w ws) ≡ get ip ws
get-put_other ip caller w ws h = get-put ip caller w ws ∙ rw h refl

get-consume_other :
    (config : LoginRateLimitConfig) (now : ℕ) (caller ip : Text) (ws : Windows) (o : Option Window)
    → text_eq caller ip ≡ false
    → get ip (consume config now caller ws o).0 ≡ get ip ws
unfolding consume open_window
get-consume_other config now caller ip ws none h = get-put_other ip caller _ ws h
get-consume_other config now caller ip ws (some w) h = ground (
  arith,
  get-put_other ip caller (record { count = 1; reset_at = now + config.window_ms }) ws h,
  get-put_other ip caller (record { count = suc w.count; reset_at = w.reset_at }) ws h,
)

-- A call of another client leaves a window alone.
get-try_consume_other :
    (config : LoginRateLimitConfig) (now : ℕ) (caller ip : Text) (ws : Windows)
    → text_eq caller ip ≡ false
    → get ip (try_consume config now caller ws).0 ≡ get ip ws
unfolding try_consume
get-try_consume_other config now caller ip ws h =
    get-consume_other config now caller ip ws (get caller ws) h

-- A call inside the window counts, or is refused.
try_consume_inside :
    (config : LoginRateLimitConfig) (now : ℕ) (ip : Text) (ws : Windows) (w : Window)
    → get ip ws ≡ some w
    → now < w.reset_at
    → (((try_consume config now ip ws).1.allowed ≡ false)
        × (config.max_attempts ≤ w.count)
        × ((try_consume config now ip ws).0 ≡ ws))
      ⊎ (((try_consume config now ip ws).1.allowed ≡ true)
          × (w.count < config.max_attempts)
          × (get ip (try_consume config now ip ws).0
              ≡ some (record { count = suc w.count; reset_at = w.reset_at })))
unfolding try_consume consume
try_consume_inside config now ip ws w e h = elim (Bool-cases (leb config.max_attempts w.count)) [
  | inl full ↦ inl (ground (arith, e), ground arith, ground (arith, e))
  | inr room ↦ inr (
    ground (arith, e),
    ground arith,
    ground (
      arith,
      e,
      text_eq_refl ip,
      get-put ip ip (record { count = suc w.count; reset_at = w.reset_at }) ws,
    ),
  )
]

first_call :
    (config : LoginRateLimitConfig) (ip : Text) (start : ℕ) (ws : Windows)
    → get ip ws ≡ none
    → ((try_consume config start ip ws).1.allowed ≡ true)
      × (get ip (try_consume config start ip ws).0
          ≡ some (record { count = 1; reset_at = start + config.window_ms }))
unfolding try_consume consume open_window
first_call config ip start ws fresh = (
  rw fresh refl,
  rw fresh (
      get-put ip ip (record { count = 1; reset_at = start + config.window_ms }) ws
      ∙ rw (text_eq_refl ip) refl),
)

-- Inside an open window of a client, however the calls of others interleave, no more calls of the client
-- are allowed than the limit has left.
window_limit :
    (config : LoginRateLimitConfig) (ip : Text) (calls : List (ℕ × Text)) (ws : Windows)
    (w : Window)
    → get ip ws ≡ some w
    → AllBefore w.reset_at calls
    → allowed_calls config ip calls ws ≤ config.max_attempts - w.count
unfolding allowed_calls
window_limit config ip [] ws w e h = omega arith
window_limit config ip ((now, caller) ∷ calls) ws w e (early, h) =
    elim (Bool-cases (text_eq caller ip)) [
      | inr other ↦ rw other (
          window_limit config ip calls (try_consume config now caller ws).0 w
            (get-try_consume_other config now caller ip ws other ∙ e) h)
      | inl same ↦ rw ((text_eq_iff caller ip).0 same) (
          rw (text_eq_refl ip) (elim (try_consume_inside config now ip ws w e early) [
            | inl (shut, full, still) ↦ rw shut (rw still (window_limit config ip calls ws w e h))
            | inr (allowed, room, counted) ↦ rw allowed (
                omega (
                  arith,
                  window_limit config ip calls (try_consume config now ip ws).0
                      (record { count = suc w.count; reset_at = w.reset_at }) counted h,
                ))
          ]))
    ]

-- From the first call of a client on, until its window resets, the limiter lets at most `max_attempts`
-- calls of the client through (one if the limit is 0), however the calls of others interleave.
pub login_limit :
    (config : LoginRateLimitConfig) (ip : Text) (start : ℕ) (calls : List (ℕ × Text)) (ws : Windows)
    → get ip ws ≡ none
    → AllBefore (start + config.window_ms) calls
    → allowed_calls config ip ((start, ip) ∷ calls) ws ≤ max 1 config.max_attempts
unfolding allowed_calls
login_limit config ip start calls ws fresh h = rw (text_eq_refl ip) (
    rw (opened.0) (
      omega (
        arith,
        window_limit config ip calls (try_consume config start ip ws).0
            (record { count = 1; reset_at = start + config.window_ms }) (opened.1) h,
      )))
  where
    opened :
        ((try_consume config start ip ws).1.allowed ≡ true)
        × (get ip (try_consume config start ip ws).0
            ≡ some (record { count = 1; reset_at = start + config.window_ms }))
    opened = first_call config ip start ws fresh
