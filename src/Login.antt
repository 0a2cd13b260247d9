-- ===== src/Login.antt =====
-- apps/api/src/admin/loginRateLimit.ts: the limiter of `/auth/login`, one window per client.
pub mod Limit
use webhook_broadcast.Base.{
  ℕ, suc, ◌+◌, Bool, true, false, Option, none, some, List, [], ◌∷◌, Text, text_eq, leb, ltb,
  if◌then◌else◌, get, put,
}

pub record LoginRateLimitConfig : Type 0 where
  pub max_attempts : ℕ
  pub window_ms : ℕ

pub record Window : Type 0 where
  pub count : ℕ
  pub reset_at : ℕ

pub record LoginRateLimitResult : Type 0 where
  pub allowed : Bool
  pub reset_at : ℕ

-- The Map of the windows.
abbrev pub Windows : Type 0
Windows = List (Text × Window)

open_window : LoginRateLimitConfig → ℕ → Text → Windows → Windows × LoginRateLimitResult
open_window config now ip ws = (
  put ip (record { count = 1; reset_at = now + config.window_ms }) ws,
  record { allowed = true; reset_at = now + config.window_ms },
)

consume : LoginRateLimitConfig → ℕ → Text → Windows → Option Window → Windows × LoginRateLimitResult
unfolding open_window
consume config now ip ws none = open_window config now ip ws
consume config now ip ws (some w) =
    if leb w.reset_at now
    then open_window config now ip ws
    else if leb config.max_attempts w.count
    then (ws, record { allowed = false; reset_at = w.reset_at })
    else (
      put ip (record { count = suc w.count; reset_at = w.reset_at }) ws,
      record { allowed = true; reset_at = w.reset_at },
    )

unfoldable pub try_consume :
    LoginRateLimitConfig → ℕ → Text → Windows → Windows × LoginRateLimitResult
unfolding consume
try_consume config now ip ws = consume config now ip ws (get ip ws)
