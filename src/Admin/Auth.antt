-- ===== src/Admin/Auth.antt =====
-- apps/api/src/admin/auth.ts and authRoutes.ts: who may call the admin API, login and logout.
pub mod Granted
use webhook_broadcast.Base.{
  ℕ, ◌+◌, ◌-◌, ◌/◌, max, Bool, true, false, ◌==◌, Option, none, some, List, [], ◌∷◌, Text, codes,
  text_eq, length, if◌then◌else◌,
}
use webhook_broadcast.Store.Rows.{Database, OperatorTokenRow}
use webhook_broadcast.Store.Tokens.{find_operator_token_by_hash, touch_operator_token_last_used}
use webhook_broadcast.Ingest.{extract_bearer_token}
use webhook_broadcast.Login.{LoginRateLimitConfig, LoginRateLimitResult, Windows, try_consume}

-- Of the UTF-8 bytes; `timingSafeEqual` compares two buffers of one length.
unfoldable pub safe_equal : (Text → List ℕ) → Text → Text → Bool
safe_equal utf8 a b =
    if length (utf8 a) == length (utf8 b) then text_eq (utf8 a) (utf8 b) else false

-- The headers that the middleware reads: `cookie` is the one of the configured name.
pub record AuthRequest : Type 0 where
  pub authorization : Option Text
  pub cookie : Option Text

pub data AuthResult : Type 0 where
  -- the request goes on under this label
  granted : Text → AuthResult
  -- 401
  unauthorized : AuthResult

module _ (utf8 : Text → List ℕ) (hash : Text → Text) (operator_api_key : Text) where
  -- The write of `lastUsedAt` is not waited for, and may fail.
  touched : Bool → ℕ → OperatorTokenRow → Database → Database
  touched fails now row db = if fails then db else touch_operator_token_last_used db row.id now

  check_bearer : Bool → ℕ → Database → Text → Database × AuthResult
  unfolding touched
  check_bearer fails now db bearer =
      if safe_equal utf8 bearer operator_api_key
      then (db, granted (codes "bootstrap"))
      else elim (find_operator_token_by_hash db (hash bearer)) [
        | none ↦ (db, unauthorized)
        | some row ↦ (touched fails now row db, granted row.label)
      ]

  check_cookie : Database → Option Text → Database × AuthResult
  check_cookie db none = (db, unauthorized)
  check_cookie db (some cookie) =
      if safe_equal utf8 cookie operator_api_key
      then (db, granted (codes "bootstrap"))
      else (db, unauthorized)

  -- What `createOperatorAuthMiddleware` does before `next()`.
  unfoldable pub operator_auth : Bool → ℕ → Database → AuthRequest → Database × AuthResult
  unfolding check_bearer check_cookie
  operator_auth fails now db r = elim (extract_bearer_token r.authorization) [
    | none ↦ check_cookie db r.cookie
    | some bearer ↦ check_bearer fails now db bearer
  ]

  pub data LoginAnswer : Type 0 where
    -- 429, with the seconds of `Retry-After` and `resetAt`
    rate_limited : ℕ → ℕ → LoginAnswer
    -- 400 and 401
    invalid_payload wrong_key : LoginAnswer
    -- 200, with the value of the session cookie and its `secure` flag
    session : Text → Bool → LoginAnswer

  -- `Math.max(1, Math.ceil((resetAt - now) / 1000))`
  unfoldable pub retry_after_seconds : ℕ → ℕ → ℕ
  retry_after_seconds reset_at now = max 1 ((reset_at - now + 999) / 1000)

  abbrev login_key : Bool → Option Text → LoginAnswer
  login_key secure none = invalid_payload
  login_key secure (some api_key) =
      if safe_equal utf8 api_key operator_api_key
      then session operator_api_key secure
      else wrong_key

  -- `POST /auth/login`: `parsed` is the key that `loginRequestSchema` leaves of a body, and `secure` is
  -- `trustProxy ? ctx.secure : cookieSecure`.
  unfoldable pub login :
      LoginRateLimitConfig → ℕ → Text → Bool → Option Text → Windows → Windows × LoginAnswer
  login config now ip secure parsed ws =
      let limit = try_consume config now ip ws in
      if limit.1.allowed
      then (limit.0, login_key secure parsed)
      else (limit.0, rate_limited (retry_after_seconds limit.1.reset_at now) limit.1.reset_at)
