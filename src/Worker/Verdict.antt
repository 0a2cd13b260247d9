-- ===== src/Worker/Verdict.antt =====
-- The outcome of one Attempt as ADR 0003 describes it, and the code that decides it.
use native.Mathlib.Decide.{dec_le}
use webhook_broadcast.Base.{
  ℕ, ◌+◌, ◌≤◌, ◌<◌, true, false, Option, none, some, ◌≡◌, ◌≢◌, refl, arith, ◌⊎◌, inl, inr,
  Bool-cases,
}
use webhook_broadcast.Store.Rows.{Database, DeliveryStatus, pending, in_progress}
use webhook_broadcast.Store.Endpoints.{maybe_auto_disable_endpoint}
use webhook_broadcast.Retry.{is_retryable_outcome}
use webhook_broadcast.Retry.Laws.{is_retryable_outcome_iff}
use webhook_broadcast.Worker.{Outcome, returned, retryable, crashed}
use webhook_broadcast.Request.{is_2xx}

-- What may succeed on another try: no answer at all, 408, 429 and 5xx.
pub data MayRecover : Option ℕ → Type 0 where
  no_answer : MayRecover none
  timed_out : (status : ℕ) → status ≡ 408 → MayRecover (some status)
  throttled : (status : ℕ) → status ≡ 429 → MayRecover (some status)
  server_error : (status : ℕ) → 500 ≤ status → status ≤ 599 → MayRecover (some status)

-- The status that the Delivery takes after `n` earlier Attempts.
pub data Verdict (max_attempts n : ℕ) : Option ℕ → DeliveryStatus → Type 0 where
  delivered :
      (status : ℕ)
      → 200 ≤ status
      → status ≤ 299
      → Verdict max_attempts n (some status) DeliveryStatus.succeeded
  refused :
      (status : ℕ)
      → (status < 200) ⊎ (300 ≤ status)
      → ¬ MayRecover (some status)
      → Verdict max_attempts n (some status) DeliveryStatus.failed
  exhausted :
      (code : Option ℕ)
      → MayRecover code
      → max_attempts ≤ n + 1
      → Verdict max_attempts n code DeliveryStatus.dead_lettered
  again :
      (code : Option ℕ)
      → MayRecover code
      → n + 1 < max_attempts
      → Verdict max_attempts n code pending

is_retryable-MayRecover : (code : Option ℕ) → is_retryable_outcome code ≡ true → MayRecover code
unfolding is_retryable_outcome
is_retryable-MayRecover none h = no_answer
is_retryable-MayRecover (some status) h = elim ((is_retryable_outcome_iff status).0 h) [
  | inl e ↦ timed_out status e
  | inr (inl e) ↦ throttled status e
  | inr (inr (low, high)) ↦ server_error status low high
]

pub MayRecover-is_retryable : {code : Option ℕ} → MayRecover code → is_retryable_outcome code ≡ true
unfolding is_retryable_outcome
MayRecover-is_retryable no_answer = refl
MayRecover-is_retryable (timed_out status e) = ground arith
MayRecover-is_retryable (throttled status e) = ground arith
MayRecover-is_retryable (server_error status l h) = ground arith

pub MayRecover-not_2xx : {code : Option ℕ} → MayRecover code → is_2xx code ≡ false
MayRecover-not_2xx no_answer = refl
MayRecover-not_2xx (timed_out status e) = ground arith
MayRecover-not_2xx (throttled status e) = ground arith
MayRecover-not_2xx (server_error status l h) = ground arith

pub not_retryable : (code : Option ℕ) → ¬ MayRecover code → is_retryable_outcome code ≡ false
not_retryable code final = elim (Bool-cases (is_retryable_outcome code)) [
  | inl e ↦ absurd (final (is_retryable-MayRecover code e))
  | inr e ↦ e
]

Verdict-of_MayRecover :
    (max_attempts n : ℕ) (code : Option ℕ)
    → MayRecover code
    → (status : DeliveryStatus) × Verdict max_attempts n code status
Verdict-of_MayRecover max_attempts n code m = elim (dec_le max_attempts (n + 1)) [
  | yes h ↦ (DeliveryStatus.dead_lettered, exhausted code m h)
  | no h ↦ (pending, again code m (omega arith))
]

Verdict-of_answer :
    (max_attempts n : ℕ) (code : Option ℕ)
    → is_retryable_outcome code ≡ false
    → (status : DeliveryStatus) × Verdict max_attempts n code status
Verdict-of_answer max_attempts n none h = cc (MayRecover-is_retryable no_answer)
Verdict-of_answer max_attempts n (some code) h = elim (Bool-cases (is_2xx (some code))) [
  | inl good ↦ (DeliveryStatus.succeeded, delivered code (ground arith) (ground arith))
  | inr bad ↦
      (DeliveryStatus.failed, refused code (ground arith) (λ m. cc (MayRecover-is_retryable m)))
]

-- Each answer has one verdict.
pub Verdict-total :
    (max_attempts n : ℕ) (code : Option ℕ)
    → (status : DeliveryStatus) × Verdict max_attempts n code status
Verdict-total max_attempts n code = elim (Bool-cases (is_retryable_outcome code)) [
  | inl again? ↦ Verdict-of_MayRecover max_attempts n code (is_retryable-MayRecover code again?)
  | inr final ↦ Verdict-of_answer max_attempts n code final
]

-- What a call reports to the queue: it throws, with a delay under the cap, exactly where the Delivery
-- is to be tried again.
abbrev pub Reports : ℕ → DeliveryStatus → Outcome (Unit {0}) → Type 0
Reports cap pending (retryable ms) = ms ≤ cap
Reports cap pending (returned _) = ⊥
Reports cap _ (retryable ms) = ⊥
Reports cap _ crashed = ⊥
Reports cap _ (returned _) = Unit

pub auto_disable-deliveries :
    (db : Database) (id after now : ℕ)
    → ((maybe_auto_disable_endpoint db id after now).0.deliveries ≡ db.deliveries)
      × ((maybe_auto_disable_endpoint db id after now).0.attempts ≡ db.attempts)
unfolding maybe_auto_disable_endpoint
auto_disable-deliveries db id after now = ground arith

pub Verdict-ne-in_progress :
    {m n : ℕ} {code : Option ℕ} {status : DeliveryStatus}
    → Verdict m n code status
    → status ≢ in_progress
Verdict-ne-in_progress (delivered _ _ _) e = cc
Verdict-ne-in_progress (refused _ _ _) e = cc
Verdict-ne-in_progress (exhausted _ _ _) e = cc
Verdict-ne-in_progress (again _ _ _) e = cc
