-- ===== src/Ratelimit.antt =====
-- The token buckets of internal/ratelimit/ratelimit.go. Its lock makes each method one step; a call that
-- reads the clock in front of another and takes the lock behind it is not modelled. The floating
-- point numbers are an argument; times are nanoseconds, and a bucket that is new has the zero time.
pub mod Validity
pub mod Sweeping
pub mod Unswept
pub mod Burst
use proxy_sentinel.Base.Int.{ℤ, pos, ltb_ℤ}
use proxy_sentinel.Base.Map
use proxy_sentinel.Base.{
  ℕ, ◌+◌, ◌-◌, ◌*◌, ◌^◌, Bool, true, false, not, ◌||◌, List, [], ◌∷◌, Option, none, some, ltb, leb,
  ◌==◌, nat_eq, if◌then◌else◌, length,
}

-- The finite numbers of float64: `seconds` is Duration.Seconds, `nanos` the conversion to a Duration of a number of seconds.
pub record Floats (F : Type 0) : Type 0 where
  pub of_int : ℤ → F
  pub add : F → F → F
  pub sub : F → F → F
  pub mul : F → F → F
  pub div : F → F → F
  pub min : F → F → F
  pub le : F → F → Bool
  pub seconds : ℕ → F
  pub nanos : F → ℤ

pub record Bucket (F : Type 0) : Type 0 where
  pub tokens : F
  pub last : Option ℕ

pub record Limiter (F : Type 0) : Type 0 where
  pub window : ℕ
  pub buckets : List (ℕ × Bucket F)

abbrev pub max_keys : ℕ
max_keys = 65_536

-- `now.Sub(last)`; behind the zero time it is the longest Duration.
unfoldable pub since : ℕ → Option ℕ → ℕ
since now none = 2 ^ 63 - 1
since now (some last) = now - last

module _ {F : Type 0} where
  unfoldable pub new_limiter : ℕ → Limiter F
  new_limiter window = record { window = window; buckets = [] }

  -- The buckets that have been idle for longer than two windows are dropped.
  unfoldable pub sweep : ℕ → Limiter F → Limiter F
  sweep now l = record l {
    buckets = Map.keep_values (λ b. not (ltb (l.window * 2) (since now b.last))) l.buckets;
  }

  unfoldable pub remove : ℕ → Limiter F → Limiter F
  remove key l = record l { buckets = Map.erase key l.buckets }

module _ {F : Type 0} (fl : Floats F) where
  abbrev zero_bucket : Bucket F
  zero_bucket = record { tokens = fl.of_int (pos 0); last = none }

  -- The bucket of a key, with a sweep before the table grows past its limit.
  unfoldable pub take_bucket : ℕ → ℕ → Limiter F → Bucket F × Limiter F
  take_bucket now key l = elim (Map.lookup key l.buckets) [
    | some b ↦ (b, l)
    | none ↦ (zero_bucket, if leb max_keys (length l.buckets) then sweep now l else l)
  ]

  unfoldable pub rate : ℤ → ℕ → F
  rate limit window = fl.div (fl.of_int limit) (fl.seconds window)

  -- What a bucket holds after it is refilled for the time that has gone by.
  unfoldable pub refill : ℕ → ℤ → ℕ → Bucket F → F
  refill now limit window b =
      fl.min (fl.of_int limit)
        (fl.add b.tokens (fl.mul (fl.seconds (since now b.last)) (rate limit window)))

  -- Whether a request with so many tokens in its bucket passes, and how many are left.
  unfoldable pub spend : F → Bool × F
  spend tokens =
      if fl.le (fl.of_int (pos 1)) tokens
      then (true, fl.sub tokens (fl.of_int (pos 1)))
      else (false, tokens)

  unfoldable pub retry_after : ℤ → ℕ → F → ℤ
  retry_after limit window tokens =
      let retry = fl.nanos (fl.div (fl.sub (fl.of_int (pos 1)) tokens) (rate limit window)) in
      if ltb_ℤ retry (pos 0) then pos 0 else retry

  -- From the refill on.
  unfoldable pub charge : ℕ → ℕ → ℤ → Bucket F × Limiter F → (Bool × ℤ) × Limiter F
  charge now key limit (b, l) =
      let tokens = refill now limit l.window b in
      let (passes, left) = spend tokens in
      (
        (passes, if passes then pos 0 else retry_after limit l.window tokens),
        record l { buckets = Map.insert key (record { tokens = left; last = some now }) l.buckets },
      )

  -- Whether the request passes, and how long it should wait.
  unfoldable pub allow : ℕ → ℕ → ℤ → Limiter F → (Bool × ℤ) × Limiter F
  allow now key limit l =
      if not (ltb_ℤ (pos 0) limit)
      then ((true, pos 0), l)
      else charge now key limit (take_bucket now key l)
