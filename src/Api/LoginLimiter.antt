-- ===== src/Api/LoginLimiter.antt =====
-- loginLimiter of internal/api/auth.go: failed logins by address. Times are numbers on one clock, 0 is
-- Go's zero time, and the lock of the limiter makes each method one step at one time.
pub mod Lockout
use proxy_sentinel.Base.Map
use proxy_sentinel.Base.Text.{Text}
use proxy_sentinel.Base.{
  ℕ, ◌+◌, ◌-◌, ◌*◌, Bool, true, false, not, ◌&&◌, List, [], ◌∷◌, Option, none, some, leb, ltb, ◌==◌,
  nat_eq, list_eq, if◌then◌else◌,
}

pub record LoginEntry : Type 0 where
  pub failures : ℕ
  pub last_fail : ℕ
  pub locked_until : ℕ

pub record LoginLimiter : Type 0 where
  pub entries : List (Text × LoginEntry)
  pub max_fail : ℕ
  pub lock_dur : ℕ
  pub idle_ttl : ℕ

-- Seconds and minutes in the clock's nanoseconds.
abbrev pub second : ℕ
second = 1_000_000_000

unfoldable pub new_login_limiter : ℕ → ℕ → LoginLimiter
new_login_limiter max_fail lock_sec = record {
  entries = [];
  max_fail = max_fail;
  lock_dur = lock_sec * second;
  idle_ttl = 15 * 60 * second;
}

unfoldable pub allowed : ℕ → Text → LoginLimiter → Bool × LoginLimiter
allowed now ip l = elim (Map.lookup ip l.entries) [
  | none ↦ (true, l)
  | some e ↦
      if ltb now e.locked_until
      then (false, l)
      else if not (e.locked_until == 0)
      then (true, record l { entries = Map.erase ip l.entries })
      else (true, l)
]

abbrev pub new_entry : LoginEntry
new_entry = record { failures = 0; last_fail = 0; locked_until = 0 }

-- The entry after one more failure.
unfoldable pub count_failure : ℕ → LoginLimiter → LoginEntry → LoginEntry
count_failure now l e =
    let n = e.failures + 1 in
    record {
      failures = n;
      last_fail = now;
      locked_until = if leb l.max_fail n then now + l.lock_dur else e.locked_until;
    }

unfoldable pub entry_of : Option LoginEntry → LoginEntry
entry_of none = new_entry
entry_of (some e) = e

unfoldable pub fail : ℕ → Text → LoginLimiter → Bool × LoginLimiter
unfolding entry_of count_failure
fail now ip l =
    let e = count_failure now l (entry_of (Map.lookup ip l.entries)) in
    (leb l.max_fail e.failures, record l { entries = Map.insert ip e l.entries })

unfoldable pub success : Text → LoginLimiter → LoginLimiter
success ip l = record l { entries = Map.erase ip l.entries }

-- `now.After(e.lockedUntil) && now.Sub(e.lastFail) > l.idleTTL`
unfoldable pub is_stale : ℕ → LoginLimiter → LoginEntry → Bool
is_stale now l e = ltb e.locked_until now && ltb l.idle_ttl (now - e.last_fail)

-- One round of the cleanup.
unfoldable pub clean : ℕ → LoginLimiter → LoginLimiter
clean now l = record l { entries = Map.keep_values (λ e. not (is_stale now l e)) l.entries }
