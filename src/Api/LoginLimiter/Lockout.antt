-- ===== src/Api/LoginLimiter/Lockout.antt =====
-- When the login limiter refuses an address, and for how long.
use mathlib.Core.Path.{subst⁻¹}
use proxy_sentinel.Base.Map
use proxy_sentinel.Base.Map.{
  lookup-insert, lookup-erase, IsUnique, insert-IsUnique, erase-IsUnique, keep_values-IsUnique,
  lookup-keep_values,
}
use proxy_sentinel.Base.Text.{Text}
use proxy_sentinel.Base.{
  ℕ, suc, ◌+◌, ◌<◌, ◌≡◌, ◌≢◌, refl, ◌∙◌, ap, true, false, not, ◌&&◌, List, [], ◌∷◌, Option, none,
  some, leb, ltb, ◌==◌, nat_eq, list_eq, if◌then◌else◌, length, All, arith, Bool-cases, inl, inr,
  ◌⊎◌,
}
use proxy_sentinel.Base.Affix.{text_eq_iff}
use proxy_sentinel.Api.LoginLimiter.{
  LoginEntry, LoginLimiter, allowed, count_failure, entry_of, fail, success, is_stale, clean,
}

-- The limiter after failures of one address, the latest first.
unfoldable pub after_failures : Text → List ℕ → LoginLimiter → LoginLimiter
after_failures ip [] l = l
after_failures ip (t ∷ ts) l = (fail t ip (after_failures ip ts l)).1

after_failures-limits :
    (ip : Text) (ts : List ℕ) (l : LoginLimiter)
    → ((after_failures ip ts l).max_fail ≡ l.max_fail)
      × ((after_failures ip ts l).lock_dur ≡ l.lock_dur)
unfolding after_failures fail
after_failures-limits ip [] l = (refl, refl)
after_failures-limits ip (t ∷ ts) l = after_failures-limits ip ts l

-- What the entry holds after that many failures, the last at `t`.
unfoldable entry_after : ℕ → ℕ → LoginLimiter → LoginEntry
entry_after n t l = record {
  failures = n;
  last_fail = t;
  locked_until = if leb l.max_fail n then t + l.lock_dur else 0;
}

fail_entry :
    (now : ℕ) (ip : Text) (l : LoginLimiter)
    → Map.lookup ip (fail now ip l).1.entries
      ≡ some (count_failure now l (entry_of (Map.lookup ip l.entries)))
unfolding fail
fail_entry now ip l = ground (
  arith,
  lookup-insert ip ip (count_failure now l (entry_of (Map.lookup ip l.entries))) l.entries,
  text_eq_iff ip ip,
)

-- One more failure is counted, and locks when the limit is reached.
count_failure_next :
    (n t s : ℕ) (l k : LoginLimiter)
    → k.max_fail ≡ l.max_fail
    → k.lock_dur ≡ l.lock_dur
    → count_failure t k (entry_after n s l) ≡ entry_after (suc n) t l
unfolding count_failure entry_after
count_failure_next n t s l k m d = ground (arith, m, d)

count_failure_first :
    (t : ℕ) (l : LoginLimiter) → count_failure t l (entry_of none) ≡ entry_after 1 t l
unfolding count_failure entry_after entry_of
count_failure_first t l = refl

after_failures_entry :
    (ip : Text) (t : ℕ) (ts : List ℕ) (l : LoginLimiter) (o : Option LoginEntry) (e : LoginEntry)
    → Map.lookup ip (after_failures ip ts l).entries ≡ o
    → count_failure t (after_failures ip ts l) (entry_of o) ≡ e
    → Map.lookup ip (after_failures ip (t ∷ ts) l).entries ≡ some e
unfolding after_failures
after_failures_entry ip t ts l o e h c =
    fail_entry t ip (after_failures ip ts l)
    ∙ ap some (ap (λ x. count_failure t (after_failures ip ts l) (entry_of x)) h ∙ c)

lookup-after_failures :
    (ip : Text) (t : ℕ) (ts : List ℕ) (l : LoginLimiter)
    → Map.lookup ip l.entries ≡ none
    → Map.lookup ip (after_failures ip (t ∷ ts) l).entries
      ≡ some (entry_after (suc (length ts)) t l)
lookup-after_failures ip t [] l fresh =
    after_failures_entry ip t [] l none (entry_after 1 t l) (unfold after_failures in fresh)
      (unfold after_failures in count_failure_first t l)
lookup-after_failures ip t (s ∷ ts) l fresh =
    let n = suc (length ts) in
    let (m, d) = after_failures-limits ip (s ∷ ts) l in
    after_failures_entry ip t (s ∷ ts) l (some (entry_after n s l)) (entry_after (suc n) t l)
      (lookup-after_failures ip s ts l fresh)
      (unfold entry_of in count_failure_next n t s l (after_failures ip (s ∷ ts) l) m d)

-- An address without a record that has failed at `t` last, and as often as the list says, is refused
-- exactly when the failures have reached the limit and the lock that began with the last one still runs.
pub after_failures-allowed :
    (ip : Text) (t : ℕ) (ts : List ℕ) (l : LoginLimiter) (now : ℕ)
    → Map.lookup ip l.entries ≡ none
    → (allowed now ip (after_failures ip (t ∷ ts) l)).0
      ≡ not (leb l.max_fail (suc (length ts)) && ltb now (t + l.lock_dur))
unfolding allowed entry_after
after_failures-allowed ip t ts l now fresh = ground (arith, lookup-after_failures ip t ts l fresh)

-- One event that reaches the limiter.
pub data Event : Type 0 where
  asked : ℕ → Text → Event
  failed : ℕ → Text → Event
  succeeded : Text → Event
  cleaned : ℕ → Event

unfoldable pub step : LoginLimiter → Event → LoginLimiter
step l (asked now ip) = (allowed now ip l).1
step l (failed now ip) = (fail now ip l).1
step l (succeeded ip) = success ip l
step l (cleaned now) = clean now l

unfoldable pub run : LoginLimiter → List Event → LoginLimiter
run l [] = l
run l (e ∷ es) = run (step l e) es

-- Questions and cleanups before the time `end`, and logins from other addresses than `ip`.
unfoldable pub IsElsewhere : Text → ℕ → Event → Type 0
IsElsewhere ip end (asked now _) = now < end
IsElsewhere ip end (failed _ other) = other ≢ ip
IsElsewhere ip end (succeeded other) = other ≢ ip
IsElsewhere ip end (cleaned now) = now < end

allowed_entries :
    (now : ℕ) (ip : Text) (l : LoginLimiter)
    → ((allowed now ip l).1.entries ≡ l.entries)
      ⊎ ((allowed now ip l).1.entries ≡ Map.erase ip l.entries)
unfolding allowed
allowed_entries now ip l = ground arith

step-IsUnique : (l : LoginLimiter) (e : Event) → IsUnique l.entries → IsUnique (step l e).entries
unfolding step fail success clean
step-IsUnique l (asked now ip) u = elim (allowed_entries now ip l) [
  | inl same ↦ subst⁻¹ (λ m. IsUnique m) same u
  | inr gone ↦ subst⁻¹ (λ m. IsUnique m) gone (erase-IsUnique ip l.entries u)
]
step-IsUnique l (failed now ip) u =
    insert-IsUnique ip (count_failure now l (entry_of (Map.lookup ip l.entries))) l.entries u
step-IsUnique l (succeeded ip) u = erase-IsUnique ip l.entries u
step-IsUnique l (cleaned now) u = keep_values-IsUnique (λ e. not (is_stale now l e)) l.entries u

fresh_now :
    (now : ℕ) (l : LoginLimiter) (e : LoginEntry)
    → now < e.locked_until
    → not (is_stale now l e) ≡ true
unfolding is_stale
fresh_now now l e before = ground (arith, before)

locked-allowed :
    (now : ℕ) (ip : Text) (l : LoginLimiter) (e : LoginEntry)
    → Map.lookup ip l.entries ≡ some e
    → now < e.locked_until
    → allowed now ip l ≡ (false, l)
unfolding allowed
locked-allowed now ip l e h before = ground (arith, h, before)

step-locked :
    (l : LoginLimiter) (ip : Text) (e : LoginEntry) (ev : Event)
    → IsUnique l.entries
    → Map.lookup ip l.entries ≡ some e
    → IsElsewhere ip e.locked_until ev
    → Map.lookup ip (step l ev).entries ≡ some e
unfolding step fail success clean IsElsewhere
step-locked l ip e (asked now other) u h far = elim (Bool-cases (other == ip)) [
  | inl same ↦
      subst⁻¹ (λ x. Map.lookup ip (allowed now x l).1.entries ≡ some e)
        ((text_eq_iff other ip).0 same)
        (ap (λ r. Map.lookup ip r.1.entries) (locked-allowed now ip l e h far) ∙ h)
  | inr differ ↦ elim (allowed_entries now other l) [
    | inl kept ↦ ap (Map.lookup ip) kept ∙ h
    | inr gone ↦
        ap (Map.lookup ip) gone ∙ ground (arith, h, lookup-erase other ip l.entries, differ)
  ]
]
step-locked l ip e (failed now other) u h far = ground (
  arith,
  h,
  far,
  text_eq_iff other ip,
  lookup-insert other ip (count_failure now l (entry_of (Map.lookup other l.entries))) l.entries,
)
step-locked l ip e (succeeded other) u h far =
    ground (arith, h, far, lookup-erase other ip l.entries, text_eq_iff other ip)
step-locked l ip e (cleaned now) u h far =
    rw (lookup-keep_values (λ x. not (is_stale now l x)) ip l.entries u, h, fresh_now now l e far)
      refl

-- In a limiter that keeps each address once, an address that is locked is refused at every time before the end of its lock, whatever
-- happens before that end but logins from this address: questions about any address, failures and
-- successes of others, and cleanups.
pub run-locked :
    (l : LoginLimiter) (ip : Text) (e : LoginEntry) (es : List Event) (now : ℕ)
    → IsUnique l.entries
    → Map.lookup ip l.entries ≡ some e
    → All (IsElsewhere ip e.locked_until) es
    → now < e.locked_until
    → (allowed now ip (run l es)).0 ≡ false
unfolding run
run-locked l ip e [] now u h far before = ap (λ r. r.0) (locked-allowed now ip l e h before)
run-locked l ip e (ev ∷ es) now u h (f, far) before =
    run-locked (step l ev) ip e es now (step-IsUnique l ev u) (step-locked l ip e ev u h f) far
      before
