-- ===== src/Alert.antt =====
-- Engine of internal/alert/engine.go: which alerts a round of checks sends. Floating-point numbers, the
-- webhook and the queries are arguments, and the texts of the messages are left out: an alert is its key.
-- One round has one time.
pub mod Sending
pub mod Stored
use proxy_sentinel.Base.Int.{ℤ, pos, pos_part, ltb_ℤ}
use proxy_sentinel.Base.Map
use proxy_sentinel.Base.Text.{Text, bytes}
use proxy_sentinel.Base.{
  ℕ, ◌-◌, ◌*◌, Bool, true, false, not, ◌&&◌, ◌||◌, List, [], ◌∷◌, ◌++◌, Option, none, some, ltb,
  ◌==◌, nat_eq, list_eq, if◌then◌else◌,
}
use proxy_sentinel.Proxy.Balancer.{BackendStat}

-- What the engine computes with float64.
pub record Floats (F : Type 0) : Type 0 where
  pub of_int : ℤ → F
  pub div : F → F → F
  pub mul : F → F → F
  pub lt : F → F → Bool
  pub le : F → F → Bool

pub record Rules (F : Type 0) : Type 0 where
  pub enabled : Bool
  pub error_rate_pct : F
  pub window_minutes : ℤ
  pub min_sample : ℤ
  pub backend_down : Bool
  pub latency_ms : ℤ
  pub silence_minutes : ℤ

pub data RulesFault : Type 0 where
  bad_rate bad_window bad_sample bad_silence bad_latency : RulesFault

pub record Engine : Type 0 where
  pub last_sent : List (Text × ℕ)
  pub healthy : List (Text × Bool)

-- A webhook that takes a message, or fails.
abbrev pub Send : Type 0
Send = Text → Bool

abbrev pub minute : ℕ
minute = 60 * 1_000_000_000

-- `lo <= n && n <= hi`
unfoldable pub within : ℕ → ℕ → ℤ → Bool
within lo hi n = not (ltb_ℤ n (pos lo)) && not (ltb_ℤ (pos hi) n)

unfoldable pub down_key : Text → Text
down_key url = bytes "backend-down:" ++ url

unfoldable pub up_key : Text → Text
up_key url = bytes "backend-up:" ++ url

-- The last state of each address, as the loops over `Backends()` build it.
unfoldable pub snapshot : List (Text × Bool) → List BackendStat → List (Text × Bool)
snapshot m [] = m
snapshot m (b ∷ bs) = snapshot (Map.insert b.url b.healthy m) bs

unfoldable pub record_baseline : List BackendStat → Engine → Engine
record_baseline bs e = record e { healthy = snapshot [] bs }

-- The engine after a delivery, and the keys that were sent.
unfoldable pub deliver : ℕ → Send → Text → Engine → Engine × List Text
deliver now send key e =
    if send key
    then (record e { last_sent = Map.insert key now e.last_sent }, key ∷ [])
    else (e, [])

module _ {F : Type 0} (fl : Floats F) where
  -- `Validate`; `none` is the nil error.
  unfoldable pub validate : Rules F → Option RulesFault
  validate r =
      if fl.lt r.error_rate_pct (fl.of_int (pos 0)) || fl.lt (fl.of_int (pos 100)) r.error_rate_pct
      then some bad_rate
      else if not (within 1 60 r.window_minutes)
      then some bad_window
      else if ltb_ℤ r.min_sample (pos 1)
      then some bad_sample
      else if not (within 1 1440 r.silence_minutes)
      then some bad_silence
      else if not (within 0 60000 r.latency_ms)
      then some bad_latency
      else none

  -- `time.Since(t) < silence`
  unfoldable pub is_silent : ℕ → Rules F → Option ℕ → Bool
  is_silent now r none = false
  is_silent now r (some t) = ltb (now - t) (pos_part r.silence_minutes * minute)

  unfoldable pub fire : ℕ → Send → Rules F → Text → Engine → Engine × List Text
  fire now send r key e =
      if is_silent now r (Map.lookup key e.last_sent) then (e, []) else deliver now send key e

  -- One backend, with its state in the round before.
  unfoldable pub notice :
      ℕ → Send → Rules F → Text → Option Bool → Bool → Engine → Engine × List Text
  notice now send r url none up e = (e, [])
  notice now send r url (some was) up e =
      if was && not up
      then fire now send r (down_key url) e
      else if not was && up
      then deliver now send (up_key url)
          (record e { last_sent = Map.erase (down_key url) e.last_sent })
      else (e, [])

  unfoldable pub watch :
      ℕ → Send → Rules F → List (Text × Bool) → List (Text × Bool) → Engine → Engine × List Text
  watch now send r prev [] e = (e, [])
  watch now send r prev ((url, up) ∷ rest) e =
      let (e', sent) = notice now send r url (Map.lookup url prev) up e in
      let (e'', more) = watch now send r prev rest e' in (e'', sent ++ more)

  unfoldable pub check_backends :
      ℕ → Send → Rules F → List BackendStat → Engine → Engine × List Text
  check_backends now send r bs e =
      let current = snapshot [] bs in
      watch now send r e.healthy current (record e { healthy = current })

  -- The number of requests and of those that failed in the window, `none` for an error of the query.
  unfoldable pub check_error_rate :
      ℕ → Send → Rules F → Option (ℤ × ℤ) → Engine → Engine × List Text
  check_error_rate now send r none e = (e, [])
  check_error_rate now send r (some (total, errors)) e =
      let rate = fl.mul (fl.div (fl.of_int errors) (fl.of_int total)) (fl.of_int (pos 100)) in
      if fl.le r.error_rate_pct (fl.of_int (pos 0))
      then (e, [])
      else if ltb_ℤ total r.min_sample
      then (e, [])
      else if fl.lt rate r.error_rate_pct
      then (e, [])
      else fire now send r (bytes "error-rate") e

  unfoldable pub slow_backends : ℕ → Send → Rules F → List (Text × F) → Engine → Engine × List Text
  slow_backends now send r [] e = (e, [])
  slow_backends now send r ((backend, avg) ∷ rest) e =
      let (e', sent) =
        if fl.lt avg (fl.of_int r.latency_ms)
        then (e, [])
        else fire now send r (bytes "backend-latency:" ++ backend) e in
      let (e'', more) = slow_backends now send r rest e' in (e'', sent ++ more)

  unfoldable pub check_latency :
      ℕ → Send → Rules F → Option (List (Text × F)) → Engine → Engine × List Text
  check_latency now send r none e = (e, [])
  check_latency now send r (some stats) e =
      if not (ltb_ℤ (pos 0) r.latency_ms) then (e, []) else slow_backends now send r stats e

  -- One round with the rules that were loaded for it.
  unfoldable pub evaluate :
      ℕ
      → Send
      → Bool
      → Rules F
      → List BackendStat
      → Option (ℤ × ℤ)
      → Option (List (Text × F))
      → Engine
      → Engine × List Text
  evaluate now send configured r bs counts latencies e =
      if not r.enabled || not configured
      then (record_baseline bs e, [])
      else let (e1, backends) = check_backends now send r bs e in
        let (e2, rates) = check_error_rate now send r counts e1 in
        let (e3, slow) = check_latency now send r latencies e2 in (e3, backends ++ rates ++ slow)
