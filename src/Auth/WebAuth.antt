-- ===== src/Auth/WebAuth.antt =====
-- WebAuthMiddleware of internal/auth/web_auth.go: sessions as signed cookies, checked against the user
-- table through a cache of 30 seconds. The JWT library and the user table are arguments: `parse` verifies a
-- token, `find` gives the token version of a user, or `none` for an error or an unknown user.
use proxy_sentinel.Base.Map
use proxy_sentinel.Base.Map.{lookup-erase}
use proxy_sentinel.Base.Affix.{text_eq_iff}
use proxy_sentinel.Base.Text.{Text, bytes}
use proxy_sentinel.Base.{
  ℕ, ◌-◌, ◌*◌, ◌≡◌, ◌≢◌, ◌⊎◌, inl, inr, refl, Bool, true, false, not, List, [], Option, none, some,
  arith, ltb, ◌==◌, nat_eq, list_eq, if◌then◌else◌, Option-cases, Bool-cases,
}

pub record CacheEntry : Type 0 where
  pub exists : Bool
  pub version : ℕ
  pub checked_at : ℕ

pub record Claims : Type 0 where
  pub username : Text
  pub role : Text
  pub token_version : ℕ

abbrev pub Cache : Type 0
Cache = List (Text × CacheEntry)

-- 30 seconds in nanoseconds.
abbrev pub user_cache_ttl : ℕ
user_cache_ttl = 30 * 1_000_000_000

-- What the user table says, as a new entry.
unfoldable pub query : ℕ → (Text → Option ℕ) → Text → CacheEntry
query now find u = elim (find u) [
  | none ↦ record { exists = false; version = 0; checked_at = now }
  | some v ↦ record { exists = true; version = v; checked_at = now }
]

unfoldable pub user_state : ℕ → (Text → Option ℕ) → Text → Cache → (Bool × ℕ) × Cache
user_state now find u m =
    let e = query now find u in
    let asked : (Bool × ℕ) × Cache = ((e.exists, e.version), Map.insert u e m) in
    elim (Map.lookup u m) [
      | none ↦ asked
      | some c ↦
          if ltb (now - c.checked_at) user_cache_ttl then ((c.exists, c.version), m) else asked
    ]

unfoldable pub invalidate_user : Text → Cache → Cache
invalidate_user u m = Map.erase u m

-- The request goes on with a user and a role in its context, or it is refused; the flag says whether the
-- cookie is cleared.
pub data Verdict : Type 0 where
  passes : Text → Text → Verdict
  refused : Bool → Verdict

-- A token of an old version has no role and counts as a viewer's.
unfoldable pub role_of : Claims → Text
role_of c = if c.role == [] then bytes "viewer" else c.role

unfoldable pub check_claims : Claims → Bool × ℕ → Verdict
check_claims c (exists, version) =
    if not exists
    then refused true
    else if not (version == c.token_version)
    then refused true
    else passes c.username (role_of c)

unfoldable pub middleware :
    (Text → Option Claims) → ℕ → (Text → Option ℕ) → Option Text → Cache → Verdict × Cache
middleware parse now find none m = (refused false, m)
middleware parse now find (some cookie) m =
    if cookie == [] then (refused false, m) else elim (parse cookie) [
      | none ↦ (refused false, m)
      | some c ↦ let (state, m') = user_state now find c.username m in (check_claims c state, m')
    ]

-- `unauthorized`: the status code.
unfoldable pub unauthorized : Bool → ℕ
unauthorized accept_json = if accept_json then 401 else 302

-- `AdminOnly` on the role of the context.
unfoldable pub admin_only : Text → Bool
admin_only role = role == bytes "admin"

-- Who may pass: the bearer of a token for a user whose version, in a cache entry that is still fresh or
-- else in the user table, is the token's.
abbrev pub IsCurrent : ℕ → (Text → Option ℕ) → Cache → Claims → Type 0
IsCurrent now find m c =
    (find c.username ≡ some c.token_version)
    ⊎ ((e : CacheEntry) × (Map.lookup c.username m ≡ some e)
        × (ltb (now - e.checked_at) user_cache_ttl ≡ true)
        × (e.exists ≡ true)
        × (e.version ≡ c.token_version))

check_claims_passes :
    (c : Claims) (s : Bool × ℕ) (u role : Text)
    → check_claims c s ≡ passes u role
    → (s.0 ≡ true) × (s.1 ≡ c.token_version) × (u ≡ c.username) × (role ≡ role_of c)
unfolding check_claims
check_claims_passes c s u role e = ground (arith, e)

user_state-IsCurrent :
    (now : ℕ) (find : Text → Option ℕ) (m : Cache) (c : Claims)
    → (user_state now find c.username m).0.0 ≡ true
    → (user_state now find c.username m).0.1 ≡ c.token_version
    → IsCurrent now find m c
unfolding user_state query
user_state-IsCurrent now find m c there same = elim (Option-cases (Map.lookup c.username m)) [
  | inl missing ↦ inl (ground (arith, missing, there, same))
  | inr (e, found) ↦ elim (Bool-cases (ltb (now - e.checked_at) user_cache_ttl)) [
    | inl fresh ↦
        inr
          (e, found, fresh, ground (arith, found, fresh, there), ground (arith, found, fresh, same))
    | inr old ↦ inl (ground (arith, found, old, there, same))
  ]
]

-- A request passes only with a cookie that verifies, under the user and the role of its claims, and only
-- if the user's token version, in a cache entry younger than 30 seconds or in the user table, is the
-- token's.
pub middleware-IsCurrent :
    (parse : Text → Option Claims) (now : ℕ) (find : Text → Option ℕ) (cookie : Option Text)
    (m : Cache) (u role : Text)
    → (middleware parse now find cookie m).0 ≡ passes u role
    → (token : Text) × (c : Claims) × (cookie ≡ some token)
      × (parse token ≡ some c)
      × (u ≡ c.username)
      × (role ≡ role_of c)
      × IsCurrent now find m c
unfolding middleware
middleware-IsCurrent parse now find none m u role e = absurd (ground (arith, e))
middleware-IsCurrent parse now find (some token) m u role e = elim (Option-cases (parse token)) [
  | inl bad ↦ absurd (ground (arith, bad, e))
  | inr (c, good) ↦
      let (there, same, name, kind) =
        check_claims_passes c (user_state now find c.username m).0 u role
          (ground (arith, good, e)) in
      (token, c, refl, good, name, kind, user_state-IsCurrent now find m c there same)
]

-- Nothing fresh is cached of a user.
abbrev pub IsStale : ℕ → Cache → Text → Type 0
IsStale now m u =
    (Map.lookup u m ≡ none)
    ⊎ ((e : CacheEntry) × (Map.lookup u m ≡ some e)
        × (ltb (now - e.checked_at) user_cache_ttl ≡ false))

check_claims_refused :
    (c : Claims) (e : CacheEntry)
    → (e.exists ≡ false) ⊎ (e.version ≢ c.token_version)
    → check_claims c (e.exists, e.version) ≡ refused true
unfolding check_claims
check_claims_refused c e h = ground (arith, h)

query_differs :
    (now : ℕ) (find : Text → Option ℕ) (c : Claims)
    → find c.username ≢ some c.token_version
    → let e = query now find c.username in (e.exists ≡ false) ⊎ (e.version ≢ c.token_version)
unfolding query
query_differs now find c stale = elim (Option-cases (find c.username)) [
  | inl unknown ↦ inl (ground (arith, unknown))
  | inr (v, known) ↦ inr (ground (arith, known, stale))
]

user_state_asks :
    (now : ℕ) (find : Text → Option ℕ) (u : Text) (m : Cache)
    → IsStale now m u
    → (user_state now find u m).0 ≡ ((query now find u).exists, (query now find u).version)
unfolding user_state
user_state_asks now find u m (inl missing) = ground (arith, missing)
user_state_asks now find u m (inr (e, found, old)) = ground (arith, found, old)

-- When what is cached of a user is missing or at least 30 seconds old, a token with another version than
-- the user table's is refused and its cookie is cleared.
middleware_revoked :
    (parse : Text → Option Claims) (now : ℕ) (find : Text → Option ℕ) (token : Text) (m : Cache)
    (c : Claims)
    → token ≢ []
    → parse token ≡ some c
    → find c.username ≢ some c.token_version
    → IsStale now m c.username
    → (middleware parse now find (some token) m).0 ≡ refused true
unfolding middleware
middleware_revoked parse now find token m c full good stale old = ground (
  arith,
  text_eq_iff token [],
  full,
  good,
  user_state_asks now find c.username m old,
  check_claims_refused c (query now find c.username) (query_differs now find c stale),
)

-- Dropping what is cached of a user refuses, from then on, every token of that user with another version
-- than the user table's.
pub invalidate_user_revokes :
    (parse : Text → Option Claims) (now : ℕ) (find : Text → Option ℕ) (token : Text) (m : Cache)
    (c : Claims)
    → token ≢ []
    → parse token ≡ some c
    → find c.username ≢ some c.token_version
    → (middleware parse now find (some token) (invalidate_user c.username m)).0 ≡ refused true
unfolding invalidate_user
invalidate_user_revokes parse now find token m c full good stale =
    middleware_revoked parse now find token (Map.erase c.username m) c full good stale (
      inl (ground (arith, lookup-erase c.username c.username m, text_eq_iff c.username c.username)))
