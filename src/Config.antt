-- ===== src/Config.antt =====
-- validate of internal/config/config.go, on the fields of the configuration that it reads. The sampling
-- rate is a floating-point number, whose type and comparison are arguments; Go's int is ℤ.
use mathlib.Core.Path.{subst⁻¹}
use proxy_sentinel.Base.Int.{ℤ, pos, ltb_ℤ}
use proxy_sentinel.Base.Text.{Text, bytes}
use proxy_sentinel.Base.{
  ℕ, ◌*◌, ◌≡◌, ◌≢◌, ◌⊎◌, inl, inr, refl, ◌∙◌, Bool, true, false, not, ◌&&◌, ◌||◌, List, [], ◌∷◌,
  ◌++◌, Option, none, some, arith, ltb, ◌==◌, nat_eq, list_eq, if◌then◌else◌, any, length,
}
use proxy_sentinel.Base.Affix.{text_eq_iff}

pub record Settings (F : Type 0) : Type 0 where
  pub backends : List Text
  pub proxy_tokens : List Text
  pub jwt_secret : Text
  pub admin_password : Text
  pub strategy : Text
  pub sample_rate : F
  pub default_rpm : ℤ
  pub check_interval : ℤ
  pub body_max_bytes : ℤ
  pub max_body_bytes : ℤ
  pub max_upload_bytes : ℤ
  pub queue_capacity : ℤ
  pub health_retention_days : ℤ
  pub audit_retention_days : ℤ

pub data Fault : Type 0 where
  no_backend no_token no_secret weak_secret no_password weak_password bad_strategy bad_rate
        bad_rpm :
      Fault
  negative_interval short_interval : Fault

pub data Warning : Type 0 where
  short_secret short_password : ℕ → Warning

abbrev weak_secrets : List Text
weak_secrets =
    bytes "change-me-please"
    ∷ bytes "change-this-to-a-random-secret"
    ∷ bytes "secret"
    ∷ bytes "password"
    ∷ []

-- `lower` is strings.ToLower.
unfoldable pub is_weak : (Text → Text) → Text → Bool
is_weak lower s = any (λ w. w == lower s) weak_secrets

-- Neither empty nor one of the four well-known texts, in upper or lower case.
abbrev pub IsStrong : (Text → Text) → Text → Type 0
IsStrong lower s =
    (s ≢ [])
    × (lower s ≢ bytes "change-me-please")
    × (lower s ≢ bytes "change-this-to-a-random-secret")
    × (lower s ≢ bytes "secret")
    × (lower s ≢ bytes "password")

is_weak-IsStrong :
    (lower : Text → Text) (s : Text)
    → (s == []) ≡ false
    → is_weak lower s ≡ false
    → IsStrong lower s
unfolding is_weak
is_weak-IsStrong lower s full strong = (
  (λ q. ground (arith, full, text_eq_iff s [], q)),
  (λ q. ground (arith, strong, text_eq_iff (bytes "change-me-please") (lower s), q)),
  (λ q. ground (arith, strong, text_eq_iff (bytes "change-this-to-a-random-secret") (lower s), q)),
  (λ q. ground (arith, strong, text_eq_iff (bytes "secret") (lower s), q)),
  (λ q. ground (arith, strong, text_eq_iff (bytes "password") (lower s), q)),
)

is_none : List Text → Bool
is_none [] = true
is_none (x ∷ xs) = false

-- `if n <= 0 { n = default }`
unfoldable pub positive_or : ℕ → ℤ → ℤ
positive_or default n = if ltb_ℤ (pos 0) n then n else pos default

-- `if n < 0 { n = 0 }`
unfoldable pub at_least_zero : ℤ → ℤ
at_least_zero n = if ltb_ℤ n (pos 0) then pos 0 else n

-- strings.ToLower, and the comparison and the numbers 0 and 1 of float64.
module _ {F : Type 0} (lower : Text → Text) (lt : F → F → Bool) (zero_rate one_rate : F) where
  -- The first check that fails.
  unfoldable pub find_fault : Settings F → Option Fault
  unfolding is_none
  find_fault c =
      if is_none c.backends
      then some no_backend
      else if is_none c.proxy_tokens
      then some no_token
      else if c.jwt_secret == []
      then some no_secret
      else if is_weak lower c.jwt_secret
      then some weak_secret
      else if c.admin_password == []
      then some no_password
      else if is_weak lower c.admin_password
      then some weak_password
      else if not (c.strategy == bytes "round_robin") && not (c.strategy == bytes "random")
      then some bad_strategy
      else if lt c.sample_rate zero_rate || lt one_rate c.sample_rate
      then some bad_rate
      else if ltb_ℤ c.default_rpm (pos 0)
      then some bad_rpm
      else if ltb_ℤ c.check_interval (pos 0)
      then some negative_interval
      else if ltb_ℤ (pos 0) c.check_interval && ltb_ℤ c.check_interval (pos 5)
      then some short_interval
      else none

  unfoldable pub warnings : Settings F → List Warning
  warnings c =
      (if ltb (length c.jwt_secret) 16 then short_secret (length c.jwt_secret) ∷ [] else [])
      ++ (if ltb (length c.admin_password) 8
          then short_password (length c.admin_password) ∷ []
          else [])

  -- The limits that are replaced by their defaults.
  unfoldable pub normalize : Settings F → Settings F
  normalize c = record c {
    body_max_bytes = positive_or (64 * 1024) c.body_max_bytes;
    max_body_bytes = positive_or (10 * 1024 * 1024) c.max_body_bytes;
    max_upload_bytes = at_least_zero c.max_upload_bytes;
    queue_capacity = at_least_zero c.queue_capacity;
    health_retention_days = at_least_zero c.health_retention_days;
    audit_retention_days = at_least_zero c.audit_retention_days;
  }

  -- `validate`: the fault, or the warnings and the configuration that is left.
  unfoldable pub validate : Settings F → Fault ⊎ (List Warning × Settings F)
  validate c = elim (find_fault c) [ some f ↦ inl f | none ↦ inr (warnings c, normalize c) ]

  -- What the program relies on after the start.
  pub record IsUsable (c : Settings F) : Type 0 where
    pub routed : c.backends ≢ []
    pub guarded : c.proxy_tokens ≢ []
    pub secret : IsStrong lower c.jwt_secret
    pub password : IsStrong lower c.admin_password
    pub strategy : (c.strategy ≡ bytes "round_robin") ⊎ (c.strategy ≡ bytes "random")
    pub rate : (lt c.sample_rate zero_rate ≡ false) × (lt one_rate c.sample_rate ≡ false)
    pub rpm : ltb_ℤ c.default_rpm (pos 0) ≡ false
    pub body_max : ltb_ℤ (pos 0) c.body_max_bytes ≡ true
    pub max_body : ltb_ℤ (pos 0) c.max_body_bytes ≡ true
    pub max_upload : ltb_ℤ c.max_upload_bytes (pos 0) ≡ false
    pub queue : ltb_ℤ c.queue_capacity (pos 0) ≡ false

  validate_parts :
      (c d : Settings F) (ws : List Warning)
      → validate c ≡ inr (ws, d)
      → (find_fault c ≡ none) × (ws ≡ warnings c) × (d ≡ normalize c)
  unfolding validate
  validate_parts c d ws e = ground (arith, e)

  positive_or_lem : (k : ℕ) (n : ℤ) → ltb 0 k ≡ true → ltb_ℤ (pos 0) (positive_or k n) ≡ true
  unfolding positive_or
  positive_or_lem k n h = ground (arith, h)

  at_least_zero_lem : (n : ℤ) → ltb_ℤ (at_least_zero n) (pos 0) ≡ false
  unfolding at_least_zero
  at_least_zero_lem n = ground arith

  nonempty_of : (xs : List Text) → is_none xs ≡ false → xs ≢ []
  nonempty_of [] h e = unfold is_none in cc
  nonempty_of (x ∷ xs) h e = cc

  find_fault-none :
      (c : Settings F)
      → find_fault c ≡ none
      → (is_none c.backends ≡ false)
        × (is_none c.proxy_tokens ≡ false)
        × ((c.jwt_secret == []) ≡ false)
        × (is_weak lower c.jwt_secret ≡ false)
        × ((c.admin_password == []) ≡ false)
        × (is_weak lower c.admin_password ≡ false)
        × ((c.strategy ≡ bytes "round_robin") ⊎ (c.strategy ≡ bytes "random"))
        × ((lt c.sample_rate zero_rate ≡ false) × (lt one_rate c.sample_rate ≡ false))
        × (ltb_ℤ c.default_rpm (pos 0) ≡ false)
  unfolding find_fault
  find_fault-none c e = ground (
    arith,
    e,
    text_eq_iff c.strategy (bytes "round_robin"),
    text_eq_iff c.strategy (bytes "random"),
  )

  normalize-IsUsable : (c : Settings F) → find_fault c ≡ none → IsUsable (normalize c)
  unfolding normalize
  normalize-IsUsable c e =
      let (backends, tokens, secret, strong, password, hard, strategy, rate, rpm) =
        find_fault-none c e in
      record {
        routed = nonempty_of c.backends backends;
        guarded = nonempty_of c.proxy_tokens tokens;
        secret = is_weak-IsStrong lower c.jwt_secret secret strong;
        password = is_weak-IsStrong lower c.admin_password password hard;
        strategy = strategy;
        rate = rate;
        rpm = rpm;
        body_max = positive_or_lem (64 * 1024) c.body_max_bytes refl;
        max_body = positive_or_lem (10 * 1024 * 1024) c.max_body_bytes refl;
        max_upload = at_least_zero_lem c.max_upload_bytes;
        queue = at_least_zero_lem c.queue_capacity;
      }

  find_fault-normalize : (c : Settings F) → find_fault (normalize c) ≡ find_fault c
  unfolding find_fault normalize
  find_fault-normalize c = refl

  warnings-normalize : (c : Settings F) → warnings (normalize c) ≡ warnings c
  unfolding warnings normalize
  warnings-normalize c = refl

  positive_or_idem : (k : ℕ) (n : ℤ) → positive_or k (positive_or k n) ≡ positive_or k n
  unfolding positive_or
  positive_or_idem k n = ground arith

  at_least_zero_idem : (n : ℤ) → at_least_zero (at_least_zero n) ≡ at_least_zero n
  unfolding at_least_zero
  at_least_zero_idem n = ground arith

  normalize_idem : (c : Settings F) → normalize (normalize c) ≡ normalize c
  unfolding normalize
  normalize_idem c =
      rw
        (
          positive_or_idem (64 * 1024) c.body_max_bytes,
          positive_or_idem (10 * 1024 * 1024) c.max_body_bytes,
          at_least_zero_idem c.max_upload_bytes,
          at_least_zero_idem c.queue_capacity,
          at_least_zero_idem c.health_retention_days,
          at_least_zero_idem c.audit_retention_days,
        )
        refl

  validate_clean :
      (c : Settings F) → find_fault c ≡ none → validate c ≡ inr (warnings c, normalize c)
  unfolding validate
  validate_clean c clean = ground (arith, clean)

  -- A configuration that validation lets through has backends, tokens, and a secret and a password that are
  -- not empty and in lower case none of four well-known texts. Its strategy is round_robin or random, and so
  -- never weighted; its sampling rate is not below 0 or above 1, and its rate limit is not negative; it has
  -- positive limits for bodies and no negative limit for uploads or the queue. Validating it again changes
  -- nothing and warns of the same.
  pub validate-IsUsable :
      (c d : Settings F) (ws : List Warning)
      → validate c ≡ inr (ws, d)
      → IsUsable d × (validate d ≡ inr (ws, d))
  validate-IsUsable c d ws e =
      let (clean, same, kept) = validate_parts c d ws e in
      (subst⁻¹ IsUsable kept (normalize-IsUsable c clean), rw (same, kept) (again c clean))
    where
      again :
          (c : Settings F)
          → find_fault c ≡ none
          → validate (normalize c) ≡ inr (warnings c, normalize c)
      again c clean =
          validate_clean (normalize c) (find_fault-normalize c ∙ clean)
          ∙ rw (warnings-normalize c, normalize_idem c) refl
