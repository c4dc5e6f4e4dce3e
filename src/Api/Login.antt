-- ===== src/Api/Login.antt =====
-- The login handler of internal/api/auth.go, over the login limiter. The request's JSON, the user table,
-- bcrypt and the signing of tokens are arguments. Texts of messages are left out.
pub mod Accounted
use mathlib.Core.Path.{subst⁻¹}
use proxy_sentinel.Base.Text.{Text, bytes}
use proxy_sentinel.Base.{
  ℕ, ◌≡◌, ◌⊎◌, inl, inr, refl, sym, ◌∙◌, Bool, true, false, not, ◌||◌, List, [], ◌∷◌, Option, none,
  some, arith, ◌==◌, nat_eq, list_eq, if◌then◌else◌, Option-cases, Bool-cases,
}
use proxy_sentinel.Storage.Users.{User}
use proxy_sentinel.Api.LoginLimiter.{LoginLimiter, allowed, fail, success}

pub record LoginRequest : Type 0 where
  pub username : Text
  pub password : Text

pub record Audit : Type 0 where
  pub username : Text
  pub action : Text
  pub ip : Text

-- `get_user` is `none` for an error and `some none` for an unknown name.
pub record World : Type 0 where
  pub now : ℕ
  pub read_json : Option LoginRequest
  pub get_user : Text → Option (Option User)
  pub check_password : Text → Text → Bool
  pub generate : User → Option Text

pub record Outcome : Type 0 where
  pub limiter : LoginLimiter
  pub status : ℕ
  pub cookie : Option Text
  pub audits : List Audit
  pub compared : List Text  -- the hashes that bcrypt was run on

abbrev pub dummy_hash : Text
dummy_hash = bytes "$2a$10$N9qo8uLOickgx2ZMRZoMyeIjZAgcfl7p92ldGxad68LJZdL17lhWy"

-- An answer before any password is compared.
unfoldable pub turn_away : ℕ → LoginLimiter → Outcome
turn_away status l = record {
  limiter = l;
  status = status;
  cookie = none;
  audits = [];
  compared = [];
}

-- A failed login, after the comparison with a hash.
unfoldable pub reject_login : ℕ → Text → Text → Text → LoginLimiter → Outcome
reject_login now ip name hash l = record {
  limiter = (fail now ip l).1;
  status = 401;
  cookie = none;
  audits = record { username = name; action = bytes "login_failed"; ip = ip } ∷ [];
  compared = hash ∷ [];
}

unfoldable pub accept_login : World → Text → User → LoginLimiter → Outcome
accept_login w ip u l = elim (w.generate u) [
  | none ↦ record {
    limiter = success ip l;
    status = 500;
    cookie = none;
    audits = [];
    compared = u.password_hash ∷ [];
  }
  | some token ↦ record {
    limiter = success ip l;
    status = 200;
    cookie = some token;
    audits = record { username = u.username; action = bytes "login_success"; ip = ip } ∷ [];
    compared = u.password_hash ∷ [];
  }
]

-- From the user table on.
unfoldable pub check_user : World → Text → LoginRequest → LoginLimiter → Outcome
check_user w ip r l = elim (w.get_user r.username) [
  | none ↦ turn_away 500 l
  | some none ↦ reject_login w.now ip r.username dummy_hash l
  | some (some u) ↦
      if w.check_password u.password_hash r.password
      then accept_login w ip u l
      else reject_login w.now ip r.username u.password_hash l
]

unfoldable pub login : World → Text → LoginLimiter → Outcome
login w ip l =
    let (open_, l') = allowed w.now ip l in
    if not open_ then turn_away 429 l' else elim w.read_json [
      | none ↦ turn_away 400 l'
      | some r ↦
          if r.username == [] || r.password == [] then turn_away 400 l' else check_user w ip r l'
    ]
