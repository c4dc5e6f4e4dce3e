-- ===== src/Scenarios/Sessions.antt =====
-- A log queue of two records, a session, and logins of one user.
use proxy_sentinel.Base.Map
use proxy_sentinel.Base.Text.{Text, bytes}
use proxy_sentinel.Base.{
  ℕ, ◌+◌, ◌≡◌, refl, true, false, List, [], ◌∷◌, Option, none, some, list_beq, ◌==◌, nat_eq,
  list_eq, if◌then◌else◌,
}
use proxy_sentinel.Logger.{Writer, overflow, enqueue, stored, write_record, flush}
use proxy_sentinel.Logger.Delivery.{
  Event, submits, ticks, step, handed, warned, Delivers, run-Delivers,
}
use proxy_sentinel.Auth.WebAuth.{
  Claims, passes, middleware, check_claims, user_state, query, role_of,
}
use proxy_sentinel.Storage.Users.{User}
use proxy_sentinel.Api.LoginLimiter.{LoginLimiter, allowed}
use proxy_sentinel.Api.Login.{World, login, check_user, accept_login}
use proxy_sentinel.Api.Login.Accounted.{IsAccounted, login-IsAccounted, login_cookie}

-- A full queue of two records, which are numbers here.
abbrev full : Writer ℕ
full = record {
  mask_sensitive = true;
  queue_capacity = 2;
  buffer = 1 ∷ 2 ∷ [];
  dropped_count = 0;
  seq = 2;
  flush_asked = false;
}

abbrev masked : ℕ → ℕ
masked n = n + 100

abbrev stamped : ℕ → ℕ
stamped n = n

abbrev events : List (Event ℕ)
events = submits true 3 ∷ submits false 4 ∷ submits true 5 ∷ ticks ∷ []

run-Delivers_example : Delivers masked stamped full events
run-Delivers_example = run-Delivers masked stamped full events

two_stored : handed masked stamped full events ≡ 103 ∷ 105 ∷ []
unfolding handed step stored write_record enqueue overflow flush
two_stored = refl

two_dropped : warned masked stamped full events ≡ 2
unfolding warned step stored write_record enqueue overflow flush
two_dropped = refl

abbrev claims : Claims
claims = record { username = bytes "ann"; role = []; token_version = 4 }

abbrev verifies : Text → Option Claims
verifies token = if token == bytes "t" then some claims else none

-- The user table has version 4, then 5.
abbrev version_4 : Text → Option ℕ
version_4 u = if u == bytes "ann" then some 4 else none

parsed : verifies (bytes "t") ≡ some claims
unfolding list_beq
parsed = refl

let_in :
    (middleware verifies 2_000_000_000 version_4 (some (bytes "t")) []).0
    ≡ passes (bytes "ann") (bytes "viewer")
unfolding middleware check_claims user_state query role_of Map.lookup list_beq
let_in = refl

abbrev ann : User
ann = record {
  id = 1;
  created_at = 0;
  username = bytes "ann";
  password_hash = bytes "h";
  role = bytes "admin";
  token_version = 5;
}

abbrev limiter : LoginLimiter
limiter = record { entries = []; max_fail = 3; lock_dur = 60; idle_ttl = 900 }

abbrev world : Text → World
world password = record {
  now = 100;
  read_json = some (record { username = bytes "ann"; password = password });
  get_user = λ u. if u == bytes "ann" then some (some ann) else some none;
  check_password = λ hash p. p == bytes "right";
  generate = λ u. some (bytes "token");
}

login-IsAccounted_example :
    IsAccounted
      (world (bytes "wrong"))
      (bytes "::1")
      (allowed 100 (bytes "::1") limiter).1
      (login (world (bytes "wrong")) (bytes "::1") limiter)
login-IsAccounted_example = login-IsAccounted (world (bytes "wrong")) (bytes "::1") limiter

logged_in : (login (world (bytes "right")) (bytes "::1") limiter).cookie ≡ some (bytes "token")
unfolding login check_user accept_login allowed Map.lookup list_beq
logged_in = refl

login_cookie_example :
    ((allowed 100 (bytes "::1") limiter).0 ≡ true)
    × ((u : User) × (name : Text) × (password : Text) × ((world (bytes "right")).read_json
          ≡ some (record { username = name; password = password }))
        × ((world (bytes "right")).get_user name ≡ some (some u))
        × ((world (bytes "right")).check_password u.password_hash password ≡ true)
        × ((world (bytes "right")).generate u ≡ some (bytes "token")))
login_cookie_example =
    login_cookie (world (bytes "right")) (bytes "::1") limiter (bytes "token") logged_in
