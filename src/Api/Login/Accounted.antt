-- ===== src/Api/Login/Accounted.antt =====
-- What a login does to the limiter, to the audit log and to the session.
use mathlib.Core.Path.{subst⁻¹}
use proxy_sentinel.Base.Text.{Text, bytes}
use proxy_sentinel.Base.{
  ℕ, ◌≡◌, ◌⊎◌, inl, inr, refl, sym, ◌∙◌, true, false, not, ◌||◌, List, [], ◌∷◌, Option, none, some,
  arith, ◌==◌, nat_eq, list_eq, Option-cases, Bool-cases,
}
use proxy_sentinel.Storage.Users.{User}
use proxy_sentinel.Api.LoginLimiter.{LoginLimiter, allowed, fail, success}
use proxy_sentinel.Api.Login.{
  LoginRequest, Audit, World, Outcome, dummy_hash, turn_away, reject_login, accept_login,
  check_user, login,
}

abbrev pub audit_of : Text → Text → Text → List Audit
audit_of name action ip = record { username = name; action = action; ip = ip } ∷ []

-- What makes a password wrong for a name, with the one hash that it is compared with: the name is unknown,
-- and the hash is a constant, or the hash is the user's.
abbrev pub IsWrong : World → LoginRequest → Text → Type 0
IsWrong w r hash =
    ((w.get_user r.username ≡ some none) × (hash ≡ dummy_hash))
    ⊎ ((u : User) × (w.get_user r.username ≡ some (some u))
        × (hash ≡ u.password_hash)
        × (w.check_password hash r.password ≡ false))

-- The answer after the right password: with a token, or 500 if none can be signed.
abbrev pub IsAnswered : World → Text → User → Outcome → Type 0
IsAnswered w ip u o =
    ((w.generate u ≡ none) × (o.status ≡ 500) × (o.cookie ≡ none) × (o.audits ≡ []))
    ⊎ ((token : Text) × (w.generate u ≡ some token)
        × (o.status ≡ 200)
        × (o.cookie ≡ some token)
        × (o.audits ≡ audit_of u.username (bytes "login_success") ip))

-- What a login may do to the limiter: nothing but the question; one failure; or a reset.
pub data IsAccounted (w : World) (ip : Text) (l : LoginLimiter) (o : Outcome) : Type 0 where
  nothing :
      o.limiter ≡ l
      → (o.status ≡ 400) ⊎ (o.status ≡ 429) ⊎ (o.status ≡ 500)
      → o.cookie ≡ none
      → o.audits ≡ []
      → o.compared ≡ []
      → IsAccounted w ip l o
  failure :
      (r : LoginRequest) (hash : Text)
      → w.read_json ≡ some r
      → IsWrong w r hash
      → o.limiter ≡ (fail w.now ip l).1
      → o.status ≡ 401
      → o.cookie ≡ none
      → o.audits ≡ audit_of r.username (bytes "login_failed") ip
      → o.compared ≡ hash ∷ []
      → IsAccounted w ip l o
  reset :
      (u : User) (name password : Text)
      → w.read_json ≡ some (record { username = name; password = password })
      → w.get_user name ≡ some (some u)
      → w.check_password u.password_hash password ≡ true
      → o.limiter ≡ success ip l
      → o.compared ≡ u.password_hash ∷ []
      → IsAnswered w ip u o
      → IsAccounted w ip l o

turn_away-IsAccounted :
    (w : World) (ip : Text) (l : LoginLimiter) (status : ℕ)
    → (status ≡ 400) ⊎ (status ≡ 429) ⊎ (status ≡ 500)
    → IsAccounted w ip l (turn_away status l)
unfolding turn_away
turn_away-IsAccounted w ip l status one = nothing refl one refl refl refl

reject_login-IsAccounted :
    (w : World) (ip : Text) (l : LoginLimiter) (r : LoginRequest) (hash : Text)
    → w.read_json ≡ some r
    → IsWrong w r hash
    → IsAccounted w ip l (reject_login w.now ip r.username hash l)
unfolding reject_login
reject_login-IsAccounted w ip l r hash read wrong =
    failure r hash read wrong refl refl refl refl refl

accept_login_lem :
    (w : World) (ip : Text) (u : User) (l : LoginLimiter)
    → let o = accept_login w ip u l in
      (o.limiter ≡ success ip l) × (o.compared ≡ u.password_hash ∷ []) × IsAnswered w ip u o
unfolding accept_login
accept_login_lem w ip u l = elim (Option-cases (w.generate u)) [
  | inl unsigned ↦
      (ground (arith, unsigned), ground (arith, unsigned), inl (ground (arith, unsigned)))
  | inr (token, signed) ↦ (
    ground (arith, signed),
    ground (arith, signed),
    inr (token, signed, ground (arith, signed), ground (arith, signed), ground (arith, signed)),
  )
]

accept_login-IsAccounted :
    (w : World) (ip : Text) (l : LoginLimiter) (r : LoginRequest) (u : User)
    → w.read_json ≡ some r
    → w.get_user r.username ≡ some (some u)
    → w.check_password u.password_hash r.password ≡ true
    → IsAccounted w ip l (accept_login w ip u l)
accept_login-IsAccounted w ip l r u read found right =
    let (cleared, once, answered) = accept_login_lem w ip u l in
    reset u r.username r.password read found right cleared once answered

check_user-IsAccounted :
    (w : World) (ip : Text) (r : LoginRequest) (l : LoginLimiter)
    → w.read_json ≡ some r
    → IsAccounted w ip l (check_user w ip r l)
unfolding check_user
check_user-IsAccounted w ip r l read = by_user (w.get_user r.username) refl
  where
    by_user :
        (o : Option (Option User))
        → w.get_user r.username ≡ o
        → IsAccounted w ip l (check_user w ip r l)
    by_user none e = rw (e, check_user) (turn_away-IsAccounted w ip l 500 (inr (inr refl)))
    by_user (some none) e =
        rw (e, check_user) (reject_login-IsAccounted w ip l r dummy_hash read (inl (e, refl)))
    by_user (some (some u)) e = elim (Bool-cases (w.check_password u.password_hash r.password)) [
      | inl right ↦ rw (e, check_user, right) (accept_login-IsAccounted w ip l r u read e right)
      | inr wrong ↦
          rw (e, check_user, wrong)
            (reject_login-IsAccounted w ip l r u.password_hash read (inr (u, e, refl, wrong)))
    ]

login_unread :
    (w : World) (ip : Text) (l : LoginLimiter)
    → not (allowed w.now ip l).0 ≡ false
    → w.read_json ≡ none
    → login w ip l ≡ turn_away 400 (allowed w.now ip l).1
unfolding login
login_unread w ip l open_ unread = ground (arith, open_, unread)

login_missing :
    (w : World) (ip : Text) (r : LoginRequest) (l : LoginLimiter)
    → not (allowed w.now ip l).0 ≡ false
    → w.read_json ≡ some r
    → (r.username == [] || r.password == []) ≡ true
    → login w ip l ≡ turn_away 400 (allowed w.now ip l).1
unfolding login
login_missing w ip r l open_ read missing = ground (arith, open_, read, missing)

login_reads :
    (w : World) (ip : Text) (r : LoginRequest) (l : LoginLimiter)
    → not (allowed w.now ip l).0 ≡ false
    → w.read_json ≡ some r
    → (r.username == [] || r.password == []) ≡ false
    → login w ip l ≡ check_user w ip r (allowed w.now ip l).1
unfolding login
login_reads w ip r l open_ read given = ground (arith, open_, read, given)

-- Every login that reaches the handler asks the limiter first, and then one of three things happens. It is
-- answered 400, 429 or 500, and the limiter is left, no password is compared and nothing is audited. Or the
-- name is unknown or its password wrong, and then the limiter records one failure, the login is audited and
-- answered 401, and one hash is compared, the user's or, for an unknown name, a constant. Or the password is
-- right for the user of that name, and then the limiter is cleared after that one comparison, and the answer
-- is 200 with the cookie and the audit, or 500 without them if no token can be signed.
pub login-IsAccounted :
    (w : World) (ip : Text) (l : LoginLimiter)
    → IsAccounted w ip (allowed w.now ip l).1 (login w ip l)
unfolding login
login-IsAccounted w ip l =
    let asked = (allowed w.now ip l).1 in
    elim (Bool-cases (not (allowed w.now ip l).0)) [
      | inl closed ↦ rw (closed, login) (turn_away-IsAccounted w ip asked 429 (inr (inl refl)))
      | inr open_ ↦ elim (Option-cases w.read_json) [
        | inl unread ↦
            subst⁻¹ (IsAccounted w ip asked) (login_unread w ip l open_ unread)
              (turn_away-IsAccounted w ip asked 400 (inl refl))
        | inr (r, read) ↦ elim (Bool-cases (r.username == [] || r.password == [])) [
          | inl missing ↦
              subst⁻¹ (IsAccounted w ip asked) (login_missing w ip r l open_ read missing)
                (turn_away-IsAccounted w ip asked 400 (inl refl))
          | inr given ↦
              subst⁻¹ (IsAccounted w ip asked) (login_reads w ip r l open_ read given)
                (check_user-IsAccounted w ip r asked read)
        ]
      ]
    ]

-- A locked address is turned away with 429 whatever it sends, and the password is not looked at.
login_locked :
    (w : World) (ip : Text) (l : LoginLimiter)
    → (allowed w.now ip l).0 ≡ false
    → login w ip l ≡ turn_away 429 (allowed w.now ip l).1
unfolding login
login_locked w ip l closed = rw (closed, login)

cookie_of_accounted :
    (w : World) (ip : Text) (l : LoginLimiter) (o : Outcome) (token : Text)
    → IsAccounted w ip l o
    → o.cookie ≡ some token
    → (u : User) × (name : Text) × (password : Text) × (w.read_json
        ≡ some (record { username = name; password = password }))
      × (w.get_user name ≡ some (some u))
      × (w.check_password u.password_hash password ≡ true)
      × (w.generate u ≡ some token)
cookie_of_accounted w ip l o token (nothing a b bare c d) e = absurd (ground (arith, bare, e))
cookie_of_accounted w ip l o token (failure r hash a b c d bare x y) e =
    absurd (ground (arith, bare, e))
cookie_of_accounted w ip l o token (reset u name password read found right a b answered) e =
    (u, name, password, read, found, right, signed answered)
  where
    signed : IsAnswered w ip u o → w.generate u ≡ some token
    signed (inl (a, b, bare, c)) = absurd (ground (arith, bare, e))
    signed (inr (other, made, a, given, b)) = made ∙ sym given ∙ e

-- A session cookie is set only when the limiter lets the address in and the password is right for a user
-- of the name that was sent, and it is the token that is signed for that user.
pub login_cookie :
    (w : World) (ip : Text) (l : LoginLimiter) (token : Text)
    → (login w ip l).cookie ≡ some token
    → ((allowed w.now ip l).0 ≡ true)
      × ((u : User) × (name : Text) × (password : Text) × (w.read_json
            ≡ some (record { username = name; password = password }))
          × (w.get_user name ≡ some (some u))
          × (w.check_password u.password_hash password ≡ true)
          × (w.generate u ≡ some token))
login_cookie w ip l token e = (
  let_in,
  cookie_of_accounted w ip (allowed w.now ip l).1 (login w ip l) token (login-IsAccounted w ip l) e,
)
  where
    let_in : (allowed w.now ip l).0 ≡ true
    let_in = elim (Bool-cases (allowed w.now ip l).0) [
      | inl entry ↦ entry
      | inr shut ↦ absurd (unfold turn_away in ground (arith, e, login_locked w ip l shut))
    ]
