-- ===== src/Start/Starting.antt =====
-- The start does not fail of itself: the constraints of the tables are never in its way.
use proxy_sentinel.Base.Table.{find_row, has_row}
use proxy_sentinel.Base.Int.{pos}
use proxy_sentinel.Base.Text.{Text, bytes}
use proxy_sentinel.Proxy.Decode.{itoa}
use proxy_sentinel.Base.{
  ℕ, ◌+◌, ◌≡◌, inl, inr, refl, true, false, List, [], ◌∷◌, ◌++◌, none, some, arith, ◌==◌, nat_eq,
  list_eq, All, Bool-cases, Option-cases,
}
use proxy_sentinel.Storage.Users
use proxy_sentinel.Storage.Users.{named, get_user_by_username}
use proxy_sentinel.Storage.Tokens
use proxy_sentinel.Storage.Tokens.{token_exists, add_token}
use proxy_sentinel.Start.{
  World, AuthConfig, Stores, store_hash, create_admin, bootstrap_admin, bootstrap_token,
  bootstrap_tokens, bootstrap,
}
use proxy_sentinel.Start.Bootstrap.{CanLogIn, HashesCheck, IsKnown, bootstrap-IsReady}

-- No statement reports an error.
pub record Works (w : World) : Type 0 where
  pub reads_user : w.user_read_fails ≡ false
  pub writes_user : w.user_write_fails ≡ false
  pub reads_token : (i : ℕ) → w.token_read_fails i ≡ false
  pub writes_token : (i : ℕ) → w.token_write_fails i ≡ false

bootstrap_admin-some :
    (w : World) (name password hash : Text) (t : Users.Users)
    → Works w
    → w.hash_password password ≡ some hash
    → (t' : Users.Users) × (bootstrap_admin w name password t ≡ some t')
unfolding bootstrap_admin store_hash create_admin Users.create_user Users.user_exists
    get_user_by_username has_row
bootstrap_admin-some w name password hash t works hashed =
    elim (Option-cases (find_row (named name) t.rows)) [
      | inl missing ↦ (
        record {
          rows = t.rows ++ Users.new_user w.now name hash (bytes "admin") t.next_id ∷ [];
          next_id = t.next_id + 1;
        },
        ground (arith, works.reads_user, works.writes_user, missing, hashed),
      )
      | inr (u, found) ↦ elim (Bool-cases (w.check_password u.password_hash password)) [
        | inl right ↦ (t, ground (arith, works.reads_user, found, right))
        | inr wrong ↦ (
          Users.update_password_hash name hash t,
          ground (arith, works.reads_user, works.writes_user, found, wrong, hashed),
        )
      ]
    ]

add_token-some :
    (w : World) (token name : Text) (t : Tokens.Tokens)
    → token_exists w.sha token t ≡ false
    → (t' : Tokens.Tokens) × (add_token w.sha w.now token name (pos 0) none t ≡ some t')
unfolding add_token
add_token-some w token name t new = (
  record t {
    rows = t.rows ++ Tokens.new_token w.sha w.now token name (pos 0) none t.next_id ∷ [];
    next_id = t.next_id + 1;
  },
  ground (arith, new),
)

bootstrap_token-some :
    (w : World) (i : ℕ) (token : Text) (t : Tokens.Tokens)
    → Works w
    → (t' : Tokens.Tokens) × (bootstrap_token w i token t ≡ some t')
unfolding bootstrap_token
bootstrap_token-some w i token t works = elim (Bool-cases (token == [])) [
  | inl empty ↦ (t, ground (arith, empty))
  | inr full ↦ elim (Bool-cases (token_exists w.sha token t)) [
    | inl known ↦ (t, ground (arith, full, works.reads_token i, known))
    | inr new ↦
        let (t', added) = add_token-some w token (bytes "token-" ++ itoa (i + 1)) t new in
        (t', ground (arith, full, works.reads_token i, new, works.writes_token i, added))
  ]
]

bootstrap_tokens-some :
    (w : World) (i : ℕ) (tokens : List Text) (t : Tokens.Tokens)
    → Works w
    → (t' : Tokens.Tokens) × (bootstrap_tokens w i tokens t ≡ some t')
unfolding bootstrap_tokens
bootstrap_tokens-some w i [] t works = (t, refl)
bootstrap_tokens-some w i (token ∷ rest) t works =
    let (t1, one) = bootstrap_token-some w i token t works in
    let (t2, others) = bootstrap_tokens-some w (i + 1) rest t1 works in
    (t2, ground (arith, one, others))

-- What a start has made ready.
pub record IsStarted (w : World) (cfg : AuthConfig) (s s' : Stores) : Type 0 where
  pub starts : bootstrap w cfg s ≡ some s'
  pub admin : CanLogIn w cfg.admin_username cfg.admin_password s.users s'.users
  pub known : All (IsKnown w s'.tokens) cfg.proxy_tokens
  pub kept :
      (other : Text)
      → token_exists w.sha other s.tokens ≡ true
      → token_exists w.sha other s'.tokens ≡ true

-- If no statement reports an error, bcrypt hashes the configured password, and the hashes that it makes are
-- passed by their passwords, the program starts, whatever the tables hold: the administrator's name has a row
-- whose hash the configured password passes, with the role admin if there was no row of that name and
-- otherwise with the role of that row; every configured token that is not empty has a row; and the tokens
-- that were in the table are still there.
pub bootstrap-IsStarted :
    (w : World) (cfg : AuthConfig) (s : Stores) (hash : Text)
    → Works w
    → w.hash_password cfg.admin_password ≡ some hash
    → HashesCheck w
    → (s' : Stores) × IsStarted w cfg s s'
unfolding bootstrap
bootstrap-IsStarted w cfg s hash works hashed bcrypt =
    let (users, admin) =
      bootstrap_admin-some w cfg.admin_username cfg.admin_password hash s.users works hashed in
    let (tokens, done) = bootstrap_tokens-some w 0 cfg.proxy_tokens s.tokens works in
    let s' : Stores = record { users = users; tokens = tokens } in
    let starts : bootstrap w cfg s ≡ some s' = ground (arith, admin, done) in
    let (logs_in, known, kept) = bootstrap-IsReady w cfg s s' bcrypt starts in
    (s', record { starts = starts; admin = logs_in; known = known; kept = kept })
