-- ===== src/Start/Bootstrap.antt =====
-- What a start that does not fail leaves in the tables.
use mathlib.Core.Path.{subst}
use proxy_sentinel.Base.Table.{find_row, update_rows, has_row, find_row-true, find_row-update_rows}
use proxy_sentinel.Base.Affix.{text_eq_iff}
use proxy_sentinel.Base.Int.{pos}
use proxy_sentinel.Base.Text.{Text, bytes}
use proxy_sentinel.Proxy.Decode.{itoa}
use proxy_sentinel.Base.{
  ℕ, ◌+◌, ◌≡◌, ◌≢◌, ◌∙◌, ◌⊎◌, sym, ap, refl, inl, inr, Bool, true, List, [], ◌∷◌, ◌++◌, none, some,
  arith, ◌==◌, nat_eq, list_eq, list_beq, All, Bool-cases, Option-cases,
}
use proxy_sentinel.Storage.Users
use proxy_sentinel.Storage.Users.{User, named, get_user_by_username}
use proxy_sentinel.Storage.Tokens
use proxy_sentinel.Storage.Tokens.{
  ProxyToken, has_hash, token_exists, add_token, new_token, hash_token,
}
use proxy_sentinel.Start.{
  World, AuthConfig, Stores, store_hash, create_admin, bootstrap_admin, bootstrap_token,
  bootstrap_tokens, bootstrap,
}

-- A row that the start makes is an administrator's, and one that it finds keeps its role.
abbrev pub HasRole : Text → Users.Users → User → Type 0
HasRole name before user =
    ((get_user_by_username name before ≡ none) × (user.role ≡ bytes "admin"))
    ⊎ ((old : User) × (get_user_by_username name before ≡ some old) × (user.role ≡ old.role))

-- The name finds a row whose hash the password passes, with the role that it is to have.
pub record CanLogIn (w : World) (name password : Text) (before t : Users.Users) : Type 0 where
  pub user : User
  pub role : HasRole name before user
  pub found : get_user_by_username name t ≡ some user
  pub checks : w.check_password user.password_hash password ≡ true

-- A hash that bcrypt has made of a password is passed by that password.
abbrev pub HashesCheck : World → Type 0
HashesCheck w =
    (password hash : Text)
    → w.hash_password password ≡ some hash
    → w.check_password hash password ≡ true

find_row-last :
    (name : Text) (xs : List User) (u : User)
    → find_row (named name) xs ≡ none
    → named name u ≡ true
    → find_row (named name) (xs ++ u ∷ []) ≡ some u
unfolding find_row
find_row-last name [] u e hit = ground (arith, hit)
find_row-last name (x ∷ xs) u e hit = ground (arith, e, hit, find_row-last name xs u)

create_admin-CanLogIn :
    (w : World) (name password hash : Text) (t t' : Users.Users)
    → HashesCheck w
    → get_user_by_username name t ≡ none
    → w.hash_password password ≡ some hash
    → create_admin w name hash t ≡ some t'
    → CanLogIn w name password t t'
unfolding create_admin Users.create_user get_user_by_username list_beq
create_admin-CanLogIn w name password hash t t' bcrypt missing hashed e =
    let u : User = Users.new_user w.now name hash (bytes "admin") t.next_id in
    let rows : t.rows ++ u ∷ [] ≡ t'.rows = ground (arith, e) in
    let its_name : named name u ≡ true =
      unfold Users.new_user in ground (arith, text_eq_iff name name) in
    record {
      user = u;
      role = inl (missing, unfold Users.new_user in refl);
      found = ap (find_row (named name)) (sym rows) ∙ find_row-last name t.rows u missing its_name;
      checks = unfold Users.new_user in bcrypt password hash hashed;
    }

store_hash-CanLogIn :
    (w : World) (name password hash : Text) (t t' : Users.Users) (u : User)
    → HashesCheck w
    → get_user_by_username name t ≡ some u
    → w.hash_password password ≡ some hash
    → store_hash w name hash t ≡ some t'
    → CanLogIn w name password t t'
unfolding store_hash Users.update_password_hash get_user_by_username
store_hash-CanLogIn w name password hash t t' u bcrypt found hashed e =
    let rows : update_rows (named name) (Users.with_password hash) t.rows ≡ t'.rows =
      ground (arith, e) in
    let hit = find_row-true (named name) t.rows u found in
    record {
      user = Users.with_password hash u;
      role = inr (u, found, unfold Users.with_password in refl);
      found =
          ap (find_row (named name)) (sym rows)
          ∙ find_row-update_rows (named name) (named name) (Users.with_password hash) t.rows u
              (λ y. unfold Users.with_password in refl) found
          ∙ ground (arith, hit);
      checks = unfold Users.with_password in bcrypt password hash hashed;
    }

bootstrap_admin-CanLogIn :
    (w : World) (name password : Text) (t t' : Users.Users)
    → HashesCheck w
    → bootstrap_admin w name password t ≡ some t'
    → CanLogIn w name password t t'
unfolding bootstrap_admin
bootstrap_admin-CanLogIn w name password t t' bcrypt e =
    elim (Option-cases (get_user_by_username name t)) [
      | inl missing ↦ elim (Option-cases (w.hash_password password)) [
        | inl failed ↦ absurd (ground (arith, missing, failed, e))
        | inr (hash, hashed) ↦
            create_admin-CanLogIn w name password hash t t' bcrypt missing hashed
              (ground (arith, missing, hashed, e))
      ]
      | inr (u, found) ↦ elim (Bool-cases (w.check_password u.password_hash password)) [
        | inl good ↦
            let same : t ≡ t' = ground (arith, found, good, e) in
            subst (CanLogIn w name password t) same
              (record { user = u; role = inr (u, found, refl); found = found; checks = good })
        | inr changed ↦ elim (Option-cases (w.hash_password password)) [
          | inl failed ↦ absurd (ground (arith, found, changed, failed, e))
          | inr (hash, hashed) ↦
              store_hash-CanLogIn w name password hash t t' u bcrypt found hashed
                (ground (arith, found, changed, hashed, e))
        ]
      ]
    ]

-- A token of the configuration is empty, and left out, or it is in the table.
abbrev pub IsKnown : World → Tokens.Tokens → Text → Type 0
IsKnown w t token = token ≢ [] → token_exists w.sha token t ≡ true

has_row-append :
    (p : ProxyToken → Bool) (xs : List ProxyToken) (x : ProxyToken)
    → has_row p xs ≡ true
    → has_row p (xs ++ x ∷ []) ≡ true
unfolding has_row find_row
has_row-append p [] x e = absurd (ground (arith, e))
has_row-append p (y ∷ ys) x e = ground (arith, e, has_row-append p ys x)

has_row-last :
    (p : ProxyToken → Bool) (xs : List ProxyToken) (x : ProxyToken)
    → p x ≡ true
    → has_row p (xs ++ x ∷ []) ≡ true
unfolding has_row find_row
has_row-last p [] x e = ground (arith, e)
has_row-last p (y ∷ ys) x e = ground (arith, e, has_row-last p ys x)

add_token-IsKnown :
    (w : World) (token name : Text) (t t' : Tokens.Tokens)
    → add_token w.sha w.now token name (pos 0) none t ≡ some t'
    → (token_exists w.sha token t' ≡ true)
      × ((other : Text) → token_exists w.sha other t ≡ true → token_exists w.sha other t' ≡ true)
unfolding add_token token_exists
add_token-IsKnown w token name t t' e =
    let new : ProxyToken = new_token w.sha w.now token name (pos 0) none t.next_id in
    let rows : t.rows ++ new ∷ [] ≡ t'.rows = ground (arith, e) in
    let hash = hash_token w.sha in
    (
      ap (has_row (has_hash (hash token))) (sym rows)
          ∙ has_row-last (has_hash (hash token)) t.rows new
              (unfold new_token in ground (arith, text_eq_iff (hash token) (hash token))),
      λ other h.
          ap (has_row (has_hash (hash other))) (sym rows)
          ∙ has_row-append (has_hash (hash other)) t.rows new h,
    )

-- A round keeps the tokens that are known, and its own token becomes known.
bootstrap_token-IsKnown :
    (w : World) (i : ℕ) (token : Text) (t t' : Tokens.Tokens)
    → bootstrap_token w i token t ≡ some t'
    → IsKnown w t' token
      × ((other : Text) → token_exists w.sha other t ≡ true → token_exists w.sha other t' ≡ true)
unfolding bootstrap_token
bootstrap_token-IsKnown w i token t t' e = elim (Bool-cases (token == [])) [
  | inl empty ↦
      let same : t ≡ t' = ground (arith, empty, e) in
      (
        (λ full. absurd (full ((text_eq_iff token []).0 empty))),
        λ other h. ap (token_exists w.sha other) (sym same) ∙ h,
      )
  | inr full ↦ elim (Bool-cases (w.token_read_fails i)) [
    | inl failed ↦ absurd (ground (arith, full, failed, e))
    | inr read ↦ elim (Bool-cases (token_exists w.sha token t)) [
      | inl known ↦
          let same : t ≡ t' = ground (arith, full, read, known, e) in
          (
            (λ _. ap (token_exists w.sha token) (sym same) ∙ known),
            λ other h. ap (token_exists w.sha other) (sym same) ∙ h,
          )
      | inr new ↦ elim (Bool-cases (w.token_write_fails i)) [
        | inl failed ↦ absurd (ground (arith, full, read, new, failed, e))
        | inr written ↦
            let (known, kept) =
              add_token-IsKnown w token (bytes "token-" ++ itoa (i + 1)) t t'
                (ground (arith, full, read, new, written, e)) in
            ((λ _. known), kept)
      ]
    ]
  ]
]

bootstrap_tokens-IsKnown :
    (w : World) (i : ℕ) (tokens : List Text) (t t' : Tokens.Tokens)
    → bootstrap_tokens w i tokens t ≡ some t'
    → All (IsKnown w t') tokens
      × ((other : Text) → token_exists w.sha other t ≡ true → token_exists w.sha other t' ≡ true)
unfolding bootstrap_tokens
bootstrap_tokens-IsKnown w i [] t t' e =
    let same : t ≡ t' = ground (arith, e) in
    (tt, λ other h. ap (token_exists w.sha other) (sym same) ∙ h)
bootstrap_tokens-IsKnown w i (token ∷ rest) t t' e =
    elim (Option-cases (bootstrap_token w i token t)) [
      | inl failed ↦ absurd (ground (arith, failed, e))
      | inr (t1, done) ↦
          let (known, kept) = bootstrap_token-IsKnown w i token t t1 done in
          let (others, kept') =
            bootstrap_tokens-IsKnown w (i + 1) rest t1 t' (ground (arith, done, e)) in
          ((λ full. kept' token (known full), others), λ other h. kept' other (kept other h))
    ]

-- If the hashes that bcrypt makes are passed by their passwords, a start that does not fail leaves a row of
-- the administrator's name whose hash the configured password passes, with the role admin if the start has
-- made it and with its old role if it was there; and a row of every configured token that is not empty; and
-- the tokens that were in the table are still there.
pub bootstrap-IsReady :
    (w : World) (cfg : AuthConfig) (s s' : Stores)
    → HashesCheck w
    → bootstrap w cfg s ≡ some s'
    → CanLogIn w cfg.admin_username cfg.admin_password s.users s'.users
      × All (IsKnown w s'.tokens) cfg.proxy_tokens
      × ((other : Text)
          → token_exists w.sha other s.tokens ≡ true
          → token_exists w.sha other s'.tokens ≡ true)
unfolding bootstrap
bootstrap-IsReady w cfg s s' bcrypt e =
    elim (Option-cases (bootstrap_admin w cfg.admin_username cfg.admin_password s.users)) [
      | inl failed ↦ absurd (ground (arith, failed, e))
      | inr (users, admin) ↦ elim (Option-cases (bootstrap_tokens w 0 cfg.proxy_tokens s.tokens)) [
        | inl failed ↦ absurd (ground (arith, admin, failed, e))
        | inr (tokens, done) ↦
            let same : record { users = users; tokens = tokens } ≡ s' =
              ground (arith, admin, done, e) in
            let (known, kept) =
              bootstrap_tokens-IsKnown w 0 cfg.proxy_tokens s.tokens s'.tokens
                (done ∙ ap (λ x. some x.tokens) same) in
            (
              bootstrap_admin-CanLogIn w cfg.admin_username cfg.admin_password s.users s'.users
                  bcrypt (admin ∙ ap (λ x. some x.users) same),
              known,
              kept,
            )
      ]
    ]
