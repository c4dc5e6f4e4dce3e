-- ===== src/Api/Users/Outcomes.antt =====
-- What the handlers of users do to the accounts: one of them refuses, or it makes its change and audits it.
use mathlib.Core.Path.{subst⁻¹}
use proxy_sentinel.Base.Table.{find_row, has_row}
use proxy_sentinel.Base.Affix.{text_eq_iff}
use proxy_sentinel.Base.Text.{Text}
use proxy_sentinel.Base.{
  ℕ, ◌≤◌, ◌≡◌, ◌≢◌, inl, inr, refl, true, not, ◌&&◌, List, [], ◌∷◌, ◌++◌, Option, none, some, map,
  arith, ltb, leb, ◌==◌, nat_eq, list_eq, Bool-cases, Option-cases, length,
}
use proxy_sentinel.Storage.Users
use proxy_sentinel.Storage.Users.{
  User, UserInfo, info, has_id, get_user_by_username, with_role, with_password,
}
use proxy_sentinel.Auth.WebAuth.{invalidate_user}
use proxy_sentinel.Api.Users.{
  Call, deleted_words, reset_words, role_words, arrow, Accounts, audit, path_id, is_role, with_user,
  remove_user, delete_user, store_password, reset_password, store_role, update_role,
  ResetPasswordRequest, UpdateRoleRequest,
}

-- A refusal that changes nothing, or a change that is made for a row of the id and drops what is cached of
-- its user.
pub data IsOutcome (Change : User → Users.Users → Type 0) (c : Call) (id : ℕ) (a : Accounts)
    : ℕ × Accounts → Type 0 where
  denied : (status : ℕ) → 400 ≤ status → IsOutcome Change c id a (status, a)
  changed :
      (u : User) (users : Users.Users) (action : Text)
      → find_row (has_id id) a.users.rows ≡ some u
      → Change u users
      → IsOutcome Change c id a (
        200,
        audit c action (record a { users = users; cache = invalidate_user u.username a.cache }),
      )

-- The row that is deleted is another user's, and not the last one.
pub record IsDeletion (c : Call) (id : ℕ) (t : Users.Users) (u : User) (t' : Users.Users)
    : Type 0 where
  pub other : u.username ≢ c.current
  pub several : 2 ≤ length t.rows
  pub result : t' ≡ (Users.delete_user id t).1

pub record IsReset (t : Users.Users) (u : User) (t' : Users.Users) : Type 0 where
  pub hash : Text
  pub result : t' ≡ Users.update_password_hash u.username hash t

-- Nobody's own role changes.
pub record IsPromotion (c : Call) (id : ℕ) (t : Users.Users) (u : User) (t' : Users.Users)
    : Type 0 where
  pub role : Text
  pub known : is_role role ≡ true
  pub own : (u.username ≡ c.current) → role ≡ u.role
  pub result : t' ≡ Users.update_user_role id role t

enter :
    {Change : User → Users.Users → Type 0} {c : Call} {id : ℕ} {a : Accounts} {o o' : ℕ × Accounts}
    → IsOutcome Change c id a o'
    → o ≡ o'
    → IsOutcome Change c id a o
enter {Change} {c} {id} {a} h e = subst⁻¹ (IsOutcome Change c id a) e h

with_user-IsOutcome :
    (Change : User → Users.Users → Type 0) (c : Call) (id : ℕ)
    (next : UserInfo → Accounts → ℕ × Accounts) (a : Accounts)
    → ((u : User)
        → find_row (has_id id) a.users.rows ≡ some u
        → IsOutcome Change c id a (next (info u) a))
    → IsOutcome Change c id a (with_user c id next a)
unfolding with_user Users.get_user_by_id
with_user-IsOutcome Change c id next a h = elim (Bool-cases c.faults.reads) [
  | inl failed ↦ enter (denied 500 (omega arith)) (ground (arith, failed))
  | inr read ↦ elim (Option-cases (find_row (has_id id) a.users.rows)) [
    | inl missing ↦ enter (denied 404 (omega arith)) (ground (arith, read, missing))
    | inr (u, found) ↦ enter (h u found) (ground (arith, read, found))
  ]
]

length-list_users : (t : Users.Users) → length (Users.list_users t) ≡ length t.rows
unfolding Users.list_users
length-list_users t = length-map t.rows
  where
    length-map : (us : List User) → length (map info us) ≡ length us
    length-map [] = refl
    length-map (u ∷ us) = omega (arith, length-map us)

remove_user-IsOutcome :
    (c : Call) (id : ℕ) (u : User) (a : Accounts)
    → find_row (has_id id) a.users.rows ≡ some u
    → IsOutcome (IsDeletion c id a.users) c id a (remove_user c id (info u) a)
unfolding remove_user info audit
remove_user-IsOutcome c id u a found = elim (Bool-cases (u.username == c.current)) [
  | inl own ↦ enter (denied 400 (omega arith)) (ground (arith, own))
  | inr other ↦ elim (Bool-cases c.faults.lists) [
    | inl failed ↦ enter (denied 500 (omega arith)) (ground (arith, other, failed))
    | inr listed ↦ elim (Bool-cases (leb (length (Users.list_users a.users)) 1)) [
      | inl last ↦ enter (denied 400 (omega arith)) (ground (arith, other, listed, last))
      | inr several ↦ elim (Bool-cases c.faults.writes) [
        | inl failed ↦
            enter (denied 500 (omega arith)) (ground (arith, other, listed, several, failed))
        | inr written ↦
            let there : (Users.delete_user id a.users).0 ≡ true =
              unfold Users.delete_user has_row in ground (arith, found) in
            enter
              (changed u (Users.delete_user id a.users).1 (deleted_words ++ u.username) found
                (record {
                  other = λ e. ground (arith, other, text_eq_iff u.username c.current);
                  several = ground (arith, several, length-list_users a.users);
                  result = refl;
                }))
              (ground (arith, other, listed, several, written, there))
      ]
    ]
  ]
]

store_password-IsOutcome :
    (c : Call) (id : ℕ) (password : Text) (u : User) (a : Accounts)
    → find_row (has_id id) a.users.rows ≡ some u
    → IsOutcome (IsReset a.users) c id a (store_password c password (info u) a)
unfolding store_password info
store_password-IsOutcome c id password u a found = elim (Option-cases (c.hash_password password)) [
  | inl failed ↦ enter (denied 500 (omega arith)) (ground (arith, failed))
  | inr (hash, hashed) ↦ elim (Bool-cases c.faults.writes) [
    | inl failed ↦ enter (denied 500 (omega arith)) (ground (arith, hashed, failed))
    | inr written ↦
        enter
          (changed u (Users.update_password_hash u.username hash a.users)
            (reset_words ++ u.username) found (record { hash = hash; result = refl }))
          (ground (arith, hashed, written))
  ]
]

store_role-IsOutcome :
    (c : Call) (id : ℕ) (role : Text) (u : User) (a : Accounts)
    → is_role role ≡ true
    → find_row (has_id id) a.users.rows ≡ some u
    → IsOutcome (IsPromotion c id a.users) c id a (store_role c id role (info u) a)
unfolding store_role info
store_role-IsOutcome c id role u a known found =
    elim (Bool-cases (u.username == c.current && not (role == u.role))) [
      | inl own ↦ enter (denied 400 (omega arith)) (ground (arith, own))
      | inr free ↦ elim (Bool-cases c.faults.writes) [
        | inl failed ↦ enter (denied 500 (omega arith)) (ground (arith, free, failed))
        | inr written ↦
            enter
              (changed u (Users.update_user_role id role a.users)
                (role_words ++ u.username ++ arrow ++ role) found
                (record {
                  role = role;
                  known = known;
                  own = λ e.
                      ground
                        (arith, free, text_eq_iff u.username c.current, text_eq_iff role u.role, e);
                  result = refl;
                }))
              (ground (arith, free, written))
      ]
    ]

pub delete_user-IsOutcome :
    (c : Call) (path : Text) (id : ℕ) (a : Accounts)
    → path_id path ≡ some id
    → IsOutcome (IsDeletion c id a.users) c id a (delete_user c path a)
unfolding delete_user
delete_user-IsOutcome c path id a named =
    enter
      (with_user-IsOutcome (IsDeletion c id a.users) c id (remove_user c id) a
        (λ u found. remove_user-IsOutcome c id u a found))
      (ground (arith, named))

pub reset_password-IsOutcome :
    (c : Call) (path : Text) (body : Option ResetPasswordRequest) (id : ℕ) (a : Accounts)
    → path_id path ≡ some id
    → IsOutcome (IsReset a.users) c id a (reset_password c path body a)
unfolding reset_password
reset_password-IsOutcome c path none id a named =
    enter (denied 400 (omega arith)) (ground (arith, named))
reset_password-IsOutcome c path (some q) id a named =
    elim (Bool-cases (ltb (length q.password) 6)) [
      | inl short ↦ enter (denied 400 (omega arith)) (ground (arith, named, short))
      | inr long ↦
          enter
            (with_user-IsOutcome (IsReset a.users) c id (store_password c q.password) a
              (λ u found. store_password-IsOutcome c id q.password u a found))
            (ground (arith, named, long))
    ]

pub update_role-IsOutcome :
    (c : Call) (path : Text) (body : Option UpdateRoleRequest) (id : ℕ) (a : Accounts)
    → path_id path ≡ some id
    → IsOutcome (IsPromotion c id a.users) c id a (update_role c path body a)
unfolding update_role
update_role-IsOutcome c path none id a named =
    enter (denied 400 (omega arith)) (ground (arith, named))
update_role-IsOutcome c path (some q) id a named = elim (Bool-cases (is_role q.role)) [
  | inl known ↦
      enter
        (with_user-IsOutcome (IsPromotion c id a.users) c id (store_role c id q.role) a
          (λ u found. store_role-IsOutcome c id q.role u a known found))
        (ground (arith, named, known))
  | inr other ↦ enter (denied 400 (omega arith)) (ground (arith, named, other))
]
