-- ===== src/Api/Users/Sessions.antt =====
-- The handlers of users end the sessions of the users that they change.
use mathlib.Core.Path.{subst}
use proxy_sentinel.Base.Table.{find_row}
use proxy_sentinel.Base.Text.{Text}
use proxy_sentinel.Base.{ℕ, ◌≤◌, ◌≡◌, ◌≢◌, ◌∙◌, ap, sym, true, [], Option, none, some, arith}
use proxy_sentinel.Storage.Users
use proxy_sentinel.Storage.Users.{User, has_id, get_user_by_username, with_role, with_password}
use proxy_sentinel.Storage.Users.Laws.{
  IsValid, update_user_role_lem, update_password_hash_lem, delete_user_lem,
}
use proxy_sentinel.Auth.WebAuth.{Claims, refused, middleware, invalidate_user_revokes}
use proxy_sentinel.Api.Users.{
  Call, Accounts, audit, path_id, delete_user, reset_password, update_role, ResetPasswordRequest,
  UpdateRoleRequest,
}
use proxy_sentinel.Api.Users.Outcomes.{
  IsOutcome, denied, changed, IsDeletion, IsReset, IsPromotion, delete_user-IsOutcome,
  reset_password-IsOutcome, update_role-IsOutcome,
}

-- The lookup that the sessions are checked against.
unfoldable pub version_of : Users.Users → Text → Option ℕ
version_of t name = elim (get_user_by_username name t) [
  | none ↦ none
  | some u ↦ some u.token_version
]

-- A change that ends every session with a version up to the row's.
abbrev Ends : (User → Users.Users → Type 0) → User → Type 0
Ends Change u =
    (t' : Users.Users) (v : ℕ)
    → Change u t'
    → v ≤ u.token_version
    → version_of t' u.username ≢ some v

outcome_revokes :
    (Change : User → Users.Users → Type 0) (c : Call) (id : ℕ) (a : Accounts) (o : ℕ × Accounts)
    (u : User) (parse : Text → Option Claims) (now : ℕ) (token : Text) (k : Claims)
    → IsOutcome Change c id a o
    → o.0 ≡ 200
    → find_row (has_id id) a.users.rows ≡ some u
    → Ends Change u
    → k.username ≡ u.username
    → k.token_version ≤ u.token_version
    → token ≢ []
    → parse token ≡ some k
    → (middleware parse now (version_of o.1.users) (some token) o.1.cache).0 ≡ refused true
unfolding audit
outcome_revokes Change c id a _ u parse now token k (denied status high) ok found ends name old full
      good =
    absurd (omega (arith, high, ok))
outcome_revokes Change c id a _ u parse now token k (changed x users entry there change) ok found
      ends name old full good =
    let same : x ≡ u = ground (arith, found, there) in
    let who : x.username ≡ k.username = ap (λ y. y.username) same ∙ sym name in
    rw who (
      invalidate_user_revokes parse now (version_of users) token a.cache k full good (
        subst (λ n. version_of users n ≢ some k.token_version) (sym name)
          (ends users k.token_version (subst (λ y. Change y users) same change) old)))

IsDeletion-Ends :
    (c : Call) (id : ℕ) (t : Users.Users) (u : User)
    → IsValid t
    → find_row (has_id id) t.rows ≡ some u
    → Ends (IsDeletion c id t) u
unfolding version_of
IsDeletion-Ends c id t u valid found t' v done old e =
    ground (
      arith,
      ap (get_user_by_username u.username) done.result,
      delete_user_lem t id u valid found,
      e,
    )

IsReset-Ends :
    (id : ℕ) (t : Users.Users) (u : User)
    → IsValid t
    → find_row (has_id id) t.rows ≡ some u
    → Ends (IsReset t) u
unfolding version_of with_password
IsReset-Ends id t u valid found t' v done old e = ground (
  arith,
  ap (get_user_by_username u.username) done.result,
  update_password_hash_lem t id done.hash u valid found,
  e,
  old,
)

IsPromotion-Ends :
    (c : Call) (id : ℕ) (t : Users.Users) (u : User)
    → IsValid t
    → find_row (has_id id) t.rows ≡ some u
    → Ends (IsPromotion c id t) u
unfolding version_of with_role
IsPromotion-Ends c id t u valid found t' v done old e = ground (
  arith,
  ap (get_user_by_username u.username) done.result,
  update_user_role_lem t id done.role u valid found,
  e,
  old,
)

-- After a deletion that is answered with 200, every token of the deleted user with a version up to the
-- row's is refused, at any time, and its cookie is cleared.
delete_user_revokes :
    (c : Call) (path : Text) (id : ℕ) (a : Accounts) (u : User) (parse : Text → Option Claims)
    (now : ℕ) (token : Text) (k : Claims)
    → IsValid a.users
    → path_id path ≡ some id
    → find_row (has_id id) a.users.rows ≡ some u
    → (delete_user c path a).0 ≡ 200
    → k.username ≡ u.username
    → k.token_version ≤ u.token_version
    → token ≢ []
    → parse token ≡ some k
    → let a' = (delete_user c path a).1 in
      (middleware parse now (version_of a'.users) (some token) a'.cache).0 ≡ refused true
delete_user_revokes c path id a u parse now token k valid named found ok name old full good =
    outcome_revokes (IsDeletion c id a.users) c id a (delete_user c path a) u parse now token k
      (delete_user-IsOutcome c path id a named) ok found
      (IsDeletion-Ends c id a.users u valid found) name old full good

-- In a table whose constraints hold: after a reset of a password that is answered with 200, every token of the
-- user with a version up to the row's is refused, at any time, and its cookie is cleared.
pub reset_password_revokes :
    (c : Call) (path : Text) (body : Option ResetPasswordRequest) (id : ℕ) (a : Accounts) (u : User)
    (parse : Text → Option Claims) (now : ℕ) (token : Text) (k : Claims)
    → IsValid a.users
    → path_id path ≡ some id
    → find_row (has_id id) a.users.rows ≡ some u
    → (reset_password c path body a).0 ≡ 200
    → k.username ≡ u.username
    → k.token_version ≤ u.token_version
    → token ≢ []
    → parse token ≡ some k
    → let a' = (reset_password c path body a).1 in
      (middleware parse now (version_of a'.users) (some token) a'.cache).0 ≡ refused true
reset_password_revokes c path body id a u parse now token k valid named found ok name old full
      good =
    outcome_revokes (IsReset a.users) c id a (reset_password c path body a) u parse now token k
      (reset_password-IsOutcome c path body id a named) ok found
      (IsReset-Ends id a.users u valid found) name old full good

-- After a change of a role that is answered with 200, every token of the user with a version up to the
-- row's is refused, at any time, and its cookie is cleared.
update_role_revokes :
    (c : Call) (path : Text) (body : Option UpdateRoleRequest) (id : ℕ) (a : Accounts) (u : User)
    (parse : Text → Option Claims) (now : ℕ) (token : Text) (k : Claims)
    → IsValid a.users
    → path_id path ≡ some id
    → find_row (has_id id) a.users.rows ≡ some u
    → (update_role c path body a).0 ≡ 200
    → k.username ≡ u.username
    → k.token_version ≤ u.token_version
    → token ≢ []
    → parse token ≡ some k
    → let a' = (update_role c path body a).1 in
      (middleware parse now (version_of a'.users) (some token) a'.cache).0 ≡ refused true
update_role_revokes c path body id a u parse now token k valid named found ok name old full good =
    outcome_revokes (IsPromotion c id a.users) c id a (update_role c path body a) u parse now token
      k (update_role-IsOutcome c path body id a named) ok found
      (IsPromotion-Ends c id a.users u valid found) name old full good
