-- ===== src/Api/Users.antt =====
-- The handlers of internal/api/users.go, over the user table and the cache of the sessions. The request's
-- JSON, bcrypt and the errors of the database are arguments; the texts of the answers are left out, except
-- for the lists. A statement that reports an error has not changed the table.
pub mod Outcomes
pub mod Sessions
pub mod Administrators
pub mod Guarded
use proxy_sentinel.Base.Int.{pos, negsuc}
use proxy_sentinel.Base.Number.{parse_int}
use proxy_sentinel.Base.Text.{Text, bytes, trim_space}
use proxy_sentinel.Base.{
  ℕ, zero, suc, Bool, true, false, not, ◌&&◌, ◌||◌, List, [], ◌∷◌, ◌++◌, Option, none, some, ltb,
  leb, ◌==◌, nat_eq, list_eq, if◌then◌else◌, length,
}
use proxy_sentinel.Storage.Users
use proxy_sentinel.Storage.Users.{UserInfo}
use proxy_sentinel.Auth.WebAuth.{Cache, invalidate_user}
use proxy_sentinel.Api.Login.{Audit}

-- Which statements report an error.
pub record Faults : Type 0 where
  pub reads : Bool
  pub lists : Bool
  pub counts : Bool
  pub writes : Bool

pub record Call : Type 0 where
  pub now : ℕ
  pub current : Text  -- the user of the session
  pub ip : Text
  pub hash_password : Text → Option Text
  pub faults : Faults

pub record Accounts : Type 0 where
  pub users : Users.Users
  pub cache : Cache
  pub audits : List Audit

pub record CreateUserRequest : Type 0 where
  pub username : Text
  pub password : Text
  pub role : Text

pub record ResetPasswordRequest : Type 0 where
  pub password : Text

pub record UpdateRoleRequest : Type 0 where
  pub role : Text

-- The id of the path: an integer above 0.
unfoldable pub path_id : Text → Option ℕ
path_id s = elim (parse_int s) [
  | none ↦ none
  | some (pos zero) ↦ none
  | some (pos (suc n)) ↦ some (suc n)
  | some (negsuc n) ↦ none
]

unfoldable pub audit : Call → Text → Accounts → Accounts
audit c action a = record a {
  audits = a.audits ++ record { username = c.current; action = action; ip = c.ip } ∷ [];
}

-- The Chinese words in front of the user's name, in UTF-8.
abbrev pub created_words : Text
created_words =
    0xe5 ∷ 0x88 ∷ 0x9b ∷ 0xe5 ∷ 0xbb ∷ 0xba ∷ 0xe7 ∷ 0x94 ∷ 0xa8 ∷ 0xe6 ∷ 0x88 ∷ 0xb7 ∷ 0x3a ∷ 0x20
    ∷ []

abbrev pub deleted_words : Text
deleted_words =
    0xe5 ∷ 0x88 ∷ 0xa0 ∷ 0xe9 ∷ 0x99 ∷ 0xa4 ∷ 0xe7 ∷ 0x94 ∷ 0xa8 ∷ 0xe6 ∷ 0x88 ∷ 0xb7 ∷ 0x3a ∷ 0x20
    ∷ []

abbrev pub reset_words : Text
reset_words =
    0xe9 ∷ 0x87 ∷ 0x8d ∷ 0xe7 ∷ 0xbd ∷ 0xae ∷ 0xe7 ∷ 0x94 ∷ 0xa8 ∷ 0xe6 ∷ 0x88 ∷ 0xb7 ∷ 0xe5 ∷ 0xaf
    ∷ 0x86 ∷ 0xe7 ∷ 0xa0 ∷ 0x81 ∷ 0x3a ∷ 0x20 ∷ []

abbrev pub role_words : Text
role_words =
    0xe4 ∷ 0xbf ∷ 0xae ∷ 0xe6 ∷ 0x94 ∷ 0xb9 ∷ 0xe7 ∷ 0x94 ∷ 0xa8 ∷ 0xe6 ∷ 0x88 ∷ 0xb7 ∷ 0xe8 ∷ 0xa7
    ∷ 0x92 ∷ 0xe8 ∷ 0x89 ∷ 0xb2 ∷ 0x3a ∷ 0x20 ∷ []

abbrev pub arrow : Text
arrow = 0x20 ∷ 0xe2 ∷ 0x86 ∷ 0x92 ∷ 0x20 ∷ []

pub record Listing : Type 0 where
  pub users : List UserInfo
  pub current_user : Text
  pub current_role : Text

-- `none` is the answer 500.
unfoldable pub list_users : Call → Text → Accounts → Option Listing
list_users c role a =
    if c.faults.lists
    then none
    else some
        (record { users = Users.list_users a.users; current_user = c.current; current_role = role })

unfoldable pub is_role : Text → Bool
is_role r = r == bytes "admin" || r == bytes "viewer"

-- Any other role becomes a viewer's.
unfoldable pub given_role : Text → Text
unfolding is_role
given_role r = if is_role r then r else bytes "viewer"

-- From the question whether the name is taken on.
unfoldable pub insert_user : Call → Text → Text → Text → Accounts → ℕ × Accounts
insert_user c name password role a =
    if c.faults.counts
    then (500, a)
    else if Users.user_exists name a.users
    then (400, a)
    else elim (c.hash_password password) [
      | none ↦ (500, a)
      | some hash ↦
          if c.faults.writes
          then (500, a)
          else elim (Users.create_user c.now name hash role a.users) [
            | none ↦ (500, a)
            | some users ↦ (
              201,
              audit c (created_words ++ name ++ bytes " (" ++ role ++ bytes ")")
                  (record a { users = users }),
            )
          ]
    ]

unfoldable pub create_user : Call → Option CreateUserRequest → Accounts → ℕ × Accounts
create_user c none a = (400, a)
create_user c (some q) a =
    let name = trim_space q.username in
    if name == []
    then (400, a)
    else if ltb (length name) 3 || ltb 32 (length name)
    then (400, a)
    else if ltb (length q.password) 6
    then (400, a)
    else insert_user c name q.password (given_role q.role) a

-- The statement, for a row that was read.
unfoldable pub remove_user : Call → ℕ → UserInfo → Accounts → ℕ × Accounts
remove_user c id u a =
    if u.username == c.current
    then (400, a)
    else if c.faults.lists
    then (500, a)
    else if leb (length (Users.list_users a.users)) 1
    then (400, a)
    else if c.faults.writes
    then (500, a)
    else let (gone, users) = Users.delete_user id a.users in
      if not gone then (404, a) else (
        200,
        audit c (deleted_words ++ u.username)
            (record a { users = users; cache = invalidate_user u.username a.cache }),
      )

-- `s.db.GetUserByID` with its answers 500 and 404.
unfoldable pub with_user : Call → ℕ → (UserInfo → Accounts → ℕ × Accounts) → Accounts → ℕ × Accounts
with_user c id next a =
    if c.faults.reads
    then (500, a)
    else elim (Users.get_user_by_id id a.users) [ none ↦ (404, a) | some u ↦ next u a ]

unfoldable pub delete_user : Call → Text → Accounts → ℕ × Accounts
delete_user c path a = elim (path_id path) [
  | none ↦ (400, a)
  | some id ↦ with_user c id (remove_user c id) a
]

unfoldable pub store_password : Call → Text → UserInfo → Accounts → ℕ × Accounts
store_password c password u a = elim (c.hash_password password) [
  | none ↦ (500, a)
  | some hash ↦ if c.faults.writes then (500, a) else (
    200,
    audit c (reset_words ++ u.username) (record a {
      users = Users.update_password_hash u.username hash a.users;
      cache = invalidate_user u.username a.cache;
    }),
  )
]

unfoldable pub reset_password : Call → Text → Option ResetPasswordRequest → Accounts → ℕ × Accounts
reset_password c path body a = elim (path_id path) [
  | none ↦ (400, a)
  | some id ↦ elim body [
    | none ↦ (400, a)
    | some q ↦
        if ltb (length q.password) 6
        then (400, a)
        else with_user c id (store_password c q.password) a
  ]
]

unfoldable pub store_role : Call → ℕ → Text → UserInfo → Accounts → ℕ × Accounts
store_role c id role u a =
    if u.username == c.current && not (role == u.role)
    then (400, a)
    else if c.faults.writes
    then (500, a)
    else (
      200,
      audit c (role_words ++ u.username ++ arrow ++ role) (record a {
        users = Users.update_user_role id role a.users;
        cache = invalidate_user u.username a.cache;
      }),
    )

unfoldable pub update_role : Call → Text → Option UpdateRoleRequest → Accounts → ℕ × Accounts
update_role c path body a = elim (path_id path) [
  | none ↦ (400, a)
  | some id ↦ elim body [
    | none ↦ (400, a)
    | some q ↦ if not (is_role q.role) then (400, a) else with_user c id (store_role c id q.role) a
  ]
]
