-- ===== src/Storage/Users.antt =====
-- The table of users: the statements of internal/storage/auth.go. `username` is UNIQUE and `id` the
-- primary key. An error of the database is an outcome that the callers choose.
pub mod Laws
use proxy_sentinel.Base.Table.{find_row, update_rows, delete_rows, has_row}
use proxy_sentinel.Base.Text.{Text, bytes}
use proxy_sentinel.Base.{
  ℕ, ◌+◌, Bool, true, false, List, [], ◌∷◌, ◌++◌, Option, none, some, map, ◌==◌, nat_eq, list_eq,
  if◌then◌else◌,
}

pub record User : Type 0 where
  pub id : ℕ
  pub username : Text
  pub password_hash : Text
  pub role : Text
  pub token_version : ℕ
  pub created_at : ℕ

-- A user without the hash of the password.
pub record UserInfo : Type 0 where
  pub id : ℕ
  pub username : Text
  pub role : Text
  pub created_at : ℕ

-- The table, with the next id of AUTOINCREMENT.
pub record Users : Type 0 where
  pub rows : List User
  pub next_id : ℕ

unfoldable pub info : User → UserInfo
info u = record { id = u.id; username = u.username; role = u.role; created_at = u.created_at }

abbrev pub named : Text → User → Bool
named name u = u.username == name

abbrev pub has_id : ℕ → User → Bool
has_id id u = u.id == id

unfoldable pub get_user_by_username : Text → Users → Option User
get_user_by_username name t = find_row (named name) t.rows

unfoldable pub list_users : Users → List UserInfo
list_users t = map info t.rows

unfoldable pub get_user_by_id : ℕ → Users → Option UserInfo
get_user_by_id id t = elim (find_row (has_id id) t.rows) [ none ↦ none | some u ↦ some (info u) ]

-- Whether a row was deleted, and the table.
unfoldable pub delete_user : ℕ → Users → Bool × Users
delete_user id t = (has_row (has_id id) t.rows, record t { rows = delete_rows (has_id id) t.rows })

unfoldable pub user_exists : Text → Users → Bool
user_exists name t = has_row (named name) t.rows

-- The row of an INSERT, with the defaults of the other columns.
unfoldable pub new_user : ℕ → Text → Text → Text → ℕ → User
new_user now name hash role id = record {
  id = id;
  username = name;
  password_hash = hash;
  role = if role == [] then bytes "admin" else role;
  token_version = 0;
  created_at = now;
}

-- `none` is the error of the UNIQUE constraint.
unfoldable pub create_user : ℕ → Text → Text → Text → Users → Option Users
create_user now name hash role t =
    if user_exists name t
    then none
    else some (record {
      rows = t.rows ++ new_user now name hash role t.next_id ∷ [];
      next_id = t.next_id + 1;
    })

-- A changed role ends the sessions of the user.
unfoldable pub with_role : Text → User → User
with_role role u = record u { role = role; token_version = u.token_version + 1 }

unfoldable pub update_user_role : ℕ → Text → Users → Users
update_user_role id role t = record t { rows = update_rows (has_id id) (with_role role) t.rows }

-- A changed password ends the sessions of the user.
unfoldable pub with_password : Text → User → User
with_password hash u = record u { password_hash = hash; token_version = u.token_version + 1 }

unfoldable pub update_password_hash : Text → Text → Users → Users
update_password_hash name hash t = record t {
  rows = update_rows (named name) (with_password hash) t.rows;
}
