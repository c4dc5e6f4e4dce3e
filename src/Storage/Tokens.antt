-- ===== src/Storage/Tokens.antt =====
-- The table of proxy tokens: the statements of internal/storage/auth.go. `token` is UNIQUE and `id` the
-- primary key; `token` is meant to hold a hash. SHA-256 is the argument `sha`. An error of the database is
-- an outcome that the callers choose, except in `add_token` and the migration, where it is the constraint's.
pub mod Migration
pub mod Laws
use proxy_sentinel.Base.Int.{ℤ, pos}
use proxy_sentinel.Base.Map
use proxy_sentinel.Base.Table.{find_row, update_rows, delete_rows, has_row}
use proxy_sentinel.Base.Text.{Text}
use proxy_sentinel.Base.{
  ℕ, ◌+◌, ◌-◌, ◌*◌, Bool, true, false, not, ◌&&◌, List, [], ◌∷◌, ◌++◌, Option, none, some, map, ltb,
  ◌==◌, nat_eq, list_eq, if◌then◌else◌, length, keep,
}
use proxy_sentinel.Proxy.RequestId.{hex_encode}

pub record ProxyToken : Type 0 where
  pub id : ℕ
  pub token : Text
  pub name : Text
  pub rate_limit_rpm : ℤ
  pub created_at : ℕ
  pub last_used_at : Option ℕ
  pub expires_at : Option ℕ

-- A token without its hash.
pub record TokenInfo : Type 0 where
  pub id : ℕ
  pub name : Text
  pub rate_limit_rpm : ℤ
  pub created_at : ℕ
  pub last_used_at : Option ℕ
  pub expires_at : Option ℕ

-- The table with the next id of AUTOINCREMENT, and when the use of an id was last written.
pub record Tokens : Type 0 where
  pub rows : List ProxyToken
  pub next_id : ℕ
  pub last_used_mark : List (ℕ × ℕ)

unfoldable pub hash_token : (Text → Text) → Text → Text
hash_token sha token = hex_encode (sha token)

abbrev pub has_hash : Text → ProxyToken → Bool
has_hash h p = p.token == h

abbrev pub has_id : ℕ → ProxyToken → Bool
has_id id p = p.id == id

-- The rows whose token is not 64 bytes long are plain ones of an older version.
unfoldable pub legacy_tokens : List ProxyToken → List ProxyToken
legacy_tokens rows = keep (λ p. not (length p.token == 64)) rows

abbrev pub with_token : Text → ProxyToken → ProxyToken
with_token h p = record p { token = h }

-- `UPDATE proxy_tokens SET token=? WHERE id=?`; `none` when another row has the token.
unfoldable pub set_token : ℕ → Text → List ProxyToken → Option (List ProxyToken)
set_token id h rows =
    if has_row (λ p. has_hash h p && not (has_id id p)) rows
    then none
    else some (update_rows (has_id id) (with_token h) rows)

-- Whether every row was converted, and the rows.
unfoldable pub convert_tokens :
    (Text → Text) → List ProxyToken → List ProxyToken → Bool × List ProxyToken
convert_tokens sha [] rows = (true, rows)
convert_tokens sha (p ∷ ps) rows = elim (set_token p.id (hash_token sha p.token) rows) [
  | none ↦ (false, rows)
  | some rows' ↦ convert_tokens sha ps rows'
]

unfoldable pub migrate_legacy_tokens : (Text → Text) → Tokens → Bool × Tokens
migrate_legacy_tokens sha t =
    let (done, rows) = convert_tokens sha (legacy_tokens t.rows) t.rows in
    (done, record t { rows = rows })

-- `expires_at IS NULL OR expires_at > now`
unfoldable pub is_live : ℕ → ProxyToken → Bool
is_live now p = elim p.expires_at [ none ↦ true | some e ↦ ltb now e ]

-- 30 seconds in nanoseconds.
abbrev pub last_used_interval : ℕ
last_used_interval = 30 * 1_000_000_000

abbrev pub with_use : ℕ → ProxyToken → ProxyToken
with_use now p = record p { last_used_at = some now }

-- `fails` is an error of the UPDATE, which nobody looks at.
unfoldable pub write_use : Bool → ℕ → ℕ → Tokens → Tokens
write_use fails now id t = record t {
  rows = if fails then t.rows else update_rows (has_id id) (with_use now) t.rows;
  last_used_mark = Map.insert id now t.last_used_mark;
}

unfoldable pub mark_last_used : Bool → ℕ → ℕ → Tokens → Tokens
mark_last_used fails now id t = elim (Map.lookup id t.last_used_mark) [
  | none ↦ write_use fails now id t
  | some mark ↦ if ltb (now - mark) last_used_interval then t else write_use fails now id t
]

-- The id and the limit of a valid token, and the table with the use that was written.
unfoldable pub valid_token : (Text → Text) → Bool → ℕ → Text → Tokens → Option (ℕ × ℤ) × Tokens
valid_token sha fails now token t =
    elim (find_row (λ p. has_hash (hash_token sha token) p && is_live now p) t.rows) [
      | none ↦ (none, t)
      | some p ↦ (some (p.id, p.rate_limit_rpm), mark_last_used fails now p.id t)
    ]

unfoldable pub token_exists : (Text → Text) → Text → Tokens → Bool
token_exists sha token t = has_row (has_hash (hash_token sha token)) t.rows

-- The row of an INSERT; a zero time is NULL.
unfoldable pub new_token : (Text → Text) → ℕ → Text → Text → ℤ → Option ℕ → ℕ → ProxyToken
new_token sha now token name rpm expires id = record {
  id = id;
  token = hash_token sha token;
  name = name;
  rate_limit_rpm = rpm;
  created_at = now;
  last_used_at = none;
  expires_at = expires;
}

-- `none` is the error of the UNIQUE constraint.
unfoldable pub add_token : (Text → Text) → ℕ → Text → Text → ℤ → Option ℕ → Tokens → Option Tokens
add_token sha now token name rpm expires t =
    if token_exists sha token t
    then none
    else some (record t {
      rows = t.rows ++ new_token sha now token name rpm expires t.next_id ∷ [];
      next_id = t.next_id + 1;
    })

unfoldable pub info : ProxyToken → TokenInfo
info p = record {
  id = p.id;
  name = p.name;
  rate_limit_rpm = p.rate_limit_rpm;
  created_at = p.created_at;
  last_used_at = p.last_used_at;
  expires_at = p.expires_at;
}

unfoldable pub list_tokens : Tokens → List TokenInfo
list_tokens t = map info t.rows

unfoldable pub get_token : ℕ → Tokens → Option TokenInfo
get_token id t = elim (find_row (has_id id) t.rows) [ none ↦ none | some p ↦ some (info p) ]

-- An empty name and a missing limit are left as they are.
unfoldable pub with_meta : Text → Option ℤ → ProxyToken → ProxyToken
with_meta name none p = if name == [] then p else record p { name = name }
with_meta name (some rpm) p =
    if name == []
    then record p { rate_limit_rpm = rpm }
    else record p { name = name; rate_limit_rpm = rpm }

unfoldable pub update_token_meta : ℕ → Text → Option ℤ → Tokens → Tokens
update_token_meta id name rpm t = record t {
  rows = update_rows (has_id id) (with_meta name rpm) t.rows;
}

-- Whether a row was deleted, and the table.
unfoldable pub delete_token : ℕ → Tokens → Bool × Tokens
delete_token id t = (has_row (has_id id) t.rows, record t { rows = delete_rows (has_id id) t.rows })
