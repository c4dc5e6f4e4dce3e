-- ===== src/Scenarios/Accounts.antt =====
-- Two administrators and a viewer: a password that is reset, an account that is deleted; and a start of the
-- program with an administrator and a token of its configuration.
use proxy_sentinel.Base.Affix.{text_eq_iff}
use proxy_sentinel.Base.Int.{pos}
use proxy_sentinel.Base.Number.{parse_int}
use proxy_sentinel.Base.Table.{find_row, delete_rows, has_row}
use proxy_sentinel.Base.Text.{Text, bytes}
use proxy_sentinel.Base.{
  ℕ, ◌≡◌, refl, false, true, [], ◌∷◌, ◌++◌, Option, none, some, arith, list_beq, ◌==◌, nat_eq,
  list_eq, if◌then◌else◌,
}
use proxy_sentinel.Storage.Users
use proxy_sentinel.Storage.Users.{User, has_id, get_user_by_username, with_password}
use proxy_sentinel.Storage.Users.Laws.{AllDiffer, IsValid}
use proxy_sentinel.Storage.Tokens
use proxy_sentinel.Proxy.Decode.{itoa, format_dec}
use proxy_sentinel.Proxy.RequestId.{hex_encode}
use proxy_sentinel.Auth.WebAuth.{Claims, refused, middleware}
use proxy_sentinel.Api.Users.{
  Call, Accounts, path_id, delete_user, remove_user, with_user, reset_password, store_password,
}
use proxy_sentinel.Api.Users.Guarded.{IsAdmin, deletes, handle}
use proxy_sentinel.Api.Users.Administrators.{Administered, rests, sends, administrator_remains}
use proxy_sentinel.Api.Users.Sessions.{version_of, reset_password_revokes}
use proxy_sentinel.Start.{
  World, AuthConfig, Stores, bootstrap, bootstrap_admin, bootstrap_tokens, bootstrap_token,
  create_admin,
}
use proxy_sentinel.Start.Starting.{Works, IsStarted, bootstrap-IsStarted}

abbrev user : ℕ → Text → Text → User
user id name role = record {
  id = id;
  username = name;
  password_hash = bytes "h";
  role = role;
  token_version = 3;
  created_at = 0;
}

abbrev three : Users.Users
three = record {
  rows =
      user 1 (bytes "ann") (bytes "admin")
      ∷ user 2 (bytes "bob") (bytes "admin")
      ∷ user 4 (bytes "eve") (bytes "viewer")
      ∷ [];
  next_id = 5;
}

abbrev accounts : Accounts
accounts = record { users = three; cache = []; audits = [] }

three-IsValid : IsValid three
unfolding AllDiffer list_beq
three-IsValid = record {
  unique = (
    (
      ((λ e. absurd (ground (arith, e))), omega arith),
      (((λ e. absurd (ground (arith, e))), omega arith), tt),
    ),
    (((((λ e. absurd (ground (arith, e))), omega arith), tt)), (tt, tt)),
  );
  below = (omega arith, (omega arith, (omega arith, tt)));
}

abbrev by : Text → Call
by name = record {
  now = 70;
  current = name;
  ip = bytes "::1";
  hash_password = λ p. some (p ++ bytes "#");
  faults = record { reads = false; lists = false; counts = false; writes = false };
}

ann-IsAdmin : IsAdmin three (bytes "ann")
unfolding get_user_by_username find_row list_beq
ann-IsAdmin = record { user = user 1 (bytes "ann") (bytes "admin"); found = refl; admin = refl }

-- Ann deletes Bob.
administered : Administered accounts (handle (by (bytes "ann")) (deletes (bytes "2")) accounts).1
administered =
    sends (by (bytes "ann")) (deletes (bytes "2")) accounts
      (handle (by (bytes "ann")) (deletes (bytes "2")) accounts).1 ann-IsAdmin
      (rests (handle (by (bytes "ann")) (deletes (bytes "2")) accounts).1)

bob_goes : (handle (by (bytes "ann")) (deletes (bytes "2")) accounts).0 ≡ 200
unfolding handle delete_user path_id parse_int with_user remove_user Users.get_user_by_id find_row
    Users.list_users Users.delete_user has_row delete_rows list_beq Users.info
bob_goes = refl

administrator_remains_example :
    IsValid (handle (by (bytes "ann")) (deletes (bytes "2")) accounts).1.users
    × ((other : Text) × IsAdmin
          (handle (by (bytes "ann")) (deletes (bytes "2")) accounts).1.users
          other)
administrator_remains_example =
    administrator_remains accounts (handle (by (bytes "ann")) (deletes (bytes "2")) accounts).1
      (bytes "ann") administered three-IsValid ann-IsAdmin

abbrev claims : Claims
claims = record { username = bytes "eve"; role = bytes "viewer"; token_version = 3 }

abbrev verifies : Text → Option Claims
verifies token = if token == bytes "t" then some claims else none

parsed : verifies (bytes "t") ≡ some claims
unfolding list_beq
parsed = refl

fourth : path_id (bytes "4") ≡ some 4
unfolding path_id parse_int list_beq
fourth = refl

eve_found : find_row (has_id 4) three.rows ≡ some (user 4 (bytes "eve") (bytes "viewer"))
unfolding find_row
eve_found = refl

is_reset :
    (reset_password
      (by (bytes "ann"))
      (bytes "4")
      (some (record { password = bytes "secret" }))
      accounts).0
    ≡ 200
unfolding reset_password path_id parse_int with_user store_password Users.get_user_by_id find_row
    list_beq
is_reset = refl

reset_password_revokes_example :
    (middleware verifies 71
      (version_of
        (reset_password
          (by (bytes "ann"))
          (bytes "4")
          (some (record { password = bytes "secret" }))
          accounts).1.users)
      (some (bytes "t"))
      (reset_password
        (by (bytes "ann"))
        (bytes "4")
        (some (record { password = bytes "secret" }))
        accounts).1.cache).0
    ≡ refused true
reset_password_revokes_example =
    reset_password_revokes (by (bytes "ann")) (bytes "4")
      (some (record { password = bytes "secret" })) 4 accounts
      (user 4 (bytes "eve") (bytes "viewer")) verifies 71 (bytes "t") claims three-IsValid fourth
      eve_found is_reset refl (omega arith) (λ e. cc) parsed

-- A hash is the password behind a mark.
abbrev world : World
world = record {
  now = 0;
  hash_password = λ p. some (bytes "#" ++ p);
  check_password = λ hash p. hash == bytes "#" ++ p;
  sha = λ s. s;
  user_read_fails = false;
  user_write_fails = false;
  token_read_fails = λ i. false;
  token_write_fails = λ i. false;
}

abbrev auth : AuthConfig
auth = record {
  admin_username = bytes "root";
  admin_password = bytes "hush";
  proxy_tokens = bytes "sk-1" ∷ [] ∷ [];
}

abbrev stores : Stores
stores = record { users = three; tokens = record { rows = []; next_id = 1; last_used_mark = [] } }

abbrev booted : Stores
booted = record {
  users = record {
    rows =
        three.rows
        ++ record {
          id = 5;
          username = bytes "root";
          password_hash = bytes "#hush";
          role = bytes "admin";
          token_version = 0;
          created_at = 0;
        }
          ∷ [];
    next_id = 6;
  };
  tokens = record {
    rows =
        record {
          id = 1;
          token = bytes "736b2d31";
          name = bytes "token-1";
          rate_limit_rpm = pos 0;
          created_at = 0;
          last_used_at = none;
          expires_at = none;
        }
        ∷ [];
    next_id = 2;
    last_used_mark = [];
  };
}

starts : bootstrap world auth stores ≡ some booted
unfolding bootstrap bootstrap_admin create_admin get_user_by_username find_row Users.create_user
    Users.user_exists Users.new_user has_row bootstrap_tokens bootstrap_token Tokens.token_exists
    Tokens.add_token Tokens.new_token Tokens.hash_token hex_encode itoa format_dec list_beq
starts = refl

world-Works : Works world
world-Works = record {
  reads_user = refl;
  writes_user = refl;
  reads_token = λ i. refl;
  writes_token = λ i. refl;
}

bootstrap-IsStarted_example : (s' : Stores) × IsStarted world auth stores s'
bootstrap-IsStarted_example =
    bootstrap-IsStarted world auth stores (bytes "#hush") world-Works refl
      (λ password hash e. ground (arith, e, text_eq_iff hash (bytes "#" ++ password)))
