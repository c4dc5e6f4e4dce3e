-- ===== src/Scenarios/Access.antt =====
-- A table with one token and its way through the gate, and a table of an older version.
use proxy_sentinel.Base.Int.{pos}
use proxy_sentinel.Base.Map
use proxy_sentinel.Base.Number.{parse_int}
use proxy_sentinel.Base.Table.{find_row, has_row}
use proxy_sentinel.Base.Text.{Text, bytes, has_prefix, trim_prefix, trim_space}
use proxy_sentinel.Base.{
  map, Option, ℕ, zero, suc, ◌≡◌, ◌≢◌, refl, ap, false, true, [], ◌∷◌, none, some, arith, list_beq,
  nat_eq, list_eq, length, keep, if◌then◌else◌, List, ◌==◌,
}
use proxy_sentinel.Storage.Tokens
use proxy_sentinel.Storage.Tokens.{
  ProxyToken, Tokens, hash_token, has_id, is_live, valid_token, mark_last_used, write_use,
  migrate_legacy_tokens, legacy_tokens, convert_tokens, set_token, token_exists, add_token,
  new_token,
}
use proxy_sentinel.Storage.Tokens.Laws.{AllDiffer}
use proxy_sentinel.Storage.Tokens.Migration.{AllApart, migrated, migrate_legacy_tokens-map}
use proxy_sentinel.Proxy.RequestId.{hex_encode}
use proxy_sentinel.Ratelimit.{allow, charge, take_bucket, refill, rate, since, spend}
use proxy_sentinel.Auth.ProxyAuth.{Bearer, authenticate, check_token}
use proxy_sentinel.Api.Users.{path_id}
use proxy_sentinel.Api.Tokens.{
  Call, Site, CreateTokenRequest, create_token, insert_token, delete_token, refuses_fields,
  choose_token, expiry, rate_limit, effective_limit,
}
use proxy_sentinel.Api.Tokens.Issuing.{create_token_accepted}
use proxy_sentinel.Api.Gate.{Gate, Knock, admitted, enter, check_bearer, throttle, ip_allowed}
use proxy_sentinel.Api.Gate.Admission.{IsAdmitted, enter-IsAdmitted, delete_token_bars}
use proxy_sentinel.Auth.WebAuth.{middleware, check_claims, user_state, query, role_of, admin_only}
use proxy_sentinel.Api.Router.{
  Visit, Front, reached, session, list_audits, serve_http, routes, public_routes, page_routes,
  log_routes, admin_routes, pass_guard, by_verdict,
}
use proxy_sentinel.Api.Router.Needs.{need}
use proxy_sentinel.Api.Router.Guards.{IsEntitled, serve_http-IsEntitled}
use proxy_sentinel.Ipacl.{Parser}
use proxy_sentinel.Scenarios.Buckets.{whole, empty}

-- The first bytes of a text, filled up with zeros, in the place of its SHA-256.
pad : ℕ → Text → Text
pad zero s = []
pad (suc n) [] = 0 ∷ pad n []
pad (suc n) (c ∷ s) = c ∷ pad n s

length-pad : (n : ℕ) (s : Text) → length (pad n s) ≡ n
unfolding pad
length-pad zero s = refl
length-pad (suc n) [] = ap suc (length-pad n [])
length-pad (suc n) (c ∷ s) = ap suc (length-pad n s)

abbrev sha : Text → Text
sha s = pad 32 s

abbrev secret : Text
secret = bytes "0123456789abcdef"

abbrev row : ProxyToken
row = record {
  id = 1;
  token = hash_token sha secret;
  name = bytes "ci";
  rate_limit_rpm = pos 2;
  created_at = 0;
  last_used_at = none;
  expires_at = some 90;
}

abbrev tokens : Tokens.Tokens
tokens = record { rows = row ∷ []; next_id = 2; last_used_mark = [] }

abbrev parser : Parser
parser = record { parse_addr = λ s. none; parse_prefix = λ s. none }

abbrev knock : Knock
knock = record {
  now = 50;
  remote_addr = bytes "10.0.0.7:4711";
  authorization = bytes "Bearer 0123456789abcdef";
  parser = parser;
  sha = sha;
  faults = record { reads = false; marks = false };
  default_rpm = pos 60;
}

abbrev gate : Gate ℕ
gate = record { acl = none; tokens = tokens; limiter = empty }

abbrev bearer : Bearer
bearer = record { token = secret; token_id = 1; rate_limit_rpm = pos 2 }

gets_in : (enter whole knock gate).0 ≡ admitted bearer
unfolding enter check_bearer throttle ip_allowed authenticate check_token valid_token mark_last_used
    write_use hash_token hex_encode pad find_row is_live rate_limit effective_limit allow charge
    take_bucket refill rate since spend has_prefix trim_prefix trim_space Map.lookup list_beq
gets_in = refl

enter-IsAdmitted_example : IsAdmitted whole knock gate bearer
enter-IsAdmitted_example = enter-IsAdmitted whole knock gate bearer gets_in

abbrev call : Call
call = record {
  now = 40;
  current = bytes "ann";
  ip = bytes "::1";
  sha = sha;
  random = none;
  in_days = λ n. 1_000;
  faults = record { reads = false; lists = false; counts = false; writes = false };
}

abbrev site : Site ℕ
site = record { tokens = tokens; limiter = empty; audits = [] }

apart : AllDiffer tokens.rows
unfolding AllDiffer
apart = (tt, tt)

first : path_id (bytes "1") ≡ some 1
unfolding path_id parse_int list_beq
first = refl

row_found : find_row (has_id 1) tokens.rows ≡ some row
unfolding find_row
row_found = refl

is_deleted : (delete_token call (bytes "1") site).0 ≡ 200
unfolding delete_token path_id parse_int Tokens.delete_token has_row find_row list_beq
is_deleted = refl

its_hash :
    hash_token sha (trim_space (trim_prefix (bytes "Bearer ") knock.authorization)) ≡ row.token
unfolding trim_prefix has_prefix trim_space list_beq
its_hash = refl

delete_token_bars_example :
    (enter whole knock (record gate { tokens = (delete_token call (bytes "1") site).1.tokens })).0
    ≢ admitted bearer
delete_token_bars_example =
    delete_token_bars whole call (bytes "1") 1 site row knock
      (record gate { tokens = (delete_token call (bytes "1") site).1.tokens }) bearer apart first
      row_found is_deleted refl its_hash

abbrev wish : CreateTokenRequest
wish = record {
  name = bytes " deploy ";
  token = bytes "fedcba9876543210";
  rate_limit_rpm = pos 5;
  expires_in_days = some (pos 3);
}

is_created : (create_token call (some wish) site).0 ≡ (201, some (bytes "fedcba9876543210"))
unfolding create_token refuses_fields choose_token insert_token token_exists add_token has_row
    find_row hash_token hex_encode pad trim_space expiry list_beq
is_created = refl

create_token_accepted_example :
    (valid_token sha true 999
      (bytes "fedcba9876543210")
      (create_token call (some wish) site).1.tokens).0
    ≡ some (2, pos 5)
create_token_accepted_example =
    create_token_accepted call wish site (bytes "fedcba9876543210") true 999 is_created
      (unfold expiry in omega arith)

-- The token in plain text.
abbrev old : Tokens.Tokens
old = record tokens { rows = record row { token = secret } ∷ [] }

migrates : (migrate_legacy_tokens sha old).0 ≡ true
unfolding migrate_legacy_tokens legacy_tokens convert_tokens set_token has_row find_row hash_token
    hex_encode pad list_beq keep
migrates = refl

one_row : AllApart old.rows
unfolding AllApart
one_row = (tt, tt)

migrate_legacy_tokens-map_example :
    (migrate_legacy_tokens sha old ≡ (true, record old { rows = map (migrated sha) old.rows }))
    × (migrate_legacy_tokens sha (record old { rows = map (migrated sha) old.rows })
        ≡ (true, record old { rows = map (migrated sha) old.rows }))
migrate_legacy_tokens-map_example =
    migrate_legacy_tokens-map sha old one_row (λ s. length-pad 32 s) migrates

-- Ann, an administrator, asks for the audit log.
abbrev visit : Visit
visit = record {
  method = bytes "GET";
  path = bytes "/api/audit-logs";
  cookie = some (bytes "t");
  parse = λ t.
      if t == bytes "t"
      then some (record { username = bytes "ann"; role = bytes "admin"; token_version = 4 })
      else none;
  find = λ u. if u == bytes "ann" then some 4 else none;
  knock = knock;
}

abbrev front : Front ℕ
front = record { cache = []; gate = gate }

-- The pattern at position 26.
abbrev pick : List Text → Text → Text → Option ℕ
pick patterns method path = some 26

is_reached :
    (serve_http whole pick visit front).0
    ≡ reached list_audits (session (bytes "ann") (bytes "admin"))
unfolding serve_http routes public_routes page_routes log_routes admin_routes pass_guard by_verdict
    middleware check_claims user_state query role_of admin_only Map.lookup list_beq
is_reached = refl

serve_http-IsEntitled_example :
    IsEntitled whole visit front (need list_audits) (session (bytes "ann") (bytes "admin"))
serve_http-IsEntitled_example =
    serve_http-IsEntitled whole pick visit front list_audits (session (bytes "ann") (bytes "admin"))
      is_reached
