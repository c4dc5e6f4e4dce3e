-- ===== src/Start.antt =====
-- What cmd/sentinel/main.go does with the database when the program starts: `bootstrap`, which sees to the
-- administrator and the tokens of the configuration, and the settings of the database, which stand above
-- those of the configuration. The YAML, bcrypt, SHA-256 and the errors of the database are arguments.
pub mod Restart
pub mod Bootstrap
pub mod Starting
use proxy_sentinel.Base.Int.{pos}
use proxy_sentinel.Base.Text.{Text, bytes}
use proxy_sentinel.Base.{
  ℕ, ◌+◌, Bool, true, false, not, List, [], ◌∷◌, ◌++◌, Option, none, some, map, ◌==◌, nat_eq,
  list_eq, if◌then◌else◌, length,
}
use proxy_sentinel.Storage.{WeightedBackend, RouteRule, RewriteRule}
use proxy_sentinel.Storage.Settings.{
  Table, Codec, Read, failed, absent, found, get_setting, get_setting_backends, get_setting_rules,
  get_setting_rewrites, setting_strategy,
}
use proxy_sentinel.Storage.Users
use proxy_sentinel.Storage.Tokens
use proxy_sentinel.Proxy.Balancer.{new_balancer}
use proxy_sentinel.Proxy.Decode.{itoa}
use proxy_sentinel.Proxy.Handler.{Handler, new_handler, set_rules, set_rewrites}

-- The part of the configuration that goes into the balancer and the handler.
pub record ProxyConfig : Type 0 where
  pub backends : List Text
  pub strategy : Text
  pub max_body : ℕ
  pub max_upload : ℕ
  pub log_max : ℕ
  pub trust_xff : Bool

-- Which of the four reads report an error.
pub record ReadFaults : Type 0 where
  pub backends : Bool
  pub strategy : Bool
  pub rules : Bool
  pub rewrites : Bool

-- A backend of the configuration has weight 1.
unfoldable pub default_backend : Text → WeightedBackend
default_backend u = record { url = u; weight = pos 1; health_path = [] }

unfoldable pub load_backends : Codec → Bool → List Text → Table → List WeightedBackend
load_backends c fails urls t =
    let configured = map default_backend urls in
    elim (get_setting_backends c fails t) [
      | failed ↦ configured
      | absent ↦ configured
      | found bs ↦ if length bs == 0 then configured else bs
    ]

unfoldable pub load_strategy : Bool → Text → Table → Text
load_strategy fails configured t = elim (get_setting fails setting_strategy t) [
  | failed ↦ configured
  | absent ↦ configured
  | found v ↦ if v == [] then configured else v
]

-- `v, _, _ := ...`: nil where there is no value.
unfoldable pub or_nil : {A : Type 0} → Read (List A) → Option (List A)
or_nil failed = none
or_nil absent = none
or_nil (found v) = some v

-- The handler that serves: with the settings of the database where it has any.
unfoldable pub start_handler : Codec → ReadFaults → ProxyConfig → Table → Handler
start_handler c f cfg t = set_rewrites (or_nil (get_setting_rewrites c f.rewrites t)) (
    set_rules (or_nil (get_setting_rules c f.rules t)) (
      new_handler
        (new_balancer (load_strategy f.strategy cfg.strategy t)
          (load_backends c f.backends cfg.backends t))
        true cfg.max_body cfg.max_upload cfg.log_max cfg.trust_xff))

-- bcrypt, SHA-256 and the clock, and which statements report an error: those on the administrator, and
-- those on the token at a position.
pub record World : Type 0 where
  pub now : ℕ
  pub hash_password : Text → Option Text
  pub check_password : Text → Text → Bool
  pub sha : Text → Text
  pub user_read_fails : Bool
  pub user_write_fails : Bool
  pub token_read_fails : ℕ → Bool
  pub token_write_fails : ℕ → Bool

unfoldable pub store_hash : World → Text → Text → Users.Users → Option Users.Users
store_hash w name hash t =
    if w.user_write_fails then none else some (Users.update_password_hash name hash t)

unfoldable pub create_admin : World → Text → Text → Users.Users → Option Users.Users
create_admin w name hash t =
    if w.user_write_fails then none else Users.create_user w.now name hash (bytes "admin") t

-- The administrator of the configuration; `none` ends the program.
unfoldable pub bootstrap_admin : World → Text → Text → Users.Users → Option Users.Users
bootstrap_admin w name password t =
    if w.user_read_fails then none else elim (Users.get_user_by_username name t) [
      | none ↦ elim (w.hash_password password) [
        | none ↦ none
        | some hash ↦ create_admin w name hash t
      ]
      | some u ↦
          if not (w.check_password u.password_hash password)
          then elim (w.hash_password password) [
            | none ↦ none
            | some hash ↦ store_hash w name hash t
          ]
          else some t
    ]

-- The token at position `i`, unless it is empty or known.
unfoldable pub bootstrap_token : World → ℕ → Text → Tokens.Tokens → Option Tokens.Tokens
bootstrap_token w i token t =
    if token == []
    then some t
    else if w.token_read_fails i
    then none
    else if Tokens.token_exists w.sha token t
    then some t
    else if w.token_write_fails i
    then none
    else Tokens.add_token w.sha w.now token (bytes "token-" ++ itoa (i + 1)) (pos 0) none t

unfoldable pub bootstrap_tokens : World → ℕ → List Text → Tokens.Tokens → Option Tokens.Tokens
bootstrap_tokens w i [] t = some t
bootstrap_tokens w i (token ∷ rest) t = elim (bootstrap_token w i token t) [
  | none ↦ none
  | some t' ↦ bootstrap_tokens w (i + 1) rest t'
]

-- The administrator's name and password, and the tokens of the configuration.
pub record AuthConfig : Type 0 where
  pub admin_username : Text
  pub admin_password : Text
  pub proxy_tokens : List Text

pub record Stores : Type 0 where
  pub users : Users.Users
  pub tokens : Tokens.Tokens

-- `none` is an error, which ends the program.
unfoldable pub bootstrap : World → AuthConfig → Stores → Option Stores
bootstrap w cfg s = elim (bootstrap_admin w cfg.admin_username cfg.admin_password s.users) [
  | none ↦ none
  | some users ↦ elim (bootstrap_tokens w 0 cfg.proxy_tokens s.tokens) [
    | none ↦ none
    | some tokens ↦ some (record { users = users; tokens = tokens })
  ]
]
