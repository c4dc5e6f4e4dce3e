-- ===== src/Api/Acl.antt =====
-- The IP lists of the administration: loadIPACL, getIPACL and updateIPACL of internal/api/ipacl.go, over the
-- settings table and the lists that are in force. The request's JSON, the encoding of a configuration, the
-- parsers of addresses and the errors of the database are arguments; the texts of the answers are left out.
pub mod Reloaded
use proxy_sentinel.Base.Text.{Text, bytes}
use proxy_sentinel.Base.{ℕ, Bool, List, [], ◌∷◌, ◌++◌, Option, none, some}
use proxy_sentinel.Ipacl.{Config, Parser, Acl, ok, err, compile}
use proxy_sentinel.Ipacl.Parse.{Decoded, RawConfig, complete, parse_config}
use proxy_sentinel.Storage.Settings.{
  Table, Read, failed, absent, found, get_setting_ip_acl, set_setting_ip_acl,
}
use proxy_sentinel.Api.Login.{Audit}

-- json.Marshal of a configuration, and the readings of its bytes.
pub record Codec : Type 0 where
  pub encode : Config → Option Text
  pub decode : Text → Decoded

pub record Call : Type 0 where
  pub current : Text
  pub ip : Text
  pub codec : Codec
  pub parser : Parser
  pub read_fails : Bool
  pub write_fails : Bool

pub record Site : Type 0 where
  pub table : Table
  pub acl : Option Acl
  pub audits : List Audit

unfoldable pub compiled_or : Option Acl → Parser → Config → Option Acl
compiled_or old parser cfg = elim (compile parser cfg) [ err e ↦ old | ok l ↦ some l ]

-- The lists in force after the start; what cannot be read, parsed or compiled leaves them as they are.
unfoldable pub load_ip_acl : Codec → Parser → Bool → Table → Option Acl → Option Acl
unfolding compiled_or
load_ip_acl codec parser fails t old = elim (get_setting_ip_acl fails t) [
  | failed ↦ old
  | absent ↦ old
  | found raw ↦ elim (parse_config (codec.decode raw)) [
    | none ↦ old
    | some cfg ↦ compiled_or old parser cfg
  ]
]

abbrev pub default_config : Config
default_config = record {
  mode = bytes "off";
  default = bytes "allow";
  blacklist = [];
  whitelist = [];
}

-- `none` is the answer 500.
unfoldable pub get_ip_acl : Call → Site → Option Config
get_ip_acl c s = elim (get_setting_ip_acl c.read_fails s.table) [
  | failed ↦ none
  | absent ↦ some default_config
  | found raw ↦ parse_config (c.codec.decode raw)
]

-- From the encoding of the compiled configuration on.
unfoldable pub store_ip_acl : Call → Config → Acl → Site → ℕ × Site
store_ip_acl c cfg l s = elim (c.codec.encode cfg) [
  | none ↦ (500, s)
  | some raw ↦ elim (set_setting_ip_acl c.write_fails raw s.table) [
    | none ↦ (500, s)
    | some t ↦ (
      200,
      record {
        table = t;
        acl = some l;
        audits =
            s.audits
            ++ record { username = c.current; action = bytes "ip_acl_updated"; ip = c.ip } ∷ [];
      },
    )
  ]
]

unfoldable pub update_ip_acl : Call → Option RawConfig → Site → ℕ × Site
update_ip_acl c none s = (400, s)
update_ip_acl c (some q) s = elim (compile c.parser (complete q)) [
  | err e ↦ (400, s)
  | ok l ↦ store_ip_acl c (complete q) l s
]
