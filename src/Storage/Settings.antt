-- ===== src/Storage/Settings.antt =====
-- The table of settings: internal/storage/settings.go. What encoding/json makes of values is the argument
-- `Codec`; `fails` is an error of the database.
use proxy_sentinel.Base.Int.{pos}
use proxy_sentinel.Base.Map
use proxy_sentinel.Base.Map.{lookup-insert}
use proxy_sentinel.Base.Text.{Text, bytes}
use proxy_sentinel.Base.{
  ◌≡◌, Bool, false, List, [], Option, none, some, map, arith, ◌==◌, nat_eq, list_eq, if◌then◌else◌,
}
use proxy_sentinel.Storage.{WeightedBackend, RouteRule, RewriteRule}

abbrev pub setting_backends : Text
setting_backends = bytes "backends"

abbrev pub setting_strategy : Text
setting_strategy = bytes "balancer_strategy"

abbrev pub setting_ip_acl : Text
setting_ip_acl = bytes "ip_acl"

abbrev pub setting_rules : Text
setting_rules = bytes "route_rules"

abbrev pub setting_rewrites : Text
setting_rewrites = bytes "path_rewrites"

abbrev pub Table : Type 0
Table = List (Text × Text)

-- json.Marshal, and json.Unmarshal with `none` for its error; for backends `some none` is a nil slice.
pub record Codec : Type 0 where
  pub marshal_backends : List WeightedBackend → Option Text
  pub unmarshal_backends : Text → Option (Option (List WeightedBackend))
  pub unmarshal_urls : Text → Option (List Text)
  pub marshal_rules : List RouteRule → Option Text
  pub unmarshal_rules : Text → Option (List RouteRule)
  pub marshal_rewrites : List RewriteRule → Option Text
  pub unmarshal_rewrites : Text → Option (List RewriteRule)

-- What reading yields: an error, no value, or a value.
pub data Read {ℓ} (A : Type ℓ) : Type ℓ where
  failed : Read A
  absent : Read A
  found : A → Read A

unfoldable pub get_setting : Bool → Text → Table → Read Text
get_setting fails key t =
    if fails then failed else elim (Map.lookup key t) [ none ↦ absent | some v ↦ found v ]

-- `none` is an error.
unfoldable pub set_setting : Bool → Text → Text → Table → Option Table
set_setting fails key val t = if fails then none else some (Map.insert key val t)

old_backend : Text → WeightedBackend
old_backend u = record { url = u; weight = pos 1; health_path = [] }

-- The old format is a list of addresses; a value of neither format counts as none.
unfoldable pub decode_backends : Codec → Text → Read (List WeightedBackend)
unfolding old_backend
decode_backends c v =
    let old : Read (List WeightedBackend) = elim (c.unmarshal_urls v) [
      | none ↦ absent
      | some us ↦ found (map old_backend us)
    ] in
    elim (c.unmarshal_backends v) [ none ↦ old | some none ↦ old | some (some bs) ↦ found bs ]

unfoldable pub get_setting_backends : Codec → Bool → Table → Read (List WeightedBackend)
get_setting_backends c fails t = elim (get_setting fails setting_backends t) [
  | failed ↦ failed
  | absent ↦ absent
  | found v ↦ decode_backends c v
]

unfoldable pub set_setting_backends : Codec → Bool → List WeightedBackend → Table → Option Table
set_setting_backends c fails bs t = elim (c.marshal_backends bs) [
  | none ↦ none
  | some v ↦ set_setting fails setting_backends v t
]

unfoldable pub get_setting_rules : Codec → Bool → Table → Read (List RouteRule)
get_setting_rules c fails t = elim (get_setting fails setting_rules t) [
  | failed ↦ failed
  | absent ↦ absent
  | found v ↦ elim (c.unmarshal_rules v) [ none ↦ absent | some rules ↦ found rules ]
]

unfoldable pub set_setting_rules : Codec → Bool → List RouteRule → Table → Option Table
set_setting_rules c fails rules t = elim (c.marshal_rules rules) [
  | none ↦ none
  | some v ↦ set_setting fails setting_rules v t
]

unfoldable pub get_setting_rewrites : Codec → Bool → Table → Read (List RewriteRule)
get_setting_rewrites c fails t = elim (get_setting fails setting_rewrites t) [
  | failed ↦ failed
  | absent ↦ absent
  | found v ↦ elim (c.unmarshal_rewrites v) [ none ↦ absent | some rules ↦ found rules ]
]

unfoldable pub set_setting_rewrites : Codec → Bool → List RewriteRule → Table → Option Table
set_setting_rewrites c fails rules t = elim (c.marshal_rewrites rules) [
  | none ↦ none
  | some v ↦ set_setting fails setting_rewrites v t
]

unfoldable pub get_setting_ip_acl : Bool → Table → Read Text
get_setting_ip_acl fails t = get_setting fails setting_ip_acl t

unfoldable pub set_setting_ip_acl : Bool → Text → Table → Option Table
set_setting_ip_acl fails raw t = set_setting fails setting_ip_acl raw t

-- Decoding undoes encoding: the documented promise of encoding/json for these values.
pub record IsCodec (c : Codec) : Type 0 where
  pub backends :
      (bs : List WeightedBackend) (v : Text)
      → c.marshal_backends bs ≡ some v
      → c.unmarshal_backends v ≡ some (some bs)
  pub rules :
      (rules : List RouteRule) (v : Text)
      → c.marshal_rules rules ≡ some v
      → c.unmarshal_rules v ≡ some rules
  pub rewrites :
      (rules : List RewriteRule) (v : Text)
      → c.marshal_rewrites rules ≡ some v
      → c.unmarshal_rewrites v ≡ some rules

pub get-set :
    (fails : Bool) (key other val : Text) (t t' : Table)
    → set_setting fails key val t ≡ some t'
    → get_setting false other t' ≡ (if key == other then found val else get_setting false other t)
unfolding get_setting set_setting
get-set fails key other val t t' e = ground (arith, e, lookup-insert key other val t)
