-- ===== src/Scenarios/Settings.antt =====
-- A change of the settings that is stored and applied, with an encoding of the few values that it writes.
use proxy_sentinel.Base.Affix.{text_eq_iff}
use proxy_sentinel.Base.Int.{pos, negsuc}
use proxy_sentinel.Base.Map
use proxy_sentinel.Base.Text.{Text, bytes, has_prefix, trim_space}
use proxy_sentinel.Base.{
  ℕ, ◌-◌, ◌^◌, ◌<◌, ◌≡◌, refl, false, true, ◌&&◌, List, [], ◌∷◌, Option, none, some, arith,
  list_beq, ◌==◌, nat_eq, list_eq, if◌then◌else◌, length,
}
use proxy_sentinel.Storage.{WeightedBackend, RouteRule, RewriteRule}
use proxy_sentinel.Storage.Settings.{
  Codec, IsCodec, get_setting, set_setting, set_setting_backends, set_setting_rules,
  set_setting_rewrites, get_setting_rules, get_setting_rewrites,
}
use proxy_sentinel.Proxy.Balancer.{set_backends, set_strategy, is_strategy, next}
use proxy_sentinel.Proxy.Balancer.Weighted.{PicksHealthy}
use proxy_sentinel.Proxy.Rules.{validate_rules, check_rules, is_known}
use proxy_sentinel.Proxy.Rewrite.{validate_rewrites, check_rewrites, check_rewrite}
use proxy_sentinel.Proxy.Handler.{Handler, set_rules, set_rewrites, load_rules, load_rewrites}
use proxy_sentinel.Api.Settings.{
  UpdateBackendsRequest, Call, Site, update_backends, accept, check_backends, is_acceptable,
  trimmed, choose_strategy, has_weight, rules_pass, rewrites_pass, store, apply, apply_rules_of,
}
use proxy_sentinel.Api.Settings.Serving.{update_backends_serves}
use proxy_sentinel.Start.{ProxyConfig, start_handler, or_nil}
use proxy_sentinel.Start.Restart.{RulesKept, IsRestored, sound, restart-IsRestored}

-- One backend of weight 1 without a path of its own is written as its address.
encode_backends : List WeightedBackend → Option Text
encode_backends [] = none
encode_backends (b ∷ []) = elim b.weight [
  | pos n ↦ if n == 1 && b.health_path == [] then some b.url else none
  | negsuc n ↦ none
]
encode_backends (b ∷ c ∷ bs) = none

abbrev plain : Text → WeightedBackend
plain url = record { url = url; weight = pos 1; health_path = [] }

encode_rules : List RouteRule → Option Text
encode_rules [] = some (bytes "[]")
encode_rules (r ∷ rs) = none

-- One rule that strips its prefix, for every backend, is written as that prefix.
encode_rewrites : List RewriteRule → Option Text
encode_rewrites [] = none
encode_rewrites (r ∷ []) = if r.replacement == [] && r.backend == [] then some r.prefix else none
encode_rewrites (r ∷ s ∷ rs) = none

abbrev stripping : Text → RewriteRule
stripping prefix = record { prefix = prefix; replacement = []; backend = [] }

abbrev codec : Codec
codec = record {
  marshal_backends = encode_backends;
  unmarshal_backends = λ v. some (some (plain v ∷ []));
  unmarshal_urls = λ v. none;
  marshal_rules = encode_rules;
  unmarshal_rules = λ v. if v == bytes "[]" then some [] else none;
  marshal_rewrites = encode_rewrites;
  unmarshal_rewrites = λ v. some (stripping v ∷ []);
}

decodes_backends :
    (bs : List WeightedBackend) (v : Text)
    → encode_backends bs ≡ some v
    → codec.unmarshal_backends v ≡ some (some bs)
unfolding encode_backends
decodes_backends [] v e = absurd (ground (arith, e))
decodes_backends (b ∷ []) v e = ground (arith, e, text_eq_iff b.health_path [])
decodes_backends (b ∷ c ∷ bs) v e = absurd (ground (arith, e))

decodes_rules :
    (rs : List RouteRule) (v : Text) → encode_rules rs ≡ some v → codec.unmarshal_rules v ≡ some rs
unfolding encode_rules
decodes_rules [] v e = ground (arith, e, text_eq_iff v (bytes "[]"))
decodes_rules (r ∷ rs) v e = absurd (ground (arith, e))

decodes_rewrites :
    (rs : List RewriteRule) (v : Text)
    → encode_rewrites rs ≡ some v
    → codec.unmarshal_rewrites v ≡ some rs
unfolding encode_rewrites
decodes_rewrites [] v e = absurd (ground (arith, e))
decodes_rewrites (r ∷ []) v e =
    ground (arith, e, text_eq_iff r.replacement [], text_eq_iff r.backend [])
decodes_rewrites (r ∷ s ∷ rs) v e = absurd (ground (arith, e))

codec-IsCodec : IsCodec codec
codec-IsCodec = record {
  backends = decodes_backends;
  rules = decodes_rules;
  rewrites = decodes_rewrites;
}

abbrev handler : Handler
handler = record {
  balancer = record { strategy = bytes "random"; backends = []; healthy = []; counter = 9 };
  has_logger = true;
  max_body = 16;
  max_upload = 64;
  log_max = 8;
  trust_xff = false;
  rules = some [];
  rewrites = some [];
}

abbrev site : Site
site = record { table = []; handler = handler; audits = [] }

abbrev call : Call
call = record {
  current = bytes "ann";
  ip = bytes "::1";
  parse_url = λ u. if u == bytes "http://a" then some (bytes "http", bytes "a") else none;
  codec = codec;
  faults = record { backends = false; strategy = false; rules = false; rewrites = false };
}

-- An empty address is left out, and the space around the other is removed.
abbrev request : UpdateBackendsRequest
request = record {
  backends = plain (bytes " http://a ") ∷ plain (bytes " ") ∷ [];
  strategy = bytes "weighted";
  rules = some [];
  rewrites = some (stripping (bytes "/api") ∷ []);
}

abbrev config : ProxyConfig
config = record {
  backends = bytes "http://z" ∷ [];
  strategy = bytes "round_robin";
  max_body = 16;
  max_upload = 64;
  log_max = 8;
  trust_xff = false;
}

is_updated :
    ((update_backends call (some request) site).0 ≡ 200)
    × (length (update_backends call (some request) site).1.handler.balancer.backends ≡ 1)
unfolding update_backends accept check_backends is_acceptable trimmed choose_strategy has_weight
    rules_pass rewrites_pass validate_rules check_rules validate_rewrites check_rewrites
    check_rewrite store set_setting_backends set_setting set_setting_rules set_setting_rewrites
    encode_backends encode_rules encode_rewrites apply set_backends set_strategy is_strategy
    apply_rules_of set_rules set_rewrites trim_space has_prefix Map.lookup list_beq is_known
is_updated = (refl, refl)

few : length (update_backends call (some request) site).1.handler.balancer.backends < 2 ^ 56
few = omega (arith, is_updated.1)

abbrev last_draw : ℕ → ℕ
last_draw n = n - 1

update_backends_serves_example :
    PicksHealthy
      (update_backends call (some request) site).1.handler.balancer.healthy
      (update_backends call (some request) site).1.handler.balancer.backends
      (next last_draw (update_backends call (some request) site).1.handler.balancer).0
update_backends_serves_example =
    update_backends_serves call request site last_draw is_updated.0 (λ n h. omega arith)
      (omega arith) few

kept : RulesKept codec [] handler
unfolding load_rules load_rewrites set_rules set_rewrites get_setting_rules get_setting_rewrites
    get_setting or_nil Map.lookup
kept = record { rules = refl; rewrites = refl }

restart-IsRestored_example :
    IsRestored
      (start_handler codec sound config (update_backends call (some request) site).1.table)
      (update_backends call (some request) site).1.handler
    × RulesKept codec
        (update_backends call (some request) site).1.table
        (update_backends call (some request) site).1.handler
restart-IsRestored_example =
    restart-IsRestored call request site config codec-IsCodec kept is_updated.0
