-- ===== src/Scenarios/Routes.antt =====
-- Two routing rules and two rewriting rules, on requests for an API.
use proxy_sentinel.Base.Int.{pos}
use proxy_sentinel.Base.Map
use proxy_sentinel.Base.Text.{bytes, has_prefix, trim_space, trim_prefix, trim_suffix}
use proxy_sentinel.Base.{◌≡◌, ◌↔◌, inl, inr, refl, false, List, [], ◌∷◌, none, some, list_beq}
use proxy_sentinel.Net.Header
use proxy_sentinel.Net.Addr.{split_host}
use proxy_sentinel.Storage.{WeightedBackend, RouteRule, RewriteRule}
use proxy_sentinel.Proxy.Rules.{
  RuleInput, bad_path, rule_hits, match_rules, match_request, validate_rules, check_rules,
  check_rule, known_urls, is_known,
}
use proxy_sentinel.Proxy.Rules.Order.{FirstHit, match_request_iff}
use proxy_sentinel.Proxy.Rules.Validity.{FirstBad, validate_rules-FirstBad}
use proxy_sentinel.Proxy.Rewrite.{
  rewrite_hits, apply_rewrite, validate_rewrites, check_rewrites, check_rewrite,
}
use proxy_sentinel.Proxy.Rewrite.Laws.{apply_rewrite_first}

abbrev backends : List WeightedBackend
backends =
    record { url = bytes "http://a"; weight = pos 1; health_path = [] }
    ∷ record { url = bytes "http://b"; weight = pos 1; health_path = [] }
    ∷ []

-- Testers go to b, the API goes to a.
abbrev rules : List RouteRule
rules =
    record {
      type = bytes "header";
      key = bytes "X-Tier";
      value = bytes "beta";
      backend = bytes "http://b";
    }
    ∷ record { type = bytes "path"; key = []; value = bytes "/api"; backend = bytes "http://a" }
    ∷ []

-- A path that does not start with "/" is refused.
abbrev broken_rules : List RouteRule
broken_rules =
    record { type = bytes "path"; key = []; value = bytes "api"; backend = bytes "http://a" } ∷ []

abbrev request : RuleInput
request = record { header_get = Header.get []; cookies = []; stripped_path = bytes "/api/users" }

abbrev strip_api : RewriteRule
strip_api = record { prefix = bytes "/api"; replacement = []; backend = [] }

abbrev only_b : RewriteRule
only_b = record { prefix = bytes "/api"; replacement = bytes "/v2"; backend = bytes "http://b" }

routed : match_request request (some rules) ≡ some (bytes "http://a")
unfolding match_request match_rules rule_hits has_prefix Header.get Map.lookup list_beq
routed = refl

accepted : validate_rules rules backends ≡ none
unfolding validate_rules check_rules check_rule is_known known_urls has_prefix trim_space Map.lookup
    Map.insert list_beq
accepted = refl

refused : validate_rules broken_rules backends ≡ some (record { position = 1; fault = bad_path })
unfolding validate_rules check_rules check_rule is_known known_urls has_prefix Map.lookup Map.insert
    list_beq
refused = refl

match_request_iff_example :
    (match_request request (some rules) ≡ some (bytes "http://a"))
    ↔ FirstHit request rules (bytes "http://a")
match_request_iff_example = match_request_iff request rules (bytes "http://a")

validate_rules-FirstBad_example :
    FirstBad backends 0 broken_rules (record { position = 1; fault = bad_path })
validate_rules-FirstBad_example =
    validate_rules-FirstBad broken_rules backends (record { position = 1; fault = bad_path })
      refused

b_misses : rewrite_hits (bytes "/api/users") (bytes "http://a") only_b ≡ false
unfolding rewrite_hits list_beq
b_misses = refl

apply_rewrite_first_example :
    apply_rewrite (some (only_b ∷ strip_api ∷ [])) (bytes "/api/users") (bytes "http://a")
    ≡ bytes "/users"
apply_rewrite_first_example =
    apply_rewrite_first (bytes "http://a") (bytes "/users") (only_b ∷ []) strip_api []
      (b_misses, tt) (inr (bytes "users", refl)) (inl refl)

rewrites_accepted : validate_rewrites (only_b ∷ strip_api ∷ []) backends ≡ none
unfolding validate_rewrites check_rewrites check_rewrite is_known known_urls has_prefix Map.lookup
    Map.insert list_beq
rewrites_accepted = refl

base_bare : trim_suffix (bytes "/") (bytes "/base") ≡ bytes "/base"
unfolding trim_suffix trim_prefix has_prefix
base_bare = refl

path_bare : trim_prefix (bytes "/") (bytes "users") ≡ bytes "users"
unfolding trim_prefix has_prefix
path_bare = refl

trims : trim_space (bytes " \t a b \n") ≡ bytes "a b"
unfolding trim_space
trims = refl

canonical_id : Header.canonical (bytes "x-request-ID") ≡ bytes "X-Request-Id"
unfolding Header.canonical
canonical_id = refl

v4_host : split_host (bytes "10.0.0.7:51234") ≡ some (bytes "10.0.0.7")
unfolding split_host
v4_host = refl

v6_host : split_host (bytes "[::1]:51234") ≡ some (bytes "::1")
unfolding split_host
v6_host = refl

no_port : split_host (bytes "::1") ≡ none
unfolding split_host
no_port = refl
