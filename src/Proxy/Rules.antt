-- ===== src/Proxy/Rules.antt =====
-- Routing rules: internal/proxy/rules.go. `header.Get` and the request's cookies come from net/http
-- and are arguments.
pub mod Order
pub mod Validity
use proxy_sentinel.Base.Map
use proxy_sentinel.Base.Text.{Text, bytes, has_prefix, trim_space}
use proxy_sentinel.Base.{
  ℕ, suc, ◌+◌, Bool, true, false, not, ◌&&◌, ◌||◌, List, [], ◌∷◌, Option, none, some, ◌==◌, nat_eq,
  list_eq, if◌then◌else◌, any,
}
use proxy_sentinel.Storage.{WeightedBackend, RouteRule}

-- Why a rule is refused. The messages carry the same words.
pub data RuleFault : Type 0 where
  missing_key empty_value bad_path bad_type unknown_backend : RuleFault

-- The error names the rule by its position, from 1.
pub record RuleError : Type 0 where
  pub position : ℕ
  pub fault : RuleFault

-- `known`, the set of configured addresses.
unfoldable pub known_urls : List (Text × Bool) → List WeightedBackend → List (Text × Bool)
known_urls m [] = m
known_urls m (b ∷ bs) = known_urls (Map.insert b.url true m) bs

unfoldable pub is_known : List (Text × Bool) → Text → Bool
is_known m url = elim (Map.lookup url m) [ none ↦ false | some k ↦ k ]

check_backend : List (Text × Bool) → RouteRule → Option RuleFault
check_backend m r = if is_known m r.backend then none else some unknown_backend

-- The body of the loop of `ValidateRules`.
unfoldable pub check_rule : List (Text × Bool) → RouteRule → Option RuleFault
unfolding check_backend
check_rule m r =
    if r.type == bytes "header" || r.type == bytes "cookie"
    then (if trim_space r.key == []
        then some missing_key
        else if r.value == []
        then some empty_value
        else check_backend m r)
    else if r.type == bytes "path"
    then (if not (has_prefix (bytes "/") r.value) then some bad_path else check_backend m r)
    else some bad_type

unfoldable pub check_rules : List (Text × Bool) → ℕ → List RouteRule → Option RuleError
check_rules m i [] = none
check_rules m i (r ∷ rs) =
    let rest = check_rules m (i + 1) rs in
    elim (check_rule m r) [ none ↦ rest | some f ↦ some (record { position = i + 1; fault = f }) ]

-- `none` is the nil error.
unfoldable pub validate_rules : List RouteRule → List WeightedBackend → Option RuleError
validate_rules rules backends = check_rules (known_urls [] backends) 0 rules

-- What a rule sees of a request.
pub record RuleInput : Type 0 where
  pub header_get : Text → Text
  pub cookies : List (Text × Text)
  pub stripped_path : Text

unfoldable pub rule_hits : RuleInput → RouteRule → Bool
rule_hits q r =
    if r.type == bytes "header"
    then q.header_get r.key == r.value
    else if r.type == bytes "cookie"
    then any (λ c. c.0 == r.key && c.1 == r.value) q.cookies
    else if r.type == bytes "path"
    then has_prefix r.value q.stripped_path
    else false

unfoldable pub match_rules : RuleInput → List RouteRule → Option Text
match_rules q [] = none
match_rules q (r ∷ rs) =
    let rest = match_rules q rs in if rule_hits q r then some r.backend else rest

-- `Match`; a nil matcher hits nothing.
unfoldable pub match_request : RuleInput → Option (List RouteRule) → Option Text
match_request q none = none
match_request q (some rules) = match_rules q rules
