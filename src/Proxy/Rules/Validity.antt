-- ===== src/Proxy/Rules/Validity.antt =====
-- What validation promises of the rules that it lets through.
use proxy_sentinel.Base.Map
use proxy_sentinel.Base.Map.{lookup-insert}
use proxy_sentinel.Base.Affix.{text_eq_iff}
use proxy_sentinel.Base.Text.{Text, bytes, has_prefix, trim_space}
use proxy_sentinel.Base.{
  ℕ, ◌+◌, ◌≡◌, ◌≢◌, ◌↔◌, ◌⊎◌, inl, inr, refl, ◌∙◌, Bool, true, false, ◌||◌, List, [], ◌∷◌, ◌++◌,
  none, some, arith, ◌==◌, nat_eq, list_eq, All, Option-cases, length, list_beq,
}
use proxy_sentinel.Storage.{WeightedBackend, RouteRule}
use proxy_sentinel.Proxy.Balancer.Health.{listed}
use proxy_sentinel.Proxy.Rules.{
  RuleError, known_urls, is_known, check_rule, check_rules, validate_rules, RuleInput,
  match_request,
}
use proxy_sentinel.Proxy.Rules.Order.{match_request_iff}

is_known-known_urls :
    (u : Text) (m : List (Text × Bool)) (bs : List WeightedBackend)
    → is_known (known_urls m bs) u ≡ (listed u bs || is_known m u)
unfolding is_known listed known_urls
is_known-known_urls u m [] = refl
is_known-known_urls u m (b ∷ bs) =
    ground (arith, is_known-known_urls u (Map.insert b.url true m) bs, lookup-insert b.url u true m)

-- The set of known addresses is the list of backends.
pub is_known-listed :
    (u : Text) (bs : List WeightedBackend) → is_known (known_urls [] bs) u ≡ listed u bs
is_known-listed u bs = is_known-known_urls u [] bs ∙ (unfold is_known Map.lookup in ground arith)

abbrev IsNamedRule : RouteRule → Type 0
IsNamedRule r =
    ((r.type ≡ bytes "header") ⊎ (r.type ≡ bytes "cookie"))
    × (trim_space r.key ≢ [])
    × (r.value ≢ [])

abbrev IsPathRule : RouteRule → Type 0
IsPathRule r = (r.type ≡ bytes "path") × (has_prefix (bytes "/") r.value ≡ true)

-- A well-formed rule: a header or cookie rule with a name and a value, or a path rule whose prefix
-- starts with "/"; its backend is configured.
abbrev pub IsRule : List WeightedBackend → RouteRule → Type 0
IsRule bs r = (listed r.backend bs ≡ true) × (IsNamedRule r ⊎ IsPathRule r)

path_ne_header : (bytes "path" == bytes "header") ≡ false
unfolding list_beq
path_ne_header = refl

path_ne_cookie : (bytes "path" == bytes "cookie") ≡ false
unfolding list_beq
path_ne_cookie = refl

check_rule-IsRule :
    (bs : List WeightedBackend) (r : RouteRule)
    → (check_rule (known_urls [] bs) r ≡ none) ↔ IsRule bs r
unfolding check_rule
check_rule-IsRule bs r = (
  λ h. ground (
    arith,
    is_known-listed r.backend bs,
    text_eq_iff r.type (bytes "header"),
    text_eq_iff r.type (bytes "cookie"),
    text_eq_iff r.type (bytes "path"),
    text_eq_iff (trim_space r.key) [],
    text_eq_iff r.value [],
  ),
  λ h. ground (
    arith,
    is_known-listed r.backend bs,
    text_eq_iff r.type (bytes "header"),
    text_eq_iff r.type (bytes "cookie"),
    text_eq_iff r.type (bytes "path"),
    text_eq_iff (trim_space r.key) [],
    text_eq_iff r.value [],
    path_ne_header,
    path_ne_cookie,
  ),
)

check_rules-none :
    (bs : List WeightedBackend) (i : ℕ) (rules : List RouteRule)
    → (check_rules (known_urls [] bs) i rules ≡ none) ↔ All (IsRule bs) rules
unfolding check_rules
check_rules-none bs i [] = (λ h. tt, λ h. refl)
check_rules-none bs i (r ∷ rules) = (
  λ h. (
    (check_rule-IsRule bs r).0 (ground (arith, h)),
    (check_rules-none bs (i + 1) rules).0 (ground (arith, h)),
  ),
  λ (h, hs). ground (arith, (check_rule-IsRule bs r).1 h, (check_rules-none bs (i + 1) rules).1 hs),
)

-- Validation accepts a list of rules exactly when every rule is well formed.
validate_rules_iff :
    (rules : List RouteRule) (bs : List WeightedBackend)
    → (validate_rules rules bs ≡ none) ↔ All (IsRule bs) rules
unfolding validate_rules
validate_rules_iff rules bs = check_rules-none bs 0 rules

-- The error stands for the first rule that is not well formed, at the position that it names.
pub record FirstBad (bs : List WeightedBackend) (i : ℕ) (rules : List RouteRule) (e : RuleError)
    : Type 0 where
  pub before : List RouteRule
  pub rule : RouteRule
  pub after : List RouteRule
  pub split : rules ≡ before ++ rule ∷ after
  pub well_formed : All (IsRule bs) before
  pub refused : check_rule (known_urls [] bs) rule ≡ some e.fault
  pub place : e.position ≡ i + length before + 1

check_rules-FirstBad :
    (bs : List WeightedBackend) (i : ℕ) (rules : List RouteRule) (e : RuleError)
    → check_rules (known_urls [] bs) i rules ≡ some e
    → FirstBad bs i rules e
unfolding check_rules
check_rules-FirstBad bs i [] e h = cc
check_rules-FirstBad bs i (r ∷ rules) e h = elim (Option-cases (check_rule (known_urls [] bs) r)) [
  | inl good ↦
      let f = check_rules-FirstBad bs (i + 1) rules e (ground (arith, good, h)) in
      record {
        before = r ∷ f.before;
        rule = f.rule;
        after = f.after;
        split = ground (arith, f.split);
        well_formed = ((check_rule-IsRule bs r).0 good, f.well_formed);
        refused = f.refused;
        place = omega (arith, f.place);
      }
  | inr (fault, bad) ↦ record {
    before = [];
    rule = r;
    after = rules;
    split = refl;
    well_formed = tt;
    refused = ground (arith, bad, h);
    place = ground (arith, bad, h);
  }
]

-- When validation fails, the rules in front of the position that the error names are well formed, and
-- the rule at that position is refused with the fault that the error names.
pub validate_rules-FirstBad :
    (rules : List RouteRule) (bs : List WeightedBackend) (e : RuleError)
    → validate_rules rules bs ≡ some e
    → FirstBad bs 0 rules e
unfolding validate_rules
validate_rules-FirstBad rules bs e h = check_rules-FirstBad bs 0 rules e h

All-split :
    (P : RouteRule → Type 0) (before : List RouteRule) (r : RouteRule) (after : List RouteRule)
    → All P (before ++ r ∷ after)
    → P r
All-split P [] r after h = h.0
All-split P (x ∷ before) r after h = All-split P before r after h.1

-- A request that a validated list of rules routes goes to a configured backend.
match_request-listed :
    (q : RuleInput) (rules : List RouteRule) (bs : List WeightedBackend) (url : Text)
    → validate_rules rules bs ≡ none
    → match_request q (some rules) ≡ some url
    → listed url bs ≡ true
match_request-listed q rules bs url valid hit =
    let f = (match_request_iff q rules url).0 hit in
    let ok =
      All-split (IsRule bs) f.before f.rule f.after
        (rw f.split at ((validate_rules_iff rules bs).0 valid)) in
    rw (← f.target) ok.0
