-- ===== src/Proxy/Rules/Order.antt =====
-- The order of the rules is their priority.
use proxy_sentinel.Base.Text.{Text}
use proxy_sentinel.Base.{
  ◌≡◌, refl, true, false, List, [], ◌∷◌, ◌++◌, some, arith, All, Bool-cases, inl, inr, ◌↔◌,
}
use proxy_sentinel.Storage.{RouteRule}
use proxy_sentinel.Proxy.Rules.{RuleInput, rule_hits, match_rules, match_request}

-- The first rule that hits, with the rules in front of it, none of which hits.
pub record FirstHit (q : RuleInput) (rules : List RouteRule) (url : Text) : Type 0 where
  pub before : List RouteRule
  pub rule : RouteRule
  pub after : List RouteRule
  pub split : rules ≡ before ++ rule ∷ after
  pub misses : All (λ r. rule_hits q r ≡ false) before
  pub hits : rule_hits q rule ≡ true
  pub target : rule.backend ≡ url

FirstHit-cons :
    (q : RuleInput) (r : RouteRule) (rules : List RouteRule) (url : Text)
    → rule_hits q r ≡ false
    → FirstHit q rules url
    → FirstHit q (r ∷ rules) url
FirstHit-cons q r rules url miss f = record {
  before = r ∷ f.before;
  rule = f.rule;
  after = f.after;
  split = ground (arith, f.split);
  misses = (miss, f.misses);
  hits = f.hits;
  target = f.target;
}

match_rules-FirstHit :
    (q : RuleInput) (rules : List RouteRule) (url : Text)
    → match_rules q rules ≡ some url
    → FirstHit q rules url
unfolding match_rules
match_rules-FirstHit q [] url e = cc
match_rules-FirstHit q (r ∷ rules) url e = elim (Bool-cases (rule_hits q r)) [
  | inl hit ↦ record {
    before = [];
    rule = r;
    after = rules;
    split = refl;
    misses = tt;
    hits = hit;
    target = ground (arith, hit, e);
  }
  | inr miss ↦
      FirstHit-cons q r rules url miss (match_rules-FirstHit q rules url (ground (arith, miss, e)))
]

match_rules_first :
    (q : RuleInput) (before : List RouteRule) (r : RouteRule) (after : List RouteRule)
    → All (λ x. rule_hits q x ≡ false) before
    → rule_hits q r ≡ true
    → match_rules q (before ++ r ∷ after) ≡ some r.backend
unfolding match_rules
match_rules_first q [] r after misses hit = rw hit
match_rules_first q (x ∷ before) r after (miss, misses) hit =
    rw miss (match_rules_first q before r after misses hit)

-- A request is routed to an address exactly when some rule hits it, no rule in front of that one
-- does, and the address is that rule's backend.
pub match_request_iff :
    (q : RuleInput) (rules : List RouteRule) (url : Text)
    → (match_request q (some rules) ≡ some url) ↔ FirstHit q rules url
unfolding match_request
match_request_iff q rules url = (
  match_rules-FirstHit q rules url,
  λ f. rw (f.split, ← f.target) (match_rules_first q f.before f.rule f.after f.misses f.hits),
)
