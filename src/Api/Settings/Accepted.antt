-- ===== src/Api/Settings/Accepted.antt =====
-- What the checks of updateBackends promise of the backends and the rules that they let through.
use mathlib.Core.Path.{subst}
use proxy_sentinel.Base.Int.{pos, ◌≤ℤ◌}
use proxy_sentinel.Base.Map
use proxy_sentinel.Base.Map.{lookup-insert}
use proxy_sentinel.Base.Affix.{text_eq_iff}
use proxy_sentinel.Base.Text.{Text, bytes}
use proxy_sentinel.Base.{
  ◌<◌, ◌≡◌, ◌≢◌, ◌⊎◌, inl, inr, Bool, true, false, not, ◌&&◌, List, [], ◌∷◌, Option, none, some,
  arith, ◌==◌, nat_eq, list_eq, length, All, All_map, Bool-cases, Option-cases,
}
use proxy_sentinel.Storage.{WeightedBackend, RouteRule, RewriteRule}
use proxy_sentinel.Proxy.Balancer.{is_strategy}
use proxy_sentinel.Proxy.Rules.{validate_rules, is_known}
use proxy_sentinel.Proxy.Rewrite.{validate_rewrites}
use proxy_sentinel.Api.Settings.{
  UpdateBackendsRequest, trimmed, is_acceptable, check_backends, choose_strategy, has_weight,
  rules_pass, rewrites_pass, accept,
}

-- One backend: it has an address, and a weight from 0 to 100.
abbrev pub IsBackend : WeightedBackend → Type 0
IsBackend b = (b.url ≢ []) × (pos 0 ≤ℤ b.weight) × (b.weight ≤ℤ pos 100)

-- No address stands twice.
unfoldable pub AllDiffer : List WeightedBackend → Type 0
AllDiffer [] = Unit
AllDiffer (b ∷ bs) = All (λ x. x.url ≢ b.url) bs × AllDiffer bs

-- The addresses that come later are none that were seen.
abbrev IsUnseen : List (Text × Bool) → List WeightedBackend → Type 0
IsUnseen seen bs = All (λ b. is_known seen b.url ≡ false) bs

is_known-insert :
    (u v : Text) (m : List (Text × Bool))
    → is_known (Map.insert u true m) v ≡ false
    → (v ≢ u) × (is_known m v ≡ false)
unfolding is_known
is_known-insert u v m h = (
  (λ e. ground (arith, h, lookup-insert u v true m, text_eq_iff u v, e)),
  ground (arith, h, lookup-insert u v true m),
)

is_acceptable-IsBackend :
    (parse : Text → Option (Text × Text)) (seen : List (Text × Bool)) (b : WeightedBackend)
    → (b.url == []) ≡ false
    → is_acceptable parse seen b ≡ true
    → IsBackend b × (is_known seen b.url ≡ false)
unfolding is_acceptable
is_acceptable-IsBackend parse seen b full h = (
  ((λ e. ground (arith, full, text_eq_iff b.url [], e)), ground (arith, h), ground (arith, h)),
  ground (arith, h),
)

abbrev IsChecked : List (Text × Bool) → List WeightedBackend → Type 0
IsChecked seen bs = All IsBackend bs × AllDiffer bs × IsUnseen seen bs

check_backends_lem :
    (parse : Text → Option (Text × Text)) (seen : List (Text × Bool)) (xs bs : List WeightedBackend)
    → check_backends parse seen xs ≡ some bs
    → IsChecked seen bs
unfolding check_backends AllDiffer
check_backends_lem parse seen [] bs e =
    let none_left : [] ≡ bs = ground (arith, e) in subst (IsChecked seen) none_left (tt, tt, tt)
check_backends_lem parse seen (x ∷ xs) bs e = elim (Bool-cases ((trimmed x).url == [])) [
  | inl skip ↦ check_backends_lem parse seen xs bs (ground (arith, skip, e))
  | inr full ↦ elim (Bool-cases (is_acceptable parse seen (trimmed x))) [
    | inr bad ↦ absurd (ground (arith, full, bad, e))
    | inl good ↦
        elim (Option-cases (check_backends parse (Map.insert (trimmed x).url true seen) xs)) [
          | inl refused ↦ absurd (ground (arith, full, good, refused, e))
          | inr (rest, checked) ↦
              let b = trimmed x in
              let same : b ∷ rest ≡ bs = ground (arith, full, good, checked, e) in
              let (backends, differ, unseen) =
                check_backends_lem parse (Map.insert b.url true seen) xs rest checked in
              let (it, new) = is_acceptable-IsBackend parse seen b full good in
              subst (IsChecked seen) same (
                (it, backends),
                (
                  All_map (λ y. is_known (Map.insert b.url true seen) y.url ≡ false)
                      (λ y. y.url ≢ b.url) rest (λ y h. (is_known-insert b.url y.url seen h).0)
                      unseen,
                  differ,
                ),
                (
                  new,
                  All_map (λ y. is_known (Map.insert b.url true seen) y.url ≡ false)
                      (λ y. is_known seen y.url ≡ false) rest
                      (λ y h. (is_known-insert b.url y.url seen h).1) unseen,
                ),
              )
        ]
  ]
]

-- What a request that passes all the checks asks for.
pub record IsAccepted (current : Text) (q : UpdateBackendsRequest) (bs : List WeightedBackend)
    (strategy : Text) : Type 0 where
  pub nonempty : 0 < length bs
  pub backends : All IsBackend bs
  pub differ : AllDiffer bs
  pub known : (strategy ≡ current) ⊎ (is_strategy strategy ≡ true)
  pub weighted : strategy ≡ bytes "weighted" → has_weight bs ≡ true
  pub rules : (rules : List RouteRule) → q.rules ≡ some rules → validate_rules rules bs ≡ none
  pub rewrites :
      (rules : List RewriteRule) → q.rewrites ≡ some rules → validate_rewrites rules bs ≡ none

choose_strategy_lem :
    (current asked strategy : Text)
    → choose_strategy current asked ≡ some strategy
    → (strategy ≡ current) ⊎ (is_strategy strategy ≡ true)
unfolding choose_strategy is_strategy
choose_strategy_lem current asked strategy e = ground (arith, e)

rules_pass_lem :
    (q : UpdateBackendsRequest) (rules : List RouteRule) (bs : List WeightedBackend)
    → rules_pass q.rules bs ≡ true
    → q.rules ≡ some rules
    → validate_rules rules bs ≡ none
unfolding rules_pass
rules_pass_lem q rules bs h e = elim (Option-cases (validate_rules rules bs)) [
  | inl valid ↦ valid
  | inr (fault, bad) ↦ absurd (ground (arith, h, e, bad))
]

rewrites_pass_lem :
    (q : UpdateBackendsRequest) (rules : List RewriteRule) (bs : List WeightedBackend)
    → rewrites_pass q.rewrites bs ≡ true
    → q.rewrites ≡ some rules
    → validate_rewrites rules bs ≡ none
unfolding rewrites_pass
rewrites_pass_lem q rules bs h e = elim (Option-cases (validate_rewrites rules bs)) [
  | inl valid ↦ valid
  | inr (fault, bad) ↦ absurd (ground (arith, h, e, bad))
]

pub accept-IsAccepted :
    (parse : Text → Option (Text × Text)) (current : Text) (q : UpdateBackendsRequest)
    (bs : List WeightedBackend) (strategy : Text)
    → accept parse current q ≡ some (bs, strategy)
    → IsAccepted current q bs strategy
unfolding accept
accept-IsAccepted parse current q bs strategy e =
    elim (Option-cases (check_backends parse [] q.backends)) [
      | inl refused ↦ absurd (ground (arith, refused, e))
      | inr (bs', checked) ↦ elim (Option-cases (choose_strategy current q.strategy)) [
        | inl unknown ↦ absurd (ground (arith, checked, unknown, e))
        | inr (strategy', chosen) ↦
            let same : bs' ≡ bs = ground (arith, checked, chosen, e) in
            let same' : strategy' ≡ strategy = ground (arith, checked, chosen, e) in
            let tests : ((length bs' == 0) ≡ false)
                × ((strategy' == bytes "weighted" && not (has_weight bs')) ≡ false)
                × (rules_pass q.rules bs' ≡ true)
                × (rewrites_pass q.rewrites bs' ≡ true) =
              ground (arith, checked, chosen, e) in
            let (backends, differ, unseen) = check_backends_lem parse [] q.backends bs' checked in
            subst (IsAccepted current q bs) same' (
              subst (λ x. IsAccepted current q x strategy') same
                (record {
                  nonempty = ground (arith, tests.0);
                  backends = backends;
                  differ = differ;
                  known = choose_strategy_lem current q.strategy strategy' chosen;
                  weighted =
                      λ k. ground (arith, tests.1, k, text_eq_iff strategy' (bytes "weighted"));
                  rules = λ rules given. rules_pass_lem q rules bs' tests.2 given;
                  rewrites = λ rules given. rewrites_pass_lem q rules bs' tests.3 given;
                }))
      ]
    ]
