-- ===== src/Api/Settings.antt =====
-- The handler updateBackends of internal/api/settings.go, over the settings table, the balancer and the
-- rules of the proxy's handler. The request's JSON, url.Parse, the encodings and the errors of the database
-- are arguments; the texts of the answers are left out.
pub mod Accepted
pub mod Applied
pub mod Serving
pub mod Stored
use proxy_sentinel.Base.Int.{ℤ, pos, ltb_ℤ}
use proxy_sentinel.Base.Map
use proxy_sentinel.Base.Text.{Text, bytes, has_prefix, trim_space}
use proxy_sentinel.Base.{
  ℕ, Bool, true, false, not, ◌&&◌, ◌||◌, List, [], ◌∷◌, ◌++◌, Option, none, some, ◌==◌, nat_eq,
  list_eq, if◌then◌else◌, length, any,
}
use proxy_sentinel.Storage.{WeightedBackend, RouteRule, RewriteRule}
use proxy_sentinel.Storage.Settings.{
  Table, Codec, set_setting, set_setting_backends, set_setting_rules, set_setting_rewrites,
  setting_strategy,
}
use proxy_sentinel.Proxy.Balancer.{DynamicBalancer, set_backends, set_strategy}
use proxy_sentinel.Proxy.Rules.{validate_rules, is_known}
use proxy_sentinel.Proxy.Rewrite.{validate_rewrites}
use proxy_sentinel.Proxy.Handler.{Handler, set_rules, set_rewrites, load_rules, load_rewrites}
use proxy_sentinel.Api.Login.{Audit}

pub record UpdateBackendsRequest : Type 0 where
  pub backends : List WeightedBackend
  pub strategy : Text
  pub rules : Option (List RouteRule)
  pub rewrites : Option (List RewriteRule)

-- Which of the four writes report an error.
pub record Faults : Type 0 where
  pub backends : Bool
  pub strategy : Bool
  pub rules : Bool
  pub rewrites : Bool

pub record Call : Type 0 where
  pub current : Text
  pub ip : Text
  pub parse_url : Text → Option (Text × Text)  -- the scheme and the host, `none` for an error
  pub codec : Codec
  pub faults : Faults

pub record Site : Type 0 where
  pub table : Table
  pub handler : Handler
  pub audits : List Audit

is_address : Option (Text × Text) → Bool
is_address none = false
is_address (some (scheme, host)) = not (scheme == []) && not (host == [])

-- The fields of one backend, with the space around them removed.
unfoldable pub trimmed : WeightedBackend → WeightedBackend
trimmed b = record {
  url = trim_space b.url;
  weight = b.weight;
  health_path = trim_space b.health_path;
}

-- The tests on a backend that has an address, with the addresses seen so far.
unfoldable pub is_acceptable :
    (Text → Option (Text × Text)) → List (Text × Bool) → WeightedBackend → Bool
unfolding is_address
is_acceptable parse seen b =
    not (is_known seen b.url)
    && is_address (parse b.url)
    && not (ltb_ℤ b.weight (pos 0) || ltb_ℤ (pos 100) b.weight)
    && not (not (b.health_path == []) && not (has_prefix (bytes "/") b.health_path))

-- The loop over the backends; `none` is the answer 400. An empty address is left out.
unfoldable pub check_backends :
    (Text → Option (Text × Text))
    → List (Text × Bool)
    → List WeightedBackend
    → Option (List WeightedBackend)
check_backends parse seen [] = some []
check_backends parse seen (x ∷ xs) =
    let b = trimmed x in
    let skip = b.url == [] in
    let rest = check_backends parse (if skip then seen else Map.insert b.url true seen) xs in
    if skip
    then rest
    else if not (is_acceptable parse seen b)
    then none
    else elim rest [ none ↦ none | some bs ↦ some (b ∷ bs) ]

-- The strategy of the request, or the one in force; `none` is the answer 400.
unfoldable pub choose_strategy : Text → Text → Option Text
choose_strategy current asked =
    if asked == []
    then some current
    else if not (asked == bytes "round_robin")
        && not (asked == bytes "random")
        && not (asked == bytes "weighted")
    then none
    else some asked

unfoldable pub has_weight : List WeightedBackend → Bool
has_weight bs = any (λ b. ltb_ℤ (pos 0) b.weight) bs

unfoldable pub rules_pass : Option (List RouteRule) → List WeightedBackend → Bool
rules_pass none bs = true
rules_pass (some rules) bs = elim (validate_rules rules bs) [ none ↦ true | some e ↦ false ]

unfoldable pub rewrites_pass : Option (List RewriteRule) → List WeightedBackend → Bool
rewrites_pass none bs = true
rewrites_pass (some rules) bs = elim (validate_rewrites rules bs) [ none ↦ true | some e ↦ false ]

-- The request after all its checks: the backends and the strategy; `none` is the answer 400.
unfoldable pub accept :
    (Text → Option (Text × Text))
    → Text
    → UpdateBackendsRequest
    → Option (List WeightedBackend × Text)
accept parse current q = elim (check_backends parse [] q.backends) [
  | none ↦ none
  | some bs ↦ elim (choose_strategy current q.strategy) [
    | none ↦ none
    | some strategy ↦
        if length bs == 0
          || (strategy == bytes "weighted" && not (has_weight bs))
          || not (rules_pass q.rules bs)
          || not (rewrites_pass q.rewrites bs)
        then none
        else some (bs, strategy)
  ]
]

-- The four writes, one after another; the table is what the writes before an error have made of it.
store_rewrites : Call → Option (List RewriteRule) → Table → Bool × Table
store_rewrites c none t = (true, t)
store_rewrites c (some rules) t = elim (set_setting_rewrites c.codec c.faults.rewrites rules t) [
  | none ↦ (false, t)
  | some t' ↦ (true, t')
]

store_rules : Call → Option (List RouteRule) → Table → Bool × Table
store_rules c none t = (true, t)
store_rules c (some rules) t = elim (set_setting_rules c.codec c.faults.rules rules t) [
  | none ↦ (false, t)
  | some t' ↦ (true, t')
]

infixl 5 ◌and_then◌
-- Go on with the next write if the last one has worked.
abbrev ◌and_then◌ : Bool × Table → (Table → Bool × Table) → Bool × Table
(true, t) and_then next = next t
(false, t) and_then next = (false, t)

abbrev written : Option Table → Table → Bool × Table
written none old = (false, old)
written (some new) old = (true, new)

unfoldable pub store :
    Call → List WeightedBackend → Text → UpdateBackendsRequest → Table → Bool × Table
unfolding store_rules store_rewrites
store c bs strategy q t =
    written (set_setting_backends c.codec c.faults.backends bs t) t
    and_then (λ t1. written (set_setting c.faults.strategy setting_strategy strategy t1) t1)
    and_then (λ t2. store_rules c q.rules t2)
    and_then (λ t3. store_rewrites c q.rewrites t3)

-- The pointers of the request that are not nil replace what is in force.
unfoldable pub apply_rules_of : UpdateBackendsRequest → Handler → Handler
apply_rules_of q h =
    let h1 : Handler = elim q.rules [ none ↦ h | some rules ↦ set_rules (some rules) h ] in
    elim q.rewrites [ none ↦ h1 | some rules ↦ set_rewrites (some rules) h1 ]

-- The balancer and the rules at run time; `none` is the error of an unknown strategy.
unfoldable pub apply :
    List WeightedBackend → Text → UpdateBackendsRequest → Handler → Bool × Handler
apply bs strategy q h =
    let b = set_backends bs h.balancer in
    elim (set_strategy strategy b) [
      | none ↦ (false, record h { balancer = b })
      | some b' ↦ (true, apply_rules_of q (record h { balancer = b' }))
    ]

unfoldable pub update_backends : Call → Option UpdateBackendsRequest → Site → ℕ × Site
update_backends c none s = (400, s)
update_backends c (some q) s = elim (accept c.parse_url s.handler.balancer.strategy q) [
  | none ↦ (400, s)
  | some (bs, strategy) ↦
      let (stored, table) = store c bs strategy q s.table in
      if not stored
      then (500, record s { table = table })
      else let (applied, h) = apply bs strategy q s.handler in
        if not applied then (500, record s { table = table; handler = h }) else (
          200,
          record {
            table = table;
            handler = h;
            audits =
                s.audits
                ++ record {
                  username = c.current;
                  action = bytes "settings_backends_updated";
                  ip = c.ip;
                }
                  ∷ [];
          },
        )
]
