-- ===== src/Start/Restart.antt =====
-- A restart comes back to what updateBackends has put in force.
use proxy_sentinel.Base.Affix.{text_eq_iff}
use proxy_sentinel.Base.Text.{Text, bytes}
use proxy_sentinel.Base.{
  ◌<◌, ◌≡◌, ◌∙◌, sym, ap, refl, true, false, List, [], Option, none, some, arith, nat_eq, list_eq,
  length,
}
use proxy_sentinel.Storage.{WeightedBackend, RouteRule, RewriteRule}
use proxy_sentinel.Storage.Settings.{
  Table, Codec, IsCodec, found, get_setting, get_setting_backends, get_setting_rules,
  get_setting_rewrites, setting_strategy,
}
use proxy_sentinel.Proxy.Balancer.{
  new_balancer, normalize_strategy, is_strategy, mark_all, set_strategy, set_backends,
}
use proxy_sentinel.Proxy.Handler.{
  Handler, load_rules, load_rewrites, set_rules, set_rewrites, new_handler,
}
use proxy_sentinel.Api.Settings.{
  UpdateBackendsRequest, Call, Site, apply, update_backends, apply_rules_of,
}
use proxy_sentinel.Api.Settings.Applied.{update_backends-IsApplied, apply-balancer}
use proxy_sentinel.Api.Settings.Stored.{IsStored, store-IsStored}
use proxy_sentinel.Start.{
  ProxyConfig, ReadFaults, load_backends, load_strategy, or_nil, start_handler,
}

-- Reads that work.
abbrev pub sound : ReadFaults
sound = record { backends = false; strategy = false; rules = false; rewrites = false }

-- A start from the table makes the rules that are in force.
pub record RulesKept (c : Codec) (t : Table) (h : Handler) : Type 0 where
  pub rules : load_rules (set_rules (or_nil (get_setting_rules c false t)) h) ≡ load_rules h
  pub rewrites :
      load_rewrites (set_rewrites (or_nil (get_setting_rewrites c false t)) h) ≡ load_rewrites h

-- A handler that was started from the table routes like the one that is running.
pub record IsRestored (started running : Handler) : Type 0 where
  pub backends : started.balancer.backends ≡ running.balancer.backends
  pub strategy_ : started.balancer.strategy ≡ running.balancer.strategy
  pub health : started.balancer.healthy ≡ running.balancer.healthy
  pub rules : load_rules started ≡ load_rules running
  pub rewrites : load_rewrites started ≡ load_rewrites running

normalize_strategy_known : (s : Text) → is_strategy s ≡ true → normalize_strategy s ≡ s
unfolding normalize_strategy is_strategy
normalize_strategy_known s h = ground (
  arith,
  h,
  text_eq_iff s (bytes "round_robin"),
  text_eq_iff s (bytes "random"),
  text_eq_iff s (bytes "weighted"),
)

-- What `set_rules` leaves in force depends on its argument alone.
load_rules_set :
    (rules : Option (List RouteRule)) (h h' : Handler)
    → load_rules (set_rules rules h) ≡ load_rules (set_rules rules h')
unfolding load_rules set_rules
load_rules_set none h h' = refl
load_rules_set (some rules) h h' = refl

load_rewrites_set :
    (rules : Option (List RewriteRule)) (h h' : Handler)
    → load_rewrites (set_rewrites rules h) ≡ load_rewrites (set_rewrites rules h')
unfolding load_rewrites set_rewrites
load_rewrites_set none h h' = refl
load_rewrites_set (some rules) h h' = refl

start_handler-rules :
    (c : Codec) (f : ReadFaults) (cfg : ProxyConfig) (t : Table) (h : Handler)
    → load_rules (start_handler c f cfg t)
      ≡ load_rules (set_rules (or_nil (get_setting_rules c f.rules t)) h)
unfolding start_handler load_rules set_rules set_rewrites
start_handler-rules c f cfg t h = ground arith

start_handler-rewrites :
    (c : Codec) (f : ReadFaults) (cfg : ProxyConfig) (t : Table) (h : Handler)
    → load_rewrites (start_handler c f cfg t)
      ≡ load_rewrites (set_rewrites (or_nil (get_setting_rewrites c f.rewrites t)) h)
unfolding start_handler load_rewrites set_rewrites
start_handler-rewrites c f cfg t h = ground arith

start_handler-balancer :
    (c : Codec) (f : ReadFaults) (cfg : ProxyConfig) (t : Table)
    → (start_handler c f cfg t).balancer
      ≡ new_balancer
          (load_strategy f.strategy cfg.strategy t)
          (load_backends c f.backends cfg.backends t)
unfolding start_handler set_rules set_rewrites new_handler
start_handler-balancer c f cfg t = ground arith

-- What a change of the rules leaves in force.
applied_rules :
    (bs : List WeightedBackend) (strategy : Text) (q : UpdateBackendsRequest) (h h' : Handler)
    → apply bs strategy q h ≡ (true, h')
    → (load_rules h' ≡ (elim q.rules [ none ↦ load_rules h | some rules ↦ rules ]))
      × (load_rewrites h' ≡ (elim q.rewrites [ none ↦ load_rewrites h | some rules ↦ rules ]))
      × (is_strategy strategy ≡ true)
unfolding apply set_strategy set_backends apply_rules_of set_rules set_rewrites load_rules
    load_rewrites
applied_rules bs strategy q h h' e = (ground (arith, e), ground (arith, e), ground (arith, e))

load_backends_stored :
    (c : Codec) (urls : List Text) (t : Table) (bs : List WeightedBackend)
    → get_setting_backends c false t ≡ found bs
    → 0 < length bs
    → load_backends c false urls t ≡ bs
unfolding load_backends
load_backends_stored c urls t bs e some_ = ground (arith, e)

load_strategy_stored :
    (configured strategy : Text) (t : Table)
    → get_setting false setting_strategy t ≡ found strategy
    → is_strategy strategy ≡ true
    → load_strategy false configured t ≡ strategy
unfolding load_strategy is_strategy
load_strategy_stored configured strategy t e known = ground (
  arith,
  e,
  known,
  text_eq_iff strategy [],
  text_eq_iff strategy (bytes "round_robin"),
  text_eq_iff strategy (bytes "random"),
  text_eq_iff strategy (bytes "weighted"),
)

rules_restored :
    (c : Call) (bs : List WeightedBackend) (strategy : Text) (q : UpdateBackendsRequest)
    (t t' : Table) (h h' : Handler)
    → IsStored c bs strategy q t t'
    → RulesKept c.codec t h
    → apply bs strategy q h ≡ (true, h')
    → RulesKept c.codec t' h'
unfolding load_rules load_rewrites set_rules set_rewrites or_nil
rules_restored c bs strategy q t t' h h' st kept e =
    let (rules, rewrites, known) = applied_rules bs strategy q h h' e in
    record {
      rules = ground (arith, rules, st.rules, kept.rules);
      rewrites = ground (arith, rewrites, st.rewrites, kept.rewrites);
    }

new_balancer_lem :
    (strategy : Text) (bs : List WeightedBackend)
    → is_strategy strategy ≡ true
    → let b = new_balancer strategy bs in
      (b.strategy ≡ strategy) × (b.backends ≡ bs) × (b.healthy ≡ mark_all [] bs)
unfolding new_balancer
new_balancer_lem strategy bs known = (normalize_strategy_known strategy known, refl, refl)

-- After a change of the settings that is answered with 200, a restart whose reads work makes a handler that
-- routes as the running one: with its backends, strategy, health, rules and rewriting rules. It supposes
-- that JSON decodes what it encodes, and that the rules in force were those of the table before the change;
-- they are so again behind it.
pub restart-IsRestored :
    (c : Call) (q : UpdateBackendsRequest) (s : Site) (cfg : ProxyConfig)
    → IsCodec c.codec
    → RulesKept c.codec s.table s.handler
    → (update_backends c (some q) s).0 ≡ 200
    → let s' = (update_backends c (some q) s).1 in
      IsRestored (start_handler c.codec sound cfg s'.table) s'.handler
      × RulesKept c.codec s'.table s'.handler
restart-IsRestored c q s cfg codec kept ok =
    let s' = (update_backends c (some q) s).1 in
    let a = update_backends-IsApplied c q s ok in
    let st = store-IsStored c a.backends a.strategy q s.table s'.table codec a.stored in
    let again =
      rules_restored c a.backends a.strategy q s.table s'.table s.handler s'.handler st kept
        a.applied in
    let running = apply-balancer a.backends a.strategy q s.handler s'.handler a.applied in
    let known = (applied_rules a.backends a.strategy q s.handler s'.handler a.applied).2 in
    let urls =
      load_backends_stored c.codec cfg.backends s'.table a.backends st.backends
        a.accepted.nonempty in
    let chosen = load_strategy_stored cfg.strategy a.strategy s'.table st.strategy_ known in
    let started =
      start_handler-balancer c.codec sound cfg s'.table
      ∙ ap (λ x. new_balancer x (load_backends c.codec false cfg.backends s'.table)) chosen
      ∙ ap (new_balancer a.strategy) urls in
    let (same_strategy, same_backends, same_health) =
      new_balancer_lem a.strategy a.backends known in
    (
      record {
        backends =
            ap (λ b. b.backends) started ∙ same_backends ∙ sym (ap (λ b. b.backends) running);
        strategy_ =
            ap (λ b. b.strategy) started ∙ same_strategy ∙ sym (ap (λ b. b.strategy) running);
        health = ap (λ b. b.healthy) started ∙ same_health ∙ sym (ap (λ b. b.healthy) running);
        rules = start_handler-rules c.codec sound cfg s'.table s'.handler ∙ again.rules;
        rewrites = start_handler-rewrites c.codec sound cfg s'.table s'.handler ∙ again.rewrites;
      },
      again,
    )
