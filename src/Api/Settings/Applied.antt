-- ===== src/Api/Settings/Applied.antt =====
-- What is in force after updateBackends.
use proxy_sentinel.Base.Text.{Text}
use proxy_sentinel.Base.{
  ◌≡◌, ◌∙◌, sym, ap, inl, inr, true, List, [], some, arith, nat_eq, list_eq, Bool-cases,
  Option-cases,
}
use proxy_sentinel.Storage.{WeightedBackend}
use proxy_sentinel.Proxy.Balancer.{
  DynamicBalancer, is_strategy, mark_all, set_backends, set_strategy,
}
use proxy_sentinel.Proxy.Handler.{Handler, set_rules, set_rewrites}
use proxy_sentinel.Api.Settings.{
  Call, Site, UpdateBackendsRequest, accept, store, apply_rules_of, apply, update_backends,
}
use proxy_sentinel.Api.Settings.Accepted.{IsAccepted, accept-IsAccepted}

-- What an answer 200 means: the checks have passed, the writes have worked, and the change is in force.
pub record IsApplied (c : Call) (q : UpdateBackendsRequest) (s s' : Site) : Type 0 where
  pub backends : List WeightedBackend
  pub strategy : Text
  pub accepted : IsAccepted s.handler.balancer.strategy q backends strategy
  pub stored : store c backends strategy q s.table ≡ (true, s'.table)
  pub applied : apply backends strategy q s.handler ≡ (true, s'.handler)

update_backends_accepts :
    (c : Call) (q : UpdateBackendsRequest) (s : Site) (bs : List WeightedBackend) (strategy : Text)
    → accept c.parse_url s.handler.balancer.strategy q ≡ some (bs, strategy)
    → (update_backends c (some q) s).0 ≡ 200
    → ((store c bs strategy q s.table).0 ≡ true)
      × ((apply bs strategy q s.handler).0 ≡ true)
      × ((update_backends c (some q) s).1.table ≡ (store c bs strategy q s.table).1)
      × ((update_backends c (some q) s).1.handler ≡ (apply bs strategy q s.handler).1)
unfolding update_backends
update_backends_accepts c q s bs strategy accepted ok =
    let stored : (store c bs strategy q s.table).0 ≡ true = ground (arith, accepted, ok) in
    let applied : (apply bs strategy q s.handler).0 ≡ true = ground (arith, accepted, stored, ok) in
    (
      stored,
      applied,
      ground (arith, accepted, stored, applied),
      ground (arith, accepted, stored, applied),
    )

pub update_backends-IsApplied :
    (c : Call) (q : UpdateBackendsRequest) (s : Site)
    → (update_backends c (some q) s).0 ≡ 200
    → IsApplied c q s (update_backends c (some q) s).1
update_backends-IsApplied c q s ok =
    elim (Option-cases (accept c.parse_url s.handler.balancer.strategy q)) [
      | inl refused ↦ absurd (unfold update_backends in ground (arith, refused, ok))
      | inr ((bs, strategy), accepted) ↦
          let (stored, applied, table, handler) =
            update_backends_accepts c q s bs strategy accepted ok in
          record {
            backends = bs;
            strategy = strategy;
            accepted =
                accept-IsAccepted c.parse_url s.handler.balancer.strategy q bs strategy accepted;
            stored =
                ap (λ b. (b, (store c bs strategy q s.table).1)) stored
                ∙ ap (λ t. (true, t)) (sym table);
            applied =
                ap (λ b. (b, (apply bs strategy q s.handler).1)) applied
                ∙ ap (λ h. (true, h)) (sym handler);
          }
    ]

-- The balancer after the change.
apply_rules_of-balancer :
    (q : UpdateBackendsRequest) (h : Handler) → (apply_rules_of q h).balancer ≡ h.balancer
unfolding apply_rules_of set_rules set_rewrites
apply_rules_of-balancer q h = ground arith

pub apply-balancer :
    (bs : List WeightedBackend) (strategy : Text) (q : UpdateBackendsRequest) (h h' : Handler)
    → apply bs strategy q h ≡ (true, h')
    → h'.balancer ≡ record {
      strategy = strategy;
      backends = bs;
      healthy = mark_all [] bs;
      counter = h.balancer.counter;
    }
unfolding apply set_strategy set_backends
apply-balancer bs strategy q h h' e = elim (Bool-cases (is_strategy strategy)) [
  | inr unknown ↦ absurd (ground (arith, unknown, e))
  | inl known ↦
      let b : DynamicBalancer = record {
        strategy = strategy;
        backends = bs;
        healthy = mark_all [] bs;
        counter = h.balancer.counter;
      } in
      let same : apply_rules_of q (record h { balancer = b }) ≡ h' = ground (arith, known, e) in
      ap (λ x. x.balancer) (sym same) ∙ apply_rules_of-balancer q (record h { balancer = b })
]
