-- ===== src/Api/Settings/Serving.antt =====
-- Changed settings can serve at once.
use proxy_sentinel.Base.Int.{pos, ltb_ℤ}
use proxy_sentinel.Base.Text.{Text, bytes}
use proxy_sentinel.Base.{
  ℕ, ◌*◌, ◌^◌, ◌<◌, ◌≤◌, ◌≡◌, ◌∙◌, ap, refl, inl, inr, Bool, true, List, [], ◌∷◌, some, arith,
  nat_eq, list_eq, length, get_elem?, All, Bool-cases, eq_test_refl,
}
use mathlib.Core.Path.{subst⁻¹}
use proxy_sentinel.Storage.{WeightedBackend}
use proxy_sentinel.Proxy.Balancer.{DynamicBalancer, is_up, takes_traffic, mark_all, next}
use proxy_sentinel.Proxy.Balancer.Health.{listed, is_up-mark_all}
use proxy_sentinel.Proxy.Balancer.Weighted.{share, shares, PicksHealthy}
use proxy_sentinel.Proxy.Balancer.Choice.{IsDraw, next_healthy}
use proxy_sentinel.Api.Settings.{Call, Site, UpdateBackendsRequest, has_weight, update_backends}
use proxy_sentinel.Api.Settings.Accepted.{IsBackend}
use proxy_sentinel.Api.Settings.Applied.{update_backends-IsApplied, apply-balancer}

-- The sum of the shares, between one weight and a hundred for each backend.
shares_above :
    (m : List (Text × Bool)) (bs : List WeightedBackend)
    → All (λ b. is_up m b.url ≡ true) bs
    → has_weight bs ≡ true
    → 0 < shares m bs
unfolding shares share takes_traffic has_weight
shares_above m [] up h = absurd (ground (arith, h))
shares_above m (b ∷ bs) (up, ups) h = elim (Bool-cases (ltb_ℤ (pos 0) b.weight)) [
  | inl positive ↦ ground (arith, up, positive)
  | inr weightless ↦
      ground (arith, up, weightless, shares_above m bs ups (ground (arith, weightless, h)))
]

shares_below :
    (m : List (Text × Bool)) (bs : List WeightedBackend)
    → All IsBackend bs
    → shares m bs ≤ 100 * length bs
unfolding shares share
shares_below m [] h = omega arith
shares_below m (b ∷ bs) (h, hs) = ground (arith, h, shares_below m bs hs)

-- Every listed backend is up right after the list is replaced.
listed_up :
    (m : List (Text × Bool)) (bs : List WeightedBackend)
    → ((u : Text) → listed u bs ≡ true → is_up m u ≡ true)
    → All (λ b. is_up m b.url ≡ true) bs
listed_up m [] up = tt
listed_up m (b ∷ bs) up = (
  up b.url (unfold listed in ground (arith, eq_test_refl b.url)),
  listed_up m bs (λ u h. up u (unfold listed in ground (arith, h))),
)

marked_up : (bs : List WeightedBackend) → All (λ b. is_up (mark_all [] bs) b.url ≡ true) bs
marked_up bs = listed_up (mark_all [] bs) bs (λ u h. ground (arith, is_up-mark_all u [] bs, h))

first_up :
    (m : List (Text × Bool)) (bs : List WeightedBackend)
    → 0 < length bs
    → All (λ b. is_up m b.url ≡ true) bs
    → (b : WeightedBackend) × (get_elem? bs 0 ≡ some b) × (is_up m b.url ≡ true)
first_up m [] none_ up = absurd (omega arith)
first_up m (b ∷ bs) some_ up = (b, refl, up.0)

-- The balancer of a change that was let through.
fresh : Text → List WeightedBackend → ℕ → DynamicBalancer
fresh strategy bs counter = record {
  strategy = strategy;
  backends = bs;
  healthy = mark_all [] bs;
  counter = counter;
}

fresh_serves :
    (intn : ℕ → ℕ) (strategy : Text) (bs : List WeightedBackend) (counter : ℕ)
    → IsDraw intn
    → counter < 2 ^ 63
    → length bs < 2 ^ 56
    → 0 < length bs
    → All IsBackend bs
    → (strategy ≡ bytes "weighted" → has_weight bs ≡ true)
    → let b = fresh strategy bs counter in PicksHealthy b.healthy b.backends (next intn b).0
unfolding fresh
fresh_serves intn strategy bs counter draw low few some_ good weighted =
    let m = mark_all [] bs in
    let up = marked_up bs in
    let (b, at_front, its_up) = first_up m bs some_ up in
    let below : shares m bs ≤ 100 * length bs = shares_below m bs good in
    next_healthy intn
      (record { strategy = strategy; backends = bs; healthy = m; counter = counter }) 0 b draw low
      (λ w. (shares_above m bs up (weighted w), omega arith)) some_ at_front its_up

-- After a change of the settings that is answered with 200, `Next` returns the address of a listed backend
-- that is healthy, whatever the strategy, if draws lie in their ranges, the counter is below 2^63, and
-- there are fewer than 2^56 backends.
pub update_backends_serves :
    (c : Call) (q : UpdateBackendsRequest) (s : Site) (intn : ℕ → ℕ)
    → (update_backends c (some q) s).0 ≡ 200
    → IsDraw intn
    → s.handler.balancer.counter < 2 ^ 63
    → length (update_backends c (some q) s).1.handler.balancer.backends < 2 ^ 56
    → let b = (update_backends c (some q) s).1.handler.balancer in
      PicksHealthy b.healthy b.backends (next intn b).0
update_backends_serves c q s intn ok draw low few =
    let s' = (update_backends c (some q) s).1 in
    let a = update_backends-IsApplied c q s ok in
    let is_fresh : s'.handler.balancer ≡ fresh a.strategy a.backends s.handler.balancer.counter =
      apply-balancer a.backends a.strategy q s.handler s'.handler a.applied
      ∙ (unfold fresh in refl) in
    let size : length s'.handler.balancer.backends ≡ length a.backends =
      ap (λ b. length b.backends) is_fresh ∙ (unfold fresh in refl) in
    subst⁻¹ (λ b. PicksHealthy b.healthy b.backends (next intn b).0) is_fresh
      (fresh_serves intn a.strategy a.backends s.handler.balancer.counter draw low (omega arith)
        a.accepted.nonempty a.accepted.backends a.accepted.weighted)
