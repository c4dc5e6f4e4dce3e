-- ===== src/Proxy/Balancer/Choice.antt =====
-- `Next` over all three strategies.
use proxy_sentinel.Base.Text.{Text, bytes}
use proxy_sentinel.Base.{
  ℕ, zero, suc, ◌^◌, ◌<◌, ◌≡◌, refl, Bool, true, List, [], ◌∷◌, arith, Bool-cases, inl, inr, length,
  get_elem?, All, some, ◌==◌, nat_eq, list_eq, eq_test_refl,
}
use proxy_sentinel.Storage.{WeightedBackend}
use proxy_sentinel.Proxy.Balancer.{
  DynamicBalancer, picked, is_up, next, next_random, healthy_urls, text_at,
}
use proxy_sentinel.Proxy.Balancer.Health.{listed}
use proxy_sentinel.Proxy.Balancer.Weighted.{PicksHealthy, shares, next_weighted_healthy}
use proxy_sentinel.Proxy.Balancer.RoundRobin.{next_round_robin_healthy}

-- What the healthy addresses are: listed and up.
abbrev Served : List (Text × Bool) → List WeightedBackend → Text → Type 0
Served m bs u = (listed u bs ≡ true) × (is_up m u ≡ true)

Served-cons :
    (m : List (Text × Bool)) (b : WeightedBackend) (bs : List WeightedBackend) (us : List Text)
    → All (Served m bs) us
    → All (Served m (b ∷ bs)) us
Served-cons m b bs [] h = tt
Served-cons m b bs (u ∷ us) ((l, up), h) =
    ((unfold listed in ground (arith, l), up), Served-cons m b bs us h)

healthy_urls-Served :
    (m : List (Text × Bool)) (bs : List WeightedBackend) → All (Served m bs) (healthy_urls m bs)
unfolding healthy_urls
healthy_urls-Served m [] = tt
healthy_urls-Served m (b ∷ bs) =
    let rest = Served-cons m b bs _ (healthy_urls-Served m bs) in
    elim (Bool-cases (is_up m b.url)) [
      | inl up ↦ rw up ((unfold listed in rw (eq_test_refl b.url), up), rest)
      | inr off ↦ rw off rest
    ]

text_at-Served :
    (P : Text → Type 0) (us : List Text) (i : ℕ)
    → i < length us
    → All P us
    → (u : Text) × (text_at us i ≡ picked u) × P u
unfolding text_at
text_at-Served P [] i lt h = elim lt [ ]
text_at-Served P (u ∷ us) zero lt h = (u, refl, h.0)
text_at-Served P (u ∷ us) (suc i) lt h = text_at-Served P us i (omega arith) h.1

healthy_urls-some :
    (m : List (Text × Bool)) (bs : List WeightedBackend) (j : ℕ) (b : WeightedBackend)
    → get_elem? bs j ≡ some b
    → is_up m b.url ≡ true
    → 0 < length (healthy_urls m bs)
unfolding healthy_urls
healthy_urls-some m [] j b e up = cc
healthy_urls-some m (x ∷ bs) zero b e up = ground (arith, e, up)
healthy_urls-some m (x ∷ bs) (suc j) b e up = ground (arith, healthy_urls-some m bs j b e up)

-- If a draw from a range lies in the range, and some backend is healthy, the random strategy picks a
-- listed backend that is healthy.
next_random_healthy :
    (intn : ℕ → ℕ) (m : List (Text × Bool)) (bs : List WeightedBackend) (j : ℕ)
    (b : WeightedBackend)
    → ((n : ℕ) → 0 < n → intn n < n)
    → get_elem? bs j ≡ some b
    → is_up m b.url ≡ true
    → PicksHealthy m bs (next_random intn m bs)
unfolding next_random
next_random_healthy intn m bs j b draw e up =
    let some_up = healthy_urls-some m bs j b e up in
    let (u, at_u, (l, u_up)) =
      text_at-Served (Served m bs) _ _ (draw _ some_up) (healthy_urls-Served m bs) in
    (u, ground (arith, some_up, at_u), l, u_up)

-- Go's promise for `rand.Intn`: a draw from a positive range lies in the range.
abbrev pub IsDraw : (ℕ → ℕ) → Type 0
IsDraw intn = (n : ℕ) → 0 < n → intn n < n

-- What the weighted strategy needs of the weights: some eligible weight, and no overflow.
abbrev pub WeightsFit : DynamicBalancer → Type 0
WeightsFit b =
    b.strategy ≡ bytes "weighted"
    → (0 < shares b.healthy b.backends) × (shares b.healthy b.backends < 2 ^ 63)

-- If draws lie in their ranges, the counter is below 2^63, some backend is healthy and, under the
-- weighted strategy, the eligible weights have a positive sum below 2^63, then `Next` returns the
-- address of a listed backend that is healthy, whatever the strategy.
pub next_healthy :
    (intn : ℕ → ℕ) (b : DynamicBalancer) (j : ℕ) (x : WeightedBackend)
    → IsDraw intn
    → b.counter < 2 ^ 63
    → WeightsFit b
    → j < length b.backends
    → get_elem? b.backends j ≡ some x
    → is_up b.healthy x.url ≡ true
    → PicksHealthy b.healthy b.backends (next intn b).0
unfolding next
next_healthy intn b j x draw low fit lt e up = elim (Bool-cases (length b.backends == 0)) [
  | inl zero_length ↦ absurd (ground (arith, zero_length, lt))
  | inr some_backend ↦ elim (Bool-cases (b.strategy == bytes "random")) [
    | inl random ↦
        rw (some_backend, random) (next_random_healthy intn b.healthy b.backends j x draw e up)
    | inr not_random ↦ elim (Bool-cases (b.strategy == bytes "weighted")) [
      | inl weighted ↦
          let (positive, bounded) =
            fit ((list_eq.test_iff b.strategy (bytes "weighted")).0 weighted) in
          rw (some_backend, not_random, weighted)
            (next_weighted_healthy intn b.healthy b.backends bounded positive (draw _ positive))
      | inr other ↦
          rw (some_backend, not_random, other)
            (next_round_robin_healthy b.healthy b.backends b.counter j x low lt e up)
    ]
  ]
]
