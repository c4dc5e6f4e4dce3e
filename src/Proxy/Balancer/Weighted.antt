-- ===== src/Proxy/Balancer/Weighted.antt =====
-- The weighted strategy: every eligible backend owns as many draws as its weight says.
use proxy_sentinel.Base.Int.{pos_part}
use proxy_sentinel.Base.Text.{Text}
use proxy_sentinel.Base.{
  ℕ, ◌+◌, ◌-◌, ◌%◌, ◌^◌, ◌<◌, ◌≤◌, ◌≡◌, refl, Bool, true, ◌++◌, List, [], ◌∷◌, arith, if◌then◌else◌,
  ltb, Bool-cases, eq_test_refl, list_eq, nat_eq, ◌∙◌, inl, inr,
}
use proxy_sentinel.Storage.{WeightedBackend}
use proxy_sentinel.Proxy.Balancer.{
  Pick, picked, is_up, takes_traffic, total_weight, spend, next_weighted,
}
use proxy_sentinel.Proxy.Balancer.Health.{listed}

-- The share of the draws that belongs to a backend: its weight if it is healthy, else nothing.
unfoldable pub share : List (Text × Bool) → WeightedBackend → ℕ
share m b = if takes_traffic m b then pos_part b.weight else 0

unfoldable pub shares : List (Text × Bool) → List WeightedBackend → ℕ
shares m [] = 0
shares m (b ∷ bs) = share m b + shares m bs

-- Without overflow the loop's total is the sum of the shares.
total_weight-shares :
    (m : List (Text × Bool)) (acc : ℕ) (bs : List WeightedBackend)
    → acc + shares m bs < 2 ^ 64
    → total_weight m acc bs ≡ acc + shares m bs
unfolding total_weight shares share
total_weight-shares m acc [] h = omega arith
total_weight-shares m acc (b ∷ bs) h = elim (Bool-cases (takes_traffic m b)) [
  | inl e ↦
      let h' : acc + (pos_part b.weight + shares m bs) < 2 ^ 64 = ground (arith, e, h) in
      rw e (ground (arith, total_weight-shares m ((acc + pos_part b.weight) % 2 ^ 64) bs))
  | inr e ↦ rw e (ground (arith, total_weight-shares m acc bs))
]

-- A draw that falls behind the shares of the backends in front and within the share of `b` picks `b`.
spend-share :
    (m : List (Text × Bool)) (before : List WeightedBackend) (b : WeightedBackend)
    (after : List WeightedBackend) (p : ℕ)
    → shares m before ≤ p
    → p < shares m before + share m b
    → spend m p (before ++ b ∷ after) ≡ picked b.url
unfolding spend shares share
spend-share m [] b after p lo hi = ground arith
spend-share m (c ∷ before) b after p lo hi = elim (Bool-cases (takes_traffic m c)) [
  | inl e ↦ ground (arith, e, spend-share m before b after (p - pos_part c.weight))
  | inr e ↦ ground (arith, e, spend-share m before b after p)
]

-- The pick is a listed backend that is healthy.
abbrev pub PicksHealthy : List (Text × Bool) → List WeightedBackend → Pick → Type 0
PicksHealthy m bs pick = (u : Text) × (pick ≡ picked u) × (listed u bs ≡ true) × (is_up m u ≡ true)

PicksHealthy-cons :
    (m : List (Text × Bool)) (b : WeightedBackend) (bs : List WeightedBackend) (pick : Pick)
    → PicksHealthy m bs pick
    → PicksHealthy m (b ∷ bs) pick
unfolding listed
PicksHealthy-cons m b bs pick (u, e, l, up) = (u, e, ground arith, up)

takes_traffic_up :
    (m : List (Text × Bool)) (b : WeightedBackend) → takes_traffic m b ≡ true → is_up m b.url ≡ true
unfolding takes_traffic
takes_traffic_up m b h = ground arith

-- A draw below the sum of the shares picks a listed backend that is healthy.
spend_total :
    (m : List (Text × Bool)) (bs : List WeightedBackend) (p : ℕ)
    → p < shares m bs
    → PicksHealthy m bs (spend m p bs)
unfolding spend shares share
spend_total m [] p h = absurd (omega arith)
spend_total m (b ∷ bs) p h = elim (Bool-cases (takes_traffic m b)) [
  | inr e ↦ rw e (PicksHealthy-cons m b bs _ (spend_total m bs p (ground (arith, e, h))))
  | inl e ↦ elim (Bool-cases (ltb p (pos_part b.weight))) [
    | inl f ↦
        rw (e, f)
          (b.url, refl, unfold listed in ground (arith, eq_test_refl b.url), takes_traffic_up m b e)
    | inr f ↦
        rw (e, f)
          (PicksHealthy-cons m b bs _
            (spend_total m bs (p - pos_part b.weight) (ground (arith, e, f, h))))
  ]
]

module _ (intn : ℕ → ℕ) (m : List (Text × Bool)) where
  total_word :
      (bs : List WeightedBackend) → shares m bs < 2 ^ 63 → total_weight m 0 bs ≡ shares m bs
  total_word bs h = ground (arith, total_weight-shares m 0 bs)

  next_weighted-spend :
      (bs : List WeightedBackend)
      → shares m bs < 2 ^ 63
      → 0 < shares m bs
      → next_weighted intn m bs ≡ spend m (intn (shares m bs)) bs
  unfolding next_weighted
  next_weighted-spend bs h pos = rw (total_word bs h) (ground arith)

  -- If the shares add up to less than 2^63 and to more than nothing, and the draw is in range, the
  -- weighted strategy picks a listed backend that is healthy.
  pub next_weighted_healthy :
      (bs : List WeightedBackend)
      → shares m bs < 2 ^ 63
      → 0 < shares m bs
      → intn (shares m bs) < shares m bs
      → PicksHealthy m bs (next_weighted intn m bs)
  next_weighted_healthy bs h pos draw =
      rw (next_weighted-spend bs h pos) (spend_total m bs (intn (shares m bs)) draw)

  -- A backend is picked whenever the draw lies in its own interval: behind the shares of the backends
  -- in front of it, and within its own share, which is its weight if it is healthy and 0 otherwise.
  pub next_weighted-share :
      (before : List WeightedBackend) (b : WeightedBackend) (after : List WeightedBackend)
      → let bs = before ++ b ∷ after in
        shares m bs < 2 ^ 63
        → shares m before ≤ intn (shares m bs)
        → intn (shares m bs) < shares m before + share m b
        → 0 < shares m bs
        → next_weighted intn m bs ≡ picked b.url
  next_weighted-share before b after h lo hi pos =
      next_weighted-spend (before ++ b ∷ after) h pos ∙ spend-share m before b after _ lo hi
