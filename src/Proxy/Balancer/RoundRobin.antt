-- ===== src/Proxy/Balancer/RoundRobin.antt =====
-- The round-robin strategy: a rotation over the backends that skips the unhealthy ones.
use native.Mathlib.Nat.{add-zero, mod-lt, add-mod-mod, mod-add-mod, add-mod_right, mod-eq_of_lt}
use mathlib.Core.Path.{◌≡⟨◌⟩◌, ◌∎}
use proxy_sentinel.Base.Int.{pos}
use proxy_sentinel.Base.Text.{Text}
use proxy_sentinel.Base.{
  ℕ, zero, suc, ◌+◌, ◌-◌, ◌%◌, ◌^◌, ◌<◌, ◌≡◌, refl, Bool, true, false, List, [], ◌∷◌, arith,
  Bool-cases, ◌∙◌, eq_test_refl, nat_eq, list_eq, sym, ap, inl, inr, ◌⊎◌, length, get_elem?,
  get_elem?-some, some, Option,
}
use proxy_sentinel.Storage.{WeightedBackend}
use proxy_sentinel.Proxy.Balancer.{
  picked, is_up, rem_int, int_of_word, slot, scan, bump, next_round_robin, url_at,
}
use proxy_sentinel.Proxy.Balancer.Health.{listed}
use proxy_sentinel.Proxy.Balancer.Weighted.{PicksHealthy}

index_of_counter : (c : ℕ) → c < 2 ^ 63 → int_of_word ((bump c + 2 ^ 64 - 1) % 2 ^ 64) ≡ pos c
unfolding int_of_word bump
index_of_counter c h = ground arith

lt_suc_cases : (e c : ℕ) → e < suc c → (e < c) ⊎ (e ≡ c)
lt_suc_cases e c h = omega arith

shift : (k i j : ℕ) → k + (i + 1) + j ≡ k + i + suc j
shift k i j = omega arith

slot_pos :
    (bs : List WeightedBackend) (i j : ℕ)
    → slot bs (pos i) j (length bs) ≡ get_elem? bs ((i + j) % length bs)
unfolding slot
slot_pos bs i j = ground arith

listed_of_get :
    (bs : List WeightedBackend) (i : ℕ) (b : WeightedBackend)
    → get_elem? bs i ≡ some b
    → listed b.url bs ≡ true
unfolding listed
listed_of_get [] i b e = cc
listed_of_get (x ∷ bs) zero b e = ground (arith, eq_test_refl b.url, e)
listed_of_get (x ∷ bs) (suc i) b e = ground (arith, listed_of_get bs i b e)

-- The backend whose turn it is `k` calls after the first.
abbrev pub at_turn : List WeightedBackend → ℕ → Option WeightedBackend
at_turn bs k = get_elem? bs (k % length bs)

-- Nobody is healthy among the backends of `count` turns from turn `k`.
abbrev pub NoneUp : List (Text × Bool) → List WeightedBackend → ℕ → ℕ → Type 0
NoneUp m bs k count =
    (e : ℕ) (b : WeightedBackend) → e < count → at_turn bs (k + e) ≡ some b → is_up m b.url ≡ false

turn_of_lem : (k j n : ℕ) → j < n → (k + (j + (n - k % n)) % n) % n ≡ j
turn_of_lem k j n h =
    (k + (j + (n - k % n)) % n) % n
    ≡⟨ add-mod-mod k (j + (n - k % n)) n ⟩ (k + (j + (n - k % n))) % n
    ≡⟨ sym (mod-add-mod k n (j + (n - k % n))) ⟩ (k % n + (j + (n - k % n))) % n
    ≡⟨ ap (λ t. t % n) (regroup (k % n) j n (mod-lt k (omega arith))) ⟩ (j + n) % n
    ≡⟨ add-mod_right j n ⟩ j % n
    ≡⟨ mod-eq_of_lt h ⟩ j ∎
  where
    regroup : (r j n : ℕ) → r < n → r + (j + (n - r)) ≡ j + n
    regroup r j n h = omega arith

-- Every index has its turn within one rotation.
turn_of : (k j n : ℕ) → j < n → (e : ℕ) × (e < n) × ((k + e) % n ≡ j)
turn_of k j n h = ((j + (n - k % n)) % n, mod-lt _ (omega arith), turn_of_lem k j n h)

turn_some :
    (bs : List WeightedBackend) (k : ℕ)
    → 0 < length bs
    → (b : WeightedBackend) × (at_turn bs k ≡ some b)
turn_some bs k h = get_elem?-some bs (k % length bs) (grind arith)

module _ (m : List (Text × Bool)) (bs : List WeightedBackend) where
  -- One round of the loop.
  scan_up :
      (k left i : ℕ) (b : WeightedBackend)
      → at_turn bs (k + i) ≡ some b
      → is_up m b.url ≡ true
      → scan m bs (pos k) (suc left) i ≡ picked b.url
  unfolding scan
  scan_up k left i b e up = ground (arith, slot_pos bs k i)

  scan_down :
      (k left i : ℕ) (b : WeightedBackend)
      → at_turn bs (k + i) ≡ some b
      → is_up m b.url ≡ false
      → scan m bs (pos k) (suc left) i ≡ scan m bs (pos k) left (i + 1)
  unfolding scan
  scan_down k left i b e down = ground (arith, slot_pos bs k i)

  scan_first :
      (k left i d : ℕ) (b : WeightedBackend)
      → 0 < length bs
      → d < left
      → NoneUp m bs (k + i) d
      → at_turn bs (k + i + d) ≡ some b
      → is_up m b.url ≡ true
      → scan m bs (pos k) left i ≡ picked b.url
  scan_first k zero i d b n h down e up = absurd (omega arith)
  scan_first k (suc left) i zero b n h down e up =
      scan_up k left i b (rw (add-zero (k + i)) at e) up
  scan_first k (suc left) i (suc d) b n h down e up =
      let (c, at_c) = turn_some bs (k + i) n in
      scan_down k left i c at_c (down 0 c (omega arith) (rw (add-zero (k + i)) at_c))
      ∙ scan_first k left (i + 1) d b n (omega arith)
          (λ j x lt at_x. down (suc j) x (omega arith) (rw (shift k i j) at at_x))
          (rw (shift k i d) e) up

  scan_none :
      (k left i : ℕ)
      → 0 < length bs
      → NoneUp m bs (k + i) left
      → scan m bs (pos k) left i ≡ url_at bs 0
  scan_none k zero i n down = unfold scan in refl
  scan_none k (suc left) i n down =
      let (c, at_c) = turn_some bs (k + i) n in
      scan_down k left i c at_c (down 0 c (omega arith) (rw (add-zero (k + i)) at_c))
      ∙ scan_none k left (i + 1) n
          (λ j x lt at_x. down (suc j) x (omega arith) (rw (shift k i j) at at_x))

  abbrev FirstUp : ℕ → ℕ → Type 0
  FirstUp k count =
      (d : ℕ) × (b : WeightedBackend) × (d < count)
      × NoneUp m bs k d
      × (at_turn bs (k + d) ≡ some b)
      × (is_up m b.url ≡ true)

  NoneUp-suc :
      (k c : ℕ) (x : WeightedBackend)
      → NoneUp m bs k c
      → at_turn bs (k + c) ≡ some x
      → is_up m x.url ≡ false
      → NoneUp m bs k (suc c)
  NoneUp-suc k c x down at_x x_down e b lt at_e = elim (lt_suc_cases e c lt) [
    | inl less ↦ down e b less at_e
    | inr same ↦ ground (arith, at_x, at_e)
  ]

  -- Among so many turns either somebody is the first that is healthy, or nobody is healthy.
  first_up : (k count : ℕ) → 0 < length bs → FirstUp k count ⊎ NoneUp m bs k count
  first_up k zero n = inr (λ e b lt at_e. absurd (omega arith))
  first_up k (suc c) n = elim (first_up k c n) [
    | inl (d, b, lt, down, at_b, up) ↦ inl (d, b, omega arith, down, at_b, up)
    | inr down ↦ first_up_last k c n down
  ]
    where
      first_up_last :
          (k c : ℕ) → 0 < length bs → NoneUp m bs k c → FirstUp k (suc c) ⊎ NoneUp m bs k (suc c)
      first_up_last k c n down =
          let (x, at_x) = turn_some bs (k + c) n in
          elim (Bool-cases (is_up m x.url)) [
            | inl up ↦ inl (c, x, omega arith, down, at_x, up)
            | inr off ↦ inr (NoneUp-suc k c x down at_x off)
          ]

  turn_mod : (c d : ℕ) → at_turn bs (c % length bs + 0 + d) ≡ at_turn bs (c + d)
  turn_mod c d = rw (add-zero (c % length bs)) (ap (get_elem? bs) (mod-add-mod c (length bs) d))

  next_round_robin-scan :
      (c : ℕ) → c < 2 ^ 63 → next_round_robin m bs c ≡ scan m bs (pos (c % length bs)) (length bs) 0
  unfolding next_round_robin rem_int
  next_round_robin-scan c h = rw (index_of_counter c h)

  -- With a counter below 2^63 the strategy returns the first healthy backend in the rotation that
  -- starts at the counter's turn.
  pub next_round_robin_first :
      (c d : ℕ) (b : WeightedBackend)
      → c < 2 ^ 63
      → d < length bs
      → NoneUp m bs c d
      → at_turn bs (c + d) ≡ some b
      → is_up m b.url ≡ true
      → next_round_robin m bs c ≡ picked b.url
  next_round_robin_first c d b h lt down at_b up =
      next_round_robin-scan c h
      ∙ scan_first (c % length bs) (length bs) 0 d b (omega arith) lt
          (λ e x less at_x. down e x less (sym (turn_mod c e) ∙ at_x)) (turn_mod c d ∙ at_b) up

  -- With a counter below 2^63 and no healthy backend it returns the first backend of the list.
  pub next_round_robin_fallback :
      (c : ℕ)
      → c < 2 ^ 63
      → 0 < length bs
      → NoneUp m bs c (length bs)
      → next_round_robin m bs c ≡ url_at bs 0
  next_round_robin_fallback c h n down =
      next_round_robin-scan c h
      ∙ scan_none (c % length bs) (length bs) 0 n
          (λ e x less at_x. down e x less (sym (turn_mod c e) ∙ at_x))

  -- With a counter below 2^63 and some healthy backend it returns a listed one that is healthy.
  pub next_round_robin_healthy :
      (c j : ℕ) (b : WeightedBackend)
      → c < 2 ^ 63
      → j < length bs
      → get_elem? bs j ≡ some b
      → is_up m b.url ≡ true
      → PicksHealthy m bs (next_round_robin m bs c)
  next_round_robin_healthy c j b h lt at_j up = elim (first_up c (length bs) (omega arith)) [
    | inl (d, x, less, down, at_x, x_up) ↦
        (x.url, next_round_robin_first c d x h less down at_x x_up, listed_of_get bs _ x at_x, x_up)
    | inr down ↦
        let (e, less, turn) = turn_of c j (length bs) lt in
        absurd (ground (arith, down e b less (rw turn at_j), up))
  ]
