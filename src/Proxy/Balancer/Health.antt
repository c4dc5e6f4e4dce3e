-- ===== src/Proxy/Balancer/Health.antt =====
-- What the balancer knows of each backend's health, over any sequence of its methods.

use proxy_sentinel.Base.Map
use proxy_sentinel.Base.Map.{lookup-insert}
use proxy_sentinel.Base.Text.{Text, bytes}
use proxy_sentinel.Base.{
  ℕ, ◌≡◌, refl, Bool, true, false, ◌||◌, List, [], ◌∷◌, none, some, arith, ◌∙◌, ◌==◌, list_eq,
  nat_eq, eq_test_refl, if◌then◌else◌, Bool-cases, inl, inr,
}
use proxy_sentinel.Storage.{WeightedBackend}
use proxy_sentinel.Proxy.Balancer.{
  DynamicBalancer, is_up, mark_all, normalize_strategy, new_balancer, next, set_known, mark_down,
  mark_up, set_backends, set_strategy, is_strategy,
}

-- Whether an address is in the list of backends.
unfoldable pub listed : Text → List WeightedBackend → Bool
listed u [] = false
listed u (b ∷ bs) = b.url == u || listed u bs

-- Whether the health map has the address as a key.
unfoldable pub tracked : Text → List (Text × Bool) → Bool
tracked u m = elim (Map.lookup u m) [ none ↦ false | some _ ↦ true ]

tracked-mark_all :
    (u : Text) (m : List (Text × Bool)) (bs : List WeightedBackend)
    → tracked u (mark_all m bs) ≡ (listed u bs || tracked u m)
unfolding tracked listed mark_all
tracked-mark_all u m [] = refl
tracked-mark_all u m (b ∷ bs) =
    ground (arith, tracked-mark_all u (Map.insert b.url true m) bs, lookup-insert b.url u true m)

pub is_up-mark_all :
    (u : Text) (m : List (Text × Bool)) (bs : List WeightedBackend)
    → is_up (mark_all m bs) u ≡ (listed u bs || is_up m u)
unfolding is_up listed mark_all
is_up-mark_all u m [] = refl
is_up-mark_all u m (b ∷ bs) =
    ground (arith, is_up-mark_all u (Map.insert b.url true m) bs, lookup-insert b.url u true m)

tracked-set_known :
    (u v : Text) (up : Bool) (m : List (Text × Bool)) → tracked u (set_known v up m) ≡ tracked u m
unfolding tracked set_known
tracked-set_known u v up m = ground (arith, lookup-insert v u up m, (list_eq {A = ℕ}).test_iff v u)

is_up-set_known :
    (u v : Text) (up : Bool) (m : List (Text × Bool))
    → is_up (set_known v up m) u
      ≡ (if v == u then (if tracked u m then up else false) else is_up m u)
unfolding is_up tracked set_known
is_up-set_known u v up m = ground (arith, lookup-insert v u up m, (list_eq {A = ℕ}).test_iff v u)

-- The health map has the configured addresses as its keys, and the strategy is a known one.
pub record IsValid (b : DynamicBalancer) : Type 0 where
  pub keys : (u : Text) → tracked u b.healthy ≡ listed u b.backends
  pub known : is_strategy b.strategy ≡ true

pub data Op : Type 0 where
  picks : (ℕ → ℕ) → Op
  downs ups : Text → Op
  replaces : List WeightedBackend → Op
  switches : Text → Op

-- One call of a method; a refused strategy leaves the state as it was.
unfoldable pub step : DynamicBalancer → Op → DynamicBalancer
step b (picks intn) = (next intn b).1
step b (downs u) = mark_down u b
step b (ups u) = mark_up u b
step b (replaces bs) = set_backends bs b
step b (switches s) = elim (set_strategy s b) [ none ↦ b | some b' ↦ b' ]

unfoldable pub run : DynamicBalancer → List Op → DynamicBalancer
unfolding step
run b [] = b
run b (o ∷ os) = run (step b o) os

round_robin_known : is_strategy (bytes "round_robin") ≡ true
unfolding is_strategy
round_robin_known = rw (eq_test_refl (bytes "round_robin"))

normalize_strategy_known : (s : Text) → is_strategy (normalize_strategy s) ≡ true
unfolding normalize_strategy
normalize_strategy_known s = elim (Bool-cases (s == bytes "random")) [
  | inl e ↦ rw e (unfold is_strategy in ground (arith, e))
  | inr e ↦ elim (Bool-cases (s == bytes "weighted")) [
    | inl f ↦ rw (e, f) (unfold is_strategy in ground (arith, f))
    | inr f ↦ rw (e, f) round_robin_known
  ]
]

tracked-nil : (u : Text) (bs : List WeightedBackend) → tracked u (mark_all [] bs) ≡ listed u bs
tracked-nil u bs = tracked-mark_all u [] bs ∙ (unfold tracked Map.lookup in ground arith)

-- A new balancer is valid.
new_balancer-IsValid : (s : Text) (bs : List WeightedBackend) → IsValid (new_balancer s bs)
unfolding new_balancer
new_balancer-IsValid s bs = record {
  keys = λ u. tracked-nil u bs;
  known = normalize_strategy_known s;
}

pub next_keeps :
    (intn : ℕ → ℕ) (b : DynamicBalancer)
    → ((next intn b).1.healthy ≡ b.healthy)
      × ((next intn b).1.backends ≡ b.backends)
      × ((next intn b).1.strategy ≡ b.strategy)
unfolding next
next_keeps intn b = ground arith

mark-IsValid :
    (b : DynamicBalancer) (u : Text) (up : Bool)
    → IsValid b
    → IsValid (record b { healthy = set_known u up b.healthy })
mark-IsValid b u up v = record {
  keys = λ w. tracked-set_known w u up b.healthy ∙ v.keys w;
  known = v.known;
}

set_strategy-IsValid : (b : DynamicBalancer) (s : Text) → IsValid b → IsValid (step b (switches s))
unfolding step set_strategy
set_strategy-IsValid b s v = elim (Bool-cases (is_strategy s)) [
  | inl e ↦ rw (e, step) (record { keys = v.keys; known = e })
  | inr e ↦ rw (e, step) v
]

pub step-IsValid : (b : DynamicBalancer) (o : Op) → IsValid b → IsValid (step b o)
unfolding step mark_down mark_up set_backends
step-IsValid b (picks intn) v =
    let (same, kept, held) = next_keeps intn b in
    record { keys = λ u. rw (same, kept) (v.keys u); known = rw held v.known }
step-IsValid b (downs u) v = mark-IsValid b u false v
step-IsValid b (ups u) v = mark-IsValid b u true v
step-IsValid b (replaces bs) v = record { keys = λ u. tracked-nil u bs; known = v.known }
step-IsValid b (switches s) v = set_strategy-IsValid b s v

run-IsValid : (b : DynamicBalancer) (os : List Op) → IsValid b → IsValid (run b os)
unfolding run
run-IsValid b [] v = v
run-IsValid b (o ∷ os) v = run-IsValid (step b o) os (step-IsValid b o v)

-- After any sequence of calls on a new balancer the keys of the health map are exactly the addresses
-- of the current backends, and the strategy is one of the three.
pub run-new-IsValid :
    (s : Text) (bs : List WeightedBackend) (os : List Op) → IsValid (run (new_balancer s bs) os)
run-new-IsValid s bs os = run-IsValid _ os (new_balancer-IsValid s bs)

-- Marking an address down in a valid balancer makes that address unhealthy and leaves the health of
-- every other address; marking it up makes it healthy if it is configured.
pub mark_health :
    (b : DynamicBalancer) (u v : Text)
    → IsValid b
    → (is_up (mark_down u b).healthy v ≡ (if u == v then false else is_up b.healthy v))
      × (is_up (mark_up u b).healthy v
          ≡ (if u == v then listed v b.backends else is_up b.healthy v))
unfolding mark_down mark_up
mark_health b u v h = (
  ground (arith, is_up-set_known v u false b.healthy),
  ground (arith, is_up-set_known v u true b.healthy, h.keys v),
)

-- Replacing the backends makes every new backend healthy, whatever was known of it before.
set_backends_health :
    (b : DynamicBalancer) (bs : List WeightedBackend) (u : Text)
    → is_up (set_backends bs b).healthy u ≡ listed u bs
unfolding set_backends
set_backends_health b bs u = is_up-mark_all u [] bs ∙ (unfold is_up Map.lookup in ground arith)
