-- ===== src/Proxy/Balancer.antt =====
-- The load balancer of internal/proxy/balancer.go. Its lock makes each method one step, so a method
-- is a function on the state. `rand.Intn` is an argument; a panic is a result of its own.
pub mod Health
pub mod Weighted
pub mod RoundRobin
pub mod Choice
pub mod Probe
use proxy_sentinel.Base.Int.{ℤ, pos, negsuc, pos_part, ◌+ℤ◌, ltb_ℤ}
use proxy_sentinel.Base.Map
use proxy_sentinel.Base.Text.{Text, bytes}
use proxy_sentinel.Base.{
  ℕ, zero, suc, ◌+◌, ◌-◌, ◌%◌, ◌^◌, Bool, true, false, not, ◌&&◌, ◌||◌, List, [], ◌∷◌, Option, none,
  some, ltb, leb, Eq, ◌==◌, nat_eq, list_eq, if◌then◌else◌, length, get_elem?,
}
use proxy_sentinel.Storage.{WeightedBackend}

pub record BackendStat : Type 0 where
  pub url : Text
  pub healthy : Bool
  pub weight : ℤ
  pub health_path : Text

pub record DynamicBalancer : Type 0 where
  pub strategy : Text
  pub backends : List WeightedBackend
  pub healthy : List (Text × Bool)
  pub counter : ℕ  -- uint64

-- What `Next` does: it returns an address, "" for none, or it panics.
pub data Pick : Type 0 where
  picked : Text → Pick
  panic : Pick

-- `healthy[url]`, false for a missing key.
unfoldable pub is_up : List (Text × Bool) → Text → Bool
is_up m url = elim (Map.lookup url m) [ none ↦ false | some up ↦ up ]

-- The loop that marks every listed backend healthy.
unfoldable pub mark_all : List (Text × Bool) → List WeightedBackend → List (Text × Bool)
mark_all m [] = m
mark_all m (b ∷ bs) = mark_all (Map.insert b.url true m) bs

unfoldable pub normalize_strategy : Text → Text
normalize_strategy s =
    if s == bytes "random" || s == bytes "weighted" then s else bytes "round_robin"

unfoldable pub new_balancer : Text → List WeightedBackend → DynamicBalancer
unfolding normalize_strategy mark_all
new_balancer strategy backends = record {
  strategy = normalize_strategy strategy;
  backends = backends;
  healthy = mark_all [] backends;
  counter = 0;
}

-- Indexing a slice panics out of range.
unfoldable pub url_at : List WeightedBackend → ℕ → Pick
url_at bs i = elim (get_elem? bs i) [ none ↦ panic | some b ↦ picked b.url ]

unfoldable pub text_at : List Text → ℕ → Pick
text_at us i = elim (get_elem? us i) [ none ↦ panic | some u ↦ picked u ]

unfoldable pub healthy_urls : List (Text × Bool) → List WeightedBackend → List Text
healthy_urls m [] = []
healthy_urls m (b ∷ bs) =
    let rest = healthy_urls m bs in if is_up m b.url then b.url ∷ rest else rest

unfoldable pub next_random : (ℕ → ℕ) → List (Text × Bool) → List WeightedBackend → Pick
next_random intn m bs =
    let up = healthy_urls m bs in
    if length up == 0 then url_at bs (intn (length bs)) else text_at up (intn (length up))

-- A backend that the weighted strategy may choose.
unfoldable pub takes_traffic : List (Text × Bool) → WeightedBackend → Bool
takes_traffic m b = is_up m b.url && ltb_ℤ (pos 0) b.weight

-- The sum of the weights, with the wrap-around of a 64-bit `int` (as an unsigned word).
unfoldable pub total_weight : List (Text × Bool) → ℕ → List WeightedBackend → ℕ
total_weight m acc [] = acc
total_weight m acc (b ∷ bs) =
    total_weight m (if takes_traffic m b then (acc + pos_part b.weight) % 2 ^ 64 else acc) bs

-- The loop that spends the draw `p`; `p` is not negative, so `p < weight` is `p - weight < 0`.
unfoldable pub spend : List (Text × Bool) → ℕ → List WeightedBackend → Pick
spend m p [] = picked []
spend m p (b ∷ bs) =
    let rest = spend m (if takes_traffic m b then p - pos_part b.weight else p) bs in
    if takes_traffic m b && ltb p (pos_part b.weight) then picked b.url else rest

-- `rand.Intn` panics on a sum that has wrapped to a negative `int`.
unfoldable pub next_weighted : (ℕ → ℕ) → List (Text × Bool) → List WeightedBackend → Pick
next_weighted intn m bs =
    let total = total_weight m 0 bs in
    if total == 0 then picked [] else if leb (2 ^ 63) total then panic else spend m (intn total) bs

-- `int(x)` for a uint64 `x`.
unfoldable pub int_of_word : ℕ → ℤ
int_of_word x = if ltb x (2 ^ 63) then pos x else negsuc (2 ^ 64 - 1 - x)

-- Go's `%`, which takes the sign of the dividend.
unfoldable pub rem_int : ℤ → ℕ → ℤ
rem_int (pos a) n = pos (a % n)
rem_int (negsuc a) n = let r = suc a % n in if r == 0 then pos 0 else negsuc (r - 1)

-- `b.backends[(idx+i)%n]`; a negative index is out of range.
unfoldable pub slot : List WeightedBackend → ℤ → ℕ → ℕ → Option WeightedBackend
unfolding rem_int ◌+ℤ◌
slot bs idx i n = elim (rem_int (idx +ℤ pos i) n) [ pos j ↦ get_elem? bs j | negsuc j ↦ none ]

-- The loop over `i`, with the rounds that are left; `backends[0]` is the fallback.
unfoldable pub scan : List (Text × Bool) → List WeightedBackend → ℤ → ℕ → ℕ → Pick
scan m bs idx zero i = url_at bs 0
scan m bs idx (suc left) i =
    let rest = scan m bs idx left (i + 1) in
    elim (slot bs idx i (length bs)) [
      | none ↦ panic
      | some b ↦ if is_up m b.url then picked b.url else rest
    ]

-- The counter after `atomic.AddUint64(&counter, 1)`.
unfoldable pub bump : ℕ → ℕ
bump c = (c + 1) % 2 ^ 64

unfoldable pub next_round_robin : List (Text × Bool) → List WeightedBackend → ℕ → Pick
next_round_robin m bs counter =
    let n = length bs in
    let idx = rem_int (int_of_word ((bump counter + 2 ^ 64 - 1) % 2 ^ 64)) n in scan m bs idx n 0

unfoldable pub next : (ℕ → ℕ) → DynamicBalancer → Pick × DynamicBalancer
next intn b =
    if length backends == 0
    then (picked [], b)
    else if strategy == bytes "random"
    then (next_random intn healthy backends, b)
    else if strategy == bytes "weighted"
    then (next_weighted intn healthy backends, b)
    else (next_round_robin healthy backends counter, record b { counter = bump counter })
  where
    open b use {strategy, backends, healthy, counter}

-- A write to the health map that is made for a known key only.
unfoldable pub set_known : Text → Bool → List (Text × Bool) → List (Text × Bool)
set_known url up m = elim (Map.lookup url m) [ none ↦ m | some _ ↦ Map.insert url up m ]

unfoldable pub mark_down : Text → DynamicBalancer → DynamicBalancer
unfolding set_known
mark_down url b = record b { healthy = set_known url false b.healthy }

unfoldable pub mark_up : Text → DynamicBalancer → DynamicBalancer
unfolding set_known
mark_up url b = record b { healthy = set_known url true b.healthy }

stats_of : List (Text × Bool) → List WeightedBackend → List BackendStat
stats_of m [] = []
stats_of m (b ∷ bs) =
    record { url = b.url; healthy = is_up m b.url; weight = b.weight; health_path = b.health_path }
    ∷ stats_of m bs

unfoldable pub backend_stats : DynamicBalancer → List BackendStat
unfolding stats_of
backend_stats b = stats_of b.healthy b.backends

unfoldable pub set_backends : List WeightedBackend → DynamicBalancer → DynamicBalancer
unfolding mark_all
set_backends backends b = record b { backends = backends; healthy = mark_all [] backends }

unfoldable pub is_strategy : Text → Bool
is_strategy s = s == bytes "round_robin" || s == bytes "random" || s == bytes "weighted"

-- `none` is the error of an unknown strategy.
unfoldable pub set_strategy : Text → DynamicBalancer → Option DynamicBalancer
unfolding is_strategy
set_strategy s b = if is_strategy s then some (record b { strategy = s }) else none
