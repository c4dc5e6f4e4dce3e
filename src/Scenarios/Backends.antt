-- ===== src/Scenarios/Backends.antt =====
-- A balancer with three backends, one of them down.
use proxy_sentinel.Base.Int.{pos}
use proxy_sentinel.Base.Map
use proxy_sentinel.Base.Text.{Text, bytes}
use proxy_sentinel.Base.{
  if◌then◌else◌, ◌==◌, nat_eq, list_eq, ℕ, zero, suc, ◌+◌, ◌-◌, ◌<◌, ◌≡◌, refl, Bool, true, false,
  List, [], ◌∷◌, some, arith, list_beq, nat_eq, list_eq,
}
use proxy_sentinel.Storage.{WeightedBackend}
use proxy_sentinel.Proxy.Balancer.{
  DynamicBalancer, picked, is_up, next, next_random, next_weighted, next_round_robin, new_balancer,
  mark_down, is_strategy, healthy_urls, text_at, takes_traffic, backend_stats,
}
use proxy_sentinel.Proxy.Balancer.Health.{
  picks, downs, switches, listed, tracked, IsValid, run, run-new-IsValid,
}
use proxy_sentinel.Proxy.Balancer.Weighted.{share, shares, PicksHealthy, next_weighted-share}
use proxy_sentinel.Proxy.Balancer.RoundRobin.{at_turn, next_round_robin_first}
use proxy_sentinel.Proxy.Balancer.Probe.{
  Response, status, probe_url, check, alive, last_verdict, check_health,
}
use proxy_sentinel.Proxy.Balancer.Choice.{next_healthy}

abbrev node : Text → ℕ → WeightedBackend
node url weight = record { url = url; weight = pos weight; health_path = bytes "/health" }

abbrev three : List WeightedBackend
three = node (bytes "http://a") 5 ∷ node (bytes "http://b") 3 ∷ node (bytes "http://c") 2 ∷ []

abbrev b_down : List (Text × Bool)
b_down = (bytes "http://a", true) ∷ (bytes "http://b", false) ∷ (bytes "http://c", true) ∷ []

abbrev weighted_three : DynamicBalancer
weighted_three = record {
  strategy = bytes "weighted";
  backends = three;
  healthy = b_down;
  counter = 7;
}

-- The draw 6 of 7.
abbrev last_draw : ℕ → ℕ
last_draw n = n - 1

a_up : is_up b_down (bytes "http://a") ≡ true
unfolding is_up Map.lookup list_beq
a_up = refl

b_off : is_up b_down (bytes "http://b") ≡ false
unfolding is_up Map.lookup list_beq
b_off = refl

c_up : is_up b_down (bytes "http://c") ≡ true
unfolding is_up Map.lookup list_beq
c_up = refl

three-shares : shares b_down three ≡ 7
unfolding shares share takes_traffic is_up Map.lookup list_beq
three-shares = refl

a_shares : shares b_down (node (bytes "http://a") 5 ∷ node (bytes "http://b") 3 ∷ []) ≡ 5
unfolding shares share takes_traffic is_up Map.lookup list_beq
a_shares = refl

c_share : share b_down (node (bytes "http://c") 2) ≡ 2
unfolding share takes_traffic is_up Map.lookup list_beq
c_share = refl

next_healthy_example : PicksHealthy b_down three (next last_draw weighted_three).0
next_healthy_example =
    next_healthy last_draw weighted_three 0 (node (bytes "http://a") 5) (λ n h. omega arith)
      (omega arith) (λ e. (omega (arith, three-shares), omega (arith, three-shares))) (omega arith)
      refl a_up

next_weighted-share_example : next_weighted last_draw b_down three ≡ picked (bytes "http://c")
next_weighted-share_example =
    next_weighted-share last_draw b_down
      (node (bytes "http://a") 5 ∷ node (bytes "http://b") 3 ∷ []) (node (bytes "http://c") 2) []
      (omega (arith, three-shares)) (omega (arith, three-shares, a_shares))
      (omega (arith, three-shares, a_shares, c_share)) (omega (arith, three-shares))

-- At counter 4 it is the turn of b, which is down.
next_round_robin_first_example : next_round_robin b_down three 4 ≡ picked (bytes "http://c")
next_round_robin_first_example =
    next_round_robin_first b_down three 4 1 (node (bytes "http://c") 2) (omega arith) (omega arith)
      only_b refl c_up
  where
    only_b :
        (e : ℕ) (x : WeightedBackend)
        → e < 1
        → at_turn three (4 + e) ≡ some x
        → is_up b_down x.url ≡ false
    only_b zero x h at_x = ground (arith, at_x, b_off)
    only_b (suc e) x h at_x = absurd (omega arith)

run-new-IsValid_example : IsValid (
    run
      (new_balancer (bytes "random") three)
      (downs (bytes "http://b") ∷ switches (bytes "weighted") ∷ picks last_draw ∷ []))
run-new-IsValid_example =
    run-new-IsValid (bytes "random") three
      (downs (bytes "http://b") ∷ switches (bytes "weighted") ∷ picks last_draw ∷ [])

three_keys : (u : Text) → tracked u b_down ≡ listed u three
unfolding tracked listed Map.lookup
three_keys u = ground arith

three_known : is_strategy (bytes "weighted") ≡ true
unfolding is_strategy list_beq
three_known = refl

three-IsValid : IsValid weighted_three
three-IsValid = record { keys = three_keys; known = three_known }

down_twice :
    healthy_urls (mark_down (bytes "http://c") weighted_three).healthy three ≡ bytes "http://a" ∷ []
unfolding healthy_urls mark_down is_up Map.lookup Map.insert list_beq
down_twice = refl

random_pick : next_random last_draw b_down three ≡ picked (bytes "http://c")
unfolding next_random healthy_urls is_up Map.lookup list_beq text_at
random_pick = refl

-- The probe of a fails, the probe of b finds it alive again.
abbrev probes : Text → ℕ × Response
probes u = if u == bytes "http://a/health" then (3, status 503) else (2, status 404)

b_listed : listed (bytes "http://b") three ≡ true
unfolding listed list_beq
b_listed = refl

check_health_example :
    is_up (check probes (backend_stats weighted_three) weighted_three).0.healthy (bytes "http://b")
    ≡ last_verdict probes
        (bytes "http://b")
        (is_up b_down (bytes "http://b"))
        (backend_stats weighted_three)
check_health_example =
    check_health probes (backend_stats weighted_three) weighted_three (bytes "http://b")
      three-IsValid b_listed

b_verdict : last_verdict probes (bytes "http://b") false (backend_stats weighted_three) ≡ true
unfolding last_verdict alive probe_url backend_stats is_up Map.lookup list_beq
b_verdict = refl
