-- ===== src/Proxy/Balancer/Probe.antt =====
-- HealthChecker of internal/proxy/balancer.go: what one probe of a backend does to the balancer. The
-- GET request is an argument: its status code, or the text of its error.

use proxy_sentinel.Base.Text.{Text, bytes}
use proxy_sentinel.Base.{
  ℕ, ◌≡◌, refl, ◌∙◌, ap, Bool, true, false, List, [], ◌∷◌, ◌++◌, arith, ltb, ◌==◌, nat_eq, list_eq,
  if◌then◌else◌,
}
use proxy_sentinel.Proxy.Balancer.{DynamicBalancer, BackendStat, is_up, mark_down, mark_up}
use proxy_sentinel.Proxy.Balancer.Health.{
  IsValid, listed, mark_health, step, downs, ups, step-IsValid,
}

pub data Response : Type 0 where
  status : ℕ → Response
  failed : Text → Response

pub record ProbeResult : Type 0 where
  pub url : Text
  pub healthy : Bool
  pub latency : ℕ
  pub status_code : ℕ
  pub error : Text

unfoldable pub probe_url : BackendStat → Text
probe_url b = b.url ++ (if b.health_path == [] then bytes "/" else b.health_path)

-- The result that a probe hands to `finish`, with its verdict: an error or a status of 500 and above is
-- unhealthy.
unfoldable pub probe_result : Text → ℕ → Response → ProbeResult × Bool
probe_result url latency (failed e) =
    (record { url = url; healthy = false; latency = latency; status_code = 0; error = e }, false)
probe_result url latency (status c) = (
  record { url = url; healthy = false; latency = latency; status_code = c; error = [] },
  ltb c 500,
)

-- `finish`: the new balancer, and what the recorder is given.
unfoldable pub finish : Text → ProbeResult → Bool → DynamicBalancer → DynamicBalancer × ProbeResult
finish url res healthy b =
    (if healthy then mark_up url b else mark_down url b, record res { healthy = healthy })

-- One round, with the goroutines in some order; `get` tells of each URL the latency and the response.
unfoldable pub check :
    (Text → ℕ × Response) → List BackendStat → DynamicBalancer → DynamicBalancer × List ProbeResult
unfolding probe_url probe_result
check get [] b = (b, [])
check get (s ∷ ss) b =
    let (latency, response) = get (probe_url s) in
    let (res, healthy) = probe_result s.url latency response in
    let (b', told) = finish s.url res healthy b in
    let (b'', rest) = check get ss b' in (b'', told ∷ rest)

-- A response below 500 shows a living backend.
unfoldable pub alive : Response → Bool
alive (status c) = ltb c 500
alive (failed e) = false

-- The verdict of the last probe of an address, else what was known of it.
unfoldable pub last_verdict : (Text → ℕ × Response) → Text → Bool → List BackendStat → Bool
last_verdict get v known [] = known
last_verdict get v known (s ∷ ss) =
    last_verdict get v (if s.url == v then alive (get (probe_url s)).1 else known) ss

probe_verdict : (url : Text) (latency : ℕ) (x : Response) → (probe_result url latency x).1 ≡ alive x
unfolding probe_result alive
probe_verdict url latency (status c) = refl
probe_verdict url latency (failed e) = refl

finish-IsValid :
    (url : Text) (res : ProbeResult) (healthy : Bool) (b : DynamicBalancer)
    → IsValid b
    → IsValid (finish url res healthy b).0
unfolding finish step
finish-IsValid url res true b v = step-IsValid b (ups url) v
finish-IsValid url res false b v = step-IsValid b (downs url) v

finish-listed :
    (url v : Text) (res : ProbeResult) (healthy : Bool) (b : DynamicBalancer)
    → listed v (finish url res healthy b).0.backends ≡ listed v b.backends
unfolding finish mark_up mark_down
finish-listed url v res true b = refl
finish-listed url v res false b = refl

finish_health :
    (url v : Text) (res : ProbeResult) (healthy : Bool) (b : DynamicBalancer)
    → IsValid b
    → listed v b.backends ≡ true
    → is_up (finish url res healthy b).0.healthy v
      ≡ (if url == v then healthy else is_up b.healthy v)
unfolding finish
finish_health url v res true b valid in_list =
    ground (arith, (mark_health b url v valid).1, in_list)
finish_health url v res false b valid in_list = ground (arith, (mark_health b url v valid).0)

-- After a round of probes on a valid balancer a configured address is healthy exactly when the last probe
-- of it found it alive, or when it was not probed and was healthy before.
pub check_health :
    (get : Text → ℕ × Response) (ss : List BackendStat) (b : DynamicBalancer) (v : Text)
    → IsValid b
    → listed v b.backends ≡ true
    → is_up (check get ss b).0.healthy v ≡ last_verdict get v (is_up b.healthy v) ss
unfolding check last_verdict
check_health get [] b v valid in_list = refl
check_health get (s ∷ ss) b v valid in_list =
    let r = get (probe_url s) in
    let (res, healthy) = probe_result s.url r.0 r.1 in
    let b' = (finish s.url res healthy b).0 in
    check_health get ss b' v (finish-IsValid s.url res healthy b valid)
      (finish-listed s.url v res healthy b ∙ in_list)
    ∙ ap (λ k. last_verdict get v k ss)
        (finish_health s.url v res healthy b valid in_list
          ∙ ap (λ h. if s.url == v then h else is_up b.healthy v) (probe_verdict s.url r.0 r.1))
