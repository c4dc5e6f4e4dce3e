-- ===== src/Proxy/Handler/Routing.antt =====
-- Where a request goes, and what becomes of the backend's health.
use proxy_sentinel.Base.Text.{Text, bytes, trim_prefix}
use proxy_sentinel.Base.{
  ℕ, ◌≡◌, ◌≢◌, ◌⊎◌, refl, false, [], ◌∷◌, Option, none, some, nat_eq, list_eq, list_beq,
}
use proxy_sentinel.Net.Header
use proxy_sentinel.Proxy.Balancer.{DynamicBalancer, Pick, picked, panic, is_up}
use proxy_sentinel.Proxy.Rules.{RuleInput}
use proxy_sentinel.Proxy.RequestId.{resolve_request_id}
use proxy_sentinel.Proxy.Request.{Request}
use proxy_sentinel.Proxy.Handler.{
  Handler, World, Served, json_error, crashed, reject, choose, dispatch, relay, serve, plan_body,
  refuse, ready, BodyPlan, OutBody, OutRequest, Target, failed,
}

abbrev pub stripped_of : Request → Text
stripped_of r = trim_prefix (bytes "/proxy") r.path

abbrev pub rule_input : Request → RuleInput
rule_input r = record {
  header_get = Header.get r.header;
  cookies = r.cookies;
  stripped_path = trim_prefix (bytes "/proxy") r.path;
}

abbrev pub id_of : World → Request → Text
id_of w r = resolve_request_id w.random w.now (Header.get r.header (bytes "X-Request-ID"))

-- Past the choice of the backend a request is refused or relayed.
pub dispatch_cases {ℓ} :
    (P : Served → Type ℓ) (w : World) (h : Handler) (r : Request) (id stripped backend : Text)
    → ((code : ℕ) (msg : Text) → P (reject h id (json_error code msg)))
    → ((log : Text) (body : OutBody) (t : Target) → P (relay w h r id stripped backend log body t))
    → P (dispatch w h r id stripped backend)
unfolding dispatch
dispatch_cases P w h r id stripped backend refused relayed_ = by_plan (plan_body h r) refl
  where
    by_target :
        (log : Text) (body : OutBody) (o : Option Target)
        → w.parse_url backend ≡ o
        → plan_body h r ≡ ready log body
        → P (dispatch w h r id stripped backend)
    by_target log body none e p = rw (p, e, dispatch) (refused _ _)
    by_target log body (some t) e p = rw (p, e, dispatch) (relayed_ log body t)

    by_plan : (p : BodyPlan) → plan_body h r ≡ p → P (dispatch w h r id stripped backend)
    by_plan (refuse code msg) p = rw (p, dispatch) (refused code msg)
    by_plan (ready log body) p = by_target log body (w.parse_url backend) refl p

-- A change of one backend's health, which only a failed exchange with that backend makes.
abbrev pub HealthStep : World → Text → DynamicBalancer → Served → Pick → Type 0
HealthStep w v b s pick =
    (is_up s.handler.balancer.healthy v ≡ is_up b.healthy v)
    ⊎ ((out : OutRequest) × (s.directed ≡ some out)
        × (w.exchange out ≡ failed false)
        × (pick ≡ picked v)
        × (is_up s.handler.balancer.healthy v ≡ false))

-- The handler after the choice of the backend.
abbrev pub chosen : World → Handler → Request → Handler
chosen w h r = record h { balancer = (choose w h r (stripped_of r)).1 }

pub serve_cases {ℓ} :
    (P : Served → Pick → Type ℓ) (w : World) (h : Handler) (r : Request)
    → P (reject (chosen w h r) (id_of w r) crashed) panic
    → P
        (reject (chosen w h r) (id_of w r) (json_error 502 (bytes "no available backend")))
        (picked [])
    → ((backend : Text)
        → backend ≢ []
        → P (dispatch w (chosen w h r) r (id_of w r) (stripped_of r) backend) (picked backend))
    → P (serve w h r) (choose w h r (stripped_of r)).0
unfolding serve list_beq
serve_cases P w h r crash nobody somebody = by_pick (choose w h r (stripped_of r)).0 refl
  where
    by_pick :
        (p : Pick)
        → (choose w h r (stripped_of r)).0 ≡ p
        → P (serve w h r) (choose w h r (stripped_of r)).0
    by_pick panic e = rw (e, serve) crash
    by_pick (picked []) e = rw (e, serve) nobody
    by_pick (picked (c ∷ u)) e = rw (e, serve) (somebody (c ∷ u) (λ q. cc))
