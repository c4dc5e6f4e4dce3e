-- ===== src/Api/Router.antt =====
-- The routes of internal/api/router.go, each with the middleware in front of its handler. Which pattern
-- http.ServeMux chooses for a request is the argument `pick`; the handlers themselves are in the other modules.
pub mod Needs
pub mod Guards
use proxy_sentinel.Base.Text.{Text, bytes}
use proxy_sentinel.Base.{
  ℕ, Bool, true, false, List, [], ◌∷◌, ◌++◌, Option, none, some, map, not, if◌then◌else◌, get_elem?,
  ◌==◌, nat_eq, list_eq,
}
use proxy_sentinel.Auth.WebAuth.{
  Cache, Claims, Verdict, passes, refused, middleware, unauthorized, admin_only,
}
use proxy_sentinel.Auth.ProxyAuth.{Bearer}
use proxy_sentinel.Ratelimit.{Floats}
use proxy_sentinel.Api.Gate.{Gate, Knock, admitted, turned_away, enter}

-- The handlers, under the names of the functions.
pub data Endpoint : Type 0 where
  health login logout static spa_index to_dashboard : Endpoint
  me realtime_stats trend_stats flow_stats client_stats backends_stats : Endpoint
  list_logs stream_logs export_csv get_log : Endpoint
  list_audits export_audits_csv get_audit : Endpoint
  get_settings update_backends : Endpoint
  list_tokens create_token update_token delete_token : Endpoint
  list_users create_user delete_user reset_password update_role : Endpoint
  get_alert_config update_alert_config test_alert : Endpoint
  get_ip_acl update_ip_acl : Endpoint
  get_maintenance_stats post_maintenance_purge : Endpoint
  proxy : Endpoint

-- webPage, webJSON, and webJSON with AdminOnly behind it.
pub data Session : Type 0 where
  web_page web_json admins : Session

-- No middleware, one of the sessions, or the chain of the proxy.
pub data Guard : Type 0 where
  unguarded gated : Guard
  signed_in : Session → Guard

pub record Route : Type 0 where
  pub pattern : Text
  pub guard : Guard
  pub endpoint : Endpoint

route : Text → Guard → Endpoint → Route
route pattern guard endpoint = record { pattern = pattern; guard = guard; endpoint = endpoint }

unfoldable pub public_routes : List Route
unfolding route
public_routes =
    route (bytes "GET /health") unguarded health
    ∷ route (bytes "POST /api/auth/login") unguarded login
    ∷ route (bytes "POST /api/auth/logout") unguarded logout
    ∷ route (bytes "GET /assets/") unguarded static
    ∷ route (bytes "GET /favicon.ico") unguarded static
    ∷ route (bytes "GET /favicon.svg") unguarded static
    ∷ route (bytes "GET /login") unguarded spa_index
    ∷ route (bytes "GET /{$}") unguarded to_dashboard
    ∷ []

unfoldable pub page_routes : List Route
unfolding route
page_routes =
    route (bytes "GET /dashboard") (signed_in web_page) spa_index
    ∷ route (bytes "GET /logs") (signed_in web_page) spa_index
    ∷ route (bytes "GET /audit-logs") (signed_in web_page) spa_index
    ∷ route (bytes "GET /flow") (signed_in web_page) spa_index
    ∷ route (bytes "GET /backends") (signed_in web_page) spa_index
    ∷ route (bytes "GET /tokens") (signed_in web_page) spa_index
    ∷ route (bytes "GET /users") (signed_in web_page) spa_index
    ∷ route (bytes "GET /settings") (signed_in web_page) spa_index
    ∷ []

unfoldable pub log_routes : List Route
unfolding route
log_routes =
    route (bytes "GET /api/auth/me") (signed_in web_json) me
    ∷ route (bytes "GET /api/stats/realtime") (signed_in web_json) realtime_stats
    ∷ route (bytes "GET /api/stats/trend") (signed_in web_json) trend_stats
    ∷ route (bytes "GET /api/stats/flow") (signed_in web_json) flow_stats
    ∷ route (bytes "GET /api/stats/clients") (signed_in web_json) client_stats
    ∷ route (bytes "GET /api/stats/backends") (signed_in web_json) backends_stats
    ∷ route (bytes "GET /api/logs") (signed_in web_json) list_logs
    ∷ route (bytes "GET /api/logs/stream") (signed_in web_json) stream_logs
    ∷ route (bytes "GET /api/logs/export") (signed_in web_json) export_csv
    ∷ route (bytes "GET /api/logs/{id}") (signed_in web_json) get_log
    ∷ route (bytes "GET /api/audit-logs") (signed_in admins) list_audits
    ∷ route (bytes "GET /api/audit-logs/export") (signed_in admins) export_audits_csv
    ∷ route (bytes "GET /api/audit-logs/{id}") (signed_in admins) get_audit
    ∷ []

unfoldable pub admin_routes : List Route
unfolding route
admin_routes =
    route (bytes "GET /api/settings") (signed_in web_json) get_settings
    ∷ route (bytes "PUT /api/settings/backends") (signed_in admins) update_backends
    ∷ route (bytes "GET /api/tokens") (signed_in web_json) list_tokens
    ∷ route (bytes "POST /api/tokens") (signed_in admins) create_token
    ∷ route (bytes "PUT /api/tokens/{id}") (signed_in admins) update_token
    ∷ route (bytes "DELETE /api/tokens/{id}") (signed_in admins) delete_token
    ∷ route (bytes "GET /api/users") (signed_in web_json) list_users
    ∷ route (bytes "POST /api/users") (signed_in admins) create_user
    ∷ route (bytes "DELETE /api/users/{id}") (signed_in admins) delete_user
    ∷ route (bytes "PUT /api/users/{id}/password") (signed_in admins) reset_password
    ∷ route (bytes "PUT /api/users/{id}/role") (signed_in admins) update_role
    ∷ route (bytes "GET /api/alert/config") (signed_in web_json) get_alert_config
    ∷ route (bytes "PUT /api/alert/config") (signed_in admins) update_alert_config
    ∷ route (bytes "POST /api/alert/test") (signed_in admins) test_alert
    ∷ route (bytes "GET /api/ip-acl") (signed_in web_json) get_ip_acl
    ∷ route (bytes "PUT /api/ip-acl") (signed_in admins) update_ip_acl
    ∷ route (bytes "GET /api/maintenance/stats") (signed_in web_json) get_maintenance_stats
    ∷ route (bytes "POST /api/maintenance/purge") (signed_in admins) post_maintenance_purge
    ∷ route (bytes "/proxy/") gated proxy
    ∷ []

unfoldable pub routes : List Route
routes = public_routes ++ page_routes ++ log_routes ++ admin_routes

-- What a request brings, and what the libraries and the user table make of it.
pub record Visit : Type 0 where
  pub method : Text
  pub path : Text
  pub cookie : Option Text
  pub parse : Text → Option Claims
  pub find : Text → Option ℕ
  pub knock : Knock

-- Who reaches a handler: anyone, a user with a role, or the bearer of a token.
pub data Visitor : Type 0 where
  anyone : Visitor
  session : Text → Text → Visitor
  holder : Bearer → Visitor

pub data Outcome : Type 0 where
  reached : Endpoint → Visitor → Outcome
  answered : ℕ → Outcome

pub record Front (F : Type 0) : Type 0 where
  pub cache : Cache
  pub gate : Gate F

-- `webAuth.Middleware`, and `AdminOnly` behind it where there is one.
unfoldable pub by_verdict : Session → Endpoint → Verdict → Outcome
by_verdict web_page e (refused clears) = answered (unauthorized false)
by_verdict web_page e (passes u role) = reached e (session u role)
by_verdict web_json e (refused clears) = answered (unauthorized true)
by_verdict web_json e (passes u role) = reached e (session u role)
by_verdict admins e (refused clears) = answered (unauthorized true)
by_verdict admins e (passes u role) =
    if admin_only role then reached e (session u role) else answered 403

module _ {F : Type 0} (fl : Floats F) where
  unfoldable pub pass_guard : Visit → Guard → Endpoint → Front F → Outcome × Front F
  pass_guard v unguarded e s = (reached e anyone, s)
  pass_guard v gated e s =
      let (entry, g) = enter fl v.knock s.gate in
      (
        elim entry [ admitted b ↦ reached e (holder b) | turned_away status ↦ answered status ],
        record s { gate = g },
      )
  pass_guard v (signed_in kind) e s =
      let (verdict, cache) = middleware v.parse v.knock.now v.find v.cookie s.cache in
      (by_verdict kind e verdict, record s { cache = cache })

  -- A request that fits no pattern is answered with 404.
  unfoldable pub serve_http :
      (List Text → Text → Text → Option ℕ) → Visit → Front F → Outcome × Front F
  serve_http pick v s = elim (pick (map (λ r. r.pattern) routes) v.method v.path) [
    | none ↦ (answered 404, s)
    | some i ↦ elim (get_elem? routes i) [
      | none ↦ (answered 404, s)
      | some r ↦ pass_guard v r.guard r.endpoint s
    ]
  ]
