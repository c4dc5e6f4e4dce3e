-- ===== src/Api/Router/Needs.antt =====
-- What each handler asks of its visitor, and that the guard of its route sees to it.
use proxy_sentinel.Base.{◌≡◌, Bool, true, false, arith, nat_eq, list_eq, All}
use proxy_sentinel.Api.Router.{
  Endpoint, Guard, health, login, logout, static, spa_index, to_dashboard, me, realtime_stats,
  trend_stats, flow_stats, client_stats, backends_stats, list_logs, stream_logs, export_csv,
  get_log, list_audits, export_audits_csv, get_audit, get_settings, update_backends, list_tokens,
  create_token, update_token, delete_token, list_users, create_user, delete_user, reset_password,
  update_role, get_alert_config, update_alert_config, test_alert, get_ip_acl, update_ip_acl,
  get_maintenance_stats, post_maintenance_purge, proxy, web_page, web_json, admins, unguarded,
  gated, signed_in, routes, public_routes, page_routes, log_routes, admin_routes,
}

-- What a handler asks of its visitor.
pub data Need : Type 0 where
  nothing a_session an_administrator a_token : Need

-- By what the handlers do: an administrator is needed to change what others see and to read the audit log, a
-- session to read anything else, and a token to reach the backends.
unfoldable pub need : Endpoint → Need
need health = nothing
need login = nothing
need logout = nothing
need static = nothing
need spa_index = nothing
need to_dashboard = nothing
need me = a_session
need realtime_stats = a_session
need trend_stats = a_session
need flow_stats = a_session
need client_stats = a_session
need backends_stats = a_session
need list_logs = a_session
need stream_logs = a_session
need export_csv = a_session
need get_log = a_session
need list_audits = an_administrator
need export_audits_csv = an_administrator
need get_audit = an_administrator
need get_settings = a_session
need update_backends = an_administrator
need list_tokens = a_session
need create_token = an_administrator
need update_token = an_administrator
need delete_token = an_administrator
need list_users = a_session
need create_user = an_administrator
need delete_user = an_administrator
need reset_password = an_administrator
need update_role = an_administrator
need get_alert_config = a_session
need update_alert_config = an_administrator
need test_alert = an_administrator
need get_ip_acl = a_session
need update_ip_acl = an_administrator
need get_maintenance_stats = a_session
need post_maintenance_purge = an_administrator
need proxy = a_token

-- Whether the guard of a route sees to it.
unfoldable pub suffices : Guard → Need → Bool
suffices guard nothing = true
suffices unguarded a_session = false
suffices gated a_session = false
suffices (signed_in kind) a_session = true
suffices unguarded an_administrator = false
suffices gated an_administrator = false
suffices (signed_in web_page) an_administrator = false
suffices (signed_in web_json) an_administrator = false
suffices (signed_in admins) an_administrator = true
suffices unguarded a_token = false
suffices gated a_token = true
suffices (signed_in kind) a_token = false

pub routes-suffice : All (λ r. suffices r.guard (need r.endpoint) ≡ true) routes
unfolding routes public_routes page_routes log_routes admin_routes need suffices
routes-suffice = ground arith
