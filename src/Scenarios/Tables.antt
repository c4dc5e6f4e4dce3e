-- ===== src/Scenarios/Tables.antt =====
-- A log of three requests: its pages, its export, and a purge of it.
use proxy_sentinel.Base.Int.{pos}
use proxy_sentinel.Base.Text.{Text, bytes}
use proxy_sentinel.Base.{
  List, ℕ, ◌*◌, ◌≡◌, refl, false, true, [], ◌∷◌, none, some, arith, list_beq, ◌==◌, nat_eq, list_eq,
  if◌then◌else◌, length, take, keep,
}
use proxy_sentinel.Storage.Paging.{newest}
use proxy_sentinel.Storage.Paging.Pages.{pages, pages-take}
use proxy_sentinel.Storage.Logs.{LogRecord, Logs, matches, delete_logs_before}
use proxy_sentinel.Api.Logs
use proxy_sentinel.Api.Logs.{parse_log_filter, csv_row, csv_header, export_csv}
use proxy_sentinel.Api.Logs.Export.{AreRows, export_csv-AreRows}
use proxy_sentinel.Api.Maintenance.{
  Call, Records, PurgeRequest, post_maintenance_purge, purge_tables, target_of, delete_from,
  purge_entry,
}

abbrev entry : ℕ → Text → LogRecord
entry id path = record {
  id = id;
  method = bytes "GET";
  path = path;
  query = [];
  request_headers = [];
  request_body = [];
  status = pos 200;
  response_headers = [];
  response_body = [];
  duration = pos 3;
  client_ip = bytes "::1";
  user_agent = [];
  referer = [];
  backend_url = bytes "http://a";
  request_id = [];
  created_at = id * 10;
}

abbrev logs : Logs
logs = record {
  rows = entry 1 (bytes "/a") ∷ entry 2 (bytes "=b") ∷ entry 3 (bytes "/c") ∷ [];
  next_id = 4;
}

pages-take_example : pages (λ r. true) 2 (pos 2) logs.rows ≡ take 4 (newest (λ r. true) logs.rows)
pages-take_example = pages-take (λ r. true) 2 2 logs.rows (omega arith) (omega arith) (omega arith)

abbrev export : Logs.Call
export = record {
  query = λ name. if name == bytes "method" then bytes "GET" else [];
  parse_time = λ s. none;
  format_time = λ t. bytes "then";
  like = λ pattern s. pattern == s;
  count_fails = false;
  list_fails = false;
}

export_csv-AreRows_example :
    (rows : List (List Text)) × (export_csv export logs ≡ some (csv_header ∷ rows))
    × AreRows export.format_time
        (take 50 (newest (matches export.like (parse_log_filter export)) logs.rows))
        rows
export_csv-AreRows_example = export_csv-AreRows export logs refl

abbrev call : Call
call = record {
  now = 100;
  current = bytes "ann";
  ip = bytes "::1";
  days_ago = λ n. 25;
  delete_fails = λ t. false;
}

abbrev purge : PurgeRequest
purge = record {
  tables = bytes "log" ∷ bytes "nothing" ∷ bytes "audit" ∷ [];
  keep_days = pos 1;
  confirm = true;
}

abbrev records : Records
records = record { logs = logs; health = []; audits = record { rows = []; next_id = 1 } }

one_left : length (post_maintenance_purge call (some purge) records).1.logs.rows ≡ 1
unfolding post_maintenance_purge purge_tables target_of delete_from delete_logs_before purge_entry
    keep list_beq
one_left = refl
