-- ===== src/Api/Logs.antt =====
-- The listing and the export of the log: internal/api/logs.go, without the live stream. The query string,
-- time.Parse, Time.Format, LIKE and the errors of the database are arguments; JSON and the quoting of CSV
-- are left out.
pub mod Export
use proxy_sentinel.Base.Int.{ℤ, pos, negsuc}
use proxy_sentinel.Base.Number.{parse_int}
use proxy_sentinel.Base.Text.{Text, bytes}
use proxy_sentinel.Base.{
  ℕ, suc, Bool, ◌||◌, List, [], ◌∷◌, ◌++◌, Option, none, some, map, ◌==◌, nat_eq, list_eq,
  if◌then◌else◌,
}
use proxy_sentinel.Proxy.Decode.{itoa}
use proxy_sentinel.Storage.Logs.{LogRecord, LogFilter, Logs, count_logs, list_logs, get_log}

-- The parameters of the query (empty for none), and what the libraries and the database make of a request.
pub record Call : Type 0 where
  pub query : Text → Text
  pub parse_time : Text → Option ℕ
  pub format_time : ℕ → Text
  pub like : Text → Text → Bool
  pub count_fails : Bool
  pub list_fails : Bool

unfoldable pub atoi_default : Text → ℤ → ℤ
atoi_default s other = if s == [] then other else elim (parse_int s) [ none ↦ other | some n ↦ n ]

-- A time that is missing or does not parse is no bound.
unfoldable pub time_param : Call → Text → Option ℕ
time_param c name = if c.query name == [] then none else c.parse_time (c.query name)

unfoldable pub parse_log_filter : Call → LogFilter
unfolding atoi_default time_param
parse_log_filter c = record {
  start = time_param c (bytes "start");
  end = time_param c (bytes "end");
  method = c.query (bytes "method");
  path = c.query (bytes "path");
  status_min = atoi_default (c.query (bytes "status_min")) (pos 0);
  status_max = atoi_default (c.query (bytes "status_max")) (pos 0);
  min_duration = atoi_default (c.query (bytes "min_duration")) (pos 0);
  keyword = c.query (bytes "keyword");
  backend = c.query (bytes "backend_url");
  request_id = c.query (bytes "request_id");
  page = atoi_default (c.query (bytes "page")) (pos 1);
  page_size = atoi_default (c.query (bytes "page_size")) (pos 50);
}

pub record PagedLogs : Type 0 where
  pub total : ℕ
  pub page : ℤ
  pub page_size : ℤ
  pub rows : List LogRecord

-- `none` is the answer 500.
unfoldable pub list_logs_page : Call → Logs → Option PagedLogs
list_logs_page c t =
    let f = parse_log_filter c in
    if c.count_fails || c.list_fails
    then none
    else some (record {
      total = count_logs c.like f t;
      page = f.page;
      page_size = f.page_size;
      rows = list_logs c.like f t;
    })

-- The status and the record.
unfoldable pub get_log_of : Call → Text → Logs → ℕ × Option LogRecord
get_log_of c path t = elim (parse_int path) [
  | none ↦ (400, none)
  | some id ↦
      if c.list_fails
      then (500, none)
      else elim (get_log id t) [ none ↦ (404, none) | some r ↦ (200, some r) ]
]

-- strconv.FormatInt
unfoldable pub format_int : ℤ → Text
format_int (pos n) = itoa n
format_int (negsuc n) = bytes "-" ++ itoa (suc n)

-- The bytes at which a spreadsheet takes a cell for a formula.
unfoldable pub starts_formula : ℕ → Bool
starts_formula b = b == b'=' || b == b'+' || b == b'-' || b == b'@'

unfoldable pub sanitize_csv : Text → Text
unfolding starts_formula
sanitize_csv [] = []
sanitize_csv (b ∷ s) = if starts_formula b then bytes "'" ++ b ∷ s else b ∷ s

abbrev pub csv_header : List Text
csv_header =
    bytes "id"
    ∷ bytes "method"
    ∷ bytes "path"
    ∷ bytes "query"
    ∷ bytes "status"
    ∷ bytes "duration_ms"
    ∷ bytes "client_ip"
    ∷ bytes "user_agent"
    ∷ bytes "backend_url"
    ∷ bytes "request_id"
    ∷ bytes "created_at"
    ∷ []

unfoldable pub csv_row : (ℕ → Text) → LogRecord → List Text
csv_row format_time r =
    itoa r.id
    ∷ sanitize_csv r.method
    ∷ sanitize_csv r.path
    ∷ sanitize_csv r.query
    ∷ format_int r.status
    ∷ format_int r.duration
    ∷ sanitize_csv r.client_ip
    ∷ sanitize_csv r.user_agent
    ∷ sanitize_csv r.backend_url
    ∷ sanitize_csv r.request_id
    ∷ format_time r.created_at
    ∷ []

-- The rows of the file; `none` is the answer 500.
unfoldable pub export_csv : Call → Logs → Option (List (List Text))
export_csv c t =
    let f : LogFilter = record (parse_log_filter c) { page = pos 1; page_size = pos 10_000 } in
    if c.list_fails
    then none
    else some (csv_header ∷ map (csv_row c.format_time) (list_logs c.like f t))
