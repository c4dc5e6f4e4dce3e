-- ===== src/Api/Logs/Export.antt =====
-- What the export of the log holds.
use proxy_sentinel.Base.Int.{pos}
use proxy_sentinel.Base.Text.{Text}
use proxy_sentinel.Base.{
  ℕ, ◌≡◌, ◌≢◌, ◌⊎◌, arith, ◌∙◌, refl, ap, Bool, false, List, [], ◌∷◌, some, map, nat_eq, take,
}
use proxy_sentinel.Storage.Logs.{LogRecord, LogFilter, Logs, matches, list_logs}
use proxy_sentinel.Proxy.Decode.{itoa}
use proxy_sentinel.Storage.Paging.{page_number, page_size, offset, newest, page_of}
use proxy_sentinel.Api.Logs.{
  Call, parse_log_filter, csv_header, csv_row, sanitize_csv, starts_formula, export_csv, format_int,
}

-- The bytes with which a spreadsheet's formula begins.
abbrev pub IsFormula : ℕ → Type 0
IsFormula b = (b ≡ b'=') ⊎ (b ≡ b'+') ⊎ (b ≡ b'-') ⊎ (b ≡ b'@')

abbrev pub IsOther : ℕ → Type 0
IsOther b = (b ≢ b'=') × (b ≢ b'+') × (b ≢ b'-') × (b ≢ b'@')

-- The cell of a text: the text itself, behind an apostrophe if it begins like a formula.
abbrev pub IsCell : Text → Text → Type 0
IsCell [] cell = cell ≡ []
IsCell (b ∷ s) cell = (IsFormula b × (cell ≡ b'\'' ∷ b ∷ s)) ⊎ (IsOther b × (cell ≡ b ∷ s))

sanitize_csv-IsCell : (s : Text) → IsCell s (sanitize_csv s)
unfolding sanitize_csv starts_formula
sanitize_csv-IsCell [] = refl
sanitize_csv-IsCell (b ∷ s) = ground arith

-- The row of a record: seven cells for its texts, and four for its numbers and its time.
pub record IsRow (format_time : ℕ → Text) (r : LogRecord) (row : List Text) : Type 0 where
  pub method : Text
  pub path : Text
  pub query : Text
  pub client_ip : Text
  pub user_agent : Text
  pub backend_url : Text
  pub request_id : Text
  pub cells :
      row
      ≡ itoa r.id
        ∷ method
        ∷ path
        ∷ query
        ∷ format_int r.status
        ∷ format_int r.duration
        ∷ client_ip
        ∷ user_agent
        ∷ backend_url
        ∷ request_id
        ∷ format_time r.created_at
        ∷ []
  pub method_cell : IsCell r.method method
  pub path_cell : IsCell r.path path
  pub query_cell : IsCell r.query query
  pub client_ip_cell : IsCell r.client_ip client_ip
  pub user_agent_cell : IsCell r.user_agent user_agent
  pub backend_url_cell : IsCell r.backend_url backend_url
  pub request_id_cell : IsCell r.request_id request_id

csv_row-IsRow :
    (format_time : ℕ → Text) (r : LogRecord) → IsRow format_time r (csv_row format_time r)
unfolding csv_row
csv_row-IsRow format_time r = record {
  method = sanitize_csv r.method;
  path = sanitize_csv r.path;
  query = sanitize_csv r.query;
  client_ip = sanitize_csv r.client_ip;
  user_agent = sanitize_csv r.user_agent;
  backend_url = sanitize_csv r.backend_url;
  request_id = sanitize_csv r.request_id;
  cells = refl;
  method_cell = sanitize_csv-IsCell r.method;
  path_cell = sanitize_csv-IsCell r.path;
  query_cell = sanitize_csv-IsCell r.query;
  client_ip_cell = sanitize_csv-IsCell r.client_ip;
  user_agent_cell = sanitize_csv-IsCell r.user_agent;
  backend_url_cell = sanitize_csv-IsCell r.backend_url;
  request_id_cell = sanitize_csv-IsCell r.request_id;
}

-- One row for each record, in their order.
pub data AreRows (format_time : ℕ → Text) : List LogRecord → List (List Text) → Type 0 where
  no_rows : AreRows format_time [] []
  row_of :
      (r : LogRecord) (row : List Text) {rs : List LogRecord} {rows : List (List Text)}
      → IsRow format_time r row
      → AreRows format_time rs rows
      → AreRows format_time (r ∷ rs) (row ∷ rows)

csv_rows-AreRows :
    (format_time : ℕ → Text) (rs : List LogRecord)
    → AreRows format_time rs (map (csv_row format_time) rs)
csv_rows-AreRows format_time [] = no_rows
csv_rows-AreRows format_time (r ∷ rs) =
    row_of r (csv_row format_time r) (csv_row-IsRow format_time r) (csv_rows-AreRows format_time rs)

-- The limit of 10,000 rows is above that of a page, so the page has 50.
export_page :
    (p : LogRecord → Bool) (rows : List LogRecord)
    → page_of p (pos 1) (pos 10_000) rows ≡ take 50 (newest p rows)
unfolding page_of page_number page_size offset
export_page p rows = refl

-- The page is no condition on a record.
paged : LogFilter → LogFilter
paged f = record f { page = pos 1; page_size = pos 10_000 }

matches-paged :
    (like : Text → Text → Bool) (f : LogFilter) → matches like (paged f) ≡ matches like f
unfolding matches paged
matches-paged like f = refl

-- An export that the database does not fail is the header and a row for each of the newest 50 records that
-- match, in that order, and no more, although its page size is 10,000. In a row the seven cells of texts
-- hold the texts of the record, each behind an apostrophe if it begins with =, +, - or @; the id, the
-- status, the duration and the time are written as they are, a negative number with its sign in front.
pub export_csv-AreRows :
    (c : Call) (t : Logs)
    → c.list_fails ≡ false
    → (rows : List (List Text)) × (export_csv c t ≡ some (csv_header ∷ rows))
      × AreRows c.format_time (take 50 (newest (matches c.like (parse_log_filter c)) t.rows)) rows
unfolding export_csv list_logs paged
export_csv-AreRows c t works =
    let found = take 50 (newest (matches c.like (parse_log_filter c)) t.rows) in
    (
      map (csv_row c.format_time) found,
      simp works (
          ap
            (λ m.
              some
                (csv_header ∷ map (csv_row c.format_time) (page_of m (pos 1) (pos 10_000) t.rows)))
            (matches-paged c.like (parse_log_filter c))
          ∙ ap (λ rs. some (csv_header ∷ map (csv_row c.format_time) rs))
              (export_page (matches c.like (parse_log_filter c)) t.rows)),
      csv_rows-AreRows c.format_time found,
    )
