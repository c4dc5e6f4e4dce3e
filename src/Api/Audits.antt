-- ===== src/Api/Audits.antt =====
-- The handlers of internal/api/audit.go, over the table of audited actions. The query string, time.Parse,
-- Time.Format, LIKE and the errors of the database are arguments; JSON and the quoting of CSV are left out.
pub mod Export
use proxy_sentinel.Base.Int.{ℤ, pos}
use proxy_sentinel.Base.Number.{parse_int}
use proxy_sentinel.Base.Text.{Text, bytes}
use proxy_sentinel.Base.{ℕ, Bool, ◌||◌, List, [], ◌∷◌, Option, none, some, map, if◌then◌else◌}
use proxy_sentinel.Proxy.Decode.{itoa}
use proxy_sentinel.Storage.Audits
use proxy_sentinel.Storage.Audits.{AuditRecord, AuditFilter, count_audits_by_filter}
use proxy_sentinel.Api.Logs.{Call, atoi_default, time_param, sanitize_csv}

unfoldable pub parse_audit_filter : Call → AuditFilter
unfolding atoi_default time_param
parse_audit_filter c = record {
  start = time_param c (bytes "start");
  end = time_param c (bytes "end");
  username = c.query (bytes "username");
  keyword = c.query (bytes "keyword");
  ip = c.query (bytes "ip");
  page = atoi_default (c.query (bytes "page")) (pos 1);
  page_size = atoi_default (c.query (bytes "page_size")) (pos 50);
}

pub record PagedAudits : Type 0 where
  pub total : ℕ
  pub page : ℤ
  pub page_size : ℤ
  pub rows : List AuditRecord

-- `none` is the answer 500.
unfoldable pub list_audits_page : Call → Audits.Audits → Option PagedAudits
list_audits_page c t =
    let f = parse_audit_filter c in
    if c.count_fails || c.list_fails
    then none
    else some (record {
      total = count_audits_by_filter c.like f t;
      page = f.page;
      page_size = f.page_size;
      rows = Audits.list_audits c.like f t;
    })

-- The status and the record.
unfoldable pub get_audit_of : Call → Text → Audits.Audits → ℕ × Option AuditRecord
get_audit_of c path t = elim (parse_int path) [
  | none ↦ (400, none)
  | some id ↦
      if c.list_fails
      then (500, none)
      else elim (Audits.get_audit id t) [ none ↦ (404, none) | some r ↦ (200, some r) ]
]

abbrev pub audit_header : List Text
audit_header = bytes "id" ∷ bytes "username" ∷ bytes "action" ∷ bytes "ip" ∷ bytes "created_at" ∷ []

unfoldable pub audit_row : (ℕ → Text) → AuditRecord → List Text
audit_row format_time r =
    itoa r.id
    ∷ sanitize_csv r.username
    ∷ sanitize_csv r.action
    ∷ sanitize_csv r.ip
    ∷ format_time r.created_at
    ∷ []

-- The rows of the file; `none` is the answer 500.
unfoldable pub export_audits_csv : Call → Audits.Audits → Option (List (List Text))
export_audits_csv c t =
    let f : AuditFilter = record (parse_audit_filter c) { page = pos 1; page_size = pos 20_000 } in
    if c.list_fails
    then none
    else some (audit_header ∷ map (audit_row c.format_time) (Audits.list_audits c.like f t))
