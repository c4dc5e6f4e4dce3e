-- ===== src/Api/Audits/Export.antt =====
-- What the export of the audit log holds.
use proxy_sentinel.Base.{◌≡◌, refl, false, ◌∷◌, some, map, take}
use proxy_sentinel.Storage.Audits
use proxy_sentinel.Storage.Audits.{matches}
use proxy_sentinel.Storage.Paging.{page_number, page_size, offset, newest, page_of}
use proxy_sentinel.Api.Logs.{Call}
use proxy_sentinel.Api.Audits.{parse_audit_filter, audit_header, audit_row, export_audits_csv}

-- An export that the database does not fail is the header and a row for each of the newest 50 entries that
-- match, and no more, although its page size is 20,000.
export_audits_csv-newest :
    (c : Call) (t : Audits.Audits)
    → c.list_fails ≡ false
    → export_audits_csv c t
      ≡ some (
          audit_header
          ∷ map
              (audit_row c.format_time)
              (take 50 (newest (matches c.like (parse_audit_filter c)) t.rows)))
unfolding export_audits_csv Audits.list_audits page_of page_number page_size offset matches
export_audits_csv-newest c t works = rw works refl
