-- ===== src/Storage/Audits.antt =====
-- The table of audited actions: internal/storage/audit.go, and InsertAudit of internal/storage/auth.go. LIKE
-- is the argument `like`, with the pattern first.
use proxy_sentinel.Base.Int.{ℤ, pos, ltb_ℤ}
use proxy_sentinel.Base.Table.{find_row}
use proxy_sentinel.Base.Text.{Text, bytes}
use proxy_sentinel.Base.{
  ℕ, ◌+◌, Bool, not, ◌&&◌, ◌||◌, List, [], ◌∷◌, ◌++◌, Option, ltb, ◌==◌, nat_eq, list_eq, length,
  keep,
}
use proxy_sentinel.Storage.Paging.{page_of}
use proxy_sentinel.Storage.Logs.{anywhere, not_before, not_after}

pub record AuditRecord : Type 0 where
  pub id : ℕ
  pub username : Text
  pub action : Text
  pub ip : Text
  pub created_at : ℕ

-- A zero time is `none`.
pub record AuditFilter : Type 0 where
  pub start : Option ℕ
  pub end : Option ℕ
  pub username : Text
  pub keyword : Text
  pub ip : Text
  pub page : ℤ
  pub page_size : ℤ

-- The table, with the next id of AUTOINCREMENT.
pub record Audits : Type 0 where
  pub rows : List AuditRecord
  pub next_id : ℕ

unfoldable pub insert_audit : ℕ → Text → Text → Text → Audits → Audits
insert_audit now username action ip t = record {
  rows =
      t.rows
      ++ record { id = t.next_id; username = username; action = action; ip = ip; created_at = now }
        ∷ [];
  next_id = t.next_id + 1;
}

-- The conditions of the WHERE clause, those that are empty left out.
unfoldable pub matches : (Text → Text → Bool) → AuditFilter → AuditRecord → Bool
matches like f r =
    not_before f.start r.created_at
    && not_after f.end r.created_at
    && (f.username == [] || r.username == f.username)
    && (f.ip == [] || r.ip == f.ip || like (f.ip ++ bytes "%") r.ip)
    && (f.keyword == [] || like (anywhere f.keyword) r.action)

unfoldable pub count_audits_by_filter : (Text → Text → Bool) → AuditFilter → Audits → ℕ
count_audits_by_filter like f t = length (keep (matches like f) t.rows)

unfoldable pub list_audits : (Text → Text → Bool) → AuditFilter → Audits → List AuditRecord
list_audits like f t = page_of (matches like f) f.page f.page_size t.rows

unfoldable pub get_audit : ℤ → Audits → Option AuditRecord
get_audit id t = find_row (λ r. not (ltb_ℤ (pos r.id) id || ltb_ℤ id (pos r.id))) t.rows

-- How many rows were deleted, and the table.
unfoldable pub delete_audits_before : ℕ → Audits → ℕ × Audits
delete_audits_before before t = (
  length (keep (λ r. ltb r.created_at before) t.rows),
  record t { rows = keep (λ r. not (ltb r.created_at before)) t.rows },
)

unfoldable pub count_audits : Audits → ℕ
count_audits t = length t.rows
