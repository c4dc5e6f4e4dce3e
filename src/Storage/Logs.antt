-- ===== src/Storage/Logs.antt =====
-- The table of logged requests: internal/storage/logs.go. The operator LIKE of the database is the argument
-- `like`, with the pattern first; an error of the database is an outcome that the callers choose.
use proxy_sentinel.Base.Int.{ℤ, pos, ltb_ℤ}
use proxy_sentinel.Base.Table.{find_row}
use proxy_sentinel.Base.Text.{Text, bytes}
use proxy_sentinel.Base.{
  ℕ, ◌+◌, Bool, true, not, ◌&&◌, ◌||◌, List, [], ◌∷◌, ◌++◌, Option, none, some, ltb, leb, ◌==◌,
  nat_eq, list_eq, if◌then◌else◌, length, keep,
}
use proxy_sentinel.Storage.Paging.{page_of}

pub record LogRecord : Type 0 where
  pub id : ℕ
  pub method : Text
  pub path : Text
  pub query : Text
  pub request_headers : Text
  pub request_body : Text
  pub status : ℤ
  pub response_headers : Text
  pub response_body : Text
  pub duration : ℤ
  pub client_ip : Text
  pub user_agent : Text
  pub referer : Text
  pub backend_url : Text
  pub request_id : Text
  pub created_at : ℕ

-- A zero time is `none`.
pub record LogFilter : Type 0 where
  pub start : Option ℕ
  pub end : Option ℕ
  pub method : Text
  pub path : Text
  pub status_min : ℤ
  pub status_max : ℤ
  pub min_duration : ℤ
  pub keyword : Text
  pub backend : Text
  pub request_id : Text
  pub page : ℤ
  pub page_size : ℤ

-- The table, with the next id of AUTOINCREMENT.
pub record Logs : Type 0 where
  pub rows : List LogRecord
  pub next_id : ℕ

unfoldable pub insert_log : LogRecord → Logs → Logs
insert_log r t = record {
  rows = t.rows ++ record r { id = t.next_id } ∷ [];
  next_id = t.next_id + 1;
}

-- One transaction: `fails` says whether the statement reports an error for a record, and one error takes
-- all of them back.
insert_all : (LogRecord → Bool) → List LogRecord → Logs → Option Logs
insert_all fails [] t = some t
insert_all fails (r ∷ rs) t =
    let rest = insert_all fails rs (insert_log r t) in if fails r then none else rest

unfoldable pub insert_logs : (LogRecord → Bool) → List LogRecord → Logs → Option Logs
unfolding insert_all
insert_logs fails rs t = insert_all fails rs t

-- A time that is not given bounds nothing.
abbrev pub not_before : Option ℕ → ℕ → Bool
not_before none at_ = true
not_before (some start) at_ = leb start at_

abbrev pub not_after : Option ℕ → ℕ → Bool
not_after none at_ = true
not_after (some end) at_ = leb at_ end

-- `%` in front of a text and behind it.
unfoldable pub anywhere : Text → Text
anywhere s = bytes "%" ++ s ++ bytes "%"

-- The conditions of the WHERE clause, those that are empty left out.
unfoldable pub matches : (Text → Text → Bool) → LogFilter → LogRecord → Bool
unfolding anywhere
matches like f r =
    not_before f.start r.created_at
    && not_after f.end r.created_at
    && (f.method == [] || r.method == f.method)
    && (f.path == [] || like (anywhere f.path) r.path)
    && (not (ltb_ℤ (pos 0) f.status_min) || not (ltb_ℤ r.status f.status_min))
    && (not (ltb_ℤ (pos 0) f.status_max) || not (ltb_ℤ f.status_max r.status))
    && (not (ltb_ℤ (pos 0) f.min_duration) || not (ltb_ℤ r.duration f.min_duration))
    && (f.keyword == []
        || like (anywhere f.keyword) r.request_body
        || like (anywhere f.keyword) r.response_body)
    && (f.backend == [] || r.backend_url == f.backend)
    && (f.request_id == [] || r.request_id == f.request_id)

unfoldable pub count_logs : (Text → Text → Bool) → LogFilter → Logs → ℕ
count_logs like f t = length (keep (matches like f) t.rows)

unfoldable pub list_logs : (Text → Text → Bool) → LogFilter → Logs → List LogRecord
list_logs like f t = page_of (matches like f) f.page f.page_size t.rows

unfoldable pub get_log : ℤ → Logs → Option LogRecord
get_log id t = find_row (λ r. not (ltb_ℤ (pos r.id) id || ltb_ℤ id (pos r.id))) t.rows

-- How many rows were deleted, and the table.
unfoldable pub delete_logs_before : ℕ → Logs → ℕ × Logs
delete_logs_before before t = (
  length (keep (λ r. ltb r.created_at before) t.rows),
  record t { rows = keep (λ r. not (ltb r.created_at before)) t.rows },
)

unfoldable pub count_all_logs : Logs → ℕ
count_all_logs t = length t.rows
