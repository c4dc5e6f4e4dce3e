-- ===== src/Storage/HealthLogs.antt =====
-- The table of probes: internal/storage/health.go, without the aggregations.
use proxy_sentinel.Base.Int.{ℤ, pos, ltb_ℤ}
use proxy_sentinel.Base.Text.{Text}
use proxy_sentinel.Base.{
  ℕ, Bool, not, List, [], ◌∷◌, ◌++◌, Option, none, some, ltb, if◌then◌else◌, length, keep,
}

pub record HealthLog : Type 0 where
  pub backend_url : Text
  pub healthy : Bool
  pub latency_ms : ℤ
  pub status_code : Option ℤ
  pub error : Text
  pub checked_at : ℕ

-- A status that is not positive is NULL.
unfoldable pub insert_health_log : ℕ → Text → Bool → ℤ → ℤ → Text → List HealthLog → List HealthLog
insert_health_log now url healthy latency status message rows =
    rows
    ++ record {
      backend_url = url;
      healthy = healthy;
      latency_ms = latency;
      status_code = if ltb_ℤ (pos 0) status then some status else none;
      error = message;
      checked_at = now;
    }
      ∷ []

-- How many rows were deleted, and the rows that are left.
unfoldable pub delete_health_before : ℕ → List HealthLog → ℕ × List HealthLog
delete_health_before before rows = (
  length (keep (λ r. ltb r.checked_at before) rows),
  keep (λ r. not (ltb r.checked_at before)) rows,
)

unfoldable pub count_health_logs : List HealthLog → ℕ
count_health_logs rows = length rows
