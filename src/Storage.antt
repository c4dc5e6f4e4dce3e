-- ===== src/Storage.antt =====
-- The records that internal/storage/settings.go keeps in the settings table.
pub mod Users
pub mod Tokens
pub mod Settings
pub mod Paging
pub mod Logs
pub mod Audits
pub mod HealthLogs
use proxy_sentinel.Base.Int.{ℤ}
use proxy_sentinel.Base.Text.{Text}

pub record WeightedBackend : Type 0 where
  pub url : Text
  pub weight : ℤ
  pub health_path : Text

pub record RouteRule : Type 0 where
  pub type : Text
  pub key : Text
  pub value : Text
  pub backend : Text

pub record RewriteRule : Type 0 where
  pub prefix : Text
  pub replacement : Text
  pub backend : Text
