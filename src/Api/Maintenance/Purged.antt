-- ===== src/Api/Maintenance/Purged.antt =====
-- What a purge leaves in the tables.
use proxy_sentinel.Base.Text.{Text}
use proxy_sentinel.Base.{List, nat_eq, list_eq}
