-- ===== src/Api/Maintenance.antt =====
-- The manual purge of internal/api/maintenance.go, over the three tables that it can shorten, and the hourly
-- purge of startRetention in cmd/sentinel/main.go. The request's JSON, the calendar and the errors of the
-- database are arguments. The vacuum behind a purge changes no row and is left out, as are the statistics.
mod Rows
pub mod Steps
pub mod Purged
use proxy_sentinel.Base.Int.{ℤ, pos, ltb_ℤ}
use proxy_sentinel.Base.Text.{Text, bytes}
use proxy_sentinel.Base.{
  ℕ, Bool, true, false, not, List, [], ◌∷◌, ◌++◌, Option, none, some, ◌==◌, nat_eq, list_eq,
  if◌then◌else◌, length,
}
use proxy_sentinel.Storage.Logs.{Logs, delete_logs_before}
use proxy_sentinel.Storage.Audits.{Audits, delete_audits_before, insert_audit}
use proxy_sentinel.Storage.HealthLogs.{HealthLog, delete_health_before}
use proxy_sentinel.Proxy.Decode.{itoa}
use proxy_sentinel.Api.Logs.{format_int}

pub record Records : Type 0 where
  pub logs : Logs
  pub health : List HealthLog
  pub audits : Audits

pub record PurgeRequest : Type 0 where
  pub tables : List Text
  pub keep_days : ℤ
  pub confirm : Bool

pub record Call : Type 0 where
  pub now : ℕ
  pub current : Text
  pub ip : Text
  pub days_ago : ℤ → ℕ  -- the time so many days before now
  pub delete_fails : Text → Bool  -- whether the DELETE on a table reports an error

-- The Chinese words of the audit entry, in UTF-8.
abbrev purged_words : Text
purged_words =
    0xe6 ∷ 0x89 ∷ 0x8b ∷ 0xe5 ∷ 0x8a ∷ 0xa8 ∷ 0xe6 ∷ 0xb8 ∷ 0x85 ∷ 0xe7 ∷ 0x90 ∷ 0x86 ∷ 0x20 ∷ []

abbrev deleted_words : Text
deleted_words = 0xef ∷ 0xbc ∷ 0x9a ∷ 0xe5 ∷ 0x88 ∷ 0xa0 ∷ 0xe9 ∷ 0x99 ∷ 0xa4 ∷ 0x20 ∷ []

abbrev kept_words : Text
kept_words =
    0x20 ∷ 0xe6 ∷ 0x9d ∷ 0xa1 ∷ 0xef ∷ 0xbc ∷ 0x88 ∷ 0xe4 ∷ 0xbf ∷ 0x9d ∷ 0xe7 ∷ 0x95 ∷ 0x99 ∷ 0xe6
    ∷ 0x9c ∷ 0x80 ∷ 0xe8 ∷ 0xbf ∷ 0x91 ∷ 0x20 ∷ []

abbrev days_words : Text
days_words = 0x20 ∷ 0xe5 ∷ 0xa4 ∷ 0xa9 ∷ 0xef ∷ 0xbc ∷ 0x89 ∷ []

-- The tables that a purge knows.
pub data Target : Type 0 where
  logs health audits : Target

unfoldable pub target_of : Text → Option Target
target_of name =
    if name == bytes "log"
    then some logs
    else if name == bytes "health"
    then some health
    else if name == bytes "audit"
    then some audits
    else none

-- How many rows the DELETE takes, and what it leaves.
unfoldable pub delete_from : Target → ℕ → Records → ℕ × Records
delete_from logs before r =
    let (n, t) = delete_logs_before before r.logs in (n, record r { logs = t })
delete_from health before r =
    let (n, rows) = delete_health_before before r.health in (n, record r { health = rows })
delete_from audits before r =
    let (n, t) = delete_audits_before before r.audits in (n, record r { audits = t })

-- The action of the audit entry.
unfoldable pub purge_action : Text → ℕ → ℤ → Text
purge_action name n days =
    purged_words ++ name ++ deleted_words ++ itoa n ++ kept_words ++ format_int days ++ days_words

unfoldable pub purge_entry : Call → Text → ℕ → ℤ → Records → Records
purge_entry c name n days r = record r {
  audits = insert_audit c.now c.current (purge_action name n days) c.ip r.audits;
}

-- The loop over the tables of the request: whether it came to its end, and what it did until then.
unfoldable pub purge_tables : Call → ℕ → ℤ → List Text → Records → Bool × Records
purge_tables c before days [] r = (true, r)
purge_tables c before days (name ∷ names) r = elim (target_of name) [
  | none ↦ purge_tables c before days names r
  | some target ↦ elim (c.delete_fails name) [
    | true ↦ (false, r)
    | false ↦
        let (n, r') = delete_from target before r in
        purge_tables c before days names (purge_entry c name n days r')
  ]
]

unfoldable pub post_maintenance_purge : Call → Option PurgeRequest → Records → ℕ × Records
post_maintenance_purge c none r = (400, r)
post_maintenance_purge c (some q) r =
    if not (ltb_ℤ (pos 0) q.keep_days)
    then (400, r)
    else if not q.confirm
    then (400, r)
    else if length q.tables == 0
    then (400, r)
    else let (done, r') = purge_tables c (c.days_ago q.keep_days) q.keep_days q.tables r in
      (if done then 200 else 500, r')

-- One of the three purges of the hourly tick; no days are no purge.
unfoldable pub retain : Target → Bool → (ℤ → ℕ) → ℤ → Records → Records
retain target fails days_ago days r =
    if not (ltb_ℤ (pos 0) days)
    then r
    else if fails
    then r
    else (delete_from target (days_ago days) r).1

pub record RetentionDays : Type 0 where
  pub logs : ℤ
  pub health : ℤ
  pub audits : ℤ

-- The tick, with the errors of the three statements.
unfoldable pub retention_tick : (Target → Bool) → (ℤ → ℕ) → RetentionDays → Records → Records
retention_tick fails days_ago d r =
    retain audits (fails audits) days_ago d.audits
      (retain health (fails health) days_ago d.health (retain logs (fails logs) days_ago d.logs r))
