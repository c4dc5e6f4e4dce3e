-- ===== src/Api/Maintenance/Steps.antt =====
-- What one deletion of a purge leaves in the tables.
use mathlib.Core.List.{append_assoc}
use proxy_sentinel.Base.Affix.{text_eq_iff}
use proxy_sentinel.Base.Int.{ℤ}
use proxy_sentinel.Base.Text.{Text, bytes}
use proxy_sentinel.Base.{
  ℕ, ◌≤◌, ◌≡◌, ◌∙◌, sym, ap, refl, Bool, true, false, not, ◌||◌, List, [], ◌∷◌, ◌++◌, none, some,
  arith, ltb, ◌==◌, nat_eq, list_eq, any, All,
}
use proxy_sentinel.Storage.Logs.{LogRecord, delete_logs_before}
use proxy_sentinel.Storage.Audits.{AuditRecord, delete_audits_before, insert_audit}
use proxy_sentinel.Storage.HealthLogs.{HealthLog, delete_health_before}
use proxy_sentinel.Api.Maintenance.{
  Records, Call, Target, logs, health, audits, target_of, delete_from, purge_action, purge_entry,
}
use proxy_sentinel.Api.Maintenance.Rows.{purged, purged-append, joined}

-- Whether the request names the table.
abbrev pub names_table : Text → List Text → Bool
names_table table names = any (λ n. n == table) names

abbrev pub young_log : ℕ → LogRecord → Bool
young_log before r = not (ltb r.created_at before)

abbrev pub young_probe : ℕ → HealthLog → Bool
young_probe before r = not (ltb r.checked_at before)

abbrev pub young_audit : ℕ → AuditRecord → Bool
young_audit before r = not (ltb r.created_at before)

-- Each table that is named keeps the rows that are not older than the time, the others keep all; the audit
-- table has the entries of the purge behind them.
pub record IsPurged (now before : ℕ) (names : List Text) (r r' : Records) : Type 0 where
  pub logs_ : r'.logs.rows ≡ purged (young_log before) (names_table (bytes "log") names) r.logs.rows
  pub health_ :
      r'.health ≡ purged (young_probe before) (names_table (bytes "health") names) r.health
  pub entries : List AuditRecord
  pub audits_ :
      r'.audits.rows
      ≡ purged (young_audit before) (names_table (bytes "audit") names) r.audits.rows ++ entries
  pub own : All (λ e. e.created_at ≡ now) entries

abbrev is_logs : Target → Bool
is_logs logs = true
is_logs health = false
is_logs audits = false

abbrev is_health : Target → Bool
is_health logs = false
is_health health = true
is_health audits = false

abbrev is_audits : Target → Bool
is_audits logs = false
is_audits health = false
is_audits audits = true

-- One deletion with its entry.
unfoldable pub purge_one : Call → ℕ → ℤ → Text → Target → Records → Records
unfolding purge_entry
purge_one c before days name target r =
    purge_entry c name (delete_from target before r).0 days (delete_from target before r).1

-- The entry of a purge, as it is inserted.
entry_of :
    (c : Call) (before : ℕ) (days : ℤ) (name : Text) (target : Target) (r : Records)
    → (e : AuditRecord) × (e.created_at ≡ c.now)
      × ((purge_one c before days name target r).audits.rows
          ≡ (delete_from target before r).1.audits.rows ++ e ∷ [])
unfolding purge_one purge_entry insert_audit
entry_of c before days name target r = (
  record {
    id = (delete_from target before r).1.audits.next_id;
    username = c.current;
    action = purge_action name (delete_from target before r).0 days;
    ip = c.ip;
    created_at = c.now;
  },
  refl,
  refl,
)

-- What the other two tables are behind one deletion.
purge_one-logs :
    (c : Call) (before : ℕ) (days : ℤ) (name : Text) (target : Target) (r : Records)
    → ((purge_one c before days name target r).logs ≡ (delete_from target before r).1.logs)
      × ((purge_one c before days name target r).health ≡ (delete_from target before r).1.health)
unfolding purge_one purge_entry
purge_one-logs c before days name target r = (refl, refl)

-- The names are different.
target_names :
    (name : Text) (target : Target)
    → target_of name ≡ some target
    → ((name == bytes "log") ≡ is_logs target)
      × ((name == bytes "health") ≡ is_health target)
      × ((name == bytes "audit") ≡ is_audits target)
unfolding target_of
target_names name target e = ground (
  arith,
  e,
  text_eq_iff name (bytes "log"),
  text_eq_iff name (bytes "health"),
  text_eq_iff name (bytes "audit"),
)

unknown_names :
    (name : Text)
    → target_of name ≡ none
    → ((name == bytes "log") ≡ false)
      × ((name == bytes "health") ≡ false)
      × ((name == bytes "audit") ≡ false)
unfolding target_of
unknown_names name e = ground (arith, e)

-- What one deletion does to each table.
deleted :
    (target : Target) (before : ℕ) (r : Records)
    → let r' = (delete_from target before r).1 in
      (r'.logs.rows ≡ purged (young_log before) (is_logs target) r.logs.rows)
      × (r'.health ≡ purged (young_probe before) (is_health target) r.health)
      × (r'.audits.rows ≡ purged (young_audit before) (is_audits target) r.audits.rows)
unfolding delete_from delete_logs_before delete_health_before delete_audits_before purged
deleted logs before r = (refl, refl, refl)
deleted health before r = (refl, refl, refl)
deleted audits before r = (refl, refl, refl)

-- One round, in front of the others.
pub IsPurged-cons :
    (c : Call) (before : ℕ) (days : ℤ) (name : Text) (target : Target) (names : List Text)
    (r r' : Records)
    → before ≤ c.now
    → target_of name ≡ some target
    → IsPurged c.now before names (purge_one c before days name target r) r'
    → IsPurged c.now before (name ∷ names) r r'
IsPurged-cons c before days name target names r r' past known rest =
    let r1 = purge_one c before days name target r in
    let (is_log, is_probe, is_audit) = target_names name target known in
    let (logs1, health1, audits1) = deleted target before r in
    let (same_logs, same_health) = purge_one-logs c before days name target r in
    let (e, own, there) = entry_of c before days name target r in
    let d = (delete_from target before r).1.audits.rows in
    let young : young_audit before e ≡ true = ground (arith, own, past) in
    record {
      logs_ =
          joined (young_log before) (name == bytes "log") (is_logs target)
            (names_table (bytes "log") names) r.logs.rows r1.logs.rows r'.logs.rows is_log
            (ap (λ t. t.rows) same_logs ∙ logs1) rest.logs_;
      health_ =
          joined (young_probe before) (name == bytes "health") (is_health target)
            (names_table (bytes "health") names) r.health r1.health r'.health is_probe
            (same_health ∙ health1) rest.health_;
      entries = e ∷ rest.entries;
      audits_ =
          let n = names_table (bytes "audit") names in
          rest.audits_
          ∙ ap (λ xs. purged (young_audit before) n xs ++ rest.entries) there
          ∙ ap (λ xs. xs ++ rest.entries) (purged-append (young_audit before) n d e young)
          ∙ append_assoc (purged (young_audit before) n d) (e ∷ []) rest.entries
          ∙ ap (λ xs. xs ++ e ∷ rest.entries)
              (joined (young_audit before) (name == bytes "audit") (is_audits target) n
                r.audits.rows d (purged (young_audit before) n d) is_audit audits1 refl);
      own = (own, rest.own);
    }

-- A name that no table has changes nothing.
pub IsPurged-skip :
    (now before : ℕ) (name : Text) (names : List Text) (r r' : Records)
    → target_of name ≡ none
    → IsPurged now before names r r'
    → IsPurged now before (name ∷ names) r r'
IsPurged-skip now before name names r r' unknown rest =
    let (no_log, no_probe, no_audit) = unknown_names name unknown in
    record {
      logs_ =
          rest.logs_
          ∙ sym (
              ap (λ b. purged (young_log before) (b || names_table (bytes "log") names) r.logs.rows)
                no_log);
      health_ =
          rest.health_
          ∙ sym (
              ap
                (λ b.
                  purged (young_probe before) (b || names_table (bytes "health") names) r.health)
                no_probe);
      entries = rest.entries;
      audits_ =
          rest.audits_
          ∙ sym (
              ap
                (λ b.
                  purged (young_audit before) (b || names_table (bytes "audit") names) r.audits.rows
                  ++ rest.entries)
                no_audit);
      own = rest.own;
    }
