-- ===== src/Alert/Stored.antt =====
-- The rules of the engine in internal/alert/engine.go, stored and loaded, with the handler updateAlertConfig
-- of internal/api/alert.go. encoding/json, which fills a value that has the defaults, is an argument.
use proxy_sentinel.Base.Affix.{text_eq_iff}
use proxy_sentinel.Base.Int.{pos}
use proxy_sentinel.Base.Text.{Text, bytes}
use proxy_sentinel.Base.{
  ℕ, ◌≡◌, ◌≢◌, ◌∙◌, ◌⊎◌, inl, inr, Bool, true, false, List, [], ◌∷◌, ◌++◌, Option, none, some,
  arith, nat_eq, list_eq, Option-cases,
}
use proxy_sentinel.Storage.Settings.{
  Table, failed, absent, found, get_setting, set_setting, get-set,
}
use proxy_sentinel.Alert.{Floats, Rules, validate}
use proxy_sentinel.Api.Login.{Audit}

abbrev pub setting_key_alert_rules : Text
setting_key_alert_rules = bytes "alert_rules"

pub record Codec (F : Type 0) : Type 0 where
  pub marshal : Rules F → Option Text
  pub unmarshal : Text → Rules F → Option (Rules F)

pub record Call (F : Type 0) : Type 0 where
  pub current : Text
  pub ip : Text
  pub codec : Codec F
  pub write_fails : Bool

-- The table, and the rules that the engine keeps.
pub record Site (F : Type 0) : Type 0 where
  pub table : Table
  pub rules : Rules F
  pub audits : List Audit

module _ {F : Type 0} (fl : Floats F) where
  unfoldable pub default_rules : Rules F
  default_rules = record {
    enabled = false;
    error_rate_pct = fl.of_int (pos 10);
    window_minutes = pos 5;
    min_sample = pos 20;
    backend_down = true;
    latency_ms = pos 0;
    silence_minutes = pos 10;
  }

  unfoldable pub load_rules : Codec F → Bool → Table → Rules F
  load_rules codec fails t = elim (get_setting fails setting_key_alert_rules t) [
    | failed ↦ default_rules
    | absent ↦ default_rules
    | found v ↦ elim (codec.unmarshal v default_rules) [ none ↦ default_rules | some rules ↦ rules ]
  ]

  -- Rules that validation lets through; `none` is an error.
  unfoldable pub store_rules : Call F → Rules F → Site F → Option (Site F)
  store_rules c r s = elim (c.codec.marshal r) [
    | none ↦ none
    | some v ↦ elim (set_setting c.write_fails setting_key_alert_rules v s.table) [
      | none ↦ none
      | some t ↦ some (record s { table = t; rules = r })
    ]
  ]

  unfoldable pub set_rules : Call F → Rules F → Site F → Option (Site F)
  set_rules c r s = elim (validate fl r) [ some e ↦ none | none ↦ store_rules c r s ]

  unfoldable pub update_alert_config : Call F → Option (Rules F) → Site F → ℕ × Site F
  update_alert_config c none s = (400, s)
  update_alert_config c (some r) s = elim (set_rules c r s) [
    | none ↦ (400, s)
    | some s' ↦ (
      200,
      record s' {
        audits =
            s'.audits
            ++ record { username = c.current; action = bytes "alert_rules_updated"; ip = c.ip }
              ∷ [];
      },
    )
  ]

  -- Decoding undoes encoding, whatever the value is filled with.
  abbrev pub IsCodec : Codec F → Type 0
  IsCodec codec =
      (r d : Rules F) (v : Text) → codec.marshal r ≡ some v → codec.unmarshal v d ≡ some r

  -- Valid rules that the engine keeps, and that it loads from the table in its next round.
  pub record IsInForce (c : Call F) (r : Rules F) (s : Site F) : Type 0 where
    pub valid : validate fl r ≡ none
    pub kept : s.rules ≡ r
    pub loads : load_rules c.codec false s.table ≡ r

  rules_stored :
      (fails : Bool) (v : Text) (t t' : Table)
      → set_setting fails setting_key_alert_rules v t ≡ some t'
      → get_setting false setting_key_alert_rules t' ≡ found v
  rules_stored fails v t t' e =
      get-set fails setting_key_alert_rules setting_key_alert_rules v t t' e
      ∙ ground (arith, text_eq_iff setting_key_alert_rules setting_key_alert_rules)

  -- If JSON decodes what it encodes, new rules of the alerts are answered with 200 and are then valid, kept by
  -- the engine and loaded by its next round whose read works; or they are refused, and nothing changes.
  pub update_alert_config-IsInForce :
      (c : Call F) (r : Rules F) (s : Site F)
      → IsCodec c.codec
      → (((update_alert_config c (some r) s).0 ≡ 200)
          × IsInForce c r (update_alert_config c (some r) s).1)
        ⊎ (((update_alert_config c (some r) s).0 ≢ 200)
            × ((update_alert_config c (some r) s).1 ≡ s))
  unfolding update_alert_config set_rules store_rules load_rules
  update_alert_config-IsInForce c r s law = elim (Option-cases (validate fl r)) [
    | inr (e, bad) ↦ inr ((λ ok. absurd (ground (arith, bad, ok))), ground (arith, bad))
    | inl good ↦ elim (Option-cases (c.codec.marshal r)) [
      | inl unwritten ↦
          inr
            ((λ ok. absurd (ground (arith, good, unwritten, ok))), ground (arith, good, unwritten))
      | inr (v, encoded) ↦
          elim (Option-cases (set_setting c.write_fails setting_key_alert_rules v s.table)) [
            | inl refused ↦ inr (
              (λ ok. absurd (ground (arith, good, encoded, refused, ok))),
              ground (arith, good, encoded, refused),
            )
            | inr (t, stored) ↦ inl (
              ground (arith, good, encoded, stored),
              record {
                valid = good;
                kept = ground (arith, good, encoded, stored);
                loads = ground (
                  arith,
                  good,
                  encoded,
                  stored,
                  rules_stored c.write_fails v s.table t stored,
                  law r default_rules v encoded,
                );
              },
            )
          ]
    ]
  ]
