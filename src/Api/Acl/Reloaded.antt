-- ===== src/Api/Acl/Reloaded.antt =====
-- What an update of the IP lists puts in force, now and after a restart.
use mathlib.Core.Path.{subst⁻¹}
use proxy_sentinel.Base.Text.{Text}
use proxy_sentinel.Base.{
  ℕ, ◌≡◌, ◌≢◌, refl, ◌∙◌, Bool, false, none, some, arith, Option-cases, inl, inr, nat_eq, list_eq,
  ◌⊎◌,
}
use proxy_sentinel.Base.Affix.{text_eq_iff}
use proxy_sentinel.Ipacl.{Config, Acl, Result, ok, err, compile, allowed}
use proxy_sentinel.Ipacl.Semantics.{decision, compile-decision}
use proxy_sentinel.Ipacl.Parse.{RawConfig, complete, parse_config}
use proxy_sentinel.Storage.Settings.{
  Table, found, get-set, setting_ip_acl, get_setting_ip_acl, set_setting_ip_acl,
}
use proxy_sentinel.Api.Acl.{
  Codec, Call, Site, load_ip_acl, store_ip_acl, update_ip_acl, compiled_or,
}

-- Reading undoes writing: a configuration is written with both lists and without a field `entries`.
abbrev pub IsCodec : Codec → Type 0
IsCodec codec =
    (cfg : Config) (raw : Text)
    → codec.encode cfg ≡ some raw
    → ((codec.decode raw).probe ≡ some false)
      × ((codec.decode raw).current
          ≡ some (record {
            mode = cfg.mode;
            default = cfg.default;
            blacklist = some cfg.blacklist;
            whitelist = some cfg.whitelist;
          }))

-- The lists in force are those of the configuration, and those that a start from the table puts in force.
pub record IsInForce (c : Call) (cfg : Config) (s : Site) : Type 0 where
  pub lists : Acl
  pub acl_ : s.acl ≡ some lists
  pub decides : (ip : Text) → allowed c.parser lists ip ≡ decision c.parser cfg ip
  pub reloads : load_ip_acl c.codec c.parser false s.table none ≡ s.acl

-- An answer 200 with the lists in force, or any other answer with nothing changed.
abbrev pub IsUpdated : Call → Config → Site → ℕ × Site → Type 0
IsUpdated c cfg s (status, s') = ((status ≡ 200) × IsInForce c cfg s') ⊎ ((status ≢ 200) × (s' ≡ s))

parse_config-encode :
    (codec : Codec) (cfg : Config) (raw : Text)
    → IsCodec codec
    → codec.encode cfg ≡ some raw
    → parse_config (codec.decode raw) ≡ some cfg
unfolding parse_config complete
parse_config-encode codec cfg raw law e =
    let (probe, current) = law cfg raw e in ground (arith, probe, current)

ip_acl_stored :
    (fails : Bool) (raw : Text) (t t' : Table)
    → set_setting_ip_acl fails raw t ≡ some t'
    → get_setting_ip_acl false t' ≡ found raw
unfolding get_setting_ip_acl set_setting_ip_acl
ip_acl_stored fails raw t t' e =
    get-set fails setting_ip_acl setting_ip_acl raw t t' e
    ∙ ground (arith, text_eq_iff setting_ip_acl setting_ip_acl)

-- The two ways that an update of compiled lists can go.
store_ip_acl-cases :
    (c : Call) (cfg : Config) (l : Acl) (s : Site)
    → IsCodec c.codec
    → compile c.parser cfg ≡ ok l
    → IsUpdated c cfg s (store_ip_acl c cfg l s)
unfolding store_ip_acl load_ip_acl compiled_or
store_ip_acl-cases c cfg l s law compiled = elim (Option-cases (c.codec.encode cfg)) [
  | inl unwritten ↦ inr ((λ e. absurd (ground (arith, unwritten, e))), ground (arith, unwritten))
  | inr (raw, encoded) ↦ elim (Option-cases (set_setting_ip_acl c.write_fails raw s.table)) [
    | inl refused ↦
        inr ((λ e. absurd (ground (arith, encoded, refused, e))), ground (arith, encoded, refused))
    | inr (t, stored) ↦ inl (
      ground (arith, encoded, stored),
      record {
        lists = l;
        acl_ = ground (arith, encoded, stored);
        decides = λ ip. compile-decision c.parser cfg l ip compiled;
        reloads = ground (
          arith,
          encoded,
          stored,
          compiled,
          ip_acl_stored c.write_fails raw s.table t stored,
          parse_config-encode c.codec cfg raw law encoded,
        );
      },
    )
  ]
]

-- If JSON decodes what it encodes, an update of the IP lists is answered with 200, and then the lists in force
-- decide on every address text as the entries of the request say, and a restart whose read works puts the
-- same lists in force; or it is answered otherwise, and changes nothing.
pub update_ip_acl-IsInForce :
    (c : Call) (q : RawConfig) (s : Site)
    → IsCodec c.codec
    → IsUpdated c (complete q) s (update_ip_acl c (some q) s)
unfolding update_ip_acl
update_ip_acl-IsInForce c q s law = by_result (compile c.parser (complete q)) refl
  where
    by_result :
        (r : Result Acl)
        → compile c.parser (complete q) ≡ r
        → IsUpdated c (complete q) s (update_ip_acl c (some q) s)
    by_result (err e) bad = inr ((λ ok_. absurd (ground (arith, bad, ok_))), ground (arith, bad))
    by_result (ok l) good =
        subst⁻¹ (IsUpdated c (complete q) s) (ground (arith, good))
          (store_ip_acl-cases c (complete q) l s law good)
