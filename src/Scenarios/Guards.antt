-- ===== src/Scenarios/Guards.antt =====
-- An IP list with one network, and a login limiter that locks after three failures.
use proxy_sentinel.Base.Map
use proxy_sentinel.Base.Map.{IsUnique}
use proxy_sentinel.Base.Text.{bytes, trim_space, Text}
use proxy_sentinel.Base.{
  true, ◌+◌, ◌*◌, ◌^◌, ◌≡◌, refl, false, List, [], ◌∷◌, none, some, arith, list_beq, ◌==◌, nat_eq,
  list_eq, if◌then◌else◌, All, Option, ◌&&◌,
}
use proxy_sentinel.Net.Ip.{v4, v6, is4, masked}
use proxy_sentinel.Ipacl.{
  Config, Parser, Acl, no_rules, ok, err, compile, compile_rules, compile_from, compile_value,
  add_prefix, has_slash, check_mode, check_default, check_whitelist, allowed, empty_whitelist,
}
use proxy_sentinel.Ipacl.Semantics.{decision, compile-decision}
use proxy_sentinel.Ipacl.Parse.{
  LegacyConfig, Decoded, parse_config, convert, legacy_decision, parse_config-decision,
}
use proxy_sentinel.Ipacl.{Entry}
use proxy_sentinel.Ipacl.Parse.{RawConfig, complete}
use proxy_sentinel.Storage.Settings.{set_setting, set_setting_ip_acl}
use proxy_sentinel.Base.Affix.{text_eq_iff}
use proxy_sentinel.Api.Acl
use proxy_sentinel.Api.Acl.{update_ip_acl, store_ip_acl}
use proxy_sentinel.Api.Acl.Reloaded.{IsCodec, IsUpdated, update_ip_acl-IsInForce}
use proxy_sentinel.Api.LoginLimiter
use proxy_sentinel.Api.LoginLimiter.{LoginEntry, LoginLimiter, new_login_limiter}
use proxy_sentinel.Api.LoginLimiter.Lockout.{
  after_failures, after_failures-allowed, Event, asked, failed, cleaned, IsElsewhere, run,
  run-locked,
}

-- A parser that knows one address in two spellings, and one network.
abbrev parser : Parser
parser = record {
  parse_addr = λ s.
      if s == bytes "10.0.0.7"
      then some (v4 0x0a000007)
      else if s == bytes "::ffff:10.0.0.7"
      then some (v6 (0xffff * 2 ^ 32 + 0x0a000007) [])
      else none;
  parse_prefix = λ s.
      if s == bytes "10.0.0.9/8" then some (record { addr = v4 0x0a000009; bits = 8 }) else none;
}

abbrev config : Config
config = record {
  mode = bytes "on";
  default = bytes "deny";
  blacklist = [];
  whitelist = record { value = bytes " 10.0.0.9/8 "; note = [] } ∷ [];
}

-- The network stands in the list with its host bits cleared.
abbrev compiled : Acl
compiled = record {
  mode = bytes "on";
  default = bytes "deny";
  black = no_rules;
  white = record {
    exact = [];
    prefix4 = record { addr = v4 0x0a000000; bits = 8 } ∷ [];
    prefix6 = [];
  };
}

compiles : compile parser config ≡ ok compiled
unfolding compile compile_rules compile_from compile_value add_prefix has_slash check_mode
    check_default check_whitelist masked is4 trim_space Map.lookup list_beq
compiles = refl

-- Without the entry nobody could get in.
deserted : compile parser (record config { whitelist = [] }) ≡ err empty_whitelist
unfolding compile compile_rules compile_from check_mode check_default check_whitelist list_beq
deserted = refl

compile-decision_example :
    allowed parser compiled (bytes "10.0.0.7") ≡ decision parser config (bytes "10.0.0.7")
compile-decision_example = compile-decision parser config compiled (bytes "10.0.0.7") compiles

abbrev limiter : LoginLimiter
limiter = record { entries = []; max_fail = 3; lock_dur = 60; idle_ttl = 900 }

fresh : Map.lookup (bytes "10.0.0.7") limiter.entries ≡ none
unfolding Map.lookup
fresh = refl

-- Three failures lock the address, from 30 to 90.
after_failures-allowed_example :
    (LoginLimiter.allowed 89
      (bytes "10.0.0.7")
      (after_failures (bytes "10.0.0.7") (30 ∷ 20 ∷ 10 ∷ []) limiter)).0
    ≡ false
after_failures-allowed_example =
    after_failures-allowed (bytes "10.0.0.7") 30 (20 ∷ 10 ∷ []) limiter 89 fresh

abbrev locked_entry : LoginEntry
locked_entry = record { failures = 3; last_fail = 30; locked_until = 90 }

abbrev locked : LoginLimiter
locked = record limiter { entries = (bytes "10.0.0.7", locked_entry) ∷ [] }

locked-IsUnique : IsUnique locked.entries
unfolding IsUnique Map.lookup
locked-IsUnique = (refl, tt)

locked_found : Map.lookup (bytes "10.0.0.7") locked.entries ≡ some locked_entry
unfolding Map.lookup list_beq
locked_found = refl

abbrev events : List Event
events = asked 40 (bytes "10.0.0.7") ∷ failed 45 (bytes "::1") ∷ cleaned 50 ∷ []

elsewhere : All (IsElsewhere (bytes "10.0.0.7") 90) events
unfolding IsElsewhere
elsewhere = (omega arith, (λ e. cc, (omega arith, tt)))

run-locked_example : (LoginLimiter.allowed 89 (bytes "10.0.0.7") (run locked events)).0 ≡ false
run-locked_example =
    run-locked locked (bytes "10.0.0.7") locked_entry events 89 locked-IsUnique locked_found
      elsewhere (omega arith)

-- The same network in the old format.
abbrev old_config : LegacyConfig
old_config = record { mode = bytes "whitelist"; entries = config.whitelist }

abbrev decoded : Decoded
decoded = record { probe = some true; legacy = some old_config; current = none }

parses_old : parse_config decoded ≡ some config
unfolding parse_config convert list_beq
parses_old = refl

parse_config-decision_example :
    allowed parser compiled (bytes "10.0.0.7")
    ≡ legacy_decision parser old_config (bytes "10.0.0.7")
parse_config-decision_example =
    parse_config-decision parser decoded old_config config compiled (bytes "10.0.0.7") refl refl
      parses_old compiles

-- A blacklist of one entry without a note is written as that entry.
encode_lists : Text → Text → List Entry → List Entry → Option Text
encode_lists mode default [] white = none
encode_lists mode default (e ∷ []) [] =
    if mode == bytes "on" && default == bytes "allow" && e.note == [] then some e.value else none
encode_lists mode default (e ∷ []) (w ∷ ws) = none
encode_lists mode default (e ∷ f ∷ es) white = none

abbrev barring : Text → List Entry
barring value = record { value = value; note = [] } ∷ []

abbrev acl_codec : Acl.Codec
acl_codec = record {
  encode = λ cfg. encode_lists cfg.mode cfg.default cfg.blacklist cfg.whitelist;
  decode = λ raw. record {
    probe = some false;
    legacy = none;
    current = some (record {
      mode = bytes "on";
      default = bytes "allow";
      blacklist = some (barring raw);
      whitelist = some [];
    });
  };
}

encode_lists-decodes :
    (mode default raw : Text) (black white : List Entry)
    → encode_lists mode default black white ≡ some raw
    → (mode ≡ bytes "on") × (default ≡ bytes "allow") × (black ≡ barring raw) × (white ≡ [])
unfolding encode_lists
encode_lists-decodes mode default raw [] white e = absurd (ground (arith, e))
encode_lists-decodes mode default raw (x ∷ []) [] e =
    let m = text_eq_iff mode (bytes "on") in
    let d = text_eq_iff default (bytes "allow") in
    let n = text_eq_iff x.note [] in
    (ground (arith, e, m, d, n), ground (arith, e, m, d, n), ground (arith, e, m, d, n), refl)
encode_lists-decodes mode default raw (x ∷ []) (w ∷ ws) e = absurd (ground (arith, e))
encode_lists-decodes mode default raw (x ∷ y ∷ xs) white e = absurd (ground (arith, e))

acl_codec-IsCodec : IsCodec acl_codec
acl_codec-IsCodec cfg raw e =
    let (m, d, b, w) =
      encode_lists-decodes cfg.mode cfg.default raw cfg.blacklist cfg.whitelist e in
    (refl, ground (arith, m, d, b, w))

abbrev acl_call : Acl.Call
acl_call = record {
  current = bytes "ann";
  ip = bytes "::1";
  codec = acl_codec;
  parser = parser;
  read_fails = false;
  write_fails = false;
}

abbrev acl_site : Acl.Site
acl_site = record { table = []; acl = none; audits = [] }

abbrev acl_request : RawConfig
acl_request = record {
  mode = bytes "on";
  default = bytes "allow";
  blacklist = some (barring (bytes "10.0.0.9/8"));
  whitelist = none;
}

acl_updated : (update_ip_acl acl_call (some acl_request) acl_site).0 ≡ 200
unfolding update_ip_acl complete compile compile_rules compile_from compile_value add_prefix
    has_slash check_mode check_default check_whitelist masked is4 store_ip_acl set_setting_ip_acl
    set_setting encode_lists trim_space Map.lookup list_beq
acl_updated = refl

update_ip_acl-IsInForce_example :
    IsUpdated acl_call
      (complete acl_request)
      acl_site
      (update_ip_acl acl_call (some acl_request) acl_site)
update_ip_acl-IsInForce_example =
    update_ip_acl-IsInForce acl_call acl_request acl_site acl_codec-IsCodec
