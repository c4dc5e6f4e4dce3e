-- ===== src/Ipacl/Parse.antt =====
-- ParseConfig of internal/ipacl/ipacl.go: configurations of the old format, with one list, become ones of
-- the new format. What encoding/json makes of the bytes is an argument: for each target `none` is its
-- error.
use proxy_sentinel.Base.Text.{Text, bytes}
use proxy_sentinel.Base.{
  ◌≡◌, refl, ◌∙◌, ap, Bool, true, false, not, List, [], Option, none, some, arith, ◌==◌, nat_eq,
  list_eq, list_beq, if◌then◌else◌,
}
use proxy_sentinel.Base.Affix.{text_eq_iff}
use proxy_sentinel.Ipacl.{Entry, Config, Parser, Acl, ok, compile, allowed}
use proxy_sentinel.Ipacl.Semantics.{decision, in_list, compile-decision}

pub record LegacyConfig : Type 0 where
  pub mode : Text
  pub entries : List Entry

-- The new format as it is decoded; a list that is missing is nil.
pub record RawConfig : Type 0 where
  pub mode : Text
  pub default : Text
  pub blacklist : Option (List Entry)
  pub whitelist : Option (List Entry)

-- The three readings of the bytes; `probe` tells whether there is a field `entries`.
pub record Decoded : Type 0 where
  pub probe : Option Bool
  pub legacy : Option LegacyConfig
  pub current : Option RawConfig

unfoldable pub convert : LegacyConfig → Config
convert lc =
    if lc.mode == bytes "off"
    then record { mode = bytes "off"; default = bytes "allow"; blacklist = []; whitelist = [] }
    else if lc.mode == bytes "blacklist"
    then record {
      mode = bytes "on";
      default = bytes "allow";
      blacklist = lc.entries;
      whitelist = [];
    }
    else if lc.mode == bytes "whitelist"
    then record {
      mode = bytes "on";
      default = bytes "deny";
      blacklist = [];
      whitelist = lc.entries;
    }
    else record {
      mode = bytes "off";
      default = bytes "allow";
      blacklist = lc.entries;
      whitelist = [];
    }

entries_of : Option (List Entry) → List Entry
entries_of none = []
entries_of (some es) = es

unfoldable pub complete : RawConfig → Config
unfolding entries_of
complete c = record {
  mode = c.mode;
  default = c.default;
  blacklist = entries_of c.blacklist;
  whitelist = entries_of c.whitelist;
}

-- `none` is an error.
unfoldable pub parse_config : Decoded → Option Config
parse_config d = elim d.probe [
  | none ↦ none
  | some true ↦ elim d.legacy [ none ↦ none | some lc ↦ some (convert lc) ]
  | some false ↦ elim d.current [ none ↦ none | some c ↦ some (complete c) ]
]

-- What a configuration of the old format means: one list, which refuses or lets through.
unfoldable pub legacy_decision : Parser → LegacyConfig → Text → Bool
legacy_decision ps lc ip =
    if lc.mode == bytes "blacklist"
    then not (in_list ps lc.entries ip)
    else if lc.mode == bytes "whitelist"
    then in_list ps lc.entries ip
    else true

empty_list : (ps : Parser) (ip : Text) → in_list ps [] ip ≡ false
unfolding in_list
empty_list ps ip = ground arith

mode_tests :
    ((bytes "on" == bytes "on") ≡ true)
    × ((bytes "off" == bytes "on") ≡ false)
    × ((bytes "allow" == bytes "allow") ≡ true)
    × ((bytes "deny" == bytes "allow") ≡ false)
    × ((bytes "deny" == []) ≡ false)
unfolding list_beq
mode_tests = (refl, refl, refl, refl, refl)

off_not_listed :
    (m : Text)
    → m ≡ bytes "off"
    → ((m == bytes "blacklist") ≡ false) × ((m == bytes "whitelist") ≡ false)
unfolding list_beq
off_not_listed m e = rw e (refl, refl)

convert-decision :
    (ps : Parser) (lc : LegacyConfig) (ip : Text)
    → decision ps (convert lc) ip ≡ legacy_decision ps lc ip
unfolding convert decision legacy_decision
convert-decision ps lc ip =
    ground (
      arith,
      mode_tests,
      empty_list ps ip,
      off_not_listed lc.mode,
      text_eq_iff lc.mode (bytes "off"),
    )

-- A configuration of the old format that parses and compiles decides on every address text as its one
-- list says: a blacklist refuses its entries, a whitelist refuses all else, and any other mode nothing.
pub parse_config-decision :
    (ps : Parser) (d : Decoded) (lc : LegacyConfig) (cfg : Config) (l : Acl) (ip : Text)
    → d.probe ≡ some true
    → d.legacy ≡ some lc
    → parse_config d ≡ some cfg
    → compile ps cfg ≡ ok l
    → allowed ps l ip ≡ legacy_decision ps lc ip
unfolding parse_config
parse_config-decision ps d lc cfg l ip old read parsed compiled =
    let converted : cfg ≡ convert lc = ground (arith, old, read, parsed) in
    compile-decision ps cfg l ip compiled
    ∙ ap (λ c. decision ps c ip) converted
    ∙ convert-decision ps lc ip
